-- ===== src/Ports/Dotenv/Kept.antt =====
-- RenderEnv and ParseOverrides: what the written file makes of the choices.
use empower_technical_interv.Prelude.{
  ℕ, ◌≡◌, refl, sym, ap, ◌∙◌, List, [], ◌∷◌, Option, none, some, String, or_else, All,
}
use empower_technical_interv.Prelude.Int.{ℤ}
use empower_technical_interv.Errors.{ok}
use empower_technical_interv.Ports.{Choice}
use empower_technical_interv.Ports.Dotenv.{
  raw_lines, parse_overrides, update_for, existing_lines, rendered_lines, render_updates,
  render_env, updates_from,
}
use empower_technical_interv.Ports.Dotenv.Lines.{
  value, says, overrides_from-reads, overrides_from-ok,
}
use empower_technical_interv.Ports.Dotenv.Names.{
  AllUpdates, updates_from-All, chosen_for, update_for-updates_from,
}
use empower_technical_interv.Ports.Dotenv.Rewrites.{IsWritable}
use empower_technical_interv.Ports.Dotenv.Rendered.{
  as_port, existing_lines-IsReadable, says-existing_lines, existing_lines-IsLine, raw_lines-join,
  rendered_lines-IsReadable, rendered_lines-IsLine, says-rendered_lines,
}

-- The file is read as before, but for the updates.
abbrev pub ReadsAs : (String → Option ℤ) → List (String × ℤ) → String → Type 0
ReadsAs updated m text =
    (m' : List (String × ℤ)) × (parse_overrides text ≡ ok m')
    × ((name : String) → value name m' ≡ or_else (updated name) (value name m))

or_none {ℓ} : {A : Type ℓ} (o : Option A) → or_else o none ≡ o
or_none none = refl
or_none (some n) = refl

render_updates-ReadsAs :
    (existing : String) (m : List (String × ℤ)) (updates : List (String × ℕ))
    → AllUpdates IsWritable updates
    → parse_overrides existing ≡ ok m
    → ReadsAs (λ name. as_port (update_for name updates)) m (render_updates existing updates)
unfolding parse_overrides
render_updates-ReadsAs existing m [] writable parsed = (m, parsed, λ name. refl)
render_updates-ReadsAs existing m (u ∷ us) writable parsed =
    let updates = u ∷ us in
    let readable = overrides_from-ok (raw_lines existing) [] m parsed in
    let lines = existing_lines existing in
    let good = existing_lines-IsReadable existing readable in
    let (all_read, same) =
      raw_lines-join (rendered_lines updates lines)
        (rendered_lines-IsLine updates writable lines (existing_lines-IsLine existing))
        (rendered_lines-IsReadable updates writable lines good) in
    let (before, parsed_before, values_before) =
      overrides_from-reads (raw_lines existing) [] readable in
    let (m', parsed', values) =
      overrides_from-reads (raw_lines (render_updates existing updates)) [] all_read in
    let unchanged : before ≡ m = cc in
    (
      m',
      parsed',
      λ name.
          values name
          ∙ or_none (says name (raw_lines (render_updates existing updates)))
          ∙ same name
          ∙ says-rendered_lines updates writable name lines
          ∙ ap (or_else (as_port (update_for name updates))) (
              sym (says-existing_lines name existing)
              ∙ sym (or_none (says name (raw_lines existing)))
              ∙ sym (values_before name)
              ∙ ap (value name) unchanged),
    )

-- What RenderEnv writes is read back: if the existing content is read by ParseOverrides, and each choice
-- is for a port variable and has a port whose line the scanner can read, then ParseOverrides reads the
-- rendered content too. Each name with a changed choice has the port of its last changed choice, and
-- every other name has what it had before, a carriage return at the end of a line, a commented line,
-- a repeated line and a missing line included.
pub parse_overrides-render_env :
    (existing : String) (choices : List Choice) (m : List (String × ℤ))
    → parse_overrides existing ≡ ok m
    → All (λ (c : Choice). IsWritable c.name c.chosen) choices
    → ReadsAs (λ name. as_port (chosen_for name choices)) m (render_env existing choices)
unfolding render_env
parse_overrides-render_env existing choices m parsed writable =
    let (m', parsed', values) =
      render_updates-ReadsAs existing m (updates_from [] choices)
        (updates_from-All IsWritable choices [] writable tt) parsed in
    (
      m',
      parsed',
      λ name.
          values name
          ∙ ap (λ o. or_else (as_port o) (value name m))
              (update_for-updates_from name choices [] ∙ or_none (chosen_for name choices)),
    )
