-- ===== src/Ports/Command/Outcomes.antt =====
-- tools/ports/main.go: what run makes of the .env file.
use empower_technical_interv.Prelude.{
  ◌≡◌, refl, sym, ap, subst, ◌∙◌, inl, inr, true, false, List, [], ◌∷◌, Option, none, some, String,
  if◌then◌else◌, ltb, or_else, All, arith, Bool-cases, ◌==◌, ==_iff,
}
use empower_technical_interv.Prelude.Int.{ℤ}
use empower_technical_interv.Errors.{ok, ◌>>=◌}
use empower_technical_interv.Ports.{Choice}
use empower_technical_interv.Ports.Dotenv.{parse_overrides, render_env}
use empower_technical_interv.Ports.Dotenv.Lines.{value}
use empower_technical_interv.Ports.Dotenv.Names.{chosen_for}
use empower_technical_interv.Ports.Dotenv.Rewrites.{IsWritable}
use empower_technical_interv.Ports.Dotenv.Rendered.{as_port}
use empower_technical_interv.Ports.Dotenv.Kept.{parse_overrides-render_env}
use empower_technical_interv.Ports.Command.{
  Machine, Plan, plan, run, finish, count_changed, base_content, read_env,
}

-- os.WriteFile writes, and the context has not ended.
abbrev pub IsWriting : Machine → Type 0
IsWriting m =
    (m.context_error ≡ none)
    × ((text : String) (file : Option String) → m.write_env text file ≡ (none, some text))

-- The content that is written over gives each name what .env gives it; a template that has only
-- commented assignments does.
abbrev pub IsBase : Machine → Plan → Type 0
IsBase m p =
    (content : String) × (before : List (String × ℤ)) × (base_content m p.root p.existing
      ≡ ok content)
    × (parse_overrides content ≡ ok before)
    × ((name : String) → value name before ≡ value name p.overrides)

none_changed : (name : String) (cs : List Choice) → count_changed cs ≡ 0 → chosen_for name cs ≡ none
unfolding count_changed
none_changed name [] h = refl
none_changed name (c ∷ cs) h = ground (arith, none_changed name cs)

-- The .env file after the run gives these ports.
abbrev pub Leaves : (String → Option ℤ) → Option String → Type 0
Leaves ports file =
    (content : String) × (overrides : List (String × ℤ)) × (read_env none file
      ≡ ok (content, overrides))
    × ((name : String) → value name overrides ≡ ports name)

-- The plan has read the file that it was made for.
plan-read :
    (m : Machine) (file : Option String) (p : Plan)
    → plan m file ≡ ok p
    → read_env none file ≡ ok (p.existing, p.overrides)
unfolding plan read_env
plan-read m file p h = ground arith

-- A run that only checks leaves the file, and its status says whether a port has to change. If the
-- machine writes, any other run ends with status 0, and what the .env file then gives each name is the
-- port of its last changed choice, or else what the file gave before.
pub run_settles :
    (m : Machine) (file : Option String) (p : Plan)
    → IsWriting m
    → plan m file ≡ ok p
    → IsBase m p
    → All (λ (c : Choice). IsWritable c.name c.chosen) p.choices
    → (run m true file ≡ (ok (if ltb 0 (count_changed p.choices) then 1 else 0), file))
      × ((run m false file).0 ≡ ok 0)
      × Leaves
          (λ name. or_else (as_port (chosen_for name p.choices)) (value name p.overrides))
          (run m false file).1
unfolding run finish read_env
run_settles m file p (going, writes) planned (content, before, base, read, same) writable =
    elim (Bool-cases (count_changed p.choices == 0)) [
      | inl calm ↦
          let ran : run m false file ≡ (ok 0, file) = rw (planned, run) (rw calm refl) in
          (
            rw (planned, run) refl,
            ap (λ r. r.0) ran,
            subst (Leaves _) (sym (ap (λ r. r.1) ran)) (
              p.existing,
              p.overrides,
              plan-read m file p planned,
              λ name.
                  ap (λ o. or_else (as_port o) (value name p.overrides))
                    (sym (none_changed name p.choices ((==_iff _ 0).0 calm))),
            ),
          )
      | inr busy ↦
          let rendered = render_env content p.choices in
          let (after, parsed, values) =
            parse_overrides-render_env content p.choices before read writable in
          let ran : run m false file ≡ (ok 0, some rendered) =
            rw (planned, run) (rw busy (rw going (rw base (rw (writes rendered file) refl)))) in
          (
            rw (planned, run) refl,
            ap (λ r. r.0) ran,
            subst (Leaves _) (sym (ap (λ r. r.1) ran)) (
              rendered,
              after,
              ap (λ r. r >>= λ overrides. ok (rendered, overrides)) parsed,
              λ name. values name ∙ ap (or_else (as_port (chosen_for name p.choices))) (same name),
            ),
          )
    ]
