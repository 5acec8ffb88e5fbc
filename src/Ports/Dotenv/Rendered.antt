-- ===== src/Ports/Dotenv/Rendered.antt =====
-- The content that RenderEnv makes, line by line, and what it says to ParseOverrides.
use empower_technical_interv.Prelude.{
  ℕ, ◌≡◌, refl, sym, ap, subst, ◌∙◌, inl, inr, true, List, [], ◌∷◌, ◌++◌, map, Option, none, some,
  String, str_eq, str_eq-cases, str_eq_refl, if◌then◌else◌, or_else, All, All-append, arith,
  Bool-cases, Option-cases,
}
use empower_technical_interv.Prelude.Text.{split_at, ◌<>◌}
use empower_technical_interv.Prelude.Int.{ℤ, pos}
use empower_technical_interv.Storage.Outbox.{contains_id}
use empower_technical_interv.Ports.Dotenv.{
  too_long, raw_lines, drop_last_empty, port_line, update_for, rewrite_line, written, missing,
  update_value, join_lines, existing_lines, rendered_lines, trim_newlines,
}
use empower_technical_interv.Ports.Dotenv.Texts.{
  IsLine, split_at-join, drop_last_empty-append, split_at-IsLine, split_at-trim, blanks,
}
use empower_technical_interv.Ports.Dotenv.Written.{port_line-IsLine}
use empower_technical_interv.Ports.Dotenv.Lines.{
  mention, says, IsReadable, says-append, says-drop_last_empty, says-blanks, blank_reads,
}
use empower_technical_interv.Ports.Dotenv.Names.{
  holds, AllUpdates, update_for-All, contains-missing,
}
use empower_technical_interv.Ports.Dotenv.Rewrites.{
  IsWritable, port_line-IsReadable, mention-port_line, rewrite_line-has, says-updated, says-kept,
  either_given,
}

All-map {ℓ κ μ} :
    {A : Type ℓ} {B : Type κ} (P : A → Type μ) (Q : B → Type μ) (f : A → B)
    → ((a : A) → P a → Q (f a))
    → (xs : List A) → All P xs
    → All Q (map f xs)
All-map P Q f h [] ps = tt
All-map P Q f h (x ∷ xs) ps = (h x ps.0, All-map P Q f h xs ps.1)

All-front {ℓ κ} : {A : Type ℓ} (P : A → Type κ) (xs ys : List A) → All P (xs ++ ys) → All P xs
All-front P [] ys h = tt
All-front P (x ∷ xs) ys h = (h.0, All-front P xs ys h.1)

blank_IsReadable : IsReadable ""
unfolding too_long
blank_IsReadable = (refl, (none, blank_reads))

drop_last_empty-IsReadable :
    (ls : List String) → All IsReadable (drop_last_empty ls) → All IsReadable ls
drop_last_empty-IsReadable [] h = tt
drop_last_empty-IsReadable (l ∷ []) h = elim (str_eq-cases l "") [
  | inl (e, same) ↦ (subst IsReadable (sym same) blank_IsReadable, tt)
  | inr (e, differs) ↦ rw e at h
]
drop_last_empty-IsReadable (l ∷ k ∷ ls) h = (h.0, drop_last_empty-IsReadable (k ∷ ls) h.1)

-- The lines that RenderEnv works on are lines that the scanner reads, and they say the same.
pub existing_lines-IsReadable :
    (text : String) → All IsReadable (raw_lines text) → All IsReadable (existing_lines text)
unfolding raw_lines existing_lines
existing_lines-IsReadable text h = elim (Bool-cases (str_eq text "")) [
  | inl empty ↦ rw empty tt
  | inr full ↦
      let (n, e) = split_at-trim text in
      rw full (
        All-front IsReadable (split_at 10 (trim_newlines text)) (blanks n)
          (subst (All IsReadable) e (drop_last_empty-IsReadable (split_at 10 text) h)))
]

pub says-existing_lines :
    (name text : String) → says name (raw_lines text) ≡ says name (existing_lines text)
unfolding raw_lines existing_lines str_eq
says-existing_lines name text = elim (str_eq-cases text "") [
  | inl (empty, same) ↦ rw same refl
  | inr (full, differs) ↦
      let (n, e) = split_at-trim text in
      let front = split_at 10 (trim_newlines text) in
      rw full (
        says-drop_last_empty name (split_at 10 text)
        ∙ ap (says name) e
        ∙ says-append name front (blanks n)
        ∙ ap (λ o. or_else o (says name front)) (says-blanks name n))
]

pub existing_lines-IsLine : (text : String) → All IsLine (existing_lines text)
unfolding existing_lines
existing_lines-IsLine text = elim (Bool-cases (str_eq text "")) [
  | inl empty ↦ rw empty tt
  | inr full ↦ rw full (split_at-IsLine (trim_newlines text))
]

-- Joined lines are read as they are; no line at all is read as an empty one.
pub raw_lines-join :
    (ls : List String)
    → All IsLine ls
    → All IsReadable ls
    → All IsReadable (raw_lines (join_lines ls <> "\n"))
      × ((name : String) → says name (raw_lines (join_lines ls <> "\n")) ≡ says name ls)
unfolding raw_lines join_lines str_eq
raw_lines-join [] h r = ((blank_IsReadable, tt), λ name. says-blanks name 1)
raw_lines-join (l ∷ ls) h r =
    let whole : drop_last_empty (split_at 10 (join_lines (l ∷ ls) <> "\n")) ≡ l ∷ ls =
      ap drop_last_empty (split_at-join l ls h) ∙ drop_last_empty-append (l ∷ ls) in
    (subst (All IsReadable) (sym whole) r, λ name. ap (says name) whole)

abbrev pub as_port : Option ℕ → Option ℤ
as_port none = none
as_port (some port) = some (pos port)

-- A property of all that a list contains.
contains-All {κ} :
    (P : String → Type κ) (ns : List String)
    → ((n : String) → contains_id n ns ≡ true → P n)
    → All P ns
contains-All P [] h = tt
contains-All P (n ∷ ns) h =
    (h n (ground (arith, str_eq_refl n)), contains-All P ns (λ k inside. h k (ground arith)))

module _ (updates : List (String × ℕ)) (writable : AllUpdates IsWritable updates) where
  abbrev line_of : String → String
  line_of name = port_line name (update_value updates name)

  abbrev Planned : String → Type 0
  Planned name = IsWritable name (update_value updates name)

  planned : (name : String) → holds (update_for name updates) ≡ true → Planned name
  planned name h = elim (Option-cases (update_for name updates)) [
    | inl gone ↦ absurd (ground arith)
    | inr (port, moved) ↦
        let same : update_value updates name ≡ port = ground arith in
        subst (IsWritable name) (sym same) (update_for-All IsWritable name updates writable moved)
  ]

  missing-Planned : (names : List String) → All Planned (missing updates names)
  missing-Planned names =
      contains-All Planned (missing updates names)
        (λ n inside. planned n (ground (arith, contains-missing n updates names)))

  says-lines :
      (k : String) (ns : List String)
      → All Planned ns
      → says k (map line_of ns)
        ≡ (if contains_id k ns then some (pos (update_value updates k)) else none)
  says-lines k [] h = refl
  says-lines k (n ∷ ns) (here, rest) =
      ap (λ o. or_else o (mention k (line_of n))) (says-lines k ns rest)
      ∙ ap (or_else _) (
          mention-port_line k n (update_value updates n) here ∙ elim (str_eq-cases n k) [
            | inl (e, same) ↦ rw e (ap (λ m. some (pos (update_value updates m))) same)
            | inr (e, differs) ↦ rw e refl
          ])
      ∙ sym (either_given (str_eq n k) (contains_id k ns) (pos (update_value updates k)))

  pub rendered_lines-IsReadable :
      (lines : List String) → All IsReadable lines → All IsReadable (rendered_lines updates lines)
  unfolding rendered_lines
  rendered_lines-IsReadable lines h =
      All-append IsReadable (map (rewrite_line updates) lines) _
        (All-map IsReadable IsReadable (rewrite_line updates)
          (rewrite_line-has updates writable IsReadable port_line-IsReadable) lines h)
        (All-map Planned IsReadable line_of (λ n p. port_line-IsReadable n _ p) _
          (missing-Planned (written updates lines)))

  pub rendered_lines-IsLine :
      (lines : List String) → All IsLine lines → All IsLine (rendered_lines updates lines)
  unfolding rendered_lines
  rendered_lines-IsLine lines h =
      All-append IsLine (map (rewrite_line updates) lines) _
        (All-map IsLine IsLine (rewrite_line updates)
          (rewrite_line-has updates writable IsLine (λ n port w. port_line-IsLine n port w.0)) lines
          h)
        (All-map Planned IsLine line_of (λ n p. port_line-IsLine n _ p.0) _
          (missing-Planned (written updates lines)))

  -- The rendered lines give each name its update, and the other names what they had.
  pub says-rendered_lines :
      (k : String) (lines : List String)
      → says k (rendered_lines updates lines)
        ≡ or_else (as_port (update_for k updates)) (says k lines)
  unfolding rendered_lines
  says-rendered_lines k lines =
      let ns = missing updates (written updates lines) in
      says-append k (map (rewrite_line updates) lines) (map line_of ns)
      ∙ ap (λ o. or_else o (says k (map (rewrite_line updates) lines)))
          (says-lines k ns (missing-Planned (written updates lines)))
      ∙ elim (Option-cases (update_for k updates)) [
        | inl gone ↦ ground (
          arith,
          contains-missing k updates (written updates lines),
          says-kept updates writable k lines gone,
        )
        | inr (port, moved) ↦ ground (
          arith,
          contains-missing k updates (written updates lines),
          says-updated updates writable k port lines moved,
        )
      ]
