-- ===== src/Ports/Dotenv/Rewrites.antt =====
-- The lines that RenderEnv writes and keeps, and what they say to ParseOverrides.
use empower_technical_interv.Prelude.{
  ℕ, ◌≤◌, ◌≡◌, refl, sym, ap, subst, ◌∙◌, ◌⊎◌, inl, inr, Bool, true, false, ◌||◌, List, [], ◌∷◌,
  map, Option, none, some, String, str_eq, str_eq-cases, if◌then◌else◌, or_else, arith,
  Option-cases,
}
use empower_technical_interv.Prelude.Int.{ℤ, pos, i64_max}
use empower_technical_interv.Errors.{ok, err}
use empower_technical_interv.Storage.Outbox.{contains_id}
use empower_technical_interv.Ports.Dotenv.{
  Assignment, assignment, override_of, too_long, port_line, update_for, update_of, rewrite_line,
  written,
}
use empower_technical_interv.Ports.Dotenv.Matching.{assignment-strip_cr}
use empower_technical_interv.Ports.Dotenv.Written.{IsPortName, assignment-port_line, atoi-itoa}
use empower_technical_interv.Ports.Dotenv.Lines.{said, mention, says, IsReadable}
use empower_technical_interv.Ports.Dotenv.Names.{AllUpdates, update_for-All}

-- A name of a port variable, and a port whose line the scanner can read.
abbrev pub IsWritable : String → ℕ → Type 0
IsWritable name port = IsPortName name × (port ≤ i64_max) × (too_long (port_line name port) ≡ false)

port_line_override :
    (name : String) (port : ℕ)
    → IsWritable name port
    → override_of (port_line name port) ≡ ok (some (name, pos port))
unfolding override_of
port_line_override name port (is_name, small, short) =
    rw (assignment-strip_cr (port_line name port), override_of)
      (rw (assignment-port_line name port is_name) (rw (atoi-itoa port small) refl))

pub port_line-IsReadable :
    (name : String) (port : ℕ) → IsWritable name port → IsReadable (port_line name port)
port_line-IsReadable name port h = (h.2, (_, port_line_override name port h))

pub mention-port_line :
    (k name : String) (port : ℕ)
    → IsWritable name port
    → mention k (port_line name port) ≡ said k (some (name, pos port))
mention-port_line k name port h =
    ap (λ r. elim r [ err e ↦ none | ok q ↦ said k q ]) (port_line_override name port h)

-- A line that is no assignment, or one to another name, gives the name no port.
mention_unmatched : (k raw : String) → assignment raw ≡ none → mention k raw ≡ none
unfolding override_of
mention_unmatched k raw h = ground (arith, assignment-strip_cr raw)

mention_other :
    (k raw : String) (a : Assignment)
    → assignment raw ≡ some a
    → str_eq a.name k ≡ false
    → mention k raw ≡ none
unfolding override_of
mention_other k raw a h other = ground (arith, assignment-strip_cr raw)

-- Whether a line is replaced by one for the name.
abbrev names_line : List (String × ℕ) → String → String → Bool
names_line updates k raw = elim (update_of updates raw) [ none ↦ false | some u ↦ str_eq u.0 k ]

-- A line is left as it is, and gives no port to a name with an update; or it is replaced, and gave no
-- port to any other name.
abbrev Rewrites : List (String × ℕ) → String → Type 0
Rewrites updates raw =
    ((update_of updates raw ≡ none)
      × ((k : String) (port : ℕ) → update_for k updates ≡ some port → mention k raw ≡ none))
    ⊎ ((name : String) × ((port : ℕ) × ((update_of updates raw ≡ some (name, port))
            × ((update_for name updates ≡ some port)
                × ((k : String) → str_eq name k ≡ false → mention k raw ≡ none)))))

unmatched-Rewrites :
    (updates : List (String × ℕ)) (raw : String) → assignment raw ≡ none → Rewrites updates raw
unfolding update_of
unmatched-Rewrites updates raw h =
    inl (rw (h, update_of) refl, λ k port e. mention_unmatched k raw h)

kept-Rewrites :
    (updates : List (String × ℕ)) (raw : String) (a : Assignment)
    → assignment raw ≡ some a
    → update_for a.name updates ≡ none
    → Rewrites updates raw
unfolding update_of
kept-Rewrites updates raw a h kept = inl (
  rw (h, update_of) (rw kept refl),
  λ k port e. elim (str_eq-cases a.name k) [
    | inr (other, differs) ↦ mention_other k raw a h other
    | inl (same, equal) ↦
        let gone : update_for a.name updates ≡ some port =
          ap (λ n. update_for n updates) equal ∙ e in
        absurd (cc)
  ],
)

moved-Rewrites :
    (updates : List (String × ℕ)) (raw : String) (a : Assignment) (port : ℕ)
    → assignment raw ≡ some a
    → update_for a.name updates ≡ some port
    → Rewrites updates raw
unfolding update_of
moved-Rewrites updates raw a port h moved = inr (
  a.name,
  (port, (rw (h, update_of) (rw moved refl), (moved, λ k other. mention_other k raw a h other))),
)

line-Rewrites : (updates : List (String × ℕ)) (raw : String) → Rewrites updates raw
line-Rewrites updates raw = elim (Option-cases (assignment raw)) [
  | inl h ↦ unmatched-Rewrites updates raw h
  | inr (a, h) ↦ elim (Option-cases (update_for a.name updates)) [
    | inl kept ↦ kept-Rewrites updates raw a h kept
    | inr (port, moved) ↦ moved-Rewrites updates raw a port h moved
  ]
]

-- The line by what replaces it.
abbrev replaced : String → Option (String × ℕ) → String
replaced raw none = raw
replaced raw (some u) = port_line u.0 u.1

rewrite_line-replaced :
    (updates : List (String × ℕ)) (raw : String) {o : Option (String × ℕ)}
    → update_of updates raw ≡ o
    → rewrite_line updates raw ≡ replaced raw o
rewrite_line-replaced updates raw h = ground arith

pub either_given :
    (a b : Bool) (v : ℤ)
    → (if a || b then some v else none)
      ≡ or_else (if b then some v else none) (if a then some v else none)
either_given true true v = refl
either_given true false v = refl
either_given false true v = refl
either_given false false v = refl

module _ (updates : List (String × ℕ)) (writable : AllUpdates IsWritable updates) where
  -- A property of the line, and of the lines that are written, holds of the rewritten line.
  pub rewrite_line-has :
      (P : String → Type 0)
      → ((name : String) (port : ℕ) → IsWritable name port → P (port_line name port))
      → (raw : String) → P raw
      → P (rewrite_line updates raw)
  rewrite_line-has P lines raw h = elim (line-Rewrites updates raw) [
    | inl (kept, none_given) ↦ subst P (sym (rewrite_line-replaced updates raw kept)) h
    | inr (name, (port, (moved, (planned, others)))) ↦
        subst P (sym (rewrite_line-replaced updates raw moved))
          (lines name port (update_for-All IsWritable name updates writable planned))
  ]

  -- A rewritten line gives a name with an update that port, if it is one of its lines.
  rewrite_line-updated :
      (k raw : String) (port : ℕ)
      → update_for k updates ≡ some port
      → mention k (rewrite_line updates raw)
        ≡ (if names_line updates k raw then some (pos port) else none)
  rewrite_line-updated k raw port h = elim (line-Rewrites updates raw) [
    | inl (kept, none_given) ↦
        ap (mention k) (rewrite_line-replaced updates raw kept) ∙ none_given k port h ∙ ground arith
    | inr (name, (p, (moved, (planned, others)))) ↦
        ap (mention k) (rewrite_line-replaced updates raw moved)
        ∙ mention-port_line k name p (update_for-All IsWritable name updates writable planned)
        ∙ elim (str_eq-cases name k) [
          | inl (e, same) ↦
              let planned_k : update_for name updates ≡ some port =
                ap (λ n. update_for n updates) same ∙ h in
              ground arith
          | inr (e, differs) ↦ ground arith
        ]
  ]

  -- To a name without an update it gives what the line gave before.
  rewrite_line-kept :
      (k raw : String)
      → update_for k updates ≡ none
      → mention k (rewrite_line updates raw) ≡ mention k raw
  rewrite_line-kept k raw h = elim (line-Rewrites updates raw) [
    | inl (kept, none_given) ↦ ap (mention k) (rewrite_line-replaced updates raw kept)
    | inr (name, (p, (moved, (planned, others)))) ↦ elim (str_eq-cases name k) [
      | inl (e, same) ↦
          let gone : update_for name updates ≡ none = ap (λ n. update_for n updates) same ∙ h in
          absurd (cc)
      | inr (e, differs) ↦
          ap (mention k) (rewrite_line-replaced updates raw moved)
          ∙ mention-port_line k name p (update_for-All IsWritable name updates writable planned)
          ∙ rw e (sym (others k e))
    ]
  ]

  written-contains :
      (k raw : String) (raws : List String)
      → contains_id k (written updates (raw ∷ raws))
        ≡ (names_line updates k raw || contains_id k (written updates raws))
  unfolding written
  written-contains k raw raws = ground arith

  pub says-updated :
      (k : String) (port : ℕ) (raws : List String)
      → update_for k updates ≡ some port
      → says k (map (rewrite_line updates) raws)
        ≡ (if contains_id k (written updates raws) then some (pos port) else none)
  unfolding written
  says-updated k port [] h = refl
  says-updated k port (raw ∷ raws) h =
      ap (λ o. or_else o (mention k (rewrite_line updates raw))) (says-updated k port raws h)
      ∙ ap (or_else _) (rewrite_line-updated k raw port h)
      ∙ sym (
          ap (λ b. if b then some (pos port) else none) (written-contains k raw raws)
          ∙ either_given (names_line updates k raw) (contains_id k (written updates raws))
              (pos port))

  pub says-kept :
      (k : String) (raws : List String)
      → update_for k updates ≡ none
      → says k (map (rewrite_line updates) raws) ≡ says k raws
  says-kept k [] h = refl
  says-kept k (raw ∷ raws) h =
      ap (λ o. or_else o (mention k (rewrite_line updates raw))) (says-kept k raws h)
      ∙ ap (or_else (says k raws)) (rewrite_line-kept k raw h)
