-- ===== src/Ports/Dotenv/Lines.antt =====
-- ParseOverrides as what each line says: which lines it can read, and which port a name has after them.
use empower_technical_interv.Prelude.{
  ℕ, zero, suc, ◌≡◌, refl, sym, ap, ◌∙◌, inl, inr, false, List, [], ◌∷◌, ◌++◌, Option, none, some,
  String, str_eq, str_eq_iff, if◌then◌else◌, or_else, All, arith, Bool-cases,
}
use empower_technical_interv.Prelude.Int.{ℤ}
use empower_technical_interv.Errors.{ok, err}
use empower_technical_interv.Errors.Chain.{Result-cases}
use empower_technical_interv.Ports.{entry}
use empower_technical_interv.Ports.Dotenv.{
  override_of, add_override, overrides_from, too_long, assignment, strip_cr, drop_last_empty,
  skip_spaces, match_name, mark_front, name_front,
}
use empower_technical_interv.Ports.Dotenv.Texts.{blanks}

-- The port of a name in the map.
abbrev pub value {ℓ} : {A : Type ℓ} → String → List (String × A) → Option A
value name m = elim (entry name m) [ none ↦ none | some p ↦ some p.1 ]

abbrev pub said : String → Option (String × ℤ) → Option ℤ
said name none = none
said name (some p) = if str_eq p.0 name then some p.1 else none

-- The port that a line gives to a name.
abbrev pub mention : String → String → Option ℤ
mention name raw = elim (override_of raw) [ err e ↦ none | ok p ↦ said name p ]

-- The port that the last of the lines gives to a name.
abbrev pub says : String → List String → Option ℤ
says name [] = none
says name (raw ∷ raws) = or_else (says name raws) (mention name raw)

abbrev pub IsReadable : String → Type 0
IsReadable raw = (too_long raw ≡ false) × ((p : Option (String × ℤ)) × (override_of raw ≡ ok p))

value-add :
    (name : String) (p : Option (String × ℤ)) (m : List (String × ℤ))
    → value name (add_override p m) ≡ or_else (said name p) (value name m)
value-add name none m = refl
value-add name (some p) m = ground arith

or_else_assoc {ℓ} :
    {A : Type ℓ} (a b c : Option A) → or_else a (or_else b c) ≡ or_else (or_else a b) c
or_else_assoc none b c = refl
or_else_assoc (some a) b c = refl

-- What ParseOverrides gives for lines that it can read.
pub overrides_from-reads :
    (raws : List String) (m : List (String × ℤ))
    → All IsReadable raws
    → (m' : List (String × ℤ)) × (overrides_from m raws ≡ ok m')
      × ((name : String) → value name m' ≡ or_else (says name raws) (value name m))
unfolding overrides_from
overrides_from-reads [] m h = (m, refl, λ name. refl)
overrides_from-reads (raw ∷ raws) m ((short, (p, reads)), rest) =
    let (m', parsed, values) = overrides_from-reads raws (add_override p m) rest in
    (
      m',
      rw (short, overrides_from) (rw (reads, overrides_from) parsed),
      λ name.
          values name
          ∙ ap (or_else (says name raws)) (value-add name p m)
          ∙ or_else_assoc (says name raws) (said name p) (value name m)
          ∙ ap
              (λ r.
                or_else (or_else (says name raws) (elim r [ err e ↦ none | ok q ↦ said name q ]))
                  (value name m))
              (sym reads),
    )

-- If ParseOverrides succeeds, it can read every line.
pub overrides_from-ok :
    (raws : List String) (m m' : List (String × ℤ))
    → overrides_from m raws ≡ ok m'
    → All IsReadable raws
unfolding overrides_from
overrides_from-ok [] m m' h = tt
overrides_from-ok (raw ∷ raws) m m' h = elim (Bool-cases (too_long raw)) [
  | inl long ↦ absurd (ground arith)
  | inr short ↦ elim (Result-cases (override_of raw)) [
    | inr (e, bad) ↦ absurd (ground arith)
    | inl (p, reads) ↦ (
      (short, (p, reads)),
      overrides_from-ok raws (add_override p m) m'
          (rw (reads, overrides_from) at (rw (short, overrides_from) at h)),
    )
  ]
]

-- An empty line says nothing.
pub blank_reads : override_of "" ≡ ok none
unfolding override_of assignment strip_cr skip_spaces match_name mark_front name_front
blank_reads = refl

pub says-append :
    (name : String) (xs ys : List String)
    → says name (xs ++ ys) ≡ or_else (says name ys) (says name xs)
says-append name [] ys = ground arith
says-append name (x ∷ xs) ys =
    ap (λ o. or_else o (mention name x)) (says-append name xs ys)
    ∙ sym (or_else_assoc (says name ys) (says name xs) (mention name x))

mention_blank : (name : String) → mention name "" ≡ none
mention_blank name = ap (λ r. elim r [ err e ↦ none | ok q ↦ said name q ]) blank_reads

pub says-drop_last_empty :
    (name : String) (ls : List String) → says name (drop_last_empty ls) ≡ says name ls
says-drop_last_empty name [] = refl
says-drop_last_empty name (l ∷ []) = ground (arith, mention_blank name, str_eq_iff l "")
says-drop_last_empty name (l ∷ k ∷ ls) =
    ap (λ o. or_else o (mention name l)) (says-drop_last_empty name (k ∷ ls))

pub says-blanks : (name : String) (n : ℕ) → says name (blanks n) ≡ none
says-blanks name zero = refl
says-blanks name (suc n) = ground (arith, mention_blank name, says-blanks name n)
