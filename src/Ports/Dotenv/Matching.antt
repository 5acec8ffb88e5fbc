-- ===== src/Ports/Dotenv/Matching.antt =====
-- The regular expression on a line with a carriage return at its end.
use Prim.Native.Char.{code}
use Prim.Native.String.{char_at}
use text.Mathlib.TextEquality.{Char-path}
use empower_technical_interv.Prelude.{
  ℕ, ◌≡◌, refl, sym, ap, ◌∙◌, ◌⊎◌, inl, inr, Bool, false, String, str_eq, str_eq_ne, ◌==◌,
  Bool-cases, ==_iff,
}
use empower_technical_interv.Prelude.Text.{◌<>◌}
use empower_technical_interv.Config.Numbers.{digits_front, is_digit}
use empower_technical_interv.Ports.Dotenv.{
  is_space, is_name_code, skip_spaces, mark_front, name_front, match_value, match_name, assignment,
  strip_cr,
}

-- The second text is the first, or the first with a carriage return.
abbrev Tail : String → String → Type 0
Tail s t = (t ≡ s) ⊎ (t ≡ s <> "\r")

skip_spaces-return : (s : String) → Tail (skip_spaces s) (skip_spaces (s <> "\r"))
unfolding skip_spaces
skip_spaces-return String.[] = inl refl
skip_spaces-return (String.◌∷◌ c s) = elim (Bool-cases (is_space (code c))) [
  | inl space ↦ rw space (skip_spaces-return s)
  | inr other ↦ rw other (inr refl)
]

skip_spaces-Tail : (s t : String) → Tail s t → Tail (skip_spaces s) (skip_spaces t)
skip_spaces-Tail s t (inl e) = rw e (inl refl)
skip_spaces-Tail s t (inr e) = rw e (skip_spaces-return s)

-- The same front, and a rest with the same tail.
abbrev SameFront {ℓ} : {A : Type ℓ} → A × String → A × String → Type ℓ
SameFront p q = (q.0 ≡ p.0) × Tail p.1 q.1

name_front-return : (s : String) → SameFront (name_front s) (name_front (s <> "\r"))
unfolding name_front
name_front-return String.[] = (refl, inr refl)
name_front-return (String.◌∷◌ c s) = elim (Bool-cases (is_name_code (code c))) [
  | inl named ↦
      rw named (let (front, rest) = name_front-return s in (ap (String.◌∷◌ c) front, rest))
  | inr other ↦ rw other (refl, inr refl)
]

name_front-Tail : (s t : String) → Tail s t → SameFront (name_front s) (name_front t)
name_front-Tail s t (inl e) = rw e (refl, inl refl)
name_front-Tail s t (inr e) = rw e (name_front-return s)

digits_front-return : (s : String) → SameFront (digits_front s) (digits_front (s <> "\r"))
unfolding digits_front is_digit
digits_front-return String.[] = (refl, inr refl)
digits_front-return (String.◌∷◌ c s) = elim (Bool-cases (is_digit (code c))) [
  | inl digit ↦
      rw digit (let (front, rest) = digits_front-return s in (ap (String.◌∷◌ c) front, rest))
  | inr other ↦ rw other (refl, inr refl)
]

digits_front-Tail : (s t : String) → Tail s t → SameFront (digits_front s) (digits_front t)
digits_front-Tail s t (inl e) = rw e (refl, inl refl)
digits_front-Tail s t (inr e) = rw e (digits_front-return s)

-- The marks are not the carriage return.
mark_front-return :
    (mark : ℕ)
    → (13 == mark) ≡ false
    → (s : String) → SameFront (mark_front mark s) (mark_front mark (s <> "\r"))
unfolding mark_front
mark_front-return mark h String.[] = rw h (refl, inr refl)
mark_front-return mark h (String.◌∷◌ c s) = elim (Bool-cases (code c == mark)) [
  | inl marked ↦ rw marked (refl, inr refl)
  | inr other ↦ rw other (refl, inr refl)
]

mark_front-Tail :
    (mark : ℕ)
    → (13 == mark) ≡ false
    → (s t : String) → Tail s t
    → SameFront (mark_front mark s) (mark_front mark t)
mark_front-Tail mark h s t (inl e) = rw e (refl, inl refl)
mark_front-Tail mark h s t (inr e) = rw e (mark_front-return mark h s)

-- What is left after the spaces of the end.
is_blank-return : (s : String) → str_eq (skip_spaces (s <> "\r")) "" ≡ str_eq (skip_spaces s) ""
unfolding skip_spaces
is_blank-return String.[] = refl
is_blank-return (String.◌∷◌ c s) = elim (Bool-cases (is_space (code c))) [
  | inl space ↦ rw space (is_blank-return s)
  | inr other ↦ rw other (
      str_eq_ne (String.◌∷◌ c (s <> "\r")) "" (λ e. cc)
      ∙ sym (str_eq_ne (String.◌∷◌ c s) "" (λ e. cc)))
]

is_blank-Tail : (s t : String) → Tail s t → str_eq (skip_spaces t) "" ≡ str_eq (skip_spaces s) ""
is_blank-Tail s t (inl e) = rw e refl
is_blank-Tail s t (inr e) = rw e (is_blank-return s)

match_value-Tail :
    (commented : Bool) (name s t : String)
    → Tail s t
    → match_value commented name t ≡ match_value commented name s
unfolding match_value
match_value-Tail commented name s t h =
    let (value, end) = digits_front-Tail _ _ (skip_spaces-Tail s t h) in
    rw (value, match_value) (rw (is_blank-Tail _ _ end) refl)

match_name-Tail :
    (commented : Bool) (s t : String) → Tail s t → match_name commented t ≡ match_name commented s
unfolding match_name
match_name-Tail commented s t h =
    let (name, after) = name_front-Tail _ _ (skip_spaces-Tail s t h) in
    let (equals, rest) = mark_front-Tail b'=' refl _ _ (skip_spaces-Tail _ _ after) in
    rw (equals, match_name) (rw name (rw (match_value-Tail commented _ _ _ rest) refl))

assignment-Tail : (s t : String) → Tail s t → assignment t ≡ assignment s
unfolding assignment
assignment-Tail s t h =
    let (mark, rest) = mark_front-Tail b'#' refl _ _ (skip_spaces-Tail s t h) in
    rw (mark, assignment) (match_name-Tail _ _ _ rest)

strip_cr-Tail : (raw : String) → Tail (strip_cr raw) raw
unfolding strip_cr
strip_cr-Tail String.[] = inl refl
strip_cr-Tail (String.◌∷◌ c String.[]) = elim (Bool-cases (code c == 13)) [
  | inr other ↦ rw other (inl refl)
  | inl return ↦
      let same = Char-path c (char_at "\r" 0) ((==_iff (code c) 13).0 return) in
      rw return (inr (ap (λ d. String.◌∷◌ d "") same))
]
strip_cr-Tail (String.◌∷◌ c (String.◌∷◌ d s)) = elim (strip_cr-Tail (String.◌∷◌ d s)) [
  | inl e ↦ inl (ap (String.◌∷◌ c) e)
  | inr e ↦ inr (ap (String.◌∷◌ c) e)
]

-- The carriage return that the scanner drops makes no difference to the match.
pub assignment-strip_cr : (raw : String) → assignment (strip_cr raw) ≡ assignment raw
assignment-strip_cr raw = sym (assignment-Tail (strip_cr raw) raw (strip_cr-Tail raw))
