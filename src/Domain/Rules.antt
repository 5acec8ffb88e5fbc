-- ===== src/Domain/Rules.antt =====
-- What the validation rules of internal/domain accept.
use empower_technical_interv.Prelude.{
  ℕ, ◌≤◌, ◌≡◌, refl, ◌↔◌, true, List, [], ◌∷◌, none, arith, String, length,
}
use empower_technical_interv.Prelude.Int.{ℤ, pos, ◌≤ℤ◌}
use empower_technical_interv.Prelude.Text.{bytes}
use empower_technical_interv.Domain.{
  Money, validate_weight, all_upper, is_currency_code, validate_money,
}

abbrev pub InWeightRange : ℤ → Type 0
InWeightRange w = (pos 1 ≤ℤ w) × (w ≤ℤ pos 30000)

pub validate_weight_iff : (w : ℤ) → (validate_weight w ≡ none) ↔ InWeightRange w
unfolding validate_weight
validate_weight_iff w = (λ h. ground arith, λ h. ground arith)

abbrev pub IsUpper : ℕ → Type 0
IsUpper b = (b'A' ≤ b) × (b ≤ b'Z')

-- Exactly three bytes, each an upper-case ASCII letter.
abbrev pub IsCurrencyCode : String → Type 0
IsCurrencyCode s =
    (a : ℕ) × (b : ℕ) × (c : ℕ) × (bytes s ≡ a ∷ b ∷ c ∷ []) × IsUpper a × IsUpper b × IsUpper c

all_upper_three :
    (a b c : ℕ) → (all_upper (a ∷ b ∷ c ∷ []) ≡ true) ↔ (IsUpper a × IsUpper b × IsUpper c)
unfolding all_upper
all_upper_three a b c = (λ h. ground arith, λ h. ground arith)

three_bytes : (bs : List ℕ) → length bs ≡ 3 → (a : ℕ) × (b : ℕ) × (c : ℕ) × (bs ≡ a ∷ b ∷ c ∷ [])
three_bytes [] h = absurd (omega arith)
three_bytes (a ∷ []) h = absurd (omega arith)
three_bytes (a ∷ b ∷ []) h = absurd (omega arith)
three_bytes (a ∷ b ∷ c ∷ []) h = (a, b, c, refl)
three_bytes (a ∷ b ∷ c ∷ d ∷ bs) h = absurd (omega arith)

is_currency_code_parts :
    (s : String) → is_currency_code s ≡ true → (length (bytes s) ≡ 3) × (all_upper (bytes s) ≡ true)
unfolding is_currency_code
is_currency_code_parts s h = ground arith

pub is_currency_code_iff : (s : String) → (is_currency_code s ≡ true) ↔ IsCurrencyCode s
unfolding is_currency_code
is_currency_code_iff s = (
  λ h.
      let (three, upper) = is_currency_code_parts s h in
      let (a, b, c, e) = three_bytes (bytes s) three in
      let (ua, ub, uc) = (all_upper_three a b c).0 (rw e at upper) in (a, b, c, e, ua, ub, uc),
  λ (a, b, c, e, ua, ub, uc). rw e ((all_upper_three a b c).1 (ua, ub, uc)),
)

validate_money_tests :
    (m : Money)
    → (validate_money m ≡ none) ↔ ((pos 0 ≤ℤ m.amount_cents) × (is_currency_code m.currency ≡ true))
unfolding validate_money
validate_money_tests m = (λ h. ground arith, λ h. ground arith)

-- A price is accepted exactly when the amount is not negative and the currency is three upper-case
-- ASCII letters.
pub validate_money_iff :
    (m : Money)
    → (validate_money m ≡ none) ↔ ((pos 0 ≤ℤ m.amount_cents) × IsCurrencyCode m.currency)
validate_money_iff m = (
  λ h.
      let (amount, code) = (validate_money_tests m).0 h in
      (amount, (is_currency_code_iff m.currency).0 code),
  λ (amount, code). (validate_money_tests m).1 (amount, (is_currency_code_iff m.currency).1 code),
)
