-- ===== src/Errors/Chain.antt =====
-- `errors.Is` on wrapped and joined chains.
use empower_technical_interv.Prelude.{
  ◌≡◌, refl, ◌||◌, true, ◌⊎◌, inl, inr, Option, none, some, [], ◌∷◌, ◌++◌, arith,
}
use empower_technical_interv.Errors.{Cause, Error, is, Result, ok, err, ◌>>=◌, check}

pub is-append : (c : Cause) (e f : Error) → is c (e ++ f) ≡ (is c e || is c f)
unfolding is
is-append c [] f = refl
is-append c (d ∷ e) f = ground (arith, is-append c e f)

pub is-append_right : (c : Cause) (e f : Error) → is c f ≡ true → is c (e ++ f) ≡ true
unfolding is
is-append_right c [] f h = h
is-append_right c (d ∷ e) f h = ground (arith, is-append_right c e f h)

pub Result-cases {ℓ} :
    {A : Type ℓ} (r : Result A) → ((a : A) × (r ≡ ok a)) ⊎ ((e : Error) × (r ≡ err e))
Result-cases (ok a) = inl (a, refl)
Result-cases (err e) = inr (e, refl)

-- Whatever error the result holds satisfies the predicate.
abbrev pub FailsWith {ℓ} : {A : Type ℓ} → (Error → Type 0) → Result A → Type 0
FailsWith P (ok a) = Unit
FailsWith P (err e) = P e

module _ (P : Error → Type 0) where
  pub bind-FailsWith {ℓ κ} :
      {A : Type ℓ} {B : Type κ} (m : Result A) (k : A → Result B)
      → FailsWith P m
      → ((a : A) → FailsWith P (k a))
      → FailsWith P (m >>= k)
  bind-FailsWith (ok a) k h g = g a
  bind-FailsWith (err e) k h g = h

  pub check-FailsWith :
      (o : Option Error) (prefix : Error)
      → ((e : Error) → o ≡ some e → P (prefix ++ e))
      → FailsWith P (check o prefix)
  check-FailsWith none prefix h = tt
  check-FailsWith (some e) prefix h = h e refl

  pub FailsWith-err {ℓ} : {A : Type ℓ} (r : Result A) {e : Error} → FailsWith P r → r ≡ err e → P e
  FailsWith-err r h same = rw same at h

-- A bind that succeeds has succeeded in both parts.
pub >>=-eq-ok {ℓ κ} :
    {A : Type ℓ} {B : Type κ} (m : Result A) (k : A → Result B) {b : B}
    → (m >>= k) ≡ ok b
    → (a : A) × (m ≡ ok a) × (k a ≡ ok b)
>>=-eq-ok (ok a) k h = (a, refl, h)
>>=-eq-ok (err e) k h = cc
