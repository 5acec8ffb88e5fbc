-- ===== src/Prelude/Lists.antt =====
-- Lists measured by native numbers, under the library's names, and predicates on their elements.
use Prim.Native.String.{String}
use Prim.Native.Nat.{ℕ, zero, suc, ◌+◌, ◌≤◌}
use mathlib.Core.Path.{◌≡◌, refl, ◌∙◌, ap}
use mathlib.Core.Logic.{◌⊎◌, inl, inr}
use mathlib.Core.Bool.{Bool}
use mathlib.Core.List.{List, [], ◌∷◌, ◌++◌}
use mathlib.Core.Option.{Option, none, some}
use native.Mathlib.Omega.{arith}
use empower_technical_interv.Prelude.Tests.{if◌then◌else◌, str_eq, str_eq_iff}

module _ {ℓ} {A : Type ℓ} where
  abbrev pub length : List A → ℕ
  length [] = 0
  length (x ∷ xs) = suc (length xs)

  abbrev pub take : ℕ → List A → List A
  take zero xs = []
  take (suc n) [] = []
  take (suc n) (x ∷ xs) = x ∷ take n xs

  pub length-append : (xs ys : List A) → length (xs ++ ys) ≡ length xs + length ys
  length-append [] ys = omega arith
  length-append (x ∷ xs) ys = omega (arith, length-append xs ys)

  pub length-take-le : (n : ℕ) (xs : List A) → length (take n xs) ≤ n
  length-take-le zero xs = omega arith
  length-take-le (suc n) [] = omega arith
  length-take-le (suc n) (x ∷ xs) = omega (arith, length-take-le n xs)

-- The rows for which the test holds, in order.
abbrev pub select {ℓ} : {A : Type ℓ} → (A → Bool) → List A → List A
select p [] = []
select p (x ∷ xs) = let rest = select p xs in if p x then x ∷ rest else rest

-- The first row for which the test holds.
abbrev pub find_row {ℓ} : {A : Type ℓ} → (A → Bool) → List A → Option A
find_row p [] = none
find_row p (x ∷ xs) = let rest = find_row p xs in if p x then some x else rest

-- The first row with a key.
abbrev pub lookup_by {ℓ} : {A : Type ℓ} → (A → String) → String → List A → Option A
lookup_by key k [] = none
lookup_by key k (x ∷ xs) =
    let rest = lookup_by key k xs in if str_eq (key x) k then some x else rest

abbrev pub or_else {ℓ} : {A : Type ℓ} → Option A → Option A → Option A
or_else none o = o
or_else (some a) o = some a

abbrev pub All {ℓ κ} : {A : Type ℓ} → (A → Type κ) → List A → Type κ
All Q [] = Unit
All Q (row ∷ rows) = Q row × All Q rows

pub All-append {ℓ κ} :
    {A : Type ℓ} (Q : A → Type κ) (front back : List A)
    → All Q front
    → All Q back
    → All Q (front ++ back)
All-append Q [] back fronts backs = backs
All-append Q (x ∷ front) back (here, fronts) backs = (here, All-append Q front back fronts backs)

pub All-mono {ℓ κ μ} :
    {A : Type ℓ} (P : A → Type κ) (Q : A → Type μ)
    → ((x : A) → P x → Q x)
    → (xs : List A) → All P xs
    → All Q xs
All-mono P Q f [] h = tt
All-mono P Q f (x ∷ xs) h = (f x h.0, All-mono P Q f xs h.1)

-- Some element of a list has the property.
abbrev pub Any {ℓ} : {A : Type ℓ} → (A → Type 0) → List A → Type 0
Any P [] = ⊥
Any P (x ∷ xs) = P x ⊎ Any P xs

pub Any-map {ℓ} :
    {A : Type ℓ} (P Q : A → Type 0) (xs : List A) → ((x : A) → P x → Q x) → Any P xs → Any Q xs
Any-map P Q [] f h = h
Any-map P Q (x ∷ xs) f (inl h) = inl (f x h)
Any-map P Q (x ∷ xs) f (inr h) = inr (Any-map P Q xs f h)

pub Any-append {ℓ} : {A : Type ℓ} (P : A → Type 0) (xs ys : List A) → Any P xs → Any P (xs ++ ys)
Any-append P [] ys h = absurd h
Any-append P (x ∷ xs) ys (inl h) = inl h
Any-append P (x ∷ xs) ys (inr h) = inr (Any-append P xs ys h)

pub All-front {ℓ κ} :
    {A : Type ℓ} (Q : A → Type κ) (front back : List A) → All Q (front ++ back) → All Q front
All-front Q [] back h = tt
All-front Q (x ∷ front) back h = (h.0, All-front Q front back h.1)

pub All-back {ℓ κ} :
    {A : Type ℓ} (Q : A → Type κ) (front back : List A) → All Q (front ++ back) → All Q back
All-back Q [] back h = h
All-back Q (x ∷ front) back h = All-back Q front back h.1

-- No two rows share a key.
abbrev pub Distinct {ℓ} : {A : Type ℓ} → (A → String) → List A → Type ℓ
Distinct key [] = Unit
Distinct key (x ∷ xs) = (lookup_by key (key x) xs ≡ none) × Distinct key xs

module _ {ℓ} {A : Type ℓ} (key : A → String) where
  pub lookup_by-append :
      (k : String) (xs ys : List A)
      → lookup_by key k (xs ++ ys) ≡ or_else (lookup_by key k xs) (lookup_by key k ys)
  lookup_by-append k [] ys = refl
  lookup_by-append k (x ∷ xs) ys = ground (arith, lookup_by-append k xs ys)

  pub lookup_by-append_some :
      (k : String) (xs ys : List A) {a : A}
      → lookup_by key k xs ≡ some a
      → lookup_by key k (xs ++ ys) ≡ some a
  lookup_by-append_some k xs ys h =
      lookup_by-append k xs ys ∙ ap (λ o. or_else o (lookup_by key k ys)) h

  pub lookup_by-append_none :
      (k : String) (xs ys : List A)
      → lookup_by key k xs ≡ none
      → lookup_by key k (xs ++ ys) ≡ lookup_by key k ys
  lookup_by-append_none k xs ys h =
      lookup_by-append k xs ys ∙ ap (λ o. or_else o (lookup_by key k ys)) h

  pub lookup_by_key : (k : String) (xs : List A) {a : A} → lookup_by key k xs ≡ some a → key a ≡ k
  lookup_by_key k [] h = cc
  lookup_by_key k (x ∷ xs) {a} h = ground (arith, str_eq_iff (key x) k, lookup_by_key k xs {a = a})

  pub Distinct-append :
      (xs : List A) (x : A)
      → Distinct key xs
      → lookup_by key (key x) xs ≡ none
      → Distinct key (xs ++ x ∷ [])
  Distinct-append [] x d h = (refl, tt)
  Distinct-append (y ∷ xs) x d h = ground (
    arith,
    Distinct-append xs x d.1,
    lookup_by-append_none (key y) xs (x ∷ []) d.0,
    str_eq_iff (key x) (key y),
    str_eq_iff (key y) (key x),
  )
