-- ===== src/Events/Refusals.antt =====
-- The two ways in which Decode refuses a payload.
use empower_technical_interv.Prelude.{
  ◌≡◌, ◌≢◌, refl, ◌⊎◌, inl, inr, true, false, [], ◌∷◌, Option, none, some, arith, String, str_eq,
  str_eq-cases, Option-cases, Bool-cases,
}
use empower_technical_interv.Prelude.Int.{ℤ, pos, eq_ℤ}
use empower_technical_interv.Errors.{Error, malformed, unsupported, err, check, is, same}
use empower_technical_interv.Errors.Chain.{FailsWith, bind-FailsWith, check-FailsWith}
use empower_technical_interv.Domain.{Money, validate_weight, validate_money}
use empower_technical_interv.Events.{
  WireEvent, WireData, type_shipment_created, decode_contract, decode_parcel, require, require_text,
  decode_fields,
}

-- Decoding fails in two ways: unsupported for a type or a version that is present and is not the
-- one of v1, malformed for all else.
abbrev pub IsForeign : WireEvent → Type 0
IsForeign w =
    ((t : String) × (w.event_type ≡ some t) × (t ≢ type_shipment_created))
    ⊎ ((w.event_type ≡ some type_shipment_created) × ((v : ℤ) × (w.version ≡ some v) × (v ≢ pos 1)))

pub decode_contract_err :
    (w : WireEvent) (e : Error)
    → decode_contract w ≡ err e
    → ((e ≡ unsupported ∷ []) × IsForeign w) ⊎ ((e ≡ malformed ∷ []) × (¬ IsForeign w))
unfolding decode_contract
decode_contract_err w e h = elim (Option-cases w.event_type) [
  | inl absent ↦ inr (ground arith, λ f. ground arith)
  | inr (t, present) ↦ elim (str_eq-cases t type_shipment_created) [
    | inr (other, ne) ↦ inl (ground arith, inl (t, present, ne))
    | inl (ours, same) ↦ elim (Option-cases w.version) [
      | inl absent ↦ inr (ground arith, λ f. ground arith)
      | inr (v, given) ↦ elim (Bool-cases (eq_ℤ v (pos 1))) [
        | inl one ↦ inr (ground arith, λ f. ground arith)
        | inr two ↦ inl (ground arith, inr (ground arith, (v, given, ground arith)))
      ]
    ]
  ]
]

-- What `errors.Is` finds in the two kinds of error.
abbrev pub IsMalformed : Error → Type 0
IsMalformed e = (is malformed e ≡ true) × (is unsupported e ≡ false)

abbrev pub IsUnsupported : Error → Type 0
IsUnsupported e = (is malformed e ≡ false) × (is unsupported e ≡ true)

pub missing-IsMalformed : IsMalformed (malformed ∷ [])
unfolding is same
missing-IsMalformed = (refl, refl)

pub foreign-IsUnsupported : IsUnsupported (unsupported ∷ [])
unfolding is same
foreign-IsUnsupported = (refl, refl)

wrapped_weight-IsMalformed :
    (w : ℤ) {e : Error} → validate_weight w ≡ some e → IsMalformed (malformed ∷ e)
unfolding validate_weight is same
wrapped_weight-IsMalformed w h = ground arith

wrapped_money-IsMalformed :
    (m : Money) {e : Error} → validate_money m ≡ some e → IsMalformed (malformed ∷ e)
unfolding validate_money is same
wrapped_money-IsMalformed m h = ground arith

require-IsMalformed {ℓ} :
    {A : Type ℓ} (o : Option A) (field : String) → FailsWith IsMalformed (require o field)
require-IsMalformed none field = missing-IsMalformed
require-IsMalformed (some a) field = tt

require_text-IsMalformed :
    (o : Option String) (field : String) → FailsWith IsMalformed (require_text o field)
require_text-IsMalformed none field = missing-IsMalformed
require_text-IsMalformed (some s) field = elim (Bool-cases (str_eq s "")) [
  | inl empty ↦ rw (empty, require_text) missing-IsMalformed
  | inr full ↦ rw (full, require_text) tt
]

decode_parcel-IsMalformed : (p : Option WireData) → FailsWith IsMalformed (decode_parcel p)
unfolding decode_parcel
decode_parcel-IsMalformed p =
    bind-FailsWith IsMalformed (require p "data") _ (require-IsMalformed p "data") λ d.
      bind-FailsWith IsMalformed (require d.weight_grams "data.weight_grams") _
        (require-IsMalformed d.weight_grams "data.weight_grams")
        λ weight.
          bind-FailsWith IsMalformed (require d.amount_cents "data.amount_cents") _
            (require-IsMalformed d.amount_cents "data.amount_cents")
            λ amount.
              bind-FailsWith IsMalformed (require d.currency "data.currency") _
                (require-IsMalformed d.currency "data.currency")
                λ currency.
                  bind-FailsWith IsMalformed (check (validate_weight weight) (malformed ∷ [])) _
                    (check-FailsWith IsMalformed (validate_weight weight) (malformed ∷ [])
                      (λ e h. wrapped_weight-IsMalformed weight h))
                    λ _.
                      let m : Money = record { amount_cents = amount; currency = currency } in
                      bind-FailsWith IsMalformed (check (validate_money m) (malformed ∷ [])) _
                        (check-FailsWith IsMalformed (validate_money m) (malformed ∷ [])
                          (λ e h. wrapped_money-IsMalformed m h))
                        λ _. tt

pub decode_fields-IsMalformed :
    (w : WireEvent) (c : String × ℤ) → FailsWith IsMalformed (decode_fields w c)
unfolding decode_fields
decode_fields-IsMalformed w c =
    bind-FailsWith IsMalformed (require_text w.event_id "event_id") _
      (require_text-IsMalformed w.event_id "event_id")
      λ _.
        bind-FailsWith IsMalformed (require_text w.shipment_id "shipment_id") _
          (require_text-IsMalformed w.shipment_id "shipment_id")
          λ _.
            bind-FailsWith IsMalformed (require w.occurred_at "occurred_at") _
              (require-IsMalformed w.occurred_at "occurred_at")
              λ _.
                bind-FailsWith IsMalformed (require w.correlation_id "correlation_id") _
                  (require-IsMalformed w.correlation_id "correlation_id")
                  λ _.
                    bind-FailsWith IsMalformed (decode_parcel w.parcel) _
                      (decode_parcel-IsMalformed w.parcel) λ _. tt
