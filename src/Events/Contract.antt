-- ===== src/Events/Contract.antt =====
-- What Decode accepts, how it classifies what it refuses, and the round trip with Encode.
use empower_technical_interv.Prelude.{
  ℕ, ◌≡◌, ◌≢◌, refl, ◌∙◌, ap, sym, subst, ◌↔◌, ◌⊎◌, inl, inr, List, [], ◌∷◌, none, some, arith,
  String, Option-cases,
}
use empower_technical_interv.Prelude.Int.{ℤ}
use empower_technical_interv.Errors.{malformed, Error, ok, err, same}
use empower_technical_interv.Errors.Chain.{Result-cases, FailsWith-err}
use empower_technical_interv.Domain.{Shipment, validate_weight, validate_money}
use empower_technical_interv.Domain.Ids.{new_event_id-ne-empty}
use empower_technical_interv.Events.{
  ShipmentCreated, WireEvent, Json, decode_contract, decode_wire, decode_fields, decode, encode,
  new_shipment_created,
}
use empower_technical_interv.Events.V1.{
  wire_event, IsV1, decode_contract_sound, decode_wire_sound, decode_wire_complete,
}
use empower_technical_interv.Events.Refusals.{
  IsForeign, IsMalformed, IsUnsupported, decode_contract_err, missing-IsMalformed,
  foreign-IsUnsupported, decode_fields-IsMalformed,
}

refused_decode_wire :
    (w : WireEvent) {f e : Error} → decode_contract w ≡ err f → decode_wire w ≡ err e → f ≡ e
unfolding decode_wire
refused_decode_wire w p q = ground arith

passed_decode_wire :
    (w : WireEvent) (c : String × ℤ) → decode_contract w ≡ ok c → decode_wire w ≡ decode_fields w c
unfolding decode_wire
passed_decode_wire w c p = rw p

decode_wire_err :
    (w : WireEvent) (e : Error)
    → decode_wire w ≡ err e
    → (IsForeign w × IsUnsupported e) ⊎ ((¬ IsForeign w) × IsMalformed e)
decode_wire_err w e h = elim (Result-cases (decode_contract w)) [
  | inr (f, refused) ↦ elim (decode_contract_err w f refused) [
    | inl (same_f, foreign) ↦ inl (
      foreign,
      subst IsUnsupported (sym same_f ∙ refused_decode_wire w refused h) foreign-IsUnsupported,
    )
    | inr (same_f, ours) ↦
        inr (
          ours,
          subst IsMalformed (sym same_f ∙ refused_decode_wire w refused h) missing-IsMalformed,
        )
  ]
  | inl (c, passed) ↦
      let (ty, ver, t, v) = decode_contract_sound w c.0 c.1 passed in
      inr (
        λ foreign. ground arith,
        FailsWith-err IsMalformed _ (decode_fields-IsMalformed w c)
            (sym (passed_decode_wire w c passed) ∙ h),
      )
]

module _ (j : Json) where
  -- A payload whose JSON is an object with a foreign type or version.
  abbrev pub ReadsForeign : j.Payload → Type 0
  ReadsForeign p = (w : WireEvent) × (j.unmarshal p ≡ some w) × IsForeign w

  -- Every payload that Decode refuses is refused for one of the two reasons: as unsupported exactly when
  -- it is JSON with another type or version than those of v1, and as malformed otherwise, also where
  -- it is not the JSON of an event at all.
  pub decode_err :
      (p : j.Payload) (e : Error)
      → decode j p ≡ err e
      → (ReadsForeign p × IsUnsupported e) ⊎ ((¬ ReadsForeign p) × IsMalformed e)
  unfolding decode
  decode_err p e h = elim (Option-cases (j.unmarshal p)) [
    | inl bad ↦
        let same : malformed ∷ [] ≡ e = ground arith in
        inr (λ foreign. absurd (cc), subst IsMalformed same missing-IsMalformed)
    | inr (w, read) ↦ elim (decode_wire_err w e (ground arith)) [
      | inl (foreign, why) ↦ inl ((w, read, foreign), why)
      | inr (ours, why) ↦ inr (
        λ (v, read_v, foreign). let same : v ≡ w = cc in ours (subst IsForeign same foreign),
        why,
      )
    ]
  ]

  -- Decode accepts a payload exactly when its JSON is that of a v1 event, and returns that event.
  pub decode_iff :
      (p : j.Payload) (e : ShipmentCreated)
      → (decode j p ≡ ok e) ↔ ((j.unmarshal p ≡ some (wire_event e)) × IsV1 e)
  unfolding decode
  decode_iff p e = (
    λ h. elim (Option-cases (j.unmarshal p)) [
      | inl bad ↦ ground arith
      | inr (w, read) ↦
          let (same, v) = decode_wire_sound w e (ground arith) in (read ∙ ap some same, v)
    ],
    λ (read, v). rw (read, decode) (decode_wire_complete e v),
  )

  -- Unmarshal reads back what Marshal wrote.
  abbrev pub RoundTrips : Type 0
  RoundTrips =
      (e : ShipmentCreated) (p : j.Payload)
      → j.marshal e ≡ some p
      → j.unmarshal p ≡ some (wire_event e)

  marshal_of_encode :
      (e : ShipmentCreated) {p : j.Payload} → encode j e ≡ ok p → j.marshal e ≡ some p
  marshal_of_encode e h = ground arith

pub new_shipment_created-IsV1 :
    (random : List ℕ) (s : Shipment) (correlation : String)
    → s.id ≢ ""
    → validate_weight s.weight_grams ≡ none
    → validate_money s.price ≡ none
    → IsV1 (new_shipment_created random s correlation)
unfolding new_shipment_created
new_shipment_created-IsV1 random s correlation named weight money = record {
  type_ok = refl;
  version_ok = refl;
  event_id_ok = new_event_id-ne-empty random;
  shipment_id_ok = named;
  priced = record { weight_ok = weight; money_ok = money };
}

-- What CreateShipment puts in the outbox is read back by the consumer as the same event, for every
-- shipment that passed the domain rules, if Unmarshal reads back what Marshal wrote.
pub decode-encode :
    (j : Json) (random : List ℕ) (s : Shipment) (correlation : String) {p : j.Payload}
    → RoundTrips j
    → s.id ≢ ""
    → validate_weight s.weight_grams ≡ none
    → validate_money s.price ≡ none
    → encode j (new_shipment_created random s correlation) ≡ ok p
    → decode j p ≡ ok (new_shipment_created random s correlation)
decode-encode j random s correlation {p} back named weight money written =
    let e = new_shipment_created random s correlation in
    (decode_iff j p e).1 (
      back e p (marshal_of_encode j e written),
      new_shipment_created-IsV1 random s correlation named weight money,
    )
