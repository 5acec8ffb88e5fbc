-- ===== src/Events/V1.antt =====
-- The events of the v1 contract, and Decode on them.
use empower_technical_interv.Prelude.{
  ◌≡◌, ◌≢◌, Option, none, some, arith, String, str_eq_iff, str_eq_refl, str_eq_ne,
}
use empower_technical_interv.Prelude.Int.{ℤ, pos}
use empower_technical_interv.Errors.{ok}
use empower_technical_interv.Domain.{Money, validate_weight, validate_money}
use empower_technical_interv.Events.{
  ShipmentCreated, ShipmentCreatedData, WireEvent, WireData, type_shipment_created, decode_contract,
  decode_parcel, decode_wire, decode_fields,
}

abbrev pub money_of : ShipmentCreatedData → Money
money_of d = record { amount_cents = d.amount_cents; currency = d.currency }

-- The domain rules on the parcel of an event.
pub record IsPriced (d : ShipmentCreatedData) : Type 0 where
  pub weight_ok : validate_weight d.weight_grams ≡ none
  pub money_ok : validate_money (money_of d) ≡ none

abbrev pub wire_data : ShipmentCreatedData → WireData
wire_data d = record {
  weight_grams = some d.weight_grams;
  amount_cents = some d.amount_cents;
  currency = some d.currency;
}

-- The JSON object of an event: every field is present.
abbrev pub wire_event : ShipmentCreated → WireEvent
wire_event e = record {
  event_id = some e.event_id;
  event_type = some e.event_type;
  version = some e.version;
  shipment_id = some e.shipment_id;
  occurred_at = some e.occurred_at;
  correlation_id = some e.correlation_id;
  parcel = some (wire_data e.parcel);
}

-- An event of the v1 contract.
pub record IsV1 (e : ShipmentCreated) : Type 0 where
  pub type_ok : e.event_type ≡ type_shipment_created
  pub version_ok : e.version ≡ pos 1
  pub event_id_ok : e.event_id ≢ ""
  pub shipment_id_ok : e.shipment_id ≢ ""
  pub priced : IsPriced e.parcel

decode_parcel_sound :
    (p : Option WireData) (d : ShipmentCreatedData)
    → decode_parcel p ≡ ok d
    → (p ≡ some (wire_data d)) × IsPriced d
unfolding decode_parcel
decode_parcel_sound p d h = ground arith

decode_parcel_complete :
    (d : ShipmentCreatedData) → IsPriced d → decode_parcel (some (wire_data d)) ≡ ok d
unfolding decode_parcel
decode_parcel_complete d h = rw (h.weight_ok, h.money_ok)

pub decode_contract_sound :
    (w : WireEvent) (t : String) (v : ℤ)
    → decode_contract w ≡ ok (t, v)
    → (w.event_type ≡ some t) × (w.version ≡ some v) × (t ≡ type_shipment_created) × (v ≡ pos 1)
unfolding decode_contract
decode_contract_sound w t v h = ground (arith, str_eq_iff t type_shipment_created)

decode_contract_complete :
    (w : WireEvent)
    → w.event_type ≡ some type_shipment_created
    → w.version ≡ some (pos 1)
    → decode_contract w ≡ ok (type_shipment_created, pos 1)
unfolding decode_contract
decode_contract_complete w t v = ground (arith, str_eq_refl type_shipment_created)

pub decode_wire_sound :
    (w : WireEvent) (e : ShipmentCreated) → decode_wire w ≡ ok e → (w ≡ wire_event e) × IsV1 e
unfolding decode_wire decode_fields
decode_wire_sound w e h = ground (
  arith,
  decode_contract_sound w e.event_type e.version,
  decode_parcel_sound w.parcel e.parcel,
  str_eq_refl "",
)

pub decode_wire_complete : (e : ShipmentCreated) → IsV1 e → decode_wire (wire_event e) ≡ ok e
unfolding decode_wire decode_fields
decode_wire_complete e v = ground (
  arith,
  decode_contract_complete (wire_event e),
  decode_parcel_complete e.parcel v.priced,
  str_eq_ne e.event_id "" v.event_id_ok,
  str_eq_ne e.shipment_id "" v.shipment_id_ok,
)
