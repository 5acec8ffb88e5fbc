-- ===== src/Events.antt =====
-- internal/events/events.go: the shipment.created.v1 message contract. The JSON codec is the
-- parameter `Json`; a payload is whatever it writes.
pub mod V1
pub mod Refusals
pub mod Contract
use empower_technical_interv.Prelude.{
  ℕ, Bool, true, false, not, ◌&&◌, List, [], ◌∷◌, Option, none, some, if◌then◌else◌, String, str_eq,
  ◌≡◌,
}
use empower_technical_interv.Prelude.Int.{ℤ, pos, eq_ℤ}
use empower_technical_interv.Errors.{
  Error, malformed, unsupported, Result, ok, err, ◌>>=◌, ◌>>◌, check,
}
use empower_technical_interv.Domain.{
  EventId, ShipmentId, Time, Shipment, Money, new_event_id, validate_weight, validate_money,
}

abbrev pub topic : String
topic = "shipment.created.v1"

abbrev pub type_shipment_created : String
type_shipment_created = "shipment.created"

abbrev pub schema_version : ℤ
schema_version = pos 1

abbrev pub header_correlation_id : String
header_correlation_id = "correlation_id"

abbrev pub header_event_type : String
header_event_type = "event_type"

abbrev pub header_schema_version : String
header_schema_version = "schema_version"

pub record ShipmentCreatedData : Type 0 where
  pub weight_grams : ℤ
  pub amount_cents : ℤ
  pub currency : String

pub record ShipmentCreated : Type 0 where
  pub event_id : EventId
  pub event_type : String
  pub version : ℤ
  pub shipment_id : ShipmentId
  pub occurred_at : Time
  pub correlation_id : String
  pub parcel : ShipmentCreatedData

-- The random bytes of the event ID are the first argument.
unfoldable pub new_shipment_created : List ℕ → Shipment → String → ShipmentCreated
new_shipment_created random s correlation = record {
  event_id = new_event_id random;
  event_type = type_shipment_created;
  version = schema_version;
  shipment_id = s.id;
  occurred_at = s.created_at;
  correlation_id = correlation;
  parcel = record {
    weight_grams = s.weight_grams;
    amount_cents = s.price.amount_cents;
    currency = s.price.currency;
  };
}

-- `none` is an absent or null field.
pub record WireData : Type 0 where
  pub weight_grams : Option ℤ
  pub amount_cents : Option ℤ
  pub currency : Option String

pub record WireEvent : Type 0 where
  pub event_id : Option String
  pub event_type : Option String
  pub version : Option ℤ
  pub shipment_id : Option String
  pub occurred_at : Option Time
  pub correlation_id : Option String
  pub parcel : Option WireData

-- What encoding/json does with the two types of this file.
pub record Json : Type 1 where
  pub Payload : Type 0
  pub marshal : ShipmentCreated → Option Payload
  pub unmarshal : Payload → Option WireEvent

abbrev pub encode : (j : Json) → ShipmentCreated → Result j.Payload
encode j e = elim (j.marshal e) [ none ↦ err [] | some p ↦ ok p ]

-- `fmt.Errorf("%w: missing %s", ErrMalformed, field)`
abbrev pub missing : String → Error
missing field = malformed ∷ []

abbrev require {ℓ} : {A : Type ℓ} → Option A → String → Result A
require none field = err (missing field)
require (some a) field = ok a

-- `p == nil || *p == ""`
abbrev require_text : Option String → String → Result String
require_text none field = err (missing field)
require_text (some s) field = if str_eq s "" then err (missing field) else ok s

abbrev require_supported : Bool → Result (Unit {0})
require_supported b = if not b then err (unsupported ∷ []) else ok tt

-- The first `switch`: type and version.
unfoldable pub decode_contract : WireEvent → Result (String × ℤ)
decode_contract w = do
  event_type ← require w.event_type "event_type"
  require_supported (str_eq event_type type_shipment_created)
  version ← require w.version "schema_version"
  require_supported (eq_ℤ version schema_version)
  ok (event_type, version)

-- The cases of the second `switch` on `w.Data`, and the domain rules.
unfoldable pub decode_parcel : Option WireData → Result ShipmentCreatedData
decode_parcel parcel = do
  d ← require parcel "data"
  weight ← require d.weight_grams "data.weight_grams"
  amount ← require d.amount_cents "data.amount_cents"
  currency ← require d.currency "data.currency"
  check (validate_weight weight) (malformed ∷ [])
  check (validate_money (record { amount_cents = amount; currency = currency })) (malformed ∷ [])
  ok (record { weight_grams = weight; amount_cents = amount; currency = currency })

-- The second `switch`, the domain rules and the final `return`.
unfoldable pub decode_fields : WireEvent → String × ℤ → Result ShipmentCreated
decode_fields w contract = do
  event_id ← require_text w.event_id "event_id"
  shipment_id ← require_text w.shipment_id "shipment_id"
  occurred_at ← require w.occurred_at "occurred_at"
  correlation_id ← require w.correlation_id "correlation_id"
  parcel ← decode_parcel w.parcel
  ok (record {
    event_id = event_id;
    event_type = contract.0;
    version = contract.1;
    shipment_id = shipment_id;
    occurred_at = occurred_at;
    correlation_id = correlation_id;
    parcel = parcel;
  })

unfoldable pub decode_wire : WireEvent → Result ShipmentCreated
decode_wire w = decode_contract w >>= decode_fields w

unfoldable pub decode : (j : Json) → j.Payload → Result ShipmentCreated
decode j payload = elim (j.unmarshal payload) [
  | none ↦ err (malformed ∷ [])
  | some w ↦ decode_wire w
]
