-- ===== src/Tests.antt =====
-- Samples for the tests: a codec, column types, a calm network, one shipment with its event, and the
-- tables before and after the steps that the shipment goes through.
mod Store
mod Requests
mod Tools
mod Consumer
mod Broker
mod Smoke
mod Commands
mod Processes
mod System
use empower_technical_interv.Prelude.{
  ℕ, Bool, true, false, List, [], ◌∷◌, Option, none, some, String, str_eq, ◌≡◌, refl,
}
use empower_technical_interv.Prelude.Int.{ℤ, pos}
use empower_technical_interv.Errors.{Error}
use empower_technical_interv.Domain.{Time, Money, Shipment}
use empower_technical_interv.Events.{
  Json, ShipmentCreated, WireEvent, type_shipment_created, schema_version,
}
use empower_technical_interv.Events.V1.{wire_event}
use empower_technical_interv.Storage.Tables.{
  Columns, ShipmentRow, OutboxRow, DispatchRow, Db, Network, Commit, committed, IsCalm,
}
use empower_technical_interv.Storage.Shipments.{OutboxEvent}
use empower_technical_interv.Storage.Dispatches.{DispatchRequest}
use empower_technical_interv.Storage.Invariant.{IsConsistent}

-- A codec whose payloads are the decoded bodies.
abbrev pub json : Json
json = record { Payload = WireEvent; marshal = λ e. some (wire_event e); unmarshal = λ p. some p }

abbrev pub pg : Columns WireEvent
pg = record { jsonb = λ p. some p; timestamptz = λ t. t; char3 = λ s. some s }

abbrev pub calm : Network
calm = record {
  begin = none;
  first = none;
  second = none;
  third = none;
  is_locked = λ id. false;
  now = 20;
  commit = committed;
}

pub calm_ok : IsCalm calm
calm_ok = record { begin_ok = refl; first_ok = refl; second_ok = refl; commit_ok = refl }

abbrev pub price : Money
price = record { amount_cents = pos 1250; currency = "EUR" }

abbrev pub shipment : Shipment
shipment = record { id = "shp_1"; weight_grams = pos 500; price = price; created_at = 10 }

abbrev pub event : ShipmentCreated
event = record {
  event_id = "evt_1";
  event_type = type_shipment_created;
  version = schema_version;
  shipment_id = "shp_1";
  occurred_at = 10;
  correlation_id = "req_1";
  parcel = record { weight_grams = pos 500; amount_cents = pos 1250; currency = "EUR" };
}

abbrev pub outbox_of_event : OutboxEvent WireEvent
outbox_of_event = record {
  event_id = "evt_1";
  shipment_id = "shp_1";
  event_type = type_shipment_created;
  payload = wire_event event;
  created_at = 10;
  attempts = 0;
}

abbrev pub empty_db : Db WireEvent
empty_db = record { shipments = []; outbox = []; processed = []; dispatches = [] }

abbrev pub shipment_stored : ShipmentRow
shipment_stored = record {
  shipment_id = "shp_1";
  weight_grams = pos 500;
  amount_cents = pos 1250;
  currency = "EUR";
  created_at = 10;
}

abbrev pub row_with : Option Time → ℕ → OutboxRow WireEvent
row_with published attempts = record {
  event_id = "evt_1";
  shipment_id = "shp_1";
  event_type = type_shipment_created;
  payload = wire_event event;
  created_at = 10;
  published_at = published;
  attempts = attempts;
  last_error = none;
}

-- The shipment is stored and its event waits.
abbrev pub stored_db : Db WireEvent
stored_db = record {
  shipments = shipment_stored ∷ [];
  outbox = row_with none 0 ∷ [];
  processed = [];
  dispatches = [];
}

abbrev pub request : DispatchRequest
request = record {
  event_id = "evt_1";
  shipment_id = "shp_1";
  amount_cents = pos 1250;
  currency = "EUR";
}

-- Another event for the same shipment.
abbrev pub other_request : DispatchRequest
other_request = record {
  event_id = "evt_2";
  shipment_id = "shp_1";
  amount_cents = pos 1250;
  currency = "EUR";
}

abbrev pub dispatch_stored : DispatchRow
dispatch_stored = record {
  dispatch_id = "dsp_1";
  shipment_id = "shp_1";
  event_id = "evt_1";
  amount_cents = pos 1250;
  currency = "EUR";
  dispatched_at = 20;
}

-- The event is published and its dispatch is recorded.
abbrev pub dispatched_db : Db WireEvent
dispatched_db = record {
  shipments = shipment_stored ∷ [];
  outbox = row_with (some 20) 1 ∷ [];
  processed = "evt_1" ∷ [];
  dispatches = dispatch_stored ∷ [];
}

pub empty-IsConsistent : IsConsistent empty_db
empty-IsConsistent = record {
  shipments_distinct = tt;
  events_distinct = tt;
  dispatches_distinct = tt;
  events_known = tt;
  announced = tt;
  dispatches_known = tt;
  dispatches_handled = tt;
}

pub stored-IsConsistent : IsConsistent stored_db
unfolding str_eq
stored-IsConsistent = record {
  shipments_distinct = (refl, tt);
  events_distinct = (refl, tt);
  dispatches_distinct = tt;
  events_known = ((λ h. absurd (cc)), tt);
  announced = ((λ h. absurd (cc)), tt);
  dispatches_known = tt;
  dispatches_handled = tt;
}

pub dispatched-IsConsistent : IsConsistent dispatched_db
unfolding str_eq
dispatched-IsConsistent = record {
  shipments_distinct = (refl, tt);
  events_distinct = (refl, tt);
  dispatches_distinct = (refl, tt);
  events_known = ((λ h. absurd (cc)), tt);
  announced = ((λ h. absurd (cc)), tt);
  dispatches_known = ((λ h. absurd (cc)), tt);
  dispatches_handled = (refl, tt);
}
