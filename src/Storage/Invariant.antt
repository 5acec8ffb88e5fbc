-- ===== src/Storage/Invariant.antt =====
-- What the schema and the transactions of internal/storage keep true of the tables.
use empower_technical_interv.Prelude.{◌≡◌, ◌≢◌, true, List, none, String, lookup_by, All, Distinct}
use empower_technical_interv.Domain.{EventId, ShipmentId}
use empower_technical_interv.Storage.Tables.{ShipmentRow, OutboxRow, DispatchRow, Db}
use empower_technical_interv.Storage.Outbox.{contains_id}

abbrev pub shipment_key : ShipmentRow → String
shipment_key r = r.shipment_id

module _ {P : Type 0} where
  abbrev pub outbox_shipment : OutboxRow P → String
  outbox_shipment r = r.shipment_id

  abbrev pub outbox_key : OutboxRow P → String
  outbox_key r = r.event_id

abbrev pub dispatch_shipment : DispatchRow → String
dispatch_shipment d = d.shipment_id

-- A foreign key: the shipment is there.
abbrev pub Known : List ShipmentRow → ShipmentId → Type 0
Known shipments id = lookup_by shipment_key id shipments ≢ none

-- A shipment whose event is in the outbox.
abbrev pub Announced : {P : Type 0} → List (OutboxRow P) → ShipmentRow → Type 0
Announced outbox s = lookup_by outbox_shipment s.shipment_id outbox ≢ none

abbrev pub Handled : List EventId → DispatchRow → Type 0
Handled processed d = contains_id d.event_id processed ≡ true

pub record IsConsistent {P : Type 0} (db : Db P) : Type 0 where
  pub shipments_distinct : Distinct shipment_key db.shipments
  pub events_distinct : Distinct outbox_key db.outbox
  -- one dispatch for a shipment, at most
  pub dispatches_distinct : Distinct dispatch_shipment db.dispatches
  pub events_known : All (λ o. Known db.shipments o.shipment_id) db.outbox
  pub announced : All (Announced db.outbox) db.shipments
  pub dispatches_known : All (λ d. Known db.shipments d.shipment_id) db.dispatches
  pub dispatches_handled : All (Handled db.processed) db.dispatches
