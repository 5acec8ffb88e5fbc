-- ===== src/Storage/Shipments.antt =====
-- internal/storage/store.go: CreateShipment and GetShipment.
pub mod Atomic
pub mod Consistent
pub mod Lookup
use empower_technical_interv.Prelude.{
  ℕ, Bool, true, false, ◌||◌, ◌&&◌, not, List, [], ◌∷◌, ◌++◌, Option, none, some, if◌then◌else◌,
  String, str_eq, find_row, lookup_by,
}
use empower_technical_interv.Prelude.Int.{ℤ, pos, ltb_ℤ}
use empower_technical_interv.Errors.{
  Error, not_found, no_rows, unique_violation, is, Result, ok, err, ◌>>=◌, ◌>>◌, check,
}
use empower_technical_interv.Domain.{
  Time, ShipmentId, EventId, DispatchId, Shipment, ShipmentView, Dispatch, OutboxStatus,
  DispatchStatus, blank_dispatch, min_weight_grams, max_weight_grams,
}
use empower_technical_interv.Events.{type_shipment_created}
use empower_technical_interv.Storage.Tables.{
  Columns, ShipmentRow, OutboxRow, DispatchRow, Db, Network, Tx, exec, begin_func, classify,
  classified,
}

-- A row of outbox_events as the code carries it.
pub record OutboxEvent (P : Type 0) : Type 0 where
  pub event_id : EventId
  pub shipment_id : ShipmentId
  pub event_type : String
  pub payload : P
  pub created_at : Time
  pub attempts : ℕ

module _ {P : Type 0} where
  abbrev pub has_shipment : ShipmentId → Db P → Option ShipmentRow
  has_shipment id db = lookup_by (λ r. r.shipment_id) id db.shipments

  abbrev pub has_event : EventId → Db P → Option (OutboxRow P)
  has_event id db = lookup_by (λ r. r.event_id) id db.outbox

-- The row that the INSERT stores, by the CHECKs and the column types.
unfoldable pub shipment_row : {P : Type 0} → Columns P → Shipment → Option ShipmentRow
shipment_row pg s =
    if ltb_ℤ s.weight_grams min_weight_grams
      || ltb_ℤ max_weight_grams s.weight_grams
      || ltb_ℤ s.price.amount_cents (pos 0)
    then none
    else elim (pg.char3 s.price.currency) [
      | none ↦ none
      | some c ↦ some (record {
        shipment_id = s.id;
        weight_grams = s.weight_grams;
        amount_cents = s.price.amount_cents;
        currency = c;
        created_at = pg.timestamptz s.created_at;
      })
    ]

-- INSERT INTO shipments
unfoldable pub insert_shipment : {P : Type 0} → Columns P → Shipment → Tx P (Unit {0})
insert_shipment pg s db = elim (shipment_row pg s) [
  | none ↦ err []
  | some row ↦ elim (has_shipment s.id db) [
    | some _ ↦ err (unique_violation ∷ [])
    | none ↦ ok (tt, record db { shipments = db.shipments ++ (row ∷ []) })
  ]
]

-- INSERT INTO outbox_events
unfoldable pub insert_outbox : {P : Type 0} → Columns P → OutboxEvent P → Time → Tx P (Unit {0})
insert_outbox pg evt created db = elim (pg.jsonb evt.payload) [
  | none ↦ err []
  | some payload ↦ elim (has_event evt.event_id db) [
    | some _ ↦ err (unique_violation ∷ [])
    | none ↦ elim (has_shipment evt.shipment_id db) [
      | none ↦ err []
      | some _ ↦ ok (
        tt,
        record db {
          outbox =
              db.outbox
              ++ (record {
                event_id = evt.event_id;
                shipment_id = evt.shipment_id;
                event_type = evt.event_type;
                payload = payload;
                created_at = pg.timestamptz created;
                published_at = none;
                attempts = 0;
                last_error = none;
              }
                  ∷ []);
        },
      )
    ]
  ]
]

-- The function that BeginFunc runs.
unfoldable pub create_body :
    {P : Type 0} → Columns P → Network → Shipment → OutboxEvent P → Tx P (Unit {0})
create_body pg n s evt db = do
  first ← exec n.first (insert_shipment pg s db)
  exec n.second (insert_outbox pg evt s.created_at first.1)

unfoldable pub create_shipment :
    {P : Type 0} → Columns P → Network → Shipment → OutboxEvent P → Db P → Result (Unit {0}) × Db P
create_shipment pg n s evt db =
    let (r, after) = begin_func n (create_body pg n s evt) db in (classified r, after)

-- A row of the query's LEFT JOINs.
pub record JoinedRow : Type 0 where
  pub shipment : ShipmentRow
  pub published_at : Option Time
  pub dispatch : Option DispatchRow

unfoldable pub view_outbox : Option Time → OutboxStatus
view_outbox none = OutboxStatus.pending
view_outbox (some t) = OutboxStatus.published

unfoldable pub view_dispatch : Option DispatchRow → Dispatch
view_dispatch none = blank_dispatch DispatchStatus.pending
view_dispatch (some d) = record {
  status = DispatchStatus.dispatched;
  id = d.dispatch_id;
  event_id = d.event_id;
  dispatched_at = d.dispatched_at;
}

unfoldable pub view : JoinedRow → ShipmentView
unfolding view_outbox view_dispatch
view r = record {
  shipment = record {
    id = r.shipment.shipment_id;
    weight_grams = r.shipment.weight_grams;
    price = record { amount_cents = r.shipment.amount_cents; currency = r.shipment.currency };
    created_at = r.shipment.created_at;
  };
  outbox = view_outbox r.published_at;
  dispatch = view_dispatch r.dispatch;
}

-- The first row of the query; the SELECT's result order is the tables'.
unfoldable pub joined_row : {P : Type 0} → ShipmentId → Db P → Option JoinedRow
joined_row id db = elim (has_shipment id db) [
  | none ↦ none
  | some s ↦ some (record {
    shipment = s;
    published_at =
        elim (find_row
          (λ o. str_eq o.shipment_id s.shipment_id && str_eq o.event_type type_shipment_created)
          db.outbox) [ none ↦ none | some o ↦ o.published_at ];
    dispatch = lookup_by (λ d. d.shipment_id) s.shipment_id db.dispatches;
  })
]

-- The query's own failure is the second argument.
unfoldable pub get_shipment : {P : Type 0} → Option Error → ShipmentId → Db P → Result ShipmentView
get_shipment (some e) id db = if is no_rows e then err (not_found ∷ []) else err (classify e)
get_shipment none id db = elim (joined_row id db) [
  | none ↦ err (not_found ∷ [])
  | some r ↦ ok (view r)
]
