-- ===== src/Storage/Dispatches.antt =====
-- internal/storage/store.go: RecordDispatch.
pub mod Once
pub mod Retry
pub mod Marked
pub mod Consistent
use empower_technical_interv.Prelude.{
  ℕ, Bool, true, false, ◌||◌, List, [], ◌∷◌, ◌++◌, Option, none, some, if◌then◌else◌, String,
  str_eq, lookup_by,
}
use empower_technical_interv.Prelude.Int.{ℤ, pos, ltb_ℤ}
use empower_technical_interv.Errors.{
  Error, dispatch_conflict, unique_violation, is, Result, ok, err, ◌>>=◌, ◌>>◌, check,
}
use empower_technical_interv.Domain.{
  Time, EventId, ShipmentId, DispatchId, Dispatch, DispatchStatus, blank_dispatch, new_dispatch_id,
}
use empower_technical_interv.Storage.Tables.{
  Columns, DispatchRow, Db, Network, Tx, exec, begin_func, classified,
}
use empower_technical_interv.Storage.Shipments.{has_shipment}
use empower_technical_interv.Storage.Outbox.{contains_id}

pub record DispatchRequest : Type 0 where
  pub event_id : EventId
  pub shipment_id : ShipmentId
  pub amount_cents : ℤ
  pub currency : String

-- The primary key and the UNIQUE constraint.
abbrev pub clashes : DispatchId → ShipmentId → List DispatchRow → Bool
clashes id shipment [] = false
clashes id shipment (d ∷ ds) =
    (str_eq d.dispatch_id id || str_eq d.shipment_id shipment) || clashes id shipment ds

abbrev pub is_unique_violation : Error → Bool
is_unique_violation e = is unique_violation e

module _ {P : Type 0} where
  -- INSERT INTO processed_events ... ON CONFLICT DO NOTHING, with the number of rows as a Boolean.
  unfoldable pub insert_processed : EventId → Db P → Bool × Db P
  insert_processed id db =
      if contains_id id db.processed
      then (false, db)
      else (true, record db { processed = db.processed ++ (id ∷ []) })

  abbrev pub dispatch_of : ShipmentId → Db P → Option DispatchRow
  dispatch_of id db = lookup_by (λ d. d.shipment_id) id db.dispatches

  -- INSERT INTO dispatches. The event is in processed_events: the transaction has just inserted it.
  unfoldable pub insert_dispatch :
      Columns P → Time → DispatchId → DispatchRequest → Db P → Result (Db P)
  insert_dispatch pg now id req db =
      if ltb_ℤ req.amount_cents (pos 0) then err [] else elim (pg.char3 req.currency) [
        | none ↦ err []
        | some c ↦
            if clashes id req.shipment_id db.dispatches
            then err (unique_violation ∷ [])
            else elim (has_shipment req.shipment_id db) [
              | none ↦ err []
              | some s ↦ ok (record db {
                dispatches =
                    db.dispatches
                    ++ (record {
                      dispatch_id = id;
                      shipment_id = req.shipment_id;
                      event_id = req.event_id;
                      amount_cents = req.amount_cents;
                      currency = c;
                      dispatched_at = now;
                    }
                        ∷ []);
              })
            ]
      ]

  -- The wrapping of a failed insert.
  unfoldable pub conflict_or : Result (Db P) → Result (Db P)
  conflict_or (ok db) = ok db
  conflict_or (err e) = if is_unique_violation e then err (dispatch_conflict ∷ []) else err e

  -- The part of the body that runs for a new event.
  unfoldable pub dispatch_new :
      Columns P → Network → List ℕ → DispatchRequest → Db P → Result ((Dispatch × Bool) × Db P)
  dispatch_new pg n random req db = do
    let id = new_dispatch_id random
    after ← conflict_or (exec n.second (insert_dispatch pg n.now id req db))
    ok (
      (
        record {
          status = DispatchStatus.dispatched;
          id = id;
          event_id = req.event_id;
          dispatched_at = n.now;
        },
        false,
      ),
      after,
    )

  -- The function that BeginFunc runs. A duplicate leaves the named results at their zero values but
  -- for the flag.
  unfoldable pub dispatch_body :
      Columns P → Network → List ℕ → DispatchRequest → Tx P (Dispatch × Bool)
  dispatch_body pg n random req db = do
    inserted ← exec n.first (ok (insert_processed req.event_id db))
    if inserted.0
        then dispatch_new pg n random req inserted.1
        else ok ((blank_dispatch DispatchStatus.unset, true), inserted.1)

  unfoldable pub record_dispatch :
      Columns P → Network → List ℕ → DispatchRequest → Db P → Result (Dispatch × Bool) × Db P
  record_dispatch pg n random req db =
      let (r, after) = begin_func n (dispatch_body pg n random req) db in (classified r, after)
