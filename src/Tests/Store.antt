-- ===== src/Tests/Store.antt =====
-- The store on the samples: internal/storage/store.go.
use empower_technical_interv.Prelude.{
  none, ◌≡◌, refl, ◌⊎◌, true, false, List, [], ◌∷◌, str_eq, arith,
}
use empower_technical_interv.Prelude.Int.{pos}
use empower_technical_interv.Errors.{Error, dispatch_conflict, ok, err}
use empower_technical_interv.Domain.{blank_dispatch, DispatchStatus, new_dispatch_id}
use empower_technical_interv.Storage.Tables.{in_doubt, classify}
use empower_technical_interv.Events.{WireEvent}
use empower_technical_interv.Storage.Shipments.{
  OutboxEvent, create_shipment, get_shipment, shipment_row, view,
}
use empower_technical_interv.Storage.Shipments.Lookup.{Created-is_found}
use empower_technical_interv.Events.V1.{wire_event}
use empower_technical_interv.Storage.Shipments.Atomic.{Created, create_shipment_atomic}
use empower_technical_interv.Storage.Invariant.{IsConsistent}
use empower_technical_interv.Storage.Outbox.{
  PublishResult, process_pending, claim_pending, claimable, order_by_time, insert_by_time,
  contains_id,
}
use empower_technical_interv.Storage.Outbox.Process.{Processed, process_pending_ends}
use empower_technical_interv.Storage.Outbox.Claim.{Claimed, claim_pending_lem}
use empower_technical_interv.Storage.Dispatches.{record_dispatch}
use empower_technical_interv.Storage.Dispatches.Once.{
  Recorded, Answer, dispatched_value, record_dispatch_ends, duplicate_ignored,
}
use empower_technical_interv.Storage.Dispatches.Retry.{second_event_refused, retry_records_once}
use empower_technical_interv.Storage.Dispatches.Consistent.{record_dispatch-IsConsistent}
use empower_technical_interv.Tests.{
  pg, request, stored_db, dispatched_db, stored-IsConsistent, other_request, calm, calm_ok,
  shipment, outbox_of_event, shipment_stored, event, empty_db, empty-IsConsistent,
}

create_shipment_atomic_example :
    let (r, after) = create_shipment pg calm shipment outbox_of_event empty_db in
    ((after ≡ empty_db) × ((e : Error) × (r ≡ err e)))
    ⊎ (Created pg shipment outbox_of_event empty_db after
        × ((r ≡ ok tt) ⊎ ((e : Error) × (calm.commit ≡ in_doubt e) × (r ≡ err (classify e)))))
create_shipment_atomic_example = create_shipment_atomic pg calm shipment outbox_of_event empty_db

-- A broker that takes the whole batch of the sample.
abbrev publish_one : List (OutboxEvent WireEvent) → Unit {0} → PublishResult × Unit {0}
publish_one batch w = (record { published = "evt_1" ∷ []; failed = ""; error = [] }, w)

process_pending_ends_example :
    let (r, after, w') = process_pending publish_one calm (pos 10) stored_db tt in
    Processed publish_one calm (pos 10) stored_db tt r after w'
process_pending_ends_example = process_pending_ends publish_one calm (pos 10) stored_db tt

claim_pending_lem_example : (pos 10 ≡ pos 10) × Claimed calm 10 stored_db (outbox_of_event ∷ [])
unfolding claim_pending claimable order_by_time insert_by_time
claim_pending_lem_example =
    claim_pending_lem calm (pos 10) stored_db (outbox_of_event ∷ [])
      stored-IsConsistent.events_distinct refl

record_dispatch_ends_example :
    let (r, after) = record_dispatch pg calm (1 ∷ []) request stored_db in
    ((after ≡ stored_db) × ((e : Error) × (r ≡ err e)))
    ⊎ ((contains_id request.event_id stored_db.processed ≡ true)
        × (after ≡ stored_db)
        × Answer pg calm r (blank_dispatch DispatchStatus.unset, true))
    ⊎ (Recorded pg calm.now (new_dispatch_id (1 ∷ [])) request stored_db after
        × Answer pg calm r (dispatched_value calm.now (new_dispatch_id (1 ∷ [])) request, false))
record_dispatch_ends_example = record_dispatch_ends pg calm (1 ∷ []) request stored_db

duplicate_ignored_example :
    record_dispatch pg calm (1 ∷ []) request dispatched_db
    ≡ (ok (blank_dispatch DispatchStatus.unset, true), dispatched_db)
unfolding str_eq
duplicate_ignored_example = duplicate_ignored pg calm (1 ∷ []) request dispatched_db calm_ok refl

second_event_refused_example :
    record_dispatch pg calm (1 ∷ []) other_request dispatched_db
    ≡ (err (dispatch_conflict ∷ []), dispatched_db)
unfolding str_eq
second_event_refused_example =
    second_event_refused pg calm (1 ∷ []) other_request dispatched_db calm_ok (omega arith) refl
      refl refl

retry_records_once_example :
    let (r, mid) = record_dispatch pg calm (1 ∷ []) request stored_db in
    let (r', after) = record_dispatch pg calm (2 ∷ []) request mid in
    (Recorded pg calm.now (new_dispatch_id (1 ∷ [])) request stored_db after
      × (r' ≡ ok (blank_dispatch DispatchStatus.unset, true)))
    ⊎ ((mid ≡ stored_db)
        × Recorded pg calm.now (new_dispatch_id (2 ∷ [])) request stored_db after
        × (r' ≡ ok (dispatched_value calm.now (new_dispatch_id (2 ∷ [])) request, false)))
unfolding str_eq
retry_records_once_example =
    retry_records_once pg calm calm (1 ∷ []) (2 ∷ []) request stored_db calm_ok refl
      (record { amount_ok = omega arith; new_event = refl; fresh = refl; known = λ h. absurd (cc) })

record_dispatch-IsConsistent_example :
    IsConsistent (record_dispatch pg calm (1 ∷ []) request stored_db).1
record_dispatch-IsConsistent_example =
    record_dispatch-IsConsistent pg calm (1 ∷ []) request stored_db stored-IsConsistent

-- What the sample's CreateShipment has stored.
Created-sample : Created pg shipment outbox_of_event empty_db stored_db
unfolding str_eq shipment_row
Created-sample = record {
  row = shipment_stored;
  payload = wire_event event;
  row_ok = refl;
  payload_ok = refl;
  new_shipment = refl;
  new_event = refl;
  for_known = λ h. absurd (cc);
  shipments = refl;
  outbox = refl;
  processed = refl;
  dispatches = refl;
}

Created-is_found_example :
    get_shipment none "shp_1" stored_db
    ≡ ok (view (record { shipment = shipment_stored; published_at = none; dispatch = none }))
unfolding Created-sample
Created-is_found_example =
    Created-is_found pg shipment outbox_of_event empty_db stored_db empty-IsConsistent
      Created-sample
