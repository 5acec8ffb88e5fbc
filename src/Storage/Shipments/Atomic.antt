-- ===== src/Storage/Shipments/Atomic.antt =====
-- internal/storage/store.go: the two rows of CreateShipment.
use empower_technical_interv.Prelude.{
  ◌≡◌, ◌≢◌, ap, ◌⊎◌, inl, inr, [], ◌∷◌, ◌++◌, none, some, arith, Option-cases,
}
use empower_technical_interv.Errors.{Error, ok, err}
use empower_technical_interv.Errors.Chain.{>>=-eq-ok}
use empower_technical_interv.Domain.{Time, Shipment}
use empower_technical_interv.Storage.Tables.{
  Columns, ShipmentRow, OutboxRow, Db, Network, in_doubt, exec, exec_ok, classify, classified,
}
use empower_technical_interv.Storage.Transactions.{begin_func-Ended}
use empower_technical_interv.Storage.Shipments.{
  OutboxEvent, has_shipment, has_event, shipment_row, insert_shipment, insert_outbox, create_body,
  create_shipment,
}

module _ {P : Type 0} (pg : Columns P) where
  abbrev pub outbox_row : OutboxEvent P → Time → P → OutboxRow P
  outbox_row evt created payload = record {
    event_id = evt.event_id;
    shipment_id = evt.shipment_id;
    event_type = evt.event_type;
    payload = payload;
    created_at = pg.timestamptz created;
    published_at = none;
    attempts = 0;
    last_error = none;
  }

  -- The tables with both rows, which the constraints admit.
  pub record Created (s : Shipment) (evt : OutboxEvent P) (db after : Db P) : Type 0 where
    pub row : ShipmentRow
    pub payload : P
    pub row_ok : shipment_row pg s ≡ some row
    pub payload_ok : pg.jsonb evt.payload ≡ some payload
    pub new_shipment : has_shipment s.id db ≡ none
    pub new_event : has_event evt.event_id db ≡ none
    pub for_known : has_shipment evt.shipment_id after ≢ none
    pub shipments : after.shipments ≡ db.shipments ++ (row ∷ [])
    pub outbox : after.outbox ≡ db.outbox ++ (outbox_row evt s.created_at payload ∷ [])
    pub processed : after.processed ≡ db.processed
    pub dispatches : after.dispatches ≡ db.dispatches

  insert_shipment_ok :
      (s : Shipment) (db mid : Db P)
      → insert_shipment pg s db ≡ ok (tt, mid)
      → (row : ShipmentRow) × (shipment_row pg s ≡ some row)
        × (has_shipment s.id db ≡ none)
        × (mid ≡ record db { shipments = db.shipments ++ (row ∷ []) })
  unfolding insert_shipment
  insert_shipment_ok s db mid h = elim (Option-cases (shipment_row pg s)) [
    | inl refused_row ↦ ground arith
    | inr (row, stored) ↦ (row, stored, ground arith, ground arith)
  ]

  insert_outbox_ok :
      (evt : OutboxEvent P) (created : Time) (db after : Db P)
      → insert_outbox pg evt created db ≡ ok (tt, after)
      → (payload : P) × (pg.jsonb evt.payload ≡ some payload)
        × (has_event evt.event_id db ≡ none)
        × (has_shipment evt.shipment_id db ≢ none)
        × (after ≡ record db { outbox = db.outbox ++ (outbox_row evt created payload ∷ []) })
  unfolding insert_outbox
  insert_outbox_ok evt created db after h = elim (Option-cases (pg.jsonb evt.payload)) [
    | inl refused_payload ↦ ground arith
    | inr (payload, stored) ↦ (payload, stored, ground arith, λ gone. ground arith, ground arith)
  ]

  create_body_ok :
      (n : Network) (s : Shipment) (evt : OutboxEvent P) (db after : Db P)
      → create_body pg n s evt db ≡ ok (tt, after)
      → Created s evt db after
  unfolding create_body
  create_body_ok n s evt db after h =
      let (first, at_first, h1) = >>=-eq-ok (exec n.first (insert_shipment pg s db)) _ h in
      let (row, row_ok, fresh, e) = insert_shipment_ok s db first.1 (exec_ok n.first at_first) in
      let (payload, payload_ok, fresh_event, known, e') =
        insert_outbox_ok evt s.created_at first.1 after (exec_ok n.second h1) in
      record {
        row = row;
        payload = payload;
        row_ok = row_ok;
        payload_ok = payload_ok;
        new_shipment = fresh;
        new_event = ground arith;
        for_known = λ gone. known (ground arith);
        shipments = ground arith;
        outbox = ground arith;
        processed = ground arith;
        dispatches = ground arith;
      }

  -- How CreateShipment can end, whatever the network does: with an error and the tables as they were,
  -- or with both rows in place, and then the caller has an error only if the commit was in doubt.
  pub create_shipment_atomic :
      (n : Network) (s : Shipment) (evt : OutboxEvent P) (db : Db P)
      → let (r, after) = create_shipment pg n s evt db in
        ((after ≡ db) × ((e : Error) × (r ≡ err e)))
        ⊎ (Created s evt db after
            × ((r ≡ ok tt) ⊎ ((e : Error) × (n.commit ≡ in_doubt e) × (r ≡ err (classify e)))))
  unfolding create_shipment
  create_shipment_atomic n s evt db = elim (begin_func-Ended n (create_body pg n s evt) db) [
    | inl (same, (e, failed)) ↦ inl (same, (classify e, ap classified failed))
    | inr (a, done, inl fine) ↦ inr (create_body_ok n s evt db _ done, inl (ap classified fine))
    | inr (a, done, inr (e, doubt, failed)) ↦
        inr (create_body_ok n s evt db _ done, inr (e, doubt, ap classified failed))
  ]
