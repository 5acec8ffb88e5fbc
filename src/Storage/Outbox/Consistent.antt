-- ===== src/Storage/Outbox/Consistent.antt =====
-- internal/storage/store.go: ProcessPending and the invariant of the tables, for any publisher.
use empower_technical_interv.Prelude.{
  ◌≡◌, refl, ap, ◌∙◌, sym, subst, inl, inr, List, [], ◌∷◌, none, arith, String, All, All-mono,
  Distinct, lookup_by,
}
use empower_technical_interv.Prelude.Int.{ℤ}
use empower_technical_interv.Storage.Tables.{OutboxRow, ShipmentRow, Db, Network}
use empower_technical_interv.Storage.Invariant.{
  IsConsistent, Known, Announced, outbox_key, outbox_shipment,
}
use empower_technical_interv.Storage.Outbox.{PublishFunc, process_pending}
use empower_technical_interv.Storage.Outbox.Marks.{SameEvent, SameTable, written, written-SameTable}
use empower_technical_interv.Storage.Outbox.Process.{process_pending_ends, published_batch}

module _ {P : Type 0} where
  -- A lookup in a table with the same events finds something in the same cases.
  module _ (key : OutboxRow P → String)
      (keeps : (r r' : OutboxRow P) → SameEvent r r' → key r' ≡ key r) where
    lookup-SameTable :
        (k : String) (rows rows' : List (OutboxRow P))
        → SameTable rows rows'
        → lookup_by key k rows ≡ none
        → lookup_by key k rows' ≡ none
    lookup-SameTable k [] [] s h = refl
    lookup-SameTable k [] (r' ∷ rows') s h = absurd s
    lookup-SameTable k (r ∷ rows) [] s h = absurd s
    lookup-SameTable k (r ∷ rows) (r' ∷ rows') s h =
        ground (arith, keeps r r' s.0, lookup-SameTable k rows rows' s.1)

    Distinct-SameTable :
        (rows rows' : List (OutboxRow P))
        → SameTable rows rows'
        → Distinct key rows
        → Distinct key rows'
    Distinct-SameTable [] [] s d = tt
    Distinct-SameTable [] (r' ∷ rows') s d = absurd s
    Distinct-SameTable (r ∷ rows) [] s d = absurd s
    Distinct-SameTable (r ∷ rows) (r' ∷ rows') s d = (
      ap (λ k. lookup_by key k rows') (keeps r r' s.0)
          ∙ lookup-SameTable (key r) rows rows' s.1 d.0,
      Distinct-SameTable rows rows' s.1 d.1,
    )

  SameTable-sym : (rows rows' : List (OutboxRow P)) → SameTable rows rows' → SameTable rows' rows
  SameTable-sym [] [] s = tt
  SameTable-sym [] (r' ∷ rows') s = absurd s
  SameTable-sym (r ∷ rows) [] s = absurd s
  SameTable-sym (r ∷ rows) (r' ∷ rows') s = (
    record {
      same_event_id = sym s.0.same_event_id;
      same_shipment_id = sym s.0.same_shipment_id;
      same_type = sym s.0.same_type;
      same_payload = sym s.0.same_payload;
      same_created_at = sym s.0.same_created_at;
    },
    SameTable-sym rows rows' s.1,
  )

  Known-SameTable :
      (shipments : List ShipmentRow) (rows rows' : List (OutboxRow P))
      → SameTable rows rows'
      → All (λ o. Known shipments o.shipment_id) rows
      → All (λ o. Known shipments o.shipment_id) rows'
  Known-SameTable shipments [] [] s h = tt
  Known-SameTable shipments [] (r' ∷ rows') s h = absurd s
  Known-SameTable shipments (r ∷ rows) [] s h = absurd s
  Known-SameTable shipments (r ∷ rows) (r' ∷ rows') s h = (
    subst (Known shipments) (sym s.0.same_shipment_id) h.0,
    Known-SameTable shipments rows rows' s.1 h.1,
  )

  SameTable-IsConsistent :
      (db : Db P) (rows : List (OutboxRow P))
      → SameTable db.outbox rows
      → IsConsistent db
      → IsConsistent (record db { outbox = rows })
  SameTable-IsConsistent db rows s v = record {
    shipments_distinct = v.shipments_distinct;
    events_distinct =
        Distinct-SameTable outbox_key (λ r r' e. e.same_event_id) db.outbox rows s
          v.events_distinct;
    dispatches_distinct = v.dispatches_distinct;
    events_known = Known-SameTable db.shipments db.outbox rows s v.events_known;
    announced =
        All-mono (Announced db.outbox) (Announced rows)
          (λ r h gone. h (
            lookup-SameTable outbox_shipment (λ r r' e. e.same_shipment_id) r.shipment_id rows
              db.outbox (SameTable-sym db.outbox rows s) gone))
          db.shipments v.announced;
    dispatches_known = v.dispatches_known;
    dispatches_handled = v.dispatches_handled;
  }

  -- ProcessPending keeps the tables consistent, however its transaction ends and whatever the
  -- publisher reports.
  pub process_pending-IsConsistent :
      {W : Type 0} (publish : PublishFunc P W) (n : Network) (limit : ℤ) (db : Db P) (w : W)
      → IsConsistent db
      → IsConsistent (process_pending publish n limit db w).1
  process_pending-IsConsistent publish n limit db w v =
      elim (process_pending_ends publish n limit db w) [
        | inl (same, failed) ↦ subst IsConsistent (sym same) v
        | inr (batch, claimed, world, after, answer) ↦
            let result = (published_batch publish batch w).0 in
            subst IsConsistent (sym after) (
              SameTable-IsConsistent db (written n result db.outbox)
                (written-SameTable n result db.outbox) v)
      ]
