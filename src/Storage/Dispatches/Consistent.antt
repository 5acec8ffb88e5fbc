-- ===== src/Storage/Dispatches/Consistent.antt =====
-- internal/storage/store.go: RecordDispatch and the invariant of the tables.
use empower_technical_interv.Prelude.{
  ◌≡◌, refl, ap, ◌∙◌, sym, subst, true, false, List, [], ◌∷◌, ◌++◌, none, arith, inl, inr, ℕ, All,
  All-append, All-mono, Distinct, Distinct-append, lookup_by,
}
use empower_technical_interv.Domain.{EventId, DispatchId, ShipmentId, Time, new_dispatch_id}
use empower_technical_interv.Storage.Tables.{Columns, DispatchRow, Db, Network}
use empower_technical_interv.Storage.Invariant.{
  IsConsistent, Known, Announced, Handled, dispatch_shipment,
}
use empower_technical_interv.Storage.Outbox.{contains_id}
use empower_technical_interv.Storage.Dispatches.{DispatchRequest, clashes, record_dispatch}
use empower_technical_interv.Storage.Dispatches.Once.{
  Recorded, dispatch_row, record_dispatch_ends, contains_id_last,
}

pub no_dispatch :
    (id : DispatchId) (shipment : ShipmentId) (ds : List DispatchRow)
    → clashes id shipment ds ≡ false
    → lookup_by dispatch_shipment shipment ds ≡ none
no_dispatch id shipment [] h = refl
no_dispatch id shipment (d ∷ ds) h = ground (arith, no_dispatch id shipment ds)

contains_id_append :
    (id : EventId) (xs ys : List EventId)
    → contains_id id xs ≡ true
    → contains_id id (xs ++ ys) ≡ true
contains_id_append id [] ys h = cc
contains_id_append id (x ∷ xs) ys h = ground (arith, contains_id_append id xs ys)

module _ {P : Type 0} (pg : Columns P) where
  module _ (now : Time) (id : DispatchId) (req : DispatchRequest) (db after : Db P)
      (c : Recorded pg now id req db after) where
    new_row : DispatchRow
    new_row = dispatch_row now id req c.currency

    Handled-after : (d : DispatchRow) → Handled db.processed d → Handled after.processed d
    Handled-after d h =
        ap (contains_id d.event_id) c.processed
        ∙ contains_id_append d.event_id db.processed (req.event_id ∷ []) h

    Known-after : (id' : ShipmentId) → Known db.shipments id' → Known after.shipments id'
    Known-after id' h = subst (λ rows. Known rows id') (sym c.shipments) h

    pub Recorded-IsConsistent : IsConsistent db → IsConsistent after
    unfolding new_row
    Recorded-IsConsistent v = record {
      shipments_distinct = rw c.shipments v.shipments_distinct;
      events_distinct = rw c.outbox v.events_distinct;
      dispatches_distinct = subst (Distinct dispatch_shipment) (sym c.dispatches) (
          Distinct-append dispatch_shipment db.dispatches new_row v.dispatches_distinct
            (no_dispatch id req.shipment_id db.dispatches c.fresh));
      events_known =
          subst (All (λ o. Known after.shipments o.shipment_id)) (sym c.outbox)
            (All-mono _ _ (λ o. Known-after o.shipment_id) db.outbox v.events_known);
      announced =
          subst (All (Announced after.outbox)) (sym c.shipments)
            (subst (λ rows. All (Announced rows) db.shipments) (sym c.outbox) v.announced);
      dispatches_known = subst (All (λ d. Known after.shipments d.shipment_id)) (sym c.dispatches) (
          All-append (λ d. Known after.shipments d.shipment_id) db.dispatches (new_row ∷ [])
            (All-mono _ _ (λ d. Known-after d.shipment_id) db.dispatches v.dispatches_known)
            (Known-after req.shipment_id c.known, tt));
      dispatches_handled = subst (All (Handled after.processed)) (sym c.dispatches) (
          All-append (Handled after.processed) db.dispatches (new_row ∷ [])
            (All-mono _ _ Handled-after db.dispatches v.dispatches_handled)
            (
              ap (contains_id req.event_id) c.processed
                  ∙ contains_id_last req.event_id db.processed,
              tt,
            ));
    }

  -- RecordDispatch keeps the tables consistent, however its transaction ends: no shipment gets a
  -- second dispatch, and every dispatch has its shipment and its mark.
  pub record_dispatch-IsConsistent :
      (n : Network) (random : List ℕ) (req : DispatchRequest) (db : Db P)
      → IsConsistent db
      → IsConsistent (record_dispatch pg n random req db).1
  record_dispatch-IsConsistent n random req db v = elim (record_dispatch_ends pg n random req db) [
    | inl (untouched, failed) ↦ subst IsConsistent (sym untouched) v
    | inr (inl (known, unchanged, answer)) ↦ subst IsConsistent (sym unchanged) v
    | inr (inr (done, answer)) ↦
        Recorded-IsConsistent n.now (new_dispatch_id random) req db _ done v
  ]
