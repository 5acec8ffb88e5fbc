-- ===== src/Storage/Shipments/Consistent.antt =====
-- internal/storage/store.go: CreateShipment and the invariant of the tables.
use empower_technical_interv.Prelude.{
  ◌≡◌, ◌≢◌, ap, ◌∙◌, sym, subst, List, [], ◌∷◌, ◌++◌, none, some, arith, String, All, All-append,
  All-mono, Distinct, Distinct-append, lookup_by, lookup_by-append_some, lookup_by-append_none,
  Option-cases, inl, inr, str_eq_refl,
}
use empower_technical_interv.Domain.{ShipmentId, Shipment}
use empower_technical_interv.Storage.Tables.{Columns, ShipmentRow, OutboxRow, Db, Network}
use empower_technical_interv.Storage.Invariant.{
  IsConsistent, Known, Announced, Handled, shipment_key, outbox_key, outbox_shipment,
}
use empower_technical_interv.Storage.Shipments.{OutboxEvent, shipment_row, create_shipment}
use empower_technical_interv.Storage.Shipments.Atomic.{Created, outbox_row, create_shipment_atomic}

-- A row that is found is still found when rows are added.
found_after {ℓ} :
    {A : Type ℓ} (key : A → String) (k : String) (xs ys : List A)
    → lookup_by key k xs ≢ none
    → lookup_by key k (xs ++ ys) ≢ none
found_after key k xs ys h gone = elim (Option-cases (lookup_by key k xs)) [
  | inl absent ↦ h absent
  | inr (a, there) ↦ cc (lookup_by-append_some key k xs ys there)
]

-- The row that is added last is found.
found_last {ℓ} :
    {A : Type ℓ} (key : A → String) (xs : List A) (x : A)
    → lookup_by key (key x) (xs ++ x ∷ []) ≢ none
found_last key xs x gone = elim (Option-cases (lookup_by key (key x) xs)) [
  | inl absent ↦
      ground (arith, lookup_by-append_none key (key x) xs (x ∷ []) absent, str_eq_refl (key x))
  | inr (a, there) ↦ cc (lookup_by-append_some key (key x) xs (x ∷ []) there)
]

module _ {P : Type 0} (pg : Columns P) where
  pub row_key :
      (s : Shipment) {row : ShipmentRow} → shipment_row pg s ≡ some row → row.shipment_id ≡ s.id
  unfolding shipment_row
  row_key s h = ground arith

  module _ (s : Shipment) (evt : OutboxEvent P) (db after : Db P)
      (c : Created pg s evt db after) where
    Known-after : (id : ShipmentId) → Known db.shipments id → Known after.shipments id
    Known-after id h =
        subst (λ rows. Known rows id) (sym c.shipments)
          (found_after shipment_key id db.shipments (c.row ∷ []) h)

    event : OutboxRow P
    event = outbox_row pg evt s.created_at c.payload

    Announced-after : (r : ShipmentRow) → Announced db.outbox r → Announced after.outbox r
    unfolding event
    Announced-after r h =
        subst (λ rows. Announced rows r) (sym c.outbox)
          (found_after outbox_shipment r.shipment_id db.outbox (event ∷ []) h)

    Announced-new : evt.shipment_id ≡ s.id → Announced after.outbox c.row
    unfolding event
    Announced-new own =
        subst (λ rows. Announced rows c.row) (sym c.outbox)
          (subst (λ k. lookup_by outbox_shipment k (db.outbox ++ event ∷ []) ≢ none)
            (own ∙ sym (row_key s c.row_ok)) (found_last outbox_shipment db.outbox event))

    pub Created-IsConsistent : evt.shipment_id ≡ s.id → IsConsistent db → IsConsistent after
    unfolding event
    Created-IsConsistent own v = record {
      shipments_distinct = subst (Distinct shipment_key) (sym c.shipments) (
          Distinct-append shipment_key db.shipments c.row v.shipments_distinct (
            ap (λ k. lookup_by shipment_key k db.shipments) (row_key s c.row_ok) ∙ c.new_shipment));
      events_distinct =
          subst (Distinct outbox_key) (sym c.outbox)
            (Distinct-append outbox_key db.outbox event v.events_distinct c.new_event);
      dispatches_distinct = rw c.dispatches v.dispatches_distinct;
      events_known = subst (All (λ o. Known after.shipments o.shipment_id)) (sym c.outbox) (
          All-append (λ o. Known after.shipments o.shipment_id) db.outbox (event ∷ [])
            (All-mono _ _ (λ o. Known-after o.shipment_id) db.outbox v.events_known)
            (c.for_known, tt));
      announced = subst (All (Announced after.outbox)) (sym c.shipments) (
          All-append (Announced after.outbox) db.shipments (c.row ∷ [])
            (All-mono _ _ Announced-after db.shipments v.announced) (Announced-new own, tt));
      dispatches_known =
          subst (All (λ d. Known after.shipments d.shipment_id)) (sym c.dispatches)
            (All-mono _ _ (λ d. Known-after d.shipment_id) db.dispatches v.dispatches_known);
      dispatches_handled =
          subst (All (Handled after.processed)) (sym c.dispatches)
            (subst (λ ids. All (Handled ids) db.dispatches) (sym c.processed) v.dispatches_handled);
    }

  -- CreateShipment keeps the tables consistent, however its transaction ends, if the event that it is
  -- given is for the shipment that it is given.
  pub create_shipment-IsConsistent :
      (n : Network) (s : Shipment) (evt : OutboxEvent P) (db : Db P)
      → evt.shipment_id ≡ s.id
      → IsConsistent db
      → IsConsistent (create_shipment pg n s evt db).1
  create_shipment-IsConsistent n s evt db own v = elim (create_shipment_atomic pg n s evt db) [
    | inl (same, failed) ↦ subst IsConsistent (sym same) v
    | inr (c, answer) ↦ Created-IsConsistent s evt db _ c own v
  ]
