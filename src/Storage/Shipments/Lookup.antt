-- ===== src/Storage/Shipments/Lookup.antt =====
-- internal/storage/store.go: GetShipment of a shipment that CreateShipment has just stored.
use empower_technical_interv.Prelude.{
  ◌≡◌, refl, ap, ◌∙◌, Bool, ◌&&◌, List, [], ◌∷◌, ◌++◌, Option, none, some, str_eq, str_eq_iff,
  str_eq_refl, lookup_by, lookup_by-append_none, find_row, All, Bool-cases, inl, inr, if◌then◌else◌,
}
use empower_technical_interv.Errors.{ok}
use empower_technical_interv.Domain.{ShipmentId, Shipment, Time}
use empower_technical_interv.Events.{type_shipment_created}
use empower_technical_interv.Storage.Tables.{Columns, ShipmentRow, OutboxRow, DispatchRow, Db}
use empower_technical_interv.Storage.Invariant.{
  IsConsistent, Known, shipment_key, dispatch_shipment,
}
use empower_technical_interv.Storage.Shipments.{
  OutboxEvent, has_shipment, joined_row, get_shipment, view,
}
use empower_technical_interv.Storage.Shipments.Atomic.{Created, outbox_row}
use empower_technical_interv.Storage.Shipments.Consistent.{row_key}

-- The dispatches of known shipments, and one that is not known.
pub no_dispatch_of :
    (shipments : List ShipmentRow) (id : ShipmentId) (ds : List DispatchRow)
    → lookup_by shipment_key id shipments ≡ none
    → All (λ d. Known shipments d.shipment_id) ds
    → lookup_by dispatch_shipment id ds ≡ none
no_dispatch_of shipments id [] gone known = refl
no_dispatch_of shipments id (d ∷ ds) gone known = elim (Bool-cases (str_eq d.shipment_id id)) [
  | inl same ↦ absurd (
      known.0 (
        ap (λ k. lookup_by shipment_key k shipments) ((str_eq_iff d.shipment_id id).0 same) ∙ gone))
  | inr other ↦ rw other (no_dispatch_of shipments id ds gone known.1)
]

module _ {P : Type 0} where
  -- The join of a shipment with its event.
  abbrev pub is_event_of : ShipmentId → OutboxRow P → Bool
  is_event_of id o = str_eq o.shipment_id id && str_eq o.event_type type_shipment_created

  abbrev pub published_of_join : Option (OutboxRow P) → Option Time
  published_of_join none = none
  published_of_join (some o) = o.published_at

  pub unpublished :
      (shipments : List ShipmentRow) (id : ShipmentId) (rows : List (OutboxRow P))
      (last : OutboxRow P)
      → lookup_by shipment_key id shipments ≡ none
      → All (λ o. Known shipments o.shipment_id) rows
      → last.published_at ≡ none
      → published_of_join (find_row (is_event_of id) (rows ++ (last ∷ []))) ≡ none
  unpublished shipments id [] last gone known fresh = elim (Bool-cases (is_event_of id last)) [
    | inl here ↦ rw here fresh
    | inr other ↦ rw other refl
  ]
  unpublished shipments id (o ∷ rows) last gone known fresh =
      elim (Bool-cases (str_eq o.shipment_id id)) [
        | inl same ↦ absurd (
            known.0 (
              ap (λ k. lookup_by shipment_key k shipments) ((str_eq_iff o.shipment_id id).0 same)
              ∙ gone))
        | inr other ↦ rw other (unpublished shipments id rows last gone known.1 fresh)
      ]

  module _ (pg : Columns P) where
    found_shipment :
        (s : Shipment) (evt : OutboxEvent P) (db after : Db P) (c : Created pg s evt db after)
        → has_shipment s.id after ≡ some c.row
    found_shipment s evt db after c =
        ap (lookup_by shipment_key s.id) c.shipments
        ∙ lookup_by-append_none shipment_key s.id db.shipments (c.row ∷ []) c.new_shipment
        ∙ ap (λ b. if b then some c.row else none)
            (ap (λ k. str_eq k s.id) (row_key pg s c.row_ok) ∙ str_eq_refl s.id)

    -- GetShipment finds a shipment that CreateShipment has just stored in consistent tables: it has the
    -- stored row, its event is pending and it has no dispatch.
    pub Created-is_found :
        (s : Shipment) (evt : OutboxEvent P) (db after : Db P)
        → IsConsistent db
        → (c : Created pg s evt db after)
        → get_shipment none s.id after
          ≡ ok (view (record { shipment = c.row; published_at = none; dispatch = none }))
    unfolding get_shipment joined_row
    Created-is_found s evt db after v c =
        let key = row_key pg s c.row_ok in
        let gone : lookup_by shipment_key c.row.shipment_id db.shipments ≡ none =
          ap (λ k. lookup_by shipment_key k db.shipments) key ∙ c.new_shipment in
        let pending =
          ap (λ rows. published_of_join (find_row (is_event_of c.row.shipment_id) rows)) c.outbox
          ∙ unpublished db.shipments c.row.shipment_id db.outbox
              (outbox_row pg evt s.created_at c.payload) gone v.events_known refl in
        let undispatched =
          ap (lookup_by dispatch_shipment c.row.shipment_id) c.dispatches
          ∙ no_dispatch_of db.shipments c.row.shipment_id db.dispatches gone v.dispatches_known in
        rw (found_shipment s evt db after c, get_shipment, joined_row)
          (ap
              (λ t. ok (
                view (record {
                  shipment = c.row;
                  published_at = t;
                  dispatch = lookup_by dispatch_shipment c.row.shipment_id after.dispatches;
                })))
              pending
            ∙ ap (λ d. ok (view (record { shipment = c.row; published_at = none; dispatch = d })))
                undispatched)
