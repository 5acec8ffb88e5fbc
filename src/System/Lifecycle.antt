-- ===== src/System/Lifecycle.antt =====
-- The life of a shipment, as GetShipment reads it, and what CreateShipment and RecordDispatch do to it.
use empower_technical_interv.Prelude.{
  ℕ, ◌≡◌, refl, ap, ◌∙◌, sym, subst, inl, inr, false, List, [], ◌∷◌, ◌++◌, Option, none, some,
  String, str_eq, str_eq_iff, str_eq_refl, if◌then◌else◌, Bool-cases, Option-cases, lookup_by,
  lookup_by_key, lookup_by-append_none, find_row,
}
use empower_technical_interv.Domain.{Time, ShipmentId, Shipment, new_dispatch_id}
use empower_technical_interv.Storage.Tables.{
  Columns, ShipmentRow, OutboxRow, DispatchRow, Db, Network,
}
use empower_technical_interv.Storage.Invariant.{IsConsistent, shipment_key, dispatch_shipment}
use empower_technical_interv.Storage.Shipments.{
  OutboxEvent, JoinedRow, has_shipment, joined_row, create_shipment,
}
use empower_technical_interv.Storage.Shipments.Atomic.{Created, outbox_row, create_shipment_atomic}
use empower_technical_interv.Storage.Shipments.Consistent.{row_key}
use empower_technical_interv.Storage.Shipments.Lookup.{
  is_event_of, published_of_join, no_dispatch_of, unpublished,
}
use empower_technical_interv.Storage.Dispatches.{DispatchRequest, record_dispatch}
use empower_technical_interv.Storage.Dispatches.Once.{Recorded, dispatch_row, record_dispatch_ends}
use empower_technical_interv.Storage.Dispatches.Consistent.{no_dispatch}

-- The life of a shipment: it appears with a pending event and no dispatch; the event is published and
-- the shipment is dispatched, in any order. No other change is a move.
pub data Moves : Option JoinedRow → Option JoinedRow → Type 0 where
  stays : (v : Option JoinedRow) → Moves v v
  appears :
      (s : ShipmentRow)
      → Moves none (some (record { shipment = s; published_at = none; dispatch = none }))
  is_published :
      (s : ShipmentRow) (t : Time) (d : Option DispatchRow)
      → Moves
          (some (record { shipment = s; published_at = none; dispatch = d }))
          (some (record { shipment = s; published_at = some t; dispatch = d }))
  is_dispatched :
      (s : ShipmentRow) (p : Option Time) (d : DispatchRow)
      → Moves
          (some (record { shipment = s; published_at = p; dispatch = none }))
          (some (record { shipment = s; published_at = p; dispatch = some d }))

abbrev pub moving :
    {v v' old new : Option JoinedRow} → old ≡ v → new ≡ v' → Moves v v' → Moves old new
moving {v} {v'} {old} {new} e e' m =
    subst (λ x. Moves x new) (sym e) (subst (λ x. Moves v x) (sym e') m)

abbrev pub staying : {old new : Option JoinedRow} → new ≡ old → Moves old new
staying {old} same = moving refl same (stays old)

abbrev pub shown : ShipmentRow → Option Time → Option DispatchRow → Option JoinedRow
shown s p d = some (record { shipment = s; published_at = p; dispatch = d })

lookup-other {ℓ} :
    {A : Type ℓ} (key : A → String) (id : String) (xs : List A) (x : A)
    → str_eq (key x) id ≡ false
    → lookup_by key id (xs ++ x ∷ []) ≡ lookup_by key id xs
lookup-other key id [] x other = rw other refl
lookup-other key id (y ∷ xs) x other =
    ap (λ rest. if str_eq (key y) id then some y else rest) (lookup-other key id xs x other)

module _ {P : Type 0} where
  -- When the event of a shipment was published.
  abbrev pub stamp : ShipmentId → List (OutboxRow P) → Option Time
  stamp id rows = published_of_join (find_row (is_event_of id) rows)

  pub joined_row-known :
      (id : ShipmentId) (db : Db P) {s : ShipmentRow}
      → has_shipment id db ≡ some s
      → joined_row id db
        ≡ shown s (stamp id db.outbox) (lookup_by dispatch_shipment id db.dispatches)
  unfolding joined_row
  joined_row-known id db {s} there =
      rw (there, joined_row)
        (ap (λ i. shown s (stamp i db.outbox) (lookup_by dispatch_shipment i db.dispatches))
          (lookup_by_key shipment_key id db.shipments there))

  pub joined_row-unknown :
      (id : ShipmentId) (db : Db P) → has_shipment id db ≡ none → joined_row id db ≡ none
  unfolding joined_row
  joined_row-unknown id db gone = rw (gone, joined_row) refl

  -- A row of another shipment is not the one that is found.
  find_row-other :
      (id : ShipmentId) (rows : List (OutboxRow P)) (last : OutboxRow P)
      → str_eq last.shipment_id id ≡ false
      → find_row (is_event_of id) (rows ++ last ∷ []) ≡ find_row (is_event_of id) rows
  find_row-other id [] last other = rw other refl
  find_row-other id (r ∷ rows) last other =
      ap (λ rest. if is_event_of id r then some r else rest) (find_row-other id rows last other)

  module _ (pg : Columns P) where
    Created-Moves :
        (s : Shipment) (evt : OutboxEvent P) (db after : Db P) (id : ShipmentId)
        → IsConsistent db
        → evt.shipment_id ≡ s.id
        → Created pg s evt db after
        → Moves (joined_row id db) (joined_row id after)
    Created-Moves s evt db after id v own c =
        let key = row_key pg s c.row_ok in
        elim (Bool-cases (str_eq s.id id)) [
          | inl this ↦
              let same = (str_eq_iff s.id id).0 this in
              let gone : has_shipment id db ≡ none =
                ap (λ i. lookup_by shipment_key i db.shipments) (sym same) ∙ c.new_shipment in
              let there : has_shipment id after ≡ some c.row =
                ap (lookup_by shipment_key id) c.shipments
                ∙ lookup_by-append_none shipment_key id db.shipments (c.row ∷ []) gone
                ∙ ap (λ b. if b then some c.row else none)
                    (ap (λ i. str_eq i id) (key ∙ same) ∙ str_eq_refl id) in
              let pending : stamp id after.outbox ≡ none =
                ap (stamp id) c.outbox
                ∙ unpublished db.shipments id db.outbox (outbox_row pg evt s.created_at c.payload)
                    gone v.events_known refl in
              let undispatched : lookup_by dispatch_shipment id after.dispatches ≡ none =
                ap (lookup_by dispatch_shipment id) c.dispatches
                ∙ no_dispatch_of db.shipments id db.dispatches gone v.dispatches_known in
              moving (joined_row-unknown id db gone)
                (joined_row-known id after there
                  ∙ ap (λ p. shown c.row p (lookup_by dispatch_shipment id after.dispatches))
                      pending
                  ∙ ap (shown c.row none) undispatched)
                (appears c.row)
          | inr other ↦
              let kept : has_shipment id after ≡ has_shipment id db =
                ap (lookup_by shipment_key id) c.shipments
                ∙ lookup-other shipment_key id db.shipments c.row
                    (ap (λ i. str_eq i id) key ∙ other) in
              let same_stamp : stamp id after.outbox ≡ stamp id db.outbox =
                ap (stamp id) c.outbox
                ∙ ap published_of_join (
                    find_row-other id db.outbox (outbox_row pg evt s.created_at c.payload)
                      (ap (λ i. str_eq i id) own ∙ other)) in
              elim (Option-cases (has_shipment id db)) [
                | inl gone ↦ staying (
                    joined_row-unknown id after (kept ∙ gone) ∙ sym (joined_row-unknown id db gone))
                | inr (row, there) ↦ staying (
                    joined_row-known id after (kept ∙ there)
                    ∙ ap (λ p. shown row p (lookup_by dispatch_shipment id after.dispatches))
                        same_stamp
                    ∙ ap (λ ds. shown row (stamp id db.outbox) (lookup_by dispatch_shipment id ds))
                        c.dispatches
                    ∙ sym (joined_row-known id db there))
              ]
        ]

    pub create_shipment-Moves :
        (n : Network) (s : Shipment) (evt : OutboxEvent P) (db : Db P) (id : ShipmentId)
        → IsConsistent db
        → evt.shipment_id ≡ s.id
        → Moves (joined_row id db) (joined_row id (create_shipment pg n s evt db).1)
    create_shipment-Moves n s evt db id v own = elim (create_shipment_atomic pg n s evt db) [
      | inl (same, failed) ↦ staying (ap (joined_row id) same)
      | inr (c, answer) ↦ Created-Moves s evt db _ id v own c
    ]

    Recorded-Moves :
        (now : Time) (random : String) (req : DispatchRequest) (db after : Db P) (id : ShipmentId)
        → Recorded pg now random req db after
        → Moves (joined_row id db) (joined_row id after)
    Recorded-Moves now random req db after id c =
        let kept : has_shipment id after ≡ has_shipment id db =
          ap (lookup_by shipment_key id) c.shipments in
        elim (Option-cases (has_shipment id db)) [
          | inl gone ↦
              staying
                (joined_row-unknown id after (kept ∙ gone) ∙ sym (joined_row-unknown id db gone))
          | inr (row, there) ↦
              let later =
                joined_row-known id after (kept ∙ there)
                ∙ ap
                    (λ rows.
                      shown row (stamp id rows) (lookup_by dispatch_shipment id after.dispatches))
                    c.outbox
                ∙ ap (λ ds. shown row (stamp id db.outbox) (lookup_by dispatch_shipment id ds))
                    c.dispatches in
              let d = dispatch_row now random req c.currency in
              elim (Bool-cases (str_eq req.shipment_id id)) [
                | inl this ↦
                    let same = (str_eq_iff req.shipment_id id).0 this in
                    let before : lookup_by dispatch_shipment id db.dispatches ≡ none =
                      subst (λ i. lookup_by dispatch_shipment i db.dispatches ≡ none) same
                        (no_dispatch random req.shipment_id db.dispatches c.fresh) in
                    moving
                      (joined_row-known id db there ∙ ap (shown row (stamp id db.outbox)) before)
                      (later
                        ∙ ap (shown row (stamp id db.outbox)) (
                            lookup_by-append_none dispatch_shipment id db.dispatches (d ∷ []) before
                            ∙ ap (λ b. if b then some d else none) this))
                      (is_dispatched row (stamp id db.outbox) d)
                | inr other ↦ staying (
                    later
                    ∙ ap (shown row (stamp id db.outbox))
                        (lookup-other dispatch_shipment id db.dispatches d other)
                    ∙ sym (joined_row-known id db there))
              ]
        ]

    pub record_dispatch-Moves :
        (n : Network) (random : List ℕ) (req : DispatchRequest) (db : Db P) (id : ShipmentId)
        → Moves (joined_row id db) (joined_row id (record_dispatch pg n random req db).1)
    record_dispatch-Moves n random req db id = elim (record_dispatch_ends pg n random req db) [
      | inl (same, failed) ↦ staying (ap (joined_row id) same)
      | inr (inl (known, same, answer)) ↦ staying (ap (joined_row id) same)
      | inr (inr (c, answer)) ↦ Recorded-Moves n.now (new_dispatch_id random) req db _ id c
    ]
