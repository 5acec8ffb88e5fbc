-- ===== src/System/Publishing.antt =====
-- What a poll of the relay does to the life of a shipment.
use empower_technical_interv.Prelude.{
  ◌≡◌, refl, ap, ◌∙◌, sym, subst, inl, inr, true, false, List, [], ◌∷◌, ◌++◌, map, Option, none,
  some, arith, str_eq, str_eq_iff, if◌then◌else◌, Bool, Bool-cases, Option-cases, All, lookup_by,
  find_row,
}
use empower_technical_interv.Prelude.Int.{ℤ}
use empower_technical_interv.Errors.{Error, ok}
use empower_technical_interv.Domain.{Time, EventId, ShipmentId}
use empower_technical_interv.Events.{Json}
use empower_technical_interv.Broker.{Client, IsAcknowledging}
use empower_technical_interv.Storage.Tables.{ShipmentRow, OutboxRow, DispatchRow, Db, Network}
use empower_technical_interv.Storage.Invariant.{IsConsistent, outbox_key, dispatch_shipment}
use empower_technical_interv.Storage.Shipments.{OutboxEvent, has_shipment, joined_row}
use empower_technical_interv.Storage.Shipments.Lookup.{is_event_of, published_of_join}
use empower_technical_interv.Storage.Outbox.{
  PublishResult, contains_id, outbox_event, process_pending, claim_pending, mark_row,
  mark_published, note_row, record_failure,
}
use empower_technical_interv.Storage.Outbox.Marks.{
  on_some, written, written_row, written_row_published,
}
use empower_technical_interv.Storage.Outbox.Claim.{
  IsRowOf, All-IsRowOf, IsClaimable, claim_pending_lem,
}
use empower_technical_interv.Storage.Outbox.Process.{process_pending_ends}
use empower_technical_interv.Relay.{publish_batch}
use empower_technical_interv.Relay.Batch.{ids, publish_batch_lem}
use empower_technical_interv.Relay.Delivery.{same_batch}
use empower_technical_interv.System.Lifecycle.{
  Moves, is_published, moving, staying, stamp, shown, joined_row-known, joined_row-unknown,
}

find_row-All {ℓ} :
    {A : Type ℓ} (p : A → Bool) (Q : A → Type 0) (xs : List A) {x : A}
    → All Q xs
    → find_row p xs ≡ some x
    → Q x
find_row-All p Q [] all h = absurd (cc)
find_row-All p Q (y ∷ xs) {x} all h = elim (Bool-cases (p y)) [
  | inl here ↦ let same : y ≡ x = ground arith in subst Q same all.0
  | inr later ↦ find_row-All p Q xs all.1 (ground arith)
]

module _ {P : Type 0} where
  -- The UPDATEs do not change which row is the event of a shipment.
  find_row-mark_published :
      (now : Time) (acked : List EventId) (id : ShipmentId) (rows : List (OutboxRow P))
      → find_row (is_event_of id) (mark_published now acked rows)
        ≡ on_some (mark_row now acked) (find_row (is_event_of id) rows)
  unfolding mark_published mark_row
  find_row-mark_published now acked id [] = refl
  find_row-mark_published now acked id (r ∷ rows) =
      ground (arith, find_row-mark_published now acked id rows)

  find_row-record_failure :
      (failed : EventId) (e : Error) (id : ShipmentId) (rows : List (OutboxRow P))
      → find_row (is_event_of id) (record_failure failed e rows)
        ≡ on_some (note_row failed e) (find_row (is_event_of id) rows)
  unfolding record_failure note_row
  find_row-record_failure failed e id [] = refl
  find_row-record_failure failed e id (r ∷ rows) =
      ground (arith, find_row-record_failure failed e id rows)

  find_row-written :
      (n : Network) (result : PublishResult) (id : ShipmentId) (rows : List (OutboxRow P))
      → find_row (is_event_of id) (written n result rows)
        ≡ on_some (written_row n result) (find_row (is_event_of id) rows)
  unfolding written written_row
  find_row-written n result id rows = ground (
    arith,
    find_row-mark_published n.now result.published id rows,
    find_row-record_failure result.failed result.error id
        (mark_published n.now result.published rows),
  )

  written_row_kept :
      (n : Network) (result : PublishResult) (r : OutboxRow P)
      → contains_id r.event_id result.published ≡ false
      → (written_row n result r).published_at ≡ r.published_at
  unfolding written_row mark_row note_row
  written_row_kept n result r other = ground arith

  -- The row of the event, if its own mark is new.
  written-Moves :
      (n : Network) (result : PublishResult) (s : ShipmentRow) (d : Option DispatchRow)
      (r : OutboxRow P)
      → (contains_id r.event_id result.published ≡ true → r.published_at ≡ none)
      → Moves (shown s r.published_at d) (shown s (written_row n result r).published_at d)
  written-Moves n result s d r fresh = elim (Bool-cases (contains_id r.event_id result.published)) [
    | inr other ↦ staying (ap (λ p. shown s p d) (written_row_kept n result r other))
    | inl acked ↦
        let pending = fresh acked in
        moving (ap (λ p. shown s p d) pending)
          (ap (λ p. shown s p d)
            (written_row_published n result r pending
              ∙ ap (λ b. if b then some n.now else none) acked))
          (is_published s n.now d)
  ]

  stamp-Moves :
      (n : Network) (result : PublishResult) (s : ShipmentRow) (d : Option DispatchRow)
      (id : ShipmentId) (rows : List (OutboxRow P))
      → All (λ r. contains_id r.event_id result.published ≡ true → r.published_at ≡ none) rows
      → Moves (shown s (stamp id rows) d) (shown s (stamp id (written n result rows)) d)
  stamp-Moves n result s d id rows fresh =
      let after = ap published_of_join (find_row-written n result id rows) in
      elim (Option-cases (find_row (is_event_of id) rows)) [
        | inl absent ↦ staying (
            ap (λ p. shown s p d)
              (after
                ∙ ap (λ o. published_of_join (on_some (written_row n result) o)) absent
                ∙ ap published_of_join (sym absent)))
        | inr (r, there) ↦
            moving (ap (λ o. shown s (published_of_join o) d) there)
              (ap (λ p. shown s p d)
                (after ∙ ap (λ o. published_of_join (on_some (written_row n result) o)) there))
              (written-Moves n result s d r (
                find_row-All (is_event_of id)
                  (λ r. contains_id r.event_id result.published ≡ true → r.published_at ≡ none) rows
                  fresh there))
      ]

module _ (j : Json) where
  contains_id-ids :
      (id : EventId) (xs ys : List (OutboxEvent j.Payload))
      → contains_id id (ids j xs) ≡ true
      → contains_id id (ids j (xs ++ ys)) ≡ true
  contains_id-ids id [] ys h = absurd (cc)
  contains_id-ids id (x ∷ xs) ys h = ground (arith, contains_id-ids id xs ys)

  -- An event of a claimed batch is that of a pending row.
  claimed_row :
      (table rows : List (OutboxRow j.Payload)) (is_locked : EventId → Bool) (id : EventId)
      → All (IsRowOf table) rows
      → All (IsClaimable is_locked) rows
      → contains_id id (ids j (map outbox_event rows)) ≡ true
      → (r : OutboxRow j.Payload) × (lookup_by outbox_key id table ≡ some r)
        × (r.published_at ≡ none)
  claimed_row table [] is_locked id from pending h = absurd (cc)
  claimed_row table (r ∷ rows) is_locked id from pending h =
      elim (Bool-cases (str_eq r.event_id id)) [
        | inl here ↦ (
          r,
          ap (λ k. lookup_by outbox_key k table) (sym ((str_eq_iff r.event_id id).0 here)) ∙ from.0,
          pending.0.0,
        )
        | inr later ↦ claimed_row table rows is_locked id from.1 pending.1 (ground arith)
      ]

  module _ {W : Type 0} (k : Client j.Payload W) (law : IsAcknowledging k) where
    -- What a batch acknowledges was pending.
    acked_fresh :
        (n : Network) (limit : ℤ) (db : Db j.Payload) (w : W) (batch : List (OutboxEvent j.Payload))
        → IsConsistent db
        → claim_pending n limit db ≡ ok batch
        → (rows : List (OutboxRow j.Payload)) → All (IsRowOf db.outbox) rows
        → All
            (λ r.
              contains_id r.event_id (publish_batch j k batch w).0.published ≡ true
              → r.published_at ≡ none)
            rows
    acked_fresh n limit db w batch v claimed [] own = tt
    acked_fresh n limit db w batch v claimed (r ∷ rows) own = (
      λ acked.
          let p = publish_batch_lem j k law batch w in
          let (sound, c) = claim_pending_lem n limit db batch v.events_distinct claimed in
          let in_batch : contains_id r.event_id (ids j (map outbox_event c.rows)) ≡ true =
            subst (λ b. contains_id r.event_id (ids j b) ≡ true) (sym p.split ∙ c.batch_ok)
              (contains_id-ids r.event_id p.done p.rest
                (ap (contains_id r.event_id) (sym p.published) ∙ acked)) in
          let (r0, there, pending) =
            claimed_row db.outbox c.rows n.is_locked r.event_id c.from_table c.pending in_batch in
          ground (arith, own.0, there, pending),
      acked_fresh n limit db w batch v claimed rows own.1,
    )

    batch-Moves :
        (n : Network) (limit : ℤ) (db : Db j.Payload) (w : W) (batch : List (OutboxEvent j.Payload))
        (id : ShipmentId)
        → IsConsistent db
        → claim_pending n limit db ≡ ok batch
        → Moves (joined_row id db) (
            joined_row id
              (record db { outbox = written n (publish_batch j k batch w).0 db.outbox }))
    batch-Moves n limit db w batch id v claimed =
        let after : Db j.Payload = record db {
          outbox = written n (publish_batch j k batch w).0 db.outbox;
        } in
        elim (Option-cases (has_shipment id db)) [
          | inl gone ↦
              staying (joined_row-unknown id after gone ∙ sym (joined_row-unknown id db gone))
          | inr (s, there) ↦
              moving (joined_row-known id db there) (joined_row-known id after there) (
                stamp-Moves n (publish_batch j k batch w).0 s
                  (lookup_by dispatch_shipment id db.dispatches) id db.outbox
                  (acked_fresh n limit db w batch v claimed db.outbox
                    (All-IsRowOf db.outbox v.events_distinct)))
        ]

    pub process_pending-Moves :
        (n : Network) (limit : ℤ) (db : Db j.Payload) (w : W) (id : ShipmentId)
        → IsConsistent db
        → Moves
            (joined_row id db)
            (joined_row id (process_pending (publish_batch j k) n limit db w).1)
    process_pending-Moves n limit db w id v =
        elim (process_pending_ends (publish_batch j k) n limit db w) [
          | inl (same, failed) ↦ staying (ap (joined_row id) same)
          | inr (batch, claimed, world, after_ok, answer) ↦
              moving refl
                (ap (joined_row id) after_ok
                  ∙ ap (λ t. joined_row id (record db { outbox = written n t.0 db.outbox }))
                      (same_batch j k law batch w))
                (batch-Moves n limit db w batch id v claimed)
        ]
