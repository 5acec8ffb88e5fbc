-- ===== src/System/Genuine.antt =====
-- Where the records of the topic and the dispatches come from.
use empower_technical_interv.Prelude.{
  ℕ, zero, suc, ◌≡◌, refl, ap, sym, subst, inl, inr, List, [], ◌∷◌, some, String, All, All-append,
  All-mono, Any, Any-append, Option-cases,
}
use empower_technical_interv.Errors.{ok}
use empower_technical_interv.Errors.Chain.{Result-cases}
use empower_technical_interv.Domain.{Shipment, new_dispatch_id}
use empower_technical_interv.Events.{Json, ShipmentCreated, decode}
use empower_technical_interv.Broker.{KafkaRecord, Client, IsAcknowledging}
use empower_technical_interv.Storage.Tables.{Columns, OutboxRow, DispatchRow, Db, Network}
use empower_technical_interv.Storage.Invariant.{IsConsistent}
use empower_technical_interv.Storage.Shipments.{create_shipment}
use empower_technical_interv.Storage.Shipments.Atomic.{create_shipment_atomic, outbox_row}
use empower_technical_interv.Storage.Outbox.{process_pending}
use empower_technical_interv.Storage.Outbox.Marks.{SameTable, written, written-SameTable}
use empower_technical_interv.Storage.Outbox.Process.{process_pending_ends, published_batch}
use empower_technical_interv.Storage.Dispatches.{record_dispatch}
use empower_technical_interv.Storage.Dispatches.Once.{dispatch_row, record_dispatch_ends}
use empower_technical_interv.Api.{new_outbox_event}
use empower_technical_interv.Relay.{publish_batch}
use empower_technical_interv.Consumer.{request_of}
use empower_technical_interv.System.{
  Activity, create, relay, consume, resend, System, record_at, create_step, consume_step, proceed,
  execute,
}
use empower_technical_interv.System.Topic.{Stored, AllSent, relay-AllSent, resend-AllSent}
use empower_technical_interv.System.Refines.{proceed-Advances}

Any-SameTable :
    {P : Type 0} (Q : P → Type 0) (rows rows' : List (OutboxRow P))
    → SameTable rows rows'
    → Any (λ (r : OutboxRow P). Q r.payload) rows
    → Any (λ (r : OutboxRow P). Q r.payload) rows'
Any-SameTable Q [] [] same h = absurd h
Any-SameTable Q [] (r' ∷ rows') same h = absurd same
Any-SameTable Q (r ∷ rows) [] same h = absurd same
Any-SameTable Q (r ∷ rows) (r' ∷ rows') same (inl h) = inl (subst Q (sym same.0.same_payload) h)
Any-SameTable Q (r ∷ rows) (r' ∷ rows') same (inr h) = inr (Any-SameTable Q rows rows' same.1 h)

record_at-All {ℓ} :
    {A : Type ℓ} (Q : A → Type 0) (i : ℕ) (xs : List A) {x : A}
    → All Q xs
    → record_at i xs ≡ some x
    → Q x
unfolding record_at
record_at-All Q i [] all h = absurd (cc)
record_at-All Q zero (y ∷ xs) {x} all h = let same : y ≡ x = cc in subst Q same all.0
record_at-All Q (suc i) (y ∷ xs) all h = record_at-All Q i xs all.1 h

module _ (j : Json) where
  -- The payload decodes to the event that a dispatch is for, with its shipment and its amount.
  abbrev pub Orders : DispatchRow → j.Payload → Type 0
  Orders d p =
      (evt : ShipmentCreated) × (decode j p ≡ ok evt)
      × (d.event_id ≡ evt.event_id)
      × (d.shipment_id ≡ evt.shipment_id)
      × (d.amount_cents ≡ evt.parcel.amount_cents)

  abbrev pub Ordered : List (OutboxRow j.Payload) → DispatchRow → Type 0
  Ordered rows d = Any (λ (r : OutboxRow j.Payload). Orders d r.payload) rows

  -- Every record carries a payload of the outbox, and every dispatch was ordered by one.
  abbrev pub IsGenuine : Db j.Payload → List (KafkaRecord j.Payload) → Type 0
  IsGenuine db topic = AllSent j db.outbox topic × All (Ordered db.outbox) db.dispatches

  -- An outbox that keeps its payloads.
  abbrev Grows : Db j.Payload → Db j.Payload → Type 1
  Grows db after =
      (Q : j.Payload → Type 0)
      → Any (λ (r : OutboxRow j.Payload). Q r.payload) db.outbox
      → Any (λ (r : OutboxRow j.Payload). Q r.payload) after.outbox

  kept-IsGenuine :
      (db after : Db j.Payload) (topic : List (KafkaRecord j.Payload))
      → Grows db after
      → after.dispatches ≡ db.dispatches
      → IsGenuine db topic
      → IsGenuine after topic
  kept-IsGenuine db after topic grows same (sent, ordered) = (
    All-mono (λ (rec : KafkaRecord j.Payload). Stored j db.outbox rec.value)
        (λ (rec : KafkaRecord j.Payload). Stored j after.outbox rec.value)
        (λ rec h. grows (λ p. p ≡ rec.value) h) topic sent,
    subst (All (Ordered after.outbox)) (sym same) (
        All-mono (Ordered db.outbox) (Ordered after.outbox) (λ d h. grows (Orders d) h)
          db.dispatches ordered),
  )

  module _ (pg : Columns j.Payload) {W : Type 0} (k : Client j.Payload W) where
    create_step-IsGenuine :
        (n : Network) (random : List ℕ) (s : Shipment) (correlation : String) (db : Db j.Payload)
        (topic : List (KafkaRecord j.Payload))
        → IsGenuine db topic
        → IsGenuine (create_step j pg k n random s correlation db) topic
    unfolding create_step
    create_step-IsGenuine n random s correlation db topic g =
        elim (Result-cases (new_outbox_event j random s correlation)) [
          | inr (e, failed) ↦
              let same : create_step j pg k n random s correlation db ≡ db =
                rw (failed, create_step) refl in
              subst (λ x. IsGenuine x topic) (sym same) g
          | inl (evt, made) ↦
              let after : Db j.Payload = (create_shipment pg n s evt db).1 in
              let ran : create_step j pg k n random s correlation db ≡ after =
                rw (made, create_step) refl in
              subst (λ x. IsGenuine x topic) (sym ran)
                (elim (create_shipment_atomic pg n s evt db) [
                  | inl (same, failed) ↦ subst (λ x. IsGenuine x topic) (sym same) g
                  | inr (c, answer) ↦
                      kept-IsGenuine db after topic
                        (λ Q h.
                          subst (Any (λ (r : OutboxRow j.Payload). Q r.payload)) (sym c.outbox) (
                            Any-append (λ (r : OutboxRow j.Payload). Q r.payload) db.outbox
                              (outbox_row pg evt s.created_at c.payload ∷ []) h))
                        c.dispatches g
                ])
        ]

    -- The dispatch of a record whose payload is in the outbox.
    dispatch-IsGenuine :
        (n : Network) (random : List ℕ) (evt : ShipmentCreated) (p : j.Payload) (db : Db j.Payload)
        (topic : List (KafkaRecord j.Payload))
        → decode j p ≡ ok evt
        → Stored j db.outbox p
        → IsGenuine db topic
        → IsGenuine (record_dispatch pg n random (request_of evt) db).1 topic
    dispatch-IsGenuine n random evt p db topic read stored g =
        let after : Db j.Payload = (record_dispatch pg n random (request_of evt) db).1 in
        elim (record_dispatch_ends pg n random (request_of evt) db) [
          | inl (same, failed) ↦ subst (λ x. IsGenuine x topic) (sym same) g
          | inr (inl (known, same, answer)) ↦ subst (λ x. IsGenuine x topic) (sym same) g
          | inr (inr (c, answer)) ↦
              let d : DispatchRow =
                dispatch_row n.now (new_dispatch_id random) (request_of evt) c.currency in
              (
                subst (λ rows. AllSent j rows topic) (sym c.outbox) g.0,
                subst (λ rows. All (Ordered rows) after.dispatches) (sym c.outbox)
                    (subst (All (Ordered db.outbox)) (sym c.dispatches) (
                      All-append (Ordered db.outbox) db.dispatches (d ∷ []) g.1
                        (orders db.outbox d (evt, read, refl, refl, refl) stored, tt))),
              )
        ]
      where
        orders :
            (rows : List (OutboxRow j.Payload)) (d : DispatchRow)
            → Orders d p
            → Stored j rows p
            → Ordered rows d
        orders [] d h s = absurd s
        orders (r ∷ rows) d h (inl same) = inl (subst (Orders d) (sym same) h)
        orders (r ∷ rows) d h (inr later) = inr (orders rows d h later)

    consume_step-IsGenuine :
        (n : Network) (random : List ℕ) (i : ℕ) (db : Db j.Payload)
        (topic : List (KafkaRecord j.Payload))
        → IsGenuine db topic
        → IsGenuine (consume_step j pg k n random (record_at i topic) db) topic
    unfolding consume_step
    consume_step-IsGenuine n random i db topic g = elim (Option-cases (record_at i topic)) [
      | inl nothing ↦
          let same : consume_step j pg k n random (record_at i topic) db ≡ db =
            ap (λ o. consume_step j pg k n random o db) nothing in
          subst (λ x. IsGenuine x topic) (sym same) g
      | inr (rec, there) ↦
          let here : consume_step j pg k n random (record_at i topic) db
              ≡ consume_step j pg k n random (some rec) db =
            ap (λ o. consume_step j pg k n random o db) there in
          subst (λ x. IsGenuine x topic) (sym here)
            (elim (Result-cases (decode j rec.value)) [
              | inr (e, failed) ↦
                  let same : consume_step j pg k n random (some rec) db ≡ db =
                    rw (failed, consume_step) refl in
                  subst (λ x. IsGenuine x topic) (sym same) g
              | inl (evt, read) ↦
                  let ran : consume_step j pg k n random (some rec) db
                      ≡ (record_dispatch pg n random (request_of evt) db).1 =
                    rw (read, consume_step) refl in
                  subst (λ x. IsGenuine x topic) (sym ran)
                    (dispatch-IsGenuine n random evt rec.value db topic read
                      (record_at-All (λ (r : KafkaRecord j.Payload). Stored j db.outbox r.value) i
                        topic g.0 there)
                      g)
            ])
    ]

    module _ (law : IsAcknowledging k) where
      proceed-IsGenuine :
          (a : Activity) (sys : System j.Payload W)
          → IsConsistent sys.db
          → IsGenuine sys.db (k.received sys.broker)
          → IsGenuine (proceed j pg k a sys).db (k.received (proceed j pg k a sys).broker)
      unfolding proceed
      proceed-IsGenuine (create n random s correlation) sys v g =
          create_step-IsGenuine n random s correlation sys.db (k.received sys.broker) g
      proceed-IsGenuine (consume n random i) sys v g =
          consume_step-IsGenuine n random i sys.db (k.received sys.broker) g
      proceed-IsGenuine (resend setup id) sys v g =
          (resend-AllSent j k law setup id sys.db sys.broker g.0, g.1)
      proceed-IsGenuine (relay n limit) sys v g =
          let topic =
            k.received (process_pending (publish_batch j k) n limit sys.db sys.broker).2 in
          let after : Db j.Payload =
            (process_pending (publish_batch j k) n limit sys.db sys.broker).1 in
          let sent : IsGenuine sys.db topic =
            (relay-AllSent j k law n limit sys.db sys.broker v g.0, g.1) in
          elim (process_pending_ends (publish_batch j k) n limit sys.db sys.broker) [
            | inl (same, failed) ↦ subst (λ x. IsGenuine x topic) (sym same) sent
            | inr (batch, claimed, world, after_ok, answer) ↦
                let result = (published_batch (publish_batch j k) batch sys.broker).0 in
                let rows = written n result sys.db.outbox in
                subst (λ x. IsGenuine x topic) (sym after_ok)
                  (kept-IsGenuine sys.db (record sys.db { outbox = rows }) topic
                    (λ Q h.
                      Any-SameTable Q sys.db.outbox rows (written-SameTable n result sys.db.outbox)
                        h)
                    refl sent)
          ]

      -- Nothing is made up: whatever the processes do, each record on the topic carries the payload of
      -- an event in the outbox, and each dispatch is for an event of the outbox, with the shipment and
      -- the amount of that event, if that was so at the start, the tables were consistent and the
      -- client acknowledges what it has written.
      pub execute-IsGenuine :
          (activities : List Activity) (sys : System j.Payload W)
          → IsConsistent sys.db
          → IsGenuine sys.db (k.received sys.broker)
          → let end = execute j pg k activities sys in IsGenuine end.db (k.received end.broker)
      unfolding execute
      execute-IsGenuine [] sys v g = g
      execute-IsGenuine (a ∷ more) sys v g =
          execute-IsGenuine more (proceed j pg k a sys) (proceed-Advances j pg k law a sys "" v).1
            (proceed-IsGenuine a sys v g)
