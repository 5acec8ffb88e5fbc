-- ===== src/System/Topic.antt =====
-- What the relay and the replay put on the topic: payloads of the outbox.
use empower_technical_interv.Prelude.{
  ◌≡◌, refl, ap, ◌∙◌, sym, subst, inl, inr, List, [], ◌∷◌, ◌++◌, map, Option, none, some, arith,
  str_eq, Bool-cases, All, All-append, All-front, All-back, Any, lookup_by, Option-cases,
}
use empower_technical_interv.Prelude.Int.{ℤ}
use empower_technical_interv.Errors.{Error, ok}
use empower_technical_interv.Errors.Chain.{Result-cases}
use empower_technical_interv.Domain.{EventId}
use empower_technical_interv.Events.{Json}
use empower_technical_interv.Broker.{
  Message, KafkaRecord, Client, IsAcknowledging, kafka_record, publish,
}
use empower_technical_interv.Storage.Tables.{OutboxRow, Db, Network}
use empower_technical_interv.Storage.Invariant.{IsConsistent, outbox_key}
use empower_technical_interv.Storage.Shipments.{OutboxEvent}
use empower_technical_interv.Storage.Outbox.{
  PublishResult, outbox_event, process_pending, get_outbox_event,
}
use empower_technical_interv.Storage.Outbox.Claim.{IsRowOf, claim_pending_lem}
use empower_technical_interv.Storage.Outbox.Process.{process_pending_world}
use empower_technical_interv.Relay.{message_for, publish_batch}
use empower_technical_interv.Relay.Batch.{records, Stops, publish_batch_lem}
use empower_technical_interv.Relay.Delivery.{same_batch}
use empower_technical_interv.Replay.{Setup, prepare, replay}
use empower_technical_interv.Replay.Delivery.{prepare_ok}

module _ (j : Json) where
  -- A payload that is in the outbox.
  abbrev pub Stored : List (OutboxRow j.Payload) → j.Payload → Type 0
  Stored rows p = Any (λ (r : OutboxRow j.Payload). r.payload ≡ p) rows

  abbrev pub AllSent : List (OutboxRow j.Payload) → List (KafkaRecord j.Payload) → Type 0
  AllSent rows topic = All (λ (rec : KafkaRecord j.Payload). Stored rows rec.value) topic

  abbrev EventsStored : List (OutboxRow j.Payload) → List (OutboxEvent j.Payload) → Type 0
  EventsStored rows batch = All (λ (evt : OutboxEvent j.Payload). Stored rows evt.payload) batch

  found-Stored :
      (rows : List (OutboxRow j.Payload)) (id : EventId) (r : OutboxRow j.Payload)
      → lookup_by outbox_key id rows ≡ some r
      → Stored rows r.payload
  found-Stored [] id r h = absurd (cc)
  found-Stored (x ∷ rows) id r h = elim (Bool-cases (str_eq x.event_id id)) [
    | inl here ↦
        let same : x ≡ r = ground arith in inl (ap (λ (y : OutboxRow j.Payload). y.payload) same)
    | inr later ↦ inr (found-Stored rows id r (ground arith))
  ]

  rows-EventsStored :
      (table rows : List (OutboxRow j.Payload))
      → All (IsRowOf table) rows
      → EventsStored table (map outbox_event rows)
  rows-EventsStored table [] h = tt
  rows-EventsStored table (r ∷ rows) h =
      (found-Stored table r.event_id r h.0, rows-EventsStored table rows h.1)

  message_for_payload :
      (evt : OutboxEvent j.Payload) (msg : Message j.Payload)
      → message_for j evt ≡ ok msg
      → (kafka_record msg).value ≡ evt.payload
  unfolding message_for kafka_record
  message_for_payload evt msg h = ground arith

  records-AllSent :
      (table : List (OutboxRow j.Payload)) (batch : List (OutboxEvent j.Payload))
      → EventsStored table batch
      → AllSent table (records j batch)
  records-AllSent table [] h = tt
  records-AllSent table (evt ∷ batch) h = elim (Result-cases (message_for j evt)) [
    | inr (e, bad) ↦ rw (bad, records) (records-AllSent table batch h.1)
    | inl (msg, made) ↦
        rw (made, records)
          (
            subst (Stored table) (sym (message_for_payload evt msg made)) h.0,
            records-AllSent table batch h.1,
          )
  ]

  stray-AllSent :
      (table : List (OutboxRow j.Payload)) (result : PublishResult)
      (rest : List (OutboxEvent j.Payload)) (stray : List (KafkaRecord j.Payload))
      → EventsStored table rest
      → Stops j result rest stray
      → AllSent table stray
  stray-AllSent table result [] stray h (failed, nothing) = subst (AllSent table) (sym nothing) tt
  stray-AllSent table result (evt ∷ rest) stray h (failed, inl nothing) =
      subst (AllSent table) (sym nothing) tt
  stray-AllSent table result (evt ∷ rest) stray h (failed, inr one) =
      subst (AllSent table) (sym one) (records-AllSent table (evt ∷ []) (h.0, tt))

  module _ {W : Type 0} (k : Client j.Payload W) (law : IsAcknowledging k) where
    pub relay-AllSent :
        (n : Network) (limit : ℤ) (db : Db j.Payload) (w : W)
        → IsConsistent db
        → AllSent db.outbox (k.received w)
        → AllSent db.outbox (k.received (process_pending (publish_batch j k) n limit db w).2)
    relay-AllSent n limit db w v sent =
        elim (process_pending_world (publish_batch j k) n limit db w) [
          | inl same ↦ subst (λ x. AllSent db.outbox (k.received x)) (sym same) sent
          | inr (batch, claimed, world) ↦
              let p = publish_batch_lem j k law batch w in
              let (sound, c) = claim_pending_lem n limit db batch v.events_distinct claimed in
              let stored : EventsStored db.outbox (p.done ++ p.rest) =
                subst (EventsStored db.outbox) (sym c.batch_ok ∙ p.split)
                  (rows-EventsStored db.outbox c.rows c.from_table) in
              let Q = λ (evt : OutboxEvent j.Payload). Stored db.outbox evt.payload in
              let R = λ (rec : KafkaRecord j.Payload). Stored db.outbox rec.value in
              subst (λ x. AllSent db.outbox (k.received x))
                (sym (world ∙ ap (λ t. t.1) (same_batch j k law batch w)))
                (subst (AllSent db.outbox) (sym p.on_topic) (
                  All-append R (k.received w) (records j p.done ++ p.stray) sent (
                    All-append R (records j p.done) p.stray
                      (records-AllSent db.outbox p.done (All-front Q p.done p.rest stored))
                      (stray-AllSent db.outbox (publish_batch j k batch w).0 p.rest p.stray
                        (All-back Q p.done p.rest stored) p.stops))))
        ]

    loaded-Stored :
        (fault : Option Error) (id : EventId) (db : Db j.Payload) (evt : OutboxEvent j.Payload)
        → get_outbox_event fault id db ≡ ok evt
        → Stored db.outbox evt.payload
    unfolding get_outbox_event
    loaded-Stored (some e) id db evt h = absurd (ground arith)
    loaded-Stored none id db evt h = elim (Option-cases (lookup_by outbox_key id db.outbox)) [
      | inl gone ↦ absurd (ground arith)
      | inr (r, there) ↦
          let same : r.payload ≡ evt.payload = ground arith in
          subst (Stored db.outbox) same (found-Stored db.outbox id r there)
    ]

    pub resend-AllSent :
        (setup : Setup) (id : EventId) (db : Db j.Payload) (w : W)
        → AllSent db.outbox (k.received w)
        → AllSent db.outbox (k.received (replay j k setup id db w).1)
    unfolding replay publish
    resend-AllSent setup id db w sent = elim (Result-cases (prepare j k setup id db)) [
      | inr (e, failed) ↦
          let same : replay j k setup id db w ≡ (some e, w) = rw (failed, replay) refl in
          subst (λ r. AllSent db.outbox (k.received r.1)) (sym same) sent
      | inl (msg, ready) ↦
          let (evt, found, made) = prepare_ok j k setup id db msg ready in
          let stored : Stored db.outbox (kafka_record msg).value =
            subst (Stored db.outbox) (sym (message_for_payload evt msg made))
              (loaded-Stored setup.loaded id db evt found) in
          let ran : replay j k setup id db w ≡ k.produce_sync (kafka_record msg) w =
            rw (ready, replay) refl in
          subst (λ r. AllSent db.outbox (k.received r.1)) (sym ran)
            (elim (law (kafka_record msg) w) [
              | inl grown ↦ subst (AllSent db.outbox) (sym grown) (
                  All-append (λ (rec : KafkaRecord j.Payload). Stored db.outbox rec.value)
                    (k.received w) (kafka_record msg ∷ []) sent (stored, tt))
              | inr (failed, same) ↦ subst (AllSent db.outbox) (sym same) sent
            ])
    ]
