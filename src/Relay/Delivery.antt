-- ===== src/Relay/Delivery.antt =====
-- internal/relay/relay.go and internal/storage/store.go: the rows that a poll marks, against the topic.
use mathlib.Core.List.{Memᴰ}
use mathlib.Core.List.Memᴰ as Member
use empower_technical_interv.Prelude.{
  ◌≡◌, ◌≢◌, refl, ap, ◌∙◌, sym, subst, inl, inr, true, List, [], ◌∷◌, ◌++◌, map, none, some, arith,
  str_eq, str_eq_iff, Bool-cases, All, lookup_by, lookup_by_key,
}
use empower_technical_interv.Prelude.Int.{ℤ}
use empower_technical_interv.Errors.{ok}
use empower_technical_interv.Domain.{EventId}
use empower_technical_interv.Events.{Json}
use empower_technical_interv.Broker.{Message, KafkaRecord, Client, IsAcknowledging, kafka_record}
use empower_technical_interv.Storage.Tables.{OutboxRow, Db, Network}
use empower_technical_interv.Storage.Invariant.{IsConsistent, outbox_key}
use empower_technical_interv.Storage.Shipments.{OutboxEvent}
use empower_technical_interv.Storage.Outbox.{
  PublishResult, contains_id, outbox_event, process_pending, claim_pending,
}
use empower_technical_interv.Storage.Outbox.Marks.{written, lookup-written, written_row_published}
use empower_technical_interv.Storage.Outbox.Claim.{IsRowOf, claim_pending_lem}
use empower_technical_interv.Storage.Outbox.Process.{published_batch, process_pending_ends}
use empower_technical_interv.Relay.{message_for, publish_batch, publish_from}
use empower_technical_interv.Relay.Batch.{records, ids, AllPublishable, publish_batch_lem}

module _ (j : Json) where
  -- The record of an event is on the topic.
  abbrev pub OnTopic : List (KafkaRecord j.Payload) → OutboxEvent j.Payload → Type 0
  OnTopic topic evt =
      (msg : Message j.Payload) × (message_for j evt ≡ ok msg) × Memᴰ (kafka_record msg) topic

  -- Every event of a list is the image of the table's row for its ID.
  abbrev FromTable : List (OutboxRow j.Payload) → List (OutboxEvent j.Payload) → Type 0
  FromTable table [] = Unit
  FromTable table (evt ∷ batch) =
      ((r : OutboxRow j.Payload) × (lookup_by outbox_key evt.event_id table ≡ some r)
        × (outbox_event r ≡ evt))
      × FromTable table batch

  FromTable-map :
      (table rows : List (OutboxRow j.Payload))
      → All (IsRowOf table) rows
      → FromTable table (map outbox_event rows)
  FromTable-map table [] h = tt
  FromTable-map table (r ∷ rows) h = ((r, h.0, refl), FromTable-map table rows h.1)

  FromTable-append :
      (table : List (OutboxRow j.Payload)) (xs ys : List (OutboxEvent j.Payload))
      → FromTable table (xs ++ ys)
      → FromTable table xs
  FromTable-append table [] ys h = tt
  FromTable-append table (x ∷ xs) ys h = (h.0, FromTable-append table xs ys h.1)

  records-good :
      (evt : OutboxEvent j.Payload) (done : List (OutboxEvent j.Payload)) (msg : Message j.Payload)
      → message_for j evt ≡ ok msg
      → records j (evt ∷ done) ≡ kafka_record msg ∷ records j done
  records-good evt done msg good = rw (good, records) refl

  -- Among published events, the one with the ID of a row is that row's event, and its record is there.
  found_record :
      (table : List (OutboxRow j.Payload)) (done : List (OutboxEvent j.Payload))
      (r : OutboxRow j.Payload) (id : EventId)
      → lookup_by outbox_key id table ≡ some r
      → FromTable table done
      → AllPublishable j done
      → contains_id id (ids j done) ≡ true
      → OnTopic (records j done) (outbox_event r)
  found_record table [] r id at_id from good h = absurd (cc)
  found_record table (evt ∷ done) r id at_id ((r0, at_evt, image), from) ((msg, fine), good) h =
      elim (Bool-cases (str_eq evt.event_id id)) [
        | inl here ↦
            let e = (str_eq_iff evt.event_id id).0 here in
            let same : outbox_event r ≡ evt = ground (arith, image, at_evt, at_id, e) in
            (
              msg,
              ap (message_for j) same ∙ fine,
              subst (Memᴰ (kafka_record msg)) (sym (records-good evt done msg fine))
                  (Memᴰ.head refl),
            )
        | inr later ↦
            let (m, q, there) = found_record table done r id at_id from good (ground arith) in
            (
              m,
              q,
              subst (Memᴰ (kafka_record m)) (sym (records-good evt done msg fine))
                  (Memᴰ.tail there),
            )
      ]

  OnTopic-later :
      (before middle after : List (KafkaRecord j.Payload)) (evt : OutboxEvent j.Payload)
      → OnTopic middle evt
      → OnTopic (before ++ (middle ++ after)) evt
  OnTopic-later before middle after evt (msg, fine, there) =
      (msg, fine, Member.append_right before (Member.append_left after there))

  module _ {W : Type 0} (k : Client j.Payload W) (law : IsAcknowledging k) where
    -- A row that the UPDATEs of a batch publish.
    marked_by_batch :
        (n : Network) (result : PublishResult) (db : Db j.Payload) (id : EventId)
        (r r' : OutboxRow j.Payload)
        → lookup_by outbox_key id db.outbox ≡ some r
        → r.published_at ≡ none
        → lookup_by outbox_key id (written n result db.outbox) ≡ some r'
        → r'.published_at ≢ none
        → contains_id r.event_id result.published ≡ true
    marked_by_batch n result db id r r' before pending after published =
        elim (Bool-cases (contains_id r.event_id result.published)) [
          | inl acked ↦ acked
          | inr other ↦ absurd (
              published (
                ground (
                  arith,
                  lookup-written n result id db.outbox,
                  written_row_published n result r pending,
                )))
        ]

    pub same_batch :
        (batch : List (OutboxEvent j.Payload)) (w : W)
        → published_batch (publish_batch j k) batch w ≡ publish_batch j k batch w
    unfolding publish_batch publish_from
    same_batch [] w = refl
    same_batch (evt ∷ batch) w = refl

    delivered_by_batch :
        (n : Network) (limit : ℤ) (db : Db j.Payload) (w : W) (batch : List (OutboxEvent j.Payload))
        (id : EventId) (r r' : OutboxRow j.Payload)
        → IsConsistent db
        → claim_pending n limit db ≡ ok batch
        → lookup_by outbox_key id db.outbox ≡ some r
        → r.published_at ≡ none
        → lookup_by outbox_key id (written n (publish_batch j k batch w).0 db.outbox) ≡ some r'
        → r'.published_at ≢ none
        → OnTopic (k.received (publish_batch j k batch w).1) (outbox_event r)
    delivered_by_batch n limit db w batch id r r' v claimed before pending after published =
        let result : PublishResult = (publish_batch j k batch w).0 in
        let p = publish_batch_lem j k law batch w in
        let (sound, c) = claim_pending_lem n limit db batch v.events_distinct claimed in
        let from : FromTable db.outbox (p.done ++ p.rest) =
          subst (FromTable db.outbox) (sym c.batch_ok ∙ p.split)
            (FromTable-map db.outbox c.rows c.from_table) in
        let acked = marked_by_batch n result db id r r' before pending after published in
        let key : r.event_id ≡ id = lookup_by_key outbox_key id db.outbox before in
        let at_id : contains_id id (ids j p.done) ≡ true =
          subst (λ x. contains_id x (ids j p.done) ≡ true) key
            (ap (contains_id r.event_id) (sym p.published) ∙ acked) in
        subst (λ topic. OnTopic topic (outbox_event r)) (sym p.on_topic)
          (OnTopic-later (k.received w) (records j p.done) p.stray (outbox_event r) (
            found_record db.outbox p.done r id before
              (FromTable-append db.outbox p.done p.rest from) p.publishable at_id))

    -- A poll marks a pending row as published only if the record of that row's event is on the topic by
    -- then, whatever the network does to the transaction, if the client acknowledges what it has written.
    pub marked_was_delivered :
        (n : Network) (limit : ℤ) (db : Db j.Payload) (w : W) (id : EventId)
        (r r' : OutboxRow j.Payload)
        → IsConsistent db
        → lookup_by outbox_key id db.outbox ≡ some r
        → r.published_at ≡ none
        → lookup_by outbox_key id (process_pending (publish_batch j k) n limit db w).1.outbox
          ≡ some r'
        → r'.published_at ≢ none
        → OnTopic (k.received (process_pending (publish_batch j k) n limit db w).2) (outbox_event r)
    marked_was_delivered n limit db w id r r' v before pending after published =
        elim (process_pending_ends (publish_batch j k) n limit db w) [
          | inl (same, failed) ↦
              absurd (published (ground (arith, ap (λ d. lookup_by outbox_key id d.outbox) same)))
          | inr (batch, claimed, world, after_ok, answer) ↦
              subst (λ x. OnTopic (k.received x) (outbox_event r))
                (ap (λ t. t.1) (sym (same_batch batch w)) ∙ sym world)
                (delivered_by_batch n limit db w batch id r r' v claimed before pending
                  (ap (λ t. lookup_by outbox_key id (written n t.0 db.outbox))
                      (sym (same_batch batch w))
                    ∙ ap (λ d. lookup_by outbox_key id d.outbox) (sym after_ok)
                    ∙ after)
                  published)
        ]
