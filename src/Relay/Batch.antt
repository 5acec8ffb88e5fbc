-- ===== src/Relay/Batch.antt =====
-- internal/relay/relay.go: the batch that publishBatch is given, its result, and the topic.
use empower_technical_interv.Prelude.{
  ◌≡◌, refl, ap, ◌∙◌, sym, subst, ◌⊎◌, inl, inr, List, [], ◌∷◌, ◌++◌, Option, none, some,
  Option-cases,
}
use mathlib.Core.List.{append_assoc, append-nil}
use empower_technical_interv.Errors.{Error, ok, err}
use empower_technical_interv.Errors.Chain.{Result-cases}
use empower_technical_interv.Domain.{EventId}
use empower_technical_interv.Events.{Json}
use empower_technical_interv.Broker.{
  Message, KafkaRecord, Client, IsAcknowledging, kafka_record, publish,
}
use empower_technical_interv.Storage.Shipments.{OutboxEvent}
use empower_technical_interv.Storage.Outbox.{PublishResult}
use empower_technical_interv.Relay.{message_for, publish_event, publish_from, publish_batch}

module _ (j : Json) where
  -- The Kafka records of a batch, in order.
  abbrev pub records : List (OutboxEvent j.Payload) → List (KafkaRecord j.Payload)
  records [] = []
  records (evt ∷ batch) = elim (message_for j evt) [
    | ok msg ↦ kafka_record msg ∷ records batch
    | err e ↦ records batch
  ]

  abbrev pub IsPublishable : OutboxEvent j.Payload → Type 0
  IsPublishable evt = (msg : Message j.Payload) × (message_for j evt ≡ ok msg)

  abbrev pub AllPublishable : List (OutboxEvent j.Payload) → Type 0
  AllPublishable [] = Unit
  AllPublishable (evt ∷ batch) = IsPublishable evt × AllPublishable batch

  abbrev pub ids : List (OutboxEvent j.Payload) → List EventId
  ids [] = []
  ids (evt ∷ batch) = evt.event_id ∷ ids batch

  -- How a batch ends: `rest` is what was not acknowledged, the failed event first, and at most that
  -- event's record may have reached the topic without an acknowledgement.
  abbrev pub Stops :
      PublishResult → List (OutboxEvent j.Payload) → List (KafkaRecord j.Payload) → Type 0
  Stops result [] stray = (result.failed ≡ "") × (stray ≡ [])
  Stops result (evt ∷ rest) stray =
      (result.failed ≡ evt.event_id) × ((stray ≡ []) ⊎ (stray ≡ records (evt ∷ [])))

  module _ {W : Type 0} (k : Client j.Payload W) where
    pub record Published (acked : List EventId) (batch : List (OutboxEvent j.Payload)) (w : W)
        (result : PublishResult) (w' : W) : Type 0 where
      pub done : List (OutboxEvent j.Payload)
      pub rest : List (OutboxEvent j.Payload)
      pub stray : List (KafkaRecord j.Payload)
      pub split : batch ≡ done ++ rest
      pub published : result.published ≡ acked ++ ids done
      pub publishable : AllPublishable done
      pub on_topic : k.received w' ≡ k.received w ++ (records done ++ stray)
      pub stops : Stops result rest stray

    -- One event: acknowledged and on the topic, or failed and perhaps on the topic.
    abbrev EventEnds : OutboxEvent j.Payload → W → Option Error × W → Type 0
    EventEnds evt w (failure, w') =
        ((failure ≡ none)
          × IsPublishable evt
          × (k.received w' ≡ k.received w ++ records (evt ∷ [])))
        ⊎ (((e : Error) × (failure ≡ some e))
            × ((k.received w' ≡ k.received w)
                ⊎ (k.received w' ≡ k.received w ++ records (evt ∷ []))))

    produced_ends :
        IsAcknowledging k
        → (evt : OutboxEvent j.Payload) (w : W) (msg : Message j.Payload)
        → message_for j evt ≡ ok msg
        → EventEnds evt w (k.produce_sync (kafka_record msg) w)
    produced_ends law evt w msg good =
        let r = k.produce_sync (kafka_record msg) w in
        let one : records (evt ∷ []) ≡ kafka_record msg ∷ [] = rw (good, records) refl in
        elim (law (kafka_record msg) w) [
          | inr (failed, same) ↦ elim (Option-cases r.0) [
            | inl fine ↦ absurd (failed fine)
            | inr (e, error) ↦ inr ((e, error), inl same)
          ]
          | inl grown ↦
              let grown' = grown ∙ ap (λ l. k.received w ++ l) (sym one) in
              elim (Option-cases r.0) [
                | inl fine ↦ inl (fine, (msg, good), grown')
                | inr (e, error) ↦ inr ((e, error), inr grown')
              ]
        ]

    publish_event_good :
        (evt : OutboxEvent j.Payload) (w : W) (msg : Message j.Payload)
        → message_for j evt ≡ ok msg
        → publish_event j k evt w ≡ k.produce_sync (kafka_record msg) w
    unfolding publish_event publish
    publish_event_good evt w msg good = rw (good, publish_event)

    publish_event_bad :
        (evt : OutboxEvent j.Payload) (w : W) (e : Error)
        → message_for j evt ≡ err e
        → publish_event j k evt w ≡ (some e, w)
    unfolding publish_event
    publish_event_bad evt w e bad = rw (bad, publish_event)

    publish_event_ends :
        IsAcknowledging k
        → (evt : OutboxEvent j.Payload) (w : W) → EventEnds evt w (publish_event j k evt w)
    publish_event_ends law evt w = elim (Result-cases (message_for j evt)) [
      | inr (e, bad) ↦
          subst (EventEnds evt w) (sym (publish_event_bad evt w e bad)) (inr ((e, refl), inl refl))
      | inl (msg, good) ↦
          subst (EventEnds evt w) (sym (publish_event_good evt w msg good))
            (produced_ends law evt w msg good)
    ]

    publish_from_failed :
        (acked : List EventId) (evt : OutboxEvent j.Payload) (batch : List (OutboxEvent j.Payload))
        (w : W) {e : Error}
        → (publish_event j k evt w).0 ≡ some e
        → publish_from j k acked (evt ∷ batch) w ≡ (
          record { published = acked; failed = evt.event_id; error = e },
          (publish_event j k evt w).1,
        )
    unfolding publish_from
    publish_from_failed acked evt batch w failed = rw (failed, publish_from)

    publish_from_next :
        (acked : List EventId) (evt : OutboxEvent j.Payload) (batch : List (OutboxEvent j.Payload))
        (w : W)
        → (publish_event j k evt w).0 ≡ none
        → publish_from j k acked (evt ∷ batch) w
          ≡ publish_from j k (acked ++ (evt.event_id ∷ [])) batch (publish_event j k evt w).1
    unfolding publish_from
    publish_from_next acked evt batch w fine = rw (fine, publish_from)

    records-cons :
        (evt : OutboxEvent j.Payload) (batch : List (OutboxEvent j.Payload))
        → records (evt ∷ batch) ≡ records (evt ∷ []) ++ records batch
    records-cons evt batch = elim (Result-cases (message_for j evt)) [
      | inl (msg, good) ↦ rw (good, records) refl
      | inr (e, bad) ↦ rw (bad, records) refl
    ]

    pub publish_from_lem :
        IsAcknowledging k
        → (acked : List EventId) (batch : List (OutboxEvent j.Payload)) (w : W)
        → let (result, w') = publish_from j k acked batch w in Published acked batch w result w'
    unfolding publish_from
    publish_from_lem law acked [] w = record {
      done = [];
      rest = [];
      stray = [];
      split = refl;
      published = sym (append-nil acked);
      publishable = tt;
      on_topic = sym (append-nil (k.received w));
      stops = (refl, refl);
    }
    publish_from_lem law acked (evt ∷ batch) w = elim (publish_event_ends law evt w) [
      | inl (fine, good, grown) ↦
          subst (λ r. Published acked (evt ∷ batch) w r.0 r.1)
            (sym (publish_from_next acked evt batch w fine))
            (longer good grown (
              publish_from_lem law (acked ++ (evt.event_id ∷ [])) batch
                (publish_event j k evt w).1))
      | inr ((e, failed), topic) ↦
          subst (λ r. Published acked (evt ∷ batch) w r.0 r.1)
            (sym (publish_from_failed acked evt batch w failed)) (stopped e topic)
    ]
      where
        longer :
            IsPublishable evt
            → k.received (publish_event j k evt w).1 ≡ k.received w ++ records (evt ∷ [])
            → {result : PublishResult} {w' : W}
            → Published (acked ++ (evt.event_id ∷ [])) batch (publish_event j k evt w).1 result w'
            → Published acked (evt ∷ batch) w result w'
        longer good grown p = record {
          done = evt ∷ p.done;
          rest = p.rest;
          stray = p.stray;
          split = ap (λ l. evt ∷ l) p.split;
          published = p.published ∙ append_assoc acked (evt.event_id ∷ []) (ids p.done);
          publishable = (good, p.publishable);
          on_topic =
              p.on_topic
              ∙ ap (λ l. l ++ (records p.done ++ p.stray)) grown
              ∙ append_assoc (k.received w) (records (evt ∷ [])) (records p.done ++ p.stray)
              ∙ ap (λ l. k.received w ++ l)
                  (sym (append_assoc (records (evt ∷ [])) (records p.done) p.stray)
                    ∙ ap (λ l. l ++ p.stray) (sym (records-cons evt p.done)));
          stops = p.stops;
        }

        stopped :
            (e : Error)
            → ((k.received (publish_event j k evt w).1 ≡ k.received w)
                ⊎ (k.received (publish_event j k evt w).1 ≡ k.received w ++ records (evt ∷ [])))
            → Published acked
                (evt ∷ batch)
                w
                (record { published = acked; failed = evt.event_id; error = e })
                (publish_event j k evt w).1
        stopped e (inl same) = record {
          done = [];
          rest = evt ∷ batch;
          stray = [];
          split = refl;
          published = sym (append-nil acked);
          publishable = tt;
          on_topic = same ∙ sym (append-nil (k.received w));
          stops = (refl, inl refl);
        }
        stopped e (inr grown) = record {
          done = [];
          rest = evt ∷ batch;
          stray = records (evt ∷ []);
          split = refl;
          published = sym (append-nil acked);
          publishable = tt;
          on_topic = grown;
          stops = (refl, inr refl);
        }

    -- publishBatch acknowledges the events of the batch in order up to the first failure, and reports
    -- exactly those and the event that failed. The topic has received the records of the acknowledged
    -- events, in order, and after them at most the record of the failed one.
    pub publish_batch_lem :
        IsAcknowledging k
        → (batch : List (OutboxEvent j.Payload)) (w : W)
        → let (result, w') = publish_batch j k batch w in Published [] batch w result w'
    unfolding publish_batch
    publish_batch_lem law batch w = publish_from_lem law [] batch w
