-- ===== src/Replay/Delivery.antt =====
-- cmd/replay/main.go: what a replay adds to the topic.
use empower_technical_interv.Prelude.{◌≡◌, ap, ◌∙◌, sym, inl, inr, [], ◌∷◌, ◌++◌, none, arith}
use empower_technical_interv.Errors.{ok}
use empower_technical_interv.Errors.Chain.{Result-cases}
use empower_technical_interv.Domain.{EventId}
use empower_technical_interv.Events.{Json}
use empower_technical_interv.Broker.{Message, Client, IsAcknowledging, publish, kafka_record}
use empower_technical_interv.Storage.Tables.{Db}
use empower_technical_interv.Storage.Shipments.{OutboxEvent}
use empower_technical_interv.Storage.Outbox.{get_outbox_event}
use empower_technical_interv.Relay.{message_for}
use empower_technical_interv.Replay.{Setup, prepare, replay}

module _ (j : Json) {W : Type 0} (k : Client j.Payload W) where
  pub prepare_ok :
      (s : Setup) (id : EventId) (db : Db j.Payload) (msg : Message j.Payload)
      → prepare j k s id db ≡ ok msg
      → (evt : OutboxEvent j.Payload) × (get_outbox_event s.loaded id db ≡ ok evt)
        × (message_for j evt ≡ ok msg)
  unfolding prepare
  prepare_ok s id db msg h = elim (Result-cases (get_outbox_event s.loaded id db)) [
    | inr (e, failed) ↦ absurd (ground arith)
    | inl (evt, found) ↦ elim (Result-cases (message_for j evt)) [
      | inr (e, failed) ↦ absurd (ground arith)
      | inl (msg', made) ↦ (evt, found, ground arith)
    ]
  ]

  -- A replay that returns no error has found the event in the outbox and has added the record that the
  -- relay sends for it to the topic, and nothing else, if the client acknowledges what it has written.
  pub replay_delivers :
      IsAcknowledging k
      → (s : Setup) (id : EventId) (db : Db j.Payload) (w w' : W)
      → replay j k s id db w ≡ (none, w')
      → (evt : OutboxEvent j.Payload) × (msg : Message j.Payload) × (get_outbox_event s.loaded id db
          ≡ ok evt)
        × (message_for j evt ≡ ok msg)
        × (k.received w' ≡ k.received w ++ (kafka_record msg ∷ []))
  unfolding replay publish
  replay_delivers law s id db w w' h = elim (Result-cases (prepare j k s id db)) [
    | inr (e, failed) ↦ absurd (ground arith)
    | inl (msg, prepared) ↦
        let (evt, found, made) = prepare_ok s id db msg prepared in
        let sent : k.produce_sync (kafka_record msg) w ≡ (none, w') = ground arith in
        let there : k.received w' ≡ k.received w ++ (kafka_record msg ∷ []) =
          elim (law (kafka_record msg) w) [
            | inl grown ↦ ap (λ r. k.received r.1) (sym sent) ∙ grown
            | inr (failed, same) ↦ absurd (failed (ap (λ r. r.0) sent))
          ] in
        (evt, msg, found, made, there)
  ]
