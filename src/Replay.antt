-- ===== src/Replay.antt =====
-- cmd/replay/main.go: run sends an event of the outbox again.
pub mod Delivery
use empower_technical_interv.Prelude.{
  ◌≡◌, List, [], ◌∷◌, ◌++◌, Option, none, some, ◌⊎◌, inl, inr, ◌≢◌, refl, ap, sym, ◌∙◌, arith,
  subst, Option-cases,
}
use mathlib.Core.List.{Memᴰ}
use mathlib.Core.List.Memᴰ as Member
use empower_technical_interv.Errors.{Error, Result, ok, err}
use empower_technical_interv.Errors.Chain.{Result-cases}
use empower_technical_interv.Domain.{EventId}
use empower_technical_interv.Events.{Json}
use empower_technical_interv.Broker.{
  Message, KafkaRecord, Client, IsAcknowledging, PublisherConfig, validate_publisher, new_publisher,
  publish, kafka_record,
}
use empower_technical_interv.Storage.Tables.{Db}
use empower_technical_interv.Storage.Shipments.{OutboxEvent}
use empower_technical_interv.Storage.Outbox.{get_outbox_event}
use empower_technical_interv.Relay.{message_for}

-- What the environment, the database and the broker report, in the order in which they are asked.
pub record Setup : Type 0 where
  pub env_errors : Option Error
  pub publisher : PublisherConfig
  pub opened : Option Error
  pub loaded : Option Error
  pub created : Option Error
  pub pinged : Option Error

-- errors.Join of two errors
unfoldable pub join_errors : Option Error → Option Error → Option Error
join_errors none b = b
join_errors (some e) none = some e
join_errors (some e) (some f) = some (e ++ f)

module _ (j : Json) {W : Type 0} (k : Client j.Payload W) where
  -- Everything before the publish.
  unfoldable pub prepare : Setup → EventId → Db j.Payload → Result (Message j.Payload)
  prepare s id db = elim (join_errors s.env_errors (validate_publisher s.publisher)) [
    | some e ↦ err e
    | none ↦ elim s.opened [
      | some e ↦ err e
      | none ↦ elim (get_outbox_event s.loaded id db) [
        | err e ↦ err e
        | ok evt ↦ elim (message_for j evt) [
          | err e ↦ err e
          | ok msg ↦ elim (new_publisher s.publisher s.created s.pinged) [
            | err e ↦ err e
            | ok timeout ↦ ok msg
          ]
        ]
      ]
    ]
  ]

  unfoldable pub replay : Setup → EventId → Db j.Payload → W → Option Error × W
  replay s id db w = elim (prepare s id db) [ err e ↦ (some e, w) | ok msg ↦ publish k msg w ]
