-- ===== src/System.antt =====
-- The parts of the program that share the tables and the topic, as one system: the API of
-- internal/shipmentapi, a poll of internal/relay, an attempt of internal/consumer and cmd/replay. What
-- the processes do is one sequence of actions, in any order and on any network.
pub mod Lifecycle
pub mod Publishing
pub mod Refines
pub mod Topic
pub mod Genuine
use empower_technical_interv.Prelude.{ℕ, zero, suc, List, [], ◌∷◌, Option, none, some, String}
use empower_technical_interv.Prelude.Int.{ℤ}
use empower_technical_interv.Errors.{ok, err}
use empower_technical_interv.Domain.{EventId, Shipment}
use empower_technical_interv.Events.{Json, decode}
use empower_technical_interv.Broker.{KafkaRecord, Client}
use empower_technical_interv.Storage.Tables.{Columns, Db, Network}
use empower_technical_interv.Storage.Shipments.{create_shipment}
use empower_technical_interv.Storage.Outbox.{process_pending}
use empower_technical_interv.Storage.Dispatches.{record_dispatch}
use empower_technical_interv.Api.{new_outbox_event}
use empower_technical_interv.Relay.{publish_batch}
use empower_technical_interv.Consumer.{request_of}
use empower_technical_interv.Replay.{Setup, replay}

-- What one of the processes does.
pub data Activity : Type 0 where
  -- a request that was priced, with the bytes of its event ID and its correlation ID
  create : Network → List ℕ → Shipment → String → Activity
  -- a poll of the relay, with its batch size
  relay : Network → ℤ → Activity
  -- an attempt of the consumer at the record of a position, with the bytes of the dispatch ID
  consume : Network → List ℕ → ℕ → Activity
  -- the command that sends an event again
  resend : Setup → EventId → Activity

pub record System (P W : Type 0) : Type 0 where
  pub db : Db P
  pub broker : W

unfoldable pub record_at {ℓ} : {A : Type ℓ} → ℕ → List A → Option A
record_at i [] = none
record_at zero (r ∷ rs) = some r
record_at (suc i) (r ∷ rs) = record_at i rs

module _ (j : Json) (pg : Columns j.Payload) {W : Type 0} (k : Client j.Payload W) where
  -- create_priced, as far as the tables see it.
  unfoldable pub create_step : Network → List ℕ → Shipment → String → Db j.Payload → Db j.Payload
  create_step n random s correlation db = elim (new_outbox_event j random s correlation) [
    | err e ↦ db
    | ok evt ↦ (create_shipment pg n s evt db).1
  ]

  -- One attempt of the handler at a record of the topic.
  unfoldable pub consume_step :
      Network → List ℕ → Option (KafkaRecord j.Payload) → Db j.Payload → Db j.Payload
  consume_step n random none db = db
  consume_step n random (some rec) db = elim (decode j rec.value) [
    | err e ↦ db
    | ok evt ↦ (record_dispatch pg n random (request_of evt) db).1
  ]

  unfoldable pub proceed : Activity → System j.Payload W → System j.Payload W
  proceed (create n random s correlation) sys = record sys {
    db = create_step n random s correlation sys.db;
  }
  proceed (relay n limit) sys =
      let (r, db, w) = process_pending (publish_batch j k) n limit sys.db sys.broker in
      record { db = db; broker = w }
  proceed (consume n random i) sys = record sys {
    db = consume_step n random (record_at i (k.received sys.broker)) sys.db;
  }
  proceed (resend setup id) sys = record sys { broker = (replay j k setup id sys.db sys.broker).1 }

  unfoldable pub execute : List Activity → System j.Payload W → System j.Payload W
  execute [] sys = sys
  execute (a ∷ more) sys = execute more (proceed a sys)
