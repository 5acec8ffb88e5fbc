-- ===== src/Relay.antt =====
-- internal/relay/relay.go: the poll loop between the outbox and the broker.
pub mod Batch
pub mod Delivery
pub mod Loop
use Prim.Native.Char.{Char}
use Prim.Native.String.{char_at, ◌++◌ as ◌<>◌}
use empower_technical_interv.Prelude.{
  ℕ, zero, suc, ◌+◌, ◌/◌, ◌%◌, Bool, true, false, ◌||◌, not, List, [], ◌∷◌, ◌++◌, Option, none,
  some, if◌then◌else◌, String, str_eq, ltb, ◌==◌, length,
}
use empower_technical_interv.Prelude.Int.{ℤ, pos, negsuc, leb_ℤ, ltb_ℤ, wrap64, ◌*ℤ◌, min_ℤ}
use empower_technical_interv.Errors.{Error, Result, ok, err}
use empower_technical_interv.Domain.{EventId}
use empower_technical_interv.Events.{
  Json, topic, header_event_type, header_schema_version, header_correlation_id, decode,
}
use empower_technical_interv.Broker.{Message, Client, publish}
use empower_technical_interv.Storage.Tables.{Db, Network}
use empower_technical_interv.Storage.Shipments.{OutboxEvent}
use empower_technical_interv.Storage.Outbox.{
  PublishResult, no_result, process_pending, count_pending,
}

-- strconv.Itoa: the digits of the magnitude, the last one first; a number has fewer digits than its
-- successor has units.
unfoldable pub digits_of : ℕ → ℕ → String → String
digits_of zero n acc = acc
digits_of (suc f) n acc =
    let acc' : String = String.◌∷◌ (char_at "0123456789" (n % 10)) acc in
    let rest = digits_of f (n / 10) acc' in if ltb n 10 then acc' else rest

unfoldable pub itoa : ℤ → String
unfolding digits_of
itoa (pos n) = digits_of (suc n) n ""
itoa (negsuc n) = "-" <> digits_of (suc (suc n)) (suc n) ""

pub record Config : Type 0 where
  pub poll_interval : ℤ
  pub batch_size : ℤ

unfoldable pub validate_config : Config → Option Error
validate_config c =
    if leb_ℤ c.poll_interval (pos 0)
    then some []
    else if leb_ℤ c.batch_size (pos 0)
    then some []
    else none

-- The counters and the gauge; the histogram only times the poll.
pub record Metrics : Type 0 where
  pub published : ℕ
  pub failures : ℕ
  pub pending : ℕ

module _ (j : Json) where
  unfoldable pub message_for : OutboxEvent j.Payload → Result (Message j.Payload)
  message_for evt = elim (decode j evt.payload) [
    | err e ↦ err e
    | ok payload ↦ ok (record {
      topic = topic;
      key = evt.shipment_id;
      value = evt.payload;
      headers =
          (header_event_type, payload.event_type)
          ∷ (header_schema_version, itoa payload.version)
          ∷ (header_correlation_id, payload.correlation_id)
          ∷ [];
    })
  ]

  module _ {W : Type 0} (k : Client j.Payload W) where
    -- One round of the loop of publishBatch: the event's failure, if it has one.
    unfoldable pub publish_event : OutboxEvent j.Payload → W → Option Error × W
    publish_event evt w = elim (message_for evt) [ err e ↦ (some e, w) | ok msg ↦ publish k msg w ]

    -- The loop, with the events acknowledged so far.
    unfoldable pub publish_from :
        List EventId → List (OutboxEvent j.Payload) → W → PublishResult × W
    publish_from acked [] w = (record { published = acked; failed = ""; error = [] }, w)
    publish_from acked (evt ∷ batch) w =
        let (failure, w') = publish_event evt w in
        let rest = publish_from (acked ++ (evt.event_id ∷ [])) batch w' in
        elim failure [
          | some e ↦ (record { published = acked; failed = evt.event_id; error = e }, w')
          | none ↦ rest
        ]

    unfoldable pub publish_batch : List (OutboxEvent j.Payload) → W → PublishResult × W
    publish_batch batch w = publish_from [] batch w

    -- ObserveBacklog: a failed count leaves the gauge.
    unfoldable pub observe_backlog : Option Error → Db j.Payload → Metrics → Metrics
    observe_backlog fault db m = elim (count_pending fault db) [
      | err e ↦ m
      | ok n ↦ record m { pending = n }
    ]

    abbrev pub published_of : Result PublishResult → List EventId
    published_of (ok result) = result.published
    published_of (err e) = []

    -- The count's own fault is the first argument, the transaction's the second.
    unfoldable pub poll :
        Config
        → Option Error
        → Network
        → Db j.Payload
        → W
        → Metrics
        → Result PublishResult × Db j.Payload × W × Metrics
    poll cfg fault n db w m =
        let m1 = observe_backlog fault db m in
        let (r, db', w') = process_pending publish_batch n cfg.batch_size db w in
        (r, db', w', record m1 { published = m1.published + length (published_of r) })
