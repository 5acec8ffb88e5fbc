-- ===== src/Tests/Broker.antt =====
-- The relay and the replay on the samples, with a broker that acknowledges every record.
use empower_technical_interv.Prelude.{
  ◌≡◌, All, refl, inl, false, List, [], ◌∷◌, ◌++◌, none, some, str_eq, arith,
}
use empower_technical_interv.Prelude.Int.{pos, ◌≤ℤ◌}
use empower_technical_interv.Errors.{ok, err}
use empower_technical_interv.Domain.{validate_weight, validate_money, is_currency_code, all_upper}
use empower_technical_interv.Events.V1.{wire_event}
use empower_technical_interv.Storage.Shipments.{OutboxEvent}
use empower_technical_interv.Events.{
  topic, type_shipment_created, header_event_type, header_schema_version, header_correlation_id,
  WireEvent, decode, decode_wire, decode_contract, decode_fields, decode_parcel,
}
use empower_technical_interv.Broker.{
  Message, validate_publisher, new_publisher, KafkaRecord, Client, IsAcknowledging, publish,
  kafka_record,
}
use empower_technical_interv.Storage.Outbox.{
  process_pending, process_body, claim_pending, claimable, order_by_time, insert_by_time,
  record_result, record_published, record_failed, mark_published, mark_row, outbox_event,
  count_pending, get_outbox_event,
}
use empower_technical_interv.Storage.Outbox.{publish_batch as store_batch}
use empower_technical_interv.Relay.{publish_batch, publish_from, publish_event, message_for, itoa}
use empower_technical_interv.Relay.Batch.{Published, publish_batch_lem}
use empower_technical_interv.Relay.Delivery.{OnTopic, marked_was_delivered}
use empower_technical_interv.Relay.{Config, Metrics, validate_config, poll, observe_backlog}
use empower_technical_interv.Relay.Loop.{
  Host, relay_round, polled, start, begins, goes_on, waited, RelayState, pause, pause_for,
  count_failure,
}
use empower_technical_interv.Relay.Loop.Pace.{
  IsPaced, run-IsPaced, overflowing_interval_is_accepted,
}
use empower_technical_interv.Relay.Loop.Backoff.{InBounds, Drains, interval_of}
use empower_technical_interv.Replay.{Setup, replay, prepare, join_errors}
use empower_technical_interv.Replay.Delivery.{replay_delivers}
use empower_technical_interv.Tests.{
  json, calm, empty_db, stored_db, row_with, event, outbox_of_event, stored-IsConsistent,
}

abbrev Topic : Type 0
Topic = List (KafkaRecord WireEvent)

abbrev broker : Client WireEvent Topic
broker = record { produce_sync = λ r w. (none, w ++ (r ∷ [])); received = λ w. w }

broker-IsAcknowledging : IsAcknowledging broker
broker-IsAcknowledging r w = inl refl

publish_batch_lem_example :
    let (result, w') = publish_batch json broker (outbox_of_event ∷ []) [] in
    Published json broker [] (outbox_of_event ∷ []) [] result w'
publish_batch_lem_example =
    publish_batch_lem json broker broker-IsAcknowledging (outbox_of_event ∷ []) []

marked_was_delivered_example :
    OnTopic json
      (broker.received (process_pending (publish_batch json broker) calm (pos 10) stored_db []).2)
      (outbox_event (row_with none 0))
unfolding str_eq process_pending process_body claim_pending claimable order_by_time insert_by_time
    record_result record_published record_failed mark_published mark_row store_batch publish_batch
    publish_from publish_event message_for itoa publish kafka_record decode decode_wire
    decode_contract decode_fields decode_parcel validate_weight validate_money is_currency_code
    all_upper
marked_was_delivered_example =
    marked_was_delivered json broker broker-IsAcknowledging calm (pos 10) stored_db [] "evt_1"
      (row_with none 0) (row_with (some 20) 1) stored-IsConsistent refl refl refl (λ h. absurd (cc))

abbrev no_metrics : Metrics
no_metrics = record { published = 0; failures = 0; pending = 0 }

-- A host whose context never ends and whose database is calm.
abbrev host : Host Topic
host = record { context_error = λ w. none; timer = λ d w. (false, w); weather = λ w. (none, calm) }

-- A quarter of a second, and ten rows.
abbrev relay_config : Config
relay_config = interval_of 250000000 (pos 10)

abbrev first_state : RelayState WireEvent Topic
first_state = start json broker host relay_config empty_db [] no_metrics

-- One idle round, and what the next one can do.
run-IsPaced_example :
    All (IsPaced json broker host 250000000 (pos 10) (omega arith)) (pos 250000000 ∷ [])
    × InBounds 250000000 first_state.backoff
    × ((u : RelayState WireEvent Topic)
        → relay_round json broker host relay_config first_state ≡ waited (pos 0) u
        → Drains (polled json broker host relay_config first_state).0 (pos 0))
unfolding validate_config start relay_round poll observe_backlog count_pending process_pending
    process_body claim_pending claimable order_by_time store_batch pause count_failure pause_for
    str_eq
run-IsPaced_example =
    run-IsPaced json broker host 250000000 (pos 10) (omega arith) refl empty_db [] no_metrics
      (pos 250000000 ∷ []) first_state (goes_on begins refl)

abbrev setup : Setup
setup = record {
  env_errors = none;
  publisher = record { brokers = "kafka:9092" ∷ []; delivery_timeout = pos 10000000000 };
  opened = none;
  loaded = none;
  created = none;
  pinged = none;
}

abbrev sent : Message WireEvent
sent = record {
  topic = topic;
  key = "shp_1";
  value = wire_event event;
  headers =
      (header_event_type, type_shipment_created)
      ∷ (header_schema_version, "1")
      ∷ (header_correlation_id, "req_1")
      ∷ [];
}

replay_delivers_example :
    (evt : OutboxEvent WireEvent) × (msg : Message WireEvent) × (get_outbox_event none "evt_1"
        stored_db
      ≡ ok evt)
    × (message_for json evt ≡ ok msg)
    × (kafka_record sent ∷ [] ≡ kafka_record msg ∷ [])
unfolding replay prepare join_errors validate_publisher new_publisher get_outbox_event message_for
    itoa publish kafka_record str_eq decode decode_wire decode_contract decode_fields decode_parcel
    validate_weight validate_money is_currency_code all_upper
replay_delivers_example =
    replay_delivers json broker broker-IsAcknowledging setup "evt_1" stored_db []
      (kafka_record sent ∷ []) refl

overflowing_interval_is_accepted_example :
    (validate_config (interval_of 1000000000000000000 (pos 1)) ≡ none)
    × ((pause
          (interval_of 1000000000000000000 (pos 1))
          (pause
            (interval_of 1000000000000000000 (pos 1))
            (pos 1000000000000000000)
            (err [])).backoff
          (err [])).wait
        ≤ℤ pos 0)
overflowing_interval_is_accepted_example =
    overflowing_interval_is_accepted 1000000000000000000 0 [] [] (omega arith) (omega arith)
