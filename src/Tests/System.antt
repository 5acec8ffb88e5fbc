-- ===== src/Tests/System.antt =====
-- A shipment that goes through the whole system.
use empower_technical_interv.Prelude.{◌≡◌, refl, inl, List, [], ◌∷◌, ◌++◌, none, some, str_eq}
use empower_technical_interv.Prelude.Int.{pos}
use empower_technical_interv.Events.{
  WireEvent, new_shipment_created, decode, decode_wire, decode_contract, decode_fields,
  decode_parcel,
}
use empower_technical_interv.Domain.{
  new_event_id, new_dispatch_id, validate_weight, validate_money, is_currency_code, all_upper,
}
use empower_technical_interv.Broker.{KafkaRecord, Client, IsAcknowledging, publish, kafka_record}
use empower_technical_interv.Storage.Tables.{begin_func}
use empower_technical_interv.Storage.Invariant.{IsConsistent}
use empower_technical_interv.Storage.Shipments.{
  joined_row, create_shipment, create_body, insert_shipment, insert_outbox, shipment_row,
}
use empower_technical_interv.Storage.Outbox.{
  process_pending, process_body, claim_pending, claimable, order_by_time, insert_by_time,
  record_result, record_published, record_failed, mark_published, mark_row,
}
use empower_technical_interv.Storage.Outbox.{publish_batch as store_batch}
use empower_technical_interv.Storage.Dispatches.{
  record_dispatch, dispatch_body, dispatch_new, insert_processed, insert_dispatch, conflict_or,
}
use empower_technical_interv.Relay.{publish_batch, publish_from, publish_event, message_for, itoa}
use empower_technical_interv.Api.{new_outbox_event}
use empower_technical_interv.System.{
  Activity, create, relay, consume, System, record_at, create_step, consume_step, proceed, execute,
}
use empower_technical_interv.System.Refines.{Follows, Extends, execute-Follows}
use empower_technical_interv.System.Genuine.{IsGenuine, execute-IsGenuine}
use empower_technical_interv.Tests.{
  json, pg, calm, shipment, empty_db, empty-IsConsistent, shipment_stored,
}

abbrev Topic : Type 0
Topic = List (KafkaRecord WireEvent)

abbrev cluster : Client WireEvent Topic
cluster = record { produce_sync = λ r w. (none, w ++ (r ∷ [])); received = λ w. w }

cluster-IsAcknowledging : IsAcknowledging cluster
cluster-IsAcknowledging r w = inl refl

abbrev idle : System WireEvent Topic
idle = record { db = empty_db; broker = [] }

-- A request, a poll, and the record delivered twice.
abbrev one_shipment : List Activity
one_shipment =
    create calm (1 ∷ []) shipment "req_1"
    ∷ relay calm (pos 10)
    ∷ consume calm (2 ∷ []) 0
    ∷ consume calm (3 ∷ []) 0
    ∷ []

arrives :
    joined_row "shp_1" (execute json pg cluster one_shipment idle).db
    ≡ some (record {
      shipment = shipment_stored;
      published_at = some 20;
      dispatch = some (record {
        dispatch_id = new_dispatch_id (2 ∷ []);
        shipment_id = "shp_1";
        event_id = new_event_id (1 ∷ []);
        amount_cents = pos 1250;
        currency = "EUR";
        dispatched_at = 20;
      });
    })
unfolding joined_row execute proceed create_step consume_step record_at create_shipment create_body
    insert_shipment insert_outbox shipment_row begin_func process_pending process_body claim_pending
    claimable order_by_time insert_by_time record_result record_published record_failed
    mark_published mark_row store_batch record_dispatch dispatch_body dispatch_new insert_processed
    insert_dispatch conflict_or publish_batch publish_from publish_event message_for itoa publish
    kafka_record new_outbox_event new_shipment_created decode decode_wire decode_contract
    decode_fields decode_parcel validate_weight validate_money is_currency_code all_upper str_eq
    new_event_id
arrives = refl

execute-Follows_example :
    Follows json pg cluster "shp_1" one_shipment idle
    × Extends
        (joined_row "shp_1" empty_db)
        (joined_row "shp_1" (execute json pg cluster one_shipment idle).db)
    × IsConsistent (execute json pg cluster one_shipment idle).db
execute-Follows_example =
    execute-Follows json pg cluster cluster-IsAcknowledging one_shipment idle "shp_1"
      empty-IsConsistent

-- At the start there is nothing on the topic and no dispatch.
execute-IsGenuine_example :
    let end = execute json pg cluster one_shipment idle in IsGenuine json end.db end.broker
execute-IsGenuine_example =
    execute-IsGenuine json pg cluster cluster-IsAcknowledging one_shipment idle empty-IsConsistent
      (tt, tt)
