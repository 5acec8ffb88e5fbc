-- ===== src/Tests/Smoke.antt =====
-- A stack that works, seen by the smoke test.
use empower_technical_interv.Prelude.{
  ℕ, ◌+◌, leb, refl, true, [], ◌∷◌, none, some, String, str_eq, if◌then◌else◌,
}
use empower_technical_interv.Prelude.Int.{pos}
use empower_technical_interv.Errors.{ok, err}
use empower_technical_interv.Events.{
  ShipmentCreated, WireEvent, type_shipment_created, schema_version, topic, decode, decode_wire,
  decode_contract, decode_fields, decode_parcel,
}
use empower_technical_interv.Events.V1.{wire_event}
use empower_technical_interv.Domain.{validate_weight, validate_money, is_currency_code, all_upper}
use empower_technical_interv.Broker.{KafkaRecord}
use empower_technical_interv.Api.{
  ProtoMoney, ProtoShipment, outbox_pending, outbox_published, dispatch_pending,
  dispatch_dispatched,
}
use empower_technical_interv.Smoke.{
  Addresses, State, smoke_run, run_steps, steps, check_grpc_health, check_pricing_health, get_body,
  smoke_get, smoke_quote, smoke_create, find_event, scan_fetches, scan_records, take_record,
  check_metrics, check_prometheus, check_targets, consumer_outcome, contains_text, counter_in,
  cut_prefix, header_map, poll_counter, poll_shipment, publish_again, replay_is_deduplicated,
  wait_for_dispatch,
}
use empower_technical_interv.Smoke.Calls.{Stack, repeat}
use empower_technical_interv.Smoke.Passes.{HasSeen, smoke_passes}
use empower_technical_interv.Tests.{json}

abbrev addresses : Addresses
addresses = record {
  shipment_mgmt = "s";
  relay_mgmt = "r";
  consumer_mgmt = "c";
  pricing_url = "p";
  prometheus_url = "m";
}

abbrev example_price : ProtoMoney
example_price = record { amount_cents = pos 700; currency = "USD" }

abbrev example_event : ShipmentCreated
example_event = record {
  event_id = "evt_1";
  event_type = type_shipment_created;
  version = schema_version;
  shipment_id = "shp_1";
  occurred_at = 10;
  correlation_id = "req_1";
  parcel = record { weight_grams = pos 1500; amount_cents = pos 700; currency = "USD" };
}

abbrev record_of : String → KafkaRecord WireEvent
record_of key = record {
  topic = topic;
  key = key;
  value = wire_event example_event;
  headers = ("event-type", type_shipment_created) ∷ [];
}

abbrev waiting : ProtoShipment
waiting = record {
  shipment_id = "shp_1";
  weight_grams = pos 1500;
  price = example_price;
  created_at = 10;
  outbox_status = outbox_pending;
  dispatch = record {
    status = dispatch_pending;
    dispatch_id = "";
    event_id = "";
    dispatched_at = none;
  };
}

abbrev done : ProtoShipment
done = record waiting {
  outbox_status = outbox_published;
  dispatch = record {
    status = dispatch_dispatched;
    dispatch_id = "dsp_1";
    event_id = "evt_1";
    dispatched_at = some 20;
  };
}

-- The body of every endpoint, with the counter of the duplicates from a time on.
abbrev body_at : ℕ → String
body_at w =
    if leb 11 w
    then "parcellab_grpc_requests_total parcellab_pricing_requests_total parcellab_outbox_published_total pricing_quotes_total\nparcellab_consumer_events_total{outcome=\"duplicate\"} 1\n"
    else "# HELP\n"

-- A world that is a time: the poll at 0 finds nothing, the shipment is done from 2 on, the replay is
-- at 10, and the consumer counts it at 11.
abbrev stack : Stack WireEvent ℕ
stack = record {
  health_check = λ w. (ok true, w);
  http_get = λ url w. (ok (200, body_at w), w);
  get_quote = λ correlation weight w. (ok example_price, w);
  create_shipment = λ correlation weight w. (ok waiting, w);
  get_shipment = λ correlation id w. (ok (if leb 2 w then done else waiting), w);
  new_client = λ w. (none, w);
  poll_fetches = λ w. if leb 1 w then (record_of "shp_0" ∷ record_of "shp_1" ∷ [], w) else ([], 1);
  new_publisher = λ w. (none, w);
  publish = λ m w. (none, 10);
  sleep = λ w. w + 1;
  rounds = λ w. 3;
  read_counter = λ text. if str_eq text "1" then ok 1 else err [];
  decode_targets = λ text. ok (("shipment", "up") ∷ []);
}

abbrev last : State WireEvent
last = record {
  correlation_id = "req_1";
  shipment_id = "shp_1";
  event_id = "evt_1";
  message = some (record {
    topic = topic;
    key = "shp_1";
    value = wire_event example_event;
    headers = ("event-type", type_shipment_created) ∷ [];
  });
  dispatch_id = "dsp_1";
}

smoke_passes_example : HasSeen json stack addresses "req_1" last 0 11
unfolding smoke_run run_steps repeat smoke_get steps check_grpc_health check_pricing_health get_body
    smoke_quote smoke_create find_event scan_fetches scan_records take_record check_metrics
    check_prometheus check_targets consumer_outcome contains_text counter_in cut_prefix header_map
    poll_counter poll_shipment publish_again replay_is_deduplicated wait_for_dispatch str_eq decode
    decode_wire decode_contract decode_fields decode_parcel all_upper is_currency_code
    validate_money validate_weight
smoke_passes_example = smoke_passes json stack addresses "req_1" last 0 11 refl
