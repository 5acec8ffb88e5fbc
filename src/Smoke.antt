-- ===== src/Smoke.antt =====
-- cmd/smoke/main.go: the steps of the smoke test, as functions of the state of the world. The running
-- system is the parameter `Stack`, which answers each call in its turn.
pub mod Calls
pub mod Made
pub mod Replayed
pub mod Passes
use Prim.Native.Char.{Char, code}
use empower_technical_interv.Prelude.{
  ℕ, suc, ◌+◌, Bool, true, false, ◌&&◌, ◌||◌, not, List, [], ◌∷◌, Option, none, some, String,
  str_eq, if◌then◌else◌, ltb, leb, ◌==◌, length,
}
use empower_technical_interv.Prelude.Int.{ℤ, pos, eq_ℤ}
use empower_technical_interv.Prelude.Text.{split_at, ◌<>◌}
use empower_technical_interv.Errors.{Error, Result, ok, err}
use empower_technical_interv.Events.{Json, ShipmentCreated, decode}
use empower_technical_interv.Smoke.Calls.{
  Stack, Step, ◌>>=◌, ◌>>◌, pass, lift, demand, succeed, repeat,
}
use empower_technical_interv.Broker.{Message, KafkaRecord}
use empower_technical_interv.Api.{
  ProtoMoney, ProtoShipment, ProtoOutboxStatus, ProtoDispatchStatus, ProtoDispatch, outbox_pending,
  outbox_published, outbox_unspecified, dispatch_dispatched, dispatch_pending, dispatch_unspecified,
}

abbrev pub example_weight_grams : ℤ
example_weight_grams = pos 1500

abbrev pub example_amount_cents : ℤ
example_amount_cents = pos 700

abbrev pub example_currency : String
example_currency = "USD"

pub record Addresses : Type 0 where
  pub shipment_mgmt : String
  pub relay_mgmt : String
  pub consumer_mgmt : String
  pub pricing_url : String
  pub prometheus_url : String

-- What the steps learn.
pub record State (P : Type 0) : Type 0 where
  pub correlation_id : String
  pub shipment_id : String
  pub event_id : String
  pub message : Option (Message P)
  pub dispatch_id : String

-- strings.CutPrefix
unfoldable pub cut_prefix : String → String → Option String
cut_prefix String.[] line = some line
cut_prefix (String.◌∷◌ p prefix) String.[] = none
cut_prefix (String.◌∷◌ p prefix) (String.◌∷◌ c line) =
    let rest = cut_prefix prefix line in if code p == code c then rest else none

-- bytes.Contains
unfoldable pub contains_text : String → String → Bool
contains_text part String.[] = str_eq part ""
contains_text part (String.◌∷◌ c s) = elim (cut_prefix part (String.◌∷◌ c s)) [
  | some rest ↦ true
  | none ↦ contains_text part s
]

-- The counter of an outcome in the body of /metrics; a series that is absent is 0.
unfoldable pub counter_in : (String → Result ℕ) → String → List String → Result ℕ
counter_in read prefix [] = ok 0
counter_in read prefix (line ∷ lines) = elim (cut_prefix prefix line) [
  | some v ↦ read v
  | none ↦ counter_in read prefix lines
]

abbrev pub is_pending : ProtoOutboxStatus → Bool
is_pending outbox_pending = true
is_pending outbox_published = false
is_pending outbox_unspecified = false

abbrev pub is_published : ProtoOutboxStatus → Bool
is_published outbox_published = true
is_published outbox_pending = false
is_published outbox_unspecified = false

abbrev pub is_dispatched : ProtoDispatchStatus → Bool
is_dispatched dispatch_dispatched = true
is_dispatched dispatch_pending = false
is_dispatched dispatch_unspecified = false

-- headerMap, as the list with the last entry of a key first.
unfoldable pub header_map : List (String × String) → List (String × String) → List (String × String)
header_map out [] = out
header_map out (h ∷ hs) = header_map (h ∷ out) hs

module _ (j : Json) {W : Type 0} (stack : Stack j.Payload W) (addresses : Addresses) where
  abbrev pub SmokeStep : Type 0
  SmokeStep = State j.Payload → Step W (State j.Payload)

  -- smoke.get
  unfoldable pub get_body : String → Step W String
  get_body url = do response ← stack.http_get url; demand (response.0 == 200); pass response.1

  -- consumerOutcome of "duplicate"
  unfoldable pub consumer_outcome : Step W ℕ
  consumer_outcome = do
    body ← get_body (addresses.consumer_mgmt <> "/metrics")
    lift (
        counter_in stack.read_counter "parcellab_consumer_events_total{outcome=\"duplicate\"} "
          (split_at 10 body))

  unfoldable pub check_grpc_health : SmokeStep
  check_grpc_health st = do serving ← stack.health_check; demand serving; pass st

  unfoldable pub check_pricing_health : SmokeStep
  check_pricing_health st = do body ← get_body (addresses.pricing_url <> "/healthz"); pass st

  unfoldable pub smoke_quote : SmokeStep
  smoke_quote st = do
    price ← stack.get_quote st.correlation_id example_weight_grams
    demand (eq_ℤ price.amount_cents example_amount_cents && str_eq price.currency example_currency)
    pass st

  unfoldable pub smoke_create : SmokeStep
  smoke_create st = do
    sh ← stack.create_shipment st.correlation_id example_weight_grams
    demand (eq_ℤ sh.price.amount_cents example_amount_cents)
    demand (is_pending sh.outbox_status)
    pass (record st { shipment_id = sh.shipment_id })

  -- A record with our key is the event, or the step fails.
  abbrev fits_event : State j.Payload → ShipmentCreated → Bool
  fits_event st evt =
      eq_ℤ evt.parcel.amount_cents example_amount_cents
      && str_eq evt.correlation_id st.correlation_id

  unfoldable pub take_record : State j.Payload → KafkaRecord j.Payload → Result (State j.Payload)
  take_record st rec = elim (decode j rec.value) [
    | err e ↦ err e
    | ok evt ↦
        if fits_event st evt
        then ok (record st {
          event_id = evt.event_id;
          message = some (record {
            topic = rec.topic;
            key = rec.key;
            value = rec.value;
            headers = header_map [] rec.headers;
          });
        })
        else err []
  ]

  -- The records of one fetch; `none` if none has our key.
  unfoldable pub scan_records :
      State j.Payload → List (KafkaRecord j.Payload) → Result (Option (State j.Payload))
  scan_records st [] = ok none
  scan_records st (rec ∷ recs) =
      let rest = scan_records st recs in
      if str_eq rec.key st.shipment_id
      then elim (take_record st rec) [ err e ↦ err e | ok st' ↦ ok (some st') ]
      else rest

  -- One round of the loop of findEventInKafka.
  unfoldable pub scan_fetches : State j.Payload → Step W (Option (State j.Payload))
  scan_fetches st w = let (recs, w') = stack.poll_fetches w in (scan_records st recs, w')

  unfoldable pub find_event : SmokeStep
  find_event st = do
    succeed stack.new_client
    λ w. repeat (stack.rounds w) (scan_fetches st) (λ v. v) w

  abbrev pub is_done : ProtoShipment → Bool
  is_done sh = is_dispatched sh.dispatch.status && is_published sh.outbox_status

  unfoldable pub smoke_get : State j.Payload → Step W ProtoShipment
  smoke_get st = stack.get_shipment st.correlation_id st.shipment_id

  -- One round of the loop of waitForDispatch.
  unfoldable pub poll_shipment : State j.Payload → Step W (Option ProtoShipment)
  poll_shipment st = do sh ← smoke_get st; pass (if is_done sh then some sh else none)

  unfoldable pub wait_for_dispatch : SmokeStep
  wait_for_dispatch st = do
    last ← (λ w. repeat (stack.rounds w) (poll_shipment st) stack.sleep w)
    demand (str_eq last.dispatch.event_id st.event_id)
    pass (record st { dispatch_id = last.dispatch.dispatch_id })

  -- One round of the loop of replayIsDeduplicated.
  unfoldable pub poll_counter : ℕ → Step W (Option ℕ)
  poll_counter before = do
    after ← consumer_outcome
    pass (if leb (before + 1) after then some after else none)

  unfoldable pub publish_again : Option (Message j.Payload) → W → Option Error × W
  publish_again none w = (none, w)
  publish_again (some m) w = stack.publish m w

  unfoldable pub replay_is_deduplicated : SmokeStep
  replay_is_deduplicated st = do
    before ← consumer_outcome
    succeed stack.new_publisher
    succeed (publish_again st.message)
    after ← (λ w. repeat (stack.rounds w) (poll_counter before) stack.sleep w)
    sh ← smoke_get st
    demand (str_eq sh.dispatch.dispatch_id st.dispatch_id)
    pass st

  unfoldable pub check_targets : List (String × String) → Step W (Unit {0})
  check_targets [] = pass tt
  check_targets ((url, metric) ∷ targets) = do
    body ← get_body (url <> "/metrics")
    demand (contains_text metric body)
    check_targets targets

  abbrev pub metric_targets : List (String × String)
  metric_targets =
      (addresses.shipment_mgmt, "parcellab_grpc_requests_total")
      ∷ (addresses.shipment_mgmt, "parcellab_pricing_requests_total")
      ∷ (addresses.relay_mgmt, "parcellab_outbox_published_total")
      ∷ (addresses.consumer_mgmt, "parcellab_consumer_events_total")
      ∷ (addresses.pricing_url, "pricing_quotes_total")
      ∷ []

  unfoldable pub check_metrics : SmokeStep
  check_metrics st = do check_targets metric_targets; pass st

  abbrev pub some_target : List (String × String) → Bool
  some_target [] = false
  some_target (t ∷ ts) = true

  -- Targets that are not up are only reported.
  unfoldable pub check_prometheus : SmokeStep
  check_prometheus st = do
    ready ← get_body (addresses.prometheus_url <> "/-/ready")
    body ← get_body (addresses.prometheus_url <> "/api/v1/targets?state=active")
    targets ← lift (stack.decode_targets body)
    demand (some_target targets)
    pass st

  unfoldable pub steps : List SmokeStep
  steps =
      check_grpc_health ∷ check_pricing_health ∷ smoke_quote ∷ smoke_create ∷ find_event
      ∷ wait_for_dispatch ∷ replay_is_deduplicated ∷ check_metrics ∷ check_prometheus ∷ []

-- The loop of run: the number of the step that fails, with its error, or the last state.
pub data Verdict (P W : Type 0) : Type 0 where
  failed_at : ℕ → Error → Verdict P W
  passed : State P → W → Verdict P W

-- After a step, the rest of the loop.
abbrev pub verdict_of :
    {P W : Type 0} → ℕ → (State P → W → Verdict P W) → Result (State P) × W → Verdict P W
verdict_of i rest (err e, w) = failed_at i e
verdict_of i rest (ok st, w) = rest st w

unfoldable pub run_steps :
    {P W : Type 0} → ℕ → List (State P → Step W (State P)) → State P → W → Verdict P W
run_steps i [] st w = passed st w
run_steps i (step ∷ more) st w = verdict_of i (λ st' w'. run_steps (suc i) more st' w') (step st w)

abbrev pub first_state : {P : Type 0} → String → State P
first_state correlation = record {
  correlation_id = correlation;
  shipment_id = "";
  event_id = "";
  message = none;
  dispatch_id = "";
}

unfoldable pub smoke_run :
    (j : Json) {W : Type 0} → Stack j.Payload W → Addresses → String → W → Verdict j.Payload W
smoke_run j stack addresses correlation w =
    run_steps 1 (steps j stack addresses) (first_state correlation) w
