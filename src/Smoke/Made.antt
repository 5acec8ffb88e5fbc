-- ===== src/Smoke/Made.antt =====
-- The steps of the smoke test up to the event on the topic.
use empower_technical_interv.Prelude.{
  Any, ◌≡◌, sym, ap, ◌∙◌, inl, inr, true, ◌&&◌, List, [], ◌∷◌, none, some, String, str_eq,
  str_eq_iff, arith, Bool-cases,
}
use empower_technical_interv.Prelude.Int.{eq_ℤ, eq_ℤ_iff}
use empower_technical_interv.Prelude.Text.{◌<>◌}
use empower_technical_interv.Errors.{ok}
use empower_technical_interv.Errors.Chain.{Result-cases}
use empower_technical_interv.Events.{Json, ShipmentCreated, decode}
use empower_technical_interv.Broker.{KafkaRecord}
use empower_technical_interv.Api.{ProtoMoney, ProtoShipment, outbox_pending}
use empower_technical_interv.Smoke.Calls.{
  Stack, pass, Later, bind_ok, demand_ok, succeed_ok, pass_ok, repeat_ok,
}
use empower_technical_interv.Smoke.{
  example_weight_grams, example_amount_cents, example_currency, Addresses, State, is_pending,
  header_map, get_body, check_grpc_health, check_pricing_health, smoke_quote, smoke_create,
  take_record, scan_records, scan_fetches, find_event,
}

module _ (j : Json) {W : Type 0} (stack : Stack j.Payload W) (addresses : Addresses) where
  -- The calls of a predicate `P before after` begin in the state `before` and end in `after`.
  abbrev pub IsServing : W → W → Type 0
  IsServing before after = stack.health_check before ≡ (ok true, after)

  pub check_grpc_health-IsServing :
      (st : State j.Payload) (w : W) (next : State j.Payload) (v : W)
      → check_grpc_health j stack addresses st w ≡ (ok next, v)
      → (next ≡ st) × IsServing w v
  unfolding check_grpc_health
  check_grpc_health-IsServing st w next v h =
      let (serving, (w1, got, h1)) = bind_ok (stack.health_check w) _ next v h in
      let (good, h2) = demand_ok serving _ w1 next v h1 in
      let (same, there) = pass_ok st w1 next v h2 in (sym same, cc)

  -- A GET that answers 200.
  abbrev pub Gets : String → String → W → W → Type 0
  Gets url body before after = get_body j stack addresses url before ≡ (ok body, after)

  pub check_pricing_health-Gets :
      (st : State j.Payload) (w : W) (next : State j.Payload) (v : W)
      → check_pricing_health j stack addresses st w ≡ (ok next, v)
      → (next ≡ st) × ((body : String) × Gets (addresses.pricing_url <> "/healthz") body w v)
  unfolding check_pricing_health
  check_pricing_health-Gets st w next v h =
      let (body, (w1, got, h1)) =
        bind_ok (get_body j stack addresses (addresses.pricing_url <> "/healthz") w) _ next v h in
      let (same, there) = pass_ok st w1 next v h1 in (sym same, (body, cc))

  abbrev pub IsPriced : String → W → W → Type 0
  IsPriced correlation before after =
      (price : ProtoMoney) × (stack.get_quote correlation example_weight_grams before
        ≡ (ok price, after))
      × (price.amount_cents ≡ example_amount_cents)
      × (price.currency ≡ example_currency)

  pub smoke_quote-IsPriced :
      (st : State j.Payload) (w : W) (next : State j.Payload) (v : W)
      → smoke_quote j stack addresses st w ≡ (ok next, v)
      → (next ≡ st) × IsPriced st.correlation_id w v
  unfolding smoke_quote
  smoke_quote-IsPriced st w next v h =
      let (price, (w1, got, h1)) =
        bind_ok (stack.get_quote st.correlation_id example_weight_grams w) _ next v h in
      let (good, h2) =
        demand_ok
          (eq_ℤ price.amount_cents example_amount_cents && str_eq price.currency example_currency)
          (pass st) w1 next v h1 in
      let (same, there) = pass_ok st w1 next v h2 in
      let right : (price.amount_cents ≡ example_amount_cents)
          × (price.currency ≡ example_currency) =
        ground (
          arith,
          eq_ℤ_iff price.amount_cents example_amount_cents,
          str_eq_iff price.currency example_currency,
        ) in
      (sym same, (price, cc, right.0, right.1))

  -- A new shipment with the example's price, whose event is pending.
  abbrev pub IsCreated : String → String → W → W → Type 0
  IsCreated correlation id before after =
      (sh : ProtoShipment) × (stack.create_shipment correlation example_weight_grams before
        ≡ (ok sh, after))
      × (sh.shipment_id ≡ id)
      × (sh.price.amount_cents ≡ example_amount_cents)
      × (sh.outbox_status ≡ outbox_pending)

  pub smoke_create-IsCreated :
      (st : State j.Payload) (w : W) (next : State j.Payload) (v : W)
      → smoke_create j stack addresses st w ≡ (ok next, v)
      → (next ≡ record st { shipment_id = next.shipment_id })
        × IsCreated st.correlation_id next.shipment_id w v
  unfolding smoke_create
  smoke_create-IsCreated st w next v h =
      let (sh, (w1, got, h1)) =
        bind_ok (stack.create_shipment st.correlation_id example_weight_grams w) _ next v h in
      let (priced, h2) = demand_ok _ _ w1 next v h1 in
      let (waiting, h3) =
        demand_ok (is_pending sh.outbox_status) (pass (record st { shipment_id = sh.shipment_id }))
          w1 next v h2 in
      let (same, there) = pass_ok (record st { shipment_id = sh.shipment_id }) w1 next v h3 in
      let id : sh.shipment_id ≡ next.shipment_id =
        ap (λ (s : State j.Payload). s.shipment_id) same in
      (
        sym same ∙ ap (λ i. record st { shipment_id = i }) id,
        (sh, cc, id, (eq_ℤ_iff _ _).0 priced, ground arith),
      )

  -- The record of the shipment, which carries the event under the correlation ID and is the message.
  abbrev pub IsEvent : State j.Payload → KafkaRecord j.Payload → Type 0
  IsEvent st rec =
      (evt : ShipmentCreated) × (rec.key ≡ st.shipment_id)
      × (decode j rec.value ≡ ok evt)
      × (evt.event_id ≡ st.event_id)
      × (evt.parcel.amount_cents ≡ example_amount_cents)
      × (evt.correlation_id ≡ st.correlation_id)
      × (st.message
          ≡ some (record {
            topic = rec.topic;
            key = rec.key;
            value = rec.value;
            headers = header_map [] rec.headers;
          }))

  abbrev pub Follows : State j.Payload → State j.Payload → Type 0
  Follows st next = (next.correlation_id ≡ st.correlation_id) × (next.shipment_id ≡ st.shipment_id)

  take_record-IsEvent :
      (st next : State j.Payload) (rec : KafkaRecord j.Payload)
      → rec.key ≡ st.shipment_id
      → take_record j stack addresses st rec ≡ ok next
      → Follows st next × IsEvent next rec
  unfolding take_record
  take_record-IsEvent st next rec ours h = elim (Result-cases (decode j rec.value)) [
    | inr (e, failed) ↦ absurd (ground arith)
    | inl (evt, got) ↦
        let same : (evt.event_id ≡ next.event_id)
            × (evt.parcel.amount_cents ≡ example_amount_cents)
            × (evt.correlation_id ≡ next.correlation_id)
            × (next.message
                ≡ some (record {
                  topic = rec.topic;
                  key = rec.key;
                  value = rec.value;
                  headers = header_map [] rec.headers;
                }))
            × (next.correlation_id ≡ st.correlation_id)
            × (next.shipment_id ≡ st.shipment_id) =
          ground (
            arith,
            eq_ℤ_iff evt.parcel.amount_cents example_amount_cents,
            str_eq_iff evt.correlation_id st.correlation_id,
          ) in
        ((same.4, same.5), (evt, ours ∙ sym same.5, got, same.0, same.1, same.2, same.3))
  ]

  scan_records-IsEvent :
      (st next : State j.Payload) (recs : List (KafkaRecord j.Payload))
      → scan_records j stack addresses st recs ≡ ok (some next)
      → Follows st next × Any (IsEvent next) recs
  unfolding scan_records
  scan_records-IsEvent st next [] h = absurd (cc)
  scan_records-IsEvent st next (rec ∷ recs) h = elim (Bool-cases (str_eq rec.key st.shipment_id)) [
    | inl ours ↦
        let taken : take_record j stack addresses st rec ≡ ok next = ground arith in
        let (follows, event) = take_record-IsEvent st next rec ((str_eq_iff _ _).0 ours) taken in
        (follows, inl event)
    | inr other ↦
        let (follows, event) = scan_records-IsEvent st next recs (ground arith) in
        (follows, inr event)
  ]

  -- The client is made and polls, and the last poll has the record of the event.
  abbrev pub IsOnTopic : State j.Payload → State j.Payload → W → W → Type 0
  IsOnTopic st next before after =
      (made : W) × (stack.new_client before ≡ (none, made))
      × ((polls : W) × Later (scan_fetches j stack addresses st) (λ v. v) made polls
          × (let (recs, w) = stack.poll_fetches polls in (w ≡ after) × Any (IsEvent next) recs))

  pub find_event-IsOnTopic :
      (st : State j.Payload) (w : W) (next : State j.Payload) (v : W)
      → find_event j stack addresses st w ≡ (ok next, v)
      → Follows st next × IsOnTopic st next w v
  unfolding find_event scan_fetches
  find_event-IsOnTopic st w next v h =
      let (w1, made, h1) = succeed_ok (stack.new_client w) _ next v h in
      let (w2, later, last) =
        repeat_ok (stack.rounds w1) (scan_fetches j stack addresses st) (λ u. u) w1 next v h1 in
      let (follows, event) =
        scan_records-IsEvent st next (stack.poll_fetches w2).0 (ap (λ r. r.0) last) in
      (follows, (w1, made, (w2, later, (ap (λ r. r.1) last, event))))
