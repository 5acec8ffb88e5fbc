-- ===== src/Smoke/Passes.antt =====
-- What a smoke test that passes has seen.
use empower_technical_interv.Prelude.{
  Any, ℕ, suc, ◌≡◌, refl, sym, ap, subst, ◌∙◌, inl, inr, List, [], ◌∷◌, some, String,
}
use empower_technical_interv.Prelude.Text.{◌<>◌}
use empower_technical_interv.Errors.{Result, ok, err}
use empower_technical_interv.Events.{Json}
use empower_technical_interv.Broker.{Message}
use empower_technical_interv.Smoke.Calls.{Stack, Step, pass, lift, bind_ok, demand_ok, pass_ok}
use empower_technical_interv.Smoke.{
  Addresses, State, Verdict, replay_is_deduplicated, check_targets, check_metrics, check_prometheus,
  get_body, some_target, smoke_get, poll_shipment, steps, passed, verdict_of, metric_targets,
  run_steps, first_state, smoke_run,
}
use empower_technical_interv.Smoke.Made.{
  IsServing, Gets, IsPriced, IsCreated, IsEvent, IsOnTopic, check_grpc_health-IsServing,
  check_pricing_health-Gets, smoke_quote-IsPriced, smoke_create-IsCreated, find_event-IsOnTopic,
}
use empower_technical_interv.Smoke.Replayed.{
  IsDispatched, IsDeduplicated, wait_for_dispatch-IsDispatched, replay-IsDeduplicated,
}

passed-eq :
    {P W : Type 0} (st last : State P) (w v : W)
    → passed st w ≡ passed last v
    → (st ≡ last) × (w ≡ v)
passed-eq st last w v h = (cc, cc)

-- The states between the steps.
abbrev Went :
    {P W : Type 0} → List (State P → Step W (State P)) → State P → W → State P → W → Type 0
Went [] st w last v = (st ≡ last) × (w ≡ v)
Went {P} {W} (step ∷ more) st w last v =
    (next : State P) × ((u : W) × (step st w ≡ (ok next, u)) × Went more next u last v)

verdict_ok :
    {P W : Type 0} (i : ℕ) (rest : State P → W → Verdict P W) (r : Result (State P) × W)
    (last : State P) (v : W)
    → verdict_of i rest r ≡ passed last v
    → (next : State P) × ((u : W) × (r ≡ (ok next, u)) × (rest next u ≡ passed last v))
verdict_ok i rest (err e, w) last v h = absurd (cc)
verdict_ok i rest (ok st, w) last v h = (st, (w, refl, h))

run_steps-Went :
    {P W : Type 0} (i : ℕ) (steps : List (State P → Step W (State P))) (st : State P) (w : W)
    (last : State P) (v : W)
    → run_steps i steps st w ≡ passed last v
    → Went steps st w last v
unfolding run_steps
run_steps-Went i [] st w last v h = passed-eq st last w v h
run_steps-Went i (step ∷ more) st w last v h =
    let (next, (u, went, rest)) =
      verdict_ok i (λ s x. run_steps (suc i) more s x) (step st w) last v h in
    (next, (u, went, run_steps-Went (suc i) more next u last v rest))

found_in : {A : Type 0} (P : A → Type 0) (xs : List A) → Any P xs → (x : A) × P x
found_in P [] h = absurd h
found_in P (x ∷ xs) (inl h) = (x, h)
found_in P (x ∷ xs) (inr h) = found_in P xs h

module _ (j : Json) {W : Type 0} (stack : Stack j.Payload W) (addresses : Addresses) where
  check_metrics-eq :
      (st : State j.Payload) (w : W) (next : State j.Payload) (v : W)
      → check_metrics j stack addresses st w ≡ (ok next, v)
      → next ≡ st
  unfolding check_metrics
  check_metrics-eq st w next v h =
      let (done, (u, checked, rest)) =
        bind_ok (check_targets j stack addresses (metric_targets j stack addresses) w)
          (λ done. pass st) next v h in
      sym (pass_ok st u next v rest).0

  check_prometheus-eq :
      (st : State j.Payload) (w : W) (next : State j.Payload) (v : W)
      → check_prometheus j stack addresses st w ≡ (ok next, v)
      → next ≡ st
  unfolding check_prometheus
  check_prometheus-eq st w next v h =
      let (ready, (w1, asked, h1)) =
        bind_ok (get_body j stack addresses (addresses.prometheus_url <> "/-/ready") w) _ next v
          h in
      let (body, (w2, got, h2)) =
        bind_ok
          (get_body j stack addresses (addresses.prometheus_url <> "/api/v1/targets?state=active")
            w1)
          _ next v h1 in
      let (targets, (w3, decoded, h3)) =
        bind_ok (lift (stack.decode_targets body) w2) _ next v h2 in
      let (active, h4) = demand_ok (some_target j stack addresses targets) (pass st) w3 next v h3 in
      sym (pass_ok st w3 next v h4).0

  -- What a test that passes has seen, in the order of its calls: `serving` to `exposed` are the states of
  -- the world between its steps.
  pub record HasSeen (correlation : String) (st : State j.Payload) (before after : W) : Type 0 where
    pub serving : W
    pub healthy : W
    pub priced : W
    pub created : W
    pub found : W
    pub dispatched : W
    pub replayed : W
    pub exposed : W
    pub correlated : st.correlation_id ≡ correlation
    pub serves : IsServing j stack addresses before serving
    pub is_healthy :
        (body : String) × Gets j stack addresses
          (addresses.pricing_url <> "/healthz")
          body
          serving
          healthy
    pub quotes : IsPriced j stack addresses correlation healthy priced
    pub creates : IsCreated j stack addresses correlation st.shipment_id priced created
    pub finds :
        (asked : State j.Payload) × (asked.shipment_id ≡ st.shipment_id)
        × (asked.correlation_id ≡ correlation)
        × IsOnTopic j stack addresses asked st created found
    pub dispatches : IsDispatched j stack addresses st st found dispatched
    pub deduplicates : IsDeduplicated j stack addresses st dispatched replayed
    pub exposes : check_metrics j stack addresses st replayed ≡ (ok st, exposed)
    pub scrapes : check_prometheus j stack addresses st exposed ≡ (ok st, after)

  -- The message of the event.
  message_of :
      (asked st : State j.Payload) (before after : W)
      → IsOnTopic j stack addresses asked st before after
      → (m : Message j.Payload) × (st.message ≡ some m)
  message_of asked st before after (made, reached, (polls, later, (there, event))) =
      let (rec, seen) =
        found_in (IsEvent j stack addresses st) (stack.poll_fetches polls).0 event in
      (_, seen.6)

  -- The last three steps.
  closing :
      (st : State j.Payload) (w : W) (m : Message j.Payload) (last : State j.Payload) (after : W)
      → st.message ≡ some m
      → Went
          (replay_is_deduplicated j stack addresses
            ∷ check_metrics j stack addresses
            ∷ check_prometheus j stack addresses
            ∷ [])
          st
          w
          last
          after
      → (st ≡ last)
        × ((replayed : W) × IsDeduplicated j stack addresses st w replayed
            × ((exposed : W) × (check_metrics j stack addresses st replayed ≡ (ok st, exposed))
                × (check_prometheus j stack addresses st exposed ≡ (ok st, after))))
  closing st w m last after message
        (st7, (w7, went7, (st8, (w8, went8, (st9, (w9, went9, (ended, there))))))) =
      let (same7, deduplicates) =
        replay-IsDeduplicated j stack addresses st m w st7 w7 message went7 in
      let same8 = check_metrics-eq st7 w7 st8 w8 went8 in
      let same9 = check_prometheus-eq st8 w8 st9 w9 went9 in (cc, (w7, deduplicates, (w8, cc, cc)))

  -- A smoke test that passes has seen all of it, each in the state of the world that the one before it
  -- left: a quote of 700 USD; a new shipment at that price with a pending event; on the topic, a record
  -- with the key of that shipment, whose value decodes to an event under the correlation ID of the test;
  -- an answer of GetShipment with that event dispatched and published; then the counter of the
  -- duplicates, the same message published once more, a higher counter, and after that an answer of
  -- GetShipment with the same dispatch.
  pub smoke_passes :
      (correlation : String) (last : State j.Payload) (before after : W)
      → smoke_run j stack addresses correlation before ≡ passed last after
      → HasSeen correlation last before after
  unfolding smoke_run steps poll_shipment smoke_get
  smoke_passes correlation last before after h =
      let st0 : State j.Payload = first_state correlation in
      let (st1, (w1, went1, more1)) =
        run_steps-Went 1 (steps j stack addresses) st0 before last after h in
      let (st2, (w2, went2, more2)) = more1 in
      let (st3, (w3, went3, more3)) = more2 in
      let (st4, (w4, went4, more4)) = more3 in
      let (st5, (w5, went5, more5)) = more4 in
      let (st6, (w6, went6, more6)) = more5 in
      let (same1, serves) = check_grpc_health-IsServing j stack addresses st0 before st1 w1 went1 in
      let (same2, healthy) = check_pricing_health-Gets j stack addresses st1 w1 st2 w2 went2 in
      let (same3, quotes) = smoke_quote-IsPriced j stack addresses st2 w2 st3 w3 went3 in
      let (same4, creates) = smoke_create-IsCreated j stack addresses st3 w3 st4 w4 went4 in
      let (follows, finds) = find_event-IsOnTopic j stack addresses st4 w4 st5 w5 went5 in
      let (same6, dispatches) =
        wait_for_dispatch-IsDispatched j stack addresses st5 w5 st6 w6 went6 in
      let finds6 : IsOnTopic j stack addresses st4 st6 w4 w5 =
        subst (λ s. IsOnTopic j stack addresses st4 s w4 w5) (sym same6) finds in
      let dispatches6 : IsDispatched j stack addresses st6 st6 w5 w6 =
        subst (λ s. IsDispatched j stack addresses s st6 w5 w6) (sym same6) dispatches in
      let (m, message) = message_of st4 st6 w4 w5 finds6 in
      let (at_end, (w7, deduplicates, (w8, exposes, scrapes))) =
        closing st6 w6 m last after message more6 in
      let correlated2 : st2.correlation_id ≡ correlation =
        ap (λ (s : State j.Payload). s.correlation_id) (same2 ∙ same1) in
      let correlated3 : st3.correlation_id ≡ correlation =
        ap (λ (s : State j.Payload). s.correlation_id) same3 ∙ correlated2 in
      let correlated4 : st4.correlation_id ≡ correlation =
        ap (λ (s : State j.Payload). s.correlation_id) same4 ∙ correlated3 in
      let ids : st6.shipment_id ≡ st4.shipment_id =
        ap (λ (s : State j.Payload). s.shipment_id) same6 ∙ follows.1 in
      let seen : HasSeen correlation st6 before after = record {
        serving = w1;
        healthy = w2;
        priced = w3;
        created = w4;
        found = w5;
        dispatched = w6;
        replayed = w7;
        exposed = w8;
        correlated = ap (λ (s : State j.Payload). s.correlation_id) same6 ∙ follows.0 ∙ correlated4;
        serves = serves;
        is_healthy = healthy;
        quotes = subst (λ c. IsPriced j stack addresses c w2 w3) correlated2 quotes;
        creates =
            subst (λ i. IsCreated j stack addresses correlation i w3 w4) (sym ids)
              (subst (λ c. IsCreated j stack addresses c st4.shipment_id w3 w4) correlated3
                creates);
        finds = (st4, sym ids, correlated4, finds6);
        dispatches = dispatches6;
        deduplicates = deduplicates;
        exposes = exposes;
        scrapes = scrapes;
      } in
      subst (λ s. HasSeen correlation s before after) at_end seen
