-- ===== src/Smoke/Replayed.antt =====
-- The steps of the smoke test that wait for the dispatch and replay the event.
use empower_technical_interv.Prelude.{
  ℕ, ◌+◌, ◌<◌, ◌≡◌, sym, ap, ◌∙◌, inl, inr, true, some, none, leb, str_eq_iff, arith, Bool-cases,
}
use empower_technical_interv.Errors.{ok}
use empower_technical_interv.Events.{Json}
use empower_technical_interv.Broker.{Message}
use empower_technical_interv.Api.{ProtoShipment, outbox_published, dispatch_dispatched}
use empower_technical_interv.Smoke.Calls.{
  Stack, Later, bind_ok, demand_ok, succeed_ok, pass_ok, repeat_ok,
}
use empower_technical_interv.Smoke.{
  Addresses, State, consumer_outcome, is_done, smoke_get, poll_shipment, wait_for_dispatch,
  poll_counter, publish_again, replay_is_deduplicated,
}

module _ (j : Json) {W : Type 0} (stack : Stack j.Payload W) (addresses : Addresses) where
  -- The loop asks for the shipment until an answer shows the dispatch of the event, and the outbox row
  -- published.
  abbrev pub IsDispatched : State j.Payload → State j.Payload → W → W → Type 0
  IsDispatched st next before after =
      (asks : W) × Later (poll_shipment j stack addresses st) stack.sleep before asks
      × ((sh : ProtoShipment) × (stack.get_shipment st.correlation_id st.shipment_id asks
            ≡ (ok sh, after))
          × (sh.dispatch.status ≡ dispatch_dispatched)
          × (sh.outbox_status ≡ outbox_published)
          × (sh.dispatch.event_id ≡ st.event_id)
          × (sh.dispatch.dispatch_id ≡ next.dispatch_id))

  is_done_lem :
      (sh : ProtoShipment)
      → is_done j stack addresses sh ≡ true
      → (sh.dispatch.status ≡ dispatch_dispatched) × (sh.outbox_status ≡ outbox_published)
  is_done_lem sh h = ground arith

  poll_shipment_ok :
      (st : State j.Payload) (w : W) (last : ProtoShipment) (v : W)
      → poll_shipment j stack addresses st w ≡ (ok (some last), v)
      → (stack.get_shipment st.correlation_id st.shipment_id w ≡ (ok last, v))
        × (is_done j stack addresses last ≡ true)
  unfolding poll_shipment smoke_get
  poll_shipment_ok st w last v h =
      let (sh, (w1, got, h1)) =
        bind_ok (stack.get_shipment st.correlation_id st.shipment_id w) _ (some last) v h in
      elim (Bool-cases (is_done j stack addresses sh)) [
        | inr waits ↦ absurd (ground arith)
        | inl done ↦
            let (same, there) = pass_ok (some sh) w1 (some last) v (rw done at h1) in
            let equal : sh ≡ last = ground arith in (cc, cc)
      ]

  pub wait_for_dispatch-IsDispatched :
      (st : State j.Payload) (w : W) (next : State j.Payload) (v : W)
      → wait_for_dispatch j stack addresses st w ≡ (ok next, v)
      → (next ≡ record st { dispatch_id = next.dispatch_id }) × IsDispatched st next w v
  unfolding wait_for_dispatch
  wait_for_dispatch-IsDispatched st w next v h =
      let (sh, (w1, looped, h1)) = bind_ok _ _ next v h in
      let (ours, h2) = demand_ok _ _ w1 next v h1 in
      let (same, there) =
        pass_ok (record st { dispatch_id = sh.dispatch.dispatch_id }) w1 next v h2 in
      let (asks, later, last) =
        repeat_ok (stack.rounds w) (poll_shipment j stack addresses st) stack.sleep w sh w1
          looped in
      let (got, done) = poll_shipment_ok st asks sh w1 last in
      let (dispatched, published) = is_done_lem sh done in
      let id : sh.dispatch.dispatch_id ≡ next.dispatch_id =
        ap (λ (s : State j.Payload). s.dispatch_id) same in
      (
        sym same ∙ ap (λ i. record st { dispatch_id = i }) id,
        (asks, later, (sh, cc, dispatched, published, (str_eq_iff _ _).0 ours, id)),
      )

  -- First the counter of the duplicates is read, and then the message of the event is published once
  -- more; the loop reads the counter until it is higher, and only then the shipment has the same
  -- dispatch.
  pub record IsDeduplicated (st : State j.Payload) (before after : W) : Type 0 where
    pub counted : W
    pub reached : W
    pub published : W
    pub reads : W
    pub grown : W
    pub count : ℕ
    pub higher : ℕ
    pub message : Message j.Payload
    pub answer : ProtoShipment
    pub counts : consumer_outcome j stack addresses before ≡ (ok count, counted)
    pub reaches : stack.new_publisher counted ≡ (none, reached)
    pub found : st.message ≡ some message
    pub publishes : stack.publish message reached ≡ (none, published)
    pub waits : Later (poll_counter j stack addresses count) stack.sleep published reads
    pub grows : consumer_outcome j stack addresses reads ≡ (ok higher, grown)
    pub is_higher : count < higher
    pub asks : stack.get_shipment st.correlation_id st.shipment_id grown ≡ (ok answer, after)
    pub same_dispatch : answer.dispatch.dispatch_id ≡ st.dispatch_id

  poll_counter_ok :
      (count : ℕ) (w : W) (higher : ℕ) (v : W)
      → poll_counter j stack addresses count w ≡ (ok (some higher), v)
      → (consumer_outcome j stack addresses w ≡ (ok higher, v)) × (count < higher)
  unfolding poll_counter
  poll_counter_ok count w higher v h =
      let (after, (w1, got, h1)) =
        bind_ok (consumer_outcome j stack addresses w) _ (some higher) v h in
      elim (Bool-cases (leb (count + 1) after)) [
        | inr same ↦ absurd (ground arith)
        | inl grown ↦
            let (same, there) = pass_ok (some after) w1 (some higher) v (rw grown at h1) in
            let equal : after ≡ higher = ground arith in (cc, ground arith)
      ]

  pub replay-IsDeduplicated :
      (st : State j.Payload) (m : Message j.Payload) (w : W) (next : State j.Payload) (v : W)
      → st.message ≡ some m
      → replay_is_deduplicated j stack addresses st w ≡ (ok next, v)
      → (next ≡ st) × IsDeduplicated st w v
  unfolding replay_is_deduplicated smoke_get publish_again
  replay-IsDeduplicated st m w next v found h =
      let (count, (w1, counts, h1)) = bind_ok (consumer_outcome j stack addresses w) _ next v h in
      let (w2, reaches, h2) = succeed_ok (stack.new_publisher w1) _ next v h1 in
      let (w3, sent, h3) = succeed_ok (publish_again j stack addresses st.message w2) _ next v h2 in
      let (higher, (w4, looped, h4)) = bind_ok _ _ next v h3 in
      let (sh, (w5, asks, h5)) =
        bind_ok (stack.get_shipment st.correlation_id st.shipment_id w4) _ next v h4 in
      let (ours, h6) = demand_ok _ _ w5 next v h5 in
      let (same, there) = pass_ok st w5 next v h6 in
      let (reads, waits, last) =
        repeat_ok (stack.rounds w3) (poll_counter j stack addresses count) stack.sleep w3 higher w4
          looped in
      let (grows, more) = poll_counter_ok count reads higher w4 last in
      (
        sym same,
        record {
          counted = w1;
          reached = w2;
          published = w3;
          reads = reads;
          grown = w4;
          count = count;
          higher = higher;
          message = m;
          answer = sh;
          counts = counts;
          reaches = reaches;
          found = found;
          publishes = ap (λ x. publish_again j stack addresses x w2) (sym found) ∙ sent;
          waits = waits;
          grows = grows;
          is_higher = more;
          asks = cc;
          same_dispatch = (str_eq_iff _ _).0 ours;
        },
      )
