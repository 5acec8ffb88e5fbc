-- ===== src/Relay/Loop/Pace.antt =====
-- How Run backs off.
use empower_technical_interv.Prelude.{
  ℕ, suc, ◌*◌, ◌≤◌, ◌<◌, ◌≡◌, ◌≢◌, refl, ap, ◌∙◌, sym, subst, ◌⊎◌, inl, inr, List, none, arith, All,
}
use empower_technical_interv.Prelude.Int.{
  ℤ, pos, negsuc, ◌≤ℤ◌, wrap64, ◌*ℤ◌, min_ℤ, i64_max, u64_mod, wrap64-over,
}
use empower_technical_interv.Errors.{Error, err}
use empower_technical_interv.Events.{Json}
use empower_technical_interv.Broker.{Client}
use empower_technical_interv.Storage.Tables.{Db}
use empower_technical_interv.Relay.{validate_config, Metrics}
use empower_technical_interv.Relay.Loop.{
  Host, max_backoff, next_backoff, pause, RelayState, waited, relay_round, start, Relays, begins,
  goes_on, polled,
}
use empower_technical_interv.Relay.Loop.Backoff.{
  interval_of, InBounds, Drains, pause-Paced, round-Waits,
}

module _ (j : Json) {W : Type 0} (k : Client j.Payload W) (host : Host W) (p : ℕ) (batch : ℤ)
    (fits : 20 * p ≤ i64_max) where
  -- A wait of Run: none at all, after a poll that published, or one within the bounds.
  abbrev pub IsPaced : ℤ → Type 0
  IsPaced d = (d ≡ pos 0) ⊎ InBounds p d

  abbrev Pacing : List ℤ → RelayState j.Payload W → Type 0
  Pacing waits t = All IsPaced waits × InBounds p t.backoff

  IsPaced-round :
      (t u : RelayState j.Payload W) (d : ℤ)
      → InBounds p t.backoff
      → relay_round j k host (interval_of p batch) t ≡ waited d u
      → InBounds p u.backoff
        × IsPaced d
        × ((d ≡ pos 0) → (p ≡ 0) ⊎ Drains (polled j k host (interval_of p batch) t).0 d)
  IsPaced-round t u d (b, same, low, high) step =
      let cfg = interval_of p batch in
      let r = (polled j k host cfg t).0 in
      let (wait, backoff) = round-Waits j k host cfg t d u step in
      let (next, how) = pause-Paced p batch fits b r low high in
      let wait' : d ≡ (pause cfg (pos b) r).wait = wait ∙ ap (λ x. (pause cfg x r).wait) same in
      let backoff' : u.backoff ≡ (pause cfg (pos b) r).backoff =
        backoff ∙ ap (λ x. (pause cfg x r).backoff) same in
      (
        subst (InBounds p) (sym backoff') next,
        elim how [
          | inl (result, _, _, _, zero_wait) ↦ inl (wait' ∙ zero_wait)
          | inr bounded ↦ inr (subst (InBounds p) (sym wait') bounded)
        ],
        λ none_left. elim how [
          | inl drains ↦ inr (subst (Drains r) (sym wait') drains)
          | inr (n, value, above, below) ↦ inl (ground (arith, wait', none_left, value, above))
        ],
      )

  Relays-Pacing :
      (s : RelayState j.Payload W)
      → InBounds p s.backoff
      → {waits : List ℤ} {t : RelayState j.Payload W}
      → Relays j k host (interval_of p batch) s waits t
      → Pacing waits t
  Relays-Pacing s b begins = (tt, b)
  Relays-Pacing s b (goes_on {waits} {d} {t} {u} before step) =
      let (paced, bounded) = Relays-Pacing s b before in
      let (next, wait, _) = IsPaced-round t u d bounded step in ((wait, paced), next)

  positive : validate_config (interval_of p batch) ≡ none → p ≢ 0
  unfolding validate_config
  positive h none_left = absurd (ground arith)

  -- Run with a configuration that Validate accepts, if twenty poll intervals fit in an int64: every wait is
  -- nothing or between the poll interval and ten poll intervals, the backoff stays within those bounds,
  -- and a round that goes on without a wait has published something and had no failure, so that no
  -- failure and no empty poll makes Run poll again at once.
  pub run-IsPaced :
      validate_config (interval_of p batch) ≡ none
      → (db : Db j.Payload) (w : W) (m : Metrics) (waits : List ℤ) (t : RelayState j.Payload W)
      → Relays j k host (interval_of p batch) (start j k host (interval_of p batch) db w m) waits t
      → All IsPaced waits
        × InBounds p t.backoff
        × ((u : RelayState j.Payload W)
            → relay_round j k host (interval_of p batch) t ≡ waited (pos 0) u
            → Drains (polled j k host (interval_of p batch) t).0 (pos 0))
  unfolding start
  run-IsPaced valid db w m waits t run =
      let (paced, bounded) =
        Relays-Pacing (start j k host (interval_of p batch) db w m)
          (p, refl, omega arith, omega arith) run in
      (
        paced,
        bounded,
        λ u step. elim ((IsPaced-round t u (pos 0) bounded step).2 refl) [
          | inl zero_interval ↦ absurd (positive valid zero_interval)
          | inr drains ↦ drains
        ],
      )

at_most : (x m : ℤ) → m ≤ℤ pos 0 → min_ℤ x m ≤ℤ pos 0
at_most (pos a) (pos b) h = ground arith
at_most (pos a) (negsuc b) h = ground arith
at_most (negsuc a) (pos b) h = ground arith
at_most (negsuc a) (negsuc b) h = ground arith

over :
    (p batch : ℕ)
    → i64_max < 10 * p
    → 10 * p < u64_mod
    → max_backoff (interval_of p (pos (suc batch))) ≤ℤ pos 0
unfolding max_backoff
over p batch large small =
    let product : pos 10 *ℤ pos p ≡ pos (10 * p) = ground arith in
    subst (λ z. z ≤ℤ pos 0) (sym (ap wrap64 product ∙ wrap64-over (10 * p) large small))
      (omega arith)

-- Ten times the poll interval is an int64 product. With an interval between a tenth of 2^63 and a tenth
-- of 2^64 nanoseconds, which Validate accepts, the limit of the backoff is negative, so that the second
-- failure in a row is followed by no wait at all.
pub overflowing_interval_is_accepted :
    (p : ℕ) (batch : ℕ) (e e' : Error)
    → i64_max < 10 * p
    → 10 * p < u64_mod
    → let cfg = interval_of p (pos (suc batch)) in
      (validate_config cfg ≡ none)
      × ((pause cfg (pause cfg cfg.poll_interval (err e)).backoff (err e')).wait ≤ℤ pos 0)
unfolding validate_config pause next_backoff
overflowing_interval_is_accepted p batch e e' large small = (
  ground arith,
  at_most (wrap64 (pos p *ℤ pos 2)) (max_backoff (interval_of p (pos (suc batch))))
      (over p batch large small),
)
