-- ===== src/Relay/Loop/Backoff.antt =====
-- The pause after a poll, and what a round of Run does with it.
use empower_technical_interv.Prelude.{
  ℕ, ◌*◌, ◌≤◌, ◌≡◌, ◌≢◌, refl, ap, ◌∙◌, sym, ◌⊎◌, inl, inr, true, List, [], ◌∷◌, Option, none, some,
  arith, String, str_eq, ltb, length, if◌then◌else◌, Option-cases, Bool-cases, str_eq_iff,
}
use empower_technical_interv.Prelude.Int.{ℤ, pos, wrap64, ◌*ℤ◌, min_ℤ, i64_max, wrap64-pos}
use empower_technical_interv.Errors.{Error, Result, ok, err}
use empower_technical_interv.Events.{Json}
use empower_technical_interv.Broker.{Client}
use empower_technical_interv.Storage.Tables.{Db}
use empower_technical_interv.Storage.Outbox.{PublishResult}
use empower_technical_interv.Relay.{Config, Metrics}
use empower_technical_interv.Relay.Loop.{
  Host, Pause, max_backoff, next_backoff, pause, RelayState, waited, ended, relay_round, pause_for,
  polled, after_poll, after_sleep,
}

abbrev pub interval_of : ℕ → ℤ → Config
interval_of p batch = record { poll_interval = pos p; batch_size = batch }

max_backoff_value :
    (p : ℕ) (batch : ℤ) → 10 * p ≤ i64_max → max_backoff (interval_of p batch) ≡ pos (10 * p)
unfolding max_backoff
max_backoff_value p batch h =
    let product : pos 10 *ℤ pos p ≡ pos (10 * p) = ground arith in
    ap wrap64 product ∙ wrap64-pos (10 * p) h

doubled : (b : ℕ) → b * 2 ≤ i64_max → wrap64 (pos b *ℤ pos 2) ≡ pos (b * 2)
doubled b h =
    let product : pos b *ℤ pos 2 ≡ pos (b * 2) = ground arith in
    ap wrap64 product ∙ wrap64-pos (b * 2) h

next_backoff_value :
    (p : ℕ) (batch : ℤ) (b : ℕ)
    → 20 * p ≤ i64_max
    → b ≤ 10 * p
    → next_backoff (interval_of p batch) (pos b)
      ≡ pos (if ltb (10 * p) (b * 2) then 10 * p else b * 2)
unfolding next_backoff
next_backoff_value p batch b h small =
    ap (λ m. min_ℤ m (max_backoff (interval_of p batch))) (doubled b (omega arith))
    ∙ ap (λ m. min_ℤ (pos (b * 2)) m) (max_backoff_value p batch (omega arith))
    ∙ ground arith

-- Between the poll interval and ten of them.
abbrev pub InBounds : ℕ → ℤ → Type 0
InBounds p d = (n : ℕ) × (d ≡ pos n) × (p ≤ n) × (n ≤ 10 * p)

-- No wait, after a poll that published and did not fail.
abbrev pub Drains : Result PublishResult → ℤ → Type 0
Drains r d =
    (result : PublishResult) × (r ≡ ok result)
    × (result.failed ≡ "")
    × (result.published ≢ [])
    × (d ≡ pos 0)

module _ (p : ℕ) (batch : ℤ) (fits : 20 * p ≤ i64_max) where
  abbrev cfg : Config
  cfg = interval_of p batch

  backs_off : (b : ℕ) → p ≤ b → b ≤ 10 * p → InBounds p (next_backoff cfg (pos b))
  backs_off b low high =
      let same = next_backoff_value p batch b fits high in
      ((if ltb (10 * p) (b * 2) then 10 * p else b * 2), same, ground arith, ground arith)

  abbrev Paced : Result PublishResult → Pause → Type 0
  Paced r q = InBounds p q.backoff × (Drains r q.wait ⊎ InBounds p q.wait)

  failing :
      (r : Result PublishResult) (b : ℕ)
      → p ≤ b
      → b ≤ 10 * p
      → Paced r (record { is_failure = true; wait = pos b; backoff = next_backoff cfg (pos b) })
  failing r b low high = (backs_off b low high, inr (b, refl, low, high))

  pub pause-Paced :
      (b : ℕ) (r : Result PublishResult) → p ≤ b → b ≤ 10 * p → Paced r (pause cfg (pos b) r)
  unfolding pause
  pause-Paced b (err e) low high = failing (err e) b low high
  pause-Paced b (ok result) low high = elim (Bool-cases (str_eq result.failed "")) [
    | inr bad ↦ rw bad (failing (ok result) b low high)
    | inl fine ↦ elim (Bool-cases (ltb 0 (length result.published))) [
      | inl some_ids ↦
          let none_failed = (str_eq_iff result.failed "").0 fine in
          rw fine (
            rw some_ids (
              (p, refl, omega arith, omega arith),
              inl (result, refl, none_failed, not_empty result.published some_ids, refl),
            ))
      | inr no_ids ↦
          rw fine (
            rw no_ids
              ((p, refl, omega arith, omega arith), inr (p, refl, omega arith, omega arith)))
    ]
  ]
    where
      not_empty : (ids : List String) → ltb 0 (length ids) ≡ true → ids ≢ []
      not_empty [] h = absurd (cc)
      not_empty (id ∷ ids) h = λ e. absurd (cc)

module _ (j : Json) {W : Type 0} (k : Client j.Payload W) (host : Host W) (cfg : Config) where
  -- What a round that goes on has done, on the poll's answer.
  abbrev Waits : ℤ → Result PublishResult → ℤ → RelayState j.Payload W → Type 0
  Waits backoff r d u =
      (d ≡ (pause cfg backoff r).wait) × (u.backoff ≡ (pause cfg backoff r).backoff)

  after_sleep_waits :
      (q : Pause) (db : Db j.Payload) (m : Metrics) (r : Option Error × W) (d : ℤ)
      (u : RelayState j.Payload W)
      → after_sleep j k host cfg q db m r ≡ waited d u
      → (d ≡ q.wait) × (u.backoff ≡ q.backoff)
  after_sleep_waits q db m (none, w) d u h = ground arith
  after_sleep_waits q db m (some e, w) d u h = absurd (cc)

  after_poll-Waits :
      (backoff : ℤ) (q : Result PublishResult × Db j.Payload × W × Metrics) (d : ℤ)
      (u : RelayState j.Payload W)
      → after_poll j k host cfg backoff q ≡ waited d u
      → Waits backoff q.0 d u
  after_poll-Waits backoff (r, db, w, m) d u h = elim (Option-cases (host.context_error w)) [
    | inr (e, over) ↦ absurd (overs e over)
    | inl fine ↦
        after_sleep_waits (pause cfg backoff r) db m (pause_for host (pause cfg backoff r).wait w) d
          u (goes fine)
  ]
    where
      overs : (e : Error) → host.context_error w ≡ some e → ⊥
      overs e over =
          let stop : after_poll j k host cfg backoff (r, db, w, m)
              ≡ ended (record { backoff = backoff; db = db; world = w; metrics = m }) =
            rw (over, after_poll) refl in
          absurd (cc)

      goes :
          host.context_error w ≡ none
          → after_sleep j k host cfg
              (pause cfg backoff r)
              db
              m
              (pause_for host (pause cfg backoff r).wait w)
            ≡ waited d u
      goes fine =
          let on : after_poll j k host cfg backoff (r, db, w, m)
              ≡ after_sleep j k host cfg (pause cfg backoff r) db m
                  (pause_for host (pause cfg backoff r).wait w) =
            rw (fine, after_poll) refl in
          sym on ∙ h

  pub round-Waits :
      (s : RelayState j.Payload W) (d : ℤ) (u : RelayState j.Payload W)
      → relay_round j k host cfg s ≡ waited d u
      → Waits s.backoff (polled j k host cfg s).0 d u
  unfolding relay_round
  round-Waits s d u h = after_poll-Waits s.backoff (polled j k host cfg s) d u h
