-- ===== src/Startup/Patience.antt =====
-- internal/config/config.go: the loop of Retry against the deadline of its context.
use empower_technical_interv.Prelude.{
  ℕ, zero, suc, ◌+◌, ◌*◌, ◌/◌, ◌≤◌, ◌<◌, ◌≡◌, ◌≢◌, refl, ap, ◌∙◌, sym, subst, ◌⊎◌, inl, inr, Bool,
  true, false, ◌++◌, Option, none, some, arith, if◌then◌else◌, ltb, Option-cases, Bool-cases,
}
use empower_technical_interv.Prelude.Int.{pos, wrap64, ◌*ℤ◌, min_ℤ, wrap64-pos}
use empower_technical_interv.Errors.{Error}
use empower_technical_interv.Startup.{
  Clock, gave_up, next_wait, retry_from, retry_start, longest_wait,
}

-- The clock of the context with a deadline: time does not go back, a timer that fires has waited, and
-- the context has an error once the deadline has passed.
pub record IsClock {W : Type 0} (c : Clock W) (time : W → ℕ) (deadline : ℕ) : Type 0 where
  pub attempts : (w : W) → time w ≤ time (c.attempt w).1
  pub fires :
      (d : ℕ) (w : W) → (c.timer (pos d) w).0 ≡ false → time w + d ≤ time (c.timer (pos d) w).1
  pub ends : (w : W) → c.context_error w ≡ none → time w < deadline

next_wait_value :
    (d : ℕ)
    → d ≤ 5000000000
    → next_wait (pos d) ≡ pos (if ltb 5000000000 (d * 2) then 5000000000 else d * 2)
unfolding next_wait
next_wait_value d h =
    let product : pos d *ℤ pos 2 ≡ pos (d * 2) = ground arith in
    ap (λ m. min_ℤ m longest_wait) (ap wrap64 product ∙ wrap64-pos (d * 2) (omega arith))
    ∙ ground arith

module _ {W : Type 0} (c : Clock W) (time : W → ℕ) (deadline : ℕ)
    (law : IsClock c time deadline) where
  abbrev pub Returns : W → Option (Option Error × W) → Type 0
  Returns w r =
      (a : Option Error × W) × (r ≡ some a) × ((a.0 ≡ none) → (v : W) × ((c.attempt v).0 ≡ none))

  abbrev tried : W → W
  tried w = (c.attempt w).1

  abbrev waited : ℕ → W → Bool × W
  waited d w = c.timer (pos d) (tried w)

  -- Another round: the attempt failed, the context is alive and the timer has fired.
  again :
      (fuel d : ℕ) (w : W) {e : Error}
      → (c.attempt w).0 ≡ some e
      → c.context_error (tried w) ≡ none
      → (waited d w).0 ≡ false
      → d ≤ 5000000000
      → retry_from c (suc fuel) (pos d) w
        ≡ retry_from c fuel
            (pos (if ltb 5000000000 (d * 2) then 5000000000 else d * 2))
            (waited d w).1
  unfolding retry_from
  again fuel d w failed alive fired high =
      rw (failed, retry_from)
        (rw alive
          (rw fired (ap (λ m. retry_from c fuel m (waited d w).1) (next_wait_value d high))))

  cut_off :
      (fuel d : ℕ) (w : W) {e : Error}
      → (c.attempt w).0 ≡ some e
      → c.context_error (tried w) ≡ none
      → (waited d w).0 ≡ true
      → retry_from c (suc fuel) (pos d) w
        ≡ some (some (gave_up (c.context_error (waited d w).1) e), (waited d w).1)
  unfolding retry_from
  cut_off fuel d w failed alive cut = rw (failed, retry_from) (rw alive (rw cut refl))

  stops :
      (fuel d : ℕ) (w : W)
      → ((c.attempt w).0 ≡ none)
        ⊎ ((e : Error) × ((c.attempt w).0 ≡ some e)
            × ((c.context_error (tried w) ≢ none) ⊎ ((waited d w).0 ≡ true)))
      → Returns w (retry_from c (suc fuel) (pos d) w)
  unfolding retry_from
  stops fuel d w (inl fine) = ((none, tried w), rw (fine, retry_from) refl, λ _. (w, fine))
  stops fuel d w (inr (e, failed, why)) = elim (Option-cases (c.context_error (tried w))) [
    | inr (stop, over) ↦
        ((some (stop ++ e), tried w), rw (failed, retry_from) (rw over refl), λ n. absurd (cc))
    | inl alive ↦ elim why [
      | inl over ↦ absurd (over alive)
      | inr cut ↦ (
        (some (gave_up (c.context_error (waited d w).1) e), (waited d w).1),
        cut_off fuel d w failed alive cut,
        λ n. absurd (cc),
      )
    ]
  ]

  abbrev pub Enough : ℕ → W → Type 0
  Enough fuel w = deadline < time w + fuel * 500000000

  -- The time that is left after a wait.
  spent :
      (fuel d : ℕ) (w : W)
      → 500000000 ≤ d
      → Enough (suc fuel) w
      → (waited d w).0 ≡ false
      → Enough fuel (waited d w).1
  spent fuel d w low enough fired =
      let passed = law.fires d (tried w) fired in
      let before = law.attempts w in omega (arith, passed, before)

  late : (w : W) → Enough 0 w → c.context_error (tried w) ≡ none → ⊥
  late w enough alive =
      let before = law.attempts w in
      let early = law.ends (tried w) alive in omega (arith, before, early)

  pub retry_from-Returns :
      (fuel d : ℕ) (w : W)
      → 500000000 ≤ d
      → d ≤ 5000000000
      → Enough fuel w
      → Returns w (retry_from c (suc fuel) (pos d) w)
  retry_from-Returns zero d w low high enough = elim (Option-cases (c.attempt w).0) [
    | inl fine ↦ stops (zero) d w (inl fine)
    | inr (e, failed) ↦ elim (Option-cases (c.context_error (tried w))) [
      | inr (stop, over) ↦ stops (zero) d w (inr (e, failed, inl (λ n. absurd (cc))))
      | inl alive ↦ absurd (late w enough alive)
    ]
  ]
  retry_from-Returns (suc f) d w low high enough = elim (Option-cases (c.attempt w).0) [
    | inl fine ↦ stops (suc f) d w (inl fine)
    | inr (e, failed) ↦ elim (Option-cases (c.context_error (tried w))) [
      | inr (stop, over) ↦ stops (suc f) d w (inr (e, failed, inl (λ n. absurd (cc))))
      | inl alive ↦ elim (Bool-cases (waited d w).0) [
        | inl cut ↦ stops (suc f) d w (inr (e, failed, inr cut))
        | inr fired ↦ subst (Returns w) (sym (again (suc f) d w failed alive fired high)) (
            retry_from-Returns f (if ltb 5000000000 (d * 2) then 5000000000 else d * 2)
              (waited d w).1 (ground arith) (ground arith) (spent f d w low enough fired))
      ]
    ]
  ]

  -- The context ends the attempts and the timers that it bounds: an attempt has returned some grace
  -- after the deadline, and a timer no later than the deadline.
  pub record IsPrompt (grace : ℕ) : Type 0 where
    pub attempts_end : (w : W) → time w ≤ deadline → time (c.attempt w).1 ≤ deadline + grace
    pub timers_end : (d : ℕ) (w : W) → time w ≤ deadline → time (c.timer (pos d) w).1 ≤ deadline

  module _ (grace : ℕ) (prompt : IsPrompt grace) where
    -- A timer starts only while the context is alive.
    waited_in_time :
        (d : ℕ) (w : W) → c.context_error (tried w) ≡ none → time (waited d w).1 ≤ deadline
    waited_in_time d w alive =
        let early = law.ends (tried w) alive in prompt.timers_end d (tried w) (omega (arith, early))

    retry_from-ends_by :
        (fuel d : ℕ) (w : W) (a : Option Error × W)
        → d ≤ 5000000000
        → time w ≤ deadline
        → retry_from c fuel (pos d) w ≡ some a
        → time a.1 ≤ deadline + grace
    unfolding retry_from
    retry_from-ends_by zero d w a high early h = absurd (cc)
    retry_from-ends_by (suc f) d w a high early h =
        let soon : time (tried w) ≤ deadline + grace = prompt.attempts_end w early in
        elim (Option-cases (c.attempt w).0) [
          | inl fine ↦
              let same : retry_from c (suc f) (pos d) w ≡ some (none, tried w) =
                rw (fine, retry_from) refl in
              let last : a ≡ (none, tried w) = cc in
              subst (λ x. time x.1 ≤ deadline + grace) (sym last) soon
          | inr (e, failed) ↦ elim (Option-cases (c.context_error (tried w))) [
            | inr (stop, over) ↦
                let same : retry_from c (suc f) (pos d) w ≡ some (some (stop ++ e), tried w) =
                  rw (failed, retry_from) (rw over refl) in
                let last : a ≡ (some (stop ++ e), tried w) = cc in
                subst (λ x. time x.1 ≤ deadline + grace) (sym last) soon
            | inl alive ↦
                let on_time : time (waited d w).1 ≤ deadline = waited_in_time d w alive in
                elim (Bool-cases (waited d w).0) [
                  | inl cut ↦
                      let same = cut_off f d w failed alive cut in
                      let last : a
                          ≡ (some (gave_up (c.context_error (waited d w).1) e), (waited d w).1) =
                        cc in
                      subst (λ x. time x.1 ≤ deadline + grace) (sym last) (omega (arith, on_time))
                  | inr fired ↦
                      retry_from-ends_by f (if ltb 5000000000 (d * 2) then 5000000000 else d * 2)
                        (waited d w).1 a (ground arith) on_time
                        (sym (again f d w failed alive fired high) ∙ h)
                ]
          ]
        ]

    -- On a clock whose context ends at the deadline, and with it the timers and, after a grace, the
    -- attempts: if the deadline is the timeout after the start, Retry returns after at most one attempt
    -- for each half second of the timeout and two more, no later than the grace after the deadline, and
    -- it returns no error only after an attempt that succeeded.
    pub retry-Returns :
        (timeout : ℕ) (w : W)
        → deadline ≡ time w + timeout
        → (a : Option Error × W) × (retry_start c (suc (timeout / 500000000 + 1)) w ≡ some a)
          × ((a.0 ≡ none) → (v : W) × ((c.attempt v).0 ≡ none))
          × (time a.1 ≤ deadline + grace)
    unfolding retry_start
    retry-Returns timeout w start =
        let (a, found, why) =
          retry_from-Returns (timeout / 500000000 + 1) 500000000 w (omega arith) (omega arith)
            (omega arith) in
        (
          a,
          found,
          why,
          retry_from-ends_by (suc (timeout / 500000000 + 1)) 500000000 w a (omega arith)
              (omega arith) found,
        )
