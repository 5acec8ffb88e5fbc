-- ===== src/Consumer/Loop/Committed.antt =====
-- internal/consumer/consumer.go: the offsets that the loop commits, against the events that the store
-- has recorded.
use empower_technical_interv.Prelude.{
  ℕ, ◌≤◌, ◌≡◌, refl, ◌∙◌, subst, inl, inr, Option, none, some, arith, Option-cases, Bool-cases,
}
use empower_technical_interv.Prelude.Int.{ℤ}
use empower_technical_interv.Errors.{Error}
use empower_technical_interv.Events.{Json}
use empower_technical_interv.Consumer.Loop.{
  ConsumerConfig, ClientOptions, run_options, Group, Turn, goes, ends, after_fetches, round, Runs,
  begins, turns,
}
use empower_technical_interv.Consumer.Loop.Offsets.{
  advances, View, IsKeeping, IsClient, IsSafe, IsCaughtUp,
}
use empower_technical_interv.Consumer.Loop.Progress.{at, kept, Progress, process_fetches-Progress}

module _ (j : Json) {S : Type 0} (v : View j S) where
  abbrev pub state_of : Turn S → S
  state_of (goes s) = s
  state_of (ends e s) = s

  abbrev pub SafeTurn : Option (Turn S) → Type 0
  SafeTurn r = (t : Turn S) × (r ≡ some t) × IsSafe j v (state_of t)

  module _ (g : Group j.Payload S) (law : IsKeeping j v g) (cfg : ConsumerConfig) where
    -- At the head of the loop: the client has caught up, unless the context is over.
    abbrev Ready : S → Type 0
    Ready s = IsSafe j v s × (g.context_error s ≡ none → IsCaughtUp j v s)

    -- A round that goes on is at the head of the loop.
    abbrev ReadyTurn : Turn S → Type 0
    ReadyTurn (goes s) = Ready s
    ReadyTurn (ends e s) = IsSafe j v s

    after_fetches-ReadyTurn :
        (c : ℤ → ℕ) (s : S) (r : Option Error × S)
        → Progress j v g law cfg c s r
        → v.position s ≡ c
        → ReadyTurn (after_fetches j g cfg r)
    after_fetches-ReadyTurn c s (none, t) (safe, stays, up) ahead =
        let (same, from, still) = law.allows t in
        (
          kept j v t (g.allow_rebalance t) same still safe,
          λ alive p.
              let committed' = at j v p same in
              elim (from p) [
                | inr back ↦ omega (arith, back, committed')
                | inl on ↦
                    let read = at j v p (stays ∙ ahead) in
                    let done = up refl p in omega (arith, on, read, done, committed')
              ],
        )
    after_fetches-ReadyTurn c s (some e, t) (safe, stays, up) ahead =
        let (same, from, still) = law.allows t in
        let allowed : S = g.allow_rebalance t in
        let safe' : IsSafe j v allowed = kept j v t allowed same still safe in
        elim (Option-cases (g.context_error allowed)) [
          | inl fine ↦ rw (fine, ReadyTurn) safe'
          | inr (e', over) ↦ rw (over, ReadyTurn) (safe', λ alive. absurd (cc))
        ]

    round-ReadyTurn : (s : S) → Ready s → (t : Turn S) × (round j g cfg s ≡ some t) × ReadyTurn t
    unfolding round
    round-ReadyTurn s (safe, caught) = elim (Option-cases (g.context_error s)) [
      | inr (c, over) ↦ (ends none s, rw (over, round) refl, safe)
      | inl fine ↦
          let (f, t) = g.poll_records s in
          let (same, still, (start, from, order, ahead)) = law.polls s in
          let safe' : IsSafe j v t = kept j v s t same still safe in
          let below : (p : ℤ) → start p ≤ v.committed t p = λ p.
            let held = at j v p same in
            let low = caught fine p in
            elim (from p) [
              | inl on ↦ omega (arith, on, low, held)
              | inr back ↦ omega (arith, back, held)
            ] in
          elim (Bool-cases f.closed) [
            | inl shut ↦ (ends none t, rw (fine, round) (rw shut refl), safe')
            | inr opened ↦
                let (r, found, after) =
                  process_fetches-Progress j v g law cfg f.records start t order below safe' in
                (
                  after_fetches j g cfg r,
                  rw (fine, round) (rw opened (rw found refl)),
                  after_fetches-ReadyTurn (advances f.records start) t r after ahead,
                )
          ]
    ]

    Runs-Ready : {s t : S} → Runs j g cfg s t → Ready s → Ready t
    Runs-Ready begins ready = ready
    Runs-Ready (turns {s} {t} {u} before step) ready =
        let (turn, found, after) = round-ReadyTurn t (Runs-Ready before ready) in
        let same : turn ≡ goes u = cc in subst ReadyTurn same after

    ReadyTurn-IsSafe : (t : Turn S) → ReadyTurn t → IsSafe j v (state_of t)
    ReadyTurn-IsSafe (goes s) ready = ready.0
    ReadyTurn-IsSafe (ends e s) safe = safe

    Runs-IsSafe :
        (s t : S)
        → Runs j g cfg s t
        → IsSafe j v s
        → IsCaughtUp j v s
        → IsSafe j v t × SafeTurn (round j g cfg t)
    Runs-IsSafe s t run safe caught =
        let ready : Ready t = Runs-Ready run (safe, λ alive. caught) in
        let (turn, found, after) = round-ReadyTurn t ready in
        (ready.0, (turn, found, ReadyTurn-IsSafe turn after))

  -- For the client that Run makes, of a library that keeps its promises to a client with these options:
  -- Run never gets stuck, and in every state at the head of its loop, and in the state in which it
  -- returns, each record of the topic before the committed offset of its partition decodes and has its
  -- event recorded in the store. This takes that it was so when Run began, and that the client then read
  -- from committed offsets.
  pub committed_is_recorded :
      (connect : ClientOptions → Group j.Payload S) (cfg : ConsumerConfig)
      → IsClient j v connect
      → (s t : S) → Runs j (connect (run_options cfg)) cfg s t
      → IsSafe j v s
      → IsCaughtUp j v s
      → IsSafe j v t × SafeTurn (round j (connect (run_options cfg)) cfg t)
  unfolding run_options
  committed_is_recorded connect cfg law =
      let g = connect (run_options cfg) in Runs-IsSafe g (law (run_options cfg) refl refl refl) cfg
