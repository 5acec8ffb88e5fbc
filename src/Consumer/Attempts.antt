-- ===== src/Consumer/Attempts.antt =====
-- The rounds of the handler's loop: how an attempt ends it, cuts it, or goes on.
use empower_technical_interv.Prelude.{
  ℕ, zero, suc, ◌+◌, ◌≡◌, refl, sym, subst, ◌⊎◌, inl, inr, [], ◌∷◌, ◌++◌, Option, none, some,
  Option-cases,
}
use empower_technical_interv.Prelude.Int.{ℤ, pos, wrap64, ◌*ℤ◌}
use empower_technical_interv.Errors.{Error}
use empower_technical_interv.Errors.Chain.{Result-cases}
use empower_technical_interv.Events.{Json, decode}
use empower_technical_interv.Storage.Dispatches.{DispatchRequest}
use empower_technical_interv.Consumer.{
  Outcome, failed, RetryPolicy, Record, Runtime, Log, no_log, Verdict, stop, retry, judge,
  request_of, Answer, sleep, attempt_from, fuel_for, handle,
}

pub Verdict-cases :
    (v : Verdict)
    → ((o : Outcome) × (e : Option Error) × (v ≡ stop o e)) ⊎ ((e : Error) × (v ≡ retry e))
Verdict-cases (stop o e) = inl (o, e, refl)
Verdict-cases (retry e) = inr (e, refl)

abbrev pub wait_at : RetryPolicy → ℕ → ℤ
wait_at policy a = wrap64 (pos a *ℤ policy.backoff)

abbrev pub next_log : RetryPolicy → ℕ → Log → Log
next_log policy a log = record {
  retries = log.retries + 1;
  waits = log.waits ++ (wait_at policy a ∷ []);
}

module _ {S : Type 0} (rt : Runtime S) (policy : RetryPolicy) (req : DispatchRequest) where
  abbrev pub after_store : S → S
  after_store s = (rt.record_dispatch req s).1

  abbrev pub verdict : ℕ → S → Verdict
  verdict a s = judge policy a (rt.context_error (after_store s)) (rt.record_dispatch req s).0

  pub step_stop :
      (fuel a : ℕ) (log : Log) (s : S) {o : Outcome} {e : Option Error}
      → verdict a s ≡ stop o e
      → attempt_from rt (suc fuel) a policy req log s ≡ some (o, e, log, after_store s)
  unfolding attempt_from
  step_stop fuel a log s h = rw (h, attempt_from)

  abbrev pub slept : ℕ → S → Option Error × S
  slept a s = sleep rt (wait_at policy a) (after_store s)

  pub step_cut :
      (fuel a : ℕ) (log : Log) (s : S) {e c : Error}
      → verdict a s ≡ retry e
      → (slept a s).0 ≡ some c
      → attempt_from rt (suc fuel) a policy req log s
        ≡ some (failed, some c, next_log policy a log, (slept a s).1)
  unfolding attempt_from
  step_cut fuel a log s h cut = rw (h, attempt_from) (rw cut refl)

  pub step_again :
      (fuel a : ℕ) (log : Log) (s : S) {e : Error}
      → verdict a s ≡ retry e
      → (slept a s).0 ≡ none
      → attempt_from rt (suc fuel) a policy req log s
        ≡ attempt_from rt fuel (a + 1) policy req (next_log policy a log) (slept a s).1
  unfolding attempt_from
  step_again fuel a log s h fine = rw (h, attempt_from) (rw fine refl)

-- What the store and the timer do to the state, and so does the handler.
module _ {S : Type 0} (rt : Runtime S) (Moves : S → S → Type 0) (stays : (s : S) → Moves s s)
    (joins : (s t u : S) → Moves s t → Moves t u → Moves s u)
    (stores : (req : DispatchRequest) (s : S) → Moves s (rt.record_dispatch req s).1)
    (waits : (d : ℤ) (s : S) → Moves s (rt.timer d s).1) where
  slept-Moves : (d : ℤ) (s : S) → Moves s (sleep rt d s).1
  unfolding sleep
  slept-Moves d s = waits d s

  abbrev pub Ended : S → Option (Answer S) → Type 0
  Ended s none = Unit
  Ended s (some ans) = Moves s ans.3

  later : (s t : S) (r : Option (Answer S)) → Moves s t → Ended t r → Ended s r
  later s t none m e = tt
  later s t (some ans) m e = joins s t ans.3 m e

  both :
      (policy : RetryPolicy) (req : DispatchRequest) (a : ℕ) (s : S)
      → Moves s (slept rt policy req a s).1
  both policy req a s =
      let t : S = after_store rt policy req s in
      let u : S = (slept rt policy req a s).1 in
      joins s t u (stores req s) (slept-Moves (wait_at policy a) t)

  attempt_from-Moves :
      (policy : RetryPolicy) (req : DispatchRequest) (fuel a : ℕ) (log : Log) (s : S)
      → Ended s (attempt_from rt fuel a policy req log s)
  unfolding attempt_from
  attempt_from-Moves policy req zero a log s = tt
  attempt_from-Moves policy req (suc fuel) a log s =
      elim (Verdict-cases (verdict rt policy req a s)) [
        | inl (o, e, h) ↦
            subst (Ended s) (sym (step_stop rt policy req fuel a log s h)) (stores req s)
        | inr (e, h) ↦ elim (Option-cases (slept rt policy req a s).0) [
          | inr (c, cut) ↦
              subst (Ended s) (sym (step_cut rt policy req fuel a log s h cut))
                (both policy req a s)
          | inl fine ↦
              let t : S = (slept rt policy req a s).1 in
              subst (Ended s) (sym (step_again rt policy req fuel a log s h fine)) (
                later s t (attempt_from rt fuel (a + 1) policy req (next_log policy a log) t)
                  (both policy req a s)
                  (attempt_from-Moves policy req fuel (a + 1) (next_log policy a log) t))
        ]
      ]

  -- Whatever relates the states before and after a call of the store and a wait relates the states
  -- before and after Handle.
  pub handle-Moves :
      (j : Json) (policy : RetryPolicy) (rec : Record j.Payload) (s : S)
      → Ended s (handle rt j policy rec s)
  unfolding handle
  handle-Moves j policy rec s = elim (Result-cases (decode j rec.value)) [
    | inr (e, bad) ↦ rw (bad, handle) (stays s)
    | inl (evt, good) ↦
        rw (good, handle)
          (attempt_from-Moves policy (request_of evt) (fuel_for rt policy) 1 no_log s)
  ]
