-- ===== src/Consumer/Outcomes.antt =====
-- internal/consumer/handler.go: how Handle ends, its waits, and the events that it answers for.
use empower_technical_interv.Prelude.{
  ℕ, zero, suc, ◌+◌, ◌≡◌, refl, ◌∙◌, sym, ◌⊎◌, inl, inr, Bool, true, false, List, [], ◌∷◌, ◌++◌,
  Option, none, some, arith, Option-cases, Bool-cases,
}
use mathlib.Core.List.{append_assoc, append-nil}
use empower_technical_interv.Prelude.Int.{ℤ, pos, ◌≤ℤ◌, wrap64, ◌*ℤ◌, pos_part}
use empower_technical_interv.Errors.{Error, is, unsupported, dispatch_conflict, Result, ok, err}
use empower_technical_interv.Errors.Chain.{Result-cases}
use empower_technical_interv.Domain.{EventId, Dispatch}
use empower_technical_interv.Events.{Json, ShipmentCreated, decode}
use empower_technical_interv.Storage.Dispatches.{DispatchRequest}
use empower_technical_interv.Consumer.Attempts.{
  Verdict-cases, after_store, verdict, wait_at, next_log, slept, step_stop, step_cut, step_again,
}
use empower_technical_interv.Consumer.{
  Outcome, processed, duplicate, malformed_record, unsupported_record, conflict, failed,
  RetryPolicy, Record, Runtime, Log, no_log, stop, retry, judge, decode_outcome, request_of, Answer,
  attempt_from, handle,
}

-- The outcomes with the errors that they come with.
abbrev pub Ends : Outcome → Option Error → Type 0
Ends processed none = Unit
Ends duplicate none = Unit
Ends conflict (some e) = is dispatch_conflict e ≡ true
Ends failed (some e) = Unit
Ends malformed_record (some e) = is unsupported e ≡ false
Ends unsupported_record (some e) = is unsupported e ≡ true
Ends _ _ = ⊥

judge_stop :
    (policy : RetryPolicy) (attempt : ℕ) (context : Option Error) (r : Result (Dispatch × Bool))
    (o : Outcome) (e : Option Error)
    → judge policy attempt context r ≡ stop o e
    → Ends o e × ((e ≡ none) → (v : Dispatch × Bool) × (r ≡ ok v))
unfolding judge
judge_stop policy attempt context (ok (d, true)) o e h = (ground arith, λ _. ((d, true), refl))
judge_stop policy attempt context (ok (d, false)) o e h = (ground arith, λ _. ((d, false), refl))
judge_stop policy attempt context (err f) o e h = (ground arith, λ n. absurd (ground arith))

judge_retry :
    (policy : RetryPolicy) (attempt : ℕ) (context : Option Error) (r : Result (Dispatch × Bool))
    (e : Error)
    → judge policy attempt context r ≡ retry e
    → pos (suc attempt) ≤ℤ policy.max_attempts
unfolding judge
judge_retry policy attempt context (ok (d, true)) e h = ground arith
judge_retry policy attempt context (ok (d, false)) e h = ground arith
judge_retry policy attempt context (err f) e h = ground arith

-- The waits before the attempts that follow attempt `a`: Backoff times its number, and so on.
abbrev pub schedule : RetryPolicy → ℕ → ℕ → List ℤ
schedule policy a zero = []
schedule policy a (suc k) = wrap64 (pos a *ℤ policy.backoff) ∷ schedule policy (a + 1) k

module _ {S : Type 0} (rt : Runtime S) (Marked : EventId → S → Type 0)
    (marks : (req : DispatchRequest) (s : S) (v : Dispatch × Bool)
      → (rt.record_dispatch req s).0 ≡ ok v
      → Marked req.event_id (rt.record_dispatch req s).1) where
  -- What is true of an answer that began at attempt `a` with the log `log`.
  pub record Kept (policy : RetryPolicy) (id : EventId) (a : ℕ) (log : Log) (ans : Answer S)
      : Type 0 where
    pub retried : ℕ
    pub waits : ans.2.waits ≡ log.waits ++ schedule policy a retried
    pub counted : ans.2.retries ≡ log.retries + retried
    pub bounded : (retried ≡ 0) ⊎ (pos (a + retried) ≤ℤ policy.max_attempts)
    pub ends : Ends ans.0 ans.1
    pub recorded : ans.1 ≡ none → Marked id ans.3

  module _ (policy : RetryPolicy) (req : DispatchRequest) where
    stopped-Kept :
        (a : ℕ) (log : Log) (s : S) (o : Outcome) (e : Option Error)
        → verdict rt policy req a s ≡ stop o e
        → Kept policy req.event_id a log (o, e, log, after_store rt policy req s)
    stopped-Kept a log s o e h =
        let (ends, told) =
          judge_stop policy a (rt.context_error (after_store rt policy req s))
            (rt.record_dispatch req s).0 o e h in
        record {
          retried = 0;
          waits = sym (append-nil log.waits);
          counted = omega arith;
          bounded = inl refl;
          ends = ends;
          recorded = λ n. let (v, at_v) = told n in marks req s v at_v;
        }

    one_wait : (a : ℕ) → schedule policy a 1 ≡ wait_at policy a ∷ []
    one_wait a = refl

    cut-Kept :
        (a : ℕ) (log : Log) (s : S) (c : Error) (s2 : S) {e : Error}
        → verdict rt policy req a s ≡ retry e
        → Kept policy req.event_id a log (failed, some c, next_log policy a log, s2)
    cut-Kept a log s c s2 {e} h =
        let room =
          judge_retry policy a (rt.context_error (after_store rt policy req s))
            (rt.record_dispatch req s).0 e h in
        record {
          retried = 1;
          waits = refl;
          counted = refl;
          bounded = inr (omega (arith, room));
          ends = tt;
          recorded = λ n. absurd (cc);
        }

    later-Kept :
        (a : ℕ) (log : Log) (s : S) (ans : Answer S) {e : Error}
        → verdict rt policy req a s ≡ retry e
        → Kept policy req.event_id (a + 1) (next_log policy a log) ans
        → Kept policy req.event_id a log ans
    later-Kept a log s ans {e} h p =
        let room =
          judge_retry policy a (rt.context_error (after_store rt policy req s))
            (rt.record_dispatch req s).0 e h in
        record {
          retried = suc p.retried;
          waits =
              p.waits
              ∙ append_assoc log.waits (wait_at policy a ∷ []) (schedule policy (a + 1) p.retried);
          counted = omega (arith, p.counted);
          bounded = inr (elim p.bounded [
            | inl none_left ↦ omega (arith, room, none_left)
            | inr some_left ↦ omega (arith, some_left)
          ]);
          ends = p.ends;
          recorded = p.recorded;
        }

    -- The loop's own answer, with what is kept.
    abbrev Answers : Option (Answer S) → ℕ → Log → Type 0
    Answers r a log = (ans : Answer S) × (r ≡ some ans) × Kept policy req.event_id a log ans

    attempt_from-Answers :
        (f a : ℕ) (log : Log) (s : S)
        → policy.max_attempts ≤ℤ pos (a + f)
        → Answers (attempt_from rt (suc f) a policy req log s) a log
    attempt_from-Answers zero a log s enough = elim (Verdict-cases (verdict rt policy req a s)) [
      | inl (o, e, h) ↦ (
        (o, e, log, after_store rt policy req s),
        step_stop rt policy req 0 a log s h,
        stopped-Kept a log s o e h,
      )
      | inr (e, h) ↦ absurd (
          omega (
            arith,
            judge_retry policy a (rt.context_error (after_store rt policy req s))
                (rt.record_dispatch req s).0 e h,
          ))
    ]
    attempt_from-Answers (suc f) a log s enough = elim (Verdict-cases (verdict rt policy req a s)) [
      | inl (o, e, h) ↦ (
        (o, e, log, after_store rt policy req s),
        step_stop rt policy req (suc f) a log s h,
        stopped-Kept a log s o e h,
      )
      | inr (e, h) ↦
          let s2 : S = (slept rt policy req a s).1 in
          let (ans, found, p) =
            attempt_from-Answers f (a + 1) (next_log policy a log) s2 (omega arith) in
          elim (Option-cases (slept rt policy req a s).0) [
            | inr (c, cut) ↦ (
              (failed, some c, next_log policy a log, s2),
              step_cut rt policy req (suc f) a log s h cut,
              cut-Kept a log s c s2 h,
            )
            | inl fine ↦ (
              ans,
              step_again rt policy req (suc f) a log s h fine ∙ found,
              later-Kept a log s ans h p,
            )
          ]
    ]

  -- Handle always ends with an answer: its outcome and its error belong together, it has waited
  -- Backoff, 2 * Backoff and so on before each further attempt, with no more attempts than the policy
  -- allows, and it returns no error only if the event of the record decodes and is recorded, when a
  -- successful RecordDispatch records it.
  pub handle-Ends :
      (j : Json) (policy : RetryPolicy) (rec : Record j.Payload) (s : S)
      → (ans : Answer S) × (handle rt j policy rec s ≡ some ans)
        × Ends ans.0 ans.1
        × ((k : ℕ) × (ans.2.waits ≡ schedule policy 1 k)
            × (ans.2.retries ≡ k)
            × ((k ≡ 0) ⊎ (pos (1 + k) ≤ℤ policy.max_attempts)))
        × ((ans.1 ≡ none)
            → (evt : ShipmentCreated) × (decode j rec.value ≡ ok evt) × Marked evt.event_id ans.3)
  unfolding handle
  handle-Ends j policy rec s = elim (Result-cases (decode j rec.value)) [
    | inr (e, bad) ↦ (
      (decode_outcome e, some e, no_log, s),
      rw (bad, handle),
      rejected e,
      (0, refl, refl, inl refl),
      λ n. absurd (cc),
    )
    | inl (evt, good) ↦
        let (ans, found, p) =
          attempt_from-Answers policy (request_of evt) (pos_part policy.max_attempts) 1 no_log s
            (omega arith) in
        (
          ans,
          rw (good, handle) found,
          p.ends,
          (p.retried, p.waits, p.counted ∙ omega arith, p.bounded),
          λ n. (evt, good, p.recorded n),
        )
  ]
    where
      rejected : (e : Error) → Ends (decode_outcome e) (some e)
      rejected e = elim (Bool-cases (is unsupported e)) [
        | inl known ↦ unfold decode_outcome in rw (known, decode_outcome) known
        | inr other ↦ unfold decode_outcome in rw (other, decode_outcome) other
      ]
