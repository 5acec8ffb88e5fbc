-- ===== src/Consumer.antt =====
-- internal/consumer: the handler of one record (handler.go) and the loop over the topic (consumer.go).
-- The store, the context and the timer are the parameter `Runtime`, over a state `S` of the world.
pub mod Attempts
pub mod Outcomes
pub mod Waiting
pub mod Loop
use empower_technical_interv.Prelude.{
  ℕ, zero, suc, ◌+◌, ◌-◌, Bool, true, false, ◌||◌, not, List, [], ◌∷◌, ◌++◌, Option, none, some,
  if◌then◌else◌, String, leb,
}
use empower_technical_interv.Prelude.Int.{
  ℤ, pos, negsuc, ltb_ℤ, leb_ℤ, wrap64, ◌*ℤ◌, half_ℤ, pos_part, ◌+ℤ◌,
}
use empower_technical_interv.Errors.{
  Error, is, unsupported, dispatch_conflict, stopped, Result, ok, err,
}
use empower_technical_interv.Domain.{Dispatch}
use empower_technical_interv.Events.{Json, ShipmentCreated, decode}
use empower_technical_interv.Storage.Dispatches.{DispatchRequest}

pub data Outcome : Type 0 where
  processed duplicate malformed_record unsupported_record conflict failed : Outcome

pub record RetryPolicy : Type 0 where
  pub max_attempts : ℤ
  pub backoff : ℤ

unfoldable pub validate_retry : RetryPolicy → Option Error
validate_retry p =
    if ltb_ℤ p.max_attempts (pos 1)
    then some []
    else if ltb_ℤ p.backoff (pos 0)
    then some []
    else none

-- MaxWait, in int64 arithmetic: `p.Backoff * n * (n + 1) / 2` with `n` one less than the attempts.
unfoldable pub max_wait : RetryPolicy → ℤ
max_wait p =
    let n = wrap64 (p.max_attempts +ℤ negsuc 0) in
    half_ℤ (wrap64 (wrap64 (p.backoff *ℤ n) *ℤ wrap64 (n +ℤ pos 1)))

-- A Kafka record; partition and offset are what is logged and committed.
pub record Record (P : Type 0) : Type 0 where
  pub partition : ℤ
  pub offset : ℤ
  pub value : P

pub record Runtime (S : Type 0) : Type 0 where
  pub record_dispatch : DispatchRequest → S → Result (Dispatch × Bool) × S
  pub context_error : S → Option Error
  -- `true` if the context ended before the timer fired
  pub timer : ℤ → S → Bool × S

-- What the handler has asked for while it handled one record: the retries counted, and the waits.
pub record Log : Type 0 where
  pub retries : ℕ
  pub waits : List ℤ

abbrev pub no_log : Log
no_log = record { retries = 0; waits = [] }

-- How one attempt ends.
pub data Verdict : Type 0 where
  stop : Outcome → Option Error → Verdict
  retry : Error → Verdict

-- The `switch` after RecordDispatch.
unfoldable pub judge : RetryPolicy → ℕ → Option Error → Result (Dispatch × Bool) → Verdict
judge policy attempt context (ok (dispatch, true)) = stop duplicate none
judge policy attempt context (ok (dispatch, false)) = stop processed none
judge policy attempt context (err e) =
    if is dispatch_conflict e then stop conflict (some e) else elim context [
      | some c ↦ stop failed (some (c ++ e))
      | none ↦ if leb_ℤ policy.max_attempts (pos attempt) then stop failed (some e) else retry e
    ]

unfoldable pub decode_outcome : Error → Outcome
decode_outcome e = if is unsupported e then unsupported_record else malformed_record

abbrev pub request_of : ShipmentCreated → DispatchRequest
request_of evt = record {
  event_id = evt.event_id;
  shipment_id = evt.shipment_id;
  amount_cents = evt.parcel.amount_cents;
  currency = evt.parcel.currency;
}

abbrev pub Answer : Type 0 → Type 0
Answer S = Outcome × Option Error × Log × S

module _ {S : Type 0} (rt : Runtime S) where
  unfoldable pub sleep : ℤ → S → Option Error × S
  sleep d s = let (ended, s') = rt.timer d s in (if ended then rt.context_error s' else none, s')

  -- The loop, on fuel; `none` means that the fuel ran out.
  unfoldable pub attempt_from : ℕ → ℕ → RetryPolicy → DispatchRequest → Log → S → Option (Answer S)
  attempt_from zero attempt policy req log s = none
  attempt_from (suc fuel) attempt policy req log s =
      let (r, s1) = rt.record_dispatch req s in
      let wait = wrap64 (pos attempt *ℤ policy.backoff) in
      let (interrupted, s2) = sleep wait s1 in
      let log' : Log = record { retries = log.retries + 1; waits = log.waits ++ (wait ∷ []) } in
      let again = attempt_from fuel (attempt + 1) policy req log' s2 in
      elim (judge policy attempt (rt.context_error s1) r) [
        | stop outcome e ↦ some (outcome, e, log, s1)
        | retry e ↦ elim interrupted [ some c ↦ some (failed, some c, log', s2) | none ↦ again ]
      ]

  -- One more round than there are attempts.
  abbrev pub fuel_for : RetryPolicy → ℕ
  fuel_for policy = suc (pos_part policy.max_attempts)

  unfoldable pub handle : (j : Json) → RetryPolicy → Record j.Payload → S → Option (Answer S)
  handle j policy rec s = elim (decode j rec.value) [
    | err e ↦ some (decode_outcome e, some e, no_log, s)
    | ok evt ↦ attempt_from (fuel_for policy) 1 policy (request_of evt) no_log s
  ]
