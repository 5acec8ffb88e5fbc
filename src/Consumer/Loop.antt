-- ===== src/Consumer/Loop.antt =====
-- internal/consumer/consumer.go: one record, one fetch, and Run as a step relation on the state of
-- the world. The client of the consumer group and the contexts are the parameter `Group`.
pub mod Bounds
pub mod Offsets
pub mod Progress
pub mod Committed
use empower_technical_interv.Prelude.{
  ◌≡◌, Bool, true, false, List, [], ◌∷◌, ◌++◌, Option, none, some, if◌then◌else◌, String,
}
use empower_technical_interv.Prelude.Int.{ℤ, pos, leb_ℤ, ltb_ℤ}
use empower_technical_interv.Errors.{Error, stopped, Result, ok, err, check}
use empower_technical_interv.Events.{Json}
use empower_technical_interv.Consumer.{
  RetryPolicy, validate_retry, max_wait, Record, Runtime, Answer, handle,
}

-- In nanoseconds.
abbrev pub rebalance_timeout : ℤ
rebalance_timeout = pos 60000000000

abbrev pub commit_timeout : ℤ
commit_timeout = pos 10000000000

abbrev pub max_record_timeout : ℤ
max_record_timeout = pos 20000000000

pub record ConsumerConfig : Type 0 where
  pub brokers : List String
  pub retry : RetryPolicy
  pub record_timeout : ℤ

abbrev no_brokers : List String → Bool
no_brokers [] = true
no_brokers (b ∷ bs) = false

unfoldable pub validate_consumer : ConsumerConfig → Option Error
validate_consumer c = if no_brokers c.brokers then some [] else elim (validate_retry c.retry) [
  | some e ↦ some e
  | none ↦
      if leb_ℤ c.record_timeout (pos 0)
      then some []
      else if ltb_ℤ max_record_timeout c.record_timeout
      then some []
      else if leb_ℤ c.record_timeout (max_wait c.retry)
      then some []
      else none
]

-- The options of kgo.NewClient.
pub record ClientOptions : Type 0 where
  pub seed_brokers : List String
  pub consumer_group : String
  pub consume_topics : List String
  pub auto_commit : Bool
  pub block_rebalance_on_poll : Bool
  pub rebalance_timeout : ℤ
  -- where a partition without a committed offset begins
  pub reset_to_start : Bool

-- The options of the client in Run.
unfoldable pub run_options : ConsumerConfig → ClientOptions
run_options c = record {
  seed_brokers = c.brokers;
  consumer_group = "dispatch-consumer";
  consume_topics = "shipment.created.v1" ∷ [];
  auto_commit = false;
  block_rebalance_on_poll = true;
  rebalance_timeout = rebalance_timeout;
  reset_to_start = true;
}

-- What PollRecords returns; fetch errors are only logged.
pub record Fetches (P : Type 0) : Type 0 where
  pub closed : Bool
  pub records : List (Record P)

pub record Group (P S : Type 0) : Type 0 where
  pub poll_records : S → Fetches P × S
  pub commit_records : ℤ → Record P → S → Option Error × S
  pub allow_rebalance : S → S
  pub context_error : S → Option Error
  -- the store and the timer under the context that ends the given time after the given state
  pub with_timeout : ℤ → S → Runtime S

-- A round of the loop of Run goes on, or it ends Run with its error, if it has one.
pub data Turn (S : Type 0) : Type 0 where
  goes : S → Turn S
  ends : Option Error → S → Turn S

module _ (j : Json) {S : Type 0} (g : Group j.Payload S) (cfg : ConsumerConfig) where
  abbrev pub after_handle : Record j.Payload → Answer S → Option Error × S
  after_handle rec (outcome, some e, log, s) = (some (stopped ∷ e), s)
  after_handle rec (outcome, none, log, s) = g.commit_records commit_timeout rec s

  -- `none`: the handler's fuel ran out.
  unfoldable pub process_record : Record j.Payload → S → Option (Option Error × S)
  process_record rec s = elim (handle (g.with_timeout cfg.record_timeout s) j cfg.retry rec s) [
    | none ↦ none
    | some ans ↦ some (after_handle rec ans)
  ]

  unfoldable pub process_fetches : List (Record j.Payload) → S → Option (Option Error × S)
  process_fetches [] s = some (none, s)
  process_fetches (rec ∷ recs) s = elim (process_record rec s) [
    | none ↦ none
    | some r ↦ elim r.0 [ some e ↦ some (some e, r.1) | none ↦ process_fetches recs r.1 ]
  ]

  abbrev pub after_fetches : Option Error × S → Turn S
  after_fetches (none, s) = goes (g.allow_rebalance s)
  after_fetches (some e, s) = elim (g.context_error (g.allow_rebalance s)) [
    | none ↦ ends (some e) (g.allow_rebalance s)
    | some c ↦ goes (g.allow_rebalance s)
  ]

  abbrev pub after_poll : Fetches j.Payload × S → Option (Turn S)
  after_poll (f, s) =
      if f.closed
      then some (ends none s)
      else elim (process_fetches f.records s) [ none ↦ none | some r ↦ some (after_fetches r) ]

  -- One round of the loop of Run.
  unfoldable pub round : S → Option (Turn S)
  round s = elim (g.context_error s) [
    | some c ↦ some (ends none s)
    | none ↦ after_poll (g.poll_records s)
  ]

  -- The states at the head of the loop of Run that began in the first state.
  pub data Runs : S → S → Type 0 where
    begins : {s : S} → Runs s s
    turns : {s t u : S} → Runs s t → round t ≡ some (goes u) → Runs s u

  -- Run up to its loop, on what creating the client and the ping answer.
  unfoldable pub before_loop : Option Error → Option Error → Option Error
  before_loop created pinged = elim (validate_consumer cfg) [
    | some e ↦ some e
    | none ↦ elim created [ some e ↦ some e | none ↦ pinged ]
  ]
