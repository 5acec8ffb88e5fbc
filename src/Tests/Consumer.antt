-- ===== src/Tests/Consumer.antt =====
-- The consumer on the samples, over the store with a calm network.
use empower_technical_interv.Prelude.{
  ℕ, ◌+◌, ◌*◌, ◌≤◌, ◌<◌, ◌≡◌, refl, ◌⊎◌, inl, inr, if◌then◌else◌, ltb, Bool-cases, true, false, [],
  ◌∷◌, none, some, str_eq, arith,
}
use empower_technical_interv.Prelude.Int.{ℤ, pos, pos_part, ◌≤ℤ◌, wrap64}
use empower_technical_interv.Errors.{ok}
use empower_technical_interv.Domain.{
  validate_weight, validate_money, is_currency_code, all_upper, new_dispatch_id, EventId,
}
use empower_technical_interv.Events.{
  WireEvent, ShipmentCreated, decode, decode_wire, decode_contract, decode_fields, decode_parcel,
}
use empower_technical_interv.Events.V1.{wire_event}
use empower_technical_interv.Storage.Tables.{Db, begin_func}
use empower_technical_interv.Storage.Outbox.{contains_id}
use empower_technical_interv.Storage.Dispatches.{
  record_dispatch, dispatch_body, dispatch_new, insert_processed, insert_dispatch, conflict_or,
}
use empower_technical_interv.Storage.Dispatches.Marked.{success_marks, marks_stay}
use empower_technical_interv.Consumer.{
  RetryPolicy, validate_retry, max_wait, Record, Runtime, Answer, judge, sleep, attempt_from,
  handle,
}
use empower_technical_interv.Consumer.Outcomes.{Ends, schedule, handle-Ends}
use empower_technical_interv.Consumer.Waiting.{total, policy_of}
use empower_technical_interv.Consumer.Loop.{
  ConsumerConfig, validate_consumer, commit_timeout, rebalance_timeout, Group, begins, turns, round,
  process_fetches, process_record,
}
use empower_technical_interv.Consumer.Loop.Bounds.{waits_fit, overflowing_backoff_is_accepted}
use empower_technical_interv.Consumer.Loop.Offsets.{advance, View, IsKeeping, IsSafe}
use empower_technical_interv.Consumer.Loop.Committed.{SafeTurn, committed_is_recorded}
use empower_technical_interv.Tests.{json, pg, calm, event, request, stored_db}

-- The tables, and the offsets of each partition.
record World : Type 0 where
  db : Db WireEvent
  committed : ℤ → ℕ
  position : ℤ → ℕ

abbrev runtime : Runtime World
runtime = record {
  record_dispatch = λ req w. (
    (record_dispatch pg calm (1 ∷ []) req w.db).0,
    record w { db = (record_dispatch pg calm (1 ∷ []) req w.db).1 },
  );
  context_error = λ w. none;
  timer = λ d w. (false, w);
}

abbrev sample : Record WireEvent
sample = record { partition = pos 0; offset = pos 7; value = wire_event event }

abbrev before : World
before = record { db = stored_db; committed = λ p. 0; position = λ p. 0 }

-- Five attempts, two tenths of a second apart.
abbrev policy : RetryPolicy
policy = policy_of 4 200000000

abbrev IsMarked : EventId → World → Type 0
IsMarked id w = contains_id id w.db.processed ≡ true

handle-Ends_example :
    (ans : Answer World) × (handle runtime json policy sample before ≡ some ans)
    × Ends ans.0 ans.1
    × ((k : ℕ) × (ans.2.waits ≡ schedule policy 1 k)
        × (ans.2.retries ≡ k)
        × ((k ≡ 0) ⊎ (pos (1 + k) ≤ℤ policy.max_attempts)))
    × ((ans.1 ≡ none)
        → (evt : ShipmentCreated) × (decode json sample.value ≡ ok evt)
          × IsMarked evt.event_id ans.3)
handle-Ends_example =
    handle-Ends runtime IsMarked (λ req w v h. success_marks pg calm (1 ∷ []) req w.db v h) json
      policy sample before

abbrev config : ConsumerConfig
config = record { brokers = "kafka:9092" ∷ []; retry = policy; record_timeout = pos 15000000000 }

waits_fit_example :
    (ans : Answer World) × (handle runtime json policy sample before ≡ some ans)
    × (total ans.2.waits < 15000000000)
    × (2 * (15000000000 + pos_part commit_timeout) ≤ pos_part rebalance_timeout)
unfolding validate_consumer validate_retry max_wait wrap64
waits_fit_example =
    waits_fit runtime json config 4 200000000 refl (omega arith) (omega arith) refl sample before

overflowing_backoff_is_accepted_example :
    let c : ConsumerConfig = record {
      brokers = "kafka:9092" ∷ [];
      retry = policy_of 1 5000000000000000000;
      record_timeout = pos 15000000000;
    } in
    (validate_consumer c ≡ none) × (pos_part c.record_timeout < total (schedule c.retry 1 1))
overflowing_backoff_is_accepted_example =
    overflowing_backoff_is_accepted 5000000000000000000 "kafka:9092" [] 14999999999 (omega arith)
      (omega arith) (omega arith)

-- A group that hands out the sample until it is read.
abbrev group : Group WireEvent World
group = record {
  poll_records = λ w.
      if ltb (w.position (pos 0)) 8
      then (
        record { closed = false; records = sample ∷ [] },
        record w { position = advance sample w.position },
      )
      else (record { closed = false; records = [] }, w);
  commit_records = λ d rec w. (none, record w { committed = advance rec w.committed });
  allow_rebalance = λ w. w;
  context_error = λ w. none;
  with_timeout = λ d w. runtime;
}

-- The sample is all that the topic has.
abbrev view : View json World
view = record {
  IsOnTopic = λ x. x ≡ sample;
  committed = λ w. w.committed;
  position = λ w. w.position;
  IsMarked = IsMarked;
}

group-IsKeeping : IsKeeping json view group
group-IsKeeping = record {
  polls = λ w. elim (Bool-cases (ltb (w.position (pos 0)) 8)) [
    | inl unread ↦
        rw unread (refl, λ id m. m, (w.position, λ p. inl refl, (λ x on _ _ _. on, tt), refl))
    | inr read ↦ rw read (refl, λ id m. m, (w.position, λ p. inl refl, tt, refl))
  ];
  allows = λ w. (refl, λ p. inl refl, λ id m. m);
  commits = λ d rec w. (inl refl, refl, λ id m. m);
  stores = λ d began req w. (refl, refl, λ id m. marks_stay pg calm (1 ∷ []) req w.db id m);
  waits = λ d began t w. (refl, refl, λ id m. m);
  marks = λ d began req w r h. success_marks pg calm (1 ∷ []) req w.db r h;
}

-- After one round the sample is committed.
abbrev after : World
after = record {
  db = (record_dispatch pg calm (1 ∷ []) request stored_db).1;
  committed = advance sample before.committed;
  position = advance sample before.position;
}

committed_is_recorded_example :
    IsSafe json view after × SafeTurn json view (round json group config after)
unfolding round process_fetches process_record handle attempt_from judge sleep record_dispatch
    begin_func dispatch_body dispatch_new insert_processed insert_dispatch conflict_or str_eq decode
    decode_wire decode_contract decode_fields decode_parcel validate_weight validate_money
    is_currency_code all_upper new_dispatch_id
committed_is_recorded_example =
    committed_is_recorded json view (λ o. group) config (λ o _ _ _. group-IsKeeping) before after
      (turns begins refl) (λ x on early. absurd (omega (arith, early))) (λ p. omega arith)
