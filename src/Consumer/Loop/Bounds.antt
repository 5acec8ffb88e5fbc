-- ===== src/Consumer/Loop/Bounds.antt =====
-- Config.Validate of the consumer against the time that one record can take.
use empower_technical_interv.Prelude.{
  ℕ, zero, suc, ◌+◌, ◌-◌, ◌*◌, ◌/◌, ◌≤◌, ◌<◌, ◌≡◌, ◌≢◌, refl, ap, ◌∙◌, subst, ◌⊎◌, inl, inr, List,
  ◌∷◌, none, some, arith, String,
}
use empower_technical_interv.Prelude.Int.{
  ℤ, pos, ◌≤ℤ◌, wrap64, ◌*ℤ◌, ◌+ℤ◌, negsuc, half_ℤ, pos_part, neg_part, i64_max, u64_mod,
  wrap64-over,
}
use empower_technical_interv.Events.{Json}
use empower_technical_interv.Consumer.{validate_retry, max_wait, Record, Runtime, Answer, handle}
use empower_technical_interv.Consumer.Outcomes.{schedule, handle-Ends}
use empower_technical_interv.Consumer.Waiting.{
  total, policy_of, total-schedule, max_wait_value, mul_pos, wrap_mul, dec_pos, inc_pos,
}
use empower_technical_interv.Consumer.Loop.{
  ConsumerConfig, validate_consumer, max_record_timeout, commit_timeout, rebalance_timeout,
}

accepted :
    (c : ConsumerConfig)
    → validate_consumer c ≡ none
    → (suc (pos_part (max_wait c.retry)) ≤ pos_part c.record_timeout)
      × (pos_part c.record_timeout ≤ pos_part max_record_timeout)
unfolding validate_consumer
accepted c h = ground arith

mul_mono : (c : ℕ) {a b : ℕ} → a ≤ b → c * a ≤ c * b
mul_mono zero h = omega arith
mul_mono (suc c) {a} {b} h = omega (arith, mul_mono c h)

grows : (b n k : ℕ) → k ≤ n → b * k * (k + 1) ≤ b * n * (n + 1)
grows b n k h =
    let first = mul_mono (k + 1) (mul_mono b h) in
    let second = mul_mono (b * n) {a = k + 1} {b = n + 1} (omega arith) in
    omega (arith, first, second)

fits_one : (b n k : ℕ) → suc k ≤ n → b * n * (n + 1) ≤ i64_max → (1 + suc k) * b ≤ i64_max
fits_one b n k h small =
    let first = mul_mono (b * (n + 1)) {a = 1} {b = n} (omega arith) in
    let second = mul_mono b {a = suc (suc k)} {b = n + 1} (omega arith) in
    omega (arith, first, second)

total_bound :
    (n b k : ℕ)
    → k ≤ n
    → b * n * (n + 1) ≤ i64_max
    → total (schedule (policy_of n b) 1 k) ≤ b * n * (n + 1) / 2
total_bound n b zero h small = omega arith
total_bound n b (suc k) h small =
    let exact = total-schedule n b 1 (suc k) (fits_one b n k h small) in
    let more = grows b n (suc k) h in omega (arith, exact, more)

-- For a configuration that Validate accepts, of `n + 1` attempts and a backoff of `b` nanoseconds whose
-- MaxWait does not overflow: Handle returns, all its waits for one record together are shorter than the
-- record timeout, and the record timeout and the commit timeout together are at most half of the
-- rebalance timeout.
pub waits_fit :
    {S : Type 0} (rt : Runtime S) (j : Json) (c : ConsumerConfig) (n b : ℕ)
    → c.retry ≡ policy_of n b
    → n + 1 ≤ i64_max
    → b * n * (n + 1) ≤ i64_max
    → validate_consumer c ≡ none
    → (rec : Record j.Payload) (s : S)
    → (ans : Answer S) × (handle rt j c.retry rec s ≡ some ans)
      × (total ans.2.waits < pos_part c.record_timeout)
      × (2 * (pos_part c.record_timeout + pos_part commit_timeout) ≤ pos_part rebalance_timeout)
waits_fit {S} rt j c n b same fits small valid rec s =
    let (ans, found, _, (k, waits, _, room), _) =
      handle-Ends rt (λ _ _. Unit) (λ _ _ _ _. tt) j c.retry rec s in
    let wait : max_wait c.retry ≡ pos (b * n * (n + 1) / 2) =
      ap max_wait same ∙ max_wait_value n b small fits in
    let limits = accepted c valid in
    let few : k ≤ n =
      attempts k (subst (λ p. (k ≡ 0) ⊎ (pos (1 + k) ≤ℤ p.max_attempts)) same room) in
    let waits' : ans.2.waits ≡ schedule (policy_of n b) 1 k =
      waits ∙ ap (λ p. schedule p 1 k) same in
    let below = total_bound n b k few small in
    let exact : total ans.2.waits ≡ total (schedule (policy_of n b) 1 k) = ap total waits' in
    let longest : pos_part (max_wait c.retry) ≡ b * n * (n + 1) / 2 = ap pos_part wait in
    (ans, found, omega (arith, below, exact, longest, limits.0), omega (arith, limits.1))
  where
    attempts : (k : ℕ) → ((k ≡ 0) ⊎ (pos (1 + k) ≤ℤ pos (n + 1))) → k ≤ n
    attempts k (inl none_left) = omega arith
    attempts k (inr some_left) = omega arith

half_negative : (z : ℤ) → neg_part z ≢ 0 → pos_part (half_ℤ z) ≡ 0
half_negative (pos n) h = absurd (h refl)
half_negative (negsuc n) h = ground arith

overflow : (b : ℕ) → i64_max < b * 1 * 2 → b ≤ i64_max → pos_part (max_wait (policy_of 1 b)) ≡ 0
unfolding max_wait
overflow b large fits =
    let twice : wrap64 (pos (b * 1) *ℤ pos 2) ≡ negsuc (u64_mod - 1 - b * 1 * 2) =
      ap wrap64 (mul_pos (b * 1) 2) ∙ wrap64-over (b * 1 * 2) large (omega arith) in
    let steps =
      ap (λ m. half_ℤ (wrap64 (wrap64 (pos b *ℤ m) *ℤ wrap64 (m +ℤ pos 1))))
        (dec_pos 1 (omega arith))
      ∙ ap (λ m. half_ℤ (wrap64 (m *ℤ wrap64 (pos 1 +ℤ pos 1)))) (wrap_mul b 1 (omega arith))
      ∙ ap (λ m. half_ℤ (wrap64 (pos (b * 1) *ℤ m))) (inc_pos 1 (omega arith))
      ∙ ap half_ℤ twice in
    ap pos_part steps ∙ half_negative (negsuc (u64_mod - 1 - b * 1 * 2)) (λ h. absurd (omega arith))

-- MaxWait is a product of int64 values. With two attempts and a backoff of 2^62 nanoseconds or more it
-- is not positive, and Validate accepts the policy with every record timeout that it accepts at all,
-- although the one wait of the policy is longer than the timeout.
pub overflowing_backoff_is_accepted :
    (b : ℕ) (broker : String) (brokers : List String) (t : ℕ)
    → suc t ≤ pos_part max_record_timeout
    → 4611686018427387904 ≤ b
    → b ≤ i64_max
    → let c : ConsumerConfig = record {
      brokers = broker ∷ brokers;
      retry = policy_of 1 b;
      record_timeout = pos (suc t);
    } in
      (validate_consumer c ≡ none) × (pos_part c.record_timeout < total (schedule c.retry 1 1))
unfolding validate_consumer validate_retry
overflowing_backoff_is_accepted b broker brokers t short large fits =
    let none_left = overflow b (omega arith) fits in
    let wait = wrap_mul 1 b (omega arith) in (ground (arith, none_left), rw wait (omega arith))
