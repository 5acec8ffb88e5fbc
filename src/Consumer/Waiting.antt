-- ===== src/Consumer/Waiting.antt =====
-- RetryPolicy.MaxWait against the waits of the handler, in int64 arithmetic.
use empower_technical_interv.Prelude.{
  ℕ, zero, suc, ◌+◌, ◌*◌, ◌/◌, ◌≤◌, ◌≡◌, ap, ◌∙◌, List, [], ◌∷◌, arith,
}
use empower_technical_interv.Prelude.Int.{
  ℤ, pos, negsuc, wrap64, wrap64-pos, ◌*ℤ◌, ◌+ℤ◌, half_ℤ, pos_part, i64_max,
}
use empower_technical_interv.Consumer.{RetryPolicy, max_wait}
use empower_technical_interv.Consumer.Outcomes.{schedule}

pub mul_pos : (a b : ℕ) → pos a *ℤ pos b ≡ pos (a * b)
mul_pos a b = ground arith

add_pos : (a b : ℕ) → pos a +ℤ pos b ≡ pos (a + b)
add_pos a b = ground arith

pub wrap_mul : (a b : ℕ) → a * b ≤ i64_max → wrap64 (pos a *ℤ pos b) ≡ pos (a * b)
wrap_mul a b h = ap wrap64 (mul_pos a b) ∙ wrap64-pos (a * b) h

-- The nanoseconds of a list of waits; negative ones end at once.
abbrev pub total : List ℤ → ℕ
total [] = 0
total (d ∷ ds) = pos_part d + total ds

-- The policy of `n + 1` attempts with `b` nanoseconds of backoff.
abbrev pub policy_of : ℕ → ℕ → RetryPolicy
policy_of n b = record { max_attempts = pos (n + 1); backoff = pos b }

-- Twice the waits before the attempts a + 1 to a + k, and b * k more, is b * k * (2 * a + k).
pub total-schedule :
    (n b a k : ℕ)
    → (a + k) * b ≤ i64_max
    → 2 * total (schedule (policy_of n b) a k) + b * k ≡ b * k * (2 * a + k)
total-schedule n b a zero h = omega arith
total-schedule n b a (suc k) h =
    let small : a * b ≤ i64_max = grind arith in
    let rest = total-schedule n b (a + 1) k (omega arith) in
    rw (wrap_mul a b small) (omega (arith, rest))

pub dec_pos : (n : ℕ) → n + 1 ≤ i64_max → wrap64 (pos (n + 1) +ℤ negsuc 0) ≡ pos n
dec_pos n h =
    let gone : pos (n + 1) +ℤ negsuc 0 ≡ pos n = ground arith in
    ap wrap64 gone ∙ wrap64-pos n (omega arith)

pub inc_pos : (n : ℕ) → n + 1 ≤ i64_max → wrap64 (pos n +ℤ pos 1) ≡ pos (n + 1)
inc_pos n h = ap wrap64 (add_pos n 1) ∙ wrap64-pos (n + 1) h

pub max_wait_value :
    (n b : ℕ)
    → b * n * (n + 1) ≤ i64_max
    → n + 1 ≤ i64_max
    → max_wait (policy_of n b) ≡ pos (b * n * (n + 1) / 2)
unfolding max_wait
max_wait_value n b h small =
    let once : b * n ≤ i64_max = grind arith in
    ap (λ m. half_ℤ (wrap64 (wrap64 (pos b *ℤ m) *ℤ wrap64 (m +ℤ pos 1)))) (dec_pos n small)
    ∙ ap (λ m. half_ℤ (wrap64 (m *ℤ wrap64 (pos n +ℤ pos 1)))) (wrap_mul b n once)
    ∙ ap (λ m. half_ℤ (wrap64 (pos (b * n) *ℤ m))) (inc_pos n small)
    ∙ ap half_ℤ (wrap_mul (b * n) (n + 1) h)
