-- ===== src/Startup.antt =====
-- internal/config/config.go, Retry: how a binary waits for a dependency when it starts. The context, the
-- timer and the dependency are the parameter `Clock`, over a state `W` of the world.
pub mod Patience
use empower_technical_interv.Prelude.{
  ℕ, zero, suc, ◌+◌, Bool, true, false, List, [], ◌∷◌, ◌++◌, Option, none, some, if◌then◌else◌,
}
use empower_technical_interv.Prelude.Int.{ℤ, pos, wrap64, ◌*ℤ◌, min_ℤ}
use empower_technical_interv.Errors.{Error}

-- In nanoseconds.
abbrev pub first_wait : ℤ
first_wait = pos 500000000

abbrev pub longest_wait : ℤ
longest_wait = pos 5000000000

pub record Clock (W : Type 0) : Type 0 where
  -- the dependency, under a context of five seconds
  pub attempt : W → Option Error × W
  pub context_error : W → Option Error
  -- `true` if the context ended before the timer fired
  pub timer : ℤ → W → Bool × W

-- gaveUp; a context that has not ended has no error to wrap.
unfoldable pub gave_up : Option Error → Error → Error
gave_up (some stop) last = stop ++ last
gave_up none last = last

unfoldable pub next_wait : ℤ → ℤ
next_wait wait = min_ℤ (wrap64 (wait *ℤ pos 2)) longest_wait

module _ {W : Type 0} (c : Clock W) where
  -- The loop of Retry, on fuel; `none` means that the fuel ran out.
  unfoldable pub retry_from : ℕ → ℤ → W → Option (Option Error × W)
  retry_from zero wait w = none
  retry_from (suc fuel) wait w =
      let (failure, w1) = c.attempt w in
      let (ended, w2) = c.timer wait w1 in
      let again = retry_from fuel (next_wait wait) w2 in
      elim failure [
        | none ↦ some (none, w1)
        | some e ↦ elim (c.context_error w1) [
          | some stop ↦ some (some (stop ++ e), w1)
          | none ↦ if ended then some (some (gave_up (c.context_error w2) e), w2) else again
        ]
      ]

  unfoldable pub retry_start : ℕ → W → Option (Option Error × W)
  retry_start fuel w = retry_from fuel first_wait w
