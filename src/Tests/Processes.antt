-- ===== src/Tests/Processes.antt =====
-- The run functions of cmd on a host whose dependencies answer at once.
use empower_technical_interv.Prelude.{
  ℕ, ◌+◌, ◌≡◌, refl, false, [], ◌∷◌, none, some, if◌then◌else◌, ltb, arith, str_eq,
}
use empower_technical_interv.Prelude.Int.{ℤ, pos, pos_part}
use empower_technical_interv.Config.{Env, new_env_from, env_brokers, env_string, set_value}
use empower_technical_interv.Config.Numbers.{Fractions, atoi, parse_duration}
use empower_technical_interv.Startup.{Clock}
use empower_technical_interv.Startup.Patience.{IsClock}
use empower_technical_interv.Binaries.{Host, management_failed, signalled}
use empower_technical_interv.Binaries.Settings.{
  read_consumer, read_relay, read_service, validate_relay, validate_service,
}
use empower_technical_interv.Binaries.Runs.{
  consumer_run, relay_run, service_run, migrate_run, start_consumer, start_relay, start_service,
}
use empower_technical_interv.Binaries.Closing.{IsPunctual}
use empower_technical_interv.Binaries.Cleanup.{Cleans, runs_clean_up}
use empower_technical_interv.Binaries.Starts.{
  Starts, wrong_of, consumer_vars, relay_vars, service_vars, binaries_start,
}
use empower_technical_interv.Consumer.Loop.{validate_consumer}

-- The digits behind a point are cut off.
abbrev no_fractions : Fractions
no_fractions digits unit = 0

-- A dependency that is there; the world is the time.
abbrev clock : ℤ → ℕ → Clock ℕ
clock timeout start = record {
  attempt = λ w. (none, w + 1);
  context_error = λ w. if ltb w (start + pos_part timeout) then none else some [];
  timer = λ d w. (false, w + pos_part d);
}

abbrev host : Host ℕ
host = record {
  dependency = λ d timeout start. clock timeout start;
  listen = λ addr w. (none, w);
  await = λ w. (management_failed [], w + 7);
  await_service = λ w. (signalled, w + 7);
  drain = λ w. w + 1;
  close = λ r w. w;
}

clock-IsClock :
    (timeout : ℤ) (start : ℕ) → IsClock (clock timeout start) (λ w. w) (start + pos_part timeout)
clock-IsClock timeout start = record {
  attempts = λ w. omega arith;
  fires = λ d w h. omega arith;
  ends = λ w h. ground arith;
}

host-IsPunctual : IsPunctual host (λ w. w)
host-IsPunctual d timeout w = clock-IsClock timeout w

-- Nothing is set but a number of attempts that is none.
abbrev env : Env
env = record {
  lookup = λ key. if str_eq key "CONSUMER_MAX_ATTEMPTS" then some "many" else none;
  errs = [];
}

runs_clean_up_example :
    Cleans host (λ w. w) host-IsPunctual (consumer_run host no_fractions env)
    × Cleans host (λ w. w) host-IsPunctual (relay_run host no_fractions env)
    × Cleans host (λ w. w) host-IsPunctual (service_run host no_fractions env)
    × Cleans host (λ w. w) host-IsPunctual (migrate_run host (λ w. (none, w + 1)) env)
runs_clean_up_example =
    runs_clean_up host (λ w. w) host-IsPunctual no_fractions env (λ w. (none, w + 1))

binaries_start_example :
    Starts
      (wrong_of no_fractions consumer_vars env)
      (validate_consumer (read_consumer no_fractions env).0.consumer)
      (read_consumer no_fractions env).0
      (start_consumer host)
      (consumer_run host no_fractions env)
    × Starts
        (wrong_of no_fractions relay_vars env)
        (validate_relay (read_relay no_fractions env).0)
        (read_relay no_fractions env).0
        (start_relay host)
        (relay_run host no_fractions env)
    × Starts
        (wrong_of no_fractions service_vars env)
        (validate_service (read_service no_fractions env).0)
        (read_service no_fractions env).0
        (start_service host)
        (service_run host no_fractions env)
binaries_start_example = binaries_start host no_fractions env refl

wrong_attempts : wrong_of no_fractions consumer_vars env ≡ "CONSUMER_MAX_ATTEMPTS" ∷ []
unfolding set_value atoi str_eq
wrong_attempts = refl

read_durations :
    (parse_duration no_fractions "1h15m30.918s" ≡ some (pos 4530000000000))
    × (parse_duration no_fractions "-.5" ≡ none)
    × (parse_duration no_fractions "0" ≡ some (pos 0))
unfolding parse_duration str_eq
read_durations = (refl, refl, refl)

split_brokers : env_brokers (new_env_from (λ key. some "a:1,b:2")) ≡ "a:1" ∷ "b:2" ∷ []
unfolding env_brokers env_string set_value new_env_from str_eq
split_brokers = refl
