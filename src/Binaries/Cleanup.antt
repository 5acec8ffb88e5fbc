-- ===== src/Binaries/Cleanup.antt =====
-- What the run functions leave open when they return.
use empower_technical_interv.Prelude.{ℕ, ◌≡◌, refl, [], Option, some, Option-cases, inl, inr}
use empower_technical_interv.Errors.{Error}
use empower_technical_interv.Config.{Env, env_err, env_database_url}
use empower_technical_interv.Config.Numbers.{Fractions}
use empower_technical_interv.Binaries.{Host, Process, Ran, still_open, pool}
use empower_technical_interv.Binaries.Runs.{
  consumer_run, relay_run, service_run, migrate_run, start_consumer, start_relay, start_service,
}
use empower_technical_interv.Binaries.Closing.{
  LeavesOpen, IsPunctual, deferring-Closes, after_retry-LeavesOpen, listening-LeavesOpen,
  open_store-LeavesOpen, run_loop-LeavesOpen, acquired-LeavesOpen, both_open-LeavesOpen,
  served-LeavesOpen, serve-LeavesOpen, on_loaded-LeavesOpen,
}

module _ {W : Type 0} (host : Host W) (time : W → ℕ) (law : IsPunctual host time) where
  consumer_run-LeavesOpen :
      (fractions : Fractions) (env : Env) → LeavesOpen (consumer_run host fractions env)
  unfolding consumer_run start_consumer
  consumer_run-LeavesOpen fractions env = on_loaded-LeavesOpen host time law _ _ (λ cfg.
      both_open-LeavesOpen host time law _ _ _
        (after_retry-LeavesOpen host time law _ _ _ (run_loop-LeavesOpen host time law)))

  relay_run-LeavesOpen :
      (fractions : Fractions) (env : Env) → LeavesOpen (relay_run host fractions env)
  unfolding relay_run start_relay
  relay_run-LeavesOpen fractions env = on_loaded-LeavesOpen host time law _ _ (λ cfg.
      both_open-LeavesOpen host time law _ _ _ (
        after_retry-LeavesOpen host time law _ _ _
          (acquired-LeavesOpen host time law _ _ (run_loop-LeavesOpen host time law))))

  service_run-LeavesOpen :
      (fractions : Fractions) (env : Env) → LeavesOpen (service_run host fractions env)
  unfolding service_run start_service
  service_run-LeavesOpen fractions env = on_loaded-LeavesOpen host time law _ _ (λ cfg.
      both_open-LeavesOpen host time law _ _ _ (
        listening-LeavesOpen host time law _ _
          (served-LeavesOpen host time law _ (serve-LeavesOpen host time law))))

  -- Migrate on the world of the process, which has no part in the trace.
  migrate_run-LeavesOpen :
      (migrate : W → Option Error × W) (env : Env) → LeavesOpen (migrate_run host migrate env)
  unfolding migrate_run
  migrate_run-LeavesOpen migrate env p rs before = elim (Option-cases (env_err env)) [
    | inr (e, wrong) ↦ ((some e, p), rw (wrong, migrate_run) refl, before)
    | inl fine ↦
        let (done, ended, after) =
          open_store-LeavesOpen host time law (env_database_url env) _
            (deferring-Closes host time law pool
              (λ q. let (failure, w) = migrate q.world in some (failure, record q { world = w }))
              (λ q rs' before'. (_, refl, before')))
            p rs before in
        (done, rw (fine, migrate_run) ended, after)
  ]

  abbrev pub fresh : W → Process W
  fresh w = record { world = w; trace = [] }

  -- The binary returns, and it has closed all that it had opened, the last first.
  abbrev pub Cleans : (Process W → Ran W) → Type 0
  Cleans run =
      (w : W)
      → (result : Option Error × Process W) × (run (fresh w) ≡ some result)
        × (still_open result.1.trace ≡ some [])

  cleans : (run : Process W → Ran W) → LeavesOpen run → Cleans run
  unfolding still_open
  cleans run h w = h (fresh w) [] refl

  -- On a host whose retry contexts end in time, whatever the environment, the dependencies, the
  -- listeners, the loops and the migrations do, the run function of each binary returns once its select
  -- does, with or without an error, and by then it has closed everything that it had opened, each before
  -- what was opened before it: the main loop or the gRPC server, then the publisher, the management
  -- server and the pool. This holds of the consumer, the relay, the service and the migrations.
  pub runs_clean_up :
      (fractions : Fractions) (env : Env) (migrate : W → Option Error × W)
      → Cleans (consumer_run host fractions env)
        × Cleans (relay_run host fractions env)
        × Cleans (service_run host fractions env)
        × Cleans (migrate_run host migrate env)
  runs_clean_up fractions env migrate = (
    cleans _ (consumer_run-LeavesOpen fractions env),
    cleans _ (relay_run-LeavesOpen fractions env),
    cleans _ (service_run-LeavesOpen fractions env),
    cleans _ (migrate_run-LeavesOpen migrate env),
  )
