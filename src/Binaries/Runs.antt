-- ===== src/Binaries/Runs.antt =====
-- The run functions of cmd/dispatch-consumer, cmd/outbox-relay, cmd/shipment-service and cmd/migrate.
use empower_technical_interv.Prelude.{none, some, Option}
use empower_technical_interv.Prelude.Int.{ℤ, pos}
use empower_technical_interv.Errors.{Error, Result, ok, err}
use empower_technical_interv.Config.{Env, env_database_url, env_err}
use empower_technical_interv.Config.Numbers.{Fractions}
use empower_technical_interv.Binaries.{
  Host, Process, Ran, kafka, pool, management, publisher, grpc_server, health, after_retry,
  acquiring, deferring, open_store, listening, listen_management, run_loop, signalled, serve_failed,
  health_failed,
}
use empower_technical_interv.Binaries.Settings.{
  ConsumerSettings, RelaySettings, ServiceSettings, load_consumer, load_relay, load_service,
}

-- In nanoseconds, 24 hours.
abbrev pub kafka_wait : ℤ
kafka_wait = pos 86400000000000

module _ {W : Type 0} (host : Host W) where
  -- `if err != nil { return err }`, then the rest.
  abbrev pub on_loaded {ℓ} : {A : Type ℓ} → Result A → (A → Process W → Ran W) → Process W → Ran W
  on_loaded (err e) body p = some (some e, p)
  on_loaded (ok cfg) body p = body cfg p

  -- Both deferred calls; the error of Shutdown is only logged.
  unfoldable pub start_consumer : ConsumerSettings → Process W → Ran W
  start_consumer cfg = open_store host cfg.database_url (
      deferring host pool (
        listen_management host cfg.mgmt_addr (
          deferring host management
            (after_retry host (kafka cfg.consumer.brokers) kafka_wait (run_loop host)))))

  unfoldable pub consumer_run : Fractions → Env → Process W → Ran W
  consumer_run fractions env = on_loaded (load_consumer fractions env) start_consumer

  unfoldable pub start_relay : RelaySettings → Process W → Ran W
  start_relay cfg = open_store host cfg.database_url (
      deferring host pool (
        listen_management host cfg.mgmt_addr (
          deferring host management (
            after_retry host (kafka cfg.publisher.brokers) kafka_wait
              (acquiring host publisher (deferring host publisher (run_loop host)))))))

  unfoldable pub relay_run : Fractions → Env → Process W → Ran W
  relay_run fractions env = on_loaded (load_relay fractions env) start_relay

  -- The select of the service.
  unfoldable pub serve : Process W → Ran W
  serve p =
      let (ending, w) = host.await_service p.world in
      some (
        elim ending [ signalled ↦ none | serve_failed e ↦ some e | health_failed e ↦ some e ],
        record p { world = w },
      )

  -- The deferred call takes the service off the health server, and then stops the gRPC server.
  unfoldable pub start_service : ServiceSettings → Process W → Ran W
  start_service cfg = open_store host cfg.database_url (
      deferring host pool (
        listen_management host cfg.mgmt_addr (
          deferring host management (
            listening host cfg.grpc_addr (
              acquiring host grpc_server (
                acquiring host health
                  (deferring host grpc_server (deferring host health serve))))))))

  unfoldable pub service_run : Fractions → Env → Process W → Ran W
  service_run fractions env = on_loaded (load_service fractions env) start_service

  -- Migrate on the world of the process.
  unfoldable pub migrate_run : (W → Option Error × W) → Env → Process W → Ran W
  migrate_run migrate env p = elim (env_err env) [
    | some e ↦ some (some e, p)
    | none ↦
        open_store host (env_database_url env)
          (deferring host pool
            (λ q. let (failure, w) = migrate q.world in some (failure, record q { world = w })))
          p
  ]
