-- ===== src/Binaries/Settings.antt =====
-- How each binary of cmd reads and checks its configuration before it does anything else.
use empower_technical_interv.Prelude.{[], Option, none, some, String, if◌then◌else◌}
use empower_technical_interv.Prelude.Int.{ℤ, pos, leb_ℤ}
use empower_technical_interv.Errors.{Error, Result, ok, ◌>>◌, check}
use empower_technical_interv.Config.{
  Env, env_string, env_int, env_duration, env_brokers, env_database_url, env_err,
}
use empower_technical_interv.Config.Numbers.{Fractions}
use empower_technical_interv.Broker.{PublisherConfig, validate_publisher}
use empower_technical_interv.Relay.{Config, validate_config}
use empower_technical_interv.Consumer.Loop.{ConsumerConfig, validate_consumer}

pub record ConsumerSettings : Type 0 where
  pub mgmt_addr : String
  pub database_url : String
  pub consumer : ConsumerConfig

pub record RelaySettings : Type 0 where
  pub mgmt_addr : String
  pub database_url : String
  pub publisher : PublisherConfig
  pub relay : Config

pub record ServiceSettings : Type 0 where
  pub grpc_addr : String
  pub mgmt_addr : String
  pub database_url : String
  pub pricing_url : String
  pub pricing_timeout : ℤ

-- smokeConfig, without the addresses.
pub record SmokeSettings : Type 0 where
  pub publisher : PublisherConfig
  pub step_timeout : ℤ

unfoldable pub validate_relay : RelaySettings → Option Error
validate_relay c = elim (validate_publisher c.publisher) [
  | some e ↦ some e
  | none ↦ validate_config c.relay
]

unfoldable pub validate_service : ServiceSettings → Option Error
validate_service c = if leb_ℤ c.pricing_timeout (pos 0) then some [] else none

unfoldable pub validate_smoke : SmokeSettings → Option Error
validate_smoke c = elim (validate_publisher c.publisher) [
  | some e ↦ some e
  | none ↦ if leb_ℤ c.step_timeout (pos 0) then some [] else none
]

-- The configuration, if every variable could be read and Validate accepts it.
abbrev pub accept {ℓ} : {A : Type ℓ} → (A → Option Error) → A × Env → Result A
accept validate (cfg, e) = do check (env_err e) []; check (validate cfg) []; ok cfg

module _ (fractions : Fractions) where
  unfoldable pub read_consumer : Env → ConsumerSettings × Env
  read_consumer e =
      let (record_timeout, e1) =
        env_duration fractions "CONSUMER_RECORD_TIMEOUT" (pos 15000000000) e in
      let (max_attempts, e2) = env_int "CONSUMER_MAX_ATTEMPTS" (pos 5) e1 in
      let (backoff, e3) = env_duration fractions "CONSUMER_BACKOFF" (pos 500000000) e2 in
      (
        record {
          mgmt_addr = env_string "MGMT_ADDR" ":8080" e;
          database_url = env_database_url e;
          consumer = record {
            brokers = env_brokers e;
            record_timeout = record_timeout;
            retry = record { max_attempts = max_attempts; backoff = backoff };
          };
        },
        e3,
      )

  unfoldable pub read_relay : Env → RelaySettings × Env
  read_relay e =
      let (delivery, e1) = env_duration fractions "RELAY_PUBLISH_TIMEOUT" (pos 10000000000) e in
      let (interval, e2) = env_duration fractions "RELAY_POLL_INTERVAL" (pos 500000000) e1 in
      let (batch, e3) = env_int "RELAY_BATCH_SIZE" (pos 100) e2 in
      (
        record {
          mgmt_addr = env_string "MGMT_ADDR" ":8080" e;
          database_url = env_database_url e;
          publisher = record { brokers = env_brokers e; delivery_timeout = delivery };
          relay = record { poll_interval = interval; batch_size = batch };
        },
        e3,
      )

  unfoldable pub read_service : Env → ServiceSettings × Env
  read_service e =
      let (timeout, e1) = env_duration fractions "PRICING_TIMEOUT" (pos 2000000000) e in
      (
        record {
          grpc_addr = env_string "GRPC_ADDR" ":50051" e;
          mgmt_addr = env_string "MGMT_ADDR" ":8080" e;
          database_url = env_database_url e;
          pricing_url = env_string "PRICING_URL" "http://pricing:8000" e;
          pricing_timeout = timeout;
        },
        e1,
      )

  unfoldable pub read_smoke : Env → SmokeSettings × Env
  read_smoke e =
      let (delivery, e1) = env_duration fractions "RELAY_PUBLISH_TIMEOUT" (pos 10000000000) e in
      let (timeout, e2) = env_duration fractions "SMOKE_STEP_TIMEOUT" (pos 45000000000) e1 in
      (
        record {
          publisher = record { brokers = env_brokers e; delivery_timeout = delivery };
          step_timeout = timeout;
        },
        e2,
      )

  unfoldable pub load_consumer : Env → Result ConsumerSettings
  load_consumer e = accept (λ cfg. validate_consumer cfg.consumer) (read_consumer e)

  unfoldable pub load_relay : Env → Result RelaySettings
  load_relay e = accept validate_relay (read_relay e)

  unfoldable pub load_service : Env → Result ServiceSettings
  load_service e = accept validate_service (read_service e)
