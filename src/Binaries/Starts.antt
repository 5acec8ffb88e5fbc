-- ===== src/Binaries/Starts.antt =====
-- Which environments the run functions accept, and what they do with the others.
use empower_technical_interv.Prelude.{
  ◌≡◌, ◌≢◌, refl, ap, ◌∙◌, ◌⊎◌, List, [], ◌∷◌, ◌++◌, Option, none, some, String, arith,
}
use empower_technical_interv.Prelude.Int.{ℤ, pos, wrap64}
use empower_technical_interv.Errors.{Error, ok}
use empower_technical_interv.Config.{
  Env, set_value, env_string, env_int, env_duration, env_parsed, env_brokers, env_database_url,
  env_err, default_database_url,
}
use empower_technical_interv.Config.Numbers.{Fractions}
use empower_technical_interv.Config.Readers.{
  Kind, integer, duration, all_wrong, read_all_env, keys_of,
}
use empower_technical_interv.Broker.{validate_publisher}
use empower_technical_interv.Relay.{validate_config}
use empower_technical_interv.Consumer.{validate_retry, max_wait}
use empower_technical_interv.Consumer.Loop.{validate_consumer}
use empower_technical_interv.Binaries.{Host, Process, Ran}
use empower_technical_interv.Binaries.Settings.{
  ConsumerSettings, RelaySettings, ServiceSettings, read_consumer, read_relay, read_service, accept,
  load_consumer, load_relay, load_service, validate_relay, validate_service,
}
use empower_technical_interv.Binaries.Runs.{
  on_loaded, consumer_run, relay_run, service_run, start_consumer, start_relay, start_service,
}

-- The variables that each binary reads as numbers, with their defaults.
abbrev pub consumer_vars : List (String × Kind × ℤ)
consumer_vars =
    ("CONSUMER_RECORD_TIMEOUT", duration, pos 15000000000)
    ∷ ("CONSUMER_MAX_ATTEMPTS", integer, pos 5)
    ∷ ("CONSUMER_BACKOFF", duration, pos 500000000)
    ∷ []

abbrev pub relay_vars : List (String × Kind × ℤ)
relay_vars =
    ("RELAY_PUBLISH_TIMEOUT", duration, pos 10000000000)
    ∷ ("RELAY_POLL_INTERVAL", duration, pos 500000000)
    ∷ ("RELAY_BATCH_SIZE", integer, pos 100)
    ∷ []

abbrev pub service_vars : List (String × Kind × ℤ)
service_vars = ("PRICING_TIMEOUT", duration, pos 2000000000) ∷ []

-- The wrong variables of a binary.
abbrev pub wrong_of : Fractions → List (String × Kind × ℤ) → Env → List String
wrong_of fractions vars e = all_wrong fractions e (keys_of vars)

module _ (fractions : Fractions) (e : Env) where
  consumer_failures :
      (read_consumer fractions e).1.errs ≡ e.errs ++ wrong_of fractions consumer_vars e
  unfolding read_consumer env_int env_duration
  consumer_failures = ap (λ (e' : Env). e'.errs) (read_all_env fractions consumer_vars e)

  relay_failures : (read_relay fractions e).1.errs ≡ e.errs ++ wrong_of fractions relay_vars e
  unfolding read_relay env_int env_duration
  relay_failures = ap (λ (e' : Env). e'.errs) (read_all_env fractions relay_vars e)

  service_failures : (read_service fractions e).1.errs ≡ e.errs ++ wrong_of fractions service_vars e
  unfolding read_service env_duration
  service_failures = ap (λ (e' : Env). e'.errs) (read_all_env fractions service_vars e)

-- A binary starts with its configuration, or it returns an error and has done nothing: the first
-- exactly if none of its variables is wrong and the configuration is valid.
abbrev pub Starts :
    {C W : Type 0}
    → List String
    → Option Error
    → C
    → (C → Process W → Ran W)
    → (Process W → Ran W)
    → Type 0
Starts {C} {W} wrongs invalid cfg body run =
    (p : Process W)
    → ((wrongs ≡ []) × (invalid ≡ none) × (run p ≡ body cfg p))
      ⊎ (((wrongs ≢ []) ⊎ (invalid ≢ none)) × ((why : Error) × (run p ≡ some (some why, p))))

module _ {W : Type 0} (host : Host W) (fractions : Fractions) (e : Env) (clean : e.errs ≡ []) where
  consumer-Starts :
      Starts
        (wrong_of fractions consumer_vars e)
        (validate_consumer (read_consumer fractions e).0.consumer)
        (read_consumer fractions e).0
        (start_consumer host)
        (consumer_run host fractions e)
  unfolding consumer_run load_consumer env_err
  consumer-Starts p = ground (arith, consumer_failures fractions e)

  relay-Starts :
      Starts
        (wrong_of fractions relay_vars e)
        (validate_relay (read_relay fractions e).0)
        (read_relay fractions e).0
        (start_relay host)
        (relay_run host fractions e)
  unfolding relay_run load_relay env_err
  relay-Starts p = ground (arith, relay_failures fractions e)

  service-Starts :
      Starts
        (wrong_of fractions service_vars e)
        (validate_service (read_service fractions e).0)
        (read_service fractions e).0
        (start_service host)
        (service_run host fractions e)
  unfolding service_run load_service env_err
  service-Starts p = ground (arith, service_failures fractions e)

  -- With no failure noted before, the consumer, the relay and the service each do one of two things. If
  -- none of the variables that it reads as numbers is wrong (set, not empty, and not a number of its
  -- kind) and Validate accepts what was read, it starts with what was read. Otherwise it returns an
  -- error, and the process is as it was: nothing was reached, opened or closed.
  pub binaries_start :
      Starts
        (wrong_of fractions consumer_vars e)
        (validate_consumer (read_consumer fractions e).0.consumer)
        (read_consumer fractions e).0
        (start_consumer host)
        (consumer_run host fractions e)
      × Starts
          (wrong_of fractions relay_vars e)
          (validate_relay (read_relay fractions e).0)
          (read_relay fractions e).0
          (start_relay host)
          (relay_run host fractions e)
      × Starts
          (wrong_of fractions service_vars e)
          (validate_service (read_service fractions e).0)
          (read_service fractions e).0
          (start_service host)
          (service_run host fractions e)
  binaries_start = (consumer-Starts, relay-Starts, service-Starts)

-- What is read if nothing is set.
abbrev pub consumer_defaults : ConsumerSettings
consumer_defaults = record {
  mgmt_addr = ":8080";
  database_url = default_database_url;
  consumer = record {
    brokers = "kafka:9092" ∷ [];
    record_timeout = pos 15000000000;
    retry = record { max_attempts = pos 5; backoff = pos 500000000 };
  };
}

abbrev pub relay_defaults : RelaySettings
relay_defaults = record {
  mgmt_addr = ":8080";
  database_url = default_database_url;
  publisher = record { brokers = "kafka:9092" ∷ []; delivery_timeout = pos 10000000000 };
  relay = record { poll_interval = pos 500000000; batch_size = pos 100 };
}

abbrev pub service_defaults : ServiceSettings
service_defaults = record {
  grpc_addr = ":50051";
  mgmt_addr = ":8080";
  database_url = default_database_url;
  pricing_url = "http://pricing:8000";
  pricing_timeout = pos 2000000000;
}

-- Every variable is missing or empty.
abbrev pub IsBare : Env → Type 0
IsBare e = (e.errs ≡ []) × ((key : String) → set_value e key ≡ none)

module _ {W : Type 0} (host : Host W) (fractions : Fractions) (e : Env) (bare : IsBare e) where
  bare_string : (key def : String) → env_string key def e ≡ def
  unfolding env_string
  bare_string key def = rw (bare.1 key, env_string) refl

  bare_parsed :
      (parse : String → Option ℤ) (key : String) (def : ℤ) → env_parsed parse key def e ≡ (def, e)
  unfolding env_parsed
  bare_parsed parse key def = rw (bare.1 key, env_parsed) refl

  consumer_reads : read_consumer fractions e ≡ (consumer_defaults, e)
  unfolding read_consumer env_int env_duration env_brokers env_database_url
  consumer_reads = simp (bare_string, bare_parsed)

  relay_reads : read_relay fractions e ≡ (relay_defaults, e)
  unfolding read_relay env_int env_duration env_brokers env_database_url
  relay_reads = simp (bare_string, bare_parsed)

  service_reads : read_service fractions e ≡ (service_defaults, e)
  unfolding read_service env_duration env_database_url
  service_reads = simp (bare_string, bare_parsed)

  consumer_accepted : load_consumer fractions e ≡ ok consumer_defaults
  unfolding load_consumer env_err validate_consumer validate_retry max_wait wrap64
  consumer_accepted =
      ap (accept (λ (cfg : ConsumerSettings). validate_consumer cfg.consumer)) consumer_reads
      ∙ rw bare.0 refl

  relay_accepted : load_relay fractions e ≡ ok relay_defaults
  unfolding load_relay env_err validate_relay validate_publisher validate_config
  relay_accepted = ap (accept validate_relay) relay_reads ∙ rw bare.0 refl

  service_accepted : load_service fractions e ≡ ok service_defaults
  unfolding load_service env_err validate_service
  service_accepted = ap (accept validate_service) service_reads ∙ rw bare.0 refl

  -- If every variable is missing or empty, the consumer, the relay and the service start with the
  -- defaults of their sources: Validate accepts them, the waits of the retries included.
  pub defaults_start :
      (p : Process W)
      → (consumer_run host fractions e p ≡ start_consumer host consumer_defaults p)
        × (relay_run host fractions e p ≡ start_relay host relay_defaults p)
        × (service_run host fractions e p ≡ start_service host service_defaults p)
  unfolding consumer_run relay_run service_run
  defaults_start p = (
    ap (λ r. on_loaded host r (start_consumer host) p) consumer_accepted,
    ap (λ r. on_loaded host r (start_relay host) p) relay_accepted,
    ap (λ r. on_loaded host r (start_service host) p) service_accepted,
  )
