-- ===== src/Lib.antt =====
-- ParcelLab: a shipment service in Go that prices a parcel, stores the shipment with an event in an
-- outbox, relays the event to Kafka and lets a consumer record a dispatch. This library models the
-- program's own code and proves what makes it correct.
--
-- The parts and how they interact
--
-- A request reaches internal/shipmentapi, which asks the pricing service through internal/pricing and
-- stores the shipment and its event through internal/storage in one transaction. internal/relay polls
-- the outbox, sends each event through internal/broker and marks what was acknowledged.
-- internal/consumer reads the topic, records each event with its dispatch in one transaction and
-- commits the offset after that. The binaries of cmd read their settings through internal/config, wait
-- for their dependencies and run these parts until they are stopped. cmd/replay and cmd/smoke use the
-- same parts from outside; tools/ports and tools/protoc prepare a checkout. The files follow the packages:
--
--   Errors        error chains, as the sentinels that errors.Is finds; message texts are left out
--   Domain        internal/domain/domain.go
--   Events        internal/events/events.go (V1, Refusals, Contract: what Decode accepts and
--                 why it refuses)
--   Storage       internal/storage/store.go and db/migrations/0001_init.sql: Tables (the schema and
--                 pgx.BeginFunc), Shipments, Outbox, Dispatches, and Invariant (what the schema and the
--                 transactions keep true)
--   Migrate       internal/storage/migrate.go
--   Broker        internal/broker/publisher.go
--   Relay         internal/relay/relay.go (Batch, Delivery), and Relay/Loop for Run
--   Consumer      internal/consumer/handler.go, and Consumer/Loop for internal/consumer/consumer.go
--                 (Offsets: what the group commits)
--   Pricing       internal/pricing/client.go
--   Api           internal/shipmentapi/server.go and internal/shipmentapi/interceptors.go
--   Correlation   internal/correlation/correlation.go
--   Config        the readers of the environment in internal/config/config.go
--   Startup       Retry of internal/config/config.go
--   Binaries      internal/app/app.go and the run functions of cmd/shipment-service/main.go,
--                 cmd/outbox-relay/main.go, cmd/dispatch-consumer/main.go and cmd/migrate/main.go:
--                 Settings (what they read), Runs (start-up, select and deferred calls)
--   Replay        cmd/replay/main.go
--   Smoke         cmd/smoke/main.go
--   Ports         tools/ports/ports.go: Choose; Ports/Dotenv for the .env files; and Ports/Command for
--                 tools/ports/main.go
--   Protoc        tools/protoc/main.go: Release (downloads and paths), and the installer
--   System        the API, the relay, the consumer and the replay over the same tables and topic, as
--                 one sequence of activities (Refines: against the life of a shipment;
--                 Genuine: where records and dispatches come from)
--   Prelude       names, tests, list lemmas, 64-bit integers and texts that the others share
--   Tests         samples, and each theorem applied to them
--
-- How the code is modelled
--
-- A function of the source is a function here, under its name in snake case. State is passed
-- explicitly: `Db` holds the four tables, and a broker, a client or a clock has a state of its own. A
-- result with an error is `Result`, and a function that returns only an error gives an `Option Error`.
-- A transaction runs on its own snapshot; `Network` says what the server and the connection report at
-- each statement and how the commit ends, a commit in doubt included, where the rows are written and
-- the caller has an error. Transactions of different processes are one after the other; the rows that
-- another one has locked are a predicate of `Network`. In System a
-- poll of the relay is one activity, so an attempt of the consumer comes before or after it and not
-- between its publishing and its commit. ORDER BY keeps the table's order at equal times.
-- Random bytes, clocks and locks are arguments. Go's int and time.Duration are ℤ, with the wrap-around
-- at 64 bits written out where the code multiplies. Names whose sort matters are compared by bytes.
--
-- Libraries are parameters: `Json` (encoding/json on the event), `Columns` (what a column type does to a
-- value), `Client` and `Group` (franz-go), `Transport` (net/http), `Runtime`, `Host` and `Clock` (contexts,
-- timers, and for the binaries also the dependencies, the listeners and the work of the goroutines),
-- `Fractions` (the digits after the point of a duration), `Machine` (the files, the environment, Compose
-- and the probe of the port chooser), `Source` (the server, SHA-256 and the zip format), `Stack` (the
-- running system in the smoke test, which answers each call and moves on). What the code relies on is a
-- named hypothesis: `RoundTrips`, `IsAcknowledging`, `IsClient`, `IsCalm`, `IsClock`, `IsPrompt`,
-- `IsReady`, `IsPunctual`, `IsWriting`, `IsBase`, `PinsPlatform`. `IsClient` is about a group client with
-- the options that Run sets, a commit covers all records of its partition up to the given one, and
-- nothing else commits for the group. What strconv.Atoi, time.ParseDuration, filepath.Clean,
-- bufio.Scanner and the regular expression of the port chooser do is written out.
--
-- Fuel and loops
--
-- The handler's loop has fuel for one round more than the policy has attempts, which is enough since the
-- last attempt does not retry. Retry has fuel for one round for each half second of its timeout, and
-- two more, which is enough since no wait is shorter than that, also where a binary calls it. A duration
-- is read with fuel for each of its characters, and each part has one at least. The loops of the
-- relay and of the consumer run for ever by design: they are relations between the states at the heads
-- of their loops. All other loops are recursion on a list or on a number of tries.
--
-- What is not modelled
--
-- Log lines, histograms, the counter of the outcomes of the consumer (it counts what Handle returns),
-- printed lines and the wording of errors; the foreign key of dispatches on processed_events, whose row
-- the same transaction has inserted; internal/observability, which only writes logs and serves HTTP;
-- the level of the log in internal/app; how the gRPC server drains its requests; the clients of the
-- smoke test; the generated code of gen; the Python pricing service.
pub mod Prelude
pub mod Errors
pub mod Domain
pub mod Events
pub mod Storage
pub mod Migrate
pub mod Broker
pub mod Relay
pub mod Consumer
pub mod Pricing
pub mod Api
pub mod Correlation
pub mod Config
pub mod Startup
pub mod Binaries
pub mod Replay
pub mod Smoke
pub mod Ports
pub mod Protoc
pub mod System
pub mod Tests
