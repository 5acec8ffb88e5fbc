-- ===== src/Relay/Loop.antt =====
-- internal/relay/relay.go: Run, as rounds of a poll and a wait on the state of the world. The context,
-- the timer and what the database meets with are the parameter `Host`.
pub mod Backoff
pub mod Pace
use empower_technical_interv.Prelude.{
  ℕ, ◌+◌, Bool, true, false, List, [], ◌∷◌, Option, none, some, if◌then◌else◌, String, str_eq, not,
  ltb, length, ◌≡◌,
}
use empower_technical_interv.Prelude.Int.{ℤ, pos, leb_ℤ, wrap64, ◌*ℤ◌, min_ℤ}
use empower_technical_interv.Errors.{Error, Result, ok, err}
use empower_technical_interv.Events.{Json}
use empower_technical_interv.Broker.{Client}
use empower_technical_interv.Storage.Tables.{Db, Network}
use empower_technical_interv.Storage.Outbox.{PublishResult}
use empower_technical_interv.Relay.{Config, Metrics, poll}

pub record Host (W : Type 0) : Type 0 where
  pub context_error : W → Option Error
  -- `true` if the context ended before the timer fired
  pub timer : ℤ → W → Bool × W
  -- the fault of the count, and the transaction, of the next poll
  pub weather : W → Option Error × Network

-- The `switch` of Run: whether the failure counter goes up, the wait, and the next backoff.
pub record Pause : Type 0 where
  pub is_failure : Bool
  pub wait : ℤ
  pub backoff : ℤ

unfoldable pub max_backoff : Config → ℤ
max_backoff cfg = wrap64 (pos 10 *ℤ cfg.poll_interval)

unfoldable pub next_backoff : Config → ℤ → ℤ
next_backoff cfg backoff = min_ℤ (wrap64 (backoff *ℤ pos 2)) (max_backoff cfg)

unfoldable pub pause : Config → ℤ → Result PublishResult → Pause
pause cfg backoff (err e) = record {
  is_failure = true;
  wait = backoff;
  backoff = next_backoff cfg backoff;
}
pause cfg backoff (ok result) =
    if not (str_eq result.failed "")
    then record { is_failure = true; wait = backoff; backoff = next_backoff cfg backoff }
    else if ltb 0 (length result.published)
    then record { is_failure = false; wait = pos 0; backoff = cfg.poll_interval }
    else record { is_failure = false; wait = cfg.poll_interval; backoff = cfg.poll_interval }

-- The counter of the failures.
unfoldable pub count_failure : Bool → Metrics → Metrics
count_failure is_failure m = if is_failure then record m { failures = m.failures + 1 } else m

module _ {W : Type 0} (host : Host W) where
  -- sleep: the context's error, if it ended first.
  unfoldable pub pause_for : ℤ → W → Option Error × W
  pause_for d w =
      if leb_ℤ d (pos 0)
      then (host.context_error w, w)
      else let (ended, w') = host.timer d w in (if ended then host.context_error w' else none, w')

-- The variables of Run and what it works on.
pub record RelayState (P W : Type 0) : Type 0 where
  pub backoff : ℤ
  pub db : Db P
  pub world : W
  pub metrics : Metrics

-- A round goes on after a wait, or it ends Run.
pub data Round (P W : Type 0) : Type 0 where
  waited : ℤ → RelayState P W → Round P W
  ended : RelayState P W → Round P W

module _ (j : Json) {W : Type 0} (k : Client j.Payload W) (host : Host W) (cfg : Config) where
  abbrev pub polled : RelayState j.Payload W → Result PublishResult × Db j.Payload × W × Metrics
  polled s = poll j k cfg (host.weather s.world).0 (host.weather s.world).1 s.db s.world s.metrics

  abbrev pub after_sleep : Pause → Db j.Payload → Metrics → Option Error × W → Round j.Payload W
  after_sleep p db m (interrupted, w) =
      let s : RelayState j.Payload W = record {
        backoff = p.backoff;
        db = db;
        world = w;
        metrics = count_failure p.is_failure m;
      } in
      elim interrupted [ some e ↦ ended s | none ↦ waited p.wait s ]

  abbrev pub after_poll : ℤ → Result PublishResult × Db j.Payload × W × Metrics → Round j.Payload W
  after_poll backoff (r, db, w, m) = elim (host.context_error w) [
    | some e ↦ ended (record { backoff = backoff; db = db; world = w; metrics = m })
    | none ↦ let p = pause cfg backoff r in after_sleep p db m (pause_for host p.wait w)
  ]

  -- One round of the loop of Run.
  unfoldable pub relay_round : RelayState j.Payload W → Round j.Payload W
  relay_round s = after_poll s.backoff (polled s)

  unfoldable pub start : Db j.Payload → W → Metrics → RelayState j.Payload W
  start db w m = record { backoff = cfg.poll_interval; db = db; world = w; metrics = m }

  -- The states at the head of the loop of Run, with the waits so far, the last one first.
  pub data Relays (s : RelayState j.Payload W) : List ℤ → RelayState j.Payload W → Type 0 where
    begins : Relays s [] s
    goes_on :
        {waits : List ℤ} {d : ℤ} {t u : RelayState j.Payload W}
        → Relays s waits t
        → relay_round t ≡ waited d u
        → Relays s (d ∷ waits) u
