-- ===== src/Tests/Tools.antt =====
-- The migrations, the retry at startup and the choice of ports on small inputs.
use empower_technical_interv.Prelude.{
  ℕ, suc, ◌+◌, ◌/◌, ◌≡◌, refl, true, false, List, [], ◌∷◌, none, some, String, str_eq, not, ltb,
  leb, Option, ◌≤◌, ◌==◌, if◌then◌else◌, arith,
}
use empower_technical_interv.Prelude.Int.{ℤ, pos, negsuc}
use empower_technical_interv.Errors.{Error, deadline_exceeded, Result, ok}
use empower_technical_interv.Storage.Tables.{committed}
use empower_technical_interv.Migrate.{
  Link, Schema, migrate, migrate_files, migrate_file, apply_file, sort_names, insert_name,
  leb_bytes,
}
use empower_technical_interv.Migrate.Once.{Applies, IsReady, migrate-Applies_once}
use empower_technical_interv.Ports.{
  PortSpec, Choice, reason_free, reason_taken, Selection, choose, choose_from, choose_one,
  desired_ports, desired_from, wanted, in_range, contains_port, next_free, next_free_from,
}
use empower_technical_interv.Ports.Desired.{Desires, AllDifferent}
use empower_technical_interv.Ports.Chosen.{Matches, chosens, choose_lem}
use empower_technical_interv.Startup.{Clock, retry_start}
use empower_technical_interv.Startup.Patience.{IsClock, IsPrompt, retry-Returns}

-- Two scripts that count themselves.
abbrev run : ℕ → ℕ → Result ℕ
run sql state = ok (state + sql)

abbrev link : Link ℕ
link = record {
  acquire = none;
  lock = none;
  create_table = none;
  names = ok ("0002_b.sql" ∷ "0001_a.sql" ∷ []);
  check_applied = λ version. none;
  read_file = λ version. ok 1;
  begin = λ version. none;
  note = λ version. none;
  commit = λ version. committed;
}

link-IsReady : IsReady link ("0002_b.sql" ∷ "0001_a.sql" ∷ [])
link-IsReady = record {
  acquired = refl;
  locked = refl;
  created = refl;
  listed = refl;
  checked = λ version. refl;
}

abbrev fresh_schema : Schema ℕ
fresh_schema = record { applied = []; state = 0 }

abbrev migrated : Schema ℕ
migrated = record { applied = "0002_b.sql" ∷ "0001_a.sql" ∷ []; state = 2 }

migrate-Applies_once_example :
    Applies run link (sort_names ("0002_b.sql" ∷ "0001_a.sql" ∷ [])) fresh_schema migrated
    × (migrate run link migrated ≡ (none, migrated))
unfolding migrate migrate_files migrate_file apply_file sort_names insert_name leb_bytes str_eq
migrate-Applies_once_example =
    migrate-Applies_once run link link ("0002_b.sql" ∷ "0001_a.sql" ∷ []) fresh_schema migrated refl
      link-IsReady refl

-- A world that is the time: the dependency never comes up, and a timer takes its time or, if that
-- comes first, what is left until the deadline.
abbrev wait_of : ℤ → ℕ
wait_of (pos d) = d
wait_of (negsuc d) = 0

abbrev clock : Clock ℕ
clock = record {
  attempt = λ w. (some [], w);
  context_error = λ w. if ltb w 60000000000 then none else some (deadline_exceeded ∷ []);
  timer = λ d w.
      if leb (w + wait_of d) 60000000000 then (false, w + wait_of d) else (true, 60000000000);
}

clock-IsClock : IsClock clock (λ w. w) 60000000000
clock-IsClock = record {
  attempts = λ w. omega arith;
  fires = λ d w fired. ground arith;
  ends = λ w alive. ground arith;
}

clock-IsPrompt : IsPrompt clock (λ w. w) 60000000000 clock-IsClock 0
clock-IsPrompt = record {
  attempts_end = λ w early. omega (arith, early);
  timers_end = λ d w early. ground arith;
}

retry-Returns_example :
    (a : Option Error × ℕ) × (retry_start clock (suc (60000000000 / 500000000 + 1)) 0 ≡ some a)
    × ((a.0 ≡ none) → (v : ℕ) × ((clock.attempt v).0 ≡ none))
    × (a.1 ≤ 60000000000 + 0)
retry-Returns_example =
    retry-Returns clock (λ w. w) 60000000000 clock-IsClock 0 clock-IsPrompt 60000000000 0 refl

abbrev specs : List PortSpec
specs =
    record { name = "GRPC_PORT"; default = pos 8080 }
    ∷ record { name = "WEB_PORT"; default = pos 8081 }
    ∷ []

-- Port 8080 is taken, and 8081 is what the other service wants.
abbrev selection : Selection
selection = record {
  overrides = [];
  ours = [];
  free = λ port. ok (not (port == 8080));
  limit = pos 200;
}

abbrev choices : List Choice
choices =
    record { name = "GRPC_PORT"; desired = 8080; chosen = 8082; reason = reason_taken }
    ∷ record { name = "WEB_PORT"; desired = 8081; chosen = 8081; reason = reason_free }
    ∷ []

choose_lem_example :
    (desired : List (String × ℕ)) × Desires selection.overrides specs desired
    × Matches selection desired specs choices
    × AllDifferent (chosens choices)
unfolding choose choose_from choose_one desired_ports desired_from wanted in_range contains_port
    next_free next_free_from str_eq
choose_lem_example = choose_lem specs selection choices (refl, (refl, tt)) refl
