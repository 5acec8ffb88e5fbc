-- ===== src/Tests/Commands.antt =====
-- The tools on small inputs: the ports of an .env file, and the installer on an archive of two files.
use empower_technical_interv.Prelude.{
  ℕ, ◌≡◌, refl, true, false, List, [], ◌∷◌, none, some, String, str_eq, if◌then◌else◌, ltb, or_else,
  ◌==◌, arith, All,
}
use empower_technical_interv.Prelude.Int.{ℤ, pos}
use empower_technical_interv.Errors.{ok, err, connection_refused, is, same}
use empower_technical_interv.Ports.{Choice, reason_taken, reason_free}
use empower_technical_interv.Config.Numbers.{atoi, digits_front, digits_value}
use empower_technical_interv.Migrate.{sort_names, insert_name, leb_bytes}
use empower_technical_interv.Relay.{itoa}
use empower_technical_interv.Ports.{
  changed, choose, choose_from, choose_one, desired_ports, desired_from, wanted, in_range,
  contains_port, next_free, next_free_from,
}
use empower_technical_interv.Ports.Dotenv.{
  render_env, parse_overrides, updates_from, join_lines, rendered_lines, existing_lines,
  trim_newlines, update_of, assignment, match_name, mark_front, skip_spaces, name_front,
  match_value, ends_with, written, missing, port_line, overrides_from, raw_lines, too_long,
  override_of, strip_cr, parse_specs, specs_from, spec_of,
}
use empower_technical_interv.Ports.Dotenv.Rewrites.{IsWritable}
use empower_technical_interv.Ports.Dotenv.Lines.{value}
use empower_technical_interv.Ports.Dotenv.Names.{chosen_for}
use empower_technical_interv.Ports.Dotenv.Rendered.{as_port}
use empower_technical_interv.Ports.Dotenv.Kept.{ReadsAs, parse_overrides-render_env}
use empower_technical_interv.Ports.Command.{
  Machine, Plan, plan, run, count_changed, base_content, repo_root, read_specs,
  reject_environment_ports, read_env, published_ports, probe, compose_command,
}
use empower_technical_interv.Ports.Command.Outcomes.{IsBase, Leaves, run_settles}
use empower_technical_interv.Protoc.{Dest, Outcome, works, interrupted, Sys, returned, installed}
use empower_technical_interv.Protoc
use empower_technical_interv.Protoc.Release.{Entry, Source, digests_36_1, asset_name, download}
use empower_technical_interv.Protoc.Keeps.{Safe, IsSound}
use empower_technical_interv.Protoc.Safety.{IsLinked, PinsPlatform, run_is_safe}
use empower_technical_interv.Protoc.Progress.{run-Finishes}

-- Three services: the first moves, the second stays, and the third has no line.
abbrev dotenv : String
dotenv = "# ports\n#GRPC_PORT=50051\r\nKAFKA_PORT = 9092\n\n"

abbrev choices : List Choice
choices =
    record { name = "GRPC_PORT"; desired = 50051; chosen = 50052; reason = reason_taken }
    ∷ record { name = "KAFKA_PORT"; desired = 9092; chosen = 9092; reason = reason_free }
    ∷ record { name = "UI_PORT"; desired = 80; chosen = 81; reason = reason_taken }
    ∷ []

abbrev overrides : List (String × ℤ)
overrides = ("KAFKA_PORT", pos 9092) ∷ []

rendered : render_env dotenv choices ≡ "# ports\nGRPC_PORT=50052\nKAFKA_PORT = 9092\nUI_PORT=81\n"
unfolding render_env updates_from changed str_eq join_lines rendered_lines existing_lines
    trim_newlines update_of assignment match_name mark_front skip_spaces name_front match_value
    ends_with digits_front written missing sort_names insert_name leb_bytes port_line itoa
rendered = refl

abbrev IsGood : Choice → Type 0
IsGood c = IsWritable c.name c.chosen

choices-IsGood : All IsGood choices
unfolding ends_with str_eq too_long port_line itoa
choices-IsGood = (
  (
    ((refl, (refl, (refl, (refl, (refl, (refl, (refl, (refl, (refl, tt))))))))), refl, refl),
    omega arith,
    refl,
  ),
  (
    (
      (
        (refl, (refl, (refl, (refl, (refl, (refl, (refl, (refl, (refl, (refl, tt)))))))))),
        refl,
        refl,
      ),
      omega arith,
      refl,
    ),
    (
      (((refl, (refl, (refl, (refl, (refl, (refl, (refl, tt))))))), refl, refl), omega arith, refl),
      tt,
    ),
  ),
)

parse_overrides-render_env_example :
    ReadsAs (λ name. as_port (chosen_for name choices)) overrides (render_env dotenv choices)
unfolding parse_overrides overrides_from raw_lines too_long override_of assignment match_name
    mark_front skip_spaces name_front strip_cr match_value ends_with str_eq digits_front atoi
    digits_value port_line itoa
parse_overrides-render_env_example =
    parse_overrides-render_env dotenv choices overrides refl choices-IsGood

-- GRPC_PORT is taken, and nothing else is.
abbrev machine : Machine
machine = record {
  directories = "/repo/tools" ∷ "/repo" ∷ [];
  has_template = λ dir. str_eq dir "/repo";
  read_template = λ dir. ok "#GRPC_PORT=50051\n#KAFKA_PORT=19092\n";
  reread_template = λ dir. ok "#GRPC_PORT=50051\n#KAFKA_PORT=19092\n";
  env_error = none;
  lookup = λ name. none;
  compose_ps = λ command. err [];
  parse_array = λ text. err [];
  parse_object = λ text. err [];
  dial = λ port. if port == 50051 then none else some (connection_refused ∷ []);
  context_error = none;
  write_env = λ text file. (none, some text);
}

abbrev machine_choices : List Choice
machine_choices =
    record { name = "GRPC_PORT"; desired = 50051; chosen = 50052; reason = reason_taken }
    ∷ record { name = "KAFKA_PORT"; desired = 9092; chosen = 9092; reason = reason_free }
    ∷ []

abbrev planned : Plan
planned = record {
  root = "/repo";
  specs =
      record { name = "GRPC_PORT"; default = pos 50051 }
      ∷ record { name = "KAFKA_PORT"; default = pos 19092 }
      ∷ [];
  existing = dotenv;
  overrides = overrides;
  choices = machine_choices;
}

plan_of_machine : plan machine (some dotenv) ≡ ok planned
unfolding parse_overrides overrides_from raw_lines too_long override_of assignment match_name
    mark_front skip_spaces name_front strip_cr match_value ends_with str_eq digits_front atoi
    digits_value port_line itoa plan repo_root read_specs parse_specs specs_from spec_of
    reject_environment_ports read_env choose choose_from choose_one desired_ports desired_from
    wanted in_range contains_port next_free next_free_from published_ports probe is compose_command
    same
plan_of_machine = refl

-- The content of .env is written over.
planned-IsBase : IsBase machine planned
unfolding parse_overrides overrides_from raw_lines too_long override_of assignment match_name
    mark_front skip_spaces name_front strip_cr match_value ends_with str_eq digits_front atoi
    digits_value port_line itoa base_content
planned-IsBase = (dotenv, overrides, refl, refl, λ name. refl)

run_settles_example :
    (run machine true (some dotenv)
      ≡ (ok (if ltb 0 (count_changed machine_choices) then 1 else 0), some dotenv))
    × ((run machine false (some dotenv)).0 ≡ ok 0)
    × Leaves
        (λ name. or_else (as_port (chosen_for name machine_choices)) (value name overrides))
        (run machine false (some dotenv)).1
unfolding ends_with str_eq too_long port_line itoa
run_settles_example =
    run_settles machine (some dotenv) planned (refl, λ text file. refl) plan_of_machine
      planned-IsBase (choices-IsGood.0, (choices-IsGood.1.0, tt))

-- An archive with the compiler, a header and a file that is not extracted.
abbrev entries : List Entry
entries =
    record { name = "bin/protoc"; is_dir = false; content = "ELF" }
    ∷ record { name = "include/../include/any.proto"; is_dir = false; content = "syntax" }
    ∷ record { name = "readme.txt"; is_dir = false; content = "hello" }
    ∷ []

-- A server with that archive.
abbrev source : Source
source = record {
  fetch = λ url. ok (200, "zip");
  sha256_hex = λ body. "c4bc672d9d49214dc8cafdceadf4df92182d6ca8e3ec65a56b2d7de5602669b4";
  entries = λ body. ok entries;
}

-- The third operation on the file system is interrupted, after the versioned directory was cleared.
abbrev unlucky : ℕ → Outcome
unlucky n = if n == 2 then interrupted else works

source-PinsPlatform : PinsPlatform entries unlucky source "linux" "amd64" "36.1"
source-PinsPlatform asset digests named known body same = refl

-- An incomplete directory is left over.
abbrev left_over : Dest
left_over = record {
  versioned = some (record { files = []; executable = false; marker = false });
  temp = none;
  linked = false;
}

left_over-IsSound : IsSound entries left_over
unfolding installed
left_over-IsSound dir there complete = absurd (ground arith)

run_is_safe_example : Safe entries (IsLinked entries unlucky) (
    Protoc.run unlucky source "linux" "amd64" true
      ("repo" ∷ "bin" ∷ [])
      "36.1"
      (record { dest = left_over; step = 0 }))
run_is_safe_example =
    run_is_safe entries unlucky source "linux" "amd64" "36.1" true ("repo" ∷ "bin" ∷ [])
      source-PinsPlatform (record { dest = left_over; step = 0 }) left_over-IsSound tt

run-Finishes_example :
    (a : Unit {0}) × ((s : Sys) × (Protoc.run
          (λ n. works)
          source
          "linux"
          "amd64"
          true
          ("repo" ∷ "bin" ∷ [])
          "36.1"
          (record { dest = left_over; step = 0 })
        ≡ returned (ok a) s))
unfolding asset_name str_eq download
run-Finishes_example =
    run-Finishes (λ n. works) (λ n. refl) source "linux" "amd64" "36.1" "linux-x86_64" "zip" true
      ("repo" ∷ "bin" ∷ []) digests_36_1 entries refl refl refl refl refl
      (record { dest = left_over; step = 0 })
