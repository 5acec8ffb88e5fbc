-- ===== src/Ports/Command.antt =====
-- tools/ports/main.go: the command round Choose. The files, the environment, Compose and the probe are
-- the parameter `Machine`, and the .env file is the state. What is printed is left out.
pub mod Outcomes
use Prim.Native.Char.{Char, code}
use empower_technical_interv.Prelude.{
  ℕ, ◌+◌, Bool, true, false, ◌&&◌, ◌||◌, not, List, [], ◌∷◌, ◌++◌, Option, none, some, String,
  str_eq, if◌then◌else◌, ltb, ◌==◌,
}
use empower_technical_interv.Prelude.Int.{ℤ, pos, negsuc}
use empower_technical_interv.Prelude.Text.{split_at}
use empower_technical_interv.Errors.{
  Cause, Error, Result, ok, err, ◌>>=◌, ◌>>◌, check, is, connection_refused,
}
use empower_technical_interv.Ports.{PortSpec, Choice, changed, Selection, choose}
use empower_technical_interv.Ports.Dotenv.{is_space, parse_specs, parse_overrides, render_env}

-- A published port of a container, as Compose prints it.
pub record Publisher : Type 0 where
  pub url : String
  pub published_port : ℤ

abbrev pub Container : Type 0
Container = List Publisher

pub record Machine : Type 0 where
  -- the directories from the current one up to the root, and whether the template is in one
  pub directories : List String
  pub has_template : String → Bool
  pub read_template : String → Result String
  -- the second time, just before the write
  pub reread_template : String → Result String
  -- a file that cannot be read, for another reason than that it is missing
  pub env_error : Option Error
  pub lookup : String → Option String
  -- what `compose ps` prints, and json.Unmarshal
  pub compose_ps : List String → Result String
  pub parse_array : String → Result (List Container)
  pub parse_object : String → Result Container
  -- the dialer's error, and the context's
  pub dial : ℕ → Option Error
  pub context_error : Option Error
  -- the error of os.WriteFile, and what the file holds after it
  pub write_env : String → Option String → Option Error × Option String

abbrev pub search_limit : ℤ
search_limit = pos 200

-- repoRoot
unfoldable pub repo_root : (String → Bool) → List String → Result String
repo_root has_template [] = err []
repo_root has_template (dir ∷ dirs) =
    let rest = repo_root has_template dirs in if has_template dir then ok dir else rest

-- rejectEnvironmentPorts
unfoldable pub reject_environment_ports : (String → Option String) → List PortSpec → Option Error
reject_environment_ports lookup [] = none
reject_environment_ports lookup (s ∷ specs) = elim (lookup s.name) [
  | some v ↦ some []
  | none ↦ reject_environment_ports lookup specs
]

-- readSpecs, on what reading the file gives.
unfoldable pub read_specs : Result String → Result (List PortSpec)
read_specs file = do
  text ← file
  specs ← parse_specs text
  elim specs [ [] ↦ err [] | s ∷ more ↦ ok (s ∷ more) ]

-- readEnv: the content and the overrides; a missing file is an empty one.
unfoldable pub read_env : Option Error → Option String → Result (String × List (String × ℤ))
read_env failure file = do
  check failure []
  let content : String = elim file [ none ↦ "" | some text ↦ text ]
  overrides ← parse_overrides content
  ok (content, overrides)

-- strings.TrimSpace and strings.Fields, on the spaces of ASCII.
abbrev pub is_text_space : ℕ → Bool
is_text_space c = is_space c || c == 11

unfoldable pub trim_front : String → String
trim_front String.[] = ""
trim_front (String.◌∷◌ c s) = if is_text_space (code c) then trim_front s else String.◌∷◌ c s

unfoldable pub trim_end : String → String
trim_end String.[] = ""
trim_end (String.◌∷◌ c s) =
    let rest = trim_end s in
    if is_text_space (code c) && str_eq rest "" then "" else String.◌∷◌ c rest

unfoldable pub fields_of : String → List String
fields_of String.[] = "" ∷ []
fields_of (String.◌∷◌ c s) =
    let rest = fields_of s in
    if is_text_space (code c)
    then "" ∷ rest
    else elim rest [ [] ↦ [] | f ∷ fs ↦ String.◌∷◌ c f ∷ fs ]

abbrev pub full_fields : List String → List String
full_fields [] = []
full_fields (f ∷ fs) = let rest = full_fields fs in if str_eq f "" then rest else f ∷ rest

-- composeCommand: a variable with no field is like none.
unfoldable pub compose_command : Option String → List String
compose_command none = "docker" ∷ "compose" ∷ []
compose_command (some v) = elim (full_fields (fields_of v)) [
  | [] ↦ "docker" ∷ "compose" ∷ []
  | f ∷ fs ↦ f ∷ fs
]

abbrev pub is_blank : String → Bool
is_blank line = elim (full_fields (fields_of line)) [ [] ↦ true | f ∷ fs ↦ false ]

-- The container of each line that is not blank.
unfoldable pub parse_objects : (String → Result Container) → List String → Result (List Container)
parse_objects parse [] = ok []
parse_objects parse (line ∷ lines) =
    if is_blank line
    then parse_objects parse lines
    else do c ← parse line; cs ← parse_objects parse lines; ok (c ∷ cs)

abbrev pub starts_array : String → Bool
starts_array String.[] = false
starts_array (String.◌∷◌ c s) = code c == b'['

-- The ports that are published on 127.0.0.1; Choose asks for positive ones only.
unfoldable pub local_ports : Container → List ℕ
local_ports [] = []
local_ports (p ∷ ps) =
    let rest = local_ports ps in
    elim p.published_port [
      | negsuc n ↦ rest
      | pos n ↦ if str_eq p.url "127.0.0.1" && not (n == 0) then n ∷ rest else rest
    ]

unfoldable pub all_local_ports : List Container → List ℕ
all_local_ports [] = []
all_local_ports (c ∷ cs) = local_ports c ++ all_local_ports cs

-- parsePublished
unfoldable pub parse_published : Machine → String → Result (List ℕ)
parse_published m raw =
    let text = trim_end (trim_front raw) in
    if str_eq text "" then ok [] else do
      cs ←
          (if starts_array text
            then m.parse_array text
            else parse_objects m.parse_object (split_at 10 text))
      ok (all_local_ports cs)

-- publishedPorts, whose error run only prints.
unfoldable pub published_ports : Machine → List ℕ
published_ports m =
    elim (m.compose_ps (compose_command (m.lookup "COMPOSE")) >>= parse_published m) [
      | err e ↦ []
      | ok ports ↦ ports
    ]

-- The function of prober: only a refused connection means free.
unfoldable pub probe : Machine → ℕ → Result Bool
probe m port = elim (m.dial port) [
  | none ↦ ok false
  | some e ↦
      if is connection_refused e
      then ok true
      else elim m.context_error [ some stop ↦ err stop | none ↦ err e ]
]

unfoldable pub count_changed : List Choice → ℕ
count_changed [] = 0
count_changed (c ∷ cs) = (if changed c then 1 else 0) + count_changed cs

-- The content that is written: that of the file, or of the template if the file is empty.
unfoldable pub base_content : Machine → String → String → Result String
base_content m root existing = if str_eq existing "" then m.reread_template root else ok existing

-- The end of run, on the choices.
unfoldable pub finish :
    Machine → String → Bool → String → List Choice → Option String → Result ℕ × Option String
finish m root check_only existing choices file =
    let conflicts = count_changed choices in
    if check_only
    then (ok (if ltb 0 conflicts then 1 else 0), file)
    else if conflicts == 0
    then (ok 0, file)
    else elim m.context_error [
      | some e ↦ (err e, file)
      | none ↦ elim (base_content m root existing) [
        | err e ↦ (err e, file)
        | ok content ↦
            let (failure, after) = m.write_env (render_env content choices) file in
            (elim failure [ some e ↦ err e | none ↦ ok 0 ], after)
      ]
    ]

-- What run works out before it prints: the root, the content of .env and the choices.
pub record Plan : Type 0 where
  pub root : String
  pub specs : List PortSpec
  pub existing : String
  pub overrides : List (String × ℤ)
  pub choices : List Choice

unfoldable pub plan : Machine → Option String → Result Plan
plan m file = do
  root ← repo_root m.has_template m.directories
  specs ← read_specs (m.read_template root)
  check (reject_environment_ports m.lookup specs) []
  (content, overrides) ← read_env m.env_error file
  choices ← choose specs (record {
    overrides = overrides;
    ours = published_ports m;
    free = probe m;
    limit = search_limit;
  })
  ok (record {
    root = root;
    specs = specs;
    existing = content;
    overrides = overrides;
    choices = choices;
  })

-- run: the exit status, which is 1 with an error, and the .env file after it.
unfoldable pub run : Machine → Bool → Option String → Result ℕ × Option String
run m check_only file = elim (plan m file) [
  | err e ↦ (err e, file)
  | ok p ↦ finish m p.root check_only p.existing p.choices file
]

-- main
unfoldable pub exit_code : Result ℕ → ℕ
exit_code (err e) = 1
exit_code (ok code) = code
