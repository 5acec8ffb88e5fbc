-- ===== src/Ports/Dotenv.antt =====
-- tools/ports/ports.go: the lines of a dotenv file, ParseSpecs, ParseOverrides and RenderEnv. A file is
-- its text; bufio.Scanner and the regular expression are written out.
pub mod Texts
pub mod Lines
pub mod Matching
pub mod Written
pub mod Names
pub mod Rewrites
pub mod Rendered
pub mod Kept
use Prim.Native.Char.{Char, code}
use empower_technical_interv.Prelude.{
  ℕ, Bool, true, false, ◌&&◌, ◌||◌, not, List, [], ◌∷◌, ◌++◌, map, Option, none, some, String,
  str_eq, if◌then◌else◌, ltb, leb, ◌==◌, length, select,
}
use empower_technical_interv.Prelude.Int.{ℤ, pos}
use empower_technical_interv.Prelude.Text.{bytes, split_at, ◌<>◌}
use empower_technical_interv.Errors.{Error, Result, ok, err}
use empower_technical_interv.Config.Numbers.{atoi, digits_front}
use empower_technical_interv.Migrate.{sort_names}
use empower_technical_interv.Relay.{itoa}
use empower_technical_interv.Storage.Outbox.{contains_id}
use empower_technical_interv.Ports.{PortSpec, Choice, changed, entry}

-- The classes of the regular expression.
abbrev pub is_space : ℕ → Bool
is_space c = c == 9 || c == 10 || c == 12 || c == 13 || c == 32

abbrev pub is_upper : ℕ → Bool
is_upper c = leb b'A' c && leb c b'Z'

abbrev pub is_name_code : ℕ → Bool
is_name_code c = is_upper c || (leb b'0' c && leb c b'9') || c == b'_'

unfoldable pub skip_spaces : String → String
skip_spaces String.[] = ""
skip_spaces (String.◌∷◌ c s) = if is_space (code c) then skip_spaces s else String.◌∷◌ c s

-- A mark at the front, if it is there, and the rest.
unfoldable pub mark_front : ℕ → String → Bool × String
mark_front mark String.[] = (false, "")
mark_front mark (String.◌∷◌ c s) = if code c == mark then (true, s) else (false, String.◌∷◌ c s)

-- The characters of a name at the front, and the rest.
unfoldable pub name_front : String → String × String
name_front String.[] = ("", "")
name_front (String.◌∷◌ c s) =
    let (front, rest) = name_front s in
    if is_name_code (code c) then (String.◌∷◌ c front, rest) else ("", String.◌∷◌ c s)

unfoldable pub ends_with : String → String → Bool
ends_with suffix String.[] = str_eq suffix ""
ends_with suffix (String.◌∷◌ c s) = str_eq suffix (String.◌∷◌ c s) || ends_with suffix s

abbrev pub starts_upper : String → Bool
starts_upper String.[] = false
starts_upper (String.◌∷◌ c s) = is_upper (code c)

-- What the regular expression captures.
pub record Assignment : Type 0 where
  pub commented : Bool
  pub name : String
  pub value : String

-- From the digits on.
unfoldable pub match_value : Bool → String → String → Option Assignment
match_value commented name s =
    let (value, end) = digits_front (skip_spaces s) in
    if starts_upper name
      && ends_with "_PORT" name
      && not (str_eq value "")
      && str_eq (skip_spaces end) ""
    then some (record { commented = commented; name = name; value = value })
    else none

-- From the name on.
unfoldable pub match_name : Bool → String → Option Assignment
match_name commented s =
    let (name, after) = name_front (skip_spaces s) in
    let (equals, rest) = mark_front b'=' (skip_spaces after) in
    if equals then match_value commented name rest else none

-- assignment.FindStringSubmatch: a name is as long as it can be, since what follows it is a space or an
-- equals sign.
unfoldable pub assignment : String → Option Assignment
assignment line =
    let (commented, rest) = mark_front b'#' (skip_spaces line) in match_name commented rest

-- bufio.ScanLines drops one carriage return at the end of a line.
unfoldable pub strip_cr : String → String
strip_cr String.[] = ""
strip_cr (String.◌∷◌ c String.[]) = if code c == 13 then "" else String.◌∷◌ c ""
strip_cr (String.◌∷◌ c (String.◌∷◌ d s)) = String.◌∷◌ c (strip_cr (String.◌∷◌ d s))

-- The last line of a text that ends with a newline is not read.
abbrev pub drop_last_empty : List String → List String
drop_last_empty [] = []
drop_last_empty (l ∷ []) = if str_eq l "" then [] else l ∷ []
drop_last_empty (l ∷ k ∷ ls) = l ∷ drop_last_empty (k ∷ ls)

-- The lines, as they stand in the file.
unfoldable pub raw_lines : String → List String
raw_lines text = drop_last_empty (split_at 10 text)

-- A line that fills bufio.MaxScanTokenSize ends the scan.
unfoldable pub too_long : String → Bool
too_long raw = ltb 65535 (length (bytes raw))

-- The active assignment of a line, if it is one.
unfoldable pub override_of : String → Result (Option (String × ℤ))
override_of raw = elim (assignment (strip_cr raw)) [
  | none ↦ ok none
  | some a ↦
      if a.commented
      then ok none
      else elim (atoi a.value) [ none ↦ err [] | some port ↦ ok (some (a.name, port)) ]
]

abbrev pub add_override : Option (String × ℤ) → List (String × ℤ) → List (String × ℤ)
add_override none m = m
add_override (some p) m = p ∷ m

-- The loop of ParseOverrides; the last entry of a key is the first of the list.
unfoldable pub overrides_from : List (String × ℤ) → List String → Result (List (String × ℤ))
overrides_from m [] = ok m
overrides_from m (raw ∷ raws) =
    if too_long raw
    then err []
    else elim (override_of raw) [ err e ↦ err e | ok p ↦ overrides_from (add_override p m) raws ]

unfoldable pub parse_overrides : String → Result (List (String × ℤ))
parse_overrides text = overrides_from [] (raw_lines text)

-- The default that a line states, if it is an assignment to a name that was not seen.
unfoldable pub spec_of : List String → String → Result (Option PortSpec)
spec_of seen raw = elim (assignment (strip_cr raw)) [
  | none ↦ ok none
  | some a ↦ if contains_id a.name seen then ok none else elim (atoi a.value) [
    | none ↦ err []
    | some port ↦ ok (some (record { name = a.name; default = port }))
  ]
]

-- The loop of ParseSpecs, with the names seen so far.
unfoldable pub specs_from : List String → List String → Result (List PortSpec)
specs_from seen [] = ok []
specs_from seen (raw ∷ raws) = if too_long raw then err [] else elim (spec_of seen raw) [
  | err e ↦ err e
  | ok none ↦ specs_from seen raws
  | ok (some s) ↦ elim (specs_from (s.name ∷ seen) raws) [
    | err e ↦ err e
    | ok specs ↦ ok (s ∷ specs)
  ]
]

unfoldable pub parse_specs : String → Result (List PortSpec)
parse_specs text = specs_from [] (raw_lines text)

-- `updates[name] = port`
abbrev pub put_update : String → ℕ → List (String × ℕ) → List (String × ℕ)
put_update name port [] = (name, port) ∷ []
put_update name port ((n, p) ∷ m) =
    if str_eq n name then (name, port) ∷ m else (n, p) ∷ put_update name port m

unfoldable pub updates_from : List (String × ℕ) → List Choice → List (String × ℕ)
updates_from m [] = m
updates_from m (c ∷ cs) = updates_from (if changed c then put_update c.name c.chosen m else m) cs

-- strings.TrimRight of newlines.
unfoldable pub trim_newlines : String → String
trim_newlines String.[] = ""
trim_newlines (String.◌∷◌ c s) =
    let rest = trim_newlines s in if code c == 10 && str_eq rest "" then "" else String.◌∷◌ c rest

unfoldable pub port_line : String → ℕ → String
port_line name port = name <> ("=" <> itoa (pos port))

-- `port, ok := updates[name]`
abbrev pub update_for : String → List (String × ℕ) → Option ℕ
update_for name updates = elim (entry name updates) [ none ↦ none | some u ↦ some u.1 ]

-- The update that replaces a line, if there is one.
unfoldable pub update_of : List (String × ℕ) → String → Option (String × ℕ)
update_of updates raw = elim (assignment raw) [
  | none ↦ none
  | some a ↦ elim (update_for a.name updates) [ none ↦ none | some port ↦ some (a.name, port) ]
]

abbrev pub rewrite_line : List (String × ℕ) → String → String
rewrite_line updates raw = elim (update_of updates raw) [ none ↦ raw | some u ↦ port_line u.0 u.1 ]

-- The names of the lines that are replaced.
unfoldable pub written : List (String × ℕ) → List String → List String
written updates [] = []
written updates (raw ∷ raws) = elim (update_of updates raw) [
  | none ↦ written updates raws
  | some u ↦ u.0 ∷ written updates raws
]

abbrev pub names_of : List (String × ℕ) → List String
names_of [] = []
names_of ((name, port) ∷ m) = name ∷ names_of m

unfoldable pub missing : List (String × ℕ) → List String → List String
missing updates names =
    sort_names (select (λ name. not (contains_id name names)) (names_of updates))

-- The port of a name in the map, 0 if it has none.
abbrev pub update_value : List (String × ℕ) → String → ℕ
update_value updates name = elim (update_for name updates) [ none ↦ 0 | some port ↦ port ]

-- strings.Join with newlines.
unfoldable pub join_lines : List String → String
join_lines [] = ""
join_lines (l ∷ []) = l
join_lines (l ∷ k ∷ ls) = l <> ("\n" <> join_lines (k ∷ ls))

-- The lines of the existing content.
unfoldable pub existing_lines : String → List String
existing_lines existing = if str_eq existing "" then [] else split_at 10 (trim_newlines existing)

unfoldable pub rendered_lines : List (String × ℕ) → List String → List String
rendered_lines updates lines =
    map (rewrite_line updates) lines
    ++ map (λ name. port_line name (update_value updates name))
        (missing updates (written updates lines))

abbrev pub render_updates : String → List (String × ℕ) → String
render_updates existing [] = existing
render_updates existing (u ∷ us) =
    join_lines (rendered_lines (u ∷ us) (existing_lines existing)) <> "\n"

unfoldable pub render_env : String → List Choice → String
render_env existing choices = render_updates existing (updates_from [] choices)
