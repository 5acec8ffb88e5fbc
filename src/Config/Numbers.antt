-- ===== src/Config/Numbers.antt =====
-- The parsers of numbers that the source calls: strconv.Atoi and time.ParseDuration. The fraction of a
-- duration is float arithmetic, which is the parameter `Fractions`.
use Prim.Native.Char.{code}
use empower_technical_interv.Prelude.{
  ℕ, zero, suc, ◌+◌, ◌-◌, ◌*◌, ◌%◌, Bool, true, false, ◌&&◌, ◌||◌, Option, none, some, String,
  str_eq, if◌then◌else◌, ltb, leb, ◌==◌,
}
use empower_technical_interv.Prelude.Int.{ℤ, pos, sub_ℕ, i64_max, u64_mod}
use empower_technical_interv.Prelude.Text.{text_length}

unfoldable pub is_digit : ℕ → Bool
is_digit c = leb b'0' c && leb c b'9'

-- The value of a text of digits, added to what stands before them.
unfoldable pub digits_value : ℕ → String → Option ℕ
unfolding is_digit
digits_value acc String.[] = some acc
digits_value acc (String.◌∷◌ c s) =
    if is_digit (code c) then digits_value (acc * 10 + (code c - b'0')) s else none

-- A magnitude with its sign, if int64 holds it.
unfoldable pub signed : Bool → ℕ → Option ℤ
signed negative n =
    if negative
    then (if leb n (i64_max + 1) then some (sub_ℕ 0 n) else none)
    else if leb n i64_max
    then some (pos n)
    else none

unfoldable pub magnitude : Bool → String → Option ℤ
unfolding digits_value signed
magnitude negative String.[] = none
magnitude negative (String.◌∷◌ c s) = elim (digits_value 0 (String.◌∷◌ c s)) [
  | none ↦ none
  | some n ↦ signed negative n
]

-- A sign, then the rest.
unfoldable pub unsigned : String → Bool × String
unsigned String.[] = (false, "")
unsigned (String.◌∷◌ c s) =
    if code c == b'-'
    then (true, s)
    else if code c == b'+'
    then (false, s)
    else (false, String.◌∷◌ c s)

unfoldable pub atoi : String → Option ℤ
unfolding magnitude unsigned
atoi s = magnitude (unsigned s).0 (unsigned s).1

-- The digits in front, and what follows them.
unfoldable pub digits_front : String → String × String
unfolding is_digit
digits_front String.[] = ("", "")
digits_front (String.◌∷◌ c s) =
    let (front, rest) = digits_front s in
    if is_digit (code c) then (String.◌∷◌ c front, rest) else ("", String.◌∷◌ c s)

-- The unit: everything up to the next `.` or digit.
unfoldable pub unit_front : String → String × String
unfolding is_digit
unit_front String.[] = ("", "")
unit_front (String.◌∷◌ c s) =
    let (front, rest) = unit_front s in
    if code c == b'.' || is_digit (code c) then ("", String.◌∷◌ c s) else (String.◌∷◌ c front, rest)

-- unitMap, in nanoseconds.
unfoldable pub unit_of : String → Option ℕ
unit_of u =
    if str_eq u "ns"
    then some 1
    else if str_eq u "us" || str_eq u "µs" || str_eq u "μs"
    then some 1000
    else if str_eq u "ms"
    then some 1000000
    else if str_eq u "s"
    then some 1000000000
    else if str_eq u "m"
    then some 60000000000
    else if str_eq u "h"
    then some 3600000000000
    else none

-- The nanoseconds of the digits behind the point, in a unit.
abbrev pub Fractions : Type 0
Fractions = String → ℕ → ℕ

-- The digits behind a point, or nothing, and the rest.
unfoldable pub fraction_front : String → String × String
unfolding digits_front
fraction_front String.[] = ("", "")
fraction_front (String.◌∷◌ c s) = if code c == b'.' then digits_front s else ("", String.◌∷◌ c s)

-- The largest magnitude that a part or the sum may reach, 1<<63.
abbrev pub half_range : ℕ
half_range = i64_max + 1

-- One part, `whole` and `fraction` in a unit, added to the sum so far in uint64.
unfoldable pub add_part : Fractions → String → String → ℕ → ℕ → Option ℕ
unfolding digits_value
add_part fractions whole fraction unit sum = elim (digits_value 0 whole) [
  | none ↦ none
  | some v ↦
      let part = v * unit + fractions fraction unit in
      let sum' = (sum + part) % u64_mod in
      if ltb half_range v || ltb half_range (v * unit) || ltb half_range part || ltb half_range sum'
      then none
      else some sum'
]

-- The loop of ParseDuration, on fuel: each round takes a character at least.
unfoldable pub duration_from : Fractions → ℕ → ℕ → String → Option ℕ
unfolding digits_front unit_front fraction_front unit_of add_part
duration_from fractions fuel sum String.[] = some sum
duration_from fractions zero sum (String.◌∷◌ c s) = none
duration_from fractions (suc fuel) sum (String.◌∷◌ c s) =
    let (whole, after_whole) = digits_front (String.◌∷◌ c s) in
    let (fraction, after_fraction) = fraction_front after_whole in
    let (unit, rest) = unit_front after_fraction in
    if str_eq whole "" && str_eq fraction "" then none else elim (unit_of unit) [
      | none ↦ none
      | some nanoseconds ↦ elim (add_part fractions whole fraction nanoseconds sum) [
        | none ↦ none
        | some sum' ↦ duration_from fractions fuel sum' rest
      ]
    ]

unfoldable pub parse_duration : Fractions → String → Option ℤ
unfolding unsigned duration_from signed
parse_duration fractions s =
    let (negative, rest) = unsigned s in
    if str_eq rest "0"
    then some (pos 0)
    else if str_eq rest ""
    then none
    else elim (duration_from fractions (text_length rest) 0 rest) [
      | none ↦ none
      | some sum ↦ signed negative sum
    ]
