-- ===== src/Config/Readers.antt =====
-- The readers of the environment: which failures are known after them.
use mathlib.Core.List.{append-nil, append_assoc}
use empower_technical_interv.Prelude.{
  ◌≡◌, refl, sym, ap, ◌∙◌, Bool, true, false, List, [], ◌∷◌, ◌++◌, Option, none, some, String,
  if◌then◌else◌, arith,
}
use empower_technical_interv.Prelude.Int.{ℤ}
use empower_technical_interv.Config.{Env, set_value, note_failure, env_parsed}
use empower_technical_interv.Config.Numbers.{Fractions, atoi, parse_duration}

-- The variables that a binary reads as numbers.
pub data Kind : Type 0 where
  integer duration : Kind

abbrev pub parser : Fractions → Kind → String → Option ℤ
parser fractions integer = atoi
parser fractions duration = parse_duration fractions

-- A variable that is set, not empty, and not a number of its kind.
abbrev pub is_wrong : (String → Option ℤ) → String → Env → Bool
is_wrong parse key e = elim (set_value e key) [
  | none ↦ false
  | some v ↦ elim (parse v) [ none ↦ true | some n ↦ false ]
]

abbrev pub wrong : (String → Option ℤ) → String → Env → List String
wrong parse key e = if is_wrong parse key e then key ∷ [] else []

-- The wrong ones of a list of variables.
abbrev pub all_wrong : Fractions → Env → List (String × Kind) → List String
all_wrong fractions e [] = []
all_wrong fractions e ((key, kind) ∷ more) =
    wrong (parser fractions kind) key e ++ all_wrong fractions e more

-- An environment with more failures.
abbrev pub with_failures : Env → List String → Env
with_failures e keys = record e { errs = e.errs ++ keys }

pub env_parsed_env :
    (parse : String → Option ℤ) (key : String) (def : ℤ) (e : Env)
    → (env_parsed parse key def e).1 ≡ with_failures e (wrong parse key e)
unfolding env_parsed note_failure
env_parsed_env parse key def e = ground (arith, append-nil e.errs)

-- Reading several variables, one after the other, each with a default.
abbrev pub read_all : Fractions → List (String × Kind × ℤ) → Env → Env
read_all fractions [] e = e
read_all fractions ((key, kind, def) ∷ more) e =
    read_all fractions more (env_parsed (parser fractions kind) key def e).1

abbrev pub keys_of : List (String × Kind × ℤ) → List (String × Kind)
keys_of [] = []
keys_of ((key, kind, def) ∷ more) = (key, kind) ∷ keys_of more

-- What was noted before does not change what a variable holds.
all_wrong-with_failures :
    (fractions : Fractions) (e : Env) (noted : List String) (keys : List (String × Kind))
    → all_wrong fractions (with_failures e noted) keys ≡ all_wrong fractions e keys
unfolding set_value
all_wrong-with_failures fractions e noted [] = refl
all_wrong-with_failures fractions e noted ((key, kind) ∷ keys) =
    ap (λ rest. wrong (parser fractions kind) key e ++ rest)
      (all_wrong-with_failures fractions e noted keys)

pub read_all_env :
    (fractions : Fractions) (vars : List (String × Kind × ℤ)) (e : Env)
    → read_all fractions vars e ≡ with_failures e (all_wrong fractions e (keys_of vars))
read_all_env fractions [] e = ap (λ keys. record e { errs = keys }) (sym (append-nil e.errs))
read_all_env fractions ((key, kind, def) ∷ more) e =
    let noted = wrong (parser fractions kind) key e in
    ap (read_all fractions more) (env_parsed_env (parser fractions kind) key def e)
    ∙ read_all_env fractions more (with_failures e noted)
    ∙ ap (with_failures (with_failures e noted))
        (all_wrong-with_failures fractions e noted (keys_of more))
    ∙ ap (λ keys. record e { errs = keys })
        (append_assoc e.errs noted (all_wrong fractions e (keys_of more)))
