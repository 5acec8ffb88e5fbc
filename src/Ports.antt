-- ===== src/Ports.antt =====
-- tools/ports/ports.go: which host port each service gets. `Free`, the probe of a port, is a field of the
-- selection, as in the source; it answers the same each time it is asked in one selection.
pub mod Desired
pub mod One
pub mod Chosen
pub mod Dotenv
pub mod Command
use empower_technical_interv.Prelude.{
  ℕ, zero, suc, ◌+◌, ◌≡◌, Bool, true, false, ◌||◌, List, [], ◌∷◌, ◌++◌, Option, none, some,
  if◌then◌else◌, String, str_eq, ltb, ◌==◌, lookup_by,
}
use empower_technical_interv.Prelude.Int.{ℤ, pos, negsuc, pos_part}
use empower_technical_interv.Errors.{Error, Result, ok, err, ◌>>=◌}

pub record PortSpec : Type 0 where
  pub name : String
  pub default : ℤ

pub data Reason : Type 0 where
  reason_free reason_ours reason_taken : Reason

-- The ports of a choice have passed the range check.
pub record Choice : Type 0 where
  pub name : String
  pub desired : ℕ
  pub chosen : ℕ
  pub reason : Reason

unfoldable pub changed : Choice → Bool
changed c = if c.chosen == c.desired then false else true

abbrev pub max_port : ℕ
max_port = 65535

-- The maps of the source, as lists; the last entry of a key is the first of its list.
pub record Selection : Type 0 where
  pub overrides : List (String × ℤ)
  pub ours : List ℕ
  pub free : ℕ → Result Bool
  pub limit : ℤ

unfoldable pub contains_port : ℕ → List ℕ → Bool
contains_port port [] = false
contains_port port (p ∷ ps) = port == p || contains_port port ps

-- A map's entry for a name.
abbrev pub entry {ℓ} : {A : Type ℓ} → String → List (String × A) → Option (String × A)
entry name m = lookup_by (λ p. p.0) name m

unfoldable pub wanted : PortSpec → List (String × ℤ) → ℤ
wanted s overrides = elim (entry s.name overrides) [ none ↦ s.default | some p ↦ p.1 ]

-- The range check of desiredPorts.
unfoldable pub in_range : ℤ → Option ℕ
in_range (negsuc n) = none
in_range (pos n) = if n == 0 || ltb max_port n then none else some n

-- The loop of desiredPorts, with the map so far and the keys of the map of owners.
unfoldable pub desired_from :
    List (String × ℤ) → List PortSpec → List (String × ℕ) → List ℕ → Result (List (String × ℕ))
desired_from overrides [] desired owned = ok desired
desired_from overrides (s ∷ specs) desired owned = elim (in_range (wanted s overrides)) [
  | none ↦ err []
  | some port ↦
      let rest = desired_from overrides specs ((s.name, port) ∷ desired) (port ∷ owned) in
      if contains_port port owned then err [] else rest
]

unfoldable pub desired_ports : List PortSpec → List (String × ℤ) → Result (List (String × ℕ))
desired_ports specs overrides = desired_from overrides specs [] []

-- The loop of nextFree, on the number of ports that are left to try.
unfoldable pub next_free_from : ℕ → ℕ → List ℕ → (ℕ → Result Bool) → Result ℕ
next_free_from zero port reserved free = err []
next_free_from (suc left) port reserved free =
    let rest = next_free_from left (suc port) reserved free in
    if ltb max_port port
    then err []
    else if contains_port port reserved
    then rest
    else elim (free port) [ err e ↦ err e | ok is_free ↦ if is_free then ok port else rest ]

unfoldable pub next_free : ℕ → List ℕ → Selection → Result ℕ
next_free start reserved sel = next_free_from (pos_part sel.limit) (suc start) reserved sel.free

-- The zero value of a key that is missing.
abbrev pub port_of : List (String × ℕ) → String → ℕ
port_of desired name = elim (entry name desired) [ none ↦ 0 | some p ↦ p.1 ]

-- One round of the loop of Choose: the choice for a spec.
unfoldable pub choose_one : Selection → List ℕ → String → ℕ → Result Choice
choose_one sel reserved name want =
    if contains_port want sel.ours
    then ok (record { name = name; desired = want; chosen = want; reason = reason_ours })
    else elim (sel.free want) [
      | err e ↦ err e
      | ok is_free ↦
          if is_free
          then ok (record { name = name; desired = want; chosen = want; reason = reason_free })
          else elim (next_free want reserved sel) [
            | err e ↦ err e
            | ok alt ↦
                ok (record { name = name; desired = want; chosen = alt; reason = reason_taken })
          ]
    ]

-- `reserved[alt] = true`, which a kept port does not need: it is reserved already.
abbrev pub reserve : Choice → List ℕ → List ℕ
reserve c reserved = elim c.reason [ reason_taken ↦ c.chosen ∷ reserved | _ ↦ reserved ]

unfoldable pub choose_from :
    Selection → List (String × ℕ) → List ℕ → List PortSpec → Result (List Choice)
choose_from sel desired reserved [] = ok []
choose_from sel desired reserved (s ∷ specs) =
    elim (choose_one sel reserved s.name (port_of desired s.name)) [
      | err e ↦ err e
      | ok c ↦ elim (choose_from sel desired (reserve c reserved) specs) [
        | err e ↦ err e
        | ok choices ↦ ok (c ∷ choices)
      ]
    ]

abbrev pub ports_of : List (String × ℕ) → List ℕ
ports_of [] = []
ports_of ((name, port) ∷ rest) = port ∷ ports_of rest

unfoldable pub choose : List PortSpec → Selection → Result (List Choice)
choose specs sel = elim (desired_ports specs sel.overrides) [
  | err e ↦ err e
  | ok desired ↦ choose_from sel desired (ports_of desired) specs
]
