-- ===== src/Ports/Desired.antt =====
-- tools/ports/ports.go: the map that desiredPorts returns.
use empower_technical_interv.Prelude.{
  ℕ, ◌≤◌, ◌≡◌, refl, ap, ◌∙◌, sym, subst, inl, inr, false, List, [], ◌∷◌, none, some, arith, String,
  str_eq, str_eq_refl, lookup_by, All, Distinct, Option-cases, Bool-cases,
}
use empower_technical_interv.Prelude.Int.{ℤ, pos, negsuc}
use empower_technical_interv.Errors.{ok}
use empower_technical_interv.Ports.{
  PortSpec, max_port, contains_port, entry, wanted, in_range, desired_from, desired_ports, port_of,
}

abbrev pub spec_name : PortSpec → String
spec_name s = s.name

-- What the specs of a list want, each by its name.
abbrev pub wants : List (String × ℕ) → List PortSpec → List ℕ
wants desired [] = []
wants desired (s ∷ specs) = port_of desired s.name ∷ wants desired specs

abbrev pub AllDifferent : List ℕ → Type 0
AllDifferent [] = Unit
AllDifferent (p ∷ ps) = (contains_port p ps ≡ false) × AllDifferent ps

-- A valid port.
abbrev pub IsPort : ℕ → Type 0
IsPort p = (1 ≤ p) × (p ≤ max_port)

in_range_ok : (z : ℤ) (p : ℕ) → in_range z ≡ some p → (z ≡ pos p) × IsPort p
unfolding in_range
in_range_ok (negsuc n) p h = absurd (cc)
in_range_ok (pos n) p h = ground arith

-- A list that none of whose ports is in `port ∷ owned`.
apart :
    (port : ℕ) (owned qs : List ℕ)
    → All (λ q. contains_port q (port ∷ owned) ≡ false) qs
    → (contains_port port qs ≡ false) × All (λ q. contains_port q owned ≡ false) qs
unfolding contains_port
apart port owned [] h = (refl, tt)
apart port owned (q ∷ qs) h =
    let (first, rest) = apart port owned qs h.1 in (ground arith, (ground arith, rest))

-- What desiredPorts has found for the specs.
pub record Desires (overrides : List (String × ℤ)) (specs : List PortSpec)
    (desired : List (String × ℕ)) : Type 0 where
  pub different : AllDifferent (wants desired specs)
  pub valid : All IsPort (wants desired specs)
  pub as_wanted : All (λ s. wanted s overrides ≡ pos (port_of desired s.name)) specs

entry_first :
    (name : String) (port : ℕ) (m : List (String × ℕ))
    → entry name ((name, port) ∷ m) ≡ some (name, port)
entry_first name port m = rw (str_eq_refl name) refl

gone_both :
    (name : String) (s : PortSpec) (specs : List PortSpec)
    → lookup_by spec_name name (s ∷ specs) ≡ none
    → (str_eq s.name name ≡ false) × (lookup_by spec_name name specs ≡ none)
gone_both name s specs h = elim (Bool-cases (str_eq s.name name)) [
  | inl same ↦ absurd (ground arith)
  | inr other ↦ (other, ground arith)
]

entry_other :
    (name other : String) (port : ℕ) (m : List (String × ℕ))
    → str_eq other name ≡ false
    → entry name ((other, port) ∷ m) ≡ entry name m
entry_other name other port m h = rw h refl

module _ (overrides : List (String × ℤ)) where
  record Found (specs : List PortSpec) (before after : List (String × ℕ)) (owned : List ℕ)
      : Type 0 where
    result : Desires overrides specs after
    unowned : All (λ q. contains_port q owned ≡ false) (wants after specs)
    still :
        (name : String)
        → lookup_by spec_name name specs ≡ none
        → entry name after ≡ entry name before

  first_port :
      (s : PortSpec) (specs : List PortSpec) (desired : List (String × ℕ)) (owned : List ℕ)
      (after : List (String × ℕ))
      → desired_from overrides (s ∷ specs) desired owned ≡ ok after
      → (port : ℕ) × (in_range (wanted s overrides) ≡ some port)
        × (contains_port port owned ≡ false)
        × (desired_from overrides specs ((s.name, port) ∷ desired) (port ∷ owned) ≡ ok after)
  unfolding desired_from
  first_port s specs desired owned after h = elim (Option-cases (in_range (wanted s overrides))) [
    | inl outside ↦ absurd (ground arith)
    | inr (port, inside) ↦ (port, inside, ground arith, ground arith)
  ]

  desired_from-Found :
      (specs : List PortSpec) (desired : List (String × ℕ)) (owned : List ℕ)
      (after : List (String × ℕ))
      → Distinct spec_name specs
      → desired_from overrides specs desired owned ≡ ok after
      → Found specs desired after owned
  unfolding desired_from
  desired_from-Found [] desired owned after fresh h = record {
    result = record { different = tt; valid = tt; as_wanted = tt };
    unowned = tt;
    still = λ name gone. ground arith;
  }
  desired_from-Found (s ∷ specs) desired owned after fresh h =
      let (port, inside, free, rest) = first_port s specs desired owned after h in
      let found =
        desired_from-Found specs ((s.name, port) ∷ desired) (port ∷ owned) after fresh.1 rest in
      let (value, is_port) = in_range_ok (wanted s overrides) port inside in
      let here : port_of after s.name ≡ port =
        ap (λ e. elim e [ none ↦ 0 | some p ↦ p.1 ])
          (found.still s.name fresh.0 ∙ entry_first s.name port desired) in
      let (unlike, unowned) = apart port owned (wants after specs) found.unowned in
      record {
        result = record {
          different = (
            subst (λ p. contains_port p (wants after specs) ≡ false) (sym here) unlike,
            found.result.different,
          );
          valid = (subst IsPort (sym here) is_port, found.result.valid);
          as_wanted = (value ∙ ap pos (sym here), found.result.as_wanted);
        };
        unowned = (subst (λ p. contains_port p owned ≡ false) (sym here) free, unowned);
        still = λ name gone.
            let (other, later) = gone_both name s specs gone in
            found.still name later ∙ entry_other name s.name port desired other;
      }

-- The specs of a list whose names are distinct get distinct valid ports, each one the override of its
-- name or else its default, if desiredPorts returns no error.
pub desired_ports_lem :
    (specs : List PortSpec) (overrides : List (String × ℤ)) (desired : List (String × ℕ))
    → Distinct spec_name specs
    → desired_ports specs overrides ≡ ok desired
    → Desires overrides specs desired
unfolding desired_ports
desired_ports_lem specs overrides desired fresh h =
    (desired_from-Found overrides specs [] [] desired fresh h).result
