-- ===== src/Ports/One.antt =====
-- tools/ports/ports.go: the port that nextFree returns, and the choice for one service.
use empower_technical_interv.Prelude.{
  ℕ, zero, suc, ◌+◌, ◌≤◌, ◌<◌, ◌≡◌, refl, subst, ◌⊎◌, inl, inr, Bool, true, false, List, arith,
  String, ltb, Bool-cases,
}
use empower_technical_interv.Prelude.Int.{pos_part}
use empower_technical_interv.Errors.{Result, ok}
use empower_technical_interv.Errors.Chain.{Result-cases}
use empower_technical_interv.Ports.{
  Choice, reason_free, reason_ours, reason_taken, Selection, max_port, contains_port,
  next_free_from, next_free, choose_one,
}

-- A port that nextFree returns.
abbrev pub IsAlternative : (ℕ → Result Bool) → List ℕ → ℕ → ℕ → ℕ → Type 0
IsAlternative free reserved first left alt =
    (contains_port alt reserved ≡ false)
    × (free alt ≡ ok true)
    × (first ≤ alt)
    × (alt < first + left)
    × (alt ≤ max_port)

next_free_from_ok :
    (left port : ℕ) (reserved : List ℕ) (free : ℕ → Result Bool) (alt : ℕ)
    → next_free_from left port reserved free ≡ ok alt
    → IsAlternative free reserved port left alt
unfolding next_free_from
next_free_from_ok zero port reserved free alt h = absurd (cc)
next_free_from_ok (suc left) port reserved free alt h = elim (Bool-cases (ltb max_port port)) [
  | inl beyond ↦ absurd (ground arith)
  | inr within ↦ elim (Bool-cases (contains_port port reserved)) [
    | inl held ↦ further (next_free_from_ok left (suc port) reserved free alt (ground arith))
    | inr open_port ↦ elim (Result-cases (free port)) [
      | inr (e, failed) ↦ absurd (ground arith)
      | inl (true, fine) ↦
          let same : port ≡ alt = ground arith in
          subst (IsAlternative free reserved port (suc left)) same
            (open_port, fine, omega arith, omega arith, ground arith)
      | inl (false, busy) ↦
          further (next_free_from_ok left (suc port) reserved free alt (ground arith))
    ]
  ]
]
  where
    further :
        IsAlternative free reserved (suc port) left alt
        → IsAlternative free reserved port (suc left) alt
    further (out, fine, low, high, top) = (out, fine, omega arith, omega arith, top)

-- A choice, among the ports that are reserved when it is made.
abbrev pub IsRight : Selection → List ℕ → Choice → Type 0
IsRight sel reserved c =
    ((c.chosen ≡ c.desired)
      × (((c.reason ≡ reason_ours) × (contains_port c.desired sel.ours ≡ true))
          ⊎ ((c.reason ≡ reason_free)
              × (contains_port c.desired sel.ours ≡ false)
              × (sel.free c.desired ≡ ok true))))
    ⊎ ((c.reason ≡ reason_taken)
        × (contains_port c.desired sel.ours ≡ false)
        × (sel.free c.desired ≡ ok false)
        × IsAlternative sel.free reserved (suc c.desired) (pos_part sel.limit) c.chosen)

pub choose_one_ok :
    (sel : Selection) (reserved : List ℕ) (name : String) (want : ℕ) (c : Choice)
    → choose_one sel reserved name want ≡ ok c
    → (c.name ≡ name) × (c.desired ≡ want) × IsRight sel reserved c
unfolding choose_one next_free
choose_one_ok sel reserved name want c h = elim (Bool-cases (contains_port want sel.ours)) [
  | inl ours ↦
      let same : record { name = name; desired = want; chosen = want; reason = reason_ours } ≡ c =
        ground arith in
      subst (λ c. (c.name ≡ name) × (c.desired ≡ want) × IsRight sel reserved c) same
        (refl, refl, inl (refl, inl (refl, ours)))
  | inr other ↦ elim (Result-cases (sel.free want)) [
    | inr (e, failed) ↦ absurd (ground arith)
    | inl (true, free) ↦
        let same : record { name = name; desired = want; chosen = want; reason = reason_free } ≡ c =
          ground arith in
        subst (λ c. (c.name ≡ name) × (c.desired ≡ want) × IsRight sel reserved c) same
          (refl, refl, inl (refl, inr (refl, other, free)))
    | inl (false, busy) ↦
        elim (Result-cases (next_free_from (pos_part sel.limit) (suc want) reserved sel.free)) [
          | inr (e, failed) ↦ absurd (ground arith)
          | inl (alt, found) ↦
              let same : record { name = name; desired = want; chosen = alt; reason = reason_taken }
                  ≡ c =
                ground arith in
              subst (λ c. (c.name ≡ name) × (c.desired ≡ want) × IsRight sel reserved c) same
                (
                  refl,
                  refl,
                  inr (
                    refl,
                    other,
                    busy,
                    next_free_from_ok (pos_part sel.limit) (suc want) reserved sel.free alt found,
                  ),
                )
        ]
  ]
]
