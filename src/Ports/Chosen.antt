-- ===== src/Ports/Chosen.antt =====
-- tools/ports/ports.go: the choices of Choose and nextFree.
use empower_technical_interv.Prelude.{
  ℕ, ◌≤◌, ◌≡◌, ◌≢◌, refl, ◌∙◌, sym, subst, ◌⊎◌, inl, inr, Bool, true, false, List, [], ◌∷◌, arith,
  String, str_eq, ◌==◌, All, All-mono, Distinct, Bool-cases,
}
use empower_technical_interv.Errors.{ok}
use empower_technical_interv.Errors.Chain.{Result-cases}
use empower_technical_interv.Ports.{
  PortSpec, Choice, reason_free, reason_ours, reason_taken, Selection, contains_port, choose_one,
  reserve, choose_from, choose, desired_ports, port_of, ports_of,
}
use empower_technical_interv.Ports.Desired.{
  spec_name, wants, AllDifferent, IsPort, Desires, desired_ports_lem,
}
use empower_technical_interv.Ports.One.{IsRight, choose_one_ok}

abbrev pub chosens : List Choice → List ℕ
chosens [] = []
chosens (c ∷ cs) = c.chosen ∷ chosens cs

-- One right choice for each spec, in order; an alternative is none of the desired ports.
abbrev pub Matches : Selection → List (String × ℕ) → List PortSpec → List Choice → Type 0
Matches sel desired [] [] = Unit
Matches sel desired (s ∷ specs) (c ∷ cs) =
    ((c.name ≡ s.name) × (c.desired ≡ port_of desired s.name) × IsRight sel (ports_of desired) c)
    × Matches sel desired specs cs
Matches _ _ _ _ = ⊥

-- Whatever is reserved in one list is reserved in the other.
abbrev Within : List ℕ → List ℕ → Type 0
Within ps qs = (p : ℕ) → contains_port p ps ≡ true → contains_port p qs ≡ true

reserve-Within : (c : Choice) (reserved : List ℕ) → Within reserved (reserve c reserved)
unfolding contains_port
reserve-Within c reserved p h =
    elim c.reason
      as (λ r.
        contains_port p (elim r [ reason_taken ↦ c.chosen ∷ reserved | _ ↦ reserved ]) ≡ true) [
          | reason_taken ↦ ground arith
          | reason_free ↦ h
          | reason_ours ↦ h
        ]

IsRight-weaken :
    (sel : Selection) (ps qs : List ℕ) (c : Choice)
    → Within ps qs
    → IsRight sel qs c
    → IsRight sel ps c
IsRight-weaken sel ps qs c w (inl kept) = inl kept
IsRight-weaken sel ps qs c w (inr (why, foreign, busy, (out, fine, low, high, top))) =
    inr (why, foreign, busy, (by_bool (contains_port c.chosen ps) refl, fine, low, high, top))
  where
    by_bool : (b : Bool) → contains_port c.chosen ps ≡ b → contains_port c.chosen ps ≡ false
    by_bool true h = absurd (ground (arith, w c.chosen h))
    by_bool false h = h

-- Where the choices for specs that want `ws` lie.
abbrev Placed : List ℕ → List ℕ → Choice → Type 0
Placed reserved ws c =
    (contains_port c.desired ws ≡ true)
    × ((c.chosen ≡ c.desired) ⊎ (contains_port c.chosen reserved ≡ false))

clash : (p q : ℕ) (ps : List ℕ) → p ≡ q → contains_port p ps ≡ true → contains_port q ps ≡ false → ⊥
clash p q ps same there gone =
    let there' : contains_port q ps ≡ true = subst (λ x. contains_port x ps ≡ true) same there in
    absurd (cc)

reserved_taken :
    (c : Choice) (reserved : List ℕ)
    → c.reason ≡ reason_taken
    → contains_port c.chosen (reserve c reserved) ≡ true
unfolding contains_port
reserved_taken c reserved taken =
    subst
      (λ r.
        contains_port c.chosen (elim r [ reason_taken ↦ c.chosen ∷ reserved | _ ↦ reserved ])
        ≡ true)
      (sym taken) (ground arith)

-- A choice and a later one have different ports.
unlike :
    (sel : Selection) (reserved ws : List ℕ) (c t : Choice)
    → IsRight sel reserved c
    → contains_port c.desired reserved ≡ true
    → contains_port c.desired ws ≡ false
    → Within ws reserved
    → Placed (reserve c reserved) ws t
    → c.chosen ≢ t.chosen
unlike sel reserved ws c t (inl (kept, how)) held fresh within (wish, inl stays) =
    λ same. clash t.desired c.desired ws (sym stays ∙ sym same ∙ kept) wish fresh
unlike sel reserved ws c t (inl (kept, how)) held fresh within (wish, inr away) = λ same.
    clash c.desired t.chosen (reserve c reserved) (sym kept ∙ same)
      (reserve-Within c reserved c.desired held) away
unlike sel reserved ws c t (inr (why, foreign, busy, (out, fine, low, high, top))) held fresh within
      (wish, inl stays) =
    λ same. clash t.desired c.chosen reserved (sym stays ∙ sym same) (within t.desired wish) out
unlike sel reserved ws c t (inr (why, foreign, busy, (out, fine, low, high, top))) held fresh within
      (wish, inr away) =
    λ same. clash c.chosen t.chosen (reserve c reserved) same (reserved_taken c reserved why) away

-- None of the choices of a list has the port.
none_has :
    (p : ℕ) (cs : List Choice) → All (λ t. p ≢ t.chosen) cs → contains_port p (chosens cs) ≡ false
unfolding contains_port
none_has p [] h = refl
none_has p (c ∷ cs) h = ground (arith, none_has p cs h.1, h.0)

contains_later :
    (p q : ℕ) (ps : List ℕ) → contains_port p ps ≡ true → contains_port p (q ∷ ps) ≡ true
unfolding contains_port
contains_later p q ps h = ground arith

contains_here : (p q : ℕ) (ps : List ℕ) → p ≡ q → contains_port p (q ∷ ps) ≡ true
unfolding contains_port
contains_here p q ps h = ground arith

not-Within :
    (ps qs : List ℕ) (p : ℕ)
    → Within ps qs
    → contains_port p qs ≡ false
    → contains_port p ps ≡ false
not-Within ps qs p within h = elim (Bool-cases (contains_port p ps)) [
  | inl there ↦ absurd (clash p p qs refl (within p there) h)
  | inr gone ↦ gone
]

wider :
    (c : Choice) (reserved ws : List ℕ) (want : ℕ) (t : Choice)
    → Placed (reserve c reserved) ws t
    → Placed reserved (want ∷ ws) t
wider c reserved ws want t (wish, inl stays) = (contains_later t.desired want ws wish, inl stays)
wider c reserved ws want t (wish, inr away) = (
  contains_later t.desired want ws wish,
  inr (not-Within reserved (reserve c reserved) t.chosen (reserve-Within c reserved) away),
)

place_of :
    (sel : Selection) (reserved ws : List ℕ) (c : Choice) (want : ℕ)
    → c.desired ≡ want
    → IsRight sel reserved c
    → Placed reserved (want ∷ ws) c
place_of sel reserved ws c want h (inl (kept, how)) = (contains_here c.desired want ws h, inl kept)
place_of sel reserved ws c want h (inr (why, foreign, busy, (out, fine, low, high, top))) =
    (contains_here c.desired want ws h, inr out)

module _ (sel : Selection) (desired : List (String × ℕ)) where
  record Chose (specs : List PortSpec) (reserved : List ℕ) (cs : List Choice) : Type 0 where
    matches : Matches sel desired specs cs
    placed : All (Placed reserved (wants desired specs)) cs
    different : AllDifferent (chosens cs)

  next_round :
      (s : PortSpec) (specs : List PortSpec) (reserved : List ℕ) (cs : List Choice)
      → choose_from sel desired reserved (s ∷ specs) ≡ ok cs
      → (c : Choice) × (rest : List Choice) × (choose_one sel reserved s.name
            (port_of desired s.name)
          ≡ ok c)
        × (choose_from sel desired (reserve c reserved) specs ≡ ok rest)
        × (c ∷ rest ≡ cs)
  unfolding choose_from
  next_round s specs reserved cs h =
      elim (Result-cases (choose_one sel reserved s.name (port_of desired s.name))) [
        | inr (e, failed) ↦ absurd (ground arith)
        | inl (c, first) ↦
            elim (Result-cases (choose_from sel desired (reserve c reserved) specs)) [
              | inr (e, failed) ↦ absurd (ground arith)
              | inl (rest, more) ↦ (c, rest, first, more, ground arith)
            ]
      ]

  choose_from-Chose :
      (specs : List PortSpec) (reserved : List ℕ) (cs : List Choice)
      → AllDifferent (wants desired specs)
      → Within (wants desired specs) reserved
      → Within (ports_of desired) reserved
      → choose_from sel desired reserved specs ≡ ok cs
      → Chose specs reserved cs
  unfolding choose_from
  choose_from-Chose [] reserved cs apart within all h =
      let none_left : [] ≡ cs = ground arith in
      subst (Chose [] reserved) none_left (record { matches = tt; placed = tt; different = tt })
  choose_from-Chose (s ∷ specs) reserved cs apart within all h =
      let (c, rest, first, more, list) = next_round s specs reserved cs h in
      let (name, want, right) =
        choose_one_ok sel reserved s.name (port_of desired s.name) c first in
      let grown = reserve-Within c reserved in
      let within' : Within (wants desired specs) reserved = λ p there.
        within p (contains_later p (port_of desired s.name) (wants desired specs) there) in
      let tail =
        choose_from-Chose specs (reserve c reserved) rest apart.1
          (λ p there. grown p (within' p there)) (λ p there. grown p (all p there)) more in
      let held : contains_port c.desired reserved ≡ true =
        within c.desired
          (contains_here c.desired (port_of desired s.name) (wants desired specs) want) in
      let fresh : contains_port c.desired (wants desired specs) ≡ false =
        subst (λ p. contains_port p (wants desired specs) ≡ false) (sym want) apart.0 in
      subst (Chose (s ∷ specs) reserved) list (record {
        matches = (
          (name, want, IsRight-weaken sel (ports_of desired) reserved c all right),
          tail.matches,
        );
        placed = (
          place_of sel reserved (wants desired specs) c (port_of desired s.name) want right,
          All-mono (Placed (reserve c reserved) (wants desired specs))
              (Placed reserved (wants desired (s ∷ specs)))
              (wider c reserved (wants desired specs) (port_of desired s.name)) rest tail.placed,
        );
        different = (
          none_has c.chosen rest (
              All-mono (Placed (reserve c reserved) (wants desired specs))
                (λ t. c.chosen ≢ t.chosen)
                (λ t place.
                  unlike sel reserved (wants desired specs) c t right held fresh within' place)
                rest tail.placed),
          tail.different,
        );
      })

found_port :
    (name : String) (desired : List (String × ℕ))
    → 1 ≤ port_of desired name
    → contains_port (port_of desired name) (ports_of desired) ≡ true
unfolding contains_port
found_port name [] h = absurd (omega arith)
found_port name ((other, port) ∷ desired) h = elim (Bool-cases (str_eq other name)) [
  | inl same ↦ ground arith
  | inr unlike_name ↦ ground (arith, found_port name desired)
]

wants-Within :
    (desired : List (String × ℕ)) (specs : List PortSpec)
    → All IsPort (wants desired specs)
    → Within (wants desired specs) (ports_of desired)
unfolding contains_port
wants-Within desired [] valid p there = absurd (cc)
wants-Within desired (s ∷ specs) valid p there = elim (Bool-cases (p == port_of desired s.name)) [
  | inl here ↦
      let same : p ≡ port_of desired s.name = ground arith in
      subst (λ q. contains_port q (ports_of desired) ≡ true) (sym same)
        (found_port s.name desired valid.0.0)
  | inr later ↦ wants-Within desired specs valid.1 p (ground arith)
]

-- Choose, for specs whose names are distinct: if it returns no error, there is one choice for each spec,
-- in order. Its desired port is the override of its name, or the default, and it is valid. A desired
-- port that is this project's is kept, and so is one that is free. Else the desired port is neither
-- this project's nor free, and the chosen one is a free port above it, within the limit and the range
-- of ports, that no spec desires. The reason says which of the three it was. The
-- chosen ports are pairwise different.
pub choose_lem :
    (specs : List PortSpec) (sel : Selection) (cs : List Choice)
    → Distinct spec_name specs
    → choose specs sel ≡ ok cs
    → (desired : List (String × ℕ)) × Desires sel.overrides specs desired
      × Matches sel desired specs cs
      × AllDifferent (chosens cs)
unfolding choose
choose_lem specs sel cs fresh h = elim (Result-cases (desired_ports specs sel.overrides)) [
  | inr (e, failed) ↦ absurd (ground arith)
  | inl (desired, found) ↦
      let wanted = desired_ports_lem specs sel.overrides desired fresh found in
      let chosen =
        choose_from-Chose sel desired specs (ports_of desired) cs wanted.different
          (wants-Within desired specs wanted.valid) (λ p there. there) (ground arith) in
      (desired, wanted, chosen.matches, chosen.different)
]
