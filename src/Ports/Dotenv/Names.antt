-- ===== src/Ports/Dotenv/Names.antt =====
-- Which names the maps and the sorted lists of RenderEnv hold.
use empower_technical_interv.Prelude.{
  ℕ, ◌≡◌, refl, ap, ◌∙◌, inl, inr, Bool, true, false, ◌&&◌, ◌||◌, not, List, [], ◌∷◌, Option, none,
  some, String, str_eq, str_eq_iff, if◌then◌else◌, or_else, All, select, arith, Bool-cases, subst,
}
use empower_technical_interv.Migrate.{sort_names, insert_name}
use empower_technical_interv.Storage.Outbox.{contains_id}
use empower_technical_interv.Ports.{Choice, changed}
use empower_technical_interv.Ports.Dotenv.{put_update, updates_from, names_of, missing, update_for}

contains-insert :
    (name other : String) (ns : List String)
    → contains_id name (insert_name other ns) ≡ (str_eq other name || contains_id name ns)
unfolding insert_name
contains-insert name other [] = refl
contains-insert name other (n ∷ ns) = ground (arith, contains-insert name other ns)

pub contains-sort :
    (name : String) (ns : List String) → contains_id name (sort_names ns) ≡ contains_id name ns
unfolding sort_names
contains-sort name [] = refl
contains-sort name (n ∷ ns) =
    contains-insert name n (sort_names ns) ∙ ap (λ b. str_eq n name || b) (contains-sort name ns)

-- Names that are not in a list.
pub contains-select :
    (name : String) (names ns : List String)
    → contains_id name (select (λ n. not (contains_id n names)) ns)
      ≡ (contains_id name ns && not (contains_id name names))
contains-select name names [] = refl
contains-select name names (n ∷ ns) = elim (Bool-cases (str_eq n name)) [
  | inl e ↦
      let same = (str_eq_iff n name).0 e in
      let known : contains_id n names ≡ contains_id name names =
        ap (λ k. contains_id k names) same in
      ground (arith, contains-select name names ns)
  | inr e ↦ ground (arith, contains-select name names ns)
]

abbrev pub holds : Option ℕ → Bool
holds none = false
holds (some n) = true

pub contains-names_of :
    (name : String) (updates : List (String × ℕ))
    → contains_id name (names_of updates) ≡ holds (update_for name updates)
contains-names_of name [] = refl
contains-names_of name ((n, p) ∷ updates) = ground (arith, contains-names_of name updates)

update_for-put :
    (name n : String) (port : ℕ) (updates : List (String × ℕ))
    → update_for name (put_update n port updates)
      ≡ (if str_eq n name then some port else update_for name updates)
update_for-put name n port [] = ground arith
update_for-put name n port ((k, p) ∷ updates) = ground (
  arith,
  update_for-put name n port updates,
  str_eq_iff k n,
  str_eq_iff k name,
  str_eq_iff n name,
)

-- The port that the last changed choice for a name has chosen.
abbrev pub chosen_for : String → List Choice → Option ℕ
chosen_for name [] = none
chosen_for name (c ∷ cs) =
    or_else (chosen_for name cs) (if changed c && str_eq c.name name then some c.chosen else none)

pub update_for-updates_from :
    (name : String) (cs : List Choice) (updates : List (String × ℕ))
    → update_for name (updates_from updates cs)
      ≡ or_else (chosen_for name cs) (update_for name updates)
unfolding updates_from
update_for-updates_from name [] updates = refl
update_for-updates_from name (c ∷ cs) updates = elim (Bool-cases (changed c)) [
  | inl moved ↦ rw moved (
      update_for-updates_from name cs (put_update c.name c.chosen updates)
      ∙ ap (or_else (chosen_for name cs)) (update_for-put name c.name c.chosen updates)
      ∙ ground arith)
  | inr kept ↦ rw kept (update_for-updates_from name cs updates ∙ ground arith)
]

module _ {κ} (P : String → ℕ → Type κ) where
  -- A property of every update.
  abbrev pub AllUpdates : List (String × ℕ) → Type κ
  AllUpdates updates = All (λ u. P u.0 u.1) updates

  put_update-All :
      (name : String) (port : ℕ) (updates : List (String × ℕ))
      → P name port
      → AllUpdates updates
      → AllUpdates (put_update name port updates)
  put_update-All name port [] h hs = (h, tt)
  put_update-All name port ((k, p) ∷ updates) h (here, rest) = elim (Bool-cases (str_eq k name)) [
    | inl e ↦ rw e (h, rest)
    | inr e ↦ rw e (here, put_update-All name port updates h rest)
  ]

  pub updates_from-All :
      (cs : List Choice) (updates : List (String × ℕ))
      → All (λ (c : Choice). P c.name c.chosen) cs
      → AllUpdates updates
      → AllUpdates (updates_from updates cs)
  unfolding updates_from
  updates_from-All [] updates h hs = hs
  updates_from-All (c ∷ cs) updates (here, rest) hs = elim (Bool-cases (changed c)) [
    | inl moved ↦ rw moved (
        updates_from-All cs (put_update c.name c.chosen updates) rest
          (put_update-All c.name c.chosen updates here hs))
    | inr kept ↦ rw kept (updates_from-All cs updates rest hs)
  ]

  pub update_for-All :
      (name : String) (updates : List (String × ℕ)) {port : ℕ}
      → AllUpdates updates
      → update_for name updates ≡ some port
      → P name port
  update_for-All name [] h e = absurd (cc)
  update_for-All name ((k, p) ∷ updates) {port} (here, rest) e = elim (Bool-cases (str_eq k name)) [
    | inl same ↦
        let port_same : p ≡ port = ground arith in
        subst (λ q. P name q) port_same (subst (λ n. P n p) ((str_eq_iff k name).0 same) here)
    | inr other ↦ update_for-All name updates rest (ground arith)
  ]

-- The missing names are those with an update and no line.
pub contains-missing :
    (name : String) (updates : List (String × ℕ)) (names : List String)
    → contains_id name (missing updates names)
      ≡ (holds (update_for name updates) && not (contains_id name names))
unfolding missing
contains-missing name updates names =
    contains-sort name (select (λ n. not (contains_id n names)) (names_of updates))
    ∙ contains-select name names (names_of updates)
    ∙ ap (λ b. b && not (contains_id name names)) (contains-names_of name updates)
