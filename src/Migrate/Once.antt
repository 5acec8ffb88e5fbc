-- ===== src/Migrate/Once.antt =====
-- internal/storage/migrate.go: which files a call of Migrate applies, and what a later call does.
use empower_technical_interv.Prelude.{
  ◌≡◌, refl, ap, ◌∙◌, subst, ◌⊎◌, inl, inr, true, false, List, [], ◌∷◌, none, some, arith, String,
  str_eq_refl, Option-cases, Bool-cases, All,
}
use empower_technical_interv.Errors.{Result, ok}
use empower_technical_interv.Errors.Chain.{Result-cases}
use empower_technical_interv.Storage.Outbox.{contains_id}
use empower_technical_interv.Migrate.{
  Link, Schema, apply_file, migrate_file, migrate_files, migrate, sort_names,
}

-- The database after some of the files have been applied, in order, each of them recorded and none of them
-- recorded before.
pub data Applies {Sql S : Type 0} (run : Sql → S → Result S) (link : Link Sql)
    : List String → Schema S → Schema S → Type 0 where
  none_left : {d : Schema S} → Applies run link [] d d
  skips :
      {version : String} {versions : List String} {d d' : Schema S}
      → contains_id version d.applied ≡ true
      → Applies run link versions d d'
      → Applies run link (version ∷ versions) d d'
  applies :
      {version : String} {versions : List String} {d d' : Schema S} (sql : Sql) (state : S)
      → contains_id version d.applied ≡ false
      → link.read_file version ≡ ok sql
      → run sql d.state ≡ ok state
      → Applies run link versions (record { applied = version ∷ d.applied; state = state }) d'
      → Applies run link (version ∷ versions) d d'

module _ {Sql S : Type 0} (run : Sql → S → Result S) (link : Link Sql) where
  abbrev next : String → S → Schema S → Schema S
  next version state d = record { applied = version ∷ d.applied; state = state }

  apply_file_ok :
      (version : String) (sql : Sql) (d d' : Schema S)
      → apply_file run link version sql d ≡ (none, d')
      → (state : S) × (run sql d.state ≡ ok state) × (d' ≡ next version state d)
  unfolding apply_file
  apply_file_ok version sql d d' h = elim (Result-cases (run sql d.state)) [
    | inr (e, failed) ↦ absurd (ground arith)
    | inl (state, done) ↦ (state, done, ground arith)
  ]

  next_file :
      (version : String) (versions : List String) (d d' : Schema S)
      → migrate_files run link (version ∷ versions) d ≡ (none, d')
      → (mid : Schema S) × (migrate_file run link version d ≡ (none, mid))
        × (migrate_files run link versions mid ≡ (none, d'))
  unfolding migrate_files
  next_file version versions d d' h =
      let r = migrate_file run link version d in
      elim (Option-cases r.0) [
        | inr (e, failed) ↦ absurd (ground arith)
        | inl fine ↦ (r.1, ap (λ x. (x, r.1)) fine, ground arith)
      ]

  migrate_file_ok :
      (version : String) (d mid : Schema S)
      → migrate_file run link version d ≡ (none, mid)
      → ((contains_id version d.applied ≡ true) × (mid ≡ d))
        ⊎ ((contains_id version d.applied ≡ false)
            × ((sql : Sql) × (link.read_file version ≡ ok sql)
                × ((state : S) × (run sql d.state ≡ ok state) × (mid ≡ next version state d))))
  unfolding migrate_file
  migrate_file_ok version d mid h = elim (Bool-cases (contains_id version d.applied)) [
    | inl old ↦ inl (old, ground arith)
    | inr new ↦ elim (Result-cases (link.read_file version)) [
      | inr (e, failed) ↦ absurd (ground arith)
      | inl (sql, read) ↦ inr (new, (sql, read, apply_file_ok version sql d mid (ground arith)))
    ]
  ]

  migrate_files_ok :
      (versions : List String) (d d' : Schema S)
      → migrate_files run link versions d ≡ (none, d')
      → Applies run link versions d d'
  unfolding migrate_files
  migrate_files_ok [] d d' h =
      let same : d ≡ d' = ap (λ r. r.1) h in subst (Applies run link [] d) same none_left
  migrate_files_ok (version ∷ versions) d d' h =
      let (mid, first, rest) = next_file version versions d d' h in
      let later = migrate_files_ok versions mid d' rest in
      elim (migrate_file_ok version d mid first) [
        | inl (old, same) ↦ skips old (subst (λ x. Applies run link versions x d') same later)
        | inr (new, (sql, read, (state, done, same))) ↦
            applies sql state new read done (subst (λ x. Applies run link versions x d') same later)
      ]

  -- Nothing that is recorded is forgotten.
  still_applied :
      {versions : List String} {d d' : Schema S} (version : String)
      → Applies run link versions d d'
      → contains_id version d.applied ≡ true
      → contains_id version d'.applied ≡ true
  still_applied version none_left h = h
  still_applied version (skips old rest) h = still_applied version rest h
  still_applied version (applies sql state new read done rest) h =
      still_applied version rest (ground arith)

  All-applied :
      {versions : List String} {d d' : Schema S}
      → Applies run link versions d d'
      → All (λ version. contains_id version d'.applied ≡ true) versions
  All-applied none_left = tt
  All-applied (skips {version} old rest) = (still_applied version rest old, All-applied rest)
  All-applied (applies {version} sql state new read done rest) =
      (still_applied version rest (rw (str_eq_refl version) refl), All-applied rest)

  names_of :
      (d d' : Schema S)
      → migrate run link d ≡ (none, d')
      → (names : List String) × (link.names ≡ ok names)
        × (migrate_files run link (sort_names names) d ≡ (none, d'))
  unfolding migrate
  names_of d d' h = elim (Result-cases link.names) [
    | inr (e, failed) ↦ absurd (ground arith)
    | inl (names, listed) ↦ (names, listed, ground arith)
  ]

-- The connection reports no error before the first transaction.
pub record IsReady {Sql : Type 0} (link : Link Sql) (names : List String) : Type 0 where
  pub acquired : link.acquire ≡ none
  pub locked : link.lock ≡ none
  pub created : link.create_table ≡ none
  pub listed : link.names ≡ ok names
  pub checked : (version : String) → link.check_applied version ≡ none

module _ {Sql S : Type 0} (run : Sql → S → Result S) where
  file_again :
      (link : Link Sql) (version : String) (d : Schema S)
      → link.check_applied version ≡ none
      → contains_id version d.applied ≡ true
      → migrate_file run link version d ≡ (none, d)
  unfolding migrate_file
  file_again link version d clear old = rw (clear, migrate_file) (rw old refl)

  files_again :
      (link : Link Sql) (versions : List String) (d : Schema S)
      → ((version : String) → link.check_applied version ≡ none)
      → All (λ version. contains_id version d.applied ≡ true) versions
      → migrate_files run link versions d ≡ (none, d)
  unfolding migrate_files
  files_again link [] d clear old = refl
  files_again link (version ∷ versions) d clear old =
      ap (λ r. elim r.0 [ some e ↦ (some e, r.1) | none ↦ migrate_files run link versions r.1 ])
        (file_again link version d (clear version) old.0)
      ∙ files_again link versions d clear old.1

  migrate_again :
      (link : Link Sql) (names : List String) (d : Schema S)
      → IsReady link names
      → All (λ version. contains_id version d.applied ≡ true) (sort_names names)
      → migrate run link d ≡ (none, d)
  unfolding migrate
  migrate_again link names d ready old =
      rw (ready.acquired, migrate)
        (rw ready.locked (
          rw ready.created
            (rw ready.listed (files_again link (sort_names names) d ready.checked old))))

  -- A call of Migrate that returns no error has applied exactly the embedded files that were not recorded,
  -- in the order of their names, and recorded each; and a later call with the same files changes nothing.
  pub migrate-Applies_once :
      (link later : Link Sql) (names : List String) (d d' : Schema S)
      → migrate run link d ≡ (none, d')
      → IsReady later names
      → link.names ≡ later.names
      → Applies run link (sort_names names) d d' × (migrate run later d' ≡ (none, d'))
  migrate-Applies_once link later names d d' h ready same =
      let (found, listed, files) = names_of run link d d' h in
      let equal : found ≡ names = ground (arith, ready.listed) in
      let steps =
        subst (λ n. Applies run link (sort_names n) d d') equal
          (migrate_files_ok run link (sort_names found) d d' files) in
      (steps, migrate_again later names d' ready (All-applied run link steps))
