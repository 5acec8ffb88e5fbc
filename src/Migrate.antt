-- ===== src/Migrate.antt =====
-- internal/storage/migrate.go: the migrations. What a script does to the database is the parameter `run`,
-- over a state `S` of the database; what the connection reports is the parameter `Link`.
pub mod Once
use empower_technical_interv.Prelude.{
  ℕ, Bool, true, false, ◌||◌, ◌&&◌, List, [], ◌∷◌, ◌++◌, Option, none, some, if◌then◌else◌, String,
  str_eq, ltb, ◌==◌, ◌≡◌,
}
use empower_technical_interv.Prelude.Text.{bytes}
use empower_technical_interv.Errors.{Error, Result, ok, err}
use empower_technical_interv.Storage.Tables.{Commit, committed, refused, in_doubt}
use empower_technical_interv.Storage.Outbox.{contains_id}

-- Go's order of strings: by their bytes.
unfoldable pub leb_bytes : List ℕ → List ℕ → Bool
leb_bytes [] ys = true
leb_bytes (x ∷ xs) [] = false
leb_bytes (x ∷ xs) (y ∷ ys) = let rest = leb_bytes xs ys in ltb x y || (x == y && rest)

unfoldable pub insert_name : String → List String → List String
insert_name name [] = name ∷ []
insert_name name (other ∷ names) =
    let rest = insert_name name names in
    if leb_bytes (bytes name) (bytes other) then name ∷ other ∷ names else other ∷ rest

-- sort.Strings
unfoldable pub sort_names : List String → List String
sort_names [] = []
sort_names (name ∷ names) = insert_name name (sort_names names)

-- What the connection reports at each statement, and the embedded files. The files are `migrations/`
-- and the name, which path.Base takes off again.
pub record Link (Sql : Type 0) : Type 0 where
  pub acquire : Option Error
  pub lock : Option Error
  pub create_table : Option Error
  pub names : Result (List String)
  pub check_applied : String → Option Error
  pub read_file : String → Result Sql
  pub begin : String → Option Error
  pub note : String → Option Error
  pub commit : String → Commit

-- The rows of schema_migrations, and the rest of the database.
pub record Schema (S : Type 0) : Type 0 where
  pub applied : List String
  pub state : S

module _ {Sql S : Type 0} (run : Sql → S → Result S) (link : Link Sql) where
  -- The transaction of one file: the script, then its row.
  unfoldable pub apply_file : String → Sql → Schema S → Option Error × Schema S
  apply_file version sql d = elim (link.begin version) [
    | some e ↦ (some e, d)
    | none ↦ elim (run sql d.state) [
      | err e ↦ (some e, d)
      | ok state ↦ elim (link.note version) [
        | some e ↦ (some e, d)
        | none ↦
            let after : Schema S = record { applied = version ∷ d.applied; state = state } in
            elim (link.commit version) [
              | committed ↦ (none, after)
              | refused e ↦ (some e, d)
              | in_doubt e ↦ (some e, after)
            ]
      ]
    ]
  ]

  -- One round of the loop.
  unfoldable pub migrate_file : String → Schema S → Option Error × Schema S
  migrate_file version d = elim (link.check_applied version) [
    | some e ↦ (some e, d)
    | none ↦ if contains_id version d.applied then (none, d) else elim (link.read_file version) [
      | err e ↦ (some e, d)
      | ok sql ↦ apply_file version sql d
    ]
  ]

  unfoldable pub migrate_files : List String → Schema S → Option Error × Schema S
  migrate_files [] d = (none, d)
  migrate_files (version ∷ versions) d =
      let (failure, d') = migrate_file version d in
      let rest = migrate_files versions d' in elim failure [ some e ↦ (some e, d') | none ↦ rest ]

  -- Migrate; the unlock at the end is only logged.
  unfoldable pub migrate : Schema S → Option Error × Schema S
  migrate d = elim link.acquire [
    | some e ↦ (some e, d)
    | none ↦ elim link.lock [
      | some e ↦ (some e, d)
      | none ↦ elim link.create_table [
        | some e ↦ (some e, d)
        | none ↦ elim link.names [
          | err e ↦ (some e, d)
          | ok names ↦ migrate_files (sort_names names) d
        ]
      ]
    ]
  ]
