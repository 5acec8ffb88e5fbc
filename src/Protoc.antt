-- ===== src/Protoc.antt =====
-- tools/protoc/main.go: the installer, as operations on the directory that it installs into. Each
-- operation works, fails or is where the process is interrupted, as the parameter `oracle` says; the
-- download, the digest and the zip format are the parameter `Source`.
pub mod Release
pub mod Paths
pub mod Keeps
pub mod Unpacking
pub mod Safety
pub mod Progress
use empower_technical_interv.Prelude.{
  ℕ, ◌+◌, Bool, true, false, not, List, [], ◌∷◌, Option, none, some, String, str_eq, if◌then◌else◌,
}
use empower_technical_interv.Errors.{Error, Result, ok, err}
use empower_technical_interv.Protoc.Release.{
  Entry, Source, checksums, find_key, asset_name, release_url, digest_of, download, is_wanted,
  clean, join_target, lies_below,
}

-- The versioned directory, or the temporary one.
pub record Dir : Type 0 where
  pub files : List (List String × String)
  pub executable : Bool
  pub marker : Bool

abbrev pub empty_dir : Dir
empty_dir = record { files = []; executable = false; marker = false }

-- The directory that the installer works in, for one version.
pub record Dest : Type 0 where
  pub versioned : Option Dir
  pub temp : Option Dir
  pub linked : Bool

pub data Outcome : Type 0 where
  works : Outcome
  fails : Error → Outcome
  interrupted : Outcome

pub record Sys : Type 0 where
  pub dest : Dest
  pub step : ℕ

-- The process returns, or it is stopped and leaves the directory as it is.
pub data Ran (A : Type 0) : Type 0 where
  returned : Result A → Sys → Ran A
  stopped : Dest → Ran A

abbrev pub M : Type 0 → Type 0
M A = Sys → Ran A

abbrev pub then_do : {A B : Type 0} → Ran A → (A → M B) → Ran B
then_do (returned (ok a) s) f = f a s
then_do (returned (err e) s) f = returned (err e) s
then_do (stopped d) f = stopped d

infixl 5 ◌>>=◌ ◌>>◌
abbrev pub ◌>>=◌ : {A B : Type 0} → M A → (A → M B) → M B
◌>>=◌ m f s = then_do (m s) f

abbrev pub ◌>>◌ : {B : Type 0} → M (Unit {0}) → M B → M B
m >> k = m >>= λ done. k

abbrev pub lift : {A : Type 0} → Result A → M A
lift r s = returned r s

abbrev pub after_cleaning : {A : Type 0} → Error → Ran (Unit {0}) → Ran A
after_cleaning e (returned r s) = returned (err e) s
after_cleaning e (stopped d) = stopped d

-- A deferred removal: it runs on an error only, and its own errors are dropped.
abbrev pub or_clean : {A : Type 0} → Ran A → M (Unit {0}) → Ran A
or_clean (returned (ok a) s) clean_up = returned (ok a) s
or_clean (returned (err e) s) clean_up = after_cleaning e (clean_up s)
or_clean (stopped d) clean_up = stopped d

-- `_ = f()`
abbrev pub dropping : {A : Type 0} → Ran A → Ran (Unit {0})
dropping (returned r s) = returned (ok tt) s
dropping (stopped d) = stopped d

abbrev pub clear : Option Dir → Option Dir
clear none = none
clear (some dir) = some (record dir { files = [] })

abbrev pub in_temp : (Dir → Dir) → Dest → Dest
in_temp f d = record d { temp = elim d.temp [ none ↦ none | some dir ↦ some (f dir) ] }

-- os.OpenFile truncates, and io.Copy fills.
unfoldable pub put_file :
    List String → String → List (List String × String) → List (List String × String)
put_file path content files = (path, content) ∷ files

-- An operation that fails changes nothing.
abbrev pub perform : Outcome → (Dest → Dest) → M (Unit {0})
perform works f s = returned (ok tt) (record { dest = f s.dest; step = s.step + 1 })
perform (fails e) f s = returned (err e) (record s { step = s.step + 1 })
perform interrupted f s = stopped s.dest

unfoldable pub installed : Option Dir → Bool
installed none = false
installed (some dir) = dir.marker

module _ (oracle : ℕ → Outcome) where
  unfoldable pub op : (Dest → Dest) → M (Unit {0})
  op f s = perform (oracle s.step) f s

  -- os.RemoveAll, which takes the files first.
  unfoldable pub remove_versioned : M (Unit {0})
  remove_versioned =
      op (λ d. record d { versioned = clear d.versioned })
      >> op (λ d. record d { versioned = none })

  unfoldable pub remove_temp : M (Unit {0})
  remove_temp = op (λ d. record d { temp = clear d.temp }) >> op (λ d. record d { temp = none })

  -- extractFile
  unfoldable pub extract_file : List String → String → M (Unit {0})
  extract_file target content =
      op (λ d. d)
      >> op (in_temp (λ dir. record dir { files = put_file target "" dir.files }))
      >> op (in_temp (λ dir. record dir { files = put_file target content dir.files }))

  -- One entry of the loop of unzip. Only the part of a target below the directory is kept.
  unfoldable pub unzip_entry : Bool → List String → Entry → M (Unit {0})
  unzip_entry rooted dir e =
      if not (is_wanted e.name)
      then lift (ok tt)
      else if not (lies_below dir (join_target rooted dir (clean e.name)))
      then lift (err [])
      else if e.is_dir
      then op (λ d. d)
      else extract_file (clean e.name) e.content

  unfoldable pub unzip_from : Bool → List String → List Entry → M (Unit {0})
  unzip_from rooted dir [] = lift (ok tt)
  unzip_from rooted dir (e ∷ es) = unzip_entry rooted dir e >> unzip_from rooted dir es

  -- os.Rename of the temporary directory, which fails if the versioned one exists.
  unfoldable pub rename_temp : M (Unit {0})
  rename_temp s = elim s.dest.versioned [
    | none ↦ op (λ d. record d { versioned = d.temp; temp = none }) s
    | some old ↦ (op (λ d. d) >> lift (err [])) s
  ]

  -- What install does in the temporary directory, the rename included.
  unfoldable pub fill : Bool → List String → Result (List Entry) → M (Unit {0})
  fill rooted dir read = lift read >>= λ entries.
      unzip_from rooted dir entries
      >> op (in_temp (λ t. record t { executable = true }))
      >> op (in_temp (λ t. record t { marker = true }))
      >> rename_temp

  unfoldable pub install : Bool → List String → Result (List Entry) → M (Unit {0})
  install rooted dir read = op (λ d. d) >> op (λ d. record d { temp = some empty_dir }) >> λ s.
      or_clean (fill rooted dir read s) remove_temp

  unfoldable pub link : M (Unit {0})
  link =
      (λ s. dropping (op (λ d. record d { linked = false }) s))
      >> op (λ d. record d { linked = true })

  -- What is left over from an interrupted install is removed.
  unfoldable pub remove_incomplete : Option Dir → M (Unit {0})
  remove_incomplete none = lift (ok tt)
  remove_incomplete (some old) = remove_versioned

  -- The part of run from the test on, for the archive of a URL and its digest.
  unfoldable pub run_versioned : Source → Bool → List String → String → String → M (Unit {0})
  run_versioned src rooted dir url want_sha s =
      if installed s.dest.versioned
      then link s
      else (remove_incomplete s.dest.versioned
            >> (lift (download src url want_sha) >>= λ archive.
                install rooted dir (src.entries archive) >> link))
          s

  -- run; the directory of the temporary files is `dir`, by its parts.
  unfoldable pub run : Source → String → String → Bool → List String → String → M (Unit {0})
  run src goos goarch rooted dir version =
      if str_eq version "" then lift (err []) else elim (find_key version checksums) [
        | none ↦ lift (err [])
        | some digests ↦ lift (asset_name goos goarch) >>= λ asset.
            run_versioned src rooted dir (release_url version asset) (digest_of asset digests)
      ]
