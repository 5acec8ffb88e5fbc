-- ===== src/Protoc/Safety.antt =====
-- The installer at every failure and every interruption.
use empower_technical_interv.Prelude.{
  ℕ, ◌≡◌, refl, sym, ap, ◌∙◌, subst, inl, inr, Bool, true, false, List, Option, none, some, String,
  str_eq, arith, Bool-cases, Option-cases,
}
use empower_technical_interv.Errors.{Result, ok, err}
use empower_technical_interv.Errors.Chain.{Result-cases}
use empower_technical_interv.Protoc.Release.{
  Entry, Source, checksums, find_key, asset_name, release_url, digest_of, download,
}
use empower_technical_interv.Protoc.{
  Dir, Dest, Outcome, ◌>>=◌ as ◌>>>=◌, ◌>>◌ as ◌>>>>◌, lift, clear, op, remove_versioned, install,
  link, installed, remove_incomplete, run_versioned, run,
}
use empower_technical_interv.Protoc.Keeps.{
  IsWhole, IsSound, IsAbsent, Keeps, bind-Keeps, dropping-Safe, op-Keeps, IsInstalled,
}
use empower_technical_interv.Protoc.Unpacking.{install-Keeps}

module _ (entries : List Entry) (oracle : ℕ → Outcome) where
  -- The link does not touch the versioned directory.
  abbrev pub IsLinked : Dest → Type 0
  IsLinked d = IsInstalled entries d × (d.linked ≡ true)

  link-Keeps : Keeps entries (IsInstalled entries) (link oracle) IsLinked
  unfolding link op
  link-Keeps =
      bind-Keeps entries _ _ (IsInstalled entries) (IsInstalled entries) IsLinked
        (λ s sound there.
          dropping-Safe entries (oracle s.step) (λ d. record d { linked = false }) s
            (IsInstalled entries) sound there (sound, there))
        (λ _.
          op-Keeps entries oracle _ (IsInstalled entries) IsLinked
            (λ d sound there. (sound, (there, refl))))

  -- An incomplete versioned directory is removed, and never counts as installed while it is.
  abbrev IsLeftOver : Dest → Type 0
  IsLeftOver d = installed d.versioned ≡ false

  clearing :
      (v : Option Dir)
      → installed v ≡ false
      → ((dir : Dir) → clear v ≡ some dir → installed (some dir) ≡ true → IsWhole entries dir)
        × (installed (clear v) ≡ false)
  unfolding installed
  clearing none left = (λ dir there. absurd (cc), refl)
  clearing (some old) left = (λ dir there complete. absurd (ground arith), left)

  remove_versioned-Keeps : Keeps entries IsLeftOver (remove_versioned oracle) IsAbsent
  unfolding remove_versioned installed
  remove_versioned-Keeps =
      bind-Keeps entries _ _ IsLeftOver IsLeftOver IsAbsent
        (op-Keeps entries oracle (λ d. record d { versioned = clear d.versioned }) IsLeftOver
          IsLeftOver (λ d sound left. clearing d.versioned left))
        (λ _.
          op-Keeps entries oracle (λ d. record d { versioned = none }) IsLeftOver IsAbsent
            (λ d sound left. (λ dir there. absurd (cc), refl)))

  remove_incomplete-Keeps :
      (v : Option Dir)
      → installed v ≡ false
      → Keeps entries (λ d. d.versioned ≡ v) (remove_incomplete oracle v) IsAbsent
  unfolding remove_incomplete
  remove_incomplete-Keeps none left s sound same = (sound, same)
  remove_incomplete-Keeps (some old) left s sound same =
      remove_versioned-Keeps s sound (ap installed same ∙ left)

  -- The archive with the digest is the one that has these entries.
  abbrev pub IsPinned : Source → String → Type 0
  IsPinned src digest =
      (body : String) → str_eq (src.sha256_hex body) digest ≡ true → src.entries body ≡ ok entries

  installed-IsInstalled :
      (d : Dest) → IsSound entries d → installed d.versioned ≡ true → IsInstalled entries d
  unfolding installed
  installed-IsInstalled d sound complete = elim (Option-cases d.versioned) [
    | inl gone ↦ absurd (ground arith)
    | inr (dir, there) ↦
        let marked : installed (some dir) ≡ true = sym (ap installed there) ∙ complete in
        (dir, (there, (marked, sound dir there marked)))
  ]

  download_digest :
      (src : Source) (url digest archive : String)
      → download src url digest ≡ ok archive
      → str_eq (src.sha256_hex archive) digest ≡ true
  unfolding download
  download_digest src url digest archive h = ground arith

  -- Downloading, installing and linking.
  fetch-Keeps :
      (src : Source) (rooted : Bool) (dir : List String) (url digest : String)
      → IsPinned src digest
      → (r : Result String)
      → ((archive : String) → r ≡ ok archive → str_eq (src.sha256_hex archive) digest ≡ true)
      → Keeps entries IsAbsent
          (lift r >>>= λ archive. install oracle rooted dir (src.entries archive) >>>> link oracle)
          IsLinked
  fetch-Keeps src rooted dir url digest pinned (err e) good s sound gone = sound
  fetch-Keeps src rooted dir url digest pinned (ok archive) good s sound gone =
      let read = pinned archive (good archive refl) in
      bind-Keeps entries _ _ IsAbsent (IsInstalled entries) IsLinked
        (subst (λ r. Keeps entries IsAbsent (install oracle rooted dir r) (IsInstalled entries))
          (sym read) (install-Keeps entries oracle rooted dir))
        (λ _. link-Keeps) s sound gone

  run_versioned-Keeps :
      (src : Source) (rooted : Bool) (dir : List String) (url digest : String)
      → IsPinned src digest
      → Keeps entries (λ d. Unit {0}) (run_versioned oracle src rooted dir url digest) IsLinked
  unfolding run_versioned
  run_versioned-Keeps src rooted dir url digest pinned s sound p =
      elim (Bool-cases (installed s.dest.versioned)) [
        | inl complete ↦
            rw complete (link-Keeps s sound (installed-IsInstalled s.dest sound complete))
        | inr left ↦ rw left (
            bind-Keeps entries _ _ (λ d. d.versioned ≡ s.dest.versioned) IsAbsent IsLinked
              (remove_incomplete-Keeps s.dest.versioned left)
              (λ _.
                fetch-Keeps src rooted dir url digest pinned (download src url digest)
                  (λ archive. download_digest src url digest archive))
              s sound refl)
      ]

  -- The archive of the version for the platform is the one with these entries.
  abbrev pub PinsPlatform : Source → String → String → String → Type 0
  PinsPlatform src goos goarch version =
      (asset : String) (digests : List (String × String))
      → asset_name goos goarch ≡ ok asset
      → find_key version checksums ≡ some digests
      → IsPinned src (digest_of asset digests)

  -- Whatever the platform, the version and the server, and wherever an operation fails or the process
  -- is interrupted, the installer keeps this: a versioned directory that counts as installed is whole.
  -- It has every file of the archive under bin/ and include/, as the last entry for its path has it, and
  -- no other, and its protoc can be run. If the installer returns without an error, such a directory
  -- is there and is linked. An archive with the digest that is recorded for the platform is taken
  -- to be the one with the entries.
  pub run_is_safe :
      (src : Source) (goos goarch version : String) (rooted : Bool) (dir : List String)
      → PinsPlatform src goos goarch version
      → Keeps entries (λ d. Unit {0}) (run oracle src goos goarch rooted dir version) IsLinked
  unfolding run
  run_is_safe src goos goarch version rooted dir pinned s sound p =
      elim (Bool-cases (str_eq version "")) [
        | inl missing ↦ rw missing sound
        | inr given ↦ elim (Option-cases (find_key version checksums)) [
          | inl unknown ↦ rw given (rw unknown sound)
          | inr (digests, known) ↦ elim (Result-cases (asset_name goos goarch)) [
            | inr (e, foreign) ↦ rw given (rw known (rw foreign sound))
            | inl (asset, named) ↦ rw given (
                rw known (
                  rw named (
                    run_versioned-Keeps src rooted dir (release_url version asset)
                      (digest_of asset digests) (pinned asset digests named known) s sound tt)))
          ]
        ]
      ]
