-- ===== src/Protoc/Progress.antt =====
-- The installer when everything works.
use empower_technical_interv.Prelude.{
  ℕ, ◌+◌, ◌≡◌, refl, sym, ap, subst, ◌∙◌, inl, inr, Bool, false, List, [], ◌∷◌, Option, none, some,
  String, str_eq, Bool-cases,
}
use empower_technical_interv.Errors.{Result, ok}
use empower_technical_interv.Protoc.Release.{
  Entry, Source, checksums, find_key, asset_name, release_url, digest_of, download, is_wanted,
  clean,
}
use empower_technical_interv.Protoc.{
  Dir, Dest, Outcome, works, Sys, returned, M, then_do, ◌>>=◌ as ◌>>>=◌, ◌>>◌ as ◌>>>>◌, lift,
  or_clean, dropping, op, perform, remove_versioned, remove_temp, remove_incomplete, extract_file,
  unzip_entry, unzip_from, rename_temp, fill, install, link, installed, run_versioned, run,
}
use empower_technical_interv.Protoc.Keeps.{IsAbsent}
use empower_technical_interv.Protoc.Paths.{no_entry_escapes}

-- The part of the program returns a value from any state in which `P` holds, and then `Q` holds.
abbrev Passes : {A : Type 0} → (Dest → Type 0) → M A → (Dest → Type 0) → Type 0
Passes {A} P m Q =
    (s : Sys) → P s.dest → (a : A) × ((s' : Sys) × (m s ≡ returned (ok a) s') × Q s'.dest)

abbrev Anything : Dest → Type 0
Anything d = Unit

-- The part of the program returns a value from any state.
abbrev pub Finishes : {A : Type 0} → M A → Type 0
Finishes {A} m = (s : Sys) → (a : A) × ((s' : Sys) × (m s ≡ returned (ok a) s'))

bind-Passes :
    {A B : Type 0} (m : M A) (f : A → M B) (P Q R : Dest → Type 0)
    → Passes P m Q
    → ((a : A) → Passes Q (f a) R)
    → Passes P (m >>>= f) R
bind-Passes m f P Q R h k s p =
    let (a, (s1, first, q)) = h s p in
    let (b, (s2, second, r)) = k a s1 q in (b, (s2, ap (λ r. then_do r f) first ∙ second, r))

module _ (oracle : ℕ → Outcome) (fine : (n : ℕ) → oracle n ≡ works) where
  op-Passes :
      (f : Dest → Dest) (P Q : Dest → Type 0)
      → ((d : Dest) → P d → Q (f d))
      → Passes P (op oracle f) Q
  unfolding op
  op-Passes f P Q h s p = (
    tt,
    (
      record { dest = f s.dest; step = s.step + 1 },
      ap (λ o. perform o f s) (fine s.step),
      h s.dest p,
    ),
  )

  -- An operation that does not touch the versioned directory.
  beside-Passes :
      (f : Dest → Dest)
      → ((d : Dest) → IsAbsent d → IsAbsent (f d))
      → Passes IsAbsent (op oracle f) IsAbsent
  beside-Passes f h = op-Passes f IsAbsent IsAbsent h

  extract_file-Passes :
      (p : List String) (c : String) → Passes IsAbsent (extract_file oracle p c) IsAbsent
  unfolding extract_file
  extract_file-Passes p c =
      bind-Passes _ _ IsAbsent IsAbsent IsAbsent
        (bind-Passes _ _ IsAbsent IsAbsent IsAbsent (beside-Passes _ (λ d gone. gone))
          (λ _. beside-Passes _ (λ d gone. gone)))
        (λ _. beside-Passes _ (λ d gone. gone))

  unzip_entry-Passes :
      (rooted : Bool) (dir : List String) (e : Entry)
      → Passes IsAbsent (unzip_entry oracle rooted dir e) IsAbsent
  unfolding unzip_entry
  unzip_entry-Passes rooted dir e s gone = elim (Bool-cases (is_wanted e.name)) [
    | inr other ↦ rw other (tt, (s, refl, gone))
    | inl wanted ↦
        let inside = no_entry_escapes rooted dir e.name wanted in
        elim (Bool-cases e.is_dir) [
          | inl folder ↦
              rw wanted (rw inside (rw folder (beside-Passes (λ d. d) (λ d h. h) s gone)))
          | inr file ↦
              rw wanted (rw inside (rw file (extract_file-Passes (clean e.name) e.content s gone)))
        ]
  ]

  unzip_from-Passes :
      (rooted : Bool) (dir : List String) (es : List Entry)
      → Passes IsAbsent (unzip_from oracle rooted dir es) IsAbsent
  unfolding unzip_from
  unzip_from-Passes rooted dir [] s gone = (tt, (s, refl, gone))
  unzip_from-Passes rooted dir (e ∷ es) s gone =
      bind-Passes _ _ IsAbsent IsAbsent IsAbsent (unzip_entry-Passes rooted dir e)
        (λ _. unzip_from-Passes rooted dir es) s gone

  -- The rename works because nothing is in its way.
  rename_temp-Passes : Passes IsAbsent (rename_temp oracle) Anything
  unfolding rename_temp
  rename_temp-Passes s gone =
      rw (gone, rename_temp) (op-Passes _ IsAbsent Anything (λ d h. tt) s gone)

  install-Passes :
      (rooted : Bool) (dir : List String) (es : List Entry)
      → Passes IsAbsent (install oracle rooted dir (ok es)) Anything
  unfolding install fill
  install-Passes rooted dir es =
      bind-Passes _ _ IsAbsent IsAbsent Anything
        (bind-Passes _ _ IsAbsent IsAbsent IsAbsent (beside-Passes _ (λ d gone. gone))
          (λ _. beside-Passes _ (λ d gone. gone)))
        (λ _ s gone.
          let (a, (s', ended, q)) =
            bind-Passes _ _ IsAbsent IsAbsent Anything
              (bind-Passes _ _ IsAbsent IsAbsent IsAbsent
                (bind-Passes _ _ IsAbsent IsAbsent IsAbsent (unzip_from-Passes rooted dir es)
                  (λ _. beside-Passes _ (λ d h. h)))
                (λ _. beside-Passes _ (λ d h. h)))
              (λ _. rename_temp-Passes) s gone in
          (a, (s', ap (λ r. or_clean r (remove_temp oracle)) ended, q)))

  link-Passes : Passes Anything (link oracle) Anything
  unfolding link
  link-Passes =
      bind-Passes _ _ Anything Anything Anything
        (λ s h.
          let (a, (s', ended, q)) = op-Passes _ Anything Anything (λ d h. tt) s h in
          (tt, (s', ap dropping ended, q)))
        (λ _. op-Passes _ Anything Anything (λ d h. tt))

  -- Afterwards there is no versioned directory, whatever was left of one.
  remove_incomplete-Passes :
      (v : Option Dir) → Passes (λ d. d.versioned ≡ v) (remove_incomplete oracle v) IsAbsent
  unfolding remove_incomplete remove_versioned
  remove_incomplete-Passes none s gone = (tt, (s, refl, gone))
  remove_incomplete-Passes (some old) s there =
      bind-Passes _ _ Anything Anything IsAbsent (op-Passes _ Anything Anything (λ d h. tt))
        (λ _. op-Passes _ Anything IsAbsent (λ d h. refl)) s tt

  download-Passes :
      (src : Source) (rooted : Bool) (dir : List String) (body : String) (entries : List Entry)
      (r : Result String)
      → r ≡ ok body
      → src.entries body ≡ ok entries
      → Passes IsAbsent
          (lift r >>>= λ archive. install oracle rooted dir (src.entries archive) >>>> link oracle)
          Anything
  download-Passes src rooted dir body entries r got read s gone = rw got (
      bind-Passes _ _ IsAbsent Anything Anything
        (subst (λ r. Passes IsAbsent (install oracle rooted dir r) Anything) (sym read)
          (install-Passes rooted dir entries))
        (λ _. link-Passes) s gone)

  run_versioned-Finishes :
      (src : Source) (rooted : Bool) (dir : List String) (url digest body : String)
      (entries : List Entry)
      → download src url digest ≡ ok body
      → src.entries body ≡ ok entries
      → Finishes (run_versioned oracle src rooted dir url digest)
  unfolding run_versioned
  run_versioned-Finishes src rooted dir url digest body entries got read s =
      elim (Bool-cases (installed s.dest.versioned)) [
        | inl complete ↦ let (a, (s', ended, q)) = link-Passes s tt in rw complete (a, (s', ended))
        | inr left ↦
            let (a, (s', ended, q)) =
              bind-Passes _ _ (λ d. d.versioned ≡ s.dest.versioned) IsAbsent Anything
                (remove_incomplete-Passes s.dest.versioned)
                (λ _. download-Passes src rooted dir body entries _ got read) s refl in
            rw left (a, (s', ended))
      ]

  -- If every operation works, the version and the platform are known, and the server has the archive
  -- with the recorded digest, then the installer returns without an error from any state, that after an
  -- interrupted install included.
  pub run-Finishes :
      (src : Source) (goos goarch version asset body : String) (rooted : Bool) (dir : List String)
      (digests : List (String × String)) (entries : List Entry)
      → str_eq version "" ≡ false
      → find_key version checksums ≡ some digests
      → asset_name goos goarch ≡ ok asset
      → download src (release_url version asset) (digest_of asset digests) ≡ ok body
      → src.entries body ≡ ok entries
      → Finishes (run oracle src goos goarch rooted dir version)
  unfolding run
  run-Finishes src goos goarch version asset body rooted dir digests entries given known named got
        read s =
      rw given (
        rw known (
          rw named (
            run_versioned-Finishes src rooted dir (release_url version asset)
              (digest_of asset digests) body entries got read s)))
