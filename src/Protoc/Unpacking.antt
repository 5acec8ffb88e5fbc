-- ===== src/Protoc/Unpacking.antt =====
-- install: unpacking into the temporary directory, the mark and the rename.
use empower_technical_interv.Prelude.{
  ℕ, ◌≡◌, refl, ap, ◌∙◌, sym, subst, inl, inr, Bool, true, false, List, [], ◌∷◌, Option, none, some,
  String, if◌then◌else◌, or_else, Bool-cases,
}
use empower_technical_interv.Errors.{ok, err}
use empower_technical_interv.Protoc.Release.{Entry, is_wanted, clean, join_target, lies_below}
use empower_technical_interv.Protoc.{
  Dir, empty_dir, Dest, Outcome, ◌>>◌ as ◌>>>>◌, lift, in_temp, put_file, op, remove_temp,
  extract_file, unzip_entry, unzip_from, rename_temp, fill, install, installed,
}
use empower_technical_interv.Protoc.Keeps.{
  parts_eq, file_at, entry_content, archive_content, IsWhole, IsAbsent, Holds, Holds-same, Keeps,
  Safe, bind-Keeps, or_clean-Safe, absent-IsSound, Safe-mono, op-Keeps, IsInstalled,
}

module _ (entries : List Entry) (oracle : ℕ → Outcome) where
  abbrev HoldsProgram : Dest → Type 0
  HoldsProgram d = IsAbsent d × ((dir : Dir) × ((d.temp ≡ some dir) × IsWhole entries dir))

  -- An operation on the temporary directory.
  temp-Keeps :
      (f : Dir → Dir) (fs gs : List String → Option String)
      → ((dir : Dir)
          → ((path : List String) → file_at path dir.files ≡ fs path)
          → ((path : List String) → file_at path (f dir).files ≡ gs path))
      → Keeps entries (Holds fs) (op oracle (in_temp f)) (Holds gs)
  temp-Keeps f fs gs h =
      op-Keeps entries oracle (in_temp f) (Holds fs) (Holds gs)
        (λ d sound (gone, (dir, (there, files))). (
          absent-IsSound entries (in_temp f d) gone,
          (
            gone,
            (
              f dir,
              (
                ap (λ (t : Option Dir). elim t [ none ↦ none | some x ↦ some (f x) ]) there,
                h dir files,
              ),
            ),
          ),
        ))

  abbrev with_file :
      List String → String → (List String → Option String) → List String → Option String
  with_file p c fs path = if parts_eq p path then some c else fs path

  abbrev put : List String → String → Dir → Dir
  put p c dir = record dir { files = put_file p c dir.files }

  extract_file-Keeps :
      (p : List String) (c : String) (fs : List String → Option String)
      → Keeps entries (Holds fs) (extract_file oracle p c) (Holds (with_file p c fs))
  unfolding extract_file put_file
  extract_file-Keeps p c fs =
      bind-Keeps entries _ _ (Holds fs) (Holds (with_file p "" fs)) (Holds (with_file p c fs))
        (bind-Keeps entries _ _ (Holds fs) (Holds fs) (Holds (with_file p "" fs))
          (op-Keeps entries oracle (λ d. d) (Holds fs) (Holds fs) (λ d sound h. (sound, h)))
          (λ _.
            temp-Keeps (put p "") fs (with_file p "" fs)
              (λ dir files path. ap (λ o. if parts_eq p path then some "" else o) (files path))))
        (λ _. temp-Keeps (put p c) (with_file p "" fs) (with_file p c fs) (λ dir files path.
          elim (Bool-cases (parts_eq p path)) [
            | inl here ↦ rw here refl
            | inr other ↦ rw other (files path ∙ rw other refl)
          ]))

  -- The files after one more entry.
  abbrev with_entry : Entry → (List String → Option String) → List String → Option String
  with_entry e fs path = or_else (entry_content e path) (fs path)

  unzip_entry-Keeps :
      (rooted : Bool) (dir : List String) (e : Entry) (fs : List String → Option String)
      → Keeps entries (Holds fs) (unzip_entry oracle rooted dir e) (Holds (with_entry e fs))
  unfolding unzip_entry
  unzip_entry-Keeps rooted dir e fs s sound h = elim (Bool-cases (is_wanted e.name)) [
    | inr other ↦ rw other (sound, Holds-same fs (with_entry e fs) (λ path. rw other refl) s.dest h)
    | inl wanted ↦ elim (Bool-cases (lies_below dir (join_target rooted dir (clean e.name)))) [
      | inr outside ↦ rw wanted (rw outside sound)
      | inl inside ↦ elim (Bool-cases e.is_dir) [
        | inl folder ↦ rw wanted (
            rw inside (
              rw folder (
                op-Keeps entries oracle (λ d. d) (Holds fs)
                  (Holds (with_entry (record e { is_dir = true }) fs))
                  (λ d fine held. (
                    fine,
                    Holds-same fs (with_entry (record e { is_dir = true }) fs)
                        (λ path. rw wanted refl) d held,
                  ))
                  s sound h)))
        | inr file ↦ rw wanted (
            rw inside (
              rw file (
                Safe-mono entries (extract_file oracle (clean e.name) e.content s)
                  (Holds (with_file (clean e.name) e.content fs))
                  (Holds (with_entry (record e { is_dir = false }) fs))
                  (Holds-same (with_file (clean e.name) e.content fs)
                    (with_entry (record e { is_dir = false }) fs)
                    (λ path. elim (Bool-cases (parts_eq (clean e.name) path)) [
                      | inl here ↦ rw wanted (rw here refl)
                      | inr elsewhere ↦ rw wanted (rw elsewhere refl)
                    ]))
                  (extract_file-Keeps (clean e.name) e.content fs s sound h))))
      ]
    ]
  ]

  -- The files after the entries of a list, on top of those that are there.
  abbrev with_entries : List Entry → (List String → Option String) → List String → Option String
  with_entries es fs path = or_else (archive_content es path) (fs path)

  or_else_assoc : (a b c : Option String) → or_else a (or_else b c) ≡ or_else (or_else a b) c
  or_else_assoc none b c = refl
  or_else_assoc (some a) b c = refl

  unzip_from-Keeps :
      (rooted : Bool) (dir : List String) (es : List Entry) (fs : List String → Option String)
      → Keeps entries (Holds fs) (unzip_from oracle rooted dir es) (Holds (with_entries es fs))
  unfolding unzip_from
  unzip_from-Keeps rooted dir [] fs s sound h = (sound, h)
  unzip_from-Keeps rooted dir (e ∷ es) fs s sound h =
      Safe-mono entries (unzip_from oracle rooted dir (e ∷ es) s)
        (Holds (with_entries es (with_entry e fs))) (Holds (with_entries (e ∷ es) fs))
        (Holds-same (with_entries es (with_entry e fs)) (with_entries (e ∷ es) fs)
          (λ path. or_else_assoc (archive_content es path) (entry_content e path) (fs path)))
        (bind-Keeps entries _ _ (Holds fs) (Holds (with_entry e fs))
          (Holds (with_entries es (with_entry e fs))) (unzip_entry-Keeps rooted dir e fs)
          (λ _. unzip_from-Keeps rooted dir es (with_entry e fs)) s sound h)

  abbrev nothing : List String → Option String
  nothing path = none

  abbrev unpacked : List String → Option String
  unpacked = with_entries entries nothing

  or_none : (o : Option String) → or_else o none ≡ o
  or_none none = refl
  or_none (some c) = refl

  abbrev HoldsMarked : Dest → Type 0
  HoldsMarked d =
      IsAbsent d
      × ((dir : Dir) × ((d.temp ≡ some dir)
            × ((installed (some dir) ≡ true) × IsWhole entries dir)))

  abbrev change : (Dir → Dir) → Option Dir → Option Dir
  change f t = elim t [ none ↦ none | some x ↦ some (f x) ]

  chmod-Keeps :
      Keeps entries
        (Holds unpacked)
        (op oracle (in_temp (λ t. record t { executable = true })))
        HoldsProgram
  chmod-Keeps =
      op-Keeps entries oracle _ (Holds unpacked) HoldsProgram
        (λ d sound (gone, (dir, (there, files))). (
          absent-IsSound entries (in_temp (λ t. record t { executable = true }) d) gone,
          (
            gone,
            (
              record dir { executable = true },
              (
                ap (change (λ t. record t { executable = true })) there,
                (refl, λ path. files path ∙ or_none (archive_content entries path)),
              ),
            ),
          ),
        ))

  mark-Keeps :
      Keeps entries HoldsProgram (op oracle (in_temp (λ t. record t { marker = true }))) HoldsMarked
  unfolding installed
  mark-Keeps =
      op-Keeps entries oracle _ HoldsProgram HoldsMarked (λ d sound (gone, (dir, (there, whole))). (
        absent-IsSound entries (in_temp (λ t. record t { marker = true }) d) gone,
        (
          gone,
          (
            record dir { marker = true },
            (ap (change (λ t. record t { marker = true })) there, (refl, whole)),
          ),
        ),
      ))

  move-Keeps :
      Keeps entries HoldsMarked
        (op oracle (λ d. record d { versioned = d.temp; temp = none }))
        (IsInstalled entries)
  move-Keeps =
      op-Keeps entries oracle _ HoldsMarked (IsInstalled entries)
        (λ d sound (gone, (dir, (there, (marked, whole)))). (
          λ other same complete.
              let equal : dir ≡ other = cc in subst (IsWhole entries) equal whole,
          (dir, (there, (marked, whole))),
        ))

  -- There is no versioned directory, so the rename can work.
  rename-Keeps : Keeps entries HoldsMarked (rename_temp oracle) (IsInstalled entries)
  unfolding rename_temp
  rename-Keeps s sound held =
      let moving : rename_temp oracle s
          ≡ op oracle (λ d. record d { versioned = d.temp; temp = none }) s =
        ap
          (λ v. elim v [
            | none ↦ op oracle (λ d. record d { versioned = d.temp; temp = none }) s
            | some old ↦ (op oracle (λ d. d) >>>> lift (err [])) s
          ])
          held.0 in
      subst (Safe entries (IsInstalled entries)) (sym moving) (move-Keeps s sound held)

  fill-Keeps :
      (rooted : Bool) (dir : List String)
      → Keeps entries (Holds nothing) (fill oracle rooted dir (ok entries)) (IsInstalled entries)
  unfolding fill
  fill-Keeps rooted dir =
      bind-Keeps entries _ _ (Holds nothing) HoldsMarked (IsInstalled entries)
        (bind-Keeps entries _ _ (Holds nothing) HoldsProgram HoldsMarked
          (bind-Keeps entries _ _ (Holds nothing) (Holds unpacked) HoldsProgram
            (unzip_from-Keeps rooted dir entries nothing) (λ _. chmod-Keeps))
          (λ _. mark-Keeps))
        (λ _. rename-Keeps)

  -- Removing the temporary directory does not touch the versioned one.
  remove_temp-Keeps : Keeps entries (λ d. Unit {0}) (remove_temp oracle) (λ d. Unit {0})
  unfolding remove_temp
  remove_temp-Keeps =
      bind-Keeps entries _ _ (λ d. Unit {0}) (λ d. Unit {0}) (λ d. Unit {0})
        (op-Keeps entries oracle _ (λ d. Unit {0}) (λ d. Unit {0}) (λ d sound p. (sound, tt)))
        (λ _. op-Keeps entries oracle _ (λ d. Unit {0}) (λ d. Unit {0}) (λ d sound p. (sound, tt)))

  start_temp-Keeps :
      Keeps entries IsAbsent (op oracle (λ d. record d { temp = some empty_dir })) (Holds nothing)
  start_temp-Keeps =
      op-Keeps entries oracle _ IsAbsent (Holds nothing)
        (λ d sound gone. (sound, (gone, (empty_dir, (refl, λ path. refl)))))

  pub install-Keeps :
      (rooted : Bool) (dir : List String)
      → Keeps entries IsAbsent (install oracle rooted dir (ok entries)) (IsInstalled entries)
  unfolding install
  install-Keeps rooted dir =
      bind-Keeps entries _ _ IsAbsent (Holds nothing) (IsInstalled entries)
        (bind-Keeps entries _ _ IsAbsent IsAbsent (Holds nothing)
          (op-Keeps entries oracle (λ d. d) IsAbsent IsAbsent (λ d sound gone. (sound, gone)))
          (λ _. start_temp-Keeps))
        (λ _ s sound held.
          or_clean-Safe entries (fill oracle rooted dir (ok entries) s) (remove_temp oracle)
            (IsInstalled entries) (fill-Keeps rooted dir s sound held) remove_temp-Keeps)
