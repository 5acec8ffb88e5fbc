-- ===== src/Protoc/Keeps.antt =====
-- What the installer keeps: the specification of a versioned directory, and what it takes for a part of
-- the installer to keep it at every failure and every interruption.
use empower_technical_interv.Prelude.{
  ℕ, ◌≡◌, ◌∙◌, Bool, true, false, ◌&&◌, not, List, [], ◌∷◌, Option, none, some, String, str_eq,
  if◌then◌else◌, or_else,
}
use empower_technical_interv.Errors.{Error, ok, err}
use empower_technical_interv.Protoc.Release.{Entry, is_wanted, clean}
use empower_technical_interv.Protoc.{
  Dir, Dest, Outcome, works, fails, interrupted, Sys, Ran, returned, stopped, M, then_do,
  ◌>>=◌ as ◌>>>=◌, or_clean, dropping, op, installed, perform, after_cleaning,
}

abbrev pub parts_eq : List String → List String → Bool
parts_eq [] [] = true
parts_eq [] (q ∷ qs) = false
parts_eq (p ∷ ps) [] = false
parts_eq (p ∷ ps) (q ∷ qs) = let rest = parts_eq ps qs in if str_eq p q then rest else false

-- What a directory has at a path.
abbrev pub file_at : List String → List (List String × String) → Option String
file_at path [] = none
file_at path ((p, c) ∷ files) =
    let rest = file_at path files in if parts_eq p path then some c else rest

-- What an entry of the archive puts at a path.
abbrev pub entry_content : Entry → List String → Option String
entry_content e path =
    if is_wanted e.name && (not e.is_dir && parts_eq (clean e.name) path)
    then some e.content
    else none

-- The file of an archive at a path: its last entry under bin/ or include/ there.
abbrev pub archive_content : List Entry → List String → Option String
archive_content [] path = none
archive_content (e ∷ es) path = or_else (archive_content es path) (entry_content e path)

-- A directory with all the files of the archive, and a protoc that can be run.
abbrev pub IsWhole : List Entry → Dir → Type 0
IsWhole entries dir =
    (dir.executable ≡ true)
    × ((path : List String) → file_at path dir.files ≡ archive_content entries path)

-- A versioned directory that counts as installed is whole.
abbrev pub IsSound : List Entry → Dest → Type 0
IsSound entries d =
    (dir : Dir) → d.versioned ≡ some dir → installed (some dir) ≡ true → IsWhole entries dir

-- Nothing counts as installed.
abbrev pub IsAbsent : Dest → Type 0
IsAbsent d = d.versioned ≡ none

-- The temporary directory has these files, and there is no versioned one.
abbrev pub Holds : (List String → Option String) → Dest → Type 0
Holds fs d =
    IsAbsent d
    × ((dir : Dir) × ((d.temp ≡ some dir)
          × ((path : List String) → file_at path dir.files ≡ fs path)))

pub Holds-same :
    (fs gs : List String → Option String)
    → ((path : List String) → fs path ≡ gs path)
    → (d : Dest) → Holds fs d
    → Holds gs d
Holds-same fs gs same d (gone, (dir, (there, files))) =
    (gone, (dir, (there, λ path. files path ∙ same path)))

module _ (entries : List Entry) where
  -- Whatever happens, the directory is sound, and if the part works, `Q` holds after it.
  abbrev pub Safe : {A : Type 0} → (Dest → Type 0) → Ran A → Type 0
  Safe Q (returned (ok a) s) = IsSound entries s.dest × Q s.dest
  Safe Q (returned (err e) s) = IsSound entries s.dest
  Safe Q (stopped d) = IsSound entries d

  abbrev pub Keeps : {A : Type 0} → (Dest → Type 0) → M A → (Dest → Type 0) → Type 0
  Keeps P m Q = (s : Sys) → IsSound entries s.dest → P s.dest → Safe Q (m s)

  pub then_do-Safe :
      {A B : Type 0} (r : Ran A) (f : A → M B) (Q R : Dest → Type 0)
      → Safe Q r
      → ((a : A) → Keeps Q (f a) R)
      → Safe R (then_do r f)
  then_do-Safe (returned (ok a) s) f Q R h k = k a s h.0 h.1
  then_do-Safe (returned (err e) s) f Q R h k = h
  then_do-Safe (stopped d) f Q R h k = h

  pub bind-Keeps :
      {A B : Type 0} (m : M A) (f : A → M B) (P Q R : Dest → Type 0)
      → Keeps P m Q
      → ((a : A) → Keeps Q (f a) R)
      → Keeps P (m >>>= f) R
  bind-Keeps m f P Q R h k s sound p = then_do-Safe (m s) f Q R (h s sound p) k

  after_cleaning-Safe :
      (A : Type 0) (e : Error) (r : Ran (Unit {0})) (Q : Dest → Type 0)
      → Safe (λ d. Unit {0}) r
      → Safe Q (after_cleaning {A = A} e r)
  after_cleaning-Safe A e (returned (ok a) s) Q h = h.0
  after_cleaning-Safe A e (returned (err f) s) Q h = h
  after_cleaning-Safe A e (stopped d) Q h = h

  pub or_clean-Safe :
      {A : Type 0} (r : Ran A) (m : M (Unit {0})) (Q : Dest → Type 0)
      → Safe Q r
      → Keeps (λ d. Unit {0}) m (λ d. Unit {0})
      → Safe Q (or_clean r m)
  or_clean-Safe {A} (returned (ok a) s) m Q h k = h
  or_clean-Safe {A} (returned (err e) s) m Q h k = after_cleaning-Safe A e (m s) Q (k s h tt)
  or_clean-Safe {A} (stopped d) m Q h k = h

  perform-Safe :
      (o : Outcome) (f : Dest → Dest) (s : Sys) (Q : Dest → Type 0)
      → IsSound entries s.dest
      → IsSound entries (f s.dest) × Q (f s.dest)
      → Safe Q (perform o f s)
  perform-Safe works f s Q sound h = h
  perform-Safe (fails e) f s Q sound h = sound
  perform-Safe interrupted f s Q sound h = sound

  -- An operation whose error is dropped.
  pub dropping-Safe :
      (o : Outcome) (f : Dest → Dest) (s : Sys) (Q : Dest → Type 0)
      → IsSound entries s.dest
      → Q s.dest
      → IsSound entries (f s.dest) × Q (f s.dest)
      → Safe Q (dropping (perform o f s))
  dropping-Safe works f s Q sound q h = h
  dropping-Safe (fails e) f s Q sound q h = (sound, q)
  dropping-Safe interrupted f s Q sound q h = sound

  pub absent-IsSound : (d : Dest) → IsAbsent d → IsSound entries d
  absent-IsSound d gone dir there = absurd (cc)

  pub Safe-mono :
      {A : Type 0} (r : Ran A) (Q R : Dest → Type 0)
      → ((d : Dest) → Q d → R d)
      → Safe Q r
      → Safe R r
  Safe-mono (returned (ok a) s) Q R f h = (h.0, f s.dest h.1)
  Safe-mono (returned (err e) s) Q R f h = h
  Safe-mono (stopped d) Q R f h = h

  abbrev pub IsInstalled : Dest → Type 0
  IsInstalled d =
      (dir : Dir) × ((d.versioned ≡ some dir)
        × ((installed (some dir) ≡ true) × IsWhole entries dir))

  module _ (oracle : ℕ → Outcome) where
    pub op-Keeps :
        (f : Dest → Dest) (P Q : Dest → Type 0)
        → ((d : Dest) → IsSound entries d → P d → IsSound entries (f d) × Q (f d))
        → Keeps P (op oracle f) Q
    unfolding op
    op-Keeps f P Q h s sound p = perform-Safe (oracle s.step) f s Q sound (h s.dest sound p)
