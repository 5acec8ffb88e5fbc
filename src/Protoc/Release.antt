-- ===== src/Protoc/Release.antt =====
-- tools/protoc/main.go: the pinned releases, the download, and the paths of an archive.
use Prim.Native.Char.{code}
use mathlib.Core.List.{reverse}
use empower_technical_interv.Prelude.{
  ℕ, Bool, true, false, ◌&&◌, ◌||◌, not, List, [], ◌∷◌, Option, none, some, String, str_eq,
  if◌then◌else◌, ◌==◌,
}
use empower_technical_interv.Prelude.Text.{split_at, ◌<>◌}
use empower_technical_interv.Errors.{Result, ok, err, ◌>>=◌, ◌>>◌, check}

-- checksums: the digests of a version, by asset.
abbrev pub digests_36_1 : List (String × String)
digests_36_1 =
    ("linux-x86_64", "c4bc672d9d49214dc8cafdceadf4df92182d6ca8e3ec65a56b2d7de5602669b4")
    ∷ ("linux-aarch_64", "237a68856edf1bd28b6204bddd0596c1cf46d298bc29c620012540b2e44c73e7")
    ∷ ("osx-x86_64", "ee2c5496e4af0aa6a224894bc0f7025145260e004d890487d510725ce8b473eb")
    ∷ ("osx-aarch_64", "de56d57afe30c5d191b11d24ff93dd4025728d7fb43b773886b2d3613e0bdbb2")
    ∷ []

abbrev pub find_key {ℓ} : {A : Type ℓ} → String → List (String × A) → Option A
find_key k [] = none
find_key k ((j, v) ∷ m) = let rest = find_key k m in if str_eq j k then some v else rest

abbrev pub checksums : List (String × List (String × String))
checksums = ("36.1", digests_36_1) ∷ []

-- assetName
unfoldable pub asset_name : String → String → Result String
asset_name goos goarch =
    elim (find_key {A = String} goos (("linux", "linux") ∷ ("darwin", "osx") ∷ [])) [
      | none ↦ err []
      | some os_name ↦
          elim (find_key {A = String} goarch (("amd64", "x86_64") ∷ ("arm64", "aarch_64") ∷ [])) [
            | none ↦ err []
            | some arch ↦ ok (os_name <> ("-" <> arch))
          ]
    ]

-- An entry of a zip file.
pub record Entry : Type 0 where
  pub name : String
  pub is_dir : Bool
  pub content : String

pub record Source : Type 0 where
  -- the response of the server: its status and its body, up to 64 MB
  pub fetch : String → Result (ℕ × String)
  pub sha256_hex : String → String
  pub entries : String → Result (List Entry)

-- The address of a release.
unfoldable pub release_url : String → String → String
release_url version asset =
    "https://github.com/protocolbuffers/protobuf/releases/download/v"
    <> (version <> ("/protoc-" <> (version <> ("-" <> (asset <> ".zip")))))

-- `digests[asset]`, with the zero value of a missing key.
abbrev pub digest_of : String → List (String × String) → String
digest_of asset digests = elim (find_key {A = String} asset digests) [ none ↦ "" | some d ↦ d ]

-- download
unfoldable pub download : Source → String → String → Result String
download s url want_sha = do
  response ← s.fetch url
  check (if response.0 == 200 then none else some []) []
  check (if str_eq (s.sha256_hex response.1) want_sha then none else some []) []
  ok response.1

-- filepath.Clean of a path, by its parts: those so far are a stack.
unfoldable pub clean_part : Bool → List String → String → List String
clean_part rooted [] part =
    if str_eq part "" || str_eq part "." || (str_eq part ".." && rooted) then [] else part ∷ []
clean_part rooted (top ∷ stack) part =
    if str_eq part "" || str_eq part "."
    then top ∷ stack
    else if str_eq part ".." && not (str_eq top "..")
    then stack
    else part ∷ top ∷ stack

unfoldable pub clean_parts : Bool → List String → List String → List String
clean_parts rooted stack [] = stack
clean_parts rooted stack (part ∷ parts) = clean_parts rooted (clean_part rooted stack part) parts

abbrev pub is_rooted : String → Bool
is_rooted String.[] = false
is_rooted (String.◌∷◌ c s) = code c == b'/'

unfoldable pub clean : String → List String
clean name = reverse (clean_parts (is_rooted name) [] (split_at b'/' name))

-- The two prefixes of unzip, `bin/` and `include/`, on the cleaned name.
unfoldable pub has_wanted_prefix : Bool → List String → Bool
has_wanted_prefix true parts = false
has_wanted_prefix false [] = false
has_wanted_prefix false (part ∷ []) = false
has_wanted_prefix false (part ∷ more ∷ parts) = str_eq part "bin" || str_eq part "include"

unfoldable pub is_wanted : String → Bool
is_wanted name = has_wanted_prefix (is_rooted name) (clean name)

-- filepath.Join of the directory, which is clean, and the cleaned name.
unfoldable pub join_target : Bool → List String → List String → List String
join_target rooted dir parts = reverse (clean_parts rooted (reverse dir) parts)

-- `strings.HasPrefix(target, dir + "/")` on the parts.
unfoldable pub lies_below : List String → List String → Bool
lies_below [] [] = false
lies_below [] (part ∷ parts) = true
lies_below (d ∷ dir) [] = false
lies_below (d ∷ dir) (part ∷ parts) = let rest = lies_below dir parts in str_eq d part && rest
