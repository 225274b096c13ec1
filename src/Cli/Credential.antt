-- ===== src/Cli/Credential.antt =====
-- crates/c6-cli/src/credential.rs: the store of API and git tokens, and its file. The JSON
-- package is a parameter. A `BTreeMap` is an association list that is only looked up by key.
use cresix.Base.{
  ℕ, List, [], ◌∷◌, ◌++◌, Bool, true, false, not, ◌&&◌, ◌||◌, ◌==◌, Option, none, some, Result, ok,
  err, ◌>>=◌, ◌>>◌, fail_if, if◌then◌else◌, length, map,
}
use cresix.Base.Map.{lookup, insert, remove}
use cresix.Base.Text.{Text, codes, text_eq, text_key}
use cresix.Cli.StateFile.{FileSystem, StateError, invalid, join, read_secure, write_atomic}

-- A `Secret` is its text.
pub record GitCredential : Type 0 where
  pub server : Text
  pub path : Text
  pub token : Text

pub record CredentialStore : Type 0 where
  pub api : List (Text × Text)
  pub git : List GitCredential

pub record DiskGit : Type 0 where
  pub server : Text
  pub path : Text
  pub token : Text

pub record DiskStore : Type 0 where
  pub version : ℕ
  pub api : List (Text × Text)
  pub git : List DiskGit

abbrev pub empty_store : CredentialStore
empty_store = record { api = []; git = [] }

abbrev pub of_disk : DiskGit → GitCredential
of_disk v = record { server = v.server; path = v.path; token = v.token }

abbrev pub to_disk : GitCredential → DiskGit
to_disk v = record { server = v.server; path = v.path; token = v.token }

abbrev pub or_invalid {ℓ} : {A : Type ℓ} → Result Text A → Result StateError A
or_invalid (ok a) = ok a
or_invalid (err message) = err (invalid message)

-- serde_json
pub record Json : Type 0 where
  pub from_slice : Text → Result Text DiskStore
  pub to_vec : DiskStore → Result Text Text

pub record Paths : Type 0 where
  pub directory : Text

-- `Paths::credentials`
abbrev pub credentials : Paths → Text
credentials paths = join paths.directory (codes "credentials.json")

unfoldable pub read_store : Json → Option Text → Result StateError CredentialStore
read_store json none = ok empty_store
read_store json (some bytes) = do
  disk ← or_invalid (json.from_slice bytes)
  fail_if (not (disk.version == 1)) (invalid (codes "unsupported credential store version"))
  ok (record { api = disk.api; git = map of_disk disk.git })

unfoldable pub load :
    {F : Type 0} → FileSystem F → Json → Paths → F → Result StateError CredentialStore
load fs json paths files = do
  bytes ← read_secure fs files (credentials paths)
  read_store json bytes

abbrev pub disk_of : CredentialStore → DiskStore
disk_of store = record { version = 1; api = store.api; git = map to_disk store.git }

-- What follows on `serde_json::to_vec`.
abbrev pub write_bytes :
    {F : Type 0}
    → FileSystem F
    → Text
    → Result StateError Text
    → F
    → Result StateError (Unit {0}) × F
write_bytes fs path (ok bytes) files = write_atomic fs path bytes files
write_bytes fs path (err e) files = (err e, files)

unfoldable pub save :
    {F : Type 0}
    → FileSystem F
    → Json
    → Paths
    → CredentialStore
    → F
    → Result StateError (Unit {0}) × F
save fs json paths store =
    write_bytes fs (credentials paths) (or_invalid (json.to_vec (disk_of store)))

unfoldable pub api_token : CredentialStore → Text → Option Text
api_token store server = lookup server store.api

unfoldable pub set_api_token : Text → Text → CredentialStore → CredentialStore
set_api_token server token store = record store { api = insert server token store.api }

abbrev is_present : Option Text → Bool
is_present none = false
is_present (some token) = true

unfoldable pub remove_api_token : Text → CredentialStore → CredentialStore × Bool
remove_api_token server store =
    (record store { api = remove server store.api }, is_present (lookup server store.api))

abbrev pub is_for : Text → Text → GitCredential → Bool
is_for server path v = text_eq v.server server && text_eq v.path path

unfoldable pub find_token : Text → Text → List GitCredential → Option Text
find_token server path [] = none
find_token server path (v ∷ git) =
    if is_for server path v then some v.token else find_token server path git

unfoldable pub git_token : CredentialStore → Text → Text → Option Text
git_token store server path = find_token server path store.git

unfoldable pub retain_others : Text → Text → List GitCredential → List GitCredential
retain_others server path [] = []
retain_others server path (v ∷ git) =
    let rest = retain_others server path git in
    if not (text_eq v.server server) || not (text_eq v.path path) then v ∷ rest else rest

unfoldable pub set_git_token : Text → Text → Text → CredentialStore → CredentialStore
set_git_token server path token store = record store {
  git =
      retain_others server path store.git
      ++ (record { server = server; path = path; token = token } ∷ []);
}

unfoldable pub remove_git_token : Text → Text → CredentialStore → CredentialStore × Bool
remove_git_token server path store =
    let git = retain_others server path store.git in
    (record store { git = git }, not (length store.git == length git))
