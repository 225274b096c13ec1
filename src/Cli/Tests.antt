-- ===== src/Cli/Tests.antt =====
-- The theorem on stored credentials at a concrete store and file system, for
-- crates/c6-cli/src/credential.rs.
use cresix.Base.{◌≡◌, List, [], ◌∷◌, Option, none, some, Result, ok, err, refl}
use cresix.Base.Map.{lookup, insert, remove}
use cresix.Base.Text.{Text, codes, text_key}
use cresix.Cli.StateFile.{
  StateError, io, other_kind, ensure_directory, replace_file, write_atomic, read_secure,
  validate_metadata,
}
use cresix.Cli.Credential.{
  Paths, CredentialStore, disk_of, empty_store, load, read_store, save, git_token, find_token,
  set_api_token, set_git_token, remove_git_token, retain_others,
}
use cresix.Cli.Stored.{StoreCall, set_api, set_git, remove_git, run_calls, Saved, stored_tokens}
use cresix.Cli.Memory.{
  put_api, get_api, put_git, get_git, encode, json, json-ReadsBack, Files, place, memory,
  memory-FileLaws,
}

abbrev paths : Paths
paths = record { directory = codes "/c6" }

-- The token of one project is set twice, that of another is removed again, and two servers have
-- an API token.
abbrev calls : List StoreCall
calls =
    set_git (codes "work") (codes "/a") (codes "old")
    ∷ set_api (codes "work") (codes "first")
    ∷ set_git (codes "work") (codes "/b") (codes "other")
    ∷ set_api (codes "home") (codes "second")
    ∷ set_git (codes "work") (codes "/a") (codes "new")
    ∷ remove_git (codes "work") (codes "/b")
    ∷ []

abbrev files : Files
files = (save memory json paths (run_calls calls empty_store) []).1

saves : (save memory json paths (run_calls calls empty_store) []).0 ≡ ok tt
unfolding save write_atomic ensure_directory replace_file validate_metadata put_api put_git
    set_api_token set_git_token remove_git_token retain_others lookup insert remove
saves = refl

-- The temporary file is gone.
left_over : lookup (codes "/c6/.credentials.json.7.tmp") files ≡ none
unfolding save write_atomic ensure_directory replace_file validate_metadata put_api put_git
    set_api_token set_git_token remove_git_token retain_others lookup insert remove
left_over = refl

abbrev load_token : Result StateError CredentialStore → Option Text
load_token (ok store) = git_token store (codes "work") (codes "/a")
load_token (err e) = none

loads_tokens : load_token (load memory json paths files) ≡ some (codes "new")
unfolding save write_atomic ensure_directory replace_file validate_metadata put_api put_git
    set_api_token set_git_token remove_git_token retain_others lookup insert remove load read_secure
    read_store get_api get_git git_token find_token
loads_tokens = refl

-- Where a file with the temporary name is there already, a save is refused.
abbrev crowded : Files
crowded =
    (codes "/c6", none)
    ∷ (codes "/c6/.credentials.json.7.tmp", some [])
    ∷ (place, some (encode (disk_of empty_store)))
    ∷ []

save_refused :
    (save memory json paths (run_calls calls empty_store) crowded).0
    ≡ err (io (codes "/c6/.credentials.json.7.tmp") other_kind)
unfolding save write_atomic ensure_directory replace_file validate_metadata put_api put_git
    set_api_token set_git_token remove_git_token retain_others lookup insert remove
save_refused = refl

stored_tokens_example :
    Saved memory json paths calls empty_store []
      (save memory json paths (run_calls calls empty_store) [])
stored_tokens_example =
    stored_tokens memory json paths calls empty_store [] memory-FileLaws json-ReadsBack
