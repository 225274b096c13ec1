-- ===== src/Cli/Stored.antt =====
-- What crates/c6-cli/src/credential.rs finds in a store after any calls on it and a round through
-- its file.
use cresix.Base.{
  sym, List, [], ◌∷◌, ◌++◌, false, ◌&&◌, ◌≡◌, Option, none, some, Result, ok, err, if◌then◌else◌,
  map, arith, refl, ap, ◌∙◌, Bool-cases, Result-cases, ◌⊎◌, inl, inr,
}
use cresix.Base.Map.{lookup, lookup-insert, lookup-remove}
use cresix.Base.Text.{Text, text_eq, text_key}
use cresix.Cli.StateFile.{FileSystem, StateError, read_secure, write_atomic}
use cresix.Cli.Progress.{Works, write_atomic-ok}
use cresix.Cli.Atomic.{FileLaws, SameAt, SameAt-read, Holds, Ends, write_atomic-Ends}
use cresix.Cli.Credential.{
  CredentialStore, GitCredential, DiskStore, Json, Paths, credentials, load, read_store, save,
  disk_of, of_disk, to_disk, api_token, set_api_token, remove_api_token, find_token, git_token,
  retain_others, set_git_token, remove_git_token, is_for, or_invalid,
}

pub data StoreCall : Type 0 where
  set_api : Text → Text → StoreCall
  remove_api : Text → StoreCall
  set_git : Text → Text → Text → StoreCall
  remove_git : Text → Text → StoreCall

abbrev pub call : StoreCall → CredentialStore → CredentialStore
call (set_api server token) store = set_api_token server token store
call (remove_api server) store = (remove_api_token server store).0
call (set_git server path token) store = set_git_token server path token store
call (remove_git server path) store = (remove_git_token server path store).0

abbrev pub run_calls : List StoreCall → CredentialStore → CredentialStore
run_calls [] store = store
run_calls (c ∷ calls) store = run_calls calls (call c store)

-- The token of a server and a path, as what the last call on exactly these has written.
abbrev pub git_after : Text → Text → StoreCall → Option Text → Option Text
git_after server path (set_api s token) now = now
git_after server path (remove_api s) now = now
git_after server path (set_git s p token) now =
    if text_eq s server && text_eq p path then some token else now
git_after server path (remove_git s p) now =
    if text_eq s server && text_eq p path then none else now

abbrev pub api_after : Text → StoreCall → Option Text → Option Text
api_after server (set_api s token) now = if text_eq s server then some token else now
api_after server (remove_api s) now = if text_eq s server then none else now
api_after server (set_git s p token) now = now
api_after server (remove_git s p) now = now

abbrev pub git_written : Text → Text → List StoreCall → Option Text → Option Text
git_written server path [] now = now
git_written server path (c ∷ calls) now =
    git_written server path calls (git_after server path c now)

abbrev pub api_written : Text → List StoreCall → Option Text → Option Text
api_written server [] now = now
api_written server (c ∷ calls) now = api_written server calls (api_after server c now)

find-retain :
    (server path s p : Text) (git : List GitCredential)
    → find_token server path (retain_others s p git)
      ≡ (if text_eq s server && text_eq p path then none else find_token server path git)
unfolding find_token retain_others
find-retain server path s p [] = ground arith
find-retain server path s p (v ∷ git) = ground (
  arith,
  find-retain server path s p git,
  text_key.beq_iff v.server s,
  text_key.beq_iff v.path p,
  text_key.beq_iff v.server server,
  text_key.beq_iff v.path path,
  text_key.beq_iff s server,
  text_key.beq_iff p path,
)

find-pushed :
    (server path : Text) (v : GitCredential) (git : List GitCredential)
    → find_token server path git ≡ none
    → find_token server path (git ++ (v ∷ []))
      ≡ (if is_for server path v then some v.token else none)
unfolding find_token
find-pushed server path v [] h = refl
find-pushed server path v (w ∷ git) h = ground (arith, find-pushed server path v git)

find-kept :
    (server path : Text) (v : GitCredential) (git : List GitCredential)
    → is_for server path v ≡ false
    → find_token server path (git ++ (v ∷ [])) ≡ find_token server path git
unfolding find_token
find-kept server path v [] h = ground arith
find-kept server path v (w ∷ git) h = ground (arith, find-kept server path v git h)

git_token-call :
    (server path : Text) (c : StoreCall) (store : CredentialStore)
    → git_token (call c store) server path ≡ git_after server path c (git_token store server path)
unfolding git_token set_api_token remove_api_token set_git_token remove_git_token
git_token-call server path (set_api s token) store = refl
git_token-call server path (remove_api s) store = refl
git_token-call server path (set_git s p token) store =
    let v : GitCredential = record { server = s; path = p; token = token } in
    elim (Bool-cases (text_eq s server && text_eq p path)) [
      | inl same ↦
          find-pushed server path v (retain_others s p store.git)
            (find-retain server path s p store.git ∙ ground (arith, same))
          ∙ ground (arith, same)
      | inr other ↦
          find-kept server path v (retain_others s p store.git) other
          ∙ (find-retain server path s p store.git ∙ ground (arith, other))
    ]
git_token-call server path (remove_git s p) store = find-retain server path s p store.git

api_token-call :
    (server : Text) (c : StoreCall) (store : CredentialStore)
    → api_token (call c store) server ≡ api_after server c (api_token store server)
unfolding api_token set_api_token remove_api_token set_git_token remove_git_token
api_token-call server (set_api s token) store = lookup-insert s server token store.api
api_token-call server (remove_api s) store = lookup-remove s server store.api
api_token-call server (set_git s p token) store = refl
api_token-call server (remove_git s p) store = refl

git_token-run :
    (server path : Text) (calls : List StoreCall) (store : CredentialStore)
    → git_token (run_calls calls store) server path
      ≡ git_written server path calls (git_token store server path)
git_token-run server path [] store = refl
git_token-run server path (c ∷ calls) store =
    git_token-run server path calls (call c store)
    ∙ ap (git_written server path calls) (git_token-call server path c store)

api_token-run :
    (server : Text) (calls : List StoreCall) (store : CredentialStore)
    → api_token (run_calls calls store) server ≡ api_written server calls (api_token store server)
api_token-run server [] store = refl
api_token-run server (c ∷ calls) store =
    api_token-run server calls (call c store)
    ∙ ap (api_written server calls) (api_token-call server c store)

disk_round : (git : List GitCredential) → map of_disk (map to_disk git) ≡ git
disk_round [] = refl
disk_round (v ∷ git) = ap (v ∷◌) (disk_round git)

-- The store tells what the calls wrote, over what another store told before them.
abbrev pub Tells : List StoreCall → CredentialStore → CredentialStore → Type 0
Tells calls store loaded =
    ((server path : Text)
      → git_token loaded server path ≡ git_written server path calls (git_token store server path))
    × ((server : Text)
        → api_token loaded server ≡ api_written server calls (api_token store server))

-- JSON text reads back with the version, the git tokens and, for each server, the API token that
-- was written.
abbrev pub ReadsBack : Json → Type 0
ReadsBack json =
    (disk : DiskStore) (bytes : Text)
    → json.to_vec disk ≡ ok bytes
    → (back : DiskStore) × (json.from_slice bytes ≡ ok back)
      × (back.version ≡ disk.version)
      × (back.git ≡ disk.git)
      × ((server : Text) → lookup server back.api ≡ lookup server disk.api)

well_formed : {A : Type 0} {a : A} (r : Result Text A) → or_invalid r ≡ ok a → r ≡ ok a
well_formed (ok b) h = ground arith
well_formed (err message) h = cc

-- What is read of the bytes of a store.
read_written :
    (json : Json) (store : CredentialStore) (bytes : Text)
    → ReadsBack json
    → or_invalid (json.to_vec (disk_of store)) ≡ ok bytes
    → (loaded : CredentialStore) × (read_store json (some bytes) ≡ ok loaded)
      × (loaded.git ≡ store.git)
      × ((server : Text) → lookup server loaded.api ≡ lookup server store.api)
unfolding read_store
read_written json store bytes reads h =
    let (back, read, version, git, api) =
      reads (disk_of store) bytes (well_formed (json.to_vec (disk_of store)) h) in
    (
      record { api = back.api; git = map of_disk back.git },
      rw (read, version) refl,
      ap (map of_disk) git ∙ disk_round store.git,
      api,
    )

abbrev err_of : (A : Type 0) → StateError → Result StateError A
err_of A e = err e

abbrev text_of : Text → Result StateError Text
text_of bytes = ok bytes

failed : {A : Type 0} {e : StateError} {a : A} → err_of A e ≡ ok a → ⊥
failed h = cc

text_inj : {a b : Text} → text_of a ≡ ok b → a ≡ b
text_inj h = cc

module _ {F : Type 0} (fs : FileSystem F) (json : Json) (paths : Paths) (calls : List StoreCall)
    (store : CredentialStore) where
  -- The file holds a store that tells this.
  abbrev pub Stored : F → Type 0
  Stored g =
      (loaded : CredentialStore) × (load fs json paths g ≡ ok loaded) × Tells calls store loaded

  -- The store has a JSON text, and nothing is in the way of writing it.
  abbrev pub CanSave : F → Type 0
  CanSave f =
      (bytes : Text) × (json.to_vec (disk_of (run_calls calls store)) ≡ ok bytes)
      × Works fs (credentials paths) bytes f

  -- How a save ends.
  abbrev pub Saved : F → Result StateError (Unit {0}) × F → Type 0
  Saved f (ok _, g) = Stored g
  Saved f (err e, g) = ¬ CanSave f × ((load fs json paths g ≡ load fs json paths f) ⊎ Stored g)

  holds-Stored :
      (bytes : Text) (g : F)
      → ReadsBack json
      → or_invalid (json.to_vec (disk_of (run_calls calls store))) ≡ ok bytes
      → read_secure fs g (credentials paths) ≡ ok (some bytes)
      → Stored g
  unfolding load git_token api_token
  holds-Stored bytes g reads text holds =
      let (loaded, read, git, api) = read_written json (run_calls calls store) bytes reads text in
      (
        loaded,
        rw holds read,
        (
          λ server path. ap (find_token server path) git ∙ git_token-run server path calls store,
          λ server. api server ∙ api_token-run server calls store,
        ),
      )

  ended-Saved :
      (bytes : Text) (f : F) (run : Result StateError (Unit {0}) × F)
      → ReadsBack json
      → or_invalid (json.to_vec (disk_of (run_calls calls store))) ≡ ok bytes
      → Ends fs
          (Holds fs (credentials paths) bytes)
          (λ g. SameAt fs (credentials paths) f g ⊎ Holds fs (credentials paths) bytes g)
          run
      → (CanSave f → run.0 ≡ ok tt)
      → Saved f run
  unfolding load
  ended-Saved bytes f (ok u, g) reads text holds works = holds-Stored bytes g reads text holds
  ended-Saved bytes f (err e, g) reads text (inl same) works =
      ((λ can. failed (works can)), inl (rw (SameAt-read fs (credentials paths) f g same) refl))
  ended-Saved bytes f (err e, g) reads text (inr holds) works =
      ((λ can. failed (works can)), inr (holds-Stored bytes g reads text holds))

-- A store that has gone through any calls and been saved is loaded again without an error, and it
-- has, for each server and path, exactly the token that the last call on these wrote, none when
-- that call removed it, and the token from before when there was no such call; likewise for the
-- API tokens of each server. A call for another path or server never shows. A save succeeds
-- where the store has a JSON text, the directory is there and safe, a file that is there is safe,
-- and the file operations succeed; one that fails leaves a file that is loaded as before it, or as
-- this store. This holds when JSON text reads back as what was written, on a file system with the
-- laws of Atomic.
pub stored_tokens :
    {F : Type 0} (fs : FileSystem F) (json : Json) (paths : Paths) (calls : List StoreCall)
    (store : CredentialStore) (f : F)
    → FileLaws fs
    → ReadsBack json
    → Saved fs json paths calls store f (save fs json paths (run_calls calls store) f)
unfolding save
stored_tokens fs json paths calls store f laws reads =
    elim (Result-cases (or_invalid (json.to_vec (disk_of (run_calls calls store))))) [
      | inr (e, bad) ↦
          rw bad ((λ (bytes, text, works). failed (sym bad ∙ ap or_invalid text)), inl refl)
      | inl (bytes, text) ↦ rw text (
          ended-Saved fs json paths calls store bytes f
            (write_atomic fs (credentials paths) bytes f) reads text
            (write_atomic-Ends fs laws (credentials paths) bytes f)
            (λ (bytes', text', works).
              ap (λ b. (write_atomic fs (credentials paths) b f).0)
                (text_inj (sym text ∙ ap or_invalid text'))
              ∙ write_atomic-ok fs (credentials paths) bytes' f works))
    ]
