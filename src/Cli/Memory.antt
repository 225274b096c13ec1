-- ===== src/Cli/Memory.antt =====
-- A JSON format and files in memory, which the tests of crates/c6-cli/src/credential.rs run on.
use cresix.Base.{
  ap, ℕ, zero, suc, ◌≡◌, ◌≢◌, List, [], ◌∷◌, ◌++◌, true, false, Bool, Option, none, some, Result,
  ok, err, refl, sym, ◌∙◌, length, take, drop, take-append_exact, drop-append_exact, arith,
  if◌then◌else◌,
}
use cresix.Base.Map.{lookup, insert, remove, lookup-insert_self, lookup-insert_ne, lookup-remove}
use cresix.Base.Text.{Text, codes, text_eq, text_key}
use cresix.Cli.StateFile.{IoError, Metadata, FileSystem, is_absent, other_kind, temporary_of}
use cresix.Cli.Atomic.{FileLaws, SameAt, Beside, Private}
use cresix.Cli.Credential.{DiskGit, DiskStore, Json}
use cresix.Cli.Stored.{ReadsBack}

-- A format for stores of any size: each text behind its length, each list behind its own.
abbrev put_text : Text → Text → Text
put_text t rest = length t ∷ t ++ rest

abbrev get_text : Text → Text × Text
get_text [] = ([], [])
get_text (n ∷ s) = (take n s, drop n s)

get-put_text : (t rest : Text) → get_text (put_text t rest) ≡ (t, rest)
get-put_text t rest = rw (take-append_exact t rest, drop-append_exact t rest) refl

unfoldable pub put_api : List (Text × Text) → Text → Text
put_api [] rest = rest
put_api ((server, token) ∷ api) rest = put_text server (put_text token (put_api api rest))

unfoldable pub get_api : ℕ → Text → List (Text × Text) × Text
get_api zero s = ([], s)
get_api (suc n) s =
    let (server, s1) = get_text s in
    let (token, s2) = get_text s1 in let (api, s3) = get_api n s2 in ((server, token) ∷ api, s3)

get-put_api :
    (api : List (Text × Text)) (rest : Text) → get_api (length api) (put_api api rest) ≡ (api, rest)
unfolding put_api get_api
get-put_api [] rest = refl
get-put_api ((server, token) ∷ api) rest =
    rw
      (
        take-append_exact server (put_text token (put_api api rest)),
        drop-append_exact server (put_text token (put_api api rest)),
        take-append_exact token (put_api api rest),
        drop-append_exact token (put_api api rest),
        get-put_api api rest,
      )
      refl

unfoldable pub put_git : List DiskGit → Text
put_git [] = []
put_git (v ∷ git) = put_text v.server (put_text v.path (put_text v.token (put_git git)))

unfoldable pub get_git : ℕ → Text → List DiskGit
get_git zero s = []
get_git (suc n) s =
    let (server, s1) = get_text s in
    let (path, s2) = get_text s1 in
    let (token, s3) = get_text s2 in
    record { server = server; path = path; token = token } ∷ get_git n s3

get-put_git : (git : List DiskGit) → get_git (length git) (put_git git) ≡ git
unfolding put_git get_git
get-put_git [] = refl
get-put_git (v ∷ git) =
    rw
      (
        take-append_exact v.server (put_text v.path (put_text v.token (put_git git))),
        drop-append_exact v.server (put_text v.path (put_text v.token (put_git git))),
        take-append_exact v.path (put_text v.token (put_git git)),
        drop-append_exact v.path (put_text v.token (put_git git)),
        take-append_exact v.token (put_git git),
        drop-append_exact v.token (put_git git),
        get-put_git git,
      )
      refl

abbrev pub encode : DiskStore → Text
encode disk = disk.version ∷ length disk.api ∷ put_api disk.api (length disk.git ∷ put_git disk.git)

abbrev decode_git : List (Text × Text) × Text → ℕ → Result Text DiskStore
decode_git (api, []) version = err (codes "end of text")
decode_git (api, n ∷ s) version = ok (record { version = version; api = api; git = get_git n s })

abbrev decode : Text → Result Text DiskStore
decode [] = err (codes "end of text")
decode (version ∷ []) = err (codes "end of text")
decode (version ∷ n ∷ s) = decode_git (get_api n s) version

decode-encode : (disk : DiskStore) → decode (encode disk) ≡ ok disk
decode-encode disk =
    ap (λ got. decode_git got disk.version)
      (get-put_api disk.api (length disk.git ∷ put_git disk.git))
    ∙ ap (λ git. ok (record { version = disk.version; api = disk.api; git = git }))
        (get-put_git disk.git)

abbrev pub json : Json
json = record { from_slice = decode; to_vec = λ disk. ok (encode disk) }

abbrev encoded : Text → Result Text Text
encoded = ok

encoded_inj : {a b : Text} → encoded a ≡ ok b → a ≡ b
encoded_inj h = cc

pub json-ReadsBack : ReadsBack json
json-ReadsBack disk bytes h =
    (disk, ap decode (sym (encoded_inj h)) ∙ decode-encode disk, refl, refl, λ server. refl)

-- Files in memory: a path has a directory, a file or nothing.
abbrev pub Files : Type 0
Files = List (Text × Option Text)

abbrev mode_0700 : Metadata
mode_0700 = record { is_symlink = false; is_dir = true; is_file = false; uid = 7; mode = 448 }

abbrev mode_0600 : Metadata
mode_0600 = record { is_symlink = false; is_dir = false; is_file = true; uid = 7; mode = 384 }

abbrev metadata_of : Option (Option Text) → Result IoError Metadata
metadata_of none = err is_absent
metadata_of (some none) = ok mode_0700
metadata_of (some (some bytes)) = ok mode_0600

abbrev content_of : Option (Option Text) → Result IoError Text
content_of none = err is_absent
content_of (some none) = err other_kind
content_of (some (some bytes)) = ok bytes

abbrev is_entry : Option (Option Text) → Bool
is_entry none = false
is_entry (some entry) = true

abbrev opening : Text → Files → Option (Option Text) → Result IoError (Unit {0}) × Files
opening t f none = (ok tt, insert t (some []) f)
opening t f (some entry) = (err other_kind, f)

abbrev writing : Text → Text → Files → Option (Option Text) → Result IoError (Unit {0}) × Files
writing t bytes f (some (some old)) = (ok tt, insert t (some bytes) f)
writing t bytes f (some none) = (err other_kind, f)
writing t bytes f none = (err is_absent, f)

abbrev renaming : Text → Text → Files → Option (Option Text) → Result IoError (Unit {0}) × Files
renaming a b f none = (err is_absent, f)
renaming a b f (some entry) = (ok tt, insert b entry (remove a f))

abbrev pub place : Text
place = codes "/c6/credentials.json"

-- The names of the one path that is written.
abbrev of_place : Text → Text → Option Text
of_place answer p = if text_eq p place then some answer else none

abbrev pub memory : FileSystem Files
memory = record {
  symlink_metadata = λ f p. metadata_of (lookup p f);
  exists = λ f p. is_entry (lookup p f);
  read = λ f p. content_of (lookup p f);
  create_directory = λ d f. (ok tt, insert d none f);
  open_new = λ t f. opening t f (lookup t f);
  write_all = λ t bytes f. writing t bytes f (lookup t f);
  rename = λ a b f. renaming a b f (lookup a f);
  sync_directory = λ d f. (ok tt, f);
  remove_file = λ t f. (ok tt, remove t f);
  parent = of_place (codes "/c6");
  file_name = of_place (codes "credentials.json");
  process_id = codes "7";
  geteuid = 7;
}

same_entry : (p : Text) (f g : Files) → lookup p g ≡ lookup p f → SameAt memory p f g
same_entry p f g e = (ap metadata_of e, ap content_of e)

aside :
    (t p : Text) (entry : Option Text) (f : Files) → p ≢ t → SameAt memory p f (insert t entry f)
aside t p entry f other =
    same_entry p f (insert t entry f) (lookup-insert_ne t p entry f (λ e. other (sym e)))

new_private :
    (t : Text) (f : Files) (entry : Option (Option Text))
    → (opening t f entry).0 ≡ ok tt
    → (metadata : Metadata) × (metadata_of (lookup t (opening t f entry).1) ≡ ok metadata)
      × Private memory metadata
      × (content_of (lookup t (opening t f entry).1) ≡ ok [])
new_private t f (some entry) h = cc
new_private t f none h = (
  mode_0600,
  ap metadata_of (lookup-insert_self t (some []) f),
  record { no_link = refl; regular = refl; owned = refl; closed = refl },
  ap content_of (lookup-insert_self t (some []) f),
)

new_aside :
    (t p : Text) (f : Files) (entry : Option (Option Text))
    → p ≢ t
    → SameAt memory p f (opening t f entry).1
new_aside t p f none other = aside t p (some []) f other
new_aside t p f (some entry) other = (refl, refl)

written_there :
    (t bytes : Text) (f : Files) (entry : Option (Option Text))
    → (writing t bytes f entry).0 ≡ ok tt
    → (metadata_of (lookup t (writing t bytes f entry).1) ≡ metadata_of entry)
      × (content_of (lookup t (writing t bytes f entry).1) ≡ ok bytes)
written_there t bytes f none h = cc
written_there t bytes f (some none) h = cc
written_there t bytes f (some (some old)) h = (
  ap metadata_of (lookup-insert_self t (some bytes) f),
  ap content_of (lookup-insert_self t (some bytes) f),
)

writing_aside :
    (t p bytes : Text) (f : Files) (entry : Option (Option Text))
    → p ≢ t
    → SameAt memory p f (writing t bytes f entry).1
writing_aside t p bytes f none other = (refl, refl)
writing_aside t p bytes f (some none) other = (refl, refl)
writing_aside t p bytes f (some (some old)) other = aside t p (some bytes) f other

moved_there :
    (a b : Text) (f : Files) (entry : Option (Option Text))
    → (renaming a b f entry).0 ≡ ok tt
    → (metadata_of (lookup b (renaming a b f entry).1) ≡ metadata_of entry)
      × (content_of (lookup b (renaming a b f entry).1) ≡ content_of entry)
moved_there a b f none h = cc
moved_there a b f (some entry) h = (
  ap metadata_of (lookup-insert_self b entry (remove a f)),
  ap content_of (lookup-insert_self b entry (remove a f)),
)

not_moved :
    (a b p : Text) (e : IoError) (f : Files) (entry : Option (Option Text))
    → (renaming a b f entry).0 ≡ err e
    → SameAt memory p f (renaming a b f entry).1
not_moved a b p e f none h = (refl, refl)
not_moved a b p e f (some entry) h = cc

at_place : (answer p d : Text) → of_place answer p ≡ some d → (p ≡ place) × (answer ≡ d)
at_place answer p d h = ground (arith, text_key.beq_iff p place)

place_apart : place ≢ codes "/c6"
place_apart e = absurd (cc)

temporary_apart : place ≢ temporary_of memory (codes "/c6") (codes "credentials.json")
temporary_apart e = absurd (cc)

Beside-ne : (p t : Text) → Beside memory p t → p ≢ t
Beside-ne p t (d, (name, above, named, is_temporary)) e =
    let (is, dir) = at_place (codes "/c6") p d above in
    let (_, last) = at_place (codes "credentials.json") p name named in
    temporary_apart (sym is ∙ e ∙ is_temporary ∙ λ i. temporary_of memory (sym dir i) (sym last i))

pub memory-FileLaws : FileLaws memory
memory-FileLaws = record {
  opened = λ t f h. new_private t f (lookup t f) h;
  opened_aside = λ t p f beside. new_aside t p f (lookup t f) (Beside-ne p t beside);
  written = λ t bytes f blank h. written_there t bytes f (lookup t f) h;
  written_aside =
      λ t p bytes f beside. writing_aside t p bytes f (lookup t f) (Beside-ne p t beside);
  renamed = λ a b f h. let (m, r) = moved_there a b f (lookup a f) h in (m, r);
  not_renamed = λ a b p e f h. not_moved a b p e f (lookup a f) h;
  synced = λ d p f. (refl, refl);
  removed_aside = λ t p f beside.
      let other = Beside-ne p t beside in
      same_entry p f (remove t f) (ground (arith, lookup-remove t p f, text_key.beq_iff t p));
  made_aside = λ d p f above.
      let (is, dir) = at_place (codes "/c6") p d above in
      aside d p none f (λ e. place_apart (sym is ∙ e ∙ sym dir));
}
