-- ===== src/Cli/StateFile.antt =====
-- The files of crates/c6-cli/src/config.rs: `read_secure` and `write_atomic`, with the checks of
-- owner and mode. The file system, with state `F`, is a parameter.
use cresix.Base.{
  ℕ, ◌%◌, ◌∷◌, ◌++◌, Bool, not, ◌||◌, ◌==◌, Option, none, some, Result, ok, err, ok_or,
  if◌then◌else◌,
}
use cresix.Base.Stateful.{Stateful, ◌>>=◌, ◌>>◌, lift, look}
use cresix.Base.Text.{Text, codes}

-- The kinds of `std::io::Error` that the source tells apart.
pub data IoError : Type 0 where
  is_absent other_kind : IoError

-- The errors of the functions here; the two of the lock are left out.
pub data StateError : Type 0 where
  no_directory : StateError
  unsafe : Text → Text → StateError
  io : Text → IoError → StateError
  invalid : Text → StateError

-- `std::fs::Metadata`
pub record Metadata : Type 0 where
  pub is_symlink : Bool
  pub is_dir : Bool
  pub is_file : Bool
  pub uid : ℕ
  pub mode : ℕ

-- What the source calls of `std::fs` and of the process. `create_directory` makes a directory with
-- its parents, with mode 0700; `open_new` a file that must be new, with mode 0600; `write_all` also
-- syncs the file, and `sync_directory` opens what it syncs.
pub record FileSystem (F : Type 0) : Type 0 where
  pub symlink_metadata : F → Text → Result IoError Metadata
  pub exists : F → Text → Bool
  pub read : F → Text → Result IoError Text
  pub create_directory : Text → F → Result IoError (Unit {0}) × F
  pub open_new : Text → F → Result IoError (Unit {0}) × F
  pub write_all : Text → Text → F → Result IoError (Unit {0}) × F
  pub rename : Text → Text → F → Result IoError (Unit {0}) × F
  pub sync_directory : Text → F → Result IoError (Unit {0}) × F
  pub remove_file : Text → F → Result IoError (Unit {0}) × F
  pub parent : Text → Option Text
  pub file_name : Text → Option Text
  pub process_id : Text
  pub geteuid : ℕ

abbrev pub join : Text → Text → Text
join directory name = directory ++ b'/' ∷ name

-- `map_err(|source| StateError::Io { path, source })`
abbrev pub or_io {ℓ} : {A : Type ℓ} → Text → Result IoError A → Result StateError A
or_io path (ok a) = ok a
or_io path (err source) = err (io path source)

abbrev pub or_io_at : {F A : Type 0} → Text → Result IoError A × F → Result StateError A × F
or_io_at path (result, files) = (or_io path result, files)

-- What follows on the closure of `write_atomic`.
abbrev pub tidied :
    {F : Type 0}
    → FileSystem F
    → Text
    → Result StateError (Unit {0}) × F
    → Result StateError (Unit {0}) × F
tidied fs temporary (ok _, files) = (ok tt, files)
tidied fs temporary (err e, files) = (err e, (fs.remove_file temporary files).1)

module _ {F : Type 0} (fs : FileSystem F) where
  -- Owned by someone else, or with a bit of 0o077.
  abbrev pub is_exposed : Metadata → Bool
  is_exposed metadata = not (metadata.uid == fs.geteuid) || not (metadata.mode % 64 == 0)

  unfoldable pub validate_metadata : Text → Metadata → Result StateError (Unit {0})
  validate_metadata path metadata =
      if metadata.is_symlink || not metadata.is_file
      then err (unsafe path (codes "must be a regular file, not a symlink"))
      else if is_exposed metadata
      then err (unsafe path (codes "must be owned by the current user with mode 0600 or stricter"))
      else ok tt

  abbrev pub validate_directory : Text → Metadata → Result StateError (Unit {0})
  validate_directory path metadata =
      if not metadata.is_dir || metadata.is_symlink
      then err (unsafe path (codes "must be a real directory"))
      else if is_exposed metadata
      then err (unsafe path (codes "must be owned by the current user with mode 0700 or stricter"))
      else ok tt

  abbrev pub create_missing : Text → Stateful StateError F (Unit {0})
  create_missing path files =
      if fs.exists files path
      then (ok tt, files)
      else or_io_at path (fs.create_directory path files)

  unfoldable pub ensure_directory : Text → Stateful StateError F (Unit {0})
  ensure_directory path = do
    create_missing path
    metadata ← look (λ files. or_io path (fs.symlink_metadata files path))
    lift (validate_directory path metadata)

  -- What follows on the metadata in `read_secure`, with what `fs::read` gives.
  abbrev pub read_checked :
      Text → Result IoError Text → Result IoError Metadata → Result StateError (Option Text)
  read_checked path content (err is_absent) = ok none
  read_checked path content (err other_kind) = err (io path other_kind)
  read_checked path content (ok metadata) = elim (validate_metadata path metadata) [
    | err e ↦ err e
    | ok _ ↦ elim content [ ok bytes ↦ ok (some bytes) | err source ↦ err (io path source) ]
  ]

  unfoldable pub read_secure : F → Text → Result StateError (Option Text)
  read_secure files path = read_checked path (fs.read files path) (fs.symlink_metadata files path)

  -- `if let Ok(metadata) = fs::symlink_metadata(path) { validate_metadata(path, &metadata)?; }`
  abbrev pub validate_existing : Text → Result IoError Metadata → Result StateError (Unit {0})
  validate_existing path (ok metadata) = validate_metadata path metadata
  validate_existing path (err source) = ok tt

  abbrev pub temporary_of : Text → Text → Text
  temporary_of directory name =
      join directory (b'.' ∷ name ++ (b'.' ∷ fs.process_id ++ codes ".tmp"))

  -- The closure.
  unfoldable pub replace_file : Text → Text → Text → Text → Stateful StateError F (Unit {0})
  replace_file directory temporary path bytes = do
    (λ files. or_io_at temporary (fs.open_new temporary files))
    (λ files. or_io_at temporary (fs.write_all temporary bytes files))
    (λ files. or_io_at path (fs.rename temporary path files))
    (λ files. or_io_at directory (fs.sync_directory directory files))

  unfoldable pub write_atomic : Text → Text → Stateful StateError F (Unit {0})
  write_atomic path bytes = do
    directory ← lift (ok_or (fs.parent path) no_directory)
    ensure_directory directory
    look (λ files. validate_existing path (fs.symlink_metadata files path))
    name ← lift (ok_or (fs.file_name path) (invalid (codes "invalid state filename")))
    let temporary = temporary_of directory name
    (λ files. tidied fs temporary (replace_file directory temporary path bytes files))
