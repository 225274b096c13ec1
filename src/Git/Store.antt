-- ===== src/Git/Store.antt =====
-- `GitStore` and `StagedDeletion` of crates/c6-git/src/lib.rs: the repositories beneath one root,
-- and their deletion in two phases. The file system, with state `F`, is a parameter.
pub mod Guard
pub mod Deletion
pub mod Tests
use cresix.Base.{
  ℕ, List, [], ◌∷◌, ◌++◌, Bool, true, false, not, ◌&&◌, ◌||◌, Option, none, some, Result, ok, err,
  ok_or, fail_if, if◌then◌else◌,
}
use cresix.Base.Stateful.{Stateful, continue_with, ◌>>=◌, ◌>>◌, lift, look}
use cresix.Base.Text.{Text, codes, text_eq}
use cresix.Git.{
  GitError, Limits, validate_slug, invalid_path, not_found, already_exists, invalid_output, io,
}
use cresix.Git.Commands.{Output, Repository, success, command_error, require_success, trim_ascii}

-- The kinds of `std::io::Error` that the source tells apart.
pub data IoError : Type 0 where
  is_absent is_there other_kind : IoError

-- What the source calls of the file system and of git. `content` is what is at a path, and
-- `metadata` tells of a link and of a directory. A run of git has the repository's path, if any,
-- and its arguments. `temp_dir` makes a new directory with a prefix beneath another.
pub record Machine (F : Type 0) : Type 0 where
  pub content : F → Text → Option Text
  pub metadata : F → Text → Result IoError (Bool × Bool)
  pub canonicalize : F → Text → Option Text
  pub parent : Text → Option Text
  pub git : Option Text → List Text → F → Result GitError Output × F
  pub create_dir_all : Text → F → Result GitError (Unit {0}) × F
  pub create_dir : Text → F → Result IoError (Unit {0}) × F
  pub temp_dir : Text → Text → F → Result GitError Text × F
  pub rename : Text → Text → F → Result GitError (Unit {0}) × F
  pub remove_dir : Text → F → Result GitError (Unit {0}) × F
  pub remove_dir_all : Text → F → Result GitError (Unit {0}) × F

pub record GitStore : Type 0 where
  pub root : Text
  pub limits : Limits

-- `Limits::default`
abbrev pub standard_limits : Limits
standard_limits = record {
  max_changes = 100;
  max_file_bytes = 1048576;
  max_total_bytes = 10485760;
  max_read_bytes = 2097152;
  max_log_entries = 500;
}

-- The guard. Its `completed` is false until `commit` or `rollback` has succeeded, which ends it.
pub record StagedDeletion : Type 0 where
  pub original : Text
  pub tombstone : Text
  pub staged : Text

abbrev pub join : Text → Text → Text
join directory name = directory ++ b'/' ∷ name

-- `self.root.join(format!("{slug}.git"))`
abbrev pub destination_of : GitStore → Text → Text
destination_of store slug = join store.root (slug ++ codes ".git")

abbrev pub M : Type 0 → Type 0 → Type 0
M = Stateful GitError

abbrev is_real_directory : Bool × Bool → Bool
is_real_directory (is_symlink, is_dir) = not is_symlink && is_dir

abbrev is_directory : Result IoError (Bool × Bool) → Bool
is_directory (ok metadata) = metadata.1
is_directory (err e) = false

abbrev or_not_found : Text → Result IoError (Bool × Bool) → Result GitError (Bool × Bool)
or_not_found slug (ok metadata) = ok metadata
or_not_found slug (err e) = err (not_found slug)

abbrev is_parent : Text → Option Text → Bool
is_parent root none = false
is_parent root (some path) = text_eq path root

abbrev oid_len_of : Text → Result GitError ℕ
oid_len_of format =
    if text_eq format (codes "sha1")
    then ok 40
    else if text_eq format (codes "sha256")
    then ok 64
    else err (invalid_output (codes "unsupported Git object format"))

abbrev absent : Text → Result IoError (Bool × Bool) → Result GitError (Unit {0})
absent slug (ok metadata) = err (already_exists slug)
absent slug (err is_absent) = ok tt
absent slug (err is_there) = err io
absent slug (err other_kind) = err io

-- The `match` on `fs::create_dir`.
abbrev made_dir :
    {F : Type 0} → Text → Result IoError (Unit {0}) × F → Result GitError (Unit {0}) × F
made_dir slug (ok _, files) = (ok tt, files)
made_dir slug (err is_there, files) = (err (already_exists slug), files)
made_dir slug (err is_absent, files) = (err io, files)
made_dir slug (err other_kind, files) = (err io, files)

module _ {F : Type 0} where
  unfoldable pub with_limits : Machine F → Text → Limits → M F GitStore
  with_limits machine root_path limits = do
    machine.create_dir_all root_path
    root ← look (λ files. ok_or (machine.canonicalize files root_path) io)
    look (λ files.
        fail_if (not (is_directory (machine.metadata files root)))
          (invalid_path (codes "store root is not a directory")))
    lift (ok (record { root = root; limits = limits }))

  -- `GitStore::new`
  unfoldable pub new_store : Machine F → Text → M F GitStore
  new_store machine root_path = with_limits machine root_path standard_limits

  module _ (machine : Machine F) (store : GitStore) where
    unfoldable pub open_repository : Text → M F Repository
    open_repository slug = do
      lift (validate_slug slug)
      let expected = destination_of store slug
      metadata ← look (λ files. or_not_found slug (machine.metadata files expected))
      lift (
          fail_if (not (is_real_directory metadata))
            (invalid_path (codes "repository must be a real directory")))
      canonical ← look (λ files. ok_or (machine.canonicalize files expected) io)
      lift (
          fail_if (not (is_parent store.root (machine.parent canonical)))
            (invalid_path (codes "repository escaped store root")))
      probe ← machine.git (some canonical) (codes "rev-parse" ∷ codes "--is-bare-repository" ∷ [])
      lift (
          fail_if (not (success probe) || not (text_eq (trim_ascii probe.stdout) (codes "true")))
            (invalid_path (codes "repository is not bare")))
      format ← machine.git (some canonical) (codes "rev-parse" ∷ codes "--show-object-format" ∷ [])
      lift (require_success format)
      oid_len ← lift (oid_len_of (trim_ascii format.stdout))
      lift (ok (record { path = canonical; limits = store.limits; oid_len = oid_len }))

    -- `let _ = fs::remove_dir_all(&destination); return Err(command_error(&output));`
    abbrev give_up : Text → Output → M F Repository
    give_up destination output files =
        (err (command_error output), (machine.remove_dir_all destination files).1)

    unfoldable pub create : Text → M F Repository
    create slug = do
      lift (validate_slug slug)
      let destination = destination_of store slug
      (λ files. made_dir slug (machine.create_dir destination files))
      output ←
          machine.git none
            (codes "init" ∷ codes "--bare" ∷ codes "--initial-branch=main" ∷ destination ∷ [])
      if success output then open_repository slug else give_up destination output

    unfoldable pub ensure_absent : Text → Text → M F (Unit {0})
    ensure_absent path slug = look (λ files. absent slug (machine.metadata files path))

    unfoldable pub import_local : Text → Text → M F Repository
    import_local slug source_path = do
      lift (validate_slug slug)
      source ← look (λ files.
          ok_or (machine.canonicalize files source_path)
            (invalid_path (codes "import source does not exist")))
      look (λ files.
          fail_if (not (is_directory (machine.metadata files source)))
            (invalid_path (codes "import source is not a directory")))
      let destination = destination_of store slug
      ensure_absent destination slug
      output ← machine.git none (
          codes "clone"
          ∷ codes "--bare"
          ∷ codes "--no-local"
          ∷ codes "--"
          ∷ source
          ∷ destination
          ∷ [])
      if success output then open_repository slug else give_up destination output

  module _ (machine : Machine F) where
    abbrev pub present : F → Text → Bool
    present files path = elim (machine.content files path) [ none ↦ false | some _ ↦ true ]

    -- What follows on the rename of `stage_delete`.
    abbrev pub staged_at :
        StagedDeletion → Result GitError (Unit {0}) × F → Result GitError StagedDeletion × F
    staged_at guard (ok _, files) = (ok guard, files)
    staged_at guard (err e, files) = (err e, (machine.remove_dir guard.tombstone files).1)

    abbrev pub guard_of : Text → Text → StagedDeletion
    guard_of original tombstone = record {
      original = original;
      tombstone = tombstone;
      staged = join tombstone (codes "repository.git");
    }

    unfoldable pub stage : GitStore → Repository → M F StagedDeletion
    stage store repository = do
      tombstone ← machine.temp_dir store.root (codes ".c6-delete-")
      let guard = guard_of repository.path tombstone
      (λ files. staged_at guard (machine.rename repository.path guard.staged files))

    unfoldable pub stage_delete : GitStore → Text → M F StagedDeletion
    stage_delete store slug = do
      repository ← open_repository machine store slug
      stage store repository

    -- `Drop::drop` on a guard that is not completed.
    abbrev removed : Text → Result GitError (Unit {0}) × F → F
    removed tombstone (ok _, files) = (machine.remove_dir tombstone files).1
    removed tombstone (err e, files) = files

    unfoldable pub drop_guard : StagedDeletion → F → F
    drop_guard guard files =
        if present files guard.staged && not (present files guard.original)
        then removed guard.tombstone (machine.rename guard.staged guard.original files)
        else files

    -- A method that takes the guard drops it when it fails.
    abbrev pub consume :
        StagedDeletion → Result GitError (Unit {0}) × F → Result GitError (Unit {0}) × F
    consume guard (ok _, files) = (ok tt, files)
    consume guard (err e, files) = (err e, drop_guard guard files)

    unfoldable pub restore : StagedDeletion → M F (Unit {0})
    restore guard = do
      look (λ files. fail_if (present files guard.original) (already_exists guard.original))
      machine.rename guard.staged guard.original
      machine.remove_dir guard.tombstone

    unfoldable pub rollback : StagedDeletion → M F (Unit {0})
    rollback guard files = consume guard (restore guard files)

    unfoldable pub commit : StagedDeletion → M F (Unit {0})
    commit guard files = consume guard (machine.remove_dir_all guard.tombstone files)

    unfoldable pub delete : GitStore → Text → M F (Unit {0})
    delete store slug = do guard ← stage_delete store slug; commit guard
