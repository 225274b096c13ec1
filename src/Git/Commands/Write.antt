-- ===== src/Git/Commands/Write.antt =====
-- The commands of crates/c6-git/src/lib.rs that write: `commit_changes` and `merge`.
use cresix.Base.{
  ℕ, zero, suc, List, [], ◌∷◌, ◌++◌, Option, none, some, Result, ok, err, ok_or, if◌then◌else◌,
  drop,
}
use cresix.Base.Text.{Text, codes, split}
use cresix.Git.{
  GitError, CommitIdentity, validate_branch, validate_identity, validate_message,
  revision_not_found, invalid_output,
}
use cresix.Git.Changes.{FileChange, upsert, delete, validate_changes}
use cresix.Git.Commands.Tree.{drop_empty}
use cresix.Git.Commands.{
  Machine, Repository, Output, M, ◌>>=◌, ◌>>◌, lift, git, success, require_success, utf8,
  answer_text, resolve_commit, resolve_ref_optional, is_ancestor, atomic_update,
}

abbrev pub repeat : ℕ → ℕ → Text
repeat b zero = []
repeat b (suc n) = b ∷ repeat b n

abbrev pub identity_env : CommitIdentity → List (Text × Text)
identity_env identity =
    (codes "GIT_AUTHOR_NAME", identity.name)
    ∷ (codes "GIT_AUTHOR_EMAIL", identity.email)
    ∷ (codes "GIT_COMMITTER_NAME", identity.name)
    ∷ (codes "GIT_COMMITTER_EMAIL", identity.email)
    ∷ []

abbrev pub parent_args : Option Text → List Text
parent_args none = []
parent_args (some parent) = codes "-p" ∷ parent ∷ []

abbrev pub expected_oid : Repository → Option Text → Text
expected_oid repository none = repeat b'0' repository.oid_len
expected_oid repository (some oid) = oid

abbrev pub write_tree_args : List Text
write_tree_args = codes "write-tree" ∷ []

abbrev pub commit_tree_args : Text → Option Text → List Text
commit_tree_args tree parent = codes "commit-tree" ∷ tree ∷ parent_args parent

abbrev pub index_env_of : Text → List (Text × Text)
index_env_of index = (codes "GIT_INDEX_FILE", index) ∷ []

abbrev pub branch_ref : Text → Text
branch_ref branch = codes "refs/heads/" ++ branch

module _ (machine : Machine) (repository : Repository) where
  -- A call that must succeed.
  unfoldable pub git_ok : List Text → Option Text → List (Text × Text) → M Output
  git_ok args stdin env = do
    output ← git machine repository args stdin env
    lift (require_success output)
    lift (ok output)

  -- A call that must succeed and gives a name.
  unfoldable pub git_text : List Text → Option Text → List (Text × Text) → M Text
  git_text args stdin env = do output ← git_ok args stdin env; lift (answer_text output)

  unfoldable pub read_parent : List (Text × Text) → Option Text → M (Unit {0})
  read_parent index_env none = lift (ok tt)
  read_parent index_env (some parent) = do
    output ← git_ok (codes "read-tree" ∷ parent ∷ []) none index_env
    lift (ok tt)

  unfoldable pub stage_change : List (Text × Text) → FileChange → M (Unit {0})
  stage_change index_env (upsert path content) = do
    blob_oid ← git_text (codes "hash-object" ∷ codes "-w" ∷ codes "--stdin" ∷ []) (some content) []
    let cache = codes "100644," ++ (blob_oid ++ (codes "," ++ path))
    output ←
        git_ok (codes "update-index" ∷ codes "--add" ∷ codes "--cacheinfo" ∷ cache ∷ []) none
          index_env
    lift (ok tt)
  stage_change index_env (delete path) = do
    let removal = codes "0 " ++ (repeat b'0' repository.oid_len ++ ((9 ∷ path) ++ (10 ∷ [])))
    output ← git_ok (codes "update-index" ∷ codes "--index-info" ∷ []) (some removal) index_env
    lift (ok tt)

  unfoldable pub stage_changes : List (Text × Text) → List FileChange → M (Unit {0})
  stage_changes index_env [] = lift (ok tt)
  stage_changes index_env (change ∷ changes) = do
    stage_change index_env change
    stage_changes index_env changes

  -- The `match` on the branch and the start revision.
  unfoldable pub find_parent : Option Text → Option Text → M (Option Text)
  find_parent (some oid) start = lift (ok (some oid))
  find_parent none none = lift (ok none)
  find_parent none (some revision) = do
    oid ← resolve_commit machine repository revision
    lift (ok (some oid))

  -- Behind the staged changes.
  unfoldable pub commit_staged :
      Text → Text → CommitIdentity → Option Text → Option Text → List (Text × Text) → M Text
  commit_staged reference message identity current parent index_env = do
    tree ← git_text write_tree_args none index_env
    new_oid ← git_text (commit_tree_args tree parent) (some message) (identity_env identity)
    atomic_update machine repository reference new_oid (expected_oid repository current)
    lift (ok new_oid)

  unfoldable pub commit_changes :
      Text → Option Text → List FileChange → Text → CommitIdentity → M Text
  commit_changes branch start_revision changes message identity = do
    lift (validate_branch branch)
    lift (validate_identity identity)
    lift (validate_message message)
    lift (validate_changes repository.limits changes)
    current ← resolve_ref_optional machine repository (branch_ref branch)
    parent ← find_parent current start_revision
    index ← lift machine.temp_index
    let index_env = index_env_of index
    read_parent index_env parent
    stage_changes index_env changes
    commit_staged (branch_ref branch) message identity current parent index_env

abbrev pub utf8_all : List Text → Result GitError (List Text)
utf8_all [] = ok []
utf8_all (field ∷ fields) = elim (utf8 field) [
  | err e ↦ err e
  | ok path ↦ elim (utf8_all fields) [ err e ↦ err e | ok paths ↦ ok (path ∷ paths) ]
]

pub data MergeResult : Type 0 where
  already_up_to_date fast_forward merged : Text → MergeResult
  conflicted : List Text → MergeResult

abbrev pub conflict : Result GitError (List Text) → Result GitError MergeResult
conflict (ok paths) = ok (conflicted paths)
conflict (err e) = err e

abbrev pub first_text : List Text → Result GitError Text
first_text [] = err (invalid_output (codes "merge produced no tree"))
first_text (field ∷ fields) = utf8 field

abbrev pub merge_tree_args : Text → Text → List Text
merge_tree_args target source =
    codes "merge-tree"
    ∷ codes "--write-tree"
    ∷ codes "--name-only"
    ∷ codes "--no-messages"
    ∷ codes "-z"
    ∷ target
    ∷ source
    ∷ []

abbrev pub commit_merge_args : Text → Text → Text → List Text
commit_merge_args tree target source =
    codes "commit-tree" ∷ tree ∷ codes "-p" ∷ target ∷ codes "-p" ∷ source ∷ []

module _ (machine : Machine) (repository : Repository) where
  -- Behind a tree without conflicts.
  unfoldable pub commit_merge : Text → Text → CommitIdentity → Text → Text → Text → M MergeResult
  commit_merge target_ref message identity target source tree = do
    oid ←
        git_text machine repository (commit_merge_args tree target source) (some message)
          (identity_env identity)
    atomic_update machine repository target_ref oid target
    lift (ok (merged oid))

  unfoldable pub merge_trees : Text → Text → CommitIdentity → Text → Text → M MergeResult
  merge_trees target_ref message identity target source = do
    output ← git machine repository (merge_tree_args target source) none []
    let fields = drop_empty (split 0 output.stdout)
    let clean = (do
      tree ← lift (first_text fields)
      commit_merge target_ref message identity target source tree)
    if success output then clean else lift (conflict (utf8_all (drop 1 fields)))

  unfoldable pub fast_forward_or_merge : Text → Text → CommitIdentity → Text → Text → M MergeResult
  fast_forward_or_merge target_ref message identity target source = do
    forward ← is_ancestor machine repository target source
    let move = (do
      atomic_update machine repository target_ref source target
      lift (ok (fast_forward source)))
    if forward then move else merge_trees target_ref message identity target source

  unfoldable pub merge : Text → Text → Text → CommitIdentity → M MergeResult
  merge target_branch source_revision message identity = do
    lift (validate_branch target_branch)
    lift (validate_identity identity)
    lift (validate_message message)
    let target_ref = codes "refs/heads/" ++ target_branch
    found ← resolve_ref_optional machine repository target_ref
    target ← lift (ok_or found (revision_not_found target_branch))
    source ← resolve_commit machine repository source_revision
    up_to_date ← is_ancestor machine repository source target
    if up_to_date
        then lift (ok (already_up_to_date target))
        else fast_forward_or_merge target_ref message identity target source
