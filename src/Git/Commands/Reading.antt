-- ===== src/Git/Commands/Reading.antt =====
-- The operations of `Repository` in crates/c6-git/src/lib.rs that read, and what `read_file`
-- returns.
use cresix.Base.{
  ℕ, List, [], ◌∷◌, ◌++◌, Bool, true, false, not, ◌||◌, ◌==◌, ltb, none, ok, ok_or, fail_if,
}
use cresix.Base.Text.{Text, codes, split, text_key}
use cresix.Git.{invalid_output, invalid_path, limit_exceeded, validate_repo_path}
use cresix.Git.Commands.{Machine, Repository, M, ◌>>=◌, ◌>>◌, lift, utf8, resolve_commit}
use cresix.Git.Commands.Write.{git_ok}
use cresix.Git.Commands.Tree.{
  EntryKind, blob, tree, commit, TreeEntry, Branch, Commit, collect, drop_empty, parse_branch,
  parse_commit, parse_tree_entries, parse_exact_tree_entry,
}

abbrev is_blob : EntryKind → Bool
is_blob blob = true
is_blob tree = false
is_blob commit = false

module _ (machine : Machine) (repository : Repository) where
  unfoldable pub list_branches : M (List Branch)
  list_branches = do
    output ←
        git_ok machine repository
          (codes "for-each-ref"
            ∷ codes "--format=%(refname:strip=2)%00%(objectname)"
            ∷ codes "refs/heads"
            ∷ [])
          none []
    lift (collect parse_branch (drop_empty (split 10 output.stdout)))

  unfoldable pub read_commit : Text → M Commit
  read_commit oid = do
    output ←
        git_ok machine repository
          (codes "show"
            ∷ codes "-s"
            ∷ codes "--format=%H%x00%P%x00%an%x00%ae%x00%aI%x00%B"
            ∷ oid
            ∷ [])
          none []
    lift (parse_commit output.stdout)

  unfoldable pub read_commits : List Text → M (List Commit)
  read_commits [] = lift (ok [])
  read_commits (line ∷ lines) = do
    oid ← lift (utf8 line)
    first ← read_commit oid
    others ← read_commits lines
    lift (ok (first ∷ others))

  unfoldable pub list_commits : Text → ℕ → M (List Commit)
  list_commits revision limit = do
    lift (
        fail_if (limit == 0 || ltb repository.limits.max_log_entries limit)
          (limit_exceeded (codes "invalid commit log limit")))
    oid ← resolve_commit machine repository revision
    output ←
        git_ok machine repository
          (codes "rev-list" ∷ (codes "--max-count=" ++ machine.to_string limit) ∷ oid ∷ []) none []
    read_commits (drop_empty (split 10 output.stdout))

  abbrev recursive_args : Bool → List Text → List Text
  recursive_args true rest = codes "-r" ∷ rest
  recursive_args false rest = rest

  unfoldable pub list_tree : Text → Bool → M (List TreeEntry)
  list_tree revision recursive = do
    oid ← resolve_commit machine repository revision
    output ←
        git_ok machine repository
          (codes "ls-tree" ∷ codes "-z" ∷ codes "-l" ∷ recursive_args recursive (oid ∷ [])) none []
    lift (parse_tree_entries output.stdout)

  abbrev pub ls_tree_args : Text → Text → List Text
  ls_tree_args oid path = codes "ls-tree" ∷ codes "-z" ∷ codes "-l" ∷ oid ∷ codes "--" ∷ path ∷ []

  abbrev pub cat_file_args : Text → List Text
  cat_file_args oid = codes "cat-file" ∷ codes "blob" ∷ oid ∷ []

  unfoldable pub read_file : Text → Text → M Text
  read_file revision path = do
    lift (validate_repo_path path)
    oid ← resolve_commit machine repository revision
    output ← git_ok machine repository (ls_tree_args oid path) none []
    entry ← lift (parse_exact_tree_entry output.stdout path)
    lift (fail_if (not (is_blob entry.kind)) (invalid_path (codes "path is not a file")))
    size ← lift (ok_or entry.size (invalid_output (codes "blob has no size")))
    lift (
        fail_if (ltb repository.limits.max_read_bytes size)
          (limit_exceeded (codes "file is too large to read")))
    content ← git_ok machine repository (cat_file_args entry.oid) none []
    lift (ok content.stdout)
