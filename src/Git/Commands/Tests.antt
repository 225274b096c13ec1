-- ===== src/Git/Commands/Tests.antt =====
-- The commands of crates/c6-git/src/lib.rs with a git that answers by the subcommand.
use cresix.Base.{ℕ, ◌≡◌, List, [], ◌∷◌, ◌++◌, none, some, Result, ok, err, if◌then◌else◌, refl}
use cresix.Base.Text.{
  Text, codes, text_eq, blanked, is_blank, split_once, split_whitespace, text_key,
}
use cresix.Base.Map.{contains}
use cresix.Base.Utf8.{is_utf8_from}
use cresix.Git.{
  GitError, CommitIdentity, validate_branch, validate_identity, validate_message,
  validate_repo_path, concurrent_update,
}
use cresix.Git.Changes.{FileChange, upsert, delete, validate_changes, count_changes}
use cresix.Git.Commands.{
  Call, Output, History, Machine, Repository, git, trim_ascii, resolve_commit, resolve_ref_optional,
  is_ancestor, atomic_update,
}
use cresix.Git.Store.{standard_limits}
use cresix.Git.Commands.Moves.{Outcome}
use cresix.Git.Commands.Merges.{Merges, moved_oid, merge_moves}
use cresix.Git.Commands.Commits.{Commits, committed_oid, commit_changes_moves}
use cresix.Git.Commands.Reading.{read_file, list_branches}
use cresix.Git.Commands.Tree.{
  collect, parse_tree_entries, parse_tree_record, parse_exact_tree_entry, parse_branch, splitn,
}
use cresix.Git.Commands.Write.{
  merged, conflicted, git_ok, git_text, read_parent, stage_change, stage_changes, find_parent,
  commit_staged, commit_changes, commit_merge, merge_trees, fast_forward_or_merge, merge,
  branch_ref,
}

abbrev oid : Text
oid = codes "1111111111222222222233333333334444444444"

abbrev third : List Text → Text
third (a ∷ b ∷ c ∷ rest) = c
third args = []

abbrev prints : Text → Result GitError Output
prints stdout = ok (record { code = some 0; stdout = stdout; stderr = [] })

abbrev exits : ℕ → Text → Result GitError Output
exits code stderr = ok (record { code = some code; stdout = []; stderr = stderr })

-- A git for which no commit is an ancestor of another.
abbrev answers :
    Result GitError Output → Result GitError Output → History → Call → Result GitError Output
answers merge_tree update history call =
    let command = third call.args in
    if text_eq command (codes "merge-base")
    then exits 1 []
    else if text_eq command (codes "merge-tree")
    then merge_tree
    else if text_eq command (codes "update-ref")
    then update
    else if text_eq command (codes "ls-tree")
    then prints (codes "100644 blob " ++ oid ++ codes "       4" ++ (9 ∷ codes "a.txt") ++ (0 ∷ []))
    else if text_eq command (codes "cat-file")
    then prints (codes "text")
    else if text_eq command (codes "for-each-ref")
    then prints (codes "main" ++ (0 ∷ oid) ++ (10 ∷ []))
    else prints (oid ++ (10 ∷ []))

abbrev machine_of : Result GitError Output → Result GitError Output → Machine
machine_of merge_tree update = record {
  answer = answers merge_tree update;
  temp_index = ok (codes "/tmp/index");
  to_string = λ n. codes "1";
}

abbrev machine : Machine
machine = machine_of (prints (oid ++ (0 ∷ []))) (prints [])

abbrev repository : Repository
repository = record { path = codes "/repos/p1.git"; limits = standard_limits; oid_len = 40 }

abbrev author : CommitIdentity
author = record { name = codes "Ada"; email = codes "ada@example.org" }

merge_moves_example :
    Outcome repository
      (branch_ref (codes "main"))
      (Merges machine repository (branch_ref (codes "main")) (codes "Merge") author)
      (moved_oid
        (merge machine repository (codes "main") (codes "topic") (codes "Merge") author []).0)
      (merge machine repository (codes "main") (codes "topic") (codes "Merge") author []).1
merge_moves_example =
    merge_moves machine repository (codes "main") (codes "topic") (codes "Merge") author

merges :
    (merge machine repository (codes "main") (codes "topic") (codes "Merge") author []).0
    ≡ ok (merged oid)
unfolding merge fast_forward_or_merge merge_trees commit_merge git_text git_ok git trim_ascii
    is_utf8_from resolve_commit resolve_ref_optional is_ancestor atomic_update validate_branch
    validate_identity validate_message is_blank blanked
merges = refl

-- A failure that is no conflict, such as unrelated histories, is told as a conflict in no file.
unrelated_conflicts :
    (merge
      (machine_of (exits 128 (codes "refusing to merge unrelated histories")) (prints []))
      repository
      (codes "main")
      (codes "topic")
      (codes "Merge")
      author
      []).0
    ≡ ok (conflicted [])
unfolding merge fast_forward_or_merge merge_trees commit_merge git_text git_ok git trim_ascii
    is_utf8_from resolve_commit resolve_ref_optional is_ancestor atomic_update validate_branch
    validate_identity validate_message is_blank blanked
unrelated_conflicts = refl

abbrev changes : List FileChange
changes = upsert (codes "a.txt") (codes "text") ∷ delete (codes "b.txt") ∷ []

commit_changes_moves_example :
    Outcome repository
      (branch_ref (codes "main"))
      (Commits machine repository (branch_ref (codes "main")) (codes "Add") author)
      (committed_oid
        (commit_changes machine repository (codes "main") none changes (codes "Add") author []).0)
      (commit_changes machine repository (codes "main") none changes (codes "Add") author []).1
commit_changes_moves_example =
    commit_changes_moves machine repository (codes "main") none changes (codes "Add") author

-- Another writer was faster.
commit_raced :
    (commit_changes
      (machine_of (exits 0 []) (exits 128 (codes "fatal: cannot lock ref")))
      repository
      (codes "main")
      none
      changes
      (codes "Add")
      author
      []).0
    ≡ err concurrent_update
unfolding commit_changes commit_staged find_parent read_parent stage_changes stage_change git_text
    git_ok git trim_ascii is_utf8_from resolve_commit resolve_ref_optional atomic_update
    validate_branch validate_identity validate_message is_blank blanked validate_changes
    count_changes validate_repo_path contains
commit_raced = refl

reads_file : (read_file machine repository (codes "main") (codes "a.txt") []).0 ≡ ok (codes "text")
unfolding read_file git_ok git trim_ascii is_utf8_from resolve_commit validate_branch
    validate_repo_path parse_exact_tree_entry parse_tree_entries collect parse_tree_record
    split_once split_whitespace blanked
reads_file = refl

lists_branches :
    (list_branches machine repository []).0 ≡ ok (record { name = codes "main"; oid = oid } ∷ [])
unfolding list_branches git_ok git collect parse_branch splitn split_once is_utf8_from
lists_branches = refl
