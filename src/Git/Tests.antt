-- ===== src/Git/Tests.antt =====
-- The checks of crates/c6-git/src/lib.rs at concrete values.
use cresix.Base.{◌≡◌, ◌↔◌, ◌≤◌, [], ◌∷◌, List, All, refl, ok, err, arith, length}
use cresix.Base.Text.{codes, is_blank, blanked, text_key}
use cresix.Base.Map.{contains, Distinct}
use cresix.Git.{
  Limits, validate_branch, validate_repo_path, validate_slug, validate_message, validate_identity,
  invalid_path, invalid_ref, invalid_slug,
}
use cresix.Git.Store.{standard_limits}
use cresix.Git.Changes.{FileChange, upsert, delete, validate_changes, count_changes}
use cresix.Git.ChangeLimits.{IsValidChange, paths_of, total_size, validate_changes_iff}

abbrev limits : Limits
limits = standard_limits

abbrev changes : List FileChange
changes = upsert (codes "src/main.rs") (codes "fn main() {}") ∷ delete (codes "old.txt") ∷ []

accepts_changes : validate_changes limits changes ≡ ok tt
unfolding validate_changes count_changes validate_repo_path contains
accepts_changes = refl

rejects_git_directory :
    validate_repo_path (codes "a/.GIT/config") ≡ err (invalid_path (codes "a/.GIT/config"))
unfolding validate_repo_path
rejects_git_directory = refl

rejects_parent : validate_repo_path (codes "../secret") ≡ err (invalid_path (codes "../secret"))
unfolding validate_repo_path
rejects_parent = refl

rejects_lock : validate_branch (codes "main.lock") ≡ err (invalid_ref (codes "main.lock"))
unfolding validate_branch
rejects_lock = refl

accepts_branch : validate_branch (codes "feature/one") ≡ ok tt
unfolding validate_branch
accepts_branch = refl

rejects_slug : validate_slug (codes "repo.git") ≡ err (invalid_slug (codes "repo.git"))
unfolding validate_slug
rejects_slug = refl

accepts_message : validate_message (codes "one change") ≡ ok tt
unfolding validate_message is_blank blanked
accepts_message = refl

accepts_identity :
    validate_identity (record { name = codes "Ada"; email = codes "ada@example.com" }) ≡ ok tt
unfolding validate_identity is_blank blanked
accepts_identity = refl

validate_changes_iff_example : (validate_changes limits changes ≡ ok tt) ↔ (
    (1 ≤ length changes)
    × (length changes ≤ limits.max_changes)
    × All (IsValidChange limits) changes
    × Distinct (paths_of changes)
    × (total_size changes ≤ limits.max_total_bytes))
validate_changes_iff_example = validate_changes_iff limits changes (omega arith)
