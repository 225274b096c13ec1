-- ===== src/Git/Changes.antt =====
-- `Repository::validate_changes` of crates/c6-git/src/lib.rs.
use cresix.Base.{
  ℕ, ◌+◌, ◌^◌, List, [], ◌∷◌, ◌||◌, Result, ok, ◌>>=◌, ◌>>◌, fail_if, ltb, leb, length, is_empty,
}
use cresix.Base.Text.{Text, codes, text_key}
use cresix.Base.Map.{contains}
use cresix.Git.{GitError, invalid_path, limit_exceeded, Limits, validate_repo_path}

pub data FileChange : Type 0 where
  upsert : Text → Text → FileChange
  delete : Text → FileChange

abbrev pub path_of : FileChange → Text
path_of (upsert path content) = path
path_of (delete path) = path

abbrev pub size_of : FileChange → ℕ
size_of (upsert path content) = length content
size_of (delete path) = 0

-- The loop, from the paths and the bytes so far to the bytes of all changes.
unfoldable pub count_changes : Limits → List Text → ℕ → List FileChange → Result GitError ℕ
count_changes limits paths total [] = ok total
count_changes limits paths total (change ∷ changes) = do
  validate_repo_path (path_of change)
  fail_if (contains (path_of change) paths) (invalid_path (codes "duplicate changed path"))
  fail_if (ltb limits.max_file_bytes (size_of change))
      (limit_exceeded (codes "file change is too large"))
  fail_if (leb (2 ^ 64) (total + size_of change)) (limit_exceeded (codes "change size overflow"))
  count_changes limits (path_of change ∷ paths) (total + size_of change) changes

unfoldable pub validate_changes : Limits → List FileChange → Result GitError (Unit {0})
validate_changes limits changes = do
  fail_if (is_empty changes || ltb limits.max_changes (length changes))
      (limit_exceeded (codes "invalid number of file changes"))
  total ← count_changes limits [] 0 changes
  fail_if (ltb limits.max_total_bytes total)
      (limit_exceeded (codes "total change size is too large"))
