-- ===== src/Git/ChangeLimits.antt =====
-- What `Repository::validate_changes` of crates/c6-git/src/lib.rs accepts.
use cresix.Base.{
  ℕ, ◌+◌, ◌≤◌, ◌<◌, ◌^◌, ◌≡◌, ◌↔◌, List, [], ◌∷◌, map, All, false, ok, arith, length, Result-cases,
  inl, inr,
}
use cresix.Base.Text.{Text, text_key}
use cresix.Base.Map.{contains, Distinct}
use cresix.Base.Fresh.{Fresh, Fresh-Distinct}
use cresix.Git.{Limits, validate_repo_path}
use cresix.Git.Changes.{FileChange, path_of, size_of, count_changes, validate_changes}

pub total_size : List FileChange → ℕ
total_size [] = 0
total_size (c ∷ cs) = size_of c + total_size cs

-- A path that is allowed, and content of at most the size of a file.
abbrev pub IsValidChange : Limits → FileChange → Type 0
IsValidChange limits c =
    (validate_repo_path (path_of c) ≡ ok tt) × (size_of c ≤ limits.max_file_bytes)

abbrev pub paths_of : List FileChange → List Text
paths_of changes = map (λ c. path_of c) changes

count_step :
    (limits : Limits) (paths : List Text) (total : ℕ) (c : FileChange) (cs : List FileChange)
    (out : ℕ)
    → (count_changes limits paths total (c ∷ cs) ≡ ok out) ↔ (
        IsValidChange limits c
        × (contains (path_of c) paths ≡ false)
        × (total + size_of c < 2 ^ 64)
        × (count_changes limits (path_of c ∷ paths) (total + size_of c) cs ≡ ok out))
unfolding count_changes
count_step limits paths total c cs out = ground arith

count_iff :
    (limits : Limits) (paths : List Text) (total : ℕ) (cs : List FileChange) (out : ℕ)
    → total < 2 ^ 64
    → (count_changes limits paths total cs ≡ ok out) ↔ (
        (out ≡ total + total_size cs)
        × (out < 2 ^ 64)
        × All (IsValidChange limits) cs
        × Fresh paths (paths_of cs))
unfolding total_size
count_iff limits paths total [] out small =
    unfold count_changes in (λ h. (ground arith, ground arith, tt, tt), λ q. ground arith)
count_iff limits paths total (c ∷ cs) out small =
    let step = count_step limits paths total c cs out in
    (
      λ h.
          let (valid, fresh, fits, rest) = step.0 h in
          let (same, bound, all_valid, all_fresh) =
            (count_iff limits (path_of c ∷ paths) (total + size_of c) cs out fits).0 rest in
          (omega arith, bound, (valid, all_valid), (fresh, all_fresh)),
      λ q.
          let (same, bound, (valid, all_valid), (fresh, all_fresh)) = q in
          let fits : total + size_of c < 2 ^ 64 = omega arith in
          step.1 (
            valid,
            fresh,
            fits,
            (count_iff limits (path_of c ∷ paths) (total + size_of c) cs out fits).1
                (omega arith, bound, all_valid, all_fresh),
          ),
    )

-- Changes are accepted exactly when there is at least one and at most the limit of them, each
-- has an allowed path and a size within the limit of a file, no path is changed twice, and they
-- fit the total limit together. The limits are numbers of 64 bits, so the guard against overflow
-- refuses nothing more.
pub validate_changes_iff :
    (limits : Limits) (changes : List FileChange)
    → limits.max_total_bytes < 2 ^ 64
    → (validate_changes limits changes ≡ ok tt) ↔ (
        (1 ≤ length changes)
        × (length changes ≤ limits.max_changes)
        × All (IsValidChange limits) changes
        × Distinct (paths_of changes)
        × (total_size changes ≤ limits.max_total_bytes))
unfolding validate_changes
validate_changes_iff limits changes bound = (
  λ h. elim (Result-cases (count_changes limits [] 0 changes)) [
    | inr (e, failed) ↦ ground arith
    | inl (total, passed) ↦
        let (same, small, valid, fresh) =
          (count_iff limits [] 0 changes total (omega arith)).0 passed in
        (
          ground arith,
          ground arith,
          valid,
          (Fresh-Distinct (paths_of changes)).0 fresh,
          ground arith,
        )
  ],
  λ q.
      let (some_change, few, valid, distinct, fits) = q in
      let passed =
        (count_iff limits [] 0 changes (total_size changes) (omega arith)).1
          (omega arith, omega arith, valid, (Fresh-Distinct (paths_of changes)).1 distinct) in
      ground arith,
)
