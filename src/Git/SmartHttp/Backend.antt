-- ===== src/Git/SmartHttp/Backend.antt =====
-- Making a `SmartHttpBackend` of crates/c6-git/src/smart_http.rs: the git executable is found on
-- the search path or given, and the search path of the child is fixed. What the file system says
-- of a path, and the joining of paths, are parameters.
use cresix.Base.{
  List, [], ◌∷◌, ◌++◌, Bool, not, Option, none, some, Result, ok, ◌>>=◌, ◌>>◌, fail_if, ok_or,
  if◌then◌else◌, any,
}
use cresix.Base.Text.{Text, codes, text_eq}
use cresix.Git.SmartHttp.{SmartHttpLimits, SmartHttpError, unavailable, validate_limits}

pub record SmartHttpBackend : Type 0 where
  pub git_executable : Text
  pub child_path : Text
  pub limits : SmartHttpLimits

-- A path that may be git: whether it is a file, its canonical form, and of that whether it is a
-- file, and its parent.
pub record Candidate : Type 0 where
  pub is_file : Bool
  pub canonical : Option Text
  pub canonical_is_file : Bool
  pub parent : Option Text

abbrev pub push_trusted : List Text → List Text → List Text
push_trusted paths [] = paths
push_trusted paths (trusted ∷ rest) =
    push_trusted (if any (text_eq trusted) paths then paths else paths ++ (trusted ∷ [])) rest

abbrev pub trusted_paths : List Text
trusted_paths = codes "/usr/bin" ∷ codes "/bin" ∷ []

unfoldable pub with_git_executable :
    (List Text → Option Text) → Candidate → SmartHttpLimits → Result SmartHttpError SmartHttpBackend
with_git_executable join_paths candidate limits = do
  validate_limits limits
  git_executable ← ok_or candidate.canonical unavailable
  fail_if (not candidate.canonical_is_file) unavailable
  parent ← ok_or candidate.parent unavailable
  child_path ← ok_or (join_paths (push_trusted (parent ∷ []) trusted_paths)) unavailable
  ok (record { git_executable = git_executable; child_path = child_path; limits = limits })

-- The loop over the directories of `PATH`, each with the candidate in it.
abbrev pub find_git : List Candidate → Option Candidate
find_git [] = none
find_git (candidate ∷ rest) = if candidate.is_file then some candidate else find_git rest

unfoldable pub from_environment :
    (List Text → Option Text)
    → Option (List Candidate)
    → SmartHttpLimits
    → Result SmartHttpError SmartHttpBackend
from_environment join_paths path limits = do
  candidates ← ok_or path unavailable
  candidate ← ok_or (find_git candidates) unavailable
  with_git_executable join_paths candidate limits
