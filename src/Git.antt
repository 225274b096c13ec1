-- ===== src/Git.antt =====
-- crates/c6-git/src/lib.rs: the limits of a repository and the checks on what a caller asks to
-- write. The changes of a commit, the commands that run git on a repository, the store of
-- repositories, and the git backend over HTTP are children.
pub mod Changes
pub mod SmartHttp
pub mod Commands
pub mod Store
pub mod ChangeLimits
pub mod Tests
use cresix.Base.{
  ℕ, ◌+◌, List, [], ◌∷◌, Bool, true, false, not, ◌&&◌, ◌||◌, Result, ok, err, ltb, leb, ◌==◌,
  in_range, if◌then◌else◌, length, all, any, is_empty, Option, none, some, head?, map,
}
use cresix.Base.Text.{
  Text, codes, is_ascii_alphanumeric, is_ascii_digit, is_ascii_uppercase, is_blank, starts_with,
  ends_with, has_text, has_byte, split, text_eq,
}

-- An error of input or output stands for all of its kinds.
pub data GitError : Type 0 where
  invalid_slug invalid_ref invalid_path invalid_metadata : Text → GitError
  already_exists not_found revision_not_found limit_exceeded : Text → GitError
  concurrent_update git_unavailable io : GitError
  command_failed invalid_output : Text → GitError

pub record Limits : Type 0 where
  pub max_changes : ℕ  -- usize
  pub max_file_bytes : ℕ  -- usize
  pub max_total_bytes : ℕ  -- usize
  pub max_read_bytes : ℕ  -- usize
  pub max_log_entries : ℕ  -- usize

abbrev first_is_alphanumeric : Option ℕ → Bool
first_is_alphanumeric none = false
first_is_alphanumeric (some byte) = is_ascii_alphanumeric byte

abbrev is_slug_byte : ℕ → Bool
is_slug_byte byte = is_ascii_alphanumeric byte || byte == b'-' || byte == b'_'

unfoldable pub validate_slug : Text → Result GitError (Unit {0})
validate_slug slug =
    if in_range 1 64 (length slug)
      && first_is_alphanumeric (head? slug)
      && all is_slug_byte slug
      && not (ends_with slug (codes ".git"))
    then ok tt
    else err (invalid_slug slug)

-- The characters of the last test of `validate_branch`, all in ASCII.
abbrev pub is_ref_special : ℕ → Bool
is_ref_special byte = any (λ c. c == byte) (codes " ~^:?*[\\")

unfoldable pub validate_branch : Text → Result GitError (Unit {0})
validate_branch branch =
    if is_empty branch
      || ltb 255 (length branch)
      || starts_with branch (codes "-")
      || starts_with branch (codes "/")
      || ends_with branch (codes "/")
      || ends_with branch (codes ".")
      || has_text (codes "..") branch
      || has_text (codes "@{") branch
      || has_text (codes "//") branch
      || ends_with branch (codes ".lock")
      || any (λ component. starts_with component (codes ".")) (split b'/' branch)
      || any (λ byte. ltb byte 0x20 || byte == 0x7f) branch
      || any is_ref_special branch
    then err (invalid_ref branch)
    else ok tt

abbrev to_ascii_lowercase : ℕ → ℕ
to_ascii_lowercase byte = if is_ascii_uppercase byte then byte + 32 else byte

-- `part.eq_ignore_ascii_case(".git")`
abbrev pub is_dot_git : Text → Bool
is_dot_git part = text_eq (map to_ascii_lowercase part) (codes ".git")

abbrev pub is_bad_part : Text → Bool
is_bad_part part =
    is_empty part || text_eq part (codes ".") || text_eq part (codes "..") || is_dot_git part

abbrev pub is_path_control : ℕ → Bool
is_path_control byte = byte == 0 || ltb byte 0x20 || byte == 0x7f

unfoldable pub validate_repo_path : Text → Result GitError (Unit {0})
validate_repo_path path =
    if is_empty path
      || ltb 4096 (length path)
      || starts_with path (codes "/")
      || starts_with path (codes "-")
      || ends_with path (codes "/")
      || has_byte b'\\' path
      || any is_path_control path
      || any is_bad_part (split b'/' path)
    then err (invalid_path path)
    else ok tt

pub record CommitIdentity : Type 0 where
  pub name : Text
  pub email : Text

abbrev is_email_bad : ℕ → Bool
is_email_bad byte = leb byte b' ' || byte == 0x7f || byte == b'<' || byte == b'>'

unfoldable pub validate_identity : CommitIdentity → Result GitError (Unit {0})
validate_identity identity =
    let valid_name =
      not (is_blank identity.name)
      && leb (length identity.name) 200
      && not (any (λ byte. byte == 0 || byte == b'\n' || byte == b'\r') identity.name) in
    let valid_email =
      not (is_empty identity.email)
      && leb (length identity.email) 320
      && has_byte b'@' identity.email
      && not (any is_email_bad identity.email) in
    if valid_name && valid_email
    then ok tt
    else err (invalid_metadata (codes "invalid author name or email"))

unfoldable pub validate_message : Text → Result GitError (Unit {0})
validate_message message =
    if is_blank message || ltb 65536 (length message) || has_byte 0 message
    then err (invalid_metadata (codes "invalid commit message"))
    else ok tt
