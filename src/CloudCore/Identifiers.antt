-- ===== src/CloudCore/Identifiers.antt =====
-- crates/c6-cloud-core/src/identifiers.rs: slugs and labels. The proofs are in the children.
pub mod Kebab
pub mod Tests
use cresix.Base.{
  ℕ, List, [], ◌∷◌, none, some, Bool, true, false, not, ◌&&◌, ◌||◌, ◌-◌, Result, ok, err, ◌>>=◌,
  ◌>>◌, fail_if, ltb, ◌==◌, in_range, if◌then◌else◌, length, get_elem?, any, is_empty,
}
use cresix.Base.Text.{
  Text, codes, is_ascii_lowercase, is_ascii_digit, is_one_of, is_trimmed, has_control,
}

pub data IdentifierError : Type 0 where
  length_error : Text → ℕ → ℕ → IdentifierError
  boundary : Text → IdentifierError
  characters : Text → IdentifierError
  reserved_name : Text → IdentifierError
  unsafe_label : IdentifierError

abbrev pub is_alnum : ℕ → Bool
is_alnum byte = is_ascii_lowercase byte || is_ascii_digit byte

-- `is_alnum(bytes[i])`. An index out of range would panic; each caller's minimal length is at
-- least 1, so that both indices of `validate_slug` are in range.
unfoldable pub is_alnum_at : Text → ℕ → Bool
is_alnum_at bytes i = elim (get_elem? bytes i) [ none ↦ false | some byte ↦ is_alnum byte ]

-- `bytes.windows(2).any(|pair| pair == b"--")`
unfoldable pub has_double_hyphen : Text → Bool
has_double_hyphen [] = false
has_double_hyphen (a ∷ []) = false
has_double_hyphen (a ∷ b ∷ s) = (a == b'-' && b == b'-') || has_double_hyphen (b ∷ s)

unfoldable pub validate_slug : Text → Text → ℕ → ℕ → List Text → Result IdentifierError (Unit {0})
validate_slug value kind min max reserved = do
  let len = length value
  fail_if (not (in_range min max len)) (length_error kind min max)
  fail_if (not (is_alnum_at value 0) || not (is_alnum_at value (len - 1))) (boundary kind)
  fail_if (any (λ byte. not (is_alnum byte) && not (byte == b'-')) value || has_double_hyphen value)
      (characters kind)
  fail_if (is_one_of reserved value) (reserved_name kind)
  ok tt

abbrev pub reserved_names : List Text
reserved_names =
    codes "api"
    ∷ codes "assets"
    ∷ codes "bootstrap"
    ∷ codes "connector"
    ∷ codes "directory"
    ∷ codes "installations"
    ∷ codes "login"
    ∷ codes "logout"
    ∷ codes "relay"
    ∷ codes "session"
    ∷ codes "settings"
    ∷ codes "status"
    ∷ codes "workspaces"
    ∷ []

-- The types that the macro `slug_identifier!` declares; `new` is each type's constructor.
pub record AccountHandle : Type 0 where
  pub value : Text

pub record WorkspaceNamespace : Type 0 where
  pub value : Text

pub record ProjectSlug : Type 0 where
  pub value : Text

unfoldable pub account_handle_new : Text → Result IdentifierError AccountHandle
account_handle_new value = do
  validate_slug value (codes "account handle") 3 39 reserved_names
  ok (record { value = value })

unfoldable pub workspace_namespace_new : Text → Result IdentifierError WorkspaceNamespace
workspace_namespace_new value = do
  validate_slug value (codes "workspace namespace") 3 63 reserved_names
  ok (record { value = value })

unfoldable pub project_slug_new : Text → Result IdentifierError ProjectSlug
project_slug_new value = do
  validate_slug value (codes "project slug") 1 100 []
  ok (record { value = value })

pub record InstallationLabel : Type 0 where
  pub value : Text

abbrev pub label_max_len : ℕ
label_max_len = 80

unfoldable pub installation_label_new : Text → Result IdentifierError InstallationLabel
installation_label_new value = do
  fail_if (is_empty value || ltb label_max_len (length value))
      (length_error (codes "installation label") 1 label_max_len)
  fail_if (not (is_trimmed value) || has_control value) unsafe_label
  ok (record { value = value })
