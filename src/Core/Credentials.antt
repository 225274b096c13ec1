-- ===== src/Core/Credentials.antt =====
-- `CredentialType` and `CredentialScope` of crates/c6-core/src/model.rs.
use cresix.Base.{
  List, [], ◌∷◌, ◌≡◌, ◌↔◌, refl, Bool, true, false, Result, ok, err, if◌then◌else◌, arith,
}
use cresix.Base.Text.{Text, codes, text_eq, text_key}

pub data CredentialType : Type 0 where
  cli git : CredentialType

pub data CredentialScope : Type 0 where
  api_read api_write git_read git_write : CredentialScope

-- `CredentialType::as_str`
unfoldable pub type_as_str : CredentialType → Text
type_as_str cli = codes "cli"
type_as_str git = codes "git"

unfoldable pub token_prefix : CredentialType → Text
token_prefix cli = codes "c6c_v1"
token_prefix git = codes "c6g_v1"

unfoldable pub allowed_scopes : CredentialType → List CredentialScope
allowed_scopes cli = api_read ∷ api_write ∷ []
allowed_scopes git = git_read ∷ git_write ∷ []

unfoldable pub read_scope : CredentialType → CredentialScope
read_scope cli = api_read
read_scope git = git_read

-- The `matches!` of `permits_scope`.
unfoldable pub permits_scope : CredentialType → CredentialScope → Bool
permits_scope cli api_read = true
permits_scope cli api_write = true
permits_scope git git_read = true
permits_scope git git_write = true
permits_scope _ _ = false

pub data ParseError : Type 0 where
  unknown_type unknown_scope : ParseError

-- `CredentialType::from_str`
unfoldable pub type_from_str : Text → Result ParseError CredentialType
type_from_str value =
    if text_eq value (codes "cli")
    then ok cli
    else if text_eq value (codes "git")
    then ok git
    else err unknown_type

-- `CredentialScope::as_str`
unfoldable pub scope_as_str : CredentialScope → Text
scope_as_str api_read = codes "api:read"
scope_as_str api_write = codes "api:write"
scope_as_str git_read = codes "git:read"
scope_as_str git_write = codes "git:write"

-- `CredentialScope::from_str`
unfoldable pub scope_from_str : Text → Result ParseError CredentialScope
scope_from_str value =
    if text_eq value (codes "api:read")
    then ok api_read
    else if text_eq value (codes "api:write")
    then ok api_write
    else if text_eq value (codes "git:read")
    then ok git_read
    else if text_eq value (codes "git:write")
    then ok git_write
    else err unknown_scope

type_sound : (v : Text) (t : CredentialType) → type_from_str v ≡ ok t → v ≡ type_as_str t
unfolding type_from_str type_as_str
type_sound v t h =
    ground (arith, text_key.beq_iff v (codes "cli"), text_key.beq_iff v (codes "git"))

type_complete : (t : CredentialType) → type_from_str (type_as_str t) ≡ ok t
unfolding type_from_str type_as_str
type_complete cli = refl
type_complete git = refl

scope_sound : (v : Text) (t : CredentialScope) → scope_from_str v ≡ ok t → v ≡ scope_as_str t
unfolding scope_from_str scope_as_str
scope_sound v t h = ground (
  arith,
  text_key.beq_iff v (codes "api:read"),
  text_key.beq_iff v (codes "api:write"),
  text_key.beq_iff v (codes "git:read"),
  text_key.beq_iff v (codes "git:write"),
)

scope_complete : (t : CredentialScope) → scope_from_str (scope_as_str t) ≡ ok t
unfolding scope_from_str scope_as_str
scope_complete api_read = refl
scope_complete api_write = refl
scope_complete git_read = refl
scope_complete git_write = refl

-- A text parses as a credential type, or as a scope, exactly when it is the spelling that
-- `as_str` writes for it, so each spelling is read back and no other text is accepted.
from_str_iff :
    (v : Text) (t : CredentialType) (scope : CredentialScope)
    → ((type_from_str v ≡ ok t) ↔ (v ≡ type_as_str t))
      × ((scope_from_str v ≡ ok scope) ↔ (v ≡ scope_as_str scope))
from_str_iff v t scope = (
  (type_sound v t, λ e. rw e (type_complete t)),
  (scope_sound v scope, λ e. rw e (scope_complete scope)),
)
