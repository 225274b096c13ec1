-- ===== src/Server/Authenticate.antt =====
-- How crates/c6-server/src/main.rs authenticates a caller: by a session cookie, by a bearer token,
-- and by the Basic credentials of a git client. base64, SHA-256 and the JSON of a list of scopes
-- are parameters; the clock is an argument.
use cresix.Base.{
  ℕ, List, [], ◌∷◌, ◌++◌, Bool, true, false, not, ◌||◌, ◌==◌, ltb, Option, none, some, Result, ok,
  err, ◌>>=◌, ◌>>◌, fail_if, ok_or, if◌then◌else◌, length, take, drop, get_elem?, any,
}
use cresix.Base.Text.{
  split_once, Text, codes, text_eq, strip_prefix, has_byte, starts_with, is_one_of,
}
use cresix.Core.Credentials.{
  CredentialType, CredentialScope, cli, git, git_read, type_as_str, token_prefix, scope_as_str,
}
use cresix.Server.{
  ApiError, unauthenticated, forbidden, bad, not_found, conflict, internal, GitHttpError,
}
use cresix.Server.Headers.{HeaderMap, get_all, get_first, cookie, trim_slashes}
use cresix.Server.SecureEq.{secure_eq}
use cresix.Server.Tables.{
  Database, User, Session, Credential, find, query, user_of, is_live_session, is_live_credential,
}

-- `URL_SAFE_NO_PAD.decode`, `STANDARD.decode` with the check for UTF-8, `hash`, and
-- `serde_json::from_str` on a list of scopes.
pub record Packages : Type 0 where
  pub decode_url : Text → Option Text
  pub decode_standard : Text → Option Text
  pub hash : Text → Text
  pub read_scopes : Text → Option (List CredentialScope)

pub record Principal : Type 0 where
  pub user_id : Text
  pub display_name : Text
  pub session_id : Text
  pub csrf_hash : Text
  pub device_id : Option Text

pub record TokenPrincipal : Type 0 where
  pub user_id : Text
  pub display_name : Text
  pub workspace_id : Option Text
  pub project_id : Option Text

abbrev pub session_cookie : Text
session_cookie = codes "c6_session"

abbrev pub csrf_cookie : Text
csrf_cookie = codes "c6_csrf"

-- `value.and_then(|value| value.to_str().ok())`
abbrev pub to_str : Option (Option Text) → Option Text
to_str none = none
to_str (some value) = value

abbrev pub is_some {ℓ} : {A : Type ℓ} → Option A → Bool
is_some none = false
is_some (some a) = true

abbrev display_name_of : Option User → Text
display_name_of none = []
display_name_of (some u) = u.display_name

-- The row of the query: the user's columns are those of the join.
abbrev pub session_principal : Database → Session → Principal
session_principal db s = record {
  user_id = s.user_id;
  display_name = display_name_of (user_of db s.user_id);
  session_id = s.id;
  csrf_hash = s.csrf_hash;
  device_id = s.device_id;
}

-- The block under `if csrf`.
abbrev pub check_csrf : Packages → HeaderMap → Text → Result ApiError (Unit {0})
check_csrf p headers csrf_hash = do
  supplied ←
      ok_or (to_str (get_first headers (codes "x-c6-csrf")))
        (forbidden (codes "missing CSRF token"))
  twin ← ok_or (cookie headers csrf_cookie) (forbidden (codes "missing CSRF cookie"))
  fail_if (not (secure_eq supplied twin) || not (secure_eq csrf_hash (p.hash supplied)))
      (forbidden (codes "invalid CSRF token"))

unfoldable pub authenticate :
    Packages → Database → Text → HeaderMap → Bool → Result ApiError Principal
authenticate p db now headers csrf = do
  fail_if (is_some (get_first headers (codes "authorization"))) unauthenticated
  token ← ok_or (cookie headers session_cookie) unauthenticated
  row ← query db (find (is_live_session db (p.hash token) now) db.sessions)
  session ← ok_or row unauthenticated
  if csrf then check_csrf p headers session.csrf_hash else ok tt
  ok (session_principal db session)

-- `u8::is_ascii_whitespace`
abbrev is_ascii_whitespace : ℕ → Bool
is_ascii_whitespace b = b == 9 || b == 10 || b == 12 || b == 13 || b == 32

abbrev pub decodes_to : Option Text → ℕ → Bool
decodes_to none n = false
decodes_to (some bytes) n = length bytes == n

-- `rest.as_bytes().get(16) == Some(&b'_')`
abbrev is_underscore : Option ℕ → Bool
is_underscore none = false
is_underscore (some b) = b == b'_'

unfoldable pub parse_opaque_token : Packages → Text → CredentialType → Result ApiError Text
parse_opaque_token p token expected_type = do
  fail_if (ltb 256 (length token) || any is_ascii_whitespace token) unauthenticated
  rest ← ok_or (strip_prefix token (token_prefix expected_type ++ codes "_")) unauthenticated
  fail_if (not (length rest == 60) || not (is_underscore (get_elem? rest 16))) unauthenticated
  let public_id = take 16 rest
  let secret = drop 17 rest
  fail_if
      (not (length public_id == 16)
        || not (length secret == 43)
        || not (decodes_to (p.decode_url public_id) 12)
        || not (decodes_to (p.decode_url secret) 32))
      unauthenticated
  ok public_id

abbrev pub token_principal : Database → Credential → TokenPrincipal
token_principal db c = record {
  user_id = c.user_id;
  display_name = display_name_of (user_of db c.user_id);
  workspace_id = c.workspace_id;
  project_id = c.project_id;
}

abbrev pub lists : List CredentialScope → CredentialScope → Bool
lists scopes scope = any (λ s. text_eq (scope_as_str s) (scope_as_str scope)) scopes

-- The principal, and the credential whose `last_used_at` is written.
unfoldable pub authenticate_opaque_token :
    Packages
    → Database
    → Text
    → Text
    → CredentialType
    → CredentialScope
    → Result ApiError (TokenPrincipal × Text)
authenticate_opaque_token p db now token expected_type required_scope = do
  public_id ← parse_opaque_token p token expected_type
  row ←
      query db
        (find (is_live_credential db public_id (type_as_str expected_type) now) db.credentials)
  credential ← ok_or row unauthenticated
  fail_if (not (secure_eq credential.verifier (p.hash token))) unauthenticated
  scopes ← ok_or (p.read_scopes credential.scopes) internal
  fail_if (not (lists scopes required_scope))
      (forbidden (codes "credential scope does not allow this operation"))
  ok (token_principal db credential, credential.id)

abbrev origin_matches : Text → Option Text → Result ApiError (Unit {0})
origin_matches public_base_url none = err (forbidden (codes "invalid Origin header"))
origin_matches public_base_url (some origin) =
    fail_if (not (text_eq (trim_slashes origin) public_base_url))
      (forbidden (codes "cross-origin request rejected"))

abbrev pub check_origin : Text → Option (Option Text) → Result ApiError (Unit {0})
check_origin public_base_url none = ok tt
check_origin public_base_url (some origin) = origin_matches public_base_url origin

unfoldable pub validate_optional_origin : Text → HeaderMap → Result ApiError (Unit {0})
validate_optional_origin public_base_url headers =
    check_origin public_base_url (get_first headers (codes "origin"))

-- The one header of this name: `None` for none, for several and for one that is no text.
abbrev pub only_value : List (Option Text) → Option Text
only_value [] = none
only_value (value ∷ []) = value
only_value (value ∷ more ∷ values) = none

unfoldable pub authenticate_bearer :
    Packages
    → Database
    → Text
    → Text
    → HeaderMap
    → CredentialScope
    → Result ApiError (TokenPrincipal × Text)
authenticate_bearer p db public_base_url now headers required_scope = do
  fail_if (is_some (cookie headers session_cookie)) unauthenticated
  validate_optional_origin public_base_url headers
  authorization ← ok_or (only_value (get_all headers (codes "authorization"))) unauthenticated
  token ← ok_or (strip_prefix authorization (codes "Bearer ")) unauthenticated
  authenticate_opaque_token p db now token cli required_scope

abbrev pub git_unauthenticated : GitHttpError
git_unauthenticated = record { status = 401; message = codes "authentication required" }

abbrev pub git_forbidden : GitHttpError
git_forbidden = record { status = 403; message = codes "Git access forbidden" }

-- The `map_err` of `authenticate_git`.
abbrev pub map_token_error {ℓ} : {A : Type ℓ} → Result ApiError A → Result GitHttpError A
map_token_error (ok a) = ok a
map_token_error (err (forbidden message)) = err git_forbidden
map_token_error (err unauthenticated) = err git_unauthenticated
map_token_error (err (bad message)) = err git_unauthenticated
map_token_error (err (not_found message)) = err git_unauthenticated
map_token_error (err (conflict message)) = err git_unauthenticated
map_token_error (err internal) = err git_unauthenticated

unfoldable pub authenticate_git :
    Packages → Database → Text → HeaderMap → Result GitHttpError (TokenPrincipal × Text)
authenticate_git p db now headers = do
  fail_if (is_some (cookie headers session_cookie)) git_unauthenticated
  value ← ok_or (only_value (get_all headers (codes "authorization"))) git_unauthenticated
  fail_if (ltb 1024 (length value)) git_unauthenticated
  encoded ← ok_or (strip_prefix value (codes "Basic ")) git_unauthenticated
  decoded ← ok_or (p.decode_standard encoded) git_unauthenticated
  pair ← ok_or (split_once b':' decoded) git_unauthenticated
  fail_if (not (text_eq pair.0 (codes "c6")) || has_byte b':' pair.1) git_unauthenticated
  map_token_error (authenticate_opaque_token p db now pair.1 git git_read)

abbrev is_bearer : Option Text → Bool
is_bearer none = false
is_bearer (some value) = starts_with value (codes "Bearer ")

-- `!matches!(v, "same-origin" | "same-site" | "none")` of a readable header
abbrev pub is_cross_site : Option Text → Bool
is_cross_site none = false
is_cross_site (some v) =
    not (is_one_of (codes "same-origin" ∷ codes "same-site" ∷ codes "none" ∷ []) v)

abbrev pub is_safe_method : Text → Bool
is_safe_method method = is_one_of (codes "GET" ∷ codes "HEAD" ∷ codes "OPTIONS" ∷ []) method

abbrev pub check_unsafe : Text → HeaderMap → Result ApiError (Unit {0})
check_unsafe public_base_url headers = do
  origin ←
      ok_or (to_str (get_first headers (codes "origin")))
        (forbidden (codes "Origin header required for unsafe requests"))
  fail_if (not (text_eq (trim_slashes origin) public_base_url))
      (forbidden (codes "cross-origin request rejected"))
  fail_if (is_cross_site (to_str (get_first headers (codes "sec-fetch-site"))))
      (forbidden (codes "cross-site request rejected"))

-- The middleware in front of every handler, up to the handler.
unfoldable pub same_origin : Text → Text → HeaderMap → Result ApiError (Unit {0})
same_origin public_base_url method headers =
    if is_bearer (to_str (get_first headers (codes "authorization")))
    then validate_optional_origin public_base_url headers
    else if is_safe_method method
    then ok tt
    else check_unsafe public_base_url headers
