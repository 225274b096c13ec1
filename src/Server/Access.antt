-- ===== src/Server/Access.antt =====
-- What crates/c6-server/src/main.rs grants a caller, and its checks on what a request names. The
-- git store is a parameter: which project identifiers it opens.
use cresix.Base.{
  ℕ, Bool, false, not, ◌||◌, ◌&&◌, ◌==◌, ltb, leb, Option, none, some, Result, ok, err, ◌>>=◌, ◌>>◌,
  fail_if, ok_or, if◌then◌else◌, length, all, is_empty, in_range, take, ◌-◌,
}
use cresix.Base.Text.{
  Text, codes, text_eq, starts_with, ends_with, is_ascii_lowercase, is_ascii_uppercase,
  is_ascii_digit, is_ascii_alphanumeric, is_blank, has_control,
}
use cresix.Core.Permissions.{Role, consumer, reader, runner, contributor, maintainer, owner}
use cresix.Server.{ApiError, bad, forbidden, not_found, internal, GitHttpError}
use cresix.Server.Headers.{HeaderMap}
use cresix.Server.Tables.{Database, Membership, find, query, membership_of, is_project}
use cresix.Server.Authenticate.{Packages, Principal, TokenPrincipal, authenticate, authenticate_git}

unfoldable pub role_rank : Text → ℕ
role_rank r =
    if text_eq r (codes "consumer")
    then 0
    else if text_eq r (codes "reader")
    then 1
    else if text_eq r (codes "runner")
    then 2
    else if text_eq r (codes "contributor")
    then 3
    else if text_eq r (codes "maintainer")
    then 4
    else if text_eq r (codes "owner")
    then 5
    else 0

unfoldable pub parse_core_role : Text → Result ApiError Role
parse_core_role role =
    if text_eq role (codes "consumer")
    then ok consumer
    else if text_eq role (codes "reader")
    then ok reader
    else if text_eq role (codes "runner")
    then ok runner
    else if text_eq role (codes "contributor")
    then ok contributor
    else if text_eq role (codes "maintainer")
    then ok maintainer
    else if text_eq role (codes "owner")
    then ok owner
    else err internal

-- `role.is_some_and(|r| role_rank(&r) >= role_rank(min))`
abbrev pub has_rank : Option Membership → Text → Bool
has_rank none minimum = false
has_rank (some m) minimum = leb (role_rank minimum) (role_rank m.role)

unfoldable pub require_role : Database → Text → Text → Text → Result ApiError (Unit {0})
require_role db user_id workspace_id minimum = do
  role ← query db (membership_of db workspace_id user_id)
  fail_if (not (has_rank role minimum)) (forbidden minimum)

unfoldable pub project_workspace : Database → Text → Result ApiError Text
project_workspace db id = do
  row ← query db (find (λ p. text_eq p.id id) db.projects)
  project ← ok_or row (not_found (codes "project"))
  ok project.workspace_id

unfoldable pub project_auth :
    Packages → Database → Text → HeaderMap → Text → Text → Bool → Result ApiError Principal
project_auth p db now headers id minimum csrf = do
  principal ← authenticate p db now headers csrf
  workspace ← project_workspace db id
  require_role db principal.user_id workspace minimum
  ok principal

abbrev pub is_slug_byte : ℕ → Bool
is_slug_byte b = is_ascii_lowercase b || is_ascii_digit b || b == b'-'

abbrev pub is_slug : Text → Bool
is_slug s =
    leb 2 (length s)
    && leb (length s) 63
    && all is_slug_byte s
    && not (starts_with s (codes "-"))
    && not (ends_with s (codes "-"))

unfoldable pub validate_slug : Text → Result ApiError (Unit {0})
validate_slug s =
    fail_if (not (is_slug s))
      (bad (codes "slug must be 2-63 lowercase letters, digits, or hyphens"))

abbrev pub project_not_found : GitHttpError
project_not_found = record { status = 404; message = codes "project not found" }

abbrev pub git_failed : GitHttpError
git_failed = record { status = 500; message = codes "Git request failed" }

-- `strip_suffix(".git").filter(|slug| !slug.is_empty())`
unfoldable pub git_project_slug : Text → Result GitHttpError Text
git_project_slug name =
    if ends_with name (codes ".git") && ltb 4 (length name)
    then ok (take (length name - 4) name)
    else err project_not_found

abbrev pub or_git {ℓ} : {A : Type ℓ} → GitHttpError → Result ApiError A → Result GitHttpError A
or_git e (ok a) = ok a
or_git e (err _) = err e

abbrev pub restricts_other : Option Text → Text → Bool
restricts_other none id = false
restricts_other (some restricted) id = not (text_eq restricted id)

unfoldable pub authorize_git_project :
    (Text → Bool) → Database → TokenPrincipal → Text → Text → Text → Result GitHttpError Text
authorize_git_project opens db principal workspace_slug project_slug minimum_role = do
  or_git project_not_found (validate_slug workspace_slug)
  or_git project_not_found (validate_slug project_slug)
  row ← or_git git_failed (query db (find (is_project db workspace_slug project_slug) db.projects))
  project ← ok_or row project_not_found
  membership ← ok_or (membership_of db project.workspace_id principal.user_id) project_not_found
  fail_if
      (restricts_other principal.workspace_id project.workspace_id
        || restricts_other principal.project_id project.id)
      project_not_found
  fail_if (ltb (role_rank membership.role) (role_rank minimum_role))
      (record { status = 403; message = codes "Git access forbidden" })
  fail_if (not (opens project.id)) project_not_found
  ok project.id

-- The first three lines of `git_info_refs` and of `git_upload_pack`.
unfoldable pub admit_git :
    Packages
    → (Text → Bool)
    → Database
    → Text
    → HeaderMap
    → Text
    → Text
    → Result GitHttpError (TokenPrincipal × Text)
admit_git p opens db now headers workspace repository_name = do
  granted ← authenticate_git p db now headers
  project ← git_project_slug repository_name
  id ← authorize_git_project opens db granted.0 workspace project (codes "reader")
  ok (granted.0, id)

unfoldable pub validate_role : Text → Result ApiError (Unit {0})
validate_role r =
    fail_if
      (not (
        text_eq r (codes "consumer")
        || text_eq r (codes "reader")
        || text_eq r (codes "runner")
        || text_eq r (codes "contributor")
        || text_eq r (codes "maintainer")
        || text_eq r (codes "owner")))
      (bad (codes "invalid role"))

unfoldable pub nonempty : Text → Text → ℕ → Result ApiError (Unit {0})
nonempty name v max = fail_if (is_blank v || ltb max (length v)) (bad name)

unfoldable pub validate_credential_label : Text → Result ApiError (Unit {0})
validate_credential_label label = do
  nonempty (codes "label") label 80
  fail_if (has_control label) (bad (codes "label must contain printable characters"))

unfoldable pub validate_identity : Text → Text → Text → Result ApiError (Unit {0})
validate_identity name label key = do
  nonempty (codes "displayName") name 120
  nonempty (codes "deviceLabel") label 120
  fail_if (ltb (length key) 32 || ltb 8192 (length key))
      (bad (codes "publicKey must be 32-8192 characters"))

unfoldable pub validate_secret_name : Text → Result ApiError (Unit {0})
validate_secret_name s =
    fail_if
      (not (
        leb (length s) 128
        && not (is_empty s)
        && all (λ b. is_ascii_uppercase b || is_ascii_digit b || b == b'_') s))
      (bad (codes "secret name must contain only A-Z, 0-9, and underscore"))

unfoldable pub validate_bootstrap_token : Text → Bool
validate_bootstrap_token token =
    in_range 32 256 (length token)
    && all (λ b. is_ascii_alphanumeric b || b == b'-' || b == b'_') token
