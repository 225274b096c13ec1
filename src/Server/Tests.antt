-- ===== src/Server/Tests.antt =====
-- The theorems on the server's access checks at concrete requests, for
-- crates/c6-server/src/main.rs.
use cresix.Base.{◌*◌, ◌/◌, ◌≡◌, ◌↔◌, [], ◌∷◌, ◌++◌, true, false, none, some, ok, refl, length, take}
use cresix.Base.Text.{split_once, Text, codes}
use cresix.Core.Credentials.{git, git_read, type_as_str, token_prefix, scope_as_str}
use cresix.Server.Access.{
  admit_git, authorize_git_project, git_project_slug, role_rank, validate_slug,
}
use cresix.Server.Authenticate.{
  Packages, Principal, TokenPrincipal, authenticate, authenticate_git, authenticate_opaque_token,
  parse_opaque_token, session_cookie, same_origin, is_cross_site, to_str,
}
use cresix.Server.GitAccess.{Presents, Vouches, Readable, admit_git_lem}
use cresix.Server.Granted.{IsSession, mutation_guarded}
use cresix.Server.Headers.{HeaderMap, get_first, get_all, cookie, trim_slashes}
use cresix.Server.SecureEq.{secure_eq, difference, secure_eq_iff}
use cresix.Server.Tables.{
  Database, Credential, Session, is_live_credential, is_live_session, is_after, is_project,
}

secure_eq_iff_example :
    (secure_eq (codes "token") (codes "token") ≡ true) ↔ (codes "token" ≡ codes "token")
secure_eq_iff_example = secure_eq_iff (codes "token") (codes "token")

one_byte_off : secure_eq (codes "token") (codes "tokem") ≡ false
unfolding secure_eq difference
one_byte_off = refl

abbrev packages : Packages
packages = record {
  decode_url = λ t. some (take (length t * 3 / 4) t);
  decode_standard = λ t. some t;
  hash = λ t. t;
  read_scopes = λ t. some (git_read ∷ []);
}

abbrev git_token : Text
git_token = codes "c6g_v1_0123456789abcdef_0123456789abcdefghijklmnopqrstuvwxyzABCDEFG"

abbrev sample_credential : Credential
sample_credential = record {
  id = codes "k1";
  user_id = codes "u1";
  device_id = none;
  credential_type = codes "git";
  public_id = codes "0123456789abcdef";
  verifier = git_token;
  scopes = codes "[git:read]";
  workspace_id = some (codes "w1");
  project_id = some (codes "p1");
  expires_at = codes "2030";
  revoked_at = none;
}

abbrev sample_session : Session
sample_session = record {
  id = codes "s1";
  user_id = codes "u1";
  device_id = none;
  token_hash = codes "secret";
  csrf_hash = codes "twin";
  expires_at = codes "2030";
  revoked_at = none;
}

abbrev sample_db : Database
sample_db = record {
  failing = false;
  users = record { id = codes "u1"; display_name = codes "Ada"; revoked_at = none } ∷ [];
  devices = [];
  sessions = sample_session ∷ [];
  credentials = sample_credential ∷ [];
  workspaces = record { id = codes "w1"; slug = codes "home" } ∷ [];
  memberships =
      record { workspace_id = codes "w1"; user_id = codes "u1"; role = codes "contributor" } ∷ [];
  projects = record { id = codes "p1"; workspace_id = codes "w1"; slug = codes "site" } ∷ [];
}

abbrev git_headers : HeaderMap
git_headers = (codes "authorization", some (codes "Basic c6:" ++ git_token)) ∷ []

abbrev reader_principal : TokenPrincipal
reader_principal = record {
  user_id = codes "u1";
  display_name = codes "Ada";
  workspace_id = some (codes "w1");
  project_id = some (codes "p1");
}

admits :
    admit_git packages
      (λ id. true)
      sample_db
      (codes "2026")
      git_headers
      (codes "home")
      (codes "site.git")
    ≡ ok (reader_principal, codes "p1")
unfolding admit_git authenticate_git authenticate_opaque_token parse_opaque_token
    authorize_git_project git_project_slug role_rank validate_slug type_as_str token_prefix
    scope_as_str get_all get_first cookie split_once secure_eq difference is_live_credential
    is_project is_after
admits = refl

admit_git_lem_example :
    (cookie git_headers session_cookie ≡ none)
    × ((token : Text) × Presents packages git_headers token
        × Vouches packages sample_db (codes "2026") git git_read token reader_principal)
    × ((slug : Text) × (git_project_slug (codes "site.git") ≡ ok slug)
        × Readable
            (λ id. true)
            sample_db
            reader_principal
            (codes "home")
            slug
            (codes "reader")
            (codes "p1"))
admit_git_lem_example =
    admit_git_lem packages (λ id. true) sample_db (codes "2026") git_headers (codes "home")
      (codes "site.git") reader_principal (codes "p1") admits

abbrev browser_headers : HeaderMap
browser_headers =
    (codes "cookie", some (codes "c6_session=secret; c6_csrf=twin"))
    ∷ (codes "x-c6-csrf", some (codes "twin"))
    ∷ (codes "origin", some (codes "https://c6.example/"))
    ∷ []

abbrev browser_principal : Principal
browser_principal = record {
  user_id = codes "u1";
  display_name = codes "Ada";
  session_id = codes "s1";
  csrf_hash = codes "twin";
  device_id = none;
}

session_found :
    authenticate packages sample_db (codes "2026") browser_headers true ≡ ok browser_principal
unfolding authenticate get_first cookie split_once secure_eq difference is_live_session is_after
session_found = refl

browser_passes : same_origin (codes "https://c6.example") (codes "POST") browser_headers ≡ ok tt
unfolding same_origin get_first
browser_passes = refl

mutation_guarded_example :
    IsSession packages sample_db (codes "2026") browser_headers browser_principal
    × ((origin : Text) × (get_first browser_headers (codes "origin") ≡ some (some origin))
        × (trim_slashes origin ≡ codes "https://c6.example")
        × (is_cross_site (to_str (get_first browser_headers (codes "sec-fetch-site"))) ≡ false))
mutation_guarded_example =
    mutation_guarded packages sample_db (codes "2026") (codes "https://c6.example") (codes "POST")
      browser_headers browser_principal refl browser_passes session_found
