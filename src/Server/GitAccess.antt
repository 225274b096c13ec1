-- ===== src/Server/GitAccess.antt =====
-- Which git clients crates/c6-server/src/main.rs lets read a project.
use cresix.Base.{
  ℕ, ◌≤◌, ◌≡◌, List, [], ◌∷◌, ◌++◌, Option, Bool, true, false, not, ◌||◌, ltb, none, some, Result,
  ok, err, >>=-eq-ok, ok_or, arith, refl, sym, ap, subst, ◌∙◌, length,
}
use cresix.Base.Prefix.{strip_prefix_sound, split_once_sound}
use cresix.Base.Text.{split_once, Text, codes, text_eq, text_key, strip_prefix, has_byte}
use cresix.Core.Credentials.{CredentialType, CredentialScope, git, git_read, type_as_str}
use cresix.Server.{
  ApiError, GitHttpError, unauthenticated, forbidden, internal, bad, not_found, conflict,
}
use cresix.Server.Access.{
  role_rank, authorize_git_project, admit_git, git_project_slug, restricts_other, or_git,
  validate_slug, project_not_found, git_failed,
}
use cresix.Server.Authenticate.{
  Packages, TokenPrincipal, parse_opaque_token, authenticate_opaque_token, authenticate_git,
  token_principal, lists, map_token_error, git_unauthenticated, is_some, session_cookie, only_value,
}
use cresix.Server.Granted.{unnegated, guarded, given, queried, find_holds, ok_inj, absent}
use cresix.Server.Headers.{HeaderMap, cookie, get_all}
use cresix.Server.SecureEq.{secure_eq, secure_eq_iff}
use cresix.Server.Tables.{
  Database, Credential, Project, Membership, find, query, is_live_credential, is_project,
  membership_of,
}

-- What a token proves of a principal: there is a credential of the type that is live, has the
-- hash of this token as its verifier, and has the scope.
pub record Vouches (p : Packages) (db : Database) (now : Text) (t : CredentialType)
    (scope : CredentialScope) (token : Text) (principal : TokenPrincipal) : Type 0 where
  pub public_id : Text
  pub well_formed : parse_opaque_token p token t ≡ ok public_id
  pub credential : Credential
  pub live : is_live_credential db public_id (type_as_str t) now credential ≡ true
  pub is_token : credential.verifier ≡ p.hash token
  pub scopes : List CredentialScope
  pub has_scopes : p.read_scopes credential.scopes ≡ some scopes
  pub in_scope : lists scopes scope ≡ true
  pub is_principal : principal ≡ token_principal db credential

-- The headers present a token: the one Authorization header is `Basic` with the base64 form of
-- `c6:` and the token, which has no colon.
pub record Presents (p : Packages) (headers : HeaderMap) (token : Text) : Type 0 where
  pub encoded : Text
  pub sole : get_all headers (codes "authorization") ≡ some (codes "Basic " ++ encoded) ∷ []
  pub short : length (codes "Basic " ++ encoded) ≤ 1024
  pub decoded : p.decode_standard encoded ≡ some (codes "c6:" ++ token)
  pub no_colon : has_byte b':' token ≡ false

sole_value :
    (values : List (Option Text)) (v : Text) → only_value values ≡ some v → values ≡ some v ∷ []
sole_value [] v h = cc
sole_value (w ∷ []) v h = ap (λ x. x ∷ []) h
sole_value (w ∷ x ∷ values) v h = cc

not_below : (m n : ℕ) → ltb m n ≡ false → n ≤ m
not_below m n h = ground arith

both_false : (b c : Bool) → (b || c) ≡ false → (b ≡ false) × (c ≡ false)
both_false true c h = cc
both_false false c h = (refl, h)

opaque_Vouches :
    (p : Packages) (db : Database) (now token : Text) (t : CredentialType) (scope : CredentialScope)
    (granted : TokenPrincipal × Text)
    → authenticate_opaque_token p db now token t scope ≡ ok granted
    → Vouches p db now t scope token granted.0
unfolding authenticate_opaque_token
opaque_Vouches p db now token t scope granted h =
    let (public_id, well_formed, h1) = >>=-eq-ok (parse_opaque_token p token t) _ h in
    let rows = find (is_live_credential db public_id (type_as_str t) now) db.credentials in
    let (row, e2, h2) = >>=-eq-ok (query db rows) _ h1 in
    let (credential, e3, h3) = >>=-eq-ok (ok_or row unauthenticated) _ h2 in
    let (same, h4) =
      guarded (not (secure_eq credential.verifier (p.hash token))) unauthenticated _ h3 in
    let (scopes, e5, h5) = >>=-eq-ok (ok_or (p.read_scopes credential.scopes) internal) _ h4 in
    let (listed, h6) = guarded (not (lists scopes scope)) _ _ h5 in
    record {
      public_id = public_id;
      well_formed = well_formed;
      credential = credential;
      live =
          find_holds (is_live_credential db public_id (type_as_str t) now) db.credentials
            ((queried db rows e2).1 ∙ given row unauthenticated e3);
      is_token = (secure_eq_iff credential.verifier (p.hash token)).0 (unnegated _ same);
      scopes = scopes;
      has_scopes = given (p.read_scopes credential.scopes) internal e5;
      in_scope = unnegated _ listed;
      is_principal = ap (λ g. g.0) (sym (ok_inj h6));
    }

mapped {ℓ} : {A : Type ℓ} (r : Result ApiError A) (a : A) → map_token_error r ≡ ok a → r ≡ ok a
mapped (ok b) a h = ground arith
mapped (err unauthenticated) a h = cc
mapped (err (forbidden m)) a h = cc
mapped (err (bad m)) a h = cc
mapped (err (not_found m)) a h = cc
mapped (err (conflict m)) a h = cc
mapped (err internal) a h = cc

git_Vouches :
    (p : Packages) (db : Database) (now : Text) (headers : HeaderMap)
    (granted : TokenPrincipal × Text)
    → authenticate_git p db now headers ≡ ok granted
    → (cookie headers session_cookie ≡ none)
      × ((token : Text) × Presents p headers token × Vouches p db now git git_read token granted.0)
unfolding authenticate_git
git_Vouches p db now headers granted h =
    let (no_cookie, h1) =
      guarded (is_some (cookie headers session_cookie)) git_unauthenticated _ h in
    let (value, e2, h2) =
      >>=-eq-ok (ok_or (only_value (get_all headers (codes "authorization"))) _) _ h1 in
    let (short, h3) = guarded (ltb 1024 (length value)) git_unauthenticated _ h2 in
    let (encoded, e4, h4) = >>=-eq-ok (ok_or (strip_prefix value (codes "Basic ")) _) _ h3 in
    let (decoded, e5, h5) = >>=-eq-ok (ok_or (p.decode_standard encoded) _) _ h4 in
    let (pair, e6, h6) = >>=-eq-ok (ok_or (split_once b':' decoded) _) _ h5 in
    let (named, h7) =
      guarded (not (text_eq pair.0 (codes "c6")) || has_byte b':' pair.1) git_unauthenticated _
        h6 in
    let sole =
      sole_value (get_all headers (codes "authorization")) value (given _ git_unauthenticated e2) in
    let prefixed : value ≡ codes "Basic " ++ encoded =
      strip_prefix_sound value (codes "Basic ") (given _ git_unauthenticated e4) in
    let (is_c6, plain) = both_false _ _ named in
    let user : pair.0 ≡ codes "c6" = (text_key.beq_iff pair.0 (codes "c6")).0 (unnegated _ is_c6) in
    let parts = split_once_sound b':' decoded pair.0 pair.1 (given _ git_unauthenticated e6) in
    (
      absent (cookie headers session_cookie) no_cookie,
      (
        pair.1,
        record {
          encoded = encoded;
          sole = sole ∙ ap (λ v. some v ∷ []) prefixed;
          short = subst (λ v. length v ≤ 1024) prefixed (not_below 1024 (length value) short);
          decoded =
              given _ git_unauthenticated e5
              ∙ ap some (parts ∙ ap (λ u. u ++ (b':' ∷ pair.1)) user);
          no_colon = plain;
        },
        opaque_Vouches p db now pair.1 git git_read granted (mapped _ granted h7),
      ),
    )

unmapped {ℓ} :
    {A : Type ℓ} (e : GitHttpError) (r : Result ApiError A) (a : A) → or_git e r ≡ ok a → r ≡ ok a
unmapped e (ok b) a h = ground arith
unmapped e (err f) a h = cc

abbrev git_ok {ℓ} : {A : Type ℓ} → A → Result GitHttpError A
git_ok a = ok a

git_ok_inj {ℓ} : {A : Type ℓ} {a b : A} → git_ok a ≡ ok b → a ≡ b
git_ok_inj h = cc

-- The project that a reader is let in to.
pub record Readable (opens : Text → Bool) (db : Database) (principal : TokenPrincipal)
    (workspace slug minimum id : Text) : Type 0 where
  pub project : Project
  pub is_id : id ≡ project.id
  pub named : is_project db workspace slug project ≡ true
  pub opened : opens id ≡ true
  pub membership : Membership
  pub is_member : membership_of db project.workspace_id principal.user_id ≡ some membership
  pub rank : role_rank minimum ≤ role_rank membership.role
  pub in_workspace : restricts_other principal.workspace_id project.workspace_id ≡ false
  pub in_project : restricts_other principal.project_id project.id ≡ false

authorized-Readable :
    (opens : Text → Bool) (db : Database) (principal : TokenPrincipal)
    (workspace slug minimum id : Text)
    → authorize_git_project opens db principal workspace slug minimum ≡ ok id
    → Readable opens db principal workspace slug minimum id
unfolding authorize_git_project
authorized-Readable opens db principal workspace slug minimum id h =
    let rows = find (is_project db workspace slug) db.projects in
    let (done, e1, h1) = >>=-eq-ok (or_git project_not_found (validate_slug workspace)) _ h in
    let (done', e2, h2) = >>=-eq-ok (or_git project_not_found (validate_slug slug)) _ h1 in
    let (row, e3, h3) = >>=-eq-ok (or_git git_failed (query db rows)) _ h2 in
    let (project, e4, h4) = >>=-eq-ok (ok_or row project_not_found) _ h3 in
    let (membership, e5, h5) =
      >>=-eq-ok (ok_or (membership_of db project.workspace_id principal.user_id) _) _ h4 in
    let (free, h6) =
      guarded
        (restricts_other principal.workspace_id project.workspace_id
          || restricts_other principal.project_id project.id)
        project_not_found _ h5 in
    let (high, h7) = guarded (ltb (role_rank membership.role) (role_rank minimum)) _ _ h6 in
    let (opened, h8) = guarded (not (opens project.id)) project_not_found _ h7 in
    let same : project.id ≡ id = git_ok_inj h8 in
    let (in_workspace, in_project) = both_false _ _ free in
    record {
      project = project;
      is_id = sym same;
      named = find_holds (is_project db workspace slug) db.projects (
          (queried db rows (unmapped git_failed (query db rows) row e3)).1
          ∙ given row project_not_found e4);
      opened = ap opens (sym same) ∙ unnegated _ opened;
      membership = membership;
      is_member =
          given (membership_of db project.workspace_id principal.user_id) project_not_found e5;
      rank = not_below _ _ high;
      in_workspace = in_workspace;
      in_project = in_project;
    }

-- A git client that is let in to read a project sends no session cookie, and its one Authorization
-- header carries, as the password of the user `c6`, the token of a live git credential with the
-- reading scope: the stored verifier is the hash of this token. The credential's user has at least
-- the role of a reader in the workspace of the project, which the store can open, and the
-- credential's restrictions to a workspace and to a project name these.
pub admit_git_lem :
    (p : Packages) (opens : Text → Bool) (db : Database) (now : Text) (headers : HeaderMap)
    (workspace repository_name : Text) (principal : TokenPrincipal) (id : Text)
    → admit_git p opens db now headers workspace repository_name ≡ ok (principal, id)
    → (cookie headers session_cookie ≡ none)
      × ((token : Text) × Presents p headers token × Vouches p db now git git_read token principal)
      × ((slug : Text) × (git_project_slug repository_name ≡ ok slug)
          × Readable opens db principal workspace slug (codes "reader") id)
unfolding admit_git
admit_git_lem p opens db now headers workspace repository_name principal id h =
    let (granted, e1, h1) = >>=-eq-ok (authenticate_git p db now headers) _ h in
    let (slug, e2, h2) = >>=-eq-ok (git_project_slug repository_name) _ h1 in
    let (id', e3, h3) =
      >>=-eq-ok (authorize_git_project opens db granted.0 workspace slug (codes "reader")) _ h2 in
    let (no_cookie, (token, presents, vouches)) = git_Vouches p db now headers granted e1 in
    let same = git_ok_inj h3 in
    let same_principal : granted.0 ≡ principal = ap (λ r. r.0) same in
    let same_id : id' ≡ id = ap (λ r. r.1) same in
    (
      no_cookie,
      (token, presents, subst (Vouches p db now git git_read token) same_principal vouches),
      (
        slug,
        e2,
        subst (λ i. Readable opens db principal workspace slug (codes "reader") i) same_id
            (subst (λ q. Readable opens db q workspace slug (codes "reader") id') same_principal
              (authorized-Readable opens db granted.0 workspace slug (codes "reader") id' e3)),
      ),
    )
