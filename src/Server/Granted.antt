-- ===== src/Server/Granted.antt =====
-- What the access checks of crates/c6-server/src/main.rs have seen when they let a caller in.
use cresix.Base.{
  ◌≡◌, List, [], ◌∷◌, Bool, true, false, not, ◌||◌, Option, none, some, Result, ok, err, ◌>>◌,
  >>=-eq-ok, fail_if, ok_or, if◌then◌else◌, Bool-cases, inl, inr, arith, refl, sym, ap, ◌∙◌,
}
use cresix.Base.Text.{Text, codes, text_eq, text_key}
use cresix.Server.{ApiError, unauthenticated, internal}
use cresix.Server.Authenticate.{
  Packages, Principal, session_cookie, csrf_cookie, to_str, check_csrf, authenticate,
  session_principal, is_some, check_unsafe, is_cross_site, is_safe_method, same_origin,
}
use cresix.Server.Headers.{HeaderMap, get_first, cookie, trim_slashes}
use cresix.Server.SecureEq.{secure_eq, secure_eq_iff}
use cresix.Server.Tables.{Database, Session, find, query, is_live_session}

-- What a step has given.
pub guarded {ℓ κ} :
    {E : Type ℓ} {A : Type κ} {a : A} (test : Bool) (e : E) (rest : Result E A)
    → (fail_if test e >> rest) ≡ ok a
    → (test ≡ false) × (rest ≡ ok a)
guarded true e rest h = cc
guarded false e rest h = (refl, h)

pub given {ℓ κ} :
    {E : Type ℓ} {A : Type κ} {a : A} (o : Option A) (e : E) → ok_or o e ≡ ok a → o ≡ some a
given none e h = cc
given (some b) e h = ground arith

if_ok {ℓ} :
    {A : Type ℓ} {asked rows : A} (b : Bool) (e : ApiError)
    → (if b then err e else ok asked) ≡ ok rows
    → (b ≡ false) × (asked ≡ rows)
if_ok true e h = cc
if_ok false e h = (refl, cc)

pub queried {ℓ} :
    {A : Type ℓ} {rows : A} (db : Database) (asked : A)
    → query db asked ≡ ok rows
    → (db.failing ≡ false) × (asked ≡ rows)
queried db asked h = if_ok db.failing internal h

found_here {ℓ} :
    {A : Type ℓ} (p : A → Bool) (x : A) (rows : List A) {a : A}
    → find p (x ∷ rows) ≡ some a
    → p x ≡ true
    → p a ≡ true
found_here p x rows h here = ground arith

found_next {ℓ} :
    {A : Type ℓ} (p : A → Bool) (x : A) (rows : List A) {a : A}
    → find p (x ∷ rows) ≡ some a
    → p x ≡ false
    → find p rows ≡ some a
found_next p x rows h next = ground arith

abbrev api_ok {ℓ} : {A : Type ℓ} → A → Result ApiError A
api_ok a = ok a

pub ok_inj {ℓ} : {A : Type ℓ} {a b : A} → api_ok a ≡ ok b → a ≡ b
ok_inj h = cc

pub not_failed : (test : Bool) (e : ApiError) → fail_if test e ≡ ok tt → test ≡ false
not_failed true e h = cc
not_failed false e h = refl

pub find_holds {ℓ} :
    {A : Type ℓ} (p : A → Bool) (rows : List A) {a : A} → find p rows ≡ some a → p a ≡ true
find_holds p [] h = cc
find_holds p (x ∷ rows) {a} h = elim (Bool-cases (p x)) [
  | inl here ↦ found_here p x rows h here
  | inr next ↦ find_holds p rows (found_next p x rows h next)
]

-- A live session, its token among the cookies, and a supplied CSRF token that is in the cookies
-- too and that hashes to the session's.
pub record IsSession (p : Packages) (db : Database) (now : Text) (headers : HeaderMap)
    (principal : Principal) : Type 0 where
  pub no_authorization : get_first headers (codes "authorization") ≡ none
  pub token : Text
  pub has_token : cookie headers session_cookie ≡ some token
  pub session : Session
  pub live : is_live_session db (p.hash token) now session ≡ true
  pub is_principal : principal ≡ session_principal db session
  pub supplied : Text
  pub in_header : get_first headers (codes "x-c6-csrf") ≡ some (some supplied)
  pub in_cookie : cookie headers csrf_cookie ≡ some supplied
  pub is_csrf : session.csrf_hash ≡ p.hash supplied

text_of : (value : Option (Option Text)) (t : Text) → to_str value ≡ some t → value ≡ some (some t)
text_of none t h = cc
text_of (some value) t h = ap some h

pub absent {ℓ} : {A : Type ℓ} (o : Option A) → is_some o ≡ false → o ≡ none
absent none h = refl
absent (some a) h = cc

neither : (b c : Bool) → (not b || not c) ≡ false → (b ≡ true) × (c ≡ true)
neither true true h = (refl, refl)
neither true false h = cc
neither false c h = cc

csrf_checked :
    (p : Packages) (headers : HeaderMap) (csrf_hash : Text)
    → check_csrf p headers csrf_hash ≡ ok tt
    → (supplied : Text) × (get_first headers (codes "x-c6-csrf") ≡ some (some supplied))
      × (cookie headers csrf_cookie ≡ some supplied)
      × (csrf_hash ≡ p.hash supplied)
csrf_checked p headers csrf_hash h =
    let (supplied, e1, h1) =
      >>=-eq-ok (ok_or (to_str (get_first headers (codes "x-c6-csrf"))) _) _ h in
    let (twin, e2, h2) = >>=-eq-ok (ok_or (cookie headers csrf_cookie) _) _ h1 in
    let passed =
      neither (secure_eq supplied twin) (secure_eq csrf_hash (p.hash supplied))
        (not_failed _ _ h2) in
    let same = (secure_eq_iff supplied twin).0 passed.0 in
    (
      supplied,
      text_of (get_first headers (codes "x-c6-csrf")) supplied (given _ _ e1),
      given (cookie headers csrf_cookie) _ e2 ∙ ap some (sym same),
      (secure_eq_iff csrf_hash (p.hash supplied)).0 passed.1,
    )

-- A caller that may change state by its session: no Authorization header, a cookie of a session
-- that is neither revoked nor expired, of a user and a device that are not revoked, and a CSRF
-- header that equals the CSRF cookie and hashes to the session's.
authenticate_csrf :
    (p : Packages) (db : Database) (now : Text) (headers : HeaderMap) (principal : Principal)
    → authenticate p db now headers true ≡ ok principal
    → IsSession p db now headers principal
unfolding authenticate
authenticate_csrf p db now headers principal h =
    let (free, h1) =
      guarded (is_some (get_first headers (codes "authorization"))) unauthenticated _ h in
    let (token, e2, h2) = >>=-eq-ok (ok_or (cookie headers session_cookie) unauthenticated) _ h1 in
    let (row, e3, h3) =
      >>=-eq-ok (query db (find (is_live_session db (p.hash token) now) db.sessions)) _ h2 in
    let (session, e4, h4) = >>=-eq-ok (ok_or row unauthenticated) _ h3 in
    let (done, e5, h5) = >>=-eq-ok (check_csrf p headers session.csrf_hash) _ h4 in
    let (supplied, in_header, in_cookie, is_csrf) = csrf_checked p headers session.csrf_hash e5 in
    record {
      no_authorization = absent (get_first headers (codes "authorization")) free;
      token = token;
      has_token = given (cookie headers session_cookie) unauthenticated e2;
      session = session;
      live =
          find_holds (is_live_session db (p.hash token) now) db.sessions
            ((queried db _ e3).1 ∙ given row unauthenticated e4);
      is_principal = sym (ok_inj h5);
      supplied = supplied;
      in_header = in_header;
      in_cookie = in_cookie;
      is_csrf = is_csrf;
    }

pub unnegated : (b : Bool) → not b ≡ false → b ≡ true
unnegated true h = refl
unnegated false h = cc

unsafe_origin :
    (public_base_url : Text) (headers : HeaderMap)
    → check_unsafe public_base_url headers ≡ ok tt
    → (origin : Text) × (get_first headers (codes "origin") ≡ some (some origin))
      × (trim_slashes origin ≡ public_base_url)
      × (is_cross_site (to_str (get_first headers (codes "sec-fetch-site"))) ≡ false)
unsafe_origin public_base_url headers h =
    let (origin, e1, h1) = >>=-eq-ok (ok_or (to_str (get_first headers (codes "origin"))) _) _ h in
    let (same, h2) = guarded (not (text_eq (trim_slashes origin) public_base_url)) _ _ h1 in
    (
      origin,
      text_of (get_first headers (codes "origin")) origin (given _ _ e1),
      (text_key.beq_iff (trim_slashes origin) public_base_url).0 (unnegated _ same),
      not_failed _ _ h2,
    )

checked_unsafe :
    (public_base_url method : Text) (headers : HeaderMap)
    → get_first headers (codes "authorization") ≡ none
    → is_safe_method method ≡ false
    → same_origin public_base_url method headers ≡ ok tt
    → check_unsafe public_base_url headers ≡ ok tt
unfolding same_origin
checked_unsafe public_base_url method headers absent_header mutates h =
    rw (absent_header, mutates) at h

-- A request that may change state by a session passes the origin check and the session check, and
-- then: it has no Authorization header; it comes from the server's own origin, and no browser
-- marks it as cross-site; it carries the cookie of a session that is neither revoked nor expired,
-- of a user and a device that are not revoked; and its CSRF header equals the CSRF cookie and
-- hashes to the session's.
pub mutation_guarded :
    (p : Packages) (db : Database) (now public_base_url method : Text) (headers : HeaderMap)
    (principal : Principal)
    → is_safe_method method ≡ false
    → same_origin public_base_url method headers ≡ ok tt
    → authenticate p db now headers true ≡ ok principal
    → IsSession p db now headers principal
      × ((origin : Text) × (get_first headers (codes "origin") ≡ some (some origin))
          × (trim_slashes origin ≡ public_base_url)
          × (is_cross_site (to_str (get_first headers (codes "sec-fetch-site"))) ≡ false))
mutation_guarded p db now public_base_url method headers principal mutates passes h =
    let session = authenticate_csrf p db now headers principal h in
    (
      session,
      unsafe_origin public_base_url headers
          (checked_unsafe public_base_url method headers session.no_authorization mutates passes),
    )
