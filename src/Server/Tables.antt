-- ===== src/Server/Tables.antt =====
-- The tables of the server's database that its access checks read, and their queries
-- (crates/c6-server/src/main.rs). A table is its rows; `query_row` takes the first row that the
-- conditions leave. Identifiers are primary keys, so that a join has one row at most. Times are
-- RFC 3339 texts, which SQLite compares as texts.
use cresix.Base.{
  List, [], ◌∷◌, Bool, true, false, ◌||◌, ◌&&◌, ◌==◌, ltb, Option, none, some, Result, ok, err,
  if◌then◌else◌,
}
use cresix.Base.Text.{Text, text_eq}
use cresix.Server.{ApiError, internal}

pub record User : Type 0 where
  pub id : Text
  pub display_name : Text
  pub revoked_at : Option Text

pub record Device : Type 0 where
  pub id : Text
  pub revoked_at : Option Text

pub record Session : Type 0 where
  pub id : Text
  pub user_id : Text
  pub device_id : Option Text
  pub token_hash : Text
  pub csrf_hash : Text
  pub expires_at : Text
  pub revoked_at : Option Text

pub record Credential : Type 0 where
  pub id : Text
  pub user_id : Text
  pub device_id : Option Text
  pub credential_type : Text
  pub public_id : Text
  pub verifier : Text
  pub scopes : Text  -- JSON
  pub workspace_id : Option Text
  pub project_id : Option Text
  pub expires_at : Text
  pub revoked_at : Option Text

pub record Workspace : Type 0 where
  pub id : Text
  pub slug : Text

pub record Membership : Type 0 where
  pub workspace_id : Text
  pub user_id : Text
  pub role : Text

pub record Project : Type 0 where
  pub id : Text
  pub workspace_id : Text
  pub slug : Text

-- `failing` is a connection that is poisoned or whose queries fail.
pub record Database : Type 0 where
  pub failing : Bool
  pub users : List User
  pub devices : List Device
  pub sessions : List Session
  pub credentials : List Credential
  pub workspaces : List Workspace
  pub memberships : List Membership
  pub projects : List Project

abbrev pub find {ℓ} : {A : Type ℓ} → (A → Bool) → List A → Option A
find p [] = none
find p (a ∷ rows) = let rest = find p rows in if p a then some a else rest

abbrev pub is_null {ℓ} : {A : Type ℓ} → Option A → Bool
is_null none = true
is_null (some a) = false

-- SQLite's `a > b` on texts: by bytes.
unfoldable pub is_after : Text → Text → Bool
is_after [] b = false
is_after (x ∷ a) [] = true
is_after (x ∷ a) (y ∷ b) = let rest = is_after a b in ltb y x || (x == y && rest)

abbrev pub query {ℓ} : {A : Type ℓ} → Database → A → Result ApiError A
query db rows = if db.failing then err internal else ok rows

abbrev pub user_of : Database → Text → Option User
user_of db id = find (λ u. text_eq u.id id) db.users

abbrev pub device_of : Database → Option Text → Option Device
device_of db none = none
device_of db (some id) = find (λ d. text_eq d.id id) db.devices

-- `u.id = ... AND u.revoked_at IS NULL`
abbrev pub is_live_user : Option User → Bool
is_live_user none = false
is_live_user (some u) = is_null u.revoked_at

-- `c.device_id IS NULL OR (d.id IS NOT NULL AND d.revoked_at IS NULL)`
abbrev pub credential_device : Option Text → Option Device → Bool
credential_device none device = true
credential_device (some id) none = false
credential_device (some id) (some device) = is_null device.revoked_at

-- `d.id IS NULL OR d.revoked_at IS NULL`
abbrev pub session_device : Option Device → Bool
session_device none = true
session_device (some device) = is_null device.revoked_at

-- The `WHERE` of `authenticate_opaque_token`.
unfoldable pub is_live_credential : Database → Text → Text → Text → Credential → Bool
is_live_credential db public_id credential_type now c =
    text_eq c.public_id public_id
    && text_eq c.credential_type credential_type
    && is_null c.revoked_at
    && is_after c.expires_at now
    && is_live_user (user_of db c.user_id)
    && credential_device c.device_id (device_of db c.device_id)

-- The `WHERE` of `authenticate`.
unfoldable pub is_live_session : Database → Text → Text → Session → Bool
is_live_session db token_hash now s =
    text_eq s.token_hash token_hash
    && is_null s.revoked_at
    && is_live_user (user_of db s.user_id)
    && session_device (device_of db s.device_id)
    && is_after s.expires_at now

-- `SELECT role FROM memberships WHERE workspace_id=?1 AND user_id=?2`
abbrev pub membership_of : Database → Text → Text → Option Membership
membership_of db workspace_id user_id =
    find (λ m. text_eq m.workspace_id workspace_id && text_eq m.user_id user_id) db.memberships

abbrev pub workspace_of : Database → Text → Option Workspace
workspace_of db id = find (λ w. text_eq w.id id) db.workspaces

abbrev pub has_slug : Option Workspace → Text → Bool
has_slug none slug = false
has_slug (some w) slug = text_eq w.slug slug

-- `projects p JOIN workspaces w ... WHERE w.slug=?2 AND p.slug=?3`
unfoldable pub is_project : Database → Text → Text → Project → Bool
is_project db workspace_slug project_slug p =
    has_slug (workspace_of db p.workspace_id) workspace_slug && text_eq p.slug project_slug
