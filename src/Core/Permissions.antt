-- ===== src/Core/Permissions.antt =====
-- crates/c6-core/src/permissions.rs: project roles and what they allow.
use cresix.Base.{ℕ, Bool, leb}

-- In the source's order, which `derive(PartialOrd, Ord)` makes the order of the roles.
pub data Role : Type 0 where
  consumer reader runner contributor maintainer owner : Role

pub data Action : Type 0 where
  use_app read_source fork run_job cancel_run push_branch open_pull_request : Action
  review_pull_request merge publish manage_schedules read_secret_metadata : Action
  write_secrets manage_project manage_members view_audit_log delete_project : Action

-- The position of a role, by which derived order compares.
abbrev pub rank : Role → ℕ
rank consumer = 0
rank reader = 1
rank runner = 2
rank contributor = 3
rank maintainer = 4
rank owner = 5

-- The `match` of `Role::allows`.
unfoldable pub minimum : Action → Role
minimum use_app = consumer
minimum read_source = reader
minimum fork = reader
minimum run_job = runner
minimum cancel_run = runner
minimum push_branch = contributor
minimum open_pull_request = contributor
minimum review_pull_request = contributor
minimum merge = maintainer
minimum publish = maintainer
minimum manage_schedules = maintainer
minimum read_secret_metadata = maintainer
minimum write_secrets = maintainer
minimum manage_project = maintainer
minimum manage_members = owner
minimum view_audit_log = owner
minimum delete_project = owner

unfoldable pub allows : Role → Action → Bool
allows role action = leb (rank (minimum action)) (rank role)
