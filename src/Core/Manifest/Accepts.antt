-- ===== src/Core/Manifest/Accepts.antt =====
-- What `ProjectManifest::validate` of crates/c6-core/src/manifest.rs accepts.
use cresix.Base.{
  ◌≡◌, ◌↔◌, ◌≤◌, List, [], ◌∷◌, All, true, false, all, Option, none, some, ok, refl, sym, ap, ◌∙◌,
  arith,
}
use cresix.Base.Text.{Text, text_key, is_blank, split, starts_with, codes}
use cresix.Base.Map.{lookup}
use cresix.Core.Manifest.{Service, Job}
use cresix.Core.Manifest.Parts.{
  validate_name, validate_secret_name, validate_resources, validate_relative_path,
}
use cresix.Core.Manifest.Paths.{is_plain, relative_path_iff}
use cresix.Core.Manifest.Validate.{
  is_some, is_missing, is_cron, is_agent, validate_secret_names, validate_secrets, validate_service,
  validate_job, validate_agent_config,
}

-- A path that is not blank, not absolute, and does not leave its directory by `..`.
abbrev pub IsSafePath : Text → Type 0
IsSafePath path =
    (is_blank path ≡ false)
    × (starts_with path (codes "/") ≡ false)
    × (all is_plain (split b'/' path) ≡ true)

abbrev pub IsDeclared : List (Text × Text) → Text → Type 0
IsDeclared secrets name = is_some (lookup name secrets) ≡ true

pub record IsValidService (secrets : List (Text × Text)) (service : Service) : Type 0 where
  pub name : validate_name service.name ≡ ok tt
  pub port : 1 ≤ service.port
  pub command : is_blank service.command ≡ false
  pub resources : validate_resources service.name service.resources ≡ ok tt
  pub declared : All (IsDeclared secrets) service.secrets

-- A schedule and a time zone come together, and a cron job has them. An agent job names its
-- configuration, and any other job has a command.
pub record IsValidJob (secrets : List (Text × Text)) (job : Job) : Type 0 where
  pub name : validate_name job.name ≡ ok tt
  pub together : is_some job.schedule ≡ is_some job.timezone
  pub scheduled : is_cron job.kind ≡ true → is_some job.schedule ≡ true
  pub configured : is_agent job.kind ≡ true → is_some job.agent_config ≡ true
  pub command : is_agent job.kind ≡ false → is_missing job.command ≡ false
  pub config_path : (path : Text) → job.agent_config ≡ some path → IsSafePath path
  pub timeout : 1 ≤ job.timeout_seconds
  pub resources : validate_resources job.name job.resources ≡ ok tt
  pub declared : All (IsDeclared secrets) job.secrets

pub secret_names_iff :
    (secrets : List (Text × Text))
    → (validate_secret_names secrets ≡ ok tt) ↔ All (λ s. validate_secret_name s.0 ≡ ok tt) secrets
unfolding validate_secret_names
secret_names_iff [] = (λ _. tt, λ _. refl)
secret_names_iff ((name, d) ∷ secrets) = ground (arith, secret_names_iff secrets)

secrets_iff :
    (secrets : List (Text × Text)) (names : List Text)
    → (validate_secrets secrets names ≡ ok tt) ↔ All (IsDeclared secrets) names
unfolding validate_secrets
secrets_iff secrets [] = (λ _. tt, λ _. refl)
secrets_iff secrets (name ∷ names) = ground (arith, secrets_iff secrets names)

service_parts :
    (secrets : List (Text × Text)) (s : Service)
    → (validate_service secrets s ≡ ok tt) ↔ (
        (1 ≤ s.port)
        × (is_blank s.command ≡ false)
        × (validate_resources s.name s.resources ≡ ok tt)
        × (validate_secrets secrets s.secrets ≡ ok tt))
unfolding validate_service
service_parts secrets s = ground arith

pub service_iff :
    (secrets : List (Text × Text)) (s : Service)
    → ((validate_name s.name ≡ ok tt) × (validate_service secrets s ≡ ok tt))
      ↔ IsValidService secrets s
service_iff secrets s = (
  λ h.
      let (port, command, resources, declared) = (service_parts secrets s).0 h.1 in
      record {
        name = h.0;
        port = port;
        command = command;
        resources = resources;
        declared = (secrets_iff secrets s.secrets).0 declared;
      },
  λ v. (
    v.name,
    (service_parts secrets s).1
        (v.port, v.command, v.resources, (secrets_iff secrets s.secrets).1 v.declared),
  ),
)

job_parts :
    (secrets : List (Text × Text)) (j : Job)
    → (validate_job secrets j ≡ ok tt) ↔ (
        (is_some j.schedule ≡ is_some j.timezone)
        × (is_cron j.kind ≡ true → is_some j.schedule ≡ true)
        × (is_agent j.kind ≡ true → is_some j.agent_config ≡ true)
        × (is_agent j.kind ≡ false → is_missing j.command ≡ false)
        × (validate_agent_config j.agent_config ≡ ok tt)
        × (1 ≤ j.timeout_seconds)
        × (validate_resources j.name j.resources ≡ ok tt)
        × (validate_secrets secrets j.secrets ≡ ok tt))
unfolding validate_job
job_parts secrets j = ground arith

agent_config_iff :
    (o : Option Text)
    → (validate_agent_config o ≡ ok tt) ↔ ((path : Text) → o ≡ some path → IsSafePath path)
agent_config_iff none = (λ _ path h. cc, λ _. refl)
agent_config_iff (some p) = (
  λ h path e.
      let same : p ≡ path = ground arith in
      (relative_path_iff path).0 (ap (λ q. validate_relative_path q) (sym same) ∙ h),
  λ f. (relative_path_iff p).1 (f p refl),
)

pub job_iff :
    (secrets : List (Text × Text)) (j : Job)
    → ((validate_name j.name ≡ ok tt) × (validate_job secrets j ≡ ok tt)) ↔ IsValidJob secrets j
job_iff secrets j = (
  λ h.
      let (together, scheduled, configured, command, path, timeout, resources, declared) =
        (job_parts secrets j).0 h.1 in
      record {
        name = h.0;
        together = together;
        scheduled = scheduled;
        configured = configured;
        command = command;
        config_path = (agent_config_iff j.agent_config).0 path;
        timeout = timeout;
        resources = resources;
        declared = (secrets_iff secrets j.secrets).0 declared;
      },
  λ v. (
    v.name,
    (job_parts secrets j).1 (
      v.together,
      v.scheduled,
      v.configured,
      v.command,
      (agent_config_iff j.agent_config).1 v.config_path,
      v.timeout,
      v.resources,
      (secrets_iff secrets j.secrets).1 v.declared,
    ),
  ),
)
