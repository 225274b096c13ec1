-- ===== src/Core/Manifest/Validate.antt =====
-- `ProjectManifest::validate` of crates/c6-core/src/manifest.rs.
use cresix.Base.{
  List, [], ◌∷◌, Bool, true, false, not, ◌&&◌, ◌||◌, Option, none, some, Result, ok, err, ◌>>=◌,
  ◌>>◌, fail_if, ok_or, ◌==◌,
}
use cresix.Base.Text.{Text, text_key, is_blank}
use cresix.Base.Map.{lookup, contains}
use cresix.Core.Manifest.{
  ManifestError, invalid_toml, unsupported_version, missing_dockerfile, duplicate_name,
  invalid_port, missing_command, invalid_cron, partial_schedule, missing_agent_config,
  invalid_timeout, unknown_secret, Build, auto, dockerfile, Service, Job, JobKind, cron, agent,
  ProjectManifest,
}
use cresix.Core.Manifest.Parts.{
  validate_name, validate_secret_name, validate_resources, validate_relative_path,
}

abbrev pub is_some : Option Text → Bool
is_some none = false
is_some (some _) = true

-- `option.is_none_or(|command| command.trim().is_empty())`
abbrev pub is_missing : Option Text → Bool
is_missing none = true
is_missing (some command) = is_blank command

abbrev pub is_cron : JobKind → Bool
is_cron cron = true
is_cron _ = false

abbrev pub is_agent : JobKind → Bool
is_agent agent = true
is_agent _ = false

-- `as_deref().filter(|path| !path.trim().is_empty())`
abbrev pub given_path : Option Text → Option Text
given_path none = none
given_path (some path) = elim (is_blank path) [ true ↦ none | false ↦ some path ]

unfoldable pub validate_build : Build → Result ManifestError (Unit {0})
validate_build build = elim build.strategy [
  | auto ↦ ok tt
  | dockerfile ↦
      ok_or (given_path build.dockerfile_path) missing_dockerfile >>= validate_relative_path
]

unfoldable pub validate_secret_names : List (Text × Text) → Result ManifestError (Unit {0})
validate_secret_names [] = ok tt
validate_secret_names ((name, _) ∷ secrets) = do
  validate_secret_name name
  validate_secret_names secrets

-- `ProjectManifest::validate_secrets`
unfoldable pub validate_secrets : List (Text × Text) → List Text → Result ManifestError (Unit {0})
validate_secrets secrets [] = ok tt
validate_secrets secrets (name ∷ references) = do
  fail_if (not (is_some (lookup name secrets))) (unknown_secret name)
  validate_secrets secrets references

-- The body of the loop over the services behind the test on the name.
unfoldable pub validate_service : List (Text × Text) → Service → Result ManifestError (Unit {0})
validate_service secrets service = do
  fail_if (service.port == 0) (invalid_port service.name)
  fail_if (is_blank service.command) (missing_command service.name)
  validate_resources service.name service.resources
  validate_secrets secrets service.secrets

-- The loop over the services, from the names so far to all names.
unfoldable pub validate_services :
    List (Text × Text) → List Text → List Service → Result ManifestError (List Text)
validate_services secrets names [] = ok names
validate_services secrets names (service ∷ services) = do
  validate_name service.name
  fail_if (contains service.name names) (duplicate_name service.name)
  validate_service secrets service
  validate_services secrets (service.name ∷ names) services

abbrev pub validate_agent_config : Option Text → Result ManifestError (Unit {0})
validate_agent_config none = ok tt
validate_agent_config (some path) = validate_relative_path path

-- The body of the loop over the jobs behind the test on the name.
unfoldable pub validate_job : List (Text × Text) → Job → Result ManifestError (Unit {0})
validate_job secrets job = do
  fail_if (is_cron job.kind && (not (is_some job.schedule) || not (is_some job.timezone)))
      (invalid_cron job.name)
  fail_if
      ((is_some job.schedule && not (is_some job.timezone))
        || (not (is_some job.schedule) && is_some job.timezone))
      (partial_schedule job.name)
  fail_if (is_agent job.kind && not (is_some job.agent_config)) (missing_agent_config job.name)
  fail_if (not (is_agent job.kind) && is_missing job.command) (missing_command job.name)
  validate_agent_config job.agent_config
  fail_if (job.timeout_seconds == 0) (invalid_timeout job.name)
  validate_resources job.name job.resources
  validate_secrets secrets job.secrets

unfoldable pub validate_jobs :
    List (Text × Text) → List Text → List Job → Result ManifestError (Unit {0})
validate_jobs secrets names [] = ok tt
validate_jobs secrets names (job ∷ jobs) = do
  validate_name job.name
  fail_if (contains job.name names) (duplicate_name job.name)
  validate_job secrets job
  validate_jobs secrets (job.name ∷ names) jobs

-- `ProjectManifest::validate`
unfoldable pub validate : ProjectManifest → Result ManifestError (Unit {0})
validate manifest = do
  fail_if (not (manifest.version == 1)) (unsupported_version manifest.version)
  validate_build manifest.build
  validate_secret_names manifest.secrets
  names ← validate_services manifest.secrets [] manifest.services
  validate_jobs manifest.secrets names manifest.jobs

-- `ProjectManifest::parse`, with `toml::from_str`
unfoldable pub parse :
    (Text → Result Text ProjectManifest) → Text → Result ManifestError ProjectManifest
parse from_str source = elim (from_str source) [
  | err message ↦ err (invalid_toml message)
  | ok manifest ↦ validate manifest >> ok manifest
]
