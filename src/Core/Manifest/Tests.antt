-- ===== src/Core/Manifest/Tests.antt =====
-- Manifests as in the tests of crates/c6-core/src/manifest.rs, and the theorems at these.
use cresix.Base.{ok, err, ◌≡◌, ◌↔◌, [], ◌∷◌, none, some, false, refl, Result, List}
use cresix.Base.Text.{Text, codes, is_blank, text_key, blanked}
use cresix.Base.Map.{contains, lookup}
use cresix.Core.Manifest.{
  ProjectManifest, Service, Job, Resources, dockerfile, cron, forbid, no_write, duplicate_name,
  unsafe_path, unknown_secret,
}
use cresix.Core.Manifest.Parts.{
  validate_name, validate_secret_name, validate_resources, validate_relative_path, components,
  later_components,
}
use cresix.Core.Manifest.Validate.{
  validate_build, validate_secret_names, validate_secrets, validate_service, validate_services,
  validate_job, validate_jobs, validate, parse,
}
use cresix.Core.Manifest.Whole.{IsValidManifest, parse-validate_iff}

-- Half a CPU is 0x3f000000 as an f32.
abbrev resources : Resources
resources = record { cpu = 0x3f000000; memory_mb = 512 }

abbrev service : Text → List Text → Service
service name secrets = record {
  name = name;
  command = codes "python app.py";
  port = 8000;
  health_path = codes "/healthz";
  secrets = secrets;
  resources = resources;
}

abbrev report : Job
report = record {
  name = codes "report";
  kind = cron;
  command = some (codes "python report.py");
  agent_config = none;
  schedule = some (codes "0 9 * * 1-5");
  timezone = some (codes "UTC");
  concurrency = forbid;
  timeout_seconds = 900;
  secrets = [];
  repository_write = no_write;
  network = [];
  resources = resources;
}

abbrev manifest : List Service → ProjectManifest
manifest services = record {
  version = 1;
  build = record { strategy = dockerfile; dockerfile_path = some (codes "deploy/Dockerfile") };
  services = services;
  jobs = report ∷ [];
  postgres_enabled = false;
  files_enabled = false;
  secrets = (codes "API_KEY", []) ∷ [];
}

accepts : validate (manifest (service (codes "web") (codes "API_KEY" ∷ []) ∷ [])) ≡ ok tt
unfolding validate validate_build validate_secret_names validate_secret_name validate_services
    validate_name validate_service validate_resources validate_secrets validate_jobs validate_job
    validate_relative_path components later_components contains lookup is_blank blanked
accepts = refl

rejects_shared_name :
    validate (manifest (service (codes "report") [] ∷ [])) ≡ err (duplicate_name (codes "report"))
unfolding validate validate_build validate_secret_names validate_secret_name validate_services
    validate_name validate_service validate_resources validate_secrets validate_jobs validate_job
    validate_relative_path components later_components contains lookup is_blank blanked
rejects_shared_name = refl

rejects_unknown_secret :
    validate (manifest (service (codes "web") (codes "TOKEN" ∷ []) ∷ []))
    ≡ err (unknown_secret (codes "TOKEN"))
unfolding validate validate_build validate_secret_names validate_secret_name validate_services
    validate_name validate_service validate_resources validate_secrets validate_jobs validate_job
    validate_relative_path components later_components contains lookup is_blank blanked
rejects_unknown_secret = refl

rejects_parent : validate_relative_path (codes "a/../../b") ≡ err (unsafe_path (codes "a/../../b"))
unfolding validate_relative_path components later_components is_blank blanked
rejects_parent = refl

abbrev from_str : Text → Result Text ProjectManifest
from_str source = ok (manifest (service source [] ∷ []))

parse-validate_iff_example :
    (parse from_str (codes "web") ≡ ok (manifest (service (codes "web") [] ∷ []))) ↔ (
      (from_str (codes "web") ≡ ok (manifest (service (codes "web") [] ∷ [])))
      × IsValidManifest (manifest (service (codes "web") [] ∷ [])))
parse-validate_iff_example =
    parse-validate_iff from_str (codes "web") (manifest (service (codes "web") [] ∷ []))
