-- ===== src/Core/Manifest/Whole.antt =====
-- What a whole manifest must be for `ProjectManifest::validate` of
-- crates/c6-core/src/manifest.rs.
use cresix.Base.{
  ◌≡◌, ◌↔◌, List, [], ◌∷◌, ◌++◌, map, All, Option, false, none, some, Option-cases, subst, ◌⊎◌,
  Result, ok, refl, sym, ap, ◌∙◌, arith, Result-cases, inl, inr,
}
use cresix.Base.Text.{Text, text_key, is_blank}
use cresix.Base.Map.{contains, Distinct}
use cresix.Core.Manifest.{Build, BuildStrategy, auto, dockerfile, Service, Job, ProjectManifest}
use cresix.Core.Manifest.Parts.{validate_name, validate_secret_name}
use cresix.Core.Manifest.Paths.{relative_path_iff}
use cresix.Core.Manifest.Validate.{
  validate_build, validate_service, validate_services, validate_job, validate_jobs, validate,
  given_path, parse,
}
use cresix.Core.Manifest.Accepts.{
  IsSafePath, IsValidService, IsValidJob, service_iff, job_iff, secret_names_iff,
}
use cresix.Base.Fresh.{Fresh, seen_after, Fresh-append, Fresh-Distinct}

abbrev pub service_names : List Service → List Text
service_names services = map (λ s. s.name) services

abbrev pub job_names : List Job → List Text
job_names jobs = map (λ j. j.name) jobs

services_step :
    (secrets : List (Text × Text)) (names : List Text) (s : Service) (ss : List Service)
    (out : List Text)
    → (validate_services secrets names (s ∷ ss) ≡ ok out) ↔ (
        ((validate_name s.name ≡ ok tt) × (validate_service secrets s ≡ ok tt))
        × (contains s.name names ≡ false)
        × (validate_services secrets (s.name ∷ names) ss ≡ ok out))
unfolding validate_services
services_step secrets names s ss out = ground arith

services_iff :
    (secrets : List (Text × Text)) (names : List Text) (ss : List Service) (out : List Text)
    → (validate_services secrets names ss ≡ ok out) ↔ (
        (out ≡ seen_after names (service_names ss))
        × All (IsValidService secrets) ss
        × Fresh names (service_names ss))
services_iff secrets names [] out =
    unfold validate_services in (λ h. (ground arith, tt, tt), λ q. ap (λ x. ok x) (sym q.0))
services_iff secrets names (s ∷ ss) out =
    let step = services_step secrets names s ss out in
    let ih = services_iff secrets (s.name ∷ names) ss out in
    let one = service_iff secrets s in
    (
      λ h.
          let (valid, fresh, rest) = step.0 h in
          let (same, all_valid, all_fresh) = ih.0 rest in
          (same, (one.0 valid, all_valid), (fresh, all_fresh)),
      λ q.
          let (same, (valid, all_valid), (fresh, all_fresh)) = q in
          step.1 (one.1 valid, fresh, ih.1 (same, all_valid, all_fresh)),
    )

jobs_step :
    (secrets : List (Text × Text)) (names : List Text) (j : Job) (js : List Job)
    → (validate_jobs secrets names (j ∷ js) ≡ ok tt) ↔ (
        ((validate_name j.name ≡ ok tt) × (validate_job secrets j ≡ ok tt))
        × (contains j.name names ≡ false)
        × (validate_jobs secrets (j.name ∷ names) js ≡ ok tt))
unfolding validate_jobs
jobs_step secrets names j js = ground arith

jobs_iff :
    (secrets : List (Text × Text)) (names : List Text) (js : List Job)
    → (validate_jobs secrets names js ≡ ok tt)
      ↔ (All (IsValidJob secrets) js × Fresh names (job_names js))
jobs_iff secrets names [] = unfold validate_jobs in (λ _. (tt, tt), λ _. refl)
jobs_iff secrets names (j ∷ js) =
    let step = jobs_step secrets names j js in
    let ih = jobs_iff secrets (j.name ∷ names) js in
    let one = job_iff secrets j in
    (
      λ h.
          let (valid, fresh, rest) = step.0 h in
          let (all_valid, all_fresh) = ih.0 rest in ((one.0 valid, all_valid), (fresh, all_fresh)),
      λ q.
          let ((valid, all_valid), (fresh, all_fresh)) = q in
          step.1 (one.1 valid, fresh, ih.1 (all_valid, all_fresh)),
    )

-- A `dockerfile` build names a safe path.
abbrev pub IsValidBuild : Build → Type 0
IsValidBuild build =
    build.strategy ≡ dockerfile
    → (path : Text) × (build.dockerfile_path ≡ some path) × IsSafePath path

given_some : (o : Option Text) (path : Text) → given_path o ≡ some path → o ≡ some path
given_some none path h = cc
given_some (some p) path h = ground arith

given_path-safe : (path : Text) → is_blank path ≡ false → given_path (some path) ≡ some path
given_path-safe path h = ground arith

strategy_cases : (s : BuildStrategy) → (s ≡ auto) ⊎ (s ≡ dockerfile)
strategy_cases auto = inl refl
strategy_cases dockerfile = inr refl

build_sound : (build : Build) → validate_build build ≡ ok tt → IsValidBuild build
unfolding validate_build
build_sound build h strategy = elim (Option-cases (given_path build.dockerfile_path)) [
  | inl missing ↦ ground arith
  | inr (path, given) ↦
      (path, given_some build.dockerfile_path path given, (relative_path_iff path).0 (ground arith))
]

build_complete : (build : Build) → IsValidBuild build → validate_build build ≡ ok tt
unfolding validate_build
build_complete build valid = elim (strategy_cases build.strategy) [
  | inl e ↦ ground arith
  | inr e ↦
      let (path, named, safe) = valid e in
      let given = given_path-safe path safe.0 in
      let passes = (relative_path_iff path).1 safe in rw (e, named, given) passes
]

-- What a manifest must be.
pub record IsValidManifest (m : ProjectManifest) : Type 0 where
  pub version : m.version ≡ 1
  pub build : IsValidBuild m.build
  pub secret_names : All (λ s. validate_secret_name s.0 ≡ ok tt) m.secrets
  pub services : All (IsValidService m.secrets) m.services
  pub jobs : All (IsValidJob m.secrets) m.jobs
  pub unique : Distinct (service_names m.services ++ job_names m.jobs)

validate_sound : (m : ProjectManifest) → validate m ≡ ok tt → IsValidManifest m
unfolding validate
validate_sound m h = elim (Result-cases (validate_services m.secrets [] m.services)) [
  | inr (e, failed) ↦ ground arith
  | inl (names, passed) ↦
      let (same, services, fresh) = (services_iff m.secrets [] m.services names).0 passed in
      let (jobs, later) = (jobs_iff m.secrets names m.jobs).0 (ground arith) in
      let all_fresh =
        (Fresh-append [] (service_names m.services) (job_names m.jobs)).1
          (fresh, subst (λ n. Fresh n (job_names m.jobs)) same later) in
      record {
        version = ground arith;
        build = build_sound m.build (ground arith);
        secret_names = (secret_names_iff m.secrets).0 (ground arith);
        services = services;
        jobs = jobs;
        unique = (Fresh-Distinct (service_names m.services ++ job_names m.jobs)).0 all_fresh;
      }
]

validate_complete : (m : ProjectManifest) → IsValidManifest m → validate m ≡ ok tt
unfolding validate
validate_complete m v =
    let all_fresh = (Fresh-Distinct (service_names m.services ++ job_names m.jobs)).1 v.unique in
    let (fresh, later) =
      (Fresh-append [] (service_names m.services) (job_names m.jobs)).0 all_fresh in
    let names = seen_after [] (service_names m.services) in
    let services = (services_iff m.secrets [] m.services names).1 (refl, v.services, fresh) in
    let jobs = (jobs_iff m.secrets names m.jobs).1 (v.jobs, later) in
    let build = build_complete m.build v.build in
    let secrets = (secret_names_iff m.secrets).1 v.secret_names in
    let version = v.version in rw (version, build, secrets, services) jobs

validate_iff : (m : ProjectManifest) → (validate m ≡ ok tt) ↔ IsValidManifest m
validate_iff m = (validate_sound m, validate_complete m)

-- `parse` returns a manifest exactly when the TOML decoder gives it and it is valid: its version
-- is 1, a Dockerfile build names a safe relative path, every declared secret has a valid name,
-- every service and every job is valid by itself and refers only to declared secrets, and no
-- name is used twice among services and jobs. A valid job has its schedule and time zone
-- together, both if it is a cron job, a configuration if it is an agent job and a command
-- otherwise, a safe path for its configuration, and a timeout.
pub parse-validate_iff :
    (from_str : Text → Result Text ProjectManifest) (source : Text) (m : ProjectManifest)
    → (parse from_str source ≡ ok m) ↔ ((from_str source ≡ ok m) × IsValidManifest m)
unfolding parse
parse-validate_iff from_str source m = elim (Result-cases (from_str source)) [
  | inr (e, failed) ↦ ground arith
  | inl (given, read) ↦ (
    λ h.
        let passed : validate given ≡ ok tt = ground arith in
        let same : given ≡ m = ground arith in
        (
          read ∙ ap (λ x. ok x) same,
          subst (λ x. IsValidManifest x) same (validate_sound given passed),
        ),
    λ q.
        let same : given ≡ m = ground arith in
        let passed : validate given ≡ ok tt =
          validate_complete given (subst (λ x. IsValidManifest x) (sym same) q.1) in
        ground arith,
  )
]
