-- ===== src/Core/Manifest.antt =====
-- crates/c6-core/src/manifest.rs: a project's manifest. Its validation, the description of what
-- it accepts and the proofs are children. `toml::from_str` is a package: a manifest is what it
-- returns, with each default filled in.
pub mod Parts
pub mod Paths
pub mod Validate
pub mod Accepts
pub mod Whole
pub mod Tests
use cresix.Base.{ℕ, List, Bool, Option}
use cresix.Base.Text.{Text}

pub data ManifestError : Type 0 where
  invalid_toml : Text → ManifestError
  unsupported_version : ℕ → ManifestError
  duplicate_name invalid_port invalid_cron missing_agent_config : Text → ManifestError
  unknown_secret invalid_name missing_command invalid_timeout : Text → ManifestError
  invalid_resources partial_schedule unsafe_path invalid_secret_name : Text → ManifestError
  missing_dockerfile : ManifestError

pub data BuildStrategy : Type 0 where
  auto dockerfile : BuildStrategy

pub record Build : Type 0 where
  pub strategy : BuildStrategy
  pub dockerfile_path : Option Text  -- `dockerfile`

pub record Resources : Type 0 where
  pub cpu : ℕ  -- the bits of an f32
  pub memory_mb : ℕ  -- u32

pub record Service : Type 0 where
  pub name : Text
  pub command : Text
  pub port : ℕ  -- u16
  pub health_path : Text
  pub secrets : List Text
  pub resources : Resources

pub data JobKind : Type 0 where
  command_job cron agent : JobKind

pub data Concurrency : Type 0 where
  forbid allow replace : Concurrency

pub data RepositoryWrite : Type 0 where
  no_write proposal : RepositoryWrite

pub record Job : Type 0 where
  pub name : Text
  pub kind : JobKind
  pub command : Option Text
  pub agent_config : Option Text
  pub schedule : Option Text
  pub timezone : Option Text
  pub concurrency : Concurrency
  pub timeout_seconds : ℕ  -- u32
  pub secrets : List Text
  pub repository_write : RepositoryWrite
  pub network : List Text
  pub resources : Resources

-- `secrets` holds the entries of the `BTreeMap` in the order of their keys, each with its
-- description.
pub record ProjectManifest : Type 0 where
  pub version : ℕ  -- u32
  pub build : Build
  pub services : List Service
  pub jobs : List Job
  pub postgres_enabled : Bool
  pub files_enabled : Bool
  pub secrets : List (Text × Text)
