-- ===== src/Runner/Limits.antt =====
-- What `ExecutionRequest::validate` of crates/c6-runner/src/lib.rs accepts, as bounds.
use cresix.Base.{
  ◌*◌, ◌+◌, ◌≤◌, ◌≡◌, ◌↔◌, ◌⊎◌, List, [], ◌∷◌, All, true, false, ok, length, arith, refl, inl, inr,
  all, ◌++◌, Option-cases,
}
use cresix.Base.Int.{within}
use cresix.Base.Text.{Text, codes, strip_prefix}
use cresix.Base.Prefix.{strip_prefix_sound, strip_prefix-append}
use cresix.Runner.Request.{
  ResourcePolicy, validate_resources, NetworkDestination, validate_destination, NetworkPolicy,
  deny_all, allow_list, validate_destinations, validate_network, SimulationPlan,
  validate_simulation, ExecutionRequest, is_nil, is_lower_hex, validate_revision, validate_digest,
  validate_request,
}

pub record Bounded (r : ResourcePolicy) : Type 0 where
  pub cpu : (10 ≤ r.cpu_millis) × (r.cpu_millis ≤ 4000)
  pub memory : (16777216 ≤ r.memory_bytes) × (r.memory_bytes ≤ 4294967296)
  pub disk : (1048576 ≤ r.disk_bytes) × (r.disk_bytes ≤ 21474836480)
  pub processes : (1 ≤ r.process_limit) × (r.process_limit ≤ 512)
  pub timeout : (1 ≤ r.timeout_seconds) × (r.timeout_seconds ≤ 3600)
  pub log : (1024 ≤ r.log_bytes) × (r.log_bytes ≤ 1048576)

resources_iff : (r : ResourcePolicy) → (validate_resources r ≡ ok tt) ↔ Bounded r
unfolding validate_resources
resources_iff r = ground arith

-- No network, or 1 to 32 destinations that are valid one by one.
pub data Reachable (n : NetworkPolicy) : Type 0 where
  nowhere : n ≡ deny_all → Reachable n
  listed :
      (ds : List NetworkDestination)
      → n ≡ allow_list ds
      → 1 ≤ length ds
      → length ds ≤ 32
      → All (λ d. validate_destination d ≡ ok tt) ds
      → Reachable n

destinations_iff :
    (ds : List NetworkDestination)
    → (validate_destinations ds ≡ ok tt) ↔ All (λ d. validate_destination d ≡ ok tt) ds
unfolding validate_destinations
destinations_iff [] = ground arith
destinations_iff (d ∷ ds) = ground (arith, destinations_iff ds)

Reachable-listed :
    (ds : List NetworkDestination)
    → Reachable (allow_list ds)
    → (1 ≤ length ds) × (length ds ≤ 32) × All (λ d. validate_destination d ≡ ok tt) ds
Reachable-listed ds (nowhere e) = cc
Reachable-listed ds (listed es e lo hi valid) =
    let same : es ≡ ds = cc in rw (← same) (lo, hi, valid)

network_iff : (n : NetworkPolicy) → (validate_network n ≡ ok tt) ↔ Reachable n
unfolding validate_network
network_iff deny_all = (λ h. nowhere refl, λ h. refl)
network_iff (allow_list []) =
    (λ h. cc, λ h. let (lo, hi, valid) = Reachable-listed [] h in absurd (omega arith))
network_iff (allow_list (d ∷ ds)) = (
  λ h.
      listed (d ∷ ds) refl (omega arith) (ground arith)
        ((destinations_iff (d ∷ ds)).0 (ground arith)),
  λ h.
      let (lo, hi, valid) = Reachable-listed (d ∷ ds) h in
      let passed = (destinations_iff (d ∷ ds)).1 valid in ground arith,
)

-- The simulated output fits four times the log limit, and the exit code is in -255..=255.
pub record Simulated (plan : SimulationPlan) (r : ResourcePolicy) : Type 0 where
  pub output : length plan.stdout + length plan.stderr ≤ 4 * r.log_bytes
  pub capped : length plan.stdout + length plan.stderr ≤ 2097152
  pub exit : within 255 plan.exit_code ≡ true

simulation_iff :
    (plan : SimulationPlan) (r : ResourcePolicy)
    → (validate_simulation plan r ≡ ok tt) ↔ Simulated plan r
unfolding validate_simulation
simulation_iff plan r = ground arith

digest_iff :
    (v : Text)
    → (validate_digest v ≡ ok tt) ↔ (
        (hex : Text) × (v ≡ codes "sha256:" ++ hex)
        × (length hex ≡ 64)
        × (all is_lower_hex hex ≡ true))
unfolding validate_digest
digest_iff v = (
  λ h. elim (Option-cases (strip_prefix v (codes "sha256:"))) [
    | inl absent ↦ ground arith
    | inr (hex, found) ↦
        (hex, strip_prefix_sound v (codes "sha256:") found, ground arith, ground arith)
  ],
  λ q.
      let (hex, e, len, chars) = q in
      rw e (ground (arith, strip_prefix-append (codes "sha256:") hex)),
)

-- What a request must be.
pub record Acceptable (request : ExecutionRequest) : Type 0 where
  pub workspace : is_nil request.workspace_id ≡ false
  pub project : is_nil request.project_id ≡ false
  pub run : is_nil request.run_id ≡ false
  pub revision_len : (length request.revision_sha ≡ 40) ⊎ (length request.revision_sha ≡ 64)
  pub revision_hex : all is_lower_hex request.revision_sha ≡ true
  pub digest :
      (hex : Text) × (request.manifest_digest ≡ codes "sha256:" ++ hex)
      × (length hex ≡ 64)
      × (all is_lower_hex hex ≡ true)
  pub resources : Bounded request.resources
  pub network : Reachable request.network
  pub simulation : Simulated request.simulation request.resources

validate_request_parts :
    (r : ExecutionRequest)
    → (validate_request r ≡ ok tt) ↔ (
        (is_nil r.workspace_id ≡ false)
        × (is_nil r.project_id ≡ false)
        × (is_nil r.run_id ≡ false)
        × (validate_revision r.revision_sha ≡ ok tt)
        × (validate_digest r.manifest_digest ≡ ok tt)
        × (validate_resources r.resources ≡ ok tt)
        × (validate_network r.network ≡ ok tt)
        × (validate_simulation r.simulation r.resources ≡ ok tt))
unfolding validate_request
validate_request_parts r = ground arith

revision_iff :
    (v : Text)
    → (validate_revision v ≡ ok tt)
      ↔ (((length v ≡ 40) ⊎ (length v ≡ 64)) × (all is_lower_hex v ≡ true))
unfolding validate_revision
revision_iff v = ground arith

-- A request is accepted exactly when no identifier is nil, the revision has 40 or 64 lower-case
-- hexadecimal digits, the digest is `sha256:` with 64 of them, every resource is in its range,
-- the network is closed or has 1 to 32 valid destinations, and the simulated output fits four
-- times the log limit and 2 MiB, with an exit code from -255 to 255.
pub validate_request_iff : (r : ExecutionRequest) → (validate_request r ≡ ok tt) ↔ Acceptable r
validate_request_iff r = (
  λ h.
      let (w, p, i, rev, dig, res, net, sim) = (validate_request_parts r).0 h in
      let (len, hex) = (revision_iff r.revision_sha).0 rev in
      record {
        workspace = w;
        project = p;
        run = i;
        revision_len = len;
        revision_hex = hex;
        digest = (digest_iff r.manifest_digest).0 dig;
        resources = (resources_iff r.resources).0 res;
        network = (network_iff r.network).0 net;
        simulation = (simulation_iff r.simulation r.resources).0 sim;
      },
  λ a. (validate_request_parts r).1 (
    a.workspace,
    a.project,
    a.run,
    (revision_iff r.revision_sha).1 (a.revision_len, a.revision_hex),
    (digest_iff r.manifest_digest).1 a.digest,
    (resources_iff r.resources).1 a.resources,
    (network_iff r.network).1 a.network,
    (simulation_iff r.simulation r.resources).1 a.simulation,
  ),
)
