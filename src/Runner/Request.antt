-- ===== src/Runner/Request.antt =====
-- The execution requests of crates/c6-runner/src/lib.rs and their validation.
use cresix.Base.{
  ℕ, ◌*◌, ◌+◌, ◌-◌, ◌^◌, min, List, [], ◌∷◌, Bool, false, not, ◌&&◌, ◌||◌, Option, none, some,
  Result, ok, err, ◌>>◌, fail_if, ltb, leb, ◌==◌, in_range, if◌then◌else◌, length, all, is_empty,
}
use cresix.Base.Int.{ℤ, within}
use cresix.Base.Text.{
  Text, codes, is_ascii_lowercase, is_ascii_uppercase, is_ascii_digit, is_one_of, has_byte,
  has_text, starts_with, ends_with, strip_prefix, split,
}
use cresix.Runner.{Uuid, max_log_bytes, max_timeout_seconds}

pub data ValidationError : Type 0 where
  nil_identifier invalid_revision invalid_digest : ValidationError
  resource_out_of_range : Text → ValidationError
  invalid_network_policy invalid_destination blocked_destination : ValidationError
  simulation_input_too_large invalid_exit_code : ValidationError

pub record ResourcePolicy : Type 0 where
  pub cpu_millis : ℕ  -- u32
  pub memory_bytes : ℕ  -- u64
  pub disk_bytes : ℕ  -- u64
  pub process_limit : ℕ  -- u32
  pub timeout_seconds : ℕ  -- u32
  pub log_bytes : ℕ  -- u64

abbrev range_check : ℕ → ℕ → ℕ → Text → Result ValidationError (Unit {0})
range_check lo hi value name = fail_if (not (in_range lo hi value)) (resource_out_of_range name)

-- `ResourcePolicy::validate`
unfoldable pub validate_resources : ResourcePolicy → Result ValidationError (Unit {0})
validate_resources r = do
  range_check 10 4000 r.cpu_millis (codes "cpu_millis")
  range_check (16 * 1024 * 1024) (4 * 1024 * 1024 * 1024) r.memory_bytes (codes "memory_bytes")
  range_check (1024 * 1024) (20 * 1024 * 1024 * 1024) r.disk_bytes (codes "disk_bytes")
  range_check 1 512 r.process_limit (codes "process_limit")
  range_check 1 max_timeout_seconds r.timeout_seconds (codes "timeout_seconds")
  range_check 1024 max_log_bytes r.log_bytes (codes "log_bytes")

pub record NetworkDestination : Type 0 where
  pub host : Text
  pub port : ℕ  -- u16

abbrev pub is_host_byte : ℕ → Bool
is_host_byte byte = is_ascii_lowercase byte || is_ascii_digit byte || byte == b'-' || byte == b'.'

-- `host != host.to_ascii_lowercase()`: some byte is an upper-case letter.
unfoldable pub is_bad_host : Text → Bool
is_bad_host host =
    is_empty host
    || ltb 253 (length host)
    || not (all (λ byte. not (is_ascii_uppercase byte)) host)
    || starts_with host (codes ".")
    || ends_with host (codes ".")
    || has_text (codes "..") host
    || has_byte b'*' host
    || not (all is_host_byte host)

abbrev pub blocked : List Text
blocked =
    codes "localhost"
    ∷ codes "localhost.localdomain"
    ∷ codes "metadata.google.internal"
    ∷ codes "169.254.169.254"
    ∷ codes "127.0.0.1"
    ∷ codes "::1"
    ∷ []

-- `Ipv4Addr::from_str` of the standard library: four decimal numbers up to 255, of at most
-- three digits and without a leading zero.
unfoldable pub parse_octet : Text → Option ℕ
parse_octet (a ∷ []) = if is_ascii_digit a then some (a - b'0') else none
parse_octet (a ∷ b ∷ []) =
    if in_range b'1' b'9' a && is_ascii_digit b then some ((a - b'0') * 10 + (b - b'0')) else none
parse_octet (a ∷ b ∷ c ∷ []) =
    let n = (a - b'0') * 100 + (b - b'0') * 10 + (c - b'0') in
    if in_range b'1' b'9' a && is_ascii_digit b && is_ascii_digit c && leb n 255
    then some n
    else none
parse_octet _ = none

pub record Ipv4Addr : Type 0 where
  pub a : ℕ
  pub b : ℕ
  pub c : ℕ
  pub d : ℕ

abbrev octets : Option ℕ → Option ℕ → Option ℕ → Option ℕ → Option Ipv4Addr
octets (some a) (some b) (some c) (some d) = some (record { a = a; b = b; c = c; d = d })
octets _ _ _ _ = none

abbrev parse_parts : List Text → Option Ipv4Addr
parse_parts (a ∷ b ∷ c ∷ d ∷ []) =
    octets (parse_octet a) (parse_octet b) (parse_octet c) (parse_octet d)
parse_parts _ = none

-- `host.parse::<IpAddr>()` behind the character test: an IPv6 address has a `:`, which the test
-- refuses, so that only the IPv4 arm can be reached.
unfoldable pub parse_ip : Text → Option Ipv4Addr
parse_ip host = parse_parts (split b'.' host)

-- `is_private`, `is_loopback`, `is_link_local`, `is_unspecified`, `is_multicast`
unfoldable pub is_protected : Ipv4Addr → Bool
is_protected ip =
    (ip.a == 10)
    || (ip.a == 172 && in_range 16 31 ip.b)
    || (ip.a == 192 && ip.b == 168)
    || (ip.a == 127)
    || (ip.a == 169 && ip.b == 254)
    || (ip.a == 0 && ip.b == 0 && ip.c == 0 && ip.d == 0)
    || in_range 224 239 ip.a

abbrev pub is_protected_host : Text → Bool
is_protected_host host = elim (parse_ip host) [ none ↦ false | some ip ↦ is_protected ip ]

-- `NetworkDestination::validate`
unfoldable pub validate_destination : NetworkDestination → Result ValidationError (Unit {0})
validate_destination d = do
  fail_if (d.port == 0 || is_bad_host d.host) invalid_destination
  fail_if (is_one_of blocked d.host) blocked_destination
  fail_if (is_protected_host d.host) blocked_destination

pub data NetworkPolicy : Type 0 where
  deny_all : NetworkPolicy
  allow_list : List NetworkDestination → NetworkPolicy

unfoldable pub validate_destinations : List NetworkDestination → Result ValidationError (Unit {0})
validate_destinations [] = ok tt
validate_destinations (d ∷ ds) = do validate_destination d; validate_destinations ds

-- `NetworkPolicy::validate`
unfoldable pub validate_network : NetworkPolicy → Result ValidationError (Unit {0})
validate_network deny_all = ok tt
validate_network (allow_list destinations) = do
  fail_if (is_empty destinations || ltb 32 (length destinations)) invalid_network_policy
  validate_destinations destinations

pub data RepositoryWritePolicy : Type 0 where
  no_write proposal : RepositoryWritePolicy

pub record SimulationPlan : Type 0 where
  pub delay_ms : ℕ  -- u64
  pub stdout : Text
  pub stderr : Text
  pub exit_code : ℤ  -- i32

abbrev saturated : ℕ → ℕ
saturated n = min n (2 ^ 64 - 1)

-- `SimulationPlan::validate`
unfoldable pub validate_simulation :
    SimulationPlan → ResourcePolicy → Result ValidationError (Unit {0})
validate_simulation plan resources = do
  let input_bytes = saturated (length plan.stdout + length plan.stderr)
  fail_if (ltb (min (saturated (resources.log_bytes * 4)) (max_log_bytes * 2)) input_bytes)
      simulation_input_too_large
  fail_if (not (within 255 plan.exit_code)) invalid_exit_code

pub record ExecutionRequest : Type 0 where
  pub run_id : Uuid
  pub workspace_id : Uuid
  pub project_id : Uuid
  pub revision_sha : Text
  pub manifest_digest : Text
  pub resources : ResourcePolicy
  pub network : NetworkPolicy
  pub repository_write : RepositoryWritePolicy
  pub simulation : SimulationPlan

-- `Uuid::is_nil`
abbrev pub is_nil : Uuid → Bool
is_nil id = all (λ byte. byte == 0) id

abbrev pub is_lower_hex : ℕ → Bool
is_lower_hex byte = is_ascii_digit byte || in_range b'a' b'f' byte

unfoldable pub validate_revision : Text → Result ValidationError (Unit {0})
validate_revision value =
    if (length value == 40 || length value == 64) && all is_lower_hex value
    then ok tt
    else err invalid_revision

unfoldable pub validate_digest : Text → Result ValidationError (Unit {0})
validate_digest value = elim (strip_prefix value (codes "sha256:")) [
  | none ↦ err invalid_digest
  | some hex ↦ if length hex == 64 && all is_lower_hex hex then ok tt else err invalid_digest
]

-- `ExecutionRequest::validate`
unfoldable pub validate_request : ExecutionRequest → Result ValidationError (Unit {0})
validate_request request = do
  fail_if (is_nil request.workspace_id || is_nil request.project_id || is_nil request.run_id)
      nil_identifier
  validate_revision request.revision_sha
  validate_digest request.manifest_digest
  validate_resources request.resources
  validate_network request.network
  validate_simulation request.simulation request.resources
