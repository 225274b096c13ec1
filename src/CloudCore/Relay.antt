-- ===== src/CloudCore/Relay.antt =====
-- crates/c6-cloud-core/src/relay.rs: the limits and the errors of the relay protocol. The
-- headers, the frames, the binary codec and the session are children, and their proofs beside.
pub mod Headers
pub mod HeaderLimits
pub mod Frames
pub mod Body
pub mod Codec
pub mod Session
pub mod Facts
pub mod Invariant
pub mod Transitions
pub mod Reuse
pub mod Refusals
pub mod Streams
pub mod Tests
use cresix.Base.{ℕ, ◌*◌, ◌+◌, ◌^◌, ◌-◌, min}
use cresix.Base.Text.{Text}

-- A UUID is its 16 bytes (`Uuid::as_bytes`).
abbrev pub Uuid : Type 0
Uuid = Text

abbrev pub relay_protocol_version : ℕ
relay_protocol_version = 1

abbrev pub max_body_chunk_bytes : ℕ
max_body_chunk_bytes = 64 * 1024

abbrev pub max_request_body_bytes : ℕ
max_request_body_bytes = 16 * 1024 * 1024

abbrev pub max_response_body_bytes : ℕ
max_response_body_bytes = 64 * 1024 * 1024

abbrev pub max_concurrent_requests : ℕ
max_concurrent_requests = 32

abbrev pub max_header_count : ℕ
max_header_count = 128

abbrev pub max_header_bytes : ℕ
max_header_bytes = 64 * 1024

abbrev pub max_target_bytes : ℕ
max_target_bytes = 8 * 1024

abbrev pub max_request_ids_per_session : ℕ
max_request_ids_per_session = 4096

-- `saturating_add` on `u64` and on a 64-bit `usize`.
abbrev pub saturating_add : ℕ → ℕ → ℕ
saturating_add a b = min (a + b) (2 ^ 64 - 1)

pub data RelayValidationError : Type 0 where
  unsupported_protocol invalid_method invalid_target invalid_deadline : RelayValidationError
  invalid_status invalid_header forbidden_header headers_too_large : RelayValidationError
  chunk_too_large body_too_large malformed_body_frame : RelayValidationError
  illegal_transition duplicate_request unknown_request : RelayValidationError
  concurrency_limit request_id_budget_exhausted invalid_sequence : RelayValidationError
