-- ===== src/Runner.antt =====
-- crates/c6-runner/src/lib.rs: the limits of the runner. The requests, the authenticator, the
-- logs, the frames and the service are children, with their proofs beside them.
pub mod Request
pub mod Limits
pub mod Addresses
pub mod Logs
pub mod Framing
pub mod FrameLaws
pub mod Authenticator
pub mod Acceptance
pub mod Signing
pub mod Replay
pub mod Service
pub mod Idempotence
pub mod Handle
pub mod Settled
pub mod SentAgain
pub mod Handled
pub mod Interleaving
pub mod Overlap
pub mod Tests
pub mod AuthenticatorTests
pub mod ServiceTests
use cresix.Base.{ℕ, ◌*◌}
use cresix.Base.Text.{Text}

abbrev pub Uuid : Type 0
Uuid = Text

abbrev pub protocol_version : ℕ
protocol_version = 1

abbrev pub max_frame_bytes : ℕ
max_frame_bytes = 256 * 1024

abbrev pub max_clock_skew_ms : ℕ
max_clock_skew_ms = 60000

abbrev pub max_log_bytes : ℕ
max_log_bytes = 1024 * 1024

abbrev pub max_timeout_seconds : ℕ
max_timeout_seconds = 3600

abbrev pub min_auth_key_bytes : ℕ
min_auth_key_bytes = 32

abbrev pub max_replay_entries : ℕ
max_replay_entries = 4096
