-- ===== src/CloudCore/Relay/Frames.antt =====
-- The control frames of crates/c6-cloud-core/src/relay.rs and their validation.
use cresix.Base.{
  ℕ, List, Bool, not, ◌||◌, Result, ◌>>◌, fail_if, ltb, ◌==◌, in_range, length, any, is_empty,
}
use cresix.Base.Text.{Text, codes, has_byte, has_text, starts_with, is_ascii_control}
use cresix.CloudCore.Token.{SecretToken}
use cresix.CloudCore.Relay.{
  Uuid, RelayValidationError, invalid_target, invalid_deadline, invalid_status, max_target_bytes,
}
use cresix.CloudCore.Relay.Headers.{HttpMethod, HeaderField, validate_headers}

pub record ClientHelloFrame : Type 0 where
  pub protocol_version : ℕ  -- u16
  pub connector_token : SecretToken

pub record ServerReadyFrame : Type 0 where
  pub installation_id : Uuid
  pub generation : ℕ  -- u64
  pub max_concurrent_requests : ℕ  -- u16
  pub max_chunk_bytes : ℕ  -- u32

pub record RequestStartFrame : Type 0 where
  pub request_id : Uuid
  pub method : HttpMethod
  pub target : Text
  pub headers : List HeaderField
  pub deadline_unix_ms : ℕ  -- u64

unfoldable pub is_bad_target : Text → Bool
is_bad_target target =
    is_empty target
    || ltb max_target_bytes (length target)
    || not (starts_with target (codes "/"))
    || starts_with target (codes "//")
    || has_byte b'#' target
    || has_text (codes "://") target
    || has_byte b'\\' target
    || any is_ascii_control target

-- `RequestStartFrame::validate`
unfoldable pub validate_request_start : RequestStartFrame → Result RelayValidationError (Unit {0})
validate_request_start frame = do
  fail_if (is_bad_target frame.target) invalid_target
  fail_if (frame.deadline_unix_ms == 0) invalid_deadline
  validate_headers frame.headers

pub record RequestIdFrame : Type 0 where
  pub request_id : Uuid

pub record ResponseStartFrame : Type 0 where
  pub request_id : Uuid
  pub status : ℕ  -- u16
  pub headers : List HeaderField

-- `ResponseStartFrame::validate`
unfoldable pub validate_response_start : ResponseStartFrame → Result RelayValidationError (Unit {0})
validate_response_start frame = do
  fail_if (not (in_range 100 599 frame.status)) invalid_status
  validate_headers frame.headers

pub data RelayFailureCode : Type 0 where
  bad_gateway timeout cancelled protocol : RelayFailureCode

pub record RequestFailedFrame : Type 0 where
  pub request_id : Uuid
  pub code : RelayFailureCode
  pub message : Text

pub record KeepaliveFrame : Type 0 where
  pub nonce : ℕ  -- u64

pub data RelayControlFrame : Type 0 where
  client_hello : ClientHelloFrame → RelayControlFrame
  server_ready : ServerReadyFrame → RelayControlFrame
  request_start : RequestStartFrame → RelayControlFrame
  request_end : RequestIdFrame → RelayControlFrame
  response_start : ResponseStartFrame → RelayControlFrame
  response_end : RequestIdFrame → RelayControlFrame
  cancel : RequestIdFrame → RelayControlFrame
  request_failed : RequestFailedFrame → RelayControlFrame
  ping : KeepaliveFrame → RelayControlFrame
  pong : KeepaliveFrame → RelayControlFrame
