-- ===== src/CloudCore/Relay/Body.antt =====
-- `RelayBodyFrame` of crates/c6-cloud-core/src/relay.rs: the binary frame of one body chunk,
-- one byte of version, one of kind, 16 of the request, 4 of the sequence number, the payload.
use cresix.Base.{
  ℕ, ◌+◌, ◌-◌, ◌*◌, ◌/◌, ◌%◌, ◌^◌, [], ◌∷◌, ◌++◌, Option, none, some, not, Result, ok, ◌>>=◌, ◌>>◌,
  fail_if, ok_or, ltb, ◌==◌, if◌then◌else◌, length, take, drop, get_elem?,
}
use cresix.Base.Text.{Text}
use cresix.CloudCore.Relay.{
  Uuid, RelayValidationError, chunk_too_large, malformed_body_frame, unsupported_protocol,
  max_body_chunk_bytes, relay_protocol_version,
}

pub data RelayBodyKind : Type 0 where
  request_chunk response_chunk : RelayBodyKind

pub record RelayBodyFrame : Type 0 where
  pub kind : RelayBodyKind
  pub request_id : Uuid
  pub sequence : ℕ  -- u32
  pub payload : Text

abbrev pub header_bytes : ℕ
header_bytes = 22

-- `u32::to_be_bytes`, `u32::from_be_bytes`
unfoldable pub to_be_bytes : ℕ → Text
to_be_bytes n = (n / 2 ^ 24 % 256) ∷ (n / 2 ^ 16 % 256) ∷ (n / 2 ^ 8 % 256) ∷ (n % 256) ∷ []

unfoldable pub from_be_bytes : Text → Option ℕ
from_be_bytes (a ∷ b ∷ c ∷ d ∷ []) = some (a * 2 ^ 24 + b * 2 ^ 16 + c * 2 ^ 8 + d)
from_be_bytes _ = none

abbrev pub kind_byte : RelayBodyKind → ℕ
kind_byte request_chunk = 1
kind_byte response_chunk = 2

unfoldable pub encode : RelayBodyFrame → Result RelayValidationError Text
encode frame = do
  fail_if (ltb max_body_chunk_bytes (length frame.payload)) chunk_too_large
  ok (
      relay_protocol_version
      ∷ kind_byte frame.kind
      ∷ (frame.request_id ++ (to_be_bytes frame.sequence ++ frame.payload)))

-- `match input[1]`
abbrev pub kind_of_byte : ℕ → Option RelayBodyKind
kind_of_byte byte =
    if byte == 1 then some request_chunk else if byte == 2 then some response_chunk else none

-- The indices and ranges are in bounds behind the length test, so an index that is missing
-- (`input[0]`, `input[1]`) or a range of another length never answers here.
unfoldable pub decode : Text → Result RelayValidationError RelayBodyFrame
decode input = do
  fail_if (ltb (length input) header_bytes) malformed_body_frame
  fail_if (ltb max_body_chunk_bytes (length input - header_bytes)) chunk_too_large
  version ← ok_or (get_elem? input 0) malformed_body_frame
  fail_if (not (version == relay_protocol_version)) unsupported_protocol
  byte ← ok_or (get_elem? input 1) malformed_body_frame
  kind ← ok_or (kind_of_byte byte) malformed_body_frame
  let request_id = take 16 (drop 2 input)
  sequence ← ok_or (from_be_bytes (take 4 (drop 18 input))) malformed_body_frame
  ok (record { kind = kind; request_id = request_id; sequence = sequence; payload = drop 22 input })
