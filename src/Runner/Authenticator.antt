-- ===== src/Runner/Authenticator.antt =====
-- `SignedEnvelope`, `ProtocolError` and `Authenticator` of crates/c6-runner/src/lib.rs. The base64
-- decoder, HMAC-SHA256, the JSON decoder and the printed forms of a UUID and of an `i64` are
-- packages, and parameters here.
use cresix.Base.{
  ℕ, List, [], ◌++◌, Bool, not, none, some, Result, ok, err, ◌>>=◌, ◌>>◌, fail_if, ltb, leb, ◌==◌,
  if◌then◌else◌, length,
}
use cresix.Base.Int.{ℤ, abs_diff}
use cresix.Base.Text.{Text, codes, text_eq, text_key}
use cresix.Base.Map.{lookup, insert, retain}
use cresix.Runner.{
  Uuid, protocol_version, max_clock_skew_ms, min_auth_key_bytes, max_replay_entries,
}

pub record SignedEnvelope : Type 0 where
  pub version : ℕ  -- u8
  pub request_id : Uuid
  pub issued_at_ms : ℤ  -- i64
  pub nonce : Text
  pub payload : Text
  pub mac : Text

pub data ErrorCode : Type 0 where
  authentication_failed replay_detected stale_request unsupported_version : ErrorCode
  malformed_request invalid_execution idempotency_conflict not_found : ErrorCode
  persistence_failed internal : ErrorCode

pub data ProtocolError : Type 0 where
  weak_key bad_authentication replayed stale bad_version : ProtocolError
  malformed : Text → ProtocolError

-- `ProtocolError::code`
unfoldable pub code : ProtocolError → ErrorCode
code weak_key = authentication_failed
code bad_authentication = authentication_failed
code replayed = replay_detected
code stale = stale_request
code bad_version = unsupported_version
code (malformed _) = malformed_request

unfoldable pub validate_auth_key : Text → Result ProtocolError (Unit {0})
validate_auth_key key = if ltb (length key) min_auth_key_bytes then err weak_key else ok tt

pub record Authenticator : Type 0 where
  pub key : Text
  pub seen_nonces : List (Text × ℤ)

-- `Authenticator::new`
unfoldable pub authenticator_new : Text → Result ProtocolError Authenticator
authenticator_new key = do validate_auth_key key; ok (record { key = key; seen_nonces = [] })

-- What the source calls of the packages `base64`, `hmac`, `uuid` and of the standard library.
pub record Packages : Type 0 where
  pub base64_decode : Text → Result Text Text
  pub hmac_sha256 : Text → Text → Text
  pub show_uuid : Uuid → Text
  pub show_i64 : ℤ → Text

abbrev pub is_recent : ℤ → ℤ → Bool
is_recent now timestamp = leb (abs_diff now timestamp) max_clock_skew_ms

module _ (p : Packages) where
  unfoldable pub signing_input : SignedEnvelope → Text
  signing_input e =
      codes "c6-runner-v1\n"
      ++ (p.show_uuid e.request_id ++ codes "\n")
      ++ (p.show_i64 e.issued_at_ms ++ codes "\n")
      ++ (e.nonce ++ codes "\n")
      ++ e.payload

  -- HMAC takes a key of any length, so that the `WeakKey` of the source cannot arise here.
  unfoldable pub compute_mac : Text → SignedEnvelope → Text
  compute_mac key e = p.hmac_sha256 key (signing_input e)

  abbrev pub decode_or_fail : Text → Result ProtocolError Text
  decode_or_fail text = elim (p.base64_decode text) [
    | err _ ↦ err bad_authentication
    | ok bytes ↦ ok bytes
  ]

  -- The part of `verify` before the lock on the nonces.
  unfoldable pub authenticate : Text → SignedEnvelope → ℤ → Result ProtocolError (Unit {0})
  authenticate key e now = do
    fail_if (not (e.version == protocol_version)) bad_version
    fail_if (ltb max_clock_skew_ms (abs_diff now e.issued_at_ms)) stale
    nonce ← decode_or_fail e.nonce
    fail_if (not (length nonce == 16)) bad_authentication
    supplied_mac ← decode_or_fail e.mac
    fail_if (not (text_eq (compute_mac key e) supplied_mac)) bad_authentication

  -- The part after it: the payload.
  unfoldable pub read_payload {ℓ} :
      {T : Type ℓ} → (Text → Result Text T) → SignedEnvelope → Result ProtocolError T
  read_payload from_slice e = elim (p.base64_decode e.payload) [
    | err message ↦ err (malformed message)
    | ok payload ↦ elim (from_slice payload) [ err message ↦ err (malformed message) | ok t ↦ ok t ]
  ]

  -- `Authenticator::verify`
  unfoldable pub verify {ℓ} :
      {T : Type ℓ}
      → (Text → Result Text T)
      → Authenticator
      → SignedEnvelope
      → ℤ
      → Authenticator × Result ProtocolError T
  verify from_slice a e now = elim (authenticate a.key e now) [
    | err error ↦ (a, err error)
    | ok _ ↦
        let seen = retain (is_recent now) a.seen_nonces in
        elim (lookup e.nonce seen) [
          | some _ ↦ (record { key = a.key; seen_nonces = seen }, err replayed)
          | none ↦
              if leb max_replay_entries (length seen)
              then (record { key = a.key; seen_nonces = seen }, err replayed)
              else (
                record { key = a.key; seen_nonces = insert e.nonce e.issued_at_ms seen },
                read_payload from_slice e,
              )
        ]
  ]

  -- The envelope before its `mac` is set.
  abbrev unsigned : Uuid → ℤ → Text → Text → SignedEnvelope
  unsigned request_id issued_at_ms nonce payload = record {
    version = protocol_version;
    request_id = request_id;
    issued_at_ms = issued_at_ms;
    nonce = nonce;
    payload = payload;
    mac = [];
  }

  -- `SignedEnvelope::sign`, on the JSON text of the payload and with the base64 encoder
  unfoldable pub sign :
      (Text → Text) → Uuid → ℤ → Text → Text → Text → Result ProtocolError SignedEnvelope
  sign encode request_id issued_at_ms nonce payload key = do
    validate_auth_key key
    ok (record {
      version = protocol_version;
      request_id = request_id;
      issued_at_ms = issued_at_ms;
      nonce = encode nonce;
      payload = encode payload;
      mac =
          encode
            (compute_mac key (unsigned request_id issued_at_ms (encode nonce) (encode payload)));
    })
