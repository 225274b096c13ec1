-- ===== src/Runner/Signing.antt =====
-- A signed envelope is accepted: `SignedEnvelope::sign` and `Authenticator::verify` of
-- crates/c6-runner/src/lib.rs.
use cresix.Base.{◌≡◌, ◌≤◌, ◌<◌, refl, [], none, Result, ok, length, arith}
use cresix.Base.Int.{ℤ, abs_diff}
use cresix.Base.Text.{Text, text_key}
use cresix.Base.Map.{lookup, retain}
use cresix.Runner.{Uuid, max_clock_skew_ms, max_replay_entries, min_auth_key_bytes}
use cresix.Runner.Authenticator.{
  SignedEnvelope, Authenticator, Packages, is_recent, verify, compute_mac, signing_input, sign,
  validate_auth_key,
}
use cresix.Runner.Acceptance.{verify_iff}

-- With a base64 decoder that reads what the encoder wrote and a key of 32 bytes or more, an
-- envelope signed over 16 nonce bytes is made, and within the clock skew a verifier with the
-- same key returns the command that its payload encodes, if the nonce is new and there is room.
pub verify-sign :
    (p : Packages) {T : Type 0} (from_slice : Text → Result Text T) (encode : Text → Text)
    → ((bytes : Text) → p.base64_decode (encode bytes) ≡ ok bytes)
    → (a : Authenticator) (request_id : Uuid) (issued now : ℤ) (nonce payload : Text) (command : T)
    → min_auth_key_bytes ≤ length a.key
    → length nonce ≡ 16
    → abs_diff now issued ≤ max_clock_skew_ms
    → lookup (encode nonce) (retain (is_recent now) a.seen_nonces) ≡ none
    → length (retain (is_recent now) a.seen_nonces) < max_replay_entries
    → from_slice payload ≡ ok command
    → (e : SignedEnvelope) × (sign p encode request_id issued nonce payload a.key ≡ ok e)
      × ((verify p from_slice a e now).1 ≡ ok command)
unfolding sign validate_auth_key compute_mac signing_input
verify-sign p {T} from_slice encode round a request_id issued now nonce payload command strong len
      recent fresh room parsed =
    let signed : SignedEnvelope = record {
      version = 1;
      request_id = request_id;
      issued_at_ms = issued;
      nonce = encode nonce;
      payload = encode payload;
      mac = encode (
          compute_mac p a.key (record {
            version = 1;
            request_id = request_id;
            issued_at_ms = issued;
            nonce = encode nonce;
            payload = encode payload;
            mac = [];
          }));
    } in
    (
      signed,
      ground arith,
      (verify_iff p from_slice a signed now command).1 (record {
        version = refl;
        recent = recent;
        nonce = (nonce, round nonce, len);
        mac = round (compute_mac p a.key signed);
        fresh = fresh;
        room = room;
        payload = (payload, round payload, parsed);
      }),
    )
