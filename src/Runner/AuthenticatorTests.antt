-- ===== src/Runner/AuthenticatorTests.antt =====
-- The theorems on `Authenticator` of crates/c6-runner/src/lib.rs at concrete envelopes, with
-- stand-ins for the packages.
use cresix.Base.{ok, err, ◌≡◌, ◌↔◌, ◌∷◌, ◌++◌, [], ℕ, none, refl, ◌≤◌, length, Result, arith}
use cresix.Base.Int.{pos}
use cresix.Base.Text.{Text, codes, text_key}
use cresix.Base.Map.{lookup, insert, retain}
use cresix.Runner.{max_replay_entries}
use cresix.Runner.Authenticator.{
  SignedEnvelope, Authenticator, ProtocolError, Packages, is_recent, authenticate, read_payload,
  verify, compute_mac, signing_input, sign, validate_auth_key, stale, bad_authentication,
  authenticator_new, weak_key,
}
use cresix.Runner.Acceptance.{Accepted, verify_iff}
use cresix.Runner.Signing.{verify-sign}
use cresix.Runner.Replay.{after, accepted_once, after_bounded}

abbrev pub packages : Packages
packages = record {
  base64_decode = λ text. ok text;
  hmac_sha256 = λ key input. key ++ input;
  show_uuid = λ id. id;
  show_i64 = λ _. codes "1000";
}

abbrev key : Text
key = codes "0123456789abcdef0123456789abcdef"

abbrev pub fresh : Authenticator
fresh = record { key = key; seen_nonces = [] }

abbrev read : Text → Result Text ℕ
read payload = ok (length payload)

abbrev pub envelope : SignedEnvelope
envelope = record {
  version = 1;
  request_id = codes "request";
  issued_at_ms = pos 1000;
  nonce = codes "0123456789abcdef";
  payload = codes "ping";
  mac = key ++ codes "c6-runner-v1\nrequest\n1000\n0123456789abcdef\nping";
}

abbrev forged : SignedEnvelope
forged = record {
  version = 1;
  request_id = codes "request";
  issued_at_ms = pos 1000;
  nonce = codes "fedcba9876543210";
  payload = codes "ping";
  mac = codes "forged";
}

accepts_envelope : (verify packages read fresh envelope (pos 2000)).1 ≡ ok 4
unfolding verify authenticate compute_mac signing_input lookup insert retain read_payload
accepts_envelope = refl

refuses_stale : (verify packages read fresh envelope (pos 70000)).1 ≡ err stale
unfolding verify authenticate compute_mac signing_input lookup insert retain read_payload
refuses_stale = refl

refuses_forged : (verify packages read fresh forged (pos 2000)).1 ≡ err bad_authentication
unfolding verify authenticate compute_mac signing_input lookup insert retain read_payload
refuses_forged = refl

refuses_short_key : authenticator_new (codes "short") ≡ err weak_key
unfolding authenticator_new validate_auth_key
refuses_short_key = refl

verify_iff_example :
    ((verify packages read fresh envelope (pos 2000)).1 ≡ ok 4)
    ↔ Accepted packages read fresh envelope (pos 2000) 4
verify_iff_example = verify_iff packages read fresh envelope (pos 2000) 4

accepted_once_example :
    (error : ProtocolError) × ((verify packages read
        (after packages read
          (verify packages read fresh envelope (pos 2000)).0
          ((forged, pos 3000) ∷ []))
        envelope
        (pos 4000)).1
      ≡ err error)
accepted_once_example =
    accepted_once packages read fresh envelope envelope ((forged, pos 3000) ∷ []) (pos 2000)
      (pos 4000) 4 accepts_envelope (omega arith, omega arith) refl refl

after_bounded_example :
    length (after packages read fresh ((envelope, pos 2000) ∷ (forged, pos 3000) ∷ [])).seen_nonces
    ≤ max_replay_entries
after_bounded_example =
    after_bounded packages read fresh ((envelope, pos 2000) ∷ (forged, pos 3000) ∷ []) (omega arith)

nothing_seen :
    lookup (codes "0123456789abcdef") (retain (is_recent (pos 2000)) fresh.seen_nonces) ≡ none
unfolding lookup retain
nothing_seen = refl

nothing_kept : length (retain (is_recent (pos 2000)) fresh.seen_nonces) ≡ 0
unfolding retain
nothing_kept = refl

verify-sign_example :
    (e : SignedEnvelope) × (sign packages
        (λ bytes. bytes)
        (codes "request")
        (pos 1000)
        (codes "0123456789abcdef")
        (codes "ping")
        key
      ≡ ok e)
    × ((verify packages read fresh e (pos 2000)).1 ≡ ok 4)
verify-sign_example =
    verify-sign packages read (λ bytes. bytes) (λ bytes. refl) fresh (codes "request") (pos 1000)
      (pos 2000) (codes "0123456789abcdef") (codes "ping") 4 (omega arith) refl (omega arith)
      nothing_seen (omega (arith, nothing_kept)) refl
