-- ===== src/Runner/SentAgain.antt =====
-- How `Authenticator::verify` of crates/c6-runner/src/lib.rs refuses an envelope that it has
-- accepted before.
use cresix.Base.{
  ◌≡◌, List, [], ◌∷◌, false, some, Result, ok, err, refl, ap, ◌∙◌, arith, if◌then◌else◌, Bool-cases,
  inl, inr,
}
use cresix.Base.Int.{ℤ}
use cresix.Base.Text.{Text, text_key}
use cresix.Base.Map.{lookup, retain, lookup-retain}
use cresix.Runner.{protocol_version}
use cresix.Runner.Authenticator.{
  SignedEnvelope, Authenticator, Packages, replayed, stale, is_recent, authenticate, verify,
}
use cresix.Runner.Acceptance.{Accepted, call, authenticate_iff, verify_iff, verify_cases}
use cresix.Runner.Replay.{Advancing, after, after_keeps, accepted_recorded}
use cresix.Runner.Service.{RunnerCommand}

module _ (p : Packages) (from_slice : Text → Result Text RunnerCommand) where
  key_kept :
      (a : Authenticator) (e : SignedEnvelope) (now : ℤ) → (call p from_slice a e now).0.key ≡ a.key
  key_kept a e now = elim (verify_cases p from_slice a e now) [
    | inl (same, _) ↦ rw same refl
    | inr (inl (same, _)) ↦ rw same refl
    | inr (inr (_, _, _, same)) ↦ rw same refl
  ]

  after_key :
      (a : Authenticator) (calls : List (SignedEnvelope × ℤ))
      → (after p from_slice a calls).key ≡ a.key
  unfolding after
  after_key a [] = refl
  after_key a ((e, now) ∷ calls) = after_key (call p from_slice a e now).0 calls ∙ key_kept a e now

  verify_seen :
      (a : Authenticator) (e : SignedEnvelope) (now t : ℤ)
      → authenticate p a.key e now ≡ ok tt
      → lookup e.nonce (retain (is_recent now) a.seen_nonces) ≡ some t
      → (call p from_slice a e now).1 ≡ err replayed
  unfolding verify
  verify_seen a e now t valid found = ground arith

  verify_late :
      (a : Authenticator) (e : SignedEnvelope) (now : ℤ)
      → e.version ≡ protocol_version
      → is_recent now e.issued_at_ms ≡ false
      → (call p from_slice a e now).1 ≡ err stale
  unfolding verify authenticate
  verify_late a e now version late = ground arith

  -- How an accepted envelope is refused when it is sent again.
  pub sent_again :
      (a : Authenticator) (e : SignedEnvelope) (now : ℤ) (command : RunnerCommand)
      (calls : List (SignedEnvelope × ℤ)) (to : ℤ)
      → Accepted p from_slice a e now command
      → Advancing now calls to
      → (call p from_slice (after p from_slice (call p from_slice a e now).0 calls) e to).1
        ≡ err (if is_recent to e.issued_at_ms then replayed else stale)
  sent_again a e now command calls to accepted adv =
      let later = after p from_slice (call p from_slice a e now).0 calls in
      elim (Bool-cases (is_recent to e.issued_at_ms)) [
        | inr late ↦ rw late (verify_late later e to accepted.version late)
        | inl recent ↦
            let (seen, was_recent) =
              accepted_recorded p from_slice a e now
                ((verify_iff p from_slice a e now command).1 accepted) in
            let there =
              after_keeps p from_slice (call p from_slice a e now).0 calls e.nonce e.issued_at_ms
                now to seen was_recent recent adv in
            let kept = lookup-retain (is_recent to) e.nonce later.seen_nonces there recent in
            let key : later.key ≡ a.key =
              after_key (call p from_slice a e now).0 calls ∙ key_kept a e now in
            let valid : authenticate p a.key e to ≡ ok tt =
              (authenticate_iff p from_slice a.key e to).1
                (accepted.version, ground (arith, recent), accepted.nonce, accepted.mac) in
            rw recent (
              verify_seen later e to e.issued_at_ms (ap (λ k. authenticate p k e to) key ∙ valid)
                kept)
      ]
