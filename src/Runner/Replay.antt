-- ===== src/Runner/Replay.antt =====
-- The protection of `Authenticator::verify` of crates/c6-runner/src/lib.rs against envelopes that
-- are sent again.
use cresix.Base.{
  ◌≤◌, List, [], ◌∷◌, true, none, some, Result, ok, err, ◌≡◌, ◌≢◌, sym, length, arith, ap, ◌∙◌, inl,
  inr,
}
use cresix.Base.Int.{ℤ, pos, negsuc}
use cresix.Base.Text.{Text, text_key}
use cresix.Base.Map.{
  lookup, retain, lookup-insert_self, lookup-insert_ne, lookup-retain, length-retain, length-insert,
}
use cresix.Runner.{max_replay_entries}
use cresix.Runner.Acceptance.{call, verify_cases}
use cresix.Runner.Authenticator.{
  SignedEnvelope, Authenticator, ProtocolError, replayed, Packages, is_recent, authenticate,
}

-- The order of the signed integers.
infix 4 ◌≤ℤ◌
abbrev pub ◌≤ℤ◌ : ℤ → ℤ → Type 0
pos a ≤ℤ pos b = a ≤ b
pos a ≤ℤ negsuc b = ⊥
negsuc a ≤ℤ pos b = Unit
negsuc a ≤ℤ negsuc b = b ≤ a

-- A window around a moment holds all between two of its members.
recent_between :
    (a b c t : ℤ)
    → a ≤ℤ b
    → b ≤ℤ c
    → is_recent a t ≡ true
    → is_recent c t ≡ true
    → is_recent b t ≡ true
recent_between (pos a) (pos b) (pos c) (pos t) h g r s = ground arith
recent_between _ _ _ _ h g r s = ground arith

≤ℤ-trans : (a b c : ℤ) → a ≤ℤ b → b ≤ℤ c → a ≤ℤ c
≤ℤ-trans (pos a) (pos b) (pos c) h g = ground arith
≤ℤ-trans _ _ _ h g = ground arith

-- The times of a sequence of calls do not fall, from one moment up to another.
abbrev pub Advancing : ℤ → List (SignedEnvelope × ℤ) → ℤ → Type 0
Advancing from [] to = from ≤ℤ to
Advancing from ((_, now) ∷ calls) to = (from ≤ℤ now) × Advancing now calls to

Advancing-le : (a b : ℤ) (calls : List (SignedEnvelope × ℤ)) → Advancing a calls b → a ≤ℤ b
Advancing-le a b [] h = h
Advancing-le a b ((e, now) ∷ calls) (h, g) = ≤ℤ-trans a now b h (Advancing-le now b calls g)

module _ (p : Packages) {T : Type 0} (from_slice : Text → Result Text T) where
  -- The authenticator after a sequence of calls.
  unfoldable pub after : Authenticator → List (SignedEnvelope × ℤ) → Authenticator
  after a [] = a
  after a ((e, now) ∷ calls) = after (call p from_slice a e now).0 calls

  call_keeps :
      (a : Authenticator) (e : SignedEnvelope) (now : ℤ) (n : Text) (t : ℤ)
      → lookup n a.seen_nonces ≡ some t
      → is_recent now t ≡ true
      → lookup n (call p from_slice a e now).0.seen_nonces ≡ some t
  call_keeps a e now n t h r =
      let kept = lookup-retain (is_recent now) n a.seen_nonces h r in
      elim (verify_cases p from_slice a e now) [
        | inl (same, _) ↦ rw same h
        | inr (inl (same, _)) ↦ rw same kept
        | inr (inr (_, absent, _, same)) ↦
            let other : e.nonce ≢ n = λ eq. cc in
            rw same (
              lookup-insert_ne e.nonce n e.issued_at_ms (retain (is_recent now) a.seen_nonces) other
              ∙ kept)
      ]

  pub after_keeps :
      (a : Authenticator) (calls : List (SignedEnvelope × ℤ)) (n : Text) (t from to : ℤ)
      → lookup n a.seen_nonces ≡ some t
      → is_recent from t ≡ true
      → is_recent to t ≡ true
      → Advancing from calls to
      → lookup n (after a calls).seen_nonces ≡ some t
  unfolding after
  after_keeps a [] n t from to h r s adv = h
  after_keeps a ((e, now) ∷ calls) n t from to h r s (first, rest) =
      let now_recent = recent_between from now to t first (Advancing-le now to calls rest) r s in
      after_keeps (call p from_slice a e now).0 calls n t now to
        (call_keeps a e now n t h now_recent) now_recent s rest

  authenticate_recent :
      (key : Text) (e : SignedEnvelope) (now : ℤ)
      → authenticate p key e now ≡ ok tt
      → is_recent now e.issued_at_ms ≡ true
  unfolding authenticate
  authenticate_recent key e now h = ground arith

  pub accepted_recorded :
      (a : Authenticator) (e : SignedEnvelope) (now : ℤ) {payload : T}
      → (call p from_slice a e now).1 ≡ ok payload
      → (lookup e.nonce (call p from_slice a e now).0.seen_nonces ≡ some e.issued_at_ms)
        × (is_recent now e.issued_at_ms ≡ true)
  accepted_recorded a e now h = elim (verify_cases p from_slice a e now) [
    | inl (_, (error, refused)) ↦ cc
    | inr (inl (_, refused)) ↦ cc
    | inr (inr (valid, _, _, same)) ↦ (
      rw same (lookup-insert_self e.nonce e.issued_at_ms (retain (is_recent now) a.seen_nonces)),
      authenticate_recent a.key e now valid,
    )
  ]

  -- Once an envelope is accepted, no envelope with its nonce and its time of issue is accepted
  -- again, whatever calls lie between, as long as the clock does not go back.
  pub accepted_once :
      (a : Authenticator) (e again : SignedEnvelope) (calls : List (SignedEnvelope × ℤ))
      (from to : ℤ) (payload : T)
      → (call p from_slice a e from).1 ≡ ok payload
      → Advancing from calls to
      → again.nonce ≡ e.nonce
      → again.issued_at_ms ≡ e.issued_at_ms
      → (error : ProtocolError) × ((call p from_slice
            (after (call p from_slice a e from).0 calls)
            again
            to).1
          ≡ err error)
  accepted_once a e again calls from to payload h adv same_nonce same_time =
      let a' = after (call p from_slice a e from).0 calls in
      let (seen, recent) = accepted_recorded a e from h in
      elim (verify_cases p from_slice a' again to) [
        | inl (_, refused) ↦ refused
        | inr (inl (_, refused)) ↦ (replayed, refused)
        | inr (inr (valid, absent, _, _)) ↦
            let late : is_recent to e.issued_at_ms ≡ true =
              ap (is_recent to) (sym same_time) ∙ authenticate_recent a'.key again to valid in
            let there =
              after_keeps (call p from_slice a e from).0 calls e.nonce e.issued_at_ms from to seen
                recent late adv in
            let kept = lookup-retain (is_recent to) e.nonce a'.seen_nonces there late in
            let gone : lookup e.nonce (retain (is_recent to) a'.seen_nonces) ≡ none =
              ap (λ k. lookup k (retain (is_recent to) a'.seen_nonces)) (sym same_nonce) ∙ absent in
            cc
      ]

  call_bounded :
      (a : Authenticator) (e : SignedEnvelope) (now : ℤ)
      → length a.seen_nonces ≤ max_replay_entries
      → length (call p from_slice a e now).0.seen_nonces ≤ max_replay_entries
  call_bounded a e now h =
      let seen = retain (is_recent now) a.seen_nonces in
      let shorter = length-retain (is_recent now) a.seen_nonces in
      elim (verify_cases p from_slice a e now) [
        | inl (same, _) ↦ rw same h
        | inr (inl (same, _)) ↦ rw same (omega arith)
        | inr (inr (_, _, room, same)) ↦
            rw same (omega (arith, length-insert e.nonce e.issued_at_ms seen))
      ]

  -- The authenticator remembers at most 4,096 nonces, whatever it is sent.
  pub after_bounded :
      (a : Authenticator) (calls : List (SignedEnvelope × ℤ))
      → length a.seen_nonces ≤ max_replay_entries
      → length (after a calls).seen_nonces ≤ max_replay_entries
  unfolding after
  after_bounded a [] h = h
  after_bounded a ((e, now) ∷ calls) h =
      after_bounded (call p from_slice a e now).0 calls (call_bounded a e now h)
