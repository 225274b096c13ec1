-- ===== src/Runner/Acceptance.antt =====
-- What `Authenticator::verify` of crates/c6-runner/src/lib.rs accepts, and how it ends.
use cresix.Base.{
  ◌≤◌, ◌<◌, none, Result, ok, err, ◌≡◌, ◌↔◌, ◌⊎◌, leb, length, arith, Bool-cases, Option-cases,
  Result-cases, inl, inr,
}
use cresix.Base.Int.{ℤ, abs_diff}
use cresix.Base.Text.{Text, text_key}
use cresix.Base.Map.{lookup, insert, retain}
use cresix.Runner.{max_clock_skew_ms, max_replay_entries, protocol_version}
use cresix.Runner.Authenticator.{
  SignedEnvelope, Authenticator, ProtocolError, replayed, Packages, is_recent, authenticate,
  read_payload, verify, compute_mac,
}

module _ (p : Packages) {T : Type 0} (from_slice : Text → Result Text T) where
  abbrev pub call : Authenticator → SignedEnvelope → ℤ → Authenticator × Result ProtocolError T
  call = verify p from_slice

  abbrev pub recorded : (a : Authenticator) (e : SignedEnvelope) (now : ℤ) → Authenticator
  recorded a e now = record {
    key = a.key;
    seen_nonces = insert e.nonce e.issued_at_ms (retain (is_recent now) a.seen_nonces);
  }

  pub verify_cases :
      (a : Authenticator) (e : SignedEnvelope) (now : ℤ)
      → ((call a e now).0 ≡ a) × ((error : ProtocolError) × ((call a e now).1 ≡ err error))
        ⊎ (((call a e now).0
              ≡ record { key = a.key; seen_nonces = retain (is_recent now) a.seen_nonces })
            × ((call a e now).1 ≡ err replayed))
        ⊎ ((authenticate p a.key e now ≡ ok tt)
            × (lookup e.nonce (retain (is_recent now) a.seen_nonces) ≡ none)
            × (length (retain (is_recent now) a.seen_nonces) < max_replay_entries)
            × (call a e now ≡ (recorded a e now, read_payload p from_slice e)))
  unfolding verify
  verify_cases a e now = elim (Result-cases (authenticate p a.key e now)) [
    | inr (error, h) ↦ inl (ground arith, (error, ground arith))
    | inl (_, h) ↦
        let seen = retain (is_recent now) a.seen_nonces in
        elim (Option-cases (lookup e.nonce seen)) [
          | inr (v, found) ↦ inr (inl (ground arith, ground arith))
          | inl absent ↦ elim (Bool-cases (leb max_replay_entries (length seen))) [
            | inl full ↦ inr (inl (ground arith, ground arith))
            | inr room ↦ inr (inr (ground arith, absent, ground arith, ground arith))
          ]
        ]
  ]

  -- What a call accepts.
  pub record Accepted (a : Authenticator) (e : SignedEnvelope) (now : ℤ) (t : T) : Type 0 where
    pub version : e.version ≡ protocol_version
    pub recent : abs_diff now e.issued_at_ms ≤ max_clock_skew_ms
    pub nonce : (bytes : Text) × (p.base64_decode e.nonce ≡ ok bytes) × (length bytes ≡ 16)
    pub mac : p.base64_decode e.mac ≡ ok (compute_mac p a.key e)
    pub fresh : lookup e.nonce (retain (is_recent now) a.seen_nonces) ≡ none
    pub room : length (retain (is_recent now) a.seen_nonces) < max_replay_entries
    pub payload :
        (bytes : Text) × (p.base64_decode e.payload ≡ ok bytes) × (from_slice bytes ≡ ok t)

  pub authenticate_iff :
      (key : Text) (e : SignedEnvelope) (now : ℤ)
      → (authenticate p key e now ≡ ok tt) ↔ (
          (e.version ≡ protocol_version)
          × (abs_diff now e.issued_at_ms ≤ max_clock_skew_ms)
          × ((bytes : Text) × (p.base64_decode e.nonce ≡ ok bytes) × (length bytes ≡ 16))
          × (p.base64_decode e.mac ≡ ok (compute_mac p key e)))
  unfolding authenticate
  authenticate_iff key e now = elim (Result-cases (p.base64_decode e.nonce)) [
    | inr (m, bad) ↦ ground arith
    | inl (bytes, nonce) ↦ elim (Result-cases (p.base64_decode e.mac)) [
      | inr (m, bad) ↦ ground arith
      | inl (supplied, mac) ↦
          let same = text_key.beq_iff (compute_mac p key e) supplied in
          (
            λ h. (ground arith, ground arith, (bytes, nonce, ground arith), ground arith),
            λ q.
                let (v, r, (bs, n, l), m) = q in let eq : bs ≡ bytes = ground arith in ground arith,
          )
    ]
  ]

  payload_iff :
      (e : SignedEnvelope) (t : T)
      → (read_payload p from_slice e ≡ ok t)
        ↔ ((bytes : Text) × (p.base64_decode e.payload ≡ ok bytes) × (from_slice bytes ≡ ok t))
  unfolding read_payload
  payload_iff e t = elim (Result-cases (p.base64_decode e.payload)) [
    | inr (m, bad) ↦ ground arith
    | inl (bytes, good) ↦ elim (Result-cases (from_slice bytes)) [
      | inr (m, bad) ↦
          (λ h. ground arith, λ q. let (bs, b, f) = q in let eq : bs ≡ bytes = ground arith in cc)
      | inl (u, parsed) ↦ (
        λ h. (bytes, good, ground arith),
        λ q. let (bs, b, f) = q in let eq : bs ≡ bytes = ground arith in cc,
      )
    ]
  ]

  accepted :
      (a : Authenticator) (e : SignedEnvelope) (now : ℤ) (t : T)
      → (call a e now).1 ≡ ok t
      → Accepted a e now t
  accepted a e now t h = elim (verify_cases a e now) [
    | inl (_, (error, refused)) ↦ cc
    | inr (inl (_, refused)) ↦ cc
    | inr (inr (valid, absent, room, same)) ↦
        let (v, r, n, m) = (authenticate_iff a.key e now).0 valid in
        record {
          version = v;
          recent = r;
          nonce = n;
          mac = m;
          fresh = absent;
          room = room;
          payload = (payload_iff e t).0 (ground arith);
        }
  ]

  returns :
      (a : Authenticator) (e : SignedEnvelope) (now : ℤ) (t : T)
      → Accepted a e now t
      → (call a e now).1 ≡ ok t
  unfolding verify
  returns a e now t q =
      let valid = (authenticate_iff a.key e now).1 (q.version, q.recent, q.nonce, q.mac) in
      let read = (payload_iff e t).1 q.payload in
      let fresh = q.fresh in let room = q.room in ground arith

  -- A call returns a command exactly when the envelope has the protocol's version, was issued
  -- within the clock skew, has a nonce of 16 bytes that is not among the remembered ones, of
  -- which there are fewer than 4,096, carries the HMAC of its own fields under the key, and the
  -- payload decodes to the command.
  pub verify_iff :
      (a : Authenticator) (e : SignedEnvelope) (now : ℤ) (t : T)
      → ((call a e now).1 ≡ ok t) ↔ Accepted a e now t
  verify_iff a e now t = (accepted a e now t, returns a e now t)
