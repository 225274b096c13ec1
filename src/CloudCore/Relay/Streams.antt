-- ===== src/CloudCore/Relay/Streams.antt =====
-- A stream of body chunks in a relay session (crates/c6-cloud-core/src/relay.rs).
use cresix.Base.{
  ℕ, ◌+◌, ◌≤◌, ◌<◌, ◌-◌, ◌^◌, List, [], ◌∷◌, ◌≡◌, ◌↔◌, ◌⊎◌, inl, inr, refl, Bool, true, false, ◌&&◌,
  some, ok, is_ok, length, arith, All,
}
use cresix.Base.Map.{lookup, insert, lookup-insert_self}
use cresix.Base.Text.{text_key}
use cresix.CloudCore.Relay.{
  Uuid, max_body_chunk_bytes, max_request_body_bytes, max_response_body_bytes,
}
use cresix.CloudCore.Relay.Body.{RelayBodyKind, RelayBodyFrame, request_chunk, response_chunk}
use cresix.CloudCore.Relay.Session.{
  RelaySessionState, is_ready, observe_body, count_chunk, counters, with_counters,
}

abbrev pub limit_of : RelayBodyKind → ℕ
limit_of request_chunk = max_request_body_bytes
limit_of response_chunk = max_response_body_bytes

-- Whether a session accepts each of some chunks in turn.
unfoldable pub accepts : RelaySessionState → List RelayBodyFrame → Bool
accepts s [] = true
accepts s (f ∷ fs) = is_ok (observe_body s f).1 && accepts (observe_body s f).0 fs

-- The chunks are numbered from `n` on.
abbrev pub Numbered : ℕ → List RelayBodyFrame → Type 0
Numbered n [] = Unit
Numbered n (f ∷ fs) = (f.sequence ≡ n) × Numbered (n + 1) fs

unfoldable pub total : List RelayBodyFrame → ℕ
total [] = 0
total (f ∷ fs) = length f.payload + total fs

-- A chunk of one request and direction, within the size of a frame.
abbrev pub ChunkOf : RelayBodyKind → Uuid → RelayBodyFrame → Type 0
ChunkOf kind id f =
    (f.kind ≡ kind) × (f.request_id ≡ id) × (length f.payload ≤ max_body_chunk_bytes)

counters-with_counters :
    (kind : RelayBodyKind) (n b : ℕ)
    → counters kind (with_counters kind n b) ≡ some (n, b, limit_of kind)
counters-with_counters request_chunk n b = refl
counters-with_counters response_chunk n b = refl

limit_of-lt : (kind : RelayBodyKind) → limit_of kind < 2 ^ 64 - 1
limit_of-lt request_chunk = omega arith
limit_of-lt response_chunk = omega arith

-- One chunk: accepted in its turn and within the limit, and otherwise refused.
pub chunk_accepted :
    (s : RelaySessionState) (f : RelayBodyFrame) (kind : RelayBodyKind) (id : Uuid) (n b : ℕ)
    → is_ready s ≡ true
    → ChunkOf kind id f
    → lookup id s.flows ≡ some (with_counters kind n b)
    → n < 2 ^ 32 - 1
    → ((f.sequence ≡ n)
        × (b + length f.payload ≤ limit_of kind)
        × (observe_body s f ≡ (
          record s {
            flows = insert id (with_counters kind (n + 1) (b + length f.payload)) s.flows;
          },
          ok tt,
        )))
      ⊎ ((((f.sequence ≡ n) × (b + length f.payload ≤ limit_of kind)) → ⊥)
          × (is_ok (observe_body s f).1 ≡ false))
unfolding observe_body count_chunk
chunk_accepted s f kind id n b up (k, i, small) found more =
    ground (arith, counters-with_counters kind n b, limit_of-lt kind)

-- A session that has a flow for the request with these counters.
pub record HasFlow (s : RelaySessionState) (kind : RelayBodyKind) (id : Uuid) (n b : ℕ)
    : Type 0 where
  pub up : is_ready s ≡ true
  pub found : lookup id s.flows ≡ some (with_counters kind n b)

-- A session accepts all of some chunks of one request exactly when they are numbered from the
-- flow's next sequence number on, without gap or repetition, and the bytes counted so far and
-- theirs do not exceed the limit of the direction. The sequence numbers stay below the last
-- 32-bit one.
pub accepts_iff :
    (kind : RelayBodyKind) (id : Uuid) (fs : List RelayBodyFrame) (s : RelaySessionState) (n b : ℕ)
    → HasFlow s kind id n b
    → All (ChunkOf kind id) fs
    → n + length fs < 2 ^ 32
    → b ≤ limit_of kind
    → (accepts s fs ≡ true) ↔ (Numbered n fs × (b + total fs ≤ limit_of kind))
unfolding accepts total
accepts_iff kind id [] s n b w c few h = ground arith
accepts_iff kind id (f ∷ fs) s n b w c few h =
    elim (chunk_accepted s f kind id n b w.up c.0 w.found (omega arith)) [
      | inr (bad, refused) ↦ ground arith
      | inl (turn, fits, e) ↦
          let s' : RelaySessionState = record s {
            flows = insert id (with_counters kind (n + 1) (b + length f.payload)) s.flows;
          } in
          let w' : HasFlow s' kind id (n + 1) (b + length f.payload) = record {
            up = w.up;
            found = lookup-insert_self id _ s.flows;
          } in
          let ih =
            accepts_iff kind id fs s' (n + 1) (b + length f.payload) w' c.1 (omega arith) fits in
          let first : (observe_body s f).0 ≡ s' = rw e in
          let passed : (observe_body s f).1 ≡ ok tt = rw e in rw (first, passed) (ground arith)
    ]
