-- ===== src/CloudCore/Relay/Refusals.antt =====
-- What a refused frame leaves of a relay session (crates/c6-cloud-core/src/relay.rs).
use cresix.Base.{
  ℕ, ◌+◌, ◌≤◌, ◌-◌, ◌^◌, ◌≡◌, ◌⊎◌, inl, inr, refl, true, some, err, length, arith, Bool-cases,
  Option-cases, ltb,
}
use cresix.Base.Map.{lookup, lookup-insert_self}
use cresix.Base.Text.{text_key}
use cresix.CloudCore.Relay.{
  RelayValidationError, invalid_sequence, max_body_chunk_bytes, max_request_body_bytes,
}
use cresix.CloudCore.Relay.Body.{RelayBodyFrame, request_chunk}
use cresix.CloudCore.Relay.Session.{
  FlowState, request_body, RelaySessionState, is_ready, observe_control, observe_body, count_chunk,
  count_flow, counters, Frame, control, body, observe,
}

-- The one refusal that writes: the chunk is the next one of a flow with a full counter.
abbrev pub Exhausts : Frame → RelayValidationError → Type 0
Exhausts (control frame) e = ⊥
Exhausts (body f) e = (f.sequence ≡ 2 ^ 32 - 1) × (e ≡ invalid_sequence)

count_chunk_refused :
    (s : RelaySessionState) (f : RelayBodyFrame) (n b limit : ℕ) {e : RelayValidationError}
    → (count_chunk s f (n, b, limit)).1 ≡ err e
    → ((count_chunk s f (n, b, limit)).0 ≡ s) ⊎ ((f.sequence ≡ 2 ^ 32 - 1) × (e ≡ invalid_sequence))
unfolding count_chunk
count_chunk_refused s f n b limit h = ground arith

count_flow_refused :
    (s : RelaySessionState) (f : RelayBodyFrame) (flow : FlowState) {e : RelayValidationError}
    → (count_flow s f flow).1 ≡ err e
    → ((count_flow s f flow).0 ≡ s) ⊎ ((f.sequence ≡ 2 ^ 32 - 1) × (e ≡ invalid_sequence))
count_flow_refused s f flow {e} h = elim (Option-cases (counters f.kind flow)) [
  | inl no_counters ↦ rw (no_counters, count_flow) (inl refl)
  | inr ((n, b, limit), found) ↦
      rw (found, count_flow) (count_chunk_refused s f n b limit (rw (found, count_flow) at h))
]

observe_body_refused :
    (s : RelaySessionState) (f : RelayBodyFrame) {e : RelayValidationError}
    → (observe_body s f).1 ≡ err e
    → ((observe_body s f).0 ≡ s) ⊎ ((f.sequence ≡ 2 ^ 32 - 1) × (e ≡ invalid_sequence))
unfolding observe_body
observe_body_refused s f {e} h = elim (Bool-cases (is_ready s)) [
  | inr down ↦ rw down (inl refl)
  | inl up ↦ elim (Bool-cases (ltb max_body_chunk_bytes (length f.payload))) [
    | inl over ↦ rw (up, over) (inl refl)
    | inr within ↦ elim (Option-cases (lookup f.request_id s.flows)) [
      | inl missing ↦ rw (up, within, missing) (inl refl)
      | inr (flow, found) ↦
          rw (up, within, found) (count_flow_refused s f flow (rw (up, within, found) at h))
    ]
  ]
]

-- A refused frame leaves the session as it was, with one exception: a body chunk with the last
-- 32-bit sequence number, which is refused as an invalid sequence.
pub observe_refused :
    (s : RelaySessionState) (frame : Frame) (e : RelayValidationError)
    → (observe s frame).1 ≡ err e
    → ((observe s frame).0 ≡ s) ⊎ Exhausts frame e
unfolding observe observe_control
observe_refused s (control frame) e h = ground arith
observe_refused s (body f) e h = observe_body_refused s f h

-- In the exceptional case the refused chunk is still counted: the flow keeps its sequence
-- number, and its byte counter has grown by the chunk's size.
pub refused_chunk_counted :
    (s : RelaySessionState) (f : RelayBodyFrame) (b : ℕ)
    → is_ready s ≡ true
    → f.kind ≡ request_chunk
    → f.sequence ≡ 2 ^ 32 - 1
    → length f.payload ≤ max_body_chunk_bytes
    → lookup f.request_id s.flows ≡ some (request_body (2 ^ 32 - 1) b)
    → b + length f.payload ≤ max_request_body_bytes
    → ((observe_body s f).1 ≡ err invalid_sequence)
      × (lookup f.request_id (observe_body s f).0.flows
          ≡ some (request_body (2 ^ 32 - 1) (b + length f.payload)))
unfolding observe_body count_chunk
refused_chunk_counted s f b up kind last small found fits = ground (
  arith,
  lookup-insert_self f.request_id (request_body (2 ^ 32 - 1) (b + length f.payload)) s.flows,
)
