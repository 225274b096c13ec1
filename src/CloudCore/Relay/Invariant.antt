-- ===== src/CloudCore/Relay/Invariant.antt =====
-- What holds of a relay session (crates/c6-cloud-core/src/relay.rs) whatever its peer sends.
use cresix.Base.{
  ◌-◌, ℕ, ◌≤◌, ◌<◌, ◌^◌, List, [], ◌∷◌, ◌≡◌, inl, inr, refl, Result-cases, Option-cases, ltb, true,
  false, some, ok, length, arith, Bool-cases,
}
use cresix.Base.Map.{
  contains, contains_self, contains-cons, Distinct, lookup, insert, remove, Holds, insert-Holds,
  remove-Holds, length-insert_old, length-insert, length-remove,
}
use cresix.Base.Text.{text_key}
use cresix.CloudCore.Relay.{
  Uuid, max_body_chunk_bytes, max_request_body_bytes, max_response_body_bytes,
  max_concurrent_requests, max_request_ids_per_session,
}
use cresix.CloudCore.Relay.Frames.{
  RelayControlFrame, client_hello, server_ready, request_start, request_end, response_start,
  response_end, cancel, request_failed, ping, pong,
}
use cresix.CloudCore.Relay.Body.{RelayBodyFrame, RelayBodyKind, request_chunk, response_chunk}
use cresix.CloudCore.Relay.Session.{
  HandshakeState, awaiting_ready, ready, FlowState, request_body, awaiting_response, response_body,
  RelaySessionState, default, is_ready, in_flight, control_outcome, observe_control, observe_body,
  count_chunk, Frame, control, body, observe, run, with_counters, counters, count_flow,
}
use cresix.CloudCore.Relay.Facts.{
  start_facts, request_end_facts, response_start_facts, response_end_facts, cancel_facts,
  request_failed_facts, hello_facts, server_ready_facts, ping_facts, pong_facts, chunk_cases,
}

-- The counters of a flow are 32-bit and within the limit of its direction.
abbrev pub Fits : FlowState → Type 0
Fits (request_body n b) = (n < 2 ^ 32) × (b ≤ max_request_body_bytes)
Fits awaiting_response = Unit
Fits (response_body n b) = (n < 2 ^ 32) × (b ≤ max_response_body_bytes)

-- An open flow has a recorded identifier and fitting counters.
abbrev pub Tracked : List Uuid → Uuid → FlowState → Type 0
Tracked seen id flow = (contains id seen ≡ true) × Fits flow

pub record IsValid (s : RelaySessionState) : Type 0 where
  pub few_flows : in_flight s ≤ max_concurrent_requests
  pub few_ids : length s.seen_request_ids ≤ max_request_ids_per_session
  pub distinct_ids : Distinct s.seen_request_ids
  pub tracked : Holds (Tracked s.seen_request_ids) s.flows
  pub idle : is_ready s ≡ false → s.flows ≡ []

default-IsValid : IsValid default
unfolding default lookup
default-IsValid = record {
  few_flows = omega arith;
  few_ids = omega arith;
  distinct_ids = tt;
  tracked = λ id flow h. cc;
  idle = λ h. refl;
}

-- Recording one more identifier keeps what is known of the others.
Tracked-cons :
    (id : Uuid) (seen : List Uuid) (flows : List (Uuid × FlowState))
    → Holds (Tracked seen) flows
    → Holds (Tracked (id ∷ seen)) flows
Tracked-cons id seen flows h j flow found =
    let (old, fits) = h j flow found in (contains-cons j id seen old, fits)

-- Writing the flow of a recorded identifier, and dropping one.
module _ (s : RelaySessionState) (v : IsValid s) (up : is_ready s ≡ true) where
  write-IsValid :
      (id : Uuid) (old new : FlowState)
      → lookup id s.flows ≡ some old
      → Fits new
      → IsValid (record s { flows = insert id new s.flows })
  write-IsValid id old new found fits = record {
    few_flows = omega (arith, length-insert_old id new s.flows found, v.few_flows);
    few_ids = v.few_ids;
    distinct_ids = v.distinct_ids;
    tracked =
        insert-Holds (Tracked s.seen_request_ids) id new s.flows ((v.tracked id old found).0, fits)
          v.tracked;
    idle = λ down. cc;
  }

  remove-IsValid : (id : Uuid) → IsValid (record s { flows = remove id s.flows })
  remove-IsValid id = record {
    few_flows = omega (arith, length-remove id s.flows, v.few_flows);
    few_ids = v.few_ids;
    distinct_ids = v.distinct_ids;
    tracked = remove-Holds (Tracked s.seen_request_ids) id s.flows v.tracked;
    idle = λ down. cc;
  }

  start-IsValid :
      (id : Uuid)
      → contains id s.seen_request_ids ≡ false
      → length s.flows < max_concurrent_requests
      → length s.seen_request_ids < max_request_ids_per_session
      → IsValid (record s {
        seen_request_ids = id ∷ s.seen_request_ids;
        flows = insert id (request_body 0 0) s.flows;
      })
  unfolding contains
  start-IsValid id fresh room budget = record {
    few_flows = omega (arith, length-insert id (request_body 0 0) s.flows);
    few_ids = omega arith;
    distinct_ids = (fresh, v.distinct_ids);
    tracked =
        insert-Holds (Tracked (id ∷ s.seen_request_ids)) id (request_body 0 0) s.flows
          (contains_self id s.seen_request_ids, omega arith)
          (Tracked-cons id s.seen_request_ids s.flows v.tracked);
    idle = λ down. cc;
  }

-- The handshake frames come before any flow is open.
handshake-IsValid :
    (s : RelaySessionState) (state : HandshakeState)
    → IsValid s
    → is_ready s ≡ false
    → IsValid (record s { handshake = state })
handshake-IsValid s state v down = record {
  few_flows = v.few_flows;
  few_ids = v.few_ids;
  distinct_ids = v.distinct_ids;
  tracked = v.tracked;
  idle = λ h. v.idle down;
}

control_outcome-IsValid :
    (s : RelaySessionState) (frame : RelayControlFrame) {t : RelaySessionState}
    → IsValid s
    → control_outcome s frame ≡ ok t
    → IsValid t
control_outcome-IsValid s (client_hello f) v h =
    let (down, e) = hello_facts s f h in rw e (handshake-IsValid s awaiting_ready v down)
control_outcome-IsValid s (server_ready f) v h =
    let (down, e) = server_ready_facts s f h in rw e (handshake-IsValid s ready v down)
control_outcome-IsValid s (request_start f) v h =
    let (up, fresh, room, budget, e) = start_facts s f h in
    rw e (start-IsValid s v up f.request_id fresh room budget)
control_outcome-IsValid s (request_end f) v h =
    let (flow, up, found, _, e) = request_end_facts s f h in
    rw e (write-IsValid s v up f.request_id flow awaiting_response found tt)
control_outcome-IsValid s (response_start f) v h =
    let (flow, up, found, _, e) = response_start_facts s f h in
    rw e (write-IsValid s v up f.request_id flow (response_body 0 0) found (omega arith))
control_outcome-IsValid s (response_end f) v h =
    let (flow, up, found, _, e) = response_end_facts s f h in
    rw e (remove-IsValid s v up f.request_id)
control_outcome-IsValid s (cancel f) v h =
    let (flow, up, found, e) = cancel_facts s f h in rw e (remove-IsValid s v up f.request_id)
control_outcome-IsValid s (request_failed f) v h =
    let (flow, up, found, e) = request_failed_facts s f h in
    rw e (remove-IsValid s v up f.request_id)
control_outcome-IsValid s (ping f) v h = rw (ping_facts s f h) v
control_outcome-IsValid s (pong f) v h = rw (pong_facts s f h) v

observe_control-IsValid :
    (s : RelaySessionState) (frame : RelayControlFrame)
    → IsValid s
    → IsValid (observe_control s frame).0
unfolding observe_control
observe_control-IsValid s frame v = elim (Result-cases (control_outcome s frame)) [
  | inl (t, h) ↦ rw h (control_outcome-IsValid s frame v h)
  | inr (e, h) ↦ rw h v
]

chunk-IsValid :
    (s : RelaySessionState) (f : RelayBodyFrame) (flow : FlowState) (n b limit : ℕ)
    → IsValid s
    → is_ready s ≡ true
    → lookup f.request_id s.flows ≡ some flow
    → n < 2 ^ 32
    → limit < 2 ^ 64 - 1
    → ((m u : ℕ) → m < 2 ^ 32 → u ≤ limit → Fits (with_counters f.kind m u))
    → IsValid (count_chunk s f (n, b, limit)).0
chunk-IsValid s f flow n b limit v up found small roomy fits =
    elim (chunk_cases s f n b limit roomy) [
      | inl same ↦ rw same v
      | inr (m, u, hm, hu, _, _, _, e) ↦ rw e (
          write-IsValid s v up f.request_id flow (with_counters f.kind m u) found
            (fits m u (hm small) hu))
    ]

-- The counters that a chunk may move are those of its own direction.
counters-Fits :
    (kind : RelayBodyKind) (flow : FlowState) (n b limit : ℕ)
    → counters kind flow ≡ some (n, b, limit)
    → Fits flow
    → (n < 2 ^ 32)
      × (limit < 2 ^ 64 - 1)
      × ((m u : ℕ) → m < 2 ^ 32 → u ≤ limit → Fits (with_counters kind m u))
counters-Fits request_chunk (request_body i c) n b limit h fits =
    (ground arith, ground arith, λ m u hm hu. (hm, ground arith))
counters-Fits request_chunk awaiting_response n b limit h fits = cc
counters-Fits request_chunk (response_body i c) n b limit h fits = cc
counters-Fits response_chunk (request_body i c) n b limit h fits = cc
counters-Fits response_chunk awaiting_response n b limit h fits = cc
counters-Fits response_chunk (response_body i c) n b limit h fits =
    (ground arith, ground arith, λ m u hm hu. (hm, ground arith))

count_flow-IsValid :
    (s : RelaySessionState) (f : RelayBodyFrame) (flow : FlowState)
    → IsValid s
    → is_ready s ≡ true
    → lookup f.request_id s.flows ≡ some flow
    → IsValid (count_flow s f flow).0
count_flow-IsValid s f flow v up found = elim (Option-cases (counters f.kind flow)) [
  | inl none_fits ↦ rw (none_fits, count_flow) v
  | inr ((n, b, limit), e) ↦
      let (small, roomy, fits) =
        counters-Fits f.kind flow n b limit e (v.tracked f.request_id flow found).1 in
      rw (e, count_flow) (chunk-IsValid s f flow n b limit v up found small roomy fits)
]

observe_body-IsValid :
    (s : RelaySessionState) (f : RelayBodyFrame) → IsValid s → IsValid (observe_body s f).0
unfolding observe_body
observe_body-IsValid s f v = elim (Bool-cases (is_ready s)) [
  | inr down ↦ rw down v
  | inl up ↦ elim (Bool-cases (ltb max_body_chunk_bytes (length f.payload))) [
    | inl over ↦ rw (up, over) v
    | inr within ↦ elim (Option-cases (lookup f.request_id s.flows)) [
      | inl missing ↦ rw (up, within, missing) v
      | inr (flow, found) ↦ rw (up, within, found) (count_flow-IsValid s f flow v up found)
    ]
  ]
]

observe-IsValid : (s : RelaySessionState) (frame : Frame) → IsValid s → IsValid (observe s frame).0
unfolding observe
observe-IsValid s (control frame) v = observe_control-IsValid s frame v
observe-IsValid s (body frame) v = observe_body-IsValid s frame v

pub run-IsValid-from :
    (s : RelaySessionState) (frames : List Frame) → IsValid s → IsValid (run s frames)
unfolding run
run-IsValid-from s [] v = v
run-IsValid-from s (frame ∷ frames) v =
    run-IsValid-from (observe s frame).0 frames (observe-IsValid s frame v)

-- Whatever frames a session is shown, accepted or refused, it has at most 32 open flows and
-- 4096 identifiers, all different; each open flow has one of these identifiers, and its
-- counters are within the limit of its direction; and before the handshake no flow is open.
pub run-IsValid : (frames : List Frame) → IsValid (run default frames)
run-IsValid frames = run-IsValid-from default frames default-IsValid
