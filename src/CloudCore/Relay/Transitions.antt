-- ===== src/CloudCore/Relay/Transitions.antt =====
-- The life of a request in a relay session as a step relation, which `observe_control` and
-- `observe_body` of crates/c6-cloud-core/src/relay.rs refine.
use cresix.Base.{
  ℕ, ◌+◌, ◌≤◌, ◌<◌, ◌-◌, ◌^◌, ◌∷◌, ◌≡◌, inl, inr, refl, true, false, Option, none, some, ok, length,
  arith, Bool-cases, Option-cases, Result-cases, ltb,
}
use cresix.Base.Map.{contains, lookup, insert, remove}
use cresix.Base.Text.{text_key}
use cresix.CloudCore.Relay.{Uuid, max_body_chunk_bytes}
use cresix.CloudCore.Relay.Frames.{
  RelayControlFrame, client_hello, server_ready, request_start, request_end, response_start,
  response_end, cancel, request_failed, ping, pong,
}
use cresix.CloudCore.Relay.Body.{RelayBodyFrame, RelayBodyKind, request_chunk, response_chunk}
use cresix.CloudCore.Relay.Session.{
  FlowState, request_body, awaiting_response, response_body, RelaySessionState, is_ready,
  control_outcome, observe_control, observe_body, count_flow, counters, with_counters,
  is_request_body, is_awaiting_response, Frame, control, body, observe,
}
use cresix.CloudCore.Relay.Facts.{
  start_facts, request_end_facts, response_start_facts, response_end_facts, cancel_facts,
  request_failed_facts, hello_facts, server_ready_facts, ping_facts, pong_facts, chunk_cases,
}

-- How an open flow may move: its counters grow by at most one chunk, or it passes on to the
-- next phase.
pub data FlowStep (old new : FlowState) : Type 0 where
  count_request :
      (n b m c : ℕ)
      → old ≡ request_body n b
      → new ≡ request_body m c
      → n ≤ m
      → m ≤ n + 1
      → b ≤ c
      → FlowStep old new
  end_request : is_request_body old ≡ true → new ≡ awaiting_response → FlowStep old new
  begin_response : is_awaiting_response old ≡ true → new ≡ response_body 0 0 → FlowStep old new
  count_response :
      (n b m c : ℕ)
      → old ≡ response_body n b
      → new ≡ response_body m c
      → n ≤ m
      → m ≤ n + 1
      → b ≤ c
      → FlowStep old new

-- A step of a session on behalf of at most one request.
pub data Step (s : RelaySessionState) (who : Option Uuid) (t : RelaySessionState) : Type 0 where
  keep : t.flows ≡ s.flows → t.seen_request_ids ≡ s.seen_request_ids → Step s who t
  start :
      (id : Uuid)
      → who ≡ some id
      → contains id s.seen_request_ids ≡ false
      → t.flows ≡ insert id (request_body 0 0) s.flows
      → t.seen_request_ids ≡ id ∷ s.seen_request_ids
      → Step s who t
  move :
      (id : Uuid) (old new : FlowState)
      → who ≡ some id
      → lookup id s.flows ≡ some old
      → FlowStep old new
      → t.flows ≡ insert id new s.flows
      → t.seen_request_ids ≡ s.seen_request_ids
      → Step s who t
  close :
      (id : Uuid) (old : FlowState)
      → who ≡ some id
      → lookup id s.flows ≡ some old
      → t.flows ≡ remove id s.flows
      → t.seen_request_ids ≡ s.seen_request_ids
      → Step s who t

-- The request that a frame names.
abbrev pub control_id : RelayControlFrame → Option Uuid
control_id (client_hello f) = none
control_id (server_ready f) = none
control_id (request_start f) = some f.request_id
control_id (request_end f) = some f.request_id
control_id (response_start f) = some f.request_id
control_id (response_end f) = some f.request_id
control_id (cancel f) = some f.request_id
control_id (request_failed f) = some f.request_id
control_id (ping f) = none
control_id (pong f) = none

abbrev pub frame_id : Frame → Option Uuid
frame_id (control frame) = control_id frame
frame_id (body f) = some f.request_id

control_outcome-Step :
    (s : RelaySessionState) (frame : RelayControlFrame) {t : RelaySessionState}
    → control_outcome s frame ≡ ok t
    → Step s (control_id frame) t
control_outcome-Step s (client_hello f) h =
    let (_, e) = hello_facts s f h in keep (ground arith) (ground arith)
control_outcome-Step s (server_ready f) h =
    let (_, e) = server_ready_facts s f h in keep (ground arith) (ground arith)
control_outcome-Step s (request_start f) h =
    let (_, fresh, _, _, e) = start_facts s f h in
    start f.request_id refl fresh (ground arith) (ground arith)
control_outcome-Step s (request_end f) h =
    let (flow, _, found, phase, e) = request_end_facts s f h in
    move f.request_id flow awaiting_response refl found (end_request phase refl) (ground arith)
      (ground arith)
control_outcome-Step s (response_start f) h =
    let (flow, _, found, phase, e) = response_start_facts s f h in
    move f.request_id flow (response_body 0 0) refl found (begin_response phase refl) (ground arith)
      (ground arith)
control_outcome-Step s (response_end f) h =
    let (flow, _, found, _, e) = response_end_facts s f h in
    close f.request_id flow refl found (ground arith) (ground arith)
control_outcome-Step s (cancel f) h =
    let (flow, _, found, e) = cancel_facts s f h in
    close f.request_id flow refl found (ground arith) (ground arith)
control_outcome-Step s (request_failed f) h =
    let (flow, _, found, e) = request_failed_facts s f h in
    close f.request_id flow refl found (ground arith) (ground arith)
control_outcome-Step s (ping f) h = let e = ping_facts s f h in keep (ground arith) (ground arith)
control_outcome-Step s (pong f) h = let e = pong_facts s f h in keep (ground arith) (ground arith)

counters-FlowStep :
    (kind : RelayBodyKind) (old : FlowState) (n b limit m c : ℕ)
    → counters kind old ≡ some (n, b, limit)
    → n ≤ m
    → m ≤ n + 1
    → b ≤ c
    → FlowStep old (with_counters kind m c)
counters-FlowStep request_chunk (request_body i j) n b limit m c h p q r =
    count_request n b m c (ground arith) refl p q r
counters-FlowStep request_chunk awaiting_response n b limit m c h p q r = cc
counters-FlowStep request_chunk (response_body i j) n b limit m c h p q r = cc
counters-FlowStep response_chunk (request_body i j) n b limit m c h p q r = cc
counters-FlowStep response_chunk awaiting_response n b limit m c h p q r = cc
counters-FlowStep response_chunk (response_body i j) n b limit m c h p q r =
    count_response n b m c (ground arith) refl p q r

counters_limit :
    (kind : RelayBodyKind) (old : FlowState) (n b limit : ℕ)
    → counters kind old ≡ some (n, b, limit)
    → limit < 2 ^ 64 - 1
counters_limit request_chunk (request_body i j) n b limit h = ground arith
counters_limit request_chunk awaiting_response n b limit h = cc
counters_limit request_chunk (response_body i j) n b limit h = cc
counters_limit response_chunk (request_body i j) n b limit h = cc
counters_limit response_chunk awaiting_response n b limit h = cc
counters_limit response_chunk (response_body i j) n b limit h = ground arith

count_flow-Step :
    (s : RelaySessionState) (f : RelayBodyFrame) (flow : FlowState)
    → lookup f.request_id s.flows ≡ some flow
    → Step s (some f.request_id) (count_flow s f flow).0
count_flow-Step s f flow found = elim (Option-cases (counters f.kind flow)) [
  | inl none_fits ↦ rw (none_fits, count_flow) (keep refl refl)
  | inr ((n, b, limit), e) ↦
      rw (e, count_flow)
        (elim (chunk_cases s f n b limit (counters_limit f.kind flow n b limit e)) [
          | inl same ↦ rw same (keep refl refl)
          | inr (m, u, _, _, lo, hi, grown, left) ↦ rw left (
              move f.request_id flow (with_counters f.kind m u) refl found
                (counters-FlowStep f.kind flow n b limit m u e lo hi grown) refl refl)
        ])
]

-- Every frame, accepted or refused, moves a session by a step on behalf of the request that
-- the frame names: it opens a fresh request, advances or closes an open one, or leaves the
-- flows and the identifiers alone.
pub observe-Step :
    (s : RelaySessionState) (frame : Frame) → Step s (frame_id frame) (observe s frame).0
unfolding observe observe_control observe_body
observe-Step s (control frame) = elim (Result-cases (control_outcome s frame)) [
  | inl (t, h) ↦ rw h (control_outcome-Step s frame h)
  | inr (e, h) ↦ rw h (keep refl refl)
]
observe-Step s (body f) = elim (Bool-cases (is_ready s)) [
  | inr down ↦ rw down (keep refl refl)
  | inl up ↦ elim (Bool-cases (ltb max_body_chunk_bytes (length f.payload))) [
    | inl over ↦ rw (up, over) (keep refl refl)
    | inr within ↦ elim (Option-cases (lookup f.request_id s.flows)) [
      | inl missing ↦ rw (up, within, missing) (keep refl refl)
      | inr (flow, found) ↦ rw (up, within, found) (count_flow-Step s f flow found)
    ]
  ]
]
