-- ===== src/CloudCore/Relay/Session.antt =====
-- `RelaySessionState` of crates/c6-cloud-core/src/relay.rs. A method that takes `&mut self`
-- returns the state that it leaves and its result. In `observe_control` each arm makes its
-- tests before it writes, so an arm is a result that carries the new state.
use cresix.Base.{
  ℕ, ◌+◌, ◌-◌, ◌^◌, List, [], ◌∷◌, Option, none, some, Bool, true, false, not, ◌||◌, Result, ok,
  err, ◌>>=◌, ◌>>◌, fail_if, ok_or, ltb, leb, ◌==◌, if◌then◌else◌, length,
}
use cresix.Base.Map.{contains, lookup, insert, remove}
use cresix.Base.Text.{text_key, has_control}
use cresix.CloudCore.Token.{TokenClass, connector}
use cresix.CloudCore.Relay.{
  Uuid, RelayValidationError, illegal_transition, unsupported_protocol, duplicate_request,
  unknown_request, concurrency_limit, request_id_budget_exhausted, chunk_too_large, body_too_large,
  invalid_sequence, relay_protocol_version, max_concurrent_requests, max_body_chunk_bytes,
  max_request_ids_per_session, max_request_body_bytes, max_response_body_bytes, saturating_add,
}
use cresix.CloudCore.Relay.Frames.{
  ClientHelloFrame, ServerReadyFrame, RequestStartFrame, RequestIdFrame, ResponseStartFrame,
  RequestFailedFrame, RelayControlFrame, client_hello, server_ready, request_start, request_end,
  response_start, response_end, cancel, request_failed, ping, pong, validate_request_start,
  validate_response_start,
}
use cresix.CloudCore.Relay.Body.{RelayBodyKind, RelayBodyFrame, request_chunk, response_chunk}

pub data HandshakeState : Type 0 where
  awaiting_hello awaiting_ready ready : HandshakeState

pub data FlowState : Type 0 where
  request_body : ℕ → ℕ → FlowState  -- next_sequence: u32, bytes: u64
  awaiting_response : FlowState
  response_body : ℕ → ℕ → FlowState  -- next_sequence: u32, bytes: u64

pub record RelaySessionState : Type 0 where
  pub handshake : HandshakeState
  pub flows : List (Uuid × FlowState)
  pub seen_request_ids : List Uuid

unfoldable pub default : RelaySessionState
default = record { handshake = awaiting_hello; flows = []; seen_request_ids = [] }

abbrev pub is_awaiting_hello : HandshakeState → Bool
is_awaiting_hello awaiting_hello = true
is_awaiting_hello _ = false

abbrev pub is_awaiting_ready : HandshakeState → Bool
is_awaiting_ready awaiting_ready = true
is_awaiting_ready _ = false

abbrev pub is_ready_state : HandshakeState → Bool
is_ready_state ready = true
is_ready_state _ = false

-- `is_ready`, `in_flight`
abbrev pub is_ready : RelaySessionState → Bool
is_ready s = is_ready_state s.handshake

abbrev pub in_flight : RelaySessionState → ℕ
in_flight s = length s.flows

abbrev pub is_connector : TokenClass → Bool
is_connector connector = true
is_connector _ = false

abbrev pub Outcome : Type 0
Outcome = Result RelayValidationError RelaySessionState

abbrev pub on_client_hello : RelaySessionState → ClientHelloFrame → Outcome
on_client_hello s frame = do
  fail_if (not (is_awaiting_hello s.handshake)) illegal_transition
  fail_if (not (frame.protocol_version == relay_protocol_version)) unsupported_protocol
  fail_if (not (is_connector frame.connector_token.parsed.class)) illegal_transition
  ok (record s { handshake = awaiting_ready })

abbrev pub on_server_ready : RelaySessionState → ServerReadyFrame → Outcome
on_server_ready s frame = do
  fail_if (not (is_awaiting_ready s.handshake)) illegal_transition
  fail_if
      (frame.generation == 0
        || frame.max_concurrent_requests == 0
        || ltb max_concurrent_requests frame.max_concurrent_requests
        || ltb max_body_chunk_bytes frame.max_chunk_bytes)
      illegal_transition
  ok (record s { handshake = ready })

abbrev pub on_request_start : RelaySessionState → RequestStartFrame → Outcome
on_request_start s frame = do
  validate_request_start frame
  fail_if (contains frame.request_id s.seen_request_ids) duplicate_request
  fail_if (leb max_concurrent_requests (length s.flows)) concurrency_limit
  fail_if (leb max_request_ids_per_session (length s.seen_request_ids)) request_id_budget_exhausted
  ok (record s {
    seen_request_ids = frame.request_id ∷ s.seen_request_ids;
    flows = insert frame.request_id (request_body 0 0) s.flows;
  })

abbrev pub is_request_body : FlowState → Bool
is_request_body (request_body n b) = true
is_request_body _ = false

abbrev pub is_awaiting_response : FlowState → Bool
is_awaiting_response awaiting_response = true
is_awaiting_response _ = false

abbrev pub is_response_body : FlowState → Bool
is_response_body (response_body n b) = true
is_response_body _ = false

abbrev pub on_request_end : RelaySessionState → RequestIdFrame → Outcome
on_request_end s frame = do
  flow ← ok_or (lookup frame.request_id s.flows) unknown_request
  fail_if (not (is_request_body flow)) illegal_transition
  ok (record s { flows = insert frame.request_id awaiting_response s.flows })

abbrev pub on_response_start : RelaySessionState → ResponseStartFrame → Outcome
on_response_start s frame = do
  validate_response_start frame
  flow ← ok_or (lookup frame.request_id s.flows) unknown_request
  fail_if (not (is_awaiting_response flow)) illegal_transition
  ok (record s { flows = insert frame.request_id (response_body 0 0) s.flows })

abbrev pub on_response_end : RelaySessionState → RequestIdFrame → Outcome
on_response_end s frame = do
  flow ← ok_or (lookup frame.request_id s.flows) unknown_request
  fail_if (not (is_response_body flow)) illegal_transition
  ok (record s { flows = remove frame.request_id s.flows })

-- `if self.flows.remove(id).is_none() { return Err(UnknownRequest) }`
abbrev pub drop_flow : RelaySessionState → Uuid → Outcome
drop_flow s id = do
  flow ← ok_or (lookup id s.flows) unknown_request
  ok (record s { flows = remove id s.flows })

abbrev pub on_request_failed : RelaySessionState → RequestFailedFrame → Outcome
on_request_failed s frame = do
  fail_if (ltb 200 (length frame.message) || has_control frame.message) illegal_transition
  drop_flow s frame.request_id

-- The arms behind `_ if self.handshake != Ready`.
abbrev pub when_ready : RelaySessionState → Outcome → Outcome
when_ready s arm = do fail_if (not (is_ready s)) illegal_transition; arm

-- The `match` of `observe_control`.
unfoldable pub control_outcome : RelaySessionState → RelayControlFrame → Outcome
control_outcome s (client_hello frame) = on_client_hello s frame
control_outcome s (server_ready frame) = on_server_ready s frame
control_outcome s (request_start frame) = when_ready s (on_request_start s frame)
control_outcome s (request_end frame) = when_ready s (on_request_end s frame)
control_outcome s (response_start frame) = when_ready s (on_response_start s frame)
control_outcome s (response_end frame) = when_ready s (on_response_end s frame)
control_outcome s (cancel frame) = when_ready s (drop_flow s frame.request_id)
control_outcome s (request_failed frame) = when_ready s (on_request_failed s frame)
control_outcome s (ping frame) = when_ready s (ok s)
control_outcome s (pong frame) = when_ready s (ok s)

abbrev pub Observed : Type 0
Observed = RelaySessionState × Result RelayValidationError (Unit {0})

-- An arm that fails has written nothing.
abbrev pub settle : RelaySessionState → Outcome → Observed
settle s (ok s') = (s', ok tt)
settle s (err e) = (s, err e)

unfoldable pub observe_control : RelaySessionState → RelayControlFrame → Observed
observe_control s frame = settle s (control_outcome s frame)

-- The counters and the limit that `match (frame.kind, flow)` selects.
abbrev pub counters : RelayBodyKind → FlowState → Option (ℕ × ℕ × ℕ)
counters request_chunk (request_body n b) = some (n, b, max_request_body_bytes)
counters response_chunk (response_body n b) = some (n, b, max_response_body_bytes)
counters _ _ = none

-- The flow with its counters written.
abbrev pub with_counters : RelayBodyKind → ℕ → ℕ → FlowState
with_counters request_chunk n b = request_body n b
with_counters response_chunk n b = response_body n b

-- The last lines of `observe_body`: `bytes` is written before `checked_add` can fail.
unfoldable pub count_chunk : RelaySessionState → RelayBodyFrame → ℕ × ℕ × ℕ → Observed
count_chunk s frame (next_sequence, bytes, limit) =
    let updated = saturating_add bytes (length frame.payload) in
    let write = λ (n : ℕ). record s {
      flows = insert frame.request_id (with_counters frame.kind n updated) s.flows;
    } in
    if not (frame.sequence == next_sequence)
    then (s, err invalid_sequence)
    else if ltb limit updated
    then (s, err body_too_large)
    else if next_sequence == 2 ^ 32 - 1
    then (write next_sequence, err invalid_sequence)
    else (write (next_sequence + 1), ok tt)

abbrev pub count_flow : RelaySessionState → RelayBodyFrame → FlowState → Observed
count_flow s frame flow = elim (counters frame.kind flow) [
  | none ↦ (s, err illegal_transition)
  | some triple ↦ count_chunk s frame triple
]

unfoldable pub observe_body : RelaySessionState → RelayBodyFrame → Observed
observe_body s frame =
    if not (is_ready s)
    then (s, err illegal_transition)
    else if ltb max_body_chunk_bytes (length frame.payload)
    then (s, err chunk_too_large)
    else elim (lookup frame.request_id s.flows) [
      | none ↦ (s, err unknown_request)
      | some flow ↦ count_flow s frame flow
    ]

-- A frame of either kind, as the transport hands them to the session.
pub data Frame : Type 0 where
  control : RelayControlFrame → Frame
  body : RelayBodyFrame → Frame

unfoldable pub observe : RelaySessionState → Frame → Observed
observe s (control frame) = observe_control s frame
observe s (body frame) = observe_body s frame

-- The state behind a sequence of frames, accepted or refused.
unfoldable pub run : RelaySessionState → List Frame → RelaySessionState
run s [] = s
run s (frame ∷ frames) = run (observe s frame).0 frames
