-- ===== src/Tunnel/Parts.antt =====
-- The two halves of an exchange as a session of crates/c6-cloud-core/src/relay.rs observes them:
-- the frames of a request and of a response, each a start, a body and an end.
use cresix.Base.{
  ℕ, ◌+◌, ◌≤◌, ◌<◌, ◌≡◌, List, [], ◌∷◌, ◌++◌, map, true, false, some, ok, length, arith, refl, ap,
  ◌∙◌,
}
use cresix.Base.Text.{Text, text_key}
use cresix.Base.Map.{
  contains, lookup, insert, remove, lookup-insert_self, insert-insert, remove-insert,
}
use cresix.CloudCore.Relay.{Uuid, max_concurrent_requests, max_request_ids_per_session}
use cresix.CloudCore.Relay.Frames.{
  RelayControlFrame, RequestStartFrame, ResponseStartFrame, request_start, request_end,
  response_start, response_end, validate_request_start, validate_response_start,
}
use cresix.CloudCore.Relay.Body.{RelayBodyKind, RelayBodyFrame, request_chunk, response_chunk}
use cresix.CloudCore.Relay.Session.{
  RelaySessionState, request_body, awaiting_response, response_body, is_ready, observe_control,
  control_outcome,
}
use cresix.CloudCore.Relay.Streams.{HasFlow, limit_of, total}
use cresix.Tunnel.Chunks.{Frames}
use cresix.Tunnel.Sending.{
  Socket, Delivers, then_send, send_control, send_bodies, send_control-ok, send_bodies-ok, wire,
  with_flow,
}
use cresix.Tunnel.{Message, text, Json}

-- A session that can take a request under this identifier.
pub record HasRoom (s : RelaySessionState) (id : Uuid) : Type 0 where
  pub up : is_ready s ≡ true
  pub fresh : contains id s.seen_request_ids ≡ false
  pub few_flows : length s.flows < max_concurrent_requests
  pub few_ids : length s.seen_request_ids < max_request_ids_per_session

-- A session that waits for the response to a request.
pub record Awaits (s : RelaySessionState) (id : Uuid) : Type 0 where
  pub up : is_ready s ≡ true
  pub found : lookup id s.flows ≡ some awaiting_response

-- The session behind the start of a request, and behind all of it.
abbrev pub opened : RelaySessionState → Uuid → RelaySessionState
opened s id = record s {
  seen_request_ids = id ∷ s.seen_request_ids;
  flows = insert id (request_body 0 0) s.flows;
}

abbrev pub asked : RelaySessionState → Uuid → RelaySessionState
asked s id = record s {
  seen_request_ids = id ∷ s.seen_request_ids;
  flows = insert id awaiting_response s.flows;
}

-- The session behind the start of a response, and behind all of it.
abbrev pub answering : RelaySessionState → Uuid → RelaySessionState
answering s id = record s { flows = insert id (response_body 0 0) s.flows }

abbrev pub closed : RelaySessionState → Uuid → RelaySessionState
closed s id = record s { flows = remove id s.flows }

pub observe_request_start :
    (s : RelaySessionState) (frame : RequestStartFrame)
    → HasRoom s frame.request_id
    → validate_request_start frame ≡ ok tt
    → observe_control s (request_start frame) ≡ (opened s frame.request_id, ok tt)
unfolding observe_control control_outcome
observe_request_start s frame w v = ground (arith, w.up, w.fresh, w.few_flows, w.few_ids)

pub observe_request_end :
    (s : RelaySessionState) (id : Uuid) (n b : ℕ)
    → is_ready s ≡ true
    → observe_control
        (with_flow (opened s id) id request_chunk n b)
        (request_end (record { request_id = id }))
      ≡ (asked s id, ok tt)
unfolding observe_control control_outcome
observe_request_end s id n b up = ground (
  arith,
  insert-insert id (request_body n b) (request_body 0 0) s.flows,
  lookup-insert_self id (request_body n b) s.flows,
  insert-insert id awaiting_response (request_body n b) s.flows,
)

pub observe_response_start :
    (s : RelaySessionState) (frame : ResponseStartFrame)
    → Awaits s frame.request_id
    → validate_response_start frame ≡ ok tt
    → observe_control s (response_start frame) ≡ (answering s frame.request_id, ok tt)
unfolding observe_control control_outcome
observe_response_start s frame w v = ground (arith, w.up, w.found)

pub observe_response_end :
    (s : RelaySessionState) (id : Uuid) (n b : ℕ)
    → is_ready s ≡ true
    → observe_control
        (with_flow (answering s id) id response_chunk n b)
        (response_end (record { request_id = id }))
      ≡ (closed s id, ok tt)
unfolding observe_control control_outcome
observe_response_end s id n b up = ground (
  arith,
  insert-insert id (response_body n b) (response_body 0 0) s.flows,
  lookup-insert_self id (response_body n b) s.flows,
  remove-insert id (response_body n b) s.flows,
)

pub opened-HasFlow :
    (s : RelaySessionState) (id : Uuid)
    → is_ready s ≡ true
    → HasFlow (opened s id) request_chunk id 0 0
opened-HasFlow s id up = record { up = up; found = lookup-insert_self id _ s.flows }

pub answering-HasFlow :
    (s : RelaySessionState) (id : Uuid)
    → is_ready s ≡ true
    → HasFlow (answering s id) response_chunk id 0 0
answering-HasFlow s id up = record { up = up; found = lookup-insert_self id _ s.flows }

-- The messages of a request or of a response.
abbrev pub conversation : Text → List RelayBodyFrame → Text → List Message
conversation start fs finish = text start ∷ (map wire fs ++ (text finish ∷ []))

-- A start, a body and an end leave in this order, once the session has accepted the start and
-- accepts the end behind the body.
pub send_conversation {ℓ} :
    {E : Type ℓ} (rejected unwritten body_rejected body_unwritten disconnected : E)
    (socket : Socket) (json : Json) (kind : RelayBodyKind) (id : Uuid) (body : Text)
    (fs : List RelayBodyFrame) (start finish : RelayControlFrame) (start_text finish_text : Text)
    (s s1 s2 : RelaySessionState)
    → Delivers socket
    → length id ≡ 16
    → Frames kind id body fs
    → length body ≤ limit_of kind
    → HasFlow s1 kind id 0 0
    → json.to_string start ≡ some start_text
    → json.to_string finish ≡ some finish_text
    → observe_control s start ≡ (s1, ok tt)
    → observe_control (with_flow s1 id kind (length fs) (length body)) finish ≡ (s2, ok tt)
    → then_send (send_control rejected unwritten disconnected socket json start s) (λ t.
      then_send
        (send_bodies body_rejected body_unwritten disconnected socket fs t)
        (send_control rejected unwritten disconnected socket json finish))
      ≡ record { session = s2; messages = conversation start_text fs finish_text; outcome = ok tt }
send_conversation rejected unwritten body_rejected body_unwritten disconnected socket json kind id
      body fs start finish start_text finish_text s s1 s2 delivers uuid w fits flow writes_start
      writes_finish first last =
    let e1 =
      send_control-ok rejected unwritten disconnected socket delivers json start s s1 start_text
        first writes_start in
    let e2 =
      send_bodies-ok body_rejected body_unwritten disconnected socket delivers kind id fs s1 0 0
        uuid flow w.numbered w.chunk_of (omega (arith, w.few)) (omega (arith, w.size)) in
    let counted : with_flow s1 id kind (0 + length fs) (0 + total fs)
        ≡ with_flow s1 id kind (length fs) (length body) =
      ap (with_flow s1 id kind (0 + length fs)) (omega (arith, w.size))
      ∙ ap (λ n. with_flow s1 id kind n (length body)) (omega arith) in
    let e3 =
      send_control-ok rejected unwritten disconnected socket delivers json finish
        (with_flow s1 id kind (length fs) (length body)) s2 finish_text last writes_finish in
    rw (e1, e2, counted, e3) refl
