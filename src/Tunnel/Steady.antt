-- ===== src/Tunnel/Steady.antt =====
-- When a round of the session loop of crates/c6-connector/src/runtime.rs goes on, and that the
-- connector stays in step.
use cresix.Base.{
  ℕ, ◌≡◌, ◌≤◌, Bool, true, false, some, ok, err, arith, refl, sym, subst, Result-cases, inl, inr,
  length,
}
use cresix.Base.Text.{codes, text_key, has_control}
use cresix.Base.Map.{contains, lookup, insert, discard}
use cresix.CloudCore.Relay.{Uuid}
use cresix.CloudCore.Relay.Body.{RelayBodyFrame, request_chunk, response_chunk}
use cresix.CloudCore.Relay.Frames.{
  RelayControlFrame, client_hello, server_ready, request_start, request_end, response_start,
  response_end, cancel, request_failed, ping, pong, validate_response_start,
}
use cresix.CloudCore.Relay.Session.{
  FlowState, awaiting_response, RelaySessionState, observe_control, observe_body, control_outcome,
  is_request_body, response_body,
}
use cresix.CloudCore.Relay.Streams.{limit_of}
use cresix.Tunnel.{ProxyResponse}
use cresix.Tunnel.Connector.{
  Settings, Answer, on_body, on_control, on_answer, send_failure, extended,
}
use cresix.Tunnel.Turns.{Connector, PendingRequest, with_session, continues}
use cresix.Tunnel.InStep.{Agrees, IsInStep, Proceeds, body-Agrees, answer-Agrees, forget-Agrees}
use cresix.Tunnel.Parts.{closed, Awaits}
use cresix.Tunnel.Proxy.{ProxyError, failure_code}
use cresix.Tunnel.Responses.{response_leaves, response_start_of, response_end_of}
use cresix.Tunnel.Rounds.{
  start-Proceeds, ping-Proceeds, pong-Proceeds, cancel-Proceeds, end-Proceeds,
}
use cresix.Tunnel.Accepts.{Writable, failure_leaves}
use cresix.Tunnel.Counted.{body_facts}
use cresix.Tunnel.Sending.{Delivers}

-- The control frames that the cloud service's side of the protocol has for a connector.
abbrev pub from_cloud : RelayControlFrame → Bool
from_cloud (request_start frame) = true
from_cloud (request_end frame) = true
from_cloud (cancel frame) = true
from_cloud (ping frame) = true
from_cloud (pong frame) = true
from_cloud _ = false

pub accepted :
    (s : RelaySessionState) (frame : RelayControlFrame)
    → (observe_control s frame).1 ≡ ok tt
    → control_outcome s frame ≡ ok (observe_control s frame).0
unfolding observe_control
accepted s frame h = elim (Result-cases (control_outcome s frame)) [
  | inl (t, e) ↦ rw e refl
  | inr (e, refused) ↦ absurd (ground arith)
]

no_response :
    (c : Connector) (id : Uuid) (flow : FlowState) (n b : ℕ)
    → Agrees c id
    → lookup id c.session.flows ≡ some flow
    → flow ≡ response_body n b
    → ⊥
no_response c id flow n b h found is = ground arith

pending_body :
    (c : Connector) (id : Uuid) (flow : FlowState)
    → Agrees c id
    → lookup id c.session.flows ≡ some flow
    → is_request_body flow ≡ true
    → (request : PendingRequest) × (lookup id c.pending ≡ some request)
pending_body c id flow h found body = ground arith

on_body_collects :
    (c : Connector) (f : RelayBodyFrame) (request : PendingRequest)
    → f.kind ≡ request_chunk
    → lookup f.request_id c.pending ≡ some request
    → on_body c f
      ≡ continues
          (record c { pending = insert f.request_id (extended request f.payload) c.pending })
unfolding on_body
on_body_collects c f request kind pending = ground arith

abbrev counted_session : Connector → RelayBodyFrame → FlowState → RelaySessionState
counted_session c f flow = record c.session { flows = insert f.request_id flow c.session.flows }

active_flow :
    (c : Connector) (id : Uuid)
    → Agrees c id
    → contains id c.active ≡ true
    → contains id c.cancelled ≡ false
    → lookup id c.session.flows ≡ some awaiting_response
active_flow c id h works live = ground arith

active_waits :
    (c : Connector) (id : Uuid)
    → IsInStep c
    → contains id c.active ≡ true
    → contains id c.cancelled ≡ false
    → Awaits c.session id
active_waits c id w works live = record {
  up = w.up;
  found = active_flow c id (w.agreed id) works live;
}

module _ (settings : Settings) (now : ℕ) (c : Connector) (w : IsInStep c) where
  pub control-Proceeds :
      Delivers settings.socket
      → Writable settings.json
      → (frame : RelayControlFrame) (t : RelaySessionState) → from_cloud frame ≡ true
      → control_outcome c.session frame ≡ ok t
      → Proceeds (on_control settings now (with_session c t) frame)
  control-Proceeds delivers writes (request_start frame) t from h =
      start-Proceeds settings now c w frame h
  control-Proceeds delivers writes (request_end frame) t from h =
      end-Proceeds settings now c w delivers writes frame h
  control-Proceeds delivers writes (cancel frame) t from h =
      cancel-Proceeds settings now c w frame h
  control-Proceeds delivers writes (ping frame) t from h =
      ping-Proceeds settings now c w delivers writes frame h
  control-Proceeds delivers writes (pong frame) t from h = pong-Proceeds settings now c w frame h
  control-Proceeds delivers writes (client_hello frame) t from h = cc
  control-Proceeds delivers writes (server_ready frame) t from h = cc
  control-Proceeds delivers writes (response_start frame) t from h = cc
  control-Proceeds delivers writes (response_end frame) t from h = cc
  control-Proceeds delivers writes (request_failed frame) t from h = cc

  -- An accepted body frame is a request's, and collects.
  pub body-Proceeds :
      (f : RelayBodyFrame)
      → (observe_body c.session f).1 ≡ ok tt
      → Proceeds (on_body (with_session c (observe_body c.session f).0) f)
  body-Proceeds f h =
      let (flow, flow', found, kinds, e) = body_facts c.session f h in
      let at_id = w.agreed f.request_id in
      elim kinds [
        | inr (n, b, is) ↦ absurd (no_response c f.request_id flow n b at_id found is)
        | inl (kind, body, body') ↦
            let (request, pending) = pending_body c f.request_id flow at_id found body in
            subst (λ t. Proceeds (on_body (with_session c t) f)) (sym e)
              (subst Proceeds
                (sym (
                  on_body_collects (record c { session = counted_session c f flow' }) f request kind
                    pending))
                (record {
                  goes_on = refl;
                  in_step = record {
                    up = w.up;
                    agreed = λ j.
                        body-Agrees c f.request_id flow found at_id _ flow' j body body'
                          (w.agreed j);
                  };
                }))
      ]

  -- The answer to a cancelled request is dropped.
  pub cancelled-Proceeds :
      (id : Uuid) (answer : Answer)
      → contains id c.cancelled ≡ true
      → Proceeds (on_answer settings c id answer)
  unfolding on_answer
  cancelled-Proceeds id answer dropped = rw dropped (record {
    goes_on = refl;
    in_step = record {
      up = w.up;
      agreed = λ j. forget-Agrees c id j dropped (w.agreed id) (w.agreed j);
    };
  })

  -- The connector behind an answer that it has sent.
  answered-IsInStep :
      (id : Uuid)
      → contains id c.active ≡ true
      → Awaits c.session id
      → IsInStep (record c { session = closed c.session id; active = discard id c.active })
  answered-IsInStep id works waits = record {
    up = w.up;
    agreed =
        λ j. answer-Agrees c id awaiting_response waits.found (w.agreed id) j works (w.agreed j);
  }

  -- A failure of the local server is reported.
  pub failure-Proceeds :
      Delivers settings.socket
      → Writable settings.json
      → (id : Uuid) (e : ProxyError) → contains id c.active ≡ true
      → contains id c.cancelled ≡ false
      → Proceeds (on_answer settings c id (err e))
  unfolding on_answer
  failure-Proceeds delivers writes id e works live =
      let waits = active_waits c id w works live in
      let (written, sent) =
        failure_leaves settings id (failure_code e) (codes "local C6 request failed") c.session
          awaiting_response delivers writes w.up waits.found (unfold has_control in refl) in
      rw (live, send_failure, sent)
        (record { goes_on = refl; in_step = answered-IsInStep id works waits })

  -- A response within the limits of the protocol is sent.
  pub response-Proceeds :
      Delivers settings.socket
      → Writable settings.json
      → (id : Uuid) (response : ProxyResponse) → length id ≡ 16
      → contains id c.active ≡ true
      → contains id c.cancelled ≡ false
      → validate_response_start (response_start_of id response) ≡ ok tt
      → length response.body ≤ limit_of response_chunk
      → Proceeds (on_answer settings c id (ok response))
  response-Proceeds delivers writes id response uuid works live valid fits =
      let waits = active_waits c id w works live in
      let (t1, w1) = writes (response_start (response_start_of id response)) in
      let (t2, w2) = writes (response_end_of id) in
      let sent =
        response_leaves settings c id response t1 t2 delivers uuid waits live valid fits w1 w2 in
      subst Proceeds (sym sent)
        (record { goes_on = refl; in_step = answered-IsInStep id works waits })
