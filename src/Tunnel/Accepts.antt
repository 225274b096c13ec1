-- ===== src/Tunnel/Accepts.antt =====
-- What the session and the connector of crates/c6-connector/src/runtime.rs accept in one round.
use cresix.Base.{
  ℕ, ◌≡◌, Bool, true, false, not, ◌||◌, none, some, ok, arith, refl, ltb, length, ◌⊎◌,
}
use cresix.Base.Text.{Text, text_key, has_control}
use cresix.Base.Map.{contains, lookup, remove}
use cresix.CloudCore.Relay.{Uuid}
use cresix.CloudCore.Relay.Frames.{
  RelayControlFrame, RelayFailureCode, KeepaliveFrame, request_failed, pong,
}
use cresix.CloudCore.Relay.Session.{
  FlowState, RelaySessionState, is_ready, observe_control, control_outcome, is_request_body,
}
use cresix.Tunnel.{Json, text}
use cresix.Tunnel.Connector.{Settings, start_request, send_failure, close_request}
use cresix.Tunnel.Turns.{protocol, transport, Connector, PendingRequest}
use cresix.Tunnel.InStep.{Agrees}
use cresix.Tunnel.Parts.{closed}
use cresix.Tunnel.Sending.{Delivers, send_control-ok, sent_one}

-- `serde_json` writes every control frame.
abbrev pub Writable : Json → Type 0
Writable json =
    (frame : RelayControlFrame) → (written : Text) × (json.to_string frame ≡ some written)

abbrev pub is_short_plain : Text → Bool
is_short_plain message = not (ltb 200 (length message) || has_control message)

observe_request_failed :
    (s : RelaySessionState) (id : Uuid) (code : RelayFailureCode) (message : Text)
    (flow : FlowState)
    → is_ready s ≡ true
    → lookup id s.flows ≡ some flow
    → is_short_plain message ≡ true
    → observe_control s
        (request_failed (record { request_id = id; code = code; message = message }))
      ≡ (closed s id, ok tt)
unfolding observe_control control_outcome
observe_request_failed s id code message flow up found plain = ground arith

-- A failure that is sent closes the flow.
pub failure_leaves :
    (settings : Settings) (id : Uuid) (code : RelayFailureCode) (message : Text)
    (s : RelaySessionState) (flow : FlowState)
    → Delivers settings.socket
    → Writable settings.json
    → is_ready s ≡ true
    → lookup id s.flows ≡ some flow
    → is_short_plain message ≡ true
    → (written : Text) × (send_failure settings id code message s
        ≡ sent_one (closed s id) (text written))
failure_leaves settings id code message s flow delivers writes up found plain =
    let frame = request_failed (record { request_id = id; code = code; message = message }) in
    let (written, e) = writes frame in
    (
      written,
      send_control-ok protocol protocol transport settings.socket delivers settings.json frame s
          (closed s id) written (observe_request_failed s id code message flow up found plain) e,
    )

pub fresh_missing :
    (c : Connector) (id : Uuid)
    → Agrees c id
    → contains id c.session.seen_request_ids ≡ false
    → lookup id c.pending ≡ none
fresh_missing c id h fresh = ground arith

pub body_pending :
    (c : Connector) (id : Uuid) (flow : FlowState)
    → Agrees c id
    → lookup id c.session.flows ≡ some flow
    → is_request_body flow ≡ true
    → (contains id c.cancelled ≡ false)
      × ((request : PendingRequest) × (lookup id c.pending ≡ some request))
body_pending c id flow h found body = ground arith

pub flow_cases :
    (c : Connector) (id : Uuid) (flow : FlowState)
    → Agrees c id
    → lookup id c.session.flows ≡ some flow
    → ((is_request_body flow ≡ true)
        × (contains id c.cancelled ≡ false)
        × ((request : PendingRequest) × (lookup id c.pending ≡ some request)))
      ⊎ ((lookup id c.pending ≡ none)
          × (contains id c.active ≡ true)
          × (contains id c.cancelled ≡ false))
flow_cases c id flow h found = ground arith

pub end_taken :
    (settings : Settings) (now : ℕ) (c : Connector) (id : Uuid) (request : PendingRequest)
    → contains id c.cancelled ≡ false
    → lookup id c.pending ≡ some request
    → close_request settings now c id
      ≡ start_request settings now (record c { pending = remove id c.pending }) id request
end_taken settings now c id request live pending = rw (close_request, live, pending) refl

pub observe_pong :
    (s : RelaySessionState) (frame : KeepaliveFrame)
    → is_ready s ≡ true
    → observe_control s (pong frame) ≡ (s, ok tt)
unfolding observe_control control_outcome
observe_pong s frame up = ground arith
