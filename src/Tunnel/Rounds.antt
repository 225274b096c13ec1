-- ===== src/Tunnel/Rounds.antt =====
-- The rounds of the session loop of crates/c6-connector/src/runtime.rs keep the connector in
-- step, arm by arm.
use cresix.Base.{ℕ, ◌≡◌, true, some, ok, refl, sym, subst, Bool-cases, inl, inr, leb}
use cresix.Base.Text.{Text, codes, text_key, has_control}
use cresix.Base.Map.{lookup, insert, remove, lookup-insert_self, remove-insert}
use cresix.CloudCore.Relay.{Uuid}
use cresix.CloudCore.Relay.Facts.{
  start_facts, request_end_facts, cancel_facts, ping_facts, pong_facts,
}
use cresix.CloudCore.Relay.Frames.{
  RelayFailureCode, bad_gateway, timeout, RequestStartFrame, RequestIdFrame, KeepaliveFrame,
  request_start, request_end, cancel, ping, pong,
}
use cresix.CloudCore.Relay.Session.{
  FlowState, request_body, awaiting_response, RelaySessionState, control_outcome, is_request_body,
}
use cresix.Tunnel.{text}
use cresix.Tunnel.Connector.{
  Settings, on_control, start_request, send_failure, open_request, on_cancel, send_observed_control,
}
use cresix.Tunnel.Turns.{protocol, transport, Connector, PendingRequest, with_session, sends}
use cresix.Tunnel.InStep.{
  IsInStep, Proceeds, start-Agrees, spawn-Agrees, drop-Agrees, cancel-Agrees,
}
use cresix.Tunnel.Parts.{closed}
use cresix.Tunnel.Sending.{Delivers, send_control-ok, sent_one}
use cresix.Tunnel.Accepts.{
  Writable, is_short_plain, failure_leaves, fresh_missing, body_pending, flow_cases, end_taken,
  observe_pong,
}

-- The connector that has taken a complete request from its map.
abbrev pub completed : Connector → Uuid → Connector
completed c id = record c {
  session = record c.session { flows = insert id awaiting_response c.session.flows };
  pending = remove id c.pending;
}

abbrev dropped_request : Connector → Uuid → Connector
dropped_request c id = record c { session = closed c.session id; pending = remove id c.pending }

failure-Proceeds :
    (settings : Settings) (c : Connector) (id : Uuid) (code : RelayFailureCode)
    (message written : Text)
    → send_failure settings id code message c.session
      ≡ sent_one (closed c.session id) (text written)
    → IsInStep (record c { session = closed c.session id })
    → Proceeds (sends c (send_failure settings id code message c.session))
failure-Proceeds settings c id code message written sent in_step =
    rw (send_failure, sent) (record { goes_on = refl; in_step = in_step })

module _ (settings : Settings) (now : ℕ) (c : Connector) (w : IsInStep c) where
  -- A request whose end has arrived: refused, expired or spawned.
  complete-Proceeds :
      Delivers settings.socket
      → Writable settings.json
      → (id : Uuid) (request : PendingRequest) (flow : FlowState)
      → lookup id c.session.flows ≡ some flow
      → is_request_body flow ≡ true
      → Proceeds (start_request settings now (completed c id) id request)
  unfolding start_request
  complete-Proceeds delivers writes id request flow found body =
      let s = (completed c id).session in
      let dropped =
        λ (code : RelayFailureCode) (message : Text) (plain : is_short_plain message ≡ true).
          let (written, sent) =
            failure_leaves settings id code message s awaiting_response delivers writes w.up
              (lookup-insert_self id awaiting_response c.session.flows) plain in
          let gone = remove-insert id awaiting_response c.session.flows in
          let in_step : IsInStep (dropped_request c id) = record {
            up = w.up;
            agreed = λ j. drop-Agrees c id flow found (w.agreed id) j body (w.agreed j);
          } in
          failure-Proceeds settings (completed c id) id code message written sent
            (rw gone in_step) in
      elim (Bool-cases request.rejected) [
        | inl over ↦ rw over (
            dropped bad_gateway (codes "connector concurrency limit reached")
              (unfold has_control in refl))
        | inr room ↦ elim (Bool-cases (leb request.deadline_unix_ms now)) [
          | inl late ↦
              rw (room, late)
                (dropped timeout (codes "request deadline expired") (unfold has_control in refl))
          | inr soon ↦
              rw (room, soon)
                (record {
                  goes_on = refl;
                  in_step = record {
                    up = w.up;
                    agreed = λ j. spawn-Agrees c id flow found (w.agreed id) j body (w.agreed j);
                  };
                })
        ]
      ]

  pub start-Proceeds :
      (frame : RequestStartFrame) {t : RelaySessionState}
      → control_outcome c.session (request_start frame) ≡ ok t
      → Proceeds (on_control settings now (with_session c t) (request_start frame))
  unfolding on_control
  start-Proceeds frame h =
      let id = frame.request_id in
      let (up, fresh, few_flows, few_ids, e) = start_facts c.session frame h in
      let missing = fresh_missing c id (w.agreed id) fresh in
      rw e (
        rw (open_request, missing)
          (record {
            goes_on = refl;
            in_step = record {
              up = w.up;
              agreed = λ j.
                  start-Agrees c id _ (request_body 0 0) j fresh refl (w.agreed id) (w.agreed j);
            };
          }))

  pub ping-Proceeds :
      Delivers settings.socket
      → Writable settings.json
      → (frame : KeepaliveFrame) {t : RelaySessionState}
      → control_outcome c.session (ping frame) ≡ ok t
      → Proceeds (on_control settings now (with_session c t) (ping frame))
  unfolding on_control
  ping-Proceeds delivers writes frame h =
      let e = ping_facts c.session frame h in
      let (written, to) = writes (pong frame) in
      let sent =
        send_control-ok protocol protocol transport settings.socket delivers settings.json
          (pong frame) c.session c.session written (observe_pong c.session frame w.up) to in
      rw (e, send_observed_control, sent) (record { goes_on = refl; in_step = w })

  pub pong-Proceeds :
      (frame : KeepaliveFrame) {t : RelaySessionState}
      → control_outcome c.session (pong frame) ≡ ok t
      → Proceeds (on_control settings now (with_session c t) (pong frame))
  unfolding on_control
  pong-Proceeds frame h =
      let e = pong_facts c.session frame h in rw e (record { goes_on = refl; in_step = w })

  pub cancel-Proceeds :
      (frame : RequestIdFrame) {t : RelaySessionState}
      → control_outcome c.session (cancel frame) ≡ ok t
      → Proceeds (on_control settings now (with_session c t) (cancel frame))
  unfolding on_control
  cancel-Proceeds frame h =
      let id = frame.request_id in
      let (flow, up, found, e) = cancel_facts c.session frame h in
      elim (flow_cases c id flow (w.agreed id) found) [
        | inl (body, _, (request, pending)) ↦ rw e (
            rw (on_cancel, pending)
              (record {
                goes_on = refl;
                in_step = record {
                  up = w.up;
                  agreed = λ j. drop-Agrees c id flow found (w.agreed id) j body (w.agreed j);
                };
              }))
        | inr (missing, works, _) ↦ rw e (
            rw (on_cancel, missing, works)
              (record {
                goes_on = refl;
                in_step = record {
                  up = w.up;
                  agreed = λ j. cancel-Agrees c id flow found (w.agreed id) j missing (w.agreed j);
                };
              }))
      ]

  pub end-Proceeds :
      Delivers settings.socket
      → Writable settings.json
      → (frame : RequestIdFrame) {t : RelaySessionState}
      → control_outcome c.session (request_end frame) ≡ ok t
      → Proceeds (on_control settings now (with_session c t) (request_end frame))
  unfolding on_control
  end-Proceeds delivers writes frame h =
      let id = frame.request_id in
      let (flow, up, found, body, e) = request_end_facts c.session frame h in
      let (live, (request, pending)) = body_pending c id flow (w.agreed id) found body in
      let taken =
        end_taken settings now (record c { session = (completed c id).session }) id request live
          pending in
      subst (λ u. Proceeds (on_control settings now (with_session c u) (request_end frame))) (sym e)
        (subst Proceeds (sym taken) (complete-Proceeds delivers writes id request flow found body))
