-- ===== src/Tunnel/Opening.antt =====
-- What the handshake of crates/c6-connector/src/runtime.rs leaves the session in.
use cresix.Base.{
  ◌≡◌, [], true, Option, Result, ok, err, arith, refl, sym, ap, ◌∙◌, Result-cases, inl, inr,
  >>=-eq-ok, ◌>>◌,
}
use cresix.Base.Text.{Text}
use cresix.CloudCore.Token.{SecretToken}
use cresix.CloudCore.Relay.{Uuid}
use cresix.CloudCore.Relay.Frames.{
  RelayControlFrame, ServerReadyFrame, client_hello, server_ready, request_start, request_end,
  response_start, response_end, cancel, request_failed, ping, pong,
}
use cresix.CloudCore.Relay.Session.{
  RelaySessionState, default, is_ready, observe_control, control_outcome,
}
use cresix.Tunnel.{Message, decode_control}
use cresix.Tunnel.Connector.{Settings, send_observed_control}
use cresix.Tunnel.Reconnect.{read_ready, ready_tail, text_of, or_protocol, handshake, hello_frame}
use cresix.Tunnel.Sending.{send_control}

-- Whatever comes of the hello, the session has no flow.
pub hello_flows : (token : SecretToken) → (observe_control default (hello_frame token)).0.flows ≡ []
unfolding observe_control control_outcome default
hello_flows token = ground arith

pub hello_session :
    (settings : Settings) (frame : RelayControlFrame) (s : RelaySessionState)
    → (send_observed_control settings frame s).session ≡ (observe_control s frame).0
unfolding send_control
hello_session settings frame s = ground arith

abbrev err_of {ℓ κ} : {E : Type ℓ} (A : Type κ) → E → Result E A
err_of A e = err e

err_not {ℓ κ} : {E : Type ℓ} {A : Type κ} {e : E} {a : A} → err_of A e ≡ ok a → ⊥
err_not h = cc

-- The tail of `read_ready`, for the frame that the server has sent.
settled :
    (installation_id : Uuid) (frame : RelayControlFrame) (s t : RelaySessionState)
    → (observe_control s frame).1 ≡ ok tt
    → ready_tail installation_id s frame ≡ ok t
    → (server : ServerReadyFrame) × (frame ≡ server_ready server)
      × ((observe_control s frame).0 ≡ t)
settled installation_id (server_ready frame) s t taken h = (frame, refl, ground arith)
settled installation_id (client_hello frame) s t taken h = cc
settled installation_id (request_start frame) s t taken h = cc
settled installation_id (request_end frame) s t taken h = cc
settled installation_id (response_start frame) s t taken h = cc
settled installation_id (response_end frame) s t taken h = cc
settled installation_id (cancel frame) s t taken h = cc
settled installation_id (request_failed frame) s t taken h = cc
settled installation_id (ping frame) s t taken h = cc
settled installation_id (pong frame) s t taken h = cc

observed_ready :
    (installation_id : Uuid) (frame : RelayControlFrame) (s t : RelaySessionState)
    → (or_protocol (observe_control s frame).1 >> ready_tail installation_id s frame) ≡ ok t
    → ((observe_control s frame).1 ≡ ok tt) × (ready_tail installation_id s frame ≡ ok t)
observed_ready installation_id frame s t h = elim (Result-cases (observe_control s frame).1) [
  | inr (e, refused) ↦ absurd (err_not (rw refused at h))
  | inl (_, taken) ↦ (taken, rw taken at h)
]

pub ready_only :
    (settings : Settings) (installation_id : Uuid) (first : Option Message)
    (s t : RelaySessionState)
    → read_ready settings installation_id first s ≡ ok t
    → (frame : ServerReadyFrame) × ((observe_control s (server_ready frame)).1 ≡ ok tt)
      × ((observe_control s (server_ready frame)).0 ≡ t)
unfolding read_ready
ready_only settings installation_id first s t h =
    let (written, _, h1) = >>=-eq-ok (text_of first) _ h in
    let (frame, _, h2) = >>=-eq-ok (or_protocol (decode_control settings.json written)) _ h1 in
    let (taken, tail) = observed_ready installation_id frame s t h2 in
    let (server, is, same) = settled installation_id frame s t taken tail in
    (
      server,
      ap (λ f. (observe_control s f).1) (sym is) ∙ taken,
      ap (λ f. (observe_control s f).0) (sym is) ∙ same,
    )

pub ready_state :
    (s : RelaySessionState) (frame : ServerReadyFrame)
    → (observe_control s (server_ready frame)).1 ≡ ok tt
    → (is_ready (observe_control s (server_ready frame)).0 ≡ true)
      × ((observe_control s (server_ready frame)).0.flows ≡ s.flows)
unfolding observe_control control_outcome
ready_state s frame h = ground arith

pub handshake_session :
    (settings : Settings) (subprotocol : Option Text) (token : SecretToken) (installation_id : Uuid)
    (first : Option Message) (client : Result Text (Unit {0})) (t : RelaySessionState)
    → handshake settings subprotocol token installation_id first client ≡ ok t
    → read_ready settings installation_id first
        (send_observed_control settings (hello_frame token) default).session
      ≡ ok t
unfolding handshake
handshake_session settings subprotocol token installation_id first client t h = ground arith
