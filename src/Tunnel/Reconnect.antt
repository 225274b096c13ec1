-- ===== src/Tunnel/Reconnect.antt =====
-- The handshake of `run_session` and the loop of `run_reconnecting`, in
-- crates/c6-connector/src/runtime.rs. What the socket has after the upgrade, the credential and
-- the random jitter are arguments; a delay is in milliseconds.
use cresix.Base.{
  ℕ, ◌+◌, ◌*◌, List, [], ◌∷◌, Bool, true, false, not, Option, none, some, Result, ok, err, min,
  if◌then◌else◌, ◌>>=◌, ◌>>◌, fail_if,
}
use cresix.Base.Text.{Text, codes, text_eq}
use cresix.CloudCore.Token.{SecretToken}
use cresix.CloudCore.Relay.{Uuid, relay_protocol_version}
use cresix.CloudCore.Relay.Frames.{RelayControlFrame, ServerReadyFrame, client_hello, server_ready}
use cresix.CloudCore.Relay.Session.{RelaySessionState, default, observe_control}
use cresix.Tunnel.{Message, text, decode_control}
use cresix.Tunnel.Proxy.{upstream_new}
use cresix.Tunnel.Connector.{Settings, send_observed_control}
use cresix.Tunnel.Turns.{authentication_rejected, protocol, transport, configuration, RuntimeError}

abbrev pub relay_subprotocol : Text
relay_subprotocol = codes "c6-relay-v1"

abbrev optional_text_eq : Option Text → Text → Bool
optional_text_eq none expected = false
optional_text_eq (some value) expected = text_eq value expected

abbrev pub hello_frame : SecretToken → RelayControlFrame
hello_frame token =
    client_hello (record { protocol_version = relay_protocol_version; connector_token = token })

-- `let Message::Text(ready) = ready else { ... }`
abbrev pub text_of : Option Message → Result RuntimeError Text
text_of none = err transport
text_of (some (text t)) = ok t
text_of (some _) = err protocol

abbrev pub ready_frame : RelayControlFrame → Result RuntimeError ServerReadyFrame
ready_frame (server_ready frame) = ok frame
ready_frame _ = err protocol

abbrev pub or_protocol {ℓ κ} : {E : Type ℓ} {A : Type κ} → Result E A → Result RuntimeError A
or_protocol (ok a) = ok a
or_protocol (err e) = err protocol

-- What follows on a frame that the session has accepted.
abbrev pub ready_tail :
    Uuid → RelaySessionState → RelayControlFrame → Result RuntimeError RelaySessionState
ready_tail installation_id s frame = do
  server ← ready_frame frame
  fail_if (not (text_eq server.installation_id installation_id)) protocol
  ok (observe_control s frame).0

-- The server's answer to the hello; `none` is a stream that ended or failed.
unfoldable pub read_ready :
    Settings → Uuid → Option Message → RelaySessionState → Result RuntimeError RelaySessionState
read_ready settings installation_id first s = do
  t ← text_of first
  frame ← or_protocol (decode_control settings.json t)
  or_protocol (observe_control s frame).1
  ready_tail installation_id s frame

abbrev pub or_configuration {ℓ κ} : {E : Type ℓ} {A : Type κ} → Result E A → Result RuntimeError A
or_configuration (ok a) = ok a
or_configuration (err e) = err configuration

-- The session up to its loop. `client` is what the builder of the HTTP client gives.
unfoldable pub handshake :
    Settings
    → Option Text
    → SecretToken
    → Uuid
    → Option Message
    → Result Text (Unit {0})
    → Result RuntimeError RelaySessionState
handshake settings subprotocol token installation_id first client = do
  fail_if (not (optional_text_eq subprotocol relay_subprotocol)) protocol
  let sent = send_observed_control settings (hello_frame token) default
  sent.outcome
  ready ← read_ready settings installation_id first sent.session
  or_configuration (upstream_new client)
  ok ready

abbrev pub max_reconnect_delay : ℕ
max_reconnect_delay = 60 * 1000

-- How a session ended, and the jitter of the sleep behind it.
pub record Ending : Type 0 where
  pub outcome : Result RuntimeError (Unit {0})
  pub jitter : ℕ

abbrev pub is_retried : Result RuntimeError (Unit {0}) → Bool
is_retried (ok _) = true
is_retried (err transport) = true
is_retried (err authentication_rejected) = false
is_retried (err protocol) = false
is_retried (err configuration) = false

-- The sleeps of the loop and the error that ends it, if one of these sessions does.
pub record Retries : Type 0 where
  pub sleeps : List ℕ
  pub result : Option (Result RuntimeError (Unit {0}))

abbrev pub then_sleep : ℕ → Retries → Retries
then_sleep pause rest = record { sleeps = pause ∷ rest.sleeps; result = rest.result }

unfoldable pub reconnecting : ℕ → List Ending → Retries
reconnecting delay [] = record { sleeps = []; result = none }
reconnecting delay (ending ∷ endings) =
    let rest = reconnecting (min (delay * 2) max_reconnect_delay) endings in
    if is_retried ending.outcome
    then then_sleep (delay + ending.jitter) rest
    else record { sleeps = []; result = some ending.outcome }

unfoldable pub run_reconnecting : List Ending → Retries
run_reconnecting endings = reconnecting 1000 endings
