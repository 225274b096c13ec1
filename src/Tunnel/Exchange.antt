-- ===== src/Tunnel/Exchange.antt =====
-- `execute_exchange` of crates/c6-cloud/src/lib.rs: the cloud service sends one request to a
-- connector and reads the response. The request identifier and the clock are arguments, and the
-- messages that arrive are a list, whose end is the end of the socket's stream.
use cresix.Base.{
  ℕ, ◌+◌, List, [], ◌∷◌, ◌++◌, Bool, true, false, not, ◌||◌, Option, none, some, Result, ok, err,
  ltb, length, if◌then◌else◌,
}
use cresix.Base.Text.{Text, codes, text_eq}
use cresix.CloudCore.Relay.{Uuid, max_response_body_bytes}
use cresix.CloudCore.Relay.Headers.{HttpMethod, HeaderField, http_method_new}
use cresix.CloudCore.Relay.Frames.{
  RelayControlFrame, RelayFailureCode, bad_gateway, timeout, cancelled, protocol, client_hello,
  server_ready, request_start, request_end, response_start, response_end, cancel, request_failed,
  ping, pong,
}
use cresix.CloudCore.Relay.Body.{request_chunk, response_chunk, RelayBodyKind, decode}
use cresix.CloudCore.Relay.Session.{RelaySessionState, observe_control, observe_body}
use cresix.Tunnel.{
  Message, text, binary, ping_message, pong_message, close, raw_frame, Json, ProxyRequest,
  ProxyResponse,
}
use cresix.Tunnel.Chunks.{body_frames}
use cresix.Tunnel.Sending.{
  Sent, Socket, then_send, stopped, send_control, send_bodies, send_message,
}

-- The errors are the strings that the function returns.
abbrev pub disconnected : Text
disconnected = codes "connector disconnected"

abbrev pub send_cloud_control : Json → Socket → RelayControlFrame → RelaySessionState → Sent Text
send_cloud_control json socket frame s =
    send_control (codes "relay state rejected control frame")
      (codes "relay control encoding failed") disconnected socket json frame s

-- `(Utc::now() + 30 s).timestamp_millis().max(1)`
abbrev pub deadline_of : ℕ → ℕ
deadline_of now = now + 30000

abbrev pub start_frame : Uuid → ℕ → HttpMethod → ProxyRequest → RelayControlFrame
start_frame id now method request = request_start (record {
  request_id = id;
  method = method;
  target = request.target;
  headers = request.headers;
  deadline_unix_ms = deadline_of now;
})

-- The first half: the request leaves.
unfoldable pub send_request :
    Json → Socket → Uuid → ℕ → ProxyRequest → RelaySessionState → Sent Text
send_request json socket id now request s = elim (http_method_new request.method) [
  | err _ ↦ stopped s (codes "invalid relay method")
  | ok method ↦
      then_send (send_cloud_control json socket (start_frame id now method request) s) (λ s1.
        then_send
          (send_bodies (codes "relay protocol rejected request body")
            (codes "relay request encoding failed") disconnected socket
            (body_frames request_chunk id request.body) s1)
          (λ s2. send_cloud_control json socket (request_end (record { request_id = id })) s2))
]

-- The variables of the loop, and the session.
pub record Reading : Type 0 where
  pub session : RelaySessionState
  pub status : Option ℕ
  pub response_headers : List HeaderField
  pub response_body : Text

pub record Step : Type 0 where
  pub reading : Reading
  pub messages : List Message
  pub outcome : Option (Result Text ProxyResponse)

abbrev pub goes_on : Reading → Step
goes_on r = record { reading = r; messages = []; outcome = none }

abbrev pub returns : Reading → Result Text ProxyResponse → Step
returns r result = record { reading = r; messages = []; outcome = some result }

abbrev pub fails : Reading → Text → Step
fails r e = returns r (err e)

abbrev pub with_session : Reading → RelaySessionState → Reading
with_session r s = record r { session = s }

abbrev verdict : Result Text (Unit {0}) → Option (Result Text ProxyResponse)
verdict (ok _) = none
verdict (err e) = some (err e)

abbrev sends : Reading → Sent Text → Step
sends r sent = record {
  reading = with_session r sent.session;
  messages = sent.messages;
  outcome = verdict sent.outcome;
}

abbrev pub response_of : Reading → Result Text ProxyResponse
response_of r = elim r.status [
  | none ↦ err (codes "connector ended response before status")
  | some status ↦
      ok (record { status = status; headers = r.response_headers; body = r.response_body })
]

abbrev failure_text : RelayFailureCode → Text
failure_text timeout = codes "local request timed out"
failure_text bad_gateway = codes "local C6 request failed"
failure_text cancelled = codes "local C6 request failed"
failure_text protocol = codes "local C6 request failed"

abbrev pub wrong_request : Text
wrong_request = codes "connector sent a frame for the wrong request"

-- The `match` on a control frame that the session has accepted.
unfoldable pub read_control : Json → Socket → Uuid → Reading → RelayControlFrame → Step
read_control json socket id r (response_start frame) =
    if text_eq frame.request_id id
    then goes_on (record r { status = some frame.status; response_headers = frame.headers })
    else fails r wrong_request
read_control json socket id r (response_end frame) =
    if text_eq frame.request_id id then returns r (response_of r) else fails r wrong_request
read_control json socket id r (request_failed frame) =
    if text_eq frame.request_id id then fails r (failure_text frame.code) else fails r wrong_request
read_control json socket id r (ping frame) =
    sends r (send_cloud_control json socket (pong frame) r.session)
read_control json socket id r (pong frame) = goes_on r
read_control json socket id r (client_hello frame) = fails r wrong_request
read_control json socket id r (server_ready frame) = fails r wrong_request
read_control json socket id r (request_start frame) = fails r wrong_request
read_control json socket id r (request_end frame) = fails r wrong_request
read_control json socket id r (cancel frame) = fails r wrong_request

unfoldable pub read_text : Json → Socket → Uuid → Reading → Text → Step
read_text json socket id r t = elim (json.from_str t) [
  | none ↦ fails r (codes "connector sent malformed control frame")
  | some frame ↦
      let observed = observe_control r.session frame in
      let r1 = with_session r observed.0 in
      elim observed.1 [
        | err _ ↦ fails r1 (codes "connector violated relay protocol")
        | ok _ ↦ read_control json socket id r1 frame
      ]
]

abbrev is_response_chunk : RelayBodyKind → Bool
is_response_chunk response_chunk = true
is_response_chunk request_chunk = false

-- `extend_from_slice` and the test behind it
abbrev pub extend_body : Reading → Text → Step
extend_body r bytes =
    let r1 : Reading = record r { response_body = r.response_body ++ bytes } in
    if ltb max_response_body_bytes (length r1.response_body)
    then fails r1 (codes "local response exceeded relay limit")
    else goes_on r1

unfoldable pub read_binary : Uuid → Reading → Text → Step
read_binary id r bytes = elim (decode bytes) [
  | err _ ↦ fails r (codes "connector sent malformed response body")
  | ok frame ↦
      if not (is_response_chunk frame.kind) || not (text_eq frame.request_id id)
      then fails r (codes "connector sent a body for the wrong request")
      else let observed = observe_body r.session frame in
        let r1 = with_session r observed.0 in
        elim observed.1 [
          | err _ ↦ fails r1 (codes "connector violated relay body limits")
          | ok _ ↦ extend_body r1 frame.payload
        ]
]

unfoldable pub read_message : Json → Socket → Uuid → Reading → Message → Step
read_message json socket id r (text t) = read_text json socket id r t
read_message json socket id r (binary bytes) = read_binary id r bytes
read_message json socket id r (ping_message bytes) =
    sends r (send_message disconnected socket r.session (pong_message bytes))
read_message json socket id r (pong_message bytes) =
    fails r (codes "connector closed during request")
read_message json socket id r close = fails r (codes "connector closed during request")
read_message json socket id r raw_frame = fails r (codes "connector closed during request")

-- `socket.recv().await`: a message or a transport error.
pub data Arrival : Type 0 where
  arrived : Message → Arrival
  broken : Arrival

unfoldable pub read_arrival : Json → Socket → Uuid → Reading → Arrival → Step
read_arrival json socket id r (arrived m) = read_message json socket id r m
read_arrival json socket id r broken = fails r (codes "connector transport failed")

-- What an exchange leaves.
pub record Exchanged : Type 0 where
  pub session : RelaySessionState
  pub messages : List Message
  pub outcome : Result Text ProxyResponse

abbrev pub then_read : Step → (Reading → Exchanged) → Exchanged
then_read first rest = elim first.outcome [
  | some result ↦ record {
    session = first.reading.session;
    messages = first.messages;
    outcome = result;
  }
  | none ↦
      let more = rest first.reading in
      record {
        session = more.session;
        messages = first.messages ++ more.messages;
        outcome = more.outcome;
      }
]

-- The second half: the response is read.
unfoldable pub receive : Json → Socket → Uuid → Reading → List Arrival → Exchanged
receive json socket id r [] = record {
  session = r.session;
  messages = [];
  outcome = err disconnected;
}
receive json socket id r (a ∷ rest) =
    then_read (read_arrival json socket id r a) (λ r1. receive json socket id r1 rest)

abbrev pub nothing_read : RelaySessionState → Reading
nothing_read s = record { session = s; status = none; response_headers = []; response_body = [] }

-- What follows on the request that has left, or not.
abbrev pub read_behind : Json → Socket → Uuid → List Arrival → Sent Text → Exchanged
read_behind json socket id arrivals sent = elim sent.outcome [
  | err e ↦ record { session = sent.session; messages = sent.messages; outcome = err e }
  | ok _ ↦
      let read = receive json socket id (nothing_read sent.session) arrivals in
      record {
        session = read.session;
        messages = sent.messages ++ read.messages;
        outcome = read.outcome;
      }
]

unfoldable pub execute_exchange :
    Json → Socket → Uuid → ℕ → ProxyRequest → List Arrival → RelaySessionState → Exchanged
execute_exchange json socket id now request arrivals s =
    read_behind json socket id arrivals (send_request json socket id now request s)
