-- ===== src/Tunnel/Connector.antt =====
-- The session loop of crates/c6-connector/src/runtime.rs. A round of the `select!` takes one
-- event: a message of the cloud service, or the response to a spawned request. A round returns
-- the connector that it leaves, the messages that it sends, the request that it spawns, and how
-- it ends the session, if it does. The clock is an argument.
use cresix.Base.{
  ℕ, ◌-◌, List, [], ◌∷◌, ◌++◌, Bool, none, some, Result, ok, err, leb, length, if◌then◌else◌, min,
}
use cresix.Base.Text.{Text, codes, text_key}
use cresix.Base.Map.{contains, lookup, insert, remove, add, discard}
use cresix.CloudCore.Relay.{Uuid, saturating_add}
use cresix.CloudCore.Relay.Frames.{
  RelayControlFrame, RelayFailureCode, bad_gateway, timeout, RequestStartFrame, client_hello,
  server_ready, request_start, request_end, response_start, response_end, cancel, request_failed,
  ping, pong,
}
use cresix.CloudCore.Relay.Body.{RelayBodyFrame, request_chunk, response_chunk, decode}
use cresix.CloudCore.Relay.Session.{RelaySessionState, observe_control, observe_body}
use cresix.Tunnel.{
  Message, text, binary, ping_message, pong_message, close, raw_frame, Json, decode_control,
  ProxyRequest, ProxyResponse,
}
use cresix.Tunnel.Chunks.{body_frames}
use cresix.Tunnel.Proxy.{ProxyError, failure_code}
use cresix.Tunnel.Sending.{Sent, Socket, then_send, send_control, send_bodies, send_message}
use cresix.Tunnel.Turns.{
  protocol, transport, RuntimeError, PendingRequest, Connector, Turn, continues, ends, with_session,
  sends,
}

-- The two configured values that the loop reads, and the libraries.
pub record Settings : Type 0 where
  pub max_in_flight : ℕ  -- usize
  pub request_timeout : ℕ  -- milliseconds
  pub json : Json
  pub socket : Socket

abbrev pub send_observed_control :
    Settings → RelayControlFrame → RelaySessionState → Sent RuntimeError
send_observed_control settings frame s =
    send_control protocol protocol transport settings.socket settings.json frame s

abbrev pub send_failure :
    Settings → Uuid → RelayFailureCode → Text → RelaySessionState → Sent RuntimeError
send_failure settings id code message s =
    send_observed_control settings
      (request_failed (record { request_id = id; code = code; message = message })) s

unfoldable pub send_response :
    Settings → Uuid → ProxyResponse → RelaySessionState → Sent RuntimeError
send_response settings id response s =
    then_send
      (send_observed_control settings
        (response_start
          (record { request_id = id; status = response.status; headers = response.headers }))
        s)
      (λ s1.
        then_send
          (send_bodies protocol protocol transport settings.socket
            (body_frames response_chunk id response.body) s1)
          (λ s2. send_observed_control settings (response_end (record { request_id = id })) s2))

abbrev pub pending_request : RequestStartFrame → Bool → PendingRequest
pending_request frame over = record {
  method = frame.method.value;
  target = frame.target;
  headers = frame.headers;
  body = [];
  deadline_unix_ms = frame.deadline_unix_ms;
  rejected = over;
}

abbrev pub open_request : Settings → Connector → RequestStartFrame → Turn
open_request settings c frame = elim (lookup frame.request_id c.pending) [
  | some _ ↦ ends c (err protocol)
  | none ↦
      let over = leb settings.max_in_flight (saturating_add (length c.pending) (length c.active)) in
      continues
        (record c { pending = insert frame.request_id (pending_request frame over) c.pending })
]

abbrev pub proxy_request : PendingRequest → ProxyRequest
proxy_request request = record {
  method = request.method;
  target = request.target;
  headers = request.headers;
  body = request.body;
}

-- `active.insert` and `tokio::spawn`
abbrev pub spawn : Settings → ℕ → Connector → Uuid → PendingRequest → Turn
spawn settings now c id request = record {
  connector = record c { active = add id c.active };
  messages = [];
  spawned =
      record {
        request_id = id;
        request = proxy_request request;
        allowance = min (request.deadline_unix_ms - now) settings.request_timeout;
      }
      ∷ [];
  ended = none;
}

-- A complete request, taken from the map.
unfoldable pub start_request : Settings → ℕ → Connector → Uuid → PendingRequest → Turn
start_request settings now c id request =
    if request.rejected
    then sends c (
        send_failure settings id bad_gateway (codes "connector concurrency limit reached")
          c.session)
    else if leb request.deadline_unix_ms now
    then sends c (send_failure settings id timeout (codes "request deadline expired") c.session)
    else spawn settings now c id request

abbrev pub close_request : Settings → ℕ → Connector → Uuid → Turn
close_request settings now c id =
    if contains id c.cancelled
    then continues (record c { cancelled = discard id c.cancelled })
    else elim (lookup id c.pending) [
      | none ↦ ends c (err protocol)
      | some request ↦
          start_request settings now (record c { pending = remove id c.pending }) id request
    ]

abbrev pub on_cancel : Connector → Uuid → Turn
on_cancel c id = elim (lookup id c.pending) [
  | some _ ↦ continues (record c { pending = remove id c.pending })
  | none ↦
      if contains id c.active
      then continues (record c { cancelled = add id c.cancelled })
      else continues c
]

-- The `match` on a control frame that the session has accepted.
unfoldable pub on_control : Settings → ℕ → Connector → RelayControlFrame → Turn
on_control settings now c (request_start frame) = open_request settings c frame
on_control settings now c (request_end frame) = close_request settings now c frame.request_id
on_control settings now c (cancel frame) = on_cancel c frame.request_id
on_control settings now c (ping frame) =
    sends c (send_observed_control settings (pong frame) c.session)
on_control settings now c (pong frame) = continues c
on_control settings now c (client_hello frame) = ends c (err protocol)
on_control settings now c (server_ready frame) = ends c (err protocol)
on_control settings now c (response_start frame) = ends c (err protocol)
on_control settings now c (response_end frame) = ends c (err protocol)
on_control settings now c (request_failed frame) = ends c (err protocol)

unfoldable pub on_text : Settings → ℕ → Connector → Text → Turn
on_text settings now c t = elim (decode_control settings.json t) [
  | err _ ↦ ends c (err protocol)
  | ok frame ↦
      let observed = observe_control c.session frame in
      let c1 = with_session c observed.0 in
      elim observed.1 [ err _ ↦ ends c1 (err protocol) | ok _ ↦ on_control settings now c1 frame ]
]

abbrev pub extended : PendingRequest → Text → PendingRequest
extended request bytes = record request { body = request.body ++ bytes }

-- A body frame that the session has accepted.
unfoldable pub on_body : Connector → RelayBodyFrame → Turn
on_body c frame = elim frame.kind [
  | response_chunk ↦ ends c (err protocol)
  | request_chunk ↦ elim (lookup frame.request_id c.pending) [
    | none ↦ ends c (err protocol)
    | some request ↦
        continues (record c {
          pending = insert frame.request_id (extended request frame.payload) c.pending;
        })
  ]
]

unfoldable pub on_binary : Connector → Text → Turn
on_binary c bytes = elim (decode bytes) [
  | err _ ↦ ends c (err protocol)
  | ok frame ↦
      let observed = observe_body c.session frame in
      let c1 = with_session c observed.0 in
      elim observed.1 [ err _ ↦ ends c1 (err protocol) | ok _ ↦ on_body c1 frame ]
]

unfoldable pub on_message : Settings → ℕ → Connector → Message → Turn
on_message settings now c (text t) = on_text settings now c t
on_message settings now c (binary bytes) = on_binary c bytes
on_message settings now c (ping_message bytes) =
    sends c (send_message transport settings.socket c.session (pong_message bytes))
on_message settings now c (pong_message bytes) = continues c
on_message settings now c close = ends c (ok tt)
on_message settings now c raw_frame = ends c (err protocol)

abbrev pub Answer : Type 0
Answer = Result ProxyError ProxyResponse

-- `outgoing = out_rx.recv()`
unfoldable pub on_answer : Settings → Connector → Uuid → Answer → Turn
on_answer settings c id answer =
    let rested = record c { active = discard id c.active } in
    if contains id c.cancelled
    then continues (record rested { cancelled = discard id c.cancelled })
    else elim answer [
      | ok response ↦ sends rested (send_response settings id response c.session)
      | err e ↦
          sends rested
            (send_failure settings id (failure_code e) (codes "local C6 request failed") c.session)
    ]

-- What a round of the loop takes; `hung_up` is a source that has ended or failed.
pub data Event : Type 0 where
  received : Message → Event
  answered : Uuid → Answer → Event
  hung_up : Event

unfoldable pub turn : Settings → ℕ → Connector → Event → Turn
turn settings now c (received m) = on_message settings now c m
turn settings now c (answered id answer) = on_answer settings c id answer
turn settings now c hung_up = ends c (err transport)

-- The rounds of the loop, each with its time, until one ends the session.
abbrev pub then_turn : Turn → (Connector → Turn) → Turn
then_turn first rest = elim first.ended [
  | some result ↦ first
  | none ↦
      let more = rest first.connector in
      record {
        connector = more.connector;
        messages = first.messages ++ more.messages;
        spawned = first.spawned ++ more.spawned;
        ended = more.ended;
      }
]

unfoldable pub turns : Settings → Connector → List (ℕ × Event) → Turn
turns settings c [] = continues c
turns settings c ((now, event) ∷ events) =
    then_turn (turn settings now c event) (λ c'. turns settings c' events)
