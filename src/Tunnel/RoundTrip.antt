-- ===== src/Tunnel/RoundTrip.antt =====
-- A whole exchange: `execute_exchange` of crates/c6-cloud/src/lib.rs at one end of the socket and
-- the session loop of crates/c6-connector/src/runtime.rs at the other.
use cresix.Base.{
  ℕ, ◌-◌, ◌≤◌, ◌<◌, ◌*◌, ◌≡◌, List, [], ◌∷◌, map, Bool, true, false, fail_if, ◌>>◌, some, ok,
  length, arith, refl, sym, ap, ◌∙◌, min,
}
use cresix.Base.Text.{Text, codes, text_key}
use cresix.Base.Map.{lookup-insert_self}
use cresix.CloudCore.Relay.{Uuid}
use cresix.CloudCore.Relay.Headers.{HttpMethod, http_method_new}
use cresix.CloudCore.Relay.Frames.{
  RelayControlFrame, RequestStartFrame, request_start, request_end, response_start,
  validate_request_start, validate_response_start,
}
use cresix.CloudCore.Relay.Body.{request_chunk, response_chunk}
use cresix.CloudCore.Relay.Session.{RelaySessionState}
use cresix.CloudCore.Relay.Streams.{limit_of}
use cresix.Tunnel.{Json, Writes, ProxyRequest, ProxyResponse, Message}
use cresix.Tunnel.Chunks.{body_frames, body_frames-Frames}
use cresix.Tunnel.Connector.{Settings, turns, on_answer}
use cresix.Tunnel.Turns.{Connector, Spawned}
use cresix.Tunnel.Exchange.{
  Arrival, arrived, disconnected, deadline_of, send_request, execute_exchange, receive,
  nothing_read, read_behind,
}
use cresix.Tunnel.Parts.{
  HasRoom, Awaits, asked, conversation, send_conversation, opened, opened-HasFlow,
  observe_request_start, observe_request_end,
}
use cresix.Tunnel.Requests.{Unknown, working, request_arrives}
use cresix.Tunnel.Gathering.{at_time}
use cresix.Tunnel.Responses.{
  response_start_of, response_end_of, response_messages, response_leaves, response_arrives,
}
use cresix.Tunnel.Sending.{Delivers, Socket}

-- The start frame that the cloud service sends for a request.
abbrev pub start_of : Uuid → ℕ → HttpMethod → ProxyRequest → RequestStartFrame
start_of id now method request = record {
  request_id = id;
  method = method;
  target = request.target;
  headers = request.headers;
  deadline_unix_ms = deadline_of now;
}

abbrev pub end_of : Uuid → RelayControlFrame
end_of id = request_end (record { request_id = id })

abbrev pub request_messages : Uuid → ProxyRequest → Text → Text → List Message
request_messages id request start_text finish_text =
    conversation start_text (body_frames request_chunk id request.body) finish_text

guarded {ℓ κ} :
    {E : Type ℓ} {A : Type κ} (test : Bool) (e : E) (a b : A)
    → (fail_if test e >> ok a) ≡ ok b
    → a ≡ b
guarded true e a b h = cc
guarded false e a b h = cc

method_kept :
    (value : Text) (method : HttpMethod) → http_method_new value ≡ ok method → method.value ≡ value
unfolding http_method_new
method_kept value method h =
    sym (ap HttpMethod.value (guarded _ _ (record { value = value }) method h))

module _ (json : Json) (socket : Socket) (id : Uuid) (now : ℕ) (request : ProxyRequest)
    (method : HttpMethod) (s : RelaySessionState) (start_text finish_text : Text)
    (delivers : Delivers socket) (uuid : length id ≡ 16)
    (allowed : http_method_new request.method ≡ ok method)
    (valid : validate_request_start (start_of id now method request) ≡ ok tt)
    (fits : length request.body ≤ limit_of request_chunk) (room : HasRoom s id)
    (start : json.to_string (request_start (start_of id now method request)) ≡ some start_text)
    (finish : json.to_string (end_of id) ≡ some finish_text) where
  request_leaves : send_request json socket id now request s ≡ record {
    session = asked s id;
    messages = request_messages id request start_text finish_text;
    outcome = ok tt;
  }
  unfolding send_request
  request_leaves =
      let fs = body_frames request_chunk id request.body in
      let w = body_frames-Frames request_chunk id request.body (omega arith) in
      let sent =
        send_conversation (codes "relay state rejected control frame")
          (codes "relay control encoding failed") (codes "relay protocol rejected request body")
          (codes "relay request encoding failed") disconnected socket json request_chunk id
          request.body fs (request_start (start_of id now method request)) (end_of id) start_text
          finish_text s (opened s id) (asked s id) delivers uuid w fits
          (opened-HasFlow s id room.up) start finish
          (observe_request_start s (start_of id now method request) room valid)
          (observe_request_end s id (length fs) (length request.body) room.up) in
      rw (send_request, allowed, sent) refl

  -- With a connector's answer to follow, the exchange is what is read of the answer.
  exchange_reads :
      (arrivals : List Arrival)
      → (execute_exchange json socket id now request arrivals s).outcome
        ≡ (receive json socket id (nothing_read (asked s id)) arrivals).outcome
  unfolding execute_exchange
  exchange_reads arrivals =
      ap (λ sent. (read_behind json socket id arrivals sent).outcome) request_leaves

asked-Awaits : (s : RelaySessionState) (id : Uuid) → HasRoom s id → Awaits (asked s id) id
asked-Awaits s id room = record { up = room.up; found = lookup-insert_self id _ s.flows }

-- The request that the connector spawns for the cloud service's.
abbrev pub spawned_for : Settings → Uuid → ℕ → ℕ → ProxyRequest → Spawned
spawned_for settings id now later request = record {
  request_id = id;
  request = request;
  allowance = min (deadline_of now - later) settings.request_timeout;
}

-- A proxied request makes the round trip. Both ends have a session in step, with room for a
-- request under a new identifier; the sockets take every message; the request and the response
-- are within the limits of the protocol; the four control frames have texts that read back, those
-- of the request of at most 64 KiB; and the request's deadline is still ahead. Then the connector
-- spawns exactly the cloud service's request, once, and when it answers with a response, the
-- exchange ends and returns exactly this response.
pub round_trip :
    (settings : Settings) (socket : Socket) (s : RelaySessionState) (c : Connector) (id : Uuid)
    (now later : ℕ) (request : ProxyRequest) (method : HttpMethod) (response : ProxyResponse)
    (t1 t2 t3 t4 : Text)
    → Delivers socket
    → Delivers settings.socket
    → length id ≡ 16
    → http_method_new request.method ≡ ok method
    → validate_request_start (start_of id now method request) ≡ ok tt
    → length request.body ≤ limit_of request_chunk
    → validate_response_start (response_start_of id response) ≡ ok tt
    → length response.body ≤ limit_of response_chunk
    → HasRoom s id
    → HasRoom c.session id
    → Unknown settings c id
    → later < deadline_of now
    → Writes settings.json (request_start (start_of id now method request)) t1
    → Writes settings.json (end_of id) t2
    → length t1 ≤ 64 * 1024
    → length t2 ≤ 64 * 1024
    → Writes settings.json (response_start (response_start_of id response)) t3
    → Writes settings.json (response_end_of id) t4
    → let sent = send_request settings.json socket id now request s in
      let taken = turns settings c (at_time later sent.messages) in
      let answered = on_answer settings taken.connector id (ok response) in
      (taken.spawned ≡ spawned_for settings id now later request ∷ [])
      × ((execute_exchange settings.json socket id now request
            (map arrived answered.messages)
            s).outcome
          ≡ ok response)
round_trip settings socket s c id now later request method response t1 t2 t3 t4 delivers delivers'
      uuid allowed valid fits valid_response fits_response room room' unknown soon w1 w2 short1
      short2 w3 w4 =
    let json = settings.json in
    let frame = start_of id now method request in
    let left =
      request_leaves json socket id now request method s t1 t2 delivers uuid allowed valid fits room
        (w1.0) (w2.0) in
    let taken =
      request_arrives settings later c frame request.body
        (body_frames request_chunk id request.body) t1 t2
        (body_frames-Frames request_chunk id request.body (omega arith)) fits uuid (w1.1, short1)
        (w2.1, short2) room' valid unknown soon in
    let answered =
      response_leaves settings (working c id) id response t3 t4 delivers' uuid
        (asked-Awaits c.session id room') unknown.not_cancelled valid_response fits_response (w3.0)
        (w4.0) in
    let returned =
      response_arrives json socket id response (asked s id) t3 t4 uuid (asked-Awaits s id room)
        valid_response fits_response (w3.1) (w4.1) in
    let kept = method_kept request.method method allowed in
    let read =
      exchange_reads json socket id now request method s t1 t2 delivers uuid allowed valid fits room
        (w1.0) (w2.0) (map arrived (response_messages id response t3 t4)) in
    rw (left, taken, answered) (rw kept refl, read ∙ rw returned refl)
