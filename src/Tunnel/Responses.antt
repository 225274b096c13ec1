-- ===== src/Tunnel/Responses.antt =====
-- A response on its way back: `send_response` of crates/c6-connector/src/runtime.rs and the
-- reading loop of `execute_exchange` of crates/c6-cloud/src/lib.rs.
use cresix.Base.{
  ℕ, ◌+◌, ◌≤◌, ◌<◌, ◌≡◌, List, [], ◌∷◌, ◌++◌, map, All, true, false, none, some, ok, length, arith,
  refl, sym, ap, ◌∙◌, ◌^◌, append-nil, append_assoc, length-append,
}
use cresix.Base.Text.{Text, text_key, text_eq}
use cresix.Base.Map.{contains, discard, lookup-insert_self, insert-insert, insert-same}
use cresix.CloudCore.Relay.{Uuid, max_response_body_bytes}
use cresix.CloudCore.Relay.Frames.{
  RelayControlFrame, ResponseStartFrame, response_start, response_end, validate_response_start,
}
use cresix.CloudCore.Relay.Body.{RelayBodyFrame, response_chunk, decode}
use cresix.CloudCore.Relay.Codec.{IsFrame, decode-frame}
use cresix.CloudCore.Relay.Session.{RelaySessionState, observe_control, observe_body, with_counters}
use cresix.CloudCore.Relay.Streams.{Numbered, ChunkOf, HasFlow, total, limit_of}
use cresix.Tunnel.{Message, text, Json, ProxyResponse}
use cresix.Tunnel.Chunks.{payloads, body_frames, body_frames-Frames}
use cresix.Tunnel.Connector.{Settings, on_answer, send_response}
use cresix.Tunnel.Turns.{protocol, transport, Connector}
use cresix.Tunnel.Exchange.{
  Reading, Arrival, arrived, receive, read_arrival, read_message, read_text, read_binary,
  read_control, goes_on, with_session, nothing_read, response_of,
}
use cresix.Tunnel.Parts.{
  Awaits, answering, closed, conversation, send_conversation, observe_response_start,
  observe_response_end, answering-HasFlow,
}
use cresix.Tunnel.Sending.{Delivers, Socket, wire, with_flow, observe_body-in_turn}

abbrev pub response_start_of : Uuid → ProxyResponse → ResponseStartFrame
response_start_of id response = record {
  request_id = id;
  status = response.status;
  headers = response.headers;
}

abbrev pub response_end_of : Uuid → RelayControlFrame
response_end_of id = response_end (record { request_id = id })

abbrev pub response_messages : Uuid → ProxyResponse → Text → Text → List Message
response_messages id response start_text finish_text =
    conversation start_text (body_frames response_chunk id response.body) finish_text

-- A response that may leave is sent whole, as a start, the body and an end, and frees its place.
pub response_leaves :
    (settings : Settings) (c : Connector) (id : Uuid) (response : ProxyResponse)
    (start_text finish_text : Text)
    → Delivers settings.socket
    → length id ≡ 16
    → Awaits c.session id
    → contains id c.cancelled ≡ false
    → validate_response_start (response_start_of id response) ≡ ok tt
    → length response.body ≤ limit_of response_chunk
    → settings.json.to_string (response_start (response_start_of id response)) ≡ some start_text
    → settings.json.to_string (response_end_of id) ≡ some finish_text
    → on_answer settings c id (ok response) ≡ record {
      connector = record c { session = closed c.session id; active = discard id c.active };
      messages = response_messages id response start_text finish_text;
      spawned = [];
      ended = none;
    }
unfolding on_answer send_response
response_leaves settings c id response start_text finish_text delivers uuid waits live valid fits
      start finish =
    let fs = body_frames response_chunk id response.body in
    let frames = body_frames-Frames response_chunk id response.body (omega arith) in
    let sent =
      send_conversation protocol protocol protocol protocol transport settings.socket settings.json
        response_chunk id response.body fs (response_start (response_start_of id response))
        (response_end_of id) start_text finish_text c.session (answering c.session id)
        (closed c.session id) delivers uuid frames fits (answering-HasFlow c.session id waits.up)
        start finish (observe_response_start c.session (response_start_of id response) waits valid)
        (observe_response_end c.session id (length fs) (length response.body) waits.up) in
    rw (live, sent) refl

receive-step :
    (json : Json) (socket : Socket) (id : Uuid) (r r1 : Reading) (a : Arrival) (rest : List Arrival)
    → read_arrival json socket id r a ≡ goes_on r1
    → receive json socket id r (a ∷ rest) ≡ receive json socket id r1 rest
unfolding receive
receive-step json socket id r r1 a rest h = rw h refl

read_text-ok :
    (json : Json) (socket : Socket) (id : Uuid) (r : Reading) (frame : RelayControlFrame)
    (written : Text) (s : RelaySessionState)
    → json.from_str written ≡ some frame
    → observe_control r.session frame ≡ (s, ok tt)
    → read_text json socket id r written ≡ read_control json socket id (with_session r s) frame
unfolding read_text
read_text-ok json socket id r frame written s reads h = ground arith

text_eq_self : (a : Text) → text_eq a a ≡ true
text_eq_self a = (text_key.beq_iff a a).1 refl

abbrev with_chunk : Reading → RelaySessionState → Text → Reading
with_chunk r s bytes = record r { session = s; response_body = r.response_body ++ bytes }

read_decoded :
    (id : Uuid) (r : Reading) (bytes : Text) (f : RelayBodyFrame) (s : RelaySessionState)
    → decode bytes ≡ ok f
    → f.kind ≡ response_chunk
    → text_eq f.request_id id ≡ true
    → observe_body r.session f ≡ (s, ok tt)
    → length (r.response_body ++ f.payload) ≤ max_response_body_bytes
    → read_binary id r bytes ≡ goes_on (with_chunk r s f.payload)
unfolding read_binary
read_decoded id r bytes f s d kind same h fits = ground arith

-- The body frames of a response collect in what is read.
receive-bodies :
    (json : Json) (socket : Socket) (id : Uuid) (fs : List RelayBodyFrame) (rest : List Message)
    (r : Reading) (n b : ℕ)
    → length id ≡ 16
    → HasFlow r.session response_chunk id n b
    → length r.response_body ≡ b
    → Numbered n fs
    → All (ChunkOf response_chunk id) fs
    → n + length fs < 2 ^ 32
    → b + total fs ≤ limit_of response_chunk
    → receive json socket id r (map arrived (map wire fs ++ rest))
      ≡ receive json socket id
          (with_chunk r
            (with_flow r.session id response_chunk (n + length fs) (b + total fs))
            (payloads fs))
          (map arrived rest)
unfolding total read_arrival read_message
receive-bodies json socket id [] rest r n b uuid w read turn_order chunk few fits =
    let n0 : n + 0 ≡ n = omega arith in
    let b0 : b + 0 ≡ b = omega arith in
    let put : RelaySessionState → Text → Reading =
      λ s t. record r { session = s; response_body = t } in
    let same_session : with_flow r.session id response_chunk n b ≡ r.session =
      ap (λ m. record r.session { flows = m }) (insert-same id _ r.session.flows w.found) in
    let same : put (with_flow r.session id response_chunk n b) (r.response_body ++ []) ≡ r =
      ap (λ s. put s (r.response_body ++ [])) same_session
      ∙ ap (put r.session) (append-nil r.response_body) in
    rw (n0, b0) (ap (λ q. receive json socket id q (map arrived rest)) (sym same))
receive-bodies json socket id (f ∷ fs) rest r n b uuid w read turn_order chunk few fits =
    let s1 = with_flow r.session id response_chunk (n + 1) (b + length f.payload) in
    let r1 = with_chunk r s1 f.payload in
    let frame : IsFrame f = record {
      id_len = ap length chunk.0.1 ∙ uuid;
      sequence_u32 = omega arith;
      payload_len = chunk.0.2;
    } in
    let grown : length (r.response_body ++ f.payload) ≡ b + length f.payload =
      omega (arith, length-append r.response_body f.payload) in
    let taken =
      read_decoded id r _ f s1 (decode-frame f frame) chunk.0.0
        (ap (λ i. text_eq i id) chunk.0.1 ∙ text_eq_self id)
        (observe_body-in_turn response_chunk id f r.session n b w chunk.0 turn_order.0 (omega arith)
          (omega arith))
        (omega arith) in
    let w1 : HasFlow s1 response_chunk id (n + 1) (b + length f.payload) = record {
      up = w.up;
      found = lookup-insert_self id _ r.session.flows;
    } in
    let ih =
      receive-bodies json socket id fs rest r1 (n + 1) (b + length f.payload) uuid w1 grown
        turn_order.1 chunk.1 (omega arith) (omega arith) in
    let ne : n + 1 + length fs ≡ n + length (f ∷ fs) = omega arith in
    let be : b + length f.payload + total fs ≡ b + (length f.payload + total fs) = omega arith in
    let flows =
      insert-insert id
        (with_counters response_chunk (n + 1 + length fs) (b + length f.payload + total fs))
        (with_counters response_chunk (n + 1) (b + length f.payload)) r.session.flows in
    let body = append_assoc r.response_body f.payload (payloads fs) in
    receive-step json socket id r r1 (arrived (wire f)) (map arrived (map wire fs ++ rest)) taken
    ∙ (ih ∙ rw (flows, ne, be, body) refl)

read_start :
    (json : Json) (socket : Socket) (id : Uuid) (response : ProxyResponse) (s : RelaySessionState)
    (written : Text)
    → json.from_str written ≡ some (response_start (response_start_of id response))
    → Awaits s id
    → validate_response_start (response_start_of id response) ≡ ok tt
    → read_arrival json socket id (nothing_read s) (arrived (text written))
      ≡ goes_on (record {
        session = answering s id;
        status = some response.status;
        response_headers = response.headers;
        response_body = [];
      })
unfolding read_arrival read_message read_control
read_start json socket id response s written reads waits valid =
    read_text-ok json socket id (nothing_read s) (response_start (response_start_of id response))
      written (answering s id) reads
      (observe_response_start s (response_start_of id response) waits valid)
    ∙ ground (arith, text_eq_self id)

read_finish :
    (json : Json) (socket : Socket) (id : Uuid) (r : Reading) (s : RelaySessionState)
    (written : Text)
    → json.from_str written ≡ some (response_end_of id)
    → observe_control r.session (response_end_of id) ≡ (s, ok tt)
    → receive json socket id r (arrived (text written) ∷ [])
      ≡ record { session = s; messages = []; outcome = response_of r }
unfolding receive read_arrival read_message read_control
read_finish json socket id r s written reads observed =
    let e = read_text-ok json socket id r (response_end_of id) written s reads observed in
    let same = text_eq_self id in rw (e, same) refl

-- The cloud service that waits for a response, and receives the messages of one, returns it with
-- its status, headers and whole body, and frees the request's place.
pub response_arrives :
    (json : Json) (socket : Socket) (id : Uuid) (response : ProxyResponse) (s : RelaySessionState)
    (start_text finish_text : Text)
    → length id ≡ 16
    → Awaits s id
    → validate_response_start (response_start_of id response) ≡ ok tt
    → length response.body ≤ limit_of response_chunk
    → json.from_str start_text ≡ some (response_start (response_start_of id response))
    → json.from_str finish_text ≡ some (response_end_of id)
    → receive json socket id
        (nothing_read s)
        (map arrived (response_messages id response start_text finish_text))
      ≡ record { session = closed s id; messages = []; outcome = ok response }
response_arrives json socket id response s start_text finish_text uuid waits valid fits start
      finish =
    let fs = body_frames response_chunk id response.body in
    let w = body_frames-Frames response_chunk id response.body (omega arith) in
    let r1 : Reading = record {
      session = answering s id;
      status = some response.status;
      response_headers = response.headers;
      response_body = [];
    } in
    let first =
      receive-step json socket id (nothing_read s) r1 (arrived (text start_text))
        (map arrived (map wire fs ++ (text finish_text ∷ [])))
        (read_start json socket id response s start_text start waits valid) in
    let middle =
      receive-bodies json socket id fs (text finish_text ∷ []) r1 0 0 uuid
        (answering-HasFlow s id waits.up) refl w.numbered w.chunk_of (omega (arith, w.few))
        (omega (arith, w.size)) in
    let last =
      read_finish json socket id
        (with_chunk r1 (with_flow (answering s id) id response_chunk (0 + length fs) (0 + total fs))
          (payloads fs))
        (closed s id) finish_text finish
        (observe_response_end s id (0 + length fs) (0 + total fs) waits.up) in
    let whole = w.whole in first ∙ (middle ∙ (last ∙ rw whole refl))
