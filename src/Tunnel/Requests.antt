-- ===== src/Tunnel/Requests.antt =====
-- A request as the session loop of crates/c6-connector/src/runtime.rs takes it: a start, the body
-- and an end, up to the request that it spawns.
use cresix.Base.{
  ℕ, leb, ◌+◌, ◌-◌, ◌≤◌, ◌<◌, ◌≡◌, List, [], ◌∷◌, ◌++◌, map, true, false, none, some, ok, length,
  arith, refl, ◌∙◌, min,
}
use cresix.Base.Text.{Text, text_key}
use cresix.Base.Map.{
  contains, lookup, remove, add, lookup-insert_self, insert-insert, remove-insert, remove-absent,
}
use cresix.CloudCore.Relay.{Uuid}
use cresix.CloudCore.Relay.Frames.{
  RequestStartFrame, request_start, request_end, validate_request_start,
}
use cresix.CloudCore.Relay.Body.{RelayBodyFrame, request_chunk}
use cresix.CloudCore.Relay.Session.{RelaySessionState, observe_control, is_ready}
use cresix.CloudCore.Relay.Streams.{total, limit_of}
use cresix.Tunnel.{text}
use cresix.Tunnel.Chunks.{Frames, payloads}
use cresix.Tunnel.Connector.{
  Settings, received, turn, turns, on_message, on_control, extended, pending_request, start_request,
}
use cresix.Tunnel.Turns.{Connector, PendingRequest, continues, Spawned}
use cresix.Tunnel.Parts.{
  HasRoom, opened, asked, conversation, observe_request_start, observe_request_end, opened-HasFlow,
}
use cresix.Tunnel.Sending.{wire, with_flow}
use cresix.Tunnel.Gathering.{Reads, on_text-ok, with_request, turns-step, at_time, turns-bodies}

-- A connector that knows nothing of an identifier and may spawn one request more.
pub record Unknown (settings : Settings) (c : Connector) (id : Uuid) : Type 0 where
  pub not_pending : lookup id c.pending ≡ none
  pub not_cancelled : contains id c.cancelled ≡ false
  pub few : length c.pending + length c.active < settings.max_in_flight

-- The connector behind a request that it has spawned.
abbrev pub working : Connector → Uuid → Connector
working c id = record c { session = asked c.session id; active = add id c.active }

-- The request that a start frame and a body make, with its time.
abbrev pub spawned_request : Settings → ℕ → RequestStartFrame → Text → Spawned
spawned_request settings now frame body = record {
  request_id = frame.request_id;
  request = record {
    method = frame.method.value;
    target = frame.target;
    headers = frame.headers;
    body = body;
  };
  allowance = min (frame.deadline_unix_ms - now) settings.request_timeout;
}

on_start :
    (settings : Settings) (now : ℕ) (c : Connector) (frame : RequestStartFrame) (written : Text)
    → Reads settings.json (request_start frame) written
    → HasRoom c.session frame.request_id
    → validate_request_start frame ≡ ok tt
    → Unknown settings c frame.request_id
    → turn settings now c (received (text written))
      ≡ continues (
          with_request c
            (opened c.session frame.request_id)
            frame.request_id
            (pending_request frame false))
unfolding turn on_message on_control
on_start settings now c frame written reads room valid u =
    on_text-ok settings now c (request_start frame) written (opened c.session frame.request_id)
      reads (observe_request_start c.session frame room valid)
    ∙ ground (arith, u.not_pending, u.few)

on_finish :
    (settings : Settings) (now : ℕ) (c : Connector) (s : RelaySessionState) (id : Uuid)
    (request : PendingRequest) (written : Text)
    → Reads settings.json (request_end (record { request_id = id })) written
    → observe_control c.session (request_end (record { request_id = id })) ≡ (s, ok tt)
    → contains id c.cancelled ≡ false
    → lookup id c.pending ≡ some request
    → turn settings now c (received (text written))
      ≡ start_request settings now
          (record c { session = s; pending = remove id c.pending })
          id
          request
unfolding turn on_message on_control
on_finish settings now c s id request written reads observed live found =
    on_text-ok settings now c (request_end (record { request_id = id })) written s reads observed
    ∙ ground arith

-- The last round: the request is complete.
turns-finish :
    (settings : Settings) (now : ℕ) (c : Connector) (frame : RequestStartFrame)
    (body written : Text) (n b : ℕ)
    → Reads settings.json (request_end (record { request_id = frame.request_id })) written
    → is_ready c.session ≡ true
    → Unknown settings c frame.request_id
    → now < frame.deadline_unix_ms
    → turns settings
        (with_request c
          (with_flow (opened c.session frame.request_id) frame.request_id request_chunk n b)
          frame.request_id
          (record (pending_request frame false) { body = body }))
        (at_time now (text written ∷ []))
      ≡ record {
        connector = working c frame.request_id;
        messages = [];
        spawned = spawned_request settings now frame body ∷ [];
        ended = none;
      }
unfolding turns start_request
turns-finish settings now c frame body written n b reads up u soon =
    let id = frame.request_id in
    let request : PendingRequest = record (pending_request frame false) { body = body } in
    let last =
      on_finish settings now
        (with_request c (with_flow (opened c.session id) id request_chunk n b) id request)
        (asked c.session id) id request written reads (observe_request_end c.session id n b up)
        u.not_cancelled (lookup-insert_self id request c.pending) in
    let late : leb frame.deadline_unix_ms now ≡ false = ground arith in
    let gone = remove-insert id request c.pending ∙ remove-absent id c.pending u.not_pending in
    rw (last, late, gone) refl

-- A connector that takes the messages of a request, and has room for it, spawns this request
-- once, with its method, target, headers and whole body, and sends nothing.
pub request_arrives :
    (settings : Settings) (now : ℕ) (c : Connector) (frame : RequestStartFrame) (body : Text)
    (fs : List RelayBodyFrame) (start_text finish_text : Text)
    → Frames request_chunk frame.request_id body fs
    → length body ≤ limit_of request_chunk
    → length frame.request_id ≡ 16
    → Reads settings.json (request_start frame) start_text
    → Reads settings.json (request_end (record { request_id = frame.request_id })) finish_text
    → HasRoom c.session frame.request_id
    → validate_request_start frame ≡ ok tt
    → Unknown settings c frame.request_id
    → now < frame.deadline_unix_ms
    → turns settings c (at_time now (conversation start_text fs finish_text)) ≡ record {
      connector = working c frame.request_id;
      messages = [];
      spawned = spawned_request settings now frame body ∷ [];
      ended = none;
    }
request_arrives settings now c frame body fs start_text finish_text w fits uuid reads reads_end room
      valid u soon =
    let id = frame.request_id in
    let c1 = with_request c (opened c.session id) id (pending_request frame false) in
    let first =
      turns-step settings now c c1 (received (text start_text))
        (at_time now (map wire fs ++ (text finish_text ∷ [])))
        (on_start settings now c frame start_text reads room valid u) in
    let middle =
      turns-bodies settings now id fs (text finish_text ∷ []) c1 (pending_request frame false) 0 0
        uuid (opened-HasFlow c.session id room.up) (lookup-insert_self id _ c.pending) w.numbered
        w.chunk_of (omega (arith, w.few)) (omega (arith, w.size)) in
    let last =
      turns-finish settings now c frame body finish_text (0 + length fs) (0 + total fs) reads_end
        room.up u soon in
    let pending =
      insert-insert id (extended (pending_request frame false) (payloads fs))
        (pending_request frame false) c.pending in
    first ∙ (middle ∙ (rw (pending, w.whole) last))
