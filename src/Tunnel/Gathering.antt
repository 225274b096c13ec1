-- ===== src/Tunnel/Gathering.antt =====
-- How the session loop of crates/c6-connector/src/runtime.rs reads the frames of a request and
-- gathers its body.
use cresix.Base.{
  ℕ, ◌+◌, ◌≤◌, ◌<◌, ◌*◌, ◌≡◌, List, [], ◌∷◌, ◌++◌, map, All, some, ok, length, arith, refl, sym, ap,
  ◌∙◌, ◌^◌, append-nil, append_assoc,
}
use cresix.Base.Text.{Text, text_key}
use cresix.Base.Map.{lookup, insert, lookup-insert_self, insert-insert, insert-same}
use cresix.CloudCore.Relay.{Uuid}
use cresix.CloudCore.Relay.Frames.{RelayControlFrame}
use cresix.CloudCore.Relay.Body.{RelayBodyFrame, request_chunk, kind_byte, to_be_bytes, decode}
use cresix.CloudCore.Relay.Codec.{IsFrame, decode-frame}
use cresix.CloudCore.Relay.Session.{RelaySessionState, observe_control, observe_body, with_counters}
use cresix.CloudCore.Relay.Streams.{Numbered, ChunkOf, HasFlow, total, limit_of}
use cresix.Tunnel.{Message, Json, decode_control}
use cresix.Tunnel.Chunks.{payloads}
use cresix.Tunnel.Connector.{
  Settings, Event, received, turn, turns, on_message, on_text, on_binary, on_body, on_control,
  extended,
}
use cresix.Tunnel.Turns.{Connector, PendingRequest, with_session, continues}
use cresix.Tunnel.Sending.{wire, with_flow, observe_body-in_turn}

-- A frame that the connector reads back from its text, which is short enough for it.
abbrev pub Reads : Json → RelayControlFrame → Text → Type 0
Reads json frame written = (json.from_str written ≡ some frame) × (length written ≤ 64 * 1024)

pub on_text-ok :
    (settings : Settings) (now : ℕ) (c : Connector) (frame : RelayControlFrame) (written : Text)
    (s : RelaySessionState)
    → Reads settings.json frame written
    → observe_control c.session frame ≡ (s, ok tt)
    → on_text settings now c written ≡ on_control settings now (with_session c s) frame
unfolding on_text decode_control
on_text-ok settings now c frame written s (reads, short) h = ground arith

abbrev pub with_request : Connector → RelaySessionState → Uuid → PendingRequest → Connector
with_request c s id request = record c { session = s; pending = insert id request c.pending }

on_decoded :
    (c : Connector) (bytes : Text) (f : RelayBodyFrame) (s : RelaySessionState)
    (request : PendingRequest)
    → decode bytes ≡ ok f
    → f.kind ≡ request_chunk
    → observe_body c.session f ≡ (s, ok tt)
    → lookup f.request_id c.pending ≡ some request
    → on_binary c bytes ≡ continues (with_request c s f.request_id (extended request f.payload))
unfolding on_binary on_body
on_decoded c bytes f s request d kind h found = ground arith

on_binary-ok :
    (c : Connector) (f : RelayBodyFrame) (id : Uuid) (s : RelaySessionState)
    (request : PendingRequest)
    → IsFrame f
    → ChunkOf request_chunk id f
    → observe_body c.session f ≡ (s, ok tt)
    → lookup id c.pending ≡ some request
    → on_binary c (1 ∷ kind_byte f.kind ∷ (f.request_id ++ (to_be_bytes f.sequence ++ f.payload)))
      ≡ continues (with_request c s id (extended request f.payload))
on_binary-ok c f id s request w (kind, i, small) h found =
    on_decoded c _ f s request (decode-frame f w) kind h (ap (λ j. lookup j c.pending) i ∙ found)
    ∙ ap (λ j. continues (with_request c s j (extended request f.payload))) i

-- A round that goes on without a message leaves the rest to the rounds behind it.
pub turns-step :
    (settings : Settings) (now : ℕ) (c d : Connector) (event : Event) (events : List (ℕ × Event))
    → turn settings now c event ≡ continues d
    → turns settings c ((now, event) ∷ events) ≡ turns settings d events
unfolding turns
turns-step settings now c d event events h = rw h refl

-- The rounds that a list of messages gives, all at one time.
abbrev pub at_time : ℕ → List Message → List (ℕ × Event)
at_time now [] = []
at_time now (m ∷ ms) = (now, received m) ∷ at_time now ms

extend_twice :
    (request : PendingRequest) (a b : Text)
    → extended (extended request a) b ≡ extended request (a ++ b)
extend_twice request a b = ap (λ t. record request { body = t }) (append_assoc request.body a b)

-- The body frames of a request collect in its entry.
pub turns-bodies :
    (settings : Settings) (now : ℕ) (id : Uuid) (fs : List RelayBodyFrame) (rest : List Message)
    (c : Connector) (request : PendingRequest) (n b : ℕ)
    → length id ≡ 16
    → HasFlow c.session request_chunk id n b
    → lookup id c.pending ≡ some request
    → Numbered n fs
    → All (ChunkOf request_chunk id) fs
    → n + length fs < 2 ^ 32
    → b + total fs ≤ limit_of request_chunk
    → turns settings c (at_time now (map wire fs ++ rest))
      ≡ turns settings
          (with_request c
            (with_flow c.session id request_chunk (n + length fs) (b + total fs))
            id
            (extended request (payloads fs)))
          (at_time now rest)
unfolding total turns turn on_message
turns-bodies settings now id [] rest c request n b uuid w found turn_order chunk few fits =
    let n0 : n + 0 ≡ n = omega arith in
    let b0 : b + 0 ≡ b = omega arith in
    let put : RelaySessionState → List (Uuid × PendingRequest) → Connector =
      λ s p. record c { session = s; pending = p } in
    let same_session : with_flow c.session id request_chunk n b ≡ c.session =
      ap (λ m. record c.session { flows = m }) (insert-same id _ c.session.flows w.found) in
    let same_pending : insert id (extended request []) c.pending ≡ c.pending =
      ap (λ t. insert id (record request { body = t }) c.pending) (append-nil request.body)
      ∙ insert-same id request c.pending found in
    let same : put (with_flow c.session id request_chunk n b)
          (insert id (extended request []) c.pending)
        ≡ c =
      ap (λ s. put s (insert id (extended request []) c.pending)) same_session
      ∙ ap (put c.session) same_pending in
    rw (n0, b0) (ap (λ d. turns settings d (at_time now rest)) (sym same))
turns-bodies settings now id (f ∷ fs) rest c request n b uuid w found turn_order chunk few fits =
    let s1 = with_flow c.session id request_chunk (n + 1) (b + length f.payload) in
    let c1 = with_request c s1 id (extended request f.payload) in
    let frame : IsFrame f = record {
      id_len = ap length chunk.0.1 ∙ uuid;
      sequence_u32 = omega arith;
      payload_len = chunk.0.2;
    } in
    let taken =
      on_binary-ok c f id s1 request frame chunk.0
        (observe_body-in_turn request_chunk id f c.session n b w chunk.0 turn_order.0 (omega arith)
          (omega arith))
        found in
    let w1 : HasFlow s1 request_chunk id (n + 1) (b + length f.payload) = record {
      up = w.up;
      found = lookup-insert_self id _ c.session.flows;
    } in
    let ih =
      turns-bodies settings now id fs rest c1 (extended request f.payload) (n + 1)
        (b + length f.payload) uuid w1 (lookup-insert_self id _ c.pending) turn_order.1 chunk.1
        (omega arith) (omega arith) in
    let ne : n + 1 + length fs ≡ n + length (f ∷ fs) = omega arith in
    let be : b + length f.payload + total fs ≡ b + (length f.payload + total fs) = omega arith in
    let flows =
      insert-insert id
        (with_counters request_chunk (n + 1 + length fs) (b + length f.payload + total fs))
        (with_counters request_chunk (n + 1) (b + length f.payload)) c.session.flows in
    let pending =
      insert-insert id (extended (extended request f.payload) (payloads fs))
        (extended request f.payload) c.pending in
    let body = append_assoc request.body f.payload (payloads fs) in
    turns-step settings now c c1 (received (wire f)) (at_time now (map wire fs ++ rest)) taken
    ∙ (ih ∙ rw (flows, pending, ne, be, body) refl)
