-- ===== src/CloudCore/Relay/Tests.antt =====
-- The theorems on the relay (crates/c6-cloud-core/src/relay.rs) at concrete sessions.
use cresix.Base.{
  ℕ, ◌≡◌, ◌≢◌, ◌↔◌, ◌≤◌, ◌<◌, ◌+◌, ◌-◌, ◌^◌, ◌⊎◌, List, ◌∷◌, [], Option, some, none, refl, ap, ok,
  err, Bool, Result, arith, true, false, length, is_ok, All,
}
use cresix.Base.Map.{contains, lookup}
use cresix.Base.Text.{Text, codes, text_key}
use cresix.CloudCore.Token.Tests.{sample_token}
use cresix.CloudCore.Relay.{
  Uuid, illegal_transition, invalid_sequence, max_header_count, max_header_bytes,
}
use cresix.CloudCore.Relay.Headers.{
  HeaderField, validate_headers, validate_header, is_name_byte, is_bad_value_byte,
  is_forbidden_header,
}
use cresix.CloudCore.Relay.HeaderLimits.{header_bytes, IsValidHeader, validate_headers_iff}
use cresix.CloudCore.Relay.Frames.{
  RequestStartFrame, client_hello, server_ready, request_start, cancel, validate_request_start,
  is_bad_target, ping,
}
use cresix.CloudCore.Relay.Body.{RelayBodyFrame, request_chunk, encode, decode, from_be_bytes}
use cresix.CloudCore.Relay.Codec.{IsFrame, decode_iff}
use cresix.CloudCore.Relay.Session.{
  Frame, control, body, request_body, RelaySessionState, default, control_outcome, observe_control,
  observe_body, count_chunk, observe, run, ready,
}
use cresix.CloudCore.Relay.Invariant.{IsValid, run-IsValid}
use cresix.CloudCore.Relay.Transitions.{Step, frame_id, observe-Step}
use cresix.CloudCore.Relay.Reuse.{run-ended, start_once}
use cresix.CloudCore.Relay.Refusals.{Exhausts, observe_refused, refused_chunk_counted}
use cresix.CloudCore.Relay.Streams.{HasFlow, Numbered, accepts, total, accepts_iff, limit_of}

abbrev first_id : Uuid
first_id = codes "0123456789abcdef"

abbrev second_id : Uuid
second_id = codes "fedcba9876543210"

abbrev accept_header : HeaderField
accept_header = record { name = codes "accept"; value = codes "text/html" }

abbrev start_frame : RequestStartFrame
start_frame = record {
  request_id = first_id;
  method = record { value = codes "GET" };
  target = codes "/api?q=1";
  headers = accept_header ∷ [];
  deadline_unix_ms = 1;
}

abbrev hello : Frame
hello = control (client_hello (record { protocol_version = 1; connector_token = sample_token }))

abbrev welcome : Frame
welcome = control (
    server_ready (record {
      installation_id = first_id;
      generation = 1;
      max_concurrent_requests = 32;
      max_chunk_bytes = 65536;
    }))

abbrev begin : Frame
begin = control (request_start start_frame)

abbrev chunk : ℕ → RelayBodyFrame
chunk n = record {
  kind = request_chunk;
  request_id = first_id;
  sequence = n;
  payload = codes "abc";
}

abbrev stop : Frame
stop = control (cancel (record { request_id = first_id }))

-- The session behind the handshake, and with one open request.
abbrev ready_session : RelaySessionState
ready_session = record { handshake = ready; flows = []; seen_request_ids = [] }

abbrev open_session : RelaySessionState
open_session = record {
  handshake = ready;
  flows = (first_id, request_body 0 0) ∷ [];
  seen_request_ids = first_id ∷ [];
}

handshake_runs : run default (hello ∷ welcome ∷ []) ≡ ready_session
unfolding run default observe observe_control control_outcome
handshake_runs = refl

request_opens : observe ready_session begin ≡ (open_session, ok tt)
unfolding observe observe_control control_outcome validate_request_start is_bad_target
    validate_headers validate_header is_name_byte is_bad_value_byte is_forbidden_header contains
    cresix.Base.Map.insert
request_opens = refl

ping_before_hello :
    (observe default (control (ping (record { nonce = 0 })))).1 ≡ err illegal_transition
unfolding observe observe_control control_outcome default
ping_before_hello = refl

validate_headers_iff_example : (validate_headers (accept_header ∷ []) ≡ ok tt) ↔ (
    (length (accept_header ∷ []) ≤ max_header_count)
    × All IsValidHeader (accept_header ∷ [])
    × (header_bytes (accept_header ∷ []) ≤ max_header_bytes))
validate_headers_iff_example = validate_headers_iff (accept_header ∷ [])

-- One chunk as bytes: version, kind, identifier, sequence number 5, payload.
abbrev chunk_bytes : Text
chunk_bytes =
    1 ∷ 1 ∷ 48 ∷ 49 ∷ 50 ∷ 51 ∷ 52 ∷ 53 ∷ 54 ∷ 55 ∷ 56 ∷ 57 ∷ 97 ∷ 98 ∷ 99 ∷ 100 ∷ 101 ∷ 102 ∷ 0 ∷ 0
    ∷ 0 ∷ 5 ∷ 97 ∷ 98 ∷ 99 ∷ []

chunk_decodes : decode chunk_bytes ≡ ok (chunk 5)
unfolding decode from_be_bytes
chunk_decodes = refl

decode_iff_example :
    (decode chunk_bytes ≡ ok (chunk 5)) ↔ (IsFrame (chunk 5) × (encode (chunk 5) ≡ ok chunk_bytes))
decode_iff_example = decode_iff chunk_bytes (chunk 5) (omega arith)

run-IsValid_example : IsValid (run default (hello ∷ welcome ∷ begin ∷ body (chunk 0) ∷ stop ∷ []))
run-IsValid_example = run-IsValid (hello ∷ welcome ∷ begin ∷ body (chunk 0) ∷ stop ∷ [])

observe-Step_example : Step open_session (frame_id stop) (observe open_session stop).0
observe-Step_example = observe-Step open_session stop

is_second : Option Uuid → Bool
is_second none = true
is_second (some id) = text_key.beq id second_id

stop_names_first : frame_id stop ≢ some second_id
unfolding is_second
stop_names_first e = let q : ◌≡◌ false true = ap is_second e in cc

run-ended_example :
    lookup first_id
      (run
        (record { handshake = ready; flows = []; seen_request_ids = first_id ∷ [] })
        (begin ∷ body (chunk 0) ∷ [])).flows
    ≡ none
unfolding contains lookup
run-ended_example =
    run-ended (record { handshake = ready; flows = []; seen_request_ids = first_id ∷ [] })
      (begin ∷ body (chunk 0) ∷ []) first_id refl refl

first_start : (observe ready_session begin).1 ≡ ok tt
first_start = rw request_opens

start_once_example :
    let t = run (observe ready_session begin).0 (stop ∷ []) in
    ((observe t begin).0 ≡ t) × (is_ok (observe t begin).1 ≡ false)
start_once_example = start_once ready_session start_frame start_frame (stop ∷ []) first_start refl

early_chunk : (observe open_session (body (chunk 5))).1 ≡ err invalid_sequence
unfolding observe observe_body count_chunk lookup
early_chunk = refl

observe_refused_example :
    ((observe open_session (body (chunk 5))).0 ≡ open_session)
    ⊎ Exhausts (body (chunk 5)) invalid_sequence
observe_refused_example = observe_refused open_session (body (chunk 5)) invalid_sequence early_chunk

-- A flow whose sequence numbers are used up.
abbrev full_session : RelaySessionState
full_session = record {
  handshake = ready;
  flows = (first_id, request_body (2 ^ 32 - 1) 7) ∷ [];
  seen_request_ids = first_id ∷ [];
}

exhausted_chunk_counted :
    ((observe_body full_session (chunk (2 ^ 32 - 1))).1 ≡ err invalid_sequence)
    × (lookup first_id (observe_body full_session (chunk (2 ^ 32 - 1))).0.flows
        ≡ some (request_body (2 ^ 32 - 1) (7 + 3)))
unfolding lookup
exhausted_chunk_counted =
    refused_chunk_counted full_session (chunk (2 ^ 32 - 1)) 7 refl refl refl (omega arith) refl
      (omega arith)

open_flow : HasFlow open_session request_chunk first_id 0 0
unfolding lookup
open_flow = record { up = refl; found = refl }

accepts_iff_example : (accepts open_session (chunk 0 ∷ chunk 1 ∷ []) ≡ true) ↔ (
    Numbered 0 (chunk 0 ∷ chunk 1 ∷ [])
    × (0 + total (chunk 0 ∷ chunk 1 ∷ []) ≤ limit_of request_chunk))
accepts_iff_example =
    accepts_iff request_chunk first_id (chunk 0 ∷ chunk 1 ∷ []) open_session 0 0 open_flow
      ((refl, refl, omega arith), ((refl, refl, omega arith), tt)) (omega arith) (omega arith)
