-- ===== src/Tunnel/Tests.antt =====
-- The theorems on the tunnel at concrete exchanges, for crates/c6-cloud/src/lib.rs and
-- crates/c6-connector/src.
use cresix.Base.{
  ◌⊎◌, ℕ, ◌≡◌, ◌≤◌, ◌↔◌, List, ◌∷◌, [], map, some, none, refl, ok, err, arith, true, false, length,
  All,
}
use cresix.Base.Map.{contains, lookup}
use cresix.Base.Text.{Text, codes, text_key}
use cresix.CloudCore.Token.Tests.{sample_token}
use cresix.CloudCore.Relay.{Uuid, max_response_body_bytes}
use cresix.CloudCore.Relay.Frames.{validate_request_start, validate_response_start, is_bad_target}
use cresix.CloudCore.Relay.Headers.{http_method_new, validate_headers}
use cresix.CloudCore.Relay.Session.{
  RelaySessionState, ready, default, observe_control, control_outcome, awaiting_response, is_ready,
}
use cresix.Tunnel.{text, ping_message, ProxyResponse, decode_control}
use cresix.Tunnel.Connector.{
  Event, received, answered, turn, turns, on_answer, on_message, on_text, on_control,
}
use cresix.Tunnel.Turns.{transport, protocol, Connector}
use cresix.Tunnel.Exchange.{arrived, send_request, execute_exchange}
use cresix.Tunnel.Forwarding.{Passes, execute_forwards}
use cresix.Tunnel.InStep.{IsInStep, Agrees}
use cresix.Tunnel.Lifetime.{BackOff, GoesOn, Stopped, run_reconnecting-BackOff, session-IsInStep}
use cresix.Tunnel.Loop.{Acceptable, Answers, turn_goes_on_iff}
use cresix.Tunnel.Runs.{started}
use cresix.Tunnel.Proxy.{
  Url, Response, Http, execute, is_allowed_method, is_bad_path, leaves_origin, target_url,
  filter_request_headers, response_headers, classify_reqwest, blocked_header, upstream_new,
}
use cresix.Tunnel.Reconnect.{Ending, handshake, read_ready, run_reconnecting}
use cresix.Tunnel.Accepts.{Writable}
use cresix.Tunnel.RoundTrip.{round_trip, spawned_for}
use cresix.Tunnel.Parts.{HasRoom}
use cresix.Tunnel.Requests.{Unknown}
use cresix.Tunnel.Gathering.{at_time}
use cresix.Tunnel.Sending.{send_control}
use cresix.Tunnel.Samples.{
  sample_id, get, sample_request, sample_response, kind_text, sample_json, sample_settings,
  ready_session,
}

sample_start-validates :
    validate_request_start (record {
      request_id = sample_id;
      method = get;
      target = codes "/api";
      headers = [];
      deadline_unix_ms = 30005;
    })
    ≡ ok tt
unfolding validate_request_start validate_headers is_bad_target
sample_start-validates = refl

sample_answer-validates :
    validate_response_start (record { request_id = sample_id; status = 200; headers = [] }) ≡ ok tt
unfolding validate_response_start validate_headers
sample_answer-validates = refl

get_new : http_method_new (codes "GET") ≡ ok get
unfolding http_method_new
get_new = refl

ready_session-HasRoom : HasRoom ready_session sample_id
unfolding contains
ready_session-HasRoom = record {
  up = refl;
  fresh = refl;
  few_flows = omega arith;
  few_ids = omega arith;
}

started-Unknown : Unknown sample_settings (started ready_session) sample_id
unfolding contains lookup
started-Unknown = record { not_pending = refl; not_cancelled = refl; few = omega arith }

round_trip_example :
    let sent = send_request sample_json (λ m. true) sample_id 5 sample_request ready_session in
    let taken = turns sample_settings (started ready_session) (at_time 6 sent.messages) in
    let answer = on_answer sample_settings taken.connector sample_id (ok sample_response) in
    (taken.spawned ≡ spawned_for sample_settings sample_id 5 6 sample_request ∷ [])
    × ((execute_exchange sample_json
          (λ m. true)
          sample_id
          5
          sample_request
          (map arrived answer.messages)
          ready_session).outcome
        ≡ ok sample_response)
round_trip_example =
    round_trip sample_settings (λ m. true) ready_session (started ready_session) sample_id 5 6
      sample_request get sample_response (codes "start") (codes "end") (codes "answer")
      (codes "answered") (λ m. refl) (λ m. refl) refl get_new sample_start-validates (omega arith)
      sample_answer-validates (omega arith) ready_session-HasRoom ready_session-HasRoom
      started-Unknown (omega arith) (refl, refl) (refl, refl) (omega arith) (omega arith)
      (refl, refl) (refl, refl)

-- A connector that works on one request.
abbrev working_session : RelaySessionState
working_session = record {
  handshake = ready;
  flows = (sample_id, awaiting_response) ∷ [];
  seen_request_ids = sample_id ∷ [];
}

abbrev at_work : Connector
at_work = record {
  session = working_session;
  pending = [];
  active = sample_id ∷ [];
  cancelled = [];
}

at_work-Agrees : (id : Uuid) → Agrees at_work id
unfolding lookup contains
at_work-Agrees id = ground arith

at_work-IsInStep : IsInStep at_work
at_work-IsInStep = record { up = refl; agreed = at_work-Agrees }

sample_json-Writable : Writable sample_json
sample_json-Writable frame = (kind_text frame, refl)

at_work-Answers : Answers at_work (answered sample_id (ok sample_response))
unfolding contains
at_work-Answers = (refl, refl, omega arith)

turn_goes_on_iff_example :
    ((turn sample_settings 6 at_work (answered sample_id (ok sample_response))).ended ≡ none)
    ↔ Acceptable sample_settings at_work (answered sample_id (ok sample_response))
turn_goes_on_iff_example =
    turn_goes_on_iff sample_settings 6 at_work (answered sample_id (ok sample_response))
      at_work-IsInStep (λ m. refl) sample_json-Writable at_work-Answers

handshake_opens :
    handshake sample_settings
      (some (codes "c6-relay-v1"))
      sample_token
      sample_id
      (some (text (codes "ready")))
      (ok tt)
    ≡ ok ready_session
unfolding handshake upstream_new read_ready send_control observe_control control_outcome default
    decode_control
handshake_opens = refl

abbrev early_events : List (ℕ × Event)
early_events = (1, received (ping_message (codes "x"))) ∷ (2, received (text (codes "start"))) ∷ []

early_events_run : (turns sample_settings (started ready_session) early_events).ended ≡ none
unfolding turns turn on_message on_text on_control decode_control observe_control control_outcome
    validate_request_start validate_headers is_bad_target contains lookup
early_events_run = refl

session-IsInStep_example :
    (is_ready ready_session ≡ true)
    × (ready_session.flows ≡ [])
    × IsInStep (turns sample_settings (started ready_session) early_events).connector
session-IsInStep_example =
    session-IsInStep sample_settings (some (codes "c6-relay-v1")) sample_token sample_id
      (some (text (codes "ready"))) (ok tt) ready_session early_events handshake_opens (λ m. refl)
      sample_json-Writable (tt, (tt, tt)) early_events_run

-- A local server that answers every request.
abbrev local_url : Text → Url
local_url t = record {
  as_str = t;
  scheme = codes "http";
  host_str = some (codes "127.0.0.1");
  port_or_known_default = some 8787;
  username = [];
  password = none;
}

abbrev local_answer : Response
local_answer = record {
  content_length = some 4;
  status = 200;
  headers = (codes "connection", some (codes "close")) ∷ (codes "etag", some (codes "1")) ∷ [];
  bytes = ok (codes "done");
}

abbrev local_http : Http
local_http = record {
  parse_url = λ t. some (local_url t);
  parse_name = λ t. some t;
  parse_value = λ t. some t;
  send = λ method url headers body. ok local_answer;
}

abbrev local_result : ProxyResponse
local_result = record {
  status = 200;
  headers = record { name = codes "etag"; value = codes "1" } ∷ [];
  body = codes "done";
}

execute_runs :
    execute local_http (local_url (codes "http://127.0.0.1:8787/")) sample_request ≡ ok local_result
unfolding execute is_allowed_method target_url is_bad_path leaves_origin filter_request_headers
    classify_reqwest response_headers blocked_header
execute_runs = refl

execute_forwards_example :
    (url : Url) × (headers : List (Text × Text)) × (response : Response) × (local_http.send
        (codes "GET")
        url
        headers
        (codes "abc")
      ≡ ok response)
    × (is_allowed_method (codes "GET") ≡ true)
    × (is_bad_path (codes "/api") ≡ false)
    × (leaves_origin (local_url (codes "http://127.0.0.1:8787/")) url ≡ false)
    × All (λ h. Passes h.0) headers
    × (200 ≡ response.status)
    × (response.bytes ≡ ok (codes "done"))
    × (length (codes "done") ≤ max_response_body_bytes)
    × All (λ h. Passes h.name) local_result.headers
execute_forwards_example =
    execute_forwards local_http (local_url (codes "http://127.0.0.1:8787/")) sample_request
      local_result execute_runs

abbrev two_endings : List Ending
two_endings =
    record { outcome = err transport; jitter = 250 }
    ∷ record { outcome = err protocol; jitter = 0 }
    ∷ []

run_reconnecting-BackOff_example :
    BackOff 0 (run_reconnecting two_endings).sleeps
    × (GoesOn two_endings (run_reconnecting two_endings)
        ⊎ Stopped two_endings (run_reconnecting two_endings))
run_reconnecting-BackOff_example =
    run_reconnecting-BackOff two_endings (omega arith, (omega arith, tt))
