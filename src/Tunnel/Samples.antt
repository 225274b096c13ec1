-- ===== src/Tunnel/Samples.antt =====
-- Sample values for the tests of crates/c6-cloud/src/lib.rs and crates/c6-connector/src: a request,
-- its answer and a stand-in for the JSON library.
use cresix.Base.{[], Option, some, none, true, if◌then◌else◌}
use cresix.Base.Text.{Text, codes, text_key, text_eq}
use cresix.CloudCore.Relay.{Uuid}
use cresix.CloudCore.Relay.Frames.{
  RelayControlFrame, client_hello, server_ready, request_start, request_end, response_start,
  response_end, cancel, request_failed, ping, pong,
}
use cresix.CloudCore.Relay.Headers.{HttpMethod}
use cresix.CloudCore.Relay.Session.{RelaySessionState, ready}
use cresix.Tunnel.{Json, ProxyRequest, ProxyResponse}
use cresix.Tunnel.Connector.{Settings}

abbrev pub sample_id : Uuid
sample_id = codes "0123456789abcdef"

abbrev pub get : HttpMethod
get = record { value = codes "GET" }

abbrev pub sample_request : ProxyRequest
sample_request = record {
  method = codes "GET";
  target = codes "/api";
  headers = [];
  body = codes "abc";
}

abbrev pub sample_response : ProxyResponse
sample_response = record { status = 200; headers = []; body = codes "done" }

abbrev sample_start : RelayControlFrame
sample_start = request_start (record {
  request_id = sample_id;
  method = get;
  target = codes "/api";
  headers = [];
  deadline_unix_ms = 30005;
})

abbrev sample_answer : RelayControlFrame
sample_answer = response_start (record { request_id = sample_id; status = 200; headers = [] })

abbrev welcome : RelayControlFrame
welcome = server_ready (record {
  installation_id = sample_id;
  generation = 1;
  max_concurrent_requests = 32;
  max_chunk_bytes = 65536;
})

-- A stand-in for the JSON library: a text names the kind of its frame.
abbrev pub kind_text : RelayControlFrame → Text
kind_text (request_start frame) = codes "start"
kind_text (request_end frame) = codes "end"
kind_text (response_start frame) = codes "answer"
kind_text (response_end frame) = codes "answered"
kind_text (server_ready frame) = codes "ready"
kind_text (client_hello frame) = codes "hello"
kind_text (cancel frame) = codes "cancel"
kind_text (request_failed frame) = codes "failed"
kind_text (ping frame) = codes "ping"
kind_text (pong frame) = codes "pong"

abbrev frame_of : Text → Option RelayControlFrame
frame_of t =
    if text_eq t (codes "start")
    then some sample_start
    else if text_eq t (codes "end")
    then some (request_end (record { request_id = sample_id }))
    else if text_eq t (codes "answer")
    then some sample_answer
    else if text_eq t (codes "answered")
    then some (response_end (record { request_id = sample_id }))
    else if text_eq t (codes "ready")
    then some welcome
    else none

abbrev pub sample_json : Json
sample_json = record { to_string = λ frame. some (kind_text frame); from_str = frame_of }

abbrev pub sample_settings : Settings
sample_settings = record {
  max_in_flight = 4;
  request_timeout = 10000;
  json = sample_json;
  socket = λ m. true;
}

abbrev pub ready_session : RelaySessionState
ready_session = record { handshake = ready; flows = []; seen_request_ids = [] }
