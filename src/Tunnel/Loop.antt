-- ===== src/Tunnel/Loop.antt =====
-- The session loop of crates/c6-connector/src/runtime.rs as a whole: which events end it, and what
-- holds of the connector in every round.
use cresix.Base.{
  ℕ, ◌≡◌, ◌≤◌, ◌↔◌, ◌⊎◌, true, false, none, some, ok, err, arith, refl, sym, ◌∙◌, Bool-cases,
  Result-cases, inl, inr, length,
}
use cresix.Base.Text.{Text, text_key}
use cresix.Base.Map.{contains}
use cresix.CloudCore.Relay.{Uuid, RelayValidationError, illegal_transition}
use cresix.CloudCore.Relay.Body.{RelayBodyFrame, response_chunk, decode}
use cresix.CloudCore.Relay.Frames.{
  RelayControlFrame, ResponseStartFrame, client_hello, server_ready, request_start, request_end,
  response_start, response_end, cancel, request_failed, ping, pong, validate_response_start,
}
use cresix.CloudCore.Relay.Session.{
  RelaySessionState, is_ready, observe_control, observe_body, control_outcome,
}
use cresix.CloudCore.Relay.Streams.{limit_of}
use cresix.Tunnel.{
  text, binary, ping_message, pong_message, close, raw_frame, decode_control, ProxyResponse,
}
use cresix.Tunnel.Connector.{
  Settings, Event, received, answered, hung_up, turn, on_message, on_text, on_binary, on_control,
  on_answer, send_observed_control, send_response,
}
use cresix.Tunnel.Turns.{protocol, transport, Connector, with_session}
use cresix.Tunnel.InStep.{IsInStep, Proceeds}
use cresix.Tunnel.Responses.{response_start_of}
use cresix.Tunnel.Accepts.{Writable}
use cresix.Tunnel.Sending.{Delivers, send_control-refused}
use cresix.Tunnel.Steady.{
  from_cloud, accepted, control-Proceeds, body-Proceeds, cancelled-Proceeds, failure-Proceeds,
  response-Proceeds,
}

-- The events that let the session go on.
abbrev pub Acceptable : Settings → Connector → Event → Type 0
Acceptable settings c (received (text t)) =
    (frame : RelayControlFrame) × (decode_control settings.json t ≡ ok frame)
    × ((observe_control c.session frame).1 ≡ ok tt)
    × (from_cloud frame ≡ true)
Acceptable settings c (received (binary bytes)) =
    (f : RelayBodyFrame) × (decode bytes ≡ ok f) × ((observe_body c.session f).1 ≡ ok tt)
Acceptable settings c (received (ping_message bytes)) = Unit
Acceptable settings c (received (pong_message bytes)) = Unit
Acceptable settings c (received close) = ⊥
Acceptable settings c (received raw_frame) = ⊥
Acceptable settings c (answered id (ok response)) =
    (contains id c.cancelled ≡ true)
    ⊎ (validate_response_start (response_start_of id response) ≡ ok tt)
Acceptable settings c (answered id (err e)) = Unit
Acceptable settings c hung_up = ⊥

-- An answer is one to a spawned request, and its body is within the limit of `execute`.
abbrev pub Answers : Connector → Event → Type 0
Answers c (answered id (ok response)) =
    (contains id c.active ≡ true)
    × (length id ≡ 16)
    × (length response.body ≤ limit_of response_chunk)
Answers c (answered id (err e)) = contains id c.active ≡ true
Answers c (received m) = Unit
Answers c hung_up = Unit

only_from_cloud :
    (settings : Settings) (now : ℕ) (c : Connector) (frame : RelayControlFrame)
    → (on_control settings now c frame).ended ≡ none
    → from_cloud frame ≡ true
unfolding on_control
only_from_cloud settings now c (request_start frame) h = refl
only_from_cloud settings now c (request_end frame) h = refl
only_from_cloud settings now c (cancel frame) h = refl
only_from_cloud settings now c (ping frame) h = refl
only_from_cloud settings now c (pong frame) h = refl
only_from_cloud settings now c (client_hello frame) h = cc
only_from_cloud settings now c (server_ready frame) h = cc
only_from_cloud settings now c (response_start frame) h = cc
only_from_cloud settings now c (response_end frame) h = cc
only_from_cloud settings now c (request_failed frame) h = cc

pub ended_not {ℓ} : {A : Type ℓ} {a : A} → some a ≡ none → ⊥
ended_not h = cc

text_accepted :
    (settings : Settings) (now : ℕ) (c : Connector) (t : Text)
    → (on_text settings now c t).ended ≡ none
    → (frame : RelayControlFrame) × (decode_control settings.json t ≡ ok frame)
      × ((observe_control c.session frame).1 ≡ ok tt)
      × ((on_control settings now (with_session c (observe_control c.session frame).0) frame).ended
          ≡ none)
unfolding on_text
text_accepted settings now c t h = elim (Result-cases (decode_control settings.json t)) [
  | inr (e, bad) ↦ absurd (ended_not (rw (on_text, bad) at h))
  | inl (frame, read) ↦
      let rest = rw (on_text, read) at h in
      elim (Result-cases (observe_control c.session frame).1) [
        | inr (e, refused) ↦ absurd (ended_not (rw refused at rest))
        | inl (_, taken) ↦ (frame, read, taken, rw taken at rest)
      ]
]

binary_accepted :
    (c : Connector) (bytes : Text)
    → (on_binary c bytes).ended ≡ none
    → (f : RelayBodyFrame) × (decode bytes ≡ ok f) × ((observe_body c.session f).1 ≡ ok tt)
unfolding on_binary
binary_accepted c bytes h = ground arith

still_valid :
    (id : Uuid) (response : ProxyResponse) (c : Connector)
    → contains id c.cancelled ≡ false
    → (contains id c.cancelled ≡ true)
      ⊎ (validate_response_start (response_start_of id response) ≡ ok tt)
    → validate_response_start (response_start_of id response) ≡ ok tt
still_valid id response c live (inl dropped) = absurd (ground arith)
still_valid id response c live (inr valid) = valid

refused_start :
    (s : RelaySessionState) (frame : ResponseStartFrame) (e : RelayValidationError)
    → validate_response_start frame ≡ err e
    → (e' : RelayValidationError) × (observe_control s (response_start frame) ≡ (s, err e'))
unfolding observe_control control_outcome
refused_start s frame e bad = elim (Bool-cases (is_ready s)) [
  | inl up ↦ (e, rw (up, bad) refl)
  | inr down ↦ (illegal_transition, rw down refl)
]

-- A response that the session refuses is not sent, and ends the session.
pub invalid_ends :
    (settings : Settings) (c : Connector) (id : Uuid) (response : ProxyResponse)
    (e : RelayValidationError)
    → contains id c.cancelled ≡ false
    → validate_response_start (response_start_of id response) ≡ err e
    → (on_answer settings c id (ok response)).ended ≡ some (err protocol)
unfolding on_answer send_response
invalid_ends settings c id response e live bad =
    let (e', refused) = refused_start c.session (response_start_of id response) e bad in
    let stops =
      send_control-refused protocol protocol transport settings.socket settings.json
        (response_start (response_start_of id response)) c.session c.session e' refused in
    rw (live, send_observed_control, stops) refl

sent_valid :
    (settings : Settings) (c : Connector) (id : Uuid) (response : ProxyResponse)
    → contains id c.cancelled ≡ false
    → (on_answer settings c id (ok response)).ended ≡ none
    → validate_response_start (response_start_of id response) ≡ ok tt
sent_valid settings c id response live h =
    elim (Result-cases (validate_response_start (response_start_of id response))) [
      | inl (_, valid) ↦ valid
      | inr (e, bad) ↦ absurd (ended_not (sym (invalid_ends settings c id response e live bad) ∙ h))
    ]

-- What the event of a round that has not ended the session was.
pub goes_on-Acceptable :
    (settings : Settings) (now : ℕ) (c : Connector) (event : Event)
    → (turn settings now c event).ended ≡ none
    → Acceptable settings c event
unfolding turn on_message
goes_on-Acceptable settings now c (received (text t)) h =
    let (frame, read, taken, rest) = text_accepted settings now c t h in
    (frame, read, taken, only_from_cloud settings now _ frame rest)
goes_on-Acceptable settings now c (received (binary bytes)) h = binary_accepted c bytes h
goes_on-Acceptable settings now c (received (ping_message bytes)) h = tt
goes_on-Acceptable settings now c (received (pong_message bytes)) h = tt
goes_on-Acceptable settings now c (received close) h = cc
goes_on-Acceptable settings now c (received raw_frame) h = cc
goes_on-Acceptable settings now c (answered id (ok response)) h =
    elim (Bool-cases (contains id c.cancelled)) [
      | inl dropped ↦ inl dropped
      | inr live ↦ inr (sent_valid settings c id response live h)
    ]
goes_on-Acceptable settings now c (answered id (err e)) h = tt
goes_on-Acceptable settings now c hung_up h = cc

module _ (settings : Settings) (now : ℕ) (c : Connector) (w : IsInStep c)
    (delivers : Delivers settings.socket) (writes : Writable settings.json) where
  text-Proceeds :
      (t : Text) (frame : RelayControlFrame)
      → decode_control settings.json t ≡ ok frame
      → (observe_control c.session frame).1 ≡ ok tt
      → from_cloud frame ≡ true
      → Proceeds (on_text settings now c t)
  unfolding on_text
  text-Proceeds t frame read taken from =
      rw (on_text, read, taken)
        (control-Proceeds settings now c w delivers writes frame (observe_control c.session frame).0
          from (accepted c.session frame taken))

  binary-Proceeds :
      (bytes : Text) (f : RelayBodyFrame)
      → decode bytes ≡ ok f
      → (observe_body c.session f).1 ≡ ok tt
      → Proceeds (on_binary c bytes)
  unfolding on_binary
  binary-Proceeds bytes f read taken =
      rw (on_binary, read, taken) (body-Proceeds settings now c w f taken)

  -- A round with an event that lets the session go on keeps the connector in step.
  pub turn-Proceeds :
      (event : Event)
      → Answers c event
      → Acceptable settings c event
      → Proceeds (turn settings now c event)
  unfolding turn on_message
  turn-Proceeds (received (text t)) a (frame, read, taken, from) =
      text-Proceeds t frame read taken from
  turn-Proceeds (received (binary bytes)) a (f, read, taken) = binary-Proceeds bytes f read taken
  turn-Proceeds (received (ping_message bytes)) a h =
      let sent = delivers (pong_message bytes) in rw sent (record { goes_on = refl; in_step = w })
  turn-Proceeds (received (pong_message bytes)) a h = record { goes_on = refl; in_step = w }
  turn-Proceeds (answered id (ok response)) (works, uuid, fits) h =
      elim (Bool-cases (contains id c.cancelled)) [
        | inl dropped ↦ cancelled-Proceeds settings now c w id (ok response) dropped
        | inr live ↦
            response-Proceeds settings now c w delivers writes id response uuid works live
              (still_valid id response c live h) fits
      ]
  turn-Proceeds (answered id (err e)) works h = elim (Bool-cases (contains id c.cancelled)) [
    | inl dropped ↦ cancelled-Proceeds settings now c w id (err e) dropped
    | inr live ↦ failure-Proceeds settings now c w delivers writes id e works live
  ]
  turn-Proceeds (received close) a h = elim h [ ]
  turn-Proceeds (received raw_frame) a h = elim h [ ]
  turn-Proceeds hung_up a h = elim h [ ]

-- A round goes on exactly when its event is one of these: a control frame or a body frame that
-- decodes and that the session accepts, a control frame then being one that the cloud service's
-- side sends; a ping or a pong of the socket; the failure of a request; or a response whose
-- status and headers are valid or whose request is cancelled. The connector is in step, the
-- socket takes every message, control frames have a text, and an answer is one to an active
-- request.
pub turn_goes_on_iff :
    (settings : Settings) (now : ℕ) (c : Connector) (event : Event)
    → IsInStep c
    → Delivers settings.socket
    → Writable settings.json
    → Answers c event
    → ((turn settings now c event).ended ≡ none) ↔ Acceptable settings c event
turn_goes_on_iff settings now c event w delivers writes a = (
  goes_on-Acceptable settings now c event,
  λ h. (turn-Proceeds settings now c w delivers writes event a h).goes_on,
)
