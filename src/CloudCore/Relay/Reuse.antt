-- ===== src/CloudCore/Relay/Reuse.antt =====
-- Requests of one relay session (crates/c6-cloud-core/src/relay.rs) do not interfere, and their
-- identifiers are used once.
use cresix.Base.{
  List, [], ◌∷◌, ◌≡◌, true, false, Option, none, is_ok, arith, Bool-cases, inl, inr, ok,
}
use cresix.Base.Map.{
  contains, contains_self, contains-cons, lookup, lookup-insert, lookup-remove-none,
}
use cresix.Base.Text.{text_key}
use cresix.CloudCore.Relay.{Uuid}
use cresix.CloudCore.Relay.Frames.{RequestStartFrame, request_start}
use cresix.CloudCore.Relay.Session.{
  request_body, RelaySessionState, control_outcome, observe_control, Frame, control, observe, run,
}
use cresix.CloudCore.Relay.Facts.{start_facts}
use cresix.CloudCore.Relay.Transitions.{Step, keep, start, move, close, observe-Step}

-- An identifier that is recorded stays so.
Step-recorded :
    {s t : RelaySessionState} {who : Option Uuid} (id : Uuid)
    → Step s who t
    → contains id s.seen_request_ids ≡ true
    → contains id t.seen_request_ids ≡ true
Step-recorded id (keep f q) h = rw q h
Step-recorded {s} id (start i w fresh f q) h = rw q (contains-cons id i s.seen_request_ids h)
Step-recorded id (move i old new w found st f q) h = rw q h
Step-recorded id (close i old w found f q) h = rw q h

-- A recorded request without a flow has ended, and no step revives it.
Step-ended :
    {s t : RelaySessionState} {who : Option Uuid} (id : Uuid)
    → Step s who t
    → contains id s.seen_request_ids ≡ true
    → lookup id s.flows ≡ none
    → lookup id t.flows ≡ none
Step-ended id (keep f q) h gone = rw f gone
Step-ended {s} id (start i w fresh f q) h gone = elim (Bool-cases (text_key.beq i id)) [
  | inl same ↦ cc ((text_key.beq_iff i id).0 same)
  | inr other ↦ rw f (ground (arith, lookup-insert i id (request_body 0 0) s.flows))
]
Step-ended {s} id (move i old new w found st f q) h gone = elim (Bool-cases (text_key.beq i id)) [
  | inl same ↦ cc ((text_key.beq_iff i id).0 same)
  | inr other ↦ rw f (ground (arith, lookup-insert i id new s.flows))
]
Step-ended {s} id (close i old w found f q) h gone = rw f (lookup-remove-none i id s.flows gone)

run-recorded :
    (s : RelaySessionState) (frames : List Frame) (id : Uuid)
    → contains id s.seen_request_ids ≡ true
    → contains id (run s frames).seen_request_ids ≡ true
unfolding run
run-recorded s [] id h = h
run-recorded s (x ∷ xs) id h =
    run-recorded (observe s x).0 xs id (Step-recorded id (observe-Step s x) h)

-- A request that has ended in a session stays ended, whatever frames follow: its identifier
-- never has a flow again.
pub run-ended :
    (s : RelaySessionState) (frames : List Frame) (id : Uuid)
    → contains id s.seen_request_ids ≡ true
    → lookup id s.flows ≡ none
    → lookup id (run s frames).flows ≡ none
unfolding run
run-ended s [] id h gone = gone
run-ended s (x ∷ xs) id h gone =
    run-ended (observe s x).0 xs id (Step-recorded id (observe-Step s x) h)
      (Step-ended id (observe-Step s x) h gone)

-- What an accepted control frame leaves.
accepted :
    (s : RelaySessionState) (frame : RequestStartFrame)
    → (observe s (control (request_start frame))).1 ≡ ok tt
    → control_outcome s (request_start frame) ≡ ok (observe s (control (request_start frame))).0
unfolding observe observe_control
accepted s frame h = ground arith

refused :
    (t : RelaySessionState) (frame : RequestStartFrame)
    → contains frame.request_id t.seen_request_ids ≡ true
    → ((observe t (control (request_start frame))).0 ≡ t)
      × (is_ok (observe t (control (request_start frame))).1 ≡ false)
unfolding observe observe_control control_outcome
refused t frame h = ground arith

-- Once a session has accepted a request, it refuses every later request of that identifier,
-- whatever frames came between, and the refusal leaves the session as it was.
pub start_once :
    (s : RelaySessionState) (first again : RequestStartFrame) (frames : List Frame)
    → (observe s (control (request_start first))).1 ≡ ok tt
    → again.request_id ≡ first.request_id
    → let t = run (observe s (control (request_start first))).0 frames in
      ((observe t (control (request_start again))).0 ≡ t)
      × (is_ok (observe t (control (request_start again))).1 ≡ false)
start_once s first again frames h same =
    let s' = (observe s (control (request_start first))).0 in
    let t = run s' frames in
    let (_, _, _, _, left) = start_facts s first (accepted s first h) in
    let now : contains first.request_id s'.seen_request_ids ≡ true =
      rw left (contains_self first.request_id s.seen_request_ids) in
    let later = run-recorded s' frames first.request_id now in refused t again (rw same later)
