-- ===== src/Tunnel/InStep.antt =====
-- The maps and sets of the session loop of crates/c6-connector/src/runtime.rs against the flows of
-- its relay session: which rounds keep them in step.
use cresix.Base.{◌≡◌, ◌∷◌, Bool, true, false, not, ◌&&◌, Option, none, some, arith}
use cresix.Base.Text.{text_key}
use cresix.Base.Map.{
  contains, lookup, insert, remove, add, discard, lookup-insert, lookup-remove, contains-add,
  contains-discard,
}
use cresix.CloudCore.Relay.{Uuid}
use cresix.CloudCore.Relay.Session.{
  FlowState, request_body, awaiting_response, response_body, is_ready, is_request_body,
}
use cresix.Tunnel.Turns.{Connector, PendingRequest, Turn}
use cresix.Tunnel.Proxy.{is_some}

-- What a connector knows of an identifier: its flow, and whether it is pending, active,
-- cancelled, seen.
abbrev pub agrees : Option FlowState → Bool → Bool → Bool → Bool → Bool
agrees none pending true cancelled seen = not pending && (cancelled && seen)
agrees none pending false cancelled seen = not pending && not cancelled
agrees (some (request_body n b)) pending active cancelled seen =
    pending && (not active && (not cancelled && seen))
agrees (some awaiting_response) pending active cancelled seen =
    not pending && (active && (not cancelled && seen))
agrees (some (response_body n b)) pending active cancelled seen = false

abbrev pub Agrees : Connector → Uuid → Type 0
Agrees c id =
    agrees (lookup id c.session.flows) (is_some (lookup id c.pending)) (contains id c.active)
      (contains id c.cancelled) (contains id c.session.seen_request_ids)
    ≡ true

-- The request bodies that arrive are the pending requests, the requests that the local server
-- works on are the active ones, and an active one that has no flow any more is cancelled.
pub record IsInStep (c : Connector) : Type 0 where
  pub up : is_ready c.session ≡ true
  pub agreed : (id : Uuid) → Agrees c id

-- A round that goes on, with the connector in step.
pub record Proceeds (t : Turn) : Type 0 where
  pub goes_on : t.ended ≡ none
  pub in_step : IsInStep t.connector

-- The connector behind an accepted start.
pub start-Agrees :
    (c : Connector) (id : Uuid) (request : PendingRequest) (flow : FlowState) (j : Uuid)
    → contains id c.session.seen_request_ids ≡ false
    → is_request_body flow ≡ true
    → Agrees c id
    → Agrees c j
    → Agrees
        (record c {
          session = record c.session {
            seen_request_ids = id ∷ c.session.seen_request_ids;
            flows = insert id flow c.session.flows;
          };
          pending = insert id request c.pending;
        })
        j
unfolding contains
start-Agrees c id request flow j fresh body at_id at_j = ground (
  arith,
  text_key.beq_iff id j,
  lookup-insert id j flow c.session.flows,
  lookup-insert id j request c.pending,
)

module _ (c : Connector) (id : Uuid) (flow : FlowState)
    (found : lookup id c.session.flows ≡ some flow) (at_id : Agrees c id) where
  -- The connector behind an accepted body frame.
  pub body-Agrees :
      (request : PendingRequest) (flow' : FlowState) (j : Uuid)
      → is_request_body flow ≡ true
      → is_request_body flow' ≡ true
      → Agrees c j
      → Agrees
          (record c {
            session = record c.session { flows = insert id flow' c.session.flows };
            pending = insert id request c.pending;
          })
          j
  body-Agrees request flow' j body body' at_j = ground (
    arith,
    text_key.beq_iff id j,
    lookup-insert id j flow' c.session.flows,
    lookup-insert id j request c.pending,
  )

  -- The connector that spawns.
  pub spawn-Agrees :
      (j : Uuid)
      → is_request_body flow ≡ true
      → Agrees c j
      → Agrees
          (record c {
            session = record c.session { flows = insert id awaiting_response c.session.flows };
            pending = remove id c.pending;
            active = add id c.active;
          })
          j
  spawn-Agrees j body at_j = ground (
    arith,
    text_key.beq_iff id j,
    lookup-insert id j awaiting_response c.session.flows,
    lookup-remove id j c.pending,
    contains-add id j c.active,
  )

  -- The connector that drops a request whose body arrives.
  pub drop-Agrees :
      (j : Uuid)
      → is_request_body flow ≡ true
      → Agrees c j
      → Agrees
          (record c {
            session = record c.session { flows = remove id c.session.flows };
            pending = remove id c.pending;
          })
          j
  drop-Agrees j body at_j = ground (
    arith,
    text_key.beq_iff id j,
    lookup-remove id j c.session.flows,
    lookup-remove id j c.pending,
  )

  -- The connector that marks an active request as cancelled.
  pub cancel-Agrees :
      (j : Uuid)
      → lookup id c.pending ≡ none
      → Agrees c j
      → Agrees
          (record c {
            session = record c.session { flows = remove id c.session.flows };
            cancelled = add id c.cancelled;
          })
          j
  cancel-Agrees j missing at_j = ground (
    arith,
    text_key.beq_iff id j,
    lookup-remove id j c.session.flows,
    contains-add id j c.cancelled,
  )

  -- The connector that has answered.
  pub answer-Agrees :
      (j : Uuid)
      → contains id c.active ≡ true
      → Agrees c j
      → Agrees
          (record c {
            session = record c.session { flows = remove id c.session.flows };
            active = discard id c.active;
          })
          j
  answer-Agrees j works at_j = ground (
    arith,
    text_key.beq_iff id j,
    lookup-remove id j c.session.flows,
    contains-discard id j c.active,
  )

-- The connector that drops the answer of a cancelled request.
pub forget-Agrees :
    (c : Connector) (id j : Uuid)
    → contains id c.cancelled ≡ true
    → Agrees c id
    → Agrees c j
    → Agrees (record c { active = discard id c.active; cancelled = discard id c.cancelled }) j
forget-Agrees c id j dropped at_id at_j = ground (
  arith,
  text_key.beq_iff id j,
  contains-discard id j c.active,
  contains-discard id j c.cancelled,
)
