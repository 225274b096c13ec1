-- ===== src/Tunnel/Turns.antt =====
-- The state of the session loop of crates/c6-connector/src/runtime.rs, and what a round of it
-- returns.
use cresix.Base.{ℕ, List, [], Bool, Option, none, some, Result, ok, err}
use cresix.Base.Text.{Text, text_key}
use cresix.CloudCore.Relay.{Uuid}
use cresix.CloudCore.Relay.Headers.{HeaderField}
use cresix.CloudCore.Relay.Session.{RelaySessionState}
use cresix.Tunnel.{Message, ProxyRequest}
use cresix.Tunnel.Sending.{Sent}

pub data RuntimeError : Type 0 where
  authentication_rejected protocol transport configuration : RuntimeError

pub record PendingRequest : Type 0 where
  pub method : Text
  pub target : Text
  pub headers : List HeaderField
  pub body : Text
  pub deadline_unix_ms : ℕ  -- u64
  pub rejected : Bool

-- The variables of `run_session` that its loop changes.
pub record Connector : Type 0 where
  pub session : RelaySessionState
  pub pending : List (Uuid × PendingRequest)
  pub active : List Uuid
  pub cancelled : List Uuid

-- A spawned request with the milliseconds that it may take.
pub record Spawned : Type 0 where
  pub request_id : Uuid
  pub request : ProxyRequest
  pub allowance : ℕ

pub record Turn : Type 0 where
  pub connector : Connector
  pub messages : List Message
  pub spawned : List Spawned
  pub ended : Option (Result RuntimeError (Unit {0}))

abbrev pub continues : Connector → Turn
continues c = record { connector = c; messages = []; spawned = []; ended = none }

abbrev pub ends : Connector → Result RuntimeError (Unit {0}) → Turn
ends c result = record { connector = c; messages = []; spawned = []; ended = some result }

abbrev pub with_session : Connector → RelaySessionState → Connector
with_session c s = record c { session = s }

abbrev pub verdict : Result RuntimeError (Unit {0}) → Option (Result RuntimeError (Unit {0}))
verdict (ok _) = none
verdict (err e) = some (err e)

-- A sending followed by `?`.
abbrev pub sends : Connector → Sent RuntimeError → Turn
sends c sent = record {
  connector = with_session c sent.session;
  messages = sent.messages;
  spawned = [];
  ended = verdict sent.outcome;
}
