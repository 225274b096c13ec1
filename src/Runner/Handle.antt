-- ===== src/Runner/Handle.antt =====
-- `RunnerService::handle` of crates/c6-runner/src/lib.rs: an envelope is verified, and its command
-- dispatched.
use cresix.Base.{ℕ, ◌≡◌, Result, ok, err, arith}
use cresix.Base.Int.{ℤ}
use cresix.Base.Text.{Text}
use cresix.Runner.{Uuid, protocol_version}
use cresix.Runner.Authenticator.{
  SignedEnvelope, Authenticator, ProtocolError, Packages, verify, code,
}
use cresix.Runner.Acceptance.{Accepted, verify_iff}
use cresix.Runner.Service.{
  RunnerService, ResultStore, RunnerCommand, ResponseBody, RunOutcome, ping, execute, cancel,
  inspect, pong, rejected, inspect_run, cancel_run, execute_run,
}

pub record RunnerResponse : Type 0 where
  pub version : ℕ  -- u8
  pub request_id : Uuid
  pub body : ResponseBody

module _ {S : Type 0} (results : ResultStore S) (p : Packages)
    (from_slice : Text → Result Text RunnerCommand) where
  -- The `match` on the command. The outcome and the two times are what an execution gets from
  -- the backend and the clock, if it comes to that.
  unfoldable pub dispatch :
      RunnerService S → RunnerCommand → RunOutcome → ℤ → ℤ → RunnerService S × ResponseBody
  dispatch s ping outcome started ended = (s, pong)
  dispatch s (inspect run_id) outcome started ended = (s, inspect_run results s run_id)
  dispatch s (cancel run_id) outcome started ended = cancel_run results s run_id
  dispatch s (execute execution) outcome started ended =
      execute_run results s execution outcome started ended

  abbrev pub respond : Uuid → ResponseBody → RunnerResponse
  respond request_id body = record {
    version = protocol_version;
    request_id = request_id;
    body = body;
  }

  unfoldable pub handle :
      Authenticator
      → RunnerService S
      → SignedEnvelope
      → ℤ
      → RunOutcome
      → ℤ
      → ℤ
      → Authenticator × (RunnerService S × RunnerResponse)
  handle a s e now outcome started ended =
      let verified = verify p from_slice a e now in
      elim verified.1 [
        | err error ↦ (verified.0, (s, respond e.request_id (rejected (code error))))
        | ok command ↦
            let (s', body) = dispatch s command outcome started ended in
            (verified.0, (s', respond e.request_id body))
      ]

  pub handle-accepted :
      (a : Authenticator) (s : RunnerService S) (e : SignedEnvelope) (now : ℤ)
      (command : RunnerCommand) (outcome : RunOutcome) (started ended : ℤ)
      → Accepted p from_slice a e now command
      → (handle a s e now outcome started ended).1 ≡ (
        (dispatch s command outcome started ended).0,
        respond e.request_id (dispatch s command outcome started ended).1,
      )
  unfolding handle
  handle-accepted a s e now command outcome started ended accepted =
      let verified = (verify_iff p from_slice a e now command).1 accepted in ground arith

  pub handle-refused :
      (a : Authenticator) (s : RunnerService S) (e : SignedEnvelope) (now : ℤ)
      (error : ProtocolError) (outcome : RunOutcome) (started ended : ℤ)
      → (verify p from_slice a e now).1 ≡ err error
      → (handle a s e now outcome started ended).1
        ≡ (s, respond e.request_id (rejected (code error)))
  unfolding handle
  handle-refused a s e now error outcome started ended refused = ground arith
