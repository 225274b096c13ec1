-- ===== src/Runner/Service.antt =====
-- `RunnerService` of crates/c6-runner/src/lib.rs: the runs that are active, and the records of
-- runs that ended, in a store. Each function between two `await`s is one step on the state; the
-- store, the backend and the clock are what the service is given.
use cresix.Base.{
  List, [], Bool, true, false, Option, none, some, Result, ok, err, if◌then◌else◌, nat_discrete,
}
use cresix.Base.Int.{ℤ, is_zero}
use cresix.Base.Text.{Text, text_key}
use cresix.Base.Map.{lookup, insert, remove}
use cresix.Runner.{Uuid}
use cresix.Runner.Request.{ExecutionRequest, validate_request}
use cresix.Runner.Logs.{CapturedLog, capture_log}
use cresix.Runner.Authenticator.{
  ErrorCode, invalid_execution, idempotency_conflict, not_found, persistence_failed,
}

-- `ExecutionRequest: PartialEq`
pub request_eq : Discrete ExecutionRequest
request_eq = hlevel (nat_discrete)

pub data RunStatus : Type 0 where
  succeeded failed cancelled timed_out interrupted : RunStatus

pub record RunRecord : Type 0 where
  pub request : ExecutionRequest
  pub status : RunStatus
  pub exit_code : Option ℤ
  pub stdout : CapturedLog
  pub stderr : CapturedLog
  pub started_at_ms : ℤ
  pub finished_at_ms : ℤ

-- The message of a refusal is left out, since no caller reads it.
pub data ResponseBody : Type 0 where
  pong : ResponseBody
  finished : RunRecord → ResponseBody
  status : Option RunRecord → ResponseBody
  cancel_acknowledged : Bool → ResponseBody
  rejected : ErrorCode → ResponseBody

pub data RunnerCommand : Type 0 where
  ping : RunnerCommand
  execute : ExecutionRequest → RunnerCommand
  cancel inspect : Uuid → RunnerCommand

pub record BackendOutput : Type 0 where
  pub exit_code : ℤ
  pub stdout : Text
  pub stderr : Text

pub data RunOutcome : Type 0 where
  exited : BackendOutput → RunOutcome
  backend_failed : Text → RunOutcome
  was_cancelled out_of_time : RunOutcome

abbrev outcome_status : RunOutcome → RunStatus
outcome_status (exited output) = if is_zero output.exit_code then succeeded else failed
outcome_status (backend_failed _) = interrupted
outcome_status was_cancelled = cancelled
outcome_status out_of_time = timed_out

abbrev outcome_code : RunOutcome → Option ℤ
outcome_code (exited output) = some output.exit_code
outcome_code _ = none

abbrev outcome_stdout : RunOutcome → Text
outcome_stdout (exited output) = output.stdout
outcome_stdout _ = []

abbrev outcome_stderr : RunOutcome → Text
outcome_stderr (exited output) = output.stderr
outcome_stderr (backend_failed message) = message
outcome_stderr _ = []

-- `build_record`, with the time at which it ends
unfoldable pub build_record : ExecutionRequest → ℤ → RunOutcome → ℤ → RunRecord
build_record request started_at_ms outcome finished_at_ms = record {
  request = request;
  status = outcome_status outcome;
  exit_code = outcome_code outcome;
  stdout = capture_log (outcome_stdout outcome) request.resources.log_bytes;
  stderr = capture_log (outcome_stderr outcome) request.resources.log_bytes;
  started_at_ms = started_at_ms;
  finished_at_ms = finished_at_ms;
}

pub record ActiveRun : Type 0 where
  pub request : ExecutionRequest
  -- What the watch channel holds. The outcome of an execution is given, so that each choice of
  -- its `select!` is among those that the theorems range over.
  pub cancel : Bool

-- `ResultStore`, as operations on a state of its own.
pub record ResultStore (S : Type 0) : Type 0 where
  pub load : S → Uuid → Result Text (Option RunRecord)
  pub save : S → RunRecord → S × Result Text (Unit {0})

pub record RunnerService (S : Type 0) : Type 0 where
  pub store : S
  pub active : List (Uuid × ActiveRun)

module _ {S : Type 0} (results : ResultStore S) where
  unfoldable pub inspect_run : RunnerService S → Uuid → ResponseBody
  inspect_run s run_id = elim (results.load s.store run_id) [
    | ok record' ↦ status record'
    | err _ ↦ rejected persistence_failed
  ]

  -- `RunnerService::cancel`
  unfoldable pub cancel_run : RunnerService S → Uuid → RunnerService S × ResponseBody
  cancel_run s run_id = elim (lookup run_id s.active) [
    | some run ↦ (
      record {
        store = s.store;
        active = insert run_id (record { request = run.request; cancel = true }) s.active;
      },
      cancel_acknowledged false,
    )
    | none ↦ (
      s,
      elim (results.load s.store run_id) [
        | ok (some _) ↦ cancel_acknowledged true
        | ok none ↦ rejected not_found
        | err _ ↦ rejected persistence_failed
      ],
    )
  ]

  -- `execute` up to the lock: the answer, if there is one already.
  unfoldable pub find_result : RunnerService S → ExecutionRequest → Option ResponseBody
  find_result s execution = elim (validate_request execution) [
    | err _ ↦ some (rejected invalid_execution)
    | ok _ ↦ elim (results.load s.store execution.run_id) [
      | ok (some record') ↦ elim (request_eq record'.request execution) [
        | yes _ ↦ some (finished record')
        | no _ ↦ some (rejected idempotency_conflict)
      ]
      | err _ ↦ some (rejected persistence_failed)
      | ok none ↦ none
    ]
  ]

  -- The block under the lock.
  unfoldable pub register :
      RunnerService S → ExecutionRequest → RunnerService S × Option ResponseBody
  register s execution = elim (lookup execution.run_id s.active) [
    | some _ ↦ (s, some (rejected idempotency_conflict))
    | none ↦ (
      record {
        store = s.store;
        active = insert execution.run_id (record { request = execution; cancel = false }) s.active;
      },
      none,
    )
  ]

  -- After the `select!`: the run is no longer active.
  unfoldable pub release : RunnerService S → Uuid → RunnerService S
  release s run_id = record { store = s.store; active = remove run_id s.active }

  -- The end of `execute`: the record is saved, and returned.
  unfoldable pub persist : RunnerService S → RunRecord → RunnerService S × ResponseBody
  persist s record' =
      let saved = results.save s.store record' in
      (
        record { store = saved.0; active = s.active },
        elim saved.1 [ ok _ ↦ finished record' | err _ ↦ rejected persistence_failed ],
      )

  -- `RunnerService::execute` where no other call lies between its steps. The backend and the
  -- clock give the outcome and the two times.
  unfoldable pub execute_run :
      RunnerService S → ExecutionRequest → RunOutcome → ℤ → ℤ → RunnerService S × ResponseBody
  execute_run s execution outcome started ended = elim (find_result s execution) [
    | some answer ↦ (s, answer)
    | none ↦ elim ((register s execution).1) [
      | some answer ↦ (s, answer)
      | none ↦
          persist (release (register s execution).0 execution.run_id)
            (build_record execution started outcome ended)
    ]
  ]
