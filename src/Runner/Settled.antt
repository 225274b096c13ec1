-- ===== src/Runner/Settled.antt =====
-- What `RunnerService` of crates/c6-runner/src/lib.rs does to a run that is new, and to one that is
-- stored and no longer active.
use cresix.Base.{◌≡◌, true, false, none, some, Result, ok, refl, ap, ◌∙◌, arith}
use cresix.Base.Int.{ℤ}
use cresix.Base.Text.{Text, text_key}
use cresix.Base.Map.{lookup, remove-insert, remove-absent}
use cresix.Runner.Request.{ExecutionRequest, validate_request}
use cresix.Runner.Authenticator.{Packages, idempotency_conflict}
use cresix.Runner.Service.{
  RunnerService, ResultStore, RunnerCommand, ResponseBody, RunOutcome, RunRecord, ping, execute,
  cancel, inspect, pong, finished, status, cancel_acknowledged, rejected, inspect_run, cancel_run,
  execute_run, find_result, register, release, persist, build_record, request_eq,
}
use cresix.Runner.Idempotence.{find_none, find_same, find_other, execute-answered, execute-persist}
use cresix.Runner.Handle.{dispatch}

-- What a client is told that asks for the run again, with the same request or another.
abbrev pub repeated : {A : Type 0} → RunRecord → Dec A → ResponseBody
repeated r (yes _) = finished r
repeated r (no _) = rejected idempotency_conflict

-- What a client is told about a run once it is settled.
abbrev pub settled_answer : RunRecord → RunnerCommand → ResponseBody
settled_answer r ping = pong
settled_answer r (inspect run_id) = status (some r)
settled_answer r (cancel run_id) = cancel_acknowledged true
settled_answer r (execute execution) = repeated r (request_eq r.request execution)

-- The command is about the run of this request, and an execution that it asks for is valid.
abbrev pub Concerns : ExecutionRequest → RunnerCommand → Type 0
Concerns request ping = Unit
Concerns request (inspect run_id) = run_id ≡ request.run_id
Concerns request (cancel run_id) = run_id ≡ request.run_id
Concerns request (execute execution) =
    (validate_request execution ≡ ok tt) × (execution.run_id ≡ request.run_id)

module _ {S : Type 0} (results : ResultStore S) where
  -- An execution of a run that is neither stored nor active.
  register_free :
      (s : RunnerService S) (request : ExecutionRequest)
      → lookup request.run_id s.active ≡ none
      → ((register results s request).1 ≡ none)
        × ((release results (register results s request).0 request.run_id).store ≡ s.store)
        × ((release results (register results s request).0 request.run_id).active ≡ s.active)
  unfolding register release
  register_free s request free = (
    ground arith,
    ground arith,
    rw (register, free)
        (remove-insert request.run_id (record { request = request; cancel = false }) s.active
          ∙ remove-absent request.run_id s.active free),
  )

  persist_saved :
      (s : RunnerService S) (r : RunRecord)
      → (results.save s.store r).1 ≡ ok tt
      → persist results s r
        ≡ (record { store = (results.save s.store r).0; active = s.active }, finished r)
  unfolding persist
  persist_saved s r saved = rw saved refl

  pub execute_fresh :
      (s : RunnerService S) (request : ExecutionRequest) (outcome : RunOutcome) (started ended : ℤ)
      → validate_request request ≡ ok tt
      → results.load s.store request.run_id ≡ ok none
      → lookup request.run_id s.active ≡ none
      → (results.save s.store (build_record request started outcome ended)).1 ≡ ok tt
      → execute_run results s request outcome started ended ≡ (
        record {
          store = (results.save s.store (build_record request started outcome ended)).0;
          active = s.active;
        },
        finished (build_record request started outcome ended),
      )
  execute_fresh s request outcome started ended valid absent free saved =
      let r = build_record request started outcome ended in
      let (open_slot, same_store, same_active) = register_free s request free in
      let s' = release results (register results s request).0 request.run_id in
      let same : s' ≡ s = λ i. record { store = same_store i; active = same_active i } in
      execute-persist results s request outcome started ended
        ((find_none results s request).1 (valid, absent)) open_slot
      ∙ ap (λ t. persist results t r) same
      ∙ persist_saved s r saved

  -- A run that is stored and not active is settled.
  inspected :
      (s : RunnerService S) (r : RunRecord) (run_id : Text)
      → results.load s.store run_id ≡ ok (some r)
      → inspect_run results s run_id ≡ status (some r)
  unfolding inspect_run
  inspected s r run_id loaded = rw (inspect_run, loaded) refl

  terminal :
      (s : RunnerService S) (r : RunRecord) (run_id : Text)
      → results.load s.store run_id ≡ ok (some r)
      → lookup run_id s.active ≡ none
      → cancel_run results s run_id ≡ (s, cancel_acknowledged true)
  unfolding cancel_run
  terminal s r run_id loaded free = rw (cancel_run, free, loaded) refl

  settled_find :
      (s : RunnerService S) (r : RunRecord) (execution : ExecutionRequest)
      → validate_request execution ≡ ok tt
      → results.load s.store execution.run_id ≡ ok (some r)
      → find_result results s execution ≡ some (settled_answer r (execute execution))
  settled_find s r execution valid loaded =
      elim (request_eq r.request execution)
        as (λ d. find_result results s execution ≡ some (repeated r d)) [
          | yes same ↦ find_same results s execution r valid loaded same
          | no differs ↦ find_other results s execution r valid loaded differs
        ]

  module _ (p : Packages) (from_slice : Text → Result Text RunnerCommand) where
    pub dispatch-settled :
        (s : RunnerService S) (r : RunRecord) (request : ExecutionRequest) (command : RunnerCommand)
        (outcome : RunOutcome) (started ended : ℤ)
        → results.load s.store request.run_id ≡ ok (some r)
        → lookup request.run_id s.active ≡ none
        → Concerns request command
        → dispatch results p from_slice s command outcome started ended
          ≡ (s, settled_answer r command)
    unfolding dispatch
    dispatch-settled s r request ping outcome started ended loaded free about = refl
    dispatch-settled s r request (inspect run_id) outcome started ended loaded free about =
        ap (λ body. (s, body)) (inspected s r run_id (ap (results.load s.store) about ∙ loaded))
    dispatch-settled s r request (cancel run_id) outcome started ended loaded free about =
        terminal s r run_id (ap (results.load s.store) about ∙ loaded)
          (ap (λ k. lookup k s.active) about ∙ free)
    dispatch-settled s r request (execute execution) outcome started ended loaded free
          (valid, about) =
        execute-answered results s execution outcome started ended
          (settled_find s r execution valid (ap (results.load s.store) about ∙ loaded))
