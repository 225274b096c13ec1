-- ===== src/Runner/Interleaving.antt =====
-- Concurrent calls of `execute` and `cancel` of crates/c6-runner/src/lib.rs: each call runs in
-- steps, from one `await` to the next, and the steps of different calls interleave.
use cresix.Base.{
  ℕ, ◌+◌, ◌≤◌, ◌≡◌, List, [], ◌∷◌, ◌++◌, true, false, Option, none, some, if◌then◌else◌, refl, sym,
  ◌∙◌, arith, beq, Option-cases, inl, inr,
}
use cresix.Base.Int.{ℤ}
use cresix.Base.Text.{text_key}
use cresix.Base.Map.{lookup, lookup-insert, lookup-remove}
use cresix.Runner.{Uuid}
use cresix.Runner.Request.{ExecutionRequest}
use cresix.Runner.Service.{
  RunOutcome, RunRecord, RunnerService, ResultStore, ResponseBody, find_result, register, release,
  persist, build_record, cancel_run,
}

-- How far a call of `execute` is.
pub data Phase : Type 0 where
  called looked_up running : Phase
  saving : RunRecord → Phase
  answered : ResponseBody → Phase

pub record Task : Type 0 where
  pub request : ExecutionRequest
  pub phase : Phase

-- What the backend and the clock give.
pub record Event : Type 0 where
  pub outcome : RunOutcome
  pub started : ℤ
  pub ended : ℤ

abbrev or_answer : Phase → Option ResponseBody → Phase
or_answer next none = next
or_answer next (some answer) = answered answer

module _ {S : Type 0} (results : ResultStore S) where
  -- One step of a call. The end of the `select!` and the lock that follows it are one step.
  unfoldable pub advance :
      RunnerService S → ExecutionRequest → Phase → Event → RunnerService S × Phase
  advance s e called event = (s, or_answer looked_up (find_result results s e))
  advance s e looked_up event =
      let registered = register results s e in (registered.0, or_answer running registered.1)
  advance s e running event =
      (release results s e.run_id, saving (build_record e event.started event.outcome event.ended))
  advance s e (saving r) event = let saved = persist results s r in (saved.0, answered saved.1)
  advance s e (answered answer) event = (s, answered answer)

  -- A step of one of the calls, a cancellation, or a new call.
  pub data Step : RunnerService S → List Task → RunnerService S → List Task → Type 0 where
    task :
        {s : RunnerService S} (before after : List Task) (t : Task) (event : Event)
        → Step s (before ++ t ∷ after) (advance s t.request t.phase event).0 (
            before
            ++ record { request = t.request; phase = (advance s t.request t.phase event).1 }
              ∷ after)
    cancels :
        {s : RunnerService S} {ts : List Task} (run_id : Uuid)
        → Step s ts (cancel_run results s run_id).0 ts
    call :
        {s : RunnerService S} {ts : List Task} (e : ExecutionRequest)
        → Step s ts s (record { request = e; phase = called } ∷ ts)

  pub data Steps : RunnerService S → List Task → RunnerService S → List Task → Type 0 where
    stop : {s : RunnerService S} {ts : List Task} → Steps s ts s ts
    more :
        {s s' s'' : RunnerService S} {ts ts' ts'' : List Task}
        → Step s ts s' ts'
        → Steps s' ts' s'' ts''
        → Steps s ts s'' ts''

-- Whether a task runs the backend for a run.
abbrev runs : Uuid → ExecutionRequest → Phase → ℕ
runs k e running = if beq e.run_id k then 1 else 0
runs k e _ = 0

abbrev pub running_tasks : Uuid → List Task → ℕ
running_tasks k [] = 0
running_tasks k (t ∷ ts) = runs k t.request t.phase + running_tasks k ts

abbrev pub is_active : {S : Type 0} → Uuid → RunnerService S → ℕ
is_active k s = elim (lookup k s.active) [ none ↦ 0 | some _ ↦ 1 ]

running_tasks-append :
    (k : Uuid) (xs ys : List Task)
    → running_tasks k (xs ++ ys) ≡ running_tasks k xs + running_tasks k ys
running_tasks-append k [] ys = omega arith
running_tasks-append k (x ∷ xs) ys = omega (arith, running_tasks-append k xs ys)

module _ {S : Type 0} (results : ResultStore S) where
  register-active :
      (s : RunnerService S) (e : ExecutionRequest) (k : Uuid)
      → is_active k s + runs k e (or_answer running (register results s e).1)
        ≡ is_active k (register results s e).0
  unfolding register
  register-active s e k = elim (Option-cases (lookup e.run_id s.active)) [
    | inl free ↦ ground (
      arith,
      lookup-insert e.run_id k (record { request = e; cancel = false }) s.active,
      text_key.beq_iff e.run_id k,
    )
    | inr (run, busy) ↦ ground arith
  ]

  release-active :
      (s : RunnerService S) (e : ExecutionRequest) (k : Uuid)
      → is_active k (release results s e.run_id) ≡ (if beq e.run_id k then 0 else is_active k s)
  unfolding release
  release-active s e k = ground (arith, lookup-remove e.run_id k s.active)

  cancel-active :
      (s : RunnerService S) (run_id k : Uuid)
      → is_active k (cancel_run results s run_id).0 ≡ is_active k s
  unfolding cancel_run
  cancel-active s run_id k = elim (Option-cases (lookup run_id s.active)) [
    | inl none' ↦ ground arith
    | inr (run, found) ↦ ground (
      arith,
      lookup-insert run_id k (record { request = run.request; cancel = true }) s.active,
      text_key.beq_iff run_id k,
    )
  ]

  persist-active :
      (s : RunnerService S) (r : RunRecord) (k : Uuid)
      → is_active k (persist results s r).0 ≡ is_active k s
  unfolding persist
  persist-active s r k = refl

  is_active-le : (s : RunnerService S) (k : Uuid) → is_active k s ≤ 1
  is_active-le s k = ground arith

  or_answer-runs :
      (k : Uuid) (e : ExecutionRequest) (o : Option ResponseBody)
      → runs k e (or_answer looked_up o) ≡ 0
  or_answer-runs k e none = refl
  or_answer-runs k e (some a) = refl

  -- A step keeps the balance of running tasks and active runs.
  advance_balance :
      (s : RunnerService S) (e : ExecutionRequest) (phase : Phase) (event : Event) (k : Uuid)
      (rest : ℕ)
      → rest + runs k e phase ≡ is_active k s
      → rest + runs k e (advance results s e phase event).1
        ≡ is_active k (advance results s e phase event).0
  unfolding advance
  advance_balance s e called event k rest h =
      omega (arith, or_answer-runs k e (find_result results s e))
  advance_balance s e looked_up event k rest h = omega (arith, register-active s e k)
  advance_balance s e running event k rest h =
      ground (arith, release-active s e k, is_active-le s k)
  advance_balance s e (saving r) event k rest h = ground (arith, persist-active s r k)
  advance_balance s e (answered a) event k rest h = h

  abbrev Balanced : RunnerService S → List Task → Type 0
  Balanced s ts = (k : Uuid) → running_tasks k ts ≡ is_active k s

  step-Balanced :
      {s s' : RunnerService S} {ts ts' : List Task}
      → Step results s ts s' ts'
      → Balanced s ts
      → Balanced s' ts'
  step-Balanced {s} (task before after t event) h k =
      let t' : Task = record {
        request = t.request;
        phase = (advance results s t.request t.phase event).1;
      } in
      let balance =
        advance_balance s t.request t.phase event k
          (running_tasks k before + running_tasks k after) in
      omega (
        arith,
        h k,
        running_tasks-append k before (t ∷ after),
        running_tasks-append k before (t' ∷ after),
        balance,
      )
  step-Balanced {s} (cancels run_id) h k = h k ∙ sym (cancel-active s run_id k)
  step-Balanced (call e) h k = omega (arith, h k)

  steps-Balanced :
      {s s' : RunnerService S} {ts ts' : List Task}
      → Steps results s ts s' ts'
      → Balanced s ts
      → Balanced s' ts'
  steps-Balanced stop h = h
  steps-Balanced (more first rest) h = steps-Balanced rest (step-Balanced first h)

  -- However the steps of the calls interleave, from a service with no active run and no call the
  -- backend runs at most once at a time for each run identifier, and it runs exactly when the
  -- run is listed as active.
  pub running_once :
      {s s' : RunnerService S} {ts : List Task} (k : Uuid)
      → s.active ≡ []
      → Steps results s [] s' ts
      → (running_tasks k ts ≤ 1) × (running_tasks k ts ≡ is_active k s')
  unfolding lookup
  running_once {s} {s'} k start steps =
      let balanced = steps-Balanced steps (λ j. rw start refl) in
      (omega (arith, balanced k, is_active-le s' k), balanced k)
