-- ===== src/Runner/Overlap.antt =====
-- Two calls of `execute` of crates/c6-runner/src/lib.rs for one run, of which the second takes the
-- lock after the first has given the run up: `execute` loads the store before the lock and not
-- again under it, and saves the record after the run has left the active runs.
use cresix.Base.{◌≡◌, List, [], ◌∷◌, ◌++◌, none, ok, refl, ap, ◌∙◌, arith, false}
use mathlib.Core.Path.{subst₂}
use cresix.Base.Text.{text_key}
use cresix.Base.Map.{lookup, insert, remove}
use cresix.Runner.Request.{ExecutionRequest, validate_request}
use cresix.Runner.Service.{
  RunRecord, RunnerService, ResultStore, finished, find_result, register, release, persist,
  build_record,
}
use cresix.Runner.Interleaving.{
  Phase, Task, Event, called, looked_up, running, saving, answered, advance, Step, Steps, task,
  call, stop, more,
}

module _ {S : Type 0} (results : ResultStore S) where
  -- The step of a task whose result is known.
  step_to :
      (s : RunnerService S) (before after : List Task) (e : ExecutionRequest) (phase : Phase)
      (event : Event) {s' : RunnerService S} {phase' : Phase}
      → advance results s e phase event ≡ (s', phase')
      → Step results s
          (before ++ record { request = e; phase = phase } ∷ after)
          s'
          (before ++ record { request = e; phase = phase' } ∷ after)
  step_to s before after e phase event {s'} {phase'} h =
      subst₂
        (λ x ph.
          Step results s (before ++ record { request = e; phase = phase } ∷ after) x
            (before ++ record { request = e; phase = ph } ∷ after))
        (ap (λ x. x.0) h) (ap (λ x. x.1) h)
        (task before after (record { request = e; phase = phase }) event)

  found_none :
      (s : RunnerService S) (e : ExecutionRequest) (event : Event)
      → validate_request e ≡ ok tt
      → results.load s.store e.run_id ≡ ok none
      → advance results s e called event ≡ (s, looked_up)
  unfolding advance find_result
  found_none s e event valid absent = ground arith

  abbrev locked : RunnerService S → ExecutionRequest → RunnerService S
  locked s e = record {
    store = s.store;
    active = (e.run_id, record { request = e; cancel = false }) ∷ [];
  }

  registers :
      (s : RunnerService S) (e : ExecutionRequest) (event : Event)
      → s.active ≡ []
      → advance results s e looked_up event ≡ (locked s e, running)
  unfolding advance register lookup insert
  registers s e event free = ground arith

  releases :
      (s : RunnerService S) (e : ExecutionRequest) (event : Event)
      → s.active ≡ []
      → advance results (locked s e) e running event
        ≡ (s, saving (build_record e event.started event.outcome event.ended))
  unfolding advance release remove
  releases s e event free = ground (arith, text_key.beq_iff e.run_id e.run_id)

  saves :
      (s : RunnerService S) (r : RunRecord) (e : ExecutionRequest) (event : Event)
      → (results.save s.store r).1 ≡ ok tt
      → advance results s e (saving r) event
        ≡ (record { store = (results.save s.store r).0; active = s.active }, answered (finished r))
  unfolding advance persist
  saves s r e event h = ground arith

  abbrev pub idle : S → RunnerService S
  idle store = record { store = store; active = [] }

  -- The record that a call makes of what its backend gave.
  abbrev pub recorded : ExecutionRequest → Event → RunRecord
  recorded e event = build_record e event.started event.outcome event.ended

  -- From the point where both calls looked their run up, each runs to its end.
  finishes :
      (store : S) (before after : List Task) (e : ExecutionRequest) (event : Event)
      {s' : RunnerService S} {ts' : List Task}
      → (results.save store (recorded e event)).1 ≡ ok tt
      → Steps results
          (idle (results.save store (recorded e event)).0)
          (before ++ record { request = e; phase = answered (finished (recorded e event)) } ∷ after)
          s'
          ts'
      → Steps results
          (idle store)
          (before ++ record { request = e; phase = looked_up } ∷ after)
          s'
          ts'
  finishes store before after e event saved rest =
      let s = idle store in
      let r = recorded e event in
      more (step_to s before after e looked_up event (registers s e event refl)) (
        more (step_to (locked s e) before after e running event (releases s e event refl))
          (more (step_to s before after e (saving r) event (saves s r e event saved)) rest))

  -- Two calls of `execute` for the same run, even with different requests, can both run it and
  -- both be answered as finished: when both look the store up before either has the lock, and
  -- the second takes the lock after the first has released it. The second record then overwrites
  -- the first. This needs two valid requests, a store without a record of the run, and two saves
  -- that succeed.
  pub executed_twice :
      (store : S) (e f : ExecutionRequest) (first second : Event)
      → validate_request e ≡ ok tt
      → validate_request f ≡ ok tt
      → f.run_id ≡ e.run_id
      → results.load store e.run_id ≡ ok none
      → (results.save store (recorded e first)).1 ≡ ok tt
      → (results.save (results.save store (recorded e first)).0 (recorded f second)).1 ≡ ok tt
      → Steps results
          (idle store)
          []
          (idle (results.save (results.save store (recorded e first)).0 (recorded f second)).0)
          (record { request = f; phase = answered (finished (recorded f second)) }
            ∷ record { request = e; phase = answered (finished (recorded e first)) }
            ∷ [])
  executed_twice store e f first second valid_e valid_f id absent saved saved' =
      let s = idle store in
      let te : Phase → Task = λ ph. record { request = e; phase = ph } in
      let tf : Phase → Task = λ ph. record { request = f; phase = ph } in
      let absent' : results.load store f.run_id ≡ ok none = ap (results.load store) id ∙ absent in
      more (call e) (
        more (call f) (
          more (step_to s (tf called ∷ []) [] e called first (found_none s e first valid_e absent))
            (more
              (step_to s [] (te looked_up ∷ []) f called second
                (found_none s f second valid_f absent'))
              (finishes store (tf looked_up ∷ []) [] e first saved (
                finishes (results.save store (recorded e first)).0 []
                  (te (answered (finished (recorded e first))) ∷ []) f second saved' stop)))))
