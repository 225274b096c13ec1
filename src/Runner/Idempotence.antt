-- ===== src/Runner/Idempotence.antt =====
-- `RunnerService::execute` of crates/c6-runner/src/lib.rs, asked again for a run that has ended.
use cresix.Base.{
  ◌≡◌, ◌≢◌, ◌↔◌, none, some, ok, refl, arith, sym, ap, ◌∙◌, Option-cases, Result-cases, inl, inr,
}
use cresix.Base.Int.{ℤ}
use cresix.Base.Text.{text_key}
use cresix.Base.Map.{lookup}
use cresix.Runner.Request.{ExecutionRequest, validate_request}
use cresix.Runner.Authenticator.{idempotency_conflict}
use cresix.Runner.Service.{
  RunOutcome, RunRecord, RunnerService, ResultStore, ResponseBody, finished, rejected, find_result,
  register, release, persist, execute_run, build_record,
}

-- What a client relies on: a record that was saved is loaded under its run.
abbrev pub Keeps : {S : Type 0} → ResultStore S → Type 0
Keeps {S} results =
    (s : S) (r : RunRecord)
    → (results.save s r).1 ≡ ok tt
    → results.load (results.save s r).0 r.request.run_id ≡ ok (some r)

module _ {S : Type 0} (results : ResultStore S) where
  pub find_same :
      (s : RunnerService S) (e : ExecutionRequest) (r : RunRecord)
      → validate_request e ≡ ok tt
      → results.load s.store e.run_id ≡ ok (some r)
      → r.request ≡ e
      → find_result results s e ≡ some (finished r)
  unfolding find_result
  find_same s e r valid loaded same = ground arith

  pub find_other :
      (s : RunnerService S) (e : ExecutionRequest) (r : RunRecord)
      → validate_request e ≡ ok tt
      → results.load s.store e.run_id ≡ ok (some r)
      → r.request ≢ e
      → find_result results s e ≡ some (rejected idempotency_conflict)
  unfolding find_result
  find_other s e r valid loaded differs = ground arith

  pub find_none :
      (s : RunnerService S) (e : ExecutionRequest)
      → (find_result results s e ≡ none)
        ↔ ((validate_request e ≡ ok tt) × (results.load s.store e.run_id ≡ ok none))
  unfolding find_result
  find_none s e = ground arith

  find-finished :
      (s : RunnerService S) (e : ExecutionRequest) (r : RunRecord)
      → find_result results s e ≡ some (finished r)
      → (validate_request e ≡ ok tt)
        × (results.load s.store e.run_id ≡ ok (some r))
        × (r.request ≡ e)
  unfolding find_result
  find-finished s e r h = ground arith

  persist-finished :
      (s : RunnerService S) (e : ExecutionRequest) (r r' : RunRecord)
      → Keeps results
      → r'.request ≡ e
      → (persist results s r').1 ≡ finished r
      → (r.request ≡ e) × (results.load (persist results s r').0.store e.run_id ≡ ok (some r))
  unfolding persist
  persist-finished s e r r' keeps same done = elim (Result-cases (results.save s.store r').1) [
    | inl (_, saved) ↦
        let eq : r' ≡ r = ground arith in
        let there = keeps s.store r' saved in
        let id : r'.request.run_id ≡ e.run_id = ap (λ q. q.run_id) same in
        (
          ap (λ x. x.request) (sym eq) ∙ same,
          ap (λ k. results.load (results.save s.store r').0 k) (sym id)
              ∙ there
              ∙ ap (λ x. ok (some x)) eq,
        )
    | inr (m, failed) ↦ ground arith
  ]

  -- The three ways through an execution.
  pub execute-answered :
      (s : RunnerService S) (e : ExecutionRequest) (outcome : RunOutcome) (started ended : ℤ)
      {answer : ResponseBody}
      → find_result results s e ≡ some answer
      → execute_run results s e outcome started ended ≡ (s, answer)
  unfolding execute_run
  execute-answered s e outcome started ended h = ground arith

  execute-busy :
      (s : RunnerService S) (e : ExecutionRequest) (outcome : RunOutcome) (started ended : ℤ)
      {answer : ResponseBody}
      → find_result results s e ≡ none
      → (register results s e).1 ≡ some answer
      → execute_run results s e outcome started ended ≡ (s, answer)
  unfolding execute_run
  execute-busy s e outcome started ended h g = ground arith

  pub execute-persist :
      (s : RunnerService S) (e : ExecutionRequest) (outcome : RunOutcome) (started ended : ℤ)
      → find_result results s e ≡ none
      → (register results s e).1 ≡ none
      → execute_run results s e outcome started ended
        ≡ persist results
            (release results (register results s e).0 e.run_id)
            (build_record e started outcome ended)
  unfolding execute_run
  execute-persist s e outcome started ended h g = ground arith

  register-none :
      (s : RunnerService S) (e : ExecutionRequest) (r : RunRecord) {answer : ResponseBody}
      → (register results s e).1 ≡ some answer
      → answer ≢ finished r
  unfolding register
  register-none s e r h g = elim (Option-cases (lookup e.run_id s.active)) [
    | inl free ↦ ground arith
    | inr (run, busy) ↦ ground arith
  ]

  pub build_record-request :
      (e : ExecutionRequest) (started : ℤ) (outcome : RunOutcome) (ended : ℤ)
      → (build_record e started outcome ended).request ≡ e
  unfolding build_record
  build_record-request e started outcome ended = refl

  -- What a finished execution leaves behind.
  execute-finished :
      (s : RunnerService S) (e : ExecutionRequest) (outcome : RunOutcome) (started ended : ℤ)
      (r : RunRecord)
      → Keeps results
      → (execute_run results s e outcome started ended).1 ≡ finished r
      → (validate_request e ≡ ok tt)
        × (r.request ≡ e)
        × (results.load (execute_run results s e outcome started ended).0.store e.run_id
            ≡ ok (some r))
  execute-finished s e outcome started ended r keeps done =
      elim (Option-cases (find_result results s e)) [
        | inr (answer, early) ↦
            let same = execute-answered s e outcome started ended early in
            let (valid, loaded, req) = find-finished s e r (ground arith) in
            (valid, req, rw same loaded)
        | inl late ↦
            let (valid, _) = (find_none s e).0 late in
            elim (Option-cases (register results s e).1) [
              | inr (answer, busy) ↦
                  let same = execute-busy s e outcome started ended late busy in
                  absurd (register-none s e r busy (ground arith))
              | inl free ↦
                  let same = execute-persist s e outcome started ended late free in
                  let s' = release results (register results s e).0 e.run_id in
                  let r' = build_record e started outcome ended in
                  let (req, loaded) =
                    persist-finished s' e r r' keeps (build_record-request e started outcome ended)
                      (sym (ap (λ x. x.1) same) ∙ done) in
                  (valid, req, rw same loaded)
            ]
      ]

  -- Once an execution is finished, the same request is answered with the same record, whatever a
  -- run would now give, and a different valid request under its run identifier is refused as a
  -- conflict; neither changes the state. This needs a store that loads what it saved.
  pub execute_again :
      (s : RunnerService S) (e : ExecutionRequest) (outcome : RunOutcome) (started ended : ℤ)
      (r : RunRecord)
      → Keeps results
      → (execute_run results s e outcome started ended).1 ≡ finished r
      → (other : ExecutionRequest) (outcome' : RunOutcome) (started' ended' : ℤ)
      → validate_request other ≡ ok tt
      → other.run_id ≡ e.run_id
      → let after = (execute_run results s e outcome started ended).0 in
        (execute_run results after e outcome' started' ended' ≡ (after, finished r))
        × (other ≢ e
            → execute_run results after other outcome' started' ended'
              ≡ (after, rejected idempotency_conflict))
  execute_again s e outcome started ended r keeps done other outcome' started' ended' valid' id =
      let after = (execute_run results s e outcome started ended).0 in
      let (valid, req, loaded) = execute-finished s e outcome started ended r keeps done in
      let first = find_same after e r valid loaded req in
      (
        execute-answered after e outcome' started' ended' first,
        λ differs.
            let there : results.load after.store other.run_id ≡ ok (some r) =
              ap (λ k. results.load after.store k) id ∙ loaded in
            let second = find_other after other r valid' there (λ q. differs (sym q ∙ req)) in
            execute-answered after other outcome' started' ended' second,
      )
