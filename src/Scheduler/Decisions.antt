-- ===== src/Scheduler/Decisions.antt =====
-- When `evaluate` of crates/c6-scheduler/src/lib.rs decides what.
use cresix.Base.{
  ◌<◌, ◌≤◌, ◌≡◌, ◌↔◌, inl, inr, false, ◌&&◌, Option, none, some, ok, err, refl, arith, Option-cases,
  Bool-cases, ltb,
}
use cresix.Base.Map.{contains}
use cresix.Scheduler.{Instant, Calendar}
use cresix.Scheduler.Definition.{clock_moved_backwards, ValidatedSchedule, next_after}
use cresix.Scheduler.Evaluate.{
  OccurrenceKey, occurrence_key, TickState, TickOutcome, enqueue, is_recovery, is_skip, decide,
  settle_due, evaluate,
}

module _ (calendar : Calendar) where
  open calendar use {Occurs, after, after_sound, after_least, after_none}

  module _ (schedule : ValidatedSchedule calendar) (state : TickState) (now : Instant) where
    -- The schedule's first instant behind the checkpoint, if it is not in the future.
    pub record IsDue (n : Instant) : Type 0 where
      pub behind : state.evaluated_through < n
      pub past : n ≤ now
      pub occurs : Occurs schedule.parsed schedule.timezone n
      pub first :
          (m : Instant)
          → state.evaluated_through < m
          → Occurs schedule.parsed schedule.timezone m
          → n ≤ m

    next : Option Instant
    next = after schedule.parsed schedule.timezone state.evaluated_through

    evaluate_forward :
        state.evaluated_through ≤ now
        → evaluate calendar schedule state now ≡ ok (settle_due calendar schedule state now next)
    unfolding evaluate next_after next
    evaluate_forward forth = elim (Option-cases next) [
      | inl nothing ↦ ground arith
      | inr (n, found) ↦ ground arith
    ]

    settle-now :
        (o : Option Instant) → (settle_due calendar schedule state now o).evaluated_through ≡ now
    unfolding settle_due
    settle-now none = refl
    settle-now (some n) = ground arith

    -- A tick fails exactly when the clock has moved back behind the checkpoint, and then with
    -- that error; any other tick yields a decision and the new checkpoint `now`.
    pub evaluate_total :
        (now < state.evaluated_through
          → evaluate calendar schedule state now
            ≡ err (clock_moved_backwards state.evaluated_through now))
        × (state.evaluated_through ≤ now
            → (o : TickOutcome) × (evaluate calendar schedule state now ≡ ok o)
              × (o.evaluated_through ≡ now))
    evaluate_total = (
      λ back. unfold evaluate in ground arith,
      λ forth.
          (settle_due calendar schedule state now next, evaluate_forward forth, settle-now next),
    )

    evaluate-settle :
        {o : TickOutcome}
        → evaluate calendar schedule state now ≡ ok o
        → o ≡ settle_due calendar schedule state now next
    evaluate-settle {o} h = elim (Bool-cases (ltb now state.evaluated_through)) [
      | inl back ↦ unfold evaluate in ground arith
      | inr forth ↦ cc (evaluate_forward (ground arith))
    ]

    IsDue-found : (n : Instant) → next ≡ some n → n ≤ now → IsDue n
    unfolding next
    IsDue-found n found past =
        let (behind, occurs) =
          after_sound schedule.parsed schedule.timezone state.evaluated_through n found in
        record {
          behind = behind;
          past = past;
          occurs = occurs;
          first = λ m later at.
              after_least schedule.parsed schedule.timezone state.evaluated_through n m found later
                at;
        }

    found-IsDue : (n : Instant) → IsDue n → next ≡ some n
    unfolding next
    found-IsDue n due = elim (Option-cases next) [
      | inl nothing ↦ absurd (
          after_none schedule.parsed schedule.timezone state.evaluated_through n nothing due.behind
            due.occurs)
      | inr (m, found) ↦
          let (behind, occurs) =
            after_sound schedule.parsed schedule.timezone state.evaluated_through m found in
          let lo = due.first m behind occurs in
          let hi =
            after_least schedule.parsed schedule.timezone state.evaluated_through m n found
              due.behind due.occurs in
          let same : m ≡ n = omega arith in rw (← same) found
    ]

    -- What is asked for a run of a due occurrence.
    pub record MayRun (key : OccurrenceKey) : Type 0 where
      pub id : key.schedule_id ≡ schedule.definition.id
      pub due : IsDue key.occurrence_at
      pub kept : (is_recovery state.mode && is_skip schedule.definition.missed_run_policy) ≡ false
      pub unclaimed : contains key state.claimed_occurrences ≡ false
      pub idle : state.active_occurrence ≡ none

    enqueue_facts :
        (key : OccurrenceKey)
        → (settle_due calendar schedule state now next).decision ≡ enqueue key
        → (next ≡ some key.occurrence_at)
          × (key.occurrence_at ≤ now)
          × (key.schedule_id ≡ schedule.definition.id)
          × ((is_recovery state.mode && is_skip schedule.definition.missed_run_policy) ≡ false)
          × (contains key state.claimed_occurrences ≡ false)
          × (state.active_occurrence ≡ none)
    unfolding settle_due decide
    enqueue_facts key h = elim (Option-cases next) [
      | inl nothing ↦ ground arith
      | inr (n, found) ↦ ground arith
    ]

    enqueue_decided :
        (key : OccurrenceKey)
        → next ≡ some key.occurrence_at
        → MayRun key
        → (settle_due calendar schedule state now next).decision ≡ enqueue key
    unfolding settle_due decide
    enqueue_decided key found run =
        let past = run.due.past in
        let same : key
            ≡ record { schedule_id = schedule.definition.id; occurrence_at = key.occurrence_at } =
          ground arith in
        rw found (ground arith)

    -- A tick enqueues an occurrence exactly when the clock has not moved back, the occurrence is
    -- this schedule's first one behind the checkpoint and not in the future, it is not a missed
    -- one that the policy skips, it is not claimed, and no run is active.
    pub enqueue_iff :
        (key : OccurrenceKey) (o : TickOutcome)
        → evaluate calendar schedule state now ≡ ok o
        → (o.decision ≡ enqueue key) ↔ MayRun key
    enqueue_iff key o h =
        let settled = evaluate-settle h in
        (
          λ e.
              let (found, past, id, kept, unclaimed, idle) = enqueue_facts key (rw settled at e) in
              record {
                id = id;
                due = IsDue-found key.occurrence_at found past;
                kept = kept;
                unclaimed = unclaimed;
                idle = idle;
              },
          λ run. rw settled (enqueue_decided key (found-IsDue key.occurrence_at run.due) run),
        )
