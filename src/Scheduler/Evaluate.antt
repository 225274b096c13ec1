-- ===== src/Scheduler/Evaluate.antt =====
-- `TickState`, `TickOutcome` and `evaluate` of crates/c6-scheduler/src/lib.rs.
use cresix.Base.{
  List, Bool, true, false, ◌&&◌, Option, none, some, Result, ok, err, ◌>>=◌, ◌>>◌, fail_if,
  if◌then◌else◌, ltb, ◌==◌, Eq, ◌≡◌, ◌↔◌, arith,
}
use cresix.Base.Map.{contains}
use cresix.Base.Text.{Text, text_eq, text_key}
use cresix.Scheduler.{Instant, Calendar}
use cresix.Scheduler.Definition.{
  MissedRunPolicy, skip, run_once, ScheduleError, no_future_occurrence, clock_moved_backwards,
  ValidatedSchedule, next_after,
}

pub record OccurrenceKey : Type 0 where
  pub schedule_id : Text
  pub occurrence_at : Instant

-- The derived equality.
abbrev pub key_eq : OccurrenceKey → OccurrenceKey → Bool
key_eq a b = text_eq a.schedule_id b.schedule_id && a.occurrence_at == b.occurrence_at

pub key_eq_iff : (a b : OccurrenceKey) → (key_eq a b ≡ true) ↔ (a ≡ b)
key_eq_iff a b = ground (arith, text_key.beq_iff a.schedule_id b.schedule_id)

instance abbrev pub occurrence_key : Eq OccurrenceKey
occurrence_key = record { beq = key_eq; beq_iff = key_eq_iff }

pub data TickMode : Type 0 where
  live recovery : TickMode

pub record TickState : Type 0 where
  pub evaluated_through : Instant
  pub mode : TickMode
  pub active_occurrence : Option OccurrenceKey
  pub claimed_occurrences : List OccurrenceKey

pub data TickDecision : Type 0 where
  no_occurrence_due : TickDecision
  enqueue : OccurrenceKey → TickDecision
  missed_occurrence_skipped : OccurrenceKey → TickDecision
  already_claimed : OccurrenceKey → TickDecision
  blocked_by_active_run : OccurrenceKey → OccurrenceKey → TickDecision

pub record TickOutcome : Type 0 where
  pub evaluated_through : Instant
  pub decision : TickDecision

abbrev pub is_recovery : TickMode → Bool
is_recovery recovery = true
is_recovery live = false

abbrev pub is_skip : MissedRunPolicy → Bool
is_skip skip = true
is_skip run_once = false

-- The closure of `or_else`: no occurrence is no error.
abbrev pub optional : Result ScheduleError Instant → Result ScheduleError (Option Instant)
optional (ok n) = ok (some n)
optional (err no_future_occurrence) = ok none
optional (err e) = err e

module _ (calendar : Calendar) where
  -- The decision on a due occurrence.
  unfoldable pub decide : ValidatedSchedule calendar → TickState → OccurrenceKey → TickDecision
  decide schedule state due =
      if is_recovery state.mode && is_skip schedule.definition.missed_run_policy
      then missed_occurrence_skipped due
      else if contains due state.claimed_occurrences
      then already_claimed due
      else elim state.active_occurrence [
        | some active ↦ blocked_by_active_run due active
        | none ↦ enqueue due
      ]

  -- What follows the look-up of the next occurrence.
  unfoldable pub settle_due :
      ValidatedSchedule calendar → TickState → Instant → Option Instant → TickOutcome
  settle_due schedule state now none = record {
    evaluated_through = now;
    decision = no_occurrence_due;
  }
  settle_due schedule state now (some occurrence_at) =
      if ltb now occurrence_at
      then record { evaluated_through = now; decision = no_occurrence_due }
      else record {
        evaluated_through = now;
        decision =
            decide schedule state
              (record { schedule_id = schedule.definition.id; occurrence_at = occurrence_at });
      }

  unfoldable pub evaluate :
      ValidatedSchedule calendar → TickState → Instant → Result ScheduleError TickOutcome
  evaluate schedule state now = do
    fail_if (ltb now state.evaluated_through) (clock_moved_backwards state.evaluated_through now)
    occurrence ← optional (next_after calendar schedule state.evaluated_through)
    ok (settle_due schedule state now occurrence)

  -- `Scheduler::tick`, with the instant that the injected clock shows.
  unfoldable pub tick :
      (Unit {0} → Instant)
      → ValidatedSchedule calendar
      → TickState
      → Result ScheduleError TickOutcome
  tick clock schedule state = evaluate schedule state (clock tt)
