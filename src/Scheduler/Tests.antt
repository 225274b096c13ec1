-- ===== src/Scheduler/Tests.antt =====
-- The examples of crates/c6-scheduler/src/lib.rs over a calendar of hours, and the theorems at
-- concrete ticks.
use cresix.Base.{
  ℕ, ◌<◌, ◌≤◌, ◌+◌, ◌*◌, ◌/◌, ◌≡◌, ◌↔◌, ◌&&◌, List, [], ◌∷◌, Option, some, none, Result, ok, err,
  refl, arith, Bool, true, false, length,
}
use cresix.Base.Text.{codes, is_blank, split_whitespace}
use cresix.Scheduler.{Instant, Calendar}
use cresix.Scheduler.Definition.{
  ScheduleDefinition, skip, ValidatedSchedule, validated_schedule_new, validated_schedule_new_iff,
  expanded, invalid_field_count, empty_id, next_after,
}
use cresix.Scheduler.Evaluate.{
  OccurrenceKey, TickState, live, recovery, enqueue, already_claimed, missed_occurrence_skipped,
  evaluate, decide, settle_due,
}
use cresix.Scheduler.Decisions.{MayRun, enqueue_iff}
use cresix.Scheduler.Ticks.{TickInput, IncreasingFrom, enqueued, enqueued-IncreasingFrom}

abbrev OnTheHour : Unit {0} → Unit {0} → Instant → Type 0
OnTheHour s tz n = (k : ℕ) × (n ≡ k * 60)

next_hour : Unit {0} → Unit {0} → Instant → Option Instant
next_hour s tz t = some ((t / 60 + 1) * 60)

next_hour_sound :
    (s tz : Unit {0}) (t n : Instant) → next_hour s tz t ≡ some n → (t < n) × OnTheHour s tz n
unfolding next_hour
next_hour_sound s tz t n h = (ground arith, (t / 60 + 1, ground arith))

next_hour_least :
    (s tz : Unit {0}) (t n m : Instant)
    → next_hour s tz t ≡ some n
    → t < m
    → OnTheHour s tz m
    → n ≤ m
unfolding next_hour
next_hour_least s tz t n m h later (k, e) = ground arith

next_hour-none :
    (s tz : Unit {0}) (t m : Instant) → next_hour s tz t ≡ none → t < m → OnTheHour s tz m → ⊥
unfolding next_hour
next_hour-none s tz t m h later at = cc

-- Minutes, and one schedule: the full hour.
abbrev hours : Calendar
hours = record {
  Tz = Unit {0};
  Schedule = Unit {0};
  tz_from_str = λ name. some tt;
  schedule_from_str = λ text. ok tt;
  Occurs = OnTheHour;
  after = next_hour;
  after_sound = next_hour_sound;
  after_least = next_hour_least;
  after_none = next_hour-none;
}

abbrev hourly : ScheduleDefinition
hourly = record {
  id = codes "nightly";
  cron = codes "0 * * * *";
  timezone = codes "UTC";
  missed_run_policy = skip;
}

abbrev schedule : ValidatedSchedule hours
schedule = record { definition = hourly; timezone = tt; parsed = tt }

abbrev state : TickState
state = record {
  evaluated_through = 100;
  mode = live;
  active_occurrence = none;
  claimed_occurrences = [];
}

abbrev at_two : OccurrenceKey
at_two = record { schedule_id = codes "nightly"; occurrence_at = 120 }

runs_first_due :
    evaluate hours schedule state 400
    ≡ ok (record { evaluated_through = 400; decision = enqueue at_two })
unfolding evaluate next_after settle_due decide next_hour cresix.Base.Map.contains
runs_first_due = refl

recovery_skips :
    evaluate hours schedule (record state { mode = recovery }) 400
    ≡ ok (record { evaluated_through = 400; decision = missed_occurrence_skipped at_two })
unfolding evaluate next_after settle_due decide next_hour
recovery_skips = refl

claimed_once :
    evaluate hours schedule (record state { claimed_occurrences = at_two ∷ [] }) 400
    ≡ ok (record { evaluated_through = 400; decision = already_claimed at_two })
unfolding evaluate next_after settle_due decide next_hour cresix.Base.Map.contains
claimed_once = refl

four_fields :
    validated_schedule_new hours (record hourly { cron = codes "0 9 * *" })
    ≡ err (invalid_field_count 4)
unfolding validated_schedule_new is_blank split_whitespace
four_fields = refl

blank_id : validated_schedule_new hours (record hourly { id = codes "  " }) ≡ err empty_id
unfolding validated_schedule_new is_blank
blank_id = refl

hourly_validated : (validated_schedule_new hours hourly ≡ ok schedule) ↔ (
    (is_blank hourly.id ≡ false)
    × (length (split_whitespace hourly.cron) ≡ 5)
    × (hours.tz_from_str hourly.timezone ≡ some schedule.timezone)
    × (hours.schedule_from_str (expanded hours (split_whitespace hourly.cron)) ≡ ok schedule.parsed)
    × (schedule.definition ≡ hourly))
hourly_validated = validated_schedule_new_iff hours hourly schedule

enqueue_iff_example : (enqueue at_two ≡ enqueue at_two) ↔ MayRun hours schedule state 400 at_two
enqueue_iff_example =
    enqueue_iff hours schedule state 400 at_two
      (record { evaluated_through = 400; decision = enqueue at_two }) runs_first_due

abbrev input : Instant → TickInput
input now = record { mode = live; active_occurrence = none; claimed_occurrences = []; now = now }

three_ticks : enqueued hours schedule 100 (input 400 ∷ input 390 ∷ input 500 ∷ []) ≡ 120 ∷ 420 ∷ []
unfolding enqueued evaluate next_after settle_due decide next_hour cresix.Base.Map.contains
three_ticks = refl

enqueued-IncreasingFrom_example :
    IncreasingFrom 100 (enqueued hours schedule 100 (input 400 ∷ input 390 ∷ input 500 ∷ []))
enqueued-IncreasingFrom_example =
    enqueued-IncreasingFrom hours schedule 100 (input 400 ∷ input 390 ∷ input 500 ∷ [])
