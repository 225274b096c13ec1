-- ===== src/Scheduler/Definition.antt =====
-- `ScheduleDefinition`, `ValidatedSchedule` and the errors of crates/c6-scheduler/src/lib.rs.
use cresix.Base.{
  ℕ, List, [], ◌∷◌, ◌++◌, ◌≡◌, ◌↔◌, false, not, some, Result, ok, err, ◌>>=◌, ◌>>◌, fail_if, ok_or,
  ◌==◌, length, arith,
}
use cresix.Base.Text.{Text, codes, is_blank, split_whitespace}
use cresix.Scheduler.{Instant, Calendar}

pub data MissedRunPolicy : Type 0 where
  skip run_once : MissedRunPolicy

pub record ScheduleDefinition : Type 0 where
  pub id : Text
  pub cron : Text
  pub timezone : Text
  pub missed_run_policy : MissedRunPolicy

pub data ScheduleError : Type 0 where
  empty_id : ScheduleError
  invalid_field_count : ℕ → ScheduleError
  invalid_cron : Text → ScheduleError
  invalid_timezone : Text → ScheduleError
  no_future_occurrence : ScheduleError
  clock_moved_backwards : Instant → Instant → ScheduleError

-- `fields.join(" ")`
abbrev pub join : List Text → Text
join [] = []
join (f ∷ []) = f
join (f ∷ g ∷ fs) = f ++ b' ' ∷ join (g ∷ fs)

-- `result.map_err(f)`
abbrev pub map_err : {E A : Type 0} → Result E A → (E → ScheduleError) → Result ScheduleError A
map_err (ok a) f = ok a
map_err (err e) f = err (f e)

module _ (calendar : Calendar) where
  open calendar use {Tz, Schedule, tz_from_str, schedule_from_str, after}

  pub record ValidatedSchedule : Type 0 where
    pub definition : ScheduleDefinition
    pub timezone : Tz
    pub parsed : Schedule

  -- The six fields that the `cron` crate reads: seconds pinned to zero, every year.
  abbrev pub expanded : List Text → Text
  expanded fields = codes "0 " ++ (join fields ++ codes " *")

  -- `ValidatedSchedule::new`
  unfoldable pub validated_schedule_new :
      ScheduleDefinition → Result ScheduleError ValidatedSchedule
  validated_schedule_new definition = do
    fail_if (is_blank definition.id) empty_id
    let fields = split_whitespace definition.cron
    fail_if (not (length fields == 5)) (invalid_field_count (length fields))
    timezone ← ok_or (tz_from_str definition.timezone) (invalid_timezone definition.timezone)
    parsed ← map_err (schedule_from_str (expanded fields)) invalid_cron
    ok (record { definition = definition; timezone = timezone; parsed = parsed })

  -- `ValidatedSchedule::next_after`
  unfoldable pub next_after : ValidatedSchedule → Instant → Result ScheduleError Instant
  next_after schedule instant =
      ok_or (after schedule.parsed schedule.timezone instant) no_future_occurrence

  -- A definition validates to a schedule exactly when its identifier is not blank, its cron
  -- expression has five fields, its time zone is known, and the expression is accepted with
  -- seconds and years pinned; the schedule holds just these.
  pub validated_schedule_new_iff :
      (d : ScheduleDefinition) (v : ValidatedSchedule)
      → (validated_schedule_new d ≡ ok v) ↔ (
          (is_blank d.id ≡ false)
          × (length (split_whitespace d.cron) ≡ 5)
          × (tz_from_str d.timezone ≡ some v.timezone)
          × (schedule_from_str (expanded (split_whitespace d.cron)) ≡ ok v.parsed)
          × (v.definition ≡ d))
  unfolding validated_schedule_new
  validated_schedule_new_iff d v = ground arith
