-- ===== src/Scheduler.antt =====
-- crates/c6-scheduler/src/lib.rs: schedules and the evaluation of one tick. Cron expressions
-- and time zones are third-party code (`cron`, `chrono_tz`): a parameter with the documented
-- behaviour of `Schedule::after`. An instant is a number of nanoseconds from a fixed origin.
pub mod Definition
pub mod Evaluate
pub mod Decisions
pub mod Ticks
pub mod Tests
use cresix.Base.{ℕ, ◌<◌, ◌≤◌, ◌≡◌, Option, some, none, Result, ok, err}
use cresix.Base.Text.{Text}

abbrev pub Instant : Type 0
Instant = ℕ

-- `chrono_tz::Tz::from_str`, `cron::Schedule::from_str` and `Schedule::after(..).next()`: the
-- first instant strictly behind the given one that the schedule matches in the zone.
pub record Calendar : Type 1 where
  pub Tz : Type 0
  pub Schedule : Type 0
  pub tz_from_str : Text → Option Tz
  pub schedule_from_str : Text → Result Text Schedule
  pub Occurs : Schedule → Tz → Instant → Type 0
  pub after : Schedule → Tz → Instant → Option Instant
  pub after_sound :
      (s : Schedule) (tz : Tz) (t n : Instant) → after s tz t ≡ some n → (t < n) × Occurs s tz n
  pub after_least :
      (s : Schedule) (tz : Tz) (t n m : Instant)
      → after s tz t ≡ some n
      → t < m
      → Occurs s tz m
      → n ≤ m
  pub after_none :
      (s : Schedule) (tz : Tz) (t m : Instant) → after s tz t ≡ none → t < m → Occurs s tz m → ⊥
