-- ===== src/Scheduler/Ticks.antt =====
-- A sequence of ticks of one schedule (crates/c6-scheduler/src/lib.rs), each from the
-- checkpoint that the tick before it returned. The caller gives the rest of each tick's state.
use cresix.Base.{
  ◌<◌, ◌≤◌, ◌≡◌, List, [], ◌∷◌, Option, ok, err, refl, sym, subst, arith, Bool-cases, Result-cases,
  inl, inr, ltb, Bool,
}
use cresix.Scheduler.{Instant, Calendar}
use cresix.Scheduler.Definition.{ScheduleError, ValidatedSchedule}
use cresix.Scheduler.Evaluate.{
  OccurrenceKey, TickMode, TickState, TickDecision, TickOutcome, enqueue, evaluate,
}
use cresix.Scheduler.Decisions.{evaluate_total, enqueue_iff}

-- What changes from tick to tick beside the checkpoint.
pub record TickInput : Type 0 where
  pub mode : TickMode
  pub active_occurrence : Option OccurrenceKey
  pub claimed_occurrences : List OccurrenceKey
  pub now : Instant

abbrev pub state_of : Instant → TickInput → TickState
state_of checkpoint i = record {
  evaluated_through = checkpoint;
  mode = i.mode;
  active_occurrence = i.active_occurrence;
  claimed_occurrences = i.claimed_occurrences;
}

-- The instant that a decision enqueues, in front of those of the later ticks.
abbrev pub logged : TickDecision → List Instant → List Instant
logged (enqueue key) later = key.occurrence_at ∷ later
logged _ later = later

abbrev pub is_back : Instant → TickInput → Bool
is_back checkpoint i = ltb i.now checkpoint

-- Instants that grow, from behind a bound on.
abbrev pub IncreasingFrom : Instant → List Instant → Type 0
IncreasingFrom lo [] = Unit
IncreasingFrom lo (n ∷ ns) = (lo < n) × IncreasingFrom n ns

IncreasingFrom-le :
    (lo hi : Instant) (ns : List Instant) → lo ≤ hi → IncreasingFrom hi ns → IncreasingFrom lo ns
IncreasingFrom-le lo hi [] h g = tt
IncreasingFrom-le lo hi (n ∷ ns) h g = (omega arith, g.1)

module _ (calendar : Calendar) (schedule : ValidatedSchedule calendar) where
  -- The instants enqueued from a checkpoint on. A tick that fails commits nothing.
  unfoldable pub enqueued : Instant → List TickInput → List Instant
  enqueued checkpoint [] = []
  enqueued checkpoint (i ∷ is) = elim (evaluate calendar schedule (state_of checkpoint i) i.now) [
    | ok o ↦ logged o.decision (enqueued o.evaluated_through is)
    | err e ↦ enqueued checkpoint is
  ]

  logged-IncreasingFrom :
      (checkpoint now : Instant) (decision : TickDecision) (later : List Instant)
      → checkpoint ≤ now
      → ((key : OccurrenceKey)
          → decision ≡ enqueue key
          → (checkpoint < key.occurrence_at) × (key.occurrence_at ≤ now))
      → IncreasingFrom now later
      → IncreasingFrom checkpoint (logged decision later)
  logged-IncreasingFrom c now (enqueue key) later le due g =
      let (behind, past) = due key refl in
      (behind, IncreasingFrom-le key.occurrence_at now later past g)
  logged-IncreasingFrom c now _ later le due g = IncreasingFrom-le c now later le g

  enqueued-ok :
      (c : Instant) (i : TickInput) (is : List TickInput) (o : TickOutcome)
      → evaluate calendar schedule (state_of c i) i.now ≡ ok o
      → enqueued c (i ∷ is) ≡ logged o.decision (enqueued o.evaluated_through is)
  unfolding enqueued
  enqueued-ok c i is o h = rw (h, enqueued)

  enqueued-err :
      (c : Instant) (i : TickInput) (is : List TickInput) (e : ScheduleError)
      → evaluate calendar schedule (state_of c i) i.now ≡ err e
      → enqueued c (i ∷ is) ≡ enqueued c is
  unfolding enqueued
  enqueued-err c i is e h = rw (h, enqueued)

  -- A tick that succeeds has seen the clock at or behind the checkpoint, and commits it.
  tick_commits :
      (c : Instant) (i : TickInput) (o : TickOutcome)
      → evaluate calendar schedule (state_of c i) i.now ≡ ok o
      → (c ≤ i.now) × (o.evaluated_through ≡ i.now)
  tick_commits c i o h =
      let (back, forth) = evaluate_total calendar schedule (state_of c i) i.now in
      elim (Bool-cases (ltb i.now c)) [
        | inl is_back ↦ let clash = back (ground arith) in cc
        | inr is_forth ↦
            let le : c ≤ i.now = ground arith in
            let (o', done, committed) = forth le in (le, ground arith)
      ]

  -- Over any sequence of ticks, in any modes, with any claims and any clock readings, the
  -- enqueued occurrences are strictly increasing and behind the first checkpoint: no
  -- occurrence is enqueued twice, also by a restart, and none at or before a checkpoint.
  pub enqueued-IncreasingFrom :
      (checkpoint : Instant) (inputs : List TickInput)
      → IncreasingFrom checkpoint (enqueued checkpoint inputs)
  enqueued-IncreasingFrom c [] = unfold enqueued in tt
  enqueued-IncreasingFrom c (i ∷ is) =
      elim (Result-cases (evaluate calendar schedule (state_of c i) i.now)) [
        | inr (e, refused) ↦
            subst (IncreasingFrom c) (sym (enqueued-err c i is e refused))
              (enqueued-IncreasingFrom c is)
        | inl (o, done) ↦
            let (le, committed) = tick_commits c i o done in
            let later = enqueued-IncreasingFrom o.evaluated_through is in
            subst (IncreasingFrom c) (sym (enqueued-ok c i is o done)) (
              logged-IncreasingFrom c o.evaluated_through o.decision
                (enqueued o.evaluated_through is) (omega arith)
                (λ key e.
                  let run = (enqueue_iff calendar schedule (state_of c i) i.now key o done).0 e in
                  (run.due.behind, omega (arith, run.due.past)))
                later)
      ]
