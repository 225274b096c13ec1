-- ===== src/Base/Stateful.antt =====
-- Fallible operations on a state, chained as the `?` operator chains them. The state that a failed
-- step leaves behind is kept.
use mathlib.Core.Path.{◌≡◌, refl}
use cresix.Base.Results.{Result, ok, err}

abbrev pub Stateful : Type 0 → Type 0 → Type 0 → Type 0
Stateful E F A = F → Result E A × F

abbrev pub continue_with :
    {E F A B : Type 0} → (A → Stateful E F B) → Result E A × F → Result E B × F
continue_with step (ok a, files) = step a files
continue_with step (err e, files) = (err e, files)

infixl 5 ◌>>=◌ ◌>>◌
abbrev pub ◌>>=◌ : {E F A B : Type 0} → Stateful E F A → (A → Stateful E F B) → Stateful E F B
◌>>=◌ m step files = continue_with step (m files)

abbrev pub ◌>>◌ : {E F B : Type 0} → Stateful E F (Unit {0}) → Stateful E F B → Stateful E F B
◌>>◌ m rest files = continue_with (λ _. rest) (m files)

-- What does not touch the state, or only looks at it.
abbrev pub lift : {E F A : Type 0} → Result E A → Stateful E F A
lift result files = (result, files)

abbrev pub look : {E F A : Type 0} → (F → Result E A) → Stateful E F A
look see files = (see files, files)

-- What holds of a run: one thing of its result and state, another of the state of a failure.
abbrev pub Outcome : {E F A : Type 0} → (A → F → Type 0) → (F → Type 0) → Result E A × F → Type 0
Outcome P Q (ok a, files) = P a files
Outcome P Q (err e, files) = Q files

-- A step behind a run, where a failure of the run is one of the whole.
pub continue_with-Outcome :
    {E F A B : Type 0} (P : A → F → Type 0) (Q : F → Type 0) (P' : B → F → Type 0) (Q' : F → Type 0)
    (step : A → Stateful E F B) (run : Result E A × F)
    → Outcome P Q run
    → ((a : A) (files : F) → P a files → Outcome P' Q' (step a files))
    → ((files : F) → Q files → Q' files)
    → Outcome P' Q' (continue_with step run)
continue_with-Outcome P Q P' Q' step (ok a, files) h next failed = next a files h
continue_with-Outcome P Q P' Q' step (err e, files) h next failed = failed files h

pub lift-Outcome :
    {E F A : Type 0} (P : A → F → Type 0) (Q : F → Type 0) (r : Result E A) (files : F)
    → ((a : A) → r ≡ ok a → P a files)
    → Q files
    → Outcome P Q (lift r files)
lift-Outcome P Q (ok a) files good bad = good a refl
lift-Outcome P Q (err e) files good bad = bad
