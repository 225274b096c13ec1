-- ===== src/Git/Commands/Quiet.antt =====
-- What the commands of crates/c6-git/src/lib.rs that only read leave behind: their calls, and no
-- `git update-ref`.
use cresix.Base.{List, [], ◌∷◌, Bool, true, ◌≡◌, ◌⊎◌, Result, ok, err, if◌then◌else◌, refl, ◌∙◌}
use cresix.Base.Text.{Text, codes, text_eq}
use cresix.Git.{GitError}
use cresix.Git.Commands.{Call, Output, History, M, continue_with, ◌>>=◌, lift, success, answer_text}

abbrev third : List Text → Text
third [] = []
third (a ∷ []) = []
third (a ∷ b ∷ []) = []
third (a ∷ b ∷ c ∷ rest) = c

abbrev pub is_update : Call → Bool
is_update call = text_eq (third call.args) (codes "update-ref")

-- The calls of a history that may move a reference.
unfoldable pub updates : History → History
updates [] = []
updates ((call, answer) ∷ history) =
    let rest = updates history in if is_update call then (call, answer) ∷ rest else rest

pub updates-nil : updates [] ≡ []
unfolding updates
updates-nil = refl

-- A call was made and had this answer.
abbrev pub Asked : Call → Result GitError Output → History → Type 0
Asked call answer [] = ⊥
Asked call answer (e ∷ history) = (e ≡ (call, answer)) ⊎ Asked call answer history

-- A call that succeeded and whose output is this text.
abbrev pub Gave : Call → Text → History → Type 0
Gave call text history =
    (output : Output) × Asked call (ok output) history
    × (success output ≡ true)
    × (answer_text output ≡ ok text)

abbrev pub Kept : History → History → Type 0
Kept before after =
    (call : Call) (answer : Result GitError Output)
    → Asked call answer before
    → Asked call answer after

pub record Quiet (before after : History) : Type 0 where
  pub same : updates after ≡ updates before
  pub kept : Kept before after

pub Quiet-refl : (h : History) → Quiet h h
Quiet-refl h = record { same = refl; kept = λ call answer a. a }

pub Quiet-trans : {a b c : History} → Quiet a b → Quiet b c → Quiet a c
Quiet-trans p q = record {
  same = q.same ∙ p.same;
  kept = λ call answer a. q.kept call answer (p.kept call answer a);
}

pub Gave-Kept :
    (a b : History) (call : Call) (text : Text) → Kept a b → Gave call text a → Gave call text b
Gave-Kept a b call text kept (output, asked, good, gives) =
    (output, kept call (ok output) asked, good, gives)

-- A run makes quiet calls, and a result that it returns is so.
pub record Does {A : Type 0} (m : M A) (R : A → History → Type 0) : Type 0 where
  pub quiet : (h : History) → Quiet h (m h).1
  pub returns : (h : History) (a : A) → (m h).0 ≡ ok a → R a (m h).1

pub lift-Does : {A : Type 0} (r : Result GitError A) → Does (lift r) (λ a h. r ≡ ok a)
lift-Does r = record { quiet = Quiet-refl; returns = λ h a e. e }

-- A run and what follows it: an error ends it.
pub continue_rule :
    {A B : Type 0} {R : A → History → Type 0} (m : M A) (step : A → M B)
    (P : Result GitError B × History → Type 0)
    → Does m R
    → (h : History) → ((a : A) (h' : History) → Quiet h h' → R a h' → P (step a h'))
    → ((e : GitError) (h' : History) → Quiet h h' → P (err e, h'))
    → P (continue_with step (m h))
continue_rule {A} {B} {R} m step P does h good bad = go (m h) (does.quiet h) (does.returns h)
  where
    go :
        (run : Result GitError A × History)
        → Quiet h run.1
        → ((a : A) → run.0 ≡ ok a → R a run.1)
        → P (continue_with step run)
    go (ok a, h') q r = good a h' q (r a refl)
    go (err e, h') q r = bad e h' q

abbrev Done : {B : Type 0} → History → (B → History → Type 0) → Result GitError B × History → Type 0
Done {B} h S run = Quiet h run.1 × ((b : B) → run.0 ≡ ok b → S b run.1)

-- A run that uses what the first one gave.
pub record Uses {A B : Type 0} (R : A → History → Type 0) (step : A → M B)
    (S : B → History → Type 0) : Type 0 where
  pub quiet : (a : A) (h : History) → Quiet h (step a h).1
  pub returns : (a : A) (h : History) (b : B) → R a h → (step a h).0 ≡ ok b → S b (step a h).1

pub bind-Does :
    {A B : Type 0} {R : A → History → Type 0} {S : B → History → Type 0} (m : M A) (step : A → M B)
    → Does m R
    → Uses R step S
    → Does (m >>= step) S
bind-Does {A} {B} {R} {S} m step does uses =
    let run = λ (h : History).
      continue_rule m step (Done h S) does h
        (λ a h' q r. (Quiet-trans q (uses.quiet a h'), λ b e. uses.returns a h' b r e))
        (λ e h' q. (q, λ b f. cc)) in
    record { quiet = λ h. (run h).0; returns = λ h. (run h).1 }

-- The same, where what the first run gives does not matter.
pub then-Does :
    {A B : Type 0} {R : A → History → Type 0} {S : B → History → Type 0} (m : M A) (step : A → M B)
    → Does m R
    → ((a : A) → Does (step a) S)
    → Does (m >>= step) S
then-Does m step does next =
    bind-Does m step does
      (record { quiet = λ a. (next a).quiet; returns = λ a h b r. (next a).returns h b })
