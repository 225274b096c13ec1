-- ===== src/Git/Commands/Moves.antt =====
-- When `merge` and `commit_changes` of crates/c6-git/src/lib.rs move a branch, and to what.
use cresix.Base.{
  [], ◌∷◌, Bool, true, false, ◌≡◌, ◌⊎◌, inl, inr, Option, none, some, Result, ok, err,
  if◌then◌else◌, refl, sym, ap, ◌∙◌, subst,
}
use cresix.Base.Text.{Text, codes, has_text}
use cresix.Git.{GitError, concurrent_update}
use cresix.Git.Commands.{
  Call, Output, History, Machine, Repository, M, continue_with, ◌>>◌, lift, git, call_of, success,
  command_error, atomic_update, update_args, update_answer,
}
use cresix.Git.Commands.Quiet.{updates, Kept, Does, continue_rule}

abbrev pub accepted : Result GitError Output → Bool
accepted (ok output) = success output
accepted (err e) = false

-- A branch was moved by one update, which git was to make only from the old value.
pub record Moved (repository : Repository) (reference : Text) (Why : Text → Text → History → Type 0)
    (result : Option Text) (h : History) : Type 0 where
  pub old : Text
  pub new : Text
  pub answer : Result GitError Output
  pub only : updates h ≡ (call_of repository (update_args reference new old) none [], answer) ∷ []
  pub why : Why old new h
  pub reported : result ≡ (if accepted answer then some new else none)

abbrev pub Outcome :
    Repository → Text → (Text → Text → History → Type 0) → Option Text → History → Type 0
Outcome repository reference Why result h =
    ((result ≡ none) × (updates h ≡ [])) ⊎ Moved repository reference Why result h

ended :
    {A : Type 0} (report : Result GitError A → Option Text) (result : A) (new : Text)
    (good locked : Bool) (e : GitError) (h : History)
    → report (ok result) ≡ some new
    → ((f : GitError) → report (err f) ≡ none)
    → (report
          (continue_with
            (λ (_ : Unit {0}). lift (ok result))
            ((if good then ok tt else if locked then err concurrent_update else err e), h)).0
        ≡ (if good then some new else none))
      × ((continue_with
            (λ (_ : Unit {0}). lift (ok result))
            ((if good then ok tt else if locked then err concurrent_update else err e), h)).1
          ≡ h)
ended report result new true locked e h yields fails = (yields, refl)
ended report result new false true e h yields fails = (fails concurrent_update, refl)
ended report result new false false e h yields fails = (fails e, refl)

module _ (machine : Machine) (repository : Repository) where
  -- The last step of both operations.
  pub update_rule :
      {A : Type 0} (report : Result GitError A → Option Text) (Why : Text → Text → History → Type 0)
      (reference new old : Text) (result : A) (h : History)
      → report (ok result) ≡ some new
      → ((f : GitError) → report (err f) ≡ none)
      → updates h ≡ []
      → ((after : History) → Kept h after → Why old new after)
      → Outcome repository reference Why
          (report ((atomic_update machine repository reference new old >> lift (ok result)) h).0)
          ((atomic_update machine repository reference new old >> lift (ok result)) h).1
  unfolding atomic_update git updates
  update_rule report Why reference new old result h yields fails none_before why =
      inr (go (machine.answer h call))
    where
      call : Call
      call = call_of repository (update_args reference new old) none []

      go :
          (answer : Result GitError Output)
          → Moved repository reference Why
              (report
                (continue_with
                  (λ (_ : Unit {0}). lift (ok result))
                  (continue_with
                    (λ output. lift (update_answer output))
                    (answer, (call, answer) ∷ h))).0)
              (continue_with
                (λ (_ : Unit {0}). lift (ok result))
                (continue_with
                  (λ output. lift (update_answer output))
                  (answer, (call, answer) ∷ h))).1
      go (err e) = record {
        old = old;
        new = new;
        answer = err e;
        only = ap ((call, err e) ∷◌) none_before;
        why = why ((call, err e) ∷ h) (λ c a asked. inr asked);
        reported = fails e;
      }
      go (ok output) =
          let after : History = (call, ok output) ∷ h in
          let (told, same) =
            ended report result new (success output)
              (has_text (codes "cannot lock ref") output.stderr) (command_error output) after yields
              fails in
          record {
            old = old;
            new = new;
            answer = ok output;
            only = ap updates same ∙ ap ((call, ok output) ∷◌) none_before;
            why = subst (Why old new) (sym same) (why after (λ c a asked. inr asked));
            reported = told;
          }

-- A run that makes no update, and what follows it: an error ends it.
pub pass :
    {A B : Type 0} {R : B → History → Type 0} (repository : Repository) (reference : Text)
    (Why : Text → Text → History → Type 0) (report : Result GitError A → Option Text) (m : M B)
    (step : B → M A)
    → Does m R
    → (h : History) → updates h ≡ []
    → ((f : GitError) → report (err f) ≡ none)
    → ((b : B) (h' : History)
        → updates h' ≡ []
        → Kept h h'
        → R b h'
        → Outcome repository reference Why (report (step b h').0) (step b h').1)
    → Outcome repository reference Why
        (report (continue_with step (m h)).0)
        (continue_with step (m h)).1
pass repository reference Why report m step does h clean fails next =
    continue_rule m step (λ run. Outcome repository reference Why (report run.0) run.1) does h
      (λ b h' q r. next b h' (q.same ∙ clean) q.kept r) (λ e h' q. inl (fails e, q.same ∙ clean))
