-- ===== src/Git/Commands/Steps.antt =====
-- The calls that must succeed, and the steps that prepare a commit, in crates/c6-git/src/lib.rs.
use cresix.Base.{
  List, [], ◌∷◌, ◌++◌, true, false, ◌≡◌, inl, inr, Option, none, some, ok, refl, sym, Bool-cases,
  subst,
}
use cresix.Base.Text.{Text, codes}
use cresix.Git.Changes.{FileChange, upsert, delete}
use cresix.Git.Commands.{
  Output, History, Machine, Repository, ◌>>◌, lift, git, call_of, success, require_success,
}
use cresix.Git.Commands.Quiet.{
  is_update, Asked, Gave, Quiet, Quiet-refl, Does, bind-Does, then-Does,
}
use cresix.Git.Commands.Questions.{git-Does}
use cresix.Git.Commands.Write.{git_ok, git_text, read_parent, stage_change, stage_changes}

module _ (machine : Machine) (repository : Repository) where
  checked :
      (output : Output) (h : History)
      → (((lift (require_success output) >> lift (ok output)) h).1 ≡ h)
        × ((b : Output)
            → ((lift (require_success output) >> lift (ok output)) h).0 ≡ ok b
            → (output ≡ b) × (success output ≡ true))
  checked output h = elim (Bool-cases (success output)) [
    | inl good ↦ rw good (refl, λ b e. (cc, refl))
    | inr bad ↦ rw bad (refl, λ b e. cc)
  ]

  module _ (args : List Text) (stdin : Option Text) (env : List (Text × Text))
      (reads : is_update (call_of repository args stdin env) ≡ false) where
    git_ok-Does : Does (git_ok machine repository args stdin env) (λ output h.
        Asked (call_of repository args stdin env) (ok output) h × (success output ≡ true))
    unfolding git_ok
    git_ok-Does =
        bind-Does (git machine repository args stdin env) _
          (git-Does machine repository args stdin env reads)
          (record {
            quiet = λ output h. subst (Quiet h) (sym (checked output h).0) (Quiet-refl h);
            returns = λ output h b asked e.
                let (same, facts) = checked output h in
                let (equal, good) = facts b e in
                subst (λ k. Asked (call_of repository args stdin env) (ok b) k × (success b ≡ true))
                  (sym same)
                  (subst
                    (λ o. Asked (call_of repository args stdin env) (ok o) h × (success o ≡ true))
                    equal (asked, good));
          })

    pub git_text-Does :
        Does (git_text machine repository args stdin env) (Gave (call_of repository args stdin env))
    unfolding git_text
    git_text-Does = bind-Does (git_ok machine repository args stdin env) _ git_ok-Does (record {
      quiet = λ output h. Quiet-refl h;
      returns = λ output h text (asked, good) e. (output, asked, good, e);
    })

  pub read_parent-Does :
      (index_env : List (Text × Text)) (parent : Option Text)
      → Does (read_parent machine repository index_env parent) (λ a h. Unit {0})
  unfolding read_parent
  read_parent-Does index_env none = record { quiet = Quiet-refl; returns = λ h a e. tt }
  read_parent-Does index_env (some parent) =
      then-Does (git_ok machine repository (codes "read-tree" ∷ parent ∷ []) none index_env) _
        (git_ok-Does (codes "read-tree" ∷ parent ∷ []) none index_env refl)
        (λ output. record { quiet = Quiet-refl; returns = λ h a e. tt })

  stage_change-Does :
      (index_env : List (Text × Text)) (change : FileChange)
      → Does (stage_change machine repository index_env change) (λ a h. Unit {0})
  unfolding stage_change
  stage_change-Does index_env (upsert path content) =
      then-Does
        (git_text machine repository (codes "hash-object" ∷ codes "-w" ∷ codes "--stdin" ∷ [])
          (some content) [])
        _
        (git_text-Does (codes "hash-object" ∷ codes "-w" ∷ codes "--stdin" ∷ []) (some content) []
          refl)
        (λ blob_oid.
          let cache = codes "100644," ++ (blob_oid ++ (codes "," ++ path)) in
          let args = codes "update-index" ∷ codes "--add" ∷ codes "--cacheinfo" ∷ cache ∷ [] in
          then-Does (git_ok machine repository args none index_env) _
            (git_ok-Does args none index_env refl)
            (λ output. record { quiet = Quiet-refl; returns = λ h a e. tt }))
  stage_change-Does index_env (delete path) =
      then-Does
        (git_ok machine repository (codes "update-index" ∷ codes "--index-info" ∷ []) _ index_env) _
        (git_ok-Does (codes "update-index" ∷ codes "--index-info" ∷ []) _ index_env refl)
        (λ output. record { quiet = Quiet-refl; returns = λ h a e. tt })

  pub stage_changes-Does :
      (index_env : List (Text × Text)) (changes : List FileChange)
      → Does (stage_changes machine repository index_env changes) (λ a h. Unit {0})
  unfolding stage_changes
  stage_changes-Does index_env [] = record { quiet = Quiet-refl; returns = λ h a e. tt }
  stage_changes-Does index_env (change ∷ changes) =
      then-Does (stage_change machine repository index_env change) _
        (stage_change-Does index_env change) (λ _. stage_changes-Does index_env changes)
