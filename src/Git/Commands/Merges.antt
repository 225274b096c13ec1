-- ===== src/Git/Commands/Merges.antt =====
-- When `merge` of crates/c6-git/src/lib.rs moves a branch, and to what.
use cresix.Base.{
  List, [], true, ◌≡◌, ◌⊎◌, inl, inr, Option, none, some, Result, ok, err, ok_or, subst, refl,
  Bool-cases,
}
use cresix.Base.Text.{Text, split}
use cresix.Git.{
  GitError, CommitIdentity, revision_not_found, validate_branch, validate_identity,
  validate_message,
}
use cresix.Git.Commands.{
  Output, History, Machine, Repository, ◌>>◌, lift, git, call_of, success, resolve_commit,
  resolve_ref_optional, is_ancestor, atomic_update,
}
use cresix.Git.Commands.Quiet.{updates, updates-nil, Asked, Gave, Gave-Kept, lift-Does}
use cresix.Git.Commands.Questions.{
  git-Does, Read, Read-Kept, resolve_ref_optional-Does, Ancestor, Ancestor-Kept, is_ancestor-Does,
  resolve_commit-Does,
}
use cresix.Git.Commands.Moves.{Outcome, update_rule, pass}
use cresix.Git.Commands.Steps.{git_text-Does}
use cresix.Git.Commands.Tree.{drop_empty}
use cresix.Git.Commands.Write.{
  MergeResult, already_up_to_date, fast_forward, merged, conflicted, identity_env, git_text,
  branch_ref, conflict, first_text, merge_tree_args, commit_merge_args, commit_merge, merge_trees,
  fast_forward_or_merge, merge,
}

-- The commit that a merge says the branch is now at.
abbrev pub moved_oid : Result GitError MergeResult → Option Text
moved_oid (err e) = none
moved_oid (ok (already_up_to_date oid)) = none
moved_oid (ok (fast_forward oid)) = some oid
moved_oid (ok (merged oid)) = some oid
moved_oid (ok (conflicted paths)) = none

found_some :
    (e : GitError) (found : Option Text) (oid : Text) → ok_or found e ≡ ok oid → found ≡ some oid
found_some e none oid h = cc
found_some e (some a) oid h = cc

module _ (machine : Machine) (repository : Repository) where
  -- What makes `new` a merge of a source into `old`: git found the trees of both to merge without
  -- a conflict, and made a commit of their merge with these two parents.
  abbrev pub IsMerge : Text → CommitIdentity → Text → Text → History → Type 0
  IsMerge message identity old new h =
      (source tree : Text) × (output : Output) × Asked
        (call_of repository (merge_tree_args old source) none []) (ok output) h
      × (success output ≡ true)
      × (first_text (drop_empty (split 0 output.stdout)) ≡ ok tree)
      × Gave
          (call_of repository (commit_merge_args tree old source) (some message)
            (identity_env identity))
          new h

  abbrev pub Merges : Text → Text → CommitIdentity → Text → Text → History → Type 0
  Merges reference message identity old new h =
      Read repository reference (some old) h
      × (Ancestor repository old new h ⊎ IsMerge message identity old new h)

  module _ (reference message : Text) (identity : CommitIdentity) where
    abbrev MergeOutcome : Result GitError MergeResult × History → Type 0
    MergeOutcome run =
        Outcome repository reference (Merges reference message identity) (moved_oid run.0) run.1

    commit_merge_moves :
        (target source tree : Text) (output : Output) (h : History)
        → updates h ≡ []
        → Read repository reference (some target) h
        → Asked (call_of repository (merge_tree_args target source) none []) (ok output) h
        → success output ≡ true
        → first_text (drop_empty (split 0 output.stdout)) ≡ ok tree
        → MergeOutcome
            (commit_merge machine repository reference message identity target source tree h)
    unfolding commit_merge
    commit_merge_moves target source tree output h clean read asked good first =
        let args = commit_merge_args tree target source in
        pass repository reference (Merges reference message identity) moved_oid
          (git_text machine repository args (some message) (identity_env identity))
          (λ oid. atomic_update machine repository reference oid target >> lift (ok (merged oid)))
          (git_text-Does machine repository args (some message) (identity_env identity) refl) h
          clean (λ f. refl)
          (λ oid h' clean' kept gave.
            update_rule machine repository moved_oid (Merges reference message identity) reference
              oid target (merged oid) h' refl (λ f. refl) clean'
              (λ after kept'. (
                Read-Kept repository h after reference (some target)
                    (λ c a asked'. kept' c a (kept c a asked')) read,
                inr (
                  source,
                  tree,
                  output,
                  kept' (call_of repository (merge_tree_args target source) none []) (ok output) (
                      kept (call_of repository (merge_tree_args target source) none []) (ok output)
                        asked),
                  good,
                  first,
                  Gave-Kept h' after
                      (call_of repository args (some message) (identity_env identity)) oid kept'
                      gave,
                ),
              )))

    conflict-none : (r : Result GitError (List Text)) → moved_oid (conflict r) ≡ none
    conflict-none (ok paths) = refl
    conflict-none (err e) = refl

    merge_trees_moves :
        (target source : Text) (h : History)
        → updates h ≡ []
        → Read repository reference (some target) h
        → MergeOutcome (merge_trees machine repository reference message identity target source h)
    unfolding merge_trees
    merge_trees_moves target source h clean read =
        pass repository reference (Merges reference message identity) moved_oid
          (git machine repository (merge_tree_args target source) none []) _
          (git-Does machine repository (merge_tree_args target source) none [] refl) h clean
          (λ f. refl)
          (λ output h' clean' kept asked. elim (Bool-cases (success output)) [
            | inl good ↦ rw good (
                pass repository reference (Merges reference message identity) moved_oid
                  (lift (first_text (drop_empty (split 0 output.stdout)))) _ (lift-Does _) h' clean'
                  (λ f. refl)
                  (λ tree h'' clean'' kept' first.
                    commit_merge_moves target source tree output h'' clean''
                      (Read-Kept repository h h'' reference (some target)
                        (λ c a asked'. kept' c a (kept c a asked')) read)
                      (kept' (call_of repository (merge_tree_args target source) none [])
                        (ok output) asked)
                      good first))
            | inr bad ↦ rw bad (inl (conflict-none _, clean'))
          ])

    fast_forward_or_merge_moves :
        (target source : Text) (h : History)
        → updates h ≡ []
        → Read repository reference (some target) h
        → MergeOutcome
            (fast_forward_or_merge machine repository reference message identity target source h)
    unfolding fast_forward_or_merge
    fast_forward_or_merge_moves target source h clean read =
        pass repository reference (Merges reference message identity) moved_oid
          (is_ancestor machine repository target source) _
          (is_ancestor-Does machine repository target source) h clean (λ f. refl)
          (λ forward h' clean' kept ancestor. elim (Bool-cases forward) [
            | inl good ↦ rw good (
                update_rule machine repository moved_oid (Merges reference message identity)
                  reference source target (fast_forward source) h' refl (λ f. refl) clean'
                  (λ after kept'. (
                    Read-Kept repository h after reference (some target)
                        (λ c a asked. kept' c a (kept c a asked)) read,
                    inl (Ancestor-Kept repository h' after target source kept' (ancestor good)),
                  )))
            | inr bad ↦ rw bad (
                merge_trees_moves target source h' clean'
                  (Read-Kept repository h h' reference (some target) kept read))
          ])

  -- Either `merge` updates no branch and reports neither a fast forward nor a merge, or it updates
  -- the target branch and no other, once, and reports the new commit exactly when git has made the
  -- update. It tells git to update the branch only from the commit that it was read at. The new
  -- commit has that one as an ancestor, or git made it with that one as a parent from a merge of the
  -- two without conflicts. This holds however the answers of git change between two calls.
  pub merge_moves :
      (target_branch source_revision message : Text) (identity : CommitIdentity)
      → Outcome repository
          (branch_ref target_branch)
          (Merges (branch_ref target_branch) message identity)
          (moved_oid (merge machine repository target_branch source_revision message identity []).0)
          (merge machine repository target_branch source_revision message identity []).1
  unfolding merge
  merge_moves target_branch source_revision message identity =
      let reference = branch_ref target_branch in
      let Why = Merges reference message identity in
      pass repository reference Why moved_oid (lift (validate_branch target_branch)) _ (lift-Does _)
        [] updates-nil (λ f. refl)
        (λ _ h1 c1 k1 _.
          pass repository reference Why moved_oid (lift (validate_identity identity)) _
            (lift-Does _) h1 c1 (λ f. refl)
            (λ _ h2 c2 k2 _.
              pass repository reference Why moved_oid (lift (validate_message message)) _
                (lift-Does _) h2 c2 (λ f. refl)
                (λ _ h3 c3 k3 _.
                  pass repository reference Why moved_oid
                    (resolve_ref_optional machine repository reference) _
                    (resolve_ref_optional-Does machine repository reference) h3 c3 (λ f. refl)
                    (λ found h4 c4 k4 read.
                      pass repository reference Why moved_oid
                        (lift (ok_or found (revision_not_found target_branch))) _ (lift-Does _) h4
                        c4 (λ f. refl)
                        (λ target h5 c5 k5 is_found.
                          pass repository reference Why moved_oid
                            (resolve_commit machine repository source_revision) _
                            (resolve_commit-Does machine repository source_revision) h5 c5
                            (λ f. refl)
                            (λ source h6 c6 k6 _.
                              pass repository reference Why moved_oid
                                (is_ancestor machine repository source target) _
                                (is_ancestor-Does machine repository source target) h6 c6
                                (λ f. refl)
                                (λ up_to_date h7 c7 k7 _. elim (Bool-cases up_to_date) [
                                  | inl done ↦ rw done (inl (refl, c7))
                                  | inr more ↦ rw more (
                                      fast_forward_or_merge_moves reference message identity target
                                        source h7 c7
                                        (Read-Kept repository h4 h7 reference (some target)
                                          (λ c a asked. k7 c a (k6 c a (k5 c a asked)))
                                          (subst (λ o. Read repository reference o h4)
                                            (found_some (revision_not_found target_branch) found
                                              target is_found)
                                            read)))
                                ])))))))
