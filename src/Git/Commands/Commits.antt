-- ===== src/Git/Commands/Commits.antt =====
-- When `commit_changes` of crates/c6-git/src/lib.rs moves a branch, and to what.
use cresix.Base.{List, [], ◌≡◌, Option, none, some, Result, ok, err, refl}
use cresix.Base.Text.{Text}
use cresix.Git.{GitError, CommitIdentity, validate_branch, validate_identity, validate_message}
use cresix.Git.Changes.{FileChange, validate_changes}
use cresix.Git.Commands.{
  History, Machine, Repository, lift, call_of, resolve_commit, resolve_ref_optional,
}
use cresix.Git.Commands.Quiet.{
  updates, updates-nil, Gave, Gave-Kept, Does, lift-Does, then-Does, Quiet-refl,
}
use cresix.Git.Commands.Questions.{Read, Read-Kept, resolve_ref_optional-Does, resolve_commit-Does}
use cresix.Git.Commands.Moves.{Outcome, update_rule, pass}
use cresix.Git.Commands.Steps.{git_text-Does, read_parent-Does, stage_changes-Does}
use cresix.Git.Commands.Write.{
  identity_env, git_text, read_parent, stage_changes, find_parent, expected_oid, branch_ref,
  commit_changes, commit_staged, index_env_of, write_tree_args, commit_tree_args,
}

abbrev pub committed_oid : Result GitError Text → Option Text
committed_oid (err e) = none
committed_oid (ok oid) = some oid

module _ (machine : Machine) (repository : Repository) where
  -- What makes `new` a commit on `old`: the branch was at `old`, or did not exist, and then git is
  -- told so by zeros; git wrote the tree of the private index, and made a commit of it whose parent is
  -- what the branch was at.
  abbrev pub Follows : Option Text → Option Text → Type 0
  Follows none parent = Unit
  Follows (some oid) parent = parent ≡ some oid

  abbrev pub Commits : Text → Text → CommitIdentity → Text → Text → History → Type 0
  Commits reference message identity old new h =
      (current parent : Option Text) × (tree index : Text) × Read repository reference current h
      × (old ≡ expected_oid repository current)
      × Follows current parent
      × (machine.temp_index ≡ ok index)
      × Gave (call_of repository write_tree_args none (index_env_of index)) tree h
      × Gave
          (call_of repository (commit_tree_args tree parent) (some message) (identity_env identity))
          new h

  find_parent-Does :
      (current start : Option Text)
      → Does (find_parent machine repository current start) (λ parent h. Follows current parent)
  unfolding find_parent
  find_parent-Does (some oid) start = record { quiet = Quiet-refl; returns = λ h parent e. cc }
  find_parent-Does none none = record { quiet = Quiet-refl; returns = λ h parent e. tt }
  find_parent-Does none (some revision) =
      then-Does (resolve_commit machine repository revision) _
        (resolve_commit-Does machine repository revision)
        (λ oid. record { quiet = Quiet-refl; returns = λ h parent e. tt })

  commit_staged_moves :
      (reference message : Text) (identity : CommitIdentity) (current parent : Option Text)
      (index : Text) (h : History)
      → updates h ≡ []
      → Read repository reference current h
      → Follows current parent
      → machine.temp_index ≡ ok index
      → Outcome repository reference
          (Commits reference message identity)
          (committed_oid
            (commit_staged machine repository reference message identity current parent
              (index_env_of index)
              h).0)
          (commit_staged machine repository reference message identity current parent
            (index_env_of index)
            h).1
  unfolding commit_staged
  commit_staged_moves reference message identity current parent index h clean read follows fresh =
      let Why = Commits reference message identity in
      pass repository reference Why committed_oid
        (git_text machine repository write_tree_args none (index_env_of index)) _
        (git_text-Does machine repository write_tree_args none (index_env_of index) refl) h clean
        (λ f. refl)
        (λ tree h1 c1 k1 wrote.
          pass repository reference Why committed_oid
            (git_text machine repository (commit_tree_args tree parent) (some message)
              (identity_env identity))
            _
            (git_text-Does machine repository (commit_tree_args tree parent) (some message)
              (identity_env identity) refl)
            h1 c1 (λ f. refl)
            (λ new h2 c2 k2 gave.
              update_rule machine repository committed_oid Why reference new
                (expected_oid repository current) new h2 refl (λ f. refl) c2
                (λ after k3. (
                  current,
                  parent,
                  tree,
                  index,
                  Read-Kept repository h after reference current
                      (λ c a asked. k3 c a (k2 c a (k1 c a asked))) read,
                  refl,
                  follows,
                  fresh,
                  Gave-Kept h1 after (call_of repository write_tree_args none (index_env_of index))
                      tree (λ c a asked. k3 c a (k2 c a asked)) wrote,
                  Gave-Kept h2 after
                      (call_of repository (commit_tree_args tree parent) (some message)
                        (identity_env identity))
                      new k3 gave,
                ))))

  -- Either `commit_changes` fails and updates no branch, or it updates its branch and no other,
  -- once, and reports the new commit exactly when git has made the update. It tells git to update the
  -- branch only from what it was read at, or from zeros when it did not exist. The commit is of the
  -- tree that git wrote from the private index, and its parent is the commit that the branch was read
  -- at. This holds however the answers of git change between two calls.
  pub commit_changes_moves :
      (branch : Text) (start_revision : Option Text) (changes : List FileChange) (message : Text)
      (identity : CommitIdentity)
      → Outcome repository
          (branch_ref branch)
          (Commits (branch_ref branch) message identity)
          (committed_oid
            (commit_changes machine repository branch start_revision changes message identity []).0)
          (commit_changes machine repository branch start_revision changes message identity []).1
  unfolding commit_changes
  commit_changes_moves branch start_revision changes message identity =
      let reference = branch_ref branch in
      let Why = Commits reference message identity in
      pass repository reference Why committed_oid (lift (validate_branch branch)) _ (lift-Does _) []
        updates-nil (λ f. refl)
        (λ _ h1 c1 k1 _.
          pass repository reference Why committed_oid (lift (validate_identity identity)) _
            (lift-Does _) h1 c1 (λ f. refl)
            (λ _ h2 c2 k2 _.
              pass repository reference Why committed_oid (lift (validate_message message)) _
                (lift-Does _) h2 c2 (λ f. refl)
                (λ _ h3 c3 k3 _.
                  pass repository reference Why committed_oid
                    (lift (validate_changes repository.limits changes)) _ (lift-Does _) h3 c3
                    (λ f. refl)
                    (λ _ h4 c4 k4 _.
                      pass repository reference Why committed_oid
                        (resolve_ref_optional machine repository reference) _
                        (resolve_ref_optional-Does machine repository reference) h4 c4 (λ f. refl)
                        (λ current h5 c5 k5 read.
                          pass repository reference Why committed_oid
                            (find_parent machine repository current start_revision) _
                            (find_parent-Does current start_revision) h5 c5 (λ f. refl)
                            (λ parent h6 c6 k6 follows.
                              pass repository reference Why committed_oid (lift machine.temp_index)
                                _ (lift-Does _) h6 c6 (λ f. refl)
                                (λ index h7 c7 k7 fresh.
                                  pass repository reference Why committed_oid
                                    (read_parent machine repository (index_env_of index) parent) _
                                    (read_parent-Does machine repository (index_env_of index)
                                      parent)
                                    h7 c7 (λ f. refl)
                                    (λ _ h8 c8 k8 _.
                                      pass repository reference Why committed_oid
                                        (stage_changes machine repository (index_env_of index)
                                          changes)
                                        _
                                        (stage_changes-Does machine repository (index_env_of index)
                                          changes)
                                        h8 c8 (λ f. refl)
                                        (λ _ h9 c9 k9 _.
                                          commit_staged_moves reference message identity current
                                            parent index h9 c9
                                            (Read-Kept repository h5 h9 reference current
                                              (λ c a asked. k9 c a (k8 c a (k7 c a (k6 c a asked))))
                                              read)
                                            follows fresh)))))))))
