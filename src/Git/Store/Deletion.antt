-- ===== src/Git/Store/Deletion.antt =====
-- What a staged deletion of crates/c6-git/src/lib.rs does to the repository.
use cresix.Base.{◌≡◌, ◌≢◌, inl, inr, none, some, Result, ok, err, refl, ◌∙◌, Result-cases}
use cresix.Base.Text.{Text, codes}
use cresix.Git.{GitError}
use cresix.Git.Commands.{Repository}
use cresix.Git.Store.{
  Machine, GitStore, StagedDeletion, join, guard_of, staged_at, stage, drop_guard, rollback, commit,
}
use cresix.Base.Stateful.{continue_with}
use cresix.Git.Store.Guard.{
  FileLaws, Held, Safe, Restored, join-ne, apart, drop-Held, rollback-Restored, commit_gone,
}

module _ {F : Type 0} (machine : Machine F) where
  -- What `stage_delete` does with a repository that it has opened.
  abbrev pub Staged : Text → Text → Result GitError StagedDeletion × F → Type 0
  Staged c original (ok guard, f) =
      (guard.original ≡ original)
      × Held machine c guard f
      × Restored machine c guard (rollback machine guard f)
      × Safe machine c guard (drop_guard machine guard f)
      × ((commit machine guard f).0 ≡ ok tt
          → (machine.content (commit machine guard f).1 guard.staged ≡ none)
            × (machine.content (commit machine guard f).1 original ≡ none))
  Staged c original (err e, f) = machine.content f original ≡ some c

module _ {F : Type 0} (machine : Machine F) (laws : FileLaws machine) where
  staged_moved :
      (c original tombstone : Text) (run : Result GitError (Unit {0}) × F)
      → original ≢ tombstone
      → (run.0 ≡ ok tt
          → (machine.content run.1 (guard_of machine original tombstone).staged ≡ some c)
            × (machine.content run.1 original ≡ none))
      → ((e : GitError) → run.0 ≡ err e → machine.content run.1 original ≡ some c)
      → Staged machine c original (staged_at machine (guard_of machine original tombstone) run)
  staged_moved c original tombstone (ok u, f) other good bad =
      let guard = guard_of machine original tombstone in
      let held : Held machine c guard f = record {
        staged = (good refl).0;
        original = (good refl).1;
        other_tombstone = other;
        other_staged = join-ne tombstone (codes "repository.git");
      } in
      (
        refl,
        held,
        rollback-Restored machine laws c guard f held,
        drop-Held machine laws c guard f held,
        commit_gone machine laws c tombstone original f held,
      )
  staged_moved c original tombstone (err e, f) other good bad =
      laws.dir_removed tombstone original f other ∙ bad e refl

  staged_made :
      (c original : Text) (run : Result GitError Text × F)
      → ((d : Text) → run.0 ≡ ok d → (original ≢ d) × (original ≢ join d (codes "repository.git")))
      → machine.content run.1 original ≡ some c
      → Staged machine c original (
          continue_with
            (λ (tombstone : Text) (files : F).
              staged_at machine
                (guard_of machine original tombstone)
                (machine.rename original (guard_of machine original tombstone).staged files))
            run)
  staged_made c original (err e, f) other kept = kept
  staged_made c original (ok tombstone, f) other kept =
      let staged = join tombstone (codes "repository.git") in
      let (other_tombstone, other_staged) = other tombstone refl in
      staged_moved c original tombstone (machine.rename original staged f) other_tombstone
        (λ good.
          let (there, gone) = laws.renamed original staged f other_staged good in
          (there ∙ kept, gone))
        (λ e bad. laws.not_renamed original staged original e f bad ∙ kept)

  made_kept :
      (c root original : Text) (f : F)
      → machine.content f original ≡ some c
      → machine.content (machine.temp_dir root (codes ".c6-delete-") f).1 original ≡ some c
  made_kept c root original f has =
      elim (Result-cases (machine.temp_dir root (codes ".c6-delete-") f).0) [
        | inl (d, e) ↦
            laws.made root (codes ".c6-delete-") d original f e (
              apart machine laws f original d c has (laws.fresh root (codes ".c6-delete-") d f e).0)
            ∙ has
        | inr (e, h) ↦ laws.not_made root (codes ".c6-delete-") original e f h ∙ has
      ]

  -- A staged deletion never loses the repository before it is committed. When staging fails, the
  -- repository is at its place as before. When it succeeds, the repository is whole in the
  -- tombstone and nothing is at its place; a rollback that succeeds brings it back to its place, and
  -- behind a rollback that fails, or a guard that is dropped, it is whole at its place or in the
  -- tombstone; behind a commit that succeeds, nothing is at either. This holds of a repository that
  -- is there, on a file system with the laws above.
  pub stage-Staged :
      (store : GitStore) (repository : Repository) (c : Text) (f : F)
      → machine.content f repository.path ≡ some c
      → Staged machine c repository.path (stage machine store repository f)
  unfolding stage
  stage-Staged store repository c f has =
      staged_made c repository.path (machine.temp_dir store.root (codes ".c6-delete-") f)
        (λ d e.
          let (none_at, none_beneath) = laws.fresh store.root (codes ".c6-delete-") d f e in
          (
            apart machine laws f repository.path d c has none_at,
            apart machine laws f repository.path (join d (codes "repository.git")) c has
                (none_beneath (codes "repository.git")),
          ))
        (made_kept c store.root repository.path f has)
