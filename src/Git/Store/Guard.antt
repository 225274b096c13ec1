-- ===== src/Git/Store/Guard.antt =====
-- What the guard of a staged deletion of crates/c6-git/src/lib.rs does to the repository that it
-- holds, with what is relied on of the file system.
use cresix.Base.{
  ◌+◌, ◌≡◌, ◌≢◌, ◌⊎◌, inl, inr, ◌∷◌, true, false, none, some, Result, ok, err, refl, ap, ◌∙◌,
  length, length-append, arith, Bool-cases,
}
use cresix.Base.Text.{Text, codes}
use cresix.Git.{GitError}
use cresix.Git.Store.{
  removed, Machine, StagedDeletion, join, present, guard_of, drop_guard, consume, restore, rollback,
  commit,
}
use cresix.Base.Stateful.{continue_with}

-- What is relied on of the file system: a rename moves what is at a path or changes nothing, an
-- empty directory is removed without touching what is elsewhere, a fresh directory is fresh, and
-- a recursive removal that succeeds leaves nothing beneath and creates nothing.
pub record FileLaws {F : Type 0} (machine : Machine F) : Type 0 where
  pub renamed :
      (a b : Text) (f : F)
      → a ≢ b
      → (machine.rename a b f).0 ≡ ok tt
      → (machine.content (machine.rename a b f).1 b ≡ machine.content f a)
        × (machine.content (machine.rename a b f).1 a ≡ none)
  pub not_renamed :
      (a b p : Text) (e : GitError) (f : F)
      → (machine.rename a b f).0 ≡ err e
      → machine.content (machine.rename a b f).1 p ≡ machine.content f p
  pub dir_removed :
      (d p : Text) (f : F)
      → p ≢ d
      → machine.content (machine.remove_dir d f).1 p ≡ machine.content f p
  pub fresh :
      (root prefix d : Text) (f : F)
      → (machine.temp_dir root prefix f).0 ≡ ok d
      → (machine.content f d ≡ none) × ((name : Text) → machine.content f (join d name) ≡ none)
  pub made :
      (root prefix d p : Text) (f : F)
      → (machine.temp_dir root prefix f).0 ≡ ok d
      → p ≢ d
      → machine.content (machine.temp_dir root prefix f).1 p ≡ machine.content f p
  pub not_made :
      (root prefix p : Text) (e : GitError) (f : F)
      → (machine.temp_dir root prefix f).0 ≡ err e
      → machine.content (machine.temp_dir root prefix f).1 p ≡ machine.content f p
  pub all_removed :
      (d name : Text) (f : F)
      → (machine.remove_dir_all d f).0 ≡ ok tt
      → machine.content (machine.remove_dir_all d f).1 (join d name) ≡ none
  pub none_created :
      (d p : Text) (f : F)
      → machine.content f p ≡ none
      → machine.content (machine.remove_dir_all d f).1 p ≡ none

length-join : (d name : Text) → length (join d name) ≡ length d + length name + 1
length-join d name = omega (arith, length-append d (b'/' ∷ name))

pub join-ne : (d name : Text) → join d name ≢ d
join-ne d name e = omega (arith, ap length e, length-join d name)

module _ {F : Type 0} (machine : Machine F) where
  -- The repository is in the tombstone, and nothing is at its place.
  pub record Held (c : Text) (guard : StagedDeletion) (f : F) : Type 0 where
    pub staged : machine.content f guard.staged ≡ some c
    pub original : machine.content f guard.original ≡ none
    pub other_tombstone : guard.original ≢ guard.tombstone
    pub other_staged : guard.staged ≢ guard.tombstone

  -- The repository is whole, at its place or in the tombstone.
  abbrev pub Safe : Text → StagedDeletion → F → Type 0
  Safe c guard f =
      (machine.content f guard.original ≡ some c) ⊎ (machine.content f guard.staged ≡ some c)

  -- What a rollback guarantees: when it succeeds, the repository is back at its place; when it
  -- fails, the repository is whole.
  abbrev pub Restored : Text → StagedDeletion → Result GitError (Unit {0}) × F → Type 0
  Restored c guard run =
      (run.0 ≡ ok tt → machine.content run.1 guard.original ≡ some c) × Safe c guard run.1

module _ {F : Type 0} (machine : Machine F) (laws : FileLaws machine) where
  pub apart :
      (f : F) (p q c : Text) → machine.content f p ≡ some c → machine.content f q ≡ none → p ≢ q
  apart f p q c has lacks e = cc (ap (machine.content f) e)

  moved :
      (c : Text) (guard : StagedDeletion) (f : F)
      → Held machine c guard f
      → (machine.rename guard.staged guard.original f).0 ≡ ok tt
      → machine.content (machine.rename guard.staged guard.original f).1 guard.original ≡ some c
  moved c guard f held good =
      (laws.renamed guard.staged guard.original f
        (apart f guard.staged guard.original c held.staged held.original) good).0
      ∙ held.staged

  unmoved :
      (c : Text) (guard : StagedDeletion) (e : GitError) (f : F)
      → Held machine c guard f
      → (machine.rename guard.staged guard.original f).0 ≡ err e
      → Held machine c guard (machine.rename guard.staged guard.original f).1
  unmoved c guard e f held bad = record {
    staged = laws.not_renamed guard.staged guard.original guard.staged e f bad ∙ held.staged;
    original = laws.not_renamed guard.staged guard.original guard.original e f bad ∙ held.original;
    other_tombstone = held.other_tombstone;
    other_staged = held.other_staged;
  }

  present-some : (f : F) (p c : Text) → machine.content f p ≡ some c → present machine f p ≡ true
  present-some f p c e = rw (e, present) refl

  present-none : (f : F) (p : Text) → machine.content f p ≡ none → present machine f p ≡ false
  present-none f p e = rw (e, present) refl

  -- Dropping the guard of a repository in the tombstone brings it back, unless the rename fails.
  drop_moved :
      (c : Text) (guard : StagedDeletion) (run : Result GitError (Unit {0}) × F)
      → guard.original ≢ guard.tombstone
      → (run.0 ≡ ok tt → machine.content run.1 guard.original ≡ some c)
      → ((e : GitError) → run.0 ≡ err e → Held machine c guard run.1)
      → Safe machine c guard (removed machine guard.tombstone run)
  drop_moved c guard (ok u, f) other good bad =
      inl (laws.dir_removed guard.tombstone guard.original f other ∙ good refl)
  drop_moved c guard (err e, f) other good bad = inr (bad e refl).staged

  pub drop-Held :
      (c : Text) (guard : StagedDeletion) (f : F)
      → Held machine c guard f
      → Safe machine c guard (drop_guard machine guard f)
  unfolding drop_guard
  drop-Held c guard f held =
      rw (present-some f guard.staged c held.staged, present-none f guard.original held.original)
        (drop_moved c guard (machine.rename guard.staged guard.original f) held.other_tombstone
          (moved c guard f held) (λ e. unmoved c guard e f held))

  -- It does nothing where the repository is back at its place.
  drop_back :
      (c : Text) (guard : StagedDeletion) (f : F)
      → machine.content f guard.original ≡ some c
      → Safe machine c guard (drop_guard machine guard f)
  unfolding drop_guard
  drop_back c guard f back =
      rw (present-some f guard.original c back)
        (elim (Bool-cases (present machine f guard.staged)) [
          | inl e ↦ rw e (inl back)
          | inr e ↦ rw e (inl back)
        ])

  Restored-last :
      (c : Text) (guard : StagedDeletion) (run : Result GitError (Unit {0}) × F)
      → machine.content run.1 guard.original ≡ some c
      → Restored machine c guard (consume machine guard run)
  Restored-last c guard (ok u, f) back = ((λ h. back), inl back)
  Restored-last c guard (err e, f) back = ((λ h. cc), drop_back c guard f back)

  restored :
      (c : Text) (guard : StagedDeletion) (run : Result GitError (Unit {0}) × F)
      → guard.original ≢ guard.tombstone
      → (run.0 ≡ ok tt → machine.content run.1 guard.original ≡ some c)
      → ((e : GitError) → run.0 ≡ err e → Held machine c guard run.1)
      → Restored machine c guard (
          consume machine guard
            (continue_with (λ (_ : Unit {0}). machine.remove_dir guard.tombstone) run))
  restored c guard (ok u, f) other good bad =
      Restored-last c guard (machine.remove_dir guard.tombstone f)
        (laws.dir_removed guard.tombstone guard.original f other ∙ good refl)
  restored c guard (err e, f) other good bad = ((λ h. cc), drop-Held c guard f (bad e refl))

  pub rollback-Restored :
      (c : Text) (guard : StagedDeletion) (f : F)
      → Held machine c guard f
      → Restored machine c guard (rollback machine guard f)
  unfolding rollback restore
  rollback-Restored c guard f held = rw (present-none f guard.original held.original) (
      restored c guard (machine.rename guard.staged guard.original f) held.other_tombstone
        (moved c guard f held) (λ e. unmoved c guard e f held))

  committed :
      (guard : StagedDeletion) (run : Result GitError (Unit {0}) × F)
      → (consume machine guard run).0 ≡ ok tt
      → (run.0 ≡ ok tt) × ((consume machine guard run).1 ≡ run.1)
  committed guard (ok u, f) h = (refl, refl)
  committed guard (err e, f) h = cc

  -- What a commit that succeeds guarantees: nothing is left of the repository.
  pub commit_gone :
      (c tombstone original : Text) (f : F)
      → Held machine c (guard_of machine original tombstone) f
      → (commit machine (guard_of machine original tombstone) f).0 ≡ ok tt
      → (machine.content
            (commit machine (guard_of machine original tombstone) f).1
            (guard_of machine original tombstone).staged
          ≡ none)
        × (machine.content (commit machine (guard_of machine original tombstone) f).1 original
            ≡ none)
  unfolding commit
  commit_gone c tombstone original f held h =
      let (good, same) =
        committed (guard_of machine original tombstone) (machine.remove_dir_all tombstone f) h in
      (
        ap (λ g. machine.content g (join tombstone (codes "repository.git"))) same
            ∙ laws.all_removed tombstone (codes "repository.git") f good,
        ap (λ g. machine.content g original) same
            ∙ laws.none_created tombstone original f held.original,
      )
