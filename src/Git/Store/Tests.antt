-- ===== src/Git/Store/Tests.antt =====
-- Staged deletions of crates/c6-git/src/lib.rs on a file system with room for one repository and
-- one tombstone.
use cresix.Base.{
  ◌≡◌, List, [], ◌∷◌, Bool, true, false, ◌&&◌, Option, none, some, Result, ok, err, if◌then◌else◌,
  refl, arith, Bool-cases, inl, inr, subst, sym, ap,
}
use cresix.Base.Text.{Text, codes, text_eq, text_key}
use cresix.Git.{GitError, io, validate_slug}
use cresix.Git.Commands.{Repository, trim_ascii}
use cresix.Git.Store.{
  new_store, with_limits, standard_limits, Machine, GitStore, join, open_repository, stage,
  stage_delete, drop_guard, commit, delete,
}
use cresix.Git.Store.Guard.{FileLaws}
use cresix.Git.Store.Deletion.{Staged, stage-Staged}

abbrev place : Text
place = codes "/s/p1.git"

abbrev tombstone_path : Text
tombstone_path = codes "/s/.c6-delete-x"

abbrev staged_path : Text
staged_path = join tombstone_path (codes "repository.git")

record Files : Type 0 where
  live : Option Text
  kept : Option Text

abbrev content_of : Files → Text → Option Text
content_of f p = if text_eq p place then f.live else if text_eq p staged_path then f.kept else none

abbrev move_away : Option Text → Option Text → Files → Result GitError (Unit {0}) × Files
move_away (some c) none f = (ok tt, record { live = none; kept = some c })
move_away none kept f = (err io, f)
move_away (some c) (some d) f = (err io, f)

abbrev move_back : Option Text → Option Text → Files → Result GitError (Unit {0}) × Files
move_back none (some c) f = (ok tt, record { live = some c; kept = none })
move_back none none f = (err io, f)
move_back (some c) kept f = (err io, f)

abbrev rename_in : Text → Text → Files → Result GitError (Unit {0}) × Files
rename_in a b f =
    if text_eq a place && text_eq b staged_path
    then move_away f.live f.kept f
    else if text_eq a staged_path && text_eq b place
    then move_back f.live f.kept f
    else (err io, f)

abbrev make_temp : Option Text → Files → Result GitError Text × Files
make_temp none f = (ok tombstone_path, f)
make_temp (some c) f = (err io, f)

abbrev answers : List Text → Text
answers (a ∷ b ∷ []) =
    if text_eq b (codes "--is-bare-repository") then codes "true" else codes "sha1"
answers args = []

abbrev machine_of : (Text → Files → Result GitError (Unit {0}) × Files) → Machine Files
machine_of remove_all = record {
  content = content_of;
  metadata = λ f p. ok (false, true);
  canonicalize = λ f p. some p;
  parent = λ p. some (codes "/s");
  git = λ at args f. (ok (record { code = some 0; stdout = answers args; stderr = [] }), f);
  create_dir_all = λ p f. (ok tt, f);
  create_dir = λ p f. (ok tt, f);
  temp_dir = λ root prefix f. make_temp f.kept f;
  rename = rename_in;
  remove_dir = λ d f. (ok tt, f);
  remove_dir_all = remove_all;
}

abbrev remove_tombstone : Text → Files → Result GitError (Unit {0}) × Files
remove_tombstone d f =
    if text_eq d tombstone_path then (ok tt, record f { kept = none }) else (err io, f)

abbrev machine : Machine Files
machine = machine_of remove_tombstone

abbrev path_ok : Text → Result GitError Text
path_ok = ok

path_inj : {a b : Text} → path_ok a ≡ ok b → a ≡ b
path_inj h = cc

away_renamed :
    (live kept : Option Text) (f : Files)
    → (move_away live kept f).0 ≡ ok tt
    → (content_of (move_away live kept f).1 staged_path ≡ live)
      × (content_of (move_away live kept f).1 place ≡ none)
away_renamed (some c) none f h = (refl, refl)
away_renamed none kept f h = cc
away_renamed (some c) (some d) f h = cc

back_renamed :
    (live kept : Option Text) (f : Files)
    → (move_back live kept f).0 ≡ ok tt
    → (content_of (move_back live kept f).1 place ≡ kept)
      × (content_of (move_back live kept f).1 staged_path ≡ none)
back_renamed none (some c) f h = (refl, refl)
back_renamed none none f h = cc
back_renamed (some c) kept f h = cc

away_failed :
    (live kept : Option Text) (f : Files) (e : GitError)
    → (move_away live kept f).0 ≡ err e
    → (move_away live kept f).1 ≡ f
away_failed (some c) none f e h = cc
away_failed none kept f e h = refl
away_failed (some c) (some d) f e h = refl

back_failed :
    (live kept : Option Text) (f : Files) (e : GitError)
    → (move_back live kept f).0 ≡ err e
    → (move_back live kept f).1 ≡ f
back_failed none (some c) f e h = cc
back_failed none none f e h = refl
back_failed (some c) kept f e h = refl

both : (x y : Bool) → (x && y) ≡ true → (x ≡ true) × (y ≡ true)
both true true h = (refl, refl)
both true false h = cc
both false y h = cc

abbrev Renames : Files → Text → Text → Type 0
Renames f a b =
    (rename_in a b f).0 ≡ ok tt
    → (content_of (rename_in a b f).1 b ≡ content_of f a)
      × (content_of (rename_in a b f).1 a ≡ none)

at_paths :
    (P : Text → Text → Type 0) (a b x y : Text)
    → (text_eq a x && text_eq b y) ≡ true
    → P x y
    → P a b
at_paths P a b x y h p =
    let (ea, eb) = both (text_eq a x) (text_eq b y) h in
    subst (λ a'. P a' b) (sym ((text_key.beq_iff a x).0 ea))
      (subst (P x) (sym ((text_key.beq_iff b y).0 eb)) p)

rename_law : (f : Files) (a b : Text) → Renames f a b
rename_law f a b = elim (Bool-cases (text_eq a place && text_eq b staged_path)) [
  | inl away ↦ at_paths (Renames f) a b place staged_path away (away_renamed f.live f.kept f)
  | inr other ↦ elim (Bool-cases (text_eq a staged_path && text_eq b place)) [
    | inl back ↦ at_paths (Renames f) a b staged_path place back (back_renamed f.live f.kept f)
    | inr neither ↦ λ good. cc (rw (other, neither) at good)
  ]
]

rename_failed :
    (f : Files) (a b : Text) (e : GitError) → (rename_in a b f).0 ≡ err e → (rename_in a b f).1 ≡ f
rename_failed f a b e h = elim (Bool-cases (text_eq a place && text_eq b staged_path)) [
  | inl away ↦ rw away (away_failed f.live f.kept f e (rw away at h))
  | inr other ↦ elim (Bool-cases (text_eq a staged_path && text_eq b place)) [
    | inl back ↦ rw (other, back) (back_failed f.live f.kept f e (rw (other, back) at h))
    | inr neither ↦ rw (other, neither) refl
  ]
]

temp_same : (kept : Option Text) (f : Files) → (make_temp kept f).1 ≡ f
temp_same none f = refl
temp_same (some c) f = refl

beneath : (f : Files) (name : Text) → f.kept ≡ none → content_of f (join tombstone_path name) ≡ none
beneath f name e = elim (Bool-cases (text_eq (join tombstone_path name) staged_path)) [
  | inl same ↦ rw same e
  | inr other ↦ rw other refl
]

temp_fresh :
    (kept : Option Text) (f : Files) (d : Text)
    → f.kept ≡ kept
    → (make_temp kept f).0 ≡ ok d
    → (content_of f d ≡ none) × ((name : Text) → content_of f (join d name) ≡ none)
temp_fresh none f d e h =
    let here : tombstone_path ≡ d = path_inj h in
    subst (λ p. (content_of f p ≡ none) × ((name : Text) → content_of f (join p name) ≡ none)) here
      (refl, λ name. beneath f name e)
temp_fresh (some c) f d e h = cc

all_gone :
    (d name : Text) (f : Files)
    → (remove_tombstone d f).0 ≡ ok tt
    → content_of (remove_tombstone d f).1 (join d name) ≡ none
all_gone d name f good = elim (Bool-cases (text_eq d tombstone_path)) [
  | inl same ↦ rw same (
      subst (λ p. content_of (record f { kept = none }) (join p name) ≡ none)
        (sym ((text_key.beq_iff d tombstone_path).0 same))
        (beneath (record f { kept = none }) name refl))
  | inr other ↦ cc (rw other at good)
]

still_none :
    (d p : Text) (f : Files) → content_of f p ≡ none → content_of (remove_tombstone d f).1 p ≡ none
still_none d p f lacks = ground arith

laws : FileLaws machine
laws = record {
  renamed = λ a b f ne good. rename_law f a b good;
  not_renamed = λ a b p e f bad. ap (λ g. content_of g p) (rename_failed f a b e bad);
  dir_removed = λ d p f ne. refl;
  fresh = λ root prefix d f e. temp_fresh f.kept f d refl e;
  made = λ root prefix d p f e ne. ap (λ g. content_of g p) (temp_same f.kept f);
  not_made = λ root prefix p e f h. ap (λ g. content_of g p) (temp_same f.kept f);
  all_removed = all_gone;
  none_created = still_none;
}

abbrev store : GitStore
store = record { root = codes "/s"; limits = standard_limits }

opens_root :
    new_store machine (codes "/s") (record { live = none; kept = none })
    ≡ (ok store, record { live = none; kept = none })
unfolding new_store with_limits
opens_root = refl

abbrev repository : Repository
repository = record { path = place; limits = store.limits; oid_len = 40 }

abbrev files : Files
files = record { live = some (codes "objects"); kept = none }

stage-Staged_example : Staged machine (codes "objects") place (stage machine store repository files)
stage-Staged_example = stage-Staged machine laws store repository (codes "objects") files refl

deletes : delete machine store (codes "p1") files ≡ (ok tt, record { live = none; kept = none })
unfolding delete commit stage_delete stage open_repository validate_slug trim_ascii
deletes = refl

-- A recursive removal that fails has removed a part. The guard is then dropped, which brings
-- what is left back to its place, where it is a repository again.
abbrev remove_part : Text → Files → Result GitError (Unit {0}) × Files
remove_part d f = (err io, record f { kept = some (codes "obj") })

part_restored :
    delete (machine_of remove_part) store (codes "p1") files
    ≡ (err io, record { live = some (codes "obj"); kept = none })
unfolding delete commit drop_guard stage_delete stage open_repository validate_slug trim_ascii
part_restored = refl
