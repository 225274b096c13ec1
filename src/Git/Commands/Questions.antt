-- ===== src/Git/Commands/Questions.antt =====
-- What `Repository` of crates/c6-git/src/lib.rs asks git without moving a reference, and what the
-- answers mean.
use cresix.Base.{
  List, [], ◌∷◌, Bool, true, false, ◌≡◌, inl, inr, Option, none, some, Result, ok, err,
  if◌then◌else◌, refl, ap, ◌∙◌, arith,
}
use cresix.Base.Text.{Text, codes}
use cresix.Git.{GitError}
use cresix.Git.Commands.{
  Output, History, Machine, Repository, lift, git, call_of, success, command_error, some_text,
  answer_text, resolve_commit, commit_spec, resolve_ref_optional, resolved_optional, rev_parse_args,
  is_ancestor, ancestor_args, ancestor_answer, is_code,
}
use cresix.Git.Commands.Quiet.{
  is_update, updates, Asked, Gave, Kept, Quiet-refl, Gave-Kept, Does, lift-Does, bind-Does,
  then-Does,
}

none_read :
    (good one : Bool) (text : Result GitError Text) (e : GitError)
    → (if good then some_text text else if one then ok none else err e) ≡ ok none
    → one ≡ true
none_read true one (ok t) e h = cc
none_read true one (err f) e h = cc
none_read false true text e h = refl
none_read false false text e h = cc

some_read :
    (good one : Bool) (text : Result GitError Text) (e : GitError) (oid : Text)
    → (if good then some_text text else if one then ok none else err e) ≡ ok (some oid)
    → (good ≡ true) × (text ≡ ok oid)
some_read true one (ok t) e oid h = (refl, cc)
some_read true one (err f) e oid h = cc
some_read false true text e oid h = cc
some_read false false text e oid h = cc

module _ (repository : Repository) where
  -- What a reference was read as.
  abbrev pub Read : Text → Option Text → History → Type 0
  Read reference (some oid) h = Gave (call_of repository (rev_parse_args reference) none []) oid h
  Read reference none h =
      (output : Output) × Asked (call_of repository (rev_parse_args reference) none []) (ok output)
        h
      × (is_code 1 output ≡ true)

  Read-output :
      (reference : Text) (output : Output) (h : History) (found : Option Text)
      → Asked (call_of repository (rev_parse_args reference) none []) (ok output) h
      → resolved_optional output ≡ ok found
      → Read reference found h
  Read-output reference output h none asked e = (
    output,
    asked,
    none_read (success output) (is_code 1 output) (answer_text output) (command_error output) e,
  )
  Read-output reference output h (some oid) asked e =
      let (good, text) =
        some_read (success output) (is_code 1 output) (answer_text output) (command_error output)
          oid e in
      (output, asked, good, text)

  pub Read-Kept :
      (a b : History) (reference : Text) (found : Option Text)
      → Kept a b
      → Read reference found a
      → Read reference found b
  Read-Kept a b reference none kept (output, asked, code) =
      (output, kept (call_of repository (rev_parse_args reference) none []) (ok output) asked, code)
  Read-Kept a b reference (some oid) kept read =
      Gave-Kept a b (call_of repository (rev_parse_args reference) none []) oid kept read

  -- git said that one commit is an ancestor of another.
  abbrev pub Ancestor : Text → Text → History → Type 0
  Ancestor ancestor descendant h =
      (output : Output) × Asked (call_of repository (ancestor_args ancestor descendant) none [])
        (ok output) h
      × (is_code 0 output ≡ true)

  pub Ancestor-Kept :
      (a b : History) (ancestor descendant : Text)
      → Kept a b
      → Ancestor ancestor descendant a
      → Ancestor ancestor descendant b
  Ancestor-Kept a b ancestor descendant kept (output, asked, code) = (
    output,
    kept (call_of repository (ancestor_args ancestor descendant) none []) (ok output) asked,
    code,
  )

module _ (machine : Machine) (repository : Repository) where
  pub git-Does :
      (args : List Text) (stdin : Option Text) (env : List (Text × Text))
      → is_update (call_of repository args stdin env) ≡ false
      → Does
          (git machine repository args stdin env)
          (λ output h. Asked (call_of repository args stdin env) (ok output) h)
  unfolding git updates
  git-Does args stdin env reads = record {
    quiet = λ h. record { same = rw reads refl; kept = λ call answer a. inr a };
    returns = λ h output e. inl (ap (λ r. (call_of repository args stdin env, r)) e);
  }

  pub resolve_ref_optional-Does :
      (reference : Text)
      → Does (resolve_ref_optional machine repository reference) (Read repository reference)
  unfolding resolve_ref_optional
  resolve_ref_optional-Does reference =
      bind-Does (git machine repository (rev_parse_args reference) none [])
        (λ output. lift (resolved_optional output))
        (git-Does (rev_parse_args reference) none [] refl)
        (record {
          quiet = λ output h. Quiet-refl h;
          returns =
              λ output h found asked e. Read-output repository reference output h found asked e;
        })

  said_yes : (output : Output) → ancestor_answer output ≡ ok true → is_code 0 output ≡ true
  said_yes output e = ground arith

  pub is_ancestor-Does :
      (ancestor descendant : Text)
      → Does
          (is_ancestor machine repository ancestor descendant)
          (λ answer h. answer ≡ true → Ancestor repository ancestor descendant h)
  unfolding is_ancestor
  is_ancestor-Does ancestor descendant =
      bind-Does (git machine repository (ancestor_args ancestor descendant) none [])
        (λ output. lift (ancestor_answer output))
        (git-Does (ancestor_args ancestor descendant) none [] refl)
        (record {
          quiet = λ output h. Quiet-refl h;
          returns = λ output h answer asked e positive.
              (output, asked, said_yes output (e ∙ ap ok positive));
        })

  pub resolve_commit-Does :
      (revision : Text) → Does (resolve_commit machine repository revision) (λ oid h. Unit {0})
  unfolding resolve_commit
  resolve_commit-Does revision =
      then-Does (lift (commit_spec revision)) _ (lift-Does (commit_spec revision)) (λ spec.
        then-Does
          (git machine repository (codes "rev-parse" ∷ codes "--verify" ∷ spec ∷ []) none []) _
          (git-Does (codes "rev-parse" ∷ codes "--verify" ∷ spec ∷ []) none [] refl)
          (λ output. record { quiet = Quiet-refl; returns = λ h oid e. tt }))
