-- ===== src/Git/Commands/Tree.antt =====
-- What git prints, as crates/c6-git/src/lib.rs parses it: the records of `git ls-tree`, of
-- `git for-each-ref` and of `git show`.
use cresix.Base.{
  ℕ, zero, suc, ◌^◌, ◌-◌, List, [], ◌∷◌, ◌&&◌, ◌==◌, Option, none, some, Result, ok, err, ◌>>=◌,
  ok_or, if◌then◌else◌, is_empty,
}
use cresix.Base.Text.{Text, codes, split, split_once, split_whitespace, text_eq}
use cresix.Base.Utf8.{parse_unsigned}
use cresix.Git.{GitError, invalid_output, not_found}
use cresix.Git.Commands.{utf8}

pub data EntryKind : Type 0 where
  blob tree commit : EntryKind

pub record TreeEntry : Type 0 where
  pub path : Text
  pub oid : Text
  pub kind : EntryKind
  pub size : Option ℕ

pub record Branch : Type 0 where
  pub name : Text
  pub oid : Text

pub record Commit : Type 0 where
  pub oid : Text
  pub parent_oids : List Text
  pub author_name : Text
  pub author_email : Text
  pub authored_at : Text
  pub message : Text

abbrev pub drop_empty : List Text → List Text
drop_empty [] = []
drop_empty (p ∷ ps) = if is_empty p then drop_empty ps else p ∷ drop_empty ps

-- `map(parse).collect::<Result<Vec<_>, _>>()`
unfoldable pub collect :
    {A : Type 0} → (Text → Result GitError A) → List Text → Result GitError (List A)
collect parse [] = ok []
collect parse (record_text ∷ rest) = do
  first ← parse record_text
  others ← collect parse rest
  ok (first ∷ others)

abbrev kind_of : Text → Result GitError EntryKind
kind_of word =
    if text_eq word (codes "blob")
    then ok blob
    else if text_eq word (codes "tree")
    then ok tree
    else if text_eq word (codes "commit")
    then ok commit
    else err (invalid_output (codes "unknown tree entry type"))

abbrev some_size : Option ℕ → Result GitError (Option ℕ)
some_size none = err (invalid_output (codes "invalid tree size"))
some_size (some size) = ok (some size)

abbrev entry_size : Text → Result GitError (Option ℕ)
entry_size word =
    if text_eq word (codes "-") then ok none else some_size (parse_unsigned (2 ^ 64 - 1) word)

abbrev tree_entry : Text → List Text → Result GitError TreeEntry
tree_entry path (mode ∷ word ∷ oid ∷ size ∷ []) = do
  kind ← kind_of word
  bytes ← entry_size size
  ok (record { path = path; oid = oid; kind = kind; size = bytes })
tree_entry path _ = err (invalid_output (codes "malformed tree record"))

unfoldable pub parse_tree_record : Text → Result GitError TreeEntry
parse_tree_record record_text = do
  parts ← ok_or (split_once 9 record_text) (invalid_output (codes "tree record lacks path"))
  header ← utf8 parts.0
  path ← utf8 parts.1
  tree_entry path (split_whitespace header)

unfoldable pub parse_tree_entries : Text → Result GitError (List TreeEntry)
parse_tree_entries bytes = collect parse_tree_record (drop_empty (split 0 bytes))

abbrev pub exact_entry : Text → List TreeEntry → Result GitError TreeEntry
exact_entry expected_path [] = err (not_found expected_path)
exact_entry expected_path (entry ∷ []) =
    if text_eq entry.path expected_path
    then ok entry
    else err (invalid_output (codes "ambiguous tree path"))
exact_entry expected_path (entry ∷ next ∷ entries) =
    err (invalid_output (codes "ambiguous tree path"))

unfoldable pub parse_exact_tree_entry : Text → Text → Result GitError TreeEntry
parse_exact_tree_entry bytes expected_path = do
  entries ← parse_tree_entries bytes
  exact_entry expected_path entries

-- `splitn(n + 1, |byte| byte == b)`
unfoldable pub splitn : ℕ → ℕ → Text → List Text
splitn b zero s = s ∷ []
splitn b (suc n) s = elim (split_once b s) [
  | none ↦ s ∷ []
  | some (left, right) ↦ left ∷ splitn b n right
]

abbrev branch_of : List Text → Result GitError Branch
branch_of (name ∷ oid ∷ []) = do
  name_text ← utf8 name
  oid_text ← utf8 oid
  ok (record { name = name_text; oid = oid_text })
branch_of _ = err (invalid_output (codes "malformed branch record"))

unfoldable pub parse_branch : Text → Result GitError Branch
parse_branch line = branch_of (splitn 0 1 line)

abbrev trim_newlines : Text → Text
trim_newlines [] = []
trim_newlines (b ∷ s) =
    let rest = trim_newlines s in if is_empty rest && b == 10 then [] else b ∷ rest

abbrev commit_of : List Text → Result GitError Commit
commit_of (oid ∷ parents ∷ name ∷ email ∷ at ∷ message ∷ []) = do
  oid_text ← utf8 oid
  parents_text ← utf8 parents
  name_text ← utf8 name
  email_text ← utf8 email
  at_text ← utf8 at
  message_text ← utf8 message
  ok (record {
    oid = oid_text;
    parent_oids = split_whitespace parents_text;
    author_name = name_text;
    author_email = email_text;
    authored_at = at_text;
    message = trim_newlines message_text;
  })
commit_of _ = err (invalid_output (codes "malformed commit record"))

unfoldable pub parse_commit : Text → Result GitError Commit
parse_commit stdout = commit_of (splitn 0 5 stdout)
