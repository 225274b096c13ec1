-- ===== src/Git/Commands.antt =====
-- The commands of `Repository` in crates/c6-git/src/lib.rs. Each runs git some times; what git
-- answers is a parameter, a function of the calls before and their answers, so that it may change
-- between two calls in any way. An operation returns the history of its calls with its result.
pub mod Tree
pub mod Reading
pub mod Write
pub mod Quiet
pub mod Questions
pub mod Moves
pub mod Steps
pub mod Merges
pub mod Commits
pub mod Tests
use cresix.Base.{
  ℕ, List, [], ◌∷◌, ◌++◌, Bool, true, false, ◌||◌, ◌&&◌, ◌==◌, Option, none, some, Result, ok, err,
  if◌then◌else◌, length, all,
}
use cresix.Base.Text.{Text, codes, is_ascii_digit, is_ascii_alphanumeric, has_text, text_eq}
use cresix.Base.{in_range, is_empty}
use cresix.Base.Utf8.{is_utf8}
use cresix.Git.{
  GitError, Limits, validate_branch, revision_not_found, command_failed, invalid_output,
  concurrent_update,
}

-- One run of git: its arguments behind the program, its input, and the variables that are set
-- beside `PATH`.
pub record Call : Type 0 where
  pub args : List Text
  pub stdin : Option Text
  pub env : List (Text × Text)

-- `code` is that of the exit status, none when a signal ended the process.
pub record Output : Type 0 where
  pub code : Option ℕ
  pub stdout : Text
  pub stderr : Text

-- The calls and their answers, the newest first. An error is one of starting git or of its pipes.
abbrev pub History : Type 0
History = List (Call × Result GitError Output)

-- The outside: what git answers, the path of a fresh private index, and decimal numbers.
pub record Machine : Type 0 where
  pub answer : History → Call → Result GitError Output
  pub temp_index : Result GitError Text
  pub to_string : ℕ → Text

pub record Repository : Type 0 where
  pub path : Text
  pub limits : Limits
  pub oid_len : ℕ

abbrev pub M {ℓ} : Type ℓ → Type ℓ
M A = History → Result GitError A × History

-- The `?` operator.
abbrev pub continue_with {ℓ κ} :
    {A : Type ℓ} {B : Type κ}
    → (A → M B)
    → Result GitError A × History
    → Result GitError B × History
continue_with step (ok a, history) = step a history
continue_with step (err e, history) = (err e, history)

infixl 5 ◌>>=◌ ◌>>◌
abbrev pub ◌>>=◌ {ℓ κ} : {A : Type ℓ} {B : Type κ} → M A → (A → M B) → M B
◌>>=◌ m step history = continue_with step (m history)

abbrev pub ◌>>◌ {ℓ} : {B : Type ℓ} → M (Unit {0}) → M B → M B
◌>>◌ m rest history = continue_with (λ _. rest) (m history)

-- What does not run git.
abbrev pub lift {ℓ} : {A : Type ℓ} → Result GitError A → M A
lift result history = (result, history)

-- The fixed part of every environment.
abbrev base_env : List (Text × Text)
base_env =
    (codes "GIT_CONFIG_NOSYSTEM", codes "1")
    ∷ (codes "GIT_CONFIG_GLOBAL", codes "/dev/null")
    ∷ (codes "GIT_TERMINAL_PROMPT", codes "0")
    ∷ (codes "LC_ALL", codes "C")
    ∷ []

abbrev pub call_of : Repository → List Text → Option Text → List (Text × Text) → Call
call_of repository args stdin env = record {
  args = codes "--git-dir" ∷ repository.path ∷ args;
  stdin = stdin;
  env = base_env ++ env;
}

unfoldable pub git : Machine → Repository → List Text → Option Text → List (Text × Text) → M Output
git machine repository args stdin env history =
    let call = call_of repository args stdin env in
    let answer = machine.answer history call in (answer, (call, answer) ∷ history)

abbrev pub success : Output → Bool
success output = elim output.code [ none ↦ false | some code ↦ code == 0 ]

-- The message, which the source decodes, trims and cuts to 500 characters, is the whole text.
abbrev pub command_error : Output → GitError
command_error output = command_failed output.stderr

abbrev pub require_success : Output → Result GitError (Unit {0})
require_success output = if success output then ok tt else err (command_error output)

abbrev pub utf8 : Text → Result GitError Text
utf8 bytes =
    if is_utf8 bytes
    then ok bytes
    else err (invalid_output (codes "git emitted non-UTF-8 metadata"))

abbrev is_ascii_whitespace : ℕ → Bool
is_ascii_whitespace b = b == 32 || b == 9 || b == 10 || b == 12 || b == 13

unfoldable pub trim_ascii : Text → Text
trim_ascii [] = []
trim_ascii (b ∷ s) =
    let rest = trim_ascii s in if is_empty rest && is_ascii_whitespace b then [] else b ∷ rest

-- `utf8(trim_ascii(&output.stdout))?.to_owned()`
abbrev pub answer_text : Output → Result GitError Text
answer_text output = utf8 (trim_ascii output.stdout)

abbrev is_hexdigit : ℕ → Bool
is_hexdigit b = is_ascii_digit b || in_range b'a' b'f' b || in_range b'A' b'F' b

abbrev pub is_oid : Text → Bool
is_oid value = (length value == 40 || length value == 64) && all is_hexdigit value

abbrev branch_spec : Text → Result GitError (Unit {0}) → Result GitError Text
branch_spec revision (ok _) = ok (codes "refs/heads/" ++ (revision ++ codes "^{commit}"))
branch_spec revision (err e) = err e

abbrev pub commit_spec : Text → Result GitError Text
commit_spec revision =
    if is_oid revision
    then ok (revision ++ codes "^{commit}")
    else branch_spec revision (validate_branch revision)

abbrev resolved : Text → Output → Result GitError Text
resolved revision output =
    if success output then answer_text output else err (revision_not_found revision)

unfoldable pub resolve_commit : Machine → Repository → Text → M Text
resolve_commit machine repository revision = do
  spec ← lift (commit_spec revision)
  output ← git machine repository (codes "rev-parse" ∷ codes "--verify" ∷ spec ∷ []) none []
  lift (resolved revision output)

abbrev pub rev_parse_args : Text → List Text
rev_parse_args reference = codes "rev-parse" ∷ codes "--verify" ∷ codes "--quiet" ∷ reference ∷ []

abbrev pub some_text : Result GitError Text → Result GitError (Option Text)
some_text (ok oid) = ok (some oid)
some_text (err e) = err e

abbrev is_code : ℕ → Output → Bool
is_code n output = elim output.code [ none ↦ false | some code ↦ code == n ]

abbrev pub resolved_optional : Output → Result GitError (Option Text)
resolved_optional output =
    if success output
    then some_text (answer_text output)
    else if is_code 1 output
    then ok none
    else err (command_error output)

unfoldable pub resolve_ref_optional : Machine → Repository → Text → M (Option Text)
resolve_ref_optional machine repository reference = do
  output ← git machine repository (rev_parse_args reference) none []
  lift (resolved_optional output)

abbrev pub ancestor_args : Text → Text → List Text
ancestor_args ancestor descendant =
    codes "merge-base" ∷ codes "--is-ancestor" ∷ ancestor ∷ descendant ∷ []

abbrev pub ancestor_answer : Output → Result GitError Bool
ancestor_answer output =
    if is_code 0 output
    then ok true
    else if is_code 1 output
    then ok false
    else err (command_error output)

unfoldable pub is_ancestor : Machine → Repository → Text → Text → M Bool
is_ancestor machine repository ancestor descendant = do
  output ← git machine repository (ancestor_args ancestor descendant) none []
  lift (ancestor_answer output)

abbrev pub update_args : Text → Text → Text → List Text
update_args reference new old = codes "update-ref" ∷ reference ∷ new ∷ old ∷ []

abbrev pub update_answer : Output → Result GitError (Unit {0})
update_answer output =
    if success output
    then ok tt
    else if has_text (codes "cannot lock ref") output.stderr
    then err concurrent_update
    else err (command_error output)

unfoldable pub atomic_update : Machine → Repository → Text → Text → Text → M (Unit {0})
atomic_update machine repository reference new old = do
  output ← git machine repository (update_args reference new old) none []
  lift (update_answer output)
