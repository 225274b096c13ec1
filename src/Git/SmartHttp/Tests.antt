-- ===== src/Git/SmartHttp/Tests.antt =====
-- The theorem on served responses at a concrete run, and a run that loses output, for
-- crates/c6-git/src/smart_http.rs.
use cresix.Base.{
  Option, ℕ, ◌≡◌, List, [], ◌∷◌, ◌++◌, true, false, none, some, ok, refl, arith, subst,
}
use cresix.Base.Text.{Text, codes, split_once, text_key}
use cresix.Git.{validate_slug}
use cresix.Base.Utf8.{is_utf8_from}
use cresix.Git.SmartHttp.{
  SmartHttpLimits, SmartHttpResponse, default_limits, validate_limits, validate_actor,
  validate_git_protocol, bytes_read, read_bounded, read_chunks, separator, parse_cgi_response,
  parse_lines, parse_line, on_header, upload_pack_result,
}
use cresix.Git.SmartHttp.Backend.{
  SmartHttpBackend, Candidate, from_environment, with_git_executable,
}
use cresix.Git.SmartHttp.Serve.{
  Located, Child, exited, Request, Machine, validate_repository, environment, finish, execute,
}
use cresix.Git.SmartHttp.Whole.{IsServed, SmallReads, execute-IsServed}

abbrev header_text : Text
header_text = codes "Content-Type: application/x-git-upload-pack-result" ++ (10 ∷ 10 ∷ [])

abbrev sample_child : Child
sample_child = record {
  stdout = bytes_read (header_text ++ codes "PACK") ∷ [];
  stderr = [];
  written = true;
  ending = exited true;
}

abbrev machine : Machine
machine = record {
  private_home = some (codes "/tmp/h");
  to_string = λ n. codes "0";
  spawn = λ program variables input timeout. some sample_child;
}

-- The directory of the executable comes first, and no directory comes twice.
abbrev join_paths : List Text → Option Text
join_paths [] = some []
join_paths (path ∷ []) = some path
join_paths (path ∷ next ∷ paths) = elim (join_paths (next ∷ paths)) [
  | none ↦ none
  | some rest ↦ some (path ++ codes ":" ++ rest)
]

abbrev no_git : Candidate
no_git = record { is_file = false; canonical = none; canonical_is_file = false; parent = none }

abbrev usr_bin_git : Candidate
usr_bin_git = record {
  is_file = true;
  canonical = some (codes "/usr/bin/git");
  canonical_is_file = true;
  parent = some (codes "/usr/bin");
}

abbrev backend : SmartHttpBackend
backend = record {
  git_executable = codes "/usr/bin/git";
  child_path = codes "/usr/bin:/bin";
  limits = default_limits;
}

finds_git :
    from_environment join_paths (some (no_git ∷ usr_bin_git ∷ [])) default_limits ≡ ok backend
unfolding from_environment with_git_executable validate_limits
finds_git = refl

abbrev located : Located
located = record {
  path = codes "/repos/p1.git";
  metadata = some (false, true);
  canonical = some (codes "/repos/p1.git");
  parent = some (codes "/repos");
  file_name = some (codes "p1.git");
}

abbrev sample_request : Request
sample_request = record {
  method = codes "POST";
  path_suffix = codes "/git-upload-pack";
  query = [];
  content_type = none;
  git_protocol = some (codes "version=2");
  actor_id = codes "u1";
  body = codes "0000";
  expected_content_type = upload_pack_result;
  timeout = 1000;
}

abbrev pack : SmartHttpResponse
pack = record {
  status = 200;
  headers = (codes "Content-Type", upload_pack_result) ∷ [];
  body = codes "PACK";
}

serves : execute machine backend located sample_request ≡ ok pack
unfolding execute validate_actor validate_git_protocol validate_repository validate_slug environment
    finish read_bounded read_chunks parse_cgi_response separator is_utf8_from parse_lines parse_line
    on_header split_once
serves = refl

some_inj : {a b : Child} → some a ≡ some b → a ≡ b
some_inj h = cc

small_reads :
    (program : Text) (variables : List (Text × Text)) (input : Text) (timeout : ℕ) (child : Child)
    → some sample_child ≡ some child
    → SmallReads child.stdout
small_reads program variables input timeout child h =
    subst (λ c. SmallReads c.stdout) (some_inj h) (omega arith, tt)

execute-IsServed_example :
    (root : Text) × (name : Text) × (home : Text) × (child : Child) × (validate_repository located
      ≡ ok (root, name))
    × (validate_actor (codes "u1") ≡ ok tt)
    × (validate_git_protocol (some (codes "version=2")) 256 ≡ ok tt)
    × (some sample_child ≡ some child)
    × IsServed default_limits upload_pack_result child pack
execute-IsServed_example =
    execute-IsServed machine backend located sample_request pack (omega arith) small_reads serves

-- A header limit below the size of a read: the second read is dropped, the child exits before the
-- waiting loop sees the overflow, and the rest is served as if it were all.
abbrev narrow_limits : SmartHttpLimits
narrow_limits = record default_limits { max_response_bytes = 8; max_header_bytes = 128 }

abbrev long_child : Child
long_child = record {
  stdout =
      bytes_read (header_text ++ codes "PACK")
      ∷ bytes_read (header_text ++ (header_text ++ codes "more"))
      ∷ [];
  stderr = [];
  written = true;
  ending = exited true;
}

narrow_limits-validate : validate_limits narrow_limits ≡ ok tt
unfolding validate_limits
narrow_limits-validate = refl

truncated_served : finish narrow_limits upload_pack_result long_child ≡ ok pack
unfolding finish read_bounded read_chunks parse_cgi_response separator is_utf8_from parse_lines
    parse_line on_header split_once
truncated_served = refl
