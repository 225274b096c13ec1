-- ===== src/Git/SmartHttp/Serve.antt =====
-- `SmartHttpBackend` of crates/c6-git/src/smart_http.rs: one run of `git http-backend`. The file
-- system and the process are parameters: what the path of the repository is, and what the child
-- does in an environment. The loop that waits for the child runs beside the readers, so that what
-- it has seen last is a part of what the child does.
use cresix.Base.{
  ℕ, ◌+◌, ◌^◌, List, [], ◌∷◌, ◌++◌, Bool, false, not, ◌||◌, ◌&&◌, ltb, leb, Option, none, some,
  Result, ok, err, ◌>>=◌, ◌>>◌, fail_if, ok_or, if◌then◌else◌, length, take, ◌-◌, is_empty,
}
use cresix.Base.Text.{Text, codes, text_eq, ends_with}
use cresix.Git.{GitError, validate_slug}
use cresix.Git.SmartHttp.Backend.{SmartHttpBackend}
use cresix.Git.SmartHttp.{
  SmartHttpLimits, SmartHttpError, SmartHttpResponse, invalid_request, request_too_large,
  response_too_large, child_timeout, unavailable, backend_failed, invalid_repository,
  validate_actor, validate_git_protocol, PipeRead, read_bounded, parse_cgi_response,
  advertisement_query, upload_pack_request, upload_pack_advertisement, upload_pack_result,
}

-- What the file system says of a repository's path: whether it is a link and a directory, its
-- canonical form, and the parent and the name of that.
pub record Located : Type 0 where
  pub path : Text
  pub metadata : Option (Bool × Bool)
  pub canonical : Option Text
  pub parent : Option Text
  pub file_name : Option Text

abbrev is_plain_directory : Bool × Bool → Bool
is_plain_directory (is_symlink, is_dir) = not is_symlink && is_dir

-- `strip_suffix(".git")`
abbrev repository_key : Text → Option Text
repository_key name =
    if ends_with name (codes ".git") then some (take (length name - 4) name) else none

abbrev or_invalid {ℓ} : {A : Type ℓ} → Result GitError A → Result SmartHttpError A
or_invalid (ok a) = ok a
or_invalid (err e) = err invalid_repository

unfoldable pub validate_repository : Located → Result SmartHttpError (Text × Text)
validate_repository at = do
  metadata ← ok_or at.metadata invalid_repository
  fail_if (not (is_plain_directory metadata)) invalid_repository
  canonical ← ok_or at.canonical invalid_repository
  fail_if (not (text_eq canonical at.path)) invalid_repository
  root ← ok_or at.parent invalid_repository
  name ← ok_or at.file_name invalid_repository
  key ← ok_or (repository_key name) invalid_repository
  or_invalid (validate_slug key)
  ok (root, name)

-- How the waiting loop ended: the child's exit with its success, or the overflow flag, the
-- deadline or a failed wait, each of which kills the child.
pub data Ending : Type 0 where
  exited : Bool → Ending
  saw_overflow timed_out wait_failed : Ending

pub record Child : Type 0 where
  pub stdout : List PipeRead
  pub stderr : List PipeRead
  pub written : Bool
  pub ending : Ending

abbrev pub status_of : Ending → Result SmartHttpError Bool
status_of (exited success) = ok success
status_of saw_overflow = err response_too_large
status_of timed_out = err child_timeout
status_of wait_failed = err backend_failed

pub record Request : Type 0 where
  pub method : Text
  pub path_suffix : Text
  pub query : Text
  pub content_type : Option Text
  pub git_protocol : Option Text
  pub actor_id : Text
  pub body : Text
  pub expected_content_type : Text
  pub timeout : ℕ

-- The machine: the private directory, decimal numbers, and the child that an executable, an
-- environment, the bytes for its input and a deadline give.
pub record Machine : Type 0 where
  pub private_home : Option Text
  pub to_string : ℕ → Text
  pub spawn : Text → List (Text × Text) → Text → ℕ → Option Child

abbrev given_variable : Text → Option Text → List (Text × Text)
given_variable name none = []
given_variable name (some value) = (name, value) ∷ []

-- The environment of the child, which has nothing else.
unfoldable pub environment :
    Machine → SmartHttpBackend → Text → Text → Text → Request → List (Text × Text)
environment machine backend home project_root repository_name request =
    (codes "PATH", backend.child_path)
    ∷ (codes "HOME", home)
    ∷ (codes "LANG", codes "C")
    ∷ (codes "LC_ALL", codes "C")
    ∷ (codes "GIT_CONFIG_NOSYSTEM", codes "1")
    ∷ (codes "GIT_CONFIG_GLOBAL", home ++ codes "/gitconfig")
    ∷ (codes "GIT_ATTR_NOSYSTEM", codes "1")
    ∷ (codes "GIT_PROJECT_ROOT", project_root)
    ∷ (codes "GIT_HTTP_EXPORT_ALL", codes "1")
    ∷ (codes "GIT_CONFIG_COUNT", codes "1")
    ∷ (codes "GIT_CONFIG_KEY_0", codes "http.getanyfile")
    ∷ (codes "GIT_CONFIG_VALUE_0", codes "false")
    ∷ (codes "REQUEST_METHOD", request.method)
    ∷ (codes "PATH_INFO", codes "/" ++ (repository_name ++ request.path_suffix))
    ∷ (codes "QUERY_STRING", request.query)
    ∷ (codes "REMOTE_USER", request.actor_id)
    ∷ (codes "CONTENT_LENGTH", machine.to_string (length request.body))
    ∷ (given_variable (codes "CONTENT_TYPE") request.content_type
        ++ given_variable (codes "HTTP_GIT_PROTOCOL") request.git_protocol)

-- What follows on the child: the readers are joined, and the response is parsed.
unfoldable pub finish : SmartHttpLimits → Text → Child → Result SmartHttpError SmartHttpResponse
finish limits expected child = do
  fail_if (leb (2 ^ 64) (limits.max_response_bytes + limits.max_header_bytes)) response_too_large
  kept ← read_bounded (limits.max_response_bytes + limits.max_header_bytes) child.stdout
  noise ← read_bounded limits.max_stderr_bytes child.stderr
  success ← status_of child.ending
  fail_if (not child.written || not success) backend_failed
  parse_cgi_response kept.bytes limits.max_header_bytes limits.max_response_bytes expected

unfoldable pub execute :
    Machine → SmartHttpBackend → Located → Request → Result SmartHttpError SmartHttpResponse
execute machine backend at request = do
  validate_actor request.actor_id
  validate_git_protocol request.git_protocol backend.limits.max_git_protocol_bytes
  found ← validate_repository at
  home ← ok_or machine.private_home unavailable
  child ←
      ok_or
        (machine.spawn backend.git_executable
          (environment machine backend home found.0 found.1 request) request.body request.timeout)
        unavailable
  finish backend.limits request.expected_content_type child

unfoldable pub advertise :
    Machine
    → SmartHttpBackend
    → Located
    → Text
    → Option Text
    → Text
    → Result SmartHttpError SmartHttpResponse
advertise machine backend at raw_query git_protocol actor_id = do
  fail_if (not (text_eq raw_query advertisement_query))
      (invalid_request (codes "expected exactly service=git-upload-pack"))
  execute machine backend at (record {
    method = codes "GET";
    path_suffix = codes "/info/refs";
    query = advertisement_query;
    content_type = none;
    git_protocol = git_protocol;
    actor_id = actor_id;
    body = [];
    expected_content_type = upload_pack_advertisement;
    timeout = backend.limits.advertisement_timeout;
  })

abbrev has_query : Option Text → Bool
has_query none = false
has_query (some query) = not (is_empty query)

abbrev is_upload_pack : Option Text → Bool
is_upload_pack none = false
is_upload_pack (some value) = text_eq value upload_pack_request

unfoldable pub upload_pack :
    Machine
    → SmartHttpBackend
    → Located
    → Option Text
    → Option Text
    → Option Text
    → Text
    → Text
    → Result SmartHttpError SmartHttpResponse
upload_pack machine backend at raw_query content_type git_protocol actor_id body = do
  fail_if (has_query raw_query) (invalid_request (codes "upload-pack does not accept a query"))
  fail_if (not (is_upload_pack content_type))
      (invalid_request (codes "invalid upload-pack content type"))
  fail_if (ltb backend.limits.max_request_bytes (length body)) request_too_large
  execute machine backend at (record {
    method = codes "POST";
    path_suffix = codes "/git-upload-pack";
    query = [];
    content_type = content_type;
    git_protocol = git_protocol;
    actor_id = actor_id;
    body = body;
    expected_content_type = upload_pack_result;
    timeout = backend.limits.upload_pack_timeout;
  })
