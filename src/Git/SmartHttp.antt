-- ===== src/Git/SmartHttp.antt =====
-- crates/c6-git/src/smart_http.rs: the limits, the checks on a request, and the response of the
-- CGI process, read within a bound and parsed. The process itself is in Serve.
pub mod Backend
pub mod Serve
pub mod Accepted
pub mod Whole
pub mod Tests
use cresix.Base.{
  ℕ, ◌+◌, ◌-◌, ◌*◌, ◌^◌, List, [], ◌∷◌, ◌++◌, Bool, true, false, not, ◌||◌, ◌&&◌, ◌==◌, ltb, leb,
  in_range, Option, none, some, Result, ok, err, ◌>>=◌, ◌>>◌, fail_if, ok_or, if◌then◌else◌, length,
  take, drop, all, any, is_empty, min,
}
use cresix.Base.Utf8.{is_utf8, parse_unsigned}
use cresix.Base.Text.{
  Text, codes, text_eq, is_one_of, has_byte, starts_with, split, split_once, is_ascii_alphanumeric,
  is_ascii_control, is_ascii_digit, is_ascii_uppercase,
}

abbrev pub upload_pack_request : Text
upload_pack_request = codes "application/x-git-upload-pack-request"

abbrev pub upload_pack_advertisement : Text
upload_pack_advertisement = codes "application/x-git-upload-pack-advertisement"

abbrev pub upload_pack_result : Text
upload_pack_result = codes "application/x-git-upload-pack-result"

abbrev pub advertisement_query : Text
advertisement_query = codes "service=git-upload-pack"

-- Times in milliseconds.
pub record SmartHttpLimits : Type 0 where
  pub max_request_bytes : ℕ
  pub max_response_bytes : ℕ
  pub max_header_bytes : ℕ
  pub max_stderr_bytes : ℕ
  pub max_git_protocol_bytes : ℕ
  pub advertisement_timeout : ℕ
  pub upload_pack_timeout : ℕ

abbrev pub default_limits : SmartHttpLimits
default_limits = record {
  max_request_bytes = 16 * 1024 * 1024;
  max_response_bytes = 64 * 1024 * 1024;
  max_header_bytes = 32 * 1024;
  max_stderr_bytes = 16 * 1024;
  max_git_protocol_bytes = 256;
  advertisement_timeout = 30 * 1000;
  upload_pack_timeout = 10 * 60 * 1000;
}

pub data SmartHttpError : Type 0 where
  invalid_request : Text → SmartHttpError
  request_too_large response_too_large child_timeout unavailable : SmartHttpError
  backend_failed invalid_response invalid_repository : SmartHttpError

pub record SmartHttpResponse : Type 0 where
  pub status : ℕ
  pub headers : List (Text × Text)
  pub body : Text

unfoldable pub validate_limits : SmartHttpLimits → Result SmartHttpError (Unit {0})
validate_limits limits =
    fail_if
      (limits.max_request_bytes == 0
        || limits.max_response_bytes == 0
        || ltb limits.max_header_bytes 128
        || ltb (1024 * 1024) limits.max_header_bytes
        || limits.max_stderr_bytes == 0
        || limits.max_git_protocol_bytes == 0
        || ltb 4096 limits.max_git_protocol_bytes
        || limits.advertisement_timeout == 0
        || limits.upload_pack_timeout == 0)
      (invalid_request (codes "unsafe smart HTTP limits"))

abbrev pub is_actor : Text → Bool
is_actor actor =
    in_range 1 128 (length actor)
    && all (λ b. is_ascii_alphanumeric b || b == b'-' || b == b'_') actor

unfoldable pub validate_actor : Text → Result SmartHttpError (Unit {0})
validate_actor actor =
    fail_if (not (is_actor actor)) (invalid_request (codes "invalid actor identifier"))

unfoldable pub validate_git_protocol : Option Text → ℕ → Result SmartHttpError (Unit {0})
validate_git_protocol none max = ok tt
validate_git_protocol (some protocol) max = do
  fail_if (ltb max (length protocol)) (invalid_request (codes "Git-Protocol is too large"))
  fail_if (not (is_one_of (codes "version=1" ∷ codes "version=2" ∷ []) protocol))
      (invalid_request (codes "unsupported Git-Protocol"))

-- What a read of a pipe gives: some bytes, at most 16 KiB of them, or an error.
pub data PipeRead : Type 0 where
  bytes_read : Text → PipeRead
  read_failed : PipeRead

-- The bytes kept and the overflow flag, which only this reader sets.
pub record Bounded : Type 0 where
  pub bytes : Text
  pub overflow : Bool

abbrev pub keep_chunk : ℕ → Bounded → Text → Bounded
keep_chunk limit kept chunk =
    if ltb limit (min (length kept.bytes + length chunk) (2 ^ 64 - 1))
    then record kept { overflow = true }
    else if kept.overflow
    then kept
    else record kept { bytes = kept.bytes ++ chunk }

-- The loop: the end of the list is the end of the stream.
unfoldable pub read_chunks : ℕ → Bounded → List PipeRead → Result SmartHttpError Bounded
read_chunks limit kept [] = ok kept
read_chunks limit kept (read_failed ∷ reads) = err backend_failed
read_chunks limit kept (bytes_read chunk ∷ reads) =
    if is_empty chunk then ok kept else read_chunks limit (keep_chunk limit kept chunk) reads

unfoldable pub read_bounded : ℕ → List PipeRead → Result SmartHttpError Bounded
read_bounded limit reads = read_chunks limit (record { bytes = []; overflow = false }) reads

-- `bytes.windows(n).position(|window| window == p)` for a text `p` of `n` bytes
abbrev pub position : Text → Text → Option ℕ
position p [] = none
position p (b ∷ s) =
    let rest = position p s in
    if starts_with (b ∷ s) p then some 0 else elim rest [ none ↦ none | some n ↦ some (n + 1) ]

-- The place and the length of the blank line behind the headers.
unfoldable pub separator : Text → Option (ℕ × ℕ)
separator bytes = elim (position (13 ∷ 10 ∷ 13 ∷ 10 ∷ []) bytes) [
  | some at ↦ some (at, 4)
  | none ↦ elim (position (10 ∷ 10 ∷ []) bytes) [ some at ↦ some (at, 2) | none ↦ none ]
]

abbrev strip_return : Text → Text
strip_return [] = []
strip_return (b ∷ s) = let rest = strip_return s in if is_empty s && b == 13 then [] else b ∷ rest

-- `str::lines` on the parts between the line feeds: a part behind the last one that is empty is
-- no line, and only a line that a line feed ends loses a carriage return.
abbrev pub lines_of : List Text → List Text
lines_of [] = []
lines_of (last ∷ []) = if is_empty last then [] else last ∷ []
lines_of (line ∷ next ∷ parts) = strip_return line ∷ lines_of (next ∷ parts)

abbrev is_blank_byte : ℕ → Bool
is_blank_byte b = b == 32 || b == 9

abbrev pub trim_left : Text → Text
trim_left [] = []
trim_left (b ∷ s) = if is_blank_byte b then trim_left s else b ∷ s

abbrev pub trim_right : Text → Text
trim_right [] = []
trim_right (b ∷ s) =
    let rest = trim_right s in if is_empty rest && is_blank_byte b then [] else b ∷ rest

abbrev pub to_ascii_lowercase : Text → Text
to_ascii_lowercase [] = []
to_ascii_lowercase (b ∷ s) = (if is_ascii_uppercase b then b + 32 else b) ∷ to_ascii_lowercase s

-- `split_ascii_whitespace().next()` on a value that has no control characters
abbrev pub word_of : Text → Text
word_of [] = []
word_of (b ∷ s) = if b == 32 then [] else b ∷ word_of s

-- The variables of the loop over the header lines.
pub record Parsed : Type 0 where
  pub status : ℕ
  pub saw_status : Bool
  pub saw_content_type : Bool
  pub headers : List (Text × Text)

abbrev pub push_header : Parsed → Text → Text → Parsed
push_header parsed name value = record parsed { headers = parsed.headers ++ ((name, value) ∷ []) }

abbrev pub on_status : Parsed → Text → Result SmartHttpError Parsed
on_status parsed value = do
  fail_if parsed.saw_status invalid_response
  code ← ok_or (parse_unsigned 65535 (word_of (trim_left value))) invalid_response
  fail_if (not (in_range 200 599 code)) invalid_response
  ok (record parsed { status = code; saw_status = true })

abbrev pub on_content_type : Text → Parsed → Text → Result SmartHttpError Parsed
on_content_type expected parsed value = do
  fail_if (parsed.saw_content_type || not (text_eq value expected)) invalid_response
  ok (record (push_header parsed (codes "Content-Type") value) { saw_content_type = true })

unfoldable pub on_header : Text → Parsed → Text → Text → Result SmartHttpError Parsed
on_header expected parsed name value =
    if text_eq name (codes "status")
    then on_status parsed value
    else if text_eq name (codes "content-type")
    then on_content_type expected parsed value
    else if text_eq name (codes "cache-control")
    then ok (push_header parsed (codes "Cache-Control") value)
    else if text_eq name (codes "expires")
    then ok (push_header parsed (codes "Expires") value)
    else if text_eq name (codes "pragma")
    then ok (push_header parsed (codes "Pragma") value)
    else ok parsed

abbrev begins_with_blank : Text → Bool
begins_with_blank [] = false
begins_with_blank (b ∷ s) = is_blank_byte b

unfoldable pub parse_line : Text → Parsed → Text → Result SmartHttpError Parsed
parse_line expected parsed line = do
  fail_if (is_empty line || begins_with_blank line || has_byte 0 line) invalid_response
  pair ← ok_or (split_once b':' line) invalid_response
  let value = trim_right (trim_left pair.1)
  fail_if (is_empty value || any is_ascii_control value) invalid_response
  on_header expected parsed (to_ascii_lowercase pair.0) value

unfoldable pub parse_lines : Text → Parsed → List Text → Result SmartHttpError Parsed
parse_lines expected parsed [] = ok parsed
parse_lines expected parsed (line ∷ lines) = do
  next ← parse_line expected parsed line
  parse_lines expected next lines

abbrev pub no_headers : Parsed
no_headers = record { status = 200; saw_status = false; saw_content_type = false; headers = [] }

unfoldable pub parse_cgi_response : Text → ℕ → ℕ → Text → Result SmartHttpError SmartHttpResponse
parse_cgi_response bytes max_header_bytes max_body_bytes expected = do
  cut ← ok_or (separator bytes) invalid_response
  fail_if (ltb max_header_bytes (min (cut.0 + cut.1) (2 ^ 64 - 1))) invalid_response
  let body = drop (cut.0 + cut.1) bytes
  fail_if (ltb max_body_bytes (length body)) response_too_large
  fail_if (not (is_utf8 (take cut.0 bytes))) invalid_response
  parsed ← parse_lines expected no_headers (lines_of (split 10 (take cut.0 bytes)))
  fail_if (not parsed.saw_content_type) invalid_response
  ok (record { status = parsed.status; headers = parsed.headers; body = body })
