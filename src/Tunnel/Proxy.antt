-- ===== src/Tunnel/Proxy.antt =====
-- `FixedUpstream` of crates/c6-connector/src/proxy.rs: the request that the connector makes of
-- the local server. The URL parser and the HTTP client are libraries, and so parameters.
use cresix.Base.{
  ℕ, List, [], ◌∷◌, Bool, true, false, not, ◌&&◌, ◌||◌, ◌++◌, Option, none, some, Result, ok, err,
  ◌>>=◌, ◌>>◌, fail_if, ok_or, ltb, length, any, if◌then◌else◌, ◌==◌, is_empty,
}
use cresix.Base.Text.{Text, codes, text_eq, is_one_of, has_byte, starts_with, is_ascii_control}
use cresix.CloudCore.Relay.{max_response_body_bytes}
use cresix.CloudCore.Relay.Headers.{HeaderField}
use cresix.CloudCore.Relay.Frames.{RelayFailureCode, bad_gateway, timeout, protocol}
use cresix.Tunnel.{ProxyRequest, ProxyResponse}

pub data ProxyError : Type 0 where
  invalid_request unavailable timed_out response_too_large : ProxyError

-- `failure_code` of crates/c6-connector/src/runtime.rs
unfoldable pub failure_code : ProxyError → RelayFailureCode
failure_code invalid_request = protocol
failure_code unavailable = bad_gateway
failure_code response_too_large = bad_gateway
failure_code timed_out = timeout

-- `url::Url`
pub record Url : Type 0 where
  pub as_str : Text
  pub scheme : Text
  pub host_str : Option Text
  pub port_or_known_default : Option ℕ
  pub username : Text
  pub password : Option Text

-- `reqwest::Response`: each header with what `to_str().ok()` gives, and the body as read, where
-- an error is its `is_timeout`.
pub record Response : Type 0 where
  pub content_length : Option ℕ
  pub status : ℕ
  pub headers : List (Text × Option Text)
  pub bytes : Result Bool Text

-- The libraries: `Url::parse`, the parsers of `HeaderName` and `HeaderValue`, and the client.
pub record Http : Type 0 where
  pub parse_url : Text → Option Url
  pub parse_name : Text → Option Text
  pub parse_value : Text → Option Text
  pub send : Text → Url → List (Text × Text) → Text → Result Bool Response

-- `FixedUpstream::new`, where `client` is what the builder of the HTTP client gives
unfoldable pub upstream_new {ℓ} : {C : Type ℓ} → Result Text C → Result ProxyError C
upstream_new (ok client) = ok client
upstream_new (err message) = err unavailable

unfoldable pub is_allowed_method : Text → Bool
is_allowed_method value =
    is_one_of
      (codes "GET"
        ∷ codes "HEAD"
        ∷ codes "POST"
        ∷ codes "PUT"
        ∷ codes "PATCH"
        ∷ codes "DELETE"
        ∷ codes "OPTIONS"
        ∷ [])
      value

abbrev pub validate_method : Text → Result ProxyError Text
validate_method value = if is_allowed_method value then ok value else err invalid_request

unfoldable pub blocked_header : Text → Bool
blocked_header name =
    is_one_of
      (codes "connection"
        ∷ codes "keep-alive"
        ∷ codes "proxy-authenticate"
        ∷ codes "proxy-authorization"
        ∷ codes "te"
        ∷ codes "trailer"
        ∷ codes "transfer-encoding"
        ∷ codes "upgrade"
        ∷ codes "host"
        ∷ codes "content-length"
        ∷ codes "forwarded"
        ∷ codes "x-forwarded-for"
        ∷ codes "x-forwarded-host"
        ∷ codes "x-forwarded-proto"
        ∷ codes "x-real-ip"
        ∷ codes "x-c6-route"
        ∷ codes "x-c6-installation"
        ∷ codes "x-cresix-route"
        ∷ codes "x-cresix-installation"
        ∷ [])
      name
    || starts_with name (codes "x-c6-relay-")

-- One round of the loop of `filter_request_headers`, before the rest of the loop.
abbrev pub filter_field : Http → HeaderField → Result ProxyError (List (Text × Text))
filter_field http field = do
  name ← ok_or (http.parse_name field.name) invalid_request
  if blocked_header name then ok [] else (do
    value ← ok_or (http.parse_value field.value) invalid_request
    ok ((name, value) ∷ []))

unfoldable pub filter_request_headers :
    Http → List HeaderField → Result ProxyError (List (Text × Text))
filter_request_headers http [] = ok []
filter_request_headers http (field ∷ fields) = do
  kept ← filter_field http field
  rest ← filter_request_headers http fields
  ok (kept ++ rest)

abbrev pub readable : Text → Option Text → List HeaderField
readable name none = []
readable name (some value) = record { name = name; value = value } ∷ []

unfoldable pub response_headers : List (Text × Option Text) → List HeaderField
response_headers [] = []
response_headers ((name, value) ∷ headers) =
    let rest = response_headers headers in
    if blocked_header name then rest else readable name value ++ rest

unfoldable pub is_bad_path : Text → Bool
is_bad_path target =
    not (starts_with target (codes "/"))
    || starts_with target (codes "//")
    || has_byte b'#' target
    || any is_ascii_control target

abbrev optional_text_eq : Option Text → Option Text → Bool
optional_text_eq none none = true
optional_text_eq (some a) (some b) = text_eq a b
optional_text_eq _ _ = false

abbrev optional_number_eq : Option ℕ → Option ℕ → Bool
optional_number_eq none none = true
optional_number_eq (some a) (some b) = a == b
optional_number_eq _ _ = false

abbrev pub is_some {ℓ} : {A : Type ℓ} → Option A → Bool
is_some none = false
is_some (some a) = true

unfoldable pub leaves_origin : Url → Url → Bool
leaves_origin origin parsed =
    not (text_eq parsed.scheme origin.scheme)
    || not (optional_text_eq parsed.host_str origin.host_str)
    || not (optional_number_eq parsed.port_or_known_default origin.port_or_known_default)
    || not (is_empty parsed.username)
    || is_some parsed.password

-- `trim_end_matches('/')`
abbrev trim_slashes : Text → Text
trim_slashes [] = []
trim_slashes (b ∷ s) =
    let rest = trim_slashes s in if is_empty rest && b == b'/' then [] else b ∷ rest

unfoldable pub target_url : Http → Url → Text → Result ProxyError Url
target_url http origin target = do
  fail_if (is_bad_path target) invalid_request
  parsed ← ok_or (http.parse_url (trim_slashes origin.as_str ++ target)) invalid_request
  fail_if (leaves_origin origin parsed) invalid_request
  ok parsed

-- `map_err(classify_reqwest)`
unfoldable pub classify_reqwest {ℓ} : {A : Type ℓ} → Result Bool A → Result ProxyError A
classify_reqwest (ok a) = ok a
classify_reqwest (err true) = err timed_out
classify_reqwest (err false) = err unavailable

abbrev announces_too_much : Option ℕ → Bool
announces_too_much none = false
announces_too_much (some n) = ltb max_response_body_bytes n

abbrev pub read_response : Response → Result ProxyError ProxyResponse
read_response response = do
  fail_if (announces_too_much response.content_length) response_too_large
  bytes ← classify_reqwest response.bytes
  fail_if (ltb max_response_body_bytes (length bytes)) response_too_large
  ok (record {
    status = response.status;
    headers = response_headers response.headers;
    body = bytes;
  })

unfoldable pub execute : Http → Url → ProxyRequest → Result ProxyError ProxyResponse
execute http origin request = do
  method ← validate_method request.method
  url ← target_url http origin request.target
  headers ← filter_request_headers http request.headers
  response ← classify_reqwest (http.send method url headers request.body)
  read_response response
