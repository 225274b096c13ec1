-- ===== src/CloudCore/Relay/Headers.antt =====
-- `HttpMethod`, `HeaderField` and `validate_headers` of crates/c6-cloud-core/src/relay.rs.
use cresix.Base.{
  ℕ, List, [], ◌∷◌, Bool, not, ◌&&◌, ◌||◌, Result, ok, ◌>>◌, fail_if, ltb, ◌==◌, length, all, any,
  is_empty,
}
use cresix.Base.Text.{
  Text, codes, is_one_of, has_byte, is_ascii_lowercase, is_ascii_digit, is_ascii_control,
}
use cresix.CloudCore.Relay.{
  RelayValidationError, invalid_method, invalid_header, forbidden_header, headers_too_large,
  max_header_count, max_header_bytes, saturating_add,
}

pub record HttpMethod : Type 0 where
  pub value : Text

-- `HttpMethod::new`
unfoldable pub http_method_new : Text → Result RelayValidationError HttpMethod
http_method_new value = do
  fail_if
      (not (
        is_one_of
          (codes "GET"
            ∷ codes "HEAD"
            ∷ codes "POST"
            ∷ codes "PUT"
            ∷ codes "PATCH"
            ∷ codes "DELETE"
            ∷ codes "OPTIONS"
            ∷ [])
          value))
      invalid_method
  ok (record { value = value })

pub record HeaderField : Type 0 where
  pub name : Text
  pub value : Text

unfoldable pub is_forbidden_header : Text → Bool
is_forbidden_header name =
    is_one_of
      (codes "connection"
        ∷ codes "keep-alive"
        ∷ codes "proxy-authenticate"
        ∷ codes "proxy-authorization"
        ∷ codes "te"
        ∷ codes "trailer"
        ∷ codes "transfer-encoding"
        ∷ codes "upgrade"
        ∷ codes "content-length"
        ∷ codes "host"
        ∷ codes "forwarded"
        ∷ codes "x-forwarded-for"
        ∷ codes "x-forwarded-host"
        ∷ codes "x-forwarded-proto"
        ∷ codes "x-real-ip"
        ∷ codes "x-c6-route"
        ∷ codes "x-c6-installation"
        ∷ codes "x-cresix-route"
        ∷ codes "x-cresix-installation"
        ∷ [])
      name

abbrev name_punctuation : Text
name_punctuation = codes "!#$%&'*+-.^_`|~"

unfoldable pub is_name_byte : ℕ → Bool
is_name_byte byte = is_ascii_lowercase byte || is_ascii_digit byte || has_byte byte name_punctuation

unfoldable pub is_bad_value_byte : ℕ → Bool
is_bad_value_byte byte = (is_ascii_control byte && not (byte == b'\t')) || byte == 0x7f

-- `HeaderField::validate`
unfoldable pub validate_header : HeaderField → Result RelayValidationError (Unit {0})
validate_header header = do
  fail_if (is_empty header.name || not (all is_name_byte header.name)) invalid_header
  fail_if (any is_bad_value_byte header.value) invalid_header
  fail_if (is_forbidden_header header.name) forbidden_header
  ok tt

-- The loop of `validate_headers`, from the size summed so far.
unfoldable pub validate_headers_from : ℕ → List HeaderField → Result RelayValidationError (Unit {0})
validate_headers_from size [] = ok tt
validate_headers_from size (header ∷ headers) = do
  validate_header header
  let size' = saturating_add (saturating_add size (length header.name)) (length header.value)
  fail_if (ltb max_header_bytes size') headers_too_large
  validate_headers_from size' headers

unfoldable pub validate_headers : List HeaderField → Result RelayValidationError (Unit {0})
unfolding validate_headers_from
validate_headers headers = do
  fail_if (ltb max_header_count (length headers)) headers_too_large
  validate_headers_from 0 headers
