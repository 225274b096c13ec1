-- ===== src/CloudCore/Relay/HeaderLimits.antt =====
-- What the header validation of crates/c6-cloud-core/src/relay.rs accepts.
use cresix.Base.{ℕ, ◌+◌, ◌≤◌, List, [], ◌∷◌, ◌≡◌, ◌↔◌, ok, All, length, arith}
use cresix.CloudCore.Relay.{max_header_count, max_header_bytes}
use cresix.CloudCore.Relay.Headers.{
  HeaderField, validate_header, validate_headers_from, validate_headers,
}

-- The bytes of all names and values.
pub header_bytes : List HeaderField → ℕ
header_bytes [] = 0
header_bytes (h ∷ hs) = length h.name + length h.value + header_bytes hs

abbrev pub IsValidHeader : HeaderField → Type 0
IsValidHeader h = validate_header h ≡ ok tt

validate_headers_from_iff :
    (size : ℕ) (hs : List HeaderField)
    → size ≤ max_header_bytes
    → (validate_headers_from size hs ≡ ok tt)
      ↔ (All IsValidHeader hs × (size + header_bytes hs ≤ max_header_bytes))
unfolding validate_headers_from header_bytes
validate_headers_from_iff size [] h = ground arith
validate_headers_from_iff size (x ∷ xs) h =
    ground (arith, validate_headers_from_iff (size + length x.name + length x.value) xs)

-- `validate_headers` accepts a list exactly when it has at most 128 headers, each of which is
-- valid by itself, and at most 64 KiB of names and values in all: the early exit and the
-- saturating sums change nothing.
pub validate_headers_iff :
    (hs : List HeaderField)
    → (validate_headers hs ≡ ok tt) ↔ (
        (length hs ≤ max_header_count)
        × All IsValidHeader hs
        × (header_bytes hs ≤ max_header_bytes))
unfolding validate_headers
validate_headers_iff hs = ground (arith, validate_headers_from_iff 0 hs)
