-- ===== src/CloudCore/Token.antt =====
-- crates/c6-cloud-core/src/token.rs: the classes of credentials and the fixed-width token
-- format `<prefix>_<16 bytes>_<proof>`. The proofs are in the children.
pub mod Format
pub mod Issue
pub mod Tests
use cresix.Base.{
  ℕ, List, [], ◌∷◌, Option, none, some, ◌≡◌, refl, Bool, true, false, not, ◌&&◌, ◌||◌, Result, ok,
  err, ◌>>=◌, ◌>>◌, fail_if, ok_or, ltb, ◌==◌, in_range, if◌then◌else◌, length, get_elem?, take,
  drop, all,
}
use cresix.Base.Text.{Text, codes, strip_prefix, is_ascii_alphanumeric}

pub data TokenClass : Type 0 where
  bootstrap cloud_session csrf connector : TokenClass

pub data TokenParseError : Type 0 where
  unknown_class malformed : TokenParseError

-- `TokenClass::ALL`
abbrev pub all_classes : List TokenClass
all_classes =
    TokenClass.bootstrap ∷ TokenClass.cloud_session ∷ TokenClass.csrf ∷ TokenClass.connector ∷ []

abbrev pub prefix : TokenClass → Text
prefix bootstrap = codes "c6b_v1"
prefix cloud_session = codes "c6s_v1"
prefix csrf = codes "c6f_v1"
prefix connector = codes "c6x_v1"

abbrev pub max_len : ℕ
max_len = 256

pub record ParsedToken : Type 0 where
  pub class : TokenClass
  pub public_id : Text
  pub secret : Text

abbrev pub is_base64url_byte : ℕ → Bool
is_base64url_byte byte = is_ascii_alphanumeric byte || byte == b'-' || byte == b'_'

unfoldable pub is_base64url : Text → Bool
is_base64url value = all is_base64url_byte value

-- The first class whose prefix the value has, with the rest of the value.
unfoldable pub find_class : List TokenClass → Text → Option (TokenClass × Text)
find_class [] value = none
find_class (class ∷ classes) value =
    let later = find_class classes value in
    elim (strip_prefix value (prefix class)) [ none ↦ later | some rest ↦ some (class, rest) ]

-- The cut at the fixed width. Slicing at 16 and 17 cannot split a character, since the byte
-- at 16 is `_`.
unfoldable pub parse_remainder : TokenClass → Text → Result TokenParseError ParsedToken
parse_remainder class remainder = do
  byte ← ok_or (get_elem? remainder 16) malformed
  fail_if (not (byte == b'_')) malformed
  let public_id = take 16 remainder
  let secret = drop 17 remainder
  fail_if
      (not (in_range 32 128 (length secret))
        || not (is_base64url public_id)
        || not (is_base64url secret))
      malformed
  ok (record { class = class; public_id = public_id; secret = secret })

-- `ParsedToken::parse`
unfoldable pub parse : Text → Result TokenParseError ParsedToken
parse value = do
  fail_if (ltb max_len (length value)) malformed
  (class, rest) ← ok_or (find_class all_classes value) unknown_class
  remainder ← ok_or (strip_prefix rest (b'_' ∷ [])) malformed
  parse_remainder class remainder

-- A token that `SecretToken::parse` has accepted, with what its construction has checked;
-- `SecretToken::parsed` is the field `parsed`, and its `expect` cannot fail.
pub record SecretToken : Type 0 where
  pub value : Text
  pub parsed : ParsedToken
  pub valid : parse value ≡ ok parsed

-- `SecretToken::parse`
secret_token_of :
    (value : Text) (outcome : Result TokenParseError ParsedToken)
    → parse value ≡ outcome
    → Result TokenParseError SecretToken
secret_token_of value (ok parsed) h = ok (record { value = value; parsed = parsed; valid = h })
secret_token_of value (err e) h = err e

unfoldable pub parse_secret : Text → Result TokenParseError SecretToken
unfolding secret_token_of
parse_secret value = secret_token_of value (parse value) refl

-- `TokenClass::from_str`
unfoldable pub class_from_str : List TokenClass → Text → Result TokenParseError TokenClass
class_from_str [] value = err unknown_class
class_from_str (class ∷ classes) value =
    let later = class_from_str classes value in
    if cresix.Base.Text.text_eq (prefix class) value then ok class else later
