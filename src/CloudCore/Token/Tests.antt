-- ===== src/CloudCore/Token/Tests.antt =====
-- The examples of crates/c6-cloud-core/src/token.rs, and the theorems at concrete tokens.
use cresix.Base.{◌≡◌, ◌↔◌, ◌++◌, ◌∷◌, [], refl, ok, err, arith, length, true}
use cresix.Base.Text.{Text, codes}
use cresix.CloudCore.Token.{
  ParsedToken, SecretToken, parse, unknown_class, malformed, find_class, parse_remainder,
  is_base64url, connector, bootstrap, prefix, class_from_str, csrf,
}
use cresix.CloudCore.Token.Format.{format, IsWellFormed, parse_iff}
use cresix.CloudCore.Token.Issue.{hex_encode, issue_token, issue_token-ok}

abbrev token : Text
token = codes "c6x_v1_AAAAAAAAAAAAAAAA_BBBBBBBBBBBBBBBBBBBBBBBBBBBBBBBB"

abbrev pub sample_parts : ParsedToken
sample_parts = record {
  class = connector;
  public_id = codes "AAAAAAAAAAAAAAAA";
  secret = codes "BBBBBBBBBBBBBBBBBBBBBBBBBBBBBBBB";
}

pub sample_parses : parse token ≡ ok sample_parts
unfolding parse find_class parse_remainder is_base64url
sample_parses = refl

abbrev pub sample_token : SecretToken
sample_token = record { value = token; parsed = sample_parts; valid = sample_parses }

wrong_class :
    parse (codes "bearer_AAAAAAAAAAAAAAAA_BBBBBBBBBBBBBBBBBBBBBBBBBBBBBBBB") ≡ err unknown_class
unfolding parse find_class
wrong_class = refl

short_id : parse (codes "c6x_v1_short_BBBBBBBBBBBBBBBBBBBBBBBBBBBBBBBB") ≡ err malformed
unfolding parse find_class parse_remainder is_base64url
short_id = refl

short_proof : parse (codes "c6x_v1_AAAAAAAAAAAAAAAA_short") ≡ err malformed
unfolding parse find_class parse_remainder is_base64url
short_proof = refl

bad_character :
    parse (codes "c6x_v1_AAAAAAAAAAAAAAAA_BBBBBBBBBBBBBBBBBBBBBBBBBBBBBBB!") ≡ err malformed
unfolding parse find_class parse_remainder is_base64url
bad_character = refl

csrf_prefix : class_from_str cresix.CloudCore.Token.all_classes (codes "c6f_v1") ≡ ok csrf
unfolding class_from_str
csrf_prefix = refl

parse_iff_example :
    (parse token ≡ ok sample_parts) ↔ ((token ≡ format sample_parts) × IsWellFormed sample_parts)
parse_iff_example = parse_iff token sample_parts

-- A stand-in for the encoder: as many characters as the encoding of 32 bytes has.
abbrev stand_in : Text → Text
stand_in bytes = codes "ABCDEFGHIJKLMNOPQRSTUVWXYZabcdefghijklmnop_"

abbrev eight_bytes : Text
eight_bytes = 0 ∷ 1 ∷ 15 ∷ 16 ∷ 127 ∷ 128 ∷ 254 ∷ 255 ∷ []

abbrev random_bytes : Text
random_bytes = codes "0123456789abcdef0123456789abcdef"

stand_in_law :
    (bytes : Text)
    → length bytes ≡ 32
    → (length (stand_in bytes) ≡ 43) × (is_base64url (stand_in bytes) ≡ true)
unfolding is_base64url
stand_in_law bytes h = (refl, refl)

bootstrap_issued :
    (t : SecretToken) × (issue_token stand_in bootstrap eight_bytes random_bytes ≡ ok t)
    × (t.value
        ≡ prefix bootstrap ++ b'_' ∷ (hex_encode eight_bytes ++ b'_' ∷ stand_in random_bytes))
    × (t.parsed ≡ record {
      class = bootstrap;
      public_id = hex_encode eight_bytes;
      secret = stand_in random_bytes;
    })
bootstrap_issued =
    issue_token-ok stand_in stand_in_law bootstrap eight_bytes random_bytes refl (omega arith) refl
