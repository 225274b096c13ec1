-- ===== src/CloudCore/Token/Issue.antt =====
-- `secret` and `issue_token` of crates/c6-cloud/src/lib.rs. The random bytes are arguments and
-- the URL-safe base64 encoder, which is third-party code, is a parameter.
use cresix.Base.{
  ℕ, ◌≡◌, ◌<◌, ◌+◌, ◌/◌, ◌%◌, ◌++◌, ◌∷◌, [], refl, true, ok, err, Result, length, arith, All, ltb,
  if◌then◌else◌,
}
use cresix.Base.Text.{Text}
use cresix.CloudCore.Token.{
  TokenClass, ParsedToken, SecretToken, TokenParseError, prefix, is_base64url, parse_secret, parse,
  secret_token_of,
}
use cresix.CloudCore.Token.Format.{format, IsWellFormed, parse_iff}

-- One digit of `{:02x}`.
abbrev hex_digit : ℕ → ℕ
hex_digit d = if ltb d 10 then b'0' + d else 87 + d

-- `public.iter().map(|byte| format!("{byte:02x}")).collect()`
unfoldable pub hex_encode : Text → Text
hex_encode [] = []
hex_encode (byte ∷ bytes) = hex_digit (byte / 16) ∷ hex_digit (byte % 16) ∷ hex_encode bytes

module _ (url_safe_no_pad : Text → Text) where
  -- `issue_token(class)` with the 8 and the 32 random bytes that it draws.
  unfoldable pub issue_token : TokenClass → Text → Text → Result TokenParseError SecretToken
  issue_token class public random =
      parse_secret (prefix class ++ b'_' ∷ (hex_encode public ++ b'_' ∷ url_safe_no_pad random))

hex_encode_shape :
    (bytes : Text)
    → All (λ byte. byte < 256) bytes
    → (length (hex_encode bytes) ≡ length bytes + length bytes)
      × (is_base64url (hex_encode bytes) ≡ true)
unfolding hex_encode is_base64url
hex_encode_shape [] h = (refl, refl)
hex_encode_shape (b ∷ bs) h = ground (arith, hex_encode_shape bs h.1)

secret_token_of-ok :
    (v : Text) (outcome : Result TokenParseError ParsedToken) (h : parse v ≡ outcome)
    (t : ParsedToken)
    → outcome ≡ ok t
    → (token : SecretToken) × (secret_token_of v outcome h ≡ ok token)
      × (token.value ≡ v)
      × (token.parsed ≡ t)
unfolding secret_token_of
secret_token_of-ok v (ok p) h t e = (record { value = v; parsed = p; valid = h }, refl, refl, cc)
secret_token_of-ok v (err x) h t e = cc

-- Whatever 8 bytes and 32 bytes are drawn, `issue_token` passes its own `expect`: if the
-- encoder turns 32 bytes into 43 base64url characters, the written token parses, with the
-- class asked for, the hexadecimal identifier and the encoded proof.
pub issue_token-ok :
    (url_safe_no_pad : Text → Text)
    (encoder_law : (bytes : Text)
      → length bytes ≡ 32
      → (length (url_safe_no_pad bytes) ≡ 43) × (is_base64url (url_safe_no_pad bytes) ≡ true))
    (class : TokenClass) (public random : Text)
    → length public ≡ 8
    → All (λ byte. byte < 256) public
    → length random ≡ 32
    → (token : SecretToken) × (issue_token url_safe_no_pad class public random ≡ ok token)
      × (token.value ≡ prefix class ++ b'_' ∷ (hex_encode public ++ b'_' ∷ url_safe_no_pad random))
      × (token.parsed ≡ record {
        class = class;
        public_id = hex_encode public;
        secret = url_safe_no_pad random;
      })
unfolding issue_token parse_secret format
issue_token-ok encode law class public random eight bytes full =
    let (hex_len, hex_chars) = hex_encode_shape public bytes in
    let (proof_len, proof_chars) = law random full in
    let t : ParsedToken = record {
      class = class;
      public_id = hex_encode public;
      secret = encode random;
    } in
    let w : IsWellFormed t = record {
      id_len = omega arith;
      secret_min = omega arith;
      secret_max = omega arith;
      id_chars = hex_chars;
      secret_chars = proof_chars;
    } in
    secret_token_of-ok _ _ refl t ((parse_iff (format t) t).1 (refl, w))
