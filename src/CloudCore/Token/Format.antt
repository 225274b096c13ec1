-- ===== src/CloudCore/Token/Format.antt =====
-- What the token parser of crates/c6-cloud-core/src/token.rs accepts: the texts that
-- `issue_token` of crates/c6-cloud/src/lib.rs writes, and no other.
use cresix.Base.{
  ◌≡◌, ◌↔◌, ◌≤◌, ◌+◌, ◌++◌, ◌∷◌, [], refl, true, ok, length, arith, some, List, split_at_elem,
  take-append_of_length, get_elem?-append_of_length, Option-cases, inl, inr, length-append,
}
use cresix.Base.Text.{Text, strip_prefix}
use cresix.Base.Prefix.{strip_prefix_sound}
use cresix.CloudCore.Token.{
  TokenClass, bootstrap, cloud_session, csrf, connector, ParsedToken, prefix, all_classes,
  is_base64url, find_class, parse_remainder, parse,
}

-- The text that `issue_token` writes for a class, an identifier and a proof.
unfoldable pub format : ParsedToken → Text
format t = prefix t.class ++ b'_' ∷ (t.public_id ++ b'_' ∷ t.secret)

pub record IsWellFormed (t : ParsedToken) : Type 0 where
  pub id_len : length t.public_id ≡ 16
  pub secret_min : 32 ≤ length t.secret
  pub secret_max : length t.secret ≤ 128
  pub id_chars : is_base64url t.public_id ≡ true
  pub secret_chars : is_base64url t.secret ≡ true

find_class_sound :
    (classes : List TokenClass) (v : Text) {c : TokenClass} {rest : Text}
    → find_class classes v ≡ some (c, rest)
    → v ≡ prefix c ++ rest
unfolding find_class
find_class_sound [] v h = ground arith
find_class_sound (k ∷ ks) v {c} {rest} h = elim (Option-cases (strip_prefix v (prefix k))) [
  | inl absent ↦ find_class_sound ks v (ground arith)
  | inr (r, found) ↦ ground (arith, strip_prefix_sound v (prefix k) {r = r})
]

find_class-prefix :
    (c : TokenClass) (rest : Text) → find_class all_classes (prefix c ++ rest) ≡ some (c, rest)
unfolding find_class
find_class-prefix bootstrap rest = refl
find_class-prefix cloud_session rest = refl
find_class-prefix csrf rest = refl
find_class-prefix connector rest = refl

remainder_sound :
    (c : TokenClass) (r : Text) {t : ParsedToken}
    → parse_remainder c r ≡ ok t
    → (t.class ≡ c) × (r ≡ t.public_id ++ b'_' ∷ t.secret) × IsWellFormed t
unfolding parse_remainder
remainder_sound c r {t} h = ground (arith, split_at_elem 16 r {y = b'_'})

remainder_complete :
    (t : ParsedToken)
    → IsWellFormed t
    → parse_remainder t.class (t.public_id ++ b'_' ∷ t.secret) ≡ ok t
unfolding parse_remainder
remainder_complete t w = ground (
  arith,
  take-append_of_length 16 t.public_id (b'_' ∷ t.secret),
  get_elem?-append_of_length 16 t.public_id b'_' t.secret,
)

prefix_length : (c : TokenClass) → length (prefix c) ≡ 6
prefix_length bootstrap = refl
prefix_length cloud_session = refl
prefix_length csrf = refl
prefix_length connector = refl

length-format : (t : ParsedToken) → length (format t) ≡ 8 + length t.public_id + length t.secret
unfolding format
length-format t = omega (
  arith,
  length-append (prefix t.class) (b'_' ∷ (t.public_id ++ b'_' ∷ t.secret)),
  length-append t.public_id (b'_' ∷ t.secret),
  prefix_length t.class,
)

parse_complete : (t : ParsedToken) → IsWellFormed t → parse (format t) ≡ ok t
unfolding parse format
parse_complete t w = ground (
  arith,
  length-format t,
  find_class-prefix t.class (b'_' ∷ (t.public_id ++ b'_' ∷ t.secret)),
  remainder_complete t w,
)

parse_sound : (v : Text) {t : ParsedToken} → parse v ≡ ok t → (v ≡ format t) × IsWellFormed t
unfolding parse format
parse_sound v {t} h = elim (Option-cases (find_class all_classes v)) [
  | inl absent ↦ ground arith
  | inr ((c, rest), found) ↦ elim (Option-cases (strip_prefix rest (b'_' ∷ []))) [
    | inl absent ↦ ground arith
    | inr (r, cut) ↦
        let accepted : parse_remainder c r ≡ ok t = ground arith in
        let (same, shape, w) = remainder_sound c r accepted in
        (cc (find_class_sound all_classes v found, strip_prefix_sound rest (b'_' ∷ []) cut), w)
  ]
]

-- `ParsedToken::parse` accepts a text with the parts `t` exactly when the text is the class's
-- prefix, `_`, a public identifier, `_` and a proof, where the identifier has 16 characters,
-- the proof has 32 to 128, and both have only base64url characters.
pub parse_iff : (v : Text) (t : ParsedToken) → (parse v ≡ ok t) ↔ ((v ≡ format t) × IsWellFormed t)
parse_iff v t = (λ h. parse_sound v h, λ q. rw (q.0) (parse_complete t q.1))
