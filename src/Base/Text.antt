-- ===== src/Base/Text.antt =====
-- `&str`, `String` and `&[u8]`: a text is the list of its UTF-8 bytes, each below 256.
-- The functions are those of the Rust standard library that the sources call. The tests on
-- characters (`char::is_whitespace`, `char::is_control`) read their UTF-8 encodings.
use Prim.Native.Nat.{ℕ}
use Prim.Native.Char.{code}
use Prim.Native.String.{String}
use mathlib.Core.Bool.{Bool, true, false, not, ◌&&◌, ◌||◌}
use mathlib.Core.Option.{Option, none, some}
use mathlib.Core.List.{List, [], ◌∷◌, reverse}
use cresix.Base.Tests.{ltb, ◌==◌, in_range, if◌then◌else◌}
use cresix.Base.Lists.{all, is_empty}
use cresix.Base.Equality.{Eq, list_beq, list_eq, nat_eq}

abbrev pub Text : Type 0
Text = List ℕ

-- Texts and byte strings as keys of maps and elements of sets.
instance abbrev pub text_key : Eq Text
text_key = list_eq

-- The bytes of an ASCII literal.
abbrev pub codes : String → Text
codes String.[] = []
codes (String.◌∷◌ first rest) = code first ∷ codes rest

abbrev pub is_ascii_lowercase : ℕ → Bool
is_ascii_lowercase c = in_range b'a' b'z' c

abbrev pub is_ascii_uppercase : ℕ → Bool
is_ascii_uppercase c = in_range b'A' b'Z' c

abbrev pub is_ascii_digit : ℕ → Bool
is_ascii_digit c = in_range b'0' b'9' c

abbrev pub is_ascii_alphanumeric : ℕ → Bool
is_ascii_alphanumeric c = is_ascii_lowercase c || is_ascii_uppercase c || is_ascii_digit c

abbrev pub is_ascii_control : ℕ → Bool
is_ascii_control c = ltb c 32 || c == 127

abbrev pub text_eq : Text → Text → Bool
text_eq = list_beq ◌==◌

-- `slice.contains(&text)`, `matches!(text, "a" | "b" | …)`
abbrev pub is_one_of : List Text → Text → Bool
is_one_of [] s = false
is_one_of (t ∷ ts) s = text_eq t s || is_one_of ts s

abbrev pub has_byte : ℕ → Text → Bool
has_byte b [] = false
has_byte b (c ∷ s) = c == b || has_byte b s

-- `s.strip_prefix(p)`
abbrev pub strip_prefix : Text → Text → Option Text
strip_prefix s [] = some s
strip_prefix [] (p ∷ ps) = none
strip_prefix (c ∷ s) (p ∷ ps) = let rest = strip_prefix s ps in if c == p then rest else none

abbrev pub starts_with : Text → Text → Bool
starts_with s [] = true
starts_with [] (p ∷ ps) = false
starts_with (c ∷ s) (p ∷ ps) = c == p && starts_with s ps

abbrev pub ends_with : Text → Text → Bool
ends_with s p = starts_with (reverse s) (reverse p)

-- `s.contains(p)` for a text `p`
abbrev pub has_text : Text → Text → Bool
has_text p [] = starts_with [] p
has_text p (c ∷ s) = starts_with (c ∷ s) p || has_text p s

-- One more byte in front of the first part.
abbrev pub push_byte : ℕ → List Text → List Text
push_byte c [] = (c ∷ []) ∷ []
push_byte c (p ∷ ps) = (c ∷ p) ∷ ps

-- `s.split(b)`: always at least one part
abbrev pub split : ℕ → Text → List Text
split b [] = [] ∷ []
split b (c ∷ s) = let rest = split b s in if c == b then [] ∷ rest else push_byte c rest

abbrev pub push_left : ℕ → Option (Text × Text) → Option (Text × Text)
push_left b none = none
push_left b (some (left, right)) = some (b ∷ left, right)

-- `s.split_once(b)`
unfoldable pub split_once : ℕ → Text → Option (Text × Text)
split_once c [] = none
split_once c (b ∷ s) =
    let rest = split_once c s in if b == c then some ([], s) else push_left b rest

-- The characters of Unicode's White_Space, by the length of their encodings.
abbrev white1 : ℕ → Bool
white1 a = in_range 9 13 a || a == 32

abbrev white2 : ℕ → ℕ → Bool
white2 a b = a == 0xc2 && (b == 0x85 || b == 0xa0)

abbrev white3 : ℕ → ℕ → ℕ → Bool
white3 a b c =
    (a == 0xe1 && b == 0x9a && c == 0x80)
    || (a == 0xe2 && b == 0x80 && (in_range 0x80 0x8a c || c == 0xa8 || c == 0xa9 || c == 0xaf))
    || (a == 0xe2 && b == 0x81 && c == 0x9f)
    || (a == 0xe3 && b == 0x80 && c == 0x80)

-- The text with each white character replaced by one space.
unfoldable pub blanked : Text → Text
blanked [] = []
blanked (a ∷ []) = (if white1 a then 32 else a) ∷ []
blanked (a ∷ b ∷ []) =
    if white2 a b then 32 ∷ [] else (if white1 a then 32 else a) ∷ blanked (b ∷ [])
blanked (a ∷ b ∷ c ∷ s) =
    let three = 32 ∷ blanked s in
    let two = 32 ∷ blanked (c ∷ s) in
    let one = (if white1 a then 32 else a) ∷ blanked (b ∷ c ∷ s) in
    if white3 a b c then three else if white2 a b then two else one

-- `s.trim().is_empty()`
unfoldable pub is_blank : Text → Bool
unfolding blanked
is_blank s = all (λ c. c == 32) (blanked s)

abbrev begins_blank : Text → Bool
begins_blank [] = false
begins_blank (c ∷ s) = c == 32

-- `s.trim() == s`
unfoldable pub is_trimmed : Text → Bool
unfolding blanked
is_trimmed s = not (begins_blank (blanked s)) && not (begins_blank (reverse (blanked s)))

abbrev drop_empty : List Text → List Text
drop_empty [] = []
drop_empty (p ∷ ps) = if is_empty p then drop_empty ps else p ∷ drop_empty ps

-- `s.split_whitespace()`
unfoldable pub split_whitespace : Text → List Text
unfolding blanked
split_whitespace s = drop_empty (split 32 (blanked s))

-- `s.chars().any(char::is_control)`: the ASCII controls, and those with two bytes, `c2 80` to `c2 9f`
unfoldable pub has_control : Text → Bool
has_control [] = false
has_control (a ∷ []) = is_ascii_control a
has_control (a ∷ b ∷ s) =
    is_ascii_control a || (a == 0xc2 && in_range 0x80 0x9f b) || has_control (b ∷ s)
