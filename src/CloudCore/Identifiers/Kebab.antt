-- ===== src/CloudCore/Identifiers/Kebab.antt =====
-- The slugs of crates/c6-cloud-core/src/identifiers.rs as a language: words of lowercase
-- letters and digits with one hyphen between two words.
use cresix.Base.{
  ℕ, List, [], ◌∷◌, ◌≡◌, ◌↔◌, ◌≤◌, ◌-◌, suc, refl, Bool, true, false, not, ◌&&◌, ◌||◌, arith, ok,
  length, all, any, is_empty, ◌==◌, if◌then◌else◌,
}
use cresix.Base.Text.{Text, split, push_byte, is_one_of}
use cresix.CloudCore.Identifiers.{is_alnum, is_alnum_at, has_double_hyphen, validate_slug}

-- A word between hyphens.
abbrev pub is_word : Text → Bool
is_word part = not (is_empty part) && all is_alnum part

-- The parts of a text between hyphens, the first of which may be empty.
abbrev first_open : List Text → Bool
first_open [] = true
first_open (p ∷ ps) = all is_alnum p && all is_word ps

-- What is asked of the bytes behind an alphanumeric one.
continues : Text → Bool
continues s =
    not (any (λ byte. not (is_alnum byte) && not (byte == b'-')) s)
    && not (has_double_hyphen s)
    && (is_empty s || is_alnum_at s (length s - 1))

starts : Text → Bool
unfolding continues
starts s = is_alnum_at s 0 && continues s

last_step :
    (c d : ℕ) (s : Text)
    → is_alnum_at (c ∷ d ∷ s) (length (c ∷ d ∷ s) - 1) ≡ is_alnum_at (d ∷ s) (length (d ∷ s) - 1)
unfolding is_alnum_at
last_step c d s =
    let a : suc (suc (length s)) - 1 ≡ suc (length s) = omega arith in
    let b : suc (length s) - 1 ≡ length s = omega arith in rw (a, b)

continues-cons :
    (c : ℕ) (s : Text)
    → continues (c ∷ s) ≡ (if c == b'-' then starts s else is_alnum c && continues s)
unfolding starts has_double_hyphen
continues-cons c [] = unfold is_alnum_at in ground arith
continues-cons c (d ∷ s) =
    let first : is_alnum_at (d ∷ s) 0 ≡ is_alnum d = unfold is_alnum_at in refl in
    ground (arith, last_step c d s, first)

split-first_open :
    (c : ℕ) (ps : List Text) → first_open (push_byte c ps) ≡ (is_alnum c && first_open ps)
split-first_open c [] = ground arith
split-first_open c (p ∷ ps) = ground arith

split-push : (c : ℕ) (ps : List Text) → all is_word (push_byte c ps) ≡ (is_alnum c && first_open ps)
split-push c [] = ground arith
split-push c (p ∷ ps) = ground arith

starts-cons : (c : ℕ) (s : Text) → starts (c ∷ s) ≡ (is_alnum c && continues (c ∷ s))
unfolding starts is_alnum_at
starts-cons c s = refl

continues-starts-split :
    (s : Text) → (continues s ≡ first_open (split b'-' s)) × (starts s ≡ all is_word (split b'-' s))
continues-starts-split [] = unfold starts continues has_double_hyphen is_alnum_at in (refl, refl)
continues-starts-split (c ∷ s) =
    let (open_end, closed) = continues-starts-split s in
    let a = continues-cons c s in
    let b = starts-cons c s in
    let d = split-first_open c (split b'-' s) in
    let e = split-push c (split b'-' s) in (ground arith, ground arith)

-- `validate_slug` accepts a value exactly when its length is in range, it consists of words of
-- lowercase ASCII letters and digits with one hyphen between each two, and it is not reserved.
-- The minimal length is at least 1, as it is in every use.
pub validate_slug_iff :
    (value kind : Text) (min max : ℕ) (reserved : List Text)
    → 1 ≤ min
    → (validate_slug value kind min max reserved ≡ ok tt) ↔ (
        (min ≤ length value)
        × (length value ≤ max)
        × (all is_word (split b'-' value) ≡ true)
        × (is_one_of reserved value ≡ false))
unfolding validate_slug starts continues
validate_slug_iff [] kind min max reserved h = ground arith
validate_slug_iff (c ∷ s) kind min max reserved h =
    let words = (continues-starts-split (c ∷ s)).1 in ground arith
