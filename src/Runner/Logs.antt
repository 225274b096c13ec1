-- ===== src/Runner/Logs.antt =====
-- `CapturedLog` and `capture_log` of crates/c6-runner/src/lib.rs.
use cresix.Base.{
  ℕ, zero, suc, ◌≤◌, ◌<◌, ◌≡◌, ◌↔◌, ◌++◌, Bool, true, false, not, ◌||◌, none, some, arith, leb,
  ◌==◌, in_range, if◌then◌else◌, length, take, drop, get_elem?, refl, sym, Bool-cases, inl, inr,
  take-append-drop, length-take, append-nil, [],
}
use cresix.Base.Text.{Text}

pub record CapturedLog : Type 0 where
  pub content : Text
  pub truncated : Bool

-- `content.is_char_boundary(i)`: the ends, and each place before a byte that begins a character
unfoldable pub is_char_boundary : Text → ℕ → Bool
is_char_boundary content i =
    i == 0
    || i == length content
    || elim (get_elem? content i) [ none ↦ false | some byte ↦ not (in_range 0x80 0xbf byte) ]

-- `while !content.is_char_boundary(boundary) { boundary -= 1; }`. Place 0 is a boundary, so the
-- loop ends there.
unfoldable pub floor_boundary : Text → ℕ → ℕ
floor_boundary content zero = zero
floor_boundary content (suc i) =
    let lower = floor_boundary content i in
    if is_char_boundary content (suc i) then suc i else lower

unfoldable pub capture_log : Text → ℕ → CapturedLog
capture_log content limit =
    if leb (length content) limit
    then record { content = content; truncated = false }
    else record { content = take (floor_boundary content limit) content; truncated = true }

floor-le : (content : Text) (i : ℕ) → floor_boundary content i ≤ i
unfolding floor_boundary
floor-le content zero = omega arith
floor-le content (suc i) = ground (arith, floor-le content i)

floor-boundary :
    (content : Text) (i : ℕ) → is_char_boundary content (floor_boundary content i) ≡ true
unfolding floor_boundary
floor-boundary content zero = unfold is_char_boundary in refl
floor-boundary content (suc i) = ground (arith, floor-boundary content i)

floor-largest :
    (content : Text) (i j : ℕ)
    → floor_boundary content i < j
    → j ≤ i
    → is_char_boundary content j ≡ false
unfolding floor_boundary
floor-largest content zero j lo hi = absurd (omega arith)
floor-largest content (suc i) j lo hi = elim (Bool-cases (is_char_boundary content (suc i))) [
  | inl here ↦ ground arith
  | inr passed ↦ elim (Bool-cases (j == suc i)) [
    | inl top ↦ ground arith
    | inr below ↦ ground (arith, floor-largest content i j)
  ]
]

-- What a captured log promises.
pub record Captured (content : Text) (limit : ℕ) (log : CapturedLog) : Type 0 where
  pub bounded : length log.content ≤ limit
  pub whole : log.truncated ≡ false → log.content ≡ content
  pub marked : (log.truncated ≡ true) ↔ (limit < length content)
  pub prefix : (rest : Text) × (content ≡ log.content ++ rest)
  pub boundary : is_char_boundary content (length log.content) ≡ true
  pub longest :
      (j : ℕ)
      → length log.content < j
      → j ≤ limit
      → j ≤ length content
      → is_char_boundary content j ≡ false

-- A captured log is the longest prefix of the content that fits the limit and splits no
-- character, and is marked as truncated exactly when the content does not fit.
pub capture_log-Captured :
    (content : Text) (limit : ℕ) → Captured content limit (capture_log content limit)
capture_log-Captured content limit = elim (Bool-cases (leb (length content) limit)) [
  | inl fits ↦
      let e : capture_log content limit ≡ record { content = content; truncated = false } =
        unfold capture_log in ground arith in
      rw e (record {
        bounded = ground arith;
        whole = λ _. refl;
        marked = ground arith;
        prefix = ([], sym (append-nil content));
        boundary = unfold is_char_boundary in ground arith;
        longest = λ j lo hi end. absurd (omega arith);
      })
  | inr over ↦
      let b = floor_boundary content limit in
      let e : capture_log content limit ≡ record { content = take b content; truncated = true } =
        unfold capture_log in ground arith in
      let len : length (take b content) ≡ b =
        ground (arith, length-take b content, floor-le content limit) in
      rw e (record {
        bounded = omega (arith, floor-le content limit);
        whole = λ h. cc;
        marked = ground arith;
        prefix = (drop b content, sym (take-append-drop b content));
        boundary = rw len (floor-boundary content limit);
        longest = λ j lo hi end. floor-largest content limit j (omega arith) hi;
      })
]
