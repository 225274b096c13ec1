-- ===== src/Base/Utf8.antt =====
-- `std::str::from_utf8` and decimal parsing of the Rust standard library, on bytes.
use Prim.Native.Nat.{ℕ, ◌+◌, ◌-◌, ◌*◌}
use mathlib.Core.Bool.{Bool, true, false}
use mathlib.Core.Option.{Option, none, some}
use mathlib.Core.List.{[], ◌∷◌}
use cresix.Base.Tests.{ltb, ◌==◌, in_range, if◌then◌else◌}
use cresix.Base.Lists.{is_empty}
use cresix.Base.Text.{Text, is_ascii_digit}

-- `std::str::from_utf8`, as an automaton: the continuation bytes that are still to come, and the
-- range of the next one.
pub data Utf8State : Type 0 where
  between : Utf8State
  expects : ℕ → ℕ → ℕ → Utf8State

abbrev utf8_start : ℕ → Option Utf8State
utf8_start b =
    if ltb b 0x80
    then some between
    else if in_range 0xc2 0xdf b
    then some (expects 0 0x80 0xbf)
    else if b == 0xe0
    then some (expects 1 0xa0 0xbf)
    else if b == 0xed
    then some (expects 1 0x80 0x9f)
    else if in_range 0xe1 0xef b
    then some (expects 1 0x80 0xbf)
    else if b == 0xf0
    then some (expects 2 0x90 0xbf)
    else if in_range 0xf1 0xf3 b
    then some (expects 2 0x80 0xbf)
    else if b == 0xf4
    then some (expects 2 0x80 0x8f)
    else none

abbrev utf8_next : ℕ → Utf8State
utf8_next ℕ.zero = between
utf8_next (ℕ.suc more) = expects more 0x80 0xbf

abbrev utf8_step : Utf8State → ℕ → Option Utf8State
utf8_step between b = utf8_start b
utf8_step (expects more low high) b = if in_range low high b then some (utf8_next more) else none

abbrev is_between : Utf8State → Bool
is_between between = true
is_between (expects more low high) = false

unfoldable pub is_utf8_from : Utf8State → Text → Bool
is_utf8_from state [] = is_between state
is_utf8_from state (b ∷ s) = elim (utf8_step state b) [
  | none ↦ false
  | some next ↦ is_utf8_from next s
]

-- `std::str::from_utf8(s).is_ok()`
abbrev pub is_utf8 : Text → Bool
is_utf8 s = is_utf8_from between s

abbrev number_from : ℕ → Text → Option ℕ
number_from n [] = some n
number_from n (b ∷ s) = if is_ascii_digit b then number_from (n * 10 + (b - 48)) s else none

abbrev drop_plus : Text → Text
drop_plus [] = []
drop_plus (b ∷ s) = if b == b'+' then s else b ∷ s

-- `parse` to an unsigned type with this largest value
abbrev pub parse_unsigned : ℕ → Text → Option ℕ
parse_unsigned largest word =
    let digits = drop_plus word in
    if is_empty digits then none else elim (number_from 0 digits) [
      | none ↦ none
      | some n ↦ if ltb largest n then none else some n
    ]
