-- ===== src/Base/Prefix.antt =====
-- Laws of prefixes of texts.
use mathlib.Core.Path.{◌≡◌, refl}
use Prim.Native.Nat.{ℕ}
use mathlib.Core.Logic.{inl, inr}
use mathlib.Core.Option.{Option, some, none}
use mathlib.Core.List.{[], ◌∷◌, ◌++◌}
use native.Mathlib.Omega.{arith}
use cresix.Base.Tests.{◌==◌, Bool-cases}
use cresix.Base.Text.{Text, strip_prefix, split_once, push_left}

-- What is left behind a prefix gives the text back.
pub strip_prefix_sound : (s p : Text) {r : Text} → strip_prefix s p ≡ some r → s ≡ p ++ r
strip_prefix_sound s [] h = ground arith
strip_prefix_sound [] (p ∷ ps) h = ground arith
strip_prefix_sound (c ∷ s) (p ∷ ps) {r} h = ground (arith, strip_prefix_sound s ps {r = r})

pub strip_prefix-append : (p r : Text) → strip_prefix (p ++ r) p ≡ some r
strip_prefix-append [] r = refl
strip_prefix-append (p ∷ ps) r = ground (arith, strip_prefix-append ps r)

pushed :
    (b : ℕ) (parts : Option (Text × Text)) (left right : Text)
    → push_left b parts ≡ some (left, right)
    → (rest : Text) × (parts ≡ some (rest, right)) × (left ≡ b ∷ rest)
pushed b none left right h = cc
pushed b (some (rest, behind)) left right h = (rest, ground arith, ground arith)

-- The two parts and the byte between them give the text back.
pub split_once_sound :
    (c : ℕ) (s left right : Text) → split_once c s ≡ some (left, right) → s ≡ left ++ (c ∷ right)
unfolding split_once
split_once_sound c [] left right h = cc
split_once_sound c (b ∷ s) left right h = elim (Bool-cases (b == c)) [
  | inl same ↦ ground arith
  | inr other ↦
      let (rest, found, first) = pushed b (split_once c s) left right (ground arith) in
      ground (arith, split_once_sound c s rest right found, first)
]
