-- ===== src/Base/Fresh.antt =====
-- Names that a loop meets and tests one by one against those that it has seen.
use mathlib.Core.Path.{◌≡◌, refl}
use mathlib.Core.Logic.{◌↔◌}
use mathlib.Core.List.{List, [], ◌∷◌, ◌++◌}
use mathlib.Core.Bool.{false}
use native.Mathlib.Omega.{arith}
use cresix.Base.Lists.{All}
use cresix.Base.Text.{Text, text_key}
use cresix.Base.Map.{contains, Distinct}

-- Each name differs from those seen and from those before it.
abbrev pub Fresh : List Text → List Text → Type 0
Fresh seen [] = Unit
Fresh seen (name ∷ names) = (contains name seen ≡ false) × Fresh (name ∷ seen) names

-- The names seen behind some more.
abbrev pub seen_after : List Text → List Text → List Text
seen_after seen [] = seen
seen_after seen (name ∷ names) = seen_after (name ∷ seen) names

pub Fresh-append :
    (seen xs ys : List Text)
    → Fresh seen (xs ++ ys) ↔ (Fresh seen xs × Fresh (seen_after seen xs) ys)
Fresh-append seen [] ys = (λ h. (tt, h), λ h. h.1)
Fresh-append seen (x ∷ xs) ys =
    let ih = Fresh-append (x ∷ seen) xs ys in
    (λ h. ((h.0, (ih.0 h.1).0), (ih.0 h.1).1), λ h. (h.0.0, ih.1 (h.0.1, h.1)))

abbrev Unseen : List Text → Text → Type 0
Unseen seen name = contains name seen ≡ false

Unseen-cons :
    (x : Text) (seen names : List Text)
    → All (Unseen (x ∷ seen)) names ↔ ((contains x names ≡ false) × All (Unseen seen) names)
unfolding contains
Unseen-cons x seen [] = ground arith
Unseen-cons x seen (y ∷ names) =
    let ih = Unseen-cons x seen names in
    ground (arith, ih, text_key.beq_iff x y, text_key.beq_iff y x)

Fresh-iff : (seen names : List Text) → Fresh seen names ↔ (Distinct names × All (Unseen seen) names)
Fresh-iff seen [] = (λ h. (tt, tt), λ h. tt)
Fresh-iff seen (x ∷ names) =
    let ih = Fresh-iff (x ∷ seen) names in
    let cons = Unseen-cons x seen names in
    (
      λ h.
          let (distinct, unseen) = ih.0 h.1 in
          let (absent, rest) = cons.0 unseen in ((absent, distinct), (h.0, rest)),
      λ h. (h.1.0, ih.1 (h.0.1, cons.1 (h.0.0, h.1.1))),
    )

All-Unseen_empty : (names : List Text) → All (Unseen []) names
unfolding contains
All-Unseen_empty [] = tt
All-Unseen_empty (x ∷ names) = (refl, All-Unseen_empty names)

pub Fresh-Distinct : (names : List Text) → Fresh [] names ↔ Distinct names
Fresh-Distinct names =
    (λ h. ((Fresh-iff [] names).0 h).0, λ h. (Fresh-iff [] names).1 (h, All-Unseen_empty names))
