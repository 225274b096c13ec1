-- ===== src/Core/Manifest/Paths.antt =====
-- What the checks of crates/c6-core/src/manifest.rs on names and paths accept.
use cresix.Base.{
  ◌≡◌, ◌↔◌, List, [], ◌∷◌, Bool, true, false, not, ok, refl, arith, all, Bool-cases, inl, inr,
}
use cresix.Base.Text.{Text, codes, split, starts_with, is_blank, text_eq, text_key}
use cresix.Core.Manifest.Parts.{
  first_component, later_components, components, is_safe, validate_relative_path,
}

abbrev pub is_plain : Text → Bool
is_plain part = not (text_eq part (codes ".."))

later-is_plain : (parts : List Text) → all is_safe (later_components parts) ≡ all is_plain parts
unfolding later_components
later-is_plain [] = refl
later-is_plain (part ∷ parts) = ground (
  arith,
  later-is_plain parts,
  text_key.beq_iff part (codes "."),
  text_key.beq_iff part (codes ".."),
  text_key.beq_iff part [],
)

first-is_plain : (parts : List Text) → all is_safe (first_component parts) ≡ all is_plain parts
first-is_plain [] = refl
first-is_plain (part ∷ parts) = elim (Bool-cases (text_eq part (codes "."))) [
  | inl dot ↦ ground (
    arith,
    later-is_plain parts,
    text_key.beq_iff part (codes "."),
    text_key.beq_iff part (codes ".."),
  )
  | inr other ↦ ground (arith, later-is_plain (part ∷ parts))
]

components-is_plain :
    (path : Text)
    → starts_with path (codes "/") ≡ false
    → all is_safe (components path) ≡ all is_plain (split b'/' path)
unfolding components
components-is_plain path h = rw (components, h) (first-is_plain (split b'/' path))

-- A path passes exactly when it is not blank, does not begin with `/`, and has no part `..`.
pub relative_path_iff :
    (path : Text)
    → (validate_relative_path path ≡ ok tt) ↔ (
        (is_blank path ≡ false)
        × (starts_with path (codes "/") ≡ false)
        × (all is_plain (split b'/' path) ≡ true))
unfolding validate_relative_path
relative_path_iff path = ground (arith, components-is_plain path)
