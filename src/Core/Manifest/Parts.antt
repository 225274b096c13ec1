-- ===== src/Core/Manifest/Parts.antt =====
-- The checks of crates/c6-core/src/manifest.rs on names, paths and resources.
use cresix.Base.{
  ℕ, ◌/◌, ◌%◌, ◌^◌, List, [], ◌∷◌, Bool, true, false, not, ◌&&◌, ◌||◌, Option, none, some, Result,
  ok, err, leb, ◌==◌, if◌then◌else◌, length, all, is_empty, head?, get_last?,
}
use cresix.Base.Text.{
  Text, codes, is_ascii_lowercase, is_ascii_uppercase, is_ascii_digit, is_ascii_alphanumeric,
  starts_with, split, is_blank, text_eq,
}
use cresix.Core.Manifest.{
  ManifestError, invalid_name, invalid_secret_name, invalid_resources, unsafe_path, Resources,
}

-- `option.is_some_and(test)` on bytes
abbrev pub is_some_and : Option ℕ → (ℕ → Bool) → Bool
is_some_and none test = false
is_some_and (some byte) test = test byte

abbrev pub is_name_byte : ℕ → Bool
is_name_byte byte = is_ascii_lowercase byte || is_ascii_digit byte || byte == b'-'

unfoldable pub validate_name : Text → Result ManifestError (Unit {0})
validate_name name =
    let boundary_is_alphanumeric =
      is_some_and (head? name) is_ascii_alphanumeric
      && is_some_and (get_last? name) is_ascii_alphanumeric in
    if not (is_empty name)
      && leb (length name) 63
      && boundary_is_alphanumeric
      && all is_name_byte name
    then ok tt
    else err (invalid_name name)

abbrev pub is_secret_start : ℕ → Bool
is_secret_start byte = is_ascii_uppercase byte || byte == b'_'

abbrev pub is_secret_byte : ℕ → Bool
is_secret_byte byte = is_ascii_uppercase byte || is_ascii_digit byte || byte == b'_'

unfoldable pub validate_secret_name : Text → Result ManifestError (Unit {0})
validate_secret_name [] = err (invalid_secret_name [])
validate_secret_name (first ∷ bytes) =
    if is_secret_start first && all is_secret_byte bytes
    then ok tt
    else err (invalid_secret_name (first ∷ bytes))

-- `f32::is_finite`: the exponent is not all ones.
abbrev pub is_finite : ℕ → Bool
is_finite bits = not (bits / 2 ^ 23 % 2 ^ 8 == 255)

-- `cpu <= 0.0`: zero, or a set sign bit, but for the patterns that are no number.
abbrev pub at_most_zero : ℕ → Bool
at_most_zero bits = (is_finite bits || bits % 2 ^ 23 == 0) && (bits == 0 || leb (2 ^ 31) bits)

unfoldable pub validate_resources : Text → Resources → Result ManifestError (Unit {0})
validate_resources name resources =
    if not (is_finite resources.cpu) || at_most_zero resources.cpu || resources.memory_mb == 0
    then err (invalid_resources name)
    else ok tt

-- `std::path::Component` on Unix, where a path has no prefix
pub data Component : Type 0 where
  root_dir cur_dir parent_dir : Component
  normal : Text → Component

-- The components behind the first: an empty part and a `.` are left out.
unfoldable pub later_components : List Text → List Component
later_components [] = []
later_components (part ∷ parts) =
    let rest = later_components parts in
    if is_empty part || text_eq part (codes ".")
    then rest
    else if text_eq part (codes "..")
    then parent_dir ∷ rest
    else normal part ∷ rest

abbrev pub first_component : List Text → List Component
first_component [] = []
first_component (part ∷ parts) =
    if text_eq part (codes ".")
    then cur_dir ∷ later_components parts
    else later_components (part ∷ parts)

-- `Path::components`
unfoldable pub components : Text → List Component
components path =
    if starts_with path (codes "/")
    then root_dir ∷ later_components (split b'/' path)
    else first_component (split b'/' path)

abbrev pub is_safe : Component → Bool
is_safe (normal _) = true
is_safe cur_dir = true
is_safe _ = false

-- `is_absolute` on Unix: a root.
unfoldable pub validate_relative_path : Text → Result ManifestError (Unit {0})
validate_relative_path path =
    if not (is_blank path) && not (starts_with path (codes "/")) && all is_safe (components path)
    then ok tt
    else err (unsafe_path path)
