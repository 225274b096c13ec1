-- ===== src/Server/Headers.antt =====
-- The headers of a request, as crates/c6-server/src/main.rs reads them: names in lower case, each
-- with what `to_str().ok()` gives. `to_str` gives ASCII texts only, so that `trim` takes ASCII
-- white space.
use cresix.Base.{
  ℕ, List, [], ◌∷◌, Bool, ◌||◌, ◌&&◌, ◌==◌, Option, none, some, in_range, if◌then◌else◌, is_empty,
}
use cresix.Base.Text.{Text, codes, text_eq, split, split_once}

abbrev pub HeaderMap : Type 0
HeaderMap = List (Text × Option Text)

-- `headers.get_all(name)`
unfoldable pub get_all : HeaderMap → Text → List (Option Text)
get_all [] name = []
get_all ((key, value) ∷ headers) name =
    let rest = get_all headers name in if text_eq key name then value ∷ rest else rest

-- `headers.get(name)`
unfoldable pub get_first : HeaderMap → Text → Option (Option Text)
get_first [] name = none
get_first ((key, value) ∷ headers) name =
    if text_eq key name then some value else get_first headers name

abbrev is_white : ℕ → Bool
is_white b = in_range 9 13 b || b == 32

abbrev trim_start : Text → Text
trim_start [] = []
trim_start (b ∷ s) = if is_white b then trim_start s else b ∷ s

abbrev trim_end : Text → Text
trim_end [] = []
trim_end (b ∷ s) = let rest = trim_end s in if is_empty rest && is_white b then [] else b ∷ rest

-- `s.trim_end_matches('/')`
abbrev pub trim_slashes : Text → Text
trim_slashes [] = []
trim_slashes (b ∷ s) =
    let rest = trim_slashes s in if is_empty rest && b == b'/' then [] else b ∷ rest

-- The closure of `find_map`: the value of a pair with the name.
abbrev pair_value : Text → Option (Text × Text) → Option Text
pair_value name none = none
pair_value name (some (key, value)) = if text_eq key name then some value else none

abbrev or_else {ℓ} : {A : Type ℓ} → Option A → Option A → Option A
or_else (some a) rest = some a
or_else none rest = rest

abbrev find_pair : Text → List Text → Option Text
find_pair name [] = none
find_pair name (part ∷ parts) =
    or_else (pair_value name (split_once b'=' (trim_end (trim_start part)))) (find_pair name parts)

abbrev cookie_of : Text → Option (Option Text) → Option Text
cookie_of name none = none
cookie_of name (some none) = none
cookie_of name (some (some value)) = find_pair name (split b';' value)

unfoldable pub cookie : HeaderMap → Text → Option Text
cookie headers name = cookie_of name (get_first headers (codes "cookie"))
