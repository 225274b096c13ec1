-- ===== src/Base/Map.antt =====
-- `HashMap` and `HashSet` of the Rust standard library: association lists and lists, with the
-- laws that their clients use. A map that `insert` and `remove` built holds a key once, and
-- `length` is then the library's `len`.
use Prim.Native.Nat.{suc, ◌≤◌}
use mathlib.Core.Path.{◌≡◌, refl, subst₂}
use mathlib.Core.Logic.{inl, inr, ◌≢◌}
use mathlib.Core.Bool.{Bool, true, false, ◌||◌}
use mathlib.Core.Option.{Option, none, some}
use mathlib.Core.List.{List, [], ◌∷◌}
use native.Mathlib.Omega.{arith}
use cresix.Base.Tests.{if◌then◌else◌, Bool-cases}
use cresix.Base.Lists.{length}
use cresix.Base.Equality.{Eq}

module _ {ℓ} {K : Type ℓ} ⦃e : Eq K⦄ where
  unfoldable pub contains : K → List K → Bool
  contains k [] = false
  contains k (x ∷ xs) = e.beq x k || contains k xs

  -- Every key differs from those behind it.
  abbrev pub Distinct : List K → Type 0
  Distinct [] = Unit
  Distinct (x ∷ xs) = (contains x xs ≡ false) × Distinct xs

  pub contains_self : (k : K) (xs : List K) → contains k (k ∷ xs) ≡ true
  unfolding contains
  contains_self k xs = ground (arith, e.beq_iff k k)

  pub contains-cons : (k x : K) (xs : List K) → contains k xs ≡ true → contains k (x ∷ xs) ≡ true
  unfolding contains
  contains-cons k x xs h = ground arith

or_if : (b c : Bool) → (b || c) ≡ (if b then true else c)
or_if true c = refl
or_if false c = refl

-- `HashSet::insert` and `HashSet::remove`.
module _ {ℓ} {K : Type ℓ} ⦃e : Eq K⦄ where
  unfoldable pub add : K → List K → List K
  add k xs = if contains k xs then xs else k ∷ xs

  unfoldable pub discard : K → List K → List K
  discard k [] = []
  discard k (x ∷ xs) = let rest = discard k xs in if e.beq x k then rest else x ∷ rest

  pub contains-add :
      (k j : K) (xs : List K) → contains j (add k xs) ≡ (if e.beq k j then true else contains j xs)
  unfolding add contains
  contains-add k j xs = elim (Bool-cases (contains k xs)) [
    | inl old ↦ elim (Bool-cases (e.beq k j)) [
      | inl same ↦ let eq : k ≡ j = (e.beq_iff k j).0 same in rw (old, same, ← eq) old
      | inr other ↦ rw (old, other) refl
    ]
    | inr new ↦ rw new (or_if (e.beq k j) (contains j xs))
  ]

  pub contains-discard :
      (k j : K) (xs : List K)
      → contains j (discard k xs) ≡ (if e.beq k j then false else contains j xs)
  unfolding discard contains
  contains-discard k j [] = ground arith
  contains-discard k j (x ∷ xs) =
      ground (arith, e.beq_iff k j, e.beq_iff x k, e.beq_iff x j, contains-discard k j xs)

module _ {ℓ κ} {K : Type ℓ} {V : Type κ} ⦃e : Eq K⦄ where
  unfoldable pub lookup : K → List (K × V) → Option V
  lookup k [] = none
  lookup k ((j, v) ∷ m) = if e.beq j k then some v else lookup k m

  unfoldable pub insert : K → V → List (K × V) → List (K × V)
  insert k v [] = (k, v) ∷ []
  insert k v ((j, w) ∷ m) = if e.beq j k then (k, v) ∷ m else (j, w) ∷ insert k v m

  unfoldable pub remove : K → List (K × V) → List (K × V)
  remove k [] = []
  remove k ((j, w) ∷ m) = if e.beq j k then remove k m else (j, w) ∷ remove k m

  -- `retain`: keep the entries that pass a test on the value.
  unfoldable pub retain : (V → Bool) → List (K × V) → List (K × V)
  retain p [] = []
  retain p ((j, w) ∷ m) = if p w then (j, w) ∷ retain p m else retain p m

  pub lookup-insert :
      (k j : K) (v : V) (m : List (K × V))
      → lookup j (insert k v m) ≡ (if e.beq k j then some v else lookup j m)
  unfolding lookup insert
  lookup-insert k j v [] = refl
  lookup-insert k j v ((i, w) ∷ m) =
      ground (arith, e.beq_iff k j, e.beq_iff i k, e.beq_iff i j, lookup-insert k j v m)

  pub lookup-remove :
      (k j : K) (m : List (K × V))
      → lookup j (remove k m) ≡ (if e.beq k j then none else lookup j m)
  unfolding lookup remove
  lookup-remove k j [] = ground arith
  lookup-remove k j ((i, w) ∷ m) =
      ground (arith, e.beq_iff k j, e.beq_iff i k, e.beq_iff i j, lookup-remove k j m)

  pub lookup-insert_self : (k : K) (v : V) (m : List (K × V)) → lookup k (insert k v m) ≡ some v
  lookup-insert_self k v m = ground (arith, lookup-insert k k v m, e.beq_iff k k)

  pub lookup-insert_ne :
      (k j : K) (v : V) (m : List (K × V)) → k ≢ j → lookup j (insert k v m) ≡ lookup j m
  lookup-insert_ne k j v m h = ground (arith, lookup-insert k j v m, e.beq_iff k j)

  -- Dropping a key cannot bring another back.
  pub lookup-remove-none :
      (k j : K) (m : List (K × V)) → lookup j m ≡ none → lookup j (remove k m) ≡ none
  lookup-remove-none k j m h = ground (arith, lookup-remove k j m)

  pub length-insert_old :
      (k : K) (v : V) (m : List (K × V)) {w : V}
      → lookup k m ≡ some w
      → length (insert k v m) ≡ length m
  unfolding lookup insert
  length-insert_old k v [] h = ground arith
  length-insert_old k v ((i, w) ∷ m) {w = u} h = ground (arith, length-insert_old k v m {w = u})

  pub length-insert : (k : K) (v : V) (m : List (K × V)) → length (insert k v m) ≤ suc (length m)
  unfolding insert
  length-insert k v [] = omega arith
  length-insert k v ((i, w) ∷ m) = ground (arith, length-insert k v m)

  pub length-remove : (k : K) (m : List (K × V)) → length (remove k m) ≤ length m
  unfolding remove
  length-remove k [] = omega arith
  length-remove k ((i, w) ∷ m) = ground (arith, length-remove k m)

  pub length-retain : (p : V → Bool) (m : List (K × V)) → length (retain p m) ≤ length m
  unfolding retain
  length-retain p [] = omega arith
  length-retain p ((i, w) ∷ m) = ground (arith, length-retain p m)

  -- A key whose value passes the test survives, and with its value.
  pub lookup-retain :
      (p : V → Bool) (k : K) (m : List (K × V)) {v : V}
      → lookup k m ≡ some v
      → p v ≡ true
      → lookup k (retain p m) ≡ some v
  unfolding lookup retain
  lookup-retain p k [] h t = h
  lookup-retain p k ((i, w) ∷ m) {v} h t = elim (Bool-cases (e.beq i k)) [
    | inl same ↦ found same
    | inr other ↦ ground (arith, lookup-retain p k m {v = v})
  ]
    where
      found : e.beq i k ≡ true → lookup k (retain p ((i, w) ∷ m)) ≡ some v
      found same = ground arith

  -- Writing a key again, writing what is there, and removing what was written.
  pub insert-insert :
      (k : K) (v w : V) (m : List (K × V)) → insert k v (insert k w m) ≡ insert k v m
  unfolding insert
  insert-insert k v w [] = ground (arith, e.beq_iff k k)
  insert-insert k v w ((i, u) ∷ m) =
      ground (arith, e.beq_iff k k, e.beq_iff i k, insert-insert k v w m)

  pub insert-same : (k : K) (v : V) (m : List (K × V)) → lookup k m ≡ some v → insert k v m ≡ m
  unfolding lookup insert
  insert-same k v [] h = cc
  insert-same k v ((i, u) ∷ m) h = ground (arith, e.beq_iff i k, insert-same k v m)

  pub remove-insert : (k : K) (v : V) (m : List (K × V)) → remove k (insert k v m) ≡ remove k m
  unfolding remove insert
  remove-insert k v [] = ground (arith, e.beq_iff k k)
  remove-insert k v ((i, u) ∷ m) = ground (arith, e.beq_iff k k, e.beq_iff i k, remove-insert k v m)

  pub remove-absent : (k : K) (m : List (K × V)) → lookup k m ≡ none → remove k m ≡ m
  unfolding lookup remove
  remove-absent k [] h = refl
  remove-absent k ((i, u) ∷ m) h = ground (arith, remove-absent k m)

-- What holds of each entry that a look-up finds.
module _ {ℓ κ ι} {K : Type ℓ} {V : Type κ} ⦃e : Eq K⦄ (P : K → V → Type ι) where
  abbrev pub Holds : List (K × V) → Type (ℓ ⊔ κ ⊔ ι)
  Holds m = (k : K) (v : V) → lookup k m ≡ some v → P k v

  pub insert-Holds : (k : K) (v : V) (m : List (K × V)) → P k v → Holds m → Holds (insert k v m)
  insert-Holds k v m p h j w found = elim (Bool-cases (e.beq k j)) [
    | inl same ↦
        let here : some v ≡ some w = cc (lookup-insert k j v m, found, same) in
        subst₂ P ((e.beq_iff k j).0 same) (ground arith) p
    | inr other ↦ h j w (ground (arith, lookup-insert k j v m))
  ]

  pub remove-Holds : (k : K) (m : List (K × V)) → Holds m → Holds (remove k m)
  remove-Holds k m h j w found = h j w (ground (arith, lookup-remove k j m))
