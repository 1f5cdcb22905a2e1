-- ===== src/Common/Maps.antt =====
-- Go's `map[string]V` as an association list. A `range` loop visits the entries in the order of
-- the list: Go leaves that order open, so what is proved for every list holds for every order.
use deployment_manager.Common.Tests.{if◌then◌else◌}
use text.Mathlib.TextEquality.{eq_iff}
use text.Mathlib.Text.{◌==◌}
use native.Mathlib.Omega.{arith}
use mathlib.Core.List.{List, [], ◌∷◌}
use mathlib.Core.Option.{Option, none, some}
use mathlib.Core.Bool.{Bool, true, false}
use mathlib.Core.Path.{◌≡◌, refl}
use Prim.Native.String.{String}
use Prim.Native.Nat.{ℕ, ◌+◌}

abbrev pub Map {ℓ} : Type ℓ → Type ℓ
Map Value = List (String × Value)

module _ {ℓ} {V : Type ℓ} where
  -- m[k] = v
  unfoldable pub insert : String → V → Map V → Map V
  insert key new [] = (key, new) ∷ []
  insert key new ((name, value) ∷ rest) =
      if name == key then (name, new) ∷ rest else (name, value) ∷ insert key new rest

  -- _, found := m[k]
  unfoldable pub has_key : String → Map V → Bool
  has_key key [] = false
  has_key key ((name, value) ∷ rest) = if name == key then true else has_key key rest

  -- v, found := m[k]
  unfoldable pub lookup : String → Map V → Option V
  lookup key [] = none
  lookup key ((name, value) ∷ rest) = if name == key then some value else lookup key rest

  -- delete(m, k)
  unfoldable pub delete : String → Map V → Map V
  delete k [] = []
  delete k ((j, v) ∷ m) = let rest = delete k m in if j == k then rest else (j, v) ∷ rest

  -- for _, x := range m { ... } where the body changes `*x`
  unfoldable pub map_values : (V → V) → Map V → Map V
  map_values f [] = []
  map_values f ((j, v) ∷ m) = (j, f v) ∷ map_values f m

  -- the sum of a weight over the values
  unfoldable pub total : (V → ℕ) → Map V → ℕ
  total w [] = 0
  total w ((j, v) ∷ m) = w v + total w m

  -- every entry satisfies the predicate
  abbrev pub AllEntries {κ} : (String → V → Type κ) → Map V → Type κ
  AllEntries P [] = Unit
  AllEntries P ((j, v) ∷ m) = P j v × AllEntries P m

  -- no key stands twice
  abbrev pub Distinct : Map V → Type 0
  Distinct [] = Unit
  Distinct ((j, v) ∷ m) = (has_key j m ≡ false) × Distinct m

  pub has_key-lookup : (k : String) (m : Map V) (v : V) → lookup k m ≡ some v → has_key k m ≡ true
  unfolding lookup has_key
  has_key-lookup k [] v h = ground arith
  has_key-lookup k ((j, w) ∷ m) v h = ground (arith, has_key-lookup k m v)

  pub has_key-lookup-none : (k : String) (m : Map V) → lookup k m ≡ none → has_key k m ≡ false
  unfolding lookup has_key
  has_key-lookup-none k [] h = refl
  has_key-lookup-none k ((j, w) ∷ m) h = ground (arith, has_key-lookup-none k m)

  pub lookup-insert :
      (written read : String) (new : V) (m : Map V)
      → lookup read (insert written new m) ≡ (if written == read then some new else lookup read m)
  unfolding lookup insert
  lookup-insert written read new [] = refl
  lookup-insert written read new ((name, value) ∷ rest) = ground (
    arith,
    lookup-insert written read new rest,
    eq_iff name read,
    eq_iff name written,
    eq_iff written read,
  )

  pub lookup-delete :
      (k j : String) (m : Map V) → lookup j (delete k m) ≡ (if k == j then none else lookup j m)
  unfolding lookup delete
  lookup-delete k j [] = ground arith
  lookup-delete k j ((i, w) ∷ m) =
      ground (arith, eq_iff i j, eq_iff k j, eq_iff i k, lookup-delete k j m)

  pub has_key-insert :
      (k j : String) (v : V) (m : Map V)
      → has_key j (insert k v m) ≡ (if k == j then true else has_key j m)
  unfolding has_key insert
  has_key-insert k j v [] = refl
  has_key-insert k j v ((i, w) ∷ m) =
      ground (arith, eq_iff i j, eq_iff k j, eq_iff i k, has_key-insert k j v m)

  pub has_key-delete :
      (k j : String) (m : Map V) → has_key j (delete k m) ≡ (if k == j then false else has_key j m)
  unfolding has_key delete
  has_key-delete k j [] = ground arith
  has_key-delete k j ((i, w) ∷ m) =
      ground (arith, eq_iff i j, eq_iff k j, eq_iff i k, has_key-delete k j m)

  pub has_key-map_values :
      (f : V → V) (k : String) (m : Map V) → has_key k (map_values f m) ≡ has_key k m
  unfolding has_key map_values
  has_key-map_values f k [] = refl
  has_key-map_values f k ((i, w) ∷ m) = ground (arith, has_key-map_values f k m)

  -- to write what is there changes nothing
  pub insert-lookup : (k : String) (v : V) (m : Map V) → lookup k m ≡ some v → insert k v m ≡ m
  unfolding lookup insert
  insert-lookup k v [] h = ground arith
  insert-lookup k v ((i, w) ∷ m) h = ground (arith, insert-lookup k v m)

  pub lookup-insert_self : (k : String) (v : V) (m : Map V) → lookup k (insert k v m) ≡ some v
  lookup-insert_self k v m = ground (arith, lookup-insert k k v m, eq_iff k k)

  pub lookup-map_values :
      (f : V → V) (k : String) (m : Map V)
      → lookup k (map_values f m)
        ≡ elim (lookup k m) as (λ _. Option V) [ none ↦ none | some v ↦ some (f v) ]
  unfolding lookup map_values
  lookup-map_values f k [] = refl
  lookup-map_values f k ((i, w) ∷ m) = ground (arith, lookup-map_values f k m)

  pub lookup_of_has_key : (k : String) (m : Map V) → has_key k m ≡ false → lookup k m ≡ none
  unfolding lookup has_key
  lookup_of_has_key k [] h = refl
  lookup_of_has_key k ((i, w) ∷ m) h = ground (arith, lookup_of_has_key k m)
