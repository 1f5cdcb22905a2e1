-- ===== src/Common/Entries.antt =====
-- What holds of every entry of a map, that keys stay distinct, and sums over the values.
use Prim.Native.Nat.{ℕ, ◌+◌}
use Prim.Native.String.{String}
use mathlib.Core.Path.{◌≡◌, refl, subst, ◌∙◌}
use mathlib.Core.Option.{none, some}
use mathlib.Core.Logic.{inl, inr}
use mathlib.Core.List.{[], ◌∷◌}
use native.Mathlib.Omega.{arith}
use text.Mathlib.Text.{◌==◌}
use text.Mathlib.TextEquality.{eq_iff}
use deployment_manager.Common.Tests.{Bool-cases}
use deployment_manager.Common.Maps.{
  Map, lookup, has_key, insert, delete, map_values, total, AllEntries, Distinct, has_key-insert,
  has_key-delete, has_key-map_values,
}

module _ {ℓ} {V : Type ℓ} where
  pub Distinct-insert : (k : String) (v : V) (m : Map V) → Distinct m → Distinct (insert k v m)
  unfolding insert has_key
  Distinct-insert k v [] d = (refl, tt)
  Distinct-insert k v ((i, w) ∷ m) d = elim (Bool-cases (i == k)) [
    | inl e ↦ rw e d
    | inr e ↦
        rw e (
          ground (arith, has_key-insert k i v m, eq_iff i k, eq_iff k i),
          Distinct-insert k v m d.1,
        )
  ]

  pub Distinct-delete : (k : String) (m : Map V) → Distinct m → Distinct (delete k m)
  unfolding delete
  Distinct-delete k [] d = tt
  Distinct-delete k ((i, w) ∷ m) d = elim (Bool-cases (i == k)) [
    | inl e ↦ rw e (Distinct-delete k m d.1)
    | inr e ↦ rw e (ground (arith, has_key-delete k i m), Distinct-delete k m d.1)
  ]

  pub Distinct-map_values : (f : V → V) (m : Map V) → Distinct m → Distinct (map_values f m)
  unfolding map_values
  Distinct-map_values f [] d = tt
  Distinct-map_values f ((i, w) ∷ m) d =
      (has_key-map_values f i m ∙ d.0, Distinct-map_values f m d.1)

  -- a write to a key that is there trades the old value's weight for the new one's
  pub total-insert :
      (w : V → ℕ) (k : String) (v u : V) (m : Map V)
      → lookup k m ≡ some u
      → total w (insert k v m) + w u ≡ total w m + w v
  unfolding lookup insert total
  total-insert w k v u [] h = ground arith
  total-insert w k v u ((i, x) ∷ m) h = ground (arith, total-insert w k v u m)

  -- a write to a new key adds the value's weight
  pub total-insert_new :
      (w : V → ℕ) (k : String) (v : V) (m : Map V)
      → lookup k m ≡ none
      → total w (insert k v m) ≡ total w m + w v
  unfolding lookup insert total
  total-insert_new w k v [] h = omega arith
  total-insert_new w k v ((i, x) ∷ m) h = ground (arith, total-insert_new w k v m)

  module _ {κ} (P : String → V → Type κ) where
    pub AllEntries-lookup :
        (k : String) (v : V) (m : Map V) → AllEntries P m → lookup k m ≡ some v → P k v
    unfolding lookup
    AllEntries-lookup k v [] a h = absurd (ground arith)
    AllEntries-lookup k v ((i, x) ∷ m) a h = elim (Bool-cases (i == k)) [
      | inl e ↦ rw (← (eq_iff i k).0 e) (subst (P i) (ground arith) a.0)
      | inr e ↦ AllEntries-lookup k v m a.1 (ground arith)
    ]

    pub AllEntries-insert :
        (k : String) (v : V) (m : Map V) → AllEntries P m → P k v → AllEntries P (insert k v m)
    unfolding insert
    AllEntries-insert k v [] a p = (p, tt)
    AllEntries-insert k v ((i, x) ∷ m) a p = elim (Bool-cases (i == k)) [
      | inl e ↦ rw e (rw ((eq_iff i k).0 e) p, a.1)
      | inr e ↦ rw e (a.0, AllEntries-insert k v m a.1 p)
    ]

    pub AllEntries-delete : (k : String) (m : Map V) → AllEntries P m → AllEntries P (delete k m)
    unfolding delete
    AllEntries-delete k [] a = tt
    AllEntries-delete k ((i, x) ∷ m) a = elim (Bool-cases (i == k)) [
      | inl e ↦ rw e (AllEntries-delete k m a.1)
      | inr e ↦ rw e (a.0, AllEntries-delete k m a.1)
    ]

    pub AllEntries-map_values :
        (f : V → V) (m : Map V)
        → ((k : String) (v : V) → P k v → P k (f v))
        → AllEntries P m
        → AllEntries P (map_values f m)
    unfolding map_values
    AllEntries-map_values f [] keep a = tt
    AllEntries-map_values f ((i, x) ∷ m) keep a = (keep i x a.0, AllEntries-map_values f m keep a.1)
