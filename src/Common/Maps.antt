-- ===== src/Common/Maps.antt =====
-- Go's map as an association list: a read takes the first entry of a key, a write replaces it. The
-- nil map is `none` where the code tells it from the empty one.
use mathlib.Core.Path.{◌≡◌, refl}
use mathlib.Core.Option.{Option, none, some}
use mathlib.Core.List.{List, [], ◌∷◌}
use native.Mathlib.Omega.{arith}
use gqueue.Common.Tests.{Eq, ◌==◌, if◌then◌else◌}

abbrev pub Dict : Type 0 → Type 0 → Type 0
Dict K V = List (K × V)

module _ {K V : Type 0} ⦃e : Eq K⦄ where
  -- v, ok := m[key]
  unfoldable pub lookup : K → Dict K V → Option V
  lookup key [] = none
  lookup key ((k, v) ∷ rest) = if k == key then some v else lookup key rest

  -- m[key] = v
  unfoldable pub insert : K → V → Dict K V → Dict K V
  insert key v [] = (key, v) ∷ []
  insert key v (entry ∷ rest) =
      if entry.0 == key then (key, v) ∷ rest else entry ∷ insert key v rest

  -- delete(m, k)
  unfoldable pub delete : K → Dict K V → Dict K V
  delete k [] = []
  delete k ((j, w) ∷ m) = let rest = delete k m in if j == k then rest else (j, w) ∷ rest

  -- for k, v := range n { m[k] = v }
  unfoldable pub insert_all : Dict K V → Dict K V → Dict K V
  insert_all [] m = m
  insert_all ((k, v) ∷ n) m = insert_all n (insert k v m)

  pub lookup-insert :
      (key other : K) (v : V) (m : Dict K V)
      → lookup other (insert key v m) ≡ (if key == other then some v else lookup other m)
  unfolding lookup insert
  lookup-insert key other v [] = refl
  lookup-insert key other v ((k, w) ∷ rest) = ground (
    arith,
    lookup-insert key other v rest,
    e.same_iff k key,
    e.same_iff k other,
    e.same_iff key other,
  )

  pub lookup-delete :
      (k j : K) (m : Dict K V) → lookup j (delete k m) ≡ (if k == j then none else lookup j m)
  unfolding lookup delete
  lookup-delete k j [] = ground arith
  lookup-delete k j ((i, w) ∷ m) =
      ground (arith, e.same_iff k j, e.same_iff i k, e.same_iff i j, lookup-delete k j m)

  pub lookup-insert_self : (k : K) (v : V) (m : Dict K V) → lookup k (insert k v m) ≡ some v
  lookup-insert_self k v m = ground (arith, lookup-insert k k v m, e.same_iff k k)

-- m[k] of a map to strings or numbers: the zero value on a missing key.
abbrev pub or_zero : {V : Type 0} → V → Option V → V
or_zero z none = z
or_zero z (some v) = v

-- What a key has in `m` after an overlay that has `o` for it.
abbrev pub overlay : {V : Type 0} → Option V → Option V → Option V
overlay (some v) below = some v
overlay none below = below

module _ {K V : Type 0} ⦃e : Eq K⦄ where
  -- A map has each key once.
  abbrev pub UniqueKeys : Dict K V → Type 0
  UniqueKeys [] = Unit
  UniqueKeys ((k, v) ∷ m) = (lookup k m ≡ none) × UniqueKeys m

  pub lookup-insert_all :
      (j : K) (n m : Dict K V)
      → UniqueKeys n
      → lookup j (insert_all n m) ≡ overlay (lookup j n) (lookup j m)
  unfolding lookup insert_all
  lookup-insert_all j [] m h = refl
  lookup-insert_all j ((k, v) ∷ n) m (new, h) =
      ground (arith, lookup-insert_all j n (insert k v m) h, lookup-insert k j v m, e.same_iff k j)
