-- ===== src/Prelude/Dict.antt =====
-- Go's maps as association lists. An assignment replaces a key in place, so a key stands once.
use mathlib.Core.Path.{◌≡◌, refl}
use mathlib.Core.Bool.{◌&&◌}
use mathlib.Core.Option.{Option, none, some}
use mathlib.Core.List.{List, [], ◌∷◌}
use native.Mathlib.Omega.{arith}
use Prim.Native.Nat.{suc}
use aeon_agent_harness.Prelude.Lists.{length}
use aeon_agent_harness.Prelude.Tests.{if◌then◌else◌, Comparable, ◌==◌}

module _ {ℓ κ} {K : Type ℓ} {V : Type κ} ⦃c : Comparable K⦄ where
  -- m[k]
  unfoldable pub lookup : K → List (K × V) → Option V
  lookup key [] = none
  lookup key (slot ∷ rest) = if slot.0 == key then some slot.1 else lookup key rest

  -- m[k] = v
  unfoldable pub insert : K → V → List (K × V) → List (K × V)
  insert key new [] = (key, new) ∷ []
  insert key new (slot ∷ rest) =
      let rest' = insert key new rest in if slot.0 == key then (key, new) ∷ rest else slot ∷ rest'

  -- delete(m, k)
  unfoldable pub remove : K → List (K × V) → List (K × V)
  remove k [] = []
  remove k ((j, v) ∷ m) = let rest = remove k m in if j == k then rest else (j, v) ∷ rest

  pub lookup-insert :
      (k other : K) (new : V) (entries : List (K × V))
      → lookup other (insert k new entries)
        ≡ (if k == other then some new else lookup other entries)
  unfolding lookup insert
  lookup-insert k other new [] = refl
  lookup-insert k other new ((here, old) ∷ rest) = ground (
    arith,
    lookup-insert k other new rest,
    c.test_iff here other,
    c.test_iff here k,
    c.test_iff k other,
  )

  pub lookup-remove :
      (k j : K) (m : List (K × V)) → lookup j (remove k m) ≡ (if k == j then none else lookup j m)
  unfolding lookup remove
  lookup-remove k j [] = ground arith
  lookup-remove k j ((i, w) ∷ m) =
      ground (arith, c.test_iff k j, c.test_iff i k, c.test_iff i j, lookup-remove k j m)

-- Maps of maps: map[K]map[J]V, where a row that is not there reads as an empty one.
module _ {ℓ κ μ} {K : Type ℓ} {J : Type κ} {V : Type μ} ⦃c : Comparable K⦄ ⦃d : Comparable J⦄ where
  unfoldable pub row : K → List (K × List (J × V)) → List (J × V)
  unfolding lookup
  row k m = elim (lookup k m) [ none ↦ [] | some r ↦ r ]

  -- m[k][j] = v, the row made where it is missing.
  unfoldable pub insert_at : K → J → V → List (K × List (J × V)) → List (K × List (J × V))
  unfolding row insert
  insert_at k j v m = insert k (insert j v (row k m)) m

  row-insert :
      (k i : K) (r : List (J × V)) (m : List (K × List (J × V)))
      → row i (insert k r m) ≡ (if k == i then r else row i m)
  unfolding row
  row-insert k i r m = ground (arith, lookup-insert k i r m)

  pub lookup-insert_at :
      (k i : K) (j h : J) (v : V) (m : List (K × List (J × V)))
      → lookup h (row i (insert_at k j v m))
        ≡ (if (k == i) && (j == h) then some v else lookup h (row i m))
  unfolding insert_at
  lookup-insert_at k i j h v m = ground (
    arith,
    row-insert k i (insert j v (row k m)) m,
    lookup-insert j h v (row k m),
    c.test_iff k i,
  )

module _ {ℓ κ} {K : Type ℓ} {V : Type κ} ⦃c : Comparable K⦄ where
  pub length-insert_new :
      (k : K) (v : V) (m : List (K × V))
      → lookup k m ≡ none
      → length (insert k v m) ≡ suc (length m)
  unfolding lookup insert
  length-insert_new k v [] h = refl
  length-insert_new k v ((j, w) ∷ m) h = ground (arith, length-insert_new k v m)
