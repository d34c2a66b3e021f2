-- ===== src/Prelude/Dict.antt =====
-- Go's `map[string]V` as an association list; laws in `if` form.
use Prim.Native.String.{String}
use mathlib.Core.Path.{◌≡◌, refl}
use mathlib.Core.Bool.{false, ◌||◌}
use mathlib.Core.Option.{Option, none, some}
use mathlib.Core.List.{List, [], ◌∷◌}
use native.Mathlib.Omega.{arith}
use text.Mathlib.Text.{◌==◌}
use text.Mathlib.TextEquality.{eq_iff}
use mas_iam_operator.Prelude.Tests.{if◌then◌else◌, is_some}
use mas_iam_operator.Prelude.Lists.{has}

abbrev pub Dict {ℓ} : Type ℓ → Type ℓ
Dict V = List (String × V)

module _ {ℓ} {V : Type ℓ} where
  -- `v, ok := m[k]`
  unfoldable pub lookup : String → Dict V → Option V
  lookup k [] = none
  lookup k ((j, v) ∷ m) = if j == k then some v else lookup k m

  -- `m[k] = v`
  unfoldable pub insert : String → V → Dict V → Dict V
  insert k v [] = (k, v) ∷ []
  insert k v ((j, w) ∷ m) = if j == k then (k, v) ∷ m else (j, w) ∷ insert k v m

  -- `delete(m, k)`
  unfoldable pub erase : String → Dict V → Dict V
  erase k [] = []
  erase k ((j, w) ∷ m) = let rest = erase k m in if j == k then rest else (j, w) ∷ rest

  -- The keys, in the order of a `range` loop.
  unfoldable pub keys : Dict V → List String
  keys [] = []
  keys ((k, v) ∷ m) = k ∷ keys m

  abbrev pub NodupKeys : Dict V → Type 0
  NodupKeys [] = Unit
  NodupKeys ((k, v) ∷ m) = (has k (keys m) ≡ false) × NodupKeys m

  pub lookup-insert :
      (j k : String) (v : V) (m : Dict V)
      → lookup j (insert k v m) ≡ (if k == j then some v else lookup j m)
  unfolding lookup insert
  lookup-insert j k v [] = refl
  lookup-insert j k v ((i, w) ∷ m) =
      ground (arith, eq_iff k j, eq_iff i k, eq_iff i j, lookup-insert j k v m)

  pub lookup-erase :
      (j k : String) (m : Dict V) → lookup j (erase k m) ≡ (if k == j then none else lookup j m)
  unfolding lookup erase
  lookup-erase j k [] = ground arith
  lookup-erase j k ((i, w) ∷ m) =
      ground (arith, eq_iff i k, eq_iff i j, eq_iff k j, lookup-erase j k m)

  pub has-keys : (k : String) (m : Dict V) → has k (keys m) ≡ is_some (lookup k m)
  unfolding lookup keys has
  has-keys k [] = refl
  has-keys k ((j, v) ∷ m) = ground (arith, has-keys k m)

  pub has-keys-insert :
      (j k : String) (v : V) (m : Dict V) → has j (keys (insert k v m)) ≡ (k == j || has j (keys m))
  unfolding keys insert has
  has-keys-insert j k v [] = refl
  has-keys-insert j k v ((i, w) ∷ m) =
      ground (arith, has-keys-insert j k v m, eq_iff i k, eq_iff i j, eq_iff k j)

  pub insert-NodupKeys : (k : String) (v : V) (m : Dict V) → NodupKeys m → NodupKeys (insert k v m)
  unfolding insert keys has
  insert-NodupKeys k v [] h = (refl, tt)
  insert-NodupKeys k v ((i, w) ∷ m) (fresh, u) =
      ground (arith, insert-NodupKeys k v m u, has-keys-insert i k v m, eq_iff i k, eq_iff k i)

-- `for k, v := range m { out[k] = f(v) }` over the map itself: the keys stay.
module _ {ℓ κ} {V : Type ℓ} {W : Type κ} where
  unfoldable pub map_values : (V → W) → Dict V → Dict W
  map_values f [] = []
  map_values f ((k, v) ∷ m) = (k, f v) ∷ map_values f m

  pub lookup-map_values :
      (f : V → W) (k : String) (m : Dict V)
      → lookup k (map_values f m) ≡ mathlib.Core.Option.map f (lookup k m)
  unfolding lookup map_values
  lookup-map_values f k [] = refl
  lookup-map_values f k ((j, v) ∷ m) = ground (arith, lookup-map_values f k m)

  pub keys-map_values : (f : V → W) (m : Dict V) → keys (map_values f m) ≡ keys m
  unfolding keys map_values
  keys-map_values f [] = refl
  keys-map_values f ((j, v) ∷ m) = ground (arith, keys-map_values f m)

  pub map_values-NodupKeys : (f : V → W) (m : Dict V) → NodupKeys m → NodupKeys (map_values f m)
  unfolding map_values
  map_values-NodupKeys f [] h = h
  map_values-NodupKeys f ((j, v) ∷ m) (fresh, u) =
      ground (arith, keys-map_values f m, map_values-NodupKeys f m u)

ruleset dict_laws = (lookup-insert, lookup-erase, lookup-map_values)
