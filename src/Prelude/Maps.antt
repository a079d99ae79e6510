-- ===== src/Prelude/Maps.antt =====
-- A JavaScript `Map` with string keys: the entries in the order of insertion. `insert` at a key
-- that is there keeps its place, as `Map.set` does.
use Prim.Native.Nat.{◌+◌, ◌≤◌}
use Prim.Native.String.{String}
use mathlib.Core.Path.{◌≡◌, refl}
use mathlib.Core.Bool.{Bool}
use mathlib.Core.Option.{Option, none, some}
use mathlib.Core.List.{List, [], ◌∷◌, map, foldl}
use native.Mathlib.Omega.{arith}
use text.Mathlib.Text.{◌==◌}
use text.Mathlib.TextEquality.{eq_iff}
use text.Mathlib.TextPositions.{eq_refl}
use codex_mission_ledger.Prelude.Tests.{if◌then◌else◌, is_some}
use codex_mission_ledger.Prelude.Lists.{length}

abbrev pub Map {ℓ} : Type ℓ → Type ℓ
Map V = List (String × V)

module _ {ℓ} {V : Type ℓ} where
  unfoldable pub lookup : String → Map V → Option V
  lookup key [] = none
  lookup key ((first, value) ∷ rest) = if first == key then some value else lookup key rest

  unfoldable pub insert : String → V → Map V → Map V
  insert key value [] = (key, value) ∷ []
  insert key value ((first, old) ∷ rest) =
      if first == key then (first, value) ∷ rest else (first, old) ∷ insert key value rest

  unfoldable pub remove : String → Map V → Map V
  remove k [] = []
  remove k ((j, w) ∷ m) = if j == k then remove k m else (j, w) ∷ remove k m

  abbrev pub has : String → Map V → Bool
  has k m = is_some (lookup k m)

  abbrev pub values : Map V → List V
  values = map (λ e. e.1)

  abbrev pub keys : Map V → List String
  keys = map (λ e. e.0)

  pub lookup-insert :
      (key asked : String) (value : V) (entries : Map V)
      → lookup asked (insert key value entries)
        ≡ (if key == asked then some value else lookup asked entries)
  unfolding lookup insert
  lookup-insert key asked value [] = refl
  lookup-insert key asked value ((first, old) ∷ rest) = ground (
    arith,
    lookup-insert key asked value rest,
    eq_iff key asked,
    eq_iff first key,
    eq_iff first asked,
  )

  pub lookup-insert_self :
      (key : String) (value : V) (entries : Map V)
      → lookup key (insert key value entries) ≡ some value
  lookup-insert_self key value entries = simp (lookup-insert, eq_refl)

  pub lookup-remove :
      (k j : String) (m : Map V) → lookup j (remove k m) ≡ (if k == j then none else lookup j m)
  unfolding lookup remove
  lookup-remove k j [] = ground arith
  lookup-remove k j ((i, w) ∷ m) =
      ground (arith, eq_iff k j, eq_iff i k, eq_iff i j, lookup-remove k j m)

  pub length-insert-le : (k : String) (v : V) (m : Map V) → length (insert k v m) ≤ length m + 1
  unfolding insert
  length-insert-le k v [] = omega arith
  length-insert-le k v ((j, w) ∷ m) = ground (arith, length-insert-le k v m)

-- `new Map(xs.map((x) => [id(x), x]))`
unfoldable pub map_of {ℓ} : {V : Type ℓ} → (V → String) → List V → Map V
map_of id xs = foldl (λ m x. insert (id x) x m) [] xs

module _ {ℓ} {V : Type ℓ} (id : V → String) where
  length-foldl-insert :
      (xs : List V) (m : Map V)
      → length (foldl (λ m x. insert (id x) x m) m xs) ≤ length m + length xs
  length-foldl-insert [] m = omega arith
  length-foldl-insert (x ∷ xs) m =
      omega (arith, length-insert-le (id x) x m, length-foldl-insert xs (insert (id x) x m))

  pub length-map_of-le : (xs : List V) → length (map_of id xs) ≤ length xs
  unfolding map_of
  length-map_of-le xs = omega (arith, length-foldl-insert xs [])
