-- ===== src/Prelude/Visits.antt =====
-- The measure of a walk over the entries of a map: what it has not visited yet.
use Prim.Native.Nat.{ℕ, ◌+◌, ◌≤◌}
use Prim.Native.String.{String}
use mathlib.Core.Path.{◌≡◌, refl}
use mathlib.Core.Logic.{inl, inr}
use mathlib.Core.Bool.{false}
use mathlib.Core.Option.{some}
use mathlib.Core.List.{List, [], ◌∷◌}
use native.Mathlib.Omega.{arith}
use text.Mathlib.Text.{◌==◌}
use text.Mathlib.TextEquality.{eq_iff}
use codex_mission_ledger.Prelude.Tests.{if◌then◌else◌, Bool-cases}
use codex_mission_ledger.Prelude.Lists.{length, includes}
use codex_mission_ledger.Prelude.Maps.{Map, lookup}

module _ {ℓ} {V : Type ℓ} where
  -- How many keys are not among those visited.
  abbrev pub unvisited : List String → Map V → ℕ
  unvisited visiting [] = 0
  unvisited visiting ((k, t) ∷ m) = (if includes visiting k then 0 else 1) + unvisited visiting m

  unvisited-le :
      (visiting : List String) (id : String) (m : Map V)
      → unvisited (id ∷ visiting) m ≤ unvisited visiting m
  unvisited-le visiting id [] = omega arith
  unvisited-le visiting id ((k, t) ∷ m) = ground (arith, unvisited-le visiting id m)

  pub unvisited-visit :
      (visiting : List String) (id : String) (task : V) (m : Map V)
      → lookup id m ≡ some task
      → includes visiting id ≡ false
      → unvisited (id ∷ visiting) m + 1 ≤ unvisited visiting m
  unfolding lookup
  unvisited-visit visiting id task [] e new = absurd cc
  unvisited-visit visiting id task ((k, t) ∷ m) e new = elim (Bool-cases (k == id)) [
    | inl same ↦ ground (arith, eq_iff k id, eq_iff id k, unvisited-le visiting id m, same)
    | inr other ↦ ground (
      arith,
      eq_iff k id,
      eq_iff id k,
      unvisited-visit visiting id task m (ground (arith, other)) new,
    )
  ]

  pub unvisited-length : (m : Map V) → unvisited [] m ≡ length m
  unvisited-length [] = refl
  unvisited-length ((k, t) ∷ m) = omega (arith, unvisited-length m)
