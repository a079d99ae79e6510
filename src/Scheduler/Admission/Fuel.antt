-- ===== src/Scheduler/Admission/Fuel.antt =====
-- src/core/scheduler.ts: `computeWaves` ends: the walk never goes deeper than there are tasks.
use codex_mission_ledger.Prelude.{
  ℕ, zero, suc, max, ◌<◌, ◌≡◌, refl, String, Bool, true, false, List, [], ◌∷◌, map, inl, inr, arith,
}
use codex_mission_ledger.Prelude.Tests.{Bool-cases, Option-cases}
use codex_mission_ledger.Prelude.Lists.{includes, length}
use codex_mission_ledger.Prelude.Maps.{Map, lookup, map_of}
use codex_mission_ledger.Prelude.Visits.{unvisited, unvisited-visit, unvisited-length}
use codex_mission_ledger.Prelude.Maps.{length-map_of-le}
use codex_mission_ledger.Contracts.{LeafTask}
use codex_mission_ledger.Scheduler.Admission.{
  out_of_fuel, Levels, failed, found, highest, memoized, level_of, tasks_by_id, compute_waves,
}

-- Whether the model's recursion ended before the walk did.
abbrev pub ran_out : Levels → Bool
ran_out (failed out_of_fuel) = true
ran_out (failed _) = false
ran_out (found v memo) = false

highest-ends :
    (level : Map ℕ → String → Levels)
    → ((memo : Map ℕ) (id : String) → ran_out (level memo id) ≡ false)
    → (so_far : ℕ) (memo : Map ℕ) (ids : List String)
    → ran_out (highest level so_far memo ids) ≡ false
highest-ends level h so_far memo [] = refl
highest-ends level h so_far memo (id ∷ ids) =
    go (level memo id) (h memo id) (λ value next. highest-ends level h (max so_far value) next ids)
  where
    go :
        (r : Levels)
        → ran_out r ≡ false
        → ((value : ℕ) (next : Map ℕ) → ran_out (highest level (max so_far value) next ids) ≡ false)
        → ran_out (elim r [
          | failed e ↦ failed e
          | found value next ↦ highest level (max so_far value) next ids
        ])
          ≡ false
    go (failed e) known rest = known
    go (found value next) known rest = rest value next

memoized-ends : (id : String) (r : Levels) → ran_out r ≡ false → ran_out (memoized id r) ≡ false
memoized-ends id (failed e) h = h
memoized-ends id (found v memo) h = refl

level_of-ends :
    (fuel : ℕ) (by_id : Map LeafTask) (visiting : List String)
    → unvisited visiting by_id < fuel
    → (memo : Map ℕ) (id : String) → ran_out (level_of fuel by_id visiting memo id) ≡ false
unfolding level_of
level_of-ends zero by_id visiting enough memo id = absurd (omega arith)
level_of-ends (suc fuel) by_id visiting enough memo id = elim (Option-cases (lookup id memo)) [
  | inr (known, e) ↦ rw (e, level_of) refl
  | inl open_ ↦ elim (Bool-cases (includes visiting id)) [
    | inl entered ↦ rw (open_, entered, level_of) refl
    | inr new ↦ elim (Option-cases (lookup id by_id)) [
      | inl unknown ↦ rw (open_, new, unknown, level_of) refl
      | inr (task, e) ↦
          rw (open_, new, e, level_of)
            (memoized-ends id _ (
              highest-ends (level_of fuel by_id (id ∷ visiting))
                (level_of-ends fuel by_id (id ∷ visiting)
                  (omega (arith, unvisited-visit visiting id task by_id e new)))
                0 memo task.depends_on))
    ]
  ]
]

-- The fuel that `compute_waves` starts with is enough for every list of tasks, also for one with
-- cycles, unknown dependencies or ids that stand twice.
pub compute_waves-ends : (tasks : List LeafTask) → ran_out (compute_waves tasks) ≡ false
unfolding compute_waves map_of
compute_waves-ends tasks =
    highest-ends (level_of (suc (length tasks)) (tasks_by_id tasks) [])
      (level_of-ends (suc (length tasks)) (tasks_by_id tasks) []
        (omega (arith, unvisited-length (tasks_by_id tasks), length-map_of-le (λ t. t.id) tasks)))
      0 [] (map (λ t. t.id) tasks)
