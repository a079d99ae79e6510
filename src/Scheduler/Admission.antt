-- ===== src/Scheduler/Admission.antt =====
-- src/core/scheduler.ts: what a plan has to satisfy before the scheduler runs it:
-- `computeWaves` and `validatePlanForScheduling`. `computeWaves` is a depth-first walk over the
-- dependencies; its recursion is on fuel, of which the number of tasks and one is enough.
pub mod Waves
pub mod Fuel
pub mod Plans
mod Tests
use mathlib.Core.Option.{get_or}
use codex_mission_ledger.Prelude.{
  ℕ, zero, suc, ◌+◌, max, String, Bool, true, false, not, ◌&&◌, ◌||◌, Option, none, some, List, [],
  ◌∷◌, map, ◌==◌,
}
use codex_mission_ledger.Prelude.Tests.{if◌then◌else◌, ltb, leb, is_some}
use codex_mission_ledger.Prelude.Lists.{includes, length, keep, any}
use codex_mission_ledger.Prelude.Maps.{Map, lookup, insert, map_of}
use codex_mission_ledger.Prelude.Numbers.{Number, pos, is_finite, num_lt, num_add}
use codex_mission_ledger.Contracts.{LeafTask, ExecutionPlan, ExecutionLimits, is_sol}

pub data AdmissionError : Type 0 where
  no_tasks too_many_tasks too_many_waves too_many_sol_leaves too_expensive : AdmissionError
  duplicate_id self_dependency cycle unknown_task invalid_cost : String → AdmissionError
  unknown_dependency : (id dependency : String) → AdmissionError
  missing_cost : String → AdmissionError
  -- Not in the source: the model's own recursion ended.
  out_of_fuel : AdmissionError

pub data Levels : Type 0 where
  failed : AdmissionError → Levels
  found : (value : ℕ) → (memo : Map ℕ) → Levels

-- `Math.max(0, ...ids.map(level))`, with the highest level so far.
abbrev pub highest : (Map ℕ → String → Levels) → ℕ → Map ℕ → List String → Levels
highest level so_far memo [] = found so_far memo
highest level so_far memo (id ∷ ids) = elim (level memo id) [
  | failed e ↦ failed e
  | found value memo' ↦ highest level (max so_far value) memo' ids
]

abbrev pub memoized : String → Levels → Levels
memoized id (failed e) = failed e
memoized id (found value memo) = found (suc value) (insert id (suc value) memo)

-- `level` of `computeWaves`, with the set `visiting`
unfoldable pub level_of : ℕ → Map LeafTask → List String → Map ℕ → String → Levels
level_of zero by_id visiting memo id = failed out_of_fuel
level_of (suc fuel) by_id visiting memo id =
    let below = level_of fuel by_id (id ∷ visiting) in
    elim (lookup id memo) [
      | some known ↦ found known memo
      | none ↦ if includes visiting id then failed (cycle id) else elim (lookup id by_id) [
        | none ↦ failed (unknown_task id)
        | some task ↦ memoized id (highest below 0 memo task.depends_on)
      ]
    ]

abbrev pub tasks_by_id : List LeafTask → Map LeafTask
tasks_by_id = map_of (λ t. t.id)

-- `computeWaves`
unfoldable pub compute_waves : List LeafTask → Levels
unfolding level_of
compute_waves tasks =
    highest (level_of (suc (length tasks)) (tasks_by_id tasks) []) 0 [] (map (λ t. t.id) tasks)

-- The first error that a test finds in a list.
abbrev pub first_error {ℓ} :
    {A : Type ℓ} → (A → Option AdmissionError) → List A → Option AdmissionError
first_error test [] = none
first_error test (x ∷ xs) = elim (test x) [ none ↦ first_error test xs | some e ↦ some e ]

abbrev pub unless : Bool → AdmissionError → Option AdmissionError
unless true e = none
unless false e = some e

-- The errors of the statements in their order; an error ends the rest.
infixr 3 ◌then_try◌
abbrev pub ◌then_try◌ : Option AdmissionError → Option AdmissionError → Option AdmissionError
none then_try b = b
some e then_try b = some e

abbrev pub duplicate_error : List String → List LeafTask → Option AdmissionError
duplicate_error ids [] = none
duplicate_error ids (t ∷ ts) =
    if includes ids t.id then some (duplicate_id t.id) else duplicate_error (t.id ∷ ids) ts

abbrev pub dependency_error : List String → String → String → Option AdmissionError
dependency_error ids id dependency =
    unless (includes ids dependency) (unknown_dependency id dependency)
    then_try unless (not (dependency == id)) (self_dependency id)

abbrev pub waves_error : ℕ → Levels → Option AdmissionError
waves_error max_waves (failed e) = some e
waves_error max_waves (found waves memo) = unless (leb waves max_waves) too_many_waves

abbrev pub has_valid_cost : LeafTask → Bool
has_valid_cost t = elim t.expected_cost_usd [
  | none ↦ true
  | some cost ↦ is_finite cost && not (num_lt cost (pos 0))
]

abbrev pub total_expected_cost : Number → List LeafTask → Number
total_expected_cost total [] = total
total_expected_cost total (t ∷ ts) =
    total_expected_cost (num_add total (get_or t.expected_cost_usd (pos 0))) ts

abbrev pub budget_error : Option Number → List LeafTask → Option AdmissionError
budget_error none tasks = none
budget_error (some maximum) tasks =
    first_error (λ t. unless (is_some t.expected_cost_usd) (missing_cost t.id)) tasks
    then_try unless (not (num_lt maximum (total_expected_cost (pos 0) tasks))) too_expensive

-- `validatePlanForScheduling`: the error that it throws, if it throws one
unfoldable pub validate_plan_for_scheduling :
    ExecutionPlan → ExecutionLimits → Option AdmissionError
unfolding compute_waves
validate_plan_for_scheduling plan limits =
    let tasks = plan.tasks in
    let ids = map (λ t. t.id) tasks in
    unless (ltb 0 (length tasks)) no_tasks
    then_try unless (leb (length tasks) limits.max_leaves) too_many_tasks
    then_try duplicate_error [] tasks
    then_try first_error (λ t. first_error (dependency_error ids t.id) t.depends_on) tasks
    then_try waves_error limits.max_waves (compute_waves tasks)
    then_try unless (leb (length (keep (λ t. is_sol t.tier) tasks)) limits.max_sol_leaves)
        too_many_sol_leaves
    then_try first_error (λ t. unless (has_valid_cost t) (invalid_cost t.id)) tasks
    then_try budget_error limits.max_cost_usd tasks
