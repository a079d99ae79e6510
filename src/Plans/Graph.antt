-- ===== src/Plans/Graph.antt =====
-- src/core/plan-validation.ts: the waves of a plan, its cycles and its critical path. The loop over
-- the waves is on fuel, of which the number of tasks is enough: a wave that is not empty takes tasks
-- out. An indegree that the source would make negative stays 0 here, and neither is ever 1 again.
pub mod Entries
pub mod Sets
pub mod Layers
pub mod Waves
pub mod Cycles
pub mod Starts
pub mod Analysis
use codex_mission_ledger.Prelude.{
  ℕ, zero, suc, ◌+◌, ◌-◌, String, Bool, true, false, not, Option, none, some, List, [], ◌∷◌, ◌++◌,
  map,
}
use codex_mission_ledger.Prelude.Tests.{if◌then◌else◌, nat_eq}
use codex_mission_ledger.Prelude.Lists.{includes, keep, length, set_add}
use codex_mission_ledger.Prelude.Maps.{Map, lookup, insert, has, keys, values}
use codex_mission_ledger.Prelude.Numbers.{Number, pos, num_add, num_max}
use codex_mission_ledger.Prelude.Text.{sort}
use codex_mission_ledger.Contracts.{LeafTask}
use mathlib.Core.List.{foldl}
use mathlib.Core.Option.{get_or}

-- A dependency that is no task of the plan
pub record MissingDependency : Type 0 where
  pub task_id : String
  pub dependency_id : String

pub record PlanGraphAnalysis : Type 0 where
  pub waves : List (List String)
  pub critical_path_seconds : Number
  pub missing_dependencies : List MissingDependency
  pub cycle_task_ids : List String

-- `[...new Set(ids)]`
abbrev pub distinct : List String → List String
distinct ids = foldl (λ seen id. set_add id seen) [] ids

-- `tasksById`: the first task of each id
unfoldable pub first_by_id : List LeafTask → Map LeafTask
first_by_id tasks = foldl (λ m t. if has t.id m then m else insert t.id t m) [] tasks

abbrev pub known_dependencies : Map LeafTask → LeafTask → List String
known_dependencies by_id task = keep (λ d. has d by_id) (distinct task.depends_on)

abbrev pub missing_of : Map LeafTask → LeafTask → List MissingDependency
missing_of by_id task =
    map (λ d. record { task_id = task.id; dependency_id = d })
      (keep (λ d. not (has d by_id)) (distinct task.depends_on))

abbrev pub missing_dependencies_of : Map LeafTask → List LeafTask → List MissingDependency
missing_dependencies_of by_id [] = []
missing_dependencies_of by_id (t ∷ ts) = missing_of by_id t ++ missing_dependencies_of by_id ts

-- `indegree` after the edges are counted
abbrev pub indegrees : Map LeafTask → List LeafTask → Map ℕ
indegrees by_id [] = []
indegrees by_id (t ∷ ts) = (t.id, length (known_dependencies by_id t)) ∷ indegrees by_id ts

-- `children.get(id)`: the tasks that depend on it, in their order
abbrev pub children_of : Map LeafTask → List LeafTask → String → List String
children_of by_id tasks id =
    map (λ t. t.id) (keep (λ t. includes (known_dependencies by_id t) id) tasks)

-- A task is one dependency nearer to its start, and ready after the last one.
abbrev pub release : Map ℕ × List String → String → Map ℕ × List String
release (indegree, next) child =
    let count = get_or (lookup child indegree) 0 in
    (insert child (count - 1) indegree, if nat_eq count 1 then next ++ child ∷ [] else next)

abbrev pub release_all : Map ℕ × List String → List String → Map ℕ × List String
release_all state ids = foldl release state ids

abbrev pub release_wave :
    (String → List String) → Map ℕ × List String → List String → Map ℕ × List String
release_wave children state [] = state
release_wave children state (id ∷ ids) = release_wave children (release_all state (children id)) ids

-- `while (ready.length > 0)`
unfoldable pub waves_from : ℕ → (String → List String) → Map ℕ → List String → List (List String)
waves_from zero children indegree ready = []
waves_from (suc fuel) children indegree [] = []
waves_from (suc fuel) children indegree (id ∷ ids) =
    let released = release_wave children (indegree, []) (id ∷ ids) in
    (id ∷ ids) ∷ waves_from fuel children released.0 (sort (distinct released.1))

unfoldable pub all_ids : List (List String) → List String
all_ids [] = []
all_ids (wave ∷ waves) = wave ++ all_ids waves

abbrev pub longest : Map Number → List String → Number
longest durations ids =
    foldl (λ maximum d. num_max maximum (get_or (lookup d durations) (pos 0))) (pos 0) ids

abbrev pub with_duration : Map LeafTask → Map Number → String → Map Number
with_duration by_id durations id = elim (lookup id by_id) [
  | none ↦ durations
  | some task ↦
      insert id (num_add (longest durations task.depends_on) task.expected_seconds) durations
]

abbrev pub durations_of : Map LeafTask → List String → Map Number
durations_of by_id ids = foldl (with_duration by_id) [] ids

abbrev pub critical_path : Map LeafTask → List (List String) → Number
critical_path by_id waves = foldl num_max (pos 0) (values (durations_of by_id (all_ids waves)))

abbrev pub graph_of : Map LeafTask → PlanGraphAnalysis
graph_of by_id =
    let tasks = values by_id in
    let indegree = indegrees by_id tasks in
    let ready = sort (keep (λ id. nat_eq (get_or (lookup id indegree) 1) 0) (keys by_id)) in
    let waves = waves_from (suc (length tasks)) (children_of by_id tasks) indegree ready in
    record {
      waves = waves;
      critical_path_seconds = critical_path by_id waves;
      missing_dependencies = missing_dependencies_of by_id tasks;
      cycle_task_ids = sort (keep (λ id. not (includes (all_ids waves) id)) (keys by_id));
    }

-- `analyzePlanGraph`
unfoldable pub analyze_plan_graph : List LeafTask → PlanGraphAnalysis
unfolding lookup insert sort first_by_id waves_from all_ids
analyze_plan_graph tasks = graph_of (first_by_id tasks)
