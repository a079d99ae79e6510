-- ===== src/Plans/Semantics.antt =====
-- src/core/plan-validation.ts: the checks on a plan that has its shape.
use codex_mission_ledger.Prelude.{
  ℕ, suc, String, Bool, true, false, not, ◌&&◌, Option, none, some, List, [], ◌∷◌, map, ◌==◌,
}
use codex_mission_ledger.Prelude.Tests.{if◌then◌else◌, ltb, is_some}
use codex_mission_ledger.Prelude.Lists.{any, includes, keep, length}
use codex_mission_ledger.Prelude.Numbers.{Number, pos, num_lt, num_add, times}
use codex_mission_ledger.Contracts.{
  ModelTier, LeafTask, ExecutionPlan, ExecutionLimits, Risk, FinalReview, PlanOrigin, is_sol,
}
use codex_mission_ledger.Policy.Checks.{is_nil}
use codex_mission_ledger.Policy.Ownership.Conflicts.{find_concurrent_owned_path_conflicts}
use codex_mission_ledger.Plans.Shape.{IssuePath, root, at_key, at_index, Issues, issue_if, ◌also◌}
use codex_mission_ledger.Plans.Graph.{MissingDependency, PlanGraphAnalysis, analyze_plan_graph}

-- `tierRank`
abbrev pub rank_of : ModelTier → ℕ
rank_of ModelTier.luna = 0
rank_of ModelTier.terra = 1
rank_of ModelTier.sol = 2

abbrev pub tasks_path : IssuePath
tasks_path = at_key root "tasks"

abbrev task_path : ℕ → String → IssuePath
task_path index key = at_key (at_index tasks_path index) key

abbrev pub is_below_minimum : LeafTask → Bool
is_below_minimum task = elim task.min_tier [
  | none ↦ false
  | some minimum ↦ ltb (rank_of task.tier) (rank_of minimum)
]

-- One issue for each item that fails, all at one place
abbrev pub issue_each {ℓ} : {A : Type ℓ} → (A → Bool) → IssuePath → String → List A → Issues
issue_each fails path code [] = []
issue_each fails path code (a ∷ rest) =
    issue_if (fails a) path code also issue_each fails path code rest

-- The first loop of `validatePlanSemantics`, from an index on
abbrev pub task_issues : ℕ → List String → List LeafTask → Issues
task_issues index seen [] = []
task_issues index seen (t ∷ ts) =
    issue_if (is_below_minimum t) (task_path index "tier") "tier_below_minimum"
    also issue_if (includes seen t.id) (task_path index "id") "duplicate_task_id"
    also issue_each (λ d. d == t.id) (task_path index "dependsOn") "self_dependency" t.depends_on
    also task_issues (suc index) (t.id ∷ seen) ts

abbrev communication_issue : List String → IssuePath → LeafTask → String → Issues
communication_issue ids path task id =
    if id == task.id
    then issue_if true path "self_communication"
    else issue_if (not (includes ids id) && not (id == "planner") && not (id == "integrator")) path
        "missing_communication_target"

abbrev pub communications : List String → IssuePath → LeafTask → List String → Issues
communications ids path task [] = []
communications ids path task (id ∷ rest) =
    communication_issue ids path task id also communications ids path task rest

-- The second loop of `validatePlanSemantics`, from an index on
abbrev pub communication_issues : List String → ℕ → List LeafTask → Issues
communication_issues ids index [] = []
communication_issues ids index (t ∷ ts) =
    communications ids (task_path index "communicationWith") t t.communication_with
    also communication_issues ids (suc index) ts

abbrev index_of : String → List LeafTask → ℕ
index_of id [] = 0
index_of id (t ∷ ts) = if t.id == id then 0 else suc (index_of id ts)

abbrev pub missing_issues : List LeafTask → List MissingDependency → Issues
missing_issues tasks [] = []
missing_issues tasks (m ∷ ms) =
    issue_if true (task_path (index_of m.task_id tasks) "dependsOn") "missing_dependency"
    also missing_issues tasks ms

abbrev pub graph_issues : List LeafTask → ExecutionLimits → PlanGraphAnalysis → Issues
graph_issues tasks limits graph =
    missing_issues tasks graph.missing_dependencies
    also issue_if (not (is_nil graph.cycle_task_ids)) tasks_path "dependency_cycle"
    also issue_if (ltb limits.max_waves (length graph.waves)) tasks_path "max_waves"

abbrev pub is_late : Option Number → Number → Bool
is_late none seconds = false
is_late (some deadline_ms) seconds = num_lt deadline_ms (times 1000 seconds)

abbrev pub plan_cost : Number → List LeafTask → Number
plan_cost total [] = total
plan_cost total (t ∷ ts) =
    plan_cost (elim t.expected_cost_usd [ none ↦ num_add total (pos 0) | some c ↦ num_add total c ])
      ts

abbrev pub cost_issues : Option Number → List LeafTask → Issues
cost_issues none tasks = []
cost_issues (some maximum) tasks =
    if any (λ t. not (is_some t.expected_cost_usd)) tasks
    then issue_if true tasks_path "cost_estimate_required"
    else issue_if (num_lt maximum (plan_cost (pos 0) tasks)) tasks_path "max_cost"

abbrev is_high : Risk → Bool
is_high Risk.high = true
is_high _ = false

abbrev is_never : FinalReview → Bool
is_never FinalReview.never = true
is_never _ = false

abbrev is_sol_origin : Option PlanOrigin → Bool
is_sol_origin (some PlanOrigin.sol) = true
is_sol_origin _ = false

abbrev pub is_unreviewed : ExecutionPlan → Bool
is_unreviewed plan =
    is_high plan.risk && is_never plan.integration.final_review && not (is_sol_origin plan.origin)

-- `validatePlanSemantics`
unfoldable pub validate_plan_semantics : ExecutionPlan → ExecutionLimits → Issues
validate_plan_semantics plan limits =
    let tasks = plan.tasks in
    let graph = analyze_plan_graph tasks in
    task_issues 0 [] tasks
    also communication_issues (map (λ t. t.id) tasks) 0 tasks
    also graph_issues tasks limits graph
    also issue_if (ltb limits.max_sol_leaves (length (keep (λ t. is_sol t.tier) tasks))) tasks_path
        "max_sol_leaves"
    also issue_if (is_late limits.deadline_ms graph.critical_path_seconds) tasks_path "deadline"
    also cost_issues limits.max_cost_usd tasks
    also issue_each (λ c. true) tasks_path "ownership_overlap"
        (find_concurrent_owned_path_conflicts tasks)
    also issue_if (is_unreviewed plan) (at_key root "integration") "unvalidated_high_risk"
