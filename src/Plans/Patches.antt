-- ===== src/Plans/Patches.antt =====
-- src/core/plan-validation.ts: the planner's changes of a plan.
pub mod Casts
pub mod Soundness
pub mod Guarantees
use mathlib.Core.List.{foldl}
use mathlib.Core.Option.{get_or}
use codex_mission_ledger.Prelude.{
  ℕ, suc, ◌*◌, String, Bool, true, false, not, ◌&&◌, Option, none, some, List, [], ◌∷◌, ◌++◌, map,
  ◌==◌,
}
use codex_mission_ledger.Prelude.Tests.{if◌then◌else◌, ltb}
use codex_mission_ledger.Prelude.Lists.{all, includes, keep, length}
use codex_mission_ledger.Prelude.Maps.{Map, lookup}
use codex_mission_ledger.Prelude.Numbers.{of_ℕ}
use codex_mission_ledger.Contracts.{
  LeafTask, ExecutionPlan, ExecutionLimits, LimitOverrides, PlanPatch, PlanPatchOperation,
}
use codex_mission_ledger.Policy.Checks.{is_nil}
use codex_mission_ledger.Plans.Json.{Json, as_text, as_list, as_record}
use codex_mission_ledger.Plans.Shape.{
  IssuePath, root, effective, at_key, at_index, PlanValidationIssue, Issues, issue_if, ◌also◌,
  satisfies, if_present, reject_unknown_keys, validate_identifier, validate_text,
}
use codex_mission_ledger.Plans.Shape.Tasks.{
  each_item, validate_patch_operation, validate_integration,
}
use codex_mission_ledger.Plans.Codec.{decode_patch, encode_plan}
use codex_mission_ledger.Plans.Nulls.{normalize_optional_plan_nulls}
use codex_mission_ledger.Plans.Semantics.{tasks_path}
use codex_mission_ledger.Plans.Validation.{
  PlanValidationResult, valid, invalid, verdict, resolve_limits, version_issues,
  validate_execution_plan,
}

-- `PlanPatchValidationOptions`
pub record PlanPatchValidationOptions : Type 0 where
  pub expected_plan_id : Option String
  pub base_plan : Option ExecutionPlan
  pub limits : LimitOverrides
  pub immutable_task_ids : List String

abbrev pub replace_first : String → LeafTask → List LeafTask → List LeafTask
replace_first id task [] = []
replace_first id task (t ∷ ts) = if t.id == id then task ∷ ts else t ∷ replace_first id task ts

abbrev pub without_task : String → List LeafTask → List LeafTask
without_task id = keep (λ t. not (t.id == id))

abbrev pub apply_operation : List LeafTask → PlanPatchOperation → List LeafTask
apply_operation tasks (PlanPatchOperation.add task) = tasks ++ task ∷ []
apply_operation tasks (PlanPatchOperation.replace id task) = replace_first id task tasks
apply_operation tasks (PlanPatchOperation.cancel id reason) = without_task id tasks

abbrev pub apply_operations : List LeafTask → List PlanPatchOperation → List LeafTask
apply_operations tasks [] = tasks
apply_operations tasks (op ∷ ops) = apply_operations (apply_operation tasks op) ops

-- `buildPatchedPlan`
unfoldable pub build_patched_plan : ExecutionPlan → PlanPatch → ExecutionPlan
build_patched_plan base patch = record base {
  tasks = apply_operations base.tasks patch.operations;
  integration = get_or patch.integration base.integration;
}

abbrev pub target_of : PlanPatchOperation → String
target_of (PlanPatchOperation.add task) = task.id
target_of (PlanPatchOperation.replace id task) = id
target_of (PlanPatchOperation.cancel id reason) = id

abbrev pub renames : PlanPatchOperation → Bool
renames (PlanPatchOperation.replace id task) = not (task.id == id)
renames _ = false

abbrev pub is_add : PlanPatchOperation → Bool
is_add (PlanPatchOperation.add task) = true
is_add _ = false

abbrev operation_path : ℕ → IssuePath
operation_path index = at_index (at_key root "operations") index

-- The first loop of `validatePatchSemantics`, from an index on
abbrev pub operation_issues : ℕ → List String → List PlanPatchOperation → Issues
operation_issues index targeted [] = []
operation_issues index targeted (op ∷ ops) =
    issue_if (includes targeted (target_of op)) (operation_path index) "duplicate_operation"
    also issue_if (renames op) (at_key (at_key (operation_path index) "task") "id")
        "replacement_id_mismatch"
    also operation_issues (suc index) (target_of op ∷ targeted) ops

-- The second loop of `validatePatchSemantics`, from an index on
abbrev pub base_issues : List String → List String → ℕ → List PlanPatchOperation → Issues
base_issues existing immutable index [] = []
base_issues existing immutable index (op ∷ ops) =
    issue_if (is_add op && includes existing (target_of op))
      (at_key (at_key (operation_path index) "task") "id") "task_already_exists"
    also issue_if (not (is_add op) && not (includes existing (target_of op)))
        (at_key (operation_path index) "taskId") "unknown_task"
    also issue_if (not (is_add op) && includes immutable (target_of op))
        (at_key (operation_path index) "taskId") "immutable_task"
    also base_issues existing immutable (suc index) ops

-- `$.effectivePlan${path.slice(1)}`
abbrev pub under_effective : IssuePath → IssuePath
under_effective root = effective
under_effective effective = effective
under_effective (at_key path key) = at_key (under_effective path) key
under_effective (at_index path index) = at_index (under_effective path) index

abbrev pub effective_issues : PlanValidationResult ExecutionPlan → Issues
effective_issues (valid plan) = []
effective_issues (invalid issues) =
    map (λ i. record { path = under_effective i.path; code = i.code }) issues

-- All limits, given as overrides
abbrev pub as_overrides : ExecutionLimits → LimitOverrides
as_overrides limits = record {
  max_concurrent = some (of_ℕ limits.max_concurrent);
  max_leaves = some (of_ℕ limits.max_leaves);
  max_waves = some (of_ℕ limits.max_waves);
  max_sol_leaves = some (of_ℕ limits.max_sol_leaves);
  max_replans = some (of_ℕ limits.max_replans);
  deadline_ms = limits.deadline_ms;
  max_cost_usd = limits.max_cost_usd;
}

abbrev pub patched_issues : ExecutionPlan → PlanPatch → ExecutionLimits → Issues
patched_issues base patch limits = effective_issues (
    validate_execution_plan (encode_plan (build_patched_plan base patch)) (as_overrides limits)
      none)

abbrev pub task_ids : List LeafTask → List String
task_ids = map (λ t. t.id)

abbrev pub unless_any : Issues → Issues → Issues
unless_any [] later = later
unless_any (i ∷ is) later = i ∷ is

abbrev pub issues_on_base :
    ExecutionPlan → PlanPatch → ExecutionLimits → List String → Issues → Issues
issues_on_base base patch limits immutable issues =
    if patch.plan_id == base.plan_id
    then unless_any (issues also base_issues (task_ids base.tasks) immutable 0 patch.operations)
        (patched_issues base patch limits)
    else issues also issue_if true (at_key root "planId") "plan_id_mismatch"

-- `validatePatchSemantics`, which is called without issues
unfoldable pub validate_patch_semantics :
    PlanPatch → Option ExecutionPlan → ExecutionLimits → List String → Issues
validate_patch_semantics patch none limits immutable = operation_issues 0 [] patch.operations
validate_patch_semantics patch (some base) limits immutable =
    issues_on_base base patch limits immutable (operation_issues 0 [] patch.operations)

abbrev expects : Option String → Option String → Bool
expects none id = true
expects (some expected) id = satisfies (λ s. s == expected) id

abbrev pub operations_issues : Option Json → ExecutionLimits → IssuePath → Issues
operations_issues input limits path = elim (as_list input) [
  | none ↦ issue_if true path "type"
  | some operations ↦
      issue_if (is_nil operations) path "minimum"
      also issue_if (ltb (limits.max_leaves * 2) (length operations)) path "maximum"
      also each_item (λ j. validate_patch_operation (some j)) operations 0 path
]

abbrev pub patch_members : ExecutionLimits → Option String → Map Json → IssuePath → Issues
patch_members limits expected ms path =
    let get = λ (key : String). lookup key ms in
    let at = at_key path in
    reject_unknown_keys ms
      ("protocolVersion" ∷ "planId" ∷ "reason" ∷ "operations" ∷ "integration" ∷ []) path
    also version_issues (get "protocolVersion")
    also validate_identifier (get "planId") (at "planId")
    also issue_if (not (expects expected (as_text (get "planId")))) (at "planId") "plan_id_mismatch"
    also validate_text (get "reason") (at "reason") 4000
    also operations_issues (get "operations") limits (at "operations")
    also if_present (get "integration") (λ i. validate_integration i (at "integration"))

abbrev pub judge_patch :
    PlanPatchValidationOptions
    → ExecutionLimits
    → Issues
    → Option PlanPatch
    → PlanValidationResult PlanPatch
judge_patch options limits [] (some patch) =
    verdict patch
      (validate_patch_semantics patch options.base_plan limits options.immutable_task_ids)
judge_patch options limits issues _ = invalid issues

abbrev pub validate_normal_patch :
    PlanPatchValidationOptions → ExecutionLimits × Issues → Json → PlanValidationResult PlanPatch
validate_normal_patch options (limits, issues) input = elim (as_record input) [
  | none ↦ invalid (issues also issue_if true root "type")
  | some ms ↦
      judge_patch options limits (issues also patch_members limits options.expected_plan_id ms root)
        (decode_patch (some input))
]

-- `validatePlanPatch`
unfoldable pub validate_plan_patch :
    Json → PlanPatchValidationOptions → PlanValidationResult PlanPatch
unfolding resolve_limits normalize_optional_plan_nulls
validate_plan_patch input options =
    validate_normal_patch options (resolve_limits options.limits)
      (normalize_optional_plan_nulls input)

abbrev pub with_patch :
    ExecutionPlan → PlanValidationResult PlanPatch → PlanValidationResult ExecutionPlan
with_patch base (valid patch) = valid (build_patched_plan base patch)
with_patch base (invalid issues) = invalid issues

abbrev pub options_for : ExecutionPlan → LimitOverrides → List String → PlanPatchValidationOptions
options_for base limits immutable = record {
  expected_plan_id = some base.plan_id;
  base_plan = some base;
  limits = limits;
  immutable_task_ids = immutable;
}

-- `applyPlanPatch`, where the exception of `parsePlanPatch` has the issues
unfoldable pub apply_plan_patch :
    ExecutionPlan → Json → LimitOverrides → List String → PlanValidationResult ExecutionPlan
apply_plan_patch base input limits immutable =
    with_patch base (validate_plan_patch input (options_for base limits immutable))
