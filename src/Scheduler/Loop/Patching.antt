-- ===== src/Scheduler/Loop/Patching.antt =====
-- src/core/scheduler.ts: the planner's patch applied by `applyPlanPatch`, and how its errors are told
-- apart: a patch with too many leaves is left out, any other error ends the run.
use codex_mission_ledger.Prelude.{String, Bool, false, ◌&&◌, List, [], ◌∷◌, ◌==◌}
use codex_mission_ledger.Prelude.Tests.{if◌then◌else◌}
use codex_mission_ledger.Prelude.Lists.{all}
use codex_mission_ledger.Contracts.{ExecutionPlan, PlanPatch, ExecutionLimits}
use codex_mission_ledger.Plans.Shape.{IssuePath, effective, at_key, Issues}
use codex_mission_ledger.Plans.Codec.{encode_patch}
use codex_mission_ledger.Plans.Validation.{PlanValidationResult, valid, invalid}
use codex_mission_ledger.Plans.Patches.{as_overrides, apply_plan_patch}
use codex_mission_ledger.Scheduler.Loop.Turn.{Patched, next_plan, over_capacity, refused}

-- `issue.path === "$.effectivePlan.tasks"`
abbrev pub is_effective_tasks : IssuePath → Bool
is_effective_tasks (at_key effective key) = key == "tasks"
is_effective_tasks _ = false

-- `isPatchLeafCapacityError`
unfoldable pub is_patch_leaf_capacity_error : Issues → Bool
is_patch_leaf_capacity_error [] = false
is_patch_leaf_capacity_error (i ∷ issues) =
    all (λ i. is_effective_tasks i.path && i.code == "max_leaves") (i ∷ issues)

abbrev pub judged : PlanValidationResult ExecutionPlan → Patched
judged (valid plan) = next_plan plan
judged (invalid issues) = if is_patch_leaf_capacity_error issues then over_capacity else refused

-- The call of `applyPlanPatch` in `execute`, and its `catch`
unfoldable pub apply_patch : ExecutionPlan → PlanPatch → ExecutionLimits → List String → Patched
unfolding is_patch_leaf_capacity_error
apply_patch base patch limits immutable =
    judged (apply_plan_patch base (encode_patch patch) (as_overrides limits) immutable)
