-- ===== src/Scheduler/Loop/Protection.antt =====
-- src/core/scheduler.ts with src/core/plan-validation.ts: what a change of the plan leaves alone.
use codex_mission_ledger.Prelude.{◌≡◌, ◌⊎◌}
use codex_mission_ledger.Contracts.{ExecutionPlan, ExecutionLimits}
use codex_mission_ledger.Plans.Patches.{as_overrides}
use codex_mission_ledger.Plans.Patches.Guarantees.{checked_overrides, IsPatched}
use codex_mission_ledger.Scheduler.Loop.{RunState}
use codex_mission_ledger.Scheduler.Loop.Turn.{Phase, Patched, next_plan, over_capacity, refused}
use codex_mission_ledger.Scheduler.Loop.Replanning.{protected_ids}

-- The plan that a state holds has a property.
abbrev PlanIs : (ExecutionPlan → Type 0) → RunState × Phase → Type 0
PlanIs P r = P r.0.plan

-- The plan of a patch, if there is one, has a property.
abbrev PatchedIs : (ExecutionPlan → Type 0) → Patched → Type 0
PatchedIs P (next_plan plan) = P plan
PatchedIs P over_capacity = Unit
PatchedIs P refused = Unit

-- Either the plan of before, or one that is patched from it and keeps its protected tasks.
abbrev pub IsSuccessor : ExecutionLimits → RunState → ExecutionPlan → Type 0
IsSuccessor limits s plan =
    (plan ≡ s.plan)
    ⊎ IsPatched s.plan plan (checked_overrides (as_overrides limits)) (protected_ids s)
