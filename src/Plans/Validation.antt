-- ===== src/Plans/Validation.antt =====
-- src/core/plan-validation.ts: model output as a plan, or the issues for which it is refused. The
-- source checks the meaning of a plan also where an enumeration has a wrong text, and adds issues to
-- those of a value that is refused already; here it is checked if the value has all its types.
pub mod Tasks
pub mod Form
pub mod Casts
pub mod Meaning
pub mod Soundness
use codex_mission_ledger.Prelude.{
  ℕ, String, Bool, true, false, not, ◌&&◌, Option, none, some, List, [], ◌∷◌,
}
use codex_mission_ledger.Prelude.Tests.{ltb, nat_eq}
use codex_mission_ledger.Prelude.Lists.{length}
use codex_mission_ledger.Prelude.Maps.{Map, lookup}
use codex_mission_ledger.Prelude.Numbers.{Number, pos}
use codex_mission_ledger.Contracts.{
  ExecutionPlan, ExecutionLimits, LimitOverrides, OptimizationProfile,
}
use codex_mission_ledger.Policy.Limits.{
  Result, ok, err, normalize_execution_limits, quality_execution_limits,
}
use codex_mission_ledger.Policy.Checks.{is_nil}
use codex_mission_ledger.Plans.Names.{names, domains, risks, origins, policy_code}
use codex_mission_ledger.Plans.Json.{Json, as_number, as_list, as_record}
use codex_mission_ledger.Plans.Shape.{
  IssuePath, root, at_key, PlanValidationIssue, Issues, issue_if, ◌also◌, satisfies, if_present,
  reject_unknown_keys, validate_identifier, validate_text, validate_enum, validate_string_array,
}
use codex_mission_ledger.Plans.Shape.Tasks.{each_item, validate_leaf_task, validate_integration}
use codex_mission_ledger.Plans.Codec.{decode_plan}
use codex_mission_ledger.Plans.Nulls.{normalize_optional_plan_nulls}
use codex_mission_ledger.Plans.Semantics.{validate_plan_semantics, tasks_path}

-- `PlannedExecutionRoute`
pub data PlannedExecutionRoute : Type 0 where
  fanout planned_single : PlannedExecutionRoute

-- `PlanValidationResult`
pub data PlanValidationResult {ℓ} (A : Type ℓ) : Type ℓ where
  valid : (value : A) → PlanValidationResult A
  invalid : (issues : Issues) → PlanValidationResult A

-- `resolveLimits`: what it gives, and its issues
abbrev pub resolved : Result ExecutionLimits → ExecutionLimits × Issues
resolved (ok limits) = (limits, [])
resolved (err e) = (quality_execution_limits, issue_if true (at_key root "limits") (policy_code e))

unfoldable pub resolve_limits : LimitOverrides → ExecutionLimits × Issues
resolve_limits overrides =
    resolved (normalize_execution_limits overrides OptimizationProfile.quality)

abbrev is_one : Number → Bool
is_one (pos n) = nat_eq n 1000000
is_one _ = false

abbrev pub version_issues : Option Json → Issues
version_issues input =
    issue_if (not (satisfies is_one (as_number input))) (at_key root "protocolVersion")
      "protocol_version"

abbrev is_fanout : Option PlannedExecutionRoute → Bool
is_fanout (some PlannedExecutionRoute.fanout) = true
is_fanout _ = false

abbrev is_single : Option PlannedExecutionRoute → Bool
is_single (some PlannedExecutionRoute.planned_single) = true
is_single _ = false

abbrev pub count_issues : List Json → ExecutionLimits → Option PlannedExecutionRoute → Issues
count_issues tasks limits route =
    issue_if (is_nil tasks) tasks_path "minimum"
    also issue_if (is_fanout route && ltb (length tasks) 2) tasks_path "fanout_minimum"
    also issue_if (is_single route && not (nat_eq (length tasks) 1)) tasks_path
        "planned_single_count"
    also issue_if (ltb limits.max_leaves (length tasks)) tasks_path "max_leaves"

abbrev pub tasks_issues : Option Json → ExecutionLimits → Option PlannedExecutionRoute → Issues
tasks_issues input limits route = elim (as_list input) [
  | none ↦ issue_if true tasks_path "type"
  | some tasks ↦
      count_issues tasks limits route
      also each_item (λ j. validate_leaf_task (some j)) tasks 0 tasks_path
]

abbrev pub plan_keys : List String
plan_keys =
    "protocolVersion" ∷ "planId" ∷ "objective" ∷ "domain" ∷ "assumptions" ∷ "tasks" ∷ "integration"
    ∷ "risk" ∷ "origin" ∷ []

abbrev pub plan_members :
    ExecutionLimits → Option PlannedExecutionRoute → Map Json → IssuePath → Issues
plan_members limits route ms path =
    let get = λ (key : String). lookup key ms in
    let at = at_key path in
    reject_unknown_keys ms plan_keys path
    also version_issues (get "protocolVersion")
    also validate_identifier (get "planId") (at "planId")
    also validate_text (get "objective") (at "objective") 12000
    also validate_enum (get "domain") (names domains) (at "domain")
    also validate_string_array (get "assumptions") (at "assumptions") 0 32 2000
    also validate_enum (get "risk") (names risks) (at "risk")
    also if_present (get "origin") (λ o. validate_enum o (names origins) (at "origin"))
    also tasks_issues (get "tasks") limits route
    also validate_integration (get "integration") (at "integration")

-- `issues.length === 0 ? { ok: true, … } : { ok: false, issues }`
abbrev pub verdict {ℓ} : {A : Type ℓ} → A → Issues → PlanValidationResult A
verdict value [] = valid value
verdict value (i ∷ is) = invalid (i ∷ is)

abbrev pub judge_plan :
    ExecutionLimits → Issues → Option ExecutionPlan → PlanValidationResult ExecutionPlan
judge_plan limits issues none = invalid issues
judge_plan limits issues (some plan) =
    verdict plan (issues also validate_plan_semantics plan limits)

abbrev pub validate_normal_plan :
    ExecutionLimits × Issues
    → Option PlannedExecutionRoute
    → Json
    → PlanValidationResult ExecutionPlan
validate_normal_plan (limits, issues) route input = elim (as_record input) [
  | none ↦ invalid (issues also issue_if true root "type")
  | some ms ↦
      judge_plan limits (issues also plan_members limits route ms root) (decode_plan (some input))
]

-- `validateExecutionPlan`
unfoldable pub validate_execution_plan :
    Json → LimitOverrides → Option PlannedExecutionRoute → PlanValidationResult ExecutionPlan
unfolding resolve_limits normalize_optional_plan_nulls
validate_execution_plan input overrides route =
    validate_normal_plan (resolve_limits overrides) route (normalize_optional_plan_nulls input)
