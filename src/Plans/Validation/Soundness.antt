-- ===== src/Plans/Validation/Soundness.antt =====
-- src/core/plan-validation.ts: what `validateExecutionPlan` guarantees of a plan that it lets pass.
use codex_mission_ledger.Prelude.{◌≡◌, refl, sym, subst, ◌∙◌, Option, none, some, [], ◌∷◌, inl, inr}
use codex_mission_ledger.Prelude.Tests.{Option-cases}
use codex_mission_ledger.Contracts.{ExecutionPlan, ExecutionLimits, LimitOverrides}
use codex_mission_ledger.Plans.Json.{Json, as_record}
use codex_mission_ledger.Plans.Shape.{Issues}
use codex_mission_ledger.Plans.Codec.{decode_plan, encode_plan}
use codex_mission_ledger.Plans.Codec.Members.{also-nil}
use codex_mission_ledger.Plans.Codec.Trips.{decode_plan-encode_plan}
use codex_mission_ledger.Plans.Nulls.{normalize_optional_plan_nulls}
use codex_mission_ledger.Plans.Nulls.Normal.{normalize_optional_plan_nulls-encode_plan}
use codex_mission_ledger.Plans.Validation.{
  PlannedExecutionRoute, PlanValidationResult, valid, invalid, verdict, judge_plan,
  validate_normal_plan, resolve_limits, validate_execution_plan,
}
use codex_mission_ledger.Plans.Validation.Meaning.{
  IsMeaningful, validate_plan_semantics-IsMeaningful,
}

-- What is accepted is what the value reads as, and makes sense under the limits.
abbrev pub IsAccepted :
    ExecutionLimits → Option ExecutionPlan → PlanValidationResult ExecutionPlan → Type 0
IsAccepted limits read (invalid issues) = Unit
IsAccepted limits read (valid plan) = (read ≡ some plan) × IsMeaningful plan limits

verdict-IsAccepted :
    (limits : ExecutionLimits) (plan : ExecutionPlan) (issues : Issues)
    → (issues ≡ [] → IsMeaningful plan limits)
    → IsAccepted limits (some plan) (verdict plan issues)
verdict-IsAccepted limits plan [] h = (refl, h refl)
verdict-IsAccepted limits plan (i ∷ is) h = tt

judge_plan-IsAccepted :
    (limits : ExecutionLimits) (issues : Issues) (read : Option ExecutionPlan)
    → IsAccepted limits read (judge_plan limits issues read)
judge_plan-IsAccepted limits issues none = tt
judge_plan-IsAccepted limits issues (some plan) =
    verdict-IsAccepted limits plan _
      λ e. validate_plan_semantics-IsMeaningful plan limits (also-nil _ _ e).1

validate_normal_plan-IsAccepted :
    (limits : ExecutionLimits × Issues) (route : Option PlannedExecutionRoute) (input : Json)
    → IsAccepted limits.0 (decode_plan (some input)) (validate_normal_plan limits route input)
validate_normal_plan-IsAccepted (limits, issues) route input =
    elim (Option-cases (as_record input)) [
      | inl gone ↦ rw (gone, validate_normal_plan) tt
      | inr (ms, e) ↦
          rw (e, validate_normal_plan) (judge_plan-IsAccepted limits _ (decode_plan (some input)))
    ]

-- A plan that is accepted is the one that the value without its nulls reads as. Its ids are distinct;
-- each task depends only on other tasks and talks only to other tasks, the planner or the integrator;
-- the tasks have waves, each after all that it depends on, none is in a cycle, and the waves, the Sol
-- tasks, the critical path and the costs fit the limits that hold; no two writers that may run at the
-- same time own the same files; and a high risk is reviewed, but for a plan of the Sol model.
pub validate_execution_plan-IsMeaningful :
    (input : Json) (overrides : LimitOverrides) (route : Option PlannedExecutionRoute)
    (plan : ExecutionPlan)
    → validate_execution_plan input overrides route ≡ valid plan
    → (decode_plan (some (normalize_optional_plan_nulls input)) ≡ some plan)
      × IsMeaningful plan (resolve_limits overrides).0
unfolding validate_execution_plan
validate_execution_plan-IsMeaningful input overrides route plan e =
    subst
      (IsAccepted (resolve_limits overrides).0
        (decode_plan (some (normalize_optional_plan_nulls input))))
      e
      (validate_normal_plan-IsAccepted (resolve_limits overrides) route
        (normalize_optional_plan_nulls input))

-- The check of a plan that is written as a JSON value gives this plan, if it gives one.
pub validate_execution_plan-encode_plan :
    (p plan : ExecutionPlan) (overrides : LimitOverrides) (route : Option PlannedExecutionRoute)
    → validate_execution_plan (encode_plan p) overrides route ≡ valid plan
    → some p ≡ some plan
validate_execution_plan-encode_plan p plan overrides route e =
    let read = (validate_execution_plan-IsMeaningful (encode_plan p) overrides route plan e).0 in
    sym (decode_plan-encode_plan p)
    ∙ subst (λ j. decode_plan (some j) ≡ some plan) (normalize_optional_plan_nulls-encode_plan p)
        read
