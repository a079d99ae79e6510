-- ===== src/Plans/Validation/Casts.antt =====
-- src/core/plan-validation.ts: a value without issues is a plan, so a plan is never refused without
-- an issue.
use codex_mission_ledger.Prelude.{◌≡◌, ◌≢◌, Option, none, some, [], ◌∷◌, inl, inr, arith}
use codex_mission_ledger.Prelude.Tests.{Option-cases}
use codex_mission_ledger.Prelude.Maps.{Map, lookup}
use codex_mission_ledger.Contracts.{ExecutionPlan, ExecutionLimits, LimitOverrides}
use codex_mission_ledger.Plans.Names.{domains, risks, origins}
use codex_mission_ledger.Plans.Json.{Json, as_text, as_list, as_record, as_object}
use codex_mission_ledger.Plans.Shape.{IssuePath, root, at_key, Issues, ◌also◌}
use codex_mission_ledger.Plans.Codec.{
  ◌>>=◌, optional, read_list, read_value, decode_task, decode_integration, decode_plan,
  decode_plan_of,
}
use codex_mission_ledger.Plans.Codec.Members.{
  Decodes, found, also-nil, then-Decodes, last-Decodes, satisfies-Decodes, enum-Decodes,
  optional_enum-Decodes, string_array-Decodes, list-Decodes, each_item-Decodes,
}
use codex_mission_ledger.Plans.Codec.Safety.{
  validate_leaf_task-Decodes, validate_integration-Decodes,
}
use codex_mission_ledger.Plans.Nulls.{normalize_optional_plan_nulls}
use codex_mission_ledger.Plans.Validation.{
  PlannedExecutionRoute, PlanValidationResult, valid, invalid, verdict, judge_plan, tasks_issues,
  plan_members, validate_normal_plan, resolve_limits, validate_execution_plan,
}

tasks_issues-Decodes :
    (input : Option Json) (limits : ExecutionLimits) (route : Option PlannedExecutionRoute)
    → tasks_issues input limits route ≡ []
    → Decodes (read_list decode_task input)
tasks_issues-Decodes input limits route h = elim (Option-cases (as_list input)) [
  | inl gone ↦ absurd (ground (arith, gone, h))
  | inr (js, e) ↦ list-Decodes decode_task input js e (
      each_item-Decodes decode_task _ (λ j. validate_leaf_task-Decodes (some j)) js 0 _
        (also-nil _ _ (rw (e, tasks_issues) at h)).1)
]

-- A plan whose members have no issues has the types of a plan.
pub plan_members-Decodes :
    (limits : ExecutionLimits) (route : Option PlannedExecutionRoute) (ms : Map Json)
    (at : IssuePath)
    → plan_members limits route ms at ≡ []
    → Decodes (decode_plan_of ms)
unfolding decode_plan_of
plan_members-Decodes limits route ms at h =
    then-Decodes (as_text (lookup "planId" ms)) _ _ _ (also-nil _ _ (also-nil _ _ h).1).1
      (satisfies-Decodes _ _ _ _)
      λ h id.
        then-Decodes (as_text (lookup "objective" ms)) _ _ _ h (satisfies-Decodes _ _ _ _)
          λ h objective.
            then-Decodes (read_value domains (lookup "domain" ms)) _ _ _ h
              (enum-Decodes domains (lookup "domain" ms) (at_key at "domain"))
              λ h domain.
                then-Decodes (read_list as_text (lookup "assumptions" ms)) _ _ _ h
                  (string_array-Decodes _ _ _ _ _)
                  λ h assumptions.
                    then-Decodes (read_value risks (lookup "risk" ms)) _ _ _ h
                      (enum-Decodes risks (lookup "risk" ms) (at_key at "risk"))
                      λ h risk.
                        then-Decodes (optional (read_value origins) (lookup "origin" ms)) _ _ _ h
                          (optional_enum-Decodes origins (lookup "origin" ms) (at_key at "origin"))
                          λ h origin.
                            then-Decodes (read_list decode_task (lookup "tasks" ms)) _ _ _ h
                              (tasks_issues-Decodes (lookup "tasks" ms) limits route)
                              λ h tasks.
                                last-Decodes (decode_integration (lookup "integration" ms)) _
                                  (validate_integration-Decodes _ _ h) λ i. found _

-- A result that is not a value has an issue.
abbrev pub NamesIssue {ℓ} : {A : Type ℓ} → PlanValidationResult A → Type 0
NamesIssue (valid value) = Unit
NamesIssue (invalid issues) = issues ≢ []

pub verdict-NamesIssue {ℓ} :
    {A : Type ℓ} (value : A) (issues : Issues) → NamesIssue (verdict value issues)
verdict-NamesIssue value [] = tt
verdict-NamesIssue value (i ∷ is) = λ e. absurd cc

judge_plan-NamesIssue :
    (limits : ExecutionLimits) (issues : Issues) (plan : Option ExecutionPlan)
    → (issues ≡ [] → Decodes plan)
    → NamesIssue (judge_plan limits issues plan)
judge_plan-NamesIssue limits issues none reads = λ e. absurd (ground (arith, (reads e).reads))
judge_plan-NamesIssue limits issues (some plan) reads = verdict-NamesIssue plan _

pub record-Decodes {ℓ} :
    {A : Type ℓ} (read : Map Json → Option A) (input : Json) (ms : Map Json)
    → as_record input ≡ some ms
    → Decodes (read ms)
    → Decodes (as_object (some input) >>= read)
record-Decodes read input ms e h = record { reads = ground (arith, e, h.reads) }

validate_normal_plan-NamesIssue :
    (limits : ExecutionLimits × Issues) (route : Option PlannedExecutionRoute) (input : Json)
    → NamesIssue (validate_normal_plan limits route input)
unfolding decode_plan
validate_normal_plan-NamesIssue (limits, issues) route input =
    elim (Option-cases (as_record input)) [
      | inl gone ↦ rw (gone, validate_normal_plan) λ e. absurd (ground (arith, (also-nil _ _ e).1))
      | inr (ms, e) ↦
          rw (e, validate_normal_plan)
            (judge_plan-NamesIssue limits (issues also plan_members limits route ms root)
              (decode_plan (some input))
              λ h.
                record-Decodes decode_plan_of input ms e
                  (plan_members-Decodes limits route ms root (also-nil _ _ h).1))
    ]

-- A plan is refused only with an issue: a value without issues has the types of a plan, so the
-- source's cast of it is sound.
pub validate_execution_plan-NamesIssue :
    (input : Json) (overrides : LimitOverrides) (route : Option PlannedExecutionRoute)
    → NamesIssue (validate_execution_plan input overrides route)
unfolding validate_execution_plan
validate_execution_plan-NamesIssue input overrides route =
    validate_normal_plan-NamesIssue (resolve_limits overrides) route
      (normalize_optional_plan_nulls input)
