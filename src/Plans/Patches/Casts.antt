-- ===== src/Plans/Patches/Casts.antt =====
-- src/core/plan-validation.ts: a value without issues is a patch, so a patch is never refused without
-- an issue.
use codex_mission_ledger.Prelude.{◌≡◌, refl, String, Option, none, some, [], ◌∷◌, inl, inr, arith}
use codex_mission_ledger.Prelude.Tests.{Option-cases}
use codex_mission_ledger.Prelude.Maps.{Map, lookup}
use codex_mission_ledger.Contracts.{PlanPatch, ExecutionLimits}
use codex_mission_ledger.Plans.Json.{Json, as_text, as_list, as_record}
use codex_mission_ledger.Plans.Shape.{IssuePath, root, Issues, ◌also◌}
use codex_mission_ledger.Plans.Codec.{
  optional, read_list, decode_operation, decode_integration, decode_patch, decode_patch_of,
}
use codex_mission_ledger.Plans.Codec.Members.{
  Decodes, found, also-nil, then-Decodes, last-Decodes, satisfies-Decodes, optional-Decodes,
  list-Decodes, each_item-Decodes,
}
use codex_mission_ledger.Plans.Codec.Safety.{
  validate_patch_operation-Decodes, validate_integration-Decodes,
}
use codex_mission_ledger.Plans.Nulls.{normalize_optional_plan_nulls}
use codex_mission_ledger.Plans.Validation.{resolve_limits}
use codex_mission_ledger.Plans.Validation.Casts.{NamesIssue, verdict-NamesIssue, record-Decodes}
use codex_mission_ledger.Plans.Patches.{
  PlanPatchValidationOptions, operations_issues, patch_members, judge_patch, validate_normal_patch,
  validate_plan_patch,
}

operations_issues-Decodes :
    (input : Option Json) (limits : ExecutionLimits) (path : IssuePath)
    → operations_issues input limits path ≡ []
    → Decodes (read_list decode_operation input)
operations_issues-Decodes input limits path h = elim (Option-cases (as_list input)) [
  | inl gone ↦ absurd (ground (arith, gone, h))
  | inr (js, e) ↦
      let counted = also-nil _ _ (rw (e, operations_issues) at h) in
      list-Decodes decode_operation input js e (
        each_item-Decodes decode_operation _ (λ j. validate_patch_operation-Decodes (some j)) js 0 _
          (also-nil _ _ counted.1).1)
]

-- A patch whose members have no issues has the types of a patch.
patch_members-Decodes :
    (limits : ExecutionLimits) (expected : Option String) (ms : Map Json) (at : IssuePath)
    → patch_members limits expected ms at ≡ []
    → Decodes (decode_patch_of ms)
unfolding decode_patch_of
patch_members-Decodes limits expected ms at h =
    then-Decodes (as_text (lookup "planId" ms)) _ _ _ (also-nil _ _ (also-nil _ _ h).1).1
      (satisfies-Decodes _ _ _ _)
      λ h id.
        then-Decodes (as_text (lookup "reason" ms)) _ _ _ (also-nil _ _ h).1
          (satisfies-Decodes _ _ _ _)
          λ h reason.
            then-Decodes (read_list decode_operation (lookup "operations" ms)) _ _ _ h
              (operations_issues-Decodes (lookup "operations" ms) limits _)
              λ h operations.
                last-Decodes (optional decode_integration (lookup "integration" ms)) _
                  (optional-Decodes decode_integration _ _ h
                    λ j. validate_integration-Decodes (some j) _)
                  λ i. found _

judge_patch-NamesIssue :
    (options : PlanPatchValidationOptions) (limits : ExecutionLimits) (issues : Issues)
    (patch : Option PlanPatch)
    → (issues ≡ [] → Decodes patch)
    → NamesIssue (judge_patch options limits issues patch)
judge_patch-NamesIssue options limits [] none reads = absurd (ground (arith, (reads refl).reads))
judge_patch-NamesIssue options limits [] (some patch) reads = verdict-NamesIssue patch _
judge_patch-NamesIssue options limits (i ∷ is) patch reads = λ e. absurd cc

validate_normal_patch-NamesIssue :
    (options : PlanPatchValidationOptions) (limits : ExecutionLimits × Issues) (input : Json)
    → NamesIssue (validate_normal_patch options limits input)
unfolding decode_patch
validate_normal_patch-NamesIssue options (limits, issues) input =
    elim (Option-cases (as_record input)) [
      | inl gone ↦ rw (gone, validate_normal_patch) λ e. absurd (ground (arith, (also-nil _ _ e).1))
      | inr (ms, e) ↦
          rw (e, validate_normal_patch)
            (judge_patch-NamesIssue options limits
              (issues also patch_members limits options.expected_plan_id ms root)
              (decode_patch (some input))
              λ h.
                record-Decodes decode_patch_of input ms e (
                  patch_members-Decodes limits options.expected_plan_id ms root (also-nil _ _ h).1))
    ]

-- A patch is refused only with an issue: a value without issues has the types of a patch, so the
-- source's cast of it is sound.
pub validate_plan_patch-NamesIssue :
    (input : Json) (options : PlanPatchValidationOptions)
    → NamesIssue (validate_plan_patch input options)
unfolding validate_plan_patch
validate_plan_patch-NamesIssue input options =
    validate_normal_patch-NamesIssue options (resolve_limits options.limits)
      (normalize_optional_plan_nulls input)
