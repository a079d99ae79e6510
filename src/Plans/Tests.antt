-- ===== src/Plans/Tests.antt =====
-- src/core/plan-validation.ts: plans and patches that are checked, and the theorems at them.
use codex_mission_ledger.Prelude.{◌≡◌, refl, none, some, List, [], ◌∷◌, arith}
use codex_mission_ledger.Prelude.Maps.{lookup, insert, remove, map_of}
use codex_mission_ledger.Prelude.Codes.{codes}
use codex_mission_ledger.Prelude.Text.{trim, sort, sort_in}
use codex_mission_ledger.Contracts.{
  LeafTask, ExecutionPlan, PlanPatch, PlanPatchOperation, LimitOverrides,
}
use codex_mission_ledger.Contracts.Samples.{task, plan}
use codex_mission_ledger.Policy.Limits.{
  override_limit, assert_finite_non_negative, normalize_execution_limits,
}
use codex_mission_ledger.Policy.Ownership.{owned_paths_overlap}
use codex_mission_ledger.Policy.Ownership.Conflicts.{
  visit_task, task_transitively_depends_on, find_concurrent_owned_path_conflicts,
}
use codex_mission_ledger.Policy.Tiers.{
  tier_supports_effort, recommend_tier, evaluate_tier_assignment, assert_tier_effort,
  assert_tier_assignment,
}
use codex_mission_ledger.Plans.Json.{null, text, obj}
use codex_mission_ledger.Plans.Shape.{
  root, at_key, at_index, ◌also◌, validate_string_array, is_workspace_relative_path, split_slashes,
  trimmed_path,
}
use codex_mission_ledger.Plans.Shape.Tasks.{
  validate_capabilities, validate_validation_specs, validate_owned_paths, validate_leaf_task,
  validate_integration, validate_patch_operation,
}
use codex_mission_ledger.Plans.Codec.{
  decode_task, decode_task_of, decode_integration, decode_integration_of, decode_plan,
  decode_plan_of, decode_operation, decode_patch, decode_patch_of, encode_task, encode_integration,
  plan_entries, encode_plan, encode_operation, patch_entries, encode_patch,
}
use codex_mission_ledger.Plans.Codec.Members.{Decodes}
use codex_mission_ledger.Plans.Codec.Safety.{validate_leaf_task-Decodes}
use codex_mission_ledger.Plans.Nulls.{
  normalize_task_nulls, normalize_integration_nulls, normalize_optional_plan_nulls,
}
use codex_mission_ledger.Plans.Graph.{first_by_id, waves_from, all_ids, analyze_plan_graph}
use codex_mission_ledger.Plans.Semantics.{validate_plan_semantics}
use codex_mission_ledger.Plans.Validation.{valid, invalid, resolve_limits, validate_execution_plan}
use codex_mission_ledger.Plans.Patches.{
  PlanPatchValidationOptions, build_patched_plan, validate_patch_semantics, validate_plan_patch,
  options_for, apply_plan_patch,
}
use codex_mission_ledger.Scheduler.Admission.Plans.{AreDistinct}
use codex_mission_ledger.Plans.Graph.Analysis.{loop, analyze_plan_graph_enough}
use codex_mission_ledger.Plans.Validation.Casts.{NamesIssue, validate_execution_plan-NamesIssue}
use codex_mission_ledger.Plans.Validation.Form.{IsWellFormed, validate_execution_plan-IsWellFormed}
use codex_mission_ledger.Plans.Validation.Meaning.{IsMeaningful}
use codex_mission_ledger.Plans.Validation.Soundness.{
  validate_execution_plan-IsMeaningful, validate_execution_plan-encode_plan,
}
use codex_mission_ledger.Plans.Patches.Casts.{validate_plan_patch-NamesIssue}
use codex_mission_ledger.Plans.Patches.Guarantees.{
  IsPatched, checked_overrides, apply_plan_patch-IsPatched,
}

abbrev no_overrides : LimitOverrides
no_overrides = record {
  max_concurrent = none;
  max_leaves = none;
  max_waves = none;
  max_sol_leaves = none;
  max_replans = none;
  deadline_ms = none;
  max_cost_usd = none;
}

abbrev tasks : List LeafTask
tasks = task "a" [] ∷ task "b" ("a" ∷ []) ∷ []

abbrev with_output : ExecutionPlan → ExecutionPlan
with_output p = record p { integration = record p.integration { required_outputs = "answer" ∷ [] } }

abbrev base : ExecutionPlan
base = with_output (plan tasks)

program : Unit {0}
unfolding lookup insert remove map_of codes trim sort sort_in override_limit
    assert_finite_non_negative normalize_execution_limits owned_paths_overlap visit_task
    task_transitively_depends_on find_concurrent_owned_path_conflicts tier_supports_effort
    recommend_tier evaluate_tier_assignment assert_tier_effort assert_tier_assignment ◌also◌
    validate_string_array is_workspace_relative_path split_slashes trimmed_path
    validate_capabilities validate_validation_specs validate_owned_paths validate_leaf_task
    validate_integration validate_patch_operation decode_task decode_task_of decode_integration
    decode_integration_of decode_plan decode_plan_of decode_operation decode_patch decode_patch_of
    encode_task encode_integration plan_entries encode_plan encode_operation patch_entries
    encode_patch normalize_task_nulls normalize_integration_nulls normalize_optional_plan_nulls
    first_by_id waves_from all_ids analyze_plan_graph validate_plan_semantics resolve_limits
    validate_execution_plan build_patched_plan validate_patch_semantics validate_plan_patch
    apply_plan_patch
program = tt

-- The second task waits for the first.
waves : (analyze_plan_graph tasks).waves ≡ (("a" ∷ []) ∷ ("b" ∷ []) ∷ [])
unfolding program
waves = refl

-- The plan, written as a JSON value, is accepted as itself.
accepted : validate_execution_plan (encode_plan base) no_overrides none ≡ valid base
unfolding program
accepted = refl

-- A member that is null counts as absent.
nulls :
    normalize_optional_plan_nulls (obj (("planId", text "plan") ∷ ("origin", null) ∷ []))
    ≡ obj (("planId", text "plan") ∷ [])
unfolding program
nulls = refl

abbrev drop_b : PlanPatch
drop_b = record {
  plan_id = "plan";
  reason = "not needed";
  operations = PlanPatchOperation.cancel "b" "not needed" ∷ [];
  integration = none;
}

-- A task is cancelled, unless it is immutable.
patched :
    apply_plan_patch base (encode_patch drop_b) no_overrides ("a" ∷ [])
    ≡ valid (with_output (plan (task "a" [] ∷ [])))
unfolding program
patched = refl

protected :
    apply_plan_patch base (encode_patch drop_b) no_overrides ("b" ∷ [])
    ≡ invalid (
        record {
          path = at_key (at_index (at_key root "operations") 0) "taskId";
          code = "immutable_task";
        }
        ∷ [])
unfolding program
protected = refl

distinct_tasks : AreDistinct [] tasks
distinct_tasks = (refl, (refl, tt))

analyze_plan_graph_enough_example : loop tasks distinct_tasks 5 ≡ (analyze_plan_graph tasks).waves
analyze_plan_graph_enough_example = analyze_plan_graph_enough tasks distinct_tasks 5 (omega arith)

clean_task : validate_leaf_task (some (encode_task (task "a" []))) root ≡ []
unfolding program
clean_task = refl

validate_leaf_task-Decodes_example : Decodes (decode_task (some (encode_task (task "a" []))))
validate_leaf_task-Decodes_example =
    validate_leaf_task-Decodes (some (encode_task (task "a" []))) root clean_task

validate_execution_plan-NamesIssue_example :
    NamesIssue (validate_execution_plan null no_overrides none)
validate_execution_plan-NamesIssue_example =
    validate_execution_plan-NamesIssue null no_overrides none

abbrev options : PlanPatchValidationOptions
options = options_for base no_overrides ("b" ∷ [])

validate_plan_patch-NamesIssue_example :
    NamesIssue (validate_plan_patch (encode_patch drop_b) options)
validate_plan_patch-NamesIssue_example =
    validate_plan_patch-NamesIssue (encode_patch drop_b) options

validate_execution_plan-IsMeaningful_example :
    (decode_plan (some (normalize_optional_plan_nulls (encode_plan base))) ≡ some base)
    × IsMeaningful base (resolve_limits no_overrides).0
validate_execution_plan-IsMeaningful_example =
    validate_execution_plan-IsMeaningful (encode_plan base) no_overrides none base accepted

validate_execution_plan-encode_plan_example : some base ≡ some base
validate_execution_plan-encode_plan_example =
    validate_execution_plan-encode_plan base base no_overrides none accepted

apply_plan_patch-IsPatched_example :
    IsPatched base
      (with_output (plan (task "a" [] ∷ [])))
      (checked_overrides no_overrides)
      ("a" ∷ [])
apply_plan_patch-IsPatched_example =
    apply_plan_patch-IsPatched base (encode_patch drop_b) no_overrides ("a" ∷ [])
      (with_output (plan (task "a" [] ∷ []))) patched

validate_execution_plan-IsWellFormed_example : IsWellFormed base (resolve_limits no_overrides).0
validate_execution_plan-IsWellFormed_example =
    validate_execution_plan-IsWellFormed base base no_overrides none accepted
