-- ===== src/Scheduler/Loop/PatchTests.antt =====
-- src/core/scheduler.ts with src/core/plan-validation.ts: a run that goes on with a patched plan.
use codex_mission_ledger.Prelude.{false}
use codex_mission_ledger.Contracts.Samples.{result, limits}
use codex_mission_ledger.Messages.{new_broker, synchronize_tasks}
use codex_mission_ledger.Policy.Checks.{classify_validator_failure}
use codex_mission_ledger.Scheduler.Admission.{validate_plan_for_scheduling}
use codex_mission_ledger.Scheduler.Escalation.{reserve_sol_tasks}
use codex_mission_ledger.Scheduler.Loop.{RunState, reconcile_patch_state}
use codex_mission_ledger.Scheduler.Loop.Turn.{Moment}
use codex_mission_ledger.Scheduler.Loop.Replanning.{answered, replanned}
use codex_mission_ledger.Scheduler.Loop.Patching.{is_patch_leaf_capacity_error, apply_patch}
use codex_mission_ledger.Prelude.{◌≡◌, refl, none, some, [], ◌∷◌}
use codex_mission_ledger.Prelude.Maps.{lookup, insert, remove, map_of}
use codex_mission_ledger.Prelude.Codes.{codes}
use codex_mission_ledger.Prelude.Text.{trim, sort, sort_in}
use codex_mission_ledger.Contracts.{ExecutionPlan, PlanPatch, PlanPatchOperation}
use codex_mission_ledger.Contracts.Samples.{task, plan}
use codex_mission_ledger.Policy.Limits.{
  override_limit, assert_finite_non_negative, normalize_execution_limits,
}
use codex_mission_ledger.Policy.Ownership.{owned_paths_overlap}
use codex_mission_ledger.Policy.Ownership.Conflicts.{
  visit_task, task_transitively_depends_on, find_concurrent_owned_path_conflicts,
}
use codex_mission_ledger.Policy.Tiers.{
  tier_supports_effort, recommend_tier, evaluate_tier_assignment, assert_tier_effort,
  assert_tier_assignment,
}
use codex_mission_ledger.Plans.Shape.{
  ◌also◌, validate_string_array, is_workspace_relative_path, split_slashes, trimmed_path,
}
use codex_mission_ledger.Plans.Shape.Tasks.{
  validate_capabilities, validate_validation_specs, validate_owned_paths, validate_leaf_task,
  validate_integration, validate_patch_operation,
}
use codex_mission_ledger.Plans.Codec.{
  decode_task, decode_task_of, decode_integration, decode_integration_of, decode_plan,
  decode_plan_of, decode_operation, decode_patch, decode_patch_of, encode_task, encode_integration,
  plan_entries, encode_plan, encode_operation, patch_entries, encode_patch,
}
use codex_mission_ledger.Plans.Nulls.{
  normalize_task_nulls, normalize_integration_nulls, normalize_optional_plan_nulls,
}
use codex_mission_ledger.Plans.Graph.{first_by_id, waves_from, all_ids, analyze_plan_graph}
use codex_mission_ledger.Plans.Semantics.{validate_plan_semantics}
use codex_mission_ledger.Plans.Validation.{resolve_limits, validate_execution_plan}
use codex_mission_ledger.Plans.Patches.{
  build_patched_plan, validate_patch_semantics, validate_plan_patch, apply_plan_patch,
}

abbrev with_output : ExecutionPlan → ExecutionPlan
with_output p = record p { integration = record p.integration { required_outputs = "answer" ∷ [] } }

abbrev base : ExecutionPlan
base = with_output (plan (task "a" [] ∷ task "b" ("a" ∷ []) ∷ []))

-- The first task is completed, and the patch drops the second.
abbrev start : RunState
start = record {
  plan = base;
  results = ("a", result "a") ∷ [];
  shared = record {
    attempts = [];
    waiting_results = [];
    waiting_continuations = [];
    sol_task_ids = [];
  };
  running = [];
  usage = [];
  broker = new_broker base.tasks 2 1 1024;
  peak_concurrency = 1;
  replan_count = 1;
  patch = none;
}

abbrev moment : Moment
moment = record { now = "t"; deadline_passed = false; stop = none }

abbrev drop_b : PlanPatch
drop_b = record {
  plan_id = "plan";
  reason = "not needed";
  operations = PlanPatchOperation.cancel "b" "not needed" ∷ [];
  integration = none;
}

program : Unit {0}
unfolding lookup insert remove map_of codes trim sort sort_in override_limit
    assert_finite_non_negative normalize_execution_limits owned_paths_overlap visit_task
    task_transitively_depends_on find_concurrent_owned_path_conflicts tier_supports_effort
    recommend_tier evaluate_tier_assignment assert_tier_effort assert_tier_assignment ◌also◌
    validate_string_array is_workspace_relative_path split_slashes trimmed_path
    validate_capabilities validate_validation_specs validate_owned_paths validate_leaf_task
    validate_integration validate_patch_operation decode_task decode_task_of decode_integration
    decode_integration_of decode_plan decode_plan_of decode_operation decode_patch decode_patch_of
    encode_task encode_integration plan_entries encode_plan encode_operation patch_entries
    encode_patch normalize_task_nulls normalize_integration_nulls normalize_optional_plan_nulls
    first_by_id waves_from all_ids analyze_plan_graph validate_plan_semantics resolve_limits
    validate_execution_plan build_patched_plan validate_patch_semantics validate_plan_patch
    apply_plan_patch new_broker synchronize_tasks classify_validator_failure
    validate_plan_for_scheduling reserve_sol_tasks reconcile_patch_state replanned
    is_patch_leaf_capacity_error apply_patch
program = tt

-- The plan changes.
changed :
    (replanned limits apply_patch moment start (answered (some drop_b))).0.plan
    ≡ with_output (plan (task "a" [] ∷ []))
unfolding program
changed = refl
