-- ===== src/Contracts/Samples.antt =====
-- Tasks, results and limits that tests and examples start from.
use codex_mission_ledger.Prelude.{String, false, none, some, List, []}
use codex_mission_ledger.Prelude.Numbers.{of_ℕ, pos}
use codex_mission_ledger.Contracts.{
  LeafTask, LeafResult, ModelTier, ReasoningEffort, TaskAccess, TaskDomain, LeafStatus,
  ExecutionPlan, FinalReview, Risk, ExecutionLimits,
}

abbrev pub task : String → List String → LeafTask
task id depends_on = record {
  id = id;
  objective = "count the lines";
  domain = TaskDomain.coding;
  tier = ModelTier.luna;
  min_tier = none;
  effort = ReasoningEffort.medium;
  access = TaskAccess.read_only;
  owned_paths = [];
  depends_on = depends_on;
  capabilities = [];
  validation = [];
  communication_with = [];
  expected_seconds = of_ℕ 60;
  expected_cost_usd = some (pos 10000);
  difficulty = pos 200000;
  ambiguity = pos 100000;
  confidence = pos 900000;
  critical = false;
  validator_strength = none;
}

abbrev pub result : String → LeafResult
result task_id = record {
  task_id = task_id;
  status = LeafStatus.completed;
  summary = "done";
  confidence = pos 900000;
  findings = [];
  changed_files = [];
  validation = [];
  citations = [];
  artifacts = [];
  messages = [];
  thread_id = some "thread";
  turn_id = some "turn";
  usage = [];
  started_at = none;
  completed_at = "2026-01-01T00:00:00Z";
  error = none;
  failure_kind = none;
}

abbrev pub plan : List LeafTask → ExecutionPlan
plan tasks = record {
  plan_id = "plan";
  objective = "count";
  domain = TaskDomain.coding;
  assumptions = [];
  tasks = tasks;
  integration = record {
    objective = "merge";
    required_outputs = [];
    validation = [];
    final_review = FinalReview.never;
    aggregation = none;
  };
  risk = Risk.low;
  origin = none;
}

abbrev pub limits : ExecutionLimits
limits = record {
  max_concurrent = 2;
  max_leaves = 8;
  max_waves = 3;
  max_sol_leaves = 1;
  max_replans = 1;
  deadline_ms = none;
  max_cost_usd = none;
}
