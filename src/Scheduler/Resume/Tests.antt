-- ===== src/Scheduler/Resume/Tests.antt =====
-- src/core/scheduler.ts: starts of runs at concrete inputs.
use codex_mission_ledger.Prelude.{◌≡◌, refl, none, some, [], ◌∷◌}
use codex_mission_ledger.Contracts.{
  LeafResult, LeafStatus, FailureKind, ExecutionPlan, WaitingLeafResumePoint,
}
use codex_mission_ledger.Contracts.Samples.{task, plan, result, limits}
use codex_mission_ledger.Scheduler.Resume.{
  Checked, passed, Resumed, ScheduleResumeState, validate_initial_results, start_run,
}
use codex_mission_ledger.Scheduler.Resume.Starts.{Starts, start_run-Starts}
use codex_mission_ledger.Scheduler.Resume.Results.{Resumes, validate_initial_results-Resumes}
use codex_mission_ledger.Prelude.Maps.{lookup, insert, remove}

abbrev chain : ExecutionPlan
chain = plan (task "a" [] ∷ task "b" ("a" ∷ []) ∷ [])

abbrev waiting_result : LeafResult
waiting_result = record (result "b") {
  status = LeafStatus.blocked;
  failure_kind = some FailureKind.permission;
}

abbrev point : WaitingLeafResumePoint
point = record {
  task_id = "b";
  thread_id = "thread";
  previous_turn_id = "turn";
  attempt = 1;
  needs_action = "approve";
}

abbrev resume : ScheduleResumeState
resume = record {
  initial_results = result "a" ∷ waiting_result ∷ [];
  waiting_leaves = point ∷ [];
  patch = none;
  replan_count = 0;
}

resumed :
    ◌≡◌ {A = Checked Resumed}
      (validate_initial_results chain (result "a" ∷ waiting_result ∷ []) (point ∷ []))
      (passed (record { completed = result "a" ∷ []; waiting = (point, waiting_result) ∷ [] }))
unfolding validate_initial_results lookup insert remove
resumed = refl

validate_initial_results-Resumes_example :
    Resumes
      ("a" ∷ "b" ∷ [])
      (point ∷ [])
      (result "a" ∷ waiting_result ∷ [])
      (validate_initial_results chain (result "a" ∷ waiting_result ∷ []) (point ∷ []))
validate_initial_results-Resumes_example =
    validate_initial_results-Resumes chain (result "a" ∷ waiting_result ∷ []) (point ∷ [])

start_run-Starts_example : Starts limits (start_run chain limits resume)
start_run-Starts_example = start_run-Starts chain limits resume
