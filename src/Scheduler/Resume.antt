-- ===== src/Scheduler/Resume.antt =====
-- src/core/scheduler.ts: what `execute` starts from: `validateInitialResults`, and the state before the
-- first iteration of the loop. A fresh run is one that resumes from no results.
pub mod Starts
pub mod Results
mod Tests
use mathlib.Core.List.{flat_map}
use codex_mission_ledger.Prelude.{
  ℕ, ◌-◌, String, Bool, true, false, not, ◌&&◌, ◌||◌, Option, none, some, List, [], ◌∷◌, ◌++◌, map,
  ◌==◌,
}
use codex_mission_ledger.Prelude.Tests.{if◌then◌else◌, leb, ltb, nat_eq, is_some}
use codex_mission_ledger.Prelude.Lists.{any, includes, keep, length, set_add}
use codex_mission_ledger.Prelude.Maps.{Map, lookup, insert, remove, has, map_of}
use codex_mission_ledger.Prelude.Text.{is_empty}
use codex_mission_ledger.Contracts.{
  LeafResult, LeafTask, ExecutionPlan, ExecutionLimits, PlanPatch, WaitingLeafResumePoint,
  FailureKind, ModelUsage, UsageTier, is_completed, is_blocked, is_failed, is_kind, is_sol,
}
use codex_mission_ledger.Messages.{new_broker}
use codex_mission_ledger.Policy.Checks.{is_nil}
use codex_mission_ledger.Scheduler.Admission.{AdmissionError, validate_plan_for_scheduling}
use codex_mission_ledger.Scheduler.Escalation.{Shared}
use codex_mission_ledger.Scheduler.Loop.{RunState}

pub data ResumeError : Type 0 where
  unknown_waiting duplicate_waiting incomplete_waiting : String → ResumeError
  unknown_result duplicate_result completed_waiting unmatched_result : String → ResumeError
  unmatched_waiting sol_exceeded patch_inconsistent replans_exceeded patch_of_other_plan :
      ResumeError
  not_schedulable : AdmissionError → ResumeError

pub data Checked {ℓ} (A : Type ℓ) : Type ℓ where
  passed : A → Checked A
  stopped_by : ResumeError → Checked A

abbrev pub is_incomplete : WaitingLeafResumePoint → Bool
is_incomplete p = is_empty p.thread_id || is_empty p.previous_turn_id || nat_eq p.attempt 0

-- The loop over `waitingLeaves`.
abbrev pub waiting_by_task :
    List String
    → Map WaitingLeafResumePoint
    → List WaitingLeafResumePoint
    → Checked (Map WaitingLeafResumePoint)
waiting_by_task ids points [] = passed points
waiting_by_task ids points (p ∷ ps) =
    if not (includes ids p.task_id)
    then stopped_by (unknown_waiting p.task_id)
    else if has p.task_id points
    then stopped_by (duplicate_waiting p.task_id)
    else if is_incomplete p
    then stopped_by (incomplete_waiting p.task_id)
    else waiting_by_task ids (insert p.task_id p points) ps

abbrev is_text : Option String → String → Bool
is_text none t = false
is_text (some s) t = s == t

-- A result that waits for a permission, at the turn that the point names.
abbrev pub continues : WaitingLeafResumePoint → LeafResult → Bool
continues p r =
    (is_blocked r.status || is_failed r.status)
    && is_kind FailureKind.permission r.failure_kind
    && is_text r.thread_id p.thread_id
    && is_text r.turn_id p.previous_turn_id

pub record Resumed : Type 0 where
  pub completed : List LeafResult
  pub waiting : List (WaitingLeafResumePoint × LeafResult)

abbrev pub is_continued : Option WaitingLeafResumePoint → LeafResult → Bool
is_continued none r = false
is_continued (some p) r = continues p r

abbrev pub with_waiting : Option WaitingLeafResumePoint → LeafResult → Resumed → Resumed
with_waiting none r found = found
with_waiting (some p) r found = record found { waiting = found.waiting ++ (p, r) ∷ [] }

abbrev pub with_result : Option WaitingLeafResumePoint → LeafResult → Resumed → Resumed
with_result point r found =
    if is_completed r.status
    then record found { completed = found.completed ++ r ∷ [] }
    else with_waiting point r found

-- Why a result is refused, if it is.
abbrev pub result_error :
    List String → List String → Option WaitingLeafResumePoint → LeafResult → Option ResumeError
result_error ids seen point r =
    if not (includes ids r.task_id)
    then some (unknown_result r.task_id)
    else if includes seen r.task_id
    then some (duplicate_result r.task_id)
    else if is_completed r.status
    then if is_some point then some (completed_waiting r.task_id) else none
    else if is_continued point r
    then none
    else some (unmatched_result r.task_id)

-- The loop over `initialResults`; at its end every point has found its result.
abbrev pub resume_results :
    List String
    → List String
    → Map WaitingLeafResumePoint
    → Resumed
    → List LeafResult
    → Checked Resumed
resume_results ids seen points found [] =
    if is_nil points then passed found else stopped_by unmatched_waiting
resume_results ids seen points found (r ∷ rs) =
    let point = lookup r.task_id points in
    let rest =
      resume_results ids (r.task_id ∷ seen)
        (if is_completed r.status then points else remove r.task_id points)
        (with_result point r found) rs in
    elim (result_error ids seen point r) [ none ↦ rest | some e ↦ stopped_by e ]

-- `validateInitialResults`
unfoldable pub validate_initial_results :
    ExecutionPlan → List LeafResult → List WaitingLeafResumePoint → Checked Resumed
validate_initial_results plan initial_results waiting_leaves =
    let ids = map (λ t. t.id) plan.tasks in
    elim (waiting_by_task ids [] waiting_leaves) [
      | stopped_by e ↦ stopped_by e
      | passed points ↦
          resume_results ids [] points (record { completed = []; waiting = [] }) initial_results
    ]

pub record ScheduleResumeState : Type 0 where
  pub initial_results : List LeafResult
  pub waiting_leaves : List WaitingLeafResumePoint
  pub patch : Option PlanPatch
  pub replan_count : ℕ

abbrev is_sol_usage : ModelUsage → Bool
is_sol_usage u = elim u.tier [ UsageTier.tier t ↦ is_sol t | UsageTier.other ↦ false ]

abbrev add_all : List String → List String → List String
add_all [] ids = ids
add_all (x ∷ xs) ids = add_all xs (set_add x ids)

-- The tasks that have a place in the Sol budget, or have used it.
abbrev pub sol_tasks_of : ExecutionPlan → List LeafResult → List String
sol_tasks_of plan completed =
    add_all (map (λ r. r.task_id) (keep (λ r. any is_sol_usage r.usage) completed))
      (add_all (map (λ t. t.id) (keep (λ t. is_sol t.tier) plan.tasks)) [])

abbrev pub is_other_plan : ExecutionPlan → Option PlanPatch → Bool
is_other_plan plan none = false
is_other_plan plan (some patch) = not (patch.plan_id == plan.plan_id)

abbrev pub initial_state : ExecutionPlan → Resumed → ScheduleResumeState → RunState
initial_state plan found resume = record {
  plan = plan;
  results = map_of (λ r. r.task_id) found.completed;
  shared = record {
    attempts = map (λ w. (w.0.task_id, w.0.attempt - 1)) found.waiting;
    waiting_results = map (λ w. (w.0.task_id, w.1)) found.waiting;
    waiting_continuations = map (λ w. (w.0.task_id, w.0)) found.waiting;
    sol_task_ids = sol_tasks_of plan found.completed;
  };
  running = [];
  usage = flat_map (λ r. r.usage) found.completed;
  broker = new_broker plan.tasks 2 1 1024;
  peak_concurrency = 0;
  replan_count = resume.replan_count;
  patch = resume.patch;
}

abbrev pub checked_start :
    ExecutionPlan → ExecutionLimits → ScheduleResumeState → Resumed → Checked RunState
checked_start plan limits resume found =
    if ltb limits.max_sol_leaves (length (sol_tasks_of plan found.completed))
    then stopped_by sol_exceeded
    else if is_some resume.patch && nat_eq resume.replan_count 0
    then stopped_by patch_inconsistent
    else if ltb limits.max_replans resume.replan_count
    then stopped_by replans_exceeded
    else if is_other_plan plan resume.patch
    then stopped_by patch_of_other_plan
    else passed (initial_state plan found resume)

-- `execute` up to its loop. The broker has the budgets that its constructor defaults to.
unfoldable pub start_run : ExecutionPlan → ExecutionLimits → ScheduleResumeState → Checked RunState
unfolding validate_initial_results
start_run plan limits resume = elim (validate_plan_for_scheduling plan limits) [
  | some e ↦ stopped_by (not_schedulable e)
  | none ↦ elim (validate_initial_results plan resume.initial_results resume.waiting_leaves) [
    | stopped_by e ↦ stopped_by e
    | passed found ↦ checked_start plan limits resume found
  ]
]
