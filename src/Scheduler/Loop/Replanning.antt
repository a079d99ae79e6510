-- ===== src/Scheduler/Loop/Replanning.antt =====
-- src/core/scheduler.ts: `execute` after the planner's answer. `apply_plan_patch` stands for the
-- function of that name (src/core/plan-validation.ts).
use codex_mission_ledger.Prelude.{
  String, Bool, true, false, ◌||◌, ◌&&◌, Option, none, some, List, [], ◌∷◌, map, ◌==◌,
}
use codex_mission_ledger.Prelude.Tests.{if◌then◌else◌}
use codex_mission_ledger.Prelude.Lists.{keep}
use codex_mission_ledger.Prelude.Maps.{lookup, insert, values}
use codex_mission_ledger.Prelude.Numbers.{Number}
use codex_mission_ledger.Contracts.{
  LeafTask, ExecutionPlan, PlanPatch, ExecutionLimits, is_completed, is_indeterminate, is_writer,
}
use codex_mission_ledger.Messages.{synchronize_tasks}
use codex_mission_ledger.Scheduler.Results.{has_pending_tasks}
use codex_mission_ledger.Scheduler.Escalation.{
  flying, landed, Outcome, finish_attempt, reserve_sol_tasks,
}
use codex_mission_ledger.Scheduler.Admission.{validate_plan_for_scheduling}
use codex_mission_ledger.Scheduler.Loop.{RunState, reconcile_patch_state}
use codex_mission_ledger.Scheduler.Loop.Turn.{
  Phase, at_head, done, threw, Moment, Patched, next_plan, over_capacity, refused, cancelled_for,
}

-- What `replanUntilAborted` gives.
pub data Answer : Type 0 where
  cut_off : (reason : String) → Answer
  rejected : Answer
  answered : Option PlanPatch → Answer

abbrev is_writer_of : List LeafTask → String → Bool
is_writer_of [] id = false
is_writer_of (t ∷ ts) id = if t.id == id then is_writer t.access else is_writer_of ts id

-- The results that a patch has to leave alone: completed ones, and writers that may have written.
abbrev pub protected_ids : RunState → List String
protected_ids s =
    map (λ r. r.task_id)
      (keep
        (λ r.
          is_completed r.status
          || (is_indeterminate r.status && is_writer_of s.plan.tasks r.task_id))
        (values s.results))

abbrev pub ended_or : RunState → RunState × Phase
ended_or s = if has_pending_tasks s.plan.tasks s.results then (s, at_head) else (s, done)

-- The state with the new plan, and whether the broker took its tasks.
abbrev pub with_plan : RunState → PlanPatch → ExecutionPlan → List String → RunState × Bool
with_plan s patch plan reserved =
    let r = reconcile_patch_state patch plan.tasks s.results s.shared.attempts in
    let synced = synchronize_tasks s.broker plan.tasks in
    (
      record s {
        plan = plan;
        results = r.results;
        shared = record s.shared { attempts = r.attempts; sol_task_ids = reserved };
        broker = synced.0;
        patch = some patch;
      },
      synced.1,
    )

abbrev pub settled_plan : RunState × Bool → RunState × Phase
settled_plan (s, true) = ended_or s
settled_plan (s, false) = (s, threw)

module _ (limits : ExecutionLimits)
    (apply_plan_patch : ExecutionPlan → PlanPatch → ExecutionLimits → List String → Patched) where
  abbrev pub adopt : Moment → RunState → PlanPatch → ExecutionPlan → List String → RunState × Phase
  adopt m s patch plan reserved = elim m.stop [
    | some reason ↦ (cancelled_for m reason s, done)
    | none ↦ settled_plan (with_plan s patch plan reserved)
  ]

  abbrev pub checked : Moment → RunState → PlanPatch → ExecutionPlan → RunState × Phase
  checked m s patch plan = elim (validate_plan_for_scheduling plan limits) [
    | some e ↦ (s, threw)
    | none ↦ elim (reserve_sol_tasks plan.tasks s.shared.sol_task_ids limits.max_sol_leaves) [
      | none ↦ (s, threw)
      | some reserved ↦ adopt m s patch plan reserved
    ]
  ]

  -- From the planner's answer to the head of the loop, or out of it. A patch with too many leaves
  -- is left out; its turn at replanning is spent.
  unfoldable pub replanned : Moment → RunState → Answer → RunState × Phase
  replanned m s (cut_off reason) = (cancelled_for m reason s, done)
  replanned m s rejected = (s, threw)
  replanned m s (answered none) = ended_or s
  replanned m s (answered (some patch)) =
      elim (apply_plan_patch s.plan patch limits (protected_ids s)) [
        | over_capacity ↦ (s, at_head)
        | refused ↦ (s, threw)
        | next_plan plan ↦ checked m s patch plan
      ]

-- The end of the await of a running leaf.
unfoldable pub land :
    (String → Number) → ExecutionLimits → Moment → String → Outcome → RunState → RunState
land date_parse limits m id outcome s = elim (lookup id s.running) [
  | some (flying call) ↦
      let next = finish_attempt date_parse limits m.stop m.now s.shared call outcome in
      record s { shared = next.0; running = insert id next.1 s.running }
  | some (landed r) ↦ s
  | none ↦ s
]
