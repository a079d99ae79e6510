-- ===== src/Scheduler/Resume/Starts.antt =====
-- src/core/scheduler.ts: what holds where the loop of `execute` starts.
use codex_mission_ledger.Prelude.{◌≤◌, ◌&&◌, inl, inr, arith}
use codex_mission_ledger.Prelude.Tests.{ltb, nat_eq, is_some, Bool-cases, Option-cases}
use codex_mission_ledger.Prelude.Lists.{length}
use codex_mission_ledger.Contracts.{ExecutionPlan, ExecutionLimits}
use codex_mission_ledger.Scheduler.Admission.{validate_plan_for_scheduling}
use codex_mission_ledger.Scheduler.Admission.Plans.{
  IsSchedulable, validate_plan_for_scheduling-IsSchedulable,
}
use codex_mission_ledger.Scheduler.Loop.{RunState}
use codex_mission_ledger.Scheduler.Loop.Slots.{FitsSlots}
use codex_mission_ledger.Scheduler.Resume.{
  Checked, passed, stopped_by, Resumed, ScheduleResumeState, validate_initial_results, sol_tasks_of,
  is_other_plan, checked_start, start_run,
}

-- The loop's limits hold at its start, and the plan can be scheduled.
pub record CanStart (limits : ExecutionLimits) (s : RunState) : Type 0 where
  pub schedulable : IsSchedulable s.plan limits
  pub fits : FitsSlots limits s
  pub sol_fits : length s.shared.sol_task_ids ≤ limits.max_sol_leaves

abbrev pub Starts : ExecutionLimits → Checked RunState → Type 0
Starts limits (stopped_by e) = Unit
Starts limits (passed s) = CanStart limits s

checked_start-Starts :
    (plan : ExecutionPlan) (limits : ExecutionLimits) (resume : ScheduleResumeState)
    (found : Resumed)
    → IsSchedulable plan limits
    → Starts limits (checked_start plan limits resume found)
checked_start-Starts plan limits resume found can =
    elim (Bool-cases (ltb limits.max_sol_leaves (length (sol_tasks_of plan found.completed)))) [
      | inl many ↦ rw (many, checked_start) tt
      | inr sol ↦ elim (Bool-cases (is_some resume.patch && nat_eq resume.replan_count 0)) [
        | inl odd ↦ rw (sol, odd, checked_start) tt
        | inr even ↦ elim (Bool-cases (ltb limits.max_replans resume.replan_count)) [
          | inl over ↦ rw (sol, even, over, checked_start) tt
          | inr within ↦ elim (Bool-cases (is_other_plan plan resume.patch)) [
            | inl other ↦ rw (sol, even, within, other, checked_start) tt
            | inr same ↦
                rw (sol, even, within, same, checked_start)
                  (record {
                    schedulable = can;
                    fits = record {
                      slots = omega arith;
                      peak = omega arith;
                      replans = ground (arith, within);
                    };
                    sol_fits = ground (arith, sol);
                  })
          ]
        ]
      ]
    ]

-- A run whose loop starts, also one that resumes, has a plan that can be scheduled, and begins
-- within the limits on running leaves, on changes of the plan and on Sol leaves.
pub start_run-Starts :
    (plan : ExecutionPlan) (limits : ExecutionLimits) (resume : ScheduleResumeState)
    → Starts limits (start_run plan limits resume)
unfolding start_run
start_run-Starts plan limits resume =
    elim (Option-cases (validate_plan_for_scheduling plan limits)) [
      | inr (c, e) ↦ rw (e, start_run) tt
      | inl valid ↦
          rw (valid, start_run)
            (go (validate_plan_for_scheduling-IsSchedulable plan limits valid)
              (validate_initial_results plan resume.initial_results resume.waiting_leaves))
    ]
  where
    go :
        IsSchedulable plan limits
        → (r : Checked Resumed)
        → Starts limits (elim r [
          | stopped_by e ↦ stopped_by e
          | passed found ↦ checked_start plan limits resume found
        ])
    go can (stopped_by e) = tt
    go can (passed found) = checked_start-Starts plan limits resume found can
