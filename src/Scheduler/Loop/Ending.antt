-- ===== src/Scheduler/Loop/Ending.antt =====
-- src/core/scheduler.ts: what holds when the loop of `execute` is left.
use codex_mission_ledger.Prelude.{
  ◌≡◌, refl, String, Bool, true, false, not, ◌&&◌, none, some, List, [], ◌∷◌, inl, inr, arith,
  eq_refl,
}
use codex_mission_ledger.Prelude.Tests.{if◌then◌else◌, ltb, Bool-cases, Option-cases, if-keeps}
use codex_mission_ledger.Prelude.Lists.{all}
use codex_mission_ledger.Prelude.Maps.{Map, insert, has, lookup-insert}
use codex_mission_ledger.Prelude.Numbers.{Number}
use codex_mission_ledger.Contracts.{
  LeafTask, LeafResult, ExecutionPlan, PlanPatch, ExecutionLimits, ReplanTrigger,
}
use codex_mission_ledger.Policy.Limits.{Result, ok, err}
use codex_mission_ledger.Policy.Checks.{is_nil}
use codex_mission_ledger.Scheduler.Results.{has_pending_tasks, execution_stop_reason}
use codex_mission_ledger.Scheduler.Escalation.{reserve_sol_tasks}
use codex_mission_ledger.Scheduler.Admission.{validate_plan_for_scheduling}
use codex_mission_ledger.Scheduler.Loop.{RunState, cancel_pending}
use codex_mission_ledger.Scheduler.Loop.Turn.{
  Phase, at_head, done, threw, Moment, Patched, next_plan, over_capacity, refused, is_complete,
  launch_all, launch_group, stopped, after_launch, go_on, all_triggers, with_evidence, decide,
  with_triggers, with_blocked, turn,
}
use codex_mission_ledger.Scheduler.Loop.Replanning.{
  Answer, cut_off, rejected, answered, adopt, checked, replanned, with_plan, settled_plan, ended_or,
  protected_ids,
}

abbrev given : (String → LeafResult) → LeafTask → Map LeafResult → Map LeafResult
given f t results = if has t.id results then results else insert t.id (f t.id) results

given-keeps :
    (f : String → LeafResult) (id : String) (t : LeafTask) (results : Map LeafResult)
    → has id results ≡ true
    → has id (given f t results) ≡ true
given-keeps f id t results h = ground (arith, lookup-insert t.id id (f t.id) results, h)

given-has :
    (f : String → LeafResult) (t : LeafTask) (results : Map LeafResult)
    → has t.id (given f t results) ≡ true
given-has f t results = ground (arith, lookup-insert t.id t.id (f t.id) results, eq_refl t.id)

cancel_pending-keeps :
    (f : String → LeafResult) (id : String) (ts : List LeafTask) (results : Map LeafResult)
    → has id results ≡ true
    → has id (cancel_pending f ts results) ≡ true
unfolding cancel_pending
cancel_pending-keeps f id [] results h = h
cancel_pending-keeps f id (t ∷ ts) results h =
    cancel_pending-keeps f id ts (given f t results) (given-keeps f id t results h)

cancel_pending_complete :
    (f : String → LeafResult) (ts : List LeafTask) (results : Map LeafResult)
    → all (λ t. has t.id (cancel_pending f ts results)) ts ≡ true
unfolding cancel_pending
cancel_pending_complete f [] results = refl
cancel_pending_complete f (t ∷ ts) results = ground (
  arith,
  cancel_pending-keeps f t.id ts (given f t results) (given-has f t results),
  cancel_pending_complete f ts (given f t results),
)

pending_complete :
    (ts : List LeafTask) (results : Map LeafResult)
    → has_pending_tasks ts results ≡ false
    → all (λ t. has t.id results) ts ≡ true
pending_complete [] results h = refl
pending_complete (t ∷ ts) results h =
    ground (arith, h, pending_complete ts results (ground (arith, h)))

-- When the loop is left without an error, every task of the plan has a result.
abbrev pub IsEnded : RunState × Phase → Type 0
IsEnded (s, done) = is_complete s ≡ true
IsEnded (s, _) = Unit

ended : (s : RunState) → has_pending_tasks s.plan.tasks s.results ≡ false → is_complete s ≡ true
ended s h = pending_complete s.plan.tasks s.results h

module _ (date_parse : String → Number) (limits : ExecutionLimits)
    (inspect : ExecutionPlan → List LeafResult → List ReplanTrigger) where
  stopped-IsEnded : (m : Moment) (reason : String) (s : RunState) → IsEnded (stopped m reason s)
  stopped-IsEnded m reason s =
      if-keeps IsEnded (is_nil s.running) (cancel_pending_complete _ s.plan.tasks s.results) tt

  after_launch-IsEnded : (m : Moment) (s : RunState) → IsEnded (after_launch m s)
  after_launch-IsEnded m s =
      if-keeps IsEnded (is_nil s.running) (cancel_pending_complete _ s.plan.tasks s.results) tt

  go_on-IsEnded : (m : Moment) (s : RunState) → IsEnded (go_on date_parse limits inspect m s)
  go_on-IsEnded m s = elim (Bool-cases (has_pending_tasks s.plan.tasks s.results)) [
    | inr all_done ↦ rw (all_done, go_on) (ended s all_done)
    | inl pending ↦
        elim (Option-cases
          (execution_stop_reason m.deadline_passed s.plan.tasks s.results s.usage limits)) [
            | inr (reason, e) ↦ rw (pending, e, go_on) (stopped-IsEnded m reason s)
            | inl going ↦
                rw (pending, going, go_on)
                  (after_launch-IsEnded m (
                    launch_all date_parse limits inspect m s
                      (launch_group date_parse limits inspect s)))
          ]
  ]

  with_triggers-IsEnded :
      (m : Moment) (s : RunState) (r : Result (List ReplanTrigger))
      → IsEnded (with_triggers date_parse limits inspect m s r)
  with_triggers-IsEnded m s (ok triggers) =
      let found = all_triggers date_parse limits inspect s triggers in
      elim (Bool-cases (not (is_nil found) && ltb s.replan_count limits.max_replans)) [
        | inr kept ↦ rw (kept, decide) (go_on-IsEnded m s)
        | inl again ↦ rw (again, decide) (if-keeps IsEnded (is_nil s.running) tt tt)
      ]
  with_triggers-IsEnded m s (err e) = tt

  -- An iteration that leaves the loop leaves a result for every task of the plan.
  pub turn-IsEnded : (m : Moment) (s : RunState) → IsEnded (turn date_parse limits inspect m s)
  unfolding turn
  turn-IsEnded m s = elim (Option-cases m.stop) [
    | inr (reason, e) ↦ rw (e, turn) (stopped-IsEnded m reason (with_blocked m s))
    | inl going ↦ rw (going, turn) (with_triggers-IsEnded m (with_evidence (with_blocked m s)) _)
  ]

module _ (limits : ExecutionLimits)
    (apply_plan_patch : ExecutionPlan → PlanPatch → ExecutionLimits → List String → Patched) where
  ended_or-IsEnded : (s : RunState) → IsEnded (ended_or s)
  ended_or-IsEnded s = elim (Bool-cases (has_pending_tasks s.plan.tasks s.results)) [
    | inl pending ↦ rw (pending, ended_or) tt
    | inr all_done ↦ rw (all_done, ended_or) (ended s all_done)
  ]

  settled_plan-IsEnded : (s : RunState) (b : Bool) → IsEnded (settled_plan (s, b))
  settled_plan-IsEnded s true = ended_or-IsEnded s
  settled_plan-IsEnded s false = tt

  checked-IsEnded :
      (m : Moment) (s : RunState) (patch : PlanPatch) (plan : ExecutionPlan)
      → IsEnded (checked limits apply_plan_patch m s patch plan)
  checked-IsEnded m s patch plan = elim (Option-cases (validate_plan_for_scheduling plan limits)) [
    | inr (c, e) ↦ rw (e, checked) tt
    | inl valid ↦
        elim (Option-cases
          (reserve_sol_tasks plan.tasks s.shared.sol_task_ids limits.max_sol_leaves)) [
            | inl gone ↦ rw (valid, gone, checked) tt
            | inr (ids, e) ↦ elim (Option-cases m.stop) [
              | inr (reason, cut) ↦
                  rw (valid, e, cut, checked, adopt)
                    (cancel_pending_complete _ s.plan.tasks s.results)
              | inl going ↦
                  rw (valid, e, going, checked, adopt)
                    (settled_plan-IsEnded (with_plan s patch plan ids).0
                      (with_plan s patch plan ids).1)
            ]
          ]
  ]

  -- The planner's answer leaves the loop only with a result for every task of the plan that is then
  -- in force.
  pub replanned-IsEnded :
      (m : Moment) (s : RunState) (answer : Answer)
      → IsEnded (replanned limits apply_plan_patch m s answer)
  unfolding replanned
  replanned-IsEnded m s (cut_off reason) = cancel_pending_complete _ s.plan.tasks s.results
  replanned-IsEnded m s rejected = tt
  replanned-IsEnded m s (answered none) = ended_or-IsEnded s
  replanned-IsEnded m s (answered (some patch)) =
      go (apply_plan_patch s.plan patch limits (protected_ids s))
    where
      go :
          (p : Patched)
          → IsEnded (elim p [
            | over_capacity ↦ (s, at_head)
            | refused ↦ (s, threw)
            | next_plan plan ↦ checked limits apply_plan_patch m s patch plan
          ])
      go over_capacity = tt
      go refused = tt
      go (next_plan plan) = checked-IsEnded m s patch plan
