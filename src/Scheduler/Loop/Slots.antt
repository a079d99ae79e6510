-- ===== src/Scheduler/Loop/Slots.antt =====
-- src/core/scheduler.ts: how many leaves run at a time and how often the plan is changed, in every
-- order of the events of a run.
use codex_mission_ledger.Prelude.{
  ◌+◌, ◌-◌, ◌≤◌, ◌≡◌, String, Bool, true, false, not, ◌&&◌, none, some, List, [], ◌∷◌, inl, inr,
  arith, ◌==◌,
}
use codex_mission_ledger.Prelude.Tests.{ltb, Bool-cases, Option-cases, if-keeps}
use codex_mission_ledger.Prelude.Lists.{length, keep, length-take-le}
use codex_mission_ledger.Prelude.Maps.{Map, lookup, insert, remove, length-insert-le}
use codex_mission_ledger.Prelude.Numbers.{Number}
use codex_mission_ledger.Contracts.{
  LeafTask, LeafResult, ExecutionPlan, PlanPatch, ExecutionLimits, ReplanTrigger,
}
use codex_mission_ledger.Messages.{AgentMessageInput, post}
use codex_mission_ledger.Policy.Limits.{Result, ok, err}
use codex_mission_ledger.Policy.Checks.{is_nil}
use codex_mission_ledger.Scheduler.Results.{has_pending_tasks, execution_stop_reason}
use codex_mission_ledger.Scheduler.Escalation.{
  Leaf, flying, landed, Outcome, run_leaf, reserve_sol_tasks,
}
use codex_mission_ledger.Scheduler.Admission.{validate_plan_for_scheduling}
use codex_mission_ledger.Scheduler.Loop.{RunState, record_settled_leaf}
use codex_mission_ledger.Scheduler.Loop.Turn.{
  Phase, at_head, racing, threw, replanning, Moment, Patched, next_plan, over_capacity, refused,
  is_ready, launch_one, launch_all, launch_group, go_on, all_triggers, with_evidence, decide,
  with_triggers, with_blocked, turn,
}
use codex_mission_ledger.Scheduler.Loop.Replanning.{
  Answer, cut_off, rejected, answered, adopt, checked, replanned, land, with_plan, settled_plan,
  protected_ids,
}

-- The leaves that run, the most that ever ran, and the changes of the plan are within the limits.
pub record FitsSlots (limits : ExecutionLimits) (s : RunState) : Type 0 where
  pub slots : length s.running ≤ limits.max_concurrent
  pub peak : s.peak_concurrency ≤ limits.max_concurrent
  pub replans : s.replan_count ≤ limits.max_replans

length-remove-le : (id : String) (m : Map Leaf) → length (remove id m) ≤ length m
unfolding remove
length-remove-le id [] = omega arith
length-remove-le id ((k, v) ∷ m) = ground (arith, length-remove-le id m)

length-insert-known :
    (id : String) (v w : Leaf) (m : Map Leaf)
    → lookup id m ≡ some w
    → length (insert id v m) ≡ length m
unfolding lookup insert
length-insert-known id v w [] e = absurd cc
length-insert-known id v w ((k, u) ∷ m) e = elim (Bool-cases (k == id)) [
  | inl same ↦ ground (arith, same)
  | inr other ↦ ground (arith, other, length-insert-known id v w m (ground (arith, other, e)))
]

land-FitsSlots :
    (date_parse : String → Number) (limits : ExecutionLimits) (m : Moment) (id : String)
    (outcome : Outcome) (s : RunState)
    → FitsSlots limits s
    → FitsSlots limits (land date_parse limits m id outcome s)
unfolding land
land-FitsSlots date_parse limits m id outcome s h = elim (Option-cases (lookup id s.running)) [
  | inl gone ↦ rw (gone, land) h
  | inr (landed r, e) ↦ rw (e, land) h
  | inr (flying call, e) ↦
      rw (e, land)
        (record {
          slots = rw (length-insert-known id _ (flying call) s.running e) h.slots;
          peak = h.peak;
          replans = h.replans;
        })
]

-- Of the state, only the leaves that run and the two counts matter.
same-FitsSlots :
    {limits : ExecutionLimits} {s : RunState} {results : Map LeafResult}
    → FitsSlots limits s
    → FitsSlots limits (record s { results = results })
same-FitsSlots h = record { slots = h.slots; peak = h.peak; replans = h.replans }

module _ (date_parse : String → Number) (limits : ExecutionLimits)
    (inspect : ExecutionPlan → List LeafResult → List ReplanTrigger) where
  launch_all-FitsSlots :
      (m : Moment) (ts : List LeafTask) (s : RunState)
      → length s.running + length ts ≤ limits.max_concurrent
      → FitsSlots limits s
      → FitsSlots limits (launch_all date_parse limits inspect m s ts)
  unfolding launch_all
  launch_all-FitsSlots m [] s room h = h
  launch_all-FitsSlots m (t ∷ ts) s room h =
      let s' = launch_one date_parse limits inspect m s t in
      let grown =
        length-insert-le t.id (run_leaf date_parse limits m.stop m.now s.shared t).1 s.running in
      launch_all-FitsSlots m ts s' (omega (arith, room, grown)) (record {
        slots = omega (arith, room, grown);
        peak = omega (arith, room, grown, h.peak);
        replans = h.replans;
      })

  abbrev FitsPair : RunState × Phase → Type 0
  FitsPair r = FitsSlots limits r.0

  go_on-FitsSlots :
      (m : Moment) (s : RunState)
      → FitsSlots limits s
      → FitsPair (go_on date_parse limits inspect m s)
  go_on-FitsSlots m s h =
      if-keeps FitsPair (not (has_pending_tasks s.plan.tasks s.results)) h
        (elim (Option-cases
          (execution_stop_reason m.deadline_passed s.plan.tasks s.results s.usage limits)) [
            | inr (reason, e) ↦ rw e (if-keeps FitsPair (is_nil s.running) (same-FitsSlots h) h)
            | inl going ↦ rw going (
                let group = keep (is_ready s) s.plan.tasks in
                let free = limits.max_concurrent - length s.running in
                let after =
                  launch_all-FitsSlots m (launch_group date_parse limits inspect s) s
                    (omega (arith, length-take-le free group, h.slots)) h in
                if-keeps FitsPair
                  (is_nil
                    (launch_all date_parse limits inspect m s
                      (launch_group date_parse limits inspect s)).running)
                  (same-FitsSlots after) after)
          ])

  decide-FitsSlots :
      (m : Moment) (s : RunState) (triggers : List ReplanTrigger)
      → FitsSlots limits s
      → FitsPair (decide date_parse limits inspect m s triggers)
  decide-FitsSlots m s triggers h =
      elim (Bool-cases (not (is_nil triggers) && ltb s.replan_count limits.max_replans)) [
        | inr kept ↦ rw (kept, decide) (go_on-FitsSlots m s h)
        | inl again ↦
            rw (again, decide)
              (if-keeps FitsPair (is_nil s.running)
                (record { slots = h.slots; peak = h.peak; replans = ground (arith, again) }) h)
      ]

  with_triggers-FitsSlots :
      (m : Moment) (s : RunState) (r : Result (List ReplanTrigger))
      → FitsSlots limits s
      → FitsPair (with_triggers date_parse limits inspect m s r)
  with_triggers-FitsSlots m s (ok triggers) h =
      decide-FitsSlots m s (all_triggers date_parse limits inspect s triggers) h
  with_triggers-FitsSlots m s (err e) h = h

  turn-FitsSlots :
      (m : Moment) (s : RunState)
      → FitsSlots limits s
      → FitsPair (turn date_parse limits inspect m s)
  unfolding turn
  turn-FitsSlots m s h = elim (Option-cases m.stop) [
    | inr (reason, e) ↦
        rw (e, turn) (if-keeps FitsPair (is_nil s.running) (same-FitsSlots h) (same-FitsSlots h))
    | inl going ↦
        rw (going, turn)
          (with_triggers-FitsSlots m (with_evidence (with_blocked m s)) _
            (record { slots = h.slots; peak = h.peak; replans = h.replans }))
  ]

  module _
      (apply_plan_patch : ExecutionPlan → PlanPatch → ExecutionLimits → List String → Patched) where
    settled_plan-FitsSlots :
        (s : RunState) (b : Bool) → FitsSlots limits s → FitsPair (settled_plan (s, b))
    settled_plan-FitsSlots s true h =
        if-keeps FitsPair (has_pending_tasks s.plan.tasks s.results) h h
    settled_plan-FitsSlots s false h = h

    checked-FitsSlots :
        (m : Moment) (s : RunState) (patch : PlanPatch) (plan : ExecutionPlan)
        → FitsSlots limits s
        → FitsPair (checked limits apply_plan_patch m s patch plan)
    checked-FitsSlots m s patch plan h =
        elim (Option-cases (validate_plan_for_scheduling plan limits)) [
          | inr (c, e) ↦ rw (e, checked) h
          | inl valid ↦
              elim (Option-cases
                (reserve_sol_tasks plan.tasks s.shared.sol_task_ids limits.max_sol_leaves)) [
                  | inl gone ↦ rw (valid, gone, checked) h
                  | inr (ids, e) ↦ elim (Option-cases m.stop) [
                    | inr (reason, cut) ↦ rw (valid, e, cut, checked, adopt) (same-FitsSlots h)
                    | inl going ↦
                        rw (valid, e, going, checked, adopt)
                          (settled_plan-FitsSlots (with_plan s patch plan ids).0
                            (with_plan s patch plan ids).1
                            (record { slots = h.slots; peak = h.peak; replans = h.replans }))
                  ]
                ]
        ]

    replanned-FitsSlots :
        (m : Moment) (s : RunState) (answer : Answer)
        → FitsSlots limits s
        → FitsPair (replanned limits apply_plan_patch m s answer)
    unfolding replanned
    replanned-FitsSlots m s (cut_off reason) h = same-FitsSlots h
    replanned-FitsSlots m s rejected h = h
    replanned-FitsSlots m s (answered none) h =
        if-keeps FitsPair (has_pending_tasks s.plan.tasks s.results) h h
    replanned-FitsSlots m s (answered (some patch)) h =
        go (apply_plan_patch s.plan patch limits (protected_ids s))
      where
        go :
            (p : Patched)
            → FitsPair (elim p [
              | over_capacity ↦ (s, at_head)
              | refused ↦ (s, threw)
              | next_plan plan ↦ checked limits apply_plan_patch m s patch plan
            ])
        go over_capacity = h
        go refused = h
        go (next_plan plan) = checked-FitsSlots m s patch plan h

    -- The events of a run, in any order that the phases allow.
    pub data Step : RunState × Phase → RunState × Phase → Type 0 where
      lands :
          (m : Moment) (id : String) (outcome : Outcome) (s : RunState) (p : Phase)
          → Step (s, p) (land date_parse limits m id outcome s, p)
      posts :
          (message_id created_at : String) (input : AgentMessageInput) (s : RunState) (p : Phase)
          → Step (s, p) (record s { broker = (post message_id created_at s.broker input).0 }, p)
      records :
          (id : String) (r : LeafResult) (s : RunState)
          → lookup id s.running ≡ some (landed r)
          → Step (s, racing) (record_settled_leaf id r s, at_head)
      turns : (m : Moment) (s : RunState) → Step (s, at_head) (turn date_parse limits inspect m s)
      replans :
          (m : Moment) (triggers : List ReplanTrigger) (answer : Answer) (s : RunState)
          → Step (s, replanning triggers) (replanned limits apply_plan_patch m s answer)

    pub data Steps (start : RunState × Phase) : RunState × Phase → Type 0 where
      at_start : Steps start start
      then_step : {now next : RunState × Phase} → Steps start now → Step now next → Steps start next

    Step-FitsSlots : {now next : RunState × Phase} → Step now next → FitsPair now → FitsPair next
    unfolding record_settled_leaf
    Step-FitsSlots (lands m id outcome s p) h = land-FitsSlots date_parse limits m id outcome s h
    Step-FitsSlots (posts message_id created_at input s p) h = record {
      slots = h.slots;
      peak = h.peak;
      replans = h.replans;
    }
    Step-FitsSlots (records id r s e) h = record {
      slots = omega (arith, length-remove-le id s.running, h.slots);
      peak = h.peak;
      replans = h.replans;
    }
    Step-FitsSlots (turns m s) h = turn-FitsSlots m s h
    Step-FitsSlots (replans m triggers answer s) h = replanned-FitsSlots m s answer h

    -- In every order of the events of a run, the leaves that run at a time, the peak that is
    -- reported and the changes of the plan stay within `max_concurrent` and `max_replans`, if they
    -- are so at the start.
    pub Steps-FitsSlots :
        {start now : RunState × Phase}
        → FitsSlots limits start.0
        → Steps start now
        → FitsSlots limits now.0
    Steps-FitsSlots h at_start = h
    Steps-FitsSlots h (then_step before step) = Step-FitsSlots step (Steps-FitsSlots h before)
