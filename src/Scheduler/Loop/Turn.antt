-- ===== src/Scheduler/Loop/Turn.antt =====
-- src/core/scheduler.ts: the iterations of the loop in `execute`. `turn` goes from the loop's head to
-- the next await or to its end; `replanned` goes on after the planner's answer. Between them come
-- the leaves' awaits (`land`) and the race's winner (`record_settled_leaf`).
use codex_mission_ledger.Prelude.{
  ◌+◌, ◌-◌, max, String, Bool, not, ◌&&◌, Option, none, some, List, [], ◌∷◌, ◌++◌,
}
use codex_mission_ledger.Prelude.Tests.{if◌then◌else◌, ltb}
use codex_mission_ledger.Prelude.Lists.{all, keep, length, take}
use codex_mission_ledger.Prelude.Maps.{Map, insert, has, values}
use codex_mission_ledger.Prelude.Numbers.{Number}
use codex_mission_ledger.Contracts.{
  LeafTask, LeafResult, ExecutionPlan, ExecutionLimits, ReplanTrigger, is_completed,
}
use codex_mission_ledger.Policy.Limits.{Result, ok, err}
use codex_mission_ledger.Policy.Checks.{is_nil}
use codex_mission_ledger.Policy.Triggers.{detect_replan_triggers}
use codex_mission_ledger.Scheduler.Results.{
  blocked_result, cancelled_result, merge_broker_messages, has_pending_tasks, execution_stop_reason,
}
use codex_mission_ledger.Scheduler.Escalation.{run_leaf}
use codex_mission_ledger.Scheduler.Loop.{
  RunState, has_completed, block_tasks_with_failed_dependencies, cancel_pending,
}

-- Where `execute` stands: at the head of the loop, at an await, or past the loop. `threw` is an
-- error that leaves `execute`.
pub data Phase : Type 0 where
  at_head racing done threw : Phase
  replanning : List ReplanTrigger → Phase

-- What an iteration reads from outside: the clock, and the reason of an abort.
pub record Moment : Type 0 where
  pub now : String
  pub deadline_passed : Bool
  pub stop : Option String

-- What `applyPlanPatch` does: the next plan, an error of the number of leaves alone, or another.
pub data Patched : Type 0 where
  next_plan : ExecutionPlan → Patched
  over_capacity refused : Patched

abbrev pub is_ready : RunState → LeafTask → Bool
is_ready s t =
    not (has t.id s.results)
    && not (has t.id s.running)
    && all (has_completed s.results) t.depends_on

abbrev pub merge_into : Map LeafResult → List LeafResult → Map LeafResult
merge_into results [] = results
merge_into results (r ∷ rs) = merge_into (insert r.task_id r results) rs

abbrev pub evidence_of : RunState → List LeafResult
evidence_of s = merge_broker_messages (values s.results) s.broker.messages

abbrev pub with_evidence : RunState → RunState
with_evidence s = record s { results = merge_into s.results (evidence_of s) }

abbrev pub is_complete : RunState → Bool
is_complete s = all (λ t. has t.id s.results) s.plan.tasks

abbrev pub cancelled_for : Moment → String → RunState → RunState
cancelled_for m reason s = record s {
  results = cancel_pending (λ id. cancelled_result id reason m.now) s.plan.tasks s.results;
}

-- A stop waits for the leaves that run, and then gives the others their results.
abbrev pub stopped : Moment → String → RunState → RunState × Phase
stopped m reason s = if is_nil s.running then (cancelled_for m reason s, done) else (s, racing)

abbrev pub after_launch : Moment → RunState → RunState × Phase
after_launch m s =
    if is_nil s.running
    then (
      record s {
        results =
            cancel_pending (λ id. blocked_result id "no runnable dependency path remains" m.now)
              s.plan.tasks s.results;
      },
      done,
    )
    else (s, racing)

abbrev pub with_blocked : Moment → RunState → RunState
with_blocked m s = record s {
  results = block_tasks_with_failed_dependencies m.now s.plan.tasks s.results;
}

module _ (date_parse : String → Number) (limits : ExecutionLimits)
    (inspect : ExecutionPlan → List LeafResult → List ReplanTrigger) where
  -- The start of one leaf of a launch group.
  abbrev pub launch_one : Moment → RunState → LeafTask → RunState
  launch_one m s t =
      let started = run_leaf date_parse limits m.stop m.now s.shared t in
      let running = insert t.id started.1 s.running in
      record s {
        shared = started.0;
        running = running;
        peak_concurrency = max s.peak_concurrency (length running);
      }

  unfoldable pub launch_all : Moment → RunState → List LeafTask → RunState
  launch_all m s [] = s
  launch_all m s (t ∷ ts) = launch_all m (launch_one m s t) ts

  -- The ready tasks that get the free slots.
  abbrev pub launch_group : RunState → List LeafTask
  launch_group s = take (limits.max_concurrent - length s.running) (keep (is_ready s) s.plan.tasks)

  abbrev pub go_on : Moment → RunState → RunState × Phase
  go_on m s =
      if not (has_pending_tasks s.plan.tasks s.results)
      then (s, done)
      else elim (execution_stop_reason m.deadline_passed s.plan.tasks s.results s.usage limits) [
        | some reason ↦ stopped m reason s
        | none ↦ after_launch m (launch_all m s (launch_group s))
      ]

  abbrev pub triggers_of : Moment → List LeafResult → RunState → Result (List ReplanTrigger)
  triggers_of m evidence s = detect_replan_triggers date_parse s.plan evidence (record {
    observed_at = m.now;
    execution_complete = is_complete s;
    missing_required_outputs = [];
    conflicts = [];
    scope_change = none;
    validator_repair_attempts = some s.shared.attempts;
  })

  abbrev pub all_triggers : RunState → List ReplanTrigger → List ReplanTrigger
  all_triggers s triggers =
      if is_complete s && all (λ r. is_completed r.status) (values s.results)
      then triggers ++ inspect s.plan (values s.results)
      else triggers

  abbrev pub decide : Moment → RunState → List ReplanTrigger → RunState × Phase
  decide m s triggers =
      if not (is_nil triggers) && ltb s.replan_count limits.max_replans
      then if is_nil s.running
        then (record s { replan_count = s.replan_count + 1 }, replanning triggers)
        else (s, racing)
      else go_on m s

  abbrev pub with_triggers : Moment → RunState → Result (List ReplanTrigger) → RunState × Phase
  with_triggers m s (ok triggers) = decide m s (all_triggers s triggers)
  with_triggers m s (err e) = (s, threw)

  -- One iteration of the loop, to its next await.
  unfoldable pub turn : Moment → RunState → RunState × Phase
  unfolding launch_all
  turn m s =
      let blocked = with_blocked m s in
      elim m.stop [
        | some reason ↦ stopped m reason blocked
        | none ↦
            let seen = with_evidence blocked in
            with_triggers m seen (triggers_of m (evidence_of blocked) seen)
      ]
