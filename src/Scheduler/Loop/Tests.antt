-- ===== src/Scheduler/Loop/Tests.antt =====
-- src/core/scheduler.ts: runs of the loop, and its theorems at them.
use codex_mission_ledger.Prelude.{◌≡◌, refl, String, true, false, none, some, List, [], ◌∷◌, arith}
use codex_mission_ledger.Prelude.Maps.{lookup, insert, remove, map_of, has}
use mathlib.Core.List.{flat_map}
use codex_mission_ledger.Prelude.Numbers.{Number, pos}
use codex_mission_ledger.Contracts.{
  LeafTask, LeafResult, LeafStatus, FailureKind, ExecutionPlan, PlanPatch, ExecutionLimits,
  ReplanTrigger,
}
use codex_mission_ledger.Contracts.Samples.{task, plan, result, limits}
use codex_mission_ledger.Messages.{new_broker}
use codex_mission_ledger.Policy.Triggers.{detect_replan_triggers}
use codex_mission_ledger.Policy.Checks.{classify_validator_failure}
use codex_mission_ledger.Scheduler.Results.{
  merge_broker_messages, execution_stop_reason, blocked_result, cancelled_result, failed_result,
  earlier_started_at,
}
use codex_mission_ledger.Scheduler.Escalation.{run_leaf, begin_attempt, finish_attempt}
use codex_mission_ledger.Scheduler.Loop.{
  RunState, block_tasks_with_failed_dependencies, cancel_pending, record_settled_leaf,
}
use codex_mission_ledger.Scheduler.Loop.Turn.{
  Phase, at_head, racing, done, Moment, Patched, refused, is_complete, launch_all, turn,
}
use codex_mission_ledger.Scheduler.Loop.Replanning.{cut_off, land, replanned}
use codex_mission_ledger.Scheduler.Loop.Slots.{
  FitsSlots, Steps, at_start, then_step, turns, Steps-FitsSlots,
}
use codex_mission_ledger.Scheduler.Loop.Ready.{OnlyStarts, turn-OnlyStarts}
use codex_mission_ledger.Scheduler.Loop.Ending.{IsEnded, turn-IsEnded, replanned-IsEnded}
use codex_mission_ledger.Scheduler.Loop.Blocking.{
  IsSettled, block_tasks_with_failed_dependencies-IsSettled,
}

abbrev date_parse : String → Number
date_parse text = pos 0

abbrev inspect : ExecutionPlan → List LeafResult → List ReplanTrigger
inspect p results = []

abbrev refuse : ExecutionPlan → PlanPatch → ExecutionLimits → List String → Patched
refuse p patch l ids = refused

-- A chain of two tasks, and one that stands alone.
abbrev tasks : List LeafTask
tasks = task "a" [] ∷ task "b" ("a" ∷ []) ∷ task "c" [] ∷ []

abbrev start : RunState
start = record {
  plan = plan tasks;
  results = [];
  shared = record {
    attempts = [];
    waiting_results = [];
    waiting_continuations = [];
    sol_task_ids = [];
  };
  running = [];
  usage = [];
  broker = new_broker tasks 2 1 1024;
  peak_concurrency = 0;
  replan_count = 0;
  patch = none;
}

abbrev moment : Moment
moment = record { now = "t"; deadline_passed = false; stop = none }

abbrev after : RunState × Phase
after = turn date_parse limits inspect moment start

program : Unit {0}
unfolding flat_map turn launch_all run_leaf begin_attempt finish_attempt land record_settled_leaf
    lookup insert remove map_of block_tasks_with_failed_dependencies cancel_pending
    merge_broker_messages execution_stop_reason detect_replan_triggers classify_validator_failure
    new_broker blocked_result cancelled_result failed_result earlier_started_at replanned
program = tt

-- The first iteration starts the tasks that depend on nothing.
launched : after.0.peak_concurrency ≡ 2
unfolding program
launched = refl

waits : after.1 ≡ racing
unfolding program
waits = refl

-- The dependents of a failed task are blocked.
abbrev failure : LeafResult
failure = record (result "a") {
  status = LeafStatus.failed;
  failure_kind = some FailureKind.transient;
}

blocked : has "b" (block_tasks_with_failed_dependencies "t" tasks (("a", failure) ∷ [])) ≡ true
unfolding program
blocked = refl

one_turn : Steps date_parse limits inspect refuse (start, at_head) after
one_turn = then_step at_start (turns moment start)

Steps-FitsSlots_example : FitsSlots limits after.0
Steps-FitsSlots_example =
    Steps-FitsSlots date_parse limits inspect refuse
      (record { slots = omega arith; peak = omega arith; replans = omega arith }) one_turn

-- A stop with no leaf running leaves the loop.
abbrev stopping : Moment
stopping = record moment { stop = some "stopped" }

leaves : (turn date_parse limits inspect stopping start).1 ≡ done
unfolding program
leaves = refl

-- The iteration is at its end, and all tasks have their results.
turn-IsEnded_example : IsEnded (turn date_parse limits inspect stopping start)
turn-IsEnded_example = turn-IsEnded date_parse limits inspect stopping start

ends : is_complete (turn date_parse limits inspect stopping start).0 ≡ true
unfolding program
ends = refl

replanned-IsEnded_example : IsEnded (replanned limits refuse moment start (cut_off "stopped"))
replanned-IsEnded_example = replanned-IsEnded limits refuse moment start (cut_off "stopped")

block_tasks_with_failed_dependencies-IsSettled_example :
    IsSettled (block_tasks_with_failed_dependencies "t" tasks (("a", failure) ∷ [])) tasks
block_tasks_with_failed_dependencies-IsSettled_example =
    block_tasks_with_failed_dependencies-IsSettled "t" tasks (("a", failure) ∷ [])

turn-OnlyStarts_example :
    OnlyStarts date_parse limits inspect moment start.running
      (turn date_parse limits inspect moment start)
turn-OnlyStarts_example = turn-OnlyStarts date_parse limits inspect moment start
