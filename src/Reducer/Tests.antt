-- ===== src/Reducer/Tests.antt =====
-- src/core/reducer.ts: a reduction of three results, and the theorems at it.
use mathlib.Core.List.{flat_map}
use codex_mission_ledger.Prelude.{◌≡◌, ◌≢◌, refl, true, none, some, List, [], ◌∷◌, arith}
use codex_mission_ledger.Prelude.Text.{trim, join}
use codex_mission_ledger.Prelude.Codes.{codes}
use codex_mission_ledger.Prelude.Maps.{lookup, insert, map_of}
use codex_mission_ledger.Contracts.{
  LeafTask, LeafResult, LeafStatus, TaskAccess, AggregationMode, ExecutionPlan,
}
use codex_mission_ledger.Contracts.Samples.{task, plan, result}
use codex_mission_ledger.Reducer.{
  completed, failed, order_of, sort_by, gather, terminal_writer_task_id, dedupe, dedupe_findings,
  reduce_leaf_results, can_automatically_reduce,
}
use codex_mission_ledger.Reducer.Texts.{is_part, without_dots, decimal}
use codex_mission_ledger.Reducer.Order.{reduce_leaf_results_swap}
use codex_mission_ledger.Reducer.Writers.{IsFinalWriter, terminal_writer_task_id-IsFinalWriter}

-- Task b depends on a, and the writer w on b.
abbrev tasks : List LeafTask
tasks =
    task "a" []
    ∷ task "b" ("a" ∷ [])
    ∷ record (task "w" ("b" ∷ [])) { access = TaskAccess.workspace_write }
    ∷ []

abbrev reading : ExecutionPlan
reading = plan (task "a" [] ∷ task "b" [] ∷ [])

abbrev writing : ExecutionPlan
writing =
    let base = plan tasks in
    record base {
      integration = record base.integration { aggregation = some AggregationMode.deterministic };
    }

abbrev with_finding : LeafResult
with_finding = record (result "b") {
  summary = " read ";
  findings =
      record { text = "slow"; path = some "a.ts"; line = some 12 }
      ∷ record { text = "slow"; path = some "a.ts"; line = some 12 }
      ∷ record { text = "read..."; path = none; line = none }
      ∷ [];
}

program : Unit {0}
unfolding flat_map trim join codes lookup insert map_of order_of sort_by gather
    terminal_writer_task_id is_part without_dots dedupe dedupe_findings decimal reduce_leaf_results
    can_automatically_reduce
program = tt

-- The results come in the order of the plan; a finding that a summary tells is not listed again.
merged :
    reduce_leaf_results reading (with_finding ∷ result "a" ∷ [])
    ≡ completed "a: done\nb: read\n- a.ts:12: slow"
unfolding program
merged = refl

-- Only the writer's result is delivered.
last_only :
    reduce_leaf_results writing (result "w" ∷ result "b" ∷ result "a" ∷ []) ≡ completed "w: done"
unfolding program
last_only = refl

-- The writer alone does not say what other tasks found, unless it depends on them.
not_final : terminal_writer_task_id (record writing { tasks = task "c" [] ∷ tasks }) ≡ none
unfolding program
not_final = refl

incomplete :
    reduce_leaf_results reading (record (result "a") { status = LeafStatus.failed } ∷ []) ≡ failed
unfolding program
incomplete = refl

-- A summary that is empty is kept, and one that ends with a colon is left out.
colons :
    reduce_leaf_results reading
      (record (result "a") { summary = "" } ∷ record (result "b") { summary = "found:" } ∷ [])
    ≡ completed "a: "
unfolding program
colons = refl

automatic : can_automatically_reduce reading (result "a" ∷ result "b" ∷ []) ≡ true
unfolding program
automatic = refl

places : order_of reading.tasks "b" ≢ order_of reading.tasks "a"
unfolding program
places = omega arith

is_final : terminal_writer_task_id writing ≡ some "w"
unfolding program
is_final = refl

reduce_leaf_results_swap_example :
    reduce_leaf_results reading (with_finding ∷ result "a" ∷ [])
    ≡ reduce_leaf_results reading (result "a" ∷ with_finding ∷ [])
reduce_leaf_results_swap_example =
    reduce_leaf_results_swap reading [] with_finding (result "a") [] places

terminal_writer_task_id-IsFinalWriter_example : IsFinalWriter writing "w"
terminal_writer_task_id-IsFinalWriter_example =
    terminal_writer_task_id-IsFinalWriter writing "w" is_final
