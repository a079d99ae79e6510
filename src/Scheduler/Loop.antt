-- ===== src/Scheduler/Loop.antt =====
-- src/core/scheduler.ts: the state of `execute` and what its loop does to it. `Loop/Turn` puts these
-- parts together. The map `tasks` of the source holds the tasks of the plan, so here it is the plan's list.
pub mod Turn
pub mod Replanning
pub mod Patching
pub mod Protection
pub mod Blocking
pub mod Ready
pub mod Slots
pub mod Ending
mod Tests
mod PatchTests
use Prim.Native.String.{◌++◌ as append}
use codex_mission_ledger.Prelude.{
  ℕ, zero, suc, ◌+◌, String, Bool, true, false, not, ◌&&◌, ◌||◌, Option, none, some, List, [], ◌∷◌,
  ◌++◌, map, ◌==◌,
}
use codex_mission_ledger.Prelude.Tests.{if◌then◌else◌, is_some}
use codex_mission_ledger.Prelude.Lists.{any, all, length, includes, set_add}
use codex_mission_ledger.Prelude.Maps.{Map, lookup, insert, remove, has}
use codex_mission_ledger.Contracts.{
  LeafTask, LeafResult, ExecutionPlan, PlanPatch, PlanPatchOperation, ModelUsage, is_completed,
  is_blocked,
}
use codex_mission_ledger.Messages.{MessageBroker}
use codex_mission_ledger.Scheduler.Results.{blocked_result, cancelled_result}
use codex_mission_ledger.Scheduler.Escalation.{Shared, Leaf}

-- The variables of `execute`. A leaf in `running` that has landed is a settled promise.
pub record RunState : Type 0 where
  pub plan : ExecutionPlan
  pub results : Map LeafResult
  pub shared : Shared
  pub running : Map Leaf
  pub usage : List ModelUsage
  pub broker : MessageBroker
  pub peak_concurrency : ℕ
  pub replan_count : ℕ
  pub patch : Option PlanPatch

-- A dependency that has a result, which is not a completed one.
abbrev pub has_failed : Map LeafResult → String → Bool
has_failed results dependency = elim (lookup dependency results) [
  | none ↦ false
  | some r ↦ not (is_completed r.status)
]

abbrev pub has_completed : Map LeafResult → String → Bool
has_completed results dependency = elim (lookup dependency results) [
  | none ↦ false
  | some r ↦ is_completed r.status
]

-- `dependsOn.find(...)`
abbrev pub failed_dependency : Map LeafResult → List String → Option String
failed_dependency results [] = none
failed_dependency results (d ∷ ds) =
    if has_failed results d then some d else failed_dependency results ds

abbrev pub block_text : String → String
block_text failed = append "dependency " (append failed " did not complete")

-- One round of `#blockTasksWithFailedDependencies`, and whether it changed anything.
abbrev pub block_round : String → List LeafTask → Map LeafResult → Bool → Map LeafResult × Bool
block_round now [] results changed = (results, changed)
block_round now (t ∷ ts) results changed =
    if has t.id results
    then block_round now ts results changed
    else elim (failed_dependency results t.depends_on) [
      | none ↦ block_round now ts results changed
      | some failed ↦
          block_round now ts (insert t.id (blocked_result t.id (block_text failed) now) results)
            true
    ]

-- The rounds, on fuel.
abbrev pub block_rounds : ℕ → String → List LeafTask → Map LeafResult → Map LeafResult
block_rounds zero now tasks results = results
block_rounds (suc fuel) now tasks results =
    let rest = block_rounds fuel now tasks in
    let next = block_round now tasks results false in if next.1 then rest next.0 else next.0

-- `#blockTasksWithFailedDependencies`: each round but the last gives a task a result.
unfoldable pub block_tasks_with_failed_dependencies :
    String → List LeafTask → Map LeafResult → Map LeafResult
block_tasks_with_failed_dependencies now tasks results =
    block_rounds (suc (length tasks)) now tasks results

-- `#cancelPending`; the first argument makes the result of a task.
unfoldable pub cancel_pending :
    (String → LeafResult) → List LeafTask → Map LeafResult → Map LeafResult
cancel_pending result_for [] results = results
cancel_pending result_for (t ∷ ts) results =
    cancel_pending result_for ts
      (if has t.id results then results else insert t.id (result_for t.id) results)

-- `#recordSettledLeaf`, without the launch timing
unfoldable pub record_settled_leaf : String → LeafResult → RunState → RunState
record_settled_leaf id result s = record s {
  running = remove id s.running;
  usage = s.usage ++ result.usage;
  results = insert result.task_id result s.results;
}

-- `reconcilePatchState`: the results and attempts that the operations of a patch delete, and the
-- replaced tasks.
pub record Reconciled : Type 0 where
  pub results : Map LeafResult
  pub attempts : Map ℕ
  pub replaced : List String

abbrev pub reconcile_operation : Reconciled → PlanPatchOperation → Reconciled
reconcile_operation r (PlanPatchOperation.add task) = r
reconcile_operation r (PlanPatchOperation.replace task_id task) = record r {
  results = remove task.id (remove task_id r.results);
  replaced = set_add task_id r.replaced;
}
reconcile_operation r (PlanPatchOperation.cancel task_id reason) = record r {
  results = remove task_id r.results;
  attempts = remove task_id r.attempts;
}

abbrev reopened : LeafTask → Reconciled → Reconciled
reopened t r = record {
  results = remove t.id r.results;
  attempts = remove t.id r.attempts;
  replaced = set_add t.id r.replaced;
}

abbrev is_blocked_at : Map LeafResult → String → Bool
is_blocked_at results id = elim (lookup id results) [ none ↦ false | some r ↦ is_blocked r.status ]

-- One round over the tasks that a replaced task had blocked.
abbrev pub reopen_round : List LeafTask → Reconciled → Bool → Reconciled × Bool
reopen_round [] r changed = (r, changed)
reopen_round (t ∷ ts) r changed =
    if is_blocked_at r.results t.id && any (includes r.replaced) t.depends_on
    then reopen_round ts (reopened t r) true
    else reopen_round ts r changed

abbrev pub reopen_rounds : ℕ → List LeafTask → Reconciled → Reconciled
reopen_rounds zero tasks r = r
reopen_rounds (suc fuel) tasks r =
    let rest = reopen_rounds fuel tasks in
    let next = reopen_round tasks r false in if next.1 then rest next.0 else next.0

abbrev reconcile_all : List PlanPatchOperation → Reconciled → Reconciled
reconcile_all [] r = r
reconcile_all (o ∷ os) r = reconcile_all os (reconcile_operation r o)

unfoldable pub reconcile_patch_state :
    PlanPatch → List LeafTask → Map LeafResult → Map ℕ → Reconciled
reconcile_patch_state patch next_tasks results attempts =
    let r =
      reconcile_all patch.operations
        (record { results = results; attempts = attempts; replaced = [] }) in
    if any (λ id. true) r.replaced then reopen_rounds (suc (length next_tasks)) next_tasks r else r
