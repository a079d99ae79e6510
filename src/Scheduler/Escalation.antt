-- ===== src/Scheduler/Escalation.antt =====
-- src/core/scheduler.ts: the run of one leaf, `#runWithEscalation`. It is a loop around one await,
-- the executor's `runLeaf`, so it is two functions: `begin_attempt` goes from the head of the loop
-- to that await, and `finish_attempt` from there to a result or to the next attempt. Other leaves
-- run in between; what they share are the fields of `Shared`.
pub mod Bounds
pub mod Retries
pub mod Attempts
mod Tests
use mathlib.Core.Option.{get_or}
use codex_mission_ledger.Prelude.{
  ℕ, suc, ◌+◌, String, Bool, true, false, not, ◌&&◌, ◌||◌, Option, none, some, List, [], ◌∷◌, ◌++◌,
  ◌==◌,
}
use codex_mission_ledger.Prelude.Tests.{if◌then◌else◌, leb, nat_eq, is_some}
use codex_mission_ledger.Prelude.Lists.{includes, length}
use codex_mission_ledger.Prelude.Maps.{Map, lookup, insert, remove}
use codex_mission_ledger.Prelude.Numbers.{Number}
use codex_mission_ledger.Contracts.{
  LeafTask, LeafResult, ModelTier, luna, terra, sol, is_sol, ReasoningEffort, FailureKind,
  ModelUsage, ExecutionLimits, WaitingLeafResumePoint, is_failed, is_kind,
}
use codex_mission_ledger.Policy.Checks.{classify_validator_failure, is_mechanical, is_semantic}
use codex_mission_ledger.Scheduler.Results.{
  failed_result, interrupted_result, mismatched_task_result, can_afford_escalation,
  earlier_started_at,
}

pub data RepairKind : Type 0 where
  validation reasoning : RepairKind

pub record Retry : Type 0 where
  pub kind : RepairKind
  pub previous_result : LeafResult

-- The maps and the set that all leaves of a run share.
pub record Shared : Type 0 where
  pub attempts : Map ℕ
  pub waiting_results : Map LeafResult
  pub waiting_continuations : Map WaitingLeafResumePoint
  pub sol_task_ids : List String

-- A leaf that waits for the executor: its `LeafRunInput` and the variables of the loop.
pub record Call : Type 0 where
  pub task : LeafTask
  pub attempt : ℕ
  pub retry : Option Retry
  pub continuation : Option WaitingLeafResumePoint
  pub prior_usage : List ModelUsage
  pub first_started_at : Option String

pub data Leaf : Type 0 where
  flying : Call → Leaf
  landed : LeafResult → Leaf

-- What the await gives: the executor's result or error, or an abort of the run.
pub data Outcome : Type 0 where
  returned : LeafResult → Outcome
  threw : String → Outcome
  aborted : (reason : String) → Outcome

-- `reserveSolTask`; `none` where it answers false.
unfoldable pub reserve_sol_task : String → List String → ℕ → Option (List String)
reserve_sol_task task_id sol_task_ids max_sol_leaves =
    if includes sol_task_ids task_id
    then some sol_task_ids
    else if leb max_sol_leaves (length sol_task_ids)
    then none
    else some (sol_task_ids ++ task_id ∷ [])

-- `reserveSolTasks`; `none` where it throws.
unfoldable pub reserve_sol_tasks : List LeafTask → List String → ℕ → Option (List String)
reserve_sol_tasks [] sol_task_ids max_sol_leaves = some sol_task_ids
reserve_sol_tasks (task ∷ tasks) sol_task_ids max_sol_leaves =
    elim (if is_sol task.tier
      then reserve_sol_task task.id sol_task_ids max_sol_leaves
      else some sol_task_ids) [
        | none ↦ none
        | some reserved ↦ reserve_sol_tasks tasks reserved max_sol_leaves
      ]

abbrev pub upgraded : LeafTask → ModelTier → ReasoningEffort → LeafTask
upgraded task tier effort = record task { tier = tier; effort = effort }

abbrev terra_effort : RepairKind → ReasoningEffort
terra_effort RepairKind.validation = ReasoningEffort.medium
terra_effort RepairKind.reasoning = ReasoningEffort.high

abbrev pub to_sol : LeafTask → Option (List String) → Option (LeafTask × List String)
to_sol task none = none
to_sol task (some reserved) = some (upgraded task sol ReasoningEffort.high, reserved)

-- `upgradeTask`: the task on the next tier, and the reserved Sol tasks.
unfoldable pub upgrade_task :
    LeafTask → List String → ℕ → RepairKind → Option (LeafTask × List String)
upgrade_task task sol_task_ids max_sol_leaves kind = elim task.tier [
  | sol ↦ none
  | luna ↦ some (upgraded task terra (terra_effort kind), sol_task_ids)
  | terra ↦ to_sol task (reserve_sol_task task.id sol_task_ids max_sol_leaves)
]

-- The result that an outcome stands for.
abbrev pub result_of : LeafTask → String → Outcome → LeafResult
result_of task now (returned r) = r
result_of task now (threw e) = failed_result task.id e now FailureKind.unknown
result_of task now (aborted reason) = interrupted_result task reason now

abbrev pub needs_revalidation : Call → LeafResult → Bool
needs_revalidation call result =
    nat_eq call.attempt 1 && is_mechanical (classify_validator_failure (some call.task) result)

abbrev pub is_final : Call → LeafResult → Bool
is_final call result =
    let semantic = is_semantic (classify_validator_failure (some call.task) result) in
    not (is_failed result.status && (is_kind FailureKind.reasoning result.failure_kind || semantic))
    || not (leb call.attempt 1)

abbrev pub retry_kind : Call → LeafResult → RepairKind
retry_kind call result =
    if is_semantic (classify_validator_failure (some call.task) result)
    then RepairKind.validation
    else RepairKind.reasoning

module _ (date_parse : String → Number) (limits : ExecutionLimits) where
  -- The Sol budget at the head of the loop.
  abbrev pub reserve_for : LeafTask → List String → Option (List String)
  reserve_for task sol_task_ids =
      if is_sol task.tier
      then reserve_sol_task task.id sol_task_ids limits.max_sol_leaves
      else some sol_task_ids

  abbrev pub counted : Shared → LeafTask → Shared
  counted s task = record s {
    attempts = insert task.id (get_or (lookup task.id s.attempts) 0 + 1) s.attempts;
  }

  -- The waiting continuation of a leaf is used once.
  abbrev pub launched :
      Shared → LeafTask → List ModelUsage → Option String → Option Retry → Shared × Leaf
  launched s task prior_usage first_started_at retry = (
    record s {
      waiting_continuations = remove task.id s.waiting_continuations;
      waiting_results =
          if is_some (lookup task.id s.waiting_continuations)
          then remove task.id s.waiting_results
          else s.waiting_results;
    },
    flying (record {
      task = task;
      attempt = get_or (lookup task.id s.attempts) 0;
      retry = retry;
      continuation = lookup task.id s.waiting_continuations;
      prior_usage = prior_usage;
      first_started_at = first_started_at;
    }),
  )

  abbrev pub admitted :
      String → Shared → LeafTask → List ModelUsage → Option String → Option Retry → Shared × Leaf
  admitted now s task prior_usage first_started_at retry = elim (reserve_for task s.sol_task_ids) [
    | none ↦
        (s, landed (failed_result task.id "Sol leaf budget exhausted" now FailureKind.contract))
    | some reserved ↦
        launched (record s { sol_task_ids = reserved }) task prior_usage first_started_at retry
  ]

  -- From the head of the loop to the call of the executor. `stop` is the reason of an abort.
  unfoldable pub begin_attempt :
      Option String
      → String
      → Shared
      → LeafTask
      → List ModelUsage
      → Option String
      → Option Retry
      → Shared × Leaf
  begin_attempt stop now s task prior_usage first_started_at retry = elim stop [
    | some reason ↦ (counted s task, landed (interrupted_result task reason now))
    | none ↦ admitted now (counted s task) task prior_usage first_started_at retry
  ]

  -- The start of `#runWithEscalation`: usage and start time of a waiting result are kept.
  unfoldable pub run_leaf : Option String → String → Shared → LeafTask → Shared × Leaf
  unfolding begin_attempt
  run_leaf stop now s task = elim (lookup task.id s.waiting_results) [
    | none ↦ begin_attempt stop now s task [] none none
    | some waiting ↦ begin_attempt stop now s task waiting.usage waiting.started_at none
  ]

  -- The result of the await, with the usage of all attempts and the first start time.
  abbrev pub received : Call → String → Outcome → LeafResult
  received call now outcome =
      let result = result_of call.task now outcome in
      record result {
        usage = call.prior_usage ++ result.usage;
        started_at = earlier_started_at date_parse call.first_started_at result.started_at;
      }

  -- The next attempt on a higher tier, if the cost and the Sol budget allow it.
  abbrev pub escalate :
      Option String → String → Shared → Call → LeafResult → RepairKind → RepairKind → Shared × Leaf
  escalate stop now s call result upgrade_kind kind =
      if not (can_afford_escalation call.task result limits)
      then (s, landed result)
      else elim (upgrade_task call.task s.sol_task_ids limits.max_sol_leaves upgrade_kind) [
        | none ↦ (s, landed result)
        | some (next, reserved) ↦
            begin_attempt stop now (record s { sol_task_ids = reserved }) next result.usage
              result.started_at (some (record { kind = kind; previous_result = result }))
      ]

  abbrev pub judge : Option String → String → Shared → Call → LeafResult → Shared × Leaf
  judge stop now s call result =
      if needs_revalidation call result
      then escalate stop now s call result RepairKind.validation RepairKind.validation
      else if is_final call result
      then (s, landed result)
      else escalate stop now s call result RepairKind.reasoning (retry_kind call result)

  -- From the await to the end of the loop's body.
  unfoldable pub finish_attempt : Option String → String → Shared → Call → Outcome → Shared × Leaf
  unfolding begin_attempt
  finish_attempt stop now s call outcome =
      let result = received call now outcome in
      if not (result.task_id == call.task.id)
      then (s, landed (mismatched_task_result call.task result now))
      else if is_kind FailureKind.transient result.failure_kind
      then (s, landed result)
      else judge stop now s call result
