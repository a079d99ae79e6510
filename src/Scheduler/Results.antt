-- ===== src/Scheduler/Results.antt =====
-- src/core/scheduler.ts: the results that the scheduler makes up itself, and its helpers on results
-- and costs. Times are given as the ISO texts that `toISOString` makes of them.
use Prim.Native.String.{◌++◌ as append}
use codex_mission_ledger.Prelude.{
  String, Bool, true, false, not, ◌&&◌, ◌||◌, Option, none, some, List, [], ◌∷◌, ◌++◌, map, ◌==◌,
}
use codex_mission_ledger.Prelude.Tests.{if◌then◌else◌, is_some}
use codex_mission_ledger.Prelude.Lists.{any, keep, includes}
use codex_mission_ledger.Prelude.Maps.{Map, has}
use codex_mission_ledger.Prelude.Numbers.{Number, pos, is_finite, num_lt, num_le, num_add}
use codex_mission_ledger.Contracts.{
  LeafTask, LeafResult, LeafStatus, FailureKind, AgentMessage, ModelUsage, ExecutionLimits,
  is_writer,
}
use codex_mission_ledger.Policy.Triggers.{sum_costs}
use codex_mission_ledger.Policy.Checks.{is_nil}

-- `failedResult`, with the text of the error
unfoldable pub failed_result : String → String → String → FailureKind → LeafResult
failed_result task_id error completed_at failure_kind = record {
  task_id = task_id;
  status = LeafStatus.failed;
  summary = "leaf execution failed";
  confidence = pos 0;
  findings = [];
  changed_files = [];
  validation = [];
  citations = [];
  artifacts = [];
  messages = [];
  thread_id = none;
  turn_id = none;
  usage = [];
  started_at = none;
  completed_at = completed_at;
  error = some error;
  failure_kind = some failure_kind;
}

-- `blockedResult`
unfoldable pub blocked_result : String → String → String → LeafResult
unfolding failed_result
blocked_result task_id reason completed_at =
    record (failed_result task_id reason completed_at FailureKind.unknown) {
      status = LeafStatus.blocked;
      summary = reason;
      failure_kind = some FailureKind.contract;
    }

-- `cancelledResult`
unfoldable pub cancelled_result : String → String → String → LeafResult
unfolding failed_result
cancelled_result task_id reason completed_at =
    record (failed_result task_id reason completed_at FailureKind.unknown) {
      status = LeafStatus.cancelled;
      summary = reason;
    }

-- `interruptedResult`: what a writer did before the interruption is not known.
unfoldable pub interrupted_result : LeafTask → String → String → LeafResult
unfolding failed_result cancelled_result
interrupted_result task reason completed_at =
    if is_writer task.access
    then record (failed_result task.id reason completed_at FailureKind.unknown) {
      status = LeafStatus.indeterminate;
      summary = append reason "; workspace changes may have occurred";
    }
    else cancelled_result task.id reason completed_at

abbrev mismatch : LeafTask → LeafResult → String → LeafResult
mismatch task received completed_at =
    record (failed_result task.id
      (append "executor returned result for '"
        (append received.task_id (append "', expected '" (append task.id "'"))))
      completed_at FailureKind.contract) {
        thread_id = received.thread_id;
        turn_id = received.turn_id;
        usage = received.usage;
        started_at = received.started_at;
      }

-- `mismatchedTaskResult`
unfoldable pub mismatched_task_result : LeafTask → LeafResult → String → LeafResult
unfolding failed_result
mismatched_task_result task received completed_at =
    if is_writer task.access
    then record (mismatch task received completed_at) {
      status = LeafStatus.indeterminate;
      summary = "executor returned a mismatched result; workspace changes may have occurred";
    }
    else mismatch task received completed_at

-- `sumUsageCost`
abbrev pub sum_usage_cost : List ModelUsage → Option Number
sum_usage_cost = sum_costs (pos 0)

abbrev fits : Option Number → Option Number → Number → Bool
fits none expected maximum = false
fits (some prior) none maximum = false
fits (some prior) (some expected) maximum = num_le (num_add prior expected) maximum

-- `canAffordEscalation`: an absent estimate counts as infinite, and nothing infinite fits.
unfoldable pub can_afford_escalation : LeafTask → LeafResult → ExecutionLimits → Bool
can_afford_escalation task prior limits = elim limits.max_cost_usd [
  | none ↦ true
  | some maximum ↦
      if is_some prior.thread_id && is_nil prior.usage
      then false
      else fits (sum_usage_cost prior.usage) task.expected_cost_usd maximum
]

-- `earlierStartedAt`, with the reading of times by `Date.parse`
unfoldable pub earlier_started_at :
    (String → Number) → Option String → Option String → Option String
earlier_started_at date_parse none candidate = candidate
earlier_started_at date_parse (some current) none = some current
earlier_started_at date_parse (some current) (some candidate) =
    if not (is_finite (date_parse current))
    then some candidate
    else if not (is_finite (date_parse candidate))
        || num_le (date_parse current) (date_parse candidate)
    then some current
    else some candidate

abbrev new_messages : LeafResult → List AgentMessage → List AgentMessage
new_messages result messages =
    keep
      (λ m.
        (m.from_task_id == result.task_id) && not (includes (map (λ n. n.id) result.messages) m.id))
      messages

abbrev pub with_messages : List AgentMessage → LeafResult → LeafResult
with_messages messages r = record r { messages = r.messages ++ new_messages r messages }

-- `mergeBrokerMessages`
unfoldable pub merge_broker_messages : List LeafResult → List AgentMessage → List LeafResult
merge_broker_messages results messages = map (with_messages messages) results

-- `hasPendingTasks`
abbrev pub has_pending_tasks : List LeafTask → Map LeafResult → Bool
has_pending_tasks tasks results = any (λ t. not (has t.id results)) tasks

expected_cost : Number → List LeafTask → Map LeafResult → Number
expected_cost total [] results = total
expected_cost total (t ∷ ts) results =
    expected_cost
      (if has t.id results
        then total
        else elim t.expected_cost_usd [ none ↦ total | some cost ↦ num_add total cost ])
      ts results

-- `executionStopReason`; the first argument says whether the deadline has passed.
unfoldable pub execution_stop_reason :
    Bool → List LeafTask → Map LeafResult → List ModelUsage → ExecutionLimits → Option String
unfolding expected_cost
execution_stop_reason deadline_passed tasks results usage limits =
    if deadline_passed then some "execution deadline exceeded" else elim limits.max_cost_usd [
      | none ↦ none
      | some maximum ↦ elim (sum_usage_cost usage) [
        | none ↦ some "cost accounting unavailable under maxCostUsd"
        | some actual ↦
            if num_lt maximum (num_add actual (expected_cost (pos 0) tasks results))
            then some "remaining work would exceed maxCostUsd"
            else none
      ]
    ]
