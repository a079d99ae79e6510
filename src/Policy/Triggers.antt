-- ===== src/Policy/Triggers.antt =====
-- src/core/policy.ts: when the results of the leaves call for a plan patch. What `Date.parse`
-- makes of a time stamp is an argument, a number of milliseconds.
use Prim.Native.String.{◌++◌ as append}
use mathlib.Core.List.{flat_map}
use mathlib.Core.Option.{get_or}
use codex_mission_ledger.Prelude.{
  ℕ, String, Bool, true, false, not, ◌&&◌, ◌||◌, Option, none, some, List, [], ◌∷◌, ◌++◌, map,
}
use codex_mission_ledger.Prelude.Tests.{if◌then◌else◌, ltb, is_some}
use codex_mission_ledger.Prelude.Lists.{any, keep, set_add}
use codex_mission_ledger.Prelude.Maps.{Map, lookup, map_of}
use codex_mission_ledger.Prelude.Numbers.{Number, pos, is_finite, num_lt, num_add, num_sub, times}
use codex_mission_ledger.Prelude.Text.{join, sort, is_empty}
use codex_mission_ledger.Contracts.{
  ExecutionPlan, LeafTask, LeafResult, ReplanTrigger, ReplanTriggerType, FailureKind, Risk,
  AgentMessage, AgentMessageType, ModelUsage, is_completed, is_blocked, is_failed, is_kind,
  is_passed_check,
}
use codex_mission_ledger.Policy.Limits.{Result, ok, PolicyError, ◌>>◌, guard}
use codex_mission_ledger.Policy.Ownership.{owned_path_contains}
use codex_mission_ledger.Policy.Checks.{
  classify_validator_failure, is_mechanical, is_semantic, is_nil,
}

pub record ReplanConflict : Type 0 where
  pub task_ids : List String
  pub summary : String

pub record ReplanDetectionOptions : Type 0 where
  pub observed_at : String
  pub execution_complete : Bool
  pub missing_required_outputs : List String
  pub conflicts : List ReplanConflict
  pub scope_change : Option ReplanConflict
  pub validator_repair_attempts : Option (Map ℕ)

-- `[...new Set(ids)]`
pub distinct : List String → List String → List String
distinct seen [] = seen
distinct seen (id ∷ ids) = distinct (set_add id seen) ids

abbrev pub ids_of : List LeafResult → List String
ids_of = map (λ r. r.task_id)

abbrev pub is_blocked_or_failed : LeafResult → Bool
is_blocked_or_failed r = is_blocked r.status || is_failed r.status

abbrev pub is_critical : Option LeafTask → Bool
is_critical none = false
is_critical (some task) = task.critical

abbrev is_blocker : AgentMessage → Bool
is_blocker m = elim m.type [ AgentMessageType.blocker ↦ m.blocking | _ ↦ false ]

abbrev pub is_change : AgentMessage → Bool
is_change m = elim m.type [ AgentMessageType.contract_change ↦ true | _ ↦ false ]

-- A sum of costs, unless one of them is null.
pub sum_costs : Number → List ModelUsage → Option Number
sum_costs total [] = some total
sum_costs total (u ∷ us) = elim u.estimated_cost_usd [
  | none ↦ none
  | some cost ↦ sum_costs (num_add total cost) us
]

abbrev exceeds_cost : Option Number → Option Number → Bool
exceeds_cost none actual = false
exceeds_cost (some expected) none = false
exceeds_cost (some expected) (some actual) =
    num_lt (pos 0) expected && num_lt (times 13 expected) (times 10 actual)

abbrev is_high : Risk → Bool
is_high Risk.high = true
is_high _ = false

module _ (date_parse : String → Number) (plan : ExecutionPlan) (results : List LeafResult)
    (options : ReplanDetectionOptions) where
  abbrev pub task_of : LeafResult → Option LeafTask
  task_of r = lookup r.task_id (map_of (λ t. t.id) plan.tasks)

  -- `add`, where its condition holds
  abbrev pub trigger_if : Bool → ReplanTriggerType → List String → String → List ReplanTrigger
  trigger_if condition type task_ids summary =
      if condition
      then record {
        type = type;
        task_ids = sort (distinct [] task_ids);
        summary = summary;
        observed_at = options.observed_at;
      }
        ∷ []
      else []

  abbrev pub contract_failures : List LeafResult
  contract_failures =
      keep
        (λ r.
          is_some r.turn_id
          && is_kind FailureKind.contract r.failure_kind
          && is_blocked_or_failed r)
        results

  abbrev contract_details : List String
  contract_details =
      (if is_nil options.missing_required_outputs
        then []
        else append "missing outputs: " (join ", " options.missing_required_outputs) ∷ [])
      ++ (if is_nil contract_failures
          then []
          else append "incomplete tasks: " (join ", " (ids_of contract_failures)) ∷ [])

  abbrev pub contract_incomplete : List ReplanTrigger
  contract_incomplete =
      trigger_if (not (is_nil options.missing_required_outputs) || not (is_nil contract_failures))
        ReplanTriggerType.contract_incomplete (ids_of contract_failures)
        (join "; " contract_details)

  abbrev pub critical_blockers : List LeafResult
  critical_blockers =
      keep
        (λ r.
          is_critical (task_of r)
          && is_blocked_or_failed r
          && not (is_kind FailureKind.permission r.failure_kind)
          && any is_blocker r.messages)
        results

  abbrev pub critical_blocker : List ReplanTrigger
  critical_blocker =
      trigger_if (not (is_nil critical_blockers)) ReplanTriggerType.critical_blocker
        (ids_of critical_blockers) (join "; " (map (λ r. r.summary) critical_blockers))

  abbrev pub result_conflict : List ReplanTrigger
  result_conflict =
      trigger_if (not (is_nil options.conflicts)) ReplanTriggerType.result_conflict
        (flat_map (λ c. c.task_ids) options.conflicts)
        (join "; " (map (λ c. c.summary) options.conflicts))

  -- More than one attempt: a mechanical repair was already made.
  abbrev pub is_repaired : LeafResult → Bool
  is_repaired r = ltb 1 (get_or (lookup r.task_id (get_or options.validator_repair_attempts [])) 0)

  abbrev pub has_failed_validator : LeafResult → Bool
  has_failed_validator r =
      if not (is_completed r.status) && not (is_kind FailureKind.validation r.failure_kind)
      then false
      else is_semantic (classify_validator_failure (task_of r) r)
        || (is_mechanical (classify_validator_failure (task_of r) r) && is_repaired r)

  abbrev pub failed_validators : List LeafResult
  failed_validators = keep has_failed_validator results

  abbrev pub validator_failure : List ReplanTrigger
  validator_failure =
      trigger_if (not (is_nil failed_validators)) ReplanTriggerType.validator_failure
        (ids_of failed_validators) "One or more deterministic validators failed."

  abbrev pub low_confidence_results : List LeafResult
  low_confidence_results =
      keep
        (λ r. is_completed r.status && is_critical (task_of r) && num_lt r.confidence (pos 700000))
        results

  abbrev pub low_confidence : List ReplanTrigger
  low_confidence =
      trigger_if (not (is_nil low_confidence_results)) ReplanTriggerType.low_confidence
        (ids_of low_confidence_results) "Result confidence fell below 0.7."

  -- Milliseconds against seconds, and the ratio 1.3, in whole numbers.
  abbrev took_too_long : LeafTask → Number → Bool
  took_too_long task elapsed_ms =
      is_finite elapsed_ms && num_lt (times 13000 task.expected_seconds) (times 10 elapsed_ms)

  abbrev is_over_duration : LeafResult → Bool
  is_over_duration r = elim (task_of r) [
    | none ↦ false
    | some task ↦ elim r.started_at [
      | none ↦ false
      | some started ↦ took_too_long task (num_sub (date_parse r.completed_at) (date_parse started))
    ]
  ]

  abbrev expected_cost : Option LeafTask → Option Number
  expected_cost none = none
  expected_cost (some task) = task.expected_cost_usd

  abbrev is_over_cost : LeafResult → Bool
  is_over_cost r = exceeds_cost (expected_cost (task_of r)) (sum_costs (pos 0) r.usage)

  abbrev pub budget_deviation : List ReplanTrigger
  budget_deviation =
      trigger_if
        (not options.execution_complete
          && (not (is_nil (keep is_over_duration results))
              || not (is_nil (keep is_over_cost results))))
        ReplanTriggerType.budget_deviation
        (ids_of (keep is_over_duration results) ++ ids_of (keep is_over_cost results))
        "Observed duration or cost exceeded its allowed estimate ratio."

  abbrev pub owns_file : LeafTask → String → Bool
  owns_file task file = any (λ owned. owned_path_contains owned file) task.owned_paths

  abbrev pub leaves_scope : LeafResult → Bool
  leaves_scope r = elim (task_of r) [
    | none ↦ false
    | some task ↦ any (λ file. not (owns_file task file)) r.changed_files
  ]

  abbrev pub contract_changes : List (String × String)
  contract_changes =
      flat_map (λ r. map (λ m. (r.task_id, m.body)) (keep is_change r.messages)) results

  abbrev or_else : String → String → String
  or_else s default = if is_empty s then default else s

  abbrev scope_ids : Option ReplanConflict → List String
  scope_ids none = []
  scope_ids (some c) = c.task_ids

  abbrev scope_summary : Option ReplanConflict → String
  scope_summary (some c) = c.summary
  scope_summary none =
      or_else (join "; " (map (λ c. c.1) contract_changes))
        "A worker changed files outside its ownership contract."

  abbrev pub scope_change : List ReplanTrigger
  scope_change =
      trigger_if
        (not (is_nil (keep leaves_scope results))
          || not (is_nil contract_changes)
          || is_some options.scope_change)
        ReplanTriggerType.scope_change
        (ids_of (keep leaves_scope results)
          ++ map (λ c. c.0) contract_changes
          ++ scope_ids options.scope_change)
        (scope_summary options.scope_change)

  abbrev pub unvalidated : List LeafResult
  unvalidated =
      keep
        (λ r.
          is_critical (task_of r)
          && is_completed r.status
          && not (any (λ v. is_passed_check v.status) r.validation))
        results

  abbrev pub unvalidated_high_risk : List ReplanTrigger
  unvalidated_high_risk =
      trigger_if (is_high plan.risk && options.execution_complete && not (is_nil unvalidated))
        ReplanTriggerType.unvalidated_high_risk (ids_of unvalidated)
        "A critical high-risk result has no passing validator."

  -- `detectReplanTriggers`
  unfoldable pub detect_replan_triggers : Result (List ReplanTrigger)
  detect_replan_triggers = do
    guard (is_finite (date_parse options.observed_at)) PolicyError.invalid_timestamp
    ok (
        contract_incomplete
        ++ (critical_blocker
            ++ (result_conflict
                ++ (validator_failure
                    ++ (low_confidence
                        ++ (budget_deviation ++ (scope_change ++ unvalidated_high_risk)))))))
