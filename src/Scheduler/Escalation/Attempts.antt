-- ===== src/Scheduler/Escalation/Attempts.antt =====
-- src/core/scheduler.ts: how often a leaf is tried, and on which tiers.
use codex_mission_ledger.Prelude.{
  ◌+◌, ◌≤◌, ◌≡◌, refl, String, Bool, true, false, Option, none, some, List, [], inl, inr, ap, arith,
  subst, sym, ◌==◌, eq_iff,
}
use codex_mission_ledger.Prelude.Tests.{Option-cases, Bool-cases}
use codex_mission_ledger.Prelude.Maps.{lookup, lookup-insert_self}
use codex_mission_ledger.Prelude.Numbers.{Number}
use codex_mission_ledger.Contracts.{
  LeafTask, LeafResult, ModelUsage, ExecutionLimits, FailureKind, is_kind,
}
use codex_mission_ledger.Scheduler.Results.{can_afford_escalation, failed_result}
use codex_mission_ledger.Scheduler.Escalation.{
  Shared, Call, Leaf, flying, landed, Outcome, RepairKind, Retry, upgrade_task, judge,
  needs_revalidation, is_final, retry_kind, counted, launched, admitted, reserve_for, begin_attempt,
  run_leaf, received, escalate, finish_attempt,
}
use codex_mission_ledger.Scheduler.Escalation.Retries.{
  tries, Starts, interrupted_result-id, mismatched_task_result-id, IsUpgrade,
  upgrade_task-IsUpgrade, Follows, Follows-start,
}

module _ (date_parse : String → Number) (limits : ExecutionLimits) where
  launched-Starts :
      (s : Shared) (ids : List String) (task : LeafTask) (usage : List ModelUsage)
      (started : Option String) (retry : Option Retry)
      → Starts s task usage
          (launched date_parse limits
            (record (counted date_parse limits s task) { sol_task_ids = ids })
            task
            usage
            started
            retry).1
  launched-Starts s ids task usage started retry =
      (refl, ground (arith, lookup-insert_self task.id (tries s task.id + 1) s.attempts), refl)

  begin_attempt-Starts :
      (stop : Option String) (now : String) (s : Shared) (task : LeafTask) (usage : List ModelUsage)
      (started : Option String) (retry : Option Retry)
      → Starts s task usage (begin_attempt date_parse limits stop now s task usage started retry).1
  unfolding begin_attempt failed_result
  begin_attempt-Starts (some reason) now s task usage started retry =
      interrupted_result-id task reason now
  begin_attempt-Starts none now s task usage started retry =
      elim (Option-cases (reserve_for date_parse limits task s.sol_task_ids)) [
        | inl gone ↦ rw (gone, admitted) refl
        | inr (ids, e) ↦ rw (e, admitted) (launched-Starts s ids task usage started retry)
      ]

  module _ (stop : Option String) (now : String) (s : Shared) (call : Call) where
    escalate-Follows :
        (result : LeafResult) (up retry : RepairKind)
        → call.attempt ≤ 1
        → result.task_id ≡ call.task.id
        → Follows s call (escalate date_parse limits stop now s call result up retry).1
    escalate-Follows result up retry first same =
        elim (Bool-cases (can_afford_escalation call.task result limits)) [
          | inr poor ↦ rw (poor, escalate) same
          | inl rich ↦
              elim (Option-cases (upgrade_task call.task s.sol_task_ids limits.max_sol_leaves up)) [
                | inl gone ↦ rw (rich, gone, escalate) same
                | inr ((next, ids), e) ↦
                    rw (rich, e, escalate)
                      (Follows-start s ids call next result.usage _ first
                        (subst (IsUpgrade call.task) e (
                          upgrade_task-IsUpgrade call.task s.sol_task_ids limits.max_sol_leaves up))
                        (begin_attempt-Starts stop now (record s { sol_task_ids = ids }) next
                          result.usage result.started_at
                          (some (record { kind = retry; previous_result = result }))))
              ]
        ]

    judge-Follows :
        (result : LeafResult)
        → result.task_id ≡ call.task.id
        → Follows s call (judge date_parse limits stop now s call result).1
    judge-Follows result same = elim (Bool-cases (needs_revalidation call result)) [
      | inl met ↦
          rw (met, judge)
            (escalate-Follows result RepairKind.validation RepairKind.validation (ground arith)
              same)
      | inr other ↦ elim (Bool-cases (is_final call result)) [
        | inl done ↦ rw (other, done, judge) same
        | inr again ↦
            rw (other, again, judge)
              (escalate-Follows result RepairKind.reasoning (retry_kind call result) (ground arith)
                same)
      ]
    ]

    -- What follows an await: a result of the same task, or the next attempt, one tier up, of a
    -- leaf whose first attempt this was.
    pub finish_attempt-Follows :
        (outcome : Outcome)
        → Follows s call (finish_attempt date_parse limits stop now s call outcome).1
    unfolding finish_attempt
    finish_attempt-Follows outcome =
        let result = received date_parse limits call now outcome in
        elim (Bool-cases (result.task_id == call.task.id)) [
          | inr other ↦ rw (other, finish_attempt) (mismatched_task_result-id call.task result now)
          | inl same ↦ elim (Bool-cases (is_kind FailureKind.transient result.failure_kind)) [
            | inl met ↦
                rw (same, met, finish_attempt) (ground (arith, eq_iff result.task_id call.task.id))
            | inr lasting ↦
                rw (same, lasting, finish_attempt)
                  (judge-Follows result (ground (arith, eq_iff result.task_id call.task.id)))
          ]
        ]

abbrev pub has_landed : Leaf → Bool
has_landed (landed r) = true
has_landed (flying call) = false

abbrev works_on : Leaf → String
works_on (landed r) = r.task_id
works_on (flying call) = call.task.id

worked :
    (s : Shared) (task : LeafTask) (usage : List ModelUsage) (leaf : Leaf)
    → Starts s task usage leaf
    → works_on leaf ≡ task.id
worked s task usage (landed r) h = h
worked s task usage (flying call) h = ap (λ t. t.id) h.0

-- The leaf after one more outcome of the executor.
abbrev pub advance :
    (String → Number) → ExecutionLimits → Option String → String → Shared → Outcome → Leaf → Leaf
advance date_parse limits stop now s outcome (landed r) = landed r
advance date_parse limits stop now s outcome (flying call) =
    (finish_attempt date_parse limits stop now s call outcome).1

late_landed :
    (s : Shared) (call : Call) (leaf : Leaf)
    → 2 ≤ call.attempt
    → Follows s call leaf
    → has_landed leaf ≡ true
late_landed s call (landed r) late h = refl
late_landed s call (flying next) late h = absurd (omega (arith, h.was_first))

module _ (date_parse : String → Number) (limits : ExecutionLimits) where
  begin_attempt-counts :
      (stop : Option String) (now : String) (s : Shared) (task : LeafTask) (usage : List ModelUsage)
      (started : Option String) (retry : Option Retry)
      → 1 ≤ tries (begin_attempt date_parse limits stop now s task usage started retry).0 task.id
  unfolding begin_attempt
  begin_attempt-counts (some reason) now s task usage started retry =
      ground (arith, lookup-insert_self task.id (tries s task.id + 1) s.attempts)
  begin_attempt-counts none now s task usage started retry =
      let count = lookup-insert_self task.id (tries s task.id + 1) s.attempts in
      elim (Option-cases (reserve_for date_parse limits task s.sol_task_ids)) [
        | inl gone ↦ rw (gone, admitted) (ground (arith, count))
        | inr (ids, e) ↦ rw (e, admitted) (ground (arith, count))
      ]

  -- The start of a leaf counts an attempt, and what flies is the task itself.
  abbrev HasStarted : LeafTask → Shared × Leaf → Type 0
  HasStarted task (s, leaf) = (1 ≤ tries s task.id) × (works_on leaf ≡ task.id)

  begin_attempt-HasStarted :
      (stop : Option String) (now : String) (s : Shared) (task : LeafTask) (usage : List ModelUsage)
      (started : Option String) (retry : Option Retry)
      → HasStarted task (begin_attempt date_parse limits stop now s task usage started retry)
  begin_attempt-HasStarted stop now s task usage started retry = (
    begin_attempt-counts stop now s task usage started retry,
    worked s task usage _
        (begin_attempt-Starts date_parse limits stop now s task usage started retry),
  )

  run_leaf-HasStarted :
      (stop : Option String) (now : String) (s : Shared) (task : LeafTask)
      → HasStarted task (run_leaf date_parse limits stop now s task)
  unfolding run_leaf
  run_leaf-HasStarted stop now s task = elim (Option-cases (lookup task.id s.waiting_results)) [
    | inl gone ↦ rw (gone, run_leaf) (begin_attempt-HasStarted stop now s task [] none none)
    | inr (w, e) ↦
        rw (e, run_leaf) (begin_attempt-HasStarted stop now s task w.usage w.started_at none)
  ]

  second_lands :
      (s : Shared) (first : Call) (leaf : Leaf)
      → Follows s first leaf
      → 1 ≤ tries s first.task.id
      → (stop : Option String) (now : String) (later : Shared) (outcome : Outcome)
      → has_landed (advance date_parse limits stop now later outcome leaf) ≡ true
  second_lands s first (landed r) h tried stop now later outcome = refl
  second_lands s first (flying next) h tried stop now later outcome =
      late_landed later next _ (omega (arith, h.counted_once))
        (finish_attempt-Follows date_parse limits stop now later next outcome)

  first_lands :
      (s1 s2 : Shared) (task : LeafTask) (leaf : Leaf)
      → works_on leaf ≡ task.id
      → 1 ≤ tries s1 task.id
      → (stop1 stop2 : Option String) (now1 now2 : String) (outcome1 outcome2 : Outcome)
      → has_landed (
          advance date_parse limits stop2 now2 s2 outcome2
            (advance date_parse limits stop1 now1 s1 outcome1 leaf))
        ≡ true
  first_lands s1 s2 task (landed r) same tried stop1 stop2 now1 now2 outcome1 outcome2 = refl
  first_lands s1 s2 task (flying call) same tried stop1 stop2 now1 now2 outcome1 outcome2 =
      second_lands s1 call _ (finish_attempt-Follows date_parse limits stop1 now1 s1 call outcome1)
        (subst (λ id. 1 ≤ tries s1 id) (sym same) tried) stop2 now2 s2 outcome2

  -- A leaf has its result after at most two outcomes of the executor, whatever the outcomes are,
  -- whether the run is aborted before or in between (`stop`), and whatever other leaves do in
  -- between to the shared state (`s1`, `s2`), except to the count of this leaf's own attempts.
  pub two_attempts_land :
      (stop stop1 stop2 : Option String) (now now1 now2 : String) (s s1 s2 : Shared)
      (task : LeafTask) (outcome1 outcome2 : Outcome)
      → tries s1 task.id ≡ tries (run_leaf date_parse limits stop now s task).0 task.id
      → has_landed (
          advance date_parse limits stop2 now2 s2 outcome2 (
            advance date_parse limits stop1 now1 s1 outcome1
              (run_leaf date_parse limits stop now s task).1))
        ≡ true
  two_attempts_land stop stop1 stop2 now now1 now2 s s1 s2 task outcome1 outcome2 kept =
      let started = run_leaf-HasStarted stop now s task in
      first_lands s1 s2 task _ started.1 (omega (arith, kept, started.0)) stop1 stop2 now1 now2
        outcome1 outcome2
