-- ===== src/Scheduler/Escalation/Bounds.antt =====
-- src/core/scheduler.ts: the Sol budget, and how often a leaf is tried.
use codex_mission_ledger.Prelude.{
  ℕ, ◌≤◌, ◌≡◌, String, true, Option, none, some, List, [], ◌∷◌, ◌++◌, inl, inr, subst, not, arith,
  eq_refl, ◌==◌,
}
use codex_mission_ledger.Prelude.Tests.{Option-cases, Bool-cases, if-keeps}
use codex_mission_ledger.Prelude.Lists.{includes, length, includes-append, length-append}
use codex_mission_ledger.Prelude.Maps.{lookup}
use codex_mission_ledger.Prelude.Numbers.{Number}
use codex_mission_ledger.Contracts.{
  FailureKind, is_kind, LeafTask, LeafResult, is_sol, ModelUsage, ExecutionLimits,
}
use codex_mission_ledger.Scheduler.Escalation.{
  Shared, Call, Leaf, flying, landed, Outcome, RepairKind, Retry, reserve_sol_task, upgrade_task,
  to_sol, can_afford_escalation, judge, needs_revalidation, is_final, retry_kind, counted, admitted,
  begin_attempt, run_leaf, received, escalate, finish_attempt,
}

abbrev pub HoldsPlace : Shared → Leaf → Type 0
HoldsPlace s (flying call) =
    is_sol call.task.tier ≡ true → includes s.sol_task_ids call.task.id ≡ true
HoldsPlace s (landed r) = Unit

includes-snoc : (ids : List String) (id : String) → includes (ids ++ id ∷ []) id ≡ true
includes-snoc ids id = ground (arith, includes-append ids (id ∷ []) id, eq_refl id)

pub reserve_sol_task-within :
    (id : String) (ids next : List String) (most : ℕ)
    → length ids ≤ most
    → reserve_sol_task id ids most ≡ some next
    → (length next ≤ most) × (includes next id ≡ true)
unfolding reserve_sol_task
reserve_sol_task-within id ids next most h e =
    ground (arith, includes-snoc ids id, length-append ids (id ∷ []))

-- What a reservation or an upgrade leaves, if it succeeds.
abbrev FitsTask : ℕ → Option (LeafTask × List String) → Type 0
FitsTask most none = Unit
FitsTask most (some (next, reserved)) =
    (length reserved ≤ most) × (is_sol next.tier ≡ true → includes reserved next.id ≡ true)

to_sol-FitsTask :
    (task : LeafTask) (ids : List String) (most : ℕ)
    → length ids ≤ most
    → FitsTask most (to_sol task (reserve_sol_task task.id ids most))
to_sol-FitsTask task ids most h = elim (Option-cases (reserve_sol_task task.id ids most)) [
  | inl gone ↦ rw gone tt
  | inr (r, e) ↦ let w = reserve_sol_task-within task.id ids r most h e in rw e (w.0, λ on_sol. w.1)
]

upgrade_task-FitsTask :
    (task : LeafTask) (ids : List String) (most : ℕ) (kind : RepairKind)
    → length ids ≤ most
    → FitsTask most (upgrade_task task ids most kind)
unfolding upgrade_task
upgrade_task-FitsTask task ids most kind h = ground (arith, to_sol-FitsTask task ids most h)

-- The Sol budget is kept, and a leaf that flies on Sol holds a place in it.
pub record IsWithinSol (limits : ExecutionLimits) (r : Shared × Leaf) : Type 0 where
  pub capped : length r.0.sol_task_ids ≤ limits.max_sol_leaves
  pub placed : HoldsPlace r.0 r.1

keeps :
    {limits : ExecutionLimits} {s : Shared} {r : LeafResult}
    → length s.sol_task_ids ≤ limits.max_sol_leaves
    → IsWithinSol limits (s, landed r)
keeps h = record { capped = h; placed = tt }

module _ (date_parse : String → Number) (limits : ExecutionLimits) where
  module _ (now : String) (s : Shared) (task : LeafTask) (usage : List ModelUsage)
      (started : Option String) (retry : Option Retry)
      (fits : length s.sol_task_ids ≤ limits.max_sol_leaves) where
    admitted-IsWithinSol :
        IsWithinSol limits (admitted date_parse limits now s task usage started retry)
    admitted-IsWithinSol = elim (Bool-cases (is_sol task.tier)) [
      | inl on_sol ↦
          elim (Option-cases (reserve_sol_task task.id s.sol_task_ids limits.max_sol_leaves)) [
            | inl gone ↦ rw (on_sol, gone, admitted) (keeps fits)
            | inr (r, e) ↦
                let w =
                  reserve_sol_task-within task.id s.sol_task_ids r limits.max_sol_leaves fits e in
                rw (on_sol, e, admitted) (record { capped = w.0; placed = λ h. w.1 })
          ]
      | inr other ↦ rw (other, admitted) (record { capped = fits; placed = λ h. absurd cc })
    ]

  pub begin_attempt-IsWithinSol :
      (stop : Option String) (now : String) (s : Shared) (task : LeafTask) (usage : List ModelUsage)
      (started : Option String) (retry : Option Retry)
      → length s.sol_task_ids ≤ limits.max_sol_leaves
      → IsWithinSol limits (begin_attempt date_parse limits stop now s task usage started retry)
  unfolding begin_attempt
  begin_attempt-IsWithinSol none now s task usage started retry fits =
      admitted-IsWithinSol now (counted date_parse limits s task) task usage started retry fits
  begin_attempt-IsWithinSol (some reason) now s task usage started retry fits = keeps fits

  module _ (stop : Option String) (now : String) (s : Shared)
      (fits : length s.sol_task_ids ≤ limits.max_sol_leaves) where
    -- The start of a leaf keeps the Sol budget, and a leaf that starts on Sol holds a place in it.
    pub run_leaf-IsWithinSol :
        (task : LeafTask) → IsWithinSol limits (run_leaf date_parse limits stop now s task)
    unfolding run_leaf
    run_leaf-IsWithinSol task = elim (Option-cases (lookup task.id s.waiting_results)) [
      | inl gone ↦ rw (gone, run_leaf) (begin_attempt-IsWithinSol stop now s task [] none none fits)
      | inr (w, e) ↦
          rw (e, run_leaf)
            (begin_attempt-IsWithinSol stop now s task w.usage w.started_at none fits)
    ]

    escalate-IsWithinSol :
        (call : Call) (result : LeafResult) (up retry : RepairKind)
        → IsWithinSol limits (escalate date_parse limits stop now s call result up retry)
    escalate-IsWithinSol call result up retry =
        elim (Bool-cases (can_afford_escalation call.task result limits)) [
          | inr poor ↦ rw poor (keeps fits)
          | inl rich ↦
              elim (Option-cases (upgrade_task call.task s.sol_task_ids limits.max_sol_leaves up)) [
                | inl gone ↦ rw (rich, gone) (keeps fits)
                | inr ((next, reserved), e) ↦
                    rw (rich, e)
                      (begin_attempt-IsWithinSol stop now (record s { sol_task_ids = reserved })
                        next result.usage result.started_at
                        (some (record { kind = retry; previous_result = result }))
                        (subst (FitsTask limits.max_sol_leaves) e (
                          upgrade_task-FitsTask call.task s.sol_task_ids limits.max_sol_leaves up
                            fits)).0)
              ]
        ]

    judge-IsWithinSol :
        (call : Call) (result : LeafResult)
        → IsWithinSol limits (judge date_parse limits stop now s call result)
    judge-IsWithinSol call result =
        if-keeps (IsWithinSol limits) (needs_revalidation call result)
          (escalate-IsWithinSol call result RepairKind.validation RepairKind.validation)
          (if-keeps (IsWithinSol limits) (is_final call result) (keeps fits)
            (escalate-IsWithinSol call result RepairKind.reasoning (retry_kind call result)))

    -- The end of an attempt keeps the Sol budget: a retry on Sol has a place in it.
    pub finish_attempt-IsWithinSol :
        (call : Call) (outcome : Outcome)
        → IsWithinSol limits (finish_attempt date_parse limits stop now s call outcome)
    unfolding finish_attempt
    finish_attempt-IsWithinSol call outcome =
        let result = received date_parse limits call now outcome in
        if-keeps (IsWithinSol limits) (not (result.task_id == call.task.id)) (keeps fits) (
          if-keeps (IsWithinSol limits) (is_kind FailureKind.transient result.failure_kind)
            (keeps fits) (judge-IsWithinSol call result))
