-- ===== src/Scheduler/Escalation/Retries.antt =====
-- src/core/scheduler.ts: what an attempt starts, and how the next one differs from it.
use mathlib.Core.Option.{get_or}
use codex_mission_ledger.Prelude.{
  ℕ, ◌+◌, ◌≤◌, ◌≡◌, refl, String, Option, none, some, List, ap, ◌∙◌, arith,
}
use codex_mission_ledger.Prelude.Maps.{lookup}
use codex_mission_ledger.Contracts.{LeafTask, LeafResult, terra, ModelUsage}
use codex_mission_ledger.Policy.Tiers.{tier_rank}
use codex_mission_ledger.Scheduler.Results.{
  failed_result, cancelled_result, interrupted_result, mismatched_task_result,
}
use codex_mission_ledger.Scheduler.Escalation.{
  Shared, Call, Leaf, flying, landed, RepairKind, reserve_sol_task, upgrade_task, to_sol,
}

-- The attempts that are counted for a task.
abbrev pub tries : Shared → String → ℕ
tries s id = get_or (lookup id s.attempts) 0

-- What an attempt starts: the task itself, with one more attempt on the count.
abbrev pub Starts : Shared → LeafTask → List ModelUsage → Leaf → Type 0
Starts s task usage (landed r) = r.task_id ≡ task.id
Starts s task usage (flying call) =
    (call.task ≡ task) × (call.attempt ≡ tries s task.id + 1) × (call.prior_usage ≡ usage)

pub interrupted_result-id :
    (task : LeafTask) (reason now : String) → (interrupted_result task reason now).task_id ≡ task.id
unfolding interrupted_result cancelled_result failed_result
interrupted_result-id task reason now = ground arith

pub mismatched_task_result-id :
    (task : LeafTask) (r : LeafResult) (now : String)
    → (mismatched_task_result task r now).task_id ≡ task.id
unfolding mismatched_task_result failed_result
mismatched_task_result-id task r now = ground arith

-- What an upgrade of a task is: the same work with the same access, one tier higher.
abbrev pub IsUpgrade : LeafTask → Option (LeafTask × List String) → Type 0
IsUpgrade task none = Unit
IsUpgrade task (some (next, ids)) =
    (next.id ≡ task.id)
    × (next.access ≡ task.access)
    × (tier_rank next.tier ≡ tier_rank task.tier + 1)

to_sol-IsUpgrade :
    (task : LeafTask) (o : Option (List String))
    → task.tier ≡ terra
    → IsUpgrade task (to_sol task o)
to_sol-IsUpgrade task none h = tt
to_sol-IsUpgrade task (some ids) h = (refl, refl, ground arith)

pub upgrade_task-IsUpgrade :
    (task : LeafTask) (ids : List String) (most : ℕ) (kind : RepairKind)
    → IsUpgrade task (upgrade_task task ids most kind)
unfolding upgrade_task
upgrade_task-IsUpgrade task ids most kind =
    ground (arith, to_sol-IsUpgrade task (reserve_sol_task task.id ids most))

-- How the next attempt of a leaf differs from the one before.
pub record IsRetry (s : Shared) (call next : Call) : Type 0 where
  pub same_id : next.task.id ≡ call.task.id
  pub same_access : next.task.access ≡ call.task.access
  pub one_tier_up : tier_rank next.task.tier ≡ tier_rank call.task.tier + 1
  pub counted_once : next.attempt ≡ tries s call.task.id + 1
  pub was_first : call.attempt ≤ 1

abbrev pub Follows : Shared → Call → Leaf → Type 0
Follows s call (landed r) = r.task_id ≡ call.task.id
Follows s call (flying next) = IsRetry s call next

pub Follows-start :
    (s : Shared) (ids : List String) (call : Call) (next : LeafTask) (usage : List ModelUsage)
    (leaf : Leaf)
    → call.attempt ≤ 1
    → IsUpgrade call.task (some (next, ids))
    → Starts (record s { sol_task_ids = ids }) next usage leaf
    → Follows s call leaf
Follows-start s ids call next usage (landed r) first up h = ground arith
Follows-start s ids call next usage (flying new) first up h = record {
  same_id = ap (λ t. t.id) h.0 ∙ up.0;
  same_access = ap (λ t. t.access) h.0 ∙ up.1;
  one_tier_up = ap (λ t. tier_rank t.tier) h.0 ∙ up.2;
  counted_once = h.1 ∙ ap (λ id. tries s id + 1) up.0;
  was_first = first;
}
