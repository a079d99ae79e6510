-- ===== src/Policy/Tiers/Rebalance.antt =====
-- src/core/policy.ts: the tiers of a whole plan.
use codex_mission_ledger.Prelude.{
  ℕ, suc, ◌+◌, Bool, true, false, not, ◌&&◌, Option, none, some, List, [], ◌∷◌,
}
use codex_mission_ledger.Prelude.Tests.{if◌then◌else◌, nat_eq}
use codex_mission_ledger.Prelude.Numbers.{Number, num_lt}
use codex_mission_ledger.Contracts.{
  ModelTier, luna, terra, is_terra, LeafTask, ExecutionPlan, AggregationMode, OptimizationProfile,
  balanced, quality,
}
use codex_mission_ledger.Policy.Limits.{Result, ok, ◌>>=◌}
use codex_mission_ledger.Policy.Tiers.Choice.{
  recommend_effective_tier, balanced_tier_candidate, balanced_terra_priority, with_effective_tier,
  IsRetiered,
}

-- `task.minTier === "terra"`
abbrev pub has_terra_floor : LeafTask → Bool
has_terra_floor task = elim task.min_tier [ some terra ↦ true | _ ↦ false ]

-- The profile "quality": each leaf by itself.
unfoldable pub retier_each : List LeafTask → Result (List LeafTask)
retier_each [] = ok []
retier_each (task ∷ tasks) = do
  next ← with_effective_tier task (recommend_effective_tier task)
  rest ← retier_each tasks
  ok (next ∷ rest)

-- The leaf that may get Terra without a floor: the one of the highest priority, and of those the
-- first, as the sort by score and then by index puts it.
abbrev better : Option (ℕ × Number) → ℕ → Number → Option (ℕ × Number)
better none i score = some (i, score)
better (some (j, best)) i score = if num_lt best score then some (i, score) else some (j, best)

unfoldable pub automatic_terra :
    Bool → ℕ → List LeafTask → Option (ℕ × Number) → Option (ℕ × Number)
automatic_terra integration i [] best = best
automatic_terra integration i (task ∷ tasks) best = automatic_terra integration (suc i) tasks (
    if is_terra (balanced_tier_candidate task integration) && not (has_terra_floor task)
    then better best i (balanced_terra_priority task)
    else best)

abbrev pub index_is : Option (ℕ × Number) → ℕ → Bool
index_is none i = false
index_is (some (j, score)) i = nat_eq i j

-- `proposed`, or Luna for a leaf that gets Terra neither by its floor nor automatically.
abbrev pub balanced_tier : Bool → Option (ℕ × Number) → ℕ → LeafTask → ModelTier
balanced_tier integration automatic i task =
    let proposed = balanced_tier_candidate task integration in
    if is_terra proposed && not (has_terra_floor task) && not (index_is automatic i)
    then luna
    else proposed

unfoldable pub retier_balanced :
    Bool → Option (ℕ × Number) → ℕ → List LeafTask → Result (List LeafTask)
retier_balanced integration automatic i [] = ok []
retier_balanced integration automatic i (task ∷ tasks) = do
  next ← with_effective_tier task (balanced_tier integration automatic i task)
  rest ← retier_balanced integration automatic (suc i) tasks
  ok (next ∷ rest)

abbrev pub wants_terra_merge : Option AggregationMode → Bool
wants_terra_merge (some AggregationMode.terra) = true
wants_terra_merge _ = false

abbrev pub retier : OptimizationProfile → Bool → List LeafTask → Result (List LeafTask)
retier quality integration tasks = retier_each tasks
retier balanced integration tasks =
    retier_balanced integration
      (if integration then none else automatic_terra integration 0 tasks none) 0 tasks

-- `rebalanceExecutionPlanForProfile`
unfoldable pub rebalance_execution_plan_for_profile :
    ExecutionPlan → OptimizationProfile → Result ExecutionPlan
unfolding retier_each automatic_terra retier_balanced
rebalance_execution_plan_for_profile plan profile = do
  tasks ← retier profile (wants_terra_merge plan.integration.aggregation) plan.tasks
  ok (record plan { tasks = tasks })

-- Task by task, the second list is the first with other tiers and efforts.
abbrev pub AllRetiered : List LeafTask → List LeafTask → Type 0
AllRetiered [] [] = Unit
AllRetiered (t ∷ ts) (u ∷ us) = ((tier : ModelTier) × IsRetiered t tier u) × AllRetiered ts us
AllRetiered _ _ = ⊥

-- How many leaves run on Terra without a floor that asks for it.
abbrev pub free_terra : List LeafTask → ℕ
free_terra [] = 0
free_terra (t ∷ ts) = (if is_terra t.tier && not (has_terra_floor t) then 1 else 0) + free_terra ts
