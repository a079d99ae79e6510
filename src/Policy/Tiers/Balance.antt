-- ===== src/Policy/Tiers/Balance.antt =====
-- src/core/policy.ts: what rebalancing a plan keeps and guarantees.
use codex_mission_ledger.Prelude.{
  ℕ, suc, ◌+◌, ◌≡◌, ◌≤◌, refl, subst, Bool, true, not, ◌&&◌, Option, none, some, List, [], ◌∷◌,
  arith,
}
use codex_mission_ledger.Prelude.Tests.{if◌then◌else◌, leb}
use codex_mission_ledger.Prelude.Numbers.{Number}
use codex_mission_ledger.Contracts.{
  ModelTier, is_terra, LeafTask, ExecutionPlan, OptimizationProfile, balanced, quality,
}
use codex_mission_ledger.Policy.Limits.{Result, ok, err, ◌>>=◌}
use codex_mission_ledger.Policy.Tiers.Choice.{
  recommend_effective_tier, with_effective_tier, IsRetiered, with_effective_tier-IsRetiered,
}
use codex_mission_ledger.Policy.Tiers.Rebalance.{
  has_terra_floor, retier_each, automatic_terra, index_is, balanced_tier, retier_balanced,
  wants_terra_merge, retier, rebalance_execution_plan_for_profile, AllRetiered, free_terra,
}

-- The lists that a successful run can have made.
abbrev Made : (List LeafTask → Type 0) → Result (List LeafTask) → Type 0
Made P (ok next) = P next
Made P (err c) = Unit

cons-Made :
    (task : LeafTask) (tier : ModelTier) (tasks : List LeafTask) (tail : Result (List LeafTask))
    → Made (AllRetiered tasks) tail
    → Made
        (AllRetiered (task ∷ tasks))
        (with_effective_tier task tier >>= λ n. tail >>= λ ns. ok (n ∷ ns))
cons-Made task tier tasks tail h = go (with_effective_tier task tier) refl tail h
  where
    go :
        (r : Result LeafTask)
        → with_effective_tier task tier ≡ r
        → (rest : Result (List LeafTask)) → Made (AllRetiered tasks) rest
        → Made (AllRetiered (task ∷ tasks)) (r >>= λ n. rest >>= λ ns. ok (n ∷ ns))
    go (err c) e rest h = tt
    go (ok n) e (err c) h = tt
    go (ok n) e (ok ns) h = ((tier, with_effective_tier-IsRetiered task tier n e), h)

retier_each-AllRetiered : (tasks : List LeafTask) → Made (AllRetiered tasks) (retier_each tasks)
unfolding retier_each
retier_each-AllRetiered [] = tt
retier_each-AllRetiered (task ∷ tasks) =
    cons-Made task (recommend_effective_tier task) tasks (retier_each tasks)
      (retier_each-AllRetiered tasks)

module _ (integration : Bool) (automatic : Option (ℕ × Number)) where
  retier_balanced-AllRetiered :
      (i : ℕ) (tasks : List LeafTask)
      → Made (AllRetiered tasks) (retier_balanced integration automatic i tasks)
  unfolding retier_balanced
  retier_balanced-AllRetiered i [] = tt
  retier_balanced-AllRetiered i (task ∷ tasks) =
      cons-Made task (balanced_tier integration automatic i task) tasks
        (retier_balanced integration automatic (suc i) tasks)
        (retier_balanced-AllRetiered (suc i) tasks)

-- The leaves from place `i` on that may get Terra automatically: one, if its place is not behind.
abbrev allowance : Option (ℕ × Number) → ℕ → ℕ
allowance none i = 0
allowance (some (j, score)) i = if leb i j then 1 else 0

abbrev AtMost : ℕ → List LeafTask → Type 0
AtMost n next = free_terra next ≤ n

allowance_step :
    (automatic : Option (ℕ × Number)) (i : ℕ) (free : Bool) (n : ℕ)
    → (free ≡ true → index_is automatic i ≡ true)
    → n ≤ allowance automatic (suc i)
    → (if free then 1 else 0) + n ≤ allowance automatic i
allowance_step none i free n h p = ground arith
allowance_step (some (j, score)) i free n h p = ground arith

module _ (integration : Bool) (automatic : Option (ℕ × Number)) where
  balanced_tier-free :
      (i : ℕ) (task n : LeafTask)
      → IsRetiered task (balanced_tier integration automatic i task) n
      → (is_terra n.tier && not (has_terra_floor n)) ≡ true
      → index_is automatic i ≡ true
  balanced_tier-free i task n r free =
      let moved : (is_terra (balanced_tier integration automatic i task)
            && not (has_terra_floor task))
          ≡ true =
        rw (r.tier_set, r.same_floor) at free in
      ground arith

  cons-AtMost :
      (i : ℕ) (task : LeafTask) (tail : Result (List LeafTask))
      → Made (AtMost (allowance automatic (suc i))) tail
      → Made (AtMost (allowance automatic i)) (
          with_effective_tier task (balanced_tier integration automatic i task) >>= λ n.
          tail >>= λ ns. ok (n ∷ ns))
  cons-AtMost i task tail h =
      go (with_effective_tier task (balanced_tier integration automatic i task)) refl tail h
    where
      go :
          (r : Result LeafTask)
          → with_effective_tier task (balanced_tier integration automatic i task) ≡ r
          → (rest : Result (List LeafTask)) → Made (AtMost (allowance automatic (suc i))) rest
          → Made (AtMost (allowance automatic i)) (r >>= λ n. rest >>= λ ns. ok (n ∷ ns))
      go (err c) e rest h = tt
      go (ok n) e (err c) h = tt
      go (ok n) e (ok ns) h =
          allowance_step automatic i (is_terra n.tier && not (has_terra_floor n)) (free_terra ns)
            (balanced_tier-free i task n (with_effective_tier-IsRetiered task _ n e)) h

  retier_balanced-AtMost :
      (i : ℕ) (tasks : List LeafTask)
      → Made (AtMost (allowance automatic i)) (retier_balanced integration automatic i tasks)
  unfolding retier_balanced
  retier_balanced-AtMost i [] = omega arith
  retier_balanced-AtMost i (task ∷ tasks) =
      cons-AtMost i task (retier_balanced integration automatic (suc i) tasks)
        (retier_balanced-AtMost (suc i) tasks)

allowance-le-one : (automatic : Option (ℕ × Number)) (i : ℕ) → allowance automatic i ≤ 1
allowance-le-one none i = omega arith
allowance-le-one (some (j, score)) i = ground arith

retier-AllRetiered :
    (profile : OptimizationProfile) (integration : Bool) (tasks : List LeafTask)
    → Made (AllRetiered tasks) (retier profile integration tasks)
retier-AllRetiered quality integration tasks = retier_each-AllRetiered tasks
retier-AllRetiered balanced integration tasks = retier_balanced-AllRetiered integration _ 0 tasks

rebalance-inv :
    (plan next : ExecutionPlan) (profile : OptimizationProfile)
    → rebalance_execution_plan_for_profile plan profile ≡ ok next
    → retier profile (wants_terra_merge plan.integration.aggregation) plan.tasks ≡ ok next.tasks
unfolding rebalance_execution_plan_for_profile
rebalance-inv plan next profile e =
    go (retier profile (wants_terra_merge plan.integration.aggregation) plan.tasks) e
  where
    go :
        (r : Result (List LeafTask))
        → (r >>= λ tasks. ok (record plan { tasks = tasks })) ≡ ok next
        → r ≡ ok next.tasks
    go (ok tasks) e = ground arith
    go (err c) e = absurd (cc)

-- Rebalancing keeps the leaves of a plan in order, each with its id, dependencies, floor, access
-- and paths, and gives each an effort that its new tier supports.
pub rebalance_execution_plan_for_profile-AllRetiered :
    (plan next : ExecutionPlan) (profile : OptimizationProfile)
    → rebalance_execution_plan_for_profile plan profile ≡ ok next
    → AllRetiered plan.tasks next.tasks
rebalance_execution_plan_for_profile-AllRetiered plan next profile e =
    subst (Made (AllRetiered plan.tasks)) (rebalance-inv plan next profile e)
      (retier-AllRetiered profile (wants_terra_merge plan.integration.aggregation) plan.tasks)

-- With the balanced profile at most one leaf runs on Terra without a floor that asks for it.
pub rebalance_balanced-free_terra :
    (plan next : ExecutionPlan)
    → rebalance_execution_plan_for_profile plan balanced ≡ ok next
    → free_terra next.tasks ≤ 1
rebalance_balanced-free_terra plan next e =
    subst (Made (AtMost 1)) (rebalance-inv plan next balanced e) (
      weaken (retier_balanced integration automatic 0 plan.tasks)
        (retier_balanced-AtMost integration automatic 0 plan.tasks))
  where
    integration : Bool
    integration = wants_terra_merge plan.integration.aggregation

    automatic : Option (ℕ × Number)
    automatic = if integration then none else automatic_terra integration 0 plan.tasks none

    weaken :
        (r : Result (List LeafTask)) → Made (AtMost (allowance automatic 0)) r → Made (AtMost 1) r
    weaken (ok next) h = omega (arith, allowance-le-one automatic 0)
    weaken (err c) h = tt
