-- ===== src/Policy/Tiers/Tests.antt =====
-- Tiers and efforts of concrete leaves, and the theorems about tiers at them.
use codex_mission_ledger.Prelude.{◌≤◌, ◌≡◌, ◌↔◌, refl, true, false, none, some, [], ◌∷◌, arith}
use codex_mission_ledger.Prelude.Numbers.{pos}
use codex_mission_ledger.Contracts.{
  LeafTask, ExecutionPlan, ModelTier, luna, terra, sol, ReasoningEffort, TaskAccess, balanced,
}
use codex_mission_ledger.Contracts.Samples.{task, plan}
use codex_mission_ledger.Policy.Limits.{ok}
use codex_mission_ledger.Policy.Words.{has_word, has_phrase}
use codex_mission_ledger.Policy.Tiers.{
  TierInput, recommend_tier, recommend_effort, assert_tier_assignment, tier_supports_effort,
  tier_rank,
}
use codex_mission_ledger.Policy.Tiers.Choice.{
  recommend_effective_tier, balanced_tier_candidate, balanced_terra_priority, effective_effort,
  with_effective_tier,
}
use codex_mission_ledger.Policy.Tiers.Rebalance.{
  rebalance_execution_plan_for_profile, AllRetiered, free_terra,
}
use codex_mission_ledger.Policy.Tiers.Laws.{
  recommend_effort_supported, assert_tier_assignment_iff, recommend_tier_mono,
}
use codex_mission_ledger.Policy.Tiers.Balance.{
  rebalance_execution_plan_for_profile-AllRetiered, rebalance_balanced-free_terra,
}

abbrev easy : TierInput
easy = record {
  difficulty = pos 200000;
  ambiguity = pos 100000;
  critical = false;
  owned_path_count = 1;
}

abbrev risky : TierInput
risky = record easy { difficulty = pos 700000; critical = true }

abbrev writer : LeafTask
writer = record (task "a" []) { access = TaskAccess.workspace_write; difficulty = pos 750000 }

abbrev two_writers : ExecutionPlan
two_writers = plan (writer ∷ record writer { id = "b"; difficulty = pos 800000 } ∷ [])

-- The second writer is the harder one and gets Terra.
abbrev balanced_plan : ExecutionPlan
balanced_plan = plan (
    writer
    ∷ record writer {
      id = "b";
      difficulty = pos 800000;
      tier = terra;
      effort = ReasoningEffort.high;
    }
    ∷ [])

program : Unit {0}
unfolding recommend_effective_tier rebalance_execution_plan_for_profile balanced_tier_candidate
    balanced_terra_priority with_effective_tier effective_effort recommend_effort recommend_tier
    has_word has_phrase
program = tt

recommend_effort_supported_example : tier_supports_effort luna ReasoningEffort.low ≡ true
unfolding program
recommend_effort_supported_example =
    recommend_effort_supported luna (pos 200000) (pos 100000) ReasoningEffort.low refl

assert_tier_assignment_iff_example : (assert_tier_assignment terra risky ≡ ok tt) ↔ (
    (tier_rank sol ≤ tier_rank terra)
    × (◌≡◌ {A = ModelTier} terra sol → ◌≡◌ {A = ModelTier} sol sol))
unfolding program
assert_tier_assignment_iff_example = assert_tier_assignment_iff terra sol risky refl

recommend_tier_mono_example : tier_rank luna ≤ tier_rank sol
unfolding program
recommend_tier_mono_example =
    recommend_tier_mono easy risky luna sol refl refl refl refl (λ h. refl) (omega arith)

rebalance_execution_plan_for_profile-AllRetiered_example :
    AllRetiered two_writers.tasks balanced_plan.tasks
unfolding program
rebalance_execution_plan_for_profile-AllRetiered_example =
    rebalance_execution_plan_for_profile-AllRetiered two_writers balanced_plan balanced refl

rebalance_balanced-free_terra_example : free_terra balanced_plan.tasks ≤ 1
unfolding program
rebalance_balanced-free_terra_example = rebalance_balanced-free_terra two_writers balanced_plan refl

-- A floor of Terra takes the place of the recommended tier, also where this is Sol.
without_floor :
    recommend_effective_tier (record writer { difficulty = pos 900000; min_tier = none }) ≡ sol
unfolding program
without_floor = refl

with_floor :
    recommend_effective_tier (record writer { difficulty = pos 900000; min_tier = some terra })
    ≡ terra
unfolding program
with_floor = refl
