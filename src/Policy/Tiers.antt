-- ===== src/Policy/Tiers.antt =====
-- src/core/policy.ts: which model and which effort a leaf gets.
pub mod Choice
pub mod Laws
pub mod Rebalance
pub mod Balance
mod Tests
use codex_mission_ledger.Prelude.{
  ℕ, String, Bool, true, false, not, ◌&&◌, ◌||◌, Option, none, some, List, [], ◌∷◌,
}
use codex_mission_ledger.Prelude.Tests.{if◌then◌else◌, leb}
use codex_mission_ledger.Prelude.Numbers.{Number, pos, is_finite, num_lt, num_le, num_max}
use codex_mission_ledger.Contracts.{ModelTier, ReasoningEffort, luna, terra, sol, is_sol}
use codex_mission_ledger.Policy.Limits.{Result, ok, err, PolicyError, ◌>>=◌, ◌>>◌, guard}

-- `ALLOWED_EFFORTS_BY_TIER[tier].includes(effort)`
unfoldable pub tier_supports_effort : ModelTier → ReasoningEffort → Bool
tier_supports_effort luna ReasoningEffort.low = true
tier_supports_effort luna ReasoningEffort.medium = true
tier_supports_effort terra ReasoningEffort.medium = true
tier_supports_effort terra ReasoningEffort.high = true
tier_supports_effort sol ReasoningEffort.high = true
tier_supports_effort sol ReasoningEffort.xhigh = true
tier_supports_effort _ _ = false

-- `assertTierEffort`
unfoldable pub assert_tier_effort : ModelTier → ReasoningEffort → Result (Unit {0})
assert_tier_effort tier effort =
    guard (tier_supports_effort tier effort) PolicyError.invalid_tier_effort

-- `assertUnitScore`
abbrev pub assert_unit_score : Number → Result (Unit {0})
assert_unit_score value =
    guard (is_finite value && not (num_lt value (pos 0)) && not (num_lt (pos 1000000) value))
      PolicyError.invalid_score

-- `TierRecommendationInput`, with its defaults filled in.
pub record TierInput : Type 0 where
  pub difficulty : Number
  pub ambiguity : Number
  pub critical : Bool
  pub owned_path_count : ℕ

-- The two tests of `recommendTier`.
abbrev pub tier_for : Number → Number → Bool → ℕ → ModelTier
tier_for difficulty ambiguity critical owned_path_count =
    if num_le (pos 850000) difficulty
      || num_le (pos 800000) ambiguity
      || (critical && (num_le (pos 700000) difficulty || num_le (pos 650000) ambiguity))
    then sol
    else if critical
        || num_le (pos 400000) difficulty
        || num_le (pos 350000) ambiguity
        || (leb 4 owned_path_count && num_le (pos 300000) difficulty)
    then terra
    else luna

-- `recommendTier`
unfoldable pub recommend_tier : TierInput → Result ModelTier
recommend_tier input = do
  assert_unit_score input.difficulty
  assert_unit_score input.ambiguity
  ok (tier_for input.difficulty input.ambiguity input.critical input.owned_path_count)

abbrev pub effort_for : ModelTier → Number → ReasoningEffort
effort_for luna complexity =
    if num_lt complexity (pos 250000) then ReasoningEffort.low else ReasoningEffort.medium
effort_for terra complexity =
    if num_lt complexity (pos 650000) then ReasoningEffort.medium else ReasoningEffort.high
effort_for sol complexity =
    if num_lt complexity (pos 900000) then ReasoningEffort.high else ReasoningEffort.xhigh

-- `recommendEffort`
unfoldable pub recommend_effort : ModelTier → Number → Number → Result ReasoningEffort
recommend_effort tier difficulty ambiguity = do
  assert_unit_score difficulty
  assert_unit_score ambiguity
  ok (effort_for tier (num_max difficulty ambiguity))

-- `TIER_RANK`, `tierRank`
abbrev pub tier_rank : ModelTier → ℕ
tier_rank luna = 0
tier_rank terra = 1
tier_rank sol = 2

-- `tierAtLeast`
abbrev pub tier_at_least : ModelTier → ModelTier → Bool
tier_at_least actual minimum = leb (tier_rank minimum) (tier_rank actual)

pub data Reason : Type 0 where
  sufficient too_low unnecessary : Reason

pub record TierAssignmentDecision : Type 0 where
  pub valid : Bool
  pub recommended : ModelTier
  pub reason : Reason

abbrev pub decide_tier : ModelTier → ModelTier → TierAssignmentDecision
decide_tier tier recommended =
    if not (tier_at_least tier recommended)
    then record { valid = false; recommended = recommended; reason = Reason.too_low }
    else if is_sol tier && not (is_sol recommended)
    then record { valid = false; recommended = recommended; reason = Reason.unnecessary }
    else record { valid = true; recommended = recommended; reason = Reason.sufficient }

-- `evaluateTierAssignment`
unfoldable pub evaluate_tier_assignment : ModelTier → TierInput → Result TierAssignmentDecision
evaluate_tier_assignment tier input = do
  recommended ← recommend_tier input
  ok (decide_tier tier recommended)

abbrev pub refusal : Reason → PolicyError
refusal Reason.too_low = PolicyError.tier_too_low
refusal _ = PolicyError.unnecessary_sol

-- `assertTierAssignment`
unfoldable pub assert_tier_assignment : ModelTier → TierInput → Result (Unit {0})
assert_tier_assignment tier input = do
  decision ← evaluate_tier_assignment tier input
  guard decision.valid (refusal decision.reason)
