-- ===== src/Policy/Tiers/Choice.antt =====
-- src/core/policy.ts: the effective tier of one leaf, and the effort that goes with it.
use codex_mission_ledger.Prelude.{
  ◌≡◌, refl, String, Bool, true, false, not, ◌&&◌, ◌||◌, some, List, [], ◌∷◌, arith,
}
use codex_mission_ledger.Prelude.Tests.{if◌then◌else◌}
use codex_mission_ledger.Prelude.Lists.{any}
use codex_mission_ledger.Prelude.Numbers.{Number, pos, num_le, num_add, of_ℕ}
use codex_mission_ledger.Contracts.{
  ModelTier, ReasoningEffort, luna, terra, sol, LeafTask, TaskDomain, ValidatorStrength, is_writer,
}
use codex_mission_ledger.Policy.Limits.{Result, ok, err, ◌>>=◌}
use codex_mission_ledger.Policy.Words.{has_word, has_phrase}
use codex_mission_ledger.Policy.Tiers.{recommend_effort, tier_supports_effort}
use codex_mission_ledger.Policy.Tiers.Laws.{recommend_effort_supported}

abbrev pub is_office : TaskDomain → Bool
is_office TaskDomain.office = true
is_office _ = false

abbrev pub is_algorithm : TaskDomain → Bool
is_algorithm TaskDomain.algorithm = true
is_algorithm _ = false

abbrev pub document_phrases : List String
document_phrases = "document" ∷ "spreadsheet" ∷ "presentation" ∷ "powerpoint" ∷ "ppt" ∷ []

abbrev pub terra_words : List String
terra_words =
    "recover" ∷ "recovery" ∷ "resume" ∷ "checkpoint" ∷ "rollback" ∷ "transaction" ∷ "idempoten"
    ∷ "state machine" ∷ "corrupt" ∷ "conflict resolution" ∷ "code review" ∷ "paper review"
    ∷ "peer review" ∷ "synthesise" ∷ "synthesize" ∷ []

abbrev pub terra_phrases : List String
terra_phrases =
    "恢复" ∷ "续跑" ∷ "断点" ∷ "回滚" ∷ "事务" ∷ "幂等" ∷ "状态机" ∷ "损坏" ∷ "冲突消解" ∷ "代码审查" ∷ "论文评审" ∷ "审稿"
    ∷ "综合分析" ∷ []

-- `semanticTerraWork`
semantic_terra_work : LeafTask → Bool
unfolding has_word has_phrase
semantic_terra_work task =
    is_office task.domain
    || any (λ c. has_phrase document_phrases c.name) task.capabilities
    || has_word terra_words task.objective
    || has_phrase terra_phrases task.objective

-- `task.validatorStrength ?? (task.validation.length > 0 ? "strong" : "weak")`, and the test that
-- it is "none": only an explicit one can be.
abbrev pub lacks_validator : LeafTask → Bool
lacks_validator task = elim task.validator_strength [
  | some ValidatorStrength.none ↦ true
  | _ ↦ false
]

abbrev by_evidence : LeafTask → ModelTier
by_evidence task =
    if num_le (pos 850000) task.difficulty || num_le (pos 800000) task.ambiguity
    then sol
    else if semantic_terra_work task
    then terra
    else if (is_algorithm task.domain
          && (num_le (pos 700000) task.difficulty || num_le (pos 600000) task.ambiguity))
        || num_le (pos 700000) task.difficulty
        || num_le (pos 550000) task.ambiguity
    then terra
    else if task.critical && lacks_validator task
    then terra
    else luna

-- `recommendEffectiveTier`
unfoldable pub recommend_effective_tier : LeafTask → ModelTier
unfolding semantic_terra_work
recommend_effective_tier task = elim task.min_tier [
  | some sol ↦ sol
  | some terra ↦ terra
  | _ ↦ by_evidence task
]

abbrev pub specialist_words : List String
specialist_words =
    "cryptograph" ∷ "race condition" ∷ "memory ordering" ∷ "formal proof" ∷ "numerical stability"
    ∷ []

abbrev pub specialist_phrases : List String
specialist_phrases = "密码" ∷ "竞态" ∷ "内存序" ∷ "形式化证明" ∷ "数值稳定" ∷ []

-- `hardSpecialist`
hard_specialist : LeafTask → Bool
unfolding has_word has_phrase
hard_specialist task =
    is_algorithm task.domain
    || has_word specialist_words task.objective
    || has_phrase specialist_phrases task.objective

abbrev balanced_by_evidence : LeafTask → Bool → ModelTier
balanced_by_evidence task terra_integration =
    if (num_le (pos 850000) task.difficulty || num_le (pos 800000) task.ambiguity)
      && hard_specialist task
    then sol
    else if not (is_writer task.access) || terra_integration
    then luna
    else if is_office task.domain
    then terra
    else if num_le (pos 700000) task.difficulty
        || num_le (pos 550000) task.ambiguity
        || (task.critical && lacks_validator task)
    then terra
    else luna

-- `balancedTierCandidate`
unfoldable pub balanced_tier_candidate : LeafTask → Bool → ModelTier
unfolding hard_specialist
balanced_tier_candidate task terra_integration = elim task.min_tier [
  | some sol ↦ sol
  | some terra ↦ terra
  | _ ↦ balanced_by_evidence task terra_integration
]

-- `balancedTerraPriority`
unfoldable pub balanced_terra_priority : LeafTask → Number
balanced_terra_priority task =
    num_add
      (num_add
        (num_add (if is_writer task.access then of_ℕ 2 else of_ℕ 0)
          (if is_office task.domain then of_ℕ 1 else of_ℕ 0))
        task.difficulty)
      task.ambiguity

-- The effort of `withEffectiveTier`; the recommendation fails on a score out of range.
unfoldable pub effective_effort : LeafTask → ModelTier → Result ReasoningEffort
effective_effort task luna =
    if (is_writer task.access && not (is_office task.domain)) || is_algorithm task.domain
    then ok ReasoningEffort.medium
    else if task.critical
    then recommend_effort luna task.difficulty task.ambiguity
    else ok ReasoningEffort.low
effective_effort task tier = recommend_effort tier task.difficulty task.ambiguity

-- `withEffectiveTier`
unfoldable pub with_effective_tier : LeafTask → ModelTier → Result LeafTask
with_effective_tier task tier = do
  effort ← effective_effort task tier
  ok (record task { tier = tier; effort = effort })

effective_effort_supported :
    (task : LeafTask) (tier : ModelTier) (effort : ReasoningEffort)
    → effective_effort task tier ≡ ok effort
    → tier_supports_effort tier effort ≡ true
unfolding effective_effort tier_supports_effort
effective_effort_supported task luna effort e =
    ground (arith, recommend_effort_supported luna task.difficulty task.ambiguity effort)
effective_effort_supported task terra effort e =
    recommend_effort_supported terra task.difficulty task.ambiguity effort e
effective_effort_supported task sol effort e =
    recommend_effort_supported sol task.difficulty task.ambiguity effort e

-- What a leaf keeps when it gets another tier.
pub record IsRetiered (task : LeafTask) (tier : ModelTier) (next : LeafTask) : Type 0 where
  pub tier_set : next.tier ≡ tier
  pub supported : tier_supports_effort next.tier next.effort ≡ true
  pub same_id : next.id ≡ task.id
  pub same_deps : next.depends_on ≡ task.depends_on
  pub same_floor : next.min_tier ≡ task.min_tier
  pub same_access : next.access ≡ task.access
  pub same_paths : next.owned_paths ≡ task.owned_paths

pub with_effective_tier-IsRetiered :
    (task : LeafTask) (tier : ModelTier) (next : LeafTask)
    → with_effective_tier task tier ≡ ok next
    → IsRetiered task tier next
unfolding with_effective_tier
with_effective_tier-IsRetiered task tier next e = go (effective_effort task tier) refl e
  where
    go :
        (r : Result ReasoningEffort)
        → effective_effort task tier ≡ r
        → (r >>= λ effort. ok (record task { tier = tier; effort = effort })) ≡ ok next
        → IsRetiered task tier next
    go (ok effort) chosen e = ground (arith, effective_effort_supported task tier effort chosen)
    go (err c) chosen e = cc
