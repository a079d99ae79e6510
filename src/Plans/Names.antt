-- ===== src/Plans/Names.antt =====
-- src/core/plan-validation.ts: the strings that stand for the values of the enumerations.
use codex_mission_ledger.Prelude.{String, Option, none, some, List, [], ◌∷◌, ◌==◌}
use codex_mission_ledger.Prelude.Tests.{if◌then◌else◌}
use codex_mission_ledger.Contracts.{
  ModelTier, ReasoningEffort, TaskDomain, TaskAccess, Risk, FinalReview, CapabilityKind,
  AggregationMode, ValidatorStrength, PlanOrigin,
}
use codex_mission_ledger.Policy.Limits.{PolicyError}

-- The first value whose name is the text.
abbrev pub value_of {ℓ} : {A : Type ℓ} → List (String × A) → String → Option A
value_of [] s = none
value_of ((name, a) ∷ rest) s = if name == s then some a else value_of rest s

abbrev pub names {ℓ} : {A : Type ℓ} → List (String × A) → List String
names [] = []
names ((name, a) ∷ rest) = name ∷ names rest

abbrev pub value_of_member {ℓ} : {A : Type ℓ} → List (String × A) → Option String → Option A
value_of_member table none = none
value_of_member table (some s) = value_of table s

-- `DOMAINS`
abbrev pub domains : List (String × TaskDomain)
domains =
    ("coding", TaskDomain.coding)
    ∷ ("algorithm", TaskDomain.algorithm)
    ∷ ("research", TaskDomain.research)
    ∷ ("paper", TaskDomain.paper)
    ∷ ("office", TaskDomain.office)
    ∷ ("autoResearch", TaskDomain.auto_research)
    ∷ ("general", TaskDomain.general)
    ∷ []

abbrev pub tiers : List (String × ModelTier)
tiers = ("luna", ModelTier.luna) ∷ ("terra", ModelTier.terra) ∷ ("sol", ModelTier.sol) ∷ []

abbrev pub efforts : List (String × ReasoningEffort)
efforts =
    ("low", ReasoningEffort.low)
    ∷ ("medium", ReasoningEffort.medium)
    ∷ ("high", ReasoningEffort.high)
    ∷ ("xhigh", ReasoningEffort.xhigh)
    ∷ []

abbrev pub accesses : List (String × TaskAccess)
accesses = ("readOnly", TaskAccess.read_only) ∷ ("workspaceWrite", TaskAccess.workspace_write) ∷ []

abbrev pub risks : List (String × Risk)
risks = ("low", Risk.low) ∷ ("medium", Risk.medium) ∷ ("high", Risk.high) ∷ []

abbrev pub reviews : List (String × FinalReview)
reviews =
    ("never", FinalReview.never)
    ∷ ("riskTriggered", FinalReview.risk_triggered)
    ∷ ("always", FinalReview.always)
    ∷ []

abbrev pub kinds : List (String × CapabilityKind)
kinds = ("skill", CapabilityKind.skill) ∷ ("plugin", CapabilityKind.plugin) ∷ []

abbrev pub aggregations : List (String × AggregationMode)
aggregations =
    ("auto", AggregationMode.auto)
    ∷ ("deterministic", AggregationMode.deterministic)
    ∷ ("terra", AggregationMode.terra)
    ∷ []

abbrev pub strengths : List (String × ValidatorStrength)
strengths =
    ("none", ValidatorStrength.none)
    ∷ ("weak", ValidatorStrength.weak)
    ∷ ("strong", ValidatorStrength.strong)
    ∷ []

abbrev pub origins : List (String × PlanOrigin)
origins = ("template", PlanOrigin.template) ∷ ("sol", PlanOrigin.sol) ∷ []

-- `PolicyError.code`
abbrev pub policy_code : PolicyError → String
policy_code PolicyError.invalid_limit = "invalid_limit"
policy_code PolicyError.limit_exceeded = "limit_exceeded"
policy_code PolicyError.invalid_score = "invalid_score"
policy_code PolicyError.tier_too_low = "tier_too_low"
policy_code PolicyError.unnecessary_sol = "unnecessary_sol"
policy_code PolicyError.invalid_tier_effort = "invalid_tier_effort"
policy_code PolicyError.invalid_timestamp = "invalid_timestamp"

abbrev pub domain_name : TaskDomain → String
domain_name TaskDomain.coding = "coding"
domain_name TaskDomain.algorithm = "algorithm"
domain_name TaskDomain.research = "research"
domain_name TaskDomain.paper = "paper"
domain_name TaskDomain.office = "office"
domain_name TaskDomain.auto_research = "autoResearch"
domain_name TaskDomain.general = "general"

abbrev pub tier_name : ModelTier → String
tier_name ModelTier.luna = "luna"
tier_name ModelTier.terra = "terra"
tier_name ModelTier.sol = "sol"

abbrev pub effort_name : ReasoningEffort → String
effort_name ReasoningEffort.low = "low"
effort_name ReasoningEffort.medium = "medium"
effort_name ReasoningEffort.high = "high"
effort_name ReasoningEffort.xhigh = "xhigh"

abbrev pub access_name : TaskAccess → String
access_name TaskAccess.read_only = "readOnly"
access_name TaskAccess.workspace_write = "workspaceWrite"

abbrev pub risk_name : Risk → String
risk_name Risk.low = "low"
risk_name Risk.medium = "medium"
risk_name Risk.high = "high"

abbrev pub review_name : FinalReview → String
review_name FinalReview.never = "never"
review_name FinalReview.risk_triggered = "riskTriggered"
review_name FinalReview.always = "always"

abbrev pub kind_name : CapabilityKind → String
kind_name CapabilityKind.skill = "skill"
kind_name CapabilityKind.plugin = "plugin"

abbrev pub aggregation_name : AggregationMode → String
aggregation_name AggregationMode.auto = "auto"
aggregation_name AggregationMode.deterministic = "deterministic"
aggregation_name AggregationMode.terra = "terra"

abbrev pub strength_name : ValidatorStrength → String
strength_name ValidatorStrength.none = "none"
strength_name ValidatorStrength.weak = "weak"
strength_name ValidatorStrength.strong = "strong"

abbrev pub origin_name : PlanOrigin → String
origin_name PlanOrigin.template = "template"
origin_name PlanOrigin.sol = "sol"
