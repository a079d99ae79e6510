-- ===== src/Contracts.antt =====
-- src/core/contracts.ts: the types that the components exchange. A field that may be absent is
-- an `Option`, and so is one that may be null. Numbers that the code only ever compares after a
-- check that they are integers are ℕ; all others are the numbers of Prelude/Numbers.
pub mod Samples
use codex_mission_ledger.Prelude.{ℕ, String, Bool, Option, List}
use codex_mission_ledger.Prelude.Numbers.{Number}

pub data ModelTier : Type 0 where
  luna terra sol : ModelTier

pub data ReasoningEffort : Type 0 where
  low medium high xhigh : ReasoningEffort

pub data OptimizationProfile : Type 0 where
  balanced quality : OptimizationProfile

pub data AggregationMode : Type 0 where
  auto deterministic terra : AggregationMode

pub data ValidatorStrength : Type 0 where
  none weak strong : ValidatorStrength

pub data TaskAccess : Type 0 where
  read_only workspace_write : TaskAccess

pub data TaskDomain : Type 0 where
  coding algorithm research paper office auto_research general : TaskDomain

pub data JobMode : Type 0 where
  foreground durable : JobMode

pub data Risk : Type 0 where
  low medium high : Risk

-- `Exclude<LeafStatus, "pending" | "running">`, the status of a result.
pub data LeafStatus : Type 0 where
  completed blocked failed cancelled indeterminate : LeafStatus

pub data AgentMessageType : Type 0 where
  question answer contract_change blocker result : AgentMessageType

pub data CapabilityKind : Type 0 where
  skill plugin : CapabilityKind

pub record CapabilityRef : Type 0 where
  pub kind : CapabilityKind
  pub name : String
  pub path : Option String

pub record ValidationSpec : Type 0 where
  pub command : String
  pub cwd : Option String
  pub timeout_ms : Option Number

pub data FinalReview : Type 0 where
  never risk_triggered always : FinalReview

pub record IntegrationContract : Type 0 where
  pub objective : String
  pub required_outputs : List String
  pub validation : List ValidationSpec
  pub final_review : FinalReview
  pub aggregation : Option AggregationMode

pub record LeafTask : Type 0 where
  pub id : String
  pub objective : String
  pub domain : TaskDomain
  pub tier : ModelTier
  pub min_tier : Option ModelTier
  pub effort : ReasoningEffort
  pub access : TaskAccess
  pub owned_paths : List String
  pub depends_on : List String
  pub capabilities : List CapabilityRef
  pub validation : List ValidationSpec
  pub communication_with : List String
  pub expected_seconds : Number
  pub expected_cost_usd : Option Number
  pub difficulty : Number
  pub ambiguity : Number
  pub confidence : Number
  pub critical : Bool
  pub validator_strength : Option ValidatorStrength

pub data PlanOrigin : Type 0 where
  template sol : PlanOrigin

pub record ExecutionPlan : Type 0 where
  pub plan_id : String
  pub objective : String
  pub domain : TaskDomain
  pub assumptions : List String
  pub tasks : List LeafTask
  pub integration : IntegrationContract
  pub risk : Risk
  pub origin : Option PlanOrigin

pub data PlanPatchOperation : Type 0 where
  add : (task : LeafTask) → PlanPatchOperation
  replace : (task_id : String) (task : LeafTask) → PlanPatchOperation
  cancel : (task_id : String) (reason : String) → PlanPatchOperation

pub record PlanPatch : Type 0 where
  pub plan_id : String
  pub reason : String
  pub operations : List PlanPatchOperation
  pub integration : Option IntegrationContract

pub data ReplanTriggerType : Type 0 where
  contract_incomplete critical_blocker result_conflict validator_failure : ReplanTriggerType
  low_confidence budget_deviation scope_change unvalidated_high_risk : ReplanTriggerType

pub record ReplanTrigger : Type 0 where
  pub type : ReplanTriggerType
  pub task_ids : List String
  pub summary : String
  pub observed_at : String

pub record AgentMessage : Type 0 where
  pub id : String
  pub type : AgentMessageType
  pub from_task_id : String
  pub to_task_id : String
  pub body : String
  pub blocking : Bool
  pub created_at : String

pub data ValidationStatus : Type 0 where
  passed failed skipped : ValidationStatus

pub record ValidationResult : Type 0 where
  pub command : String
  pub status : ValidationStatus
  pub summary : String

pub record Finding : Type 0 where
  pub text : String
  pub path : Option String
  pub line : Option ℕ

pub record Citation : Type 0 where
  pub title : String
  pub url : String
  pub claim : Option String

pub record ArtifactRef : Type 0 where
  pub path : String
  pub media_type : Option String

pub data UsageTier : Type 0 where
  tier : ModelTier → UsageTier
  other : UsageTier

pub data CostSource : Type 0 where
  app_server price_table : CostSource

-- `TokenUsage` and the fields that `ModelUsage` adds to it.
pub record ModelUsage : Type 0 where
  pub cached_input_tokens : ℕ
  pub cache_write_input_tokens : Option ℕ
  pub uncached_input_tokens : ℕ
  pub output_tokens : ℕ
  pub total_tokens : ℕ
  pub model : String
  pub tier : UsageTier
  pub effort : Option String
  pub estimated_cost_usd : Option Number
  pub cost_source : Option CostSource

pub data FailureKind : Type 0 where
  reasoning transient validation permission contract unknown : FailureKind

pub record LeafResult : Type 0 where
  pub task_id : String
  pub status : LeafStatus
  pub summary : String
  pub confidence : Number
  pub findings : List Finding
  pub changed_files : List String
  pub validation : List ValidationResult
  pub citations : List Citation
  pub artifacts : List ArtifactRef
  pub messages : List AgentMessage
  pub thread_id : Option String
  pub turn_id : Option String
  pub usage : List ModelUsage
  pub started_at : Option String
  pub completed_at : String
  pub error : Option String
  pub failure_kind : Option FailureKind

pub record ExecutionLimits : Type 0 where
  pub max_concurrent : ℕ
  pub max_leaves : ℕ
  pub max_waves : ℕ
  pub max_sol_leaves : ℕ
  pub max_replans : ℕ
  pub deadline_ms : Option Number
  pub max_cost_usd : Option Number

-- `Partial<ExecutionLimits>`, as a caller gives it: any number may stand in a field.
pub record LimitOverrides : Type 0 where
  pub max_concurrent : Option Number
  pub max_leaves : Option Number
  pub max_waves : Option Number
  pub max_sol_leaves : Option Number
  pub max_replans : Option Number
  pub deadline_ms : Option Number
  pub max_cost_usd : Option Number

-- Tests of the form `value === "…"`.
abbrev pub is_sol : ModelTier → Bool
is_sol ModelTier.sol = Bool.true
is_sol _ = Bool.false

abbrev pub is_terra : ModelTier → Bool
is_terra ModelTier.terra = Bool.true
is_terra _ = Bool.false

abbrev pub is_luna : ModelTier → Bool
is_luna ModelTier.luna = Bool.true
is_luna _ = Bool.false

abbrev pub is_completed : LeafStatus → Bool
is_completed LeafStatus.completed = Bool.true
is_completed _ = Bool.false

abbrev pub is_blocked : LeafStatus → Bool
is_blocked LeafStatus.blocked = Bool.true
is_blocked _ = Bool.false

abbrev pub is_failed : LeafStatus → Bool
is_failed LeafStatus.failed = Bool.true
is_failed _ = Bool.false

abbrev pub is_indeterminate : LeafStatus → Bool
is_indeterminate LeafStatus.indeterminate = Bool.true
is_indeterminate _ = Bool.false

abbrev pub is_writer : TaskAccess → Bool
is_writer TaskAccess.workspace_write = Bool.true
is_writer _ = Bool.false

abbrev pub is_failed_check : ValidationStatus → Bool
is_failed_check ValidationStatus.failed = Bool.true
is_failed_check _ = Bool.false

abbrev pub is_passed_check : ValidationStatus → Bool
is_passed_check ValidationStatus.passed = Bool.true
is_passed_check _ = Bool.false

-- The tests on an optional failure kind: absent is none of them.
abbrev pub is_kind : FailureKind → Option FailureKind → Bool
is_kind FailureKind.reasoning (Option.some FailureKind.reasoning) = Bool.true
is_kind FailureKind.transient (Option.some FailureKind.transient) = Bool.true
is_kind FailureKind.validation (Option.some FailureKind.validation) = Bool.true
is_kind FailureKind.permission (Option.some FailureKind.permission) = Bool.true
is_kind FailureKind.contract (Option.some FailureKind.contract) = Bool.true
is_kind FailureKind.unknown (Option.some FailureKind.unknown) = Bool.true
is_kind _ _ = Bool.false

pub record WaitingLeafResumePoint : Type 0 where
  pub task_id : String
  pub thread_id : String
  pub previous_turn_id : String
  pub attempt : ℕ
  pub needs_action : String
