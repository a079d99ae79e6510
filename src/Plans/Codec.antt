-- ===== src/Plans/Codec.antt =====
-- src/core/contracts.ts, src/core/plan-validation.ts: a validated JSON value seen as a plan. In the
-- source this is a cast (`input as unknown as PlanPatch`, and the type guard of
-- `canValidatePlanSemantics`); here `decode_task` and the others read the members, and `encode_task`
-- and the others give the JSON value that a plan is. Members that are absent are written last.
pub mod Trips
pub mod Members
pub mod Safety
use codex_mission_ledger.Prelude.{
  String, Bool, true, false, Option, none, some, List, [], ◌∷◌, ◌++◌, map, ◌==◌,
}
use codex_mission_ledger.Prelude.Tests.{if◌then◌else◌, nat_eq}
use codex_mission_ledger.Prelude.Maps.{Map, lookup}
use codex_mission_ledger.Prelude.Numbers.{Number, pos}
use codex_mission_ledger.Contracts.{
  LeafTask, CapabilityRef, ValidationSpec, IntegrationContract, ExecutionPlan, PlanPatch,
  PlanPatchOperation,
}
use codex_mission_ledger.Plans.Shape.Tasks.{is_op}
use codex_mission_ledger.Plans.Names.{
  names, value_of_member, domains, tiers, efforts, accesses, risks, reviews, kinds, aggregations,
  strengths, origins, domain_name, tier_name, effort_name, access_name, risk_name, review_name,
  kind_name, aggregation_name, strength_name, origin_name,
}
use codex_mission_ledger.Plans.Json.{
  Json, number, text, boolean, arr, obj, as_record, as_text, as_number, as_boolean, as_list,
  as_object,
}

infixl 5 ◌>>=◌
abbrev pub ◌>>=◌ {ℓ κ} : {A : Type ℓ} {B : Type κ} → Option A → (A → Option B) → Option B
none >>= f = none
some a >>= f = f a

-- A member that may be absent, but has its type if it is there.
abbrev pub optional {ℓ} : {A : Type ℓ} → (Option Json → Option A) → Option Json → Option (Option A)
optional read none = some none
optional read (some j) = elim (read (some j)) [ none ↦ none | some a ↦ some (some a) ]

abbrev pub read_all {ℓ} : {A : Type ℓ} → (Option Json → Option A) → List Json → Option (List A)
read_all read [] = some []
read_all read (j ∷ js) = do a ← read (some j); rest ← read_all read js; some (a ∷ rest)

abbrev pub read_list {ℓ} : {A : Type ℓ} → (Option Json → Option A) → Option Json → Option (List A)
read_list read input = as_list input >>= read_all read

abbrev pub read_value {ℓ} : {A : Type ℓ} → List (String × A) → Option Json → Option A
read_value table input = value_of_member table (as_text input)

abbrev pub decode_capability_of : Map Json → Option CapabilityRef
decode_capability_of ms = do
  kind ← read_value kinds (lookup "kind" ms)
  name ← as_text (lookup "name" ms)
  path ← optional as_text (lookup "path" ms)
  some (record { kind = kind; name = name; path = path })

abbrev pub decode_capability : Option Json → Option CapabilityRef
decode_capability input = as_object input >>= decode_capability_of

abbrev pub decode_specification_of : Map Json → Option ValidationSpec
decode_specification_of ms = do
  command ← as_text (lookup "command" ms)
  cwd ← optional as_text (lookup "cwd" ms)
  timeout_ms ← optional as_number (lookup "timeoutMs" ms)
  some (record { command = command; cwd = cwd; timeout_ms = timeout_ms })

abbrev pub decode_specification : Option Json → Option ValidationSpec
decode_specification input = as_object input >>= decode_specification_of

unfoldable pub decode_task_of : Map Json → Option LeafTask
decode_task_of ms = do
  id ← as_text (lookup "id" ms)
  objective ← as_text (lookup "objective" ms)
  domain ← read_value domains (lookup "domain" ms)
  tier ← read_value tiers (lookup "tier" ms)
  min_tier ← optional (read_value tiers) (lookup "minTier" ms)
  effort ← read_value efforts (lookup "effort" ms)
  access ← read_value accesses (lookup "access" ms)
  owned_paths ← read_list as_text (lookup "ownedPaths" ms)
  depends_on ← read_list as_text (lookup "dependsOn" ms)
  capabilities ← read_list decode_capability (lookup "capabilities" ms)
  validation ← read_list decode_specification (lookup "validation" ms)
  communication_with ← read_list as_text (lookup "communicationWith" ms)
  expected_seconds ← as_number (lookup "expectedSeconds" ms)
  expected_cost_usd ← optional as_number (lookup "expectedCostUsd" ms)
  difficulty ← as_number (lookup "difficulty" ms)
  ambiguity ← as_number (lookup "ambiguity" ms)
  confidence ← as_number (lookup "confidence" ms)
  critical ← as_boolean (lookup "critical" ms)
  validator_strength ← optional (read_value strengths) (lookup "validatorStrength" ms)
  some (record {
    id = id;
    objective = objective;
    domain = domain;
    tier = tier;
    min_tier = min_tier;
    effort = effort;
    access = access;
    owned_paths = owned_paths;
    depends_on = depends_on;
    capabilities = capabilities;
    validation = validation;
    communication_with = communication_with;
    expected_seconds = expected_seconds;
    expected_cost_usd = expected_cost_usd;
    difficulty = difficulty;
    ambiguity = ambiguity;
    confidence = confidence;
    critical = critical;
    validator_strength = validator_strength;
  })

unfoldable pub decode_task : Option Json → Option LeafTask
unfolding decode_task_of
decode_task input = as_object input >>= decode_task_of

unfoldable pub decode_integration_of : Map Json → Option IntegrationContract
decode_integration_of ms = do
  objective ← as_text (lookup "objective" ms)
  required_outputs ← read_list as_text (lookup "requiredOutputs" ms)
  validation ← read_list decode_specification (lookup "validation" ms)
  final_review ← read_value reviews (lookup "finalReview" ms)
  aggregation ← optional (read_value aggregations) (lookup "aggregation" ms)
  some (record {
    objective = objective;
    required_outputs = required_outputs;
    validation = validation;
    final_review = final_review;
    aggregation = aggregation;
  })

unfoldable pub decode_integration : Option Json → Option IntegrationContract
unfolding decode_integration_of
decode_integration input = as_object input >>= decode_integration_of

unfoldable pub decode_plan_of : Map Json → Option ExecutionPlan
unfolding decode_task decode_integration
decode_plan_of ms = do
  plan_id ← as_text (lookup "planId" ms)
  objective ← as_text (lookup "objective" ms)
  domain ← read_value domains (lookup "domain" ms)
  assumptions ← read_list as_text (lookup "assumptions" ms)
  risk ← read_value risks (lookup "risk" ms)
  origin ← optional (read_value origins) (lookup "origin" ms)
  tasks ← read_list decode_task (lookup "tasks" ms)
  integration ← decode_integration (lookup "integration" ms)
  some (record {
    plan_id = plan_id;
    objective = objective;
    domain = domain;
    assumptions = assumptions;
    tasks = tasks;
    integration = integration;
    risk = risk;
    origin = origin;
  })

unfoldable pub decode_plan : Option Json → Option ExecutionPlan
unfolding decode_plan_of
decode_plan input = as_object input >>= decode_plan_of

abbrev pub decode_operation_of : Map Json → Option PlanPatchOperation
decode_operation_of ms =
    if is_op "add" ms
    then (decode_task (lookup "task" ms) >>= λ task. some (PlanPatchOperation.add task))
    else if is_op "replace" ms
    then (as_text (lookup "taskId" ms) >>= λ id.
        decode_task (lookup "task" ms) >>= λ task. some (PlanPatchOperation.replace id task))
    else if is_op "cancel" ms
    then (as_text (lookup "taskId" ms) >>= λ id.
        as_text (lookup "reason" ms) >>= λ reason. some (PlanPatchOperation.cancel id reason))
    else none

unfoldable pub decode_operation : Option Json → Option PlanPatchOperation
unfolding decode_task
decode_operation input = as_object input >>= decode_operation_of

unfoldable pub decode_patch_of : Map Json → Option PlanPatch
unfolding decode_operation decode_integration
decode_patch_of ms = do
  plan_id ← as_text (lookup "planId" ms)
  reason ← as_text (lookup "reason" ms)
  operations ← read_list decode_operation (lookup "operations" ms)
  integration ← optional decode_integration (lookup "integration" ms)
  some (record {
    plan_id = plan_id;
    reason = reason;
    operations = operations;
    integration = integration;
  })

unfoldable pub decode_patch : Option Json → Option PlanPatch
unfolding decode_patch_of
decode_patch input = as_object input >>= decode_patch_of

-- A member that is written only if it is there, before others.
abbrev pub entry {ℓ} : {A : Type ℓ} → String → (A → Json) → Option A → Map Json → Map Json
entry key write none rest = rest
entry key write (some a) rest = (key, write a) ∷ rest

abbrev pub write_list {ℓ} : {A : Type ℓ} → (A → Json) → List A → Json
write_list write xs = arr (map write xs)

abbrev pub capability_entries : CapabilityRef → Map Json
capability_entries c =
    (("kind", text (kind_name c.kind)) ∷ ("name", text c.name) ∷ entry "path" text c.path [])

abbrev pub encode_capability : CapabilityRef → Json
encode_capability c = obj (capability_entries c)

abbrev pub specification_entries : ValidationSpec → Map Json
specification_entries v =
    (("command", text v.command)
      ∷ entry "cwd" text v.cwd (entry "timeoutMs" number v.timeout_ms []))

abbrev pub encode_specification : ValidationSpec → Json
encode_specification v = obj (specification_entries v)

abbrev pub task_entries : LeafTask → Map Json
task_entries t =
    (("id", text t.id)
      ∷ ("objective", text t.objective)
      ∷ ("domain", text (domain_name t.domain))
      ∷ ("tier", text (tier_name t.tier))
      ∷ ("effort", text (effort_name t.effort))
      ∷ ("access", text (access_name t.access))
      ∷ ("ownedPaths", write_list text t.owned_paths)
      ∷ ("dependsOn", write_list text t.depends_on)
      ∷ ("capabilities", write_list encode_capability t.capabilities)
      ∷ ("validation", write_list encode_specification t.validation)
      ∷ ("communicationWith", write_list text t.communication_with)
      ∷ ("expectedSeconds", number t.expected_seconds)
      ∷ ("difficulty", number t.difficulty)
      ∷ ("ambiguity", number t.ambiguity)
      ∷ ("confidence", number t.confidence)
      ∷ ("critical", boolean t.critical)
      ∷ entry "minTier" (λ x. text (tier_name x)) t.min_tier
          (entry "expectedCostUsd" number t.expected_cost_usd
            (entry "validatorStrength" (λ x. text (strength_name x)) t.validator_strength [])))

unfoldable pub encode_task : LeafTask → Json
encode_task t = obj (task_entries t)

abbrev pub integration_entries : IntegrationContract → Map Json
integration_entries i =
    (("objective", text i.objective)
      ∷ ("requiredOutputs", write_list text i.required_outputs)
      ∷ ("validation", write_list encode_specification i.validation)
      ∷ ("finalReview", text (review_name i.final_review))
      ∷ entry "aggregation" (λ a. text (aggregation_name a)) i.aggregation [])

unfoldable pub encode_integration : IntegrationContract → Json
encode_integration i = obj (integration_entries i)

-- `AGENT_TRIO_PROTOCOL_VERSION` stands in every plan and patch.
abbrev pub protocol_version : Json
protocol_version = number (pos 1000000)

unfoldable pub plan_entries : ExecutionPlan → Map Json
unfolding encode_task encode_integration
plan_entries p =
    (("protocolVersion", protocol_version)
      ∷ ("planId", text p.plan_id)
      ∷ ("objective", text p.objective)
      ∷ ("domain", text (domain_name p.domain))
      ∷ ("assumptions", write_list text p.assumptions)
      ∷ ("tasks", write_list encode_task p.tasks)
      ∷ ("integration", encode_integration p.integration)
      ∷ ("risk", text (risk_name p.risk))
      ∷ entry "origin" (λ o. text (origin_name o)) p.origin [])

unfoldable pub encode_plan : ExecutionPlan → Json
unfolding plan_entries
encode_plan p = obj (plan_entries p)

unfoldable pub encode_operation : PlanPatchOperation → Json
unfolding encode_task
encode_operation (PlanPatchOperation.add task) =
    obj (("op", text "add") ∷ ("task", encode_task task) ∷ [])
encode_operation (PlanPatchOperation.replace id task) =
    obj (("op", text "replace") ∷ ("taskId", text id) ∷ ("task", encode_task task) ∷ [])
encode_operation (PlanPatchOperation.cancel id reason) =
    obj (("op", text "cancel") ∷ ("taskId", text id) ∷ ("reason", text reason) ∷ [])

unfoldable pub patch_entries : PlanPatch → Map Json
unfolding encode_operation encode_integration
patch_entries p =
    (("protocolVersion", protocol_version)
      ∷ ("planId", text p.plan_id)
      ∷ ("reason", text p.reason)
      ∷ ("operations", write_list encode_operation p.operations)
      ∷ entry "integration" encode_integration p.integration [])

unfoldable pub encode_patch : PlanPatch → Json
unfolding patch_entries
encode_patch p = obj (patch_entries p)
