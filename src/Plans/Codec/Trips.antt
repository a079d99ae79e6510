-- ===== src/Plans/Codec/Trips.antt =====
-- src/core/contracts.ts, src/core/plan-validation.ts: a plan or patch that is written as a JSON value
-- and read again.
use mathlib.Core.Option
use codex_mission_ledger.Prelude.{
  ◌≡◌, refl, ◌∙◌, String, eq_refl, false, Option, none, some, List, [], ◌∷◌, map, ◌==◌,
}
use codex_mission_ledger.Prelude.Maps.{Map, lookup}
use codex_mission_ledger.Contracts.{
  LeafTask, ValidationSpec, ExecutionPlan, PlanPatch, PlanPatchOperation, ModelTier,
  ReasoningEffort, TaskDomain, TaskAccess, Risk, FinalReview, CapabilityKind, AggregationMode,
  ValidatorStrength, PlanOrigin,
}
use codex_mission_ledger.Plans.Names.{
  value_of, domains, tiers, efforts, accesses, risks, reviews, kinds, aggregations, strengths,
  origins, domain_name, tier_name, effort_name, access_name, risk_name, review_name, kind_name,
  aggregation_name, strength_name, origin_name,
}
use codex_mission_ledger.Plans.Json.{
  Json, number, text, obj, as_text, as_number, as_object, items_list, items_of,
  members_map-members_of, items_list-items_of,
}
use codex_mission_ledger.Plans.Codec.{
  ◌>>=◌, optional, read_all, read_value, decode_capability, decode_capability_of,
  decode_specification_of, decode_task_of, decode_integration_of, decode_plan_of, decode_patch_of,
  decode_specification, decode_task, decode_integration, decode_operation, decode_plan,
  decode_patch, entry, capability_entries, specification_entries, task_entries, integration_entries,
  plan_entries, patch_entries, encode_capability, encode_specification, encode_task,
  encode_integration, encode_operation, encode_plan, encode_patch,
}

domain_trip : (a : TaskDomain) → value_of domains (domain_name a) ≡ some a
domain_trip TaskDomain.coding = refl
domain_trip TaskDomain.algorithm = refl
domain_trip TaskDomain.research = refl
domain_trip TaskDomain.paper = refl
domain_trip TaskDomain.office = refl
domain_trip TaskDomain.auto_research = refl
domain_trip TaskDomain.general = refl

pub tier_trip : (a : ModelTier) → value_of tiers (tier_name a) ≡ some a
tier_trip ModelTier.luna = refl
tier_trip ModelTier.terra = refl
tier_trip ModelTier.sol = refl

pub effort_trip : (a : ReasoningEffort) → value_of efforts (effort_name a) ≡ some a
effort_trip ReasoningEffort.low = refl
effort_trip ReasoningEffort.medium = refl
effort_trip ReasoningEffort.high = refl
effort_trip ReasoningEffort.xhigh = refl

access_trip : (a : TaskAccess) → value_of accesses (access_name a) ≡ some a
access_trip TaskAccess.read_only = refl
access_trip TaskAccess.workspace_write = refl

risk_trip : (a : Risk) → value_of risks (risk_name a) ≡ some a
risk_trip Risk.low = refl
risk_trip Risk.medium = refl
risk_trip Risk.high = refl

review_trip : (a : FinalReview) → value_of reviews (review_name a) ≡ some a
review_trip FinalReview.never = refl
review_trip FinalReview.risk_triggered = refl
review_trip FinalReview.always = refl

kind_trip : (a : CapabilityKind) → value_of kinds (kind_name a) ≡ some a
kind_trip CapabilityKind.skill = refl
kind_trip CapabilityKind.plugin = refl

aggregation_trip : (a : AggregationMode) → value_of aggregations (aggregation_name a) ≡ some a
aggregation_trip AggregationMode.auto = refl
aggregation_trip AggregationMode.deterministic = refl
aggregation_trip AggregationMode.terra = refl

strength_trip : (a : ValidatorStrength) → value_of strengths (strength_name a) ≡ some a
strength_trip ValidatorStrength.none = refl
strength_trip ValidatorStrength.weak = refl
strength_trip ValidatorStrength.strong = refl

origin_trip : (a : PlanOrigin) → value_of origins (origin_name a) ≡ some a
origin_trip PlanOrigin.template = refl
origin_trip PlanOrigin.sol = refl

-- What is written reads as itself.
abbrev Trip {ℓ} : {A : Type ℓ} → (Option Json → Option A) → (A → Json) → Type ℓ
Trip {A = A} read write = (a : A) → read (some (write a)) ≡ some a

read_all-map {ℓ} :
    {A : Type ℓ} (read : Option Json → Option A) (write : A → Json)
    → Trip read write
    → (xs : List A) → read_all read (map write xs) ≡ some xs
read_all-map read write trip [] = refl
read_all-map read write trip (x ∷ xs) = rw (trip x, read_all-map read write trip xs) refl

read_list-write_list {ℓ} :
    {A : Type ℓ} (read : Option Json → Option A) (write : A → Json)
    → Trip read write
    → (xs : List A) → read_all read (items_list (items_of (map write xs))) ≡ some xs
read_list-write_list read write trip xs =
    rw (items_list-items_of (map write xs)) (read_all-map read write trip xs)

-- The members of an object that is written are those that are read.
object_trip {ℓ} :
    {A : Type ℓ} (body : Map Json → Option A) (ms : Map Json) (r : Option A)
    → body ms ≡ r
    → (as_object (some (obj ms)) >>= body) ≡ r
object_trip body ms r h = rw (members_map-members_of ms) h

lookup-entry_self {ℓ} :
    {A : Type ℓ} (write : A → Json) (key : String) (o : Option A) (rest : Map Json)
    → lookup key rest ≡ none
    → lookup key (entry key write o rest) ≡ Option.map write o
unfolding lookup
lookup-entry_self write key none rest e = e
lookup-entry_self write key (some a) rest e = rw (eq_refl key) refl

optional-entry {ℓ} :
    {A : Type ℓ} (read : Option Json → Option A) (write : A → Json) (o : Option A)
    → Trip read write
    → optional read (Option.map write o) ≡ some o
optional-entry read write none trip = refl
optional-entry read write (some a) trip = rw (trip a) refl

optional-Trip {ℓ} :
    {A : Type ℓ} (read : Option Json → Option A) (write : A → Json) (key : String) (o : Option A)
    (rest : Map Json)
    → Trip read write
    → lookup key rest ≡ none
    → optional read (lookup key (entry key write o rest)) ≡ some o
optional-Trip read write key o rest trip e =
    rw (lookup-entry_self write key o rest e) (optional-entry read write o trip)

pub lookup-entry {ℓ} :
    {A : Type ℓ} (write : A → Json) (key other : String) (o : Option A) (rest : Map Json)
    → (other == key) ≡ false
    → lookup key (entry other write o rest) ≡ lookup key rest
unfolding lookup
lookup-entry write key other none rest e = refl
lookup-entry write key other (some a) rest e = rw e refl

capability-Trip : Trip decode_capability encode_capability
unfolding lookup
capability-Trip c =
    object_trip decode_capability_of (capability_entries c) (some c)
      (rw (kind_trip c.kind, optional-Trip as_text text "path" c.path [] (λ a. refl) refl) refl)

specification-Trip : Trip decode_specification encode_specification
unfolding lookup
specification-Trip v =
    let late = entry "timeoutMs" number v.timeout_ms [] in
    object_trip decode_specification_of (specification_entries v) (some v) (
      rw
        (
          optional-Trip as_text text "cwd" v.cwd late (λ a. refl)
              (lookup-entry number "cwd" "timeoutMs" v.timeout_ms [] refl),
          lookup-entry text "timeoutMs" "cwd" v.cwd late refl,
          optional-Trip as_number number "timeoutMs" v.timeout_ms [] (λ a. refl) refl,
        )
        refl)

texts_trip : (xs : List String) → read_all as_text (items_list (items_of (map text xs))) ≡ some xs
texts_trip = read_list-write_list as_text text (λ a. refl)

specifications_trip :
    (xs : List ValidationSpec)
    → read_all decode_specification (items_list (items_of (map encode_specification xs))) ≡ some xs
specifications_trip =
    read_list-write_list decode_specification encode_specification specification-Trip

integration-Trip : Trip decode_integration encode_integration
unfolding lookup decode_integration encode_integration
integration-Trip i = object_trip decode_integration_of (integration_entries i) (some i) (
    rw
      (
        texts_trip i.required_outputs,
        specifications_trip i.validation,
        review_trip i.final_review,
        optional-Trip (read_value aggregations) (λ a. text (aggregation_name a)) "aggregation"
            i.aggregation [] aggregation_trip refl,
      )
      refl)

-- A leaf task that is written as a JSON value reads as itself.
pub decode_task-encode_task : (t : LeafTask) → decode_task (some (encode_task t)) ≡ some t
unfolding lookup decode_task encode_task
decode_task-encode_task t =
    let tier_text = λ (x : ModelTier). text (tier_name x) in
    let strength_text = λ (x : ValidatorStrength). text (strength_name x) in
    let strength = entry "validatorStrength" strength_text t.validator_strength [] in
    let late = entry "expectedCostUsd" number t.expected_cost_usd strength in
    let skip_strength = λ (key : String) (e : ("validatorStrength" == key) ≡ false).
      lookup-entry strength_text key "validatorStrength" t.validator_strength [] e in
    let skip_cost = λ (key : String) (e : ("expectedCostUsd" == key) ≡ false).
      lookup-entry number key "expectedCostUsd" t.expected_cost_usd strength e in
    let skip_tier = λ (key : String) (e : ("minTier" == key) ≡ false).
      lookup-entry tier_text key "minTier" t.min_tier late e in
    object_trip decode_task_of (task_entries t) (some t) (
      rw
        (
          domain_trip t.domain,
          tier_trip t.tier,
          optional-Trip (read_value tiers) tier_text "minTier" t.min_tier late tier_trip
              (skip_cost "minTier" refl ∙ skip_strength "minTier" refl),
          effort_trip t.effort,
          access_trip t.access,
          texts_trip t.owned_paths,
          texts_trip t.depends_on,
          read_list-write_list decode_capability encode_capability capability-Trip t.capabilities,
          specifications_trip t.validation,
          texts_trip t.communication_with,
          skip_tier "expectedCostUsd" refl,
          optional-Trip as_number number "expectedCostUsd" t.expected_cost_usd strength (λ a. refl)
              (skip_strength "expectedCostUsd" refl),
          skip_tier "validatorStrength" refl,
          skip_cost "validatorStrength" refl,
          optional-Trip (read_value strengths) strength_text "validatorStrength"
              t.validator_strength [] strength_trip refl,
        )
        refl)

-- A plan that is written as a JSON value reads as itself.
pub decode_plan-encode_plan : (p : ExecutionPlan) → decode_plan (some (encode_plan p)) ≡ some p
unfolding lookup decode_plan decode_plan_of encode_plan plan_entries
decode_plan-encode_plan p = object_trip decode_plan_of (plan_entries p) (some p) (
    rw
      (
        domain_trip p.domain,
        texts_trip p.assumptions,
        read_list-write_list decode_task encode_task decode_task-encode_task p.tasks,
        integration-Trip p.integration,
        risk_trip p.risk,
        optional-Trip (read_value origins) (λ o. text (origin_name o)) "origin" p.origin []
            origin_trip refl,
      )
      refl)

operation-Trip : Trip decode_operation encode_operation
unfolding lookup decode_operation encode_operation
operation-Trip (PlanPatchOperation.add task) = rw (decode_task-encode_task task) refl
operation-Trip (PlanPatchOperation.replace id task) = rw (decode_task-encode_task task) refl
operation-Trip (PlanPatchOperation.cancel id reason) = refl

-- A patch that is written as a JSON value reads as itself.
pub decode_patch-encode_patch : (p : PlanPatch) → decode_patch (some (encode_patch p)) ≡ some p
unfolding lookup decode_patch decode_patch_of encode_patch patch_entries
decode_patch-encode_patch p = object_trip decode_patch_of (patch_entries p) (some p) (
    rw
      (
        read_list-write_list decode_operation encode_operation operation-Trip p.operations,
        optional-Trip decode_integration encode_integration "integration" p.integration []
            integration-Trip refl,
      )
      refl)
