-- ===== src/Plans/Shape/Tasks.antt =====
-- src/core/plan-validation.ts: the shape of leaf tasks, of the integration contract and of the
-- operations of a patch.
use codex_mission_ledger.Prelude.{
  ℕ, suc, String, Bool, true, not, ◌&&◌, Option, none, some, List, [], ◌∷◌, ◌==◌,
}
use codex_mission_ledger.Prelude.Tests.{if◌then◌else◌, ltb, is_some}
use codex_mission_ledger.Prelude.Lists.{any, length}
use codex_mission_ledger.Prelude.Codes.{codes_eq}
use codex_mission_ledger.Prelude.Maps.{Map, lookup}
use codex_mission_ledger.Prelude.Numbers.{Number, pos, is_integer, num_le}
use codex_mission_ledger.Contracts.{ModelTier, ReasoningEffort}
use codex_mission_ledger.Policy.Limits.{Result, ok, err}
use codex_mission_ledger.Policy.Checks.{is_nil}
use codex_mission_ledger.Policy.Tiers.{assert_tier_effort, assert_tier_assignment}
use codex_mission_ledger.Plans.Names.{
  names, value_of_member, domains, tiers, efforts, accesses, kinds, reviews, aggregations,
  strengths, policy_code,
}
use codex_mission_ledger.Plans.Json.{Json, as_text, as_number, as_boolean, as_list, as_object}
use codex_mission_ledger.Plans.Shape.{
  IssuePath, at_key, at_index, Issues, issue_if, ◌also◌, satisfies, if_present, validate_text,
  validate_identifier, validate_enum, validate_positive_number, validate_unit_number,
  validate_non_negative_number, reject_unknown_keys, validate_string_array,
  is_workspace_relative_path, is_unit_number, trimmed_path,
}

-- A check on each item of an array, from an index on
abbrev pub each_item : (Json → IssuePath → Issues) → List Json → ℕ → IssuePath → Issues
each_item check [] index path = []
each_item check (j ∷ js) index path =
    check j (at_index path index) also each_item check js (suc index) path

abbrev pub policy_issue : Result (Unit {0}) → IssuePath → Issues
policy_issue (ok u) path = []
policy_issue (err e) path = issue_if true path (policy_code e)

abbrev pub capability_members : Map Json → IssuePath → Issues
capability_members input path =
    reject_unknown_keys input ("kind" ∷ "name" ∷ "path" ∷ []) path
    also validate_enum (lookup "kind" input) (names kinds) (at_key path "kind")
    also validate_text (lookup "name" input) (at_key path "name") 256
    also if_present (lookup "path" input) (λ p. validate_text p (at_key path "path") 2000)

abbrev pub with_record : (Map Json → IssuePath → Issues) → Option Json → IssuePath → Issues
with_record check input path = elim (as_object input) [
  | none ↦ issue_if true path "type"
  | some ms ↦ check ms path
]

abbrev pub with_items : ℕ → (Json → IssuePath → Issues) → Option Json → IssuePath → Issues
with_items most check input path = elim (as_list input) [
  | none ↦ issue_if true path "type"
  | some js ↦ issue_if (ltb most (length js)) path "maximum" also each_item check js 0 path
]

-- `validateCapabilities`
unfoldable pub validate_capabilities : Option Json → IssuePath → Issues
validate_capabilities = with_items 16 (λ j. with_record capability_members (some j))

abbrev is_safe_directory : Option Json → Bool
is_safe_directory input = satisfies (λ s. is_workspace_relative_path s true) (as_text input)

abbrev pub is_positive_integer : Number → Bool
is_positive_integer n = is_integer n && not (num_le n (pos 0))

abbrev pub specification_members : Map Json → IssuePath → Issues
specification_members input path =
    reject_unknown_keys input ("command" ∷ "cwd" ∷ "timeoutMs" ∷ []) path
    also validate_text (lookup "command" input) (at_key path "command") 4000
    also if_present (lookup "cwd" input)
        (λ p. issue_if (not (is_safe_directory p)) (at_key path "cwd") "unsafe_path")
    also if_present (lookup "timeoutMs" input) (λ n.
      issue_if (not (satisfies is_positive_integer (as_number n))) (at_key path "timeoutMs")
        "number")

-- `validateValidationSpecs`
unfoldable pub validate_validation_specs : Option Json → IssuePath → Issues
validate_validation_specs = with_items 16 (λ j. with_record specification_members (some j))

abbrev is_safe_path : Option String → Bool
is_safe_path = satisfies (λ s. is_workspace_relative_path s true)

abbrev seen_path : List (List ℕ) → List ℕ → Bool
seen_path seen p = any (λ q. codes_eq q p) seen

abbrev and_path : Option String → List (List ℕ) → List (List ℕ)
and_path none seen = seen
and_path (some s) seen = trimmed_path s ∷ seen

-- The loop of `validateOwnedPaths`, from an index on
abbrev pub owned_path_items : List Json → ℕ → List (List ℕ) → IssuePath → Issues
owned_path_items [] index seen path = []
owned_path_items (j ∷ js) index seen path =
    let s = as_text (some j) in
    let safe = is_safe_path s in
    issue_if (not safe) (at_index path index) "unsafe_path"
    also issue_if (safe && satisfies (λ p. seen_path seen (trimmed_path p)) s) (at_index path index)
        "duplicate"
    also owned_path_items js (suc index) (if safe then and_path s seen else seen) path

abbrev wants_paths : Option Json → Bool
wants_paths access = satisfies (λ s. s == "workspaceWrite") (as_text access)

-- `validateOwnedPaths`
unfoldable pub validate_owned_paths : Option Json → IssuePath → Option Json → Issues
validate_owned_paths input path access = elim (as_list input) [
  | none ↦ issue_if true path "type"
  | some js ↦
      issue_if (wants_paths access && is_nil js) path "ownership_required"
      also issue_if (ltb 64 (length js)) path "maximum"
      also owned_path_items js 0 [] path
]

abbrev pub tier_effort_issues : Option ModelTier → Option ReasoningEffort → IssuePath → Issues
tier_effort_issues (some tier) (some effort) path =
    policy_issue (assert_tier_effort tier effort) path
tier_effort_issues _ _ path = []

-- The check of the tier, where all that it reads has its type and range.
abbrev pub tier_assignment_issues :
    Option ModelTier
    → Option Number
    → Option Number
    → Option Bool
    → Option (List Json)
    → IssuePath
    → Issues
tier_assignment_issues (some tier) (some difficulty) (some ambiguity) (some critical) (some paths)
      path =
    if is_unit_number difficulty && is_unit_number ambiguity
    then policy_issue
        (assert_tier_assignment tier (record {
          difficulty = difficulty;
          ambiguity = ambiguity;
          critical = critical;
          owned_path_count = length paths;
        }))
        path
    else []
tier_assignment_issues _ _ _ _ _ path = []

abbrev pub task_keys : List String
task_keys =
    "id" ∷ "objective" ∷ "domain" ∷ "tier" ∷ "minTier" ∷ "effort" ∷ "access" ∷ "ownedPaths"
    ∷ "dependsOn" ∷ "capabilities" ∷ "validation" ∷ "communicationWith" ∷ "expectedSeconds"
    ∷ "expectedCostUsd" ∷ "difficulty" ∷ "ambiguity" ∷ "confidence" ∷ "critical"
    ∷ "validatorStrength" ∷ []

abbrev pub task_members : Map Json → IssuePath → Issues
task_members input path =
    let get = λ (k : String). lookup k input in
    let at = at_key path in
    let tier = value_of_member tiers (as_text (get "tier")) in
    reject_unknown_keys input task_keys path
    also validate_identifier (get "id") (at "id")
    also validate_text (get "objective") (at "objective") 8000
    also validate_enum (get "domain") (names domains) (at "domain")
    also validate_enum (get "tier") (names tiers) (at "tier")
    also if_present (get "minTier") (λ t. validate_enum t (names tiers) (at "minTier"))
    also validate_enum (get "effort") (names efforts) (at "effort")
    also tier_effort_issues tier (value_of_member efforts (as_text (get "effort"))) (at "effort")
    also validate_enum (get "access") (names accesses) (at "access")
    also validate_owned_paths (get "ownedPaths") (at "ownedPaths") (get "access")
    also validate_string_array (get "dependsOn") (at "dependsOn") 0 16 128
    also validate_capabilities (get "capabilities") (at "capabilities")
    also validate_validation_specs (get "validation") (at "validation")
    also validate_string_array (get "communicationWith") (at "communicationWith") 0 16 128
    also validate_positive_number (get "expectedSeconds") (at "expectedSeconds")
    also if_present (get "expectedCostUsd")
        (λ n. validate_non_negative_number n (at "expectedCostUsd"))
    also validate_unit_number (get "difficulty") (at "difficulty")
    also validate_unit_number (get "ambiguity") (at "ambiguity")
    also validate_unit_number (get "confidence") (at "confidence")
    also issue_if (not (is_some (as_boolean (get "critical")))) (at "critical") "type"
    also if_present (get "validatorStrength")
        (λ v. validate_enum v (names strengths) (at "validatorStrength"))
    also tier_assignment_issues tier (as_number (get "difficulty")) (as_number (get "ambiguity"))
        (as_boolean (get "critical")) (as_list (get "ownedPaths")) (at "tier")

-- `validateLeafTask`
unfoldable pub validate_leaf_task : Option Json → IssuePath → Issues
unfolding validate_owned_paths validate_capabilities validate_validation_specs validate_string_array
validate_leaf_task = with_record task_members

abbrev pub integration_members : Map Json → IssuePath → Issues
integration_members input path =
    let get = λ (k : String). lookup k input in
    let at = at_key path in
    reject_unknown_keys input
      ("objective" ∷ "requiredOutputs" ∷ "validation" ∷ "finalReview" ∷ "aggregation" ∷ []) path
    also validate_text (get "objective") (at "objective") 8000
    also validate_string_array (get "requiredOutputs") (at "requiredOutputs") 1 32 1000
    also validate_validation_specs (get "validation") (at "validation")
    also validate_enum (get "finalReview") (names reviews) (at "finalReview")
    also if_present (get "aggregation")
        (λ a. validate_enum a (names aggregations) (at "aggregation"))

-- `validateIntegration`
unfoldable pub validate_integration : Option Json → IssuePath → Issues
unfolding validate_validation_specs validate_string_array
validate_integration = with_record integration_members

abbrev pub is_op : String → Map Json → Bool
is_op op input = satisfies (λ s. s == op) (as_text (lookup "op" input))

abbrev pub operation_members : Map Json → IssuePath → Issues
operation_members input path =
    if is_op "add" input
    then reject_unknown_keys input ("op" ∷ "task" ∷ []) path
      also validate_leaf_task (lookup "task" input) (at_key path "task")
    else if is_op "replace" input
    then reject_unknown_keys input ("op" ∷ "taskId" ∷ "task" ∷ []) path
      also validate_identifier (lookup "taskId" input) (at_key path "taskId")
      also validate_leaf_task (lookup "task" input) (at_key path "task")
    else if is_op "cancel" input
    then reject_unknown_keys input ("op" ∷ "taskId" ∷ "reason" ∷ []) path
      also validate_identifier (lookup "taskId" input) (at_key path "taskId")
      also validate_text (lookup "reason" input) (at_key path "reason") 2000
    else issue_if true (at_key path "op") "enum"

-- `validatePatchOperation`
unfoldable pub validate_patch_operation : Option Json → IssuePath → Issues
unfolding validate_leaf_task
validate_patch_operation = with_record operation_members
