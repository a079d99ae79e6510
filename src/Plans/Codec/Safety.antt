-- ===== src/Plans/Codec/Safety.antt =====
-- src/core/plan-validation.ts: a JSON value without issues has the members that the types of
-- src/core/contracts.ts name, so the casts of the source are sound.
use codex_mission_ledger.Prelude.{◌≡◌, String, Bool, true, false, Option, some, []}
use codex_mission_ledger.Prelude.Tests.{if◌then◌else◌}
use codex_mission_ledger.Prelude.Maps.{Map, lookup}
use codex_mission_ledger.Plans.Names.{
  tiers, strengths, aggregations, kinds, domains, efforts, accesses, reviews,
}
use codex_mission_ledger.Plans.Json.{Json, as_text, as_number, as_boolean}
use codex_mission_ledger.Plans.Shape.{IssuePath, at_key, Issues}
use codex_mission_ledger.Plans.Shape.Tasks.{
  with_record, capability_members, specification_members, task_members, integration_members,
  operation_members, is_op, validate_capabilities, validate_validation_specs, validate_leaf_task,
  validate_integration, validate_patch_operation,
}
use codex_mission_ledger.Plans.Codec.{
  optional, read_list, read_value, decode_capability, decode_specification, decode_task,
  decode_integration, decode_operation, decode_operation_of,
}
use codex_mission_ledger.Plans.Codec.Members.{
  Decodes, found, also-nil, then-Decodes, last-Decodes, satisfies-Decodes, is_some-Decodes,
  enum-Decodes, optional-Decodes, optional_enum-Decodes, string_array-Decodes, with_items-Decodes,
  with_record-Decodes, owned_paths-Decodes,
}

capability-Decodes :
    (j : Json) (path : IssuePath)
    → with_record capability_members (some j) path ≡ []
    → Decodes (decode_capability (some j))
capability-Decodes j path h =
    with_record-Decodes capability_members _
      (λ ms at h0.
        let h1 = also-nil _ _ h0 in
        then-Decodes (read_value kinds (lookup "kind" ms)) _ _ _ h1.1
          (enum-Decodes kinds (lookup "kind" ms) (at_key at "kind"))
          λ h2 kind.
            then-Decodes (as_text (lookup "name" ms)) _ _ _ h2 (satisfies-Decodes _ _ _ _)
              λ h3 name.
                last-Decodes (optional as_text (lookup "path" ms)) _
                  (optional-Decodes as_text _ _ h3 λ p. satisfies-Decodes _ _ _ _) λ p. found _)
      (some j) path h

specification-Decodes :
    (j : Json) (path : IssuePath)
    → with_record specification_members (some j) path ≡ []
    → Decodes (decode_specification (some j))
specification-Decodes j path h =
    with_record-Decodes specification_members _
      (λ ms at h0.
        let h1 = also-nil _ _ h0 in
        then-Decodes (as_text (lookup "command" ms)) _ _ _ h1.1 (satisfies-Decodes _ _ _ _)
          λ h2 command.
            then-Decodes (optional as_text (lookup "cwd" ms)) _ _ _ h2
              (λ h. optional-Decodes as_text _ _ h λ p. satisfies-Decodes _ _ _ _)
              λ h3 cwd.
                last-Decodes (optional as_number (lookup "timeoutMs" ms)) _
                  (optional-Decodes as_number _ _ h3 λ p. satisfies-Decodes _ _ _ _) λ n. found _)
      (some j) path h

specifications-Decodes :
    (input : Option Json) (path : IssuePath)
    → validate_validation_specs input path ≡ []
    → Decodes (read_list decode_specification input)
unfolding validate_validation_specs
specifications-Decodes = with_items-Decodes decode_specification 16 _ specification-Decodes

capabilities-Decodes :
    (input : Option Json) (path : IssuePath)
    → validate_capabilities input path ≡ []
    → Decodes (read_list decode_capability input)
unfolding validate_capabilities
capabilities-Decodes = with_items-Decodes decode_capability 16 _ capability-Decodes

-- An integration contract without issues is one.
pub validate_integration-Decodes :
    (input : Option Json) (path : IssuePath)
    → validate_integration input path ≡ []
    → Decodes (decode_integration input)
unfolding validate_integration decode_integration
validate_integration-Decodes = with_record-Decodes integration_members _ (λ ms at h0.
    let h1 = also-nil _ _ h0 in
    then-Decodes (as_text (lookup "objective" ms)) _ _ _ h1.1 (satisfies-Decodes _ _ _ _)
      λ h2 objective.
        then-Decodes (read_list as_text (lookup "requiredOutputs" ms)) _ _ _ h2
          (string_array-Decodes _ _ _ _ _)
          λ h3 outputs.
            then-Decodes (read_list decode_specification (lookup "validation" ms)) _ _ _ h3
              (specifications-Decodes _ _)
              λ h4 validation.
                then-Decodes (read_value reviews (lookup "finalReview" ms)) _ _ _ h4
                  (enum-Decodes reviews (lookup "finalReview" ms) (at_key at "finalReview"))
                  λ h5 review.
                    last-Decodes (optional (read_value aggregations) (lookup "aggregation" ms)) _
                      (optional_enum-Decodes aggregations (lookup "aggregation" ms)
                        (at_key at "aggregation") h5)
                      λ a. found _)

-- A leaf task without issues is one.
pub validate_leaf_task-Decodes :
    (input : Option Json) (path : IssuePath)
    → validate_leaf_task input path ≡ []
    → Decodes (decode_task input)
unfolding validate_leaf_task decode_task
validate_leaf_task-Decodes = with_record-Decodes task_members _ (λ ms at h.
    let text = λ (key : String). as_text (lookup key ms) in
    then-Decodes (text "id") _ _ _ (also-nil _ _ h).1 (satisfies-Decodes _ _ _ _) λ h id.
      then-Decodes (text "objective") _ _ _ h (satisfies-Decodes _ _ _ _) λ h objective.
        then-Decodes (read_value domains (lookup "domain" ms)) _ _ _ h
          (enum-Decodes domains (lookup "domain" ms) (at_key at "domain"))
          λ h domain.
            then-Decodes (read_value tiers (lookup "tier" ms)) _ _ _ h
              (enum-Decodes tiers (lookup "tier" ms) (at_key at "tier"))
              λ h tier.
                then-Decodes (optional (read_value tiers) (lookup "minTier" ms)) _ _ _ h
                  (optional_enum-Decodes tiers (lookup "minTier" ms) (at_key at "minTier"))
                  λ h min.
                    then-Decodes (read_value efforts (lookup "effort" ms)) _ _ _ h
                      (enum-Decodes efforts (lookup "effort" ms) (at_key at "effort"))
                      λ h effort.
                        then-Decodes (read_value accesses (lookup "access" ms)) _ _ _
                          (also-nil _ _ h).1
                          (enum-Decodes accesses (lookup "access" ms) (at_key at "access"))
                          λ h access.
                            then-Decodes (read_list as_text (lookup "ownedPaths" ms)) _ _ _ h
                              (owned_paths-Decodes _ _ (lookup "access" ms))
                              λ h paths.
                                then-Decodes (read_list as_text (lookup "dependsOn" ms)) _ _ _ h
                                  (string_array-Decodes _ _ _ _ _)
                                  λ h depends.
                                    then-Decodes
                                      (read_list decode_capability (lookup "capabilities" ms)) _ _ _
                                      h (capabilities-Decodes _ _)
                                      λ h capabilities.
                                        then-Decodes
                                          (read_list decode_specification (lookup "validation" ms))
                                          _ _ _ h (specifications-Decodes _ _)
                                          λ h validation.
                                            then-Decodes
                                              (read_list as_text (lookup "communicationWith" ms)) _
                                              _ _ h (string_array-Decodes _ _ _ _ _)
                                              λ h talks.
                                                then-Decodes
                                                  (as_number (lookup "expectedSeconds" ms)) _ _ _ h
                                                  (satisfies-Decodes _ _ _ _)
                                                  λ h seconds.
                                                    then-Decodes
                                                      (optional as_number
                                                        (lookup "expectedCostUsd" ms))
                                                      _ _ _ h
                                                      (λ h.
                                                        optional-Decodes as_number _ _ h
                                                          λ j. satisfies-Decodes _ _ _ _)
                                                      λ h cost.
                                                        then-Decodes
                                                          (as_number (lookup "difficulty" ms)) _ _ _
                                                          h (satisfies-Decodes _ _ _ _)
                                                          λ h difficulty.
                                                            then-Decodes
                                                            (as_number (lookup "ambiguity" ms)) _ _
                                                            _ h (satisfies-Decodes _ _ _ _)
                                                            λ h ambiguity.
                                                            then-Decodes
                                                            (as_number (lookup "confidence" ms)) _ _
                                                            _ h (satisfies-Decodes _ _ _ _)
                                                            λ h confidence.
                                                            then-Decodes
                                                            (as_boolean (lookup "critical" ms)) _ _
                                                            _ h (is_some-Decodes _ _ _)
                                                            λ h critical.
                                                            last-Decodes
                                                            (optional (read_value strengths)
                                                            (lookup "validatorStrength" ms))
                                                            _
                                                            (optional_enum-Decodes strengths
                                                            (lookup "validatorStrength" ms)
                                                            (at_key at "validatorStrength")
                                                            (also-nil _ _ h).0)
                                                            λ strength. found _)

branch-Decodes {ℓ} :
    {A : Type ℓ} (b : Bool) (x y : Issues) (o p : Option A)
    → (if b then x else y) ≡ []
    → (x ≡ [] → Decodes o)
    → (y ≡ [] → Decodes p)
    → Decodes (if b then o else p)
branch-Decodes true x y o p h left right = left h
branch-Decodes false x y o p h left right = right h

operation_members-Decodes :
    (ms : Map Json) (path : IssuePath)
    → operation_members ms path ≡ []
    → Decodes (decode_operation_of ms)
operation_members-Decodes ms path h =
    branch-Decodes (is_op "add" ms) _ _ _ _ h
      (λ h.
        last-Decodes (decode_task (lookup "task" ms)) _
          (validate_leaf_task-Decodes _ _ (also-nil _ _ h).1) λ t. found _)
      λ h.
        branch-Decodes (is_op "replace" ms) _ _ _ _ h
          (λ h.
            then-Decodes (as_text (lookup "taskId" ms)) _ _ _ (also-nil _ _ h).1
              (satisfies-Decodes _ _ _ _)
              λ h id.
                last-Decodes (decode_task (lookup "task" ms)) _ (validate_leaf_task-Decodes _ _ h)
                  λ t. found _)
          λ h.
            branch-Decodes (is_op "cancel" ms) _ _ _ _ h
              (λ h.
                then-Decodes (as_text (lookup "taskId" ms)) _ _ _ (also-nil _ _ h).1
                  (satisfies-Decodes _ _ _ _)
                  λ h id.
                    last-Decodes (as_text (lookup "reason" ms)) _ (satisfies-Decodes _ _ _ _ h)
                      λ t. found _)
              λ h. absurd cc

-- An operation of a patch without issues is one.
pub validate_patch_operation-Decodes :
    (input : Option Json) (path : IssuePath)
    → validate_patch_operation input path ≡ []
    → Decodes (decode_operation input)
unfolding validate_patch_operation decode_operation
validate_patch_operation-Decodes = with_record-Decodes operation_members _ operation_members-Decodes
