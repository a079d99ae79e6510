-- ===== src/Policy/Checks.antt =====
-- src/core/policy.ts: what a failed validator says about a leaf.
pub mod Failed
pub mod Laws
mod Tests
use codex_mission_ledger.Prelude.{Bool, true, false, not, ◌&&◌, Option, some, List, [], ◌∷◌, map}
use codex_mission_ledger.Prelude.Tests.{if◌then◌else◌, is_some}
use codex_mission_ledger.Prelude.Lists.{any, all, keep, includes}
use codex_mission_ledger.Contracts.{
  LeafTask, LeafResult, ValidationResult, ValidationSpec, FailureKind, is_completed, is_failed,
  is_failed_check, is_kind,
}

pub data ValidatorFailureClassification : Type 0 where
  none mechanical semantic : ValidatorFailureClassification

abbrev pub failed_checks : LeafResult → List ValidationResult
failed_checks result = keep (λ v. is_failed_check v.status) result.validation

abbrev pub is_nil {ℓ} : {A : Type ℓ} → List A → Bool
is_nil [] = true
is_nil (x ∷ xs) = false

abbrev pub declared_commands : LeafTask → LeafResult → Bool
declared_commands task result =
    all (λ v. includes (map (λ s. s.command) task.validation) v.command) (failed_checks result)

abbrev pub classify_known : LeafTask → LeafResult → ValidatorFailureClassification
classify_known task result =
    if is_nil task.validation
    then ValidatorFailureClassification.semantic
    else if not (is_completed result.status)
        && not (is_kind FailureKind.validation result.failure_kind)
    then ValidatorFailureClassification.semantic
    else if is_some result.failure_kind && not (is_kind FailureKind.validation result.failure_kind)
    then ValidatorFailureClassification.semantic
    else if declared_commands task result
    then ValidatorFailureClassification.mechanical
    else ValidatorFailureClassification.semantic

abbrev classify_failed : Option LeafTask → LeafResult → ValidatorFailureClassification
classify_failed Option.none result = ValidatorFailureClassification.semantic
classify_failed (some task) result = classify_known task result

-- `classifyValidatorFailure`
unfoldable pub classify_validator_failure :
    Option LeafTask → LeafResult → ValidatorFailureClassification
classify_validator_failure task result =
    if is_nil (failed_checks result)
    then (if is_failed result.status && is_kind FailureKind.validation result.failure_kind
        then ValidatorFailureClassification.semantic
        else ValidatorFailureClassification.none)
    else classify_failed task result

abbrev pub is_mechanical : ValidatorFailureClassification → Bool
is_mechanical ValidatorFailureClassification.mechanical = true
is_mechanical _ = false

abbrev pub is_semantic : ValidatorFailureClassification → Bool
is_semantic ValidatorFailureClassification.semantic = true
is_semantic _ = false
