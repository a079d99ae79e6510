-- ===== src/Policy/Checks/Tests.antt =====
-- src/core/policy.ts: failed validators at concrete results.
use codex_mission_ledger.Prelude.{◌≡◌, ◌↔◌, refl, none, some, [], ◌∷◌}
use codex_mission_ledger.Contracts.{LeafTask, LeafResult, ValidationStatus}
use codex_mission_ledger.Contracts.Samples.{task, result}
use codex_mission_ledger.Policy.Checks.{ValidatorFailureClassification, classify_validator_failure}
use codex_mission_ledger.Policy.Checks.Laws.{IsRepairable, is_mechanical_iff}

abbrev checked : LeafTask
checked = record (task "a" []) {
  validation = record { command = "npm test"; cwd = none; timeout_ms = none } ∷ [];
}

abbrev failing : LeafResult
failing = record (result "a") {
  validation =
      record { command = "npm test"; status = ValidationStatus.failed; summary = "1 failed" } ∷ [];
}

is_mechanical_iff_example :
    (classify_validator_failure (some checked) failing ≡ ValidatorFailureClassification.mechanical)
    ↔ IsRepairable checked failing
is_mechanical_iff_example = is_mechanical_iff checked failing

repairable :
    classify_validator_failure (some checked) failing ≡ ValidatorFailureClassification.mechanical
unfolding classify_validator_failure
repairable = refl

-- One undeclared check among the failed ones is enough for a semantic failure.
abbrev other_failure : LeafResult
other_failure = record failing {
  validation =
      record { command = "curl"; status = ValidationStatus.failed; summary = "1 failed" }
      ∷ failing.validation;
}

undeclared :
    classify_validator_failure (some checked) other_failure
    ≡ ValidatorFailureClassification.semantic
unfolding classify_validator_failure
undeclared = refl
