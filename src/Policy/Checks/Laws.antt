-- ===== src/Policy/Checks/Laws.antt =====
-- src/core/policy.ts: when a failed validator counts as mechanically repairable.
use mathlib.Core.List.{Memᴰ}
use codex_mission_ledger.Prelude.{
  ◌≡◌, refl, ◌↔◌, ◌⊎◌, true, false, not, ◌&&◌, ◌||◌, Option, none, some, List, [], ◌∷◌, map, arith,
}
use codex_mission_ledger.Prelude.Tests.{is_some}
use codex_mission_ledger.Prelude.Lists.{includes}
use codex_mission_ledger.Contracts.{
  LeafTask, LeafResult, LeafStatus, FailureKind, ValidationResult, ValidationSpec, ValidationStatus,
  is_completed, is_failed_check, is_kind,
}
use codex_mission_ledger.Policy.Checks.{
  ValidatorFailureClassification, classify_validator_failure, is_nil, failed_checks,
  declared_commands,
}
use codex_mission_ledger.Policy.Checks.Failed.{
  keep-member, member-keep, all-member, member-all, commands-member, member-commands,
  is_failed_check_iff,
}

-- A failure of declared checks alone.
pub record IsRepairable (task : LeafTask) (result : LeafResult) : Type 0 where
  pub fails :
      (v : ValidationResult) × Memᴰ v result.validation × (v.status ≡ ValidationStatus.failed)
  pub declared :
      (v : ValidationResult)
      → Memᴰ v result.validation
      → v.status ≡ ValidationStatus.failed
      → (s : ValidationSpec) × Memᴰ s task.validation × (s.command ≡ v.command)
  pub cause :
      (result.failure_kind ≡ some FailureKind.validation)
      ⊎ ((result.failure_kind ≡ none) × (result.status ≡ LeafStatus.completed))

mechanical_tests :
    (task : LeafTask) (result : LeafResult)
    → (classify_validator_failure (some task) result ≡ ValidatorFailureClassification.mechanical)
      ↔ ((is_nil (failed_checks result) ≡ false)
          × (is_nil task.validation ≡ false)
          × (declared_commands task result ≡ true)
          × ((is_kind FailureKind.validation result.failure_kind
                || (is_completed result.status && not (is_some result.failure_kind)))
              ≡ true))
unfolding classify_validator_failure
mechanical_tests task result = ground arith

cause_iff :
    (kind : Option FailureKind) (status : LeafStatus)
    → ((is_kind FailureKind.validation kind || (is_completed status && not (is_some kind))) ≡ true)
      ↔ ((kind ≡ some FailureKind.validation) ⊎ ((kind ≡ none) × (status ≡ LeafStatus.completed)))
cause_iff kind status = ground arith

some_declared :
    (task : LeafTask) (s : ValidationSpec) → Memᴰ s task.validation → is_nil task.validation ≡ false
some_declared task s inside = go task.validation inside
  where
    go : (specs : List ValidationSpec) → Memᴰ s specs → is_nil specs ≡ false
    go [] inside = elim inside [ ]
    go (t ∷ specs) inside = refl

-- A failure counts as mechanical exactly when some check failed, the leaf declares a check with the
-- command of each failed one, and nothing else went wrong: the kind of the failure is "validation", or
-- there is none and the result is completed.
pub is_mechanical_iff :
    (task : LeafTask) (result : LeafResult)
    → (classify_validator_failure (some task) result ≡ ValidatorFailureClassification.mechanical)
      ↔ IsRepairable task result
is_mechanical_iff task result =
    let failing = λ (v : ValidationResult). is_failed_check v.status in
    let known =
      λ (v : ValidationResult). includes (map (λ s. s.command) task.validation) v.command in
    let (to, from) = mechanical_tests task result in
    let (to_cause, from_cause) = cause_iff result.failure_kind result.status in
    (
      λ h.
          let (fails, nonempty, declared, cause) = to h in
          let (v, inside, failed) = keep-member failing result.validation fails in
          record {
            fails = (v, inside, (is_failed_check_iff v.status).0 failed);
            declared = λ w in_result bad. commands-member task.validation w.command (
                all-member failing known w result.validation declared in_result
                  ((is_failed_check_iff w.status).1 bad));
            cause = to_cause cause;
          },
      λ r.
          let (v, inside, failed) = r.fails in
          let (s, in_task, same) = r.declared v inside failed in
          from (
            member-keep failing v result.validation inside
                ((is_failed_check_iff v.status).1 failed),
            some_declared task s in_task,
            member-all failing known result.validation (λ w in_result bad.
                let (u, declared, equal) =
                  r.declared w in_result ((is_failed_check_iff w.status).0 bad) in
                member-commands task.validation u w.command declared equal),
            from_cause r.cause,
          ),
    )
