-- ===== src/Plans/Patches/Guarantees.antt =====
-- src/core/plan-validation.ts: what `applyPlanPatch` guarantees of the plan that it gives.
use codex_mission_ledger.Prelude.{
  ◌≡◌, refl, sym, subst, String, true, none, some, List, [], ◌∷◌, ◌==◌, inl, inr, arith,
}
use codex_mission_ledger.Prelude.Tests.{Bool-cases}
use codex_mission_ledger.Prelude.Lists.{includes, All}
use codex_mission_ledger.Contracts.{ExecutionPlan, ExecutionLimits, LimitOverrides, PlanPatch}
use codex_mission_ledger.Plans.Json.{Json}
use codex_mission_ledger.Plans.Shape.{Issues}
use codex_mission_ledger.Plans.Codec.{encode_plan}
use codex_mission_ledger.Plans.Codec.Members.{also-nil}
use codex_mission_ledger.Plans.Validation.{
  PlanValidationResult, valid, invalid, resolve_limits, validate_execution_plan,
}
use codex_mission_ledger.Plans.Validation.Casts.{NamesIssue, validate_execution_plan-NamesIssue}
use codex_mission_ledger.Plans.Validation.Meaning.{IsMeaningful}
use codex_mission_ledger.Plans.Validation.Form.{IsWellFormed, validate_execution_plan-IsWellFormed}
use codex_mission_ledger.Plans.Validation.Soundness.{
  validate_execution_plan-IsMeaningful, validate_execution_plan-encode_plan,
}
use codex_mission_ledger.Plans.Patches.{
  build_patched_plan, effective_issues, as_overrides, patched_issues, task_ids, unless_any,
  issues_on_base, validate_patch_semantics, with_patch, options_for, apply_plan_patch,
}
use codex_mission_ledger.Plans.Patches.Soundness.{
  Spares, tasks_with, tasks_with-apply_operations, operations-Spares, IsAdmitted,
  validate_plan_patch-IsAdmitted,
}

-- The overrides under which the patched plan is checked
abbrev pub checked_overrides : LimitOverrides → LimitOverrides
checked_overrides limits = as_overrides (resolve_limits limits).0

-- What is known of a plan that is patched: it is accepted as a new plan is, its members are well formed,
-- and it makes sense under the limits.
pub record IsPatched (base plan : ExecutionPlan) (overrides : LimitOverrides)
    (immutable : List String) : Type 0 where
  pub same_id : plan.plan_id ≡ base.plan_id
  pub keeps :
      (id : String)
      → includes immutable id ≡ true
      → includes (task_ids base.tasks) id ≡ true
      → tasks_with id plan.tasks ≡ tasks_with id base.tasks
  pub accepted : validate_execution_plan (encode_plan plan) overrides none ≡ valid plan
  pub well_formed : IsWellFormed plan (resolve_limits overrides).0
  pub meaningful : IsMeaningful plan (resolve_limits overrides).0

unless_any-nil :
    (issues later : Issues) → unless_any issues later ≡ [] → (issues ≡ []) × (later ≡ [])
unless_any-nil [] later h = (refl, h)
unless_any-nil (i ∷ is) later h = absurd cc

effective_issues-nil :
    (r : PlanValidationResult ExecutionPlan)
    → NamesIssue r
    → effective_issues r ≡ []
    → (plan : ExecutionPlan) × (r ≡ valid plan)
effective_issues-nil (valid plan) named h = (plan, refl)
effective_issues-nil (invalid []) named h = absurd (named refl)
effective_issues-nil (invalid (i ∷ is)) named h = absurd cc

some-injective {ℓ} : {A : Type ℓ} (a b : A) → some a ≡ some b → a ≡ b
some-injective a b e = cc

patched_issues-valid :
    (base : ExecutionPlan) (patch : PlanPatch) (limits : ExecutionLimits)
    → patched_issues base patch limits ≡ []
    → validate_execution_plan
        (encode_plan (build_patched_plan base patch))
        (as_overrides limits)
        none
      ≡ valid (build_patched_plan base patch)
patched_issues-valid base patch limits h =
    let plan = build_patched_plan base patch in
    let found =
      effective_issues-nil _
        (validate_execution_plan-NamesIssue (encode_plan plan) (as_overrides limits) none) h in
    let same =
      some-injective _ _
        (validate_execution_plan-encode_plan plan found.0 (as_overrides limits) none found.1) in
    subst (λ p. validate_execution_plan (encode_plan plan) (as_overrides limits) none ≡ valid p)
      (sym same) found.1

built_id :
    (base : ExecutionPlan) (patch : PlanPatch)
    → (build_patched_plan base patch).plan_id ≡ base.plan_id
unfolding build_patched_plan
built_id base patch = refl

built_tasks :
    (base : ExecutionPlan) (patch : PlanPatch) (id : String)
    → All (Spares id) patch.operations
    → tasks_with id (build_patched_plan base patch).tasks ≡ tasks_with id base.tasks
unfolding build_patched_plan
built_tasks base patch id h = tasks_with-apply_operations id patch.operations base.tasks h

build_patched_plan-IsPatched :
    (base : ExecutionPlan) (patch : PlanPatch) (limits : ExecutionLimits) (immutable : List String)
    → validate_patch_semantics patch (some base) limits immutable ≡ []
    → IsPatched base (build_patched_plan base patch) (as_overrides limits) immutable
unfolding validate_patch_semantics
build_patched_plan-IsPatched base patch limits immutable h =
    elim (Bool-cases (patch.plan_id == base.plan_id)) [
      | inl same ↦
          let split = unless_any-nil _ _ (rw (same, issues_on_base) at h) in
          let loops = also-nil _ _ split.0 in
          let plan = build_patched_plan base patch in
          let passed = patched_issues-valid base patch limits split.1 in
          record {
            same_id = built_id base patch;
            keeps = λ id fixed there. built_tasks base patch id (
                operations-Spares (task_ids base.tasks) immutable [] id 0 0 patch.operations there
                  fixed loops.0 loops.1);
            accepted = passed;
            well_formed =
                validate_execution_plan-IsWellFormed plan plan (as_overrides limits) none passed;
            meaningful =
                (validate_execution_plan-IsMeaningful (encode_plan plan) (as_overrides limits) none
                  plan passed).1;
          }
      | inr other ↦ absurd (ground (arith, (also-nil _ _ (rw (other, issues_on_base) at h)).1))
    ]

abbrev IsApplied :
    ExecutionPlan → LimitOverrides → List String → PlanValidationResult ExecutionPlan → Type 0
IsApplied base overrides immutable (invalid issues) = Unit
IsApplied base overrides immutable (valid plan) = IsPatched base plan overrides immutable

with_patch-IsApplied :
    (base : ExecutionPlan) (limits : LimitOverrides) (immutable : List String)
    (r : PlanValidationResult PlanPatch)
    → IsAdmitted (options_for base limits immutable) (resolve_limits limits).0 r
    → IsApplied base (checked_overrides limits) immutable (with_patch base r)
with_patch-IsApplied base limits immutable (invalid issues) h = tt
with_patch-IsApplied base limits immutable (valid patch) h =
    build_patched_plan-IsPatched base patch (resolve_limits limits).0 immutable h

-- A plan that a patch gives has the id of the plan before and, for each immutable id that this plan
-- has, just its tasks of that id; validateExecutionPlan accepts it, as a new plan, under the limits of
-- the patch. So it has at least one task and no more than maxLeaves, with well-formed ids, texts and
-- paths and with efforts and tiers that are admitted, and it makes sense as any accepted plan does.
pub apply_plan_patch-IsPatched :
    (base : ExecutionPlan) (input : Json) (limits : LimitOverrides) (immutable : List String)
    (plan : ExecutionPlan)
    → apply_plan_patch base input limits immutable ≡ valid plan
    → IsPatched base plan (checked_overrides limits) immutable
unfolding apply_plan_patch
apply_plan_patch-IsPatched base input limits immutable plan e =
    subst (IsApplied base (checked_overrides limits) immutable) e (
      with_patch-IsApplied base limits immutable _
        (validate_plan_patch-IsAdmitted input (options_for base limits immutable)))
