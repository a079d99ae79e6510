-- ===== src/Plans/Patches/Soundness.antt =====
-- src/core/plan-validation.ts: what an accepted patch leaves alone in a plan.
use codex_mission_ledger.Prelude.{
  ℕ, suc, ◌≡◌, refl, ap, sym, subst, ◌∙◌, String, true, false, not, ◌&&◌, Option, none, some, List,
  [], ◌∷◌, ◌++◌, ◌==◌, inl, inr, arith, eq_iff,
}
use codex_mission_ledger.Prelude.Tests.{if◌then◌else◌, Bool-cases, Option-cases}
use codex_mission_ledger.Prelude.Lists.{includes, keep, All}
use codex_mission_ledger.Contracts.{LeafTask, ExecutionLimits, PlanPatch, PlanPatchOperation}
use codex_mission_ledger.Plans.Json.{Json, as_record}
use codex_mission_ledger.Plans.Shape.{Issues}
use codex_mission_ledger.Plans.Codec.{decode_patch}
use codex_mission_ledger.Plans.Codec.Members.{also-nil, issue_if-nil}
use codex_mission_ledger.Plans.Nulls.{normalize_optional_plan_nulls}
use codex_mission_ledger.Plans.Validation.{
  PlanValidationResult, valid, invalid, verdict, resolve_limits,
}
use codex_mission_ledger.Plans.Patches.{
  PlanPatchValidationOptions, replace_first, without_task, apply_operation, apply_operations,
  target_of, renames, is_add, operation_issues, base_issues, validate_patch_semantics, judge_patch,
  validate_normal_patch, validate_plan_patch,
}

-- The tasks with an id
abbrev pub tasks_with : String → List LeafTask → List LeafTask
tasks_with id = keep (λ t. t.id == id)

-- An operation that has another id as its target and keeps it.
abbrev pub Spares : String → PlanPatchOperation → Type 0
Spares id op = ((target_of op == id) ≡ false) × (renames op ≡ false)

other_of :
    (a target id : String) → (a == target) ≡ true → (target == id) ≡ false → (a == id) ≡ false
other_of a target id same other =
    subst (λ x. (x == id) ≡ false) (sym ((eq_iff a target).0 same)) other

tasks_with-append :
    (id : String) (tasks : List LeafTask) (task : LeafTask)
    → (task.id == id) ≡ false
    → tasks_with id (tasks ++ task ∷ []) ≡ tasks_with id tasks
tasks_with-append id [] task other = rw other refl
tasks_with-append id (t ∷ ts) task other =
    ap (λ rest. if t.id == id then t ∷ rest else rest) (tasks_with-append id ts task other)

tasks_with-replace_first :
    (id target : String) (task : LeafTask) (tasks : List LeafTask)
    → (target == id) ≡ false
    → (task.id == target) ≡ true
    → tasks_with id (replace_first target task tasks) ≡ tasks_with id tasks
tasks_with-replace_first id target task [] other same = refl
tasks_with-replace_first id target task (t ∷ ts) other same = elim (Bool-cases (t.id == target)) [
  | inl here ↦
      rw (here, other_of task.id target id same other, other_of t.id target id here other) refl
  | inr later ↦ rw later (
      ap (λ rest. if t.id == id then t ∷ rest else rest)
        (tasks_with-replace_first id target task ts other same))
]

tasks_with-without_task :
    (id target : String) (tasks : List LeafTask)
    → (target == id) ≡ false
    → tasks_with id (without_task target tasks) ≡ tasks_with id tasks
tasks_with-without_task id target [] other = refl
tasks_with-without_task id target (t ∷ ts) other = elim (Bool-cases (t.id == target)) [
  | inl here ↦
      rw (here, other_of t.id target id here other) (tasks_with-without_task id target ts other)
  | inr later ↦ rw later (
      ap (λ rest. if t.id == id then t ∷ rest else rest)
        (tasks_with-without_task id target ts other))
]

tasks_with-apply_operation :
    (id : String) (op : PlanPatchOperation) (tasks : List LeafTask)
    → Spares id op
    → tasks_with id (apply_operation tasks op) ≡ tasks_with id tasks
tasks_with-apply_operation id (PlanPatchOperation.add task) tasks (other, same) =
    tasks_with-append id tasks task other
tasks_with-apply_operation id (PlanPatchOperation.replace target task) tasks (other, same) =
    tasks_with-replace_first id target task tasks other (ground (arith, same))
tasks_with-apply_operation id (PlanPatchOperation.cancel target reason) tasks (other, same) =
    tasks_with-without_task id target tasks other

pub tasks_with-apply_operations :
    (id : String) (ops : List PlanPatchOperation) (tasks : List LeafTask)
    → All (Spares id) ops
    → tasks_with id (apply_operations tasks ops) ≡ tasks_with id tasks
tasks_with-apply_operations id [] tasks h = refl
tasks_with-apply_operations id (op ∷ ops) tasks (h, hs) =
    tasks_with-apply_operations id ops (apply_operation tasks op) hs
    ∙ tasks_with-apply_operation id op tasks h

-- What the two loops over the operations say of a task that is there and has to stay.
spared :
    (existing immutable : List String) (id : String) (op : PlanPatchOperation)
    → includes existing id ≡ true
    → includes immutable id ≡ true
    → (is_add op && includes existing (target_of op)) ≡ false
    → (not (is_add op) && includes immutable (target_of op)) ≡ false
    → (target_of op == id) ≡ false
spared existing immutable id op there fixed added changed = elim (Bool-cases (target_of op == id)) [
  | inl same ↦
      let equal = (eq_iff (target_of op) id).0 same in
      let in_base = subst (λ x. includes existing x ≡ true) (sym equal) there in
      let in_fixed = subst (λ x. includes immutable x ≡ true) (sym equal) fixed in
      absurd (ground (arith, added, changed, in_base, in_fixed))
  | inr other ↦ other
]

pub operations-Spares :
    (existing immutable targeted : List String) (id : String) (n m : ℕ)
    (ops : List PlanPatchOperation)
    → includes existing id ≡ true
    → includes immutable id ≡ true
    → operation_issues n targeted ops ≡ []
    → base_issues existing immutable m ops ≡ []
    → All (Spares id) ops
operations-Spares existing immutable targeted id n m [] there fixed h b = tt
operations-Spares existing immutable targeted id n m (op ∷ ops) there fixed h b =
    let h1 = also-nil _ _ (also-nil _ _ h).1 in
    let b1 = also-nil _ _ b in
    let b2 = also-nil _ _ (also-nil _ _ b1.1).1 in
    (
      (
        spared existing immutable id op there fixed (issue_if-nil _ _ _ b1.0)
            (issue_if-nil _ _ _ b2.0),
        issue_if-nil _ _ _ h1.0,
      ),
      operations-Spares existing immutable (target_of op ∷ targeted) id (suc n) (suc m) ops there
          fixed h1.1 b2.1,
    )

-- A patch that is accepted has no issues on its base.
abbrev pub IsAdmitted :
    PlanPatchValidationOptions → ExecutionLimits → PlanValidationResult PlanPatch → Type 0
IsAdmitted options limits (invalid issues) = Unit
IsAdmitted options limits (valid patch) =
    validate_patch_semantics patch options.base_plan limits options.immutable_task_ids ≡ []

verdict-IsAdmitted :
    (options : PlanPatchValidationOptions) (limits : ExecutionLimits) (patch : PlanPatch)
    (issues : Issues)
    → issues ≡ validate_patch_semantics patch options.base_plan limits options.immutable_task_ids
    → IsAdmitted options limits (verdict patch issues)
verdict-IsAdmitted options limits patch [] e = sym e
verdict-IsAdmitted options limits patch (i ∷ is) e = tt

judge_patch-IsAdmitted :
    (options : PlanPatchValidationOptions) (limits : ExecutionLimits) (issues : Issues)
    (patch : Option PlanPatch)
    → IsAdmitted options limits (judge_patch options limits issues patch)
judge_patch-IsAdmitted options limits [] none = tt
judge_patch-IsAdmitted options limits [] (some patch) =
    verdict-IsAdmitted options limits patch _ refl
judge_patch-IsAdmitted options limits (i ∷ is) patch = tt

pub validate_plan_patch-IsAdmitted :
    (input : Json) (options : PlanPatchValidationOptions)
    → IsAdmitted options (resolve_limits options.limits).0 (validate_plan_patch input options)
unfolding validate_plan_patch
validate_plan_patch-IsAdmitted input options =
    elim (Option-cases (as_record (normalize_optional_plan_nulls input))) [
      | inl gone ↦ rw (gone, validate_normal_patch) tt
      | inr (ms, e) ↦
          rw (e, validate_normal_patch)
            (judge_patch-IsAdmitted options _ _
              (decode_patch (some (normalize_optional_plan_nulls input))))
    ]
