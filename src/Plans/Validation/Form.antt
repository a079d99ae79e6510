-- ===== src/Plans/Validation/Form.antt =====
-- src/core/plan-validation.ts: what the checks on single members say of a plan that is written as a
-- JSON value and accepted.
use codex_mission_ledger.Prelude.{
  ℕ, suc, ◌≤◌, ◌≡◌, refl, ap, subst, true, false, Option, none, some, List, [], ◌∷◌, map, arith,
}
use codex_mission_ledger.Prelude.Lists.{length, All}
use codex_mission_ledger.Prelude.Maps.{Map, lookup}
use codex_mission_ledger.Contracts.{LeafTask, ExecutionPlan, ExecutionLimits, LimitOverrides}
use codex_mission_ledger.Policy.Checks.{is_nil}
use codex_mission_ledger.Plans.Json.{Json, obj, members_map-members_of, items_list-items_of}
use codex_mission_ledger.Plans.Shape.{
  IssuePath, root, Issues, ◌also◌, is_bounded_text, is_identifier,
}
use codex_mission_ledger.Plans.Shape.Tasks.{each_item, validate_leaf_task}
use codex_mission_ledger.Plans.Codec.{encode_task, plan_entries, encode_plan, decode_plan}
use codex_mission_ledger.Plans.Codec.Members.{also-nil, issue_if-nil}
use codex_mission_ledger.Plans.Nulls.Normal.{normalize_optional_plan_nulls-encode_plan}
use codex_mission_ledger.Plans.Validation.{
  PlannedExecutionRoute, PlanValidationResult, valid, invalid, verdict, judge_plan, count_issues,
  plan_members, validate_normal_plan, resolve_limits, validate_execution_plan,
}
use codex_mission_ledger.Plans.Validation.Tasks.{
  IsWellFormedTask, passes, later, validate_leaf_task-IsWellFormedTask,
}

pub record IsWellFormed (plan : ExecutionPlan) (limits : ExecutionLimits) : Type 0 where
  pub identified : is_identifier plan.plan_id ≡ true
  pub told : is_bounded_text 12000 plan.objective ≡ true
  pub has_tasks : 1 ≤ length plan.tasks
  pub few_tasks : length plan.tasks ≤ limits.max_leaves
  pub tasks_formed : All IsWellFormedTask plan.tasks

each_item-All :
    (ts : List LeafTask) (index : ℕ) (path : IssuePath)
    → each_item (λ j. validate_leaf_task (some j)) (map encode_task ts) index path ≡ []
    → All IsWellFormedTask ts
each_item-All [] index path h = tt
each_item-All (t ∷ ts) index path h =
    let (first, rest) = also-nil _ _ h in
    (validate_leaf_task-IsWellFormedTask t _ first, each_item-All ts (suc index) path rest)

length-map_task : (ts : List LeafTask) → length (map encode_task ts) ≡ length ts
length-map_task [] = refl
length-map_task (t ∷ ts) = ap suc (length-map_task ts)

count_issues-bounds :
    (tasks : List Json) (limits : ExecutionLimits) (route : Option PlannedExecutionRoute)
    → count_issues tasks limits route ≡ []
    → (1 ≤ length tasks) × (length tasks ≤ limits.max_leaves)
count_issues-bounds tasks limits route h =
    let (some_task, rest) = also-nil _ _ h in
    let few = issue_if-nil _ _ _ (later _ _ (later _ _ rest)) in
    (not_nil tasks (issue_if-nil _ _ _ some_task), ground (arith, few))
  where
    not_nil : (js : List Json) → is_nil js ≡ false → 1 ≤ length js
    not_nil [] h = absurd cc
    not_nil (j ∷ js) h = omega arith

plan_members-IsWellFormed :
    (plan : ExecutionPlan) (limits : ExecutionLimits) (route : Option PlannedExecutionRoute)
    (path : IssuePath)
    → plan_members limits route (plan_entries plan) path ≡ []
    → IsWellFormed plan limits
unfolding plan_entries lookup
plan_members-IsWellFormed plan limits route path h =
    let h2 = later _ _ (later _ _ h) in
    let h3 = later _ _ h2 in
    let h7 = later _ _ (later _ _ (later _ _ (later _ _ (later _ _ h3)))) in
    let checked = rw (items_list-items_of (map encode_task plan.tasks)) at (also-nil _ _ h7).0 in
    let (counted, each) = also-nil _ _ checked in
    let (least, most) = count_issues-bounds (map encode_task plan.tasks) limits route counted in
    record {
      identified = passes _ _ _ (also-nil _ _ h2).0;
      told = passes _ _ _ (also-nil _ _ h3).0;
      has_tasks = omega (arith, least, length-map_task plan.tasks);
      few_tasks = omega (arith, most, length-map_task plan.tasks);
      tasks_formed = each_item-All plan.tasks 0 _ each;
    }

-- What is accepted has no issues in its members.
abbrev IsClean :
    ExecutionLimits
    → Option PlannedExecutionRoute
    → Map Json
    → PlanValidationResult ExecutionPlan
    → Type 0
IsClean limits route ms (invalid issues) = Unit
IsClean limits route ms (valid plan) = plan_members limits route ms root ≡ []

verdict-IsClean :
    (limits : ExecutionLimits) (route : Option PlannedExecutionRoute) (ms : Map Json)
    (plan : ExecutionPlan) (issues : Issues)
    → (issues ≡ [] → plan_members limits route ms root ≡ [])
    → IsClean limits route ms (verdict plan issues)
verdict-IsClean limits route ms plan [] h = h refl
verdict-IsClean limits route ms plan (i ∷ is) h = tt

judge_plan-IsClean :
    (limits : ExecutionLimits) (before : Issues) (route : Option PlannedExecutionRoute)
    (ms : Map Json) (read : Option ExecutionPlan)
    → IsClean limits route ms
        (judge_plan limits (before also plan_members limits route ms root) read)
judge_plan-IsClean limits before route ms none = tt
judge_plan-IsClean limits before route ms (some plan) =
    verdict-IsClean limits route ms plan _ λ e. later _ _ (also-nil _ _ e).0

-- A plan that is accepted, where it is given as a JSON value, has well-formed tasks, at least one and
-- no more than the limits allow.
pub validate_execution_plan-IsWellFormed :
    (p plan : ExecutionPlan) (overrides : LimitOverrides) (route : Option PlannedExecutionRoute)
    → validate_execution_plan (encode_plan p) overrides route ≡ valid plan
    → IsWellFormed p (resolve_limits overrides).0
unfolding validate_execution_plan encode_plan
validate_execution_plan-IsWellFormed p plan overrides route e =
    let limits = resolve_limits overrides in
    let ms = plan_entries p in
    let read =
      subst (λ j. validate_normal_plan limits route j ≡ valid plan)
        (normalize_optional_plan_nulls-encode_plan p) e in
    let judged =
      subst
        (λ m.
          judge_plan limits.0 (limits.1 also plan_members limits.0 route m root)
            (decode_plan (some (obj ms)))
          ≡ valid plan)
        (members_map-members_of ms) read in
    plan_members-IsWellFormed p limits.0 route root (
      subst (IsClean limits.0 route ms) judged
        (judge_plan-IsClean limits.0 limits.1 route ms (decode_plan (some (obj ms)))))
