-- ===== src/Plans/Nulls.antt =====
-- src/core/plan-validation.ts: model output in which an absent member stands as null, brought to the
-- form without it.
pub mod Normal
use codex_mission_ledger.Prelude.{String, Bool, true, false, Option, none, some, List, map, ◌==◌}
use codex_mission_ledger.Prelude.Tests.{if◌then◌else◌}
use codex_mission_ledger.Prelude.Maps.{Map, lookup, insert, remove, has}
use codex_mission_ledger.Plans.Json.{
  Json, object, arr, obj, members_map, is_null, as_list, as_object,
}
use codex_mission_ledger.Plans.Shape.Tasks.{is_op}

-- `if (value[key] === null) delete value[key]`
abbrev pub drop_null : String → Map Json → Map Json
drop_null key ms = if is_null (lookup key ms) then remove key ms else ms

-- `if (Array.isArray(value[key])) value[key] = value[key].map(f)`
abbrev pub map_items : String → (Json → Json) → Map Json → Map Json
map_items key f ms = elim (as_list (lookup key ms)) [
  | none ↦ ms
  | some js ↦ insert key (arr (map f js)) ms
]

-- A change of the members of an object; other values stay.
abbrev pub map_record : (Map Json → Map Json) → Json → Json
map_record change (object ms) = obj (change (members_map ms))
map_record change j = j

-- `normalizeValidationNulls`
abbrev pub normalize_validation_nulls : Json → Json
normalize_validation_nulls = map_record (λ ms. drop_null "timeoutMs" (drop_null "cwd" ms))

abbrev pub normalize_capability_nulls : Json → Json
normalize_capability_nulls = map_record (drop_null "path")

abbrev pub normalize_task_members : Map Json → Map Json
normalize_task_members ms = map_items "validation" normalize_validation_nulls (
    map_items "capabilities" normalize_capability_nulls
      (drop_null "validatorStrength" (drop_null "minTier" (drop_null "expectedCostUsd" ms))))

-- `normalizeTaskNulls`
unfoldable pub normalize_task_nulls : Json → Json
normalize_task_nulls = map_record normalize_task_members

-- `normalizeIntegrationNulls`
unfoldable pub normalize_integration_nulls : Map Json → Map Json
normalize_integration_nulls ms =
    map_items "validation" normalize_validation_nulls (drop_null "aggregation" ms)

-- The members that the kind of the operation does not have
abbrev pub drop_foreign : Map Json → Map Json
drop_foreign ms =
    if is_op "add" ms
    then remove "reason" (remove "taskId" ms)
    else if is_op "replace" ms
    then remove "reason" ms
    else if is_op "cancel" ms
    then remove "task" ms
    else ms

abbrev pub normalize_task_member : Map Json → Map Json
normalize_task_member ms = elim (lookup "task" ms) [
  | none ↦ ms
  | some j ↦ insert "task" (normalize_task_nulls j) ms
]

abbrev pub normalize_operation_nulls : Json → Json
normalize_operation_nulls = map_record λ ms.
    normalize_task_member
      (drop_null "reason" (drop_null "task" (drop_null "taskId" (drop_foreign ms))))

abbrev pub normalize_integration_member : Map Json → Map Json
normalize_integration_member ms = elim (as_object (lookup "integration" ms)) [
  | none ↦ drop_null "integration" ms
  | some integration ↦ insert "integration" (obj (normalize_integration_nulls integration)) ms
]

abbrev pub normalize_members : Map Json → Map Json
normalize_members ms =
    map_items "operations" normalize_operation_nulls (
      normalize_integration_member (map_items "tasks" normalize_task_nulls (drop_null "origin" ms)))

-- `normalizeOptionalPlanNulls`
unfoldable pub normalize_optional_plan_nulls : Json → Json
normalize_optional_plan_nulls = map_record normalize_members
