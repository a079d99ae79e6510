-- ===== src/Plans/Nulls/Normal.antt =====
-- src/core/plan-validation.ts: what is written from a plan has no null, and stays as it is.
use codex_mission_ledger.Prelude.{
  ◌≡◌, refl, String, false, Option, none, some, List, [], ◌∷◌, map, ◌==◌, inl, inr, arith,
}
use codex_mission_ledger.Prelude.Tests.{Bool-cases}
use codex_mission_ledger.Prelude.Lists.{any}
use codex_mission_ledger.Prelude.Maps.{Map, lookup, insert}
use codex_mission_ledger.Contracts.{LeafTask, IntegrationContract, ExecutionPlan, PlanOrigin}
use codex_mission_ledger.Plans.Json.{
  Json, text, number, obj, is_null, items_list-items_of, members_map-members_of,
}
use codex_mission_ledger.Plans.Codec.{
  entry, write_list, capability_entries, specification_entries, task_entries, integration_entries,
  plan_entries, encode_capability, encode_specification, encode_task, encode_integration,
  encode_plan,
}
use codex_mission_ledger.Plans.Codec.Trips.{lookup-entry}
use codex_mission_ledger.Plans.Names.{origin_name}
use codex_mission_ledger.Plans.Nulls.{
  drop_null, map_items, map_record, normalize_validation_nulls, normalize_capability_nulls,
  normalize_task_members, normalize_task_nulls, normalize_integration_nulls,
  normalize_integration_member, normalize_members, normalize_operation_nulls,
  normalize_optional_plan_nulls,
}

abbrev HasNoNull : Map Json → Type 0
HasNoNull ms = any (λ e. is_null (some e.1)) ms ≡ false

lookup-HasNoNull : (key : String) (ms : Map Json) → HasNoNull ms → is_null (lookup key ms) ≡ false
unfolding lookup
lookup-HasNoNull key [] h = refl
lookup-HasNoNull key ((k, j) ∷ ms) h = elim (Bool-cases (k == key)) [
  | inl same ↦ ground (arith, same, h)
  | inr other ↦ rw other (lookup-HasNoNull key ms (ground (arith, h)))
]

entry-HasNoNull {ℓ} :
    {A : Type ℓ} (key : String) (write : A → Json) (o : Option A) (rest : Map Json)
    → ((a : A) → is_null (some (write a)) ≡ false)
    → HasNoNull rest
    → HasNoNull (entry key write o rest)
entry-HasNoNull key write none rest filled h = h
entry-HasNoNull key write (some a) rest filled h = rw (filled a) h

drop_null_same : (key : String) (ms : Map Json) → HasNoNull ms → drop_null key ms ≡ ms
drop_null_same key ms h = rw (lookup-HasNoNull key ms h) refl

insert_same :
    (key : String) (j : Json) (ms : Map Json) → lookup key ms ≡ some j → insert key j ms ≡ ms
unfolding lookup insert
insert_same key j [] e = absurd cc
insert_same key j ((k, i) ∷ ms) e = elim (Bool-cases (k == key)) [
  | inl same ↦ ground (arith, same, e)
  | inr other ↦ ground (arith, other, insert_same key j ms (ground (arith, other, e)))
]

-- What a change leaves as it is.
abbrev Keeps {ℓ} : {A : Type ℓ} → (Json → Json) → (A → Json) → Type ℓ
Keeps {A = A} f write = (a : A) → f (write a) ≡ write a

map_same {ℓ} :
    {A : Type ℓ} (f : Json → Json) (write : A → Json)
    → Keeps f write
    → (xs : List A) → map f (map write xs) ≡ map write xs
map_same f write keeps [] = refl
map_same f write keeps (x ∷ xs) = rw (keeps x, map_same f write keeps xs) refl

map_items_same {ℓ} :
    {A : Type ℓ} (key : String) (f : Json → Json) (write : A → Json) (xs : List A) (ms : Map Json)
    → Keeps f write
    → lookup key ms ≡ some (write_list write xs)
    → map_items key f ms ≡ ms
map_items_same key f write xs ms keeps e =
    rw (e, map_items, items_list-items_of (map write xs), map_same f write keeps xs)
      (insert_same key _ ms e)

map_items_none :
    (key : String) (f : Json → Json) (ms : Map Json)
    → lookup key ms ≡ none
    → map_items key f ms ≡ ms
map_items_none key f ms e = rw (e, map_items) refl

map_record_same :
    (change : Map Json → Map Json) (ms : Map Json)
    → change ms ≡ ms
    → map_record change (obj ms) ≡ obj ms
map_record_same change ms e = rw (members_map-members_of ms, e) refl

validation_same : Keeps normalize_validation_nulls encode_specification
validation_same v =
    let clean =
      entry-HasNoNull "cwd" text v.cwd _ (λ a. refl)
        (entry-HasNoNull "timeoutMs" number v.timeout_ms [] (λ a. refl) refl) in
    map_record_same (λ ms. drop_null "timeoutMs" (drop_null "cwd" ms)) (specification_entries v)
      (rw (drop_null_same "cwd" (specification_entries v) clean)
        (drop_null_same "timeoutMs" (specification_entries v) clean))

capability_same : Keeps normalize_capability_nulls encode_capability
capability_same c = map_record_same (drop_null "path") (capability_entries c) (
    drop_null_same "path" (capability_entries c)
      (entry-HasNoNull "path" text c.path [] (λ a. refl) refl))

task_entries-HasNoNull : (t : LeafTask) → HasNoNull (task_entries t)
task_entries-HasNoNull t =
    entry-HasNoNull "minTier" _ t.min_tier _ (λ a. refl)
      (entry-HasNoNull "expectedCostUsd" number t.expected_cost_usd _ (λ a. refl)
        (entry-HasNoNull "validatorStrength" _ t.validator_strength [] (λ a. refl) refl))

task_same : Keeps normalize_task_nulls encode_task
unfolding lookup normalize_task_nulls encode_task
task_same t =
    let ms = task_entries t in
    let clean = task_entries-HasNoNull t in
    map_record_same normalize_task_members ms (
      rw
        (
          drop_null_same "expectedCostUsd" ms clean,
          drop_null_same "minTier" ms clean,
          drop_null_same "validatorStrength" ms clean,
          map_items_same "capabilities" normalize_capability_nulls encode_capability t.capabilities
              ms capability_same refl,
        )
        (map_items_same "validation" normalize_validation_nulls encode_specification t.validation ms
          validation_same refl))

integration_same :
    (i : IntegrationContract)
    → normalize_integration_nulls (integration_entries i) ≡ integration_entries i
unfolding lookup normalize_integration_nulls
integration_same i =
    let ms = integration_entries i in
    rw
      (drop_null_same "aggregation" ms
        (entry-HasNoNull "aggregation" _ i.aggregation [] (λ a. refl) refl))
      (map_items_same "validation" normalize_validation_nulls encode_specification i.validation ms
        validation_same refl)

integration_member_same :
    (i : IntegrationContract) (ms : Map Json)
    → lookup "integration" ms ≡ some (obj (integration_entries i))
    → normalize_integration_member ms ≡ ms
integration_member_same i ms e =
    rw
      (
        e,
        normalize_integration_member,
        members_map-members_of (integration_entries i),
        integration_same i,
      )
      (insert_same "integration" _ ms e)

plan_members_same : (p : ExecutionPlan) → normalize_members (plan_entries p) ≡ plan_entries p
unfolding lookup plan_entries encode_integration
plan_members_same p =
    let ms = plan_entries p in
    let origin = λ (o : PlanOrigin). text (origin_name o) in
    rw
      (
        drop_null_same "origin" ms (entry-HasNoNull "origin" origin p.origin [] (λ a. refl) refl),
        map_items_same "tasks" normalize_task_nulls encode_task p.tasks ms task_same refl,
        integration_member_same p.integration ms refl,
      )
      (map_items_none "operations" normalize_operation_nulls ms
        (lookup-entry origin "operations" "origin" p.origin [] refl))

-- A plan that is written as a JSON value has no null in it, so the removal of nulls keeps it.
pub normalize_optional_plan_nulls-encode_plan :
    (p : ExecutionPlan) → normalize_optional_plan_nulls (encode_plan p) ≡ encode_plan p
unfolding normalize_optional_plan_nulls encode_plan
normalize_optional_plan_nulls-encode_plan p =
    map_record_same normalize_members (plan_entries p) (plan_members_same p)
