-- ===== src/Plans/Graph/Analysis.antt =====
-- src/core/plan-validation.ts: what the waves and cycles of a plan's tasks mean.
use mathlib.Core.Option.{get_or}
use codex_mission_ledger.Prelude.{
  ℕ, zero, suc, ◌≤◌, ◌<◌, ◌≡◌, refl, ap, sym, subst, ◌∙◌, String, true, false, not, List, [], inl,
  inr, arith,
}
use codex_mission_ledger.Prelude.Tests.{if◌then◌else◌, nat_eq, ltb, ltb→lt, Bool-cases}
use codex_mission_ledger.Prelude.Lists.{includes, any, keep, length, All}
use codex_mission_ledger.Prelude.Maps.{lookup, keys}
use codex_mission_ledger.Prelude.Text.{sort}
use codex_mission_ledger.Contracts.{LeafTask}
use codex_mission_ledger.Scheduler.Admission.Plans.{AreDistinct}
use codex_mission_ledger.Plans.Graph.{indegrees, waves_from, all_ids, graph_of, analyze_plan_graph}
use codex_mission_ledger.Plans.Graph.Entries.{
  entries_of, ids_of, keys-entries_of, values-entries_of, first_by_id_distinct,
}
use codex_mission_ledger.Plans.Graph.Sets.{NoDup-sort, NoDup-keep, includes-keep, includes-sort}
use codex_mission_ledger.Plans.Graph.Layers.{count, rest_of, children}
use codex_mission_ledger.Plans.Graph.Waves.{
  AreLayers, IsReady, waves_from_fuel, waves_from-AreLayers,
}
use codex_mission_ledger.Plans.Graph.Cycles.{waits_for, waves_from-waits}
use codex_mission_ledger.Plans.Graph.{PlanGraphAnalysis}
use codex_mission_ledger.Plans.Graph.Waves.{All-of}
use std.Path.{fun_ext}
use codex_mission_ledger.Plans.Graph.Starts.{
  deps_of, NoDup-ids_of, deps_of-IsKnown, children_of-children, lookup-indegrees, NoDup-deps_of,
  length-rest_of, if_and, length-ids_of,
}

-- The waves put each task after all that it depends on, and each task that is in no wave waits for
-- one that is in none either.
pub record IsLayering (tasks : List LeafTask) (graph : PlanGraphAnalysis) : Type 0 where
  pub layers : AreLayers (ids_of tasks) (deps_of tasks) [] graph.waves
  pub left :
      (n : String)
      → includes graph.cycle_task_ids n
        ≡ (if not (includes (all_ids graph.waves) n) then includes (ids_of tasks) n else false)
  pub cyclic :
      All (λ n. any (waits_for [] graph.waves) (deps_of tasks n) ≡ true) graph.cycle_task_ids

module _ (tasks : List LeafTask) (h : AreDistinct [] tasks) where
  abbrev pub start : List String
  start = sort (
      keep (λ id. nat_eq (get_or (lookup id (indegrees (entries_of tasks) tasks)) 1) 0)
        (ids_of tasks))

  count-indegrees :
      (n : String)
      → includes (ids_of tasks) n ≡ true
      → count (indegrees (entries_of tasks) tasks) n ≡ length (deps_of tasks n)
  count-indegrees n node = rw (lookup-indegrees tasks n tasks (deps_of-IsKnown tasks h) node) refl

  includes-start :
      (n : String)
      → includes start n ≡ (
          if nat_eq (get_or (lookup n (indegrees (entries_of tasks) tasks)) 1) 0
          then includes (ids_of tasks) n
          else false)
  includes-start n = includes-sort n _ ∙ includes-keep _ n (ids_of tasks)

  start-IsReady :
      IsReady (ids_of tasks) (deps_of tasks) [] (indegrees (entries_of tasks) tasks) start
  start-IsReady = record {
    counted = λ n node. count-indegrees n node ∙ sym (length-rest_of (deps_of tasks n));
    finished = λ n node done. absurd (ground (arith, done));
    unique = NoDup-sort _ (NoDup-keep _ (ids_of tasks) (NoDup-ids_of [] tasks h));
    free = λ n member.
        let both =
          if_and (nat_eq (get_or (lookup n (indegrees (entries_of tasks) tasks)) 1) 0)
            (includes (ids_of tasks) n) (sym (includes-start n) ∙ member) in
        let known = lookup-indegrees tasks n tasks (deps_of-IsKnown tasks h) both.1 in
        (both.1, (length-rest_of (deps_of tasks n) ∙ ground (arith, known, both.0), refl));
    complete = λ n node idle undone.
        let known = lookup-indegrees tasks n tasks (deps_of-IsKnown tasks h) node in
        rw (includes-start n, known, node, sym (length-rest_of (deps_of tasks n)), idle) refl;
  }

  -- The loop of `analyzePlanGraph` on fuel
  abbrev pub loop : ℕ → List (List String)
  loop fuel =
      waves_from fuel (children (ids_of tasks) (deps_of tasks)) (indegrees (entries_of tasks) tasks)
        start

  graph_of-waves : (graph_of (entries_of tasks)).waves ≡ loop (suc (length tasks))
  graph_of-waves =
      rw
        (
          values-entries_of tasks,
          keys-entries_of tasks,
          fun_ext (λ id. children_of-children tasks id tasks (deps_of-IsKnown tasks h)),
        )
        refl

  includes-cycle_task_ids :
      (n : String)
      → includes (graph_of (entries_of tasks)).cycle_task_ids n ≡ (
          if not (includes (all_ids (graph_of (entries_of tasks)).waves) n)
          then includes (ids_of tasks) n
          else false)
  includes-cycle_task_ids n =
      let test = λ (id : String). not (includes (all_ids (graph_of (entries_of tasks)).waves) id) in
      includes-sort n (keep test (keys (entries_of tasks)))
      ∙ includes-keep test n (keys (entries_of tasks))
      ∙ ap (λ ks. if test n then includes ks n else false) (keys-entries_of tasks)

  graph_of-IsLayering : IsLayering tasks (graph_of (entries_of tasks))
  graph_of-IsLayering =
      let nodes = ids_of tasks in
      let deps = deps_of tasks in
      let unique = NoDup-ids_of [] tasks h in
      let layers =
        waves_from-AreLayers nodes deps unique (NoDup-deps_of tasks) (suc (length tasks)) [] _ start
          start-IsReady in
      let enough : length (rest_of [] nodes) ≤ suc (length tasks) =
        omega (arith, length-rest_of nodes, length-ids_of tasks) in
      let waits =
        waves_from-waits nodes deps unique (NoDup-deps_of tasks) (suc (length tasks)) [] _ start
          start-IsReady enough in
      record {
        layers = subst (AreLayers nodes deps []) (sym graph_of-waves) layers;
        left = includes-cycle_task_ids;
        cyclic = All-of _ _ λ n member.
            let both =
              if_and (not (includes (all_ids (graph_of (entries_of tasks)).waves) n))
                (includes nodes n) (sym (includes-cycle_task_ids n) ∙ member) in
            subst (λ waves. any (waits_for [] waves) (deps n) ≡ true) (sym graph_of-waves)
              (waits n both.1 refl (
                subst (λ waves. includes (all_ids waves) n ≡ false) graph_of-waves
                  (ground (arith, both.0))));
      }

pub analyze_plan_graph-IsLayering :
    (tasks : List LeafTask) → AreDistinct [] tasks → IsLayering tasks (analyze_plan_graph tasks)
unfolding analyze_plan_graph
analyze_plan_graph-IsLayering tasks h =
    subst (λ by_id. IsLayering tasks (graph_of by_id)) (sym (first_by_id_distinct tasks h))
      (graph_of-IsLayering tasks h)

more_fuel :
    (tasks : List LeafTask) (h : AreDistinct [] tasks) (fuel : ℕ)
    → length tasks < fuel
    → loop tasks h fuel ≡ loop tasks h (suc (length tasks))
more_fuel tasks h zero more = absurd (omega (arith, more))
more_fuel tasks h (suc fuel) more = elim (Bool-cases (ltb (length tasks) fuel)) [
  | inl above ↦
      waves_from_fuel (ids_of tasks) (deps_of tasks) (NoDup-ids_of [] tasks h) (NoDup-deps_of tasks)
        fuel [] _ _ (start-IsReady tasks h)
        (omega (
          arith,
          ltb→lt (length tasks) fuel above,
          length-rest_of (ids_of tasks),
          length-ids_of tasks,
        ))
      ∙ more_fuel tasks h fuel (ltb→lt (length tasks) fuel above)
  | inr at ↦
      let exact : fuel ≡ length tasks = ground (arith, at, more) in
      ap (λ n. loop tasks h (suc n)) exact
]

-- Where no id stands twice, the loop of `analyzePlanGraph` ends: on any fuel above the number of
-- tasks it finds the same waves.
pub analyze_plan_graph_enough :
    (tasks : List LeafTask) (h : AreDistinct [] tasks) (fuel : ℕ)
    → length tasks < fuel
    → loop tasks h fuel ≡ (analyze_plan_graph tasks).waves
unfolding analyze_plan_graph
analyze_plan_graph_enough tasks h fuel more =
    more_fuel tasks h fuel more
    ∙ sym (graph_of-waves tasks h)
    ∙ sym (ap (λ by_id. (graph_of by_id).waves) (first_by_id_distinct tasks h))
