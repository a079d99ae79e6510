-- ===== src/Plans/Validation/Meaning.antt =====
-- src/core/plan-validation.ts: what the checks of `validatePlanSemantics` guarantee.
use codex_mission_ledger.Prelude.{
  ℕ, suc, ◌≤◌, ◌≡◌, refl, sym, subst, ◌∙◌, String, Bool, true, false, not, ◌||◌, Option, none, some,
  List, [], ◌∷◌, ◌==◌, inl, inr, arith,
}
use codex_mission_ledger.Prelude.Tests.{is_some, Bool-cases}
use codex_mission_ledger.Prelude.Lists.{includes, any, keep, length, All, All-map}
use codex_mission_ledger.Prelude.Maps.{has, values}
use codex_mission_ledger.Prelude.Numbers.{Number, pos, num_lt}
use codex_mission_ledger.Contracts.{LeafTask, ExecutionPlan, ExecutionLimits, is_sol}
use codex_mission_ledger.Policy.Checks.{is_nil}
use codex_mission_ledger.Policy.Ownership.Conflicts.{find_concurrent_owned_path_conflicts}
use codex_mission_ledger.Scheduler.Admission.Plans.{AreDistinct, HasKnownDependencies}
use codex_mission_ledger.Plans.Shape.{IssuePath}
use codex_mission_ledger.Plans.Codec.Members.{also-nil, issue_if-nil}
use codex_mission_ledger.Plans.Graph.{
  missing_dependencies_of, MissingDependency, analyze_plan_graph,
}
use codex_mission_ledger.Plans.Graph.Entries.{
  entries_of, ids_of, has-entries_of, values-entries_of, first_by_id_distinct,
  missing_dependencies_of-none,
}
use codex_mission_ledger.Plans.Graph.Starts.{All-both}
use codex_mission_ledger.Plans.Graph.Analysis.{IsLayering, analyze_plan_graph-IsLayering}
use codex_mission_ledger.Plans.Semantics.{
  is_below_minimum, issue_each, task_issues, communications, communication_issues, missing_issues,
  is_late, plan_cost, cost_issues, is_unreviewed, validate_plan_semantics,
}

-- A partner is another task of the plan, the planner or the integrator.
abbrev pub HasKnownPartners : List String → LeafTask → Type 0
HasKnownPartners ids t =
    All
      (λ id.
        ((id == t.id) ≡ false)
        × ((includes ids id || (id == "planner" || id == "integrator")) ≡ true))
      t.communication_with

abbrev pub FitsCost : Option Number → List LeafTask → Type 0
FitsCost none tasks = Unit
FitsCost (some maximum) tasks =
    All (λ t. is_some t.expected_cost_usd ≡ true) tasks
    × (num_lt maximum (plan_cost (pos 0) tasks) ≡ false)

pub record IsMeaningful (plan : ExecutionPlan) (limits : ExecutionLimits) : Type 0 where
  pub tiers : All (λ t. is_below_minimum t ≡ false) plan.tasks
  pub distinct : AreDistinct [] plan.tasks
  pub known : All (HasKnownDependencies (ids_of plan.tasks)) plan.tasks
  pub partners : All (HasKnownPartners (ids_of plan.tasks)) plan.tasks
  pub layering : IsLayering plan.tasks (analyze_plan_graph plan.tasks)
  pub acyclic : (analyze_plan_graph plan.tasks).cycle_task_ids ≡ []
  pub fits_waves : length (analyze_plan_graph plan.tasks).waves ≤ limits.max_waves
  pub fits_sol : length (keep (λ t. is_sol t.tier) plan.tasks) ≤ limits.max_sol_leaves
  pub in_time :
      is_late limits.deadline_ms (analyze_plan_graph plan.tasks).critical_path_seconds ≡ false
  pub affordable : FitsCost limits.max_cost_usd plan.tasks
  pub owned : find_concurrent_owned_path_conflicts plan.tasks ≡ []
  pub reviewed : is_unreviewed plan ≡ false

issue_each-none {ℓ} :
    {A : Type ℓ} (fails : A → Bool) (path : IssuePath) (code : String) (xs : List A)
    → issue_each fails path code xs ≡ []
    → All (λ x. fails x ≡ false) xs
issue_each-none fails path code [] h = tt
issue_each-none fails path code (x ∷ xs) h =
    let both = also-nil _ _ h in
    (issue_if-nil (fails x) path code both.0, issue_each-none fails path code xs both.1)

-- What the first loop says of each task
abbrev IsWellFormed : LeafTask → Type 0
IsWellFormed t = (is_below_minimum t ≡ false) × All (λ d. (d == t.id) ≡ false) t.depends_on

task_issues-none :
    (index : ℕ) (seen : List String) (tasks : List LeafTask)
    → task_issues index seen tasks ≡ []
    → All IsWellFormed tasks × AreDistinct seen tasks
task_issues-none index seen [] h = (tt, tt)
task_issues-none index seen (t ∷ ts) h =
    let h1 = also-nil _ _ h in
    let h2 = also-nil _ _ h1.1 in
    let h3 = also-nil _ _ h2.1 in
    let rest = task_issues-none (suc index) (t.id ∷ seen) ts h3.1 in
    (
      ((issue_if-nil _ _ _ h1.0, issue_each-none _ _ _ t.depends_on h3.0), rest.0),
      (issue_if-nil _ _ _ h2.0, rest.1),
    )

communications-none :
    (ids : List String) (path : IssuePath) (t : LeafTask) (partners : List String)
    → communications ids path t partners ≡ []
    → All
        (λ id.
          ((id == t.id) ≡ false)
          × ((includes ids id || (id == "planner" || id == "integrator")) ≡ true))
        partners
communications-none ids path t [] h = tt
communications-none ids path t (id ∷ rest) h =
    let both = also-nil _ _ h in
    (
      elim (Bool-cases (id == t.id)) [
        | inl same ↦ absurd (ground (arith, both.0, same))
        | inr other ↦ (other, ground (arith, both.0, other))
      ],
      communications-none ids path t rest both.1,
    )

communication_issues-none :
    (ids : List String) (index : ℕ) (tasks : List LeafTask)
    → communication_issues ids index tasks ≡ []
    → All (HasKnownPartners ids) tasks
communication_issues-none ids index [] h = tt
communication_issues-none ids index (t ∷ ts) h =
    let both = also-nil _ _ h in
    (
      communications-none ids _ t t.communication_with both.0,
      communication_issues-none ids (suc index) ts both.1,
    )

missing_issues-none :
    (tasks : List LeafTask) (ms : List MissingDependency) → missing_issues tasks ms ≡ [] → ms ≡ []
missing_issues-none tasks [] h = refl
missing_issues-none tasks (m ∷ ms) h = absurd (ground (arith, (also-nil _ _ h).0))

cost_issues-none :
    (maximum : Option Number) (tasks : List LeafTask)
    → cost_issues maximum tasks ≡ []
    → FitsCost maximum tasks
cost_issues-none none tasks h = tt
cost_issues-none (some maximum) tasks h =
    elim (Bool-cases (any (λ t. not (is_some t.expected_cost_usd)) tasks)) [
      | inl lacking ↦ absurd (ground (arith, h, lacking))
      | inr given ↦ (all_some tasks given, issue_if-nil _ _ _ (rw (given, cost_issues) at h))
    ]
  where
    all_some :
        (tasks : List LeafTask)
        → any (λ t. not (is_some t.expected_cost_usd)) tasks ≡ false
        → All (λ t. is_some t.expected_cost_usd ≡ true) tasks
    all_some [] e = tt
    all_some (t ∷ ts) e = (ground (arith, e), all_some ts (ground (arith, e)))

known_dependencies-none :
    (tasks : List LeafTask)
    → AreDistinct [] tasks
    → All IsWellFormed tasks
    → (analyze_plan_graph tasks).missing_dependencies ≡ []
    → All (HasKnownDependencies (ids_of tasks)) tasks
unfolding analyze_plan_graph
known_dependencies-none tasks distinct formed h =
    let by_id = first_by_id_distinct tasks distinct in
    let none_missing = subst (λ m. missing_dependencies_of m (values m) ≡ []) by_id h in
    let entries = entries_of tasks in
    let here =
      subst (λ ts. missing_dependencies_of entries ts ≡ []) (values-entries_of tasks)
        none_missing in
    All-both IsWellFormed (λ t. All (λ d. has d entries ≡ true) t.depends_on)
      (HasKnownDependencies (ids_of tasks))
      (λ t formed found.
        All-both (λ d. (d == t.id) ≡ false) (λ d. has d entries ≡ true) _
          (λ d apart there. (sym (has-entries_of tasks d) ∙ there, apart)) t.depends_on formed.1
          found)
      tasks formed (missing_dependencies_of-none entries tasks here)

is_nil-nil {ℓ} : {A : Type ℓ} (xs : List A) → not (is_nil xs) ≡ false → xs ≡ []
is_nil-nil [] h = refl
is_nil-nil (x ∷ xs) h = absurd cc

each_all-nil {ℓ} : {A : Type ℓ} (xs : List A) → All (λ x. true ≡ false) xs → xs ≡ []
each_all-nil [] h = refl
each_all-nil (x ∷ xs) (h, hs) = absurd cc

-- A plan in which the checks find no issue is one that can run.
pub validate_plan_semantics-IsMeaningful :
    (plan : ExecutionPlan) (limits : ExecutionLimits)
    → validate_plan_semantics plan limits ≡ []
    → IsMeaningful plan limits
unfolding validate_plan_semantics
validate_plan_semantics-IsMeaningful plan limits h =
    let tasks = plan.tasks in
    let h1 = also-nil _ _ h in
    let h2 = also-nil _ _ h1.1 in
    let h3 = also-nil _ _ h2.1 in
    let h4 = also-nil _ _ h3.1 in
    let h5 = also-nil _ _ h4.1 in
    let h6 = also-nil _ _ h5.1 in
    let h7 = also-nil _ _ h6.1 in
    let g1 = also-nil _ _ h3.0 in
    let g2 = also-nil _ _ g1.1 in
    let formed = task_issues-none 0 [] tasks h1.0 in
    record {
      tiers = All-map IsWellFormed (λ t. is_below_minimum t ≡ false) (λ t e. e.0) tasks formed.0;
      distinct = formed.1;
      known = known_dependencies-none tasks formed.1 formed.0 (missing_issues-none tasks _ g1.0);
      partners = communication_issues-none (ids_of tasks) 0 tasks h2.0;
      layering = analyze_plan_graph-IsLayering tasks formed.1;
      acyclic = is_nil-nil _ (issue_if-nil _ _ _ g2.0);
      fits_waves = ground (arith, issue_if-nil _ _ _ g2.1);
      fits_sol = ground (arith, issue_if-nil _ _ _ h4.0);
      in_time = issue_if-nil _ _ _ h5.0;
      affordable = cost_issues-none limits.max_cost_usd tasks h6.0;
      owned = each_all-nil _ (issue_each-none _ _ _ _ h7.0);
      reviewed = issue_if-nil _ _ _ h7.1;
    }
