-- ===== src/Scheduler/Admission/Plans.antt =====
-- src/core/scheduler.ts: what `validatePlanForScheduling` guarantees of a plan that it lets pass.
use codex_mission_ledger.Prelude.{
  ℕ, ◌≤◌, ◌≡◌, refl, String, Bool, true, false, Option, none, some, List, [], ◌∷◌, map, ◌==◌, inl,
  inr, arith,
}
use codex_mission_ledger.Prelude.Tests.{is_some, Bool-cases, Option-cases}
use codex_mission_ledger.Prelude.Lists.{includes, length, All, All-map, keep}
use codex_mission_ledger.Prelude.Numbers.{Number, pos, num_lt}
use codex_mission_ledger.Contracts.{LeafTask, ExecutionPlan, ExecutionLimits, is_sol}
use codex_mission_ledger.Scheduler.Admission.{
  AdmissionError, Levels, failed, found, compute_waves, validate_plan_for_scheduling, unless,
  ◌then_try◌, first_error, duplicate_error, dependency_error, waves_error, has_valid_cost,
  budget_error, total_expected_cost,
}
use codex_mission_ledger.Scheduler.Admission.Waves.{AreRanked, compute_waves-AreRanked}

unless-none : (b : Bool) (e : AdmissionError) → unless b e ≡ none → b ≡ true
unless-none true e h = refl
unless-none false e h = absurd cc

then_try-none : (a b : Option AdmissionError) → (a then_try b) ≡ none → (a ≡ none) × (b ≡ none)
then_try-none none b h = (refl, h)
then_try-none (some e) b h = absurd cc

first_error-none {ℓ} :
    {A : Type ℓ} (test : A → Option AdmissionError) (xs : List A)
    → first_error test xs ≡ none
    → All (λ x. test x ≡ none) xs
first_error-none test [] h = tt
first_error-none test (x ∷ xs) h = elim (Option-cases (test x)) [
  | inl e ↦ (e, first_error-none test xs (ground (arith, h, e)))
  | inr (c, e) ↦ absurd (ground (arith, h, e))
]

-- No id stands twice, and none of `ids` stands here.
abbrev pub AreDistinct : List String → List LeafTask → Type 0
AreDistinct ids [] = Unit
AreDistinct ids (t ∷ ts) = (includes ids t.id ≡ false) × AreDistinct (t.id ∷ ids) ts

duplicate_error-none :
    (ids : List String) (ts : List LeafTask) → duplicate_error ids ts ≡ none → AreDistinct ids ts
duplicate_error-none ids [] h = tt
duplicate_error-none ids (t ∷ ts) h = elim (Bool-cases (includes ids t.id)) [
  | inl twice ↦ absurd (ground (arith, h, twice))
  | inr new ↦ (new, duplicate_error-none (t.id ∷ ids) ts (ground (arith, h, new)))
]

-- Every dependency is a task of the plan, and not the task itself.
abbrev pub HasKnownDependencies : List String → LeafTask → Type 0
HasKnownDependencies ids t = All (λ d. (includes ids d ≡ true) × ((d == t.id) ≡ false)) t.depends_on

-- The tasks have levels, and not more than the waves allowed.
abbrev pub AreLayered : ℕ → List LeafTask → Levels → Type 0
AreLayered max_waves tasks (failed e) = ⊥
AreLayered max_waves tasks (found waves memo) =
    (waves ≤ max_waves) × AreRanked tasks (found waves memo)

-- Under a cost limit every task has an estimate, and the estimates fit.
abbrev pub IsAffordable : Option Number → List LeafTask → Type 0
IsAffordable none tasks = Unit
IsAffordable (some maximum) tasks =
    All (λ t. is_some t.expected_cost_usd ≡ true) tasks
    × (num_lt maximum (total_expected_cost (pos 0) tasks) ≡ false)

pub record IsSchedulable (plan : ExecutionPlan) (limits : ExecutionLimits) : Type 0 where
  pub has_tasks : 1 ≤ length plan.tasks
  pub fits_leaves : length plan.tasks ≤ limits.max_leaves
  pub distinct : AreDistinct [] plan.tasks
  pub known : All (HasKnownDependencies (map (λ t. t.id) plan.tasks)) plan.tasks
  pub layered : AreLayered limits.max_waves plan.tasks (compute_waves plan.tasks)
  pub fits_sol : length (keep (λ t. is_sol t.tier) plan.tasks) ≤ limits.max_sol_leaves
  pub valid_costs : All (λ t. has_valid_cost t ≡ true) plan.tasks
  pub affordable : IsAffordable limits.max_cost_usd plan.tasks

dependency_error-none :
    (ids : List String) (t : LeafTask)
    → first_error (dependency_error ids t.id) t.depends_on ≡ none
    → HasKnownDependencies ids t
dependency_error-none ids t h =
    All-map (λ d. dependency_error ids t.id d ≡ none)
      (λ d. (includes ids d ≡ true) × ((d == t.id) ≡ false)) (λ d e. ground arith) t.depends_on
      (first_error-none (dependency_error ids t.id) t.depends_on h)

waves_error-none :
    (max_waves : ℕ) (tasks : List LeafTask) (r : Levels)
    → AreRanked tasks r
    → waves_error max_waves r ≡ none
    → AreLayered max_waves tasks r
waves_error-none max_waves tasks (failed e) ranked h = absurd cc
waves_error-none max_waves tasks (found waves memo) ranked h = (ground arith, ranked)

budget_error-none :
    (maximum : Option Number) (tasks : List LeafTask)
    → budget_error maximum tasks ≡ none
    → IsAffordable maximum tasks
budget_error-none none tasks h = tt
budget_error-none (some maximum) tasks h =
    let split = then_try-none _ _ h in
    (
      All-map _ (λ t. is_some t.expected_cost_usd ≡ true) (λ t e. unless-none _ _ e) tasks
          (first_error-none _ tasks split.0),
      ground (arith, unless-none _ _ split.1),
    )

-- A plan that passes has tasks, not more than allowed and no two with one id; each depends only on
-- other tasks of the plan; the tasks lie in not more waves than allowed, each in a later one than
-- all it depends on; the Sol tasks fit their limit; no estimate is negative or infinite; and under
-- a cost limit each task has an estimate, and the estimates fit the limit.
pub validate_plan_for_scheduling-IsSchedulable :
    (plan : ExecutionPlan) (limits : ExecutionLimits)
    → validate_plan_for_scheduling plan limits ≡ none
    → IsSchedulable plan limits
unfolding validate_plan_for_scheduling
validate_plan_for_scheduling-IsSchedulable plan limits h =
    let h1 = then_try-none _ _ h in
    let h2 = then_try-none _ _ h1.1 in
    let h3 = then_try-none _ _ h2.1 in
    let h4 = then_try-none _ _ h3.1 in
    let h5 = then_try-none _ _ h4.1 in
    let h6 = then_try-none _ _ h5.1 in
    let h7 = then_try-none _ _ h6.1 in
    let ids = map (λ t. t.id) plan.tasks in
    record {
      has_tasks = ground (arith, unless-none _ _ h1.0);
      fits_leaves = ground (arith, unless-none _ _ h2.0);
      distinct = duplicate_error-none [] plan.tasks h3.0;
      known =
          All-map (λ t. first_error (dependency_error ids t.id) t.depends_on ≡ none)
            (HasKnownDependencies ids) (dependency_error-none ids) plan.tasks
            (first_error-none (λ t. first_error (dependency_error ids t.id) t.depends_on) plan.tasks
              h4.0);
      layered =
          waves_error-none limits.max_waves plan.tasks (compute_waves plan.tasks)
            (compute_waves-AreRanked plan.tasks) h5.0;
      fits_sol = ground (arith, unless-none _ _ h6.0);
      valid_costs =
          All-map _ (λ t. has_valid_cost t ≡ true) (λ t e. unless-none _ _ e) plan.tasks
            (first_error-none _ plan.tasks h7.0);
      affordable = budget_error-none limits.max_cost_usd plan.tasks h7.1;
    }
