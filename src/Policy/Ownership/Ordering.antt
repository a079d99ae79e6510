-- ===== src/Policy/Ownership/Ordering.antt =====
-- src/core/policy.ts: `taskTransitivelyDependsOn` decides whether the plan orders two tasks.
use codex_mission_ledger.Prelude.{
  ℕ, zero, suc, ◌≤◌, ◌<◌, ◌≡◌, ◌↔◌, refl, subst, String, Bool, true, false, none, some, List, [],
  ◌∷◌, inl, inr, arith, ◌==◌, eq_iff, eq_refl,
}
use codex_mission_ledger.Prelude.Tests.{if◌then◌else◌, Bool-cases, Option-cases}
use codex_mission_ledger.Prelude.Lists.{includes, length}
use codex_mission_ledger.Prelude.Maps.{Map, lookup, map_of}
use codex_mission_ledger.Prelude.Visits.{unvisited, unvisited-visit, unvisited-length}
use codex_mission_ledger.Prelude.Maps.{length-map_of-le}
use codex_mission_ledger.Contracts.{LeafTask}
use codex_mission_ledger.Policy.Ownership.Conflicts.{
  visit_any, visit_task, tasks_of, task_transitively_depends_on,
}

-- A path along the dependencies from a task to `dependency`.
pub data Reaches (by_id : Map LeafTask) (dependency : String) : String → Type 0 where
  here : Reaches by_id dependency dependency
  there :
      (id next : String) (task : LeafTask)
      → lookup id by_id ≡ some task
      → includes task.depends_on next ≡ true
      → Reaches by_id dependency next
      → Reaches by_id dependency id

module _ (by_id : Map LeafTask) (dependency : String) where
  -- All that the task depends on is visited.
  abbrev IsExplored : List String → String → Type 0
  IsExplored visited id =
      (task : LeafTask)
      → lookup id by_id ≡ some task
      → (d : String) → includes task.depends_on d ≡ true
      → includes visited d ≡ true

  -- What a walk that does not find `dependency` does to the visited tasks.
  record Explores (visited next : List String) : Type 0 where
    grows : (d : String) → includes visited d ≡ true → includes next d ≡ true
    explored :
        (d : String) → includes next d ≡ true → includes visited d ≡ false → IsExplored next d
    avoids : includes visited dependency ≡ false → includes next dependency ≡ false

  abbrev Visits : List String → String → Bool × List String → Type 0
  Visits visited id (true, next) = Reaches by_id dependency id
  Visits visited id (false, next) = Explores visited next × (includes next id ≡ true)

  abbrev VisitsAny : List String → List String → Bool × List String → Type 0
  VisitsAny visited ids (true, next) =
      (d : String) × (includes ids d ≡ true) × Reaches by_id dependency d
  VisitsAny visited ids (false, next) =
      Explores visited next × ((d : String) → includes ids d ≡ true → includes next d ≡ true)

  Explores-refl : (visited : List String) → Explores visited visited
  Explores-refl visited = record {
    grows = λ d h. h;
    explored = λ d h gone. absurd (cc);
    avoids = λ h. h;
  }

  Explores-trans : (a b c : List String) → Explores a b → Explores b c → Explores a c
  Explores-trans a b c ab bc = record {
    grows = λ d h. bc.grows d (ab.grows d h);
    explored = λ d h gone. elim (Bool-cases (includes b d)) [
      | inr new ↦ bc.explored d h new
      | inl old ↦ λ task e x i. bc.grows x (ab.explored d old gone task e x i)
    ];
    avoids = λ h. bc.avoids (ab.avoids h);
  }

  unvisited_grows :
      (a b : List String) (m : Map LeafTask)
      → ((d : String) → includes a d ≡ true → includes b d ≡ true)
      → unvisited b m ≤ unvisited a m
  unvisited_grows a b [] h = omega arith
  unvisited_grows a b ((k, t) ∷ m) h = ground (arith, h k, unvisited_grows a b m h)

  VisitsAny-cons :
      (visited next : List String) (id : String) (ids : List String) (r : Bool × List String)
      → Explores visited next
      → includes next id ≡ true
      → VisitsAny next ids r
      → VisitsAny visited (id ∷ ids) r
  VisitsAny-cons visited next id ids (true, last) e i h = (h.0, ground (arith, h.1), h.2)
  VisitsAny-cons visited next id ids (false, last) e i h = (
    Explores-trans visited next last e h.0,
    λ d inside. elim (Bool-cases (id == d)) [
      | inl same ↦ h.0.grows d (ground (arith, eq_iff id d, i, same))
      | inr other ↦ h.1 d (ground (arith, inside, other))
    ],
  )

  visit_any-VisitsAny :
      (fuel : ℕ) (visit : List String → String → Bool × List String)
      → ((visited : List String) (d : String)
          → unvisited visited by_id < fuel
          → Visits visited d (visit visited d))
      → (visited ids : List String) → unvisited visited by_id < fuel
      → VisitsAny visited ids (visit_any visit visited ids)
  visit_any-VisitsAny fuel visit h visited [] enough =
      (Explores-refl visited, λ d inside. absurd cc)
  visit_any-VisitsAny fuel visit h visited (id ∷ ids) enough =
      go (visit visited id) (h visited id enough)
        (λ next. visit_any-VisitsAny fuel visit h next ids)
    where
      go :
          (r : Bool × List String)
          → Visits visited id r
          → ((next : List String)
              → unvisited next by_id < fuel
              → VisitsAny next ids (visit_any visit next ids))
          → VisitsAny visited (id ∷ ids) (if r.0 then r else visit_any visit r.1 ids)
      go (true, next) v rest = (id, ground (arith, eq_refl id), v)
      go (false, next) v rest =
          VisitsAny-cons visited next id ids _ v.0 v.1
            (rest next (omega (arith, enough, unvisited_grows visited next by_id v.0.grows)))

  module _ (visited : List String) (id : String) (other : (id == dependency) ≡ false)
      (new : includes visited id ≡ false) where
    unknown_Visits : lookup id by_id ≡ none → Visits visited id (false, id ∷ visited)
    unknown_Visits unknown = (
      record {
        grows = λ d h. ground (arith, h);
        explored = λ d h gone task e x i. absurd (ground (arith, eq_iff id d, h, gone, e, unknown));
        avoids = λ h. ground (arith, h, other);
      },
      ground (arith, eq_refl id),
    )

    known_Visits :
        (task : LeafTask) (r : Bool × List String)
        → lookup id by_id ≡ some task
        → VisitsAny (id ∷ visited) task.depends_on r
        → Visits visited id r
    known_Visits task (true, next) e h = there id h.0 task e h.1 h.2
    known_Visits task (false, next) e h = (
      record {
        grows = λ d i. h.0.grows d (ground (arith, i));
        explored = λ d i gone. elim (Bool-cases (id == d)) [
          | inl same ↦ λ other_task found x inside.
              h.1 x (ground (arith, eq_iff id d, same, e, found, inside))
          | inr differs ↦ h.0.explored d i (ground (arith, differs, gone))
        ];
        avoids = λ i. h.0.avoids (ground (arith, other, i));
      },
      h.0.grows id (ground (arith, eq_refl id)),
    )

  visit_task-Visits :
      (fuel : ℕ) (visited : List String) (id : String)
      → unvisited visited by_id < fuel
      → Visits visited id (visit_task fuel by_id dependency visited id)
  unfolding visit_task
  visit_task-Visits zero visited id enough = absurd (omega arith)
  visit_task-Visits (suc fuel) visited id enough = elim (Bool-cases (id == dependency)) [
    | inl same ↦
        rw (same, visit_task)
          (subst (Reaches by_id dependency) (ground (arith, eq_iff id dependency, same)) here)
    | inr other ↦ elim (Bool-cases (includes visited id)) [
      | inl old ↦ rw (other, old, visit_task) (Explores-refl visited, old)
      | inr new ↦ elim (Option-cases (lookup id by_id)) [
        | inl unknown ↦
            rw (other, new, unknown, visit_task) (unknown_Visits visited id other new unknown)
        | inr (task, e) ↦
            rw (other, new, e, visit_task)
              (known_Visits visited id other new task _ e (
                visit_any-VisitsAny fuel (visit_task fuel by_id dependency) (visit_task-Visits fuel)
                  (id ∷ visited) task.depends_on
                  (omega (arith, enough, unvisited-visit visited id task by_id e new))))
      ]
    ]
  ]

  unreachable :
      (next : List String) (id : String)
      → Explores [] next
      → includes next id ≡ true
      → Reaches by_id dependency id
      → ⊥
  unreachable next id e i here = ground (arith, e.avoids refl, i)
  unreachable next id e i (there _ d task found inside way) =
      unreachable next d e (e.explored id i refl task found d inside) way

  Visits-iff :
      (id : String) (r : Bool × List String)
      → Visits [] id r
      → (r.0 ≡ true) ↔ Reaches by_id dependency id
  Visits-iff id (true, next) h = (λ e. h, λ way. refl)
  Visits-iff id (false, next) h = (λ e. absurd cc, λ way. absurd (unreachable next id h.0 h.1 way))

-- A task depends transitively on another exactly when they are two tasks and a path along the
-- dependencies leads from the one to the other, also in a plan with cycles.
pub task_transitively_depends_on_iff :
    (tasks : List LeafTask) (task_id dependency : String)
    → (task_transitively_depends_on tasks task_id dependency ≡ true)
      ↔ (((task_id == dependency) ≡ false) × Reaches (tasks_of tasks) dependency task_id)
unfolding task_transitively_depends_on map_of
task_transitively_depends_on_iff tasks task_id dependency =
    let by_id = tasks_of tasks in
    let found = Visits-iff by_id dependency task_id _ (
      visit_task-Visits by_id dependency (suc (length tasks)) [] task_id
        (omega (arith, unvisited-length by_id, length-map_of-le (λ t. t.id) tasks))) in
    (λ e. (ground (arith, e), found.0 (ground (arith, e))), λ h. ground (arith, h.0, found.1 h.1))
