-- ===== src/Reducer/Writers.antt =====
-- src/core/reducer.ts: the writer whose result alone is delivered.
use codex_mission_ledger.Prelude.{
  ℕ, zero, suc, ◌+◌, ◌≡◌, ◌⊎◌, refl, String, true, ◌||◌, Option, none, some, List, [], ◌∷◌, ◌==◌,
  inl, inr, arith, eq_iff, eq_refl, subst,
}
use codex_mission_ledger.Prelude.Tests.{if-keeps, Bool-cases}
use codex_mission_ledger.Prelude.Lists.{all, includes, keep, length, All}
use codex_mission_ledger.Prelude.Maps.{Map, lookup, map_of}
use codex_mission_ledger.Contracts.{LeafTask, ExecutionPlan, is_writer}
use codex_mission_ledger.Policy.Ownership.Ordering.{Reaches, here, there}
use codex_mission_ledger.Reducer.{
  gather_each, gather, dependencies_of, delivers_all, only_writer, terminal_writer_task_id,
}

Reaches-snoc :
    (by_id : Map LeafTask) (id next start : String) (task : LeafTask)
    → Reaches by_id id start
    → lookup id by_id ≡ some task
    → includes task.depends_on next ≡ true
    → Reaches by_id next start
Reaches-snoc by_id id next _ task here e i = there id next task e i here
Reaches-snoc by_id id next start task (there _ later first found inside rest) e i =
    there start later first found inside (Reaches-snoc by_id id next later task rest e i)

-- The tasks that the writer depends on, by one of its dependencies
abbrev pub IsBelow : Map LeafTask → LeafTask → String → Type 0
IsBelow by_id writer id =
    (first : String) × ((includes writer.depends_on first ≡ true) × Reaches by_id id first)

All-includes :
    (P : String → Type 0) (xs : List String)
    → ((x : String) → includes xs x ≡ true → P x)
    → All P xs
All-includes P [] h = tt
All-includes P (x ∷ xs) h =
    (h x (ground (arith, eq_refl x)), All-includes P xs λ y inside. h y (ground (arith, inside)))

module _ (by_id : Map LeafTask) (writer : LeafTask) where
  dependencies-IsBelow :
      (id : String) (found : Option LeafTask)
      → lookup id by_id ≡ found
      → IsBelow by_id writer id
      → All (IsBelow by_id writer) (dependencies_of found)
  dependencies-IsBelow id none e h = tt
  dependencies-IsBelow id (some task) e (first, (inside, path)) =
      All-includes (IsBelow by_id writer) task.depends_on
        λ next d. (first, (inside, Reaches-snoc by_id id next first task path e d))

  gather_each-IsBelow :
      (visit : List String → String → List String)
      → ((visited : List String) (id : String)
          → All (IsBelow by_id writer) visited
          → IsBelow by_id writer id
          → All (IsBelow by_id writer) (visit visited id))
      → (visited ids : List String) → All (IsBelow by_id writer) visited
      → All (IsBelow by_id writer) ids
      → All (IsBelow by_id writer) (gather_each visit visited ids)
  gather_each-IsBelow visit keeps visited [] h hs = h
  gather_each-IsBelow visit keeps visited (id ∷ ids) h (below, hs) =
      gather_each-IsBelow visit keeps (visit visited id) ids (keeps visited id h below) hs

  gather-IsBelow :
      (fuel : ℕ) (visited : List String) (id : String)
      → All (IsBelow by_id writer) visited
      → IsBelow by_id writer id
      → All (IsBelow by_id writer) (gather fuel by_id visited id)
  unfolding gather
  gather-IsBelow zero visited id h below = h
  gather-IsBelow (suc fuel) visited id h below =
      if-keeps (All (IsBelow by_id writer)) (includes visited id) h (
        gather_each-IsBelow (gather fuel by_id) (gather-IsBelow fuel) (id ∷ visited)
          (dependencies_of (lookup id by_id)) (below, h)
          (dependencies-IsBelow id (lookup id by_id) refl below))

-- All writers but one are ruled out, and each other task is one that the writer depends on.
pub record IsFinalWriter (plan : ExecutionPlan) (id : String) : Type 0 where
  pub writer : LeafTask
  pub named : writer.id ≡ id
  pub only : keep (λ t. is_writer t.access) plan.tasks ≡ writer ∷ []
  pub others :
      All
        (λ t. ((t.id == id) ≡ true) ⊎ IsBelow (map_of (λ t. t.id) plan.tasks) writer t.id)
        plan.tasks

All-found :
    (P : String → Type 0) (found : List String) (id : String) (tasks : List LeafTask)
    → All P found
    → all (λ t. t.id == id || includes found t.id) tasks ≡ true
    → All (λ t. ((t.id == id) ≡ true) ⊎ P t.id) tasks
All-found P found id [] h e = tt
All-found P found id (t ∷ ts) h e = (
  elim (Bool-cases (t.id == id)) [
    | inl same ↦ inl same
    | inr other ↦ inr (at_included P found t.id h (ground (arith, e, other)))
  ],
  All-found P found id ts h (ground (arith, e)),
)
  where
    at_included :
        (P : String → Type 0) (xs : List String) (a : String)
        → All P xs
        → includes xs a ≡ true
        → P a
    at_included P [] a h e = absurd cc
    at_included P (x ∷ xs) a (hx, hs) e = elim (Bool-cases (x == a)) [
      | inl same ↦ subst P ((eq_iff x a).0 same) hx
      | inr other ↦ at_included P xs a hs (ground (arith, e, other))
    ]

writer-IsBelow :
    (plan : ExecutionPlan) (writer : LeafTask)
    → delivers_all plan writer ≡ true
    → All
        (λ t. ((t.id == writer.id) ≡ true) ⊎ IsBelow (map_of (λ t. t.id) plan.tasks) writer t.id)
        plan.tasks
writer-IsBelow plan writer h =
    let by_id = map_of (λ (t : LeafTask). t.id) plan.tasks in
    let start =
      All-includes (IsBelow by_id writer) writer.depends_on (λ d inside. (d, (inside, here))) in
    let fuel = length plan.tasks + 2 in
    All-found (IsBelow by_id writer) _ writer.id plan.tasks
      (gather_each-IsBelow by_id writer (gather fuel by_id) (gather-IsBelow by_id writer fuel) []
        writer.depends_on tt start)
      h

only_writer-IsFinalWriter :
    (plan : ExecutionPlan) (id : String) (writers : List LeafTask)
    → keep (λ t. is_writer t.access) plan.tasks ≡ writers
    → only_writer plan writers ≡ some id
    → IsFinalWriter plan id
only_writer-IsFinalWriter plan id [] e h = absurd cc
only_writer-IsFinalWriter plan id (w ∷ v ∷ ws) e h = absurd cc
only_writer-IsFinalWriter plan id (w ∷ []) e h = elim (Bool-cases (delivers_all plan w)) [
  | inl all_below ↦
      let same : w.id ≡ id = ground (arith, h, all_below) in
      record {
        writer = w;
        named = same;
        only = e;
        others =
            subst
              (λ i.
                All (λ t. ((t.id == i) ≡ true) ⊎ IsBelow (map_of (λ t. t.id) plan.tasks) w t.id)
                  plan.tasks)
              same (writer-IsBelow plan w all_below);
      }
  | inr fails ↦ absurd (ground (arith, h, fails))
]

-- A final writer is the only writer of the plan, and it depends, perhaps through others, on every
-- other task: so what its result alone may leave out is known to it.
pub terminal_writer_task_id-IsFinalWriter :
    (plan : ExecutionPlan) (id : String)
    → terminal_writer_task_id plan ≡ some id
    → IsFinalWriter plan id
unfolding terminal_writer_task_id
terminal_writer_task_id-IsFinalWriter plan id h = only_writer-IsFinalWriter plan id _ refl h
