-- ===== src/Scheduler/Admission/Waves.antt =====
-- src/core/scheduler.ts: what the levels that `computeWaves` finds say of the dependencies.
use codex_mission_ledger.Prelude.{
  ℕ, zero, suc, max, ◌≤◌, ◌≡◌, String, true, false, none, some, List, [], ◌∷◌, map, ◌==◌, inl, inr,
  arith, eq_iff, eq_refl,
}
use codex_mission_ledger.Prelude.Tests.{Bool-cases, Option-cases}
use codex_mission_ledger.Prelude.Lists.{includes, length, All, All-map}
use codex_mission_ledger.Prelude.Maps.{Map, lookup, insert, lookup-insert}
use codex_mission_ledger.Contracts.{LeafTask}
use codex_mission_ledger.Scheduler.Admission.{
  Levels, failed, found, highest, memoized, level_of, tasks_by_id, compute_waves,
}

-- The task has a level, which is at most `most`.
abbrev pub HasLevel : Map ℕ → ℕ → String → Type 0
HasLevel memo most id = (w : ℕ) × (lookup id memo ≡ some w) × (w ≤ most)

-- A level is over the levels of all that its task depends on.
abbrev pub IsRanked : Map LeafTask → Map ℕ → Type 0
IsRanked by_id memo =
    (id : String) (v : ℕ)
    → lookup id memo ≡ some v
    → (task : LeafTask) × (lookup id by_id ≡ some task)
      × (n : ℕ) × (v ≡ suc n)
      × All (HasLevel memo n) task.depends_on

-- What a walk does to the table: the levels stay, and what is being visited gets none.
record Walks (by_id : Map LeafTask) (visiting : List String) (memo next : Map ℕ) : Type 0 where
  ranked : IsRanked by_id next
  extends : (id : String) (v : ℕ) → lookup id memo ≡ some v → lookup id next ≡ some v
  fresh :
      (id : String) → includes visiting id ≡ true → lookup id memo ≡ none → lookup id next ≡ none

module _ (by_id : Map LeafTask) (visiting : List String) where
  abbrev LevelHolds : Map ℕ → String → Levels → Type 0
  LevelHolds memo id (failed e) = Unit
  LevelHolds memo id (found v next) = Walks by_id visiting memo next × (lookup id next ≡ some v)

  abbrev AllHold : Map ℕ → ℕ → List String → Levels → Type 0
  AllHold memo so_far ids (failed e) = Unit
  AllHold memo so_far ids (found v next) =
      Walks by_id visiting memo next × (so_far ≤ v) × All (HasLevel next v) ids

  Walks-trans :
      (memo next last : Map ℕ)
      → Walks by_id visiting memo next
      → Walks by_id visiting next last
      → Walks by_id visiting memo last
  Walks-trans memo next last a b = record {
    ranked = b.ranked;
    extends = λ id v e. b.extends id v (a.extends id v e);
    fresh = λ id i e. b.fresh id i (a.fresh id i e);
  }

  AllHold-cons :
      (memo next : Map ℕ) (so_far value : ℕ) (id : String) (ids : List String) (r : Levels)
      → Walks by_id visiting memo next
      → lookup id next ≡ some value
      → AllHold next (max so_far value) ids r
      → AllHold memo so_far (id ∷ ids) r
  AllHold-cons memo next so_far value id ids (failed e) w l h = tt
  AllHold-cons memo next so_far value id ids (found v last) w l h = (
    Walks-trans memo next last w h.0,
    omega (arith, h.1),
    ((value, h.0.extends id value l, omega (arith, h.1)), h.2),
  )

  module _ (level : Map ℕ → String → Levels)
      (good : (memo : Map ℕ) (id : String)
        → IsRanked by_id memo
        → LevelHolds memo id (level memo id)) where
    highest-AllHold :
        (so_far : ℕ) (memo : Map ℕ) (ids : List String)
        → IsRanked by_id memo
        → AllHold memo so_far ids (highest level so_far memo ids)
    highest-AllHold so_far memo [] ranked =
        (record { ranked = ranked; extends = λ id v e. e; fresh = λ id i e. e }, omega arith, tt)
    highest-AllHold so_far memo (id ∷ ids) ranked =
        go (level memo id) (good memo id ranked)
          (λ value next h. highest-AllHold (max so_far value) next ids h)
      where
        go :
            (r : Levels)
            → LevelHolds memo id r
            → ((value : ℕ) (next : Map ℕ)
                → IsRanked by_id next
                → AllHold next (max so_far value) ids (highest level (max so_far value) next ids))
            → AllHold memo so_far (id ∷ ids) (elim r [
              | failed e ↦ failed e
              | found value next ↦ highest level (max so_far value) next ids
            ])
        go (failed e) h rest = tt
        go (found value next) h rest =
            AllHold-cons memo next so_far value id ids _ h.0 h.1 (rest value next h.0.ranked)

module _ (by_id : Map LeafTask) (visiting : List String) (memo : Map ℕ) (id : String)
    (task : LeafTask) (known : lookup id by_id ≡ some task) (open_ : lookup id memo ≡ none)
    (entered : includes visiting id ≡ false) where
  module _ (next : Map ℕ) (v : ℕ) (w : Walks by_id (id ∷ visiting) memo next) where
    unset : lookup id next ≡ none
    unset = w.fresh id (ground (arith, eq_refl id)) open_

    insert-extends :
        (j : String) (u : ℕ) → lookup j next ≡ some u → lookup j (insert id (suc v) next) ≡ some u
    insert-extends j u e = ground (arith, lookup-insert id j (suc v) next, eq_iff id j, unset, e)

    insert-fresh :
        (j : String)
        → includes visiting j ≡ true
        → lookup j memo ≡ none
        → lookup j (insert id (suc v) next) ≡ none
    insert-fresh j i e =
        let still = w.fresh j (ground (arith, i)) e in
        ground (arith, lookup-insert id j (suc v) next, eq_iff id j, entered, i, still)

    raise :
        (n : ℕ) (ids : List String)
        → All (HasLevel next n) ids
        → All (HasLevel (insert id (suc v) next) n) ids
    raise n ids =
        All-map (HasLevel next n) (HasLevel (insert id (suc v) next) n)
          (λ d h. (h.0, insert-extends d h.0 h.1, h.2)) ids

    insert-IsRanked :
        All (HasLevel next v) task.depends_on → IsRanked by_id (insert id (suc v) next)
    insert-IsRanked deps j u e = elim (Bool-cases (id == j)) [
      | inl same ↦ (
        task,
        ground (arith, eq_iff id j, known, same),
        v,
        ground (arith, lookup-insert id j (suc v) next, same, e),
        raise v task.depends_on deps,
      )
      | inr other ↦
          let old = w.ranked j u (ground (arith, lookup-insert id j (suc v) next, other, e)) in
          (old.0, old.1, old.2, old.3, raise old.2 old.0.depends_on old.4)
    ]

  memoized-LevelHolds :
      (r : Levels)
      → AllHold by_id (id ∷ visiting) memo 0 task.depends_on r
      → LevelHolds by_id visiting memo id (memoized id r)
  memoized-LevelHolds (failed e) h = tt
  memoized-LevelHolds (found v next) (w, _, deps) = (
    record {
      ranked = insert-IsRanked next v w deps;
      extends = λ j u e. insert-extends next v w j u (w.extends j u e);
      fresh = insert-fresh next v w;
    },
    ground (arith, lookup-insert id id (suc v) next, eq_refl id),
  )

level_of-LevelHolds :
    (fuel : ℕ) (by_id : Map LeafTask) (visiting : List String) (memo : Map ℕ) (id : String)
    → IsRanked by_id memo
    → LevelHolds by_id visiting memo id (level_of fuel by_id visiting memo id)
unfolding level_of
level_of-LevelHolds zero by_id visiting memo id ranked = tt
level_of-LevelHolds (suc fuel) by_id visiting memo id ranked =
    let below = level_of fuel by_id (id ∷ visiting) in
    elim (Option-cases (lookup id memo)) [
      | inr (known, e) ↦
          rw (e, level_of) (record { ranked = ranked; extends = λ j v h. h; fresh = λ j i h. h }, e)
      | inl open_ ↦ elim (Bool-cases (includes visiting id)) [
        | inl entered ↦ rw (open_, entered, level_of) tt
        | inr new ↦ elim (Option-cases (lookup id by_id)) [
          | inl unknown ↦ rw (open_, new, unknown, level_of) tt
          | inr (task, e) ↦
              rw (open_, new, e, level_of)
                (memoized-LevelHolds by_id visiting memo id task e open_ new
                  (highest below 0 memo task.depends_on)
                  (highest-AllHold by_id (id ∷ visiting) below
                    (level_of-LevelHolds fuel by_id (id ∷ visiting)) 0 memo task.depends_on ranked))
        ]
      ]
    ]

-- What a number of waves says of the tasks.
abbrev pub AreRanked : List LeafTask → Levels → Type 0
AreRanked tasks (failed e) = Unit
AreRanked tasks (found waves memo) =
    IsRanked (tasks_by_id tasks) memo × All (HasLevel memo waves) (map (λ t. t.id) tasks)

-- If `compute_waves` finds a number of waves, its table gives each task a level from 1 to that
-- number, which is over the levels of all tasks that the task depends on.
pub compute_waves-AreRanked : (tasks : List LeafTask) → AreRanked tasks (compute_waves tasks)
unfolding compute_waves lookup
compute_waves-AreRanked tasks = go _ (
    highest-AllHold (tasks_by_id tasks) [] (level_of (suc (length tasks)) (tasks_by_id tasks) [])
      (level_of-LevelHolds (suc (length tasks)) (tasks_by_id tasks) []) 0 [] (map (λ t. t.id) tasks)
      (λ id v e. absurd cc))
  where
    go :
        (r : Levels)
        → AllHold (tasks_by_id tasks) [] [] 0 (map (λ t. t.id) tasks) r
        → AreRanked tasks r
    go (failed e) h = tt
    go (found v memo) h = (h.0.ranked, h.2)
