-- ===== src/Plans/Graph/Entries.antt =====
-- src/core/plan-validation.ts: where no id stands twice, the map of `analyzePlanGraph` has the tasks
-- in their order, and its missing dependencies are those that are no task.
use mathlib.Core.List.{foldl, append-nil, append_assoc}
use codex_mission_ledger.Prelude.{
  ◌≡◌, refl, sym, subst, ◌∙◌, String, Bool, true, false, not, ◌||◌, List, [], ◌∷◌, ◌++◌, map, ◌==◌,
  inl, inr, arith, eq_iff,
}
use codex_mission_ledger.Prelude.Tests.{if◌then◌else◌, Bool-cases}
use codex_mission_ledger.Prelude.Lists.{includes, keep, All, set_add}
use codex_mission_ledger.Prelude.Maps.{Map, lookup, insert, has, values, keys}
use codex_mission_ledger.Contracts.{LeafTask}
use codex_mission_ledger.Scheduler.Admission.Plans.{AreDistinct}
use codex_mission_ledger.Plans.Graph.{distinct, first_by_id, missing_of, missing_dependencies_of}

abbrev pub entries_of : List LeafTask → Map LeafTask
entries_of = map (λ t. (t.id, t))

abbrev pub ids_of : List LeafTask → List String
ids_of = map (λ t. t.id)

pub has-entries_of :
    (tasks : List LeafTask) (id : String) → has id (entries_of tasks) ≡ includes (ids_of tasks) id
unfolding lookup
has-entries_of [] id = refl
has-entries_of (t ∷ ts) id = elim (Bool-cases (t.id == id)) [
  | inl same ↦ rw same refl
  | inr other ↦ rw other (has-entries_of ts id)
]

pub values-entries_of : (tasks : List LeafTask) → values (entries_of tasks) ≡ tasks
values-entries_of [] = refl
values-entries_of (t ∷ ts) = rw (values-entries_of ts) refl

pub keys-entries_of : (tasks : List LeafTask) → keys (entries_of tasks) ≡ ids_of tasks
keys-entries_of [] = refl
keys-entries_of (t ∷ ts) = rw (keys-entries_of ts) refl

insert_new {ℓ} :
    {V : Type ℓ} (key : String) (value : V) (m : Map V)
    → has key m ≡ false
    → insert key value m ≡ m ++ (key, value) ∷ []
unfolding lookup insert
insert_new key value [] new = refl
insert_new key value ((k, v) ∷ m) new = elim (Bool-cases (k == key)) [
  | inl same ↦ absurd (ground (arith, new, same))
  | inr other ↦ ground (arith, other, insert_new key value m (ground (arith, new, other)))
]

has-append {ℓ} :
    {V : Type ℓ} (key other : String) (value : V) (m : Map V)
    → has other (m ++ (key, value) ∷ []) ≡ ((key == other) || has other m)
unfolding lookup
has-append key other value [] = ground arith
has-append key other value ((k, v) ∷ m) = elim (Bool-cases (k == other)) [
  | inl same ↦ ground (arith, same)
  | inr differs ↦ ground (arith, differs, has-append key other value m)
]

-- The step of `first_by_id`
abbrev add_first : Map LeafTask → LeafTask → Map LeafTask
add_first m t = if has t.id m then m else insert t.id t m

foldl-add_first :
    (tasks : List LeafTask) (seen : List String) (m : Map LeafTask)
    → ((id : String) → has id m ≡ includes seen id)
    → AreDistinct seen tasks
    → foldl add_first m tasks ≡ m ++ entries_of tasks
foldl-add_first [] seen m known h = sym (append-nil m)
foldl-add_first (t ∷ ts) seen m known (new, h) =
    let absent = known t.id ∙ new in
    let next = m ++ (t.id, t) ∷ [] in
    let rest =
      foldl-add_first ts (t.id ∷ seen) next (λ id. rw (has-append t.id id t m, known id) refl) h in
    rw (absent, insert_new t.id t m absent, rest) (append_assoc m ((t.id, t) ∷ []) (entries_of ts))

pub first_by_id_distinct :
    (tasks : List LeafTask) → AreDistinct [] tasks → first_by_id tasks ≡ entries_of tasks
unfolding first_by_id lookup
first_by_id_distinct tasks h = foldl-add_first tasks [] [] (λ id. refl) h

pub All-split {ℓ κ} :
    {A : Type ℓ} (P : A → Type κ) (xs ys : List A) → All P (xs ++ ys) → All P xs × All P ys
All-split P [] ys h = (tt, h)
All-split P (x ∷ xs) ys (hx, hs) = let rest = All-split P xs ys hs in ((hx, rest.0), rest.1)

module _ (P : String → Type 0) where
  All-includes : (a : String) (xs : List String) → All P xs → includes xs a ≡ true → P a
  All-includes a [] h e = absurd cc
  All-includes a (x ∷ xs) (hx, hs) e = elim (Bool-cases (x == a)) [
    | inl same ↦ subst P ((eq_iff x a).0 same) hx
    | inr other ↦ All-includes a xs hs (ground (arith, other, e))
  ]

  All-set_add : (a : String) (xs : List String) → All P (set_add a xs) → P a × All P xs
  All-set_add a xs h = elim (Bool-cases (includes xs a)) [
    | inl old ↦ let kept = rw (old, set_add) at h in (All-includes a xs kept old, kept)
    | inr new ↦ let both = All-split P xs (a ∷ []) (rw (new, set_add) at h) in (both.1.0, both.0)
  ]

  All-foldl :
      (xs seen : List String)
      → All P (foldl (λ seen id. set_add id seen) seen xs)
      → All P xs × All P seen
  All-foldl [] seen h = (tt, h)
  All-foldl (x ∷ xs) seen h =
      let rest = All-foldl xs (set_add x seen) h in
      let first = All-set_add x seen rest.1 in ((first.0, rest.0), first.1)

  -- What holds of the distinct elements holds of all.
  pub All-distinct : (xs : List String) → All P (distinct xs) → All P xs
  All-distinct xs h = (All-foldl xs [] h).0

append-none {ℓ} : {A : Type ℓ} (xs ys : List A) → xs ++ ys ≡ [] → (xs ≡ []) × (ys ≡ [])
append-none [] ys h = (refl, h)
append-none (x ∷ xs) ys h = absurd cc

map-none {ℓ κ} : {A : Type ℓ} {B : Type κ} (f : A → B) (xs : List A) → map f xs ≡ [] → xs ≡ []
map-none f [] h = refl
map-none f (x ∷ xs) h = absurd cc

keep-none {ℓ} :
    {A : Type ℓ} (p : A → Bool) (xs : List A)
    → keep (λ x. not (p x)) xs ≡ []
    → All (λ x. p x ≡ true) xs
keep-none p [] h = tt
keep-none p (x ∷ xs) h = elim (Bool-cases (p x)) [
  | inl holds ↦ (holds, keep-none p xs (ground (arith, holds, h)))
  | inr fails ↦ absurd (ground (arith, fails, h))
]

-- The tasks whose missing dependencies are none depend only on tasks of the plan.
pub missing_dependencies_of-none :
    (by_id : Map LeafTask) (tasks : List LeafTask)
    → missing_dependencies_of by_id tasks ≡ []
    → All (λ t. All (λ d. has d by_id ≡ true) t.depends_on) tasks
missing_dependencies_of-none by_id [] h = tt
missing_dependencies_of-none by_id (t ∷ ts) h =
    let parts = append-none (missing_of by_id t) (missing_dependencies_of by_id ts) h in
    (
      All-distinct (λ d. has d by_id ≡ true) t.depends_on
          (keep-none (λ d. has d by_id) (distinct t.depends_on) (map-none _ _ parts.0)),
      missing_dependencies_of-none by_id ts parts.1,
    )
