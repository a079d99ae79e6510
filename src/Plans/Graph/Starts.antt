-- ===== src/Plans/Graph/Starts.antt =====
-- src/core/plan-validation.ts: the entries with which the loop of `analyzePlanGraph` starts.
use codex_mission_ledger.Prelude.{
  ◌≡◌, refl, ap, sym, subst, ◌∙◌, String, Bool, true, false, none, some, List, [], ◌∷◌, ◌==◌, inl,
  inr, arith, eq_iff, eq_refl,
}
use codex_mission_ledger.Prelude.Tests.{if◌then◌else◌, Bool-cases}
use codex_mission_ledger.Prelude.Lists.{includes, keep, length, All, All-map}
use codex_mission_ledger.Prelude.Maps.{lookup}
use codex_mission_ledger.Contracts.{LeafTask}
use codex_mission_ledger.Scheduler.Admission.Plans.{AreDistinct}
use codex_mission_ledger.Plans.Graph.{distinct, known_dependencies, indegrees, children_of}
use codex_mission_ledger.Plans.Graph.Entries.{entries_of, ids_of}
use codex_mission_ledger.Plans.Graph.Sets.{NoDup, NoDup-distinct, NoDup-keep}
use codex_mission_ledger.Plans.Graph.Layers.{rest_of}

-- What a task of the plan depends on, by its id
abbrev pub deps_of : List LeafTask → String → List String
deps_of tasks n = elim (lookup n (entries_of tasks)) [
  | none ↦ []
  | some t ↦ known_dependencies (entries_of tasks) t
]

apart_of :
    (a b : String) (seen : List String)
    → includes seen a ≡ true
    → includes seen b ≡ false
    → (a == b) ≡ false
apart_of a b seen old new = elim (Bool-cases (a == b)) [
  | inl same ↦
      absurd (ground (arith, new, subst (λ x. includes seen x ≡ true) ((eq_iff a b).0 same) old))
  | inr apart ↦ apart
]

AreDistinct-All :
    (id : String) (seen : List String) (tasks : List LeafTask)
    → includes seen id ≡ true
    → AreDistinct seen tasks
    → All (λ t. (id == t.id) ≡ false) tasks
AreDistinct-All id seen [] old h = tt
AreDistinct-All id seen (t ∷ ts) old (new, h) =
    (apart_of id t.id seen old new, AreDistinct-All id (t.id ∷ seen) ts (ground (arith, old)) h)

absent :
    (id : String) (tasks : List LeafTask)
    → All (λ t. (id == t.id) ≡ false) tasks
    → includes (ids_of tasks) id ≡ false
absent id [] h = refl
absent id (t ∷ ts) (apart, h) =
    ground (arith, absent id ts h, apart, eq_iff id t.id, eq_iff t.id id)

pub All-both {ℓ κ μ ν} :
    {A : Type ℓ} (P : A → Type κ) (Q : A → Type μ) (R : A → Type ν)
    → ((a : A) → P a → Q a → R a)
    → (xs : List A) → All P xs
    → All Q xs
    → All R xs
All-both P Q R f [] hp hq = tt
All-both P Q R f (x ∷ xs) (p, hp) (q, hq) = (f x p q, All-both P Q R f xs hp hq)

lookup-entries_of :
    (seen : List String) (tasks : List LeafTask)
    → AreDistinct seen tasks
    → All (λ t. lookup t.id (entries_of tasks) ≡ some t) tasks
unfolding lookup
lookup-entries_of seen [] h = tt
lookup-entries_of seen (t ∷ ts) (new, h) = (
  rw (eq_refl t.id) refl,
  All-both _ _ _ (λ u apart found. rw (apart) found) ts
      (AreDistinct-All t.id (t.id ∷ seen) ts (ground (arith, eq_refl t.id)) h)
      (lookup-entries_of (t.id ∷ seen) ts h),
)

pub NoDup-ids_of :
    (seen : List String) (tasks : List LeafTask) → AreDistinct seen tasks → NoDup (ids_of tasks)
NoDup-ids_of seen [] h = tt
NoDup-ids_of seen (t ∷ ts) (new, h) = (
  absent t.id ts (AreDistinct-All t.id (t.id ∷ seen) ts (ground (arith, eq_refl t.id)) h),
  NoDup-ids_of (t.id ∷ seen) ts h,
)

-- What the map has for each task
module _ (tasks : List LeafTask) where
  abbrev IsKnown : LeafTask → Type 0
  IsKnown t = deps_of tasks t.id ≡ known_dependencies (entries_of tasks) t

  pub deps_of-IsKnown : AreDistinct [] tasks → All IsKnown tasks
  deps_of-IsKnown h =
      All-map (λ t. lookup t.id (entries_of tasks) ≡ some t) IsKnown (λ t e. rw (e, deps_of) refl)
        tasks (lookup-entries_of [] tasks h)

  pub children_of-children :
      (id : String) (ts : List LeafTask)
      → All IsKnown ts
      → children_of (entries_of tasks) ts id ≡ keep (λ n. includes (deps_of tasks n) id) (ids_of ts)
  children_of-children id [] h = refl
  children_of-children id (t ∷ ts) (known, h) =
      let same = ap (λ ds. includes ds id) known in
      let rest = children_of-children id ts h in
      elim (Bool-cases (includes (known_dependencies (entries_of tasks) t) id)) [
        | inl child ↦ rw (child, same ∙ child) (ap (λ ns. t.id ∷ ns) rest)
        | inr other ↦ rw (other, same ∙ other) rest
      ]

  pub lookup-indegrees :
      (n : String) (ts : List LeafTask)
      → All IsKnown ts
      → includes (ids_of ts) n ≡ true
      → lookup n (indegrees (entries_of tasks) ts) ≡ some (length (deps_of tasks n))
  unfolding lookup
  lookup-indegrees n [] h node = absurd cc
  lookup-indegrees n (t ∷ ts) (known, h) node = elim (Bool-cases (t.id == n)) [
    | inl same ↦ rw same (
        sym (ap (λ ds. some (length ds)) known)
        ∙ ap (λ m. some (length (deps_of tasks m))) ((eq_iff t.id n).0 same))
    | inr other ↦ rw other (lookup-indegrees n ts h (ground (arith, other, node)))
  ]

pub NoDup-deps_of : (tasks : List LeafTask) (n : String) → NoDup (deps_of tasks n)
NoDup-deps_of tasks n =
    elim (lookup n (entries_of tasks))
      as (λ o. NoDup (elim o [ none ↦ [] | some t ↦ known_dependencies (entries_of tasks) t ])) [
        | none ↦ tt
        | some t ↦ NoDup-keep _ (distinct t.depends_on) (NoDup-distinct t.depends_on)
      ]

pub length-rest_of : (ds : List String) → length (rest_of [] ds) ≡ length ds
length-rest_of [] = refl
length-rest_of (d ∷ ds) = omega (arith, length-rest_of ds)

pub if_and : (b x : Bool) → (if b then x else false) ≡ true → (b ≡ true) × (x ≡ true)
if_and true x h = (refl, h)
if_and false x h = absurd cc

pub length-ids_of : (tasks : List LeafTask) → length (ids_of tasks) ≡ length tasks
length-ids_of [] = refl
length-ids_of (t ∷ ts) = omega (arith, length-ids_of ts)
