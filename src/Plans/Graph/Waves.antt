-- ===== src/Plans/Graph/Waves.antt =====
-- src/core/plan-validation.ts: in the waves of the loop each node comes after all that it depends on,
-- and the fuel of the loop is enough.
use codex_mission_ledger.Prelude.{
  ℕ, zero, suc, ◌+◌, ◌≤◌, ◌≡◌, refl, ap, sym, subst, ◌∙◌, String, Bool, true, false, ◌||◌, List, [],
  ◌∷◌, ◌==◌, inl, inr, arith, eq_iff, eq_refl,
}
use codex_mission_ledger.Prelude.Tests.{Bool-cases}
use codex_mission_ledger.Prelude.Lists.{includes, length, All}
use codex_mission_ledger.Prelude.Maps.{Map}
use codex_mission_ledger.Prelude.Text.{sort}
use codex_mission_ledger.Plans.Graph.{distinct, release_wave, waves_from}
use codex_mission_ledger.Plans.Graph.Sets.{
  NoDup, NoDup-distinct, NoDup-sort, includes-distinct, includes-sort,
}
use codex_mission_ledger.Plans.Graph.Layers.{
  count, rest_of, rest_of-visit, pending, children, settle, IsReleased, release_wave-IsReleased,
}

pub includes-settle :
    (done ids : List String) (n : String)
    → includes (settle done ids) n ≡ (includes ids n || includes done n)
includes-settle done [] n = refl
includes-settle done (id ∷ ids) n = ground (arith, includes-settle (id ∷ done) ids n)

pub or_false : (a b : Bool) → (a || b) ≡ false → (a ≡ false) × (b ≡ false)
or_false a b h = (ground (arith, h), ground (arith, h))

pub All-of :
    (P : String → Type 0) (xs : List String)
    → ((n : String) → includes xs n ≡ true → P n)
    → All P xs
All-of P [] h = tt
All-of P (x ∷ xs) h =
    (h x (ground (arith, eq_refl x)), All-of P xs λ n member. h n (ground (arith, member)))

rest_of-none :
    (done ds : List String) → length (rest_of done ds) ≡ 0 → All (λ d. includes done d ≡ true) ds
rest_of-none done [] h = tt
rest_of-none done (d ∷ ds) h = elim (Bool-cases (includes done d)) [
  | inl old ↦ (old, rest_of-none done ds (ground (arith, old, h)))
  | inr new ↦ absurd (ground (arith, new, h))
]

module _ (nodes : List String) (deps : String → List String) where
  -- Each wave depends only on what is done before it.
  abbrev pub AreLayers : List String → List (List String) → Type 0
  AreLayers done [] = Unit
  AreLayers done (wave ∷ waves) =
      All (λ n. All (λ d. includes done d ≡ true) (deps n)) wave
      × AreLayers (settle done wave) waves

  -- The head of the loop.
  pub record IsReady (done : List String) (indegree : Map ℕ) (ready : List String) : Type 0 where
    pub counted :
        (n : String) → includes nodes n ≡ true → count indegree n ≡ pending nodes deps done n
    pub finished :
        (n : String)
        → includes nodes n ≡ true
        → includes done n ≡ true
        → pending nodes deps done n ≡ 0
    pub unique : NoDup ready
    pub free :
        (n : String)
        → includes ready n ≡ true
        → (includes nodes n ≡ true) × ((pending nodes deps done n ≡ 0) × (includes done n ≡ false))
    pub complete :
        (n : String)
        → includes nodes n ≡ true
        → pending nodes deps done n ≡ 0
        → includes done n ≡ false
        → includes ready n ≡ true

  module _ (distinct_nodes : NoDup nodes) (distinct_deps : (n : String) → NoDup (deps n)) where
    -- After a wave the loop is at its head again.
    pub next_wave-IsReady :
        (done : List String) (indegree : Map ℕ) (ready : List String)
        → IsReady done indegree ready
        → IsReady
            (settle done ready)
            (release_wave (children nodes deps) (indegree, []) ready).0
            (sort (distinct (release_wave (children nodes deps) (indegree, []) ready).1))
    next_wave-IsReady done indegree ready h =
        let settled = settle done ready in
        let start : IsReleased nodes deps settled done indegree [] = record {
          counted = h.counted;
          finished = λ n node s. elim (Bool-cases (includes done n)) [
            | inl old ↦ h.finished n node old
            | inr new ↦ (h.free n (ground (arith, includes-settle done ready n, s, new))).1.0
          ];
          fresh = λ n none. absurd (ground (arith, none));
          complete = λ n node idle unsettled. absurd (
              let split =
                or_false (includes ready n) (includes done n)
                  (sym (includes-settle done ready n) ∙ unsettled) in
              ground (arith, split.0, h.complete n node idle split.1));
        } in
        let released =
          release_wave-IsReleased nodes deps distinct_nodes distinct_deps settled done indegree []
            ready h.unique (λ n member. (h.free n member).1.1) start in
        let next = (release_wave (children nodes deps) (indegree, []) ready).1 in
        record {
          counted = released.counted;
          finished = released.finished;
          unique = NoDup-sort (distinct next) (NoDup-distinct next);
          free = λ n member.
              released.fresh n
                (ground (arith, includes-sort n (distinct next), includes-distinct n next, member));
          complete = λ n node idle undone.
              includes-sort n (distinct next)
              ∙ includes-distinct n next
              ∙ released.complete n node idle undone;
        }

    pub waves_from-AreLayers :
        (fuel : ℕ) (done : List String) (indegree : Map ℕ) (ready : List String)
        → IsReady done indegree ready
        → AreLayers done (waves_from fuel (children nodes deps) indegree ready)
    unfolding waves_from
    waves_from-AreLayers zero done indegree ready h = tt
    waves_from-AreLayers (suc fuel) done indegree [] h = tt
    waves_from-AreLayers (suc fuel) done indegree (id ∷ ids) h = (
      All-of _ (id ∷ ids) (λ n member. rest_of-none done (deps n) (h.free n member).1.0),
      waves_from-AreLayers fuel (settle done (id ∷ ids)) _ _
          (next_wave-IsReady done indegree (id ∷ ids) h),
    )

    -- What a wave takes from the nodes that are left.
    pub length-settle :
        (done ids : List String)
        → NoDup ids
        → ((n : String)
            → includes ids n ≡ true
            → (includes nodes n ≡ true) × (includes done n ≡ false))
        → length (rest_of (settle done ids) nodes) + length ids ≡ length (rest_of done nodes)
    length-settle done [] unique free = omega arith
    length-settle done (id ∷ ids) (first, unique) free =
        let now = free id (ground (arith, eq_refl id)) in
        let rest = length-settle (id ∷ done) ids unique (λ n member. elim (Bool-cases (id == n)) [
          | inl same ↦ absurd (
              ground
                (arith, member, subst (λ x. includes ids x ≡ false) ((eq_iff id n).0 same) first))
          | inr other ↦
              let later = free n (ground (arith, other, member)) in
              (later.0, ground (arith, other, later.1))
        ]) in
        ground (arith, rest, rest_of-visit id done nodes distinct_nodes now.1, now.0)

    -- As many rounds as nodes are left are enough.
    pub waves_from_fuel :
        (fuel : ℕ) (done : List String) (indegree : Map ℕ) (ready : List String)
        → IsReady done indegree ready
        → length (rest_of done nodes) ≤ fuel
        → waves_from (suc fuel) (children nodes deps) indegree ready
          ≡ waves_from fuel (children nodes deps) indegree ready
    unfolding waves_from
    waves_from_fuel zero done indegree [] h enough = refl
    waves_from_fuel zero done indegree (id ∷ ids) h enough = absurd (
        omega (
          arith,
          length-settle done (id ∷ ids) h.unique
              λ n member. ((h.free n member).0, (h.free n member).1.1),
        ))
    waves_from_fuel (suc fuel) done indegree [] h enough = refl
    waves_from_fuel (suc fuel) done indegree (id ∷ ids) h enough =
        ap (λ waves. (id ∷ ids) ∷ waves)
          (waves_from_fuel fuel (settle done (id ∷ ids)) _ _
            (next_wave-IsReady done indegree (id ∷ ids) h)
            (omega (
              arith,
              length-settle done (id ∷ ids) h.unique
                  λ n member. ((h.free n member).0, (h.free n member).1.1),
            )))
