-- ===== src/Plans/Graph/Layers.antt =====
-- src/core/plan-validation.ts: the loop over the waves, for any nodes and the nodes that each depends
-- on. `pending` counts the dependencies of a node that are not done.
use mathlib.Core.Option.{get_or}
use codex_mission_ledger.Prelude.{
  ℕ, ◌+◌, ◌-◌, ◌≡◌, refl, ap, sym, subst, String, Bool, true, false, not, ◌&&◌, ◌||◌, List, [], ◌∷◌,
  ◌++◌, ◌==◌, inl, inr, arith, eq_iff, eq_refl,
}
use codex_mission_ledger.Prelude.Tests.{if◌then◌else◌, nat_eq, Bool-cases}
use codex_mission_ledger.Prelude.Lists.{includes, keep, length, includes-append}
use codex_mission_ledger.Prelude.Maps.{Map, lookup, insert, lookup-insert}
use codex_mission_ledger.Plans.Graph.{release_all, release_wave}
use codex_mission_ledger.Plans.Graph.Sets.{NoDup, includes-keep, NoDup-keep}

abbrev pub count : Map ℕ → String → ℕ
count indegree n = get_or (lookup n indegree) 0

count-insert :
    (c n : String) (v : ℕ) (indegree : Map ℕ)
    → count (insert c v indegree) n ≡ (if c == n then v else count indegree n)
count-insert c n v indegree = elim (Bool-cases (c == n)) [
  | inl same ↦ rw (lookup-insert c n v indegree, same) refl
  | inr other ↦ rw (lookup-insert c n v indegree, other) refl
]

count-release_all :
    (cs : List String) (indegree : Map ℕ) (next : List String) (n : String)
    → NoDup cs
    → count (release_all (indegree, next) cs).0 n
      ≡ (if includes cs n then count indegree n - 1 else count indegree n)
count-release_all [] indegree next n h = refl
count-release_all (c ∷ cs) indegree next n (new, h) =
    let last = count indegree c in
    let after = insert c (last - 1) indegree in
    let grown = if nat_eq last 1 then next ++ c ∷ [] else next in
    let rest = count-release_all cs after grown n h in
    let at = count-insert c n (last - 1) indegree in
    elim (Bool-cases (c == n)) [
      | inl same ↦
          let equal = (eq_iff c n).0 same in
          let gone = subst (λ x. includes cs x ≡ false) equal new in
          ground (arith, rest, at, same, gone, ap (count indegree) equal)
      | inr other ↦ ground (arith, rest, at, other)
    ]

includes-release_all :
    (cs : List String) (indegree : Map ℕ) (next : List String) (n : String)
    → NoDup cs
    → includes (release_all (indegree, next) cs).1 n
      ≡ (includes next n || (includes cs n && nat_eq (count indegree n) 1))
includes-release_all [] indegree next n h = ground arith
includes-release_all (c ∷ cs) indegree next n (new, h) =
    let last = count indegree c in
    let after = insert c (last - 1) indegree in
    let grown = if nat_eq last 1 then next ++ c ∷ [] else next in
    let rest = includes-release_all cs after grown n h in
    let at = count-insert c n (last - 1) indegree in
    elim (Bool-cases (c == n)) [
      | inl same ↦
          let equal = (eq_iff c n).0 same in
          let gone = subst (λ x. includes cs x ≡ false) equal new in
          rw rest (
            ground
              (arith, at, same, gone, ap (count indegree) equal, includes-append next (c ∷ []) n))
      | inr other ↦ rw (rest, at, other) (ground (arith, other, includes-append next (c ∷ []) n))
    ]

abbrev pub rest_of : List String → List String → List String
rest_of done = keep (λ d. not (includes done d))

rest_of-other :
    (id : String) (done ds : List String)
    → includes ds id ≡ false
    → length (rest_of (id ∷ done) ds) ≡ length (rest_of done ds)
rest_of-other id done [] h = refl
rest_of-other id done (d ∷ ds) h =
    let rest = rest_of-other id done ds (ground (arith, h)) in
    elim (Bool-cases (includes done d)) [
      | inl old ↦ ground (arith, old, rest)
      | inr new ↦ ground (arith, new, rest, h, eq_iff d id, eq_iff id d)
    ]

-- One more that is done is one less that is not.
pub rest_of-visit :
    (id : String) (done ds : List String)
    → NoDup ds
    → includes done id ≡ false
    → length (rest_of (id ∷ done) ds) + (if includes ds id then 1 else 0) ≡ length (rest_of done ds)
rest_of-visit id done [] h new = refl
rest_of-visit id done (d ∷ ds) (hd, h) new =
    let rest = rest_of-visit id done ds h new in
    elim (Bool-cases (id == d)) [
      | inl same ↦
          let equal = (eq_iff id d).0 same in
          let other =
            rest_of-other id done ds (subst (λ x. includes ds x ≡ false) (sym equal) hd) in
          let new_d = subst (λ x. includes done x ≡ false) equal new in
          ground (arith, same, other, new_d, eq_iff d id, equal)
      | inr differs ↦ elim (Bool-cases (includes done d)) [
        | inl old ↦ ground (arith, differs, old, rest, eq_iff d id, eq_iff id d)
        | inr fresh ↦ ground (arith, differs, fresh, rest, eq_iff d id, eq_iff id d)
      ]
    ]

-- The ids that are done after a wave
abbrev pub settle : List String → List String → List String
settle done [] = done
settle done (id ∷ ids) = settle (id ∷ done) ids

-- The count of a node after the release, by whether it is a child.
released_count :
    (depends node child : Bool) (counted before after : ℕ)
    → child ≡ (if depends then node else false)
    → node ≡ true
    → counted ≡ before
    → after + (if depends then 1 else 0) ≡ before
    → (if child then counted - 1 else counted) ≡ after
released_count true node child counted before after c n e v = ground (arith, c, n, e, v)
released_count false node child counted before after c n e v = ground (arith, c, n, e, v)

-- A child whose count was 1 is a node without pending dependencies, and was not settled.
released_fresh :
    (depends node settled child : Bool) (counted before after : ℕ)
    → child ≡ (if depends then node else false)
    → (child && nat_eq counted 1) ≡ true
    → (node ≡ true → counted ≡ before)
    → (node ≡ true → settled ≡ true → before ≡ 0)
    → after + (if depends then 1 else 0) ≡ before
    → (node ≡ true) × ((after ≡ 0) × (settled ≡ false))
released_fresh false node settled child counted before after c m e f v =
    absurd (ground (arith, c, m))
released_fresh true false settled child counted before after c m e f v =
    absurd (ground (arith, c, m))
released_fresh true true true child counted before after c m e f v =
    absurd (ground (arith, c, m, e refl, f refl refl, v))
released_fresh true true false child counted before after c m e f v =
    (refl, (ground (arith, c, m, e refl, v), refl))

-- A node that has no pending dependencies after the release is among the next, old or new.
released_complete :
    (depends node child next : Bool) (counted before after : ℕ)
    → child ≡ (if depends then node else false)
    → node ≡ true
    → counted ≡ before
    → after + (if depends then 1 else 0) ≡ before
    → after ≡ 0
    → (before ≡ 0 → next ≡ true)
    → (next || (child && nat_eq counted 1)) ≡ true
released_complete true node child true counted before after c n e v z old = refl
released_complete true node child false counted before after c n e v z old =
    ground (arith, c, n, e, v, z)
released_complete false node child next counted before after c n e v z old =
    ground (arith, old (ground (arith, v, z)))

module _ (nodes : List String) (deps : String → List String) where
  abbrev pub pending : List String → String → ℕ
  pending done n = length (rest_of done (deps n))

  abbrev pub children : String → List String
  children id = keep (λ n. includes (deps n) id) nodes

  -- The state of the loop while a wave is released, of which `done` are through; `settled` are those
  -- of the wave and before.
  pub record IsReleased (settled done : List String) (indegree : Map ℕ) (next : List String)
      : Type 0 where
    pub counted : (n : String) → includes nodes n ≡ true → count indegree n ≡ pending done n
    pub finished :
        (n : String) → includes nodes n ≡ true → includes settled n ≡ true → pending done n ≡ 0
    pub fresh :
        (n : String)
        → includes next n ≡ true
        → (includes nodes n ≡ true) × ((pending done n ≡ 0) × (includes settled n ≡ false))
    pub complete :
        (n : String)
        → includes nodes n ≡ true
        → pending done n ≡ 0
        → includes settled n ≡ false
        → includes next n ≡ true

  module _ (distinct_nodes : NoDup nodes) (distinct_deps : (n : String) → NoDup (deps n)) where
    pending-visit :
        (id : String) (done : List String) (n : String)
        → includes done id ≡ false
        → pending (id ∷ done) n + (if includes (deps n) id then 1 else 0) ≡ pending done n
    pending-visit id done n new = rest_of-visit id done (deps n) (distinct_deps n) new

    release_all-IsReleased :
        (settled done : List String) (indegree : Map ℕ) (next : List String) (id : String)
        → includes done id ≡ false
        → IsReleased settled done indegree next
        → IsReleased settled
            (id ∷ done)
            (release_all (indegree, next) (children id)).0
            (release_all (indegree, next) (children id)).1
    release_all-IsReleased settled done indegree next id new h =
        let unique = NoDup-keep (λ n. includes (deps n) id) nodes distinct_nodes in
        let child = λ (n : String). includes-keep (λ n. includes (deps n) id) n nodes in
        let counts = λ (n : String). count-release_all (children id) indegree next n unique in
        let grows = λ (n : String). includes-release_all (children id) indegree next n unique in
        let visit = λ (n : String). pending-visit id done n new in
        record {
          counted = λ n node. rw (counts n) (
              released_count (includes (deps n) id) (includes nodes n) (includes (children id) n)
                (count indegree n) (pending done n) (pending (id ∷ done) n) (child n) node
                (h.counted n node) (visit n));
          finished = λ n node s. omega (arith, visit n, h.finished n node s);
          fresh = λ n member. elim (Bool-cases (includes next n)) [
            | inl old ↦
                let before = h.fresh n old in
                (before.0, (omega (arith, visit n, before.1.0), before.1.1))
            | inr other ↦
                released_fresh (includes (deps n) id) (includes nodes n) (includes settled n)
                  (includes (children id) n) (count indegree n) (pending done n)
                  (pending (id ∷ done) n) (child n) (rw (grows n, other) at member) (h.counted n)
                  (h.finished n) (visit n)
          ];
          complete = λ n node idle unsettled. rw (grows n) (
              released_complete (includes (deps n) id) (includes nodes n) (includes (children id) n)
                (includes next n) (count indegree n) (pending done n) (pending (id ∷ done) n)
                (child n) node (h.counted n node) (visit n) idle
                λ e. h.complete n node e unsettled);
        }

    pub release_wave-IsReleased :
        (settled done : List String) (indegree : Map ℕ) (next ids : List String)
        → NoDup ids
        → ((n : String) → includes ids n ≡ true → includes done n ≡ false)
        → IsReleased settled done indegree next
        → IsReleased settled
            (settle done ids)
            (release_wave children (indegree, next) ids).0
            (release_wave children (indegree, next) ids).1
    release_wave-IsReleased settled done indegree next [] unique new h = h
    release_wave-IsReleased settled done indegree next (id ∷ ids) (first, unique) new h =
        release_wave-IsReleased settled (id ∷ done) _ _ ids unique
          (λ n member. elim (Bool-cases (id == n)) [
            | inl same ↦ absurd (
                ground
                  (arith, member, subst (λ x. includes ids x ≡ false) ((eq_iff id n).0 same) first))
            | inr other ↦ ground (arith, other, new n (ground (arith, other, member)))
          ])
          (release_all-IsReleased settled done indegree next id
            (new id (ground (arith, eq_refl id))) h)
