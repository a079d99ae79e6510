-- ===== src/Plans/Graph/Cycles.antt =====
-- src/core/plan-validation.ts: a node that the loop leaves out of the waves waits for another one.
use codex_mission_ledger.Prelude.{
  ℕ, zero, suc, ◌≤◌, ◌≡◌, refl, sym, ◌∙◌, String, Bool, true, false, not, ◌&&◌, List, [], ◌∷◌, inl,
  inr, arith,
}
use codex_mission_ledger.Prelude.Tests.{Bool-cases}
use codex_mission_ledger.Prelude.Lists.{includes, any, length, includes-append}
use codex_mission_ledger.Prelude.Maps.{Map}
use codex_mission_ledger.Prelude.Text.{sort}
use codex_mission_ledger.Plans.Graph.{distinct, release_wave, waves_from, all_ids}
use codex_mission_ledger.Plans.Graph.Sets.{NoDup}
use codex_mission_ledger.Plans.Graph.Layers.{rest_of, children, settle}
use codex_mission_ledger.Plans.Graph.Waves.{
  IsReady, includes-settle, next_wave-IsReady, length-settle, or_false,
}

-- A dependency that is neither done nor in a wave.
abbrev pub waits_for : List String → List (List String) → String → Bool
waits_for done waves d = not (includes done d) && not (includes (all_ids waves) d)

rest_of-any :
    (done ds : List String) (test : String → Bool)
    → ((d : String) → includes done d ≡ false → test d ≡ true)
    → (length (rest_of done ds) ≡ 0 → ⊥)
    → any test ds ≡ true
rest_of-any done [] test h some_left = absurd (some_left refl)
rest_of-any done (d ∷ ds) test h some_left = elim (Bool-cases (includes done d)) [
  | inl old ↦ ground (arith, rest_of-any done ds test h (λ e. some_left (ground (arith, old, e))))
  | inr new ↦ ground (arith, h d new)
]

any-ext :
    (p q : String → Bool) (ds : List String) → ((d : String) → p d ≡ q d) → any p ds ≡ any q ds
any-ext p q [] h = refl
any-ext p q (d ∷ ds) h = rw (h d, any-ext p q ds h) refl

module _ (nodes : List String) (deps : String → List String) (distinct_nodes : NoDup nodes)
    (distinct_deps : (n : String) → NoDup (deps n)) where
  -- Where no node is ready, each that is not done waits for another.
  ready_waits :
      (done : List String) (indegree : Map ℕ)
      → IsReady nodes deps done indegree []
      → (n : String) → includes nodes n ≡ true
      → includes done n ≡ false
      → any (waits_for done []) (deps n) ≡ true
  unfolding all_ids
  ready_waits done indegree h n node undone =
      rest_of-any done (deps n) (waits_for done []) (λ d new. ground (arith, new))
        (λ idle. absurd (ground (arith, h.complete n node idle undone)))

  -- A node that no wave has depends on another one.
  pub waves_from-waits :
      (fuel : ℕ) (done : List String) (indegree : Map ℕ) (ready : List String)
      → IsReady nodes deps done indegree ready
      → length (rest_of done nodes) ≤ fuel
      → (n : String) → includes nodes n ≡ true
      → includes done n ≡ false
      → includes (all_ids (waves_from fuel (children nodes deps) indegree ready)) n ≡ false
      → any (waits_for done (waves_from fuel (children nodes deps) indegree ready)) (deps n) ≡ true
  unfolding waves_from all_ids
  waves_from-waits zero done indegree (id ∷ ids) h enough n node undone out = absurd (
      omega (
        arith,
        length-settle nodes deps distinct_nodes distinct_deps done (id ∷ ids) h.unique
            λ n member. ((h.free n member).0, (h.free n member).1.1),
      ))
  waves_from-waits (suc fuel) done indegree (id ∷ ids) h enough n node undone out =
      let wave = id ∷ ids in
      let next = next_wave-IsReady nodes deps distinct_nodes distinct_deps done indegree wave h in
      let fewer =
        length-settle nodes deps distinct_nodes distinct_deps done wave h.unique
          (λ n member. ((h.free n member).0, (h.free n member).1.1)) in
      let released = release_wave (children nodes deps) (indegree, []) wave in
      let later =
        all_ids (waves_from fuel (children nodes deps) released.0 (sort (distinct released.1))) in
      let apart =
        or_false (includes wave n) (includes later n) (sym (includes-append wave later n) ∙ out) in
      let rest =
        waves_from-waits fuel (settle done wave) _ _ next (omega (arith, fewer)) n node
          (includes-settle done wave n ∙ ground (arith, apart.0, undone)) apart.1 in
      any-ext _ _ (deps n)
        (λ d. ground (arith, includes-settle done wave d, includes-append wave later d))
      ∙ rest
  waves_from-waits zero done indegree [] h enough n node undone out =
      ready_waits done indegree h n node undone
  waves_from-waits (suc fuel) done indegree [] h enough n node undone out =
      ready_waits done indegree h n node undone
