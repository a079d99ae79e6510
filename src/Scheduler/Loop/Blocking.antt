-- ===== src/Scheduler/Loop/Blocking.antt =====
-- src/core/scheduler.ts: `#blockTasksWithFailedDependencies` ends, with nothing left to block.
use codex_mission_ledger.Prelude.{
  ℕ, zero, suc, ◌+◌, ◌≤◌, ◌<◌, ◌≡◌, refl, sym, subst, String, Bool, true, false, none, List, [],
  ◌∷◌, inl, inr, arith, eq_refl,
}
use codex_mission_ledger.Prelude.Tests.{if◌then◌else◌, Bool-cases, Option-cases}
use codex_mission_ledger.Prelude.Lists.{length, All}
use codex_mission_ledger.Prelude.Maps.{Map, insert, has, lookup-insert}
use codex_mission_ledger.Contracts.{LeafTask, LeafResult}
use codex_mission_ledger.Scheduler.Results.{blocked_result}
use codex_mission_ledger.Scheduler.Loop.{
  failed_dependency, block_text, block_round, block_rounds, block_tasks_with_failed_dependencies,
}

-- Nothing is left to block: no task without a result depends on one that did not complete.
abbrev pub IsSettled : Map LeafResult → List LeafTask → Type 0
IsSettled results =
    All (λ t. has t.id results ≡ false → failed_dependency results t.depends_on ≡ none)

abbrev unsettled : List LeafTask → Map LeafResult → ℕ
unsettled [] results = 0
unsettled (t ∷ ts) results = (if has t.id results then 0 else 1) + unsettled ts results

unsettled-le : (ts : List LeafTask) (results : Map LeafResult) → unsettled ts results ≤ length ts
unsettled-le [] results = omega arith
unsettled-le (t ∷ ts) results = ground (arith, unsettled-le ts results)

unsettled_mono :
    (ts : List LeafTask) (a b : Map LeafResult)
    → ((id : String) → has id a ≡ true → has id b ≡ true)
    → unsettled ts b ≤ unsettled ts a
unsettled_mono [] a b h = omega arith
unsettled_mono (t ∷ ts) a b h = ground (arith, h t.id, unsettled_mono ts a b h)

module _ (now : String) where
  abbrev block : LeafTask → String → Map LeafResult → Map LeafResult
  block t failed results = insert t.id (blocked_result t.id (block_text failed) now) results

  block-keeps :
      (t : LeafTask) (failed id : String) (results : Map LeafResult)
      → has id results ≡ true
      → has id (block t failed results) ≡ true
  block-keeps t failed id results h =
      ground (arith, lookup-insert t.id id (blocked_result t.id (block_text failed) now) results, h)

  block-has :
      (t : LeafTask) (failed : String) (results : Map LeafResult)
      → has t.id (block t failed results) ≡ true
  block-has t failed results = ground (
    arith,
    lookup-insert t.id t.id (blocked_result t.id (block_text failed) now) results,
    eq_refl t.id,
  )

  block_round-keeps :
      (ts : List LeafTask) (results : Map LeafResult) (changed : Bool) (id : String)
      → has id results ≡ true
      → has id (block_round now ts results changed).0 ≡ true
  block_round-keeps [] results changed id h = h
  block_round-keeps (t ∷ ts) results changed id h = elim (Bool-cases (has t.id results)) [
    | inl known ↦ rw (known, block_round) (block_round-keeps ts results changed id h)
    | inr open_ ↦ elim (Option-cases (failed_dependency results t.depends_on)) [
      | inl fine ↦ rw (open_, fine, block_round) (block_round-keeps ts results changed id h)
      | inr (d, e) ↦
          rw (open_, e, block_round)
            (block_round-keeps ts (block t d results) true id (block-keeps t d id results h))
    ]
  ]

  block_round-changed :
      (ts : List LeafTask) (results : Map LeafResult) → (block_round now ts results true).1 ≡ true
  block_round-changed [] results = refl
  block_round-changed (t ∷ ts) results = elim (Bool-cases (has t.id results)) [
    | inl known ↦ rw (known, block_round) (block_round-changed ts results)
    | inr open_ ↦ elim (Option-cases (failed_dependency results t.depends_on)) [
      | inl fine ↦ rw (open_, fine, block_round) (block_round-changed ts results)
      | inr (d, e) ↦ rw (open_, e, block_round) (block_round-changed ts (block t d results))
    ]
  ]

  -- What a round from `results` over `ts` says by whether it changed anything.
  abbrev RoundHolds : List LeafTask → Map LeafResult → Map LeafResult × Bool → Type 0
  RoundHolds ts results (next, false) = (next ≡ results) × IsSettled results ts
  RoundHolds ts results (next, true) = unsettled ts next + 1 ≤ unsettled ts results

  settled_cons :
      (t : LeafTask) (ts : List LeafTask) (results : Map LeafResult) (r : Map LeafResult × Bool)
      → (has t.id results ≡ false → failed_dependency results t.depends_on ≡ none)
      → (has t.id results ≡ true → has t.id r.0 ≡ true)
      → RoundHolds ts results r
      → RoundHolds (t ∷ ts) results r
  settled_cons t ts results (next, false) fine kept h = (h.0, (fine, h.1))
  settled_cons t ts results (next, true) fine kept h = ground (arith, kept, h)

  blocked_cons :
      (t : LeafTask) (ts : List LeafTask) (results : Map LeafResult) (d : String)
      (r : Map LeafResult × Bool)
      → has t.id results ≡ false
      → ((id : String) → has id (block t d results) ≡ true → has id r.0 ≡ true)
      → r.1 ≡ true
      → RoundHolds (t ∷ ts) results r
  blocked_cons t ts results d (next, false) open_ kept h = absurd (ground (arith, h))
  blocked_cons t ts results d (next, true) open_ kept h = ground (
    arith,
    open_,
    kept t.id (block-has t d results),
    unsettled_mono ts results next (λ id e. kept id (block-keeps t d id results e)),
  )

  block_round-RoundHolds :
      (ts : List LeafTask) (results : Map LeafResult)
      → RoundHolds ts results (block_round now ts results false)
  block_round-RoundHolds [] results = (refl, tt)
  block_round-RoundHolds (t ∷ ts) results = elim (Bool-cases (has t.id results)) [
    | inl known ↦
        rw (known, block_round)
          (settled_cons t ts results _ (λ e. absurd cc)
            (λ e. block_round-keeps ts results false t.id e) (block_round-RoundHolds ts results))
    | inr open_ ↦ elim (Option-cases (failed_dependency results t.depends_on)) [
      | inl fine ↦
          rw (open_, fine, block_round)
            (settled_cons t ts results _ (λ e. fine)
              (λ e. block_round-keeps ts results false t.id e) (block_round-RoundHolds ts results))
      | inr (d, e) ↦
          rw (open_, e, block_round)
            (blocked_cons t ts results d _ open_ (block_round-keeps ts (block t d results) true)
              (block_round-changed ts (block t d results)))
    ]
  ]

  block_rounds-IsSettled :
      (fuel : ℕ) (ts : List LeafTask) (results : Map LeafResult)
      → unsettled ts results < fuel
      → IsSettled (block_rounds fuel now ts results) ts
  block_rounds-IsSettled zero ts results enough = absurd (omega arith)
  block_rounds-IsSettled (suc fuel) ts results enough =
      go (block_round now ts results false) (block_round-RoundHolds ts results)
        (λ next e. block_rounds-IsSettled fuel ts next (omega (arith, e)))
    where
      go :
          (r : Map LeafResult × Bool)
          → RoundHolds ts results r
          → ((next : Map LeafResult)
              → unsettled ts next < fuel
              → IsSettled (block_rounds fuel now ts next) ts)
          → IsSettled (if r.1 then block_rounds fuel now ts r.0 else r.0) ts
      go (next, false) h rest = subst (λ m. IsSettled m ts) (sym h.0) h.1
      go (next, true) h rest = rest next (omega (arith, h, enough))

-- The rounds over the tasks end, and then no task without a result depends on a task whose result
-- is not a completed one.
pub block_tasks_with_failed_dependencies-IsSettled :
    (now : String) (tasks : List LeafTask) (results : Map LeafResult)
    → IsSettled (block_tasks_with_failed_dependencies now tasks results) tasks
unfolding block_tasks_with_failed_dependencies
block_tasks_with_failed_dependencies-IsSettled now tasks results =
    block_rounds-IsSettled now (suc (length tasks)) tasks results
      (omega (arith, unsettled-le tasks results))
