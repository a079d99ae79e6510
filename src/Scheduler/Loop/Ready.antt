-- ===== src/Scheduler/Loop/Ready.antt =====
-- src/core/scheduler.ts: which leaves an iteration of the loop starts.
use codex_mission_ledger.Prelude.{
  ℕ, zero, suc, ◌-◌, ◌≡◌, refl, ap, String, Bool, true, false, not, ◌&&◌, none, some, List, [], ◌∷◌,
  inl, inr, ◌⊎◌, arith, ◌==◌, eq_iff,
}
use mathlib.Core.List.{Memᴰ}
use codex_mission_ledger.Prelude.Tests.{ltb, Bool-cases, Option-cases, if-keeps}
use codex_mission_ledger.Prelude.Lists.{all, keep, take, length, All, All-keep, All-map}
use codex_mission_ledger.Prelude.Maps.{Map, lookup, has, lookup-insert}
use codex_mission_ledger.Prelude.Numbers.{Number}
use codex_mission_ledger.Contracts.{
  LeafTask, LeafResult, ExecutionPlan, ExecutionLimits, ReplanTrigger,
}
use codex_mission_ledger.Policy.Limits.{Result, ok, err}
use codex_mission_ledger.Policy.Checks.{is_nil}
use codex_mission_ledger.Scheduler.Results.{has_pending_tasks, execution_stop_reason}
use codex_mission_ledger.Scheduler.Escalation.{Leaf, Shared, run_leaf}
use codex_mission_ledger.Scheduler.Loop.{RunState, has_completed}
use codex_mission_ledger.Scheduler.Loop.Turn.{
  Phase, done, racing, threw, replanning, Moment, is_ready, launch_one, launch_all, launch_group,
  stopped, after_launch, go_on, all_triggers, triggers_of, evidence_of, with_evidence, decide,
  with_triggers, with_blocked, turn,
}

-- A task of the plan that may start: it has no result, and its dependencies are completed.
pub record MayStart (s : RunState) (t : LeafTask) : Type 0 where
  pub planned : Memᴰ t s.plan.tasks
  pub pending : has t.id s.results ≡ false
  pub depends : all (has_completed s.results) t.depends_on ≡ true

All-take {ℓ κ} : {A : Type ℓ} (P : A → Type κ) (n : ℕ) (xs : List A) → All P xs → All P (take n xs)
All-take P zero xs h = tt
All-take P (suc n) [] h = tt
All-take P (suc n) (x ∷ xs) (h, hs) = (h, All-take P n xs hs)

keep-All : (p : LeafTask → Bool) (ts : List LeafTask) → All (λ t. p t ≡ true) (keep p ts)
keep-All p [] = tt
keep-All p (t ∷ ts) = elim (Bool-cases (p t)) [
  | inl met ↦ rw (met, keep) (met, keep-All p ts)
  | inr other ↦ rw (other, keep) (keep-All p ts)
]

planned_All : (ts : List LeafTask) → All (λ t. Memᴰ t ts) ts
planned_All [] = tt
planned_All (t ∷ ts) = (
  Memᴰ.head refl,
  All-map (λ u. Memᴰ u ts) (λ u. Memᴰ u (t ∷ ts)) (λ u. Memᴰ.tail) ts (planned_All ts),
)

All-both {ℓ κ μ} :
    {A : Type ℓ} (P : A → Type κ) (Q : A → Type μ) (xs : List A)
    → All P xs
    → All Q xs
    → All (λ x. P x × Q x) xs
All-both P Q [] p q = tt
All-both P Q (x ∷ xs) (p, ps) (q, qs) = ((p, q), All-both P Q xs ps qs)

ready_MayStart : (s : RunState) → All (MayStart s) (keep (is_ready s) s.plan.tasks)
ready_MayStart s =
    All-map (λ t. Memᴰ t s.plan.tasks × (is_ready s t ≡ true)) (MayStart s)
      (λ t h. record {
        planned = h.0;
        pending = ground (arith, h.1);
        depends = ground (arith, h.1);
      })
      (keep (is_ready s) s.plan.tasks)
      (All-both (λ t. Memᴰ t s.plan.tasks) (λ t. is_ready s t ≡ true)
        (keep (is_ready s) s.plan.tasks)
        (All-keep (λ t. Memᴰ t s.plan.tasks) (is_ready s) s.plan.tasks (planned_All s.plan.tasks))
        (keep-All (is_ready s) s.plan.tasks))

module _ (date_parse : String → Number) (limits : ExecutionLimits)
    (inspect : ExecutionPlan → List LeafResult → List ReplanTrigger) where
  -- The leaf that runs under an id is the run of a task with this id, for which `P` holds.
  pub record IsStart (P : LeafTask → Type 0) (m : Moment) (id : String) (leaf : Leaf) : Type 0 where
    pub task : LeafTask
    pub same_id : task.id ≡ id
    pub may_start : P task
    pub shared : Shared
    pub is_run : leaf ≡ (run_leaf date_parse limits m.stop m.now shared task).1

  -- Each leaf that runs now and did not in `running` is the run of a task that may start.
  abbrev pub OnlyStarts : Moment → Map Leaf → RunState × Phase → Type 0
  OnlyStarts m running (s, p) =
      (id : String) (leaf : Leaf)
      → lookup id s.running ≡ some leaf
      → lookup id running ≡ none
      → IsStart (MayStart s) m id leaf

  nothing_starts :
      (m : Moment) (s : RunState) (p : Phase) (running : Map Leaf)
      → s.running ≡ running
      → OnlyStarts m running (s, p)
  nothing_starts m s p running same id leaf e gone =
      absurd (ground (arith, e, gone, ap (lookup id) same))

  launch_all-results :
      (m : Moment) (ts : List LeafTask) (s : RunState)
      → ((launch_all date_parse limits inspect m s ts).results ≡ s.results)
        × ((launch_all date_parse limits inspect m s ts).plan ≡ s.plan)
  unfolding launch_all
  launch_all-results m [] s = (refl, refl)
  launch_all-results m (t ∷ ts) s =
      launch_all-results m ts (launch_one date_parse limits inspect m s t)

  launch_all-starts :
      (P : LeafTask → Type 0) (m : Moment) (ts : List LeafTask) (s : RunState)
      → All P ts
      → (id : String) (leaf : Leaf)
      → lookup id (launch_all date_parse limits inspect m s ts).running ≡ some leaf
      → (lookup id s.running ≡ some leaf) ⊎ IsStart P m id leaf
  unfolding launch_all
  launch_all-starts P m [] s h id leaf e = inl e
  launch_all-starts P m (t ∷ ts) s (h, hs) id leaf e =
      elim (launch_all-starts P m ts (launch_one date_parse limits inspect m s t) hs id leaf e) [
        | inr later ↦ inr later
        | inl now ↦
            let started = (run_leaf date_parse limits m.stop m.now s.shared t).1 in
            let inserted = lookup-insert t.id id started s.running in
            elim (Bool-cases (t.id == id)) [
              | inl same ↦ inr (record {
                task = t;
                same_id = (eq_iff t.id id).0 same;
                may_start = h;
                shared = s.shared;
                is_run = ground (arith, now, inserted, same);
              })
              | inr other ↦ inl (ground (arith, now, inserted, other))
            ]
      ]

  MayStart-same :
      (s u : RunState) (t : LeafTask)
      → (u.results ≡ s.results) × (u.plan ≡ s.plan)
      → MayStart s t
      → MayStart u t
  MayStart-same s u t same h = record {
    planned = rw same.1 h.planned;
    pending = rw same.0 h.pending;
    depends = rw same.0 h.depends;
  }

  nil_lookup : (running : Map Leaf) (id : String) → is_nil running ≡ true → lookup id running ≡ none
  unfolding lookup
  nil_lookup [] id h = refl
  nil_lookup (e ∷ m) id h = absurd (ground (arith, h))

  after_launch-OnlyStarts :
      (m : Moment) (running : Map Leaf) (s : RunState)
      → OnlyStarts m running (s, racing)
      → OnlyStarts m running (after_launch m s)
  after_launch-OnlyStarts m running s h = elim (Bool-cases (is_nil s.running)) [
    | inr some_run ↦ rw (some_run, after_launch) h
    | inl empty ↦
        rw (empty, after_launch)
          (λ id leaf e gone. absurd (ground (arith, e, nil_lookup s.running id empty)))
  ]

  stopped-OnlyStarts :
      (m : Moment) (reason : String) (s : RunState) → OnlyStarts m s.running (stopped m reason s)
  stopped-OnlyStarts m reason s =
      if-keeps (OnlyStarts m s.running) (is_nil s.running) (nothing_starts m _ done s.running refl)
        (nothing_starts m s racing s.running refl)

  go_on-OnlyStarts :
      (m : Moment) (s : RunState) → OnlyStarts m s.running (go_on date_parse limits inspect m s)
  go_on-OnlyStarts m s = elim (Bool-cases (has_pending_tasks s.plan.tasks s.results)) [
    | inr all_done ↦ rw (all_done, go_on) (nothing_starts m s done s.running refl)
    | inl pending ↦
        elim (Option-cases
          (execution_stop_reason m.deadline_passed s.plan.tasks s.results s.usage limits)) [
            | inr (reason, e) ↦ rw (pending, e, go_on) (stopped-OnlyStarts m reason s)
            | inl going ↦
                rw (pending, going, go_on)
                  (let group = launch_group date_parse limits inspect s in
                    let after = launch_all date_parse limits inspect m s group in
                    let may =
                      All-take (MayStart s) (limits.max_concurrent - length s.running)
                        (keep (is_ready s) s.plan.tasks) (ready_MayStart s) in
                    after_launch-OnlyStarts m s.running after λ id leaf e gone.
                      elim (launch_all-starts (MayStart s) m group s may id leaf e) [
                        | inl before ↦ absurd (ground (arith, before, gone))
                        | inr found ↦ record {
                          task = found.task;
                          same_id = found.same_id;
                          may_start =
                              MayStart-same s after found.task (launch_all-results m group s)
                                found.may_start;
                          shared = found.shared;
                          is_run = found.is_run;
                        }
                      ])
          ]
  ]

  with_triggers-OnlyStarts :
      (m : Moment) (s : RunState) (r : Result (List ReplanTrigger))
      → OnlyStarts m s.running (with_triggers date_parse limits inspect m s r)
  with_triggers-OnlyStarts m s (ok triggers) =
      let found = all_triggers date_parse limits inspect s triggers in
      elim (Bool-cases (not (is_nil found) && ltb s.replan_count limits.max_replans)) [
        | inr kept ↦ rw (kept, decide) (go_on-OnlyStarts m s)
        | inl again ↦
            rw (again, decide)
              (if-keeps (OnlyStarts m s.running) (is_nil s.running)
                (nothing_starts m _ (replanning found) s.running refl)
                (nothing_starts m s racing s.running refl))
      ]
  with_triggers-OnlyStarts m s (err e) = nothing_starts m s threw s.running refl

  -- Each leaf that an iteration of the loop starts is the run of a task of the plan that has no result
  -- and whose dependencies all have completed results.
  pub turn-OnlyStarts :
      (m : Moment) (s : RunState) → OnlyStarts m s.running (turn date_parse limits inspect m s)
  unfolding turn
  turn-OnlyStarts m s =
      elim m.stop
        as (λ o. OnlyStarts m s.running (elim o [
          | some reason ↦ stopped m reason (with_blocked m s)
          | none ↦ with_triggers date_parse limits inspect m (with_evidence (with_blocked m s)) (
              triggers_of date_parse limits inspect m (evidence_of (with_blocked m s))
                (with_evidence (with_blocked m s)))
        ])) [
          | some reason ↦ stopped-OnlyStarts m reason (with_blocked m s)
          | none ↦ with_triggers-OnlyStarts m (with_evidence (with_blocked m s)) (
              triggers_of date_parse limits inspect m (evidence_of (with_blocked m s))
                (with_evidence (with_blocked m s)))
        ]
