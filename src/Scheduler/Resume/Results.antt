-- ===== src/Scheduler/Resume/Results.antt =====
-- src/core/scheduler.ts: what `validateInitialResults` lets a run resume from.
use mathlib.Core.List.{Memᴰ, append-nil, append_assoc}
use codex_mission_ledger.Prelude.{
  ◌≡◌, refl, sym, subst, ◌∙◌, String, Bool, true, false, not, Option, none, some, List, [], ◌∷◌,
  ◌++◌, map, ◌==◌, eq_iff, inl, inr, arith,
}
use codex_mission_ledger.Prelude.Tests.{if◌then◌else◌, Bool-cases, Option-cases, if-keeps}
use codex_mission_ledger.Prelude.Lists.{includes, keep, keep-append, map-append, All, All-append}
use codex_mission_ledger.Prelude.Maps.{Map, lookup, insert, remove, has}
use codex_mission_ledger.Contracts.{LeafResult, ExecutionPlan, WaitingLeafResumePoint, is_completed}
use codex_mission_ledger.Policy.Checks.{is_nil}
use codex_mission_ledger.Scheduler.Resume.{
  Checked, passed, stopped_by, Resumed, continues, is_incomplete, waiting_by_task, with_waiting,
  with_result, is_continued, result_error, resume_results, validate_initial_results,
}

-- The point of a waiting result: one of those that are given, for the same task and turn.
pub record IsPointOf (waiting : List WaitingLeafResumePoint) (p : WaitingLeafResumePoint)
    (r : LeafResult) : Type 0 where
  pub given : Memᴰ p waiting
  pub same_task : p.task_id ≡ r.task_id
  pub same_turn : continues p r ≡ true

-- What a run resumes from: the completed results that are given, and the others, each with its point.
pub record IsResumed (ids : List String) (waiting : List WaitingLeafResumePoint)
    (results : List LeafResult) (found : Resumed) : Type 0 where
  pub completed_ones : found.completed ≡ keep (λ r. is_completed r.status) results
  pub waiting_ones : map (λ w. w.1) found.waiting ≡ keep (λ r. not (is_completed r.status)) results
  pub pointed : All (λ w. IsPointOf waiting w.0 w.1) found.waiting
  pub planned : All (λ r. includes ids r.task_id ≡ true) results

abbrev pub Resumes :
    List String → List WaitingLeafResumePoint → List LeafResult → Checked Resumed → Type 0
Resumes ids waiting results (stopped_by e) = Unit
Resumes ids waiting results (passed found) = IsResumed ids waiting results found

module _ (waiting : List WaitingLeafResumePoint) where
  -- An entry of the map of points: a given point, under its task.
  abbrev IsEntry : String × WaitingLeafResumePoint → Type 0
  IsEntry (key, p) = Memᴰ p waiting × (p.task_id ≡ key)

  insert-IsEntry :
      (key : String) (p : WaitingLeafResumePoint) (points : Map WaitingLeafResumePoint)
      → IsEntry (key, p)
      → All IsEntry points
      → All IsEntry (insert key p points)
  unfolding insert
  insert-IsEntry key p [] new h = (new, tt)
  insert-IsEntry key p ((first, old) ∷ rest) new (h, hs) = elim (Bool-cases (first == key)) [
    | inl same ↦ rw same ((new.0, new.1 ∙ sym ((eq_iff first key).0 same)), hs)
    | inr other ↦ rw other (h, insert-IsEntry key p rest new hs)
  ]

  remove-IsEntry :
      (key : String) (points : Map WaitingLeafResumePoint)
      → All IsEntry points
      → All IsEntry (remove key points)
  unfolding remove
  remove-IsEntry key [] h = tt
  remove-IsEntry key ((first, old) ∷ rest) (h, hs) =
      if-keeps (All IsEntry) (first == key) (remove-IsEntry key rest hs)
        (h, remove-IsEntry key rest hs)

  lookup-IsEntry :
      (key : String) (p : WaitingLeafResumePoint) (points : Map WaitingLeafResumePoint)
      → All IsEntry points
      → lookup key points ≡ some p
      → IsEntry (key, p)
  unfolding lookup
  lookup-IsEntry key p [] h e = absurd cc
  lookup-IsEntry key p ((first, old) ∷ rest) (h, hs) e = elim (Bool-cases (first == key)) [
    | inl same ↦
        let is_old : old ≡ p = ground (arith, e, same) in
        subst (λ q. IsEntry (key, q)) is_old (h.0, h.1 ∙ (eq_iff first key).0 same)
    | inr other ↦ lookup-IsEntry key p rest hs (ground (arith, e, other))
  ]

  abbrev HasEntries : Checked (Map WaitingLeafResumePoint) → Type 0
  HasEntries (stopped_by e) = Unit
  HasEntries (passed points) = All IsEntry points

  waiting_by_task-HasEntries :
      (ids : List String) (points : Map WaitingLeafResumePoint) (ps : List WaitingLeafResumePoint)
      → ((p : WaitingLeafResumePoint) → Memᴰ p ps → Memᴰ p waiting)
      → All IsEntry points
      → HasEntries (waiting_by_task ids points ps)
  waiting_by_task-HasEntries ids points [] inside h = h
  waiting_by_task-HasEntries ids points (p ∷ ps) inside h =
      if-keeps HasEntries (not (includes ids p.task_id)) tt (
        if-keeps HasEntries (has p.task_id points) tt (
          if-keeps HasEntries (is_incomplete p) tt (
            waiting_by_task-HasEntries ids (insert p.task_id p points) ps
              (λ q later. inside q (Memᴰ.tail later))
              (insert-IsEntry p.task_id p points (inside p (Memᴰ.head refl), refl) h))))

  module _ (ids : List String) where
    extended :
        (p : LeafResult → Bool) (results : List LeafResult) (r : LeafResult)
        (kept : List LeafResult)
        → p r ≡ true
        → kept ≡ keep p results
        → kept ++ (r ∷ []) ≡ keep p (results ++ (r ∷ []))
    extended p results r kept met e = rw (keep-append p results (r ∷ []), e) (rw (met, keep) refl)

    passed_over :
        (p : LeafResult → Bool) (results : List LeafResult) (r : LeafResult)
        (kept : List LeafResult)
        → p r ≡ false
        → kept ≡ keep p results
        → kept ≡ keep p (results ++ (r ∷ []))
    passed_over p results r kept fails e =
        rw (keep-append p results (r ∷ []), e)
          (rw (fails, keep) (sym (append-nil (keep p results))))

    with_completed-IsResumed :
        (r : LeafResult) (results : List LeafResult) (found : Resumed)
        → is_completed r.status ≡ true
        → includes ids r.task_id ≡ true
        → IsResumed ids waiting results found
        → IsResumed ids waiting
            (results ++ (r ∷ []))
            (record found { completed = found.completed ++ (r ∷ []) })
    with_completed-IsResumed r results found done known h = record {
      completed_ones =
          extended (λ r. is_completed r.status) results r found.completed done h.completed_ones;
      waiting_ones =
          passed_over (λ r. not (is_completed r.status)) results r (map (λ w. w.1) found.waiting)
            (ground (arith, done)) h.waiting_ones;
      pointed = h.pointed;
      planned = All-append _ results (r ∷ []) h.planned (known, tt);
    }

    with_waiting-IsResumed :
        (p : WaitingLeafResumePoint) (r : LeafResult) (results : List LeafResult) (found : Resumed)
        → is_completed r.status ≡ false
        → includes ids r.task_id ≡ true
        → IsPointOf waiting p r
        → IsResumed ids waiting results found
        → IsResumed ids waiting
            (results ++ (r ∷ []))
            (record found { waiting = found.waiting ++ ((p, r) ∷ []) })
    with_waiting-IsResumed p r results found open_ known point h = record {
      completed_ones =
          passed_over (λ r. is_completed r.status) results r found.completed open_ h.completed_ones;
      waiting_ones =
          map-append (λ w. w.1) found.waiting ((p, r) ∷ [])
          ∙ extended (λ r. not (is_completed r.status)) results r (map (λ w. w.1) found.waiting)
              (ground (arith, open_)) h.waiting_ones;
      pointed = All-append _ found.waiting ((p, r) ∷ []) h.pointed (point, tt);
      planned = All-append _ results (r ∷ []) h.planned (known, tt);
    }

    with_result-IsResumed :
        (seen : List String) (point : Option WaitingLeafResumePoint) (r : LeafResult)
        (results : List LeafResult) (found : Resumed)
        → ((p : WaitingLeafResumePoint) → point ≡ some p → IsEntry (r.task_id, p))
        → result_error ids seen point r ≡ none
        → IsResumed ids waiting results found
        → IsResumed ids waiting (results ++ (r ∷ [])) (with_result point r found)
    with_result-IsResumed seen point r results found entry fine h =
        let known : includes ids r.task_id ≡ true = ground (arith, fine) in
        elim (Bool-cases (is_completed r.status)) [
          | inl done ↦
              rw (done, with_result) (with_completed-IsResumed r results found done known h)
          | inr open_ ↦
              rw (open_, with_result) (go point entry (ground (arith, fine, open_)) open_ known)
        ]
      where
        go :
            (point : Option WaitingLeafResumePoint)
            → ((p : WaitingLeafResumePoint) → point ≡ some p → IsEntry (r.task_id, p))
            → is_continued point r ≡ true
            → is_completed r.status ≡ false
            → includes ids r.task_id ≡ true
            → IsResumed ids waiting (results ++ (r ∷ [])) (with_waiting point r found)
        go none entry turn open_ known = absurd cc
        go (some p) entry turn open_ known =
            let (given, same) = entry p refl in
            with_waiting-IsResumed p r results found open_ known
              (record { given = given; same_task = same; same_turn = turn }) h

    resume_results-Resumes :
        (seen : List String) (points : Map WaitingLeafResumePoint) (found : Resumed)
        (results rs : List LeafResult)
        → All IsEntry points
        → IsResumed ids waiting results found
        → Resumes ids waiting (results ++ rs) (resume_results ids seen points found rs)
    resume_results-Resumes seen points found results [] entries h =
        if-keeps (Resumes ids waiting (results ++ [])) (is_nil points)
          (subst (λ rs. IsResumed ids waiting rs found) (sym (append-nil results)) h) tt
    resume_results-Resumes seen points found results (r ∷ rs) entries h =
        let point = lookup r.task_id points in
        elim (Option-cases (result_error ids seen point r)) [
          | inr (c, e) ↦ rw (e, resume_results) tt
          | inl fine ↦
              rw (fine, resume_results)
                (subst
                  (λ all. Resumes ids waiting all (
                    resume_results ids (r.task_id ∷ seen)
                      (if is_completed r.status then points else remove r.task_id points)
                      (with_result point r found) rs))
                  (append_assoc results (r ∷ []) rs)
                  (resume_results-Resumes (r.task_id ∷ seen) _ (with_result point r found)
                    (results ++ (r ∷ [])) rs
                    (if-keeps (All IsEntry) (is_completed r.status) entries
                      (remove-IsEntry r.task_id points entries))
                    (with_result-IsResumed seen point r results found
                      (λ p e. lookup-IsEntry r.task_id p points entries e) fine h)))
        ]

-- A run resumes from just the results that are given, in their order: the completed ones as they are,
-- and each other one with a given waiting point of the same task, at whose turn it waits for a
-- permission. All are results of tasks of the plan.
pub validate_initial_results-Resumes :
    (plan : ExecutionPlan) (results : List LeafResult) (waiting : List WaitingLeafResumePoint)
    → Resumes
        (map (λ t. t.id) plan.tasks)
        waiting
        results
        (validate_initial_results plan results waiting)
unfolding validate_initial_results
validate_initial_results-Resumes plan results waiting =
    let ids = map (λ t. t.id) plan.tasks in
    go (waiting_by_task ids [] waiting)
      (waiting_by_task-HasEntries waiting ids [] waiting (λ p inside. inside) tt)
  where
    go :
        (r : Checked (Map WaitingLeafResumePoint))
        → HasEntries waiting r
        → Resumes (map (λ t. t.id) plan.tasks) waiting results (elim r [
          | stopped_by e ↦ stopped_by e
          | passed points ↦
              resume_results
                (map (λ t. t.id) plan.tasks)
                []
                points
                (record { completed = []; waiting = [] })
                results
        ])
    go (stopped_by e) h = tt
    go (passed points) h =
        resume_results-Resumes waiting (map (λ t. t.id) plan.tasks) [] points
          (record { completed = []; waiting = [] }) [] results h
          (record { completed_ones = refl; waiting_ones = refl; pointed = tt; planned = tt })
