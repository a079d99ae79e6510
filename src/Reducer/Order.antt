-- ===== src/Reducer/Order.antt =====
-- src/core/reducer.ts: when a reduction completes, and that it does not depend on the order in which
-- the results come.
use codex_mission_ledger.Prelude.{
  ℕ, suc, ◌≡◌, ◌≢◌, ◌↔◌, refl, ap, sym, ◌∙◌, Bool, true, false, List, [], ◌∷◌, ◌++◌, inl, inr,
  arith,
}
use codex_mission_ledger.Prelude.Tests.{leb, nat_eq, nat_eq_iff, Bool-cases}
use codex_mission_ledger.Prelude.Lists.{all, keep, keep-append, length, length-keep-le}
use codex_mission_ledger.Contracts.{LeafResult, ExecutionPlan, is_completed}
use codex_mission_ledger.Reducer.{
  ReducedOutcome, completed, failed, insert_by, sort_by, order_of, in_plan_order,
  reduce_leaf_results,
}

module _ (key : LeafResult → ℕ) where
  -- Results of different order go to the same places, whichever is put in first.
  insert_by_swap :
      (a b : LeafResult) (ls : List LeafResult)
      → key a ≢ key b
      → insert_by key a (insert_by key b ls) ≡ insert_by key b (insert_by key a ls)
  insert_by_swap a b [] differ = elim (Bool-cases (leb (key a) (key b))) [
    | inl first ↦
        let second : leb (key b) (key a) ≡ false = ground (arith, first, differ) in
        rw (first, second) refl
    | inr later ↦
        let second : leb (key b) (key a) ≡ true = ground (arith, later) in rw (later, second) refl
  ]
  insert_by_swap a b (l ∷ ls) differ = elim (Bool-cases (leb (key a) (key l))) [
    | inl a_first ↦ elim (Bool-cases (leb (key b) (key l))) [
      | inl b_first ↦ elim (Bool-cases (leb (key a) (key b))) [
        | inl first ↦
            let second : leb (key b) (key a) ≡ false = ground (arith, first, differ) in
            rw (a_first, b_first, first, second) refl
        | inr later ↦
            let second : leb (key b) (key a) ≡ true = ground (arith, later) in
            rw (a_first, b_first, later, second) (rw a_first refl)
      ]
      | inr b_later ↦
          let second : leb (key b) (key a) ≡ false = ground (arith, a_first, b_later) in
          rw (b_later, a_first, second) (rw b_later refl)
    ]
    | inr a_later ↦ elim (Bool-cases (leb (key b) (key l))) [
      | inl b_first ↦
          let second : leb (key a) (key b) ≡ false = ground (arith, b_first, a_later) in
          rw (b_first, a_later, second) (rw b_first refl)
      | inr b_later ↦
          rw (a_later, b_later) (rw a_later (ap (λ rest. l ∷ rest) (insert_by_swap a b ls differ)))
    ]
  ]

  length-insert_by :
      (a : LeafResult) (ls : List LeafResult) → length (insert_by key a ls) ≡ suc (length ls)
  length-insert_by a [] = refl
  length-insert_by a (l ∷ ls) = ground (arith, length-insert_by a ls)

  length-sort_by : (ls : List LeafResult) → length (sort_by key ls) ≡ length ls
  unfolding sort_by
  length-sort_by [] = refl
  length-sort_by (l ∷ ls) = length-insert_by l (sort_by key ls) ∙ ap suc (length-sort_by ls)

  sort_by_swap :
      (xs : List LeafResult) (a b : LeafResult) (ys : List LeafResult)
      → key a ≢ key b
      → sort_by key (xs ++ (a ∷ b ∷ ys)) ≡ sort_by key (xs ++ (b ∷ a ∷ ys))
  unfolding sort_by
  sort_by_swap [] a b ys differ = insert_by_swap a b (sort_by key ys) differ
  sort_by_swap (x ∷ xs) a b ys differ = ap (insert_by key x) (sort_by_swap xs a b ys differ)

-- The completed results keep the exchange, unless one of the two is not among them.
sort_by-keep_swap :
    (key : LeafResult → ℕ) (p : LeafResult → Bool) (xs : List LeafResult) (a b : LeafResult)
    (ys : List LeafResult)
    → key a ≢ key b
    → sort_by key (keep p (xs ++ (a ∷ b ∷ ys))) ≡ sort_by key (keep p (xs ++ (b ∷ a ∷ ys)))
sort_by-keep_swap key p xs a b ys differ =
    rw (keep-append p xs (a ∷ b ∷ ys), keep-append p xs (b ∷ a ∷ ys))
      (swapped key p (keep p xs) a b ys differ)
  where
    swapped :
        (key : LeafResult → ℕ) (p : LeafResult → Bool) (xs : List LeafResult) (a b : LeafResult)
        (ys : List LeafResult)
        → key a ≢ key b
        → sort_by key (xs ++ keep p (a ∷ b ∷ ys)) ≡ sort_by key (xs ++ keep p (b ∷ a ∷ ys))
    swapped key p xs a b ys differ = elim (Bool-cases (p a)) [
      | inl keeps_a ↦ elim (Bool-cases (p b)) [
        | inl keeps_b ↦ rw (keeps_a, keeps_b) (sort_by_swap key xs a b (keep p ys) differ)
        | inr drops_b ↦ rw (keeps_a, drops_b) refl
      ]
      | inr drops_a ↦ elim (Bool-cases (p b)) [
        | inl keeps_b ↦ rw (drops_a, keeps_b) refl
        | inr drops_b ↦ rw (drops_a, drops_b) refl
      ]
    ]

length_swap :
    (xs : List LeafResult) (a b : LeafResult) (ys : List LeafResult)
    → length (xs ++ (a ∷ b ∷ ys)) ≡ length (xs ++ (b ∷ a ∷ ys))
length_swap [] a b ys = refl
length_swap (x ∷ xs) a b ys = ap suc (length_swap xs a b ys)

-- Two results that come one after the other may come the other way round, if the plan has them at
-- different places: the reduction gives the same response, or fails as well.
pub reduce_leaf_results_swap :
    (plan : ExecutionPlan) (xs : List LeafResult) (a b : LeafResult) (ys : List LeafResult)
    → order_of plan.tasks a.task_id ≢ order_of plan.tasks b.task_id
    → reduce_leaf_results plan (xs ++ (a ∷ b ∷ ys)) ≡ reduce_leaf_results plan (xs ++ (b ∷ a ∷ ys))
unfolding reduce_leaf_results
reduce_leaf_results_swap plan xs a b ys differ =
    rw
      (
        sort_by-keep_swap (λ l. order_of plan.tasks l.task_id) (λ l. is_completed l.status) xs a b
            ys differ,
        length_swap xs a b ys,
      )
      refl

length-keep_iff :
    (p : LeafResult → Bool) (ls : List LeafResult)
    → (length (keep p ls) ≡ length ls) ↔ (all p ls ≡ true)
length-keep_iff p [] = ((λ h. refl), (λ h. refl))
length-keep_iff p (l ∷ ls) = ground (arith, length-keep_iff p ls, length-keep-le p ls)

-- A completed reduction
abbrev pub is_reduced : ReducedOutcome → Bool
is_reduced (completed response) = true
is_reduced failed = false

count_completed :
    (plan : ExecutionPlan) (leaves : List LeafResult)
    → length (in_plan_order plan leaves) ≡ length (keep (λ l. is_completed l.status) leaves)
count_completed plan leaves =
    length-sort_by (λ l. order_of plan.tasks l.task_id) (keep (λ l. is_completed l.status) leaves)

-- A reduction completes if and only if every result is a completed one.
pub reduce_leaf_results-is_reduced :
    (plan : ExecutionPlan) (leaves : List LeafResult)
    → (is_reduced (reduce_leaf_results plan leaves) ≡ true)
      ↔ (all (λ l. is_completed l.status) leaves ≡ true)
unfolding reduce_leaf_results
reduce_leaf_results-is_reduced plan leaves =
    let counted = count_completed plan leaves in
    let whole = length-keep_iff (λ l. is_completed l.status) leaves in
    elim (Bool-cases (nat_eq (length (in_plan_order plan leaves)) (length leaves))) [
      | inl same ↦ rw same ((λ h. whole.0 (sym counted ∙ (nat_eq_iff _ _).0 same)), (λ h. refl))
      | inr other ↦
          rw other ((λ h. absurd cc), (λ h. absurd (ground (arith, other, counted, whole.1 h))))
    ]
