-- ===== src/Plans/Graph/Sets.antt =====
-- Lists of ids in which none stands twice, and what `new Set` and `sort` make of a list of ids.
use mathlib.Core.List.{foldl}
use text.Mathlib.Text.{is_lt}
use Prim.Native.String.{compare}
use codex_mission_ledger.Prelude.{
  ◌≡◌, refl, String, Bool, true, false, ◌||◌, List, [], ◌∷◌, ◌++◌, ◌==◌, inl, inr, arith, eq_iff,
  eq_refl, subst,
}
use codex_mission_ledger.Prelude.Tests.{if◌then◌else◌, Bool-cases}
use codex_mission_ledger.Prelude.Lists.{includes, keep, set_add, includes-append}
use codex_mission_ledger.Prelude.Text.{sort, sort_in}
use codex_mission_ledger.Plans.Graph.{distinct}

abbrev pub NoDup : List String → Type 0
NoDup [] = Unit
NoDup (x ∷ xs) = (includes xs x ≡ false) × NoDup xs

NoDup-append :
    (x : String) (xs : List String) → includes xs x ≡ false → NoDup xs → NoDup (xs ++ x ∷ [])
NoDup-append x [] new h = (refl, tt)
NoDup-append x (y ∷ ys) new (hy, h) = (
  ground (arith, includes-append ys (x ∷ []) y, eq_iff x y, eq_iff y x, new, hy),
  NoDup-append x ys (ground (arith, new)) h,
)

NoDup-set_add : (x : String) (xs : List String) → NoDup xs → NoDup (set_add x xs)
NoDup-set_add x xs h = elim (Bool-cases (includes xs x)) [
  | inl old ↦ rw (old, set_add) h
  | inr new ↦ rw (new, set_add) (NoDup-append x xs new h)
]

NoDup-foldl :
    (xs seen : List String) → NoDup seen → NoDup (foldl (λ seen id. set_add id seen) seen xs)
NoDup-foldl [] seen h = h
NoDup-foldl (x ∷ xs) seen h = NoDup-foldl xs (set_add x seen) (NoDup-set_add x seen h)

pub NoDup-distinct : (xs : List String) → NoDup (distinct xs)
NoDup-distinct xs = NoDup-foldl xs [] tt

includes-set_add :
    (a x : String) (xs : List String) → includes (set_add x xs) a ≡ (includes xs a || x == a)
includes-set_add a x xs = elim (Bool-cases (includes xs x)) [
  | inl old ↦ ground (arith, old, eq_iff x a)
  | inr new ↦ ground (arith, new, includes-append xs (x ∷ []) a)
]

includes-foldl :
    (a : String) (xs seen : List String)
    → includes (foldl (λ seen id. set_add id seen) seen xs) a ≡ (includes seen a || includes xs a)
includes-foldl a [] seen = ground arith
includes-foldl a (x ∷ xs) seen =
    ground (arith, includes-foldl a xs (set_add x seen), includes-set_add a x seen)

pub includes-distinct : (a : String) (xs : List String) → includes (distinct xs) a ≡ includes xs a
includes-distinct a xs = includes-foldl a xs []

includes-sort_in :
    (a x : String) (xs : List String) → includes (sort_in x xs) a ≡ (x == a || includes xs a)
unfolding sort_in
includes-sort_in a x [] = refl
includes-sort_in a x (y ∷ ys) = elim (Bool-cases (is_lt (compare y x))) [
  | inl lower ↦ ground (arith, lower, includes-sort_in a x ys)
  | inr higher ↦ ground (arith, higher)
]

pub includes-sort : (a : String) (xs : List String) → includes (sort xs) a ≡ includes xs a
unfolding sort
includes-sort a [] = refl
includes-sort a (x ∷ xs) = ground (arith, includes-sort_in a x (sort xs), includes-sort a xs)

NoDup-sort_in :
    (x : String) (xs : List String) → includes xs x ≡ false → NoDup xs → NoDup (sort_in x xs)
unfolding sort_in
NoDup-sort_in x [] new h = (refl, tt)
NoDup-sort_in x (y ∷ ys) new (hy, h) = elim (Bool-cases (is_lt (compare y x))) [
  | inl lower ↦ rw lower (
    ground (arith, includes-sort_in y x ys, eq_iff x y, eq_iff y x, new, hy),
    NoDup-sort_in x ys (ground (arith, new)) h,
  )
  | inr higher ↦ rw higher (new, (hy, h))
]

pub NoDup-sort : (xs : List String) → NoDup xs → NoDup (sort xs)
unfolding sort
NoDup-sort [] h = tt
NoDup-sort (x ∷ xs) (hx, h) =
    NoDup-sort_in x (sort xs) (ground (arith, includes-sort x xs, hx)) (NoDup-sort xs h)

keep_head :
    (p : String → Bool) (x : String) (xs : List String)
    → includes (keep p xs) x ≡ (if p x then includes xs x else false)
    → includes (keep p (x ∷ xs)) x ≡ (if p x then true else false)
keep_head p x xs h = elim (Bool-cases (p x)) [
  | inl holds ↦ ground (arith, holds, eq_refl x)
  | inr fails ↦ ground (arith, fails, h)
]

pub includes-keep :
    (p : String → Bool) (a : String) (xs : List String)
    → includes (keep p xs) a ≡ (if p a then includes xs a else false)
includes-keep p a [] = ground arith
includes-keep p a (x ∷ xs) = elim (Bool-cases (x == a)) [
  | inl same ↦ rw same (
      subst (λ b. includes (keep p (x ∷ xs)) b ≡ (if p b then true else false))
        ((eq_iff x a).0 same) (keep_head p x xs (includes-keep p x xs)))
  | inr other ↦ ground (arith, other, includes-keep p a xs)
]

pub NoDup-keep : (p : String → Bool) (xs : List String) → NoDup xs → NoDup (keep p xs)
NoDup-keep p [] h = tt
NoDup-keep p (x ∷ xs) (hx, h) = elim (Bool-cases (p x)) [
  | inl holds ↦ rw holds (ground (arith, includes-keep p x xs, holds, hx), NoDup-keep p xs h)
  | inr fails ↦ rw fails (NoDup-keep p xs h)
]
