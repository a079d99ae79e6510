-- ===== src/Policy/Ownership/Safety.antt =====
-- src/core/policy.ts: owned paths that do not overlap share no file.
use codex_mission_ledger.Prelude.{ℕ, String, ◌≡◌, refl, true, false, ◌||◌, List, [], ◌∷◌, arith}
use codex_mission_ledger.Prelude.Codes.{codes_eq, codes_eq_iff}
use codex_mission_ledger.Policy.Ownership.{
  is_below, overlap, contains, owned_paths_overlap, owned_path_contains, normalize_owned_path,
}

-- Two directories above one path are the same or one lies below the other.
is_below_common :
    (l r p : List ℕ)
    → is_below l p ≡ true
    → is_below r p ≡ true
    → (codes_eq l r || is_below l r || is_below r l) ≡ true
unfolding is_below
is_below_common l r [] h k = absurd (cc)
is_below_common [] [] (c ∷ p) h k = refl
is_below_common [] (b ∷ r) (c ∷ p) h k = ground arith
is_below_common (a ∷ l) [] (c ∷ p) h k = ground arith
is_below_common (a ∷ l) (b ∷ r) (c ∷ p) h k = ground (arith, is_below_common l r p)

codes_eq_sym : (l r : List ℕ) → codes_eq l r ≡ codes_eq r l
codes_eq_sym [] [] = refl
codes_eq_sym [] (b ∷ r) = refl
codes_eq_sym (a ∷ l) [] = refl
codes_eq_sym (a ∷ l) (b ∷ r) = ground (arith, codes_eq_sym l r)

contains-overlap : (l r p : List ℕ) → contains l p ≡ true → contains r p ≡ true → overlap l r ≡ true
contains-overlap l r p h k = ground (
  arith,
  is_below_common l r p,
  codes_eq_iff p l,
  codes_eq_iff p r,
  codes_eq_sym l r,
  codes_eq_iff l r,
)

contains-of_overlap : (l r : List ℕ) → overlap l r ≡ (contains l r || contains r l)
unfolding is_below
contains-of_overlap [] r = refl
contains-of_overlap (a ∷ l) [] = refl
contains-of_overlap (a ∷ l) (b ∷ r) = ground (arith, codes_eq_sym (a ∷ l) (b ∷ r))

-- A file that a path owns is owned by no path that does not overlap it: writers with disjoint
-- ownership have no file in common.
pub owned_paths_disjoint :
    (left right file : String)
    → owned_paths_overlap left right ≡ false
    → owned_path_contains left file ≡ true
    → owned_path_contains right file ≡ false
unfolding owned_paths_overlap owned_path_contains
owned_paths_disjoint left right file apart h = ground (
  arith,
  contains-overlap (normalize_owned_path left) (normalize_owned_path right)
      (normalize_owned_path file) h,
)

-- Two owned paths overlap exactly when one of them contains the other, in either order.
pub owned_paths_overlap_lem :
    (left right : String)
    → owned_paths_overlap left right
      ≡ (owned_path_contains left right || owned_path_contains right left)
unfolding owned_paths_overlap owned_path_contains
owned_paths_overlap_lem left right =
    contains-of_overlap (normalize_owned_path left) (normalize_owned_path right)
