-- ===== src/Policy/Checks/Failed.antt =====
-- src/core/policy.ts: the failed checks of a result, and the checks that its leaf declares.
use mathlib.Core.List.{Memᴰ}
use codex_mission_ledger.Prelude.{
  ◌≡◌, refl, ◌∙◌, ◌↔◌, inl, inr, String, Bool, true, false, List, [], ◌∷◌, map, ◌==◌, eq_iff, arith,
  ap, sym,
}
use codex_mission_ledger.Prelude.Tests.{Bool-cases}
use codex_mission_ledger.Prelude.Lists.{all, keep, includes}
use codex_mission_ledger.Contracts.{ValidationSpec, ValidationStatus, is_failed_check}
use codex_mission_ledger.Policy.Checks.{is_nil}

module _ {ℓ} {A : Type ℓ} (p : A → Bool) where
  pub keep-member : (xs : List A) → is_nil (keep p xs) ≡ false → (x : A) × Memᴰ x xs × (p x ≡ true)
  keep-member [] h = absurd cc
  keep-member (x ∷ xs) h = elim (Bool-cases (p x)) [
    | inl met ↦ (x, Memᴰ.head refl, met)
    | inr other ↦
        let (y, inside, met) = keep-member xs (rw (other, keep) at h) in (y, Memᴰ.tail inside, met)
  ]

  pub member-keep : (x : A) (xs : List A) → Memᴰ x xs → p x ≡ true → is_nil (keep p xs) ≡ false
  member-keep x [] inside met = elim inside [ ]
  member-keep x (y ∷ xs) (Memᴰ.head e) met = rw (sym (ap p e) ∙ met, keep) refl
  member-keep x (y ∷ xs) (Memᴰ.tail inside) met = elim (Bool-cases (p y)) [
    | inl first ↦ rw (first, keep) refl
    | inr other ↦ rw (other, keep) (member-keep x xs inside met)
  ]

  pub all-member :
      (q : A → Bool) (x : A) (xs : List A)
      → all q (keep p xs) ≡ true
      → Memᴰ x xs
      → p x ≡ true
      → q x ≡ true
  all-member q x [] h inside met = elim inside [ ]
  all-member q x (y ∷ xs) h (Memᴰ.head e) met = ap q e ∙ ground (arith, h, sym (ap p e) ∙ met)
  all-member q x (y ∷ xs) h (Memᴰ.tail inside) met =
      all-member q x xs (ground (arith, h)) inside met

  pub member-all :
      (q : A → Bool) (xs : List A)
      → ((x : A) → Memᴰ x xs → p x ≡ true → q x ≡ true)
      → all q (keep p xs) ≡ true
  member-all q [] h = refl
  member-all q (x ∷ xs) h = elim (Bool-cases (p x)) [
    | inl met ↦
        rw (met, keep, h x (Memᴰ.head refl) met)
          (member-all q xs (λ y inside. h y (Memᴰ.tail inside)))
    | inr other ↦ rw (other, keep) (member-all q xs (λ y inside. h y (Memᴰ.tail inside)))
  ]

pub commands-member :
    (specs : List ValidationSpec) (command : String)
    → includes (map (λ s. s.command) specs) command ≡ true
    → (s : ValidationSpec) × Memᴰ s specs × (s.command ≡ command)
commands-member [] command h = absurd cc
commands-member (s ∷ specs) command h = elim (Bool-cases (s.command == command)) [
  | inl same ↦ (s, Memᴰ.head refl, (eq_iff s.command command).0 same)
  | inr other ↦
      let (t, inside, same) = commands-member specs command (ground (arith, h, other)) in
      (t, Memᴰ.tail inside, same)
]

pub member-commands :
    (specs : List ValidationSpec) (s : ValidationSpec) (command : String)
    → Memᴰ s specs
    → s.command ≡ command
    → includes (map (λ s. s.command) specs) command ≡ true
member-commands [] s command inside same = elim inside [ ]
member-commands (t ∷ specs) s command (Memᴰ.head e) same =
    ground (arith, (eq_iff t.command command).1 (sym (ap (λ u. u.command) e) ∙ same))
member-commands (t ∷ specs) s command (Memᴰ.tail inside) same =
    ground (arith, member-commands specs s command inside same)

pub is_failed_check_iff :
    (s : ValidationStatus) → (is_failed_check s ≡ true) ↔ (s ≡ ValidationStatus.failed)
is_failed_check_iff ValidationStatus.passed = ((λ h. absurd cc), (λ h. absurd cc))
is_failed_check_iff ValidationStatus.failed = ((λ h. refl), (λ h. refl))
is_failed_check_iff ValidationStatus.skipped = ((λ h. absurd cc), (λ h. absurd cc))
