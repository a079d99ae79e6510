-- ===== src/Policy/Tiers/Laws.antt =====
-- src/core/policy.ts: the recommended tiers and efforts.
use codex_mission_ledger.Prelude.{ℕ, ◌≤◌, ◌≡◌, ◌↔◌, refl, true, false, Bool, arith}
use codex_mission_ledger.Prelude.Numbers.{Number, pos, num_le}
use codex_mission_ledger.Contracts.{ModelTier, ReasoningEffort, luna, terra, sol}
use codex_mission_ledger.Policy.Limits.{ok, PolicyError, guard}
use codex_mission_ledger.Policy.Tiers.{
  TierInput, recommend_tier, tier_for, decide_tier, refusal, recommend_effort, tier_supports_effort,
  tier_rank, evaluate_tier_assignment, assert_tier_assignment,
}

-- The effort that is recommended for a tier is one that the tier supports.
pub recommend_effort_supported :
    (tier : ModelTier) (difficulty ambiguity : Number) (effort : ReasoningEffort)
    → recommend_effort tier difficulty ambiguity ≡ ok effort
    → tier_supports_effort tier effort ≡ true
unfolding recommend_effort tier_supports_effort
recommend_effort_supported luna difficulty ambiguity effort e = ground arith
recommend_effort_supported terra difficulty ambiguity effort e = ground arith
recommend_effort_supported sol difficulty ambiguity effort e = ground arith

decide_tier_iff :
    (tier recommended : ModelTier)
    → ((decide_tier tier recommended).valid ≡ true)
      ↔ ((tier_rank recommended ≤ tier_rank tier) × ((tier ≡ sol) → (recommended ≡ sol)))
decide_tier_iff luna luna = ground arith
decide_tier_iff luna terra = ground arith
decide_tier_iff luna sol = ground arith
decide_tier_iff terra luna = ground arith
decide_tier_iff terra terra = ground arith
decide_tier_iff terra sol = ground arith
decide_tier_iff sol luna = ground arith
decide_tier_iff sol terra = ground arith
decide_tier_iff sol sol = ground arith

guard_iff : (b : Bool) (e : PolicyError) → (guard b e ≡ ok tt) ↔ (b ≡ true)
guard_iff true e = ground arith
guard_iff false e = ground arith

-- A tier is accepted for a leaf exactly when it is at least the recommended one, and is Sol only
-- where Sol is recommended.
pub assert_tier_assignment_iff :
    (tier recommended : ModelTier) (input : TierInput)
    → recommend_tier input ≡ ok recommended
    → (assert_tier_assignment tier input ≡ ok tt)
      ↔ ((tier_rank recommended ≤ tier_rank tier) × ((tier ≡ sol) → (recommended ≡ sol)))
unfolding assert_tier_assignment evaluate_tier_assignment
assert_tier_assignment_iff tier recommended input e =
    let (to, from) = decide_tier_iff tier recommended in
    let (opens, shuts) =
      guard_iff (decide_tier tier recommended).valid
        (refusal (decide_tier tier recommended).reason) in
    rw (e, evaluate_tier_assignment) (λ h. to (opens h), λ h. shuts (from h))

tier_for_mono :
    (d d' a a' p p' : ℕ) (c c' : Bool)
    → d ≤ d'
    → a ≤ a'
    → p ≤ p'
    → (c ≡ true → c' ≡ true)
    → tier_rank (tier_for (pos d) (pos a) c p) ≤ tier_rank (tier_for (pos d') (pos a') c' p')
tier_for_mono d d' a a' p p' false c' hd ha hp hc = ground arith
tier_for_mono d d' a a' p p' true false hd ha hp hc = cc (hc refl)
tier_for_mono d d' a a' p p' true true hd ha hp hc = ground arith

-- Scores that pass their checks are counts of millionths.
Judged : Number → Number → Bool → ℕ → ModelTier → Type 0
Judged difficulty ambiguity critical count tier =
    (d : ℕ) × (a : ℕ) × (difficulty ≡ pos d)
    × (ambiguity ≡ pos a)
    × (tier ≡ tier_for (pos d) (pos a) critical count)

recommend_tier-Judged :
    (difficulty ambiguity : Number) (critical : Bool) (count : ℕ) {tier : ModelTier}
    → recommend_tier (record {
      difficulty = difficulty;
      ambiguity = ambiguity;
      critical = critical;
      owned_path_count = count;
    })
      ≡ ok tier
    → Judged difficulty ambiguity critical count tier
unfolding recommend_tier Judged
recommend_tier-Judged (pos d) (pos a) critical count e = (d, a, refl, refl, ground arith)
recommend_tier-Judged (pos d) _ critical count e = absurd (ground arith)
recommend_tier-Judged _ ambiguity critical count e = absurd (ground arith)

num_le→le : (a b : ℕ) → num_le (pos a) (pos b) ≡ true → a ≤ b
num_le→le a b h = ground arith

-- A leaf that is at least as hard and at least as ambiguous as another, that is critical if the other is,
-- and that owns at least as many paths, is not recommended a lower tier, where both have valid scores.
pub recommend_tier_mono :
    (low high : TierInput) (lower higher : ModelTier)
    → recommend_tier low ≡ ok lower
    → recommend_tier high ≡ ok higher
    → num_le low.difficulty high.difficulty ≡ true
    → num_le low.ambiguity high.ambiguity ≡ true
    → (low.critical ≡ true → high.critical ≡ true)
    → low.owned_path_count ≤ high.owned_path_count
    → tier_rank lower ≤ tier_rank higher
unfolding Judged
recommend_tier_mono low high lower higher e f d a c p =
    let (dl, al, ed, ea, el) =
      recommend_tier-Judged low.difficulty low.ambiguity low.critical low.owned_path_count e in
    let (dh, ah, fd, fa, fh) =
      recommend_tier-Judged high.difficulty high.ambiguity high.critical high.owned_path_count f in
    let d' : dl ≤ dh = num_le→le dl dh (rw (ed, fd) at d) in
    let a' : al ≤ ah = num_le→le al ah (rw (ea, fa) at a) in
    rw (el, fh) (tier_for_mono dl dh al ah _ _ low.critical high.critical d' a' p c)
