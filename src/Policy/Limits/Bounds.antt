-- ===== src/Policy/Limits/Bounds.antt =====
-- src/core/policy.ts: what limits a run can have.
use codex_mission_ledger.Prelude.{ℕ, ◌≤◌, ◌≡◌, Option, none, some, arith}
use codex_mission_ledger.Prelude.Numbers.{Number, pos}
use codex_mission_ledger.Contracts.{
  OptimizationProfile, balanced, quality, ExecutionLimits, LimitOverrides,
}
use codex_mission_ledger.Policy.Limits.{Result, ok, err, override_limit, normalize_execution_limits}

abbrev InRange : ℕ → ℕ → Result ℕ → Type 0
InRange minimum maximum (ok n) = (minimum ≤ n) × (n ≤ maximum)
InRange minimum maximum (err e) = Unit

override_limit-InRange :
    (minimum maximum default : ℕ) (value : Option Number)
    → minimum ≤ default
    → default ≤ maximum
    → InRange minimum maximum (override_limit minimum maximum default value)
unfolding override_limit
override_limit-InRange minimum maximum default none p q = (p, q)
override_limit-InRange minimum maximum default (some (pos v)) p q = ground arith
override_limit-InRange minimum maximum default (some _) p q = ground arith

-- The hard safety bounds of one planner session.
pub record IsBounded (l : ExecutionLimits) : Type 0 where
  pub concurrent : (1 ≤ l.max_concurrent) × (l.max_concurrent ≤ 5)
  pub leaves : (1 ≤ l.max_leaves) × (l.max_leaves ≤ 20)
  pub waves : (1 ≤ l.max_waves) × (l.max_waves ≤ 3)
  pub sol_leaves : l.max_sol_leaves ≤ 1
  pub sol_within : l.max_sol_leaves ≤ l.max_leaves
  pub replans : l.max_replans ≤ 1

-- Whatever a caller asks for, a run that is not refused stays within the hard bounds.
pub normalize_execution_limits-IsBounded :
    (overrides : LimitOverrides) (profile : OptimizationProfile) (l : ExecutionLimits)
    → normalize_execution_limits overrides profile ≡ ok l
    → IsBounded l
unfolding normalize_execution_limits
normalize_execution_limits-IsBounded overrides balanced l e = ground (
  arith,
  override_limit-InRange 1 5 3 overrides.max_concurrent (omega arith) (omega arith),
  override_limit-InRange 1 20 3 overrides.max_leaves (omega arith) (omega arith),
  override_limit-InRange 1 3 3 overrides.max_waves (omega arith) (omega arith),
  override_limit-InRange 0 1 1 overrides.max_sol_leaves (omega arith) (omega arith),
  override_limit-InRange 0 1 1 overrides.max_replans (omega arith) (omega arith),
)
normalize_execution_limits-IsBounded overrides quality l e = ground (
  arith,
  override_limit-InRange 1 5 5 overrides.max_concurrent (omega arith) (omega arith),
  override_limit-InRange 1 20 8 overrides.max_leaves (omega arith) (omega arith),
  override_limit-InRange 1 3 3 overrides.max_waves (omega arith) (omega arith),
  override_limit-InRange 0 1 1 overrides.max_sol_leaves (omega arith) (omega arith),
  override_limit-InRange 0 1 1 overrides.max_replans (omega arith) (omega arith),
)

abbrev AllBounded : Result ExecutionLimits → Type 0
AllBounded (ok l) = IsBounded l
AllBounded (err e) = Unit
