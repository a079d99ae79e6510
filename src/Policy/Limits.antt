-- ===== src/Policy/Limits.antt =====
-- src/core/policy.ts: the limits of a run, from what a caller asks for.
pub mod Bounds
mod Tests
use mathlib.Core.Option.{get_or}
use codex_mission_ledger.Prelude.{
  ℕ, ◌+◌, String, Bool, true, false, not, ◌&&◌, ◌||◌, Option, none, some,
}
use codex_mission_ledger.Prelude.Tests.{if◌then◌else◌, ltb, leb, is_some}
use codex_mission_ledger.Prelude.Numbers.{
  Number, pos, is_finite, is_integer, num_lt, num_le, of_ℕ, whole,
}
use codex_mission_ledger.Contracts.{
  OptimizationProfile, balanced, quality, JobMode, foreground, durable, ExecutionLimits,
  LimitOverrides,
}

-- `PolicyError`, by its code.
pub data PolicyError : Type 0 where
  invalid_limit limit_exceeded invalid_score : PolicyError
  tier_too_low unnecessary_sol invalid_tier_effort invalid_timestamp : PolicyError

pub data Result {ℓ} (A : Type ℓ) : Type ℓ where
  ok : A → Result A
  err : PolicyError → Result A

infixl 5 ◌>>=◌ ◌>>◌
abbrev pub ◌>>=◌ {ℓ κ} : {A : Type ℓ} {B : Type κ} → Result A → (A → Result B) → Result B
ok a >>= f = f a
err e >>= f = err e

abbrev pub ◌>>◌ {ℓ κ} : {A : Type ℓ} {B : Type κ} → Result A → Result B → Result B
m >> k = m >>= λ _. k

abbrev pub guard : Bool → PolicyError → Result (Unit {0})
guard true e = ok tt
guard false e = err e

abbrev pub quality_execution_limits : ExecutionLimits
quality_execution_limits = record {
  max_concurrent = 5;
  max_leaves = 8;
  max_waves = 3;
  max_sol_leaves = 1;
  max_replans = 1;
  deadline_ms = none;
  max_cost_usd = none;
}

abbrev pub balanced_execution_limits : ExecutionLimits
balanced_execution_limits = record {
  max_concurrent = 3;
  max_leaves = 3;
  max_waves = 3;
  max_sol_leaves = 1;
  max_replans = 1;
  deadline_ms = none;
  max_cost_usd = none;
}

-- `MAX_EXECUTION_LIMITS`
abbrev pub max_execution_limits : ExecutionLimits
max_execution_limits = record {
  max_concurrent = 5;
  max_leaves = 20;
  max_waves = 3;
  max_sol_leaves = 1;
  max_replans = 1;
  deadline_ms = none;
  max_cost_usd = none;
}

-- One round of the loop over `LIMIT_NAMES`: an absent override keeps the default.
unfoldable pub override_limit : ℕ → ℕ → ℕ → Option Number → Result ℕ
override_limit minimum maximum default none = ok default
override_limit minimum maximum default (some value) = do
  guard (is_integer value && not (num_lt value (of_ℕ minimum))) PolicyError.invalid_limit
  guard (not (num_lt (of_ℕ maximum) value)) PolicyError.limit_exceeded
  ok (whole value)

-- `assertFiniteNonNegative`
unfoldable pub assert_finite_non_negative : Number → Bool → Result (Unit {0})
assert_finite_non_negative value allow_zero =
    guard (is_finite value && (if allow_zero then num_le (pos 0) value else num_lt (pos 0) value))
      PolicyError.invalid_limit

abbrev check_optional : Option Number → Bool → Result (Unit {0})
check_optional none allow_zero = ok tt
check_optional (some value) allow_zero = assert_finite_non_negative value allow_zero

abbrev pub profile_limits : OptimizationProfile → ExecutionLimits
profile_limits balanced = balanced_execution_limits
profile_limits quality = quality_execution_limits

-- `normalizeExecutionLimits`
unfoldable pub normalize_execution_limits :
    LimitOverrides → OptimizationProfile → Result ExecutionLimits
normalize_execution_limits overrides profile = do
  let base = profile_limits profile
  let maxima = max_execution_limits
  max_concurrent ←
      override_limit 1 maxima.max_concurrent base.max_concurrent overrides.max_concurrent
  max_leaves ← override_limit 1 maxima.max_leaves base.max_leaves overrides.max_leaves
  max_waves ← override_limit 1 maxima.max_waves base.max_waves overrides.max_waves
  max_sol_leaves ←
      override_limit 0 maxima.max_sol_leaves base.max_sol_leaves overrides.max_sol_leaves
  max_replans ← override_limit 0 maxima.max_replans base.max_replans overrides.max_replans
  guard (leb max_sol_leaves max_leaves) PolicyError.invalid_limit
  check_optional overrides.deadline_ms false
  check_optional overrides.max_cost_usd true
  ok (record {
    max_concurrent = max_concurrent;
    max_leaves = max_leaves;
    max_waves = max_waves;
    max_sol_leaves = max_sol_leaves;
    max_replans = max_replans;
    deadline_ms = overrides.deadline_ms;
    max_cost_usd = overrides.max_cost_usd;
  })

-- The most leaves of a mode.
abbrev pub mode_leaves : OptimizationProfile → JobMode → ℕ
mode_leaves balanced foreground = 3
mode_leaves balanced durable = 5
mode_leaves quality foreground = 8
mode_leaves quality durable = 20

-- A balanced durable run that names no leaf count gets five.
abbrev widen : OptimizationProfile → JobMode → LimitOverrides → ExecutionLimits → ExecutionLimits
widen balanced durable overrides l =
    if is_some overrides.max_leaves then l else record l { max_leaves = 5 }
widen _ _ overrides l = l

-- `normalizeExecutionLimitsForMode`
unfoldable pub normalize_execution_limits_for_mode :
    JobMode → LimitOverrides → OptimizationProfile → Result ExecutionLimits
normalize_execution_limits_for_mode mode overrides profile = do
  normalized ← normalize_execution_limits overrides profile
  let l = widen profile mode overrides normalized
  guard (leb l.max_leaves (mode_leaves profile mode)) PolicyError.limit_exceeded
  ok l

-- `fanoutMinTaskSeconds`
unfoldable pub fanout_min_task_seconds : OptimizationProfile → ℕ
fanout_min_task_seconds balanced = 30
fanout_min_task_seconds quality = 15
