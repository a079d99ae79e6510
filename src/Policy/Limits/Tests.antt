-- ===== src/Policy/Limits/Tests.antt =====
-- Limits from concrete overrides, and the theorems about limits at them.
use codex_mission_ledger.Prelude.{◌≡◌, refl, none, some}
use codex_mission_ledger.Prelude.Numbers.{of_ℕ, pos}
use codex_mission_ledger.Contracts.{
  balanced, quality, foreground, durable, ExecutionLimits, LimitOverrides,
}
use codex_mission_ledger.Policy.Limits.{
  ok, err, PolicyError, override_limit, assert_finite_non_negative, balanced_execution_limits,
  quality_execution_limits, normalize_execution_limits, normalize_execution_limits_for_mode,
}
use codex_mission_ledger.Policy.Limits.Bounds.{IsBounded, normalize_execution_limits-IsBounded}

abbrev nothing : LimitOverrides
nothing = record {
  max_concurrent = none;
  max_leaves = none;
  max_waves = none;
  max_sol_leaves = none;
  max_replans = none;
  deadline_ms = none;
  max_cost_usd = none;
}

abbrev twelve : LimitOverrides
twelve = record nothing { max_leaves = some (of_ℕ 12); max_cost_usd = some (pos 500000) }

abbrev with_twelve : ExecutionLimits
with_twelve = record quality_execution_limits { max_leaves = 12; max_cost_usd = some (pos 500000) }

program : Unit {0}
unfolding normalize_execution_limits normalize_execution_limits_for_mode override_limit
    assert_finite_non_negative
program = tt

durable_widens :
    normalize_execution_limits_for_mode durable nothing balanced
    ≡ ok (record balanced_execution_limits { max_leaves = 5 })
unfolding program
durable_widens = refl

fraction_is_refused :
    normalize_execution_limits (record nothing { max_waves = some (pos 1500000) }) quality
    ≡ err PolicyError.invalid_limit
unfolding program
fraction_is_refused = refl

foreground_is_capped :
    normalize_execution_limits_for_mode foreground twelve quality ≡ err PolicyError.limit_exceeded
unfolding program
foreground_is_capped = refl

normalize_execution_limits-IsBounded_example : IsBounded with_twelve
unfolding program
normalize_execution_limits-IsBounded_example =
    normalize_execution_limits-IsBounded twelve quality with_twelve refl
