-- ===== src/Policy.antt =====
-- src/core/policy.ts: limits, model tiers, path ownership and replan triggers.
pub mod Limits
pub mod Words
pub mod Tiers
pub mod Ownership
pub mod Checks
pub mod Triggers
