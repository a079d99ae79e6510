-- ===== src/Scheduler.antt =====
-- src/core/scheduler.ts: the deterministic scheduler, which runs the leaves of a plan.
pub mod Results
pub mod Admission
pub mod Escalation
pub mod Loop
pub mod Resume
