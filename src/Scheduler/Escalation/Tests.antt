-- ===== src/Scheduler/Escalation/Tests.antt =====
-- src/core/scheduler.ts: the run of a leaf at concrete inputs.
use codex_mission_ledger.Prelude.{String, ◌≡◌, refl, none, some, [], ◌∷◌, arith, true, false}
use codex_mission_ledger.Prelude.Maps.{lookup, insert, remove}
use codex_mission_ledger.Policy.Checks.{classify_validator_failure}
use codex_mission_ledger.Scheduler.Results.{
  can_afford_escalation, earlier_started_at, failed_result,
}
use codex_mission_ledger.Prelude.Numbers.{Number, pos}
use codex_mission_ledger.Contracts.{LeafTask, LeafResult, LeafStatus, FailureKind, terra}
use codex_mission_ledger.Contracts.Samples.{task, result, limits}
use codex_mission_ledger.Scheduler.Escalation.{
  Shared, Call, Outcome, returned, reserve_sol_task, upgrade_task, begin_attempt, run_leaf,
  finish_attempt,
}
use codex_mission_ledger.Scheduler.Escalation.Bounds.{
  run_leaf-IsWithinSol, finish_attempt-IsWithinSol, IsWithinSol,
}
use codex_mission_ledger.Scheduler.Escalation.Retries.{Follows}
use codex_mission_ledger.Scheduler.Escalation.Attempts.{
  finish_attempt-Follows, two_attempts_land, has_landed, advance,
}

abbrev date_parse : String → Number
date_parse text = pos 0

abbrev start : Shared
start = record {
  attempts = ("a", 1) ∷ [];
  waiting_results = [];
  waiting_continuations = [];
  sol_task_ids = [];
}

abbrev terra_task : LeafTask
terra_task = record (task "a" []) { tier = terra }

abbrev call : Call
call = record {
  task = terra_task;
  attempt = 1;
  retry = none;
  continuation = none;
  prior_usage = [];
  first_started_at = none;
}

abbrev reasoning_failure : LeafResult
reasoning_failure = record (result "a") {
  status = LeafStatus.failed;
  failure_kind = some FailureKind.reasoning;
}

abbrev outcome : Outcome
outcome = returned reasoning_failure

program : Unit {0}
unfolding reserve_sol_task upgrade_task begin_attempt run_leaf finish_attempt lookup insert remove
    can_afford_escalation earlier_started_at classify_validator_failure failed_result
program = tt

-- A Terra leaf that fails in its reasoning flies again, on Sol, and its place is taken.
retried : has_landed (finish_attempt date_parse limits none "t" start call outcome).1 ≡ false
unfolding program
retried = refl

reserved : (finish_attempt date_parse limits none "t" start call outcome).0.sol_task_ids ≡ "a" ∷ []
unfolding program
reserved = refl

run_leaf-IsWithinSol_example :
    IsWithinSol limits (run_leaf date_parse limits none "t" start terra_task)
unfolding program
run_leaf-IsWithinSol_example =
    run_leaf-IsWithinSol date_parse limits none "t" start (omega arith) terra_task

finish_attempt-IsWithinSol_example :
    IsWithinSol limits (finish_attempt date_parse limits none "t" start call outcome)
unfolding program
finish_attempt-IsWithinSol_example =
    finish_attempt-IsWithinSol date_parse limits none "t" start (omega arith) call outcome

finish_attempt-Follows_example :
    Follows start call (finish_attempt date_parse limits none "t" start call outcome).1
unfolding program
finish_attempt-Follows_example =
    finish_attempt-Follows date_parse limits none "t" start call outcome

two_attempts_land_example :
    has_landed (
      advance date_parse limits none "t2" start outcome (
        advance date_parse limits none "t1"
          (record start { attempts = ("a", 2) ∷ [] })
          outcome
          (run_leaf date_parse limits none "t" start terra_task).1))
    ≡ true
unfolding program
two_attempts_land_example =
    two_attempts_land date_parse limits none none none "t" "t1" "t2" start
      (record start { attempts = ("a", 2) ∷ [] }) start terra_task outcome outcome refl
