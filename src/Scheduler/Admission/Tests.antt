-- ===== src/Scheduler/Admission/Tests.antt =====
-- src/core/scheduler.ts: the tests of a plan at concrete plans.
use codex_mission_ledger.Prelude.{◌≡◌, refl, false, List, [], ◌∷◌}
use codex_mission_ledger.Prelude.Maps.{lookup, insert, map_of}
use codex_mission_ledger.Contracts.{LeafTask}
use codex_mission_ledger.Contracts.Samples.{task, plan, limits}
use codex_mission_ledger.Scheduler.Admission.{
  cycle, failed, found, level_of, compute_waves, validate_plan_for_scheduling, Levels,
}
use codex_mission_ledger.Scheduler.Admission.Waves.{AreRanked, compute_waves-AreRanked}
use codex_mission_ledger.Scheduler.Admission.Fuel.{ran_out, compute_waves-ends}
use codex_mission_ledger.Scheduler.Admission.Plans.{
  IsSchedulable, validate_plan_for_scheduling-IsSchedulable,
}

abbrev diamond : List LeafTask
diamond = task "a" ("b" ∷ "c" ∷ []) ∷ task "b" ("d" ∷ []) ∷ task "c" ("d" ∷ []) ∷ task "d" [] ∷ []

abbrev loop : List LeafTask
loop = task "a" ("b" ∷ []) ∷ task "b" ("a" ∷ []) ∷ []

program : Unit {0}
unfolding compute_waves level_of validate_plan_for_scheduling lookup insert map_of
program = tt

three_waves :
    ◌≡◌ {A = Levels}
      (compute_waves diamond)
      (found 3 (("d", 1) ∷ ("b", 2) ∷ ("c", 2) ∷ ("a", 3) ∷ []))
unfolding program
three_waves = refl

found_cycle : ◌≡◌ {A = Levels} (compute_waves loop) (failed (cycle "a"))
unfolding program
found_cycle = refl

compute_waves-AreRanked_example : AreRanked diamond (compute_waves diamond)
compute_waves-AreRanked_example = compute_waves-AreRanked diamond

compute_waves-ends_example : ran_out (compute_waves loop) ≡ false
compute_waves-ends_example = compute_waves-ends loop

validate_plan_for_scheduling-IsSchedulable_example : IsSchedulable (plan diamond) limits
unfolding program
validate_plan_for_scheduling-IsSchedulable_example =
    validate_plan_for_scheduling-IsSchedulable (plan diamond) limits refl
