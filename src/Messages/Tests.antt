-- ===== src/Messages/Tests.antt =====
-- Runs of the broker, and its theorems at them.
use codex_mission_ledger.Prelude.{◌≤◌, ◌≡◌, refl, true, some, [], ◌∷◌}
use codex_mission_ledger.Prelude.Lists.{All}
use codex_mission_ledger.Prelude.Maps.{lookup, insert, map_of}
use codex_mission_ledger.Prelude.Text.{trim}
use codex_mission_ledger.Contracts.{AgentMessageType, LeafTask}
use codex_mission_ledger.Contracts.Samples.{task}
use codex_mission_ledger.Messages.{
  AgentMessageInput, MessageBroker, PostError, PostResult, new_broker, post, assert_route, count_at,
}
use codex_mission_ledger.Messages.Budget.{
  Run, start, then_step, posts, sent_by, blocks_by, Run-budget,
}
use codex_mission_ledger.Messages.Routes.{RoutedIn, Run-IsRouted}

abbrev writer : LeafTask
writer = record (task "a" []) { communication_with = "b" ∷ [] }

abbrev broker : MessageBroker
broker = new_broker (writer ∷ task "b" [] ∷ []) 2 1 1024

abbrev to_b : AgentMessageInput
to_b = record {
  type = AgentMessageType.question;
  from_task_id = "a";
  to_task_id = "b";
  body = " ready? ";
  blocking = some true;
}

abbrev to_c : AgentMessageInput
to_c = record to_b { to_task_id = "c" }

abbrev after : MessageBroker
after = (post "m1" "t" broker to_b).0

once : Run broker after
once = then_step start (posts "m1" "t" to_b)

program : Unit {0}
unfolding post new_broker map_of lookup insert assert_route trim
program = tt

delivered : sent_by "a" after.messages ≡ 1
unfolding program
delivered = refl

second_is_refused : (post "m2" "t" after to_b).1 ≡ PostResult.refused PostError.blocking_exhausted
unfolding program
second_is_refused = refl

Run-budget_example : (sent_by "a" after.messages ≤ 2) × (blocks_by "a" after.messages ≤ 1)
Run-budget_example = Run-budget "a" (writer ∷ task "b" [] ∷ []) 2 1 1024 after once

Run-IsRouted_example : All (RoutedIn once) after.messages
Run-IsRouted_example = Run-IsRouted (writer ∷ task "b" [] ∷ []) 2 1 1024 after once

-- A message to a task that is not registered is refused, and spends the blocking budget.
refused_route : (post "m1" "t" broker to_c).1 ≡ PostResult.refused PostError.unknown_target
unfolding program
refused_route = refl

spent : count_at "a" (post "m1" "t" broker to_c).0.blocking ≡ 1
unfolding program
spent = refl
