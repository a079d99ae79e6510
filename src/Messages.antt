-- ===== src/Messages.antt =====
-- src/core/messages.ts: the message broker between the leaf agents. A `post` runs without a
-- pause up to the hand-over to the planner or to the target, so it is one step; what it hands
-- over, and to whom, is its result. The clock and the source of message ids are arguments.
pub mod Budget
pub mod Routes
mod Tests
use Prim.Native.String.{len}
use codex_mission_ledger.Prelude.{
  ℕ, ◌+◌, String, Bool, true, false, not, ◌&&◌, ◌||◌, Option, none, some, List, [], ◌∷◌, ◌++◌, ◌==◌,
}
use mathlib.Core.Option.{get_or}
use codex_mission_ledger.Prelude.Tests.{if◌then◌else◌, ltb, leb}
use codex_mission_ledger.Prelude.Lists.{includes}
use codex_mission_ledger.Prelude.Maps.{Map, lookup, insert, has, map_of}
use codex_mission_ledger.Prelude.Text.{trim, is_empty}
use codex_mission_ledger.Contracts.{AgentMessage, AgentMessageType, LeafTask}

pub record AgentMessageInput : Type 0 where
  pub type : AgentMessageType
  pub from_task_id : String
  pub to_task_id : String
  pub body : String
  pub blocking : Option Bool

pub record MessageBroker : Type 0 where
  pub tasks : Map LeafTask
  pub max_outbound : ℕ
  pub max_blocking : ℕ
  pub max_bytes : ℕ
  pub outbound : Map ℕ
  pub blocking : Map ℕ
  pub messages : List AgentMessage

pub data PostError : Type 0 where
  unknown_source empty_body too_long budget_exhausted blocking_exhausted : PostError
  change_not_to_planner not_for_planner to_itself unknown_target not_allowed : PostError

-- Where `post` hands the message to: nowhere, to the planner, or to its target.
pub data Handover : Type 0 where
  no_answer ask_planner deliver : Handover

pub data PostResult : Type 0 where
  posted : AgentMessage → Handover → PostResult
  refused : PostError → PostResult

-- The constructor, with the limits of `MessageBrokerOptions`.
unfoldable pub new_broker : List LeafTask → ℕ → ℕ → ℕ → MessageBroker
new_broker tasks max_outbound max_blocking max_bytes = record {
  tasks = map_of (λ task. task.id) tasks;
  max_outbound = max_outbound;
  max_blocking = max_blocking;
  max_bytes = max_bytes;
  outbound = [];
  blocking = [];
  messages = [];
}

-- `registerTask`; `none` where it throws.
unfoldable pub register_task : MessageBroker → LeafTask → Option MessageBroker
register_task b task =
    if has task.id b.tasks then none else some (record b { tasks = insert task.id task b.tasks })

register_all : MessageBroker → List LeafTask → MessageBroker × Bool
register_all b [] = (b, true)
register_all b (task ∷ tasks) = elim (has task.id b.tasks) [
  | true ↦ (b, false)
  | false ↦ register_all (record b { tasks = insert task.id task b.tasks }) tasks
]

-- `synchronizeTasks`: the new state, and whether it returned; where it throws at a repeated id,
-- the tasks before that one stay registered.
unfoldable pub synchronize_tasks : MessageBroker → List LeafTask → MessageBroker × Bool
unfolding register_all
synchronize_tasks b tasks = register_all (record b { tasks = [] }) tasks

abbrev pub is_question : AgentMessageType → Bool
is_question AgentMessageType.question = true
is_question _ = false

abbrev pub is_contract_change : AgentMessageType → Bool
is_contract_change AgentMessageType.contract_change = true
is_contract_change _ = false

-- `#assertRoute`; `none` where it returns.
unfoldable pub assert_route : MessageBroker → LeafTask → AgentMessageInput → Option PostError
assert_route b source input =
    if is_contract_change input.type && not (input.to_task_id == "planner")
    then some PostError.change_not_to_planner
    else if (input.to_task_id == "planner")
        && not (is_question input.type)
        && not (is_contract_change input.type)
    then some PostError.not_for_planner
    else if input.to_task_id == source.id
    then some PostError.to_itself
    else if (input.to_task_id == "planner") || (input.to_task_id == "integrator")
    then none
    else if not (has input.to_task_id b.tasks)
    then some PostError.unknown_target
    else if not (includes source.communication_with input.to_task_id)
    then some PostError.not_allowed
    else none

-- `map.get(key) ?? 0`
abbrev pub count_at : String → Map ℕ → ℕ
count_at k m = get_or (lookup k m) 0

-- `input.blocking ?? false`
abbrev pub wants_block : AgentMessageInput → Bool
wants_block input = get_or input.blocking false

-- `this.#blocking.set(source.id, blockingCount + 1)`, for a blocking message only.
abbrev pub charge_block : MessageBroker → LeafTask → AgentMessageInput → MessageBroker
charge_block b source input =
    if wants_block input
    then record b { blocking = insert source.id (count_at source.id b.blocking + 1) b.blocking }
    else b

abbrev pub message_of : String → String → LeafTask → AgentMessageInput → AgentMessage
message_of id created_at source input = record {
  id = id;
  type = input.type;
  from_task_id = source.id;
  to_task_id = input.to_task_id;
  body = trim input.body;
  blocking = wants_block input;
  created_at = created_at;
}

abbrev pub handover : AgentMessage → Handover
handover m =
    if (m.to_task_id == "integrator") || is_contract_change m.type
    then Handover.no_answer
    else if m.to_task_id == "planner"
    then Handover.ask_planner
    else Handover.deliver

-- The end of `post`: the route is right, the message is counted and kept.
abbrev pub accept : MessageBroker → LeafTask → AgentMessage → MessageBroker × PostResult
accept b source m = (
  record b {
    outbound = insert source.id (count_at source.id b.outbound + 1) b.outbound;
    messages = b.messages ++ m ∷ [];
  },
  PostResult.posted m (handover m),
)

-- The part of `post` behind the checks: the blocking budget is charged before the route is
-- checked.
abbrev pub send :
    String → String → MessageBroker → LeafTask → AgentMessageInput → MessageBroker × PostResult
send id created_at b source input =
    let charged = charge_block b source input in
    elim (assert_route charged source input) [
      | some e ↦ (charged, PostResult.refused e)
      | none ↦ accept charged source (message_of id created_at source input)
    ]

abbrev pub post_from :
    String → String → MessageBroker → LeafTask → AgentMessageInput → MessageBroker × PostResult
post_from id created_at b source input =
    if is_empty (trim input.body)
    then (b, PostResult.refused PostError.empty_body)
    else if ltb b.max_bytes (len input.body)
    then (b, PostResult.refused PostError.too_long)
    else if leb b.max_outbound (count_at source.id b.outbound)
    then (b, PostResult.refused PostError.budget_exhausted)
    else if wants_block input && leb b.max_blocking (count_at source.id b.blocking)
    then (b, PostResult.refused PostError.blocking_exhausted)
    else send id created_at b source input

-- `post`, with the id and the time that the message gets.
unfoldable pub post :
    String → String → MessageBroker → AgentMessageInput → MessageBroker × PostResult
post id created_at b input = elim (lookup input.from_task_id b.tasks) [
  | none ↦ (b, PostResult.refused PostError.unknown_source)
  | some source ↦ post_from id created_at b source input
]
