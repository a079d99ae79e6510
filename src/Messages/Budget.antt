-- ===== src/Messages/Budget.antt =====
-- src/core/messages.ts: the budgets of the broker, over whole runs. A run is a sequence of posts,
-- registrations and synchronizations, in any order.
use codex_mission_ledger.Prelude.{
  ℕ, ◌+◌, ◌≤◌, ◌≡◌, String, ◌&&◌, some, List, [], ◌∷◌, ◌++◌, inl, inr, arith, eq_iff, ◌==◌,
}
use codex_mission_ledger.Prelude.Tests.{if◌then◌else◌, Option-cases, Bool-cases}
use codex_mission_ledger.Prelude.Maps.{lookup, insert, has, lookup-insert}
use codex_mission_ledger.Contracts.{AgentMessage, LeafTask}
use codex_mission_ledger.Messages.{
  AgentMessageInput, MessageBroker, new_broker, register_task, register_all, synchronize_tasks,
  assert_route, count_at, wants_block, charge_block, message_of, accept, send, post_from, post,
}

-- How many of the messages a task has sent, and how many of those are blocking.
abbrev pub sent_by : String → List AgentMessage → ℕ
sent_by id [] = 0
sent_by id (m ∷ ms) = (if m.from_task_id == id then 1 else 0) + sent_by id ms

abbrev pub blocks_by : String → List AgentMessage → ℕ
blocks_by id [] = 0
blocks_by id (m ∷ ms) = (if (m.from_task_id == id) && m.blocking then 1 else 0) + blocks_by id ms

-- The budgets of one task: the outbound counter is the number of its messages, and both counters
-- stay within their limits.
pub record IsWithin (most most_blocking : ℕ) (id : String) (b : MessageBroker) : Type 0 where
  pub limit : b.max_outbound ≡ most
  pub blocking_limit : b.max_blocking ≡ most_blocking
  pub sent : sent_by id b.messages ≡ count_at id b.outbound
  pub capped : count_at id b.outbound ≤ b.max_outbound
  pub blocks : blocks_by id b.messages ≤ count_at id b.blocking
  pub blocks_capped : count_at id b.blocking ≤ b.max_blocking

sent_by-snoc :
    (id : String) (ms : List AgentMessage) (m : AgentMessage)
    → sent_by id (ms ++ m ∷ []) ≡ sent_by id ms + (if m.from_task_id == id then 1 else 0)
sent_by-snoc id [] m = omega arith
sent_by-snoc id (n ∷ ms) m = omega (arith, sent_by-snoc id ms m)

blocks_by-snoc :
    (id : String) (ms : List AgentMessage) (m : AgentMessage)
    → blocks_by id (ms ++ m ∷ [])
      ≡ blocks_by id ms + (if (m.from_task_id == id) && m.blocking then 1 else 0)
blocks_by-snoc id [] m = omega arith
blocks_by-snoc id (n ∷ ms) m = omega (arith, blocks_by-snoc id ms m)

count_at-insert :
    (k j : String) (n : ℕ) (m : List (String × ℕ))
    → count_at j (insert k n m) ≡ (if k == j then n else count_at j m)
count_at-insert k j n m = ground (arith, lookup-insert k j n m)

charge_block-blocks :
    (id : String) (b : MessageBroker) (source : LeafTask) (input : AgentMessageInput)
    → count_at id (charge_block b source input).blocking
      ≡ count_at id b.blocking + (if (source.id == id) && wants_block input then 1 else 0)
charge_block-blocks id b source input = ground (
  arith,
  count_at-insert source.id id (count_at source.id b.blocking + 1) b.blocking,
  eq_iff source.id id,
)

module _ {most most_blocking : ℕ} (id : String) (b : MessageBroker) (source : LeafTask)
    (input : AgentMessageInput) where
  accept-IsWithin :
      (message_id created_at : String)
      → IsWithin most most_blocking id b
      → count_at source.id b.outbound + 1 ≤ b.max_outbound
      → count_at id (charge_block b source input).blocking ≤ b.max_blocking
      → IsWithin most most_blocking id
          (accept
            (charge_block b source input)
            source
            (message_of message_id created_at source input)).0
  accept-IsWithin message_id created_at w room fits =
      let m = message_of message_id created_at source input in
      ground (
        arith,
        count_at-insert source.id id (count_at source.id b.outbound + 1) b.outbound,
        charge_block-blocks id b source input,
        sent_by-snoc id b.messages m,
        blocks_by-snoc id b.messages m,
        eq_iff source.id id,
      )

  send-IsWithin :
      (message_id created_at : String)
      → IsWithin most most_blocking id b
      → count_at source.id b.outbound + 1 ≤ b.max_outbound
      → count_at id (charge_block b source input).blocking ≤ b.max_blocking
      → IsWithin most most_blocking id (send message_id created_at b source input).0
  send-IsWithin message_id created_at w room fits =
      elim (Option-cases (assert_route (charge_block b source input) source input)) [
        | inl clear ↦ rw (clear, send) (accept-IsWithin message_id created_at w room fits)
        | inr (e, refusal) ↦
            rw (refusal, send) (ground (arith, charge_block-blocks id b source input))
      ]

  post_from-IsWithin :
      (message_id created_at : String)
      → IsWithin most most_blocking id b
      → IsWithin most most_blocking id (post_from message_id created_at b source input).0
  post_from-IsWithin message_id created_at w = ground (
    arith,
    send-IsWithin message_id created_at w,
    charge_block-blocks id b source input,
    eq_iff source.id id,
  )

post-IsWithin :
    {most most_blocking : ℕ} (message_id created_at id : String) (b : MessageBroker)
    (input : AgentMessageInput)
    → IsWithin most most_blocking id b
    → IsWithin most most_blocking id (post message_id created_at b input).0
unfolding post
post-IsWithin message_id created_at id b input w =
    elim (Option-cases (lookup input.from_task_id b.tasks)) [
      | inl missing ↦ rw (missing, post) w
      | inr (source, found) ↦
          rw (found, post) (post_from-IsWithin id b source input message_id created_at w)
    ]

register_all-IsWithin :
    {most most_blocking : ℕ} (id : String) (tasks : List LeafTask) (b : MessageBroker)
    → IsWithin most most_blocking id b
    → IsWithin most most_blocking id (register_all b tasks).0
unfolding register_all
register_all-IsWithin id [] b w = w
register_all-IsWithin id (task ∷ tasks) b w = elim (Bool-cases (has task.id b.tasks)) [
  | inl known ↦ rw (known, register_all) w
  | inr new ↦
      rw (new, register_all)
        (register_all-IsWithin id tasks (record b { tasks = insert task.id task b.tasks })
          (ground arith))
]

-- What a client may do to the broker.
pub data Step (b : MessageBroker) : MessageBroker → Type 0 where
  posts :
      (message_id created_at : String) (input : AgentMessageInput)
      → Step b (post message_id created_at b input).0
  registers :
      (task : LeafTask) (next : MessageBroker) → register_task b task ≡ some next → Step b next
  synchronizes : (tasks : List LeafTask) → Step b (synchronize_tasks b tasks).0

pub data Run (b : MessageBroker) : MessageBroker → Type 0 where
  start : Run b b
  then_step : {c d : MessageBroker} → Run b c → Step c d → Run b d

Step-IsWithin :
    {most most_blocking : ℕ} (id : String) {b c : MessageBroker}
    → Step b c
    → IsWithin most most_blocking id b
    → IsWithin most most_blocking id c
unfolding register_task synchronize_tasks
Step-IsWithin id {b} (posts message_id created_at input) w =
    post-IsWithin message_id created_at id b input w
Step-IsWithin id (registers task next e) w = ground arith
Step-IsWithin id {b} (synchronizes tasks) w =
    register_all-IsWithin id tasks (record b { tasks = [] }) (ground arith)

new_broker-IsWithin :
    (id : String) (tasks : List LeafTask) (max_outbound max_blocking max_bytes : ℕ)
    → IsWithin max_outbound max_blocking id (new_broker tasks max_outbound max_blocking max_bytes)
unfolding new_broker lookup
new_broker-IsWithin id tasks max_outbound max_blocking max_bytes = omega arith

Run-IsWithin :
    {most most_blocking : ℕ} (id : String) {b c : MessageBroker}
    → Run b c
    → IsWithin most most_blocking id b
    → IsWithin most most_blocking id c
Run-IsWithin id start w = w
Run-IsWithin id (then_step r st) w = Step-IsWithin id st (Run-IsWithin id r w)

-- Whatever the leaves post, and however often the plan is patched, a broker never keeps more than
-- its limit of messages from one task, nor more than its limit of blocking ones.
pub Run-budget :
    (id : String) (tasks : List LeafTask) (max_outbound max_blocking max_bytes : ℕ)
    (b : MessageBroker)
    → Run (new_broker tasks max_outbound max_blocking max_bytes) b
    → (sent_by id b.messages ≤ max_outbound) × (blocks_by id b.messages ≤ max_blocking)
Run-budget id tasks max_outbound max_blocking max_bytes b run =
    let w =
      Run-IsWithin id run (new_broker-IsWithin id tasks max_outbound max_blocking max_bytes) in
    (omega arith, omega arith)
