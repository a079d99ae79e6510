-- ===== src/Messages/Routes.antt =====
-- src/core/messages.ts: who may write to whom.
use codex_mission_ledger.Prelude.{
  ℕ, ◌≡◌, ◌≢◌, refl, subst, sym, String, true, false, ◌||◌, some, none, List, [], ◌∷◌, ◌++◌, ◌⊎◌,
  inl, inr, arith, eq_iff, ◌==◌,
}
use Prim.Native.String.{len}
use codex_mission_ledger.Prelude.Tests.{Option-cases, Bool-cases, if-keeps, ltb, leb}
use codex_mission_ledger.Prelude.Lists.{All, All-append, All-map, includes}
use codex_mission_ledger.Prelude.Maps.{lookup, insert, has}
use codex_mission_ledger.Prelude.Text.{trim, is_empty}
use codex_mission_ledger.Contracts.{AgentMessage, LeafTask}
use codex_mission_ledger.Messages.{
  AgentMessageInput, MessageBroker, PostResult, new_broker, register_task, register_all,
  synchronize_tasks, assert_route, count_at, charge_block, message_of, handover, send, post_from,
  post, is_question, is_contract_change,
}
use codex_mission_ledger.Messages.Budget.{posts, registers, synchronizes, Run, start, then_step}

-- What holds of a message that `source` sends while the broker knows the tasks of `b`.
pub record IsRouted (b : MessageBroker) (m : AgentMessage) : Type 0 where
  pub source : LeafTask
  pub asked_id : String
  pub registered : lookup asked_id b.tasks ≡ some source
  pub from_source : m.from_task_id ≡ source.id
  pub change_to_planner : is_contract_change m.type ≡ true → m.to_task_id ≡ "planner"
  pub asks_planner :
      m.to_task_id ≡ "planner" → (is_question m.type || is_contract_change m.type) ≡ true
  pub to_other : m.to_task_id ≢ m.from_task_id
  pub allowed :
      (m.to_task_id ≡ "planner")
      ⊎ ((m.to_task_id ≡ "integrator")
          ⊎ ((has m.to_task_id b.tasks ≡ true)
              × (includes source.communication_with m.to_task_id ≡ true)))
  pub has_body : is_empty m.body ≡ false

-- A post keeps the messages as they are, or adds the one that it gives, which is routed.
abbrev KeepsRouted : MessageBroker → MessageBroker × PostResult → Type 0
KeepsRouted b r =
    (r.0.messages ≡ b.messages)
    ⊎ ((m : AgentMessage) × (r.0.messages ≡ b.messages ++ (m ∷ []))
        × (r.1 ≡ PostResult.posted m (handover m))
        × IsRouted b m)

module _ (message_id created_at : String) (asked_id : String) (source : LeafTask)
    (input : AgentMessageInput) where
  assert_route-allowed :
      (b charged : MessageBroker)
      → charged.tasks ≡ b.tasks
      → assert_route charged source input ≡ none
      → (input.to_task_id ≡ "planner")
        ⊎ ((input.to_task_id ≡ "integrator")
            ⊎ ((has input.to_task_id b.tasks ≡ true)
                × (includes source.communication_with input.to_task_id ≡ true)))
  unfolding assert_route
  assert_route-allowed b charged same clear = elim (Bool-cases (input.to_task_id == "planner")) [
    | inl planner ↦ inl ((eq_iff input.to_task_id "planner").0 planner)
    | inr other ↦ elim (Bool-cases (input.to_task_id == "integrator")) [
      | inl integrator ↦ inr (inl ((eq_iff input.to_task_id "integrator").0 integrator))
      | inr task ↦
          let known : has input.to_task_id charged.tasks ≡ true =
            ground (arith, clear, other, task) in
          inr (inr (rw (sym same) known, ground (arith, clear, other, task)))
    ]
  ]

  assert_route-IsRouted :
      (b charged : MessageBroker)
      → charged.tasks ≡ b.tasks
      → lookup asked_id b.tasks ≡ some source
      → assert_route charged source input ≡ none
      → is_empty (trim input.body) ≡ false
      → IsRouted b (message_of message_id created_at source input)
  unfolding assert_route
  assert_route-IsRouted b charged same found clear body =
      let to_planner = eq_iff input.to_task_id "planner" in
      let to_integrator = eq_iff input.to_task_id "integrator" in
      let to_source = eq_iff input.to_task_id source.id in
      record {
        source = source;
        asked_id = asked_id;
        registered = found;
        from_source = refl;
        change_to_planner = ground (arith, clear, to_planner);
        asks_planner = ground (arith, clear, to_planner);
        to_other = ground (arith, clear, to_source);
        allowed = assert_route-allowed b charged same clear;
        has_body = body;
      }

  send-KeepsRouted :
      (b : MessageBroker)
      → lookup asked_id b.tasks ≡ some source
      → is_empty (trim input.body) ≡ false
      → KeepsRouted b (send message_id created_at b source input)
  send-KeepsRouted b found body =
      let m = message_of message_id created_at source input in
      let charged = charge_block b source input in
      let same : charged.messages ≡ b.messages = ground arith in
      let known : charged.tasks ≡ b.tasks = ground arith in
      elim (Option-cases (assert_route charged source input)) [
        | inl clear ↦
            rw (clear, send)
              (inr (m, rw same refl, refl, assert_route-IsRouted b charged known found clear body))
        | inr (e, refusal) ↦ rw (refusal, send) (inl same)
      ]

  post_from-KeepsRouted :
      (b : MessageBroker)
      → lookup asked_id b.tasks ≡ some source
      → KeepsRouted b (post_from message_id created_at b source input)
  post_from-KeepsRouted b found = elim (Bool-cases (is_empty (trim input.body))) [
    | inl blank ↦ rw (blank, post_from) (inl refl)
    | inr body ↦
        rw (body, post_from)
          (if-keeps (KeepsRouted b) (ltb b.max_bytes (len input.body)) (inl refl) (
            if-keeps (KeepsRouted b) (leb b.max_outbound (count_at source.id b.outbound)) (inl refl)
              (if-keeps (KeepsRouted b) _ (inl refl) (send-KeepsRouted b found body))))
  ]

post-KeepsRouted :
    (message_id created_at : String) (b : MessageBroker) (input : AgentMessageInput)
    → KeepsRouted b (post message_id created_at b input)
unfolding post
post-KeepsRouted message_id created_at b input =
    elim (Option-cases (lookup input.from_task_id b.tasks)) [
      | inl missing ↦ rw (missing, post) (inl refl)
      | inr (source, found) ↦
          rw (found, post)
            (post_from-KeepsRouted message_id created_at input.from_task_id source input b found)
    ]

register_all-messages :
    (tasks : List LeafTask) (b : MessageBroker) → (register_all b tasks).0.messages ≡ b.messages
unfolding register_all
register_all-messages [] b = refl
register_all-messages (task ∷ tasks) b = elim (Bool-cases (has task.id b.tasks)) [
  | inl known ↦ rw (known, register_all)
  | inr new ↦
      rw (new, register_all)
        (register_all-messages tasks (record b { tasks = insert task.id task b.tasks }))
]

register_task-messages :
    (b next : MessageBroker) (task : LeafTask)
    → register_task b task ≡ some next
    → next.messages ≡ b.messages
unfolding register_task
register_task-messages b next task e = ground arith

-- A post of the run gave this message, which was routed as the broker then stood.
abbrev pub RoutedIn : {b c : MessageBroker} → Run b c → AgentMessage → Type 0
RoutedIn start m = ⊥
RoutedIn (then_step {c} r (posts message_id created_at input)) m =
    RoutedIn r m
    ⊎ (((post message_id created_at c input).1 ≡ PostResult.posted m (handover m)) × IsRouted c m)
RoutedIn (then_step r (registers task next e)) m = RoutedIn r m
RoutedIn (then_step r (synchronizes tasks)) m = RoutedIn r m

Run-RoutedIn :
    {b c : MessageBroker} (run : Run b c) → b.messages ≡ [] → All (RoutedIn run) c.messages
unfolding synchronize_tasks
Run-RoutedIn start e = rw e tt
Run-RoutedIn (then_step {c} r (posts message_id created_at input)) e =
    let run = then_step r (posts message_id created_at input) in
    let before = All-map (RoutedIn r) (RoutedIn run) (λ m h. inl h) c.messages (Run-RoutedIn r e) in
    elim (post-KeepsRouted message_id created_at c input) [
      | inl same ↦ subst (All (RoutedIn run)) (sym same) before
      | inr (m, added, given, routed) ↦
          subst (All (RoutedIn run)) (sym added)
            (All-append (RoutedIn run) c.messages (m ∷ []) before (inr (given, routed), tt))
    ]
Run-RoutedIn (then_step {c} r (registers task next known)) e =
    subst (All (RoutedIn r)) (sym (register_task-messages c next task known)) (Run-RoutedIn r e)
Run-RoutedIn (then_step {c} r (synchronizes tasks)) e =
    subst (All (RoutedIn r)) (sym (register_all-messages tasks (record c { tasks = [] })))
      (Run-RoutedIn r e)

-- Every message that a broker ever keeps was given by a post of its run, and obeyed the communication
-- contract of the tasks that the broker had at this post: its sender was registered, and its target was
-- the planner, the integrator, or a registered task that the sender's communicationWith names; a contract
-- change goes to the planner, the planner gets questions and contract changes only, no task writes to
-- itself, and no body is blank.
pub Run-IsRouted :
    (tasks : List LeafTask) (max_outbound max_blocking max_bytes : ℕ) (b : MessageBroker)
    (run : Run (new_broker tasks max_outbound max_blocking max_bytes) b)
    → All (RoutedIn run) b.messages
unfolding new_broker
Run-IsRouted tasks max_outbound max_blocking max_bytes b run = Run-RoutedIn run refl
