-- ===== src/Lib.antt =====
-- A model of the mission ledger's core: what a planner's plan has to satisfy, how the deterministic
-- scheduler runs its leaves, and how leaves talk to each other. Paths are from the repository's root.
--
-- Parts and files
--   Contracts: the types of src/core/contracts.ts that the other parts exchange. Interfaces are
--     records, unions of string literals are data types, optional fields are `Option`s.
--   Messages: src/core/messages.ts. A `MessageBroker` record holds the fields of the class; `post`,
--     `register_task` and `synchronize_tasks` are its methods, and give the new state. `Budget` and
--     `Routes` are about whole runs, which are sequences of these operations in any order.
--   Policy: src/core/policy.ts. `Limits` has the normalization of limits, `Tiers` the choice of
--     models and efforts (`Words` the regular expressions that it uses), `Ownership` the paths,
--     `Checks` and `Triggers` the evidence for replanning.
--   Plans: src/core/plan-validation.ts. `Json` has the values of type unknown, `Shape` the checks of
--     single members and of tasks and operations, `Nulls` the removal of nulls, `Graph`
--     `analyzePlanGraph`, `Semantics` `validatePlanSemantics`, `Validation` `validateExecutionPlan` (`Form` for its
--     single members, `Meaning` for the plan as a whole), and `Patches` `validatePlanPatch` and `applyPlanPatch`. `Codec` stands for the casts of the source: a
--     value read as a plan, and a plan seen as a value. A result has a value or issues, also where the
--     source throws; an issue has its path and its code, not its message.
--   Scheduler: src/core/scheduler.ts. `Admission` has `computeWaves` and `validatePlanForScheduling`,
--     `Escalation` the run of one leaf (`#runWithEscalation`), `Results` the results that the
--     scheduler makes up, `Loop` the loop of `execute`, and `Resume` what comes before it
--     (`validateInitialResults`, with `Results` for the results that a run goes on from).
--   Reducer: src/core/reducer.ts. `reduce_leaf_results` makes the response of completed results, with
--     `terminal_writer_task_id` for the writer whose result alone is delivered. The constant fields
--     `threadId` and `usage` of its outcome are left out.
--   Prelude: shared helpers. A JavaScript `Map` is a list of entries in the order of insertion.
--
-- How the parts interact
--   `execute` is a step relation (`Step` of Scheduler/Loop/Slots). Its state, `RunState`, holds the
--   local variables of `execute`: the plan, the results, the leaves that run, the broker. A step is an
--   iteration of the loop up to its next await (`turn`), the planner's answer (`replanned`), the end
--   of a leaf's await (`land`), the race's winner (`record_settled_leaf`), or a message (`post`). Leaves
--   end in any order. `#runWithEscalation` is cut at its await into `begin_attempt` and `finish_attempt`,
--   with the maps that all leaves share in `Shared`. The planner's patch goes through
--   `apply_plan_patch` of Plans (Scheduler/Loop/Patching); the theorems of Slots, Ending and Blocking hold
--   for any function in its place.
--
-- Numbers and texts
--   A JavaScript number is a `Number`: NaN, an infinity, or an exact number of millionths. Rounding
--   of floating point is not modelled, so `Number.EPSILON` in comparisons of costs is left out. Counts
--   are natural numbers. Error texts that only repeat numbers leave the numbers out; of the errors that
--   are thrown the code is kept. Times are ISO texts; `Date.parse` is an argument, `date_parse`.
--
-- Fuel
--   `computeWaves` walks the dependencies on fuel, one more than there are tasks: the walk visits a
--   task at most once on a path. `taskTransitivelyDependsOn` visits a task once, so it has as much.
--   The rounds of `#blockTasksWithFailedDependencies` have as much too: each round but the last gives
--   a task its result. `reconcilePatchState` reopens a task at most once in the same way. The loop
--   of `analyzePlanGraph` has a wave for each unit of fuel, and each wave takes a task out.
--   The walk of `terminalWriterTaskId` has two units more than there are tasks, since it stops at an
--   id that it has seen and at one that is no task.
--
-- Not modelled
--   The executor, the planner and the completion inspector are the environment: their answers are
--   arguments of the steps. The inspector, which the source awaits, is a function of the plan and the
--   results. `validateExecutionPlan` checks the meaning of a plan also where the text of an
--   enumeration is wrong, and so adds issues to those of a plan that it refuses already; the model checks
--   the meaning if the value has all its types. Left out are the messages of issues, the JSON schemas that
--   are sent to a model, the launch timing, the fan-out admission in policy.ts, and the other files of
--   src: the service, planner, router, workspace, job store, app server, MCP server, monitor and tools.
pub mod Prelude
pub mod Contracts
pub mod Messages
pub mod Policy
pub mod Plans
pub mod Scheduler
pub mod Reducer
