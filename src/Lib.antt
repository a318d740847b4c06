-- ===== src/Lib.antt =====
-- Tianshu, a workflow engine: cases whose workflows are run by a scheduler, with checkpoints that
-- let a workflow continue after a restart. The sources modelled are those of
-- crates/workflow_engine/src, and of the crates that observe it, ask a model for it, keep its data and
-- show it: crates/workflow_engine_observe/src, crates/workflow_engine_llm_openai/src,
-- crates/workflow_engine_postgres/src and crates/workflow_engine_dashboard/src, with the example of
-- examples/approval_workflow.
--
-- The parts. A scheduler (engine.rs) holds the cases of a session. A tick divides them into running
-- and waiting ones, probes the waiting ones, evaluates the polls that they return (poll.rs), and runs
-- what is ready with the workflow that the registry (registry.rs) gives for its code. A workflow acts
-- on a context (context.rs): it runs steps, which are saved in a state store and not run again, keeps
-- variables, spawns children (spawn.rs) and finishes its case in the case store (store.rs). Calls of
-- a model go through a provider with retries and fallbacks (llm_resilient.rs, retry.rs). A workflow may
-- be written in stages (stage.rs), may let a model call tools in rounds (tool.rs, tool_loop.rs), and may
-- keep a conversation within the limits of a model (compact.rs, token.rs). What happens is told to an
-- observer; the provider for the OpenAI interface answers in one piece or as a stream of events. The
-- stores are maps in memory or tables of PostgreSQL, and the example runs the scheduler over either.
--
-- The files.
--   Base, Base/*          shared types, lists, texts, association lists, actions with errors
--   Case, Case/Lifecycle  case.rs: Case, ExecutionState
--   Session, Workflow, Llm, Observe, Spawn
--                         session.rs, workflow.rs, llm.rs, observe.rs, spawn.rs: the data
--   Store                 store.rs: the traits as records of functions, the laws of a state store
--   Store/Memory, Store/Sessions, Store/State
--                         store.rs: InMemoryCaseStore, InMemorySessionStore, InMemoryStateStore
--   Store/Queries         what a listing, a page and an upsert answer
--   Store/Replaced        the laws of a case store, which the in-memory one meets
--   Store/Defaults        the default methods of the traits
--   Postgres              crates/workflow_engine_postgres/src: the statements on a table, as parameters
--   Postgres/Rows, Postgres/Lookup
--                         rows with a primary key, and what a query by the key finds
--   Postgres/States, Postgres/Sessions
--                         state_store.rs, session_store.rs; below States the laws of a state store
--                         and the listing of a case
--   Postgres/Cases        case_store.rs; below it the rows of cases, upserts and listings
--   Postgres/Pool         pool.rs: how the pool of connections is built
--   Postgres/Reference    tables in memory of which the documented laws hold
--   Retry, Retry/Loop     retry.rs: with_retry, and its description as a relation
--   Resilient, Resilient/Fallbacks
--                         llm_resilient.rs: complete and the order of the providers
--   Registry, Poll, Poll/Intent
--                         registry.rs, PollEvaluator and IntentRouterV2 of poll.rs
--   Context               context.rs: WorkflowContext, its keys and constructor
--   Context/Checkpoint    get_checkpoint, save_checkpoint, clear_step; below it the agreement of cache
--                         and store, clearing, and keys
--   Context/Step          step, step_with_retry; below it the replay after a restart
--   Context/Variables     get_state, set_state and those of a session; below it their laws
--   Context/Children      spawn_child, spawn_children, await_children; below it their laws
--   Context/Finish        finish; below it its laws
--   Engine                engine.rs: the scheduler's state, phase 1 of tick
--   Engine/Phases, Engine/Tick
--                         the loops of the phases, and tick
--   Engine/Untouched      which cases a tick leaves alone
--   Engine/Idle           what a tick returns where only a probe ran a workflow
--   Engine/Once           the keys that phase 4 goes over
--   Engine/Executed       what phase 4 does to each case
--   Engine/Tasks          a task of the parallel mode beside an execution
--   Engine/Modes          the parallel mode beside the sequential one
--   Engine/Filed, Engine/Filed/Ticks
--                         the keys of the case dictionary, over any number of ticks
--   Engine/Shutdown       ShutdownSignal
--   Tool, Tool/Tasks, Tool/Order
--                         tool.rs: calls of tools; a batch in any order; calls one by one
--   Tool/Loop, Tool/Loop/Transcript
--                         tool_loop.rs: the loop, and the conversation that it leaves
--   Context/ToolStep      tool_step of context.rs
--   Context/Managed       the slot of a context for a managed conversation
--   Token, Compact, Compact/Truncation, Compact/Managed
--                         token.rs, compact.rs: estimates, truncation, managed conversations
--   Stage, Stage/Loop, Stage/Forward, Stage/Clearing, Stage/Passage
--                         stage.rs: the loop over stages, its runs, its end, the cleared steps, and
--                         what a run goes through
--   Observers, Observers/Memory, Observers/Composite, Observers/Dataset
--                         crates/workflow_engine_observe/src: memory.rs, composite.rs, dataset.rs
--   Observers/Jsonl       jsonl.rs: the channel and its task; below it what is written and which
--                         flushes return
--   OpenAi/Provider       crates/workflow_engine_llm_openai/src/lib.rs; below it the tool loop over it
--   OpenAi/Sse            sse.rs; below it the events of a body without a buffer
--   OpenAi/Stream         streaming.rs; below it what a receiver gets, and the last event
--   Approval              examples/approval_workflow: the workflow and the event bus
--   Approval/Decision     a review from its submission to its decision, over a restart
--   Approval/Options, Approval/Setup, Approval/Demo
--                         its main.rs: the command line, what it chooses, and the
--                         demonstrations
--   Dashboard, Dashboard/Stats, Dashboard/Bounds, Dashboard/Server
--                         crates/workflow_engine_dashboard/src: handlers.rs, metrics.rs, types.rs,
--                         server.rs
--   */Tests               concrete inputs
--
-- The model. A value of serde_json and an f64 are of types that are parameters. serde_json is a record
-- of functions (Serde, Codec) with its round trips as named laws, which hold of it for the values whose
-- numbers and nesting it keeps. A store is a record of functions
-- on its contents; what is proved of contexts holds for any state store that meets IsStateStore, as
-- the in-memory one does, and the one over PostgreSQL where the database answers. A table of PostgreSQL
-- is what its statements answer (Table), with what is documented of them as named laws on its rows
-- (IsTable, IsListing): no two rows have one primary key, a query gives the rows that pass its condition
-- in no stated order, and a write changes them as it says. The JSONL observer and its task take steps in
-- any order. A hash map is an association list, whose order is that of insertion.
-- Instants and durations are numbers of milliseconds; a function that reads the clock takes the
-- readings as arguments. What a model or a tool changes is a state W that is passed along. HTTP is a
-- function from a request and a state to an answer; the body of a stream is a list of pieces. Calls on an
-- observer are a list of events. A function that can fail returns
-- a result, and one that changes state returns the new state beside it.
--
-- Bounds. with_retry runs on fuel, the number max_attempts of its policy; Retry.Loop describes the loop
-- without fuel and shows that the fuel is enough. The tool loop runs on the rounds that its configuration
-- allows, as the code does; calls of tools run on their number, which is enough, since each round of
-- that loop takes one call at least. run_stages has no bound of its own: Stage.Loop describes its runs
-- without fuel. The other loops go over a list. A product of two u32 and a sum of token counts wrap;
-- other numbers are unbounded.
--
-- Not modelled. The tasks of the parallel mode and of a batch of tool calls run to their end one after the
-- other, in any order, and do not panic. Logging has no effect. The registration of signals of the
-- operating system, with the wait for one at the end of the example, the streams of TLS in pool.rs, the
-- page of the dashboard and HTTP are input and output. A timestamp of PostgreSQL has microseconds; here an
-- instant is a number that is stored as it is, so what is said of cases and sessions in tables is said of
-- instants that a column can hold. The clears of one list of steps share a reading of the clock.
pub mod Base
pub mod Session
pub mod Case
pub mod Workflow
pub mod Llm
pub mod Observe
pub mod Store
pub mod Retry
pub mod Resilient
pub mod Registry
pub mod Poll
pub mod Spawn
pub mod Context
pub mod Engine
pub mod Tool
pub mod Token
pub mod Compact
pub mod Stage
pub mod Observers
pub mod Postgres
pub mod OpenAi
pub mod Approval
pub mod Dashboard
