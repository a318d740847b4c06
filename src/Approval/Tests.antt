-- ===== src/Approval/Tests.antt =====
-- The demonstration of examples/approval_workflow/src/main.rs: a case that is submitted, a decision
-- that is published, and a second tick. A value of `serde_json` is a text here.
mod Options
mod Decision
use mathlib.Core.Option
use tianshu_rs.Base.{
  ℕ, String, Option, none, some, [], ◌∷◌, ok, ◌≡◌, refl, ◌==◌, string_eq, if◌then◌else◌,
}
use tianshu_rs.Base.HashMap
use tianshu_rs.Case
use tianshu_rs.Case.{Case}
use tianshu_rs.Session
use tianshu_rs.Registry.{WorkflowRegistry}
use tianshu_rs.Store.Memory.{InMemoryCaseStore, in_memory_case_store}
use tianshu_rs.Store.State.{InMemoryStateStore, in_memory_state_store}
use tianshu_rs.Context.{Serde, Codec}
use tianshu_rs.Engine
use tianshu_rs.Engine.{SchedulerEnvironment, Shared, TickClock, Workflow}
use tianshu_rs.Engine.Tick.{tick, Ticked}
use tianshu_rs.Poll.{evaluate}
use tianshu_rs.Approval.{EventBus, publish, fetch, run}

abbrev pub serde : Serde String
serde = record {
  null = "null";
  is_null = λ s. s == "null";
  to_string = λ s. ok s;
  from_str = λ s. ok s;
}

abbrev pub codec : Codec String String
codec = record { to_value = λ s. ok s; from_value = λ s. ok s }

-- `approved` is the data with a decision
abbrev pub field : String → String → Option String
field d name = if name == "decision" then (if d == "approved" then some d else none) else none

abbrev approval : Workflow String ℕ (InMemoryCaseStore String) InMemoryStateStore
approval =
    run serde codec field in_memory_case_store in_memory_state_store
      (record { timestamp = 5; saved_at = 7; duration_ms = 3 })
      (record { updated_at = 8; finished_at = 9; total_duration_ms = 4 })

abbrev registry :
    WorkflowRegistry String (Workflow String ℕ (InMemoryCaseStore String) InMemoryStateStore)
registry = ("approval", λ c. approval) ∷ []

abbrev case : Case String
case = record (Case.new 3 "demo" "s" "approval") { resource_data = some "submitted" }

abbrev env : SchedulerEnvironment String
env = Engine.new_environment (Session.new 1 "s") (case ∷ [])

abbrev pub empty : Shared String ℕ (InMemoryCaseStore String) InMemoryStateStore
empty = record {
  case_store = [];
  state_store = record { entries = []; session_entries = [] };
  events = [];
}

abbrev pub clock : TickClock
clock = record { now = λ k. 50; probe_ms = λ k. 1 }

abbrev first_tick : Ticked String ℕ (InMemoryCaseStore String) InMemoryStateStore
first_tick = tick registry clock (λ ks. ks) (some (fetch [])) none Engine.new env empty

abbrev bus : EventBus String
bus = publish [] "demo" "approved"

abbrev second_tick : Ticked String ℕ (InMemoryCaseStore String) InMemoryStateStore
second_tick =
    tick registry clock (λ ks. ks) (some (fetch bus)) none first_tick.scheduler first_tick.env
      first_tick.shared

abbrev states : Option Case.ExecutionState × Option Case.ExecutionState
states = (
  Option.map (λ c. c.execution_state) (HashMap.get first_tick.env.current_case_dict "demo"),
  Option.map (λ c. c.execution_state) (HashMap.get second_tick.env.current_case_dict "demo"),
)

-- the decision is published between the ticks, and the case waits again
still_waiting_runs : states ≡ (some Case.waiting, some Case.waiting)
unfolding HashMap.get tick Engine.new_environment HashMap.insert
    tianshu_rs.Engine.Phases.execute_all tianshu_rs.Engine.Phases.probe_all Engine.partition
    Case.is_active Case.new tianshu_rs.Registry.get run tianshu_rs.Context.Step.step
    tianshu_rs.Context.Checkpoint.get_checkpoint tianshu_rs.Context.new tianshu_rs.Store.State.get
    tianshu_rs.Context.Checkpoint.save_checkpoint tianshu_rs.Store.State.save HashMap.alter
    Case.is_paused Case.is_stopped Case.mc_finish Case.mc_run Case.mc_wait
    tianshu_rs.Context.Checkpoint.save_entry tianshu_rs.Context.Finish.finish
    tianshu_rs.Context.Step.conclude tianshu_rs.Context.Step.execute tianshu_rs.Context.Step.restore
    tianshu_rs.Context.cache_key tianshu_rs.Context.checkpoint_step_key
    tianshu_rs.Engine.Phases.execute tianshu_rs.Engine.Phases.execute_resolved
    tianshu_rs.Engine.Phases.probe tianshu_rs.Engine.Phases.probe_resolved
    tianshu_rs.Engine.Phases.resolve tianshu_rs.Engine.Phases.run_workflow
    tianshu_rs.Engine.Tick.execute_ready tianshu_rs.Engine.Tick.polls_of
    tianshu_rs.Engine.Tick.ready_keys tianshu_rs.Engine.Tick.run_phases
    tianshu_rs.Engine.Tick.run_task tianshu_rs.Engine.Tick.run_tasks tianshu_rs.Engine.Tick.wake
    tianshu_rs.Engine.Tick.wake_all tianshu_rs.Engine.Tick.wake_each
    tianshu_rs.Engine.Tick.wake_phase Engine.contains Engine.dict_of evaluate
    tianshu_rs.Poll.evaluate_from publish fetch Engine.new
still_waiting_runs = refl
