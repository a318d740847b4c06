-- ===== src/Engine.antt =====
-- crates/workflow_engine/src/engine.rs: the scheduler's state, and how phase 1 divides the cases. A workflow is
-- an action on its context. The contexts of a tick share the contents of the stores and the
-- calls made on the observer (`Shared`). The clock readings of a tick are given by case key.
pub mod Phases
pub mod Tick
pub mod Tasks
pub mod Untouched
pub mod Once
pub mod Executed
pub mod Filed
pub mod Shutdown
pub mod Modes
pub mod Idle
mod Tests
use mathlib.Core.Option
use tianshu_rs.Base.{
  ℕ, String, Bool, true, false, not, ◌&&◌, Option, none, some, List, [], ◌∷◌, ◌++◌, Result, ok, err,
  if◌then◌else◌, ◌==◌, string_eq, length, is_empty,
}
use tianshu_rs.Base.HashMap
use tianshu_rs.Base.HashMap.{HashMap}
use tianshu_rs.Base.Exec.{Exec}
use tianshu_rs.Case
use tianshu_rs.Case.{Case, ExecutionState, is_active, mc_run, mc_wait, mc_finish}
use tianshu_rs.Session
use tianshu_rs.Session.{Session}
use tianshu_rs.Workflow.{PollPredicate, WorkflowResult, continues, waits, finishes}
use tianshu_rs.Observe.{
  Event, on_probe, ProbeRecord, ProbeOutcome, still_waiting, resumed, probe_finished, probe_error,
}
use tianshu_rs.Registry
use tianshu_rs.Registry.{WorkflowRegistry}
use tianshu_rs.Poll.{ResourceFetcher, evaluate}
use tianshu_rs.Context
use tianshu_rs.Context.{WorkflowContext}

pub data ExecutionMode : Type 0 where
  sequential parallel : ExecutionMode

pub data TickResult : Type 0 where
  executed idle shutdown_requested : TickResult

unfoldable pub any_executed : TickResult → Bool
any_executed executed = true
any_executed _ = false

pub record SchedulerEnvironment (Json : Type 0) : Type 0 where
  pub session : Session Json
  pub current_case_dict : HashMap String (Case Json)
  pub execution_mode : ExecutionMode

module _ {Json : Type 0} where
  unfoldable pub dict_of :
      HashMap String (Case Json) → List (Case Json) → HashMap String (Case Json)
  dict_of dict [] = dict
  dict_of dict (c ∷ cases) = dict_of (HashMap.insert dict c.case_key c) cases

  unfoldable pub new_environment : Session Json → List (Case Json) → SchedulerEnvironment Json
  unfolding dict_of
  new_environment session cases = record {
    session = session;
    current_case_dict = dict_of [] cases;
    execution_mode = sequential;
  }

  unfoldable pub from_session_id : (now : ℕ) → String → List (Case Json) → SchedulerEnvironment Json
  unfolding new_environment
  from_session_id now id cases = new_environment (Session.new now id) cases

  unfoldable pub with_execution_mode :
      SchedulerEnvironment Json → ExecutionMode → SchedulerEnvironment Json
  with_execution_mode env mode = record env { execution_mode = mode }

-- `SchedulerV2`; `observed` says whether an observer is attached
pub record Scheduler : Type 0 where
  pub woken_keys : List String
  pub observed : Bool

unfoldable pub new : Scheduler
new = record { woken_keys = []; observed = false }

unfoldable pub set_observer : Scheduler → Scheduler
set_observer s = record s { observed = true }

pub record Shared (Json Float C S : Type 0) : Type 0 where
  pub case_store : C
  pub state_store : S
  pub events : List (Event Json Float)

-- by case key: the readings of `Utc::now()`, and the duration of a probe
pub record TickClock : Type 0 where
  pub now : String → ℕ
  pub probe_ms : String → ℕ

abbrev pub Workflow : Type 0 → Type 0 → Type 0 → Type 0 → Type 0
Workflow Json Float C S = Exec (WorkflowContext Json Float C S) WorkflowResult

-- the cases of the dictionary, as phase 1 divides them
pub record Partition : Type 0 where
  pub running_keys : List String
  pub waiting_keys : List String

abbrev pub add_key : ExecutionState → String → Partition → Partition
add_key ExecutionState.running k p = record p { running_keys = k ∷ p.running_keys }
add_key ExecutionState.waiting k p = record p { waiting_keys = k ∷ p.waiting_keys }
add_key ExecutionState.finished k p = p

unfoldable pub partition : {Json : Type 0} → HashMap String (Case Json) → Partition
partition [] = record { running_keys = []; waiting_keys = [] }
partition ((k, c) ∷ rest) =
    let p = partition rest in if not (is_active c) then p else add_key c.execution_state k p

unfoldable pub contains : List String → String → Bool
contains [] k = false
contains (j ∷ r) k = if j == k then true else contains r k

abbrev pub push_new : List String → String → List String
push_new keys k = if contains keys k then keys else keys ++ k ∷ []
