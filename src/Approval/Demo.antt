-- ===== src/Approval/Demo.antt =====
-- examples/approval_workflow/src: the registration of the workflow, and the two demonstrations, over
-- any stores. `object` is `json!` of an object whose fields are texts, and each tick has a clock and
-- the answer of the shutdown signal of its own.
use tianshu_rs.Base.{ℕ, String, Bool, Option, some, List, [], ◌∷◌, map, length, string_eq, format}
use tianshu_rs.Case
use tianshu_rs.Case.{Case}
use tianshu_rs.Session
use tianshu_rs.Store.{CaseStore, StateStore}
use tianshu_rs.Context.{Serde, Codec}
use tianshu_rs.Context.Step.{Timing}
use tianshu_rs.Context.Finish.{FinishTiming}
use tianshu_rs.Registry
use tianshu_rs.Registry.{WorkflowRegistry}
use tianshu_rs.Engine
use tianshu_rs.Engine.{
  SchedulerEnvironment, Scheduler, Shared, TickClock, Workflow, TickResult, executed, idle,
  shutdown_requested, new_environment, with_execution_mode, set_observer, parallel,
}
use tianshu_rs.Engine.Tick.{Ticked, tick}
use tianshu_rs.Observers.Memory.{InMemoryObserver}
use tianshu_rs.Observers.Dataset.{JsonBuilder, step_dataset, workflow_dataset, llm_dataset}
use tianshu_rs.Approval.{EventBus, publish, fetch, run}

module _ {Json Float C S : Type 0} (serde : Serde Json) (codec : Codec Json String)
    (field : Json → String → Option String) (cases : CaseStore Json C) (states : StateStore S)
    (t : Timing) (ft : FinishTiming) where
  unfoldable pub register_workflows :
      WorkflowRegistry Json (Workflow Json Float C S)
      → WorkflowRegistry Json (Workflow Json Float C S)
  unfolding run
  register_workflows registry =
      Registry.register registry "approval" (λ c. run serde codec field cases states t ft)

module _ {Json : Type 0} (object : List (String × String) → Json) (now : ℕ) where
  unfoldable pub sequential_case : Case Json
  sequential_case = record (Case.new now "approval_demo_001" "demo_session" "approval") {
    resource_data = some (
        object (
          ("document_id", "doc_999")
          ∷ ("submitter", "carol")
          ∷ ("title", "Infrastructure Budget 2025")
          ∷ []));
  }

  unfoldable pub parallel_case : String → Case Json
  parallel_case key = record (Case.new now key "parallel_session" "approval") {
    resource_data = some (
        object (
          ("document_id", key)
          ∷ ("submitter", "carol")
          ∷ ("title", format ("Proposal " ∷ key ∷ []))
          ∷ []));
  }

abbrev pub parallel_keys : List String
parallel_keys = "parallel_001" ∷ "parallel_002" ∷ "parallel_003" ∷ []

abbrev pub publish_each : {Json : Type 0} → Json → List String → EventBus Json → EventBus Json
publish_each payload [] bus = bus
publish_each payload (key ∷ keys) bus = publish_each payload keys (publish bus key payload)

-- what a tick of a demonstration is given from outside: its clock, the order of the tasks of the
-- parallel mode, and what the shutdown signal answers
pub record TickInputs : Type 0 where
  pub clock : TickClock
  pub schedule : List String → List String
  pub shutdown : Bool

module _ {Json : Type 0} (object : List (String × String) → Json) where
  abbrev pub decision : Json
  decision = object (("decision", "approved") ∷ ("reviewer", "dave") ∷ [])

module _ {Json Float C S : Type 0} (object : List (String × String) → Json)
    (registry : WorkflowRegistry Json (Workflow Json Float C S)) where
  abbrev pub tick_with :
      TickInputs
      → EventBus Json
      → Scheduler
      → SchedulerEnvironment Json
      → Shared Json Float C S
      → Ticked Json Float C S
  tick_with i bus s env shared =
      tick registry i.clock i.schedule (some (fetch bus)) (some i.shutdown) s env shared

  abbrev pub sequential_start : (now : ℕ) → SchedulerEnvironment Json
  sequential_start now =
      new_environment (Session.new now "demo_session") (sequential_case object now ∷ [])

  -- the second tick, unless the first was told to stop
  abbrev pub sequential_rest :
      TickInputs → TickResult → Ticked Json Float C S → Ticked Json Float C S
  sequential_rest second shutdown_requested t = t
  sequential_rest second _ t =
      tick_with second (publish [] "approval_demo_001" (decision object)) t.scheduler t.env t.shared

  unfoldable pub sequential_demo :
      (now : ℕ) (first second : TickInputs) → Shared Json Float C S → Ticked Json Float C S
  unfolding tick publish fetch sequential_case
  sequential_demo now first second shared =
      let t = tick_with first [] (set_observer Engine.new) (sequential_start now) shared in
      sequential_rest second t.result t

  abbrev pub parallel_start : (now : ℕ) → SchedulerEnvironment Json
  parallel_start now =
      with_execution_mode
        (new_environment (Session.new now "parallel_session")
          (map (parallel_case object now) parallel_keys))
        parallel

  unfoldable pub parallel_demo :
      (now : ℕ) (first second : TickInputs) → Shared Json Float C S → Ticked Json Float C S
  unfolding tick publish fetch parallel_case
  parallel_demo now first second shared =
      let t = tick_with first [] (set_observer Engine.new) (parallel_start now) shared in
      tick_with second (publish_each (decision object) parallel_keys []) t.scheduler t.env t.shared

-- the numbers of the report at the end
pub record Report : Type 0 where
  pub steps : ℕ
  pub workflows : ℕ
  pub llm_calls : ℕ
  pub step_entries : ℕ
  pub workflow_entries : ℕ
  pub llm_entries : ℕ

module _ {Json Float : Type 0} (json : JsonBuilder Json Float) where
  unfoldable pub report : InMemoryObserver Json Float → Report
  unfolding step_dataset workflow_dataset llm_dataset
  report memory_obs = record {
    steps = length memory_obs.steps;
    workflows = length memory_obs.workflows;
    llm_calls = length memory_obs.llm_calls;
    step_entries = length (step_dataset json memory_obs.steps);
    workflow_entries = length (workflow_dataset json memory_obs.workflows);
    llm_entries = length (llm_dataset json memory_obs.llm_calls);
  }
