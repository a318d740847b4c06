-- ===== src/Observers/Memory.antt =====
-- crates/workflow_engine_observe/src/memory.rs: `InMemoryObserver`. A lock is held for the whole of
-- each call, so a call is one step.
pub mod Latest
use tianshu_rs.Base.{
  ℕ, String, Bool, List, [], ◌∷◌, ◌++◌, if◌then◌else◌, leb, length, drop, filter, ◌==◌, string_eq,
}
use tianshu_rs.Observe.{
  StepRecord, WorkflowRecord, LlmCallRecord, ProbeRecord, Event, on_step, on_workflow_complete,
  on_llm_call, on_tool_call, on_retry, on_probe, flush,
}
use tianshu_rs.Observers.{Observer}

abbrev pub max_probe_records : ℕ
max_probe_records = 10_000

pub record InMemoryObserver (Json Float : Type 0) : Type 0 where
  pub steps : List (StepRecord Json)
  pub workflows : List (WorkflowRecord Json)
  pub llm_calls : List (LlmCallRecord Json Float)
  pub probes : List ProbeRecord

unfoldable pub new : {Json Float : Type 0} → InMemoryObserver Json Float
new = record { steps = []; workflows = []; llm_calls = []; probes = [] }

-- `pop_front` where the buffer is full, and `push_back`
unfoldable pub push_probe : (cap : ℕ) → ProbeRecord → List ProbeRecord → List ProbeRecord
push_probe cap r probes = (if leb cap (length probes) then drop 1 probes else probes) ++ r ∷ []

module _ {Json Float : Type 0} where
  -- Tool calls and retries have the default bodies of the trait, and so has `flush`.
  unfoldable pub observe : Observer Json Float (InMemoryObserver Json Float)
  unfolding push_probe
  observe (on_step r) o = record o { steps = o.steps ++ r ∷ [] }
  observe (on_workflow_complete r) o = record o { workflows = o.workflows ++ r ∷ [] }
  observe (on_llm_call r) o = record o { llm_calls = o.llm_calls ++ r ∷ [] }
  observe (on_probe r) o = record o { probes = push_probe max_probe_records r o.probes }
  observe (on_tool_call r) o = o
  observe (on_retry r) o = o
  observe flush o = o

  unfoldable pub step_records_for_case :
      String → InMemoryObserver Json Float → List (StepRecord Json)
  step_records_for_case key o = filter (λ r. r.case_key == key) o.steps

  unfoldable pub clear : InMemoryObserver Json Float → InMemoryObserver Json Float
  unfolding new
  clear o = new

  -- the calls of the observer, one after the other
  unfoldable pub observe_all :
      List (Event Json Float) → InMemoryObserver Json Float → InMemoryObserver Json Float
  observe_all [] o = o
  observe_all (e ∷ events) o = observe_all events (observe e o)
