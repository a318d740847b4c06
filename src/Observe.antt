-- ===== src/Observe.antt =====
-- crates/workflow_engine/src/observe.rs: the records that an observer receives. The calls made on
-- an observer are kept in order, as a list of events.
use tianshu_rs.Base.{ℕ, String, Bool, Option, none, some, List, Result, ok, err, ◌++◌, ◌∷◌, []}
use tianshu_rs.Llm.{LlmRequest, LlmResponse, LlmUsage, LlmProvider}

pub record StepRecord (Json : Type 0) : Type 0 where
  pub case_key : String
  pub workflow_code : String
  pub step_name : String
  pub input_resource_data : Option Json
  pub output : Option Json
  pub duration_ms : ℕ
  pub timestamp : ℕ
  pub cached : Bool
  pub error : Option String

pub record WorkflowRecord (Json : Type 0) : Type 0 where
  pub case_key : String
  pub session_id : String
  pub workflow_code : String
  pub input_resource_data : Option Json
  pub output_resource_data : Option Json
  pub finished_type : Option String
  pub finished_description : Option String
  pub steps : List (StepRecord Json)
  pub total_duration_ms : ℕ
  pub started_at : ℕ
  pub finished_at : ℕ

pub record ToolCallRecord (Json : Type 0) : Type 0 where
  pub case_key : String
  pub step_name : Option String
  pub tool_name : String
  pub call_id : String
  pub input : Json
  pub output : Option String
  pub is_error : Bool
  pub duration_ms : ℕ
  pub timestamp : ℕ

pub record RetryRecord : Type 0 where
  pub case_key : String
  pub step_name : Option String
  pub attempt : ℕ
  pub error_class : String
  pub error_message : String
  pub timestamp : ℕ

pub record LlmCallRecord (Json Float : Type 0) : Type 0 where
  pub case_key : String
  pub step_name : Option String
  pub model : String
  pub request : LlmRequest Json Float
  pub response_content : Option String
  pub usage : Option LlmUsage
  pub duration_ms : ℕ
  pub timestamp : ℕ
  pub error : Option String

pub data ProbeOutcome : Type 0 where
  still_waiting resumed probe_finished : ProbeOutcome
  probe_error : String → ProbeOutcome

pub record ProbeRecord : Type 0 where
  pub case_key : String
  pub workflow_code : String
  pub duration_ms : ℕ
  pub poll_count : ℕ
  pub outcome : ProbeOutcome
  pub timestamp : ℕ

-- one call of a method of the `Observer` trait
pub data Event (Json Float : Type 0) : Type 0 where
  on_step : StepRecord Json → Event Json Float
  on_workflow_complete : WorkflowRecord Json → Event Json Float
  on_llm_call : LlmCallRecord Json Float → Event Json Float
  on_tool_call : ToolCallRecord Json → Event Json Float
  on_retry : RetryRecord → Event Json Float
  on_probe : ProbeRecord → Event Json Float
  flush : Event Json Float

module _ {Json Float : Type 0} where
  llm_record :
      LlmRequest Json Float
      → String
      → Option String
      → (duration_ms timestamp : ℕ) → Result LlmResponse
      → LlmCallRecord Json Float
  llm_record request case_key step_name duration_ms timestamp (ok resp) = record {
    case_key = case_key;
    step_name = step_name;
    model = request.model;
    request = request;
    response_content = some resp.content;
    usage = some resp.usage;
    duration_ms = duration_ms;
    timestamp = timestamp;
    error = none;
  }
  llm_record request case_key step_name duration_ms timestamp (err e) = record {
    case_key = case_key;
    step_name = step_name;
    model = request.model;
    request = request;
    response_content = none;
    usage = none;
    duration_ms = duration_ms;
    timestamp = timestamp;
    error = some e.message;
  }

module _ {Json Float W : Type 0} where
  -- the answer, the provider's state, and the record handed to the observer
  unfoldable pub observe_llm_call :
      LlmProvider Json Float W
      → LlmRequest Json Float
      → String
      → Option String
      → (duration_ms timestamp : ℕ) → W
      → Result LlmResponse × W × LlmCallRecord Json Float
  unfolding llm_record
  observe_llm_call provider request case_key step_name duration_ms timestamp w =
      let (result, w') = provider request w in
      (result, w', llm_record request case_key step_name duration_ms timestamp result)

module _ (Json Float W : Type 0) where
  -- a provider whose calls are told to an observer
  pub record ObservedLlmProvider : Type 0 where
    pub inner : LlmProvider Json Float W
    pub case_key : String
    pub step_name : Option String

module _ {Json Float W : Type 0} where
  unfoldable pub new_observed : LlmProvider Json Float W → String → ObservedLlmProvider Json Float W
  new_observed inner case_key = record { inner = inner; case_key = case_key; step_name = none }

  unfoldable pub with_step :
      ObservedLlmProvider Json Float W → String → ObservedLlmProvider Json Float W
  with_step p step_name = record p { step_name = some step_name }

  -- the state of the provider inside, and the calls made on the observer so far
  unfoldable pub complete_observed :
      (duration_ms timestamp : ℕ)
      → ObservedLlmProvider Json Float W
      → LlmProvider Json Float (W × List (Event Json Float))
  unfolding observe_llm_call
  complete_observed duration_ms timestamp p request (w, events) =
      let (r, w', call) =
        observe_llm_call p.inner request p.case_key p.step_name duration_ms timestamp w in
      (r, (w', events ++ on_llm_call call ∷ []))
