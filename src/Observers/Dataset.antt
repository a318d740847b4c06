-- ===== src/Observers/Dataset.antt =====
-- crates/workflow_engine_observe/src/dataset.rs: the records as pairs of input and output. The
-- `json!` macro makes its values by the functions of `JsonBuilder`.
use tianshu_rs.Base.{
  ℕ, String, Bool, true, false, not, ◌&&◌, Option, none, some, List, [], ◌∷◌, map, if◌then◌else◌,
}
use tianshu_rs.Llm.{LlmMessage, LlmUsage}
use tianshu_rs.Observe.{StepRecord, WorkflowRecord, LlmCallRecord}

pub record JsonBuilder (Json Float : Type 0) : Type 0 where
  pub null : Json
  pub string : String → Json
  pub number : ℕ → Json
  pub float : Float → Json
  pub array : List Json → Json
  pub object : List (String × Json) → Json

pub record DatasetEntry (Json : Type 0) : Type 0 where
  pub input : Json
  pub output : Json
  pub metadata : Json

abbrev is_some : {A : Type 0} → Option A → Bool
is_some none = false
is_some (some a) = true

module _ {Json Float : Type 0} (json : JsonBuilder Json Float) where
  abbrev optional : {A : Type 0} → (A → Json) → Option A → Json
  optional f none = json.null
  optional f (some a) = f a

  abbrev unwrap_or_null : Option Json → Json
  unwrap_or_null none = json.null
  unwrap_or_null (some v) = v

  abbrev workflow_metadata : WorkflowRecord Json → Json
  workflow_metadata r = json.object (
      ("case_key", json.string r.case_key)
      ∷ ("session_id", json.string r.session_id)
      ∷ ("workflow_code", json.string r.workflow_code)
      ∷ ("finished_type", optional json.string r.finished_type)
      ∷ ("total_duration_ms", json.number r.total_duration_ms)
      ∷ [])

  -- `filter_map`, with a record's two optional values
  abbrev add_workflow :
      WorkflowRecord Json
      → Option Json
      → Option Json
      → List (DatasetEntry Json)
      → List (DatasetEntry Json)
  add_workflow r (some input) (some output) rest =
      record { input = input; output = output; metadata = workflow_metadata r } ∷ rest
  add_workflow r _ _ rest = rest

  unfoldable pub workflow_dataset : List (WorkflowRecord Json) → List (DatasetEntry Json)
  workflow_dataset [] = []
  workflow_dataset (r ∷ records) =
      add_workflow r r.input_resource_data r.output_resource_data (workflow_dataset records)

  abbrev pub is_fresh : StepRecord Json → Bool
  is_fresh r = not r.cached && is_some r.output && not (is_some r.error)

  abbrev pub step_entry : StepRecord Json → DatasetEntry Json
  step_entry r = record {
    input = unwrap_or_null r.input_resource_data;
    output = unwrap_or_null r.output;
    metadata = json.object (
        ("case_key", json.string r.case_key)
        ∷ ("workflow_code", json.string r.workflow_code)
        ∷ ("step_name", json.string r.step_name)
        ∷ ("duration_ms", json.number r.duration_ms)
        ∷ []);
  }

  unfoldable pub step_dataset : List (StepRecord Json) → List (DatasetEntry Json)
  step_dataset [] = []
  step_dataset (r ∷ records) =
      let rest = step_dataset records in if is_fresh r then step_entry r ∷ rest else rest

  abbrev message_json : LlmMessage → Json
  message_json m =
      json.object (("role", json.string m.role) ∷ ("content", json.string m.content) ∷ [])

  abbrev usage_json : LlmUsage → Json
  usage_json u = json.object (
      ("prompt_tokens", json.number u.prompt_tokens)
      ∷ ("completion_tokens", json.number u.completion_tokens)
      ∷ [])

  abbrev llm_input : LlmCallRecord Json Float → Json
  llm_input r = json.object (
      ("model", json.string r.request.model)
      ∷ ("system_prompt", optional json.string r.request.system_prompt)
      ∷ ("messages", json.array (map message_json r.request.messages))
      ∷ ("temperature", optional json.float r.request.temperature)
      ∷ ("max_tokens", optional json.number r.request.max_tokens)
      ∷ [])

  abbrev llm_metadata : LlmCallRecord Json Float → Json
  llm_metadata r = json.object (
      ("case_key", json.string r.case_key)
      ∷ ("step_name", optional json.string r.step_name)
      ∷ ("model", json.string r.model)
      ∷ ("duration_ms", json.number r.duration_ms)
      ∷ ("usage", optional usage_json r.usage)
      ∷ [])

  abbrev has_answer : LlmCallRecord Json Float → Bool
  has_answer r = is_some r.response_content && not (is_some r.error)

  abbrev llm_entry : LlmCallRecord Json Float → DatasetEntry Json
  llm_entry r = record {
    input = llm_input r;
    output = json.object (("content", optional json.string r.response_content) ∷ []);
    metadata = llm_metadata r;
  }

  unfoldable pub llm_dataset : List (LlmCallRecord Json Float) → List (DatasetEntry Json)
  llm_dataset [] = []
  llm_dataset (r ∷ records) =
      let rest = llm_dataset records in if has_answer r then llm_entry r ∷ rest else rest
