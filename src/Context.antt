-- ===== src/Context.antt =====
-- crates/workflow_engine/src/context.rs: the state of a `WorkflowContext` and its keys. The stores
-- are shared by the contexts of a session; here a context holds their contents, and a method
-- returns the new contents. An operation that reads the clock is given its readings.
pub mod Checkpoint
pub mod Step
pub mod Variables
pub mod Children
pub mod Finish
pub mod ToolStep
pub mod Managed
mod Tests
use tianshu_rs.Base.{
  ℕ, String, Bool, true, false, Option, none, List, [], ◌∷◌, ◌++◌, Result, ok, ◌≡◌, format,
  if◌then◌else◌,
}
use tianshu_rs.Base.HashMap.{HashMap}
use tianshu_rs.Case.{Case}
use tianshu_rs.Observe.{StepRecord, Event}

-- What the engine calls of `serde_json`.
pub record Serde (Json : Type 0) : Type 0 where
  pub null : Json
  pub is_null : Json → Bool
  pub to_string : Json → Result String
  pub from_str : String → Result Json

-- A value that prints is read back, `null` is null, and it prints.
pub record IsSerde {Json : Type 0} (serde : Serde Json) : Type 0 where
  pub from_str-to_string :
      (v : Json) (t : String) → serde.to_string v ≡ ok t → serde.from_str t ≡ ok v
  pub null_is_null : serde.is_null serde.null ≡ true
  pub null_text : String
  pub null_prints : serde.to_string serde.null ≡ ok null_text

-- The `Serialize` and `DeserializeOwned` instances of a step's or a variable's type.
pub record Codec (Json T : Type 0) : Type 0 where
  pub to_value : T → Result Json
  pub from_value : Json → Result T

-- What is written as a value is read back from it.
pub record IsCodec {Json T : Type 0} (codec : Codec Json T) : Type 0 where
  pub from_value-to_value : (t : T) (v : Json) → codec.to_value t ≡ ok v → codec.from_value v ≡ ok t

-- `observed` says whether an observer is attached, and `events` are the calls made on it.
pub record WorkflowContext (Json Float C S : Type 0) : Type 0 where
  pub case : Case Json
  pub checkpoint_cache : HashMap String Json
  pub case_store : C
  pub state_store : S
  pub observed : Bool
  pub events : List (Event Json Float)
  pub step_records : List (StepRecord Json)
  pub initial_resource_data : Option Json

unfoldable pub checkpoint_step_key : String → String
checkpoint_step_key step_name = format ("wf_" ∷ step_name ∷ [])

unfoldable pub state_step_key : String → String
state_step_key name = format ("wf_state_" ∷ name ∷ [])

unfoldable pub session_state_step_key : String → String
session_state_step_key name = format ("wf_sess_state_" ∷ name ∷ [])

unfoldable pub cache_key : (case_key step_key : String) → String
cache_key case_key step_key = format (case_key ∷ ":" ∷ step_key ∷ [])

unfoldable pub session_cache_key : (session_id step_key : String) → String
session_cache_key session_id step_key = format ("session:" ∷ session_id ∷ ":" ∷ step_key ∷ [])

module _ {Json Float C S : Type 0} where
  unfoldable pub new : Case Json → C → S → WorkflowContext Json Float C S
  new case case_store state_store = record {
    case = case;
    checkpoint_cache = [];
    case_store = case_store;
    state_store = state_store;
    observed = false;
    events = [];
    step_records = [];
    initial_resource_data = case.resource_data;
  }

  unfoldable pub set_observer : WorkflowContext Json Float C S → WorkflowContext Json Float C S
  set_observer c = record c { observed = true }

  -- `if let Some(obs) = &self.observer { obs.method(…) }`
  abbrev pub emit :
      Event Json Float → WorkflowContext Json Float C S → WorkflowContext Json Float C S
  emit e c = if c.observed then record c { events = c.events ++ e ∷ [] } else c
