-- ===== src/Llm.antt =====
-- crates/workflow_engine/src/llm.rs: the messages exchanged with a model. `Json` is the type of
-- `serde_json` values, `Float` that of `f64`.
use tianshu_rs.Base.{ℕ, String, Bool, Option, List, Result}

pub record LlmTool (Json : Type 0) : Type 0 where
  pub name : String
  pub description : String
  pub parameters : Json

pub record ToolCall : Type 0 where
  pub id : String
  pub name : String
  pub arguments : String

pub record ToolResult : Type 0 where
  pub call_id : String
  pub content : String
  pub is_error : Bool

pub record LlmUsage : Type 0 where
  pub prompt_tokens : ℕ
  pub completion_tokens : ℕ

pub data LlmStreamEvent : Type 0 where
  text_delta : String → LlmStreamEvent
  tool_use : ToolCall → LlmStreamEvent
  usage : LlmUsage → LlmStreamEvent
  done : String → LlmStreamEvent
  error : String → LlmStreamEvent

pub record LlmMessage : Type 0 where
  pub role : String
  pub content : String
  pub tool_calls : Option (List ToolCall)
  pub tool_call_id : Option String

pub record LlmRequest (Json Float : Type 0) : Type 0 where
  pub model : String
  pub system_prompt : Option String
  pub messages : List LlmMessage
  pub temperature : Option Float
  pub max_tokens : Option ℕ
  pub tools : Option (List (LlmTool Json))

pub record LlmResponse : Type 0 where
  pub content : String
  pub usage : LlmUsage
  pub finish_reason : String
  pub tool_calls : Option (List ToolCall)

-- A provider answers a request; what else a call changes, its own state among it, is in `W`.
abbrev pub LlmProvider : Type 0 → Type 0 → Type 0 → Type 0
LlmProvider Json Float W = LlmRequest Json Float → W → Result LlmResponse × W
