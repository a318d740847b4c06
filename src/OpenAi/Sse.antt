-- ===== src/OpenAi/Sse.antt =====
-- crates/workflow_engine_llm_openai/src/sse.rs: the lines of a stream of events, and the events of a
-- whole body. The reading of a line's JSON, which `serde_json` does, is a parameter.
pub mod Assembled
use tianshu_rs.Base.{
  ℕ, zero, suc, String, Bool, true, false, ◌||◌, Option, none, some, List, [], ◌∷◌, ◌++◌, ◌==◌,
  string_eq, nat_eq, leb, if◌then◌else◌, format, map,
}
use tianshu_rs.Base.HashMap
use tianshu_rs.Base.Sorting
use tianshu_rs.Base.HashMap.{HashMap}
use tianshu_rs.Llm.{LlmStreamEvent, LlmUsage, ToolCall}
use tianshu_rs.Base.Parse.{is_empty, lines, starts_with_colon, strip_prefix, trim}
use tianshu_rs.OpenAi.Provider.{or_zero}

pub data SseChunk : Type 0 where
  text_delta finish_reason : String → SseChunk
  tool_call_start : (id name : String) → SseChunk
  tool_call_args_delta : (index : ℕ) (args_delta : String) → SseChunk
  usage : (prompt_tokens completion_tokens : ℕ) → SseChunk
  done : SseChunk

pub record StreamFunctionChunk : Type 0 where
  pub name : Option String
  pub arguments : Option String

pub record StreamToolCallChunk : Type 0 where
  pub index : Option ℕ
  pub id : Option String
  pub call_type : Option String
  pub function : Option StreamFunctionChunk

pub record StreamDelta : Type 0 where
  pub content : Option String
  pub role : Option String
  pub tool_calls : Option (List StreamToolCallChunk)

pub record StreamChoice : Type 0 where
  pub delta : StreamDelta
  pub finish_reason : Option String

pub record StreamUsage : Type 0 where
  pub prompt_tokens : Option ℕ
  pub completion_tokens : Option ℕ

pub record StreamResponse : Type 0 where
  pub choices : Option (List StreamChoice)
  pub usage : Option StreamUsage

abbrev or_default : Option String → String
or_default none = ""
or_default (some s) = s

abbrev args_chunk : ℕ → Option String → Option SseChunk
args_chunk index none = none
args_chunk index (some args) = some (tool_call_args_delta index args)

abbrev function_chunk : StreamToolCallChunk → Option StreamFunctionChunk → Option SseChunk
function_chunk tc none = none
function_chunk tc (some func) =
    let args = args_chunk (or_zero tc.index) func.arguments in
    elim func.name [
      | none ↦ args
      | some name ↦ if is_empty name then args else some (tool_call_start (or_default tc.id) name)
    ]

abbrev tool_chunk : Option (List StreamToolCallChunk) → Option SseChunk
tool_chunk none = none
tool_chunk (some []) = none
tool_chunk (some (tc ∷ tool_calls)) = function_chunk tc tc.function

abbrev finish_chunk : Option String → Option SseChunk
finish_chunk none = none
finish_chunk (some reason) =
    if is_empty reason
    then none
    else if (reason == "stop") || (reason == "tool_calls")
    then some done
    else some (finish_reason reason)

-- the first of the chunks that there is
abbrev or_else : Option SseChunk → SseChunk → SseChunk
or_else none other = other
or_else (some chunk) other = chunk

abbrev pub choice_chunk : StreamChoice → SseChunk
choice_chunk choice =
    or_else (tool_chunk choice.delta.tool_calls)
      (or_else (finish_chunk choice.finish_reason) (text_delta (or_default choice.delta.content)))

abbrev usage_chunk : Option StreamUsage → Option SseChunk
usage_chunk none = none
usage_chunk (some u) = some (usage (or_zero u.prompt_tokens) (or_zero u.completion_tokens))

abbrev choices_chunk : Option (List StreamChoice) → Option StreamUsage → Option SseChunk
choices_chunk none u = usage_chunk u
choices_chunk (some []) u = usage_chunk u
choices_chunk (some (choice ∷ choices)) u = some (choice_chunk choice)

abbrev response_chunk : Option StreamResponse → Option SseChunk
response_chunk none = none
response_chunk (some resp) = choices_chunk resp.choices resp.usage

abbrev data_chunk : (String → Option StreamResponse) → Option String → Option SseChunk
data_chunk from_str none = none
data_chunk from_str (some data_line) =
    if data_line == "[DONE]" then some done else response_chunk (from_str data_line)

-- `from_str` is `serde_json`: the response that a text holds, if it holds one
unfoldable pub parse_sse_chunk :
    (from_str : String → Option StreamResponse) → String → Option SseChunk
parse_sse_chunk from_str line =
    if is_empty line || starts_with_colon line
    then none
    else data_chunk from_str (strip_prefix "data: " line)

-- by index: the id, the name and the arguments so far
abbrev pub ToolCallBuf : Type 0
ToolCallBuf = HashMap ℕ (String × String × String)

abbrev insert_vacant :
    Option (String × String × String) → String → String → ToolCallBuf → ToolCallBuf
insert_vacant none id name buf = HashMap.insert buf 0 (id, name, "")
insert_vacant (some call) id name buf = buf

-- `entry(0).or_insert((id, name, String::new()))`
abbrev pub start_call : String → String → ToolCallBuf → ToolCallBuf
start_call id name buf = insert_vacant (HashMap.get buf 0) id name buf

-- `if let Some(entry) = buf.get_mut(&index) { entry.2.push_str(&args_delta); }`
abbrev pub push_args : ℕ → String → ToolCallBuf → ToolCallBuf
push_args index args_delta buf =
    HashMap.alter buf index (λ call. (call.0, call.1, format (call.2 ∷ args_delta ∷ [])))

abbrev tool_use_of : Option (String × String × String) → List LlmStreamEvent
tool_use_of none = []
tool_use_of (some (id, name, args)) =
    LlmStreamEvent.tool_use (record { id = id; name = name; arguments = args }) ∷ []

-- `for idx in tool_indices { if let Some(…) = buf.remove(&idx) { … } }`
unfoldable removed : List ℕ → ToolCallBuf → List LlmStreamEvent
removed [] buf = []
removed (idx ∷ indices) buf =
    tool_use_of (HashMap.get buf idx) ++ removed indices (HashMap.remove buf idx)

unfoldable pub pending_calls : ToolCallBuf → List LlmStreamEvent
unfolding Sorting.sort removed
pending_calls buf = removed (Sorting.sort (HashMap.keys buf)) buf

abbrev pub text_event : String → List LlmStreamEvent
text_event s = if is_empty s then [] else LlmStreamEvent.text_delta s ∷ []

abbrev pub usage_event : ℕ → ℕ → LlmStreamEvent
usage_event prompt completion =
    LlmStreamEvent.usage (record { prompt_tokens = prompt; completion_tokens = completion })

abbrev pub usage_events : Option (ℕ × ℕ) → List LlmStreamEvent
usage_events none = []
usage_events (some (prompt, completion)) = usage_event prompt completion ∷ []

-- the events of the chunks: those that are pushed before the rest of the body is read, then its own
unfoldable pub collect : List (Option SseChunk) → ToolCallBuf → Option (ℕ × ℕ) → List LlmStreamEvent
collect [] buf usage_record = []
collect (none ∷ chunks) buf usage_record = collect chunks buf usage_record
collect (some (text_delta s) ∷ chunks) buf usage_record =
    text_event s ++ collect chunks buf usage_record
collect (some (finish_reason reason) ∷ chunks) buf usage_record = collect chunks buf usage_record
collect (some (tool_call_start id name) ∷ chunks) buf usage_record =
    collect chunks (start_call id name buf) usage_record
collect (some (tool_call_args_delta index args) ∷ chunks) buf usage_record =
    collect chunks (push_args index args buf) usage_record
collect (some (usage prompt completion) ∷ chunks) buf usage_record =
    collect chunks buf (some (prompt, completion))
collect (some done ∷ chunks) buf usage_record =
    pending_calls buf ++ usage_events usage_record ++ LlmStreamEvent.done "stop" ∷ []

unfoldable pub collect_events_from_sse :
    (from_str : String → Option StreamResponse) → String → List LlmStreamEvent
unfolding collect parse_sse_chunk
collect_events_from_sse from_str sse_body =
    collect (map (λ line. parse_sse_chunk from_str (trim line)) (lines sse_body)) [] none
