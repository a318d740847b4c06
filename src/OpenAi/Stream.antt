-- ===== src/OpenAi/Stream.antt =====
-- crates/workflow_engine_llm_openai/src/streaming.rs: the provider that answers by a stream of events.
-- `Http` stands for `reqwest`, `tools_value` for `serde_json`, `lossy` for `String::from_utf8_lossy`.
pub mod Delivered
pub mod Received
pub mod Closed
use Prim.Native.String
use tianshu_rs.Base.{
  ℕ, zero, suc, String, Bool, true, false, Option, none, some, List, [], ◌∷◌, ◌++◌, map, Result, ok,
  err, Error, anyhow, if◌then◌else◌, format, decimal,
}
use tianshu_rs.Llm.{LlmMessage, LlmRequest, LlmTool, LlmStreamEvent, ToolCall}
use tianshu_rs.Base.Parse.{is_empty, take_lines, trim}
use tianshu_rs.OpenAi.Provider.{OpenAiProvider, HttpRequest, posted, is_failure, or_empty}
use tianshu_rs.OpenAi.Sse.{
  SseChunk, text_delta, finish_reason, tool_call_start, tool_call_args_delta, usage, done,
  StreamResponse, parse_sse_chunk, ToolCallBuf, start_call, push_args, pending_calls, usage_event,
}

-- The sender of a channel: what the receiver got, and how much more it takes before it is dropped.
pub record Sender : Type 0 where
  pub received : List LlmStreamEvent
  pub room : ℕ

abbrev pub send_in : ℕ → Sender → LlmStreamEvent → Bool × Sender
send_in zero tx e = (false, tx)
send_in (suc room) tx e = (true, record { received = tx.received ++ e ∷ []; room = room })

-- whether the event was taken
abbrev pub send : Sender → LlmStreamEvent → Bool × Sender
send tx e = send_in tx.room tx e

-- `let _ = tx.send(…).await`, for each of the events
abbrev pub send_all : Sender → List LlmStreamEvent → Sender
send_all tx [] = tx
send_all tx (e ∷ es) = send_all (send tx e).1 es

abbrev pub stop : LlmStreamEvent
stop = LlmStreamEvent.done "stop"

-- what a line leads to: the next line, or the end of the call
pub data Flow : Type 0 where
  going : ToolCallBuf → Sender → Flow
  returned : Sender → Flow

abbrev sent_text : ToolCallBuf → Bool × Sender → Flow
sent_text acc (true, tx) = going acc tx
sent_text acc (false, tx) = returned tx

abbrev pub handle : Option SseChunk → ToolCallBuf → Sender → Flow
handle none acc tx = going acc tx
handle (some (text_delta s)) acc tx =
    if is_empty s then going acc tx else sent_text acc (send tx (LlmStreamEvent.text_delta s))
handle (some (tool_call_start id name)) acc tx = going (start_call id name acc) tx
handle (some (tool_call_args_delta index args)) acc tx = going (push_args index args acc) tx
handle (some (usage prompt completion)) acc tx =
    going acc (send tx (usage_event prompt completion)).1
handle (some (finish_reason reason)) acc tx = going acc tx
handle (some done) acc tx = returned (send_all tx (pending_calls acc ++ stop ∷ []))

-- `while let Some(newline_pos) = buf.find('\n') { … }`
unfoldable pub handle_lines : List (Option SseChunk) → ToolCallBuf → Sender → Flow
handle_lines [] acc tx = going acc tx
handle_lines (c ∷ cs) acc tx = elim (handle c acc tx) [
  | going acc' tx' ↦ handle_lines cs acc' tx'
  | returned tx' ↦ returned tx'
]

pub record StreamMessage : Type 0 where
  pub role : String
  pub content : String
  pub tool_calls : Option (List ToolCall)
  pub tool_call_id : Option String

pub record StreamRequest (Json Float : Type 0) : Type 0 where
  pub model : String
  pub stream : Bool
  pub messages : List StreamMessage
  pub temperature : Option Float
  pub max_tokens : Option ℕ
  pub tools : Option Json

pub record StreamAnswer (Bytes : Type 0) : Type 0 where
  pub status : ℕ
  pub text : Result String
  pub pieces : List (Result Bytes)

abbrev stream_system : Option String → List StreamMessage
stream_system none = []
stream_system (some sys) =
    record { role = "system"; content = sys; tool_calls = none; tool_call_id = none } ∷ []

abbrev stream_message : LlmMessage → StreamMessage
stream_message m = record {
  role = m.role;
  content = m.content;
  tool_calls = m.tool_calls;
  tool_call_id = m.tool_call_id;
}

module _ {Json Float : Type 0} where
  abbrev pub build_wire_messages : LlmRequest Json Float → List StreamMessage
  build_wire_messages request =
      stream_system request.system_prompt ++ map stream_message request.messages

module _ {Json : Type 0} (tools_value : List (LlmTool Json) → Result Json) where
  abbrev with_tools : Option (List (LlmTool Json)) → Result (Option Json)
  with_tools none = ok none
  with_tools (some tools) = elim (tools_value tools) [ ok v ↦ ok (some v) | err e ↦ err e ]

module _ {Json Float : Type 0} (tools_value : List (LlmTool Json) → Result Json) where
  abbrev pub stream_body : LlmRequest Json Float → Result (StreamRequest Json Float)
  stream_body request = elim (with_tools tools_value request.tools) [
    | err e ↦ err e
    | ok tools ↦ ok (record {
      model = request.model;
      stream = true;
      messages = build_wire_messages request;
      temperature = request.temperature;
      max_tokens = request.max_tokens;
      tools = tools;
    })
  ]

module _ {Bytes : Type 0} (lossy : Bytes → String) (from_str : String → Option StreamResponse) where
  abbrev pub line_chunks : List String → List (Option SseChunk)
  line_chunks = map (λ line. parse_sse_chunk from_str (trim line))

  -- the pieces of the body in turn, with the text whose line has not ended
  unfoldable pub read :
      List (Result Bytes) → (buf : String) → ToolCallBuf → Sender → Result (Unit {0}) × Sender
  unfolding take_lines handle_lines
  read [] buf acc tx = (ok tt, send_all tx (pending_calls acc ++ stop ∷ []))
  read (err e ∷ pieces) buf acc tx = (err e, (send tx (LlmStreamEvent.error e.message)).1)
  read (ok bytes ∷ pieces) buf acc tx =
      let (ended, rest) = take_lines (String.◌++◌ buf (lossy bytes)) in
      elim (handle_lines (line_chunks ended) acc tx) [
        | going acc' tx' ↦ read pieces rest acc' tx'
        | returned tx' ↦ (ok tt, tx')
      ]

module _ {Json Float Bytes W : Type 0} (p : OpenAiProvider)
    (tools_value : List (LlmTool Json) → Result Json) (lossy : Bytes → String)
    (from_str : String → Option StreamResponse)
    (http : HttpRequest (StreamRequest Json Float) → W → Result (StreamAnswer Bytes) × W) where
  abbrev pub refusal : StreamAnswer Bytes → String
  refusal answer =
      format ("LLM API HTTP " ∷ decimal answer.status ∷ ": " ∷ or_empty answer.text ∷ [])

  abbrev pub read_answer : Result (StreamAnswer Bytes) → Sender → Result (Unit {0}) × Sender
  read_answer (err e) tx = (err e, tx)
  read_answer (ok answer) tx =
      if is_failure answer.status
      then (anyhow (refusal answer), (send tx (LlmStreamEvent.error (refusal answer))).1)
      else read lossy from_str answer.pieces "" [] tx

  unfoldable pub stream : LlmRequest Json Float → Sender → W → Result (Unit {0}) × Sender × W
  stream request tx w = elim (stream_body tools_value request) [
    | err e ↦ (err e, tx, w)
    | ok body ↦
        let (sent, w') = http (posted p body) w in
        let (result, tx') = read_answer sent tx in (result, tx', w')
  ]
