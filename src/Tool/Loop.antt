-- ===== src/Tool/Loop.antt =====
-- crates/workflow_engine/src/tool_loop.rs. The provider and the tools change the same state `W`. A
-- round reads the clock for the durations and the times of its calls. The loop is counted by the
-- rounds that are left; `none` is a batch of calls that never ends.
pub mod Transcript
use tianshu_rs.Base.{
  ℕ, zero, suc, ◌+◌, String, Bool, true, false, Option, none, some, List, [], ◌∷◌, ◌++◌, Result, ok,
  err, Error, if◌then◌else◌, format, decimal, length, map, is_empty,
}
use tianshu_rs.Llm.{LlmMessage, LlmRequest, LlmResponse, LlmProvider, ToolCall, ToolResult}
use tianshu_rs.Observe.{Event, on_tool_call, ToolCallRecord}
use tianshu_rs.Context.{Serde}
use tianshu_rs.Tool.{ToolRegistry, to_llm_tools, execute_with_concurrency}

pub record ToolLoopConfig : Type 0 where
  pub max_rounds : ℕ
  pub max_concurrency : ℕ

unfoldable pub default_config : ToolLoopConfig
default_config = record { max_rounds = 10; max_concurrency = 5 }

pub record ToolLoopResult : Type 0 where
  pub final_text : String
  pub messages : List LlmMessage
  pub rounds : ℕ
  pub total_tool_calls : ℕ

-- the local variables of the loop, and what it changes
pub record LoopState (Json Float W : Type 0) : Type 0 where
  pub messages : List LlmMessage
  pub rounds : ℕ
  pub total_tool_calls : ℕ
  pub world : W
  pub events : List (Event Json Float)

-- by round: the duration and the time of a call, and the order in which the tasks of a batch run
pub record Rounds : Type 0 where
  pub elapsed : ℕ → ℕ → ℕ
  pub now : ℕ → ℕ → ℕ
  pub schedule : ℕ → ℕ → ℕ → List ℕ

abbrev pub assistant : String → Option (List ToolCall) → LlmMessage
assistant content calls = record {
  role = "assistant";
  content = content;
  tool_calls = calls;
  tool_call_id = none;
}

abbrev pub reply : ToolResult × ℕ → LlmMessage
reply (result, duration_ms) = record {
  role = "tool";
  content = result.content;
  tool_calls = none;
  tool_call_id = some result.call_id;
}

abbrev pub or_no_calls : Option (List ToolCall) → List ToolCall
or_no_calls none = []
or_no_calls (some calls) = calls

abbrev or_null : {Json : Type 0} → Serde Json → Result Json → Json
or_null serde (ok v) = v
or_null serde (err e) = serde.null

module _ {Json Float : Type 0} (serde : Serde Json) where
  -- one event for a call, with its result and its duration
  unfoldable pub tool_events :
      (now : ℕ → ℕ) (idx : ℕ) → List ToolCall → List (ToolResult × ℕ) → List (Event Json Float)
  tool_events now idx [] results = []
  tool_events now idx (c ∷ calls) [] = []
  tool_events now idx (c ∷ calls) ((result, duration_ms) ∷ results) =
      on_tool_call (record {
        case_key = "";
        step_name = none;
        tool_name = c.name;
        call_id = c.id;
        input = or_null serde (serde.from_str c.arguments);
        output = some result.content;
        is_error = result.is_error;
        duration_ms = duration_ms;
        timestamp = now idx;
      })
      ∷ tool_events now (idx + 1) calls results

module _ {Json Float W : Type 0} (serde : Serde Json) (tools : ToolRegistry Json W)
    (llm : LlmProvider Json Float W) (request : LlmRequest Json Float) (config : ToolLoopConfig)
    (observed : Bool) (time : Rounds) where
  abbrev pub next_request : List LlmMessage → LlmRequest Json Float
  next_request messages = record request { messages = messages; tools = some (to_llm_tools tools) }

  abbrev pub exceeded : Error
  exceeded = record {
    message = format ("tool loop exceeded max_rounds=" ∷ decimal config.max_rounds ∷ []);
  }

  abbrev Looped : Type 0
  Looped = Option (Result ToolLoopResult × LoopState Json Float W)

  abbrev pub answered : LlmResponse → W → LoopState Json Float W → LoopState Json Float W
  answered response w s = record s {
    messages = s.messages ++ assistant response.content response.tool_calls ∷ [];
    rounds = s.rounds + 1;
    world = w;
  }

  abbrev pub returned : LlmResponse → LoopState Json Float W → ToolLoopResult
  returned response s = record {
    final_text = response.content;
    messages = s.messages;
    rounds = s.rounds;
    total_tool_calls = s.total_tool_calls;
  }

  -- the state after the calls of a round, where `s` is the state after the answer
  abbrev pub called :
      List ToolCall → List (ToolResult × ℕ) → W → LoopState Json Float W → LoopState Json Float W
  called calls results w s = record s {
    messages = s.messages ++ map reply results;
    total_tool_calls = s.total_tool_calls + length calls;
    world = w;
    events =
        if observed
        then s.events ++ tool_events serde (time.now s.rounds) 0 calls results
        else s.events;
  }

  unfoldable pub loop : (rounds_left : ℕ) → LoopState Json Float W → Looped
  loop zero s = some (err exceeded, s)
  loop (suc rounds_left) s =
      let (r, w) = llm (next_request s.messages) s.world in
      elim r [
        | err e ↦ some (err e, record s { world = w })
        | ok response ↦
            let t = answered response w s in
            let calls = or_no_calls response.tool_calls in
            elim (is_empty calls) [
              | true ↦ some (ok (returned response t), t)
              | false ↦
                  elim (execute_with_concurrency serde tools (time.elapsed t.rounds)
                    config.max_concurrency (time.schedule t.rounds) calls w) [
                      | none ↦ none
                      | some (results, w') ↦ loop rounds_left (called calls results w' t)
                    ]
            ]
      ]

  abbrev pub started : W → List (Event Json Float) → LoopState Json Float W
  started w events = record {
    messages = request.messages;
    rounds = 0;
    total_tool_calls = 0;
    world = w;
    events = events;
  }

  unfoldable pub run_tool_loop :
      W → List (Event Json Float) → Option (Result ToolLoopResult × LoopState Json Float W)
  unfolding loop
  run_tool_loop w events = loop config.max_rounds (started w events)
