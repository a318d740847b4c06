-- ===== src/OpenAi/Sse/Assembled.antt =====
-- crates/workflow_engine_llm_openai/src/sse.rs: the events of a whole body, told from its chunks
-- without a buffer.
use Prim.Native.String
use text.Mathlib.TextLemmas
use mathlib.Core.List.{append_assoc}
use tianshu_rs.Base.{
  ℕ, zero, suc, String, Bool, true, false, Option, none, some, List, [], ◌∷◌, ◌++◌, if◌then◌else◌,
  format, ◌≡◌, refl, sym, ◌∙◌, ap, arith, map,
}
use tianshu_rs.Base.HashMap
use tianshu_rs.Llm.{LlmStreamEvent}
use tianshu_rs.Base.Parse.{lines, trim}
use tianshu_rs.OpenAi.Sse.{
  SseChunk, text_delta, finish_reason, tool_call_start, tool_call_args_delta, usage, done,
  StreamResponse, parse_sse_chunk, ToolCallBuf, push_args, pending_calls, text_event, usage_events,
  collect, collect_events_from_sse,
}

-- the chunks before the first `Done`
abbrev pub before_done : List (Option SseChunk) → List SseChunk
before_done [] = []
before_done (none ∷ cs) = before_done cs
before_done (some done ∷ cs) = []
before_done (some c ∷ cs) = c ∷ before_done cs

abbrev pub has_done : List (Option SseChunk) → Bool
has_done [] = false
has_done (some done ∷ cs) = true
has_done (_ ∷ cs) = has_done cs

abbrev pub texts : List SseChunk → List LlmStreamEvent
texts [] = []
texts (text_delta s ∷ cs) = text_event s ++ texts cs
texts (_ ∷ cs) = texts cs

-- the arguments for the call of index 0, joined
abbrev pub arguments : List SseChunk → String
arguments [] = ""
arguments (tool_call_args_delta zero args ∷ cs) = String.◌++◌ args (arguments cs)
arguments (_ ∷ cs) = arguments cs

abbrev pub tool_use_event : String → String → String → LlmStreamEvent
tool_use_event id name args =
    LlmStreamEvent.tool_use (record { id = id; name = name; arguments = args })

-- the first call that is started, with the arguments that come after its start
abbrev pub first_call : List SseChunk → List LlmStreamEvent
first_call [] = []
first_call (tool_call_start id name ∷ cs) = tool_use_event id name (arguments cs) ∷ []
first_call (_ ∷ cs) = first_call cs

abbrev pub last_usage : Option (ℕ × ℕ) → List SseChunk → Option (ℕ × ℕ)
last_usage u [] = u
last_usage u (usage prompt completion ∷ cs) = last_usage (some (prompt, completion)) cs
last_usage u (_ ∷ cs) = last_usage u cs

abbrev stop : LlmStreamEvent
stop = LlmStreamEvent.done "stop"

abbrev pub closing : Bool → List LlmStreamEvent → Option (ℕ × ℕ) → List LlmStreamEvent
closing ended calls u = if ended then calls ++ usage_events u ++ stop ∷ [] else []

abbrev pub one_call : String → String → String → ToolCallBuf
one_call id name args = (0, (id, name, args)) ∷ []

pub pending_calls-one_call :
    (id name args : String)
    → pending_calls (one_call id name args) ≡ tool_use_event id name args ∷ []
unfolding pending_calls HashMap.get HashMap.remove
pending_calls-one_call id name args = refl

pub push_args-one_call :
    (n : ℕ) (args id name x : String)
    → push_args (suc n) args (one_call id name x) ≡ one_call id name x
unfolding HashMap.alter
push_args-one_call n args id name x = ground arith

collect-one_call :
    (cs : List (Option SseChunk)) (id name x : String) (u : Option (ℕ × ℕ))
    → collect cs (one_call id name x) u
      ≡ texts (before_done cs)
        ++ closing
            (has_done cs)
            (tool_use_event id name (String.◌++◌ x (arguments (before_done cs))) ∷ [])
            (last_usage u (before_done cs))
unfolding collect HashMap.get HashMap.insert HashMap.alter
collect-one_call [] id name x u = refl
collect-one_call (none ∷ cs) id name x u = collect-one_call cs id name x u
collect-one_call (some (text_delta s) ∷ cs) id name x u =
    ap (text_event s ++◌) (collect-one_call cs id name x u)
    ∙ sym (append_assoc (text_event s) (texts (before_done cs)) _)
collect-one_call (some (finish_reason r) ∷ cs) id name x u = collect-one_call cs id name x u
collect-one_call (some (tool_call_start i n) ∷ cs) id name x u = collect-one_call cs id name x u
collect-one_call (some (tool_call_args_delta zero args) ∷ cs) id name x u =
    collect-one_call cs id name (format (x ∷ args ∷ [])) u
    ∙ rw (TextLemmas.append_assoc x args (arguments (before_done cs))) refl
collect-one_call (some (tool_call_args_delta (suc n) args) ∷ cs) id name x u =
    ap (λ buf. collect cs buf u) (push_args-one_call n args id name x)
    ∙ collect-one_call cs id name x u
collect-one_call (some (usage p c) ∷ cs) id name x u = collect-one_call cs id name x (some (p, c))
collect-one_call (some done ∷ cs) id name x u =
    rw (pending_calls-one_call id name x) (rw (TextLemmas.append-nil x) refl)

collect-no_call :
    (cs : List (Option SseChunk)) (u : Option (ℕ × ℕ))
    → collect cs [] u
      ≡ texts (before_done cs)
        ++ closing (has_done cs) (first_call (before_done cs)) (last_usage u (before_done cs))
unfolding collect HashMap.get HashMap.insert HashMap.alter pending_calls
collect-no_call [] u = refl
collect-no_call (none ∷ cs) u = collect-no_call cs u
collect-no_call (some (text_delta s) ∷ cs) u =
    ap (text_event s ++◌) (collect-no_call cs u)
    ∙ sym (append_assoc (text_event s) (texts (before_done cs)) _)
collect-no_call (some (finish_reason r) ∷ cs) u = collect-no_call cs u
collect-no_call (some (tool_call_start id name) ∷ cs) u =
    collect-one_call cs id name "" u ∙ rw (TextLemmas.nil-append (arguments (before_done cs))) refl
collect-no_call (some (tool_call_args_delta n args) ∷ cs) u = collect-no_call cs u
collect-no_call (some (usage p c) ∷ cs) u = collect-no_call cs (some (p, c))
collect-no_call (some done ∷ cs) u = refl

-- the chunks of the lines of a body
abbrev pub chunks_of : (String → Option StreamResponse) → String → List (Option SseChunk)
chunks_of from_str body = map (λ line. parse_sse_chunk from_str (trim line)) (lines body)

-- The events of a body are the texts that are not empty, in order, up to the first `Done`. If there
-- is a `Done`, then come one tool call, the first that is started, with all the arguments of index
-- 0 that follow its start, the last usage, and the end; a second call is never among them. Without a
-- `Done` there are only the texts.
pub collect_events_from_sse-first_call :
    (from_str : String → Option StreamResponse) (body : String)
    → collect_events_from_sse from_str body
      ≡ texts (before_done (chunks_of from_str body))
        ++ closing
            (has_done (chunks_of from_str body))
            (first_call (before_done (chunks_of from_str body)))
            (last_usage none (before_done (chunks_of from_str body)))
unfolding collect_events_from_sse
collect_events_from_sse-first_call from_str body = collect-no_call (chunks_of from_str body) none
