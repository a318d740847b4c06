-- ===== src/OpenAi/Tests.antt =====
-- The provider at concrete answers. A text is JSON of a kind for the parser `from_str` here.
use tianshu_rs.Base.{
  ℕ, suc, String, true, Option, none, some, List, [], ◌∷◌, ◌++◌, Result, ok, ◌≡◌, refl, ◌==◌,
  string_eq, take, map, Error, err, ◌⊎◌,
}
use tianshu_rs.Llm.{LlmRequest, LlmTool}
use tianshu_rs.Context.{Serde}
use tianshu_rs.Tool.{ToolRegistry}
use tianshu_rs.Tool.Loop.{Rounds, run_tool_loop, default_config}
use tianshu_rs.OpenAi.Provider.{OpenAiProvider, Http, WireRequest, complete, HttpRequest}
use tianshu_rs.OpenAi.Provider.NoTools.{at_once, run_tool_loop_asks_once}
use tianshu_rs.OpenAi.Sse.{StreamResponse, collect_events_from_sse}
use tianshu_rs.OpenAi.Sse.Assembled.{
  texts, before_done, has_done, closing, first_call, last_usage, chunks_of,
  collect_events_from_sse-first_call,
}
use tianshu_rs.OpenAi.Stream.{Sender, StreamRequest, StreamAnswer, stream}
use tianshu_rs.OpenAi.Stream.Delivered.{text_of, ended_chunks}
use tianshu_rs.OpenAi.Stream.Received.{IsAnswered, streamed, stream-streamed}
use tianshu_rs.OpenAi.Stream.Closed.{IsClosed, stream-IsLeft}

abbrev provider : OpenAiProvider
provider = record { api_key = "key"; model = "m"; base_url = "http://localhost"; client = 120 }

abbrev serde : Serde String
serde = record {
  null = "null";
  is_null = λ s. s == "null";
  to_string = λ s. ok s;
  from_str = λ s. ok s;
}

abbrev request : LlmRequest String ℕ
request = record {
  model = "m";
  system_prompt = none;
  messages = [];
  temperature = none;
  max_tokens = none;
  tools = none;
}

-- a server that answers "text"
abbrev http : Http (WireRequest ℕ) ℕ
http posted w = (
  ok (record {
    status = 200;
    text = ok "";
    json = ok (record {
      choices =
          some (record { message = record { content = some "text" }; finish_reason = none } ∷ []);
      usage = none;
    });
  }),
  suc w,
)

abbrev tools : ToolRegistry String ℕ
tools = []

abbrev time : Rounds
time = record { elapsed = λ n i. i; now = λ n i. n; schedule = λ n start size. [] }

run_tool_loop_asks_once_example :
    run_tool_loop serde tools (complete provider http) request default_config true time 4 []
    ≡ some (at_once serde provider http request [] (complete provider http request 4))
unfolding default_config
run_tool_loop_asks_once_example =
    run_tool_loop_asks_once serde provider http request [] tools default_config true time 9 4 refl

-- a line that is a word is a piece of text
abbrev from_str : String → Option StreamResponse
from_str s = some (record {
  choices = some (
      record {
        delta = record { content = some s; role = none; tool_calls = none };
        finish_reason = none;
      }
      ∷ []);
  usage = none;
})

abbrev body : String
body = "data: a\n\ndata: b\ndata: [DONE]\n"

collect_events_from_sse-first_call_example :
    collect_events_from_sse from_str body
    ≡ texts (before_done (chunks_of from_str body))
      ++ closing
          (has_done (chunks_of from_str body))
          (first_call (before_done (chunks_of from_str body)))
          (last_usage none (before_done (chunks_of from_str body)))
collect_events_from_sse-first_call_example = collect_events_from_sse-first_call from_str body

abbrev tools_value : List (LlmTool String) → Result String
tools_value ts = ok "[]"

abbrev lossy : String → String
lossy s = s

abbrev pieces : List String
pieces = "data: a\n\nda" ∷ "ta: b\ndata: [DO" ∷ "NE]\n" ∷ []

abbrev server : (HttpRequest (StreamRequest String ℕ)) → ℕ → Result (StreamAnswer String) × ℕ
server posted w = (ok (record { status = 200; text = ok ""; pieces = map ok pieces }), suc w)

request-IsAnswered : IsAnswered provider tools_value lossy from_str server request 4 5 pieces
request-IsAnswered = record {
  body = record {
    model = "m";
    stream = true;
    messages = [];
    temperature = none;
    max_tokens = none;
    tools = none;
  };
  status = 200;
  text = ok "";
  written = refl;
  answered = refl;
  succeeded = refl;
}

-- a receiver that takes nine events
abbrev sender : Sender
sender = record { received = []; room = 9 }

stream-streamed_example :
    let (result, tx', after) = stream provider tools_value lossy from_str server request sender 4 in
    (result ≡ ok tt)
    × (tx'.received
        ≡ [] ++ take 9 (streamed (ended_chunks lossy from_str (text_of lossy from_str pieces))))
    × (after ≡ 5)
stream-streamed_example =
    stream-streamed provider tools_value lossy from_str server request sender 4 5 pieces
      request-IsAnswered

stream-IsLeft_example :
    let r = stream provider tools_value lossy from_str server request sender 4 in
    ((e : Error) × (r.0 ≡ err e) × (r.1 ≡ sender)) ⊎ IsClosed r.1
stream-IsLeft_example = stream-IsLeft provider tools_value lossy from_str server request sender 4
