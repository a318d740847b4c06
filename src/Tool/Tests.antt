-- ===== src/Tool/Tests.antt =====
-- Calls of tools at concrete inputs: one that reads, one that changes a counter, one that is unknown.
-- A value of `serde_json` is a text here.
use tianshu_rs.Base.{
  ℕ, zero, suc, ◌<◌, String, true, none, some, List, [], ◌∷◌, Result, ok, ◌≡◌, inl, inr, refl, ◌==◌,
  string_eq, eqb, if◌then◌else◌, arith, Bool-cases,
}
use tianshu_rs.Base.HashMap
use tianshu_rs.Llm.{ToolCall, LlmRequest, LlmResponse, LlmProvider}
use tianshu_rs.Context.{Serde}
use tianshu_rs.Tool.{
  Tool, ToolRegistry, read_only, exclusive, get, execute_with_concurrency, one_by_one,
}
use tianshu_rs.Tool.Tasks.{AreReadOnly, Has, RunsAll}
use tianshu_rs.Tool.Order.{execute_with_concurrency-one_by_one}
use tianshu_rs.Tool.Loop.{Rounds, ToolLoopResult, LoopState, run_tool_loop, default_config}
use tianshu_rs.Tool.Loop.Transcript.{IsOutcome, run_tool_loop-IsOutcome}

abbrev serde : Serde String
serde = record {
  null = "null";
  is_null = λ s. s == "null";
  to_string = λ s. ok s;
  from_str = λ s. ok s;
}

abbrev look : Tool String ℕ
look = record {
  name = "look";
  description = "reads";
  safety = read_only;
  parameters_schema = "{}";
  execute = λ args w. (ok args, w);
}

abbrev bump : Tool String ℕ
bump = record {
  name = "bump";
  description = "counts";
  safety = exclusive;
  parameters_schema = "{}";
  execute = λ args w. (ok "done", suc w);
}

abbrev tools : ToolRegistry String ℕ
tools = ("look", look) ∷ ("bump", bump) ∷ []

tools-AreReadOnly : AreReadOnly tools
unfolding get HashMap.get
tools-AreReadOnly name tool found safe args w = elim (Bool-cases ("look" == name)) [
  | inl p ↦ let same : look ≡ tool = ground (arith, rw p at found) in rw (← same) refl
  | inr p ↦ elim (Bool-cases ("bump" == name)) [
    | inl q ↦
        let same : bump ≡ tool = ground (arith, rw q at (rw p at found)) in
        absurd (ground (arith, rw (← same) at safe))
    | inr q ↦ absurd (ground (arith, rw q at (rw p at found)))
  ]
]

-- the tasks of a batch, the last first
abbrev down : ℕ → List ℕ
down zero = []
down (suc n) = n ∷ down n

Has-down : (n j : ℕ) → j < n → Has j (down n)
Has-down zero j h = absurd (omega (arith, h))
Has-down (suc n) j h = elim (Bool-cases (eqb n j)) [
  | inl p ↦ inl (ground (arith, p))
  | inr p ↦ inr (Has-down n j (ground (arith, p, h)))
]

abbrev last_first : ℕ → ℕ → List ℕ
last_first start size = down size

last_first-RunsAll : RunsAll last_first
last_first-RunsAll start size j h = Has-down size j h

abbrev call : String → String → ToolCall
call id name = record { id = id; name = name; arguments = "here" }

abbrev calls : List ToolCall
calls = call "1" "look" ∷ call "2" "look" ∷ call "3" "bump" ∷ call "4" "gone" ∷ []

execute_with_concurrency-one_by_one_example :
    execute_with_concurrency serde tools (λ i. i) 2 last_first calls 7
    ≡ some (one_by_one serde tools (λ i. i) 0 calls 7)
execute_with_concurrency-one_by_one_example =
    execute_with_concurrency-one_by_one serde tools (λ i. i) tools-AreReadOnly last_first 2 calls 7
      last_first-RunsAll (omega arith)

-- a model that calls the tools as long as the counter is 7
abbrev response : ℕ → LlmResponse
response w = record {
  content = "text";
  usage = record { prompt_tokens = 1; completion_tokens = 1 };
  finish_reason = "stop";
  tool_calls = if eqb w 7 then some calls else none;
}

abbrev llm : LlmProvider String ℕ ℕ
llm request w = (ok (response w), w)

abbrev request : LlmRequest String ℕ
request = record {
  model = "m";
  system_prompt = none;
  messages = [];
  temperature = none;
  max_tokens = none;
  tools = none;
}

abbrev time : Rounds
time = record { elapsed = λ n i. i; now = λ n i. n; schedule = λ n. last_first }

run_tool_loop-IsOutcome_example :
    (out : Result ToolLoopResult × LoopState String ℕ ℕ) × (run_tool_loop serde tools llm request
        default_config true time 7 []
      ≡ some out)
    × IsOutcome serde tools llm request default_config true time out
unfolding default_config
run_tool_loop-IsOutcome_example =
    run_tool_loop-IsOutcome serde tools llm request default_config true time tools-AreReadOnly
      (omega arith) (λ n. last_first-RunsAll) 7 []
