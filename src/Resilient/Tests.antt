-- ===== src/Resilient/Tests.antt =====
-- A provider with two fallbacks at concrete inputs. The state counts the calls, and the policy
-- reads the class of an error off its message.
use tianshu_rs.Base.{
  ℕ, ◌+◌, ◌*◌, ◌^◌, String, none, some, List, [], ◌∷◌, ok, err, Error, ◌≡◌, refl, if◌then◌else◌,
  ◌==◌, string_eq,
}
use tianshu_rs.Llm.{LlmRequest, LlmResponse, LlmProvider}
use tianshu_rs.Retry.{
  ErrorClass, transient, provider_overloaded, max_output_tokens, with_retry, retry_from,
}
use tianshu_rs.Resilient.{ResilientLlmProvider, attempt, complete}
use tianshu_rs.Resilient.Fallbacks.{no_more, one_more, complete_from_fallback}

abbrev Provider : Type 0
Provider = LlmProvider ℕ ℕ ℕ

abbrev classify : Error → ErrorClass
classify e =
    if e.message == "529"
    then provider_overloaded
    else if e.message == "length"
    then max_output_tokens
    else transient

abbrev fails : String → Provider
fails message request w = (err (record { message = message }), w + 1)

abbrev response : String → LlmResponse
response text = record {
  content = text;
  usage = record { prompt_tokens = 4; completion_tokens = 2 };
  finish_reason = "stop";
  tool_calls = none;
}

abbrev says : String → Provider
says text request w = (ok (response text), w + 1)

abbrev provider : ℕ → Provider → List Provider → ResilientLlmProvider ℕ ℕ ℕ
provider attempts primary fallbacks = record {
  primary = primary;
  fallbacks = fallbacks;
  retry_policy = record {
    max_attempts = attempts;
    base_delay = 100;
    max_delay = 2_000;
    backoff_factor = 2;
    classify = classify;
  };
  on_prompt_too_long = none;
}

abbrev scale : ℕ → ℕ → ℕ → ℕ
scale base factor n = base * factor ^ n

abbrev request : LlmRequest ℕ ℕ
request = record {
  model = "m";
  system_prompt = none;
  messages = [];
  temperature = none;
  max_tokens = some 100_000;
  tools = none;
}

abbrev overload : Error
overload = record { message = "529" }

complete_from_fallback_example :
    complete scale (provider 1 (fails "529") (fails "500" ∷ says "hello" ∷ [])) request 0
    ≡ (ok (response "hello"), 3)
unfolding with_retry retry_from attempt
complete_from_fallback_example =
    complete_from_fallback scale (provider 1 (fails "529") (fails "500" ∷ says "hello" ∷ []))
      request 0 overload (fails "500" ∷ []) [] (says "hello") (response "hello") 2 3 refl refl refl
      (one_more (record { message = "500" }) refl no_more) refl
