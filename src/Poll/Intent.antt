-- ===== src/Poll/Intent.antt =====
-- crates/workflow_engine/src/poll.rs: `IntentRouterV2`. The model changes the state `W`.
use Prim.Native.Char.{code}
use tianshu_rs.Base.{
  ℕ, ◌+◌, String, Bool, true, false, ◌||◌, Option, none, some, List, [], ◌∷◌, Result, ok, err,
  format, decimal, eqb, if◌then◌else◌,
}
use tianshu_rs.Llm.{LlmRequest, LlmResponse, LlmProvider}
use tianshu_rs.Base.Parse.{trim}

pub record IntentRouterV2 (Json Float W : Type 0) : Type 0 where
  pub llm : LlmProvider Json Float W
  pub model : String

unfoldable starts_with : (text prefix : String) → Bool
starts_with text String.[] = true
starts_with String.[] (String.◌∷◌ p prefix) = false
starts_with (String.◌∷◌ c text) (String.◌∷◌ p prefix) =
    let rest = starts_with text prefix in if eqb (code c) (code p) then rest else false

-- `str::contains`
unfoldable pub contains : (text part : String) → Bool
unfolding starts_with
contains String.[] part = starts_with "" part
contains (String.◌∷◌ c text) part = starts_with (String.◌∷◌ c text) part || contains text part

-- `join("\n")`
unfoldable pub join_lines : List String → String
join_lines [] = ""
join_lines (s ∷ []) = s
join_lines (s ∷ t ∷ rest) = format (s ∷ "\n" ∷ join_lines (t ∷ rest) ∷ [])

-- the numbered intents, from the number `i` on
unfoldable pub numbered : ℕ → List (String × String) → List String
numbered i [] = []
numbered i ((name, desc) ∷ intents) =
    format (decimal i ∷ ". [" ∷ name ∷ "]: " ∷ desc ∷ []) ∷ numbered (i + 1) intents

unfoldable pub user_prompt : String → List (String × String) → String
unfolding join_lines numbered
user_prompt message intents = format (
    "Intents:\n"
    ∷ join_lines (numbered 1 intents)
    ∷ "\n\nUser message: \""
    ∷ message
    ∷ "\"\n\nWhich intent matches? Reply with the step name in brackets or NONE."
    ∷ [])

-- the first intent whose name the answer contains
unfoldable pub first_named : String → List (String × String) → Option String
unfolding contains
first_named raw [] = none
first_named raw ((name, desc) ∷ intents) =
    let rest = first_named raw intents in if contains raw name then some name else rest

abbrev named_in : List (String × String) → Result LlmResponse → Result (Option String)
named_in intents (err e) = err e
named_in intents (ok response) = ok (first_named (trim response.content) intents)

module _ {Json Float : Type 0} (zero_point_zero : Float) where
  abbrev intent_request : String → String → List (String × String) → LlmRequest Json Float
  intent_request model message intents = record {
    model = model;
    system_prompt =
        some
          "You are an intent classifier. Given a user message and a numbered list of intents, reply with ONLY the step name in square brackets that best matches the message. If no intent matches, reply with NONE.";
    messages =
        record {
          role = "user";
          content = user_prompt message intents;
          tool_calls = none;
          tool_call_id = none;
        }
        ∷ [];
    temperature = some zero_point_zero;
    max_tokens = some 64;
    tools = none;
  }

module _ {Json Float W : Type 0} (zero_point_zero : Float) where
  unfoldable pub classify :
      IntentRouterV2 Json Float W → String → List (String × String) → W → Result (Option String) × W
  unfolding first_named user_prompt
  classify router message [] w = (ok none, w)
  classify router message (intent ∷ intents) w =
      let (r, w') =
        router.llm (intent_request zero_point_zero router.model message (intent ∷ intents)) w in
      (named_in (intent ∷ intents) r, w')
