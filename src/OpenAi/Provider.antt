-- ===== src/OpenAi/Provider.antt =====
-- crates/workflow_engine_llm_openai/src/lib.rs: the provider that answers in one piece. `Http` stands
-- for `reqwest`: it sends a request and gives the answer, or the error of the connection.
pub mod NoTools
use Prim.Native.Char.{code}
use Prim.Native.String
use tianshu_rs.Base.{
  ℕ, zero, suc, String, Bool, true, false, ◌&&◌, ◌≡◌, refl, arith, Option, none, some, List, [],
  ◌∷◌, ◌++◌, map, Result, ok, err, anyhow, format, decimal, leb, eqb, if◌then◌else◌,
}
use tianshu_rs.Llm.{LlmMessage, LlmRequest, LlmResponse, LlmUsage, LlmProvider}
use tianshu_rs.Base.Parse.{cons, is_empty}

pub record WireMessage : Type 0 where
  pub role : String
  pub content : String

pub record WireRequest (Float : Type 0) : Type 0 where
  pub model : String
  pub messages : List WireMessage
  pub temperature : Option Float
  pub max_tokens : Option ℕ

pub record WireChoiceMessage : Type 0 where
  pub content : Option String

pub record WireChoice : Type 0 where
  pub message : WireChoiceMessage
  pub finish_reason : Option String

pub record WireUsage : Type 0 where
  pub prompt_tokens : Option ℕ
  pub completion_tokens : Option ℕ

pub record WireResponse : Type 0 where
  pub choices : Option (List WireChoice)
  pub usage : Option WireUsage

-- what is posted, and the timeout of the client that posts it
pub record HttpRequest (Body : Type 0) : Type 0 where
  pub url : String
  pub authorization : String
  pub content_type : String
  pub body : Body
  pub timeout_secs : ℕ

-- an answer: its status and its body, as text and as JSON
pub record HttpResponse : Type 0 where
  pub status : ℕ
  pub text : Result String
  pub json : Result WireResponse

abbrev pub Http : Type 0 → Type 0 → Type 0
Http Body W = HttpRequest Body → W → Result HttpResponse × W

pub record OpenAiProviderBuilder : Type 0 where
  pub api_key : String
  pub model : String
  pub base_url : String
  pub timeout_secs : ℕ

-- the client of a provider is its timeout
pub record OpenAiProvider : Type 0 where
  pub api_key : String
  pub model : String
  pub base_url : String
  pub client : ℕ

abbrev pub is_slash : String → Bool
is_slash String.[] = false
is_slash (String.◌∷◌ c String.[]) = eqb (code c) b'/'
is_slash (String.◌∷◌ c (String.◌∷◌ d s)) = is_slash (String.◌∷◌ d s)

-- `trim_end_matches('/')`
unfoldable pub trim_slashes : String → String
trim_slashes String.[] = ""
trim_slashes (String.◌∷◌ c s) =
    let rest = trim_slashes s in if is_empty rest && eqb (code c) b'/' then "" else cons c rest

abbrev pub builder : String → String → OpenAiProviderBuilder
builder api_key model = record {
  api_key = api_key;
  model = model;
  base_url = "https://api.openai.com/v1";
  timeout_secs = 120;
}

unfoldable pub set_base_url : OpenAiProviderBuilder → String → OpenAiProviderBuilder
set_base_url b url = record b { base_url = trim_slashes url }

abbrev pub set_timeout_secs : OpenAiProviderBuilder → ℕ → OpenAiProviderBuilder
set_timeout_secs b secs = record b { timeout_secs = secs }

unfoldable pub build : OpenAiProviderBuilder → OpenAiProvider
build b = record {
  api_key = b.api_key;
  model = b.model;
  base_url = trim_slashes b.base_url;
  client = b.timeout_secs;
}

abbrev pub or_zero : Option ℕ → ℕ
or_zero none = 0
or_zero (some n) = n

abbrev or_stop : Option String → String
or_stop none = "stop"
or_stop (some reason) = reason

abbrev pub or_empty : Result String → String
or_empty (ok text) = text
or_empty (err e) = ""

abbrev usage_of : Option WireUsage → LlmUsage
usage_of none = record { prompt_tokens = 0; completion_tokens = 0 }
usage_of (some u) = record {
  prompt_tokens = or_zero u.prompt_tokens;
  completion_tokens = or_zero u.completion_tokens;
}

abbrev system_message : Option String → List WireMessage
system_message none = []
system_message (some sys) = record { role = "system"; content = sys } ∷ []

abbrev wire_message : LlmMessage → WireMessage
wire_message m = record { role = m.role; content = m.content }

-- `is_client_error() || is_server_error()`
abbrev pub is_failure : ℕ → Bool
is_failure status = leb 400 status && leb status 599

abbrev pub refused : HttpResponse → String
refused r = format ("LLM API HTTP " ∷ decimal r.status ∷ ": " ∷ or_empty r.text ∷ [])

abbrev pub first_content : Option String → Option String → Option WireUsage → Result LlmResponse
first_content none reason usage = anyhow "LLM returned None content"
first_content (some content) reason usage = ok (record {
  content = content;
  usage = usage_of usage;
  finish_reason = or_stop reason;
  tool_calls = none;
})

abbrev pub read_choices : Option (List WireChoice) → Option WireUsage → Result LlmResponse
read_choices none usage = anyhow "LLM API returned empty choices"
read_choices (some []) usage = anyhow "LLM API returned empty choices"
read_choices (some (c ∷ choices)) usage = first_content c.message.content c.finish_reason usage

abbrev pub read_json : Result WireResponse → Result LlmResponse
read_json (err e) = err e
read_json (ok wire) = read_choices wire.choices wire.usage

abbrev pub read_response : Result HttpResponse → Result LlmResponse
read_response (err e) = err e
read_response (ok r) = if is_failure r.status then anyhow (refused r) else read_json r.json

abbrev pub posted : {Body : Type 0} → OpenAiProvider → Body → HttpRequest Body
posted p body = record {
  url = format (p.base_url ∷ "/chat/completions" ∷ []);
  authorization = format ("Bearer " ∷ p.api_key ∷ []);
  content_type = "application/json";
  body = body;
  timeout_secs = p.client;
}

module _ {Json Float : Type 0} where
  abbrev pub wire_request : LlmRequest Json Float → WireRequest Float
  wire_request request = record {
    model = request.model;
    messages = system_message request.system_prompt ++ map wire_message request.messages;
    temperature = request.temperature;
    max_tokens = request.max_tokens;
  }

  unfoldable pub complete :
      {W : Type 0} → OpenAiProvider → Http (WireRequest Float) W → LlmProvider Json Float W
  complete p http request w =
      let (sent, w') = http (posted p (wire_request request)) w in (read_response sent, w')
