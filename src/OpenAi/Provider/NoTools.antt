-- ===== src/OpenAi/Provider/NoTools.antt =====
-- crates/workflow_engine_llm_openai/src/lib.rs: the address of a provider, and the tool loop over a
-- provider that answers in one piece.
use Prim.Native.Char.{Char, code}
use Prim.Native.String
use text.Mathlib.TextLemmas
use mathlib.Core.Path.{subst}
use tianshu_rs.Base.{
  ℕ, suc, String, Bool, true, false, ◌&&◌, Option, none, some, List, [], ◌∷◌, ◌++◌, Result, ok, err,
  ◌≡◌, refl, sym, ◌∙◌, ap, inl, inr, Bool-cases, Result-cases, if◌then◌else◌, eqb,
  is_empty as is_empty_list,
}
use tianshu_rs.Llm.{ToolCall, LlmRequest, LlmResponse}
use tianshu_rs.Observe.{Event}
use tianshu_rs.Context.{Serde}
use tianshu_rs.Tool.{ToolRegistry}
use tianshu_rs.Tool.Loop.{
  ToolLoopConfig, ToolLoopResult, LoopState, Rounds, assistant, loop, run_tool_loop, or_no_calls,
}
use tianshu_rs.Base.Parse.{cons, is_empty}
use tianshu_rs.OpenAi.Provider.{
  WireRequest, WireResponse, HttpResponse, Http, OpenAiProviderBuilder, OpenAiProvider, is_slash,
  trim_slashes, set_base_url, build, complete, read_response, WireUsage, WireChoice, read_json,
  is_failure, first_content, read_choices, posted, wire_request,
}

abbrev pub all_slashes : String → Bool
all_slashes String.[] = true
all_slashes (String.◌∷◌ c s) = eqb (code c) b'/' && all_slashes s

-- What an address becomes: it does not end in a slash, and only slashes are cut off its end.
pub record IsTrimmed (url base_url : String) : Type 0 where
  pub no_slash : is_slash base_url ≡ false
  pub cut : String
  pub only : all_slashes cut ≡ true
  pub whole : url ≡ String.◌++◌ base_url cut

cons-IsTrimmed :
    (c : Char) (s rest : String)
    → IsTrimmed s rest
    → IsTrimmed (cons c s) (if is_empty rest && eqb (code c) b'/' then "" else cons c rest)
cons-IsTrimmed c s String.[] h = elim (Bool-cases (eqb (code c) b'/')) [
  | inl p ↦ rw (p) (record {
    no_slash = refl;
    cut = cons c s;
    only = rw (p) (ap all_slashes (h.whole ∙ TextLemmas.nil-append h.cut) ∙ h.only);
    whole = sym (TextLemmas.nil-append (cons c s));
  })
  | inr p ↦ rw (p) (record {
    no_slash = p;
    cut = h.cut;
    only = h.only;
    whole = ap (cons c) h.whole ∙ sym (TextLemmas.cons-append c "" h.cut);
  })
]
cons-IsTrimmed c s (String.◌∷◌ d rest) h = record {
  no_slash = h.no_slash;
  cut = h.cut;
  only = h.only;
  whole = ap (cons c) h.whole ∙ sym (TextLemmas.cons-append c (cons d rest) h.cut);
}

trim_slashes-IsTrimmed : (s : String) → IsTrimmed s (trim_slashes s)
unfolding trim_slashes
trim_slashes-IsTrimmed String.[] = record {
  no_slash = refl;
  cut = "";
  only = refl;
  whole = sym (TextLemmas.nil-append "");
}
trim_slashes-IsTrimmed (String.◌∷◌ c s) =
    cons-IsTrimmed c s (trim_slashes s) (trim_slashes-IsTrimmed s)

trim_slashes-no_slash : (s : String) → is_slash s ≡ false → trim_slashes s ≡ s
unfolding trim_slashes
trim_slashes-no_slash String.[] h = refl
trim_slashes-no_slash (String.◌∷◌ c String.[]) h = rw (h) refl
trim_slashes-no_slash (String.◌∷◌ c (String.◌∷◌ d s)) h =
    rw (trim_slashes-no_slash (String.◌∷◌ d s) h) refl

-- The provider that is built from an address has that address without the slashes at its end.
pub base_url-build :
    (b : OpenAiProviderBuilder) (url : String) → IsTrimmed url (build (set_base_url b url)).base_url
unfolding build set_base_url
base_url-build b url =
    let t = trim_slashes-IsTrimmed url in rw (trim_slashes-no_slash (trim_slashes url) t.no_slash) t

abbrev MakesNoCalls : Result LlmResponse → Type 0
MakesNoCalls (ok response) = response.tool_calls ≡ none
MakesNoCalls (err e) = Unit

content-MakesNoCalls :
    (content reason : Option String) (usage : Option WireUsage)
    → MakesNoCalls (first_content content reason usage)
content-MakesNoCalls none reason usage = tt
content-MakesNoCalls (some content) reason usage = refl

choices-MakesNoCalls :
    (choices : Option (List WireChoice)) (usage : Option WireUsage)
    → MakesNoCalls (read_choices choices usage)
choices-MakesNoCalls none usage = tt
choices-MakesNoCalls (some []) usage = tt
choices-MakesNoCalls (some (c ∷ choices)) usage =
    content-MakesNoCalls c.message.content c.finish_reason usage

json-MakesNoCalls : (wire : Result WireResponse) → MakesNoCalls (read_json wire)
json-MakesNoCalls (err e) = tt
json-MakesNoCalls (ok wire) = choices-MakesNoCalls wire.choices wire.usage

response-MakesNoCalls : (sent : Result HttpResponse) → MakesNoCalls (read_response sent)
response-MakesNoCalls (err e) = tt
response-MakesNoCalls (ok r) = elim (Bool-cases (is_failure r.status)) [
  | inl h ↦ rw (h) tt
  | inr h ↦ rw (h) (json-MakesNoCalls r.json)
]

module _ {Json Float W : Type 0} (serde : Serde Json) (p : OpenAiProvider)
    (http : Http (WireRequest Float) W) (request : LlmRequest Json Float)
    (events : List (Event Json Float)) where
  abbrev Outcome : Type 0
  Outcome = Result ToolLoopResult × LoopState Json Float W

  -- the end of the loop with the first answer, which makes the calls `calls`
  abbrev answered_with : LlmResponse → Option (List ToolCall) → W → Outcome
  answered_with response calls w =
      let history = request.messages ++ assistant response.content calls ∷ [] in
      (
        ok (record {
          final_text = response.content;
          messages = history;
          rounds = 1;
          total_tool_calls = 0;
        }),
        record { messages = history; rounds = 1; total_tool_calls = 0; world = w; events = events },
      )

  abbrev pub at_once : Result LlmResponse × W → Outcome
  at_once (err e, w) = (
    err e,
    record {
      messages = request.messages;
      rounds = 0;
      total_tool_calls = 0;
      world = w;
      events = events;
    },
  )
  at_once (ok response, w) = answered_with response none w

  -- Over the provider that answers in one piece, the tool loop with at least one round asks once, with
  -- the request as it is without tools, and calls no tool: the answer it gets is its result, whatever
  -- tools are registered.
  pub run_tool_loop_asks_once :
      (tools : ToolRegistry Json W) (config : ToolLoopConfig) (observed : Bool) (time : Rounds)
      (n : ℕ) (w : W)
      → config.max_rounds ≡ suc n
      → run_tool_loop serde tools (complete p http) request config observed time w events
        ≡ some (at_once (complete p http request w))
  unfolding run_tool_loop loop complete
  run_tool_loop_asks_once tools config observed time n w h =
      let sent = http (posted p (wire_request request)) w in
      let quiet = response-MakesNoCalls sent.0 in
      elim (Result-cases (read_response sent.0)) [
        | inl (response, q) ↦
            let calm : MakesNoCalls (ok response) = subst MakesNoCalls q quiet in
            let no_calls : is_empty_list (or_no_calls response.tool_calls) ≡ true =
              ap (λ o. is_empty_list (or_no_calls o)) calm in
            rw (h, loop)
              (rw (q, loop, complete)
                (rw (no_calls, loop) (ap (λ o. some (answered_with response o sent.1)) calm)))
        | inr (e, q) ↦ rw (h, loop) (rw (q, loop, complete) refl)
      ]
