-- ===== src/OpenAi/Stream/Received.antt =====
-- crates/workflow_engine_llm_openai/src/streaming.rs: a whole call, told by the text of its body.
use Prim.Native.String
use text.Mathlib.TextLemmas
use mathlib.Core.List.{append_assoc, append-nil}
use tianshu_rs.Base.{
  ℕ, zero, suc, String, false, Option, none, some, List, [], ◌∷◌, ◌++◌, map, Result, ok, ◌≡◌, refl,
  sym, ◌∙◌, ap, take, format,
}
use tianshu_rs.Base.HashMap
use tianshu_rs.Llm.{LlmStreamEvent, LlmRequest, LlmTool}
use tianshu_rs.Base.Parse.{take_lines}
use tianshu_rs.OpenAi.Provider.{OpenAiProvider, HttpRequest, posted, is_failure}
use tianshu_rs.OpenAi.Sse.{
  SseChunk, text_delta, finish_reason, tool_call_start, tool_call_args_delta, usage, done,
  StreamResponse, pending_calls, text_event, usage_event,
}
use tianshu_rs.OpenAi.Sse.Assembled.{
  before_done, first_call, arguments, one_call, tool_use_event, pending_calls-one_call,
  push_args-one_call,
}
use tianshu_rs.OpenAi.Stream.{
  Sender, send_all, stop, StreamRequest, StreamAnswer, stream_body, stream, take_lines, read_answer,
}
use tianshu_rs.OpenAi.Stream.Delivered.{events, text_of, ended_chunks, read-events}

-- the texts that are not empty and the usages
abbrev pub in_order : List SseChunk → List LlmStreamEvent
in_order [] = []
in_order (text_delta s ∷ cs) = text_event s ++ in_order cs
in_order (usage p c ∷ cs) = usage_event p c ∷ in_order cs
in_order (_ ∷ cs) = in_order cs

abbrev closed : List LlmStreamEvent → List LlmStreamEvent → List LlmStreamEvent
closed shown calls = shown ++ (calls ++ stop ∷ [])

abbrev pub streamed : List (Option SseChunk) → List LlmStreamEvent
streamed cs = closed (in_order (before_done cs)) (first_call (before_done cs))

events-one_call :
    (cs : List (Option SseChunk)) (id name x : String)
    → events cs (one_call id name x)
      ≡ closed
          (in_order (before_done cs))
          (tool_use_event id name (String.◌++◌ x (arguments (before_done cs))) ∷ [])
unfolding HashMap.get HashMap.insert HashMap.alter
events-one_call [] id name x =
    rw (pending_calls-one_call id name x) (rw (TextLemmas.append-nil x) refl)
events-one_call (none ∷ cs) id name x = events-one_call cs id name x
events-one_call (some (text_delta s) ∷ cs) id name x =
    ap (text_event s ++◌) (events-one_call cs id name x)
    ∙ sym (append_assoc (text_event s) (in_order (before_done cs)) _)
events-one_call (some (finish_reason r) ∷ cs) id name x = events-one_call cs id name x
events-one_call (some (tool_call_start i n) ∷ cs) id name x = events-one_call cs id name x
events-one_call (some (tool_call_args_delta zero args) ∷ cs) id name x =
    events-one_call cs id name (format (x ∷ args ∷ []))
    ∙ rw (TextLemmas.append_assoc x args (arguments (before_done cs))) refl
events-one_call (some (tool_call_args_delta (suc n) args) ∷ cs) id name x =
    ap (events cs) (push_args-one_call n args id name x) ∙ events-one_call cs id name x
events-one_call (some (usage p c) ∷ cs) id name x =
    ap (◌∷◌ (usage_event p c)) (events-one_call cs id name x)
events-one_call (some done ∷ cs) id name x =
    rw (pending_calls-one_call id name x) (rw (TextLemmas.append-nil x) refl)

events-streamed : (cs : List (Option SseChunk)) → events cs [] ≡ streamed cs
unfolding HashMap.get HashMap.insert HashMap.alter pending_calls
events-streamed [] = refl
events-streamed (none ∷ cs) = events-streamed cs
events-streamed (some (text_delta s) ∷ cs) =
    ap (text_event s ++◌) (events-streamed cs)
    ∙ sym (append_assoc (text_event s) (in_order (before_done cs)) _)
events-streamed (some (finish_reason r) ∷ cs) = events-streamed cs
events-streamed (some (tool_call_start id name) ∷ cs) =
    events-one_call cs id name "" ∙ rw (TextLemmas.nil-append (arguments (before_done cs))) refl
events-streamed (some (tool_call_args_delta n args) ∷ cs) = events-streamed cs
events-streamed (some (usage p c) ∷ cs) = ap (◌∷◌ (usage_event p c)) (events-streamed cs)
events-streamed (some done ∷ cs) = refl

received-send_all :
    (es got : List LlmStreamEvent) (room : ℕ)
    → (send_all (record { received = got; room = room }) es).received ≡ got ++ take room es
received-send_all [] got zero = sym (append-nil got)
received-send_all [] got (suc room) = sym (append-nil got)
received-send_all (e ∷ es) got zero = received-send_all es got zero
received-send_all (e ∷ es) got (suc room) =
    received-send_all es (got ++ e ∷ []) room ∙ append_assoc got (e ∷ []) (take room es)

empty_lines : (take_lines "").0 ≡ []
unfolding take_lines
empty_lines = refl

module _ {Json Float Bytes W : Type 0} (p : OpenAiProvider)
    (tools_value : List (LlmTool Json) → Result Json) (lossy : Bytes → String)
    (from_str : String → Option StreamResponse)
    (http : HttpRequest (StreamRequest Json Float) → W → Result (StreamAnswer Bytes) × W) where
  -- The request can be written, and its answer is not a failure and comes whole, in `bs`.
  pub record IsAnswered (request : LlmRequest Json Float) (w w' : W) (bs : List Bytes)
      : Type 0 where
    pub body : StreamRequest Json Float
    pub status : ℕ
    pub text : Result String
    pub written : stream_body tools_value request ≡ ok body
    pub answered :
        http (posted p body) w
        ≡ (ok (record { status = status; text = text; pieces = map ok bs }), w')
    pub succeeded : is_failure status ≡ false

  stream-events :
      (request : LlmRequest Json Float) (tx : Sender) (w w' : W) (bs : List Bytes)
      → IsAnswered request w w' bs
      → stream p tools_value lossy from_str http request tx w ≡ (
        ok tt,
        send_all tx (events (ended_chunks lossy from_str (text_of lossy from_str bs)) []),
        w',
      )
  unfolding stream
  stream-events request tx w w' bs h =
      let text = text_of lossy from_str bs in
      let shown : String → Result (Unit {0}) × Sender =
        λ t. (ok tt, send_all tx (events (ended_chunks lossy from_str t) [])) in
      let answer : StreamAnswer Bytes = record {
        status = h.status;
        text = h.text;
        pieces = map ok bs;
      } in
      let read_it : read_answer p tools_value lossy from_str http (ok answer) tx ≡ shown text =
        rw (h.succeeded) (
          read-events lossy from_str bs "" [] tx empty_lines
          ∙ ap shown (TextLemmas.nil-append text)) in
      rw (h.written, stream) (rw (h.answered, stream) (ap (λ r. (r.0, r.1, w')) read_it))

  -- A stream whose answer comes whole ends without an error, and the receiver gets, until it is
  -- dropped, the texts and the usages in order, then at most one tool call, the first that is
  -- started, with its arguments joined, and then the end. This depends on the text of the pieces
  -- alone, not on where it is cut; a last line without a line break is not read.
  pub stream-streamed :
      (request : LlmRequest Json Float) (tx : Sender) (w w' : W) (bs : List Bytes)
      → IsAnswered request w w' bs
      → let (result, tx', after) = stream p tools_value lossy from_str http request tx w in
        (result ≡ ok tt)
        × (tx'.received
            ≡ tx.received
              ++ take tx.room (streamed (ended_chunks lossy from_str (text_of lossy from_str bs))))
        × (after ≡ w')
  stream-streamed request tx w w' bs h =
      let cs = ended_chunks lossy from_str (text_of lossy from_str bs) in
      rw (stream-events request tx w w' bs h) (
        refl,
        received-send_all (events cs []) tx.received tx.room
            ∙ ap (λ es. tx.received ++ take tx.room es) (events-streamed cs),
        refl,
      )
