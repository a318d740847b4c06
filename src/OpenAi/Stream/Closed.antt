-- ===== src/OpenAi/Stream/Closed.antt =====
-- crates/workflow_engine_llm_openai/src/streaming.rs: the last event that a call sends.
use Prim.Native.String
use tianshu_rs.Base.{
  ℕ, zero, suc, String, Option, none, some, List, [], ◌∷◌, ◌++◌, Result, ok, err, Error, ◌≡◌, refl,
  ◌⊎◌, inl, inr, Bool-cases, Result-cases,
}
use tianshu_rs.Llm.{LlmStreamEvent, LlmRequest, LlmTool}
use tianshu_rs.Base.Parse.{is_empty, take_lines}
use tianshu_rs.OpenAi.Provider.{OpenAiProvider, HttpRequest, posted, is_failure}
use tianshu_rs.OpenAi.Sse.{
  SseChunk, text_delta, finish_reason, tool_call_start, tool_call_args_delta, usage, done,
  StreamResponse, ToolCallBuf, pending_calls,
}
use tianshu_rs.OpenAi.Stream.{
  Sender, send, send_in, send_all, stop, Flow, going, returned, handle, handle_lines, line_chunks,
  read, StreamRequest, StreamAnswer, stream_body, stream, read_answer,
}

-- an event after which no other comes
abbrev pub IsLast : LlmStreamEvent → Type 0
IsLast (LlmStreamEvent.done reason) = Unit
IsLast (LlmStreamEvent.error message) = Unit
IsLast _ = ⊥

-- The last event is one that closes the stream, or the receiver takes no more.
abbrev pub IsClosed : Sender → Type 0
IsClosed tx =
    (tx.room ≡ 0)
    ⊎ (es : List LlmStreamEvent) × (e : LlmStreamEvent) × (tx.received ≡ es ++ e ∷ []) × IsLast e

send-IsClosed :
    (got : List LlmStreamEvent) (room : ℕ) (e : LlmStreamEvent)
    → IsLast e
    → IsClosed (send_in room (record { received = got; room = room }) e).1
send-IsClosed got zero e h = inl refl
send-IsClosed got (suc room) e h = inr (got, e, refl, h)

send_all-IsClosed :
    (es : List LlmStreamEvent) (tx : Sender) → IsClosed (send_all tx (es ++ stop ∷ []))
send_all-IsClosed [] tx = send-IsClosed tx.received tx.room stop tt
send_all-IsClosed (e ∷ es) tx = send_all-IsClosed es (send tx e).1

-- where the lines of a piece end the call
abbrev IsClosedFlow : Flow → Type 0
IsClosedFlow (going acc tx) = Unit
IsClosedFlow (returned tx) = IsClosed tx

text-IsClosedFlow :
    (s : String) (acc : ToolCallBuf) (got : List LlmStreamEvent) (room : ℕ)
    → IsClosedFlow (handle (some (text_delta s)) acc (record { received = got; room = room }))
text-IsClosedFlow s acc got zero = elim (Bool-cases (is_empty s)) [
  | inl p ↦ rw (p) tt
  | inr p ↦ rw (p) (inl refl)
]
text-IsClosedFlow s acc got (suc room) = elim (Bool-cases (is_empty s)) [
  | inl p ↦ rw (p) tt
  | inr p ↦ rw (p) tt
]

handle-IsClosedFlow :
    (c : Option SseChunk) (acc : ToolCallBuf) (tx : Sender) → IsClosedFlow (handle c acc tx)
handle-IsClosedFlow none acc tx = tt
handle-IsClosedFlow (some (text_delta s)) acc tx = text-IsClosedFlow s acc tx.received tx.room
handle-IsClosedFlow (some (finish_reason r)) acc tx = tt
handle-IsClosedFlow (some (tool_call_start id name)) acc tx = tt
handle-IsClosedFlow (some (tool_call_args_delta i args)) acc tx = tt
handle-IsClosedFlow (some (usage p c)) acc tx = tt
handle-IsClosedFlow (some done) acc tx = send_all-IsClosed (pending_calls acc) tx

returned-IsClosed :
    (f : Flow)
    → IsClosedFlow f
    → ((acc : ToolCallBuf) × (tx : Sender) × (f ≡ going acc tx))
      ⊎ ((tx : Sender) × (f ≡ returned tx) × IsClosed tx)
returned-IsClosed (going acc tx) h = inl (acc, tx, refl)
returned-IsClosed (returned tx) h = inr (tx, refl, h)

handle_lines-IsClosedFlow :
    (cs : List (Option SseChunk)) (acc : ToolCallBuf) (tx : Sender)
    → IsClosedFlow (handle_lines cs acc tx)
unfolding handle_lines
handle_lines-IsClosedFlow [] acc tx = tt
handle_lines-IsClosedFlow (c ∷ cs) acc tx =
    elim (returned-IsClosed (handle c acc tx) (handle-IsClosedFlow c acc tx)) [
      | inl (acc', tx', p) ↦ rw (p, handle_lines) (handle_lines-IsClosedFlow cs acc' tx')
      | inr (tx', p, h) ↦ rw (p, handle_lines) h
    ]

module _ {Bytes : Type 0} (lossy : Bytes → String) (from_str : String → Option StreamResponse) where
  read-IsClosed :
      (pieces : List (Result Bytes)) (buf : String) (acc : ToolCallBuf) (tx : Sender)
      → IsClosed (read lossy from_str pieces buf acc tx).1
  unfolding read
  read-IsClosed [] buf acc tx = send_all-IsClosed (pending_calls acc) tx
  read-IsClosed (err e ∷ pieces) buf acc tx =
      send-IsClosed tx.received tx.room (LlmStreamEvent.error e.message) tt
  read-IsClosed (ok bytes ∷ pieces) buf acc tx =
      let (ended, rest) = take_lines (String.◌++◌ buf (lossy bytes)) in
      let cs = line_chunks lossy from_str ended in
      elim (returned-IsClosed (handle_lines cs acc tx) (handle_lines-IsClosedFlow cs acc tx)) [
        | inl (acc', tx', p) ↦ rw (p, read) (read-IsClosed pieces rest acc' tx')
        | inr (tx', p, h) ↦ rw (p, read) h
      ]

-- how a call leaves its sender: what it sent before stands, or the stream is closed
abbrev pub IsLeft : Sender → Result (Unit {0}) → Sender → Type 0
IsLeft tx result tx' = ((e : Error) × (result ≡ err e) × (tx' ≡ tx)) ⊎ IsClosed tx'

module _ {Json Float Bytes W : Type 0} (p : OpenAiProvider)
    (tools_value : List (LlmTool Json) → Result Json) (lossy : Bytes → String)
    (from_str : String → Option StreamResponse)
    (http : HttpRequest (StreamRequest Json Float) → W → Result (StreamAnswer Bytes) × W) where
  answer-IsLeft :
      (sent : Result (StreamAnswer Bytes)) (tx : Sender)
      → let (result, tx') = read_answer p tools_value lossy from_str http sent tx in
        IsLeft tx result tx'
  answer-IsLeft (err e) tx = inl (e, refl, refl)
  answer-IsLeft (ok answer) tx = elim (Bool-cases (is_failure answer.status)) [
    | inl h ↦ rw (h) (inr (send-IsClosed tx.received tx.room _ tt))
    | inr h ↦ rw (h) (inr (read-IsClosed lossy from_str answer.pieces "" [] tx))
  ]

  -- A call of `stream` ends with an event `Done` or `Error` as the last, unless the receiver takes
  -- no more, or the call returns an error and has sent nothing at all.
  pub stream-IsLeft :
      (request : LlmRequest Json Float) (tx : Sender) (w : W)
      → let r = stream p tools_value lossy from_str http request tx w in
        ((e : Error) × (r.0 ≡ err e) × (r.1 ≡ tx)) ⊎ IsClosed r.1
  unfolding stream
  stream-IsLeft request tx w = elim (Result-cases (stream_body tools_value request)) [
    | inl (body, h) ↦ let sent = http (posted p body) w in rw (h, stream) (answer-IsLeft sent.0 tx)
    | inr (e, h) ↦ rw (h, stream) (inl (e, refl, refl))
  ]
