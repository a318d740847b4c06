-- ===== src/OpenAi/Stream/Delivered.antt =====
-- crates/workflow_engine_llm_openai/src/streaming.rs: what the receiver of a stream gets, however the
-- body is cut into pieces.
use Prim.Native.Char.{Char, code}
use Prim.Native.String
use text.Mathlib.TextLemmas
use mathlib.Core.List.{map-append}
use tianshu_rs.Base.{
  ℕ, zero, suc, String, true, false, Option, none, some, List, [], ◌∷◌, ◌++◌, map, Result, ok, ◌≡◌,
  refl, sym, ◌∙◌, ap, arith, inl, inr, Bool-cases, eqb, ◌⊎◌,
}
use tianshu_rs.Llm.{LlmStreamEvent}
use tianshu_rs.Base.Parse.{take_lines, end_line, extend, cons, is_empty}
use tianshu_rs.OpenAi.Sse.{
  SseChunk, text_delta, finish_reason, tool_call_start, tool_call_args_delta, usage, done,
  StreamResponse, ToolCallBuf, start_call, push_args, pending_calls, text_event, usage_event,
}
use tianshu_rs.OpenAi.Stream.{
  Sender, send, send_all, stop, Flow, going, returned, handle_lines, line_chunks, read,
}

-- the events of the chunks for a receiver that takes them all
abbrev pub events : List (Option SseChunk) → ToolCallBuf → List LlmStreamEvent
events [] acc = pending_calls acc ++ stop ∷ []
events (none ∷ cs) acc = events cs acc
events (some (text_delta s) ∷ cs) acc = text_event s ++ events cs acc
events (some (finish_reason r) ∷ cs) acc = events cs acc
events (some (tool_call_start id name) ∷ cs) acc = events cs (start_call id name acc)
events (some (tool_call_args_delta index args) ∷ cs) acc = events cs (push_args index args acc)
events (some (usage p c) ∷ cs) acc = usage_event p c ∷ events cs acc
events (some done ∷ cs) acc = pending_calls acc ++ stop ∷ []

abbrev after : Flow → List (Option SseChunk) → Sender
after (going acc tx) cs = send_all tx (events cs acc)
after (returned tx) cs = tx

send_all-no_room :
    (es gone : List LlmStreamEvent)
    → send_all (record { received = gone; room = 0 }) es ≡ record { received = gone; room = 0 }
send_all-no_room [] gone = refl
send_all-no_room (e ∷ es) gone = send_all-no_room es gone

after-text :
    (s : String) (tail cs : List (Option SseChunk)) (acc : ToolCallBuf) (got : List LlmStreamEvent)
    (room : ℕ)
    → ((tx : Sender) → after (handle_lines tail acc tx) cs ≡ send_all tx (events (tail ++ cs) acc))
    → after
        (handle_lines (some (text_delta s) ∷ tail) acc (record { received = got; room = room }))
        cs
      ≡ send_all (record { received = got; room = room }) (text_event s ++ events (tail ++ cs) acc)
unfolding handle_lines
after-text s tail cs acc got zero h = elim (Bool-cases (is_empty s)) [
  | inl p ↦ rw (p, handle_lines) (h (record { received = got; room = 0 }))
  | inr p ↦ rw (p, handle_lines) (sym (send_all-no_room (events (tail ++ cs) acc) got))
]
after-text s tail cs acc got (suc n) h = elim (Bool-cases (is_empty s)) [
  | inl p ↦ rw (p, handle_lines) (h (record { received = got; room = suc n }))
  | inr p ↦
      rw (p, handle_lines)
        (h (record { received = got ++ LlmStreamEvent.text_delta s ∷ []; room = n }))
]

after-handle_lines :
    (ls cs : List (Option SseChunk)) (acc : ToolCallBuf) (tx : Sender)
    → after (handle_lines ls acc tx) cs ≡ send_all tx (events (ls ++ cs) acc)
unfolding handle_lines
after-handle_lines [] cs acc tx = refl
after-handle_lines (none ∷ ls) cs acc tx = after-handle_lines ls cs acc tx
after-handle_lines (some (text_delta s) ∷ ls) cs acc tx =
    after-text s ls cs acc tx.received tx.room (after-handle_lines ls cs acc)
after-handle_lines (some (finish_reason r) ∷ ls) cs acc tx = after-handle_lines ls cs acc tx
after-handle_lines (some (tool_call_start id name) ∷ ls) cs acc tx =
    after-handle_lines ls cs (start_call id name acc) tx
after-handle_lines (some (tool_call_args_delta i args) ∷ ls) cs acc tx =
    after-handle_lines ls cs (push_args i args acc) tx
after-handle_lines (some (usage p c) ∷ ls) cs acc tx =
    after-handle_lines ls cs acc (send tx (usage_event p c)).1
after-handle_lines (some done ∷ ls) cs acc tx = refl

-- the lines of `a` with the rest of it in front of what comes next
abbrev joined : List String × String → List String × String → List String × String
joined (ls, rest) (ms, rest') = (ls ++ ms, rest')

abbrev continued : List String × String → String → List String × String
continued (ls, rest) b = joined (ls, rest) (take_lines (String.◌++◌ rest b))

take_lines-newline :
    (c : Char) (s : String)
    → eqb (code c) b'\n' ≡ true
    → take_lines (cons c s) ≡ end_line (take_lines s)
unfolding take_lines
take_lines-newline c s h = rw (h, take_lines) refl

take_lines-other :
    (c : Char) (s : String)
    → eqb (code c) b'\n' ≡ false
    → take_lines (cons c s) ≡ extend c (take_lines s)
unfolding take_lines
take_lines-other c s h = rw (h, take_lines) refl

continued-extend :
    (c : Char) (b : String) (t : List String × String)
    → eqb (code c) b'\n' ≡ false
    → continued (extend c t) b ≡ extend c (continued t b)
continued-extend c b ([], rest) h =
    ap (λ text. joined ([], cons c rest) (take_lines text)) (TextLemmas.cons-append c rest b)
    ∙ ap (joined ([], "")) (take_lines-other c (String.◌++◌ rest b) h)
continued-extend c b (l ∷ ls, rest) h = refl

take_lines-append : (a b : String) → take_lines (String.◌++◌ a b) ≡ continued (take_lines a) b
unfolding take_lines
take_lines-append String.[] b = refl
take_lines-append (String.◌∷◌ c a) b = elim (Bool-cases (eqb (code c) b'\n')) [
  | inl h ↦
      ap take_lines (TextLemmas.cons-append c a b)
      ∙ take_lines-newline c (String.◌++◌ a b) h
      ∙ ap end_line (take_lines-append a b)
      ∙ ap (λ t. continued t b) (sym (take_lines-newline c a h))
  | inr h ↦
      ap take_lines (TextLemmas.cons-append c a b)
      ∙ take_lines-other c (String.◌++◌ a b) h
      ∙ ap (extend c) (take_lines-append a b)
      ∙ sym (continued-extend c b (take_lines a) h)
      ∙ ap (λ t. continued t b) (sym (take_lines-other c a h))
]

extend-no_line : (c : Char) (t : List String × String) → t.0 ≡ [] → (extend c t).0 ≡ []
extend-no_line c ([], rest) h = refl
extend-no_line c (l ∷ ls, rest) h = ground (arith, h)

rest_after_extend :
    (c : Char) (t : List String × String)
    → eqb (code c) b'\n' ≡ false
    → (take_lines t.1).0 ≡ []
    → (take_lines (extend c t).1).0 ≡ []
rest_after_extend c ([], rest) h ih =
    ap (λ t. t.0) (take_lines-other c rest h) ∙ extend-no_line c (take_lines rest) ih
rest_after_extend c (l ∷ ls, rest) h ih = ih

-- what is left has no line that has ended
take_lines-rest : (s : String) → (take_lines (take_lines s).1).0 ≡ []
unfolding take_lines
take_lines-rest String.[] = refl
take_lines-rest (String.◌∷◌ c s) = elim (Bool-cases (eqb (code c) b'\n')) [
  | inl h ↦ rw (take_lines-newline c s h) (take_lines-rest s)
  | inr h ↦ rw (take_lines-other c s h) (rest_after_extend c (take_lines s) h (take_lines-rest s))
]

Flow-cases :
    (f : Flow)
    → ((acc : ToolCallBuf) × (tx : Sender) × (f ≡ going acc tx))
      ⊎ ((tx : Sender) × (f ≡ returned tx))
Flow-cases (going acc tx) = inl (acc, tx, refl)
Flow-cases (returned tx) = inr (tx, refl)

abbrev delivered : Sender → Result (Unit {0}) × Sender
delivered tx = (ok tt, tx)

module _ {Bytes : Type 0} (lossy : Bytes → String) (from_str : String → Option StreamResponse) where
  -- the pieces as one text
  abbrev pub text_of : List Bytes → String
  text_of [] = ""
  text_of (b ∷ bs) = String.◌++◌ (lossy b) (text_of bs)

  -- the chunks of the lines that have ended
  abbrev pub ended_chunks : String → List (Option SseChunk)
  ended_chunks text = line_chunks lossy from_str (take_lines text).0

  ended_chunks-append :
      (a b : String)
      → ended_chunks (String.◌++◌ a b)
        ≡ ended_chunks a ++ ended_chunks (String.◌++◌ (take_lines a).1 b)
  ended_chunks-append a b =
      ap (λ t. line_chunks lossy from_str t.0) (take_lines-append a b)
      ∙ map-append _ (take_lines a).0 (take_lines (String.◌++◌ (take_lines a).1 b)).0

  pub read-events :
      (bs : List Bytes) (buf : String) (acc : ToolCallBuf) (tx : Sender)
      → (take_lines buf).0 ≡ []
      → read lossy from_str (map ok bs) buf acc tx
        ≡ delivered (send_all tx (events (ended_chunks (String.◌++◌ buf (text_of bs))) acc))
  unfolding read
  read-events [] buf acc tx h =
      ap (λ cs. delivered (send_all tx (events cs acc)))
        (sym (ap ended_chunks (TextLemmas.append-nil buf) ∙ ap (line_chunks lossy from_str) h))
  read-events (b ∷ bs) buf acc tx h =
      let piece = String.◌++◌ buf (lossy b) in
      let rest = (take_lines piece).1 in
      let later = ended_chunks (String.◌++◌ rest (text_of bs)) in
      let lines = ended_chunks piece in
      let whole : ended_chunks (String.◌++◌ buf (text_of (b ∷ bs))) ≡ lines ++ later =
        ap ended_chunks (sym (TextLemmas.append_assoc buf (lossy b) (text_of bs)))
        ∙ ended_chunks-append piece (text_of bs) in
      let handled = after-handle_lines lines later acc tx in
      elim (Flow-cases (handle_lines lines acc tx)) [
        | inl (acc', tx', p) ↦
            rw (p, read) (read-events bs rest acc' tx' (take_lines-rest piece))
            ∙ ap delivered (ap (λ f. after f later) (sym p) ∙ handled)
        | inr (tx', p) ↦ rw (p, read) (ap delivered (ap (λ f. after f later) (sym p) ∙ handled))
      ]
      ∙ ap (λ cs. delivered (send_all tx (events cs acc))) (sym whole)
