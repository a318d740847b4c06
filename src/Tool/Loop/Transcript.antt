-- ===== src/Tool/Loop/Transcript.antt =====
-- crates/workflow_engine/src/tool_loop.rs: the loop ends, within its rounds, and every call that the
-- model makes is answered in the conversation.
use tianshu_rs.Base.{
  ℕ, zero, suc, ◌+◌, ◌<◌, ◌≤◌, String, Bool, true, false, Option, none, some, List, [], ◌∷◌, ◌++◌,
  Result, ok, err, Error, ◌≡◌, ◌⊎◌, inl, inr, arith, refl, ap, Bool-cases, Result-cases, length,
  map, is_empty, string_eq,
}
use tianshu_rs.Llm.{LlmMessage, LlmRequest, LlmProvider, ToolCall}
use tianshu_rs.Observe.{Event}
use tianshu_rs.Context.{Serde}
use tianshu_rs.Tool.{ToolRegistry, execute_call, one_by_one}
use tianshu_rs.Tool.Tasks.{AreReadOnly, RunsAll}
use tianshu_rs.Tool.Order.{execute_with_concurrency-one_by_one}
use tianshu_rs.Tool.Loop.{
  ToolLoopConfig, ToolLoopResult, LoopState, Rounds, assistant, reply, or_no_calls, next_request,
  exceeded, answered, returned, called, loop, started, run_tool_loop,
}

-- the messages that answer the calls, in the order of the calls
abbrev pub Answer : List ToolCall → List LlmMessage → Type 0
Answer [] [] = Unit
Answer [] (m ∷ ms) = ⊥
Answer (c ∷ cs) [] = ⊥
Answer (c ∷ cs) (m ∷ ms) =
    (m.role ≡ "tool") × (m.tool_call_id ≡ some c.id) × (m.tool_calls ≡ none) × Answer cs ms

-- `Transcript before ms n t`: `ms` is `before` with `n` rounds, each a message of the assistant
-- that makes calls and one answer to each of these, with `t` calls in all.
pub data Transcript (before : List LlmMessage) : List LlmMessage → ℕ → ℕ → Type 0 where
  begins : {ms : List LlmMessage} {n t : ℕ} → ms ≡ before → n ≡ 0 → t ≡ 0 → Transcript before ms n t
  round :
      {ms out : List LlmMessage} {n t n' t' : ℕ} (content : String) (calls : List ToolCall)
      (replies : List LlmMessage)
      → Transcript before ms n t
      → is_empty calls ≡ false
      → Answer calls replies
      → out ≡ (ms ++ assistant content (some calls) ∷ []) ++ replies
      → n' ≡ n + 1
      → t' ≡ t + length calls
      → Transcript before out n' t'

made_calls :
    (o : Option (List ToolCall)) → is_empty (or_no_calls o) ≡ false → o ≡ some (or_no_calls o)
made_calls none h = ground (arith, h)
made_calls (some calls) h = refl

module _ {Json W : Type 0} (serde : Serde Json) (tools : ToolRegistry Json W) where
  call_id-execute_call : (c : ToolCall) (w : W) → (execute_call serde tools c w).0.call_id ≡ c.id
  unfolding execute_call
  call_id-execute_call c w = ground arith

  one_by_one-Answer :
      (elapsed : ℕ → ℕ) (i : ℕ) (calls : List ToolCall) (w : W)
      → Answer calls (map reply (one_by_one serde tools elapsed i calls w).0)
  unfolding one_by_one
  one_by_one-Answer elapsed i [] w = tt
  one_by_one-Answer elapsed i (c ∷ cs) w = (
    refl,
    ap some (call_id-execute_call c w),
    refl,
    one_by_one-Answer elapsed (i + 1) cs (execute_call serde tools c w).1,
  )

module _ {Json Float W : Type 0} (serde : Serde Json) (tools : ToolRegistry Json W)
    (llm : LlmProvider Json Float W) (request : LlmRequest Json Float) (config : ToolLoopConfig)
    (observed : Bool) (time : Rounds) where
  -- an answer without calls, after `n` rounds
  pub record IsFinal (r : ToolLoopResult) : Type 0 where
    pub history : List LlmMessage
    pub calls : Option (List ToolCall)
    pub n : ℕ
    pub no_calls : is_empty (or_no_calls calls) ≡ true
    pub transcript : Transcript request.messages history n r.total_tool_calls
    pub last : r.messages ≡ history ++ assistant r.final_text calls ∷ []
    pub counted : r.rounds ≡ n + 1
    pub bounded : r.rounds ≤ config.max_rounds

  -- The provider refused the conversation so far, or all rounds are used.
  pub record HasFailed (e : Error) (s : LoopState Json Float W) : Type 0 where
    pub transcript : Transcript request.messages s.messages s.rounds s.total_tool_calls
    pub why :
        ((w : W) × (llm (next_request serde tools llm request config observed time s.messages) w
            ≡ (err e, s.world)))
        ⊎ (s.rounds ≡ config.max_rounds)
          × (e ≡ exceeded serde tools llm request config observed time)

  abbrev pub IsOutcome : Result ToolLoopResult × LoopState Json Float W → Type 0
  IsOutcome (ok r, s) = IsFinal r
  IsOutcome (err e, s) = HasFailed e s

  module _ (law : AreReadOnly tools) (permit : 0 < config.max_concurrency)
      (all : (round : ℕ) → RunsAll (time.schedule round)) where
    loop-IsOutcome :
        (rounds_left : ℕ) (s : LoopState Json Float W)
        → s.rounds + rounds_left ≡ config.max_rounds
        → Transcript request.messages s.messages s.rounds s.total_tool_calls
        → (out : Result ToolLoopResult × LoopState Json Float W) × (loop serde tools llm request
              config observed time rounds_left s
            ≡ some out)
          × IsOutcome out
    unfolding loop
    loop-IsOutcome zero s n h = (
      (err (exceeded serde tools llm request config observed time), s),
      refl,
      record { transcript = h; why = inr (omega (arith, n), refl) },
    )
    loop-IsOutcome (suc rounds_left) s n h =
        let asked =
          llm (next_request serde tools llm request config observed time s.messages) s.world in
        elim (Result-cases asked.0) [
          | inr (e, p) ↦ (
            (err e, record s { world = asked.1 }),
            rw (p, loop) refl,
            record { transcript = h; why = inl (s.world, λ i. (p i, asked.1)) },
          )
          | inl (response, p) ↦
              let t = answered serde tools llm request config observed time response asked.1 s in
              let calls = or_no_calls response.tool_calls in
              elim (Bool-cases (is_empty calls)) [
                | inl none_left ↦ (
                  (ok (returned serde tools llm request config observed time response t), t),
                  rw (p, loop) (rw (none_left, loop) refl),
                  record {
                    history = s.messages;
                    calls = response.tool_calls;
                    n = s.rounds;
                    no_calls = none_left;
                    transcript = h;
                    last = refl;
                    counted = refl;
                    bounded = omega (arith, n);
                  },
                )
                | inr more ↦
                    let ran =
                      execute_with_concurrency-one_by_one serde tools (time.elapsed t.rounds) law
                        (time.schedule t.rounds) config.max_concurrency calls asked.1 (all t.rounds)
                        permit in
                    let done = one_by_one serde tools (time.elapsed t.rounds) 0 calls asked.1 in
                    let later =
                      loop-IsOutcome rounds_left
                        (called serde tools llm request config observed time calls done.0 done.1 t)
                        (omega (arith, n))
                        (round response.content calls (map reply done.0) h more
                          (one_by_one-Answer serde tools (time.elapsed t.rounds) 0 calls asked.1)
                          (ap
                            (λ o.
                              (s.messages ++ assistant response.content o ∷ []) ++ map reply done.0)
                            (made_calls response.tool_calls more))
                          refl refl) in
                    (later.0, rw (p, loop) (rw (more, loop) (rw (ran, loop) later.1)), later.2)
              ]
        ]

    -- Where the tools marked `ReadOnly` leave the state as it is, every task of a batch gets to run and
    -- there is a permit, the tool loop ends. Where it returns a result, the conversation is the
    -- request's, then rounds of a message with calls and one answer to each call, in the order of
    -- the calls, and then the message with the final text and no calls; the rounds are at most
    -- `max_rounds`, and the calls are counted. Where it fails, the provider refused the next request
    -- with that error, or the rounds are used up and the error says so.
    pub run_tool_loop-IsOutcome :
        (w : W) (events : List (Event Json Float))
        → (out : Result ToolLoopResult × LoopState Json Float W) × (run_tool_loop serde tools llm
              request config observed time w events
            ≡ some out)
          × IsOutcome out
    unfolding run_tool_loop
    run_tool_loop-IsOutcome w events =
        loop-IsOutcome config.max_rounds
          (started serde tools llm request config observed time w events) (omega arith)
          (begins refl refl refl)
