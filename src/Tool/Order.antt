-- ===== src/Tool/Order.antt =====
-- crates/workflow_engine/src/tool.rs: calls that run in parallel give what the calls give one after
-- the other, and batches that never end.
use mathlib.Core.Option
use tianshu_rs.Base.{
  ℕ, zero, suc, ◌+◌, ◌≤◌, ◌<◌, true, none, some, List, [], ◌∷◌, ◌++◌, nat_eq, ◌≡◌, inl, inr, arith,
  length, get_elem?, refl, sym, ◌∙◌, ap, Bool-cases,
}
use tianshu_rs.Base.HashMap
use tianshu_rs.Llm.{ToolCall, ToolResult}
use tianshu_rs.Context.{Serde}
use tianshu_rs.Tool.{
  ToolRegistry, may_batch, execute_call, batch_of, after_batch, Finished, run_tasks, await_from,
  run_batch, run_calls, execute_with_concurrency, one_by_one,
}
use tianshu_rs.Tool.Tasks.{
  AreReadOnly, RunsAll, MayBatch, batch_of-MayBatch, batch_of-append-after_batch,
  length-after_batch, execute_call_keeps, run_tasks-Ran,
}

module _ {Json W : Type 0} (serde : Serde Json) (tools : ToolRegistry Json W)
    (elapsed : ℕ → ℕ) where
  abbrev sequence : ℕ → List ToolCall → W → List (ToolResult × ℕ) × W
  sequence = one_by_one serde tools elapsed

  one_by_one-append :
      (i : ℕ) (cs ds : List ToolCall) (w : W)
      → sequence i (cs ++ ds) w ≡ (
        (sequence i cs w).0 ++ (sequence (i + length cs) ds (sequence i cs w).1).0,
        (sequence (i + length cs) ds (sequence i cs w).1).1,
      )
  unfolding one_by_one
  one_by_one-append i [] ds w = ap (λ n. sequence n ds w) (omega arith)
  one_by_one-append i (c ∷ cs) ds w =
      let ih = one_by_one-append (i + 1) cs ds (execute_call serde tools c w).1 in
      let n : (i + 1) + length cs ≡ i + suc (length cs) = omega arith in
      rw (← n) (
        ap
          (λ (r : List (ToolResult × ℕ) × W).
            (((execute_call serde tools c w).0, elapsed i) ∷ r.0, r.1))
          ih)

  module _ (law : AreReadOnly tools) where
    one_by_one_keeps :
        (i : ℕ) (cs : List ToolCall) (w : W) → MayBatch tools cs → (sequence i cs w).1 ≡ w
    unfolding one_by_one
    one_by_one_keeps i [] w m = refl
    one_by_one_keeps i (c ∷ cs) w m =
        rw (execute_call_keeps serde tools law c w m.0) (one_by_one_keeps (i + 1) cs w m.1)

    await_from-one_by_one :
        (start j : ℕ) (batch : List ToolCall) (done : Finished) (w : W)
        → MayBatch tools batch
        → ((i : ℕ)
            → i < length batch
            → HashMap.get done (j + i)
              ≡ Option.map
                  (λ c. ((execute_call serde tools c w).0, elapsed (start + (j + i))))
                  (get_elem? batch i))
        → await_from j batch done ≡ some (sequence (start + j) batch w).0
    unfolding await_from one_by_one
    await_from-one_by_one start j [] done w m found = refl
    await_from-one_by_one start j (c ∷ batch) done w m found =
        let first = found 0 (omega arith) in
        let n : (start + j) + 1 ≡ start + (j + 1) = omega arith in
        let later = await_from-one_by_one start (j + 1) batch done w m.1 (λ i h.
          let p : j + suc i ≡ (j + 1) + i = omega arith in rw p at (found (suc i) (omega arith))) in
        let same = execute_call_keeps serde tools law c w m.0 in
        ground (arith, first, later, same, n)

    module _ (schedule : ℕ → ℕ → List ℕ) (all : RunsAll schedule) (max_concurrency : ℕ)
        (some_permit : 0 < max_concurrency) where
      run_batch-one_by_one :
          (start : ℕ) (batch : List ToolCall) (w : W)
          → MayBatch tools batch
          → run_batch serde tools elapsed max_concurrency schedule start batch w
            ≡ some (sequence start batch w)
      unfolding run_batch HashMap.get
      run_batch-one_by_one start batch w m =
          let ran =
            run_tasks-Ran serde tools law elapsed start batch w (schedule start (length batch))
              ([], w) refl (λ j. inl refl) m in
          let found =
            await_from-one_by_one start 0 batch
              (run_tasks serde tools elapsed start batch (schedule start (length batch)) ([], w)).0
              w m
              (λ i h.
                let z : 0 + i ≡ i = omega arith in
                rw z (ran.has i (inl (all start (length batch) i h)))) in
          let kept = ran.keeps in
          let same = one_by_one_keeps start batch w m in
          let n : start + 0 ≡ start = omega arith in ground (arith, found, kept, same, n)

      run_calls-one_by_one :
          (fuel i : ℕ) (calls : List ToolCall) (w : W)
          → length calls ≤ fuel
          → run_calls serde tools elapsed fuel max_concurrency schedule i calls w
            ≡ some (sequence i calls w)
      unfolding run_calls one_by_one
      run_calls-one_by_one fuel i [] w h = refl
      run_calls-one_by_one zero i (c ∷ cs) w h = absurd (omega arith)
      run_calls-one_by_one (suc fuel) i (c ∷ cs) w h = elim (Bool-cases (may_batch tools c)) [
        | inr alone ↦
            let later =
              run_calls-one_by_one fuel (i + 1) cs (execute_call serde tools c w).1 (omega arith) in
            rw (alone, run_calls) (rw later refl)
        | inl first ↦
            let batch = c ∷ batch_of tools cs in
            let shorter = length-after_batch tools cs in
            let ran = run_batch-one_by_one i batch w (first, batch_of-MayBatch tools cs) in
            let later =
              run_calls-one_by_one fuel (i + length batch) (after_batch tools cs)
                (sequence i batch w).1 (omega (arith, shorter)) in
            let parts = one_by_one-append i batch (after_batch tools cs) w in
            let whole : batch ++ after_batch tools cs ≡ c ∷ cs =
              ap (◌∷◌ c) (batch_of-append-after_batch tools cs) in
            rw (first, run_calls)
              (rw (ran, run_calls)
                (rw later (ap some (sym parts ∙ ap (λ l. sequence i l w) whole))))
      ]

    -- Where the tools marked `ReadOnly` leave the state as it is, every task of a batch gets to run,
    -- in any order, and there is a permit, the calls end, and their results, in the order of the
    -- calls, and the state are those of the calls executed one after the other.
    pub execute_with_concurrency-one_by_one :
        (schedule : ℕ → ℕ → List ℕ) (max_concurrency : ℕ) (calls : List ToolCall) (w : W)
        → RunsAll schedule
        → 0 < max_concurrency
        → execute_with_concurrency serde tools elapsed max_concurrency schedule calls w
          ≡ some (one_by_one serde tools elapsed 0 calls w)
    unfolding execute_with_concurrency
    execute_with_concurrency-one_by_one schedule k calls w all permit =
        run_calls-one_by_one schedule all k permit (length calls) 0 calls w (omega arith)

  -- With no permits, calls of which the first is of a tool that is marked `ReadOnly` never end: there
  -- is no result.
  pub execute_without_permits :
      (schedule : ℕ → ℕ → List ℕ) (c : ToolCall) (cs : List ToolCall) (w : W)
      → may_batch tools c ≡ true
      → execute_with_concurrency serde tools elapsed 0 schedule (c ∷ cs) w ≡ none
  unfolding execute_with_concurrency run_calls run_batch run_tasks await_from HashMap.get
  execute_without_permits schedule c cs w m = ground (arith, m)
