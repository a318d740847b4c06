-- ===== src/Context/ToolStep.antt =====
-- crates/workflow_engine/src/context.rs: `tool_step`. The state `W` of the provider and the tools
-- stands beside the context.
use mathlib.Core.Option
use tianshu_rs.Base.{ℕ, String, Option, none, some, Result, ok, err, ◌≡◌, refl}
use tianshu_rs.Base.Exec.{Exec, ◌>>=◌, ◌>>◌, pure, lift}
use tianshu_rs.Llm.{LlmRequest, LlmProvider}
use tianshu_rs.Store.{StateStore}
use tianshu_rs.Context.{Serde, Codec, WorkflowContext}
use tianshu_rs.Context.Checkpoint.{save_checkpoint}
use tianshu_rs.Tool.{ToolRegistry}
use tianshu_rs.Tool.Loop.{ToolLoopConfig, ToolLoopResult, LoopState, Rounds, run_tool_loop}

module _ {Json Float C S W : Type 0} where
  abbrev pub world_of :
      Option (Result ToolLoopResult × WorkflowContext Json Float C S × W) → Option W
  world_of none = none
  world_of (some (result, c, w)) = some w

module _ {Json Float C S W : Type 0} (serde : Serde Json) (codec : Codec Json String)
    (states : StateStore S) (llm : LlmProvider Json Float W) (tools : ToolRegistry Json W) where
  abbrev save_text :
      (saved_at : ℕ)
      → String
      → ToolLoopResult
      → Exec (WorkflowContext Json Float C S) ToolLoopResult
  save_text saved_at step_name result = do
    value ← lift (codec.to_value result.final_text)
    save_checkpoint serde states saved_at step_name value
    pure result

  abbrev after_loop :
      (saved_at : ℕ)
      → String
      → Result ToolLoopResult
      → Exec (WorkflowContext Json Float C S) ToolLoopResult
  after_loop saved_at step_name (err e) = lift (err e)
  after_loop saved_at step_name (ok result) = save_text saved_at step_name result

  abbrev loop_done :
      (saved_at : ℕ)
      → String
      → WorkflowContext Json Float C S
      → Option (Result ToolLoopResult × LoopState Json Float W)
      → Option (Result ToolLoopResult × WorkflowContext Json Float C S × W)
  loop_done saved_at step_name c none = none
  loop_done saved_at step_name c (some (r, s)) =
      let (result, c') = after_loop saved_at step_name r (record c { events = s.events }) in
      some (result, c', s.world)

  unfoldable pub tool_step :
      (time : Rounds) (saved_at : ℕ)
      → String
      → LlmRequest Json Float
      → ToolLoopConfig
      → W
      → WorkflowContext Json Float C S
      → Option (Result ToolLoopResult × WorkflowContext Json Float C S × W)
  tool_step time saved_at step_name request config w c =
      loop_done saved_at step_name c
        (run_tool_loop serde tools llm request config c.observed time w c.events)

  loop_done_world :
      (saved_at : ℕ) (step_name : String) (c : WorkflowContext Json Float C S)
      (o : Option (Result ToolLoopResult × LoopState Json Float W))
      → world_of (loop_done saved_at step_name c o) ≡ Option.map (λ out. out.1.world) o
  loop_done_world saved_at step_name c none = refl
  loop_done_world saved_at step_name c (some (r, s)) = refl

  -- What a tool step asks of the model and does with the tools does not depend on the checkpoints:
  -- whatever the cache and the store hold for the step, its state of the provider and the tools is
  -- the one that the whole loop leaves, also where the step was saved before.
  pub tool_step_runs_again :
      (time : Rounds) (saved_at : ℕ) (step_name : String) (request : LlmRequest Json Float)
      (config : ToolLoopConfig) (w : W) (c : WorkflowContext Json Float C S)
      → world_of (tool_step time saved_at step_name request config w c)
        ≡ Option.map
            (λ out. out.1.world)
            (run_tool_loop serde tools llm request config c.observed time w c.events)
  unfolding tool_step
  tool_step_runs_again time saved_at step_name request config w c =
      loop_done_world saved_at step_name c _
