-- ===== src/Context/Step.antt =====
-- crates/workflow_engine/src/context.rs: `step` and `step_with_retry`.
pub mod Replay
use tianshu_rs.Base.{
  ℕ, String, Bool, true, false, Option, none, some, List, [], ◌∷◌, ◌++◌, Result, ok, err, Error,
  if◌then◌else◌,
}
use tianshu_rs.Base.Exec.{Exec, ◌>>=◌, ◌>>◌, pure, lift, modify}
use tianshu_rs.Store.{StateStore}
use tianshu_rs.Observe.{StepRecord, Event, on_step}
use tianshu_rs.Retry.{RetryPolicy, RetryContext, Outcome, with_retry}
use tianshu_rs.Context.{Serde, Codec, WorkflowContext, emit}
use tianshu_rs.Context.Checkpoint.{get_checkpoint, save_checkpoint}

-- the clock readings of one step
pub record Timing : Type 0 where
  pub timestamp : ℕ
  pub duration_ms : ℕ
  pub saved_at : ℕ

module _ {Json Float C S : Type 0} where
  -- a record is kept, and handed to the observer if there is one
  abbrev pub record_step :
      StepRecord Json → WorkflowContext Json Float C S → WorkflowContext Json Float C S
  record_step r c = emit (on_step r) (record c { step_records = c.step_records ++ r ∷ [] })

  abbrev pub restored_record :
      Timing → String → Option Json → Json → WorkflowContext Json Float C S → StepRecord Json
  restored_record t step_name input cached_value c = record {
    case_key = c.case.case_key;
    workflow_code = c.case.workflow_code;
    step_name = step_name;
    input_resource_data = input;
    output = some cached_value;
    duration_ms = t.duration_ms;
    timestamp = t.timestamp;
    cached = true;
    error = none;
  }

  abbrev pub executed_record :
      Timing
      → String
      → Option Json
      → Option Json
      → Option String
      → WorkflowContext Json Float C S
      → StepRecord Json
  executed_record t step_name input output error c = record {
    case_key = c.case.case_key;
    workflow_code = c.case.workflow_code;
    step_name = step_name;
    input_resource_data = input;
    output = output;
    duration_ms = t.duration_ms;
    timestamp = t.timestamp;
    cached = false;
    error = error;
  }

module _ {Json Float C S T : Type 0} (serde : Serde Json) (codec : Codec Json T)
    (states : StateStore S) where
  -- after `f` has run: its result is recorded, and a success is saved
  unfoldable pub conclude :
      Timing → String → Option Json → Result T → Exec (WorkflowContext Json Float C S) T
  conclude t step_name input (ok v) = do
    value ← lift (codec.to_value v)
    modify λ c. record_step (executed_record t step_name input (some value) none c) c
    save_checkpoint serde states t.saved_at step_name value
    pure v
  conclude t step_name input (err e) = do
    modify λ c. record_step (executed_record t step_name input none (some e.message) c) c
    lift (err e)

  unfoldable pub execute :
      Timing
      → String
      → Option Json
      → Exec (WorkflowContext Json Float C S) T
      → Exec (WorkflowContext Json Float C S) T
  unfolding conclude
  execute t step_name input f c = let (r, c') = f c in conclude t step_name input r c'

  unfoldable pub restore :
      Timing → String → Option Json → Json → Exec (WorkflowContext Json Float C S) T
  restore t step_name input cached_value = do
    modify λ c. record_step (restored_record t step_name input cached_value c) c
    lift (codec.from_value cached_value)

  abbrev after_lookup :
      Timing
      → String
      → Option Json
      → Exec (WorkflowContext Json Float C S) T
      → Option Json
      → Exec (WorkflowContext Json Float C S) T
  after_lookup t step_name input f none = execute t step_name input f
  after_lookup t step_name input f (some cached_value) =
      if serde.is_null cached_value
      then execute t step_name input f
      else restore t step_name input cached_value

  unfoldable pub step :
      Timing
      → String
      → Exec (WorkflowContext Json Float C S) T
      → Exec (WorkflowContext Json Float C S) T
  unfolding execute restore
  step t step_name f c =
      (do
        found ← get_checkpoint serde states step_name
        after_lookup t step_name c.case.resource_data f found)
        c

  -- The closure takes no argument. It is given as a function of the state, so that two calls of it
  -- may differ.
  unfoldable pub step_with_retry :
      (scale : ℕ → Float → ℕ → ℕ)
      → Timing
      → String
      → RetryPolicy Float
      → (WorkflowContext Json Float C S → Result T × WorkflowContext Json Float C S)
      → Exec (WorkflowContext Json Float C S) T
  step_with_retry scale t step_name policy f =
      step t step_name λ c. let o = with_retry scale policy (λ _. f) c in (o.result, o.world)
