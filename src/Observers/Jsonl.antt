-- ===== src/Observers/Jsonl.antt =====
-- crates/workflow_engine_observe/src/jsonl.rs: `JsonlObserver`. The calls on the observer send events
-- on a channel, and a task takes them one after the other and writes the lines to a file. `open_file`
-- and `take_event` are the steps of the task; the steps of the observer and of the task may follow one
-- another in any order. `serde_json` and the file are parameters or outcomes of a step.
pub mod Written
pub mod Flushes
use tianshu_rs.Base.{
  ℕ, zero, suc, String, Bool, true, false, Option, none, some, List, [], ◌∷◌, ◌++◌, Result, ok, err,
  if◌then◌else◌,
}
use tianshu_rs.Observe.{
  StepRecord, WorkflowRecord, LlmCallRecord, Event, on_step, on_workflow_complete, on_llm_call,
  on_tool_call, on_retry, on_probe, flush,
}
use tianshu_rs.Observers.{Observer}

-- What the observer calls of `serde_json`; `with_type` is the insertion of the field `type` into a
-- value that is an object, and `empty` is `json!({})`.
pub record Values (Json Float : Type 0) : Type 0 where
  pub of_step : StepRecord Json → Result Json
  pub of_workflow : WorkflowRecord Json → Result Json
  pub of_llm_call : LlmCallRecord Json Float → Result Json
  pub empty : Json
  pub with_type : String → Json → Json
  pub to_string : Json → Result String

-- an event of the channel; a flush carries the number of its notification
pub data Message : Type 0 where
  line : String → Message
  flushing : ℕ → Message

-- the task: before the file is opened, with the file open, and after it has returned
pub data Writer : Type 0 where
  starting writing returned : Writer

-- The channel, what the task has written, which notifications it has given, and how many flushes were
-- begun.
pub record JsonlObserver : Type 0 where
  pub writer : Writer
  pub queue : List Message
  pub file : List String
  pub notified : List ℕ
  pub flushes : ℕ

unfoldable pub new : JsonlObserver
new = record { writer = starting; queue = []; file = []; notified = []; flushes = 0 }

-- A message to a receiver that is gone is dropped.
abbrev pub push : Writer → Message → List Message → List Message
push returned m queue = queue
push _ m queue = queue ++ m ∷ []

unfoldable pub send : Message → JsonlObserver → JsonlObserver
send m o = record o { queue = push o.writer m o.queue }

abbrev unwrap_or {ℓ} : {A : Type ℓ} → Result A → A → A
unwrap_or (ok a) other = a
unwrap_or (err e) other = other

abbrev pub sent_as : Result String → List Message
sent_as (ok text) = line text ∷ []
sent_as (err e) = []

unfoldable pub send_each : List Message → JsonlObserver → JsonlObserver
unfolding send
send_each [] o = o
send_each (m ∷ ms) o = send_each ms (send m o)

module _ {Json Float : Type 0} (values : Values Json Float) where
  -- what `send_record` sends
  unfoldable pub record_messages : String → Result Json → List Message
  record_messages tag value =
      sent_as (values.to_string (values.with_type tag (unwrap_or value values.empty)))

  -- the messages of a call, where `n` flushes were begun before it
  unfoldable pub messages_of : (n : ℕ) → Event Json Float → List Message
  unfolding record_messages
  messages_of n (on_step r) = record_messages "step" (values.of_step r)
  messages_of n (on_workflow_complete r) =
      record_messages "workflow_complete" (values.of_workflow r)
  messages_of n (on_llm_call r) = record_messages "llm_call" (values.of_llm_call r)
  messages_of n flush = flushing n ∷ []
  messages_of n _ = []

abbrev pub begun : {Json Float : Type 0} → Event Json Float → ℕ → ℕ
begun flush n = suc n
begun _ n = n

module _ {Json Float : Type 0} (values : Values Json Float) where
  -- The calls with the default bodies of the trait send nothing. A flush then waits for its
  -- notification.
  unfoldable pub observe : Observer Json Float JsonlObserver
  unfolding messages_of send_each
  observe e o = record (send_each (messages_of values o.flushes e) o) {
    flushes = begun e o.flushes;
  }

-- The task opens the file; where it cannot, it returns, and the channel is closed.
unfoldable pub open_file : (opened : Bool) → JsonlObserver → JsonlObserver
open_file opened o = elim o.writer [
  | starting ↦
      if opened then record o { writer = writing } else record o { writer = returned; queue = [] }
  | writing ↦ o
  | returned ↦ o
]

-- The task handles an event; `written` says whether the write succeeds. A notification is given
-- whether or not the file is flushed.
abbrev pub handle : (written : Bool) → Message → JsonlObserver → JsonlObserver
handle written (line text) o = if written then record o { file = o.file ++ text ∷ [] } else o
handle written (flushing n) o = record o { notified = o.notified ++ n ∷ [] }

abbrev pub take_from : (written : Bool) → List Message → JsonlObserver → JsonlObserver
take_from written [] o = o
take_from written (m ∷ queue) o = handle written m (record o { queue = queue })

unfoldable pub take_event : (written : Bool) → JsonlObserver → JsonlObserver
take_event written o = elim o.writer [
  | starting ↦ o
  | writing ↦ take_from written o.queue o
  | returned ↦ o
]
