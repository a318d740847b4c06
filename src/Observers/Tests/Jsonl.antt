-- ===== src/Observers/Tests/Jsonl.antt =====
-- The observer of a file at concrete calls: an LLM call is left out, and a step is followed by a flush.
use tianshu_rs.Base.{
  ℕ, String, true, false, none, some, List, [], ◌∷◌, ◌++◌, ok, ◌≡◌, format, length,
}
use tianshu_rs.Observe.{StepRecord, Event, on_step, flush}
use tianshu_rs.Observers.Jsonl.{Values, JsonlObserver, new, observe, open_file, take_event, Message}
use tianshu_rs.Observers.Jsonl.Written.{
  Runs, begins, observes, opens, takes, lines_of, flushes_of, messages_from, IsAtWork,
  Runs-IsWritten,
}
use tianshu_rs.Observers.Jsonl.Flushes.{take_each, Runs-drain, Runs-silent}

abbrev values : Values String ℕ
values = record {
  of_step = λ r. ok r.step_name;
  of_workflow = λ r. ok r.case_key;
  of_llm_call = λ r. ok r.model;
  empty = "{}";
  with_type = λ tag v. format (tag ∷ ":" ∷ v ∷ []);
  to_string = λ v. ok v;
}

abbrev submitted : StepRecord String
submitted = record {
  case_key = "a";
  workflow_code = "review";
  step_name = "submitted";
  input_resource_data = none;
  output = some "x";
  duration_ms = 1;
  timestamp = 4;
  cached = false;
  error = none;
}

abbrev calls : List (Event String ℕ)
calls = on_step submitted ∷ flush ∷ []

-- the calls are made, and then the task opens the file
abbrev called : JsonlObserver
called = open_file true (observe values flush (observe values (on_step submitted) new))

called-Runs : Runs values true true calls called
called-Runs = opens (observes flush (observes (on_step submitted) begins))

Runs-IsWritten_example :
    (part : List Message) × (messages_from values 0 calls ≡ part ++ (take_event true called).queue)
    × ((take_event true called).file ≡ lines_of part)
    × ((take_event true called).notified ≡ flushes_of part)
    × IsAtWork (take_event true called).writer
Runs-IsWritten_example = Runs-IsWritten values (takes called-Runs)

Runs-drain_example :
    let after = take_each (length called.queue) (open_file true called) in
    Runs values true true calls after
    × (after.file ≡ lines_of (messages_from values 0 calls))
    × (after.notified ≡ flushes_of (messages_from values 0 calls))
Runs-drain_example = Runs-drain values called-Runs

abbrev unopened : JsonlObserver
unopened = observe values flush (open_file false (observe values (on_step submitted) new))

Runs-silent_example : (unopened.notified ≡ []) × (unopened.file ≡ [])
Runs-silent_example =
    Runs-silent values {lossless = true}
      (observes flush (opens (observes (on_step submitted) begins)))
