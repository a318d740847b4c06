-- ===== src/Context/Tests.antt =====
-- Contexts at concrete inputs. The values of `serde_json` are `null` and `true` here.
mod Variables
mod Endings
mod Families
use tianshu_rs.Base.{
  ℕ, String, Bool, true, false, Option, none, some, List, [], ◌∷◌, ◌++◌, Result, ok, err, ◌≡◌, ◌≢◌,
  refl, ◌==◌, string_eq, if◌then◌else◌, format, arith,
}
use tianshu_rs.Base.HashMap
use tianshu_rs.Base.Exec.{Exec}
use tianshu_rs.Case
use tianshu_rs.Case.{Case}
use tianshu_rs.Store.{StateEntry}
use tianshu_rs.Store.Memory
use tianshu_rs.Store.State
use tianshu_rs.Store.Memory.{InMemoryCaseStore, in_memory_case_store}
use tianshu_rs.Store.State.{InMemoryStateStore, in_memory_state_store, in_memory-IsStateStore}
use tianshu_rs.Context.{
  Serde, IsSerde, Codec, IsCodec, WorkflowContext, new, checkpoint_step_key, cache_key,
}
use tianshu_rs.Context.Checkpoint.{get_checkpoint, save_checkpoint, clear_step}
use tianshu_rs.Context.Checkpoint.Coherence.{IsCoherent}
use tianshu_rs.Context.Checkpoint.Operations.{
  Operation, gets, saves, Reached, start, next, Reached-new-IsCoherent,
}
use tianshu_rs.Context.Step.{Timing, step, execute, executed_record}
use tianshu_rs.Context.Step.Replay.{step_once, step_null_runs_again, step_fails}

pub differ : (a b : String) → (a == b) ≡ false → a ≢ b
differ a b d e = ground (arith, string_eq.same_iff a b)

abbrev serde : Serde Bool
serde = record {
  null = false;
  is_null = λ b. if b then false else true;
  to_string = λ b. ok (if b then "true" else "null");
  from_str = λ t. ok (if t == "null" then false else true);
}

reads_back : (v : Bool) (t : String) → serde.to_string v ≡ ok t → serde.from_str t ≡ ok v
reads_back true t e = let p : "true" ≡ t = ground arith in rw (← p) refl
reads_back false t e = let p : "null" ≡ t = ground arith in rw (← p) refl

laws : IsSerde serde
laws = record {
  from_str-to_string = reads_back;
  null_is_null = refl;
  null_text = "null";
  null_prints = refl;
}

abbrev codec : Codec Bool Bool
codec = record { to_value = λ b. ok b; from_value = λ b. ok b }

round_trip : IsCodec codec
round_trip = record { from_value-to_value = λ t v e. ground arith }

abbrev Ctx : Type 0
Ctx = WorkflowContext Bool ℕ (InMemoryCaseStore Bool) InMemoryStateStore

abbrev no_state : InMemoryStateStore
no_state = record { entries = []; session_entries = [] }

abbrev case : Case Bool
case = Case.new 1 "case_1" "session_1" "approval"

abbrev fresh : Ctx
fresh = new case [] no_state

abbrev timing : Timing
timing = record { timestamp = 5; saved_at = 7; duration_ms = 3 }

abbrev answers : Bool → Exec Ctx Bool
answers b c = (ok b, c)

abbrev breaks : Exec Ctx Bool
breaks c = (err (record { message = "timeout" }), c)

abbrev saved_as : String → InMemoryStateStore
saved_as text = (State.save 7 "case_1" "wf_ask" text no_state).1

abbrev resumed : String → Ctx
resumed text = new case [] (saved_as text)

step_once_example :
    ((step serde codec in_memory_state_store timing "ask" (answers true) fresh).0 ≡ ok true)
    × ((step serde codec in_memory_state_store timing "ask" (answers true) fresh).1.state_store
        ≡ saved_as "true")
    × ((step serde codec in_memory_state_store timing "ask" breaks (resumed "true")).0 ≡ ok true)
    × ((step serde codec in_memory_state_store timing "ask" breaks (resumed "true")).1.case ≡ case)
    × ((step serde codec in_memory_state_store timing "ask" breaks (resumed "true")).1.case_store
        ≡ [])
    × ((step serde codec in_memory_state_store timing "ask" breaks (resumed "true")).1.state_store
        ≡ saved_as "true")
unfolding get_checkpoint new HashMap.get State.get State.save checkpoint_step_key Case.new
step_once_example =
    step_once serde codec in_memory_state_store laws round_trip in_memory-IsStateStore timing timing
      "ask" "true" true true (saved_as "true") (answers true) breaks fresh fresh fresh
      (resumed "true") refl refl refl refl refl refl refl refl refl

step_fails_example :
    ((step serde codec in_memory_state_store timing "ask" breaks fresh).0
      ≡ err (record { message = "timeout" }))
    × ((step serde codec in_memory_state_store timing "ask" breaks fresh).1.state_store ≡ no_state)
    × ((step serde codec in_memory_state_store timing "ask" breaks fresh).1.checkpoint_cache ≡ [])
    × ((step serde codec in_memory_state_store timing "ask" breaks fresh).1.step_records
        ≡ executed_record timing "ask" none none (some "timeout") fresh ∷ [])
unfolding get_checkpoint new HashMap.get State.get Case.new
step_fails_example =
    step_fails serde codec in_memory_state_store laws round_trip in_memory-IsStateStore timing "ask"
      (record { message = "timeout" }) breaks fresh fresh fresh refl refl
