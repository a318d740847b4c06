-- ===== src/Approval/Tests/Decision.antt =====
-- The approval workflow at a concrete case, from its submission to the decision after a restart.
use tianshu_rs.Base.{ℕ, String, none, some, [], ◌∷◌, Result, ok, ◌≡◌, refl, arith, string_eq}
use tianshu_rs.Base.HashMap
use tianshu_rs.Case
use tianshu_rs.Case.{Case, mc_finish}
use tianshu_rs.Store.Memory
use tianshu_rs.Store.State
use tianshu_rs.Store.Memory.{InMemoryCaseStore, in_memory_case_store}
use tianshu_rs.Store.State.{InMemoryStateStore, in_memory_state_store, in_memory-IsStateStore}
use tianshu_rs.Workflow.{WorkflowResult, waits, finishes}
use tianshu_rs.Context.{IsSerde, IsCodec, WorkflowContext, new, checkpoint_step_key}
use tianshu_rs.Context.Checkpoint.{get_checkpoint}
use tianshu_rs.Context.Step.{Timing}
use tianshu_rs.Context.Finish.{FinishTiming}
use tianshu_rs.Approval.{review_poll, run}
use tianshu_rs.Approval.Decision.{run_waits_and_finishes}
use tianshu_rs.Approval.Tests.{serde, codec, field}

laws : IsSerde serde
laws = record {
  from_str-to_string = λ v t e. ground (arith, e);
  null_is_null = refl;
  null_text = "null";
  null_prints = refl;
}

round_trip : IsCodec codec
round_trip = record { from_value-to_value = λ t v e. ground (arith, e) }

abbrev Ctx : Type 0
Ctx = WorkflowContext String ℕ (InMemoryCaseStore String) InMemoryStateStore

abbrev submitted_case : Case String
submitted_case = record (Case.new 3 "demo" "s" "approval") { resource_data = some "submitted" }

abbrev decided_case : Case String
decided_case = record submitted_case { resource_data = some "approved" }

abbrev no_state : InMemoryStateStore
no_state = record { entries = []; session_entries = [] }

abbrev timing : Timing
timing = record { timestamp = 5; saved_at = 7; duration_ms = 3 }

abbrev ending : FinishTiming
ending = record { updated_at = 8; finished_at = 9; total_duration_ms = 4 }

abbrev left : InMemoryStateStore
left = (State.save 7 "demo" "wf_submitted" "(untitled)" no_state).1

abbrev first : Result WorkflowResult × Ctx
first =
    run serde codec field in_memory_case_store in_memory_state_store timing ending
      (new submitted_case [] no_state)

abbrev second : Result WorkflowResult × Ctx
second =
    run serde codec field in_memory_case_store in_memory_state_store timing ending
      (new decided_case [] left)

abbrev finished_case : Case String
finished_case = mc_finish 8 "approved" "approved" decided_case

run_waits_and_finishes_example :
    (first.0 ≡ ok (waits (review_poll "demo" ∷ [])))
    × (first.1.state_store ≡ left)
    × (second.0 ≡ ok (finishes "approved" "approved"))
    × (second.1.case ≡ finished_case)
    × (second.1.case_store ≡ HashMap.insert [] "demo" finished_case)
    × (State.get "demo" "wf_submitted" second.1.state_store ≡ ok none)
unfolding get_checkpoint new HashMap.get State.get State.save State.delete_by_case Memory.upsert
    checkpoint_step_key Case.new mc_finish
run_waits_and_finishes_example =
    run_waits_and_finishes serde codec field in_memory_case_store in_memory_state_store laws
      round_trip in_memory-IsStateStore timing timing ending ending "(untitled)" "approved"
      "approved" "(untitled)" left (State.delete_by_case "demo" left).1
      (HashMap.insert [] "demo" finished_case) (new submitted_case [] no_state)
      (new decided_case [] left) refl refl refl refl refl refl refl refl refl refl refl refl refl
      "wf_submitted"
