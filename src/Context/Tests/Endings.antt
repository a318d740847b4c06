-- ===== src/Context/Tests/Endings.antt =====
-- The end of a workflow at concrete inputs.
use tianshu_rs.Base.{String, Bool, none, [], ok, ◌≡◌, refl, if◌then◌else◌, ◌==◌, string_eq}
use tianshu_rs.Base.HashMap
use tianshu_rs.Case
use tianshu_rs.Case.{Case, mc_finish}
use tianshu_rs.Store.Memory
use tianshu_rs.Store.State
use tianshu_rs.Store.Memory.{InMemoryCaseStore, in_memory_case_store}
use tianshu_rs.Store.State.{in_memory_state_store, in_memory-IsStateStore}
use tianshu_rs.Context.{new}
use tianshu_rs.Context.Finish.{FinishTiming, finish}
use tianshu_rs.Context.Finish.Laws.{finish_cleans_up}
use tianshu_rs.Context.Tests.{case, saved_as, resumed}

abbrev ending : FinishTiming
ending = record { updated_at = 20; finished_at = 21; total_duration_ms = 20 }

abbrev done_case : Case Bool
done_case = mc_finish 20 "ok" "approved" case

abbrev stored : InMemoryCaseStore Bool
stored = HashMap.insert [] "case_1" done_case

finish_cleans_up_example :
    State.get "case_1" "wf_ask"
      (finish in_memory_case_store in_memory_state_store ending "ok" "approved"
        (resumed "true")).1.state_store
    ≡ (if ◌==◌ {K = String} "case_1" "case_1"
        then ok none
        else State.get "case_1" "wf_ask" (saved_as "true"))
unfolding Memory.upsert State.delete_by_case Case.new new mc_finish
finish_cleans_up_example =
    finish_cleans_up in_memory_case_store in_memory_state_store ending "ok" "approved"
      (resumed "true") stored (State.delete_by_case "case_1" (saved_as "true")).1 "case_1" "wf_ask"
      in_memory-IsStateStore refl refl
