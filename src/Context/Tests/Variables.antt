-- ===== src/Context/Tests/Variables.antt =====
-- Checkpoints and variables at concrete inputs.
use tianshu_rs.Base.{true, false, [], ok, ◌≡◌, refl}
use tianshu_rs.Case
use tianshu_rs.Store.State
use tianshu_rs.Store.State.{in_memory_state_store, in_memory-IsStateStore}
use tianshu_rs.Context.{new}
use tianshu_rs.Context.Checkpoint.{save_checkpoint, clear_step}
use tianshu_rs.Context.Checkpoint.Coherence.{IsCoherent}
use tianshu_rs.Context.Checkpoint.Operations.{
  saves, clears, Reached, start, next, Reached-new-IsCoherent,
}
use tianshu_rs.Context.Variables.{get_state, set_state}
use tianshu_rs.Context.Variables.Laws.{get_state-set_state}
use tianshu_rs.Context.Tests.{serde, laws, codec, round_trip, Ctx, fresh, case, no_state}

abbrev after_save : Ctx
after_save = (save_checkpoint serde in_memory_state_store 7 "ask" true fresh).1

abbrev after_clear : Ctx
after_clear = (clear_step serde in_memory_state_store 9 "ask" after_save).1

steps : Reached serde in_memory_state_store fresh after_clear
unfolding save_checkpoint clear_step State.save new Case.new
steps = next (clears 9 "ask") (next (saves 7 "ask" true) start refl) refl

Reached-new-IsCoherent_example : IsCoherent serde in_memory_state_store after_clear
Reached-new-IsCoherent_example =
    Reached-new-IsCoherent serde in_memory_state_store laws in_memory-IsStateStore case [] no_state
      after_clear steps

abbrev after_set : Ctx
after_set = (set_state serde codec in_memory_state_store 7 "approved" true fresh).1

abbrev restarted : Ctx
restarted = new case [] after_set.state_store

get_state-set_state_example :
    ((get_state serde codec in_memory_state_store "approved" false after_set).0 ≡ ok true)
    × ((get_state serde codec in_memory_state_store "approved" false restarted).0 ≡ ok true)
unfolding set_state State.save new
get_state-set_state_example =
    get_state-set_state serde codec in_memory_state_store laws round_trip in_memory-IsStateStore 7
      "approved" "true" true true fresh after_set restarted refl refl refl false false refl refl
      refl
