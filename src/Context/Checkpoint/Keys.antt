-- ===== src/Context/Checkpoint/Keys.antt =====
-- crates/workflow_engine/src/context.rs: which names share an entry of the store.
use text.Mathlib.TextLemmas.{append_assoc, append_cancel_left}
use tianshu_rs.Base.{String, [], ◌∷◌, ◌≡◌, sym, format}
use tianshu_rs.Context.{checkpoint_step_key, state_step_key, cache_key}

checkpoint_step_key_inj : (a b : String) → checkpoint_step_key a ≡ checkpoint_step_key b → a ≡ b
unfolding checkpoint_step_key
checkpoint_step_key_inj a b e = append_cancel_left "wf_" a b e

-- For one case, two store keys with the same cache key are the same.
pub cache_key_inj : (k a b : String) → cache_key k a ≡ cache_key k b → a ≡ b
unfolding cache_key
cache_key_inj k a b e = append_cancel_left ":" a b (append_cancel_left k _ _ e)

-- The step `state_x` and the variable `x` of a case are kept under one key.
pub checkpoint_key-state_key :
    (x : String) → checkpoint_step_key (format ("state_" ∷ x ∷ [])) ≡ state_step_key x
unfolding checkpoint_step_key state_step_key
checkpoint_key-state_key x = sym (append_assoc "wf_" "state_" x)
