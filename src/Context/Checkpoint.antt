-- ===== src/Context/Checkpoint.antt =====
-- crates/workflow_engine/src/context.rs: the checkpoint methods.
pub mod Keys
pub mod Cleared
pub mod Coherence
pub mod Operations
use tianshu_rs.Base.{
  ℕ, String, Bool, true, false, Option, none, some, List, [], ◌∷◌, Result, ok, err, if◌then◌else◌,
  string_eq,
}
use tianshu_rs.Base.HashMap
use tianshu_rs.Base.Exec.{Exec, ◌>>=◌, ◌>>◌, pure, lift, modify}
use tianshu_rs.Store.{StateEntry, StateStore}
use tianshu_rs.Context.{Serde, WorkflowContext, checkpoint_step_key, cache_key}

module _ {Json Float C S : Type 0} where
  abbrev pub insert_cache :
      String → Json → WorkflowContext Json Float C S → WorkflowContext Json Float C S
  insert_cache key value c = record c {
    checkpoint_cache = HashMap.insert c.checkpoint_cache key value;
  }

  -- `self.state_store.save(&self.case.case_key, step_key, contents)`
  unfoldable pub save_entry :
      StateStore S
      → (now : ℕ) (step_key contents : String) → Exec (WorkflowContext Json Float C S) (Unit {0})
  save_entry states now step_key contents c =
      let (r, s) = states.save now c.case.case_key step_key contents c.state_store in
      (r, record c { state_store = s })

module _ {Json Float C S : Type 0} (serde : Serde Json) (states : StateStore S) where
  -- the branch of an entry's value: null marks a cleared step
  abbrev read_value : String → Result Json → Exec (WorkflowContext Json Float C S) (Option Json)
  read_value key (err e) c = (err e, c)
  read_value key (ok value) c =
      if serde.is_null value then (ok none, c) else (ok (some value), insert_cache key value c)

  abbrev read_entry :
      String → Result (Option StateEntry) → Exec (WorkflowContext Json Float C S) (Option Json)
  read_entry key (err e) c = (err e, c)
  read_entry key (ok none) c = (ok none, c)
  read_entry key (ok (some entry)) c = read_value key (serde.from_str entry.contents) c

  unfoldable pub get_checkpoint : String → Exec (WorkflowContext Json Float C S) (Option Json)
  get_checkpoint step_name c =
      let step_key = checkpoint_step_key step_name in
      let key = cache_key c.case.case_key step_key in
      elim (HashMap.get c.checkpoint_cache key) [
        | some v ↦ (ok (some v), c)
        | none ↦ read_entry key (states.get c.case.case_key step_key c.state_store) c
      ]

  unfoldable pub save_checkpoint :
      (now : ℕ) → String → Json → Exec (WorkflowContext Json Float C S) (Unit {0})
  unfolding save_entry
  save_checkpoint now step_name value = do
    contents ← lift (serde.to_string value)
    save_entry states now (checkpoint_step_key step_name) contents
    modify λ c. insert_cache (cache_key c.case.case_key (checkpoint_step_key step_name)) value c

  unfoldable pub clear_step : (now : ℕ) → String → Exec (WorkflowContext Json Float C S) (Unit {0})
  unfolding save_entry
  clear_step now step_name = do
    modify λ c. record c {
      checkpoint_cache =
          HashMap.remove c.checkpoint_cache
            (cache_key c.case.case_key (checkpoint_step_key step_name));
    }
    contents ← lift (serde.to_string serde.null)
    save_entry states now (checkpoint_step_key step_name) contents

  unfoldable pub clear_steps :
      (now : ℕ) → List String → Exec (WorkflowContext Json Float C S) (Unit {0})
  unfolding clear_step
  clear_steps now [] = pure tt
  clear_steps now (s ∷ rest) = do clear_step now s; clear_steps now rest
