-- ===== src/Context/Variables.antt =====
-- crates/workflow_engine/src/context.rs: the variables of a case and of a session.
pub mod Laws
use tianshu_rs.Base.{string_eq, ℕ, String, Option, none, some, Result, ok, err}
use tianshu_rs.Base.HashMap
use tianshu_rs.Base.Exec.{Exec, ◌>>=◌, ◌>>◌, lift, modify}
use tianshu_rs.Store.{StateEntry, SessionStateEntry, StateStore}
use tianshu_rs.Context.{
  Serde, Codec, WorkflowContext, state_step_key, session_state_step_key, cache_key,
  session_cache_key,
}
use tianshu_rs.Context.Checkpoint.{insert_cache, save_entry}

abbrev entry_text : Result (Option StateEntry) → Result (Option String)
entry_text (err e) = err e
entry_text (ok none) = ok none
entry_text (ok (some entry)) = ok (some entry.contents)

abbrev session_text : Result (Option SessionStateEntry) → Result (Option String)
session_text (err e) = err e
session_text (ok none) = ok none
session_text (ok (some entry)) = ok (some entry.contents)

module _ {Json Float C S T : Type 0} (serde : Serde Json) (codec : Codec Json T)
    (states : StateStore S) where
  abbrev keep_value : String → Json → Exec (WorkflowContext Json Float C S) T
  keep_value key value = do modify λ c. insert_cache key value c; lift (codec.from_value value)

  -- the stored text of a variable, or its default
  abbrev read_text : String → T → Result (Option String) → Exec (WorkflowContext Json Float C S) T
  read_text key default (err e) c = (err e, c)
  read_text key default (ok none) c = (ok default, c)
  read_text key default (ok (some text)) c =
      (do value ← lift (serde.from_str text); keep_value key value) c

  unfoldable pub get_state : String → T → Exec (WorkflowContext Json Float C S) T
  get_state name default c =
      let step_key = state_step_key name in
      let key = cache_key c.case.case_key step_key in
      elim (HashMap.get c.checkpoint_cache key) [
        | some v ↦ (codec.from_value v, c)
        | none ↦
            read_text key default (entry_text (states.get c.case.case_key step_key c.state_store)) c
      ]

  unfoldable pub set_state :
      (now : ℕ) → String → T → Exec (WorkflowContext Json Float C S) (Unit {0})
  unfolding save_entry
  set_state now name value = do
    json_value ← lift (codec.to_value value)
    contents ← lift (serde.to_string json_value)
    save_entry states now (state_step_key name) contents
    modify λ c. insert_cache (cache_key c.case.case_key (state_step_key name)) json_value c

  unfoldable pub get_session_state : String → T → Exec (WorkflowContext Json Float C S) T
  get_session_state name default c =
      let step_key = session_state_step_key name in
      let key = session_cache_key c.case.session_id step_key in
      elim (HashMap.get c.checkpoint_cache key) [
        | some v ↦ (codec.from_value v, c)
        | none ↦
            read_text key default
              (session_text (states.get_session c.case.session_id step_key c.state_store)) c
      ]

  abbrev save_session_entry :
      (now : ℕ) (step_key contents : String) → Exec (WorkflowContext Json Float C S) (Unit {0})
  save_session_entry now step_key contents c =
      let (r, s) = states.save_session now c.case.session_id step_key contents c.state_store in
      (r, record c { state_store = s })

  unfoldable pub set_session_state :
      (now : ℕ) → String → T → Exec (WorkflowContext Json Float C S) (Unit {0})
  set_session_state now name value = do
    json_value ← lift (codec.to_value value)
    contents ← lift (serde.to_string json_value)
    save_session_entry now (session_state_step_key name) contents
    modify λ c.
        insert_cache (session_cache_key c.case.session_id (session_state_step_key name)) json_value
          c
