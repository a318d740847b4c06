-- ===== src/Context/Variables/Laws.antt =====
-- crates/workflow_engine/src/context.rs: reading a variable after writing it, and a step that a
-- variable captures.
use tianshu_rs.Base.{
  ℕ, String, false, some, [], ◌∷◌, ok, ◌≡◌, arith, string_eq, Result-cases, inl, inr, format,
}
use tianshu_rs.Base.HashMap
use tianshu_rs.Base.HashMap.{get-insert_self}
use tianshu_rs.Base.Exec.{Exec}
use tianshu_rs.Store.{StateStore, IsStateStore}
use tianshu_rs.Context.{Serde, IsSerde, Codec, IsCodec, WorkflowContext, state_step_key, cache_key}
use tianshu_rs.Context.Checkpoint.{get_checkpoint}
use tianshu_rs.Context.Checkpoint.Keys.{checkpoint_key-state_key}
use tianshu_rs.Context.Checkpoint.Coherence.{saved_self}
use tianshu_rs.Context.Step.{Timing, step}
use tianshu_rs.Context.Step.Replay.{step_restores}
use tianshu_rs.Context.Variables.{get_state, set_state}

module _ {Json Float C S T : Type 0} (serde : Serde Json) (codec : Codec Json T)
    (states : StateStore S) (laws : IsSerde serde) (round_trip : IsCodec codec)
    (store : IsStateStore states) where
  module _ (now : ℕ) (name text : String) (value : T) (j : Json)
      (c d e : WorkflowContext Json Float C S) (json : codec.to_value value ≡ ok j)
      (prints : serde.to_string j ≡ ok text)
      (written : set_state serde codec states now name value c ≡ (ok tt, d)) where
    set_facts :
        (d.case ≡ c.case)
        × (d.checkpoint_cache
            ≡ HashMap.insert c.checkpoint_cache (cache_key c.case.case_key (state_step_key name)) j)
        × (states.save now c.case.case_key (state_step_key name) text c.state_store
            ≡ (ok tt, d.state_store))
    unfolding set_state
    set_facts =
        elim (Result-cases
          (states.save now c.case.case_key (state_step_key name) text c.state_store).0) [
            | inl (u, q) ↦ ground arith
            | inr (x, q) ↦ absurd (ground arith)
          ]

    -- After a variable of a case is set, in a state store that meets the laws, reading it gives the value that was written: in the same
    -- context, and in a new context for the same case over the store that the write left.
    pub get_state-set_state :
        (default default' : T)
        → e.case.case_key ≡ c.case.case_key
        → e.state_store ≡ d.state_store
        → e.checkpoint_cache ≡ []
        → ((get_state serde codec states name default d).0 ≡ ok value)
          × ((get_state serde codec states name default' e).0 ≡ ok value)
    unfolding get_state HashMap.get
    get_state-set_state default default' same_case same_store fresh =
        let (case, cache, saved) = set_facts in
        let k = c.case.case_key in
        let hit = get-insert_self c.checkpoint_cache (cache_key k (state_step_key name)) j in
        let entry =
          saved_self states store now k (state_step_key name) text c.state_store d.state_store
            saved in
        let back = round_trip.from_value-to_value value j json in
        let reads = laws.from_str-to_string j text prints in
        (ground (arith, hit, back), ground (arith, entry, reads, back))

    -- Names collide: once the variable `x` of a case is set to a value that is not null in JSON,
    -- the step `state_x` is taken to be done. It returns what the variable's JSON decodes to, and
    -- its closure is not run: neither the case nor a store changes.
    pub step_captured_by_state :
        {U : Type 0} (t : Timing) (other : Codec Json U)
        (f : Exec (WorkflowContext Json Float C S) U)
        → serde.is_null j ≡ false
        → ((step serde other states t (format ("state_" ∷ name ∷ [])) f d).0 ≡ other.from_value j)
          × ((step serde other states t (format ("state_" ∷ name ∷ [])) f d).1.case ≡ d.case)
          × ((step serde other states t (format ("state_" ∷ name ∷ [])) f d).1.state_store
              ≡ d.state_store)
          × ((step serde other states t (format ("state_" ∷ name ∷ [])) f d).1.case_store
              ≡ d.case_store)
    unfolding get_checkpoint
    step_captured_by_state t other f there =
        let (case, cache, saved) = set_facts in
        let k = c.case.case_key in
        let key = checkpoint_key-state_key name in
        let hit = get-insert_self c.checkpoint_cache (cache_key k (state_step_key name)) j in
        let found : get_checkpoint serde states (format ("state_" ∷ name ∷ [])) d
            ≡ (ok (some j), d) =
          ground (arith, hit, key) in
        rw (step_restores serde other states t (format ("state_" ∷ name ∷ [])) j f d d found there)
          (ground arith)
