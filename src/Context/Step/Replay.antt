-- ===== src/Context/Step/Replay.antt =====
-- crates/workflow_engine/src/context.rs: a step runs once, and is replayed from its checkpoint.
use tianshu_rs.Context.Checkpoint.Coherence.{saved_self}
use tianshu_rs.Base.{
  [], ◌∷◌, ◌++◌, refl, ◌∙◌, String, false, Option, none, some, [], ok, ◌≡◌, arith, string_eq,
  if◌then◌else◌, true, Error, err,
}
use tianshu_rs.Base.HashMap
use tianshu_rs.Base.HashMap.{get-insert, get-insert_self}
use tianshu_rs.Base.Exec.{Exec}
use tianshu_rs.Store.{StateEntry, StateStore, IsStateStore}
use tianshu_rs.Context.{
  Serde, Codec, WorkflowContext, checkpoint_step_key, cache_key, IsSerde, IsCodec,
}
use tianshu_rs.Context.Checkpoint.{insert_cache, get_checkpoint, save_checkpoint}
use tianshu_rs.Context.Step.{Timing, record_step, restored_record, executed_record, execute, step}

module _ {Json Float C S T : Type 0} (serde : Serde Json) (codec : Codec Json T)
    (states : StateStore S) where
  -- what a fresh context reads of a saved checkpoint
  get_saved :
      (name text : String) (j : Json) (entry : StateEntry) (d : WorkflowContext Json Float C S)
      → d.checkpoint_cache ≡ []
      → states.get d.case.case_key (checkpoint_step_key name) d.state_store ≡ ok (some entry)
      → serde.from_str entry.contents ≡ ok j
      → get_checkpoint serde states name d ≡ (
          if serde.is_null j then (ok none, d) else (
            ok (some j),
            insert_cache (cache_key d.case.case_key (checkpoint_step_key name)) j d,
          ))
  unfolding get_checkpoint HashMap.get
  get_saved name text j entry d fresh found reads = ground arith

  pub step_restores :
      (t : Timing) (name : String) (j : Json) (g : Exec (WorkflowContext Json Float C S) T)
      (d d' : WorkflowContext Json Float C S)
      → get_checkpoint serde states name d ≡ (ok (some j), d')
      → serde.is_null j ≡ false
      → step serde codec states t name g d
        ≡ (codec.from_value j, record_step (restored_record t name d.case.resource_data j d') d')
  unfolding step
  step_restores t name j g d d' found there = ground arith

  pub step_executes :
      (t : Timing) (name : String) (f : Exec (WorkflowContext Json Float C S) T)
      (c c' : WorkflowContext Json Float C S)
      → get_checkpoint serde states name c ≡ (ok none, c')
      → step serde codec states t name f c
        ≡ execute serde codec states t name c.case.resource_data f c'
  unfolding step
  step_executes t name f c c' found = ground arith

  -- the context after a step whose closure succeeded
  abbrev pub saved_context :
      Timing
      → String
      → Option Json
      → Json
      → S
      → WorkflowContext Json Float C S
      → WorkflowContext Json Float C S
  saved_context t name input j s c =
      let r = record_step (executed_record t name input (some j) none c) c in
      insert_cache (cache_key c.case.case_key (checkpoint_step_key name)) j
        (record r { state_store = s })

  pub execute_saves :
      (t : Timing) (name text : String) (input : Option Json) (v : T) (j : Json) (s : S)
      (f : Exec (WorkflowContext Json Float C S) T) (c c' : WorkflowContext Json Float C S)
      → f c ≡ (ok v, c')
      → codec.to_value v ≡ ok j
      → serde.to_string j ≡ ok text
      → states.save t.saved_at c'.case.case_key (checkpoint_step_key name) text c'.state_store
        ≡ (ok tt, s)
      → execute serde codec states t name input f c ≡ (ok v, saved_context t name input j s c')
  unfolding execute save_checkpoint
  execute_saves t name text input v j s f c c' ran value prints saved = ground arith

module _ {Json Float C S T : Type 0} (serde : Serde Json) (codec : Codec Json T)
    (states : StateStore S) (laws : IsSerde serde) (round_trip : IsCodec codec)
    (store : IsStateStore states) where
  module _ (t t' : Timing) (name text : String) (v : T) (j : Json) (s : S)
      (f g : Exec (WorkflowContext Json Float C S) T) (c c₁ c₂ d : WorkflowContext Json Float C S)
      (not_saved : get_checkpoint serde states name c ≡ (ok none, c₁)) (ran : f c₁ ≡ (ok v, c₂))
      (value : codec.to_value v ≡ ok j) (prints : serde.to_string j ≡ ok text)
      (saved : states.save t.saved_at c₂.case.case_key
          (checkpoint_step_key name)
          text
          c₂.state_store
        ≡ (ok tt, s))
      (same_case : d.case.case_key ≡ c₂.case.case_key) (same_store : d.state_store ≡ s)
      (fresh : d.checkpoint_cache ≡ []) where
    first_run :
        step serde codec states t name f c
        ≡ (ok v, saved_context serde codec states t name c.case.resource_data j s c₂)
    first_run =
        step_executes serde codec states t name f c c₁ not_saved
        ∙ execute_saves serde codec states t name text c.case.resource_data v j s f c₁ c₂ ran value
            prints saved

    read_back : get_checkpoint serde states name d ≡ (
        if serde.is_null j
        then (ok none, d)
        else (ok (some j), insert_cache (cache_key d.case.case_key (checkpoint_step_key name)) j d))
    read_back =
        let entry : StateEntry = record {
          case_key = c₂.case.case_key;
          step = checkpoint_step_key name;
          contents = text;
          updated_at = t.saved_at;
        } in
        get_saved serde codec states name text j entry d fresh
          (rw (same_case, same_store)
            (saved_self states store t.saved_at c₂.case.case_key (checkpoint_step_key name) text
              c₂.state_store s saved))
          (laws.from_str-to_string j text prints)

    -- A step that has no checkpoint, whose closure succeeds, with a value that is not null in JSON
    -- and is saved to a store that meets the laws, returns the closure's value. After a restart, in a new context for the same case over the
    -- store that the run left, the step returns that value again: whatever closure it is given, it
    -- is not run, and neither the case nor the two stores change.
    pub step_once :
        serde.is_null j ≡ false
        → ((step serde codec states t name f c).0 ≡ ok v)
          × ((step serde codec states t name f c).1.state_store ≡ s)
          × ((step serde codec states t' name g d).0 ≡ ok v)
          × ((step serde codec states t' name g d).1.case ≡ d.case)
          × ((step serde codec states t' name g d).1.case_store ≡ d.case_store)
          × ((step serde codec states t' name g d).1.state_store ≡ d.state_store)
    step_once there =
        let d' = insert_cache (cache_key d.case.case_key (checkpoint_step_key name)) j d in
        let again =
          step_restores serde codec states t' name j g d d' (rw there at read_back) there in
        rw (first_run, again) (ground (arith, round_trip.from_value-to_value v j value))

    -- A step that has no checkpoint, whose closure succeeds with a value that is null in JSON and is
    -- saved to a store that meets the laws, returns that value. After a restart, in a new context for
    -- the same case over the store that the run left, nothing is restored: the step is executed again.
    pub step_null_runs_again :
        serde.is_null j ≡ true
        → ((step serde codec states t name f c).0 ≡ ok v)
          × (step serde codec states t' name g d
              ≡ execute serde codec states t' name d.case.resource_data g d)
    step_null_runs_again gone =
        (rw first_run refl, step_executes serde codec states t' name g d d (rw gone at read_back))

  -- A step that has no checkpoint and whose closure fails returns the closure's error and saves no checkpoint: the state
  -- store is the one that the closure left, and the failure is added to the step records.
  pub step_fails :
      (t : Timing) (name : String) (e : Error) (f : Exec (WorkflowContext Json Float C S) T)
      (c c₁ c₂ : WorkflowContext Json Float C S)
      → get_checkpoint serde states name c ≡ (ok none, c₁)
      → f c₁ ≡ (err e, c₂)
      → ((step serde codec states t name f c).0 ≡ err e)
        × ((step serde codec states t name f c).1.state_store ≡ c₂.state_store)
        × ((step serde codec states t name f c).1.checkpoint_cache ≡ c₂.checkpoint_cache)
        × ((step serde codec states t name f c).1.step_records
            ≡ c₂.step_records
              ++ executed_record t name c.case.resource_data none (some e.message) c₂ ∷ [])
  unfolding execute
  step_fails t name e f c c₁ c₂ not_saved ran =
      rw (step_executes serde codec states t name f c c₁ not_saved) (ground arith)
