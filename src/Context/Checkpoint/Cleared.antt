-- ===== src/Context/Checkpoint/Cleared.antt =====
-- crates/workflow_engine/src/context.rs: a cleared step has no checkpoint.
use text.Mathlib.TextLemmas.{append_cancel_left}
use tianshu_rs.Base.{
  ℕ, String, Option, none, some, Result, ok, err, ◌≡◌, ◌≢◌, arith, string_eq, if◌then◌else◌,
  Result-cases, inl, inr, ◌∙◌, sym,
}
use tianshu_rs.Base.HashMap
use tianshu_rs.Base.HashMap.{get-remove}
use tianshu_rs.Store.{StateEntry, StateStore, IsStateStore}
use tianshu_rs.Context.{Serde, IsSerde, WorkflowContext, checkpoint_step_key, cache_key}
use tianshu_rs.Context.Checkpoint.{get_checkpoint, clear_step}
use tianshu_rs.Context.Checkpoint.Coherence.{saved_self, saved_other}
use tianshu_rs.Context.Checkpoint.Keys.{cache_key_inj}

module _ {Json : Type 0} (serde : Serde Json) where
  abbrev value_answer : Result Json → Result (Option Json)
  value_answer (err e) = err e
  value_answer (ok v) = if serde.is_null v then ok none else ok (some v)

  abbrev entry_answer : Result (Option StateEntry) → Result (Option Json)
  entry_answer (err e) = err e
  entry_answer (ok none) = ok none
  entry_answer (ok (some entry)) = value_answer (serde.from_str entry.contents)

  abbrev answer : Option Json → Result (Option StateEntry) → Result (Option Json)
  answer (some v) stored = ok (some v)
  answer none stored = entry_answer stored

module _ {Json Float C S : Type 0} (serde : Serde Json) (states : StateStore S) where
  -- what `get_checkpoint` answers, from the cache and the store
  get_checkpoint-answer :
      (name : String) (c : WorkflowContext Json Float C S)
      → (get_checkpoint serde states name c).0
        ≡ answer serde
            (HashMap.get c.checkpoint_cache (cache_key c.case.case_key (checkpoint_step_key name)))
            (states.get c.case.case_key (checkpoint_step_key name) c.state_store)
  unfolding get_checkpoint
  get_checkpoint-answer name c = ground arith

module _ {Json Float C S : Type 0} (serde : Serde Json) (states : StateStore S)
    (laws : IsSerde serde) (store : IsStateStore states) (now : ℕ) (name : String)
    (c d : WorkflowContext Json Float C S)
    (cleared : clear_step serde states now name c ≡ (ok tt, d)) where
  abbrev step_key : String
  step_key = checkpoint_step_key name

  abbrev written : Result (Unit {0}) × S
  written = states.save now c.case.case_key step_key laws.null_text c.state_store

  cleared_facts :
      (written ≡ (ok tt, d.state_store))
      × (d.case ≡ c.case)
      × (d.checkpoint_cache
          ≡ HashMap.remove c.checkpoint_cache (cache_key c.case.case_key step_key))
  unfolding clear_step
  cleared_facts = elim (Result-cases written.0) [
    | inl (u, q) ↦ ground (arith, laws.null_prints)
    | inr (x, q) ↦ absurd (ground (arith, laws.null_prints))
  ]

  pub absent-clear_step : (get_checkpoint serde states name d).0 ≡ ok none
  absent-clear_step =
      let (wrote, same, dropped) = cleared_facts in
      let k = c.case.case_key in
      let here = get-remove c.checkpoint_cache (cache_key k step_key) (cache_key k step_key) in
      let entry =
        saved_self states store now k step_key laws.null_text c.state_store d.state_store wrote in
      let reads = laws.from_str-to_string serde.null laws.null_text laws.null_prints in
      get_checkpoint-answer serde states name d
      ∙ rw (same, dropped)
          (ground (
            arith,
            here,
            entry,
            reads,
            laws.null_is_null,
            string_eq.same_iff (cache_key k step_key) (cache_key k step_key),
          ))

  -- After a step is cleared, in a state store that meets the laws, its checkpoint is absent, in the
  -- same context; and the checkpoint of a step of another name is read with the answer it had.
  pub get-clear_step :
      (other : String)
      → name ≢ other
      → ((get_checkpoint serde states name d).0 ≡ ok none)
        × ((get_checkpoint serde states other d).0 ≡ (get_checkpoint serde states other c).0)
  get-clear_step other ne =
      let (wrote, same, dropped) = cleared_facts in
      let k = c.case.case_key in
      let other_key = checkpoint_step_key other in
      let there = get-remove c.checkpoint_cache (cache_key k step_key) (cache_key k other_key) in
      let entry =
        saved_self states store now k step_key laws.null_text c.state_store d.state_store wrote in
      let differ : other_key ≢ step_key =
        λ e. ne (append_cancel_left "wf_" name other (unfold checkpoint_step_key in sym e)) in
      (
        absent-clear_step,
        get_checkpoint-answer serde states other d
            ∙ rw (same, dropped)
                (ground (
                  arith,
                  there,
                  differ,
                  saved_other states store now k step_key laws.null_text c.state_store d.state_store
                      wrote other_key,
                  cache_key_inj k other_key step_key,
                  string_eq.same_iff step_key other_key,
                  string_eq.same_iff (cache_key k other_key) (cache_key k step_key),
                ))
            ∙ sym (get_checkpoint-answer serde states other c),
      )
