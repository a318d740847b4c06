-- ===== src/Context/Checkpoint/Operations.antt =====
-- crates/workflow_engine/src/context.rs: sequences of checkpoint operations, and what the cache
-- changes of their answers.
use tianshu_rs.Base.{
  ℕ, String, Option, none, some, Result, ok, err, ◌≡◌, refl, ap, arith, string_eq, inl, inr,
  Bool-cases, Option-cases, Result-cases,
}
use tianshu_rs.Base.HashMap
use tianshu_rs.Base.HashMap.{get-insert}
use tianshu_rs.Case.{Case}
use tianshu_rs.Store.{StateEntry, StateStore, IsStateStore}
use tianshu_rs.Context.{Serde, IsSerde, WorkflowContext, new, checkpoint_step_key, cache_key}
use tianshu_rs.Context.Checkpoint.{
  insert_cache, get_checkpoint, save_checkpoint, clear_step, read_value, read_entry,
}
use tianshu_rs.Context.Checkpoint.Coherence.{
  Holds, IsCoherent, cache-IsCoherent, new-IsCoherent, put-IsCoherent, drop-IsCoherent,
}

pub data Operation (Json : Type 0) : Type 0 where
  gets : String → Operation Json
  saves : ℕ → String → Json → Operation Json
  clears : ℕ → String → Operation Json

module _ {Json Float C S : Type 0} (serde : Serde Json) (states : StateStore S) where
  -- `d` is the context after the operation, which succeeded on `c`
  abbrev pub Succeeds :
      Operation Json → WorkflowContext Json Float C S → WorkflowContext Json Float C S → Type 0
  Succeeds (gets name) c d = (r : Option Json) × (get_checkpoint serde states name c ≡ (ok r, d))
  Succeeds (saves now name v) c d = save_checkpoint serde states now name v c ≡ (ok tt, d)
  Succeeds (clears now name) c d = clear_step serde states now name c ≡ (ok tt, d)

  pub data Reached (c : WorkflowContext Json Float C S)
      : WorkflowContext Json Float C S → Type 0 where
    start : Reached c c
    next :
        {d e : WorkflowContext Json Float C S} (op : Operation Json)
        → Reached c d
        → Succeeds op d e
        → Reached c e

module _ {Json Float C S : Type 0} (serde : Serde Json) (states : StateStore S)
    (laws : IsSerde serde) (store : IsStateStore states) where
  read_value-IsCoherent :
      (step : String) (r : Result Json) (c : WorkflowContext Json Float C S)
      → ((v : Json) → r ≡ ok v → Holds serde states c.state_store c.case.case_key step v)
      → IsCoherent serde states c
      → IsCoherent serde states (read_value serde states (cache_key c.case.case_key step) r c).1
  read_value-IsCoherent step (err e) c held h = h
  read_value-IsCoherent step (ok v) c held h = elim (Bool-cases (serde.is_null v)) [
    | inl gone ↦ rw gone h
    | inr there ↦ rw there (cache-IsCoherent serde states laws store step v c (held v refl) h)
  ]

  read_entry-IsCoherent :
      (step : String) (r : Result (Option StateEntry)) (c : WorkflowContext Json Float C S)
      → states.get c.case.case_key step c.state_store ≡ r
      → IsCoherent serde states c
      → IsCoherent serde states (read_entry serde states (cache_key c.case.case_key step) r c).1
  read_entry-IsCoherent step (err e) c found h = h
  read_entry-IsCoherent step (ok none) c found h = h
  read_entry-IsCoherent step (ok (some entry)) c found h =
      read_value-IsCoherent step (serde.from_str entry.contents) c (λ v p. (entry, found, p)) h

  get-IsCoherent :
      (name : String) (c : WorkflowContext Json Float C S)
      → IsCoherent serde states c
      → IsCoherent serde states (get_checkpoint serde states name c).1
  unfolding get_checkpoint
  get-IsCoherent name c h =
      let k = c.case.case_key in
      let step = checkpoint_step_key name in
      elim (Option-cases (HashMap.get c.checkpoint_cache (cache_key k step))) [
        | inr (v, e) ↦ rw (e, get_checkpoint) h
        | inl e ↦
            rw (e, get_checkpoint)
              (read_entry-IsCoherent step (states.get k step c.state_store) c refl h)
      ]

  save-IsCoherent :
      (now : ℕ) (name : String) (v : Json) (c d : WorkflowContext Json Float C S)
      → save_checkpoint serde states now name v c ≡ (ok tt, d)
      → IsCoherent serde states c
      → IsCoherent serde states d
  unfolding save_checkpoint
  save-IsCoherent now name v c d e h = elim (Result-cases (serde.to_string v)) [
    | inr (x, p) ↦ absurd (ground arith)
    | inl (text, p) ↦
        let step = checkpoint_step_key name in
        let saved = states.save now c.case.case_key step text c.state_store in
        elim (Result-cases saved.0) [
          | inr (x, q) ↦ absurd (ground arith)
          | inl (u, q) ↦
              let out : d
                  ≡ insert_cache (cache_key c.case.case_key step) v
                      (record c { state_store = saved.1 }) =
                ground arith in
              rw out (
                put-IsCoherent serde states laws store now step text v c saved.1 p (ground arith) h)
        ]
  ]

  clear-IsCoherent :
      (now : ℕ) (name : String) (c d : WorkflowContext Json Float C S)
      → clear_step serde states now name c ≡ (ok tt, d)
      → IsCoherent serde states c
      → IsCoherent serde states d
  unfolding clear_step
  clear-IsCoherent now name c d e h =
      let step = checkpoint_step_key name in
      let saved = states.save now c.case.case_key step laws.null_text c.state_store in
      elim (Result-cases saved.0) [
        | inr (x, q) ↦ absurd (ground (arith, laws.null_prints))
        | inl (u, q) ↦
            let out : d ≡ record c {
              state_store = saved.1;
              checkpoint_cache = HashMap.remove c.checkpoint_cache (cache_key c.case.case_key step);
            } =
              ground (arith, laws.null_prints) in
            rw out (
              drop-IsCoherent serde states laws store now step laws.null_text c saved.1
                (ground arith) h)
      ]

  Succeeds-IsCoherent :
      (op : Operation Json) (c d : WorkflowContext Json Float C S)
      → Succeeds serde states op c d
      → IsCoherent serde states c
      → IsCoherent serde states d
  Succeeds-IsCoherent (gets name) c d (r, e) h =
      rw (← ap (λ (p : Result (Option Json) × WorkflowContext Json Float C S). p.1) e)
        (get-IsCoherent name c h)
  Succeeds-IsCoherent (saves now name v) c d e h = save-IsCoherent now name v c d e h
  Succeeds-IsCoherent (clears now name) c d e h = clear-IsCoherent now name c d e h

  Reached-IsCoherent :
      {c d : WorkflowContext Json Float C S}
      → Reached serde states c d
      → IsCoherent serde states c
      → IsCoherent serde states d
  Reached-IsCoherent start h = h
  Reached-IsCoherent (next {d = d} {e = e} op r s) h =
      Succeeds-IsCoherent op d e s (Reached-IsCoherent r h)

  -- Over a state store that meets the laws, from a new context, after any operations on checkpoints that succeed, each value that the
  -- cache has for a key of the case is the value of the entry that the store has for it.
  pub Reached-new-IsCoherent :
      (case : Case Json) (cs : C) (ss : S) (d : WorkflowContext Json Float C S)
      → Reached serde states (new case cs ss) d
      → IsCoherent serde states d
  Reached-new-IsCoherent case cs ss d r =
      Reached-IsCoherent r (new-IsCoherent serde states case cs ss)
