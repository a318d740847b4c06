-- ===== src/Context/Checkpoint/Coherence.antt =====
-- crates/workflow_engine/src/context.rs: the cache of a context agrees with the state store.
use tianshu_rs.Base.{
  ℕ, String, false, some, ok, ◌≡◌, ap, ◌∙◌, arith, ◌==◌, string_eq, inl, inr, Bool-cases,
}
use tianshu_rs.Base.HashMap
use tianshu_rs.Base.HashMap.{get-insert, get-remove}
use tianshu_rs.Case.{Case}
use tianshu_rs.Store.{StateEntry, StateStore, IsStateStore}
use tianshu_rs.Context.{Serde, IsSerde, WorkflowContext, new, cache_key}
use tianshu_rs.Context.Checkpoint.{insert_cache}
use tianshu_rs.Context.Checkpoint.Keys.{cache_key_inj}

module _ {Json S : Type 0} (serde : Serde Json) (states : StateStore S) where
  -- the store answers with an entry whose text reads as `v`
  abbrev pub Holds : S → String → String → Json → Type 0
  Holds s key step v =
      (entry : StateEntry) × (states.get key step s ≡ ok (some entry))
      × (serde.from_str entry.contents ≡ ok v)

module _ {Json Float C S : Type 0} (serde : Serde Json) (states : StateStore S) where
  -- What the cache has for a key of the case, the store has too.
  pub record IsCoherent (c : WorkflowContext Json Float C S) : Type 0 where
    pub agrees :
        (step : String) (v : Json)
        → HashMap.get c.checkpoint_cache (cache_key c.case.case_key step) ≡ some v
        → Holds serde states c.state_store c.case.case_key step v

module _ {S : Type 0} (states : StateStore S) (store : IsStateStore states) (now : ℕ)
    (k step text : String) (s₀ s : S) (saved : states.save now k step text s₀ ≡ (ok tt, s)) where
  pub saved_self :
      states.get k step s
      ≡ ok (some (record { case_key = k; step = step; contents = text; updated_at = now }))
  saved_self = ground (
    arith,
    store.get-save now k step text s₀ s saved k step,
    string_eq.same_iff k k,
    string_eq.same_iff step step,
  )

  pub saved_other :
      (step' : String) → (step == step') ≡ false → states.get k step' s ≡ states.get k step' s₀
  saved_other step' h =
      ground (arith, store.get-save now k step text s₀ s saved k step', string_eq.same_iff k k)

module _ {Json Float C S : Type 0} (serde : Serde Json) (states : StateStore S)
    (laws : IsSerde serde) (store : IsStateStore states) where
  -- writing a value's text and caching the value
  pub put-IsCoherent :
      (now : ℕ) (step text : String) (v : Json) (c : WorkflowContext Json Float C S) (s : S)
      → serde.to_string v ≡ ok text
      → states.save now c.case.case_key step text c.state_store ≡ (ok tt, s)
      → IsCoherent serde states c
      → IsCoherent serde states
          (insert_cache (cache_key c.case.case_key step) v (record c { state_store = s }))
  put-IsCoherent now step text v c s p saved h = record {
    agrees = λ step' v' e.
        let k = c.case.case_key in
        let g = get-insert c.checkpoint_cache (cache_key k step) (cache_key k step') v in
        elim (Bool-cases (step == step')) [
          | inl same ↦
              let names : step ≡ step' = (string_eq.same_iff step step').0 same in
              let values : v ≡ v' = ground (
                arith,
                e,
                g,
                ap (cache_key k) names,
                string_eq.same_iff (cache_key k step) (cache_key k step'),
              ) in
              (
                record { case_key = k; step = step; contents = text; updated_at = now },
                rw (← names) (saved_self states store now k step text c.state_store s saved),
                rw (← values) (laws.from_str-to_string v text p),
              )
          | inr different ↦
              let old = h.agrees step' v' (
                ground (
                  arith,
                  e,
                  g,
                  different,
                  cache_key_inj k step step',
                  string_eq.same_iff step step',
                  string_eq.same_iff (cache_key k step) (cache_key k step'),
                )) in
              (
                old.0,
                saved_other states store now k step text c.state_store s saved step' different
                    ∙ old.1,
                old.2,
              )
        ];
  }

  -- dropping a key from the cache and writing its entry
  pub drop-IsCoherent :
      (now : ℕ) (step text : String) (c : WorkflowContext Json Float C S) (s : S)
      → states.save now c.case.case_key step text c.state_store ≡ (ok tt, s)
      → IsCoherent serde states c
      → IsCoherent serde states (record c {
        state_store = s;
        checkpoint_cache = HashMap.remove c.checkpoint_cache (cache_key c.case.case_key step);
      })
  drop-IsCoherent now step text c s saved h = record {
    agrees = λ step' v' e.
        let k = c.case.case_key in
        let g = get-remove c.checkpoint_cache (cache_key k step) (cache_key k step') in
        elim (Bool-cases (step == step')) [
          | inl same ↦ absurd (
              ground (
                arith,
                e,
                g,
                ap (cache_key k) ((string_eq.same_iff step step').0 same),
                string_eq.same_iff (cache_key k step') (cache_key k step),
              ))
          | inr different ↦
              let old = h.agrees step' v' (ground (arith, e, g)) in
              (
                old.0,
                saved_other states store now k step text c.state_store s saved step' different
                    ∙ old.1,
                old.2,
              )
        ];
  }

  -- caching what the store holds
  pub cache-IsCoherent :
      (step : String) (v : Json) (c : WorkflowContext Json Float C S)
      → Holds serde states c.state_store c.case.case_key step v
      → IsCoherent serde states c
      → IsCoherent serde states (insert_cache (cache_key c.case.case_key step) v c)
  cache-IsCoherent step v c held h = record {
    agrees = λ step' v' e.
        let k = c.case.case_key in
        let g = get-insert c.checkpoint_cache (cache_key k step) (cache_key k step') v in
        elim (Bool-cases (cache_key k step == cache_key k step')) [
          | inl same ↦
              let names : step ≡ step' =
                cache_key_inj k step step'
                  ((string_eq.same_iff (cache_key k step) (cache_key k step')).0 same) in
              let values : v ≡ v' = ground (arith, e, g) in rw (← names, ← values) held
          | inr different ↦ h.agrees step' v' (ground (arith, e, g))
        ];
  }

module _ {Json Float C S : Type 0} (serde : Serde Json) (states : StateStore S) where
  pub new-IsCoherent :
      (case : Case Json) (cs : C) (ss : S)
      → IsCoherent serde states (new {Float = Float} case cs ss)
  unfolding new HashMap.get
  new-IsCoherent case cs ss = record { agrees = λ step v e. absurd (ground arith) }
