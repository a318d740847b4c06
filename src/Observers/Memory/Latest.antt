-- ===== src/Observers/Memory/Latest.antt =====
-- crates/workflow_engine_observe/src/memory.rs: which records the observer has.
use mathlib.Core.List.{append_assoc, append-nil}
use tianshu_rs.Base.{
  ℕ, zero, suc, ◌+◌, ◌-◌, ◌≤◌, ◌<◌, List, [], ◌∷◌, ◌++◌, ◌≡◌, refl, sym, ◌∙◌, ap, arith, leb,
  length, drop, drop-drop, length-append, length-drop, Bool-cases, inl, inr,
}
use tianshu_rs.Observe.{
  StepRecord, ProbeRecord, Event, on_step, on_workflow_complete, on_llm_call, on_tool_call,
  on_retry, on_probe, flush,
}
use tianshu_rs.Observers.Memory.{
  max_probe_records, InMemoryObserver, new, push_probe, observe, observe_all,
}

module _ {ℓ} {A : Type ℓ} where
  -- the last `n` elements, or all if there are fewer
  abbrev pub latest : ℕ → List A → List A
  latest n l = drop (length l - n) l

  drop-append : (n : ℕ) (l m : List A) → n ≤ length l → drop n (l ++ m) ≡ drop n l ++ m
  drop-append zero l m h = refl
  drop-append (suc n) [] m h = absurd (omega arith)
  drop-append (suc n) (x ∷ l) m h = drop-append n l m (omega arith)

module _ (cap : ℕ) (positive : 0 < cap) (l : List ProbeRecord) (r : ProbeRecord) where
  push_probe-latest : push_probe cap r (latest cap l) ≡ latest cap (l ++ r ∷ [])
  unfolding push_probe
  push_probe-latest =
      let size = length-drop (length l - cap) l in
      let grown = length-append l (r ∷ []) in
      elim (Bool-cases (leb cap (length (latest cap l)))) [
        | inl full ↦
            let n : length (l ++ r ∷ []) - cap ≡ (length l - cap) + 1 =
              ground (arith, full, size, grown) in
            rw full (
              ap (λ k. k ++ r ∷ []) (drop-drop 1 (length l - cap) l)
              ∙ sym (drop-append ((length l - cap) + 1) l (r ∷ []) (ground (arith, full, size)))
              ∙ ap (λ k. drop k (l ++ r ∷ [])) (sym n))
        | inr room ↦
            let n : length (l ++ r ∷ []) - cap ≡ length l - cap =
              ground (arith, room, size, grown) in
            rw room (
              sym (drop-append (length l - cap) l (r ∷ []) (omega arith))
              ∙ ap (λ k. drop k (l ++ r ∷ [])) (sym n))
      ]

module _ {Json Float : Type 0} where
  abbrev pub steps_of : List (Event Json Float) → List (StepRecord Json)
  steps_of [] = []
  steps_of (on_step r ∷ es) = r ∷ steps_of es
  steps_of (_ ∷ es) = steps_of es

  abbrev pub probes_of : List (Event Json Float) → List ProbeRecord
  probes_of [] = []
  probes_of (on_probe r ∷ es) = r ∷ probes_of es
  probes_of (_ ∷ es) = probes_of es

  observe_all-latest :
      (es : List (Event Json Float)) (o : InMemoryObserver Json Float) (before : List ProbeRecord)
      → o.probes ≡ latest max_probe_records before
      → ((observe_all es o).probes ≡ latest max_probe_records (before ++ probes_of es))
        × ((observe_all es o).steps ≡ o.steps ++ steps_of es)
  unfolding observe_all observe
  observe_all-latest [] o before h =
      (h ∙ ap (latest max_probe_records) (sym (append-nil before)), sym (append-nil o.steps))
  observe_all-latest (on_step r ∷ es) o before h =
      let ih = observe_all-latest es (record o { steps = o.steps ++ r ∷ [] }) before h in
      (ih.0, ih.1 ∙ append_assoc o.steps (r ∷ []) (steps_of es))
  observe_all-latest (on_probe r ∷ es) o before h =
      let ih =
        observe_all-latest es (record o { probes = push_probe max_probe_records r o.probes })
          (before ++ r ∷ [])
          (ap (push_probe max_probe_records r) h
            ∙ push_probe-latest max_probe_records (omega arith) before r) in
      (ih.0 ∙ ap (latest max_probe_records) (append_assoc before (r ∷ []) (probes_of es)), ih.1)
  observe_all-latest (on_workflow_complete r ∷ es) o before h =
      observe_all-latest es (record o { workflows = o.workflows ++ r ∷ [] }) before h
  observe_all-latest (on_llm_call r ∷ es) o before h =
      observe_all-latest es (record o { llm_calls = o.llm_calls ++ r ∷ [] }) before h
  observe_all-latest (on_tool_call r ∷ es) o before h = observe_all-latest es o before h
  observe_all-latest (on_retry r ∷ es) o before h = observe_all-latest es o before h
  observe_all-latest (flush ∷ es) o before h = observe_all-latest es o before h

  -- After any events a new observer has the last 10000 probe records, or all if there are fewer, and
  -- every step record, each in the order of the events.
  pub probes-observe_all :
      (es : List (Event Json Float))
      → ((observe_all es new).probes ≡ latest max_probe_records (probes_of es))
        × ((observe_all es new).steps ≡ steps_of es)
  unfolding new
  probes-observe_all es = observe_all-latest es new [] refl
