-- ===== src/Observers/Composite.antt =====
-- crates/workflow_engine_observe/src/composite.rs: `CompositeObserver`. A child is an observer with
-- its state.
use tianshu_rs.Base.{Bool, true, false, List, [], ◌∷◌, map, filter, ◌≡◌, refl, sym, ◌∙◌, ap}
use tianshu_rs.Observe.{
  Event, on_step, on_workflow_complete, on_llm_call, on_tool_call, on_retry, on_probe, flush,
}
use tianshu_rs.Observers.{Observer}

module _ (Json Float O : Type 0) where
  pub record Child : Type 0 where
    pub observer : Observer Json Float O
    pub state : O

-- whether a child sees the event
abbrev pub is_forwarded : {Json Float : Type 0} → Event Json Float → Bool
is_forwarded (on_tool_call r) = false
is_forwarded (on_retry r) = false
is_forwarded (on_probe r) = false
is_forwarded _ = true

module _ {Json Float O : Type 0} where
  abbrev pub notify : Event Json Float → Child Json Float O → Child Json Float O
  notify e c = record c { state = c.observer e c.state }

  -- `for child in &self.children { … }`
  unfoldable pub notify_each :
      Event Json Float → List (Child Json Float O) → List (Child Json Float O)
  notify_each e [] = []
  notify_each e (c ∷ children) = notify e c ∷ notify_each e children

  -- The other calls have the default bodies of the trait, which do nothing.
  unfoldable pub observe : Observer Json Float (List (Child Json Float O))
  unfolding notify_each
  observe (on_step r) children = notify_each (on_step r) children
  observe (on_workflow_complete r) children = notify_each (on_workflow_complete r) children
  observe (on_llm_call r) children = notify_each (on_llm_call r) children
  observe flush children = notify_each flush children
  observe _ children = children

  unfoldable pub observe_all :
      List (Event Json Float) → List (Child Json Float O) → List (Child Json Float O)
  observe_all [] children = children
  observe_all (e ∷ es) children = observe_all es (observe e children)

  -- one child by itself
  abbrev pub alone : List (Event Json Float) → Child Json Float O → Child Json Float O
  alone [] c = c
  alone (e ∷ es) c = alone es (notify e c)

  map-notify_each :
      (es : List (Event Json Float)) (e : Event Json Float) (children : List (Child Json Float O))
      → map (alone es) (notify_each e children) ≡ map (alone (e ∷ es)) children
  unfolding notify_each
  map-notify_each es e [] = refl
  map-notify_each es e (c ∷ children) = ap (◌∷◌ (alone (e ∷ es) c)) (map-notify_each es e children)

  map_nothing : (children : List (Child Json Float O)) → map (alone []) children ≡ children
  map_nothing [] = refl
  map_nothing (c ∷ children) = ap (◌∷◌ c) (map_nothing children)

  -- Each child is left as if it had been called by itself, in the same order, for the step, workflow,
  -- model call and flush events: tool calls, retries and probes never reach a child.
  pub observe_all-alone :
      (es : List (Event Json Float)) (children : List (Child Json Float O))
      → observe_all es children ≡ map (alone (filter is_forwarded es)) children
  unfolding observe_all observe
  observe_all-alone [] children = sym (map_nothing children)
  observe_all-alone (on_tool_call r ∷ es) children = observe_all-alone es children
  observe_all-alone (on_retry r ∷ es) children = observe_all-alone es children
  observe_all-alone (on_probe r ∷ es) children = observe_all-alone es children
  observe_all-alone (on_step r ∷ es) children =
      observe_all-alone es (notify_each (on_step r) children)
      ∙ map-notify_each (filter is_forwarded es) (on_step r) children
  observe_all-alone (on_workflow_complete r ∷ es) children =
      observe_all-alone es (notify_each (on_workflow_complete r) children)
      ∙ map-notify_each (filter is_forwarded es) (on_workflow_complete r) children
  observe_all-alone (on_llm_call r ∷ es) children =
      observe_all-alone es (notify_each (on_llm_call r) children)
      ∙ map-notify_each (filter is_forwarded es) (on_llm_call r) children
  observe_all-alone (flush ∷ es) children =
      observe_all-alone es (notify_each flush children)
      ∙ map-notify_each (filter is_forwarded es) flush children
