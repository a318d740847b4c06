-- ===== src/Context/Managed.antt =====
-- crates/workflow_engine/src/context.rs: the slot `managed_conversation` of a context. No other method
-- of a context reads or writes the slot, so it stands here beside the rest of the context.
use tianshu_rs.Base.{Option, none, some}
use tianshu_rs.Case.{Case}
use tianshu_rs.Compact.{ManagedConversation}
use tianshu_rs.Context
use tianshu_rs.Context.{WorkflowContext}

module _ (Json Float C S W : Type 0) where
  pub record ManagedContext : Type 0 where
    pub context : WorkflowContext Json Float C S
    pub slot : Option (ManagedConversation Float W)

module _ {Json Float C S W : Type 0} where
  unfoldable pub new : Case Json → C → S → ManagedContext Json Float C S W
  unfolding Context.new
  new case case_store state_store = record {
    context = Context.new case case_store state_store;
    slot = none;
  }

  unfoldable pub set_managed_conversation :
      ManagedContext Json Float C S W
      → ManagedConversation Float W
      → ManagedContext Json Float C S W
  set_managed_conversation c conv = record c { slot = some conv }

  -- what a caller does with the reference that `managed_conversation()` gives, where there is one
  unfoldable pub with_managed_conversation :
      {A : Type 0}
      → (ManagedConversation Float W → A × ManagedConversation Float W)
      → ManagedContext Json Float C S W
      → Option A × ManagedContext Json Float C S W
  with_managed_conversation use_it c = elim c.slot [
    | none ↦ (none, c)
    | some conv ↦ (let (a, conv') = use_it conv in (some a, record c { slot = some conv' }))
  ]
