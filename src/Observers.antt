-- ===== src/Observers.antt =====
-- crates/workflow_engine_observe/src: the observers in memory and of several children, and the
-- datasets. An observer is a function from an event and a state to a state.
pub mod Memory
pub mod Composite
pub mod Dataset
pub mod Jsonl
mod Tests
use tianshu_rs.Observe.{Event}

-- the trait, for observers of the state `O`
abbrev pub Observer : Type 0 → Type 0 → Type 0 → Type 0
Observer Json Float O = Event Json Float → O → O
