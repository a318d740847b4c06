-- ===== src/Spawn.antt =====
-- crates/workflow_engine/src/spawn.rs
use tianshu_rs.Base.{ℕ, String, Option, List}

pub record SpawnConfig (Json : Type 0) : Type 0 where
  pub workflow_code : String
  pub resource_data : Option Json
  pub case_key : Option String

pub record ChildHandle : Type 0 where
  pub case_key : String
  pub workflow_code : String

pub data ChildStatus (Json : Type 0) : Type 0 where
  running waiting : ChildStatus Json
  finished :
      (finished_type finished_description : String) (resource_data : Option Json) → ChildStatus Json
  failed : (error : String) → ChildStatus Json

pub data ChildrenResult (Json : Type 0) : Type 0 where
  all_done : List (ChildHandle × ChildStatus Json) → ChildrenResult Json
  pending : ℕ → ChildrenResult Json
