-- ===== src/Session.antt =====
-- crates/workflow_engine/src/session.rs
use tianshu_rs.Base.{ℕ, String, Option, none, some}

pub record Session (Json : Type 0) : Type 0 where
  pub session_id : String
  pub metadata : Option Json
  pub created_at : ℕ
  pub updated_at : ℕ

module _ {Json : Type 0} where
  unfoldable pub new : (now : ℕ) → String → Session Json
  new now id = record { session_id = id; metadata = none; created_at = now; updated_at = now }

  unfoldable pub with_metadata : Session Json → Json → Session Json
  with_metadata s metadata = record s { metadata = some metadata }
