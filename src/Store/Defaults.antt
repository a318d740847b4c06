-- ===== src/Store/Defaults.antt =====
-- crates/workflow_engine/src/store.rs: the default methods of the traits, for a store that does not
-- support listings or the variables of sessions.
use tianshu_rs.Base.{ℕ, String, Option, List, Result, ok, anyhow}
use tianshu_rs.Case.{Case}
use tianshu_rs.Store.{CaseFilter, SessionStateEntry}

module _ {C : Type 0} where
  unfoldable pub list : {Json : Type 0} → CaseFilter → C → Result (List (Case Json))
  list f c = anyhow "list not supported by this CaseStore"

  unfoldable pub count : CaseFilter → C → Result ℕ
  count f c = anyhow "count not supported by this CaseStore"

-- `setup`, of each trait
unfoldable pub setup : {S : Type 0} → S → Result (Unit {0}) × S
setup s = (ok tt, s)

abbrev unsupported : {A : Type 0} → Result A
unsupported = anyhow "session-scoped state not supported by this store"

module _ {S : Type 0} where
  unfoldable pub save_session :
      (now : ℕ) (session_id step contents : String) → S → Result (Unit {0}) × S
  save_session now k s d σ = (unsupported, σ)

  unfoldable pub get_session : (session_id step : String) → S → Result (Option SessionStateEntry)
  get_session k s σ = unsupported

  unfoldable pub get_all_session : String → S → Result (List SessionStateEntry)
  get_all_session k σ = unsupported

  unfoldable pub delete_by_session : String → S → Result (Unit {0}) × S
  delete_by_session k σ = (unsupported, σ)
