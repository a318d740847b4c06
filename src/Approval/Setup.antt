-- ===== src/Approval/Setup.antt =====
-- examples/approval_workflow/src/main.rs: the stores, the observer and the dashboard that the command
-- line asks for. What is printed and logged is left out.
use tianshu_rs.Base.{ℕ, String, Bool, Option, none, some, List, Result, ok, err, if◌then◌else◌}
use tianshu_rs.Base.Exec.{Exec, ◌>>◌, pure}
use tianshu_rs.Store.{CaseStore}
use tianshu_rs.Postgres.Pool.{Drivers, build_pool}
use tianshu_rs.Postgres.Cases
use tianshu_rs.Postgres.Cases.{PostgresCaseStore, Columns}
use tianshu_rs.Postgres.States
use tianshu_rs.Postgres.States.{PostgresStateStore}
use tianshu_rs.Observers.Memory.{InMemoryObserver}
use tianshu_rs.Dashboard.Server
use tianshu_rs.Dashboard.Server.{DashboardServer}
use tianshu_rs.Approval.Options.{value_after}

pub data Stores : Type 0 where
  in_memory : Stores
  over_postgres : (database_url : String) → Stores

-- `enabled` says whether the feature `postgres` is compiled in
unfoldable pub chosen_stores : (enabled : Bool) → List String → Stores
chosen_stores enabled args = elim (value_after "--postgres" args) [
  | none ↦ in_memory
  | some database_url ↦ if enabled then over_postgres database_url else in_memory
]

module _ {Config Connector Pool Json Db : Type 0} (drivers : Drivers Config Connector Pool)
    (columns : Columns Json) (cases_of : Pool → PostgresCaseStore Json Db)
    (states_of : Pool → PostgresStateStore Db) where
  abbrev set_up : Result Pool → Exec Db (Unit {0})
  set_up (ok pool) db = (Cases.setup columns (cases_of pool) >> States.setup (states_of pool)) db
  set_up (err e) db = (err e, db)

  unfoldable pub prepare_stores : (variable : Option String) → Stores → Exec Db (Unit {0})
  unfolding build_pool
  prepare_stores variable in_memory = pure tt
  prepare_stores variable (over_postgres url) = set_up (build_pool drivers variable url)

-- The observer in memory is always there; a JSONL observer is beside it in a composite one.
pub data ChosenObserver : Type 0 where
  in_memory_only : ChosenObserver
  in_memory_and_jsonl : (path : String) → ChosenObserver

unfoldable pub chosen_observer : (jsonl_path : Option String) → ChosenObserver
chosen_observer none = in_memory_only
chosen_observer (some path) = in_memory_and_jsonl path

unfoldable pub chosen_dashboard :
    {Json Float C : Type 0}
    → CaseStore Json C
    → InMemoryObserver Json Float
    → (dashboard_port : Option ℕ) → Option (DashboardServer Json Float C)
unfolding Server.with_port Server.new
chosen_dashboard cases memory none = none
chosen_dashboard cases memory (some port) = some (Server.with_port (Server.new cases memory) port)
