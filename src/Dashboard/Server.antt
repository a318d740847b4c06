-- ===== src/Dashboard/Server.antt =====
-- crates/workflow_engine_dashboard/src/server.rs: `DashboardServer`, and which handler answers a
-- request. `axum` and the listener are parameters: `bind` gives a listener on an address or an error,
-- and `run` serves it.
use tianshu_rs.Base.{ℕ, String, List, [], ◌∷◌, Result, ok, err, format, decimal, string_eq}
use tianshu_rs.Store.{CaseStore}
use tianshu_rs.Observers.Memory.{InMemoryObserver}

-- what the handlers share
pub record AppState (Json Float C : Type 0) : Type 0 where
  pub case_store : CaseStore Json C
  pub observer : InMemoryObserver Json Float
  pub refresh_secs : ℕ

pub record DashboardServer (Json Float C : Type 0) : Type 0 where
  pub case_store : CaseStore Json C
  pub observer : InMemoryObserver Json Float
  pub port : ℕ
  pub refresh_secs : ℕ

pub data Handler : Type 0 where
  index config cases stats : Handler

-- the routes of `serve`, as `Router::route` enters them
abbrev pub routes : List (String × Handler)
routes =
    ("/", Handler.index)
    ∷ ("/api/config", Handler.config)
    ∷ ("/api/cases", Handler.cases)
    ∷ ("/api/stats", Handler.stats)
    ∷ []

module _ {Json Float C : Type 0} where
  unfoldable pub new : CaseStore Json C → InMemoryObserver Json Float → DashboardServer Json Float C
  new case_store observer = record {
    case_store = case_store;
    observer = observer;
    port = 8765;
    refresh_secs = 5;
  }

  unfoldable pub with_port : DashboardServer Json Float C → ℕ → DashboardServer Json Float C
  with_port server port = record server { port = port }

  unfoldable pub with_refresh_secs : DashboardServer Json Float C → ℕ → DashboardServer Json Float C
  with_refresh_secs server secs = record server { refresh_secs = secs }

  unfoldable pub address : DashboardServer Json Float C → String
  address server = format ("127.0.0.1:" ∷ decimal server.port ∷ [])

  abbrev state_of : DashboardServer Json Float C → AppState Json Float C
  state_of server = record {
    case_store = server.case_store;
    observer = server.observer;
    refresh_secs = server.refresh_secs;
  }

  module _ {Listener : Type 0} (bind : String → Result Listener)
      (run : Listener → List (String × Handler) → AppState Json Float C → Result (Unit {0})) where
    abbrev served : Result Listener → AppState Json Float C → Result (Unit {0})
    served (ok listener) state = run listener routes state
    served (err e) state = err e

    unfoldable pub serve : DashboardServer Json Float C → Result (Unit {0})
    unfolding address
    serve server = served (bind (address server)) (state_of server)

  -- `object` is `json!` of an object whose field is a number
  unfoldable pub get_config : (object : String → ℕ → Json) → AppState Json Float C → Json
  get_config object state = object "refresh_secs" state.refresh_secs
