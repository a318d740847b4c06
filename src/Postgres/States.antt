-- ===== src/Postgres/States.antt =====
-- crates/workflow_engine_postgres/src/state_store.rs: `PostgresStateStore`, over the tables
-- `wf_state` and `wf_session_state`. A row of a table is an entry of the store.
pub mod Variables
pub mod Laws
pub mod Listing
use tianshu_rs.Base.{ℕ, String, Bool, ◌&&◌, Option, List, Result, ok, err, ◌==◌, string_eq}
use tianshu_rs.Base.Exec.{Exec, pure, ◌>>=◌, ◌>>◌}
use tianshu_rs.Store.{StateEntry, SessionStateEntry, StateStore}
use tianshu_rs.Postgres.{Table, reading, writing}

-- `data = EXCLUDED.data, updated_at = EXCLUDED.updated_at`
abbrev pub set_state : StateEntry → StateEntry → StateEntry
set_state excluded old = record old {
  contents = excluded.contents;
  updated_at = excluded.updated_at;
}

abbrev pub set_session_state : SessionStateEntry → SessionStateEntry → SessionStateEntry
set_session_state excluded old = record old {
  contents = excluded.contents;
  updated_at = excluded.updated_at;
}

-- The pool of connections of a store, with its two tables.
pub record PostgresStateStore (Db : Type 0) : Type 0 where
  pub connect : Db → Result (Unit {0})
  pub wf_state : Table Db StateEntry
  pub wf_session_state : Table Db SessionStateEntry

module _ {Db : Type 0} (store : PostgresStateStore Db) where
  unfoldable pub save : (now : ℕ) (case_key step contents : String) → Db → Result (Unit {0}) × Db
  save now k s d = writing store.connect (
      store.wf_state.insert set_state
        (record { case_key = k; step = s; contents = d; updated_at = now }))

  unfoldable pub get : (case_key step : String) → Db → Result (Option StateEntry)
  get k s = reading store.connect (store.wf_state.query_opt (λ e. e.case_key == k && e.step == s))

  unfoldable pub get_all : String → Db → Result (List StateEntry)
  get_all k = reading store.connect (store.wf_state.select (λ e. e.case_key == k))

  unfoldable pub delete_by_case : String → Db → Result (Unit {0}) × Db
  delete_by_case k =
      writing store.connect (store.wf_state.delete (λ e. e.case_key == k) >>= λ count. pure tt)

  unfoldable pub save_session :
      (now : ℕ) (session_id step contents : String) → Db → Result (Unit {0}) × Db
  save_session now k s d = writing store.connect (
      store.wf_session_state.insert set_session_state
        (record { session_id = k; step = s; contents = d; updated_at = now }))

  unfoldable pub get_session : (session_id step : String) → Db → Result (Option SessionStateEntry)
  get_session k s =
      reading store.connect
        (store.wf_session_state.query_opt (λ e. e.session_id == k && e.step == s))

  unfoldable pub get_all_session : String → Db → Result (List SessionStateEntry)
  get_all_session k = reading store.connect (store.wf_session_state.select (λ e. e.session_id == k))

  unfoldable pub delete_by_session : String → Db → Result (Unit {0}) × Db
  delete_by_session k =
      writing store.connect
        (store.wf_session_state.delete (λ e. e.session_id == k) >>= λ count. pure tt)

  -- the two tables and an index of each, where they are not there
  unfoldable pub setup : Exec Db (Unit {0})
  setup = writing store.connect (
      store.wf_state.create "wf_state"
      >> store.wf_state.create "wf_state_case_key_idx"
      >> store.wf_session_state.create "wf_session_state"
      >> store.wf_session_state.create "wf_session_state_session_id_idx")

  abbrev pub postgres_state_store : StateStore Db
  postgres_state_store = record {
    save = save;
    get = get;
    get_all = get_all;
    delete_by_case = delete_by_case;
    save_session = save_session;
    get_session = get_session;
    get_all_session = get_all_session;
    delete_by_session = delete_by_session;
  }
