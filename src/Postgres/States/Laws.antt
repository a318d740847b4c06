-- ===== src/Postgres/States/Laws.antt =====
-- crates/workflow_engine_postgres/src/state_store.rs: the state store over PostgreSQL meets the laws
-- of a state store, as the in-memory store does.
use tianshu_rs.Base.{
  ℕ, String, ◌&&◌, Option, none, some, ok, ◌≡◌, refl, sym, ◌∙◌, arith, ◌==◌, string_eq, pair_eq,
  if◌then◌else◌,
}
use tianshu_rs.Base.Exec.{pure, ◌>>=◌}
use tianshu_rs.Store.{StateEntry, IsStateStore}
use tianshu_rs.Postgres.{IsTable, Answers, find, has_key}
use tianshu_rs.Postgres.Rows.{merged-excluded}
use tianshu_rs.Postgres.Lookup.{
  reading-connected, writing-connected, counted, query_opt-find, find-insert, find-delete,
}
use tianshu_rs.Postgres.States.Variables.{
  session_state_key_of, get_of-save_session, get_of-delete_session,
}
use tianshu_rs.Postgres.States.{
  PostgresStateStore, set_state, save, get, delete_by_case, postgres_state_store,
}

-- `PRIMARY KEY (case_key, step)`
abbrev pub state_key : StateEntry → String × String
state_key e = (e.case_key, e.step)

module _ {Db : Type 0} (store : PostgresStateStore Db) (laws : IsTable state_key store.wf_state)
    (up : Answers store.connect laws) where
  unfoldable pub entry_of : String → String → Db → Option StateEntry
  entry_of k s db = find state_key (k, s) (laws.rows db)

  pub get-find : (k s : String) (db : Db) → get store k s db ≡ ok (entry_of k s db)
  unfolding get entry_of
  get-find k s db =
      reading-connected store.connect up.0 (store.wf_state.query_opt (has_key state_key (k, s))) db
      ∙ query_opt-find state_key store.wf_state laws up (k, s) db

  get_of-save :
      (now : ℕ) (k s d : String) (σ σ' : Db)
      → save store now k s d σ ≡ (ok tt, σ')
      → (k' s' : String)
      → get store k' s' σ' ≡ (
          if k == k' && s == s'
          then ok (some (record { case_key = k; step = s; contents = d; updated_at = now }))
          else get store k' s' σ)
  unfolding save entry_of
  get_of-save now k s d σ σ' e k' s' =
      let entry : StateEntry = record { case_key = k; step = s; contents = d; updated_at = now } in
      let statement = store.wf_state.insert set_state entry in
      let wrote = sym (writing-connected store.connect up.0 statement σ) ∙ e in
      let found =
        find-insert state_key store.wf_state laws set_state entry σ σ' (λ old same. same) wrote
          (k', s') in
      let whole =
        merged-excluded state_key set_state entry _ (laws.rows σ) (λ old same. ground (arith, same))
          refl in
      rw (get-find k' s' σ', get-find k' s' σ) (ground (arith, found, whole))

  get_of-delete :
      (k : String) (σ σ' : Db)
      → delete_by_case store k σ ≡ (ok tt, σ')
      → (k' s' : String) → get store k' s' σ' ≡ (if k == k' then ok none else get store k' s' σ)
  unfolding delete_by_case entry_of
  get_of-delete k σ σ' e k' s' =
      let statement = store.wf_state.delete (λ e. e.case_key == k) >>= λ count. pure tt in
      let (n, wrote) = counted _ σ' (sym (writing-connected store.connect up.0 statement σ) ∙ e) in
      let found = find-delete state_key store.wf_state laws (λ j. j.0 == k) σ σ' n wrote (k', s') in
      rw (get-find k' s' σ', get-find k' s' σ)
        (ground (arith, found, string_eq.same_iff k k', string_eq.same_iff k' k))

module _ {Db : Type 0} (store : PostgresStateStore Db) (laws : IsTable state_key store.wf_state)
    (session_laws : IsTable session_state_key_of store.wf_session_state)
    (up : Answers store.connect laws) (session_up : Answers store.connect session_laws) where
  -- Over a database that answers and whose tables are as PostgreSQL documents them, the store meets the
  -- laws of a state store: a write that succeeds sets the entry of its two keys and no other, and a
  -- deletion removes every entry of its case and none of another; and so for the entries of sessions.
  pub postgres-IsStateStore : IsStateStore (postgres_state_store store)
  postgres-IsStateStore = record {
    get-save = λ now k s d σ σ' e k' s'. get_of-save store laws up now k s d σ σ' e k' s';
    get-delete_by_case = λ k σ σ' e k' s'. get_of-delete store laws up k σ σ' e k' s';
    get_session-save_session = λ now k s d σ σ' e k' s'.
        get_of-save_session store session_laws session_up now k s d σ σ' e k' s';
    get_session-delete_by_session =
        λ k σ σ' e k' s'. get_of-delete_session store session_laws session_up k σ σ' e k' s';
  }
