-- ===== src/Postgres/States/Variables.antt =====
-- crates/workflow_engine_postgres/src/state_store.rs: what is found of the variables of a session after
-- the writes of the store.
use tianshu_rs.Base.{
  ℕ, String, ◌&&◌, Option, none, some, ok, ◌≡◌, refl, sym, ◌∙◌, arith, ◌==◌, string_eq, pair_eq,
  if◌then◌else◌,
}
use tianshu_rs.Base.Exec.{pure, ◌>>=◌}
use tianshu_rs.Store.{SessionStateEntry}
use tianshu_rs.Postgres.{IsTable, Answers, find, has_key}
use tianshu_rs.Postgres.Rows.{merged-excluded}
use tianshu_rs.Postgres.Lookup.{
  reading-connected, writing-connected, counted, query_opt-find, find-insert, find-delete,
}
use tianshu_rs.Postgres.States.{
  PostgresStateStore, set_session_state, save_session, get_session, delete_by_session,
}

-- `PRIMARY KEY (session_id, step)`
abbrev pub session_state_key_of : SessionStateEntry → String × String
session_state_key_of e = (e.session_id, e.step)

module _ {Db : Type 0} (store : PostgresStateStore Db)
    (laws : IsTable session_state_key_of store.wf_session_state)
    (up : Answers store.connect laws) where
  unfoldable pub session_entry_of : String → String → Db → Option SessionStateEntry
  session_entry_of k s db = find session_state_key_of (k, s) (laws.rows db)

  pub get_session-find :
      (k s : String) (db : Db) → get_session store k s db ≡ ok (session_entry_of k s db)
  unfolding get_session session_entry_of
  get_session-find k s db =
      reading-connected store.connect up.0
        (store.wf_session_state.query_opt (has_key session_state_key_of (k, s))) db
      ∙ query_opt-find session_state_key_of store.wf_session_state laws up (k, s) db

  pub get_of-save_session :
      (now : ℕ) (k s d : String) (σ σ' : Db)
      → save_session store now k s d σ ≡ (ok tt, σ')
      → (k' s' : String)
      → get_session store k' s' σ' ≡ (
          if k == k' && s == s'
          then ok (some (record { session_id = k; step = s; contents = d; updated_at = now }))
          else get_session store k' s' σ)
  unfolding save_session session_entry_of
  get_of-save_session now k s d σ σ' e k' s' =
      let entry : SessionStateEntry = record {
        session_id = k;
        step = s;
        contents = d;
        updated_at = now;
      } in
      let statement = store.wf_session_state.insert set_session_state entry in
      let wrote = sym (writing-connected store.connect up.0 statement σ) ∙ e in
      let found =
        find-insert session_state_key_of store.wf_session_state laws set_session_state entry σ σ'
          (λ old same. same) wrote (k', s') in
      let whole =
        merged-excluded session_state_key_of set_session_state entry _ (laws.rows σ)
          (λ old same. ground (arith, same)) refl in
      rw (get_session-find k' s' σ', get_session-find k' s' σ) (ground (arith, found, whole))

  pub get_of-delete_session :
      (k : String) (σ σ' : Db)
      → delete_by_session store k σ ≡ (ok tt, σ')
      → (k' s' : String)
      → get_session store k' s' σ' ≡ (if k == k' then ok none else get_session store k' s' σ)
  unfolding delete_by_session session_entry_of
  get_of-delete_session k σ σ' e k' s' =
      let statement = store.wf_session_state.delete (λ e. e.session_id == k) >>= λ count. pure tt in
      let (n, wrote) = counted _ σ' (sym (writing-connected store.connect up.0 statement σ) ∙ e) in
      let found =
        find-delete session_state_key_of store.wf_session_state laws (λ j. j.0 == k) σ σ' n wrote
          (k', s') in
      rw (get_session-find k' s' σ', get_session-find k' s' σ)
        (ground (arith, found, string_eq.same_iff k k', string_eq.same_iff k' k))
