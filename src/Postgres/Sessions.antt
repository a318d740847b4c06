-- ===== src/Postgres/Sessions.antt =====
-- crates/workflow_engine_postgres/src/session_store.rs: `PostgresSessionStore`, over the table
-- `wf_sessions`. A row of the table is a session.
use tianshu_rs.Base.{
  String, Option, none, some, Result, ok, ◌≡◌, refl, sym, ◌∙◌, arith, ◌==◌, string_eq,
  if◌then◌else◌,
}
use tianshu_rs.Base.Exec.{Exec, pure, ◌>>=◌}
use tianshu_rs.Session.{Session}
use tianshu_rs.Postgres.{Table, IsTable, Answers, reading, writing, find, merged, has_key}
use tianshu_rs.Postgres.Rows.{find-has_key}
use tianshu_rs.Postgres.Lookup.{
  query_opt-find, find-insert, find-delete, reading-connected, writing-connected, counted,
}

pub record PostgresSessionStore (Json Db : Type 0) : Type 0 where
  pub connect : Db → Result (Unit {0})
  pub wf_sessions : Table Db (Session Json)

-- `metadata = EXCLUDED.metadata, updated_at = EXCLUDED.updated_at`
abbrev pub set_session : {Json : Type 0} → Session Json → Session Json → Session Json
set_session excluded old = record old {
  metadata = excluded.metadata;
  updated_at = excluded.updated_at;
}

module _ {Json Db : Type 0} (store : PostgresSessionStore Json Db) where
  unfoldable pub upsert : Session Json → Db → Result (Unit {0}) × Db
  upsert s = writing store.connect (store.wf_sessions.insert set_session s)

  unfoldable pub get : String → Db → Result (Option (Session Json))
  get id = reading store.connect (store.wf_sessions.query_opt (λ s. s.session_id == id))

  unfoldable pub delete : String → Db → Result (Unit {0}) × Db
  delete id =
      writing store.connect
        (store.wf_sessions.delete (λ s. s.session_id == id) >>= λ count. pure tt)

  unfoldable pub setup : Exec Db (Unit {0})
  setup = writing store.connect (store.wf_sessions.create "wf_sessions")

-- `PRIMARY KEY`
abbrev pub session_id_of : {Json : Type 0} → Session Json → String
session_id_of s = s.session_id

-- A session that replaces another keeps the moment at which that one was created.
abbrev pub begun_with : {Json : Type 0} → Option (Session Json) → Session Json → Session Json
begun_with none s = s
begun_with (some old) s = record s { created_at = old.created_at }

module _ {Json Db : Type 0} (store : PostgresSessionStore Json Db)
    (laws : IsTable session_id_of store.wf_sessions) (up : Answers store.connect laws) where
  session_of : String → Db → Option (Session Json)
  session_of id db = find session_id_of id (laws.rows db)

  get-find : (id : String) (db : Db) → get store id db ≡ ok (session_of id db)
  unfolding get session_of
  get-find id db =
      reading-connected store.connect up.0 (store.wf_sessions.query_opt (has_key session_id_of id))
        db
      ∙ query_opt-find session_id_of store.wf_sessions laws up id db

  merged-session :
      (s : Session Json) (o : Option (Session Json)) (db : Db)
      → session_of s.session_id db ≡ o
      → merged session_id_of set_session s o ≡ begun_with o s
  unfolding session_of
  merged-session s none db e = refl
  merged-session s (some old) db e =
      rw (find-has_key session_id_of s.session_id (laws.rows db) old e) refl

  -- Over a database that answers, a session is found under its id from a successful upsert, where it
  -- keeps the moment of creation of the session that was there, to a successful deletion, and no
  -- other session is affected by either.
  pub get_session-upsert_and_delete :
      (s : Session Json) (old : Option (Session Json)) (id j : String) (db stored deleted : Db)
      → get store s.session_id db ≡ ok old
      → upsert store s db ≡ (ok tt, stored)
      → delete store id db ≡ (ok tt, deleted)
      → (get store j stored
          ≡ (if s.session_id == j then ok (some (begun_with old s)) else get store j db))
        × (get store j deleted ≡ (if j == id then ok none else get store j db))
  unfolding upsert delete session_of
  get_session-upsert_and_delete s old id j db stored deleted was put gone =
      let insertion = store.wf_sessions.insert set_session s in
      let found =
        find-insert session_id_of store.wf_sessions laws set_session s db stored (λ o same. same)
          (sym (writing-connected store.connect up.0 insertion db) ∙ put) j in
      let deletion = store.wf_sessions.delete (λ s. s.session_id == id) >>= λ count. pure tt in
      let (n, wrote) =
        counted _ deleted (sym (writing-connected store.connect up.0 deletion db) ∙ gone) in
      let left =
        find-delete session_id_of store.wf_sessions laws (λ k. k == id) db deleted n wrote j in
      let held : session_of s.session_id db ≡ old =
        ground (arith, sym (get-find s.session_id db) ∙ was) in
      let made = merged-session s old db held in
      (
        rw (get-find j stored, get-find j db, found, held) (ground (arith, made)),
        rw (get-find j deleted, get-find j db, left) (ground arith),
      )
