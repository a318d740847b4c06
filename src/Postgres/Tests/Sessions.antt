-- ===== src/Postgres/Tests/Sessions.antt =====
-- The session store over PostgreSQL at concrete inputs.
use tianshu_rs.Base.{ℕ, none, some, [], ◌∷◌, ok, ◌≡◌, refl, ◌==◌, string_eq, if◌then◌else◌}
use tianshu_rs.Session.{Session}
use tianshu_rs.Postgres.{put}
use tianshu_rs.Postgres.Reference.{Rows, rows_table, rows_table-IsTable, rows_table-Answers}
use tianshu_rs.Postgres.Sessions.{
  PostgresSessionStore, session_id_of, begun_with, upsert, get, delete,
  get_session-upsert_and_delete,
}

abbrev Db : Type 0
Db = Rows (session_id_of {Json = ℕ})

abbrev sessions_store : PostgresSessionStore ℕ Db
sessions_store = record { connect = λ db. ok tt; wf_sessions = rows_table session_id_of }

abbrev old : Session ℕ
old = record { session_id = "s"; metadata = none; created_at = 3; updated_at = 3 }

abbrev again : Session ℕ
again = record { session_id = "s"; metadata = some 7; created_at = 9; updated_at = 9 }

abbrev before : Db
before = (old ∷ [], refl)

abbrev stored : Db
stored = (record again { created_at = 3 } ∷ [], refl)

abbrev emptied : Db
emptied = ([], refl)

get_session-upsert_and_delete_example :
    (get sessions_store "s" stored ≡ (
      if again.session_id == "s"
      then ok (some (begun_with (some old) again))
      else get sessions_store "s" before))
    × (get sessions_store "s" emptied
        ≡ (if old.session_id == "s" then ok none else get sessions_store "s" before))
unfolding get upsert delete put
get_session-upsert_and_delete_example =
    get_session-upsert_and_delete sessions_store (rows_table-IsTable session_id_of)
      (rows_table-Answers session_id_of) again (some old) "s" "s" before stored emptied refl refl
      refl
