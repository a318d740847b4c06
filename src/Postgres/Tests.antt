-- ===== src/Postgres/Tests.antt =====
-- The stores over PostgreSQL at concrete inputs, over tables in memory.
mod Cases
mod Sessions
use mathlib.Core.List.{Permᴰ as Rearranged}
use mathlib.Core.List.Permᴰ
use tianshu_rs.Base.{
  ℕ, String, Bool, true, false, not, Option, none, some, List, [], ◌∷◌, Result, ok, err, anyhow,
  ◌≡◌, refl, All, ◌==◌, string_eq, pair_eq, if◌then◌else◌, map, filter, length, pos, negsuc, ℤ,
}
use tianshu_rs.Base.Parse.{trim, to_ascii_lowercase}
use tianshu_rs.Session
use tianshu_rs.Session.{Session}
use tianshu_rs.Case.{Case}
use tianshu_rs.Store.{StateEntry, SessionStateEntry, IsStateStore, CaseFilter}
use tianshu_rs.Postgres.{find, Table, IsTable, Answers}
use tianshu_rs.Postgres.Reference.{Rows, rows_table, rows_table-IsTable, rows_table-Answers}
use tianshu_rs.Postgres.States.{get, get_all, PostgresStateStore, postgres_state_store}
use tianshu_rs.Postgres.Reference.Parts.{within, within-IsTable, within-Answers}
use tianshu_rs.Postgres.States.Variables.{session_state_key_of}
use tianshu_rs.Postgres.States.Listing.{get_all-get}
use tianshu_rs.Postgres.States.Laws.{state_key, postgres-IsStateStore}
use tianshu_rs.Postgres.Pool.{tls_verification_enabled}

abbrev Tables : Type 0
Tables = Rows state_key × Rows session_state_key_of

abbrev with_entries : Rows state_key → Tables → Tables
with_entries rows db = (rows, db.1)

abbrev with_session_entries : Rows session_state_key_of → Tables → Tables
with_session_entries rows db = (db.0, rows)

abbrev states_store : PostgresStateStore Tables
states_store = record {
  connect = λ db. ok tt;
  wf_state = within (λ db. db.0) with_entries (rows_table state_key);
  wf_session_state = within (λ db. db.1) with_session_entries (rows_table session_state_key_of);
}

abbrev wf_state-IsTable : IsTable state_key states_store.wf_state
wf_state-IsTable =
    within-IsTable (λ db. db.0) with_entries (λ p d. refl) (rows_table-IsTable state_key)

abbrev wf_session_state-IsTable : IsTable session_state_key_of states_store.wf_session_state
wf_session_state-IsTable =
    within-IsTable (λ db. db.1) with_session_entries (λ p d. refl)
      (rows_table-IsTable session_state_key_of)

wf_state-Answers : Answers states_store.connect wf_state-IsTable
wf_state-Answers =
    within-Answers (λ db. db.0) with_entries (λ p d. refl) (rows_table-IsTable state_key)
      (rows_table-Answers state_key)

wf_session_state-Answers : Answers states_store.connect wf_session_state-IsTable
wf_session_state-Answers =
    within-Answers (λ db. db.1) with_session_entries (λ p d. refl)
      (rows_table-IsTable session_state_key_of) (rows_table-Answers session_state_key_of)

postgres-IsStateStore_example : IsStateStore (postgres_state_store states_store)
postgres-IsStateStore_example =
    postgres-IsStateStore states_store wf_state-IsTable wf_session_state-IsTable wf_state-Answers
      wf_session_state-Answers

abbrev entries : List StateEntry
entries = record { case_key = "c"; step = "draft"; contents = "1"; updated_at = 5 } ∷ []

abbrev draft : Tables
draft = ((entries, refl), ([], refl))

get_all-get_example :
    All (λ e. e.case_key ≡ "c") entries
    × ((s : String) → get states_store "c" s draft ≡ ok (find state_key ("c", s) entries))
unfolding get_all
get_all-get_example =
    get_all-get states_store wf_state-IsTable wf_state-Answers "c" entries draft refl

says_yes : tls_verification_enabled (some " Yes ") ≡ true
unfolding tls_verification_enabled to_ascii_lowercase trim
says_yes = refl
