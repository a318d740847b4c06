-- ===== src/Postgres/States/Listing.antt =====
-- crates/workflow_engine_postgres/src/state_store.rs: the entries that `get_all` lists.
use mathlib.Core.List.{Permᴰ as Rearranged}
use mathlib.Core.List.Permᴰ
use tianshu_rs.Base.{
  String, Bool, List, ok, ◌≡◌, refl, sym, ap, ◌∙◌, ◌==◌, string_eq, pair_eq, filter, All,
  filter-All,
}
use tianshu_rs.Store.{StateEntry}
use tianshu_rs.Postgres.{IsTable, Answers, find}
use tianshu_rs.Postgres.Rows.{find-Rearranged, find-kept, filter-IsKeyed}
use tianshu_rs.Postgres.Lookup.{reading-connected}
use tianshu_rs.Postgres.States.{PostgresStateStore, get, get_all}
use tianshu_rs.Postgres.States.Laws.{state_key, entry_of, get-find}

module _ {Row : Type 0} where
  All-Rearranged : (P : Row → Type 0) {l m : List Row} → Rearranged l m → All P l → All P m
  All-Rearranged P Permᴰ.nil a = tt
  All-Rearranged P (Permᴰ.cons e h) a = (rw e at a.0, All-Rearranged P h a.1)
  All-Rearranged P (Permᴰ.swap e f) a = (rw f at a.1.0, (rw e at a.0, a.1.1))
  All-Rearranged P (Permᴰ.trans h k) a = All-Rearranged P k (All-Rearranged P h a)

module _ {Db : Type 0} (store : PostgresStateStore Db) (laws : IsTable state_key store.wf_state)
    (up : Answers store.connect laws) where
  -- Over a database that answers, a listing of the state of a case that succeeds has only entries of
  -- that case, and for each step it has the entry that `get` gives, or none where `get` gives none.
  pub get_all-get :
      (k : String) (l : List StateEntry) (db : Db)
      → get_all store k db ≡ ok l
      → All (λ e. e.case_key ≡ k) l
        × ((s : String) → get store k s db ≡ ok (find state_key (k, s) l))
  unfolding get_all entry_of
  get_all-get k l db e =
      let own : StateEntry → Bool = λ r. r.case_key == k in
      let got = sym (reading-connected store.connect up.0 (store.wf_state.select own) db) ∙ e in
      let hits = laws.select-rows own db l got in
      (
        All-Rearranged (λ r. r.case_key ≡ k) hits
            (filter-All (λ r. r.case_key ≡ k) own (laws.rows db)
              (λ r h. (string_eq.same_iff r.case_key k).0 h)),
        λ s.
            get-find store laws up k s db
            ∙ ap ok (
                sym (
                  find-Rearranged state_key (k, s) (filter own (laws.rows db)) l
                    (filter-IsKeyed state_key own (laws.rows db) (laws.rows-IsKeyed db)) hits
                  ∙ find-kept state_key (λ j. j.0 == k) (k, s) (laws.rows db)
                      ((string_eq.same_iff k k).1 refl))),
      )
