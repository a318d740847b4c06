-- ===== src/Postgres/Cases/Stored.antt =====
-- crates/workflow_engine_postgres/src/case_store.rs: what `get_by_key` finds after an `upsert`.
use mathlib.Core.Option
use tianshu_rs.Base.{
  String, Option, none, some, List, Result, ok, err, ◌≡◌, refl, sym, ap, ◌∙◌, arith, ◌==◌,
  string_eq, if◌then◌else◌, Bool-cases, inl, inr,
}
use tianshu_rs.Base.Exec.{Exec, lift, continue, ◌>>=◌}
use tianshu_rs.Case.{Case}
use tianshu_rs.Postgres.{IsTable, Answers, find, merged, has_key}
use tianshu_rs.Postgres.Rows.{find-has_key}
use tianshu_rs.Postgres.Lookup.{query_opt-find, find-insert, reading-connected, writing-connected}
use tianshu_rs.Postgres.Cases.{
  CaseRow, Columns, PostgresCaseStore, case_of, row_to_case, row_of, transposed, set_case, upsert,
  get_by_key,
}
use tianshu_rs.Postgres.Cases.Rows.{IsColumns, row_of-cases, row_to_case-row_of}

-- `PRIMARY KEY`
abbrev pub case_key_of : {Json : Type 0} → CaseRow Json → String
case_key_of row = row.case_key

-- A case that replaces another keeps the moment at which that one was created.
abbrev pub created_with : {Json : Type 0} → Option (Case Json) → Case Json → Case Json
created_with none c = c
created_with (some old) c = record c { created_at = old.created_at }

module _ {Db A : Type 0} where
  lifted :
      (r : Result A) (next : A → Exec Db (Unit {0})) (db db' : Db)
      → continue r next db ≡ (ok (tt {0}), db')
      → (a : A) × (r ≡ ok a) × (next a db ≡ (ok (tt {0}), db'))
  lifted (ok a) next db db' e = (a, refl, e)
  lifted (err m) next db db' e = absurd (ground (arith, e))

module _ {Json Db : Type 0} (serde : Columns Json) (store : PostgresCaseStore Json Db)
    (columns : IsColumns serde) (laws : IsTable case_key_of store.wf_cases.table)
    (up : Answers store.connect laws) where
  transposed-row :
      (o : Option (CaseRow Json))
      → transposed (row_to_case serde) (ok o) ≡ ok (Option.map (case_of serde) o)
  unfolding row_to_case
  transposed-row none = refl
  transposed-row (some row) = refl

  get-find :
      (k : String) (db : Db)
      → get_by_key serde store k db
        ≡ ok (Option.map (case_of serde) (find case_key_of k (laws.rows db)))
  unfolding get_by_key
  get-find k db =
      reading-connected store.connect up.0
        (λ db.
          transposed (row_to_case serde)
            (store.wf_cases.table.query_opt (has_key case_key_of k) db))
        db
      ∙ rw (query_opt-find case_key_of store.wf_cases.table laws up k db)
          (transposed-row (find case_key_of k (laws.rows db)))

  merged-case :
      (c : Case Json) (row : CaseRow Json) (o : Option (CaseRow Json)) (l : List (CaseRow Json))
      → case_of serde row ≡ c
      → find case_key_of row.case_key l ≡ o
      → case_of serde (merged case_key_of set_case row o)
        ≡ created_with (Option.map (case_of serde) o) c
  merged-case c row none l same e = same
  merged-case c row (some old) l same e =
      let kept = find-has_key case_key_of row.case_key l old e in rw (kept, ← same) refl

  -- Over a database that answers, a successful upsert stores the case under its key, where it keeps
  -- the moment of creation of the case that was there, and the other keys find what they found.
  pub upsert_keeps_creation :
      (c : Case Json) (old : Option (Case Json)) (db db' : Db)
      → get_by_key serde store c.case_key db ≡ ok old
      → upsert serde store c db ≡ (ok tt, db')
      → (k : String)
      → get_by_key serde store k db'
        ≡ (if c.case_key == k then ok (some (created_with old c)) else get_by_key serde store k db)
  unfolding upsert row_to_case
  upsert_keeps_creation c old db db' was e k =
      let (row, written, stored) =
        lifted (row_of serde c) (λ row. store.wf_cases.table.insert set_case row) db db'
          (sym (
              writing-connected store.connect up.0
                (lift (row_of serde c) >>= λ row. store.wf_cases.table.insert set_case row) db)
            ∙ e) in
      let found =
        find-insert case_key_of store.wf_cases.table laws set_case row db db' (λ o same. same)
          stored k in
      let (keys, report, h, g, columns_of) = row_of-cases serde c row written in
      let names : row.case_key ≡ c.case_key = ap (λ (r : CaseRow Json). r.case_key) columns_of in
      let same : case_of serde row ≡ c =
        ground (arith, row_to_case-row_of serde columns c row written) in
      let held : Option.map (case_of serde) (find case_key_of c.case_key (laws.rows db)) ≡ old =
        ground (arith, sym (get-find c.case_key db) ∙ was) in
      let o = find case_key_of row.case_key (laws.rows db) in
      let made : case_of serde (merged case_key_of set_case row o) ≡ created_with old c =
        merged-case c row o (laws.rows db) same refl
        ∙ ap (λ p. created_with p c)
            (ap (λ j. Option.map (case_of serde) (find case_key_of j (laws.rows db))) names
              ∙ held) in
      rw (get-find k db', get-find k db, found, names)
        (elim (Bool-cases (c.case_key == k)) [
          | inl hit ↦ rw hit (ap (λ a. ok (some a)) (rw names at made))
          | inr miss ↦ rw miss refl
        ])
