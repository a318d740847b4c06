-- ===== src/Postgres/Cases/Rows.antt =====
-- crates/workflow_engine_postgres/src/case_store.rs: cases as rows, and the conditions on rows beside
-- those that the in-memory store tests.
use mathlib.Core.Option
use tianshu_rs.Base.{
  ℕ, String, not, Option, none, some, List, Result, ok, err, ◌≡◌, refl, arith, ◌==◌, string_eq, leb,
  ltb,
}
use tianshu_rs.Case.{Case, ExecutionState, running, waiting, finished, to_string, state_eq}
use tianshu_rs.Case.Lifecycle.{from_str-iff-to_string}
use tianshu_rs.Store.{CaseFilter}
use tianshu_rs.Store.Memory.{matches}
use tianshu_rs.Postgres.Cases.{
  CaseRow, Columns, row_to_case, row_from, row_of, row_with, where_clause, null_or,
}

-- What `serde_json` writes for a list of keys and for a report is read back.
pub record IsColumns {Json : Type 0} (serde : Columns Json) : Type 0 where
  pub keys_back :
      (keys : List String) (v : Json)
      → serde.keys_to_value keys ≡ ok v
      → serde.keys_from_value v ≡ some keys
  pub report_back :
      (report : List Json) (v : Json)
      → serde.report_to_value report ≡ ok v
      → serde.as_array v ≡ some report

to_string-same : (s t : ExecutionState) → (to_string s == to_string t) ≡ (s == t)
unfolding to_string
to_string-same running running = refl
to_string-same running waiting = refl
to_string-same running finished = refl
to_string-same waiting running = refl
to_string-same waiting waiting = refl
to_string-same waiting finished = refl
to_string-same finished running = refl
to_string-same finished waiting = refl
to_string-same finished finished = refl

state-same :
    (s : ExecutionState) (o : Option ExecutionState)
    → null_or (Option.map to_string o) (λ t. to_string s == t) ≡ null_or o (λ t. s == t)
state-same s none = refl
state-same s (some t) = to_string-same s t

after-same : (t : ℕ) (o : Option ℕ) → null_or o (λ a. ltb a t) ≡ null_or o (λ a. not (leb t a))
after-same t none = refl
after-same t (some a) = ground arith

before-same : (t : ℕ) (o : Option ℕ) → null_or o (λ b. ltb t b) ≡ null_or o (λ b. not (leb b t))
before-same t none = refl
before-same t (some b) = ground arith

module _ {Json : Type 0} (serde : Columns Json) where
  row_from-cases :
      (c : Case Json) (r s : Result Json) (row : CaseRow Json)
      → row_from serde c r s ≡ ok row
      → (keys report : Json) × (r ≡ ok keys)
        × (s ≡ ok report)
        × (row ≡ row_with serde c keys report)
  row_from-cases c (err m) s row e = absurd (ground (arith, e))
  row_from-cases c (ok keys) (err m) row e = absurd (ground (arith, e))
  row_from-cases c (ok keys) (ok report) row e = (keys, report, refl, refl, ground (arith, e))

  -- the row that a case is written as holds the two values that its lists are written as
  pub row_of-cases :
      (c : Case Json) (row : CaseRow Json)
      → row_of serde c ≡ ok row
      → (keys report : Json) × (serde.keys_to_value c.child_keys ≡ ok keys)
        × (serde.report_to_value c.processing_report ≡ ok report)
        × (row ≡ row_with serde c keys report)
  unfolding row_of
  row_of-cases c row e = row_from-cases c _ _ row e

  -- A case that is written as a row is read back from it, where the lists in JSON are, and its instants
  -- are those that the column holds.
  pub row_to_case-row_of :
      (laws : IsColumns serde) (c : Case Json) (row : CaseRow Json)
      → row_of serde c ≡ ok row
      → row_to_case serde row ≡ ok c
  unfolding row_to_case
  row_to_case-row_of laws c row e =
      let (keys, report, h, g, same) = row_of-cases c row e in
      let state = (from_str-iff-to_string (to_string c.execution_state) c.execution_state).1 refl in
      let back = laws.keys_back c.child_keys keys h in
      let told = laws.report_back c.processing_report report g in
      rw same (rw (state, back, told) refl)

  -- The condition of `list` and `count` holds of the row of a case exactly where the in-memory store
  -- takes the case to match the filter.
  pub where_clause-matches :
      (f : CaseFilter) (c : Case Json) (row : CaseRow Json)
      → row_of serde c ≡ ok row
      → where_clause f row ≡ matches f c
  unfolding where_clause matches
  where_clause-matches f c row e =
      let (keys, report, h, g, same) = row_of-cases c row e in
      rw same (
        rw
          (
            state-same c.execution_state f.execution_state,
            after-same c.created_at f.created_after,
            before-same c.created_at f.created_before,
            after-same c.updated_at f.updated_after,
          )
          refl)
