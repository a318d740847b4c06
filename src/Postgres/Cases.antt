-- ===== src/Postgres/Cases.antt =====
-- crates/workflow_engine_postgres/src/case_store.rs: `PostgresCaseStore`, over the table `wf_cases`.
-- `serde_json` is a parameter.
pub mod Rows
pub mod Stored
pub mod Listing
use mathlib.Core.Option
use tianshu_rs.Base.{
  ℕ, String, Bool, true, not, ◌&&◌, Option, none, some, List, [], ◌∷◌, Result, ok, err, ◌==◌,
  string_eq, nat_eq, if◌then◌else◌, ltb, suc, ℤ, pos, negsuc, ◌-◌, ◌%◌, ◌^◌,
}
use tianshu_rs.Base.Exec.{Exec, lift, ◌>>=◌, ◌>>◌}
use tianshu_rs.Case.{Case, ExecutionState, running, to_string, from_str_lowercase}
use tianshu_rs.Store.{CaseFilter, CaseStore}
use tianshu_rs.Postgres.{Table, reading, writing}

-- a row of `wf_cases`, with the JSONB columns as `row.get` reads them
pub record CaseRow (Json : Type 0) : Type 0 where
  pub case_key : String
  pub session_id : String
  pub workflow_code : String
  pub execution_state : String
  pub finished_type : Option String
  pub finished_description : Option String
  pub parent_key : Option String
  pub child_keys : Option Json
  pub lifecycle_state : String
  pub processing_report : Option Json
  pub resource_data : Option Json
  pub private_vars : Option Json
  pub created_at : ℕ
  pub updated_at : ℕ

-- What the store calls of `serde_json` for the two columns that are lists.
pub record Columns (Json : Type 0) : Type 0 where
  pub keys_to_value : List String → Result Json
  pub keys_from_value : Json → Option (List String)
  pub report_to_value : List Json → Result Json
  pub as_array : Json → Option (List Json)

abbrev unwrap_or {ℓ} : {A : Type ℓ} → A → Option A → A
unwrap_or a none = a
unwrap_or a (some b) = b

abbrev and_then {ℓ κ} : {A : Type ℓ} {B : Type κ} → Option A → (A → Option B) → Option B
and_then none f = none
and_then (some a) f = f a

-- `as i64`
unfoldable pub as_i64 : ℕ → ℤ
as_i64 n = let m = n % 2 ^ 64 in if ltb m (2 ^ 63) then pos m else negsuc (2 ^ 64 - suc m)

-- `as u64`
unfoldable pub as_u64 : ℤ → ℕ
as_u64 (pos n) = n
as_u64 (negsuc n) = 2 ^ 64 - suc n

abbrev pub cast_count : Result ℤ → Result ℕ
cast_count (ok n) = ok (as_u64 n)
cast_count (err e) = err e

-- The statements on `wf_cases`: those of every table, `SELECT … WHERE … ORDER BY … ASC` without a
-- limit and with `LIMIT` and `OFFSET`, and `SELECT COUNT(*)::bigint`.
pub record CaseTable (Db Row : Type 0) : Type 0 where
  pub table : Table Db Row
  pub select_sorted : (Row → Bool) → (Row → ℕ) → Db → Result (List Row)
  pub select_page : (Row → Bool) → (Row → ℕ) → Option ℤ → ℤ → Db → Result (List Row)
  pub count : (Row → Bool) → Db → Result ℤ

pub record PostgresCaseStore (Json Db : Type 0) : Type 0 where
  pub connect : Db → Result (Unit {0})
  pub wf_cases : CaseTable Db (CaseRow Json)

-- `$1 IS NULL OR test`
abbrev pub null_or {ℓ} : {A : Type ℓ} → Option A → (A → Bool) → Bool
null_or none test = true
null_or (some value) test = test value

-- `iter().map(f).collect::<Result<Vec<_>>>()`
abbrev pub collect {ℓ κ} : {A : Type ℓ} {B : Type κ} → (A → Result B) → List A → Result (List B)
collect f [] = ok []
collect f (a ∷ l) =
    let rest = collect f l in
    elim (f a) [ err e ↦ err e | ok b ↦ elim rest [ err e ↦ err e | ok bs ↦ ok (b ∷ bs) ] ]

abbrev pub collected {ℓ κ} :
    {A : Type ℓ} {B : Type κ} → (A → Result B) → Result (List A) → Result (List B)
collected f (ok rows) = collect f rows
collected f (err e) = err e

-- `row_opt.map(f).transpose()?`
abbrev pub transposed {ℓ κ} :
    {A : Type ℓ} {B : Type κ} → (A → Result B) → Result (Option A) → Result (Option B)
transposed f (ok none) = ok none
transposed f (ok (some a)) = elim (f a) [ ok b ↦ ok (some b) | err e ↦ err e ]
transposed f (err e) = err e

module _ {Json : Type 0} (serde : Columns Json) where
  abbrev pub case_of : CaseRow Json → Case Json
  case_of row = record {
    case_key = row.case_key;
    session_id = row.session_id;
    workflow_code = row.workflow_code;
    execution_state = unwrap_or running (from_str_lowercase row.execution_state);
    finished_type = row.finished_type;
    finished_description = row.finished_description;
    parent_key = row.parent_key;
    child_keys = unwrap_or [] (and_then row.child_keys serde.keys_from_value);
    lifecycle_state = row.lifecycle_state;
    processing_report = unwrap_or [] (and_then row.processing_report serde.as_array);
    resource_data = row.resource_data;
    private_vars = row.private_vars;
    created_at = row.created_at;
    updated_at = row.updated_at;
  }

  unfoldable pub row_to_case : CaseRow Json → Result (Case Json)
  row_to_case row = ok (case_of row)

  -- the parameters of the insertion
  abbrev pub row_with : Case Json → Json → Json → CaseRow Json
  row_with c keys report = record {
    case_key = c.case_key;
    session_id = c.session_id;
    workflow_code = c.workflow_code;
    execution_state = to_string c.execution_state;
    finished_type = c.finished_type;
    finished_description = c.finished_description;
    parent_key = c.parent_key;
    child_keys = some keys;
    lifecycle_state = c.lifecycle_state;
    processing_report = some report;
    resource_data = c.resource_data;
    private_vars = c.private_vars;
    created_at = c.created_at;
    updated_at = c.updated_at;
  }

  abbrev pub row_from : Case Json → Result Json → Result Json → Result (CaseRow Json)
  row_from c (err e) report = err e
  row_from c (ok keys) (err e) = err e
  row_from c (ok keys) (ok report) = ok (row_with c keys report)

  unfoldable pub row_of : Case Json → Result (CaseRow Json)
  row_of c =
      row_from c (serde.keys_to_value c.child_keys) (serde.report_to_value c.processing_report)

module _ {Json : Type 0} where
  -- the columns of `DO UPDATE SET`: all but the key and `created_at`
  abbrev pub set_case : CaseRow Json → CaseRow Json → CaseRow Json
  set_case excluded old = record excluded { case_key = old.case_key; created_at = old.created_at }

  -- the `WHERE` clause of `list` and of `count`
  unfoldable pub where_clause : CaseFilter → CaseRow Json → Bool
  where_clause f row =
      null_or (Option.map to_string f.execution_state) (λ s. row.execution_state == s)
      && null_or f.created_after (λ after. ltb after row.created_at)
      && null_or f.created_before (λ before. ltb row.created_at before)
      && null_or f.updated_after (λ after. ltb after row.updated_at)

module _ {Json Db : Type 0} (serde : Columns Json) (store : PostgresCaseStore Json Db) where
  unfoldable pub upsert : Case Json → Db → Result (Unit {0}) × Db
  unfolding row_of
  upsert c =
      writing store.connect
        (lift (row_of serde c) >>= λ row. store.wf_cases.table.insert set_case row)

  unfoldable pub get_by_key : String → Db → Result (Option (Case Json))
  unfolding row_to_case
  get_by_key k = reading store.connect (λ db.
      transposed (row_to_case serde) (store.wf_cases.table.query_opt (λ row. row.case_key == k) db))

  unfoldable pub get_by_session : String → Db → Result (List (Case Json))
  unfolding row_to_case
  get_by_session id = reading store.connect (λ db.
      collected (row_to_case serde)
        (store.wf_cases.select_sorted (λ row. row.session_id == id) (λ row. row.created_at) db))

  unfoldable pub list : CaseFilter → Db → Result (List (Case Json))
  unfolding row_to_case where_clause as_i64
  list f = reading store.connect (λ db. collected (row_to_case serde) (
      store.wf_cases.select_page (where_clause f) (λ row. row.created_at)
        (Option.map as_i64 f.limit) (as_i64 (unwrap_or 0 f.offset)) db))

  unfoldable pub count : CaseFilter → Db → Result ℕ
  unfolding where_clause as_u64
  count f = reading store.connect (λ db. cast_count (store.wf_cases.count (where_clause f) db))

  -- the table and its index, where they are not there
  unfoldable pub setup : Exec Db (Unit {0})
  setup = writing store.connect (
      store.wf_cases.table.create "wf_cases"
      >> store.wf_cases.table.create "wf_cases_session_id_idx")

  abbrev pub postgres_case_store : CaseStore Json Db
  postgres_case_store = record {
    upsert = upsert;
    get_by_key = get_by_key;
    get_by_session = get_by_session;
    list = list;
    count = count;
  }
