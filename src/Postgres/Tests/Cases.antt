-- ===== src/Postgres/Tests/Cases.antt =====
-- The case store over PostgreSQL at concrete inputs. A JSON value is a number, a list of texts or a
-- list of values.
use mathlib.Core.List.{Permᴰ as Rearranged}
use tianshu_rs.Base.{
  ℕ, String, Option, none, some, List, [], ◌∷◌, ok, ◌≡◌, refl, ap, arith, ◌==◌, string_eq,
  if◌then◌else◌, filter, ◌^◌, map, drop, length,
}
use tianshu_rs.Case.{from_str_lowercase, to_string, Case, running, waiting}
use tianshu_rs.Case
use tianshu_rs.Store.{CaseFilter}
use tianshu_rs.Store.Memory.{matches}
use tianshu_rs.Postgres.{put}
use tianshu_rs.Postgres.Reference.{Rows, rows_table-IsTable, rows_table-Answers}
use tianshu_rs.Postgres.Cases.{
  CaseRow, Columns, PostgresCaseStore, row_of, row_with, list, count, as_i64, as_u64, case_of,
  where_clause, upsert, get_by_key, row_to_case,
}
use tianshu_rs.Postgres.Cases.Rows.{IsColumns, where_clause-matches}
use tianshu_rs.Postgres.Reference.Pages.{rows_listing, rows_listing-IsListing}
use tianshu_rs.Postgres.Cases.Listing.{list-page, IsSortedBy, Below, limited}
use tianshu_rs.Postgres.Cases.Stored.{case_key_of, created_with, upsert_keeps_creation}

mutual
  data Value : Type 0 where
    num : ℕ → Value
    texts : List String → Value
    arr : Items → Value

  data Items : Type 0 where
    nil : Items
    cons : Value → Items → Items

abbrev items_of : List Value → Items
items_of [] = nil
items_of (v ∷ l) = cons v (items_of l)

abbrev list_of : Items → List Value
list_of nil = []
list_of (cons v l) = v ∷ list_of l

abbrev read_texts : Value → Option (List String)
read_texts (texts l) = some l
read_texts _ = none

abbrev read_array : Value → Option (List Value)
read_array (arr l) = some (list_of l)
read_array _ = none

abbrev columns : Columns Value
columns = record {
  keys_to_value = λ l. ok (texts l);
  keys_from_value = read_texts;
  report_to_value = λ l. ok (arr (items_of l));
  as_array = read_array;
}

list_of-items_of : (l : List Value) → list_of (items_of l) ≡ l
list_of-items_of [] = refl
list_of-items_of (v ∷ l) = ap (◌∷◌ v) (list_of-items_of l)

columns-IsColumns : IsColumns columns
columns-IsColumns = record {
  keys_back = λ l v e. let same : texts l ≡ v = ground (arith, e) in rw (← same) refl;
  report_back = λ l v e.
      let same : arr (items_of l) ≡ v = ground (arith, e) in
      rw (← same) (ap some (list_of-items_of l));
}

abbrev review : Case Value
review = record (Case.new 9 "a" "s" "review") {
  child_keys = "b" ∷ [];
  processing_report = num 4 ∷ [];
}

abbrev review_row : CaseRow Value
review_row = row_with columns review (texts ("b" ∷ [])) (arr (cons (num 4) nil))

abbrev recent : CaseFilter
recent = record {
  execution_state = some waiting;
  created_after = some 4;
  created_before = none;
  updated_after = none;
  limit = some 1;
  offset = none;
}

where_clause-matches_example : where_clause recent review_row ≡ matches recent review
unfolding row_of
where_clause-matches_example = where_clause-matches columns recent review review_row refl

abbrev Db : Type 0
Db = Rows (case_key_of {Json = Value})

abbrev cases_store : PostgresCaseStore Value Db
cases_store = record { connect = λ db. ok tt; wf_cases = rows_listing case_key_of }

abbrev held : Db
held = (record review_row { created_at = 3 } ∷ [], refl)

abbrev waiting_review : Case Value
waiting_review = Case.mc_wait 12 review

upsert_keeps_creation_example :
    get_by_key columns cases_store "a" (upsert columns cases_store waiting_review held).1 ≡ (
      if waiting_review.case_key == "a"
      then ok (some (created_with (some (record review { created_at = 3 })) waiting_review))
      else get_by_key columns cases_store "a" held)
unfolding get_by_key upsert put row_of Case.new Case.mc_wait from_str_lowercase to_string
upsert_keeps_creation_example =
    upsert_keeps_creation columns cases_store columns-IsColumns (rows_table-IsTable case_key_of)
      (rows_table-Answers case_key_of) waiting_review (some (record review { created_at = 3 })) held
      (upsert columns cases_store waiting_review held).1 refl refl "a"

abbrev running_ones : CaseFilter
running_ones = record recent { execution_state = some running; created_after = some 2 }

abbrev shown : List (Case Value)
shown = record review { created_at = 3 } ∷ []

list-page_example :
    (sorted : List (CaseRow Value)) × Rearranged
      (filter (where_clause running_ones) ((rows_table-IsTable case_key_of).rows held))
      sorted
    × IsSortedBy (λ row. row.created_at) sorted
    × Below (2 ^ 63) running_ones.limit
    × Below (2 ^ 63) running_ones.offset
    × (shown ≡ map (case_of columns) (limited running_ones.limit (drop 0 sorted)))
    × (1 ≡ length sorted)
unfolding Case.new list count where_clause row_to_case as_i64 as_u64 from_str_lowercase to_string
list-page_example =
    list-page columns cases_store (rows_table-IsTable case_key_of)
      (rows_listing-IsListing case_key_of) (λ db. refl) running_ones shown 1 held (omega arith)
      (omega arith) refl refl
