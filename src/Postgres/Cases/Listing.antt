-- ===== src/Postgres/Cases/Listing.antt =====
-- crates/workflow_engine_postgres/src/case_store.rs: what `list` and `count` answer.
use mathlib.Core.List.{Permᴰ as Rearranged}
use mathlib.Core.List.Permᴰ
use mathlib.Core.Option
use tianshu_rs.Base.{
  ℕ, Bool, true, false, Option, none, some, List, [], ◌∷◌, Result, ok, ◌≡◌, refl, sym, ap, ◌∙◌,
  arith, ◌≤◌, ◌<◌, ◌^◌, ◌%◌, ◌-◌, ◌⊎◌, suc, ℤ, pos, negsuc, string_eq, Bool-cases, inl, inr, map,
  take, drop, filter, length, ltb, Result-cases, All,
}
use tianshu_rs.Case.{Case}
use tianshu_rs.Store.{CaseFilter}
use tianshu_rs.Postgres.{IsTable}
use tianshu_rs.Postgres.Lookup.{reading-connected}
use tianshu_rs.Postgres.Cases.{
  CaseRow, Columns, CaseTable, PostgresCaseStore, as_i64, as_u64, cast_count, case_of, row_to_case,
  where_clause, collect, list, count, unwrap_or, collected,
}
use tianshu_rs.Postgres.Cases.Stored.{case_key_of}

module _ {Row : Type 0} where
  abbrev pub IsSortedBy : (by : Row → ℕ) → List Row → Type 0
  IsSortedBy by [] = Unit
  IsSortedBy by (r ∷ rows) = All (λ s. by r ≤ by s) rows × IsSortedBy by rows

  -- the rows that a `LIMIT` leaves; a negative one is refused
  abbrev pub IsLimited : Option ℤ → List Row → List Row → Type 0
  IsLimited none rows l = l ≡ rows
  IsLimited (some (pos n)) rows l = l ≡ take n rows
  IsLimited (some (negsuc n)) rows l = true ≡ false

  -- What PostgreSQL documents of a query with `ORDER BY`, `LIMIT` and `OFFSET`, and of `COUNT`: a page
  -- is cut out of all rows that pass, in an order that the key gives up to rows with equal keys.
  pub record IsListing {Db : Type 0} (table : CaseTable Db Row) (rows : Db → List Row)
      : Type 0 where
    pub page-rows :
        (p : Row → Bool) (by : Row → ℕ) (limit : Option ℤ) (offset : ℤ) (db : Db) (l : List Row)
        → table.select_page p by limit offset db ≡ ok l
        → (sorted : List Row) × (n : ℕ) × Rearranged (filter p (rows db)) sorted
          × IsSortedBy by sorted
          × (offset ≡ pos n)
          × IsLimited limit (drop n sorted) l
    pub count-rows :
        (p : Row → Bool) (db : Db) (n : ℤ)
        → table.count p db ≡ ok n
        → n ≡ pos (length (filter p (rows db)))

  abbrev pub limited : Option ℕ → List Row → List Row
  limited none rows = rows
  limited (some n) rows = take n rows

abbrev pub Below : ℕ → Option ℕ → Type 0
Below bound o = unwrap_or 0 o < bound

module _ {Row : Type 0} where
  length-Rearranged : {l m : List Row} → Rearranged l m → length l ≡ length m
  length-Rearranged Permᴰ.nil = refl
  length-Rearranged (Permᴰ.cons e h) = ap suc (length-Rearranged h)
  length-Rearranged (Permᴰ.swap e f) = refl
  length-Rearranged (Permᴰ.trans h k) = length-Rearranged h ∙ length-Rearranged k

wrapped : (n : ℕ) → n < 2 ^ 64 → n % 2 ^ 64 ≡ n
wrapped n h = omega arith

as_i64-pos : (n m : ℕ) → n < 2 ^ 64 → as_i64 n ≡ pos m → (n ≡ m) × (n < 2 ^ 63)
unfolding as_i64
as_i64-pos n m h e = ground (arith, wrapped n h, e)

as_i64-cases :
    (n : ℕ) → n < 2 ^ 64 → ((n < 2 ^ 63) × (as_i64 n ≡ pos n)) ⊎ ((m : ℕ) × (as_i64 n ≡ negsuc m))
unfolding as_i64
as_i64-cases n h = elim (Bool-cases (ltb n (2 ^ 63))) [
  | inl low ↦ inl (ground (arith, wrapped n h, low))
  | inr high ↦ inr (2 ^ 64 - suc n, ground (arith, wrapped n h, high))
]

module _ {Json : Type 0} (serde : Columns Json) where
  collect-rows :
      (rows : List (CaseRow Json))
      → collect (row_to_case serde) rows ≡ ok (map (case_of serde) rows)
  unfolding row_to_case
  collect-rows [] = refl
  collect-rows (row ∷ rows) = rw (collect-rows rows) refl

  limited-IsLimited :
      (limit : Option ℕ) (rows l : List (CaseRow Json))
      → Below (2 ^ 64) limit
      → IsLimited (Option.map as_i64 limit) rows l
      → (l ≡ limited limit rows) × Below (2 ^ 63) limit
  limited-IsLimited none rows l h e = (e, omega arith)
  limited-IsLimited (some n) rows l h e = elim (as_i64-cases n h) [
    | inl (low, cast) ↦ (rw cast at e, low)
    | inr (m, cast) ↦ absurd (let no : true ≡ false = rw cast at e in ground (arith, no))
  ]

module _ {Json Db : Type 0} (serde : Columns Json) (store : PostgresCaseStore Json Db)
    (laws : IsTable case_key_of store.wf_cases.table) (listing : IsListing store.wf_cases laws.rows)
    (up : (db : Db) → store.connect db ≡ ok tt) where
  paged : CaseFilter → Db → Result (List (CaseRow Json))
  paged f =
      store.wf_cases.select_page (where_clause f) (λ row. row.created_at)
        (Option.map as_i64 f.limit) (as_i64 (unwrap_or 0 f.offset))

  list-collected :
      (f : CaseFilter) (db : Db)
      → list serde store f db ≡ collected (row_to_case serde) (paged f db)
  unfolding list paged
  list-collected f db =
      reading-connected store.connect up (λ db. collected (row_to_case serde) (paged f db)) db

  count-counted :
      (f : CaseFilter) (n : ℕ) (db : Db)
      → count serde store f db ≡ ok n
      → n ≡ length (filter (where_clause f) (laws.rows db))
  unfolding count as_u64
  count-counted f n db e =
      let hits = filter (where_clause f) (laws.rows db) in
      let got =
        sym (
          reading-connected store.connect up
            (λ db. cast_count (store.wf_cases.count (where_clause f) db)) db)
        ∙ e in
      elim (Result-cases (store.wf_cases.count (where_clause f) db)) [
        | inr (m, h) ↦ absurd (ground (arith, rw h at got))
        | inl (z, h) ↦
            let exact : z ≡ pos (length hits) = listing.count-rows (where_clause f) db z h in
            ground (arith, rw (h, exact) at got)
      ]

  -- A listing that succeeds, with a limit and an offset that are machine words, has them below 2^63
  -- and gives the cases of a page of all rows that pass the condition, oldest first; and a count that
  -- succeeds is the number of those rows, whatever limit and offset the filter has.
  pub list-page :
      (f : CaseFilter) (l : List (Case Json)) (n : ℕ) (db : Db)
      → Below (2 ^ 64) f.limit
      → Below (2 ^ 64) f.offset
      → list serde store f db ≡ ok l
      → count serde store f db ≡ ok n
      → (sorted : List (CaseRow Json)) × Rearranged (filter (where_clause f) (laws.rows db)) sorted
        × IsSortedBy (λ row. row.created_at) sorted
        × Below (2 ^ 63) f.limit
        × Below (2 ^ 63) f.offset
        × (l ≡ map (case_of serde) (limited f.limit (drop (unwrap_or 0 f.offset) sorted)))
        × (n ≡ length sorted)
  unfolding paged
  list-page f l n db small first e counted = elim (Result-cases (paged f db)) [
    | inr (m, h) ↦ absurd (let no = sym (list-collected f db) ∙ e in ground (arith, rw h at no))
    | inl (rows, h) ↦
        let (sorted, start, same, by, at_start, cut) =
          listing.page-rows (where_clause f) (λ row. row.created_at) (Option.map as_i64 f.limit)
            (as_i64 (unwrap_or 0 f.offset)) db rows h in
        let (names, low) = as_i64-pos (unwrap_or 0 f.offset) start first at_start in
        let (page, fits) = limited-IsLimited serde f.limit (drop start sorted) rows small cut in
        let got = sym (list-collected f db) ∙ e in
        let cases : map (case_of serde) rows ≡ l =
          ground (arith, sym (collect-rows serde rows) ∙ (rw h at got)) in
        (
          sorted,
          same,
          by,
          fits,
          low,
          sym cases ∙ ap (map (case_of serde)) (rw (← names) at page),
          count-counted f n db counted ∙ length-Rearranged same,
        )
  ]
