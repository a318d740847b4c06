-- ===== src/Postgres/Reference.antt =====
-- A table in memory that does what PostgreSQL documents, so that the hypotheses on a table hold of it.
-- A write that would leave two rows with one key is refused.
pub mod Pages
pub mod Parts
use mathlib.Core.List.{Permᴰ as Rearranged}
use mathlib.Core.List.Permᴰ
use tianshu_rs.Base.{
  ℕ, String, Bool, true, false, not, ◌&&◌, Option, none, some, List, [], ◌∷◌, Result, ok, err,
  anyhow, ◌≡◌, ◌≢◌, refl, arith, Eq, ◌==◌, if◌then◌else◌, All, filter, length, ◌⊎◌, inl, inr,
}
use tianshu_rs.Postgres.{Table, IsTable, IsKeyed, put, to_list, Answers}

abbrev pub decided : (b : Bool) → (b ≡ true) ⊎ (b ≡ false)
decided true = inl refl
decided false = inr refl

module _ {Row K : Type 0} ⦃test : Eq K⦄ (key : Row → K) where
  abbrev pub lacks : K → List Row → Bool
  lacks k [] = true
  lacks k (r ∷ rows) = not (key r == k) && lacks k rows

  abbrev pub is_keyed : List Row → Bool
  is_keyed [] = true
  is_keyed (r ∷ rows) = lacks (key r) rows && is_keyed rows

  lacks-All : (k : K) (rows : List Row) → lacks k rows ≡ true → All (λ s. key s ≢ k) rows
  lacks-All k [] h = tt
  lacks-All k (r ∷ rows) h = ground (arith, lacks-All k rows, test.same_iff (key r) k, h)

  pub is_keyed-IsKeyed : (rows : List Row) → is_keyed rows ≡ true → IsKeyed key rows
  is_keyed-IsKeyed [] h = tt
  is_keyed-IsKeyed (r ∷ rows) h = ground (arith, lacks-All (key r) rows, is_keyed-IsKeyed rows, h)

  abbrev pub Rows : Type 0
  Rows = (rows : List Row) × (is_keyed rows ≡ true)

  abbrev pub kept :
      {A : Type 0}
      → A
      → (rows : List Row) → ((is_keyed rows ≡ true) ⊎ (is_keyed rows ≡ false))
      → Rows
      → Result A × Rows
  kept a rows (inl h) before = (ok a, (rows, h))
  kept a rows (inr h) before = (anyhow "duplicate key", before)

  pub kept-rows :
      {A : Type 0} (a b : A) (rows : List Row)
      (h : (is_keyed rows ≡ true) ⊎ (is_keyed rows ≡ false)) (before after : Rows)
      → kept a rows h before ≡ (ok b, after)
      → Rearranged after.0 rows
  kept-rows a b rows (inl h) before after e =
      let same : rows ≡ after.0 = ground (arith, e) in rw (← same) (Permᴰ.refl rows)
  kept-rows a b rows (inr h) before after e = absurd (ground (arith, e))

  pub answered-rows : (rows l : List Row) → ok rows ≡ ok l → Rearranged rows l
  answered-rows rows l e = let same : rows ≡ l = ground (arith, e) in rw same (Permᴰ.refl l)

  abbrev pub at_most_one : List Row → Result (Option Row)
  at_most_one [] = ok none
  at_most_one (r ∷ []) = ok (some r)
  at_most_one (r ∷ s ∷ rows) = anyhow "query returned an unexpected number of rows"

  pub at_most_one-to_list :
      (rows : List Row) (o : Option Row) → rows ≡ to_list o → at_most_one rows ≡ ok o
  at_most_one-to_list rows none e = rw e refl
  at_most_one-to_list rows (some r) e = rw e refl

  abbrev pub rows_table : Table Rows Row
  rows_table = record {
    insert = λ set r db. kept tt (put key set r db.0) (decided (is_keyed (put key set r db.0))) db;
    select = λ p db. ok (filter p db.0);
    query_opt = λ p db. at_most_one (filter p db.0);
    delete = λ p db.
        kept (length (filter p db.0)) (filter (λ r. not (p r)) db.0)
          (decided (is_keyed (filter (λ r. not (p r)) db.0))) db;
    create = λ name db. (ok tt, db);
  }

  abbrev pub rows_table-IsTable : IsTable key rows_table
  rows_table-IsTable = record {
    rows = λ db. db.0;
    rows-IsKeyed = λ db. is_keyed-IsKeyed db.0 db.1;
    select-rows = λ p db l e. answered-rows (filter p db.0) l e;
    insert-rows = λ set r db db' e.
        kept-rows tt tt (put key set r db.0) (decided (is_keyed (put key set r db.0))) db db' e;
    delete-rows = λ p db db' n e.
        kept-rows (length (filter p db.0)) n (filter (λ r. not (p r)) db.0)
          (decided (is_keyed (filter (λ r. not (p r)) db.0))) db db' e;
  }

  pub rows_table-Answers : Answers {table = rows_table} (λ db. ok tt) rows_table-IsTable
  rows_table-Answers = (λ db. refl, λ p db o e. at_most_one-to_list (filter p db.0) o e)
