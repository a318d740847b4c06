-- ===== src/Postgres.antt =====
-- crates/workflow_engine_postgres: the stores over a PostgreSQL database. The driver, the pool of
-- connections and the database are parameters: a table is what its statements answer (`Table`), and
-- `IsTable` is what PostgreSQL documents of them.
mod Rows
pub mod Lookup
pub mod States
pub mod Cases
pub mod Sessions
pub mod Pool
mod Reference
mod Tests
use mathlib.Core.List.{Permᴰ as Rearranged}
use tianshu_rs.Base.{
  ℕ, String, Bool, not, Option, none, some, List, [], ◌∷◌, Result, ok, err, anyhow, ◌≡◌, Eq, filter,
}
use tianshu_rs.Base.Exec.{Exec, continue}
pub use Rows.{find, merged, has_key, to_list, IsKeyed}
unfoldable pub use Rows.{put}

-- The statements on one table, with rows of type `Row`: `INSERT … ON CONFLICT (key) DO UPDATE SET`,
-- where `set` gives the row from the excluded one and the old one, `SELECT … WHERE` for all rows and, as
-- `query_opt`, for at most one, `DELETE … WHERE`
-- with the number of rows deleted, and `CREATE … IF NOT EXISTS` of the table or of an index of it.
pub record Table (Db Row : Type 0) : Type 0 where
  pub insert : (set : Row → Row → Row) → Row → Db → Result (Unit {0}) × Db
  pub select : (Row → Bool) → Db → Result (List Row)
  pub query_opt : (Row → Bool) → Db → Result (Option Row)
  pub delete : (Row → Bool) → Db → Result ℕ × Db
  pub create : String → Db → Result (Unit {0}) × Db

module _ {Db Row K : Type 0} ⦃test : Eq K⦄ where
  -- What a statement that succeeds does: no two rows have one primary key, a `SELECT` gives the rows
  -- that pass its condition, in some order, and a write changes the rows as it says.
  pub record IsTable (key : Row → K) (table : Table Db Row) : Type 0 where
    pub rows : Db → List Row
    pub rows-IsKeyed : (db : Db) → IsKeyed key (rows db)
    pub select-rows :
        (p : Row → Bool) (db : Db) (l : List Row)
        → table.select p db ≡ ok l
        → Rearranged (filter p (rows db)) l
    pub insert-rows :
        (set : Row → Row → Row) (r : Row) (db db' : Db)
        → table.insert set r db ≡ (ok tt, db')
        → Rearranged (rows db') (put key set r (rows db))
    pub delete-rows :
        (p : Row → Bool) (db db' : Db) (n : ℕ)
        → table.delete p db ≡ (ok n, db')
        → Rearranged (rows db') (filter (λ r. not (p r)) (rows db))

module _ {Db Row K : Type 0} ⦃test : Eq K⦄ {key : Row → K} {table : Table Db Row} where
  -- The database answers: a connection is given, and a query for at most one row gives the row that
  -- passes its condition, where no other does.
  abbrev pub Answers : (Db → Result (Unit {0})) → IsTable key table → Type 0
  Answers connect laws =
      ((db : Db) → connect db ≡ ok tt)
      × ((p : Row → Bool) (db : Db) (o : Option Row)
          → filter p (laws.rows db) ≡ to_list o
          → table.query_opt p db ≡ ok o)

-- `let client = self.pool.get().await?`, and a statement
abbrev pub reading : {Db A : Type 0} → (Db → Result (Unit {0})) → (Db → Result A) → Db → Result A
reading connect query db = elim (connect db) [ ok u ↦ query db | err e ↦ err e ]

abbrev pub writing :
    {Db : Type 0} → (Db → Result (Unit {0})) → Exec Db (Unit {0}) → Exec Db (Unit {0})
writing connect statement db = continue (connect db) (λ u. statement) db
