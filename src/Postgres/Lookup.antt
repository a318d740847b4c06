-- ===== src/Postgres/Lookup.antt =====
-- What `query_opt` finds by a primary key, before and after the writes of a table.
use tianshu_rs.Base.{
  ℕ, Bool, none, some, Result, ok, err, ◌≡◌, refl, sym, ◌∙◌, arith, Eq, ◌==◌, if◌then◌else◌,
}
use tianshu_rs.Base.Exec.{Exec, pure, continue}
use tianshu_rs.Postgres.{reading, writing, Table, IsTable, find, merged, has_key, Answers}
use tianshu_rs.Postgres.Rows.{filter-find, find-Rearranged, find-put, find-filter}

module _ {Db Row K : Type 0} ⦃test : Eq K⦄ (key : Row → K) (table : Table Db Row)
    (laws : IsTable key table) where
  -- A row that is asked for by its key is the one that the table holds.
  pub query_opt-find :
      {connect : Db → Result (Unit {0})} (up : Answers connect laws) (k : K) (db : Db)
      → table.query_opt (has_key key k) db ≡ ok (find key k (laws.rows db))
  query_opt-find up k db =
      up.1 (has_key key k) db (find key k (laws.rows db))
        (filter-find key k (laws.rows db) (laws.rows-IsKeyed db))

  -- After an insertion its key finds the merged row, and the other keys what they found.
  pub find-insert :
      (set : Row → Row → Row) (r : Row) (db db' : Db)
      → ((old : Row) → key old ≡ key r → key (set r old) ≡ key r)
      → table.insert set r db ≡ (ok tt, db')
      → (k : K)
      → find key k (laws.rows db') ≡ (
          if key r == k
          then some (merged key set r (find key (key r) (laws.rows db)))
          else find key k (laws.rows db))
  find-insert set r db db' own e k =
      sym (
        find-Rearranged key k (laws.rows db') _ (laws.rows-IsKeyed db')
          (laws.insert-rows set r db db' e))
      ∙ find-put key set r k (laws.rows db) own

  -- A deletion by a condition on the key removes the keys that meet it, and no other.
  pub find-delete :
      (gone : K → Bool) (db db' : Db) (n : ℕ)
      → table.delete (λ r. gone (key r)) db ≡ (ok n, db')
      → (k : K) → find key k (laws.rows db') ≡ (if gone k then none else find key k (laws.rows db))
  find-delete gone db db' n e k =
      sym (
        find-Rearranged key k (laws.rows db') _ (laws.rows-IsKeyed db')
          (laws.delete-rows (λ r. gone (key r)) db db' n e))
      ∙ find-filter key gone k (laws.rows db)

module _ {Db : Type 0} (connect : Db → Result (Unit {0}))
    (up : (db : Db) → connect db ≡ ok tt) where
  pub reading-connected :
      {A : Type 0} (query : Db → Result A) (db : Db) → reading connect query db ≡ query db
  reading-connected query db = rw (up db, reading) refl

  pub writing-connected :
      (statement : Exec Db (Unit {0})) (db : Db) → writing connect statement db ≡ statement db
  writing-connected statement db = rw (up db, writing) refl

module _ {Db A : Type 0} where
  -- A write that forgets what its statement counted succeeds where the statement does.
  pub counted :
      (result : Result A × Db) (db' : Db)
      → continue result.0 (λ n. pure tt) result.1 ≡ (ok (tt {0}), db')
      → (n : A) × (result ≡ (ok n, db'))
  counted (ok n, db) db' e = (n, ground (arith, e))
  counted (err m, db) db' e = absurd (ground (arith, e))
