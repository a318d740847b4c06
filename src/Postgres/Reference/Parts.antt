-- ===== src/Postgres/Reference/Parts.antt =====
-- A table that is one part of a database of several tables.
use tianshu_rs.Base.{Result, ok, ◌≡◌, refl, sym, ap, ◌∙◌, Eq}
use tianshu_rs.Postgres.{Table, IsTable, Answers}

module _ {Db Part Row : Type 0} (part : Db → Part) (with_part : Part → Db → Db) where
  abbrev pub within : Table Part Row → Table Db Row
  within table = record {
    insert = λ set r db.
        ((table.insert set r (part db)).0, with_part (table.insert set r (part db)).1 db);
    select = λ p db. table.select p (part db);
    query_opt = λ p db. table.query_opt p (part db);
    delete = λ p db. ((table.delete p (part db)).0, with_part (table.delete p (part db)).1 db);
    create =
        λ name db. ((table.create name (part db)).0, with_part (table.create name (part db)).1 db);
  }

module _ {Db Part : Type 0} (part : Db → Part) (with_part : Part → Db → Db) where
  pub written-part :
      {A : Type 0} (a : Result A × Part) (b : Result A) (db db' : Db)
      → ((p : Part) (d : Db) → part (with_part p d) ≡ p)
      → ◌≡◌ {A = Result A × Db} (a.0, with_part a.1 db) (b, db')
      → ◌≡◌ {A = Result A × Part} a (b, part db')
  written-part a b db db' held e =
      ap (λ q. (q, a.1)) (ap (λ w. w.0) e)
      ∙ ap (λ q. (b, q)) (sym (held a.1 db) ∙ ap (λ w. part w.1) e)

module _ {Db Part Row K : Type 0} ⦃test : Eq K⦄ (part : Db → Part) (with_part : Part → Db → Db)
    (held : (p : Part) (d : Db) → part (with_part p d) ≡ p) {key : Row → K} {table : Table Part Row}
    (laws : IsTable key table) where
  abbrev pub within-IsTable : IsTable key (within part with_part table)
  within-IsTable = record {
    rows = λ db. laws.rows (part db);
    rows-IsKeyed = λ db. laws.rows-IsKeyed (part db);
    select-rows = λ p db l e. laws.select-rows p (part db) l e;
    insert-rows = λ set r db db' e.
        laws.insert-rows set r (part db) (part db')
          (written-part part with_part (table.insert set r (part db)) (ok tt) db db' held e);
    delete-rows = λ p db db' n e.
        laws.delete-rows p (part db) (part db') n
          (written-part part with_part (table.delete p (part db)) (ok n) db db' held e);
  }

  pub within-Answers :
      Answers {table = table} (λ d. ok tt) laws
      → Answers {table = within part with_part table} (λ db. ok tt) within-IsTable
  within-Answers up = (λ db. refl, λ p db o e. up.1 p (part db) o e)
