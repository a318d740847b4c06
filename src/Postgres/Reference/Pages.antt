-- ===== src/Postgres/Reference/Pages.antt =====
-- Pages of a table in memory, cut out of its rows in the order of a key.
use mathlib.Core.List.{Permᴰ as Rearranged}
use mathlib.Core.List.Permᴰ
use tianshu_rs.Base.{
  ℕ, Option, none, some, List, [], ◌∷◌, Result, ok, anyhow, ◌≡◌, refl, arith, ◌≤◌, if◌then◌else◌,
  leb, All, filter, length, take, drop, ℤ, pos, negsuc, Eq,
}
use tianshu_rs.Postgres.Cases.{CaseTable}
use tianshu_rs.Postgres.Cases.Listing.{IsSortedBy, IsLimited, IsListing}
use tianshu_rs.Postgres.Reference.{Rows, rows_table}

module _ {Row : Type 0} (by : Row → ℕ) where
  abbrev pub place_by : Row → List Row → List Row
  place_by r [] = r ∷ []
  place_by r (s ∷ rows) =
      let rest = place_by r rows in if leb (by r) (by s) then r ∷ s ∷ rows else s ∷ rest

  abbrev pub sort_by : List Row → List Row
  sort_by [] = []
  sort_by (r ∷ rows) = place_by r (sort_by rows)

  abbrev NotBefore : ℕ → List Row → Type 0
  NotBefore n = All (λ s. n ≤ by s)

  NotBefore-mono : (m n : ℕ) (rows : List Row) → m ≤ n → NotBefore n rows → NotBefore m rows
  NotBefore-mono m n [] h k = tt
  NotBefore-mono m n (r ∷ rows) h k = (omega (arith, h, k.0), NotBefore-mono m n rows h k.1)

  place-NotBefore :
      (n : ℕ) (r : Row) (rows : List Row)
      → n ≤ by r
      → NotBefore n rows
      → NotBefore n (place_by r rows)
  place-NotBefore n r [] h k = (h, tt)
  place-NotBefore n r (s ∷ rows) h k = ground (arith, place-NotBefore n r rows h k.1)

  place-IsSortedBy :
      (r : Row) (rows : List Row) → IsSortedBy by rows → IsSortedBy by (place_by r rows)
  place-IsSortedBy r [] u = (tt, tt)
  place-IsSortedBy r (s ∷ rows) u = ground (
    arith,
    NotBefore-mono (by r) (by s) rows,
    place-NotBefore (by s) r rows,
    place-IsSortedBy r rows u.1,
  )

  pub sort-IsSortedBy : (rows : List Row) → IsSortedBy by (sort_by rows)
  sort-IsSortedBy [] = tt
  sort-IsSortedBy (r ∷ rows) = place-IsSortedBy r (sort_by rows) (sort-IsSortedBy rows)

  place-Rearranged : (r : Row) (rows : List Row) → Rearranged (r ∷ rows) (place_by r rows)
  place-Rearranged r [] = Permᴰ.refl (r ∷ [])
  place-Rearranged r (s ∷ rows) =
      let first = Permᴰ.swap {a = r} {b = s} {a' = s} {b' = r} {l = rows} refl refl in
      let later = Permᴰ.trans first (Permᴰ.cons refl (place-Rearranged r rows)) in
      ground (arith, Permᴰ.refl (r ∷ s ∷ rows), later)

  pub sort-Rearranged : (rows : List Row) → Rearranged rows (sort_by rows)
  sort-Rearranged [] = Permᴰ.nil
  sort-Rearranged (r ∷ rows) =
      Permᴰ.trans (Permᴰ.cons refl (sort-Rearranged rows)) (place-Rearranged r (sort_by rows))

module _ {Row : Type 0} where
  abbrev pub cut_page : Option ℤ → ℤ → List Row → Result (List Row)
  cut_page limit (negsuc n) rows = anyhow "OFFSET must not be negative"
  cut_page none (pos n) rows = ok (drop n rows)
  cut_page (some (pos m)) (pos n) rows = ok (take m (drop n rows))
  cut_page (some (negsuc m)) (pos n) rows = anyhow "LIMIT must not be negative"

  cut_page-IsLimited :
      (limit : Option ℤ) (offset : ℤ) (rows l : List Row)
      → cut_page limit offset rows ≡ ok l
      → (n : ℕ) × (offset ≡ pos n) × IsLimited limit (drop n rows) l
  cut_page-IsLimited limit (negsuc n) rows l e = absurd (ground (arith, e))
  cut_page-IsLimited none (pos n) rows l e = (n, refl, ground (arith, e))
  cut_page-IsLimited (some (pos m)) (pos n) rows l e = (n, refl, ground (arith, e))
  cut_page-IsLimited (some (negsuc m)) (pos n) rows l e = absurd (ground (arith, e))

module _ {Row K : Type 0} ⦃test : Eq K⦄ (key : Row → K) where
  abbrev pub rows_listing : CaseTable (Rows key) Row
  rows_listing = record {
    table = rows_table key;
    select_sorted = λ p by db. ok (sort_by by (filter p db.0));
    select_page = λ p by limit offset db. cut_page limit offset (sort_by by (filter p db.0));
    count = λ p db. ok (pos (length (filter p db.0)));
  }

  pub rows_listing-IsListing : IsListing rows_listing (λ db. db.0)
  rows_listing-IsListing = record {
    page-rows = λ p by limit offset db l e.
        let hits = filter p db.0 in
        let (n, start, cut) = cut_page-IsLimited limit offset (sort_by by hits) l e in
        (sort_by by hits, n, sort-Rearranged by hits, sort-IsSortedBy by hits, start, cut);
    count-rows = λ p db n e. ground (arith, e);
  }
