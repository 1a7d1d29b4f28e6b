-- ===== src/Points/Listing/Pages.antt =====
-- The pages of a listing, one after the other, are the whole listing.
use jito_india_game.Database.{Db, PointsTransaction}
use jito_india_game.Points.Listing.{
  ListTransactionsQueryDto, TransactionListItem, is_listed, latest_first, limit_of, list_item,
  list_rows, listed, skip, take,
}
use jito_india_game.Points.Listing.Order.{
  HasDistinctTimes, IsLatestFirst, Rearranged, Rearranged-sym, latest_first-IsLatestFirst,
  latest_first-Rearranged, latest_first-eq, length-latest_first,
}
use jito_india_game.Prelude.{
  Bool-cases, List, [], ap, arith, inl, inr, length, map, refl, some, suc, sym, zero, ℕ, ◌*◌, ◌++◌,
  ◌+◌, ◌-◌, ◌/◌, ◌==◌, ◌∙◌, ◌∷◌, ◌≡◌, ◌≤◌,
}
use mathlib.Core.List.{map-append}

module _ {A : Type 0} where
  take-skip : (n : ℕ) (xs : List A) → take n xs ++ skip n xs ≡ xs
  take-skip n [] = refl
  take-skip n (x ∷ xs) = elim (Bool-cases (n == 0)) [
    | inl e ↦ rw e refl
    | inr e ↦ rw e (ap (λ ys. x ∷ ys) (take-skip (n - 1) xs))
  ]

  skip-skip : (a b : ℕ) (xs : List A) → skip a (skip b xs) ≡ skip (b + a) xs
  skip-skip a b [] = refl
  skip-skip a b (x ∷ xs) = ground (arith, skip-skip a (b - 1) xs)

  skip_all : (n : ℕ) (xs : List A) → length xs ≤ n → skip n xs ≡ []
  skip_all n [] h = refl
  skip_all n (x ∷ xs) h = ground (arith, skip_all (n - 1) xs)

-- A page and what follows it.
one_more :
    (limit k : ℕ) (rows : List PointsTransaction)
    → map list_item (take limit (skip (k * limit) rows))
        ++ map list_item (skip ((k + 1) * limit) rows)
      ≡ map list_item (skip (k * limit) rows)
one_more limit k rows =
    let next : (k + 1) * limit ≡ k * limit + limit = grind arith in
    rw
      (
        next,
        sym (skip-skip limit (k * limit) rows),
        sym (
            map-append list_item (take limit (skip (k * limit) rows))
              (skip limit (skip (k * limit) rows))),
      )
      (ap (map list_item) (take-skip limit (skip (k * limit) rows)))

ceiling : (total limit : ℕ) → 1 ≤ limit → total ≤ (0 + (total + limit - 1) / limit) * limit
ceiling total limit h = grind arith

listed-page :
    (account_id p : ℕ) (query : ListTransactionsQueryDto) (ts : List PointsTransaction)
    → listed account_id (record query { page = some p }) ts ≡ listed account_id query ts
unfolding listed is_listed
listed-page account_id p query [] = refl
listed-page account_id p query (t ∷ ts) = rw (listed-page account_id p query ts) refl

-- The queries find the same rows, in any order.
abbrev pub FindsAll : (ℕ → List PointsTransaction → List PointsTransaction) → Type 0
FindsAll found = (page : ℕ) (rows : List PointsTransaction) → Rearranged (found page rows) rows

module _ (found : ℕ → List PointsTransaction → List PointsTransaction) (account_id : ℕ)
    (query : ListTransactionsQueryDto) (db : Db) where
  -- The rows of `n` pages from a page on, each page with a query of its own.
  unfoldable pub collect_pages : (page n : ℕ) → List TransactionListItem
  collect_pages page zero = []
  collect_pages page (suc n) =
      (list_rows (found page) account_id (record query { page = some page }) db).data_rows
      ++ collect_pages (page + 1) n

  abbrev all_rows : List PointsTransaction
  all_rows = latest_first (listed account_id query db.transactions)

  page_rows :
      (k : ℕ)
      → FindsAll found
      → HasDistinctTimes (listed account_id query db.transactions)
      → (list_rows (found (k + 1)) account_id (record query { page = some (k + 1) }) db).data_rows
        ≡ map list_item (take (limit_of query) (skip (k * limit_of query) all_rows))
  unfolding list_rows
  page_rows k complete apart =
      let rows = listed account_id query db.transactions in
      rw
        (
          listed-page account_id (k + 1) query db.transactions,
          sym (latest_first-eq (Rearranged-sym (complete (k + 1) rows)) apart),
        )
        (ap (λ j. map list_item (take (limit_of query) (skip (j * limit_of query) all_rows)))
          (omega arith))

  collect_pages-skip :
      (k n : ℕ)
      → FindsAll found
      → HasDistinctTimes (listed account_id query db.transactions)
      → length all_rows ≤ (k + n) * limit_of query
      → collect_pages (k + 1) n ≡ map list_item (skip (k * limit_of query) all_rows)
  unfolding collect_pages
  collect_pages-skip k zero complete apart h =
      rw (skip_all (k * limit_of query) all_rows (grind arith)) refl
  collect_pages-skip k (suc n) complete apart h =
      rw (page_rows k complete apart, collect_pages-skip (k + 1) n complete apart (grind arith))
        (one_more (limit_of query) k all_rows)

-- When no two of the rows of the query have one time, and the limit is positive, the pages from the
-- first to `totalPages`, one after the other, are all rows of the query, each once and the latest
-- first, in whatever order the database finds the rows of each page's query.
pub pages_are_the_listing :
    (found : ℕ → List PointsTransaction → List PointsTransaction) (account_id : ℕ)
    (query : ListTransactionsQueryDto) (db : Db)
    → FindsAll found
    → HasDistinctTimes (listed account_id query db.transactions)
    → 1 ≤ limit_of query
    → (rows : List PointsTransaction) × (collect_pages found account_id query db 1
          (list_rows (found 1) account_id query db).total_pages
        ≡ map list_item rows)
      × Rearranged rows (listed account_id query db.transactions)
      × IsLatestFirst rows
unfolding list_rows
pages_are_the_listing found account_id query db complete apart positive =
    let rows = listed account_id query db.transactions in
    (
      latest_first rows,
      collect_pages-skip found account_id query db 0
            ((length rows + limit_of query - 1) / limit_of query) complete apart
            (rw (length-latest_first rows) (ceiling (length rows) (limit_of query) positive))
          ∙ ap (map list_item) (skip_none (latest_first rows)),
      latest_first-Rearranged rows,
      latest_first-IsLatestFirst rows,
    )
  where
    skip_none : (rows : List PointsTransaction) → skip (0 * limit_of query) rows ≡ rows
    skip_none [] = refl
    skip_none (x ∷ xs) = ground arith
