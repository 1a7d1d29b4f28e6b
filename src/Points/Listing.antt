-- ===== src/Points/Listing.antt =====
-- services/api/src/points/points.service.ts: the player's balance, and its ledger rows in pages
-- (services/api/src/points/dto/list-transactions-query.dto.ts). The validation of the query lets
-- only pages and limits from 1 through.
pub mod Order
pub mod Pages
use Prim.Native.String.{String}
use jito_india_game.Centipoints.Numbers.{centipoints_to_number}
use jito_india_game.Database.{
  Db, PointsTransaction, Result, TxnDirection, TxnRefType, err, ok, record_not_found,
}
use jito_india_game.Database.Statements.{find_account}
use jito_india_game.Points.Ledger.{same_ref_type}
use jito_india_game.Prelude.{
  Bool, List, Option, [], if◌then◌else◌, leb, length, map, none, some, true, ℕ, ◌&&◌, ◌*◌, ◌+◌, ◌-◌,
  ◌/◌, ◌==◌, ◌∷◌,
}
use jito_india_game.Prelude.Int.{ℤ}

pub record BalanceResponse : Type 0 where
  pub balance_minor : ℤ
  pub updated_at : ℕ

pub record ListTransactionsQueryDto : Type 0 where
  pub page : Option ℕ
  pub limit : Option ℕ
  pub from_time : Option ℕ
  pub to_time : Option ℕ
  pub reference_type : Option TxnRefType

pub record TransactionListItem : Type 0 where
  pub id : ℕ
  pub direction : TxnDirection
  pub amount_minor : ℤ
  pub balance_before_minor : ℤ
  pub balance_after_minor : ℤ
  pub reference_type : TxnRefType
  pub reference_id : Option ℕ
  pub description : Option String
  pub created_at : ℕ

pub record TransactionListResponse : Type 0 where
  pub data_rows : List TransactionListItem
  pub page : ℕ
  pub limit : ℕ
  pub total : ℕ
  pub total_pages : ℕ

unfoldable pub get_balance : ℕ → Db → Result BalanceResponse
get_balance user_id db = elim (find_account user_id db.accounts) [
  | none ↦ err record_not_found
  | some a ↦
      ok (record {
        balance_minor = centipoints_to_number a.balance_minor;
        updated_at = a.updated_at;
      })
]

abbrev or_default : ℕ → Option ℕ → ℕ
or_default d none = d
or_default d (some n) = n

abbrev in_window : Option ℕ → Option ℕ → ℕ → Bool
in_window none none t = true
in_window (some a) none t = leb a t
in_window none (some b) t = leb t b
in_window (some a) (some b) t = leb a t && leb t b

abbrev has_type : Option TxnRefType → TxnRefType → Bool
has_type none t = true
has_type (some r) t = same_ref_type t r

-- The `where` of the two queries.
unfoldable pub is_listed : (account_id : ℕ) → ListTransactionsQueryDto → PointsTransaction → Bool
is_listed account_id query t =
    t.account_id == account_id
    && has_type query.reference_type t.reference_type
    && in_window query.from_time query.to_time t.created_at

unfoldable pub listed :
    (account_id : ℕ) → ListTransactionsQueryDto → List PointsTransaction → List PointsTransaction
listed account_id query [] = []
listed account_id query (t ∷ ts) =
    let rest = listed account_id query ts in if is_listed account_id query t then t ∷ rest else rest

unfoldable pub list_item : PointsTransaction → TransactionListItem
list_item row = record {
  id = row.id;
  direction = row.direction;
  amount_minor = centipoints_to_number row.amount_minor;
  balance_before_minor = centipoints_to_number row.balance_before_minor;
  balance_after_minor = centipoints_to_number row.balance_after_minor;
  reference_type = row.reference_type;
  reference_id = row.reference_id;
  description = row.description;
  created_at = row.created_at;
}

module _ {ℓ} {A : Type ℓ} where
  -- `skip` and `take`.
  abbrev pub skip : ℕ → List A → List A
  skip n [] = []
  skip n (x ∷ xs) = if n == 0 then x ∷ xs else skip (n - 1) xs

  abbrev pub take : ℕ → List A → List A
  take n [] = []
  take n (x ∷ xs) = if n == 0 then [] else x ∷ take (n - 1) xs

abbrev pub page_of : ListTransactionsQueryDto → ℕ
page_of query = or_default 1 query.page

abbrev pub limit_of : ListTransactionsQueryDto → ℕ
limit_of query = or_default 20 query.limit

-- ORDER BY created_at DESC. Rows of one time stay in the order in which the database finds them.
unfoldable pub insert_by_time : PointsTransaction → List PointsTransaction → List PointsTransaction
insert_by_time t [] = t ∷ []
insert_by_time t (u ∷ us) =
    let rest = insert_by_time t us in if leb u.created_at t.created_at then t ∷ u ∷ us else u ∷ rest

unfoldable pub latest_first : List PointsTransaction → List PointsTransaction
latest_first [] = []
latest_first (t ∷ ts) = insert_by_time t (latest_first ts)

-- `found` is the order in which the database finds the rows of this query.
unfoldable pub list_rows :
    (List PointsTransaction → List PointsTransaction)
    → (account_id : ℕ) → ListTransactionsQueryDto
    → Db
    → TransactionListResponse
list_rows found account_id query db =
    let rows = listed account_id query db.transactions in
    let total = length rows in
    let limit = limit_of query in
    record {
      data_rows =
          map list_item
            (take limit (skip ((page_of query - 1) * limit) (latest_first (found rows))));
      page = page_of query;
      limit = limit;
      total = total;
      total_pages = (total + limit - 1) / limit;
    }

unfoldable pub list_transactions :
    (List PointsTransaction → List PointsTransaction)
    → (user_id : ℕ) → ListTransactionsQueryDto
    → Db
    → Result TransactionListResponse
list_transactions found user_id query db = elim (find_account user_id db.accounts) [
  | none ↦ err record_not_found
  | some a ↦ ok (list_rows found a.id query db)
]
