-- ===== src/Database/Statements.antt =====
-- The SQL statements that the services issue on accounts and ledger rows, with the UNIQUE indexes,
-- the CHECK constraints and the column types that the migration declares.
use text.Mathlib.Text.{◌==◌ as str_eq}
use Prim.Native.String.{String, count}
use jito_india_game.Database.Errors.{
  constraint_violation, err, ok, record_not_found, unique_violation,
}
use jito_india_game.Database.Rows.{PointsAccount, PointsTransaction, TxnDirection, credit, debit}
use jito_india_game.Database.Transactions.{Tx}
use jito_india_game.Prelude.{
  Bool, List, Option, [], false, if◌then◌else◌, leb, ltb, none, not, some, true, ℕ, ◌&&◌, ◌+◌, ◌==◌,
  ◌||◌, ◌∷◌,
}
use jito_india_game.Prelude.Int.{ltb_ℤ, neg_part, pos, pos_part, ℤ, ◌+ℤ◌, ◌-ℤ◌, ◌==ℤ◌}

-- BIGINT, VARCHAR(n).
unfoldable pub fits_bigint : ℤ → Bool
fits_bigint z = ltb (pos_part z) 9223372036854775808 && leb (neg_part z) 9223372036854775808

unfoldable pub fits_varchar : ℕ → String → Bool
fits_varchar n s = leb (count s) n

-- SELECT … FROM points_accounts WHERE user_id = $1 FOR UPDATE; the index on user_id is UNIQUE.
unfoldable pub find_account : ℕ → List PointsAccount → Option PointsAccount
find_account u [] = none
find_account u (a ∷ more) = if a.user_id == u then some a else find_account u more

-- The account that a ledger row refers to.
unfoldable pub find_account_by_id : ℕ → List PointsAccount → Option PointsAccount
find_account_by_id i [] = none
find_account_by_id i (a ∷ more) = if a.id == i then some a else find_account_by_id i more

-- pointsTransaction.findUnique({ where: { idempotencyKey } })
unfoldable pub find_transaction : String → List PointsTransaction → Option PointsTransaction
find_transaction k [] = none
find_transaction k (t ∷ ts) = if str_eq t.idempotency_key k then some t else find_transaction k ts

unfoldable pub has_transaction_id : ℕ → List PointsTransaction → Bool
has_transaction_id i [] = false
has_transaction_id i (t ∷ ts) = t.id == i || has_transaction_id i ts

abbrev pub is_some {ℓ} : {A : Type ℓ} → Option A → Bool
is_some none = false
is_some (some a) = true

-- The CASE of chk_points_txn_balance_consistency.
unfoldable pub moved_balance : TxnDirection → ℤ → ℤ → ℤ
moved_balance credit before amount = before +ℤ amount
moved_balance debit before amount = before -ℤ amount

-- chk_points_transactions_amount_positive, chk_…_balance_after_non_negative,
-- chk_points_txn_balance_consistency, and the column types.
unfoldable pub transaction_row_ok : PointsTransaction → Bool
unfolding fits_bigint fits_varchar
transaction_row_ok t =
    ltb_ℤ (pos 0) t.amount_minor
    && not (ltb_ℤ t.balance_after_minor (pos 0))
    && fits_bigint t.amount_minor
    && fits_bigint t.balance_before_minor
    && fits_bigint t.balance_after_minor
    && fits_varchar 120 t.idempotency_key
    && t.balance_after_minor ==ℤ moved_balance t.direction t.balance_before_minor t.amount_minor

-- tx.pointsTransaction.create({ data })
unfoldable pub create_transaction : PointsTransaction → Tx PointsTransaction
create_transaction t db =
    if transaction_row_ok t
    then (if has_transaction_id t.id db.transactions
          || is_some (find_transaction t.idempotency_key db.transactions)
        then err unique_violation
        else ok (t, record db { transactions = t ∷ db.transactions }))
    else err constraint_violation

abbrev pub with_balance : ℤ → ℕ → PointsAccount → PointsAccount
with_balance z now a = record a { balance_minor = z; version = a.version + 1; updated_at = now }

unfoldable pub set_balance : ℕ → ℤ → ℕ → List PointsAccount → List PointsAccount
set_balance i z now [] = []
set_balance i z now (a ∷ more) =
    (if a.id == i then with_balance z now a else a) ∷ set_balance i z now more

-- tx.pointsAccount.update({ where: { id }, data: { balanceMinor, version: { increment: 1n } } })
unfoldable pub update_account : ℕ → ℤ → ℕ → Tx (Unit {0})
update_account i z now db =
    if is_some (find_account_by_id i db.accounts)
    then (if fits_bigint z && not (ltb_ℤ z (pos 0))
        then ok (tt, record db { accounts = set_balance i z now db.accounts })
        else err constraint_violation)
    else err record_not_found
