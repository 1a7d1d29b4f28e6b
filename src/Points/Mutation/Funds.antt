-- ===== src/Points/Mutation/Funds.antt =====
-- Which mutations go through: the balance decides, and nothing else is in the way of a fresh key.
use Prim.Native.String.{count}
use jito_india_game.Database.{
  Db, PointsAccount, PointsTransaction, TxnDirection, bind-err, bind-ok, debit, err,
  insufficient_points, ok,
}
use jito_india_game.Database.Statements.{
  create_transaction, find_account, find_account_by_id, find_transaction, fits_bigint,
  has_transaction_id, moved_balance, set_balance, transaction_row_ok, update_account,
}
use jito_india_game.Points.Invariant.{
  IsBalanced, IsSound, find_account-All, find_account_by_id-find_account,
}
use jito_india_game.Points.Ledger.{
  ApplyLedgerMutationParams, LedgerRef, Others, Stamp, apply_direction, apply_mutation,
  commit_mutation, ledger_row, lock_and_validate_account, mutate_within_transaction, not_positive,
  recover, ref_of, to_result,
}
use jito_india_game.Points.Ledger.Steps.{locked_on, posted}
use jito_india_game.Prelude.{Bool, arith, false, none, refl, some, true, ℕ, ◌∙◌, ◌∷◌, ◌≡◌, ◌≤◌}
use jito_india_game.Prelude.Int.{pos, ℤ, ◌-ℤ◌, ◌≤ℤ◌}

abbrev pub max_bigint : ℤ
max_bigint = pos 9223372036854775807

pub transaction_row_ok_of_bounds :
    (t : PointsTransaction)
    → pos 1 ≤ℤ t.amount_minor
    → t.amount_minor ≤ℤ max_bigint
    → pos 0 ≤ℤ t.balance_before_minor
    → t.balance_before_minor ≤ℤ max_bigint
    → pos 0 ≤ℤ t.balance_after_minor
    → t.balance_after_minor ≤ℤ max_bigint
    → count t.idempotency_key ≤ 120
    → t.balance_after_minor ≡ apply_direction t.direction t.balance_before_minor t.amount_minor
    → transaction_row_ok t ≡ true
unfolding transaction_row_ok moved_balance apply_direction
transaction_row_ok_of_bounds t h1 h2 h3 h4 h5 h6 h7 h8 = ground arith

transaction_row_ok-fits_bigint :
    (t : PointsTransaction) → transaction_row_ok t ≡ true → fits_bigint t.balance_after_minor ≡ true
unfolding transaction_row_ok
transaction_row_ok-fits_bigint t h = ground arith

pub lock-ok :
    (u : ℕ) (d : TxnDirection) (amount : ℤ) (overdraw : Bool) (a : PointsAccount) (db : Db)
    → not_positive amount ≡ false
    → find_account u db.accounts ≡ some a
    → pos 0 ≤ℤ apply_direction d a.balance_minor amount
    → lock_and_validate_account u d amount overdraw db ≡ ok (locked_on d amount a, db)
unfolding lock_and_validate_account
lock-ok u d amount overdraw a db positive found covered = ground arith

pub not_positive_of : (amount : ℤ) → pos 1 ≤ℤ amount → not_positive amount ≡ false
not_positive_of amount h = ground arith

pub lock_insufficient :
    (u : ℕ) (d : TxnDirection) (amount : ℤ) (overdraw : Bool) (a : PointsAccount) (db : Db)
    → pos 1 ≤ℤ amount
    → find_account u db.accounts ≡ some a
    → d ≡ debit
    → overdraw ≡ false
    → ¬ (amount ≤ℤ a.balance_minor)
    → lock_and_validate_account u d amount overdraw db
      ≡ err (insufficient_points amount a.balance_minor)
unfolding lock_and_validate_account apply_direction ◌-ℤ◌
lock_insufficient u d amount overdraw a db positive found dir strict short = ground arith

create_transaction-ok :
    (t : PointsTransaction) (db : Db)
    → find_transaction t.idempotency_key db.transactions ≡ none
    → has_transaction_id t.id db.transactions ≡ false
    → transaction_row_ok t ≡ true
    → create_transaction t db ≡ ok (t, record db { transactions = t ∷ db.transactions })
unfolding create_transaction
create_transaction-ok t db fresh fresh_id row_ok = rw (row_ok, fresh_id, fresh)

update_account-ok :
    (i : ℕ) (z : ℤ) (now : ℕ) (db : Db) (a : PointsAccount)
    → find_account_by_id i db.accounts ≡ some a
    → fits_bigint z ≡ true
    → pos 0 ≤ℤ z
    → update_account i z now db ≡ ok (tt, record db { accounts = set_balance i z now db.accounts })
unfolding update_account
update_account-ok i z now db a found fits nonneg = ground arith

pub commit-ok :
    (stamp : Stamp) (d : TxnDirection) (amount : ℤ) (a : PointsAccount) (ref : LedgerRef) (db : Db)
    → find_account_by_id a.id db.accounts ≡ some a
    → pos 0 ≤ℤ apply_direction d a.balance_minor amount
    → find_transaction ref.idempotency_key db.transactions ≡ none
    → has_transaction_id stamp.uuid db.transactions ≡ false
    → transaction_row_ok (ledger_row stamp (locked_on d amount a) ref) ≡ true
    → commit_mutation stamp (locked_on d amount a) ref db
      ≡ ok (
        to_result (ledger_row stamp (locked_on d amount a) ref) false,
        posted stamp (locked_on d amount a) ref db,
      )
unfolding commit_mutation
commit-ok stamp d amount a ref db by_id covered fresh fresh_id row_ok =
    let row = ledger_row stamp (locked_on d amount a) ref in
    let fits = transaction_row_ok-fits_bigint row row_ok in
    let written = record db { transactions = row ∷ db.transactions } in
    bind-ok (create_transaction row) _ db (create_transaction-ok row db fresh fresh_id row_ok)
    ∙ bind-ok (update_account a.id (apply_direction d a.balance_minor amount) stamp.now) _ written
        (update_account-ok a.id _ stamp.now written a by_id fits covered)

module _ (others : Others) (stamp : Stamp) (p : ApplyLedgerMutationParams) (db : Db)
    (a : PointsAccount) (positive : pos 1 ≤ℤ p.amount_minor)
    (fresh : find_transaction p.idempotency_key db.transactions ≡ none)
    (found : find_account p.user_id (others.before_lock db).accounts ≡ some a) where
  -- A debit of more than the balance, under the lock, is refused with both amounts, and writes
  -- nothing.
  pub apply_mutation_insufficient :
      p.direction ≡ debit
      → p.allow_overdraw ≡ false
      → ¬ (p.amount_minor ≤ℤ a.balance_minor)
      → apply_mutation others stamp p db
        ≡ (err (insufficient_points p.amount_minor a.balance_minor), others.before_lock db)
  unfolding apply_mutation mutate_within_transaction recover
  apply_mutation_insufficient dir strict short =
      let locking =
        lock_and_validate_account p.user_id p.direction p.amount_minor p.allow_overdraw in
      let refused : locking (others.before_lock db)
          ≡ err (insufficient_points p.amount_minor a.balance_minor) =
        lock_insufficient p.user_id p.direction p.amount_minor p.allow_overdraw a _ positive found
          dir strict short in
      rw (
        not_positive_of p.amount_minor positive,
        fresh,
        bind-err locking _ (others.before_lock db) refused,
      )

  -- Under a fresh key and a fresh row identifier, a mutation is accepted as soon as the balance
  -- covers it and the amounts fit their columns: the answer is the new ledger row, and the tables
  -- have that row and the new balance.
  pub apply_mutation_accepts :
      IsSound (others.before_lock db)
      → find_transaction p.idempotency_key (others.before_lock db).transactions ≡ none
      → has_transaction_id stamp.uuid (others.before_lock db).transactions ≡ false
      → count p.idempotency_key ≤ 120
      → p.amount_minor ≤ℤ max_bigint
      → a.balance_minor ≤ℤ max_bigint
      → pos 0 ≤ℤ apply_direction p.direction a.balance_minor p.amount_minor
      → apply_direction p.direction a.balance_minor p.amount_minor ≤ℤ max_bigint
      → apply_mutation others stamp p db ≡ (
        ok (to_result (ledger_row stamp (locked_on p.direction p.amount_minor a) (ref_of p)) false),
        posted stamp (locked_on p.direction p.amount_minor a) (ref_of p) (others.before_lock db),
      )
  unfolding apply_mutation mutate_within_transaction recover
  apply_mutation_accepts sound still fresh_id key_fits amount_fits before_fits covered after_fits =
      let mid = others.before_lock db in
      let locked = locked_on p.direction p.amount_minor a in
      let strict = not_positive_of p.amount_minor positive in
      let balanced =
        find_account-All (IsBalanced mid.transactions) p.user_id mid.accounts sound.balances
          found in
      let locking =
        lock_and_validate_account p.user_id p.direction p.amount_minor p.allow_overdraw in
      let taken : locking mid ≡ ok (locked, mid) =
        lock-ok p.user_id p.direction p.amount_minor p.allow_overdraw a mid strict found covered in
      let row_ok =
        transaction_row_ok_of_bounds (ledger_row stamp locked (ref_of p)) positive amount_fits
          balanced.1 before_fits covered after_fits key_fits refl in
      let by_id = find_account_by_id-find_account p.user_id mid.accounts sound.ids found in
      let written =
        commit-ok stamp p.direction p.amount_minor a (ref_of p) mid by_id covered still fresh_id
          row_ok in
      rw (strict, fresh, bind-ok locking _ mid taken, written)
