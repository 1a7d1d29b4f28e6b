-- ===== src/Points/Ledger/Steps.antt =====
-- What the two halves of a ledger mutation do when they succeed: `lock_and_validate_account` reads
-- and proves, `commit_mutation` writes one ledger row and one balance.
use jito_india_game.Database.{Db, PointsAccount, PointsTransaction, TxnDirection, bind-eq-ok, ok}
use jito_india_game.Database.Statements.{
  create_transaction, find_account, find_transaction, has_transaction_id, set_balance,
  transaction_row_ok, update_account,
}
use jito_india_game.Points.Ledger.{
  ApplyLedgerMutationParams, LedgerMutationResult, LedgerRef, LockedAccountMutation, Stamp,
  apply_direction, commit_mutation, ledger_row, lock_and_validate_account,
  mutate_within_transaction, not_positive, ref_of, to_result,
}
use jito_india_game.Prelude.{
  Bool, Option-cases, arith, false, inl, inr, none, some, true, ℕ, ◌∷◌, ◌≡◌,
}
use jito_india_game.Prelude.Int.{pos, ℤ, ◌≤ℤ◌}
use mathlib.Core.Path.{subst}

-- The token for an account that was found.
abbrev pub locked_on : TxnDirection → ℤ → PointsAccount → LockedAccountMutation
locked_on direction amount a = record {
  account_id = a.id;
  direction = direction;
  amount_minor = amount;
  balance_before_minor = a.balance_minor;
  balance_after_minor = apply_direction direction a.balance_minor amount;
}

pub record IsLocked (u : ℕ) (d : TxnDirection) (amount : ℤ) (overdraw : Bool) (db : Db)
    (locked : LockedAccountMutation) (db' : Db) : Type 0 where
  pub account : PointsAccount
  pub found : find_account u db.accounts ≡ some account
  pub token : locked ≡ locked_on d amount account
  pub unchanged : db' ≡ db
  pub positive : not_positive amount ≡ false
  pub covered : overdraw ≡ false → pos 0 ≤ℤ apply_direction d account.balance_minor amount

pub lock-IsLocked :
    (u : ℕ) (d : TxnDirection) (amount : ℤ) (overdraw : Bool) (db : Db)
    {locked : LockedAccountMutation} {db' : Db}
    → lock_and_validate_account u d amount overdraw db ≡ ok (locked, db')
    → IsLocked u d amount overdraw db locked db'
unfolding lock_and_validate_account
lock-IsLocked u d amount overdraw db h = elim (Option-cases (find_account u db.accounts)) [
  | inl e ↦ ground arith
  | inr (a, e) ↦ record {
    account = a;
    found = e;
    token = ground arith;
    unchanged = ground arith;
    positive = ground arith;
    covered = ground arith;
  }
]

-- The tables after a committed mutation.
abbrev pub posted : Stamp → LockedAccountMutation → LedgerRef → Db → Db
posted stamp locked ref db = record db {
  transactions = ledger_row stamp locked ref ∷ db.transactions;
  accounts = set_balance locked.account_id locked.balance_after_minor stamp.now db.accounts;
}

pub record IsCommitted (stamp : Stamp) (locked : LockedAccountMutation) (ref : LedgerRef) (db : Db)
    (r : LedgerMutationResult) (db' : Db) : Type 0 where
  pub fresh : find_transaction ref.idempotency_key db.transactions ≡ none
  pub fresh_id : has_transaction_id stamp.uuid db.transactions ≡ false
  pub row_ok : transaction_row_ok (ledger_row stamp locked ref) ≡ true
  pub result : r ≡ to_result (ledger_row stamp locked ref) false
  pub tables : db' ≡ posted stamp locked ref db

create-ok :
    (t : PointsTransaction) (db : Db) {row : PointsTransaction} {db' : Db}
    → create_transaction t db ≡ ok (row, db')
    → (find_transaction t.idempotency_key db.transactions ≡ none)
      × (has_transaction_id t.id db.transactions ≡ false)
      × (transaction_row_ok t ≡ true)
      × (row ≡ t)
      × (db' ≡ record db { transactions = t ∷ db.transactions })
unfolding create_transaction
create-ok t db h = ground arith

update-ok :
    (i : ℕ) (z : ℤ) (now : ℕ) (db : Db) {u : Unit {0}} {db' : Db}
    → update_account i z now db ≡ ok (u, db')
    → db' ≡ record db { accounts = set_balance i z now db.accounts }
unfolding update_account
update-ok i z now db h = ground arith

pub commit-IsCommitted :
    (stamp : Stamp) (locked : LockedAccountMutation) (ref : LedgerRef) (db : Db)
    {r : LedgerMutationResult} {db' : Db}
    → commit_mutation stamp locked ref db ≡ ok (r, db')
    → IsCommitted stamp locked ref db r db'
unfolding commit_mutation
commit-IsCommitted stamp locked ref db h =
    let t = ledger_row stamp locked ref in
    let (row, mid, created, rest) = bind-eq-ok (create_transaction t) _ db h in
    let (fresh, fresh_id, row_ok, same, mid_eq) = create-ok t db created in
    let (_, last, updated, done) =
      bind-eq-ok (update_account locked.account_id locked.balance_after_minor stamp.now) _ mid
        rest in
    let last_eq = update-ok _ _ _ mid updated in
    record {
      fresh = fresh;
      fresh_id = fresh_id;
      row_ok = row_ok;
      result = ground arith;
      tables = ground arith;
    }

-- A mutation that went through: the account, the facts proved under its lock, what was written.
pub record IsApplied (stamp : Stamp) (u : ℕ) (d : TxnDirection) (amount : ℤ) (overdraw : Bool)
    (ref : LedgerRef) (db : Db) (r : LedgerMutationResult) (db' : Db) : Type 0 where
  pub account : PointsAccount
  pub found : find_account u db.accounts ≡ some account
  pub positive : not_positive amount ≡ false
  pub covered : overdraw ≡ false → pos 0 ≤ℤ apply_direction d account.balance_minor amount
  pub fresh : find_transaction ref.idempotency_key db.transactions ≡ none
  pub fresh_id : has_transaction_id stamp.uuid db.transactions ≡ false
  pub row_ok : transaction_row_ok (ledger_row stamp (locked_on d amount account) ref) ≡ true
  pub result : r ≡ to_result (ledger_row stamp (locked_on d amount account) ref) false
  pub tables : db' ≡ posted stamp (locked_on d amount account) ref db

pub commit_after_lock :
    (stamp : Stamp) (u : ℕ) (d : TxnDirection) (amount : ℤ) (overdraw : Bool) (ref : LedgerRef)
    (db mid : Db) (locked : LockedAccountMutation) {r : LedgerMutationResult} {db' : Db}
    → IsLocked u d amount overdraw db locked mid
    → IsCommitted stamp locked ref mid r db'
    → IsApplied stamp u d amount overdraw ref db r db'
commit_after_lock stamp u d amount overdraw ref db mid locked {r} {db'} l c = record {
  account = l.account;
  found = l.found;
  positive = l.positive;
  covered = l.covered;
  fresh = rw (← l.unchanged) c.fresh;
  fresh_id = rw (← l.unchanged) c.fresh_id;
  row_ok = subst (λ k. transaction_row_ok (ledger_row stamp k ref) ≡ true) l.token c.row_ok;
  result = subst (λ k. r ≡ to_result (ledger_row stamp k ref) false) l.token c.result;
  tables =
      subst (λ k. db' ≡ posted stamp k ref db) l.token
        (subst (λ x. db' ≡ posted stamp locked ref x) l.unchanged c.tables);
}

pub mutate-IsApplied :
    (stamp : Stamp) (p : ApplyLedgerMutationParams) (db : Db) {r : LedgerMutationResult} {db' : Db}
    → mutate_within_transaction stamp p db ≡ ok (r, db')
    → IsApplied stamp p.user_id p.direction p.amount_minor p.allow_overdraw (ref_of p) db r db'
unfolding mutate_within_transaction
mutate-IsApplied stamp p db h =
    let (locked, mid, taken, rest) = bind-eq-ok (lock_and_validate_account _ _ _ _) _ db h in
    commit_after_lock stamp _ _ _ _ _ db mid locked (lock-IsLocked _ _ _ _ db taken)
      (commit-IsCommitted stamp locked (ref_of p) mid rest)
