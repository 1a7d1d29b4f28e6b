-- ===== src/Points/Posting.antt =====
-- A committed mutation keeps the points tables sound.
use jito_india_game.Database.{Db, PointsAccount, PointsTransaction, TxnDirection}
use jito_india_game.Database.Statements.{
  find_account, find_transaction, transaction_row_ok, with_balance,
}
use jito_india_game.Points.Invariant.{
  IsBalanced, IsSound, apply_direction-eq-add, find_account-All, set_balance-All,
  set_balance-HasDistinctIds,
}
use jito_india_game.Points.Ledger.{
  LedgerMutationResult, LedgerRef, Stamp, apply_direction, ledger_row,
}
use jito_india_game.Points.Ledger.Steps.{IsApplied, locked_on, posted}
use jito_india_game.Points.Reconciliation.{compute_ledger_derived_balance, signed_amount}
use jito_india_game.Prelude.{Bool, List, arith, none, refl, some, sym, true, ℕ, ◌∙◌, ◌∷◌, ◌≡◌, ◌≢◌}
use jito_india_game.Prelude.Int.{pos, ℤ, ◌+ℤ◌, ◌≤ℤ◌}
use mathlib.Core.Path.{subst}

-- The ledger sum of an account after one more row.
derived-cons_self :
    (t : PointsTransaction) (ts : List PointsTransaction)
    → compute_ledger_derived_balance t.account_id (t ∷ ts)
      ≡ compute_ledger_derived_balance t.account_id ts +ℤ signed_amount t.direction t.amount_minor
unfolding compute_ledger_derived_balance
derived-cons_self t ts = ground arith

derived-cons_ne :
    (i : ℕ) (t : PointsTransaction) (ts : List PointsTransaction)
    → i ≢ t.account_id
    → compute_ledger_derived_balance i (t ∷ ts) ≡ compute_ledger_derived_balance i ts
unfolding compute_ledger_derived_balance
derived-cons_ne i t ts h = ground arith

transaction_row_ok_bounds :
    (t : PointsTransaction)
    → transaction_row_ok t ≡ true
    → (pos 1 ≤ℤ t.amount_minor) × (pos 0 ≤ℤ t.balance_after_minor)
unfolding transaction_row_ok
transaction_row_ok_bounds t h = ground arith

module _ (d : TxnDirection) (amount : ℤ) (a : PointsAccount) (stamp : Stamp) (ref : LedgerRef)
    (ts : List PointsTransaction) (balanced : IsBalanced ts a)
    (row_ok : transaction_row_ok (ledger_row stamp (locked_on d amount a) ref) ≡ true) where
  abbrev new_row : PointsTransaction
  new_row = ledger_row stamp (locked_on d amount a) ref

  touched-IsBalanced :
      (x : PointsAccount)
      → x.id ≡ a.id
      → IsBalanced ts x
      → IsBalanced
          (new_row ∷ ts)
          (with_balance (apply_direction d a.balance_minor amount) stamp.now x)
  touched-IsBalanced x same h = (
    rw (same, derived-cons_self new_row ts, ← balanced.0)
        (apply_direction-eq-add d a.balance_minor amount),
    (transaction_row_ok_bounds new_row row_ok).1,
  )

  untouched-IsBalanced :
      (x : PointsAccount) → x.id ≢ a.id → IsBalanced ts x → IsBalanced (new_row ∷ ts) x
  untouched-IsBalanced x other h = (h.0 ∙ sym (derived-cons_ne x.id new_row ts other), h.1)

-- A committed mutation on an account that was found under its user keeps the tables sound.
pub posted-IsSound :
    (u : ℕ) (d : TxnDirection) (amount : ℤ) (a : PointsAccount) (stamp : Stamp) (ref : LedgerRef)
    (db : Db)
    → IsSound db
    → find_account u db.accounts ≡ some a
    → find_transaction ref.idempotency_key db.transactions ≡ none
    → transaction_row_ok (ledger_row stamp (locked_on d amount a) ref) ≡ true
    → IsSound (posted stamp (locked_on d amount a) ref db)
posted-IsSound u d amount a stamp ref db sound found fresh row_ok =
    let balanced =
      find_account-All (IsBalanced db.transactions) u db.accounts sound.balances found in
    let bounds = transaction_row_ok_bounds _ row_ok in
    record {
      balances =
          set_balance-All _ _ a.id _ stamp.now db.accounts
            (touched-IsBalanced d amount a stamp ref db.transactions balanced row_ok)
            (untouched-IsBalanced d amount a stamp ref db.transactions balanced row_ok)
            sound.balances;
      ids = set_balance-HasDistinctIds a.id _ stamp.now db.accounts sound.ids;
      keys = (fresh, sound.keys);
      rows = ((bounds.0, refl, bounds.1), sound.rows);
    }

-- So a mutation that went through keeps them sound.
pub IsApplied-IsSound :
    (stamp : Stamp) (u : ℕ) (d : TxnDirection) (amount : ℤ) (overdraw : Bool) (ref : LedgerRef)
    (db : Db) {r : LedgerMutationResult} {db' : Db}
    → IsSound db
    → IsApplied stamp u d amount overdraw ref db r db'
    → IsSound db'
IsApplied-IsSound stamp u d amount overdraw ref db sound m =
    subst IsSound (sym m.tables)
      (posted-IsSound u d amount m.account stamp ref db sound m.found m.fresh m.row_ok)
