-- ===== src/Points/Reconciliation.antt =====
-- services/api/src/points/reconciliation.service.ts: the balance of an account against its ledger.
pub mod Verified
use jito_india_game.Database.{
  Db, PointsAccount, PointsTransaction, Result, TxnDirection, credit, debit, err,
  numeric_out_of_range, ok, record_not_found,
}
use jito_india_game.Database.Statements.{find_account, fits_bigint}
use jito_india_game.Prelude.{Bool, List, [], if◌then◌else◌, length, none, some, ℕ, ◌==◌, ◌∷◌}
use jito_india_game.Prelude.Int.{pos, ℤ, ◌+ℤ◌, ◌-ℤ◌, ◌==ℤ◌}

-- CASE WHEN direction = 'credit' THEN amount_minor ELSE -amount_minor END
unfoldable pub signed_amount : TxnDirection → ℤ → ℤ
signed_amount credit amount = amount
signed_amount debit amount = pos 0 -ℤ amount

-- COALESCE(SUM(…), 0) over the rows WHERE account_id = $1
unfoldable pub compute_ledger_derived_balance : ℕ → List PointsTransaction → ℤ
compute_ledger_derived_balance i [] = pos 0
compute_ledger_derived_balance i (t ∷ ts) =
    if t.account_id == i
    then compute_ledger_derived_balance i ts +ℤ signed_amount t.direction t.amount_minor
    else compute_ledger_derived_balance i ts

pub record AccountInvariantResult : Type 0 where
  pub user_id : ℕ
  pub account_id : ℕ
  pub projected_balance_minor : ℤ
  pub ledger_derived_balance_minor : ℤ
  pub matches : Bool

abbrev pub check_account : PointsAccount → ℤ → AccountInvariantResult
check_account a derived = record {
  user_id = a.user_id;
  account_id = a.id;
  projected_balance_minor = a.balance_minor;
  ledger_derived_balance_minor = derived;
  matches = a.balance_minor ==ℤ derived;
}

-- SUM of a BIGINT is a NUMERIC: its cast to BIGINT throws where it does not fit.
unfoldable pub derived_balance : ℕ → List PointsTransaction → Result ℤ
derived_balance i ts =
    if fits_bigint (compute_ledger_derived_balance i ts)
    then ok (compute_ledger_derived_balance i ts)
    else err numeric_out_of_range

abbrev checked_account : PointsAccount → Result ℤ → Result AccountInvariantResult
checked_account a (err e) = err e
checked_account a (ok derived) = ok (check_account a derived)

-- `findUniqueOrThrow` throws P2025 for a user without an account. No lock is taken: `meanwhile` is
-- what other requests commit between the read of the account and the sum.
unfoldable pub verify_account : (Db → Db) → ℕ → Db → Result AccountInvariantResult
verify_account meanwhile user_id db = elim (find_account user_id db.accounts) [
  | none ↦ err record_not_found
  | some a ↦ checked_account a (derived_balance a.id (meanwhile db).transactions)
]

pub record ReconciliationSummary : Type 0 where
  pub checked : ℕ
  pub mismatches : List AccountInvariantResult

-- One turn of the loop of `verifyAll`, and what the later ones report.
abbrev pub reported :
    PointsAccount
    → Result ℤ
    → Result (List AccountInvariantResult)
    → Result (List AccountInvariantResult)
reported a (err e) rest = err e
reported a (ok derived) (err e) = err e
reported a (ok derived) (ok rest) =
    if (check_account a derived).matches then ok rest else ok (check_account a derived ∷ rest)

-- The loop of `verifyAll`. The accounts have been read before it; `meanwhile` is what other requests
-- commit before the sum of an account.
unfoldable pub mismatches_of :
    (PointsAccount → Db → Db) → List PointsAccount → Db → Result (List AccountInvariantResult)
mismatches_of meanwhile [] db = ok []
mismatches_of meanwhile (a ∷ more) db =
    let seen = meanwhile a db in
    reported a (derived_balance a.id seen.transactions) (mismatches_of meanwhile more seen)

abbrev pub summary_of : ℕ → Result (List AccountInvariantResult) → Result ReconciliationSummary
summary_of n (err e) = err e
summary_of n (ok found) = ok (record { checked = n; mismatches = found })

unfoldable pub verify_all : (PointsAccount → Db → Db) → Db → Result ReconciliationSummary
unfolding mismatches_of
verify_all meanwhile db = summary_of (length db.accounts) (mismatches_of meanwhile db.accounts db)
