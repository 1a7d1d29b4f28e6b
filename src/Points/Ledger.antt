-- ===== src/Points/Ledger.antt =====
-- services/api/src/points/points-ledger.service.ts, method by method.
pub mod Steps
use Prim.Native.String.{String}
use jito_india_game.Database.{
  Db, Error, Outcome, PointsAccount, PointsTransaction, Result, Tx, TxnDirection, TxnRefType,
  admin_credit, admin_debit, bad_amount, bet_placed, bet_refund, credit, debit, err, gets,
  idempotency_key_reused, insufficient_points, no_account, ok, pure, settlement_win, throw,
  throw_if, transaction, unique_violation, ◌>>=◌, ◌>>◌,
}
use jito_india_game.Database.Statements.{
  create_transaction, find_account, find_account_by_id, find_transaction, update_account,
}
use jito_india_game.Prelude.{
  Bool, Option, false, if◌then◌else◌, none, not, same_option, some, true, ℕ, ◌&&◌,
}
use jito_india_game.Prelude.Int.{leb_ℤ, ltb_ℤ, pos, ℤ, ◌+ℤ◌, ◌-ℤ◌, ◌==ℤ◌}

pub record ApplyLedgerMutationParams : Type 0 where
  pub user_id : ℕ
  pub direction : TxnDirection
  pub amount_minor : ℤ
  pub reference_type : TxnRefType
  pub reference_id : Option ℕ
  pub idempotency_key : String
  pub description : Option String
  pub allow_overdraw : Bool

pub record LockedAccountMutation : Type 0 where
  pub account_id : ℕ
  pub direction : TxnDirection
  pub amount_minor : ℤ
  pub balance_before_minor : ℤ
  pub balance_after_minor : ℤ

-- The third argument of `commitMutation`.
pub record LedgerRef : Type 0 where
  pub reference_type : TxnRefType
  pub reference_id : Option ℕ
  pub idempotency_key : String
  pub description : Option String

pub record LedgerMutationResult : Type 0 where
  pub transaction_id : ℕ
  pub direction : TxnDirection
  pub amount_minor : ℤ
  pub balance_before_minor : ℤ
  pub balance_after_minor : ℤ
  pub reference_type : TxnRefType
  pub reference_id : Option ℕ
  pub idempotency_key : String
  pub description : Option String
  pub created_at : ℕ
  pub replayed : Bool

-- What PostgreSQL puts into a new ledger row: gen_random_uuid() and the time of the transaction.
pub record Stamp : Type 0 where
  pub uuid : ℕ
  pub now : ℕ

-- What other requests commit while one call runs: before its transaction takes the lock, and
-- between its rollback and its second look at the key.
pub record Others : Type 0 where
  pub before_lock : Db → Db
  pub before_reread : Db → Db

abbrev pub same_direction : TxnDirection → TxnDirection → Bool
same_direction credit credit = true
same_direction debit debit = true
same_direction credit debit = false
same_direction debit credit = false

abbrev pub same_ref_type : TxnRefType → TxnRefType → Bool
same_ref_type bet_placed bet_placed = true
same_ref_type bet_refund bet_refund = true
same_ref_type settlement_win settlement_win = true
same_ref_type admin_credit admin_credit = true
same_ref_type admin_debit admin_debit = true
same_ref_type _ _ = false

-- `assertPositiveAmount`, as the test that throws.
abbrev pub not_positive : ℤ → Bool
not_positive amount = leb_ℤ amount (pos 0)

-- The balance that a mutation leads to: the direction carries the sign.
unfoldable pub apply_direction : TxnDirection → ℤ → ℤ → ℤ
apply_direction credit before amount = before +ℤ amount
apply_direction debit before amount = before -ℤ amount

abbrev validate_balance : TxnDirection → ℤ → Bool → PointsAccount → Tx LockedAccountMutation
validate_balance direction amount allow_overdraw account =
    let after = apply_direction direction account.balance_minor amount in
    if not allow_overdraw && ltb_ℤ after (pos 0)
    then throw (insufficient_points amount account.balance_minor)
    else pure (record {
      account_id = account.id;
      direction = direction;
      amount_minor = amount;
      balance_before_minor = account.balance_minor;
      balance_after_minor = after;
    })

abbrev pub or_throw : {A : Type 0} → Option A → Error → Tx A
or_throw none e = throw e
or_throw (some a) e = pure a

unfoldable pub lock_and_validate_account : ℕ → TxnDirection → ℤ → Bool → Tx LockedAccountMutation
lock_and_validate_account user_id direction amount allow_overdraw = do
  throw_if (not_positive amount) bad_amount
  rows ← gets (λ db. find_account user_id db.accounts)
  account ← or_throw rows no_account
  validate_balance direction amount allow_overdraw account

unfoldable pub to_result : PointsTransaction → Bool → LedgerMutationResult
to_result row replayed = record {
  transaction_id = row.id;
  direction = row.direction;
  amount_minor = row.amount_minor;
  balance_before_minor = row.balance_before_minor;
  balance_after_minor = row.balance_after_minor;
  reference_type = row.reference_type;
  reference_id = row.reference_id;
  idempotency_key = row.idempotency_key;
  description = row.description;
  created_at = row.created_at;
  replayed = replayed;
}

-- The row that `commitMutation` inserts.
abbrev pub ledger_row : Stamp → LockedAccountMutation → LedgerRef → PointsTransaction
ledger_row stamp locked ref = record {
  id = stamp.uuid;
  account_id = locked.account_id;
  direction = locked.direction;
  amount_minor = locked.amount_minor;
  balance_before_minor = locked.balance_before_minor;
  balance_after_minor = locked.balance_after_minor;
  reference_type = ref.reference_type;
  reference_id = ref.reference_id;
  idempotency_key = ref.idempotency_key;
  description = ref.description;
  created_at = stamp.now;
}

unfoldable pub commit_mutation : Stamp → LockedAccountMutation → LedgerRef → Tx LedgerMutationResult
commit_mutation stamp locked ref = do
  row ← create_transaction (ledger_row stamp locked ref)
  update_account locked.account_id locked.balance_after_minor stamp.now
  pure (to_result row false)

abbrev pub ref_of : ApplyLedgerMutationParams → LedgerRef
ref_of p = record {
  reference_type = p.reference_type;
  reference_id = p.reference_id;
  idempotency_key = p.idempotency_key;
  description = p.description;
}

unfoldable pub mutate_within_transaction :
    Stamp → ApplyLedgerMutationParams → Tx LedgerMutationResult
mutate_within_transaction stamp p = do
  locked ← lock_and_validate_account p.user_id p.direction p.amount_minor p.allow_overdraw
  commit_mutation stamp locked (ref_of p)

-- `include: { account: { select: { userId: true } } }`
abbrev pub user_of : Option PointsAccount → Option ℕ
user_of none = none
user_of (some a) = some a.user_id

abbrev pub owner_of : PointsTransaction → Db → Option ℕ
owner_of t db = user_of (find_account_by_id t.account_id db.accounts)

unfoldable pub replay_matches : Option ℕ → PointsTransaction → ApplyLedgerMutationParams → Bool
replay_matches owner existing p =
    same_option owner (some p.user_id)
    && same_direction existing.direction p.direction
    && existing.amount_minor ==ℤ p.amount_minor
    && same_ref_type existing.reference_type p.reference_type
    && same_option existing.reference_id p.reference_id

-- `assertReplayMatches` and the result that follows it.
unfoldable pub replay :
    PointsTransaction → ApplyLedgerMutationParams → Db → Result LedgerMutationResult
replay existing p db =
    if replay_matches (owner_of existing db) existing p
    then ok (to_result existing true)
    else err idempotency_key_reused

-- The second look at the key, after a P2002.
abbrev pub reread_found :
    Option PointsTransaction → ApplyLedgerMutationParams → Db → Outcome LedgerMutationResult
reread_found none p db = (err unique_violation, db)
reread_found (some raced) p db = (replay raced p db, db)

abbrev pub reread : ApplyLedgerMutationParams → Db → Outcome LedgerMutationResult
reread p db = reread_found (find_transaction p.idempotency_key db.transactions) p db

-- The `catch` of `applyMutation`.
unfoldable pub recover :
    Others → ApplyLedgerMutationParams → Outcome LedgerMutationResult → Outcome LedgerMutationResult
recover others p (err unique_violation, db) = reread p (others.before_reread db)
recover others p (r, db) = (r, db)

unfoldable pub apply_mutation :
    Others → Stamp → ApplyLedgerMutationParams → Db → Outcome LedgerMutationResult
apply_mutation others stamp p db =
    if not_positive p.amount_minor
    then (err bad_amount, db)
    else elim (find_transaction p.idempotency_key db.transactions) [
      | some existing ↦ (replay existing p db, db)
      | none ↦
          recover others p (transaction (mutate_within_transaction stamp p) (others.before_lock db))
    ]
