-- ===== src/Admin.antt =====
-- services/api/src/admin/points/admin-points.service.ts: audited adjustments of a balance. The
-- amount of the request (services/api/src/admin/points/dto/adjust-points.dto.ts) is an integer.
pub mod Outcomes
pub mod Audit
use text.Mathlib.Text.{◌==◌ as str_eq}
use Prim.Native.String.{String}
use jito_india_game.Auth.Tables.{find_admin}
use jito_india_game.Database.{
  AdminLog, Db, Outcome, PointsAccount, PointsTransaction, Result, Tx, TxnDirection, TxnRefType,
  User, admin_credit, admin_debit, constraint_violation, credit, debit, err,
  idempotency_key_required, idempotency_key_reused, not_found, ok, pure, transaction,
  unique_violation, ◌>>=◌, ◌>>◌,
}
use jito_india_game.Database.Statements.{find_account, find_transaction, fits_varchar, is_some}
use jito_india_game.Points.Ledger.{
  ApplyLedgerMutationParams, LedgerMutationResult, Others, Stamp, mutate_within_transaction,
  same_direction, same_ref_type,
}
use jito_india_game.Prelude.{
  Bool, List, Option, [], false, if◌then◌else◌, none, same_option, some, true, ℕ, ◌&&◌, ◌==◌, ◌||◌,
  ◌∷◌,
}
use jito_india_game.Prelude.Int.{ℤ, ◌==ℤ◌}

pub record AdjustPointsDto : Type 0 where
  pub direction : TxnDirection
  pub amount_minor : ℤ
  pub reason : String

pub record AdjustPointsParams : Type 0 where
  pub admin_id : ℕ
  pub target_user_id : ℕ
  pub dto : AdjustPointsDto
  pub idempotency_key : Option String
  pub ip : String

pub record AdjustPointsResult : Type 0 where
  pub transaction_id : ℕ
  pub balance_before_minor : ℤ
  pub balance_after_minor : ℤ
  pub audit_log_id : Option ℕ
  pub replayed : Bool

-- What is generated during a call: randomUUID() for the audit log, and the ledger row's stamp.
pub record AdjustStamp : Type 0 where
  pub log_uuid : ℕ
  pub ledger : Stamp

-- user.findUnique({ where: { id } })
unfoldable pub has_user : ℕ → List User → Bool
has_user i [] = false
has_user i (u ∷ more) = u.id == i || has_user i more

-- adminLog.findUnique({ where: { id } })
unfoldable pub find_admin_log : ℕ → List AdminLog → Option AdminLog
find_admin_log i [] = none
find_admin_log i (l ∷ more) = if l.id == i then some l else find_admin_log i more

-- tx.adminLog.create({ data }): VARCHAR(45), the primary key, and the reference to admin_users.
unfoldable pub create_admin_log : AdminLog → Tx (Unit {0})
create_admin_log l db =
    if fits_varchar 45 l.ip_address
    then (if is_some (find_admin_log l.id db.admin_logs)
        then err unique_violation
        else (if is_some (find_admin l.admin_id db.admin_users)
            then ok (tt, record db { admin_logs = l ∷ db.admin_logs })
            else err constraint_violation))
    else err constraint_violation

abbrev pub adjust_ref_type : TxnDirection → TxnRefType
adjust_ref_type credit = admin_credit
adjust_ref_type debit = admin_debit

abbrev pub audit_log : AdjustStamp → AdjustPointsParams → AdminLog
audit_log stamp p = record {
  id = stamp.log_uuid;
  admin_id = p.admin_id;
  target_id = p.target_user_id;
  ip_address = p.ip;
  direction = p.dto.direction;
  amount_minor = p.dto.amount_minor;
  reason = p.dto.reason;
}

abbrev pub adjust_mutation : AdjustStamp → String → AdjustPointsParams → ApplyLedgerMutationParams
adjust_mutation stamp key p = record {
  user_id = p.target_user_id;
  direction = p.dto.direction;
  amount_minor = p.dto.amount_minor;
  reference_type = adjust_ref_type p.dto.direction;
  reference_id = some stamp.log_uuid;
  idempotency_key = key;
  description = some p.dto.reason;
  allow_overdraw = false;
}

abbrev pub adjust_result : Option ℕ → Bool → LedgerMutationResult → AdjustPointsResult
adjust_result log replayed r = record {
  transaction_id = r.transaction_id;
  balance_before_minor = r.balance_before_minor;
  balance_after_minor = r.balance_after_minor;
  audit_log_id = log;
  replayed = replayed;
}

-- The body of `runAdjustmentTransaction`: the audit log first, then the mutation.
unfoldable pub run_adjustment_transaction :
    AdjustStamp → String → AdjustPointsParams → Tx AdjustPointsResult
run_adjustment_transaction stamp key p = do
  create_admin_log (audit_log stamp p)
  r ← mutate_within_transaction stamp.ledger (adjust_mutation stamp key p)
  pure (adjust_result (some stamp.log_uuid) false r)

abbrev id_of : Option PointsAccount → Option ℕ
id_of none = none
id_of (some a) = some a.id

-- `adminLog?.adminId`, with no lookup where the row has no reference.
unfoldable pub admin_of : Option ℕ → List AdminLog → Option ℕ
admin_of none logs = none
admin_of (some i) logs = elim (find_admin_log i logs) [ none ↦ none | some l ↦ some l.admin_id ]

-- `existing.description ?? ''`
abbrev text_or_empty : Option String → String
text_or_empty none = ""
text_or_empty (some s) = s

unfoldable pub adjustment_matches : PointsTransaction → AdjustPointsParams → Db → Bool
adjustment_matches t p db =
    same_option (some t.account_id) (id_of (find_account p.target_user_id db.accounts))
    && same_direction t.direction p.dto.direction
    && t.amount_minor ==ℤ p.dto.amount_minor
    && same_ref_type t.reference_type (adjust_ref_type p.dto.direction)
    && str_eq (text_or_empty t.description) p.dto.reason
    && same_option (admin_of t.reference_id db.admin_logs) (some p.admin_id)

-- `findReplay`, once the ledger row of the key is known.
unfoldable pub adjust_replay :
    PointsTransaction → AdjustPointsParams → Db → Result AdjustPointsResult
adjust_replay t p db =
    if adjustment_matches t p db
    then ok (record {
      transaction_id = t.id;
      balance_before_minor = t.balance_before_minor;
      balance_after_minor = t.balance_after_minor;
      audit_log_id = t.reference_id;
      replayed = true;
    })
    else err idempotency_key_reused

abbrev pub adjust_reread_found :
    Option PointsTransaction → AdjustPointsParams → Db → Outcome AdjustPointsResult
adjust_reread_found none p db = (err unique_violation, db)
adjust_reread_found (some t) p db = (adjust_replay t p db, db)

unfoldable pub adjust_recover :
    Others → String → AdjustPointsParams → Outcome AdjustPointsResult → Outcome AdjustPointsResult
adjust_recover others key p (err unique_violation, db) =
    let seen = others.before_reread db in
    adjust_reread_found (find_transaction key seen.transactions) p seen
adjust_recover others key p (r, db) = (r, db)

abbrev pub adjust_found :
    Option PointsTransaction
    → Others
    → AdjustStamp
    → String
    → AdjustPointsParams
    → Db
    → Outcome AdjustPointsResult
adjust_found (some t) others stamp key p db = (adjust_replay t p db, db)
adjust_found none others stamp key p db =
    adjust_recover others key p
      (transaction (run_adjustment_transaction stamp key p) (others.before_lock db))

abbrev pub adjust_with_key :
    Bool → Others → AdjustStamp → String → AdjustPointsParams → Db → Outcome AdjustPointsResult
adjust_with_key true others stamp key p db = (err idempotency_key_required, db)
adjust_with_key false others stamp key p db =
    if has_user p.target_user_id db.users
    then adjust_found (find_transaction key db.transactions) others stamp key p db
    else (err not_found, db)

abbrev pub adjust_keyed :
    Option String → Others → AdjustStamp → AdjustPointsParams → Db → Outcome AdjustPointsResult
adjust_keyed none others stamp p db = (err idempotency_key_required, db)
adjust_keyed (some key) others stamp p db = adjust_with_key (str_eq key "") others stamp key p db

unfoldable pub adjust : Others → AdjustStamp → AdjustPointsParams → Db → Outcome AdjustPointsResult
adjust others stamp p db = adjust_keyed p.idempotency_key others stamp p db
