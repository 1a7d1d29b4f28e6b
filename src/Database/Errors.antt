-- ===== src/Database/Errors.antt =====
-- The exceptions of the points, bet and admin services, and the errors of the database.
use jito_india_game.Database.Rows.{BetCategory}
use jito_india_game.Prelude.{ℕ}
use jito_india_game.Prelude.Int.{ℤ}

pub data Error : Type 0 where
  -- `new Error(...)` of the ledger: the amount is not positive, or the user has no account.
  bad_amount no_account : Error
  insufficient_points : (required available : ℤ) → Error
  idempotency_key_reused idempotency_key_required idempotency_key_too_long : Error
  not_found round_mismatch round_not_accepting deadline_passed : Error
  invalid_selection : BetCategory → ℤ → Error
  unsafe_selection_amount : BetCategory → ℤ → Error
  unsafe_total_amount : Error
  -- The codes of services/api/src/common/errors.ts that the authentication raises. The number is the
  -- `retryAfter` of a 429, in seconds.
  unauthorized forbidden conflict validation_error : Error
  rate_limit_exceeded : ℕ → Error
  session_expired session_revoked refresh_token_reused : Error
  account_suspended account_banned : Error
  -- Prisma's P2002 for a UNIQUE index, its P2025 for an update of no row, the error of a CHECK
  -- or FOREIGN KEY constraint or of a value that does not fit its column, and that of a cast.
  unique_violation record_not_found constraint_violation numeric_out_of_range : Error
  -- An exception of another kind, which the filter answers with 500.
  internal_error : Error

pub data Result {ℓ} (A : Type ℓ) : Type ℓ where
  ok : A → Result A
  err : Error → Result A
