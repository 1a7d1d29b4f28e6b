-- ===== src/Examples/Ledger.antt =====
-- Runs of the ledger operations.
use Prim.Native.String.{count}
use jito_india_game.Centipoints.Numbers.{centipoints_or_null}
use jito_india_game.Database.{
  Db, PointsTransaction, bet_refund, debit, err, idempotency_key_reused, insufficient_points, ok,
}
use jito_india_game.Database.Statements.{
  create_transaction, find_account, find_account_by_id, find_transaction, fits_bigint, fits_varchar,
  has_transaction_id, moved_balance, set_balance, transaction_row_ok, update_account,
}
use jito_india_game.Examples.{
  account, alone, first_credit, ledger_stamp, player, retry_stamp, start, start-IsSound,
}
use jito_india_game.Points.Invariant.{IsSound}
use jito_india_game.Points.Ledger.{
  ApplyLedgerMutationParams, apply_direction, apply_mutation, commit_mutation, ledger_row,
  lock_and_validate_account, mutate_within_transaction, recover, ref_of, to_result,
}
use jito_india_game.Points.Ledger.Steps.{locked_on, posted}
use jito_india_game.Points.Mutation.{
  Accounts, Describes, IsReplayOf, apply_mutation-Accounts, apply_mutation-IsSound,
  apply_mutation_accepts, apply_mutation_duplicate, apply_mutation_insufficient,
  apply_mutation_known_key, apply_mutation_retry, max_bigint, overtaken_by,
}
use jito_india_game.Points.Reconciliation.{AccountInvariantResult, verify_all}
use jito_india_game.Points.Reconciliation.Verified.{
  AllSeen, IsInRange, IsReport, total_of, verify_all_complete,
}
use jito_india_game.Prelude.{List, [], arith, false, none, refl, some, true, ◌∷◌, ◌≡◌, ◌≤◌, ◌⊎◌}
use jito_india_game.Prelude.Int.{pos, ◌+ℤ◌, ◌-ℤ◌, ◌≤ℤ◌}

abbrev refund : ApplyLedgerMutationParams
refund = record {
  user_id = player;
  direction = debit;
  amount_minor = pos 400;
  reference_type = bet_refund;
  reference_id = some 7;
  idempotency_key = "refund";
  description = none;
  allow_overdraw = false;
}

abbrev after_row : PointsTransaction
after_row = record {
  id = 101;
  account_id = 10;
  direction = debit;
  amount_minor = pos 400;
  balance_before_minor = pos 1000;
  balance_after_minor = pos 600;
  reference_type = bet_refund;
  reference_id = some 7;
  idempotency_key = "refund";
  description = none;
  created_at = 20;
}

abbrev after : Db
after = record start {
  accounts = record account { balance_minor = pos 600; version = 2; updated_at = 20 } ∷ [];
  transactions = after_row ∷ first_credit ∷ [];
}

runs : apply_mutation alone ledger_stamp refund start ≡ (ok (to_result after_row false), after)
unfolding apply_mutation find_transaction mutate_within_transaction lock_and_validate_account
    find_account apply_direction ◌-ℤ◌ commit_mutation create_transaction transaction_row_ok
    moved_balance fits_bigint fits_varchar has_transaction_id update_account find_account_by_id
    set_balance to_result recover
runs = refl

apply_mutation-IsSound_example : IsSound (apply_mutation alone ledger_stamp refund start).1
apply_mutation-IsSound_example =
    apply_mutation-IsSound alone ledger_stamp refund start (λ db h. h) (λ db h. h) start-IsSound

apply_mutation-Accounts_example :
    Accounts alone ledger_stamp refund start (apply_mutation alone ledger_stamp refund start)
apply_mutation-Accounts_example = apply_mutation-Accounts alone ledger_stamp refund start

apply_mutation_retry_example :
    apply_mutation alone retry_stamp refund after
    ≡ (ok (record (to_result after_row false) { replayed = true }), after)
apply_mutation_retry_example =
    apply_mutation_retry alone alone ledger_stamp retry_stamp refund (λ db. db) start start-IsSound
      (λ db k t h. (h, refl)) runs

fresh_refund : find_transaction "refund" start.transactions ≡ none
unfolding find_transaction
fresh_refund = refl

apply_mutation_duplicate_example :
    IsReplayOf
      (to_result after_row false)
      after
      (apply_mutation (overtaken_by alone ledger_stamp refund) retry_stamp refund start)
apply_mutation_duplicate_example =
    apply_mutation_duplicate alone ledger_stamp retry_stamp refund start fresh_refund start-IsSound
      runs

abbrev reused : ApplyLedgerMutationParams
reused = record refund { idempotency_key = "first" }

first_found : find_transaction "first" start.transactions ≡ some first_credit
unfolding find_transaction
first_found = refl

apply_mutation_known_key_example :
    ((apply_mutation alone ledger_stamp reused start ≡ (ok (to_result first_credit true), start))
      × Describes first_credit reused start)
    ⊎ ((apply_mutation alone ledger_stamp reused start ≡ (err idempotency_key_reused, start))
        × ¬ Describes first_credit reused start)
apply_mutation_known_key_example =
    apply_mutation_known_key alone ledger_stamp reused start first_credit refl first_found

account_found : find_account 1 start.accounts ≡ some account
unfolding find_account
account_found = refl

new_row_id : has_transaction_id 101 start.transactions ≡ false
unfolding has_transaction_id
new_row_id = refl

short_key : count "refund" ≤ 120
short_key = omega arith

covered : pos 0 ≤ℤ apply_direction debit (pos 1000) (pos 400)
unfolding apply_direction ◌-ℤ◌
covered = omega arith

still_fits : apply_direction debit (pos 1000) (pos 400) ≤ℤ max_bigint
unfolding apply_direction ◌-ℤ◌
still_fits = omega arith

apply_mutation_accepts_example : apply_mutation alone ledger_stamp refund start ≡ (
  ok (
      to_result
        (ledger_row ledger_stamp (locked_on debit (pos 400) account) (ref_of refund))
        false),
  posted ledger_stamp (locked_on debit (pos 400) account) (ref_of refund) start,
)
apply_mutation_accepts_example =
    apply_mutation_accepts alone ledger_stamp refund start account (omega arith) fresh_refund
      account_found start-IsSound fresh_refund new_row_id short_key (omega arith) (omega arith)
      covered still_fits

abbrev too_much : ApplyLedgerMutationParams
too_much = record refund { amount_minor = pos 1001 }

not_covered : ¬ (pos 1001 ≤ℤ pos 1000)
not_covered h = omega arith

apply_mutation_insufficient_example :
    apply_mutation alone ledger_stamp too_much start
    ≡ (err (insufficient_points (pos 1001) (pos 1000)), start)
apply_mutation_insufficient_example =
    apply_mutation_insufficient alone ledger_stamp too_much start account (omega arith) fresh_refund
      account_found refl refl not_covered

-- A balance that drifted from its ledger.
abbrev drifted : Db
drifted = record start { accounts = record account { balance_minor = pos 999 } ∷ [] }

drifted-IsInRange : AllSeen IsInRange (λ a db. db) drifted.accounts drifted
unfolding total_of ◌-ℤ◌ ◌+ℤ◌ fits_bigint
drifted-IsInRange = (refl, tt)

verify_all_complete_example :
    (out : List AccountInvariantResult) × (verify_all (λ a db. db) drifted
      ≡ ok (record { checked = 1; mismatches = out }))
    × IsReport (λ a db. db) drifted.accounts drifted out
verify_all_complete_example = verify_all_complete (λ a db. db) drifted drifted-IsInRange

-- A null of the database stays null.
null_amount : centipoints_or_null none ≡ none
unfolding centipoints_or_null
null_amount = refl
