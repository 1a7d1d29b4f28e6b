-- ===== src/Bets/Acceptance.antt =====
-- Which requests are accepted: nothing but the checks of the code is in the way of a bet.
mod Statements
use Prim.Native.String.{String, count}
use jito_india_game.Bets.Acceptance.Statements.{
  All-of, IsUnused, checked_request-count, covered_debit, create_bet-accepts,
  create_bet_items-accepts, lock_round-accepts, new_bet-IsUnused, safe_fits,
}
use jito_india_game.Bets.Funding.{IsServiceSound, checked_request-total}
use jito_india_game.Bets.Items.{PlaceBetItemDto, max_safe_amount, total_amount}
use jito_india_game.Bets.Merging.{IsValidBet, checked_items-IsValidBet}
use jito_india_game.Bets.Placement.{IsRoundOpen, with_bet}
use jito_india_game.Bets.Retry.{checked_request-merged}
use jito_india_game.Bets.Service.{
  BetRequest, BetStamp, PlaceBetParams, bet_ledger_ref, bet_recover, bet_row, checked_request,
  item_rows, ledger_idempotency_key, lock_round, place_bet, placed_result,
  run_placement_transaction,
}
use jito_india_game.Bets.Tables.{create_bet, create_bet_items, find_bet, has_bet_id}
use jito_india_game.Database.{Db, GameRound, PointsAccount, bind-ok, debit, ok}
use jito_india_game.Database.Statements.{find_account, find_transaction, has_transaction_id}
use jito_india_game.Points.Invariant.{IsBalanced, find_account-All, find_account_by_id-find_account}
use jito_india_game.Points.Ledger.{
  LedgerRef, LockedAccountMutation, Others, commit_mutation, ledger_row, lock_and_validate_account,
  to_result,
}
use jito_india_game.Points.Ledger.Steps.{locked_on, posted}
use jito_india_game.Points.Mutation.{
  commit-ok, lock-ok, max_bigint, not_positive_of, transaction_row_ok_of_bounds,
}
use jito_india_game.Prelude.{List, false, none, refl, some, sym, ℕ, ◌∙◌, ◌∷◌, ◌≡◌, ◌≤◌}
use jito_india_game.Prelude.Int.{pos, ◌≤ℤ◌}
use mathlib.Core.Path.{subst}

-- The conditions on the tables that a placement meets.
pub record IsAcceptable (uuid_text : ℕ → String) (stamp : BetStamp) (q : BetRequest) (db : Db)
    : Type 0 where
  pub round : GameRound
  pub open_round : IsRoundOpen stamp.ledger.now q db round
  pub account : PointsAccount
  pub found : find_account q.user_id db.accounts ≡ some account
  pub covered : q.total ≤ℤ account.balance_minor
  pub fits : account.balance_minor ≤ℤ max_bigint
  pub new_key : find_bet q.user_id q.key db.bets ≡ none
  pub new_id : has_bet_id stamp.bet_uuid db.bets ≡ false
  pub new_row : has_transaction_id stamp.ledger.uuid db.transactions ≡ false
  pub new_ledger_key :
      find_transaction (ledger_idempotency_key uuid_text stamp.bet_uuid) db.transactions ≡ none
  pub short_ledger_key : count (ledger_idempotency_key uuid_text stamp.bet_uuid) ≤ 120

module _ (uuid_text : ℕ → String) (stamp : BetStamp) (q : BetRequest) (db : Db)
    (items : List PlaceBetItemDto) (valid : IsValidBet items q.merged)
    (total : q.total ≡ total_amount q.merged) (positive : pos 1 ≤ℤ q.total)
    (short : count q.key ≤ 120) (sound : IsServiceSound db)
    (free : IsAcceptable uuid_text stamp q db) where
  abbrev debit_on : LockedAccountMutation
  debit_on = locked_on debit q.total free.account

  abbrev ref : LedgerRef
  ref = bet_ledger_ref uuid_text stamp q

  safe_total : q.total ≤ℤ max_safe_amount
  safe_total = subst (λ z. z ≤ℤ max_safe_amount) (sym total) valid.total

  items_written :
      create_bet_items
        (item_rows stamp.bet_uuid q.merged)
        (record db { bets = bet_row stamp q ∷ db.bets })
      ≡ ok (tt, with_bet stamp q db)
  items_written =
      create_bet_items-accepts stamp.bet_uuid q.merged
        (record db { bets = bet_row stamp q ∷ db.bets }) valid.is_merged.distinct
        valid.is_merged.positive valid.amounts valid.ranges
        (All-of (IsUnused stamp.bet_uuid db.bet_items) q.merged (λ m.
          new_bet-IsUnused stamp.bet_uuid db.bets db.bet_items m free.new_id sound.bets.owned))

  debit_written :
      commit_mutation stamp.ledger debit_on ref (with_bet stamp q db)
      ≡ ok (
        to_result (ledger_row stamp.ledger debit_on ref) false,
        posted stamp.ledger debit_on ref (with_bet stamp q db),
      )
  debit_written =
      let bounds =
        covered_debit q.total free.account.balance_minor free.covered free.fits positive in
      let balanced =
        find_account-All (IsBalanced db.transactions) q.user_id db.accounts sound.points.balances
          free.found in
      commit-ok stamp.ledger debit q.total free.account ref (with_bet stamp q db)
        (find_account_by_id-find_account q.user_id db.accounts sound.points.ids free.found) bounds.0
        free.new_ledger_key free.new_row
        (transaction_row_ok_of_bounds (ledger_row stamp.ledger debit_on ref) positive
          (safe_fits q.total safe_total) balanced.1 free.fits bounds.0 bounds.1
          free.short_ledger_key refl)

  pub run_placement_transaction-accepts :
      run_placement_transaction uuid_text stamp q db
      ≡ ok (
        placed_result uuid_text stamp q
            (bet_row stamp q)
            (to_result (ledger_row stamp.ledger debit_on ref) false),
        posted stamp.ledger debit_on ref (with_bet stamp q db),
      )
  unfolding run_placement_transaction
  run_placement_transaction-accepts =
      let bounds =
        covered_debit q.total free.account.balance_minor free.covered free.fits positive in
      bind-ok (lock_round stamp.ledger.now q) _ db
        (lock_round-accepts stamp.ledger.now q db free.round free.open_round)
      ∙ bind-ok (lock_and_validate_account q.user_id debit q.total false) _ db (
          lock-ok q.user_id debit q.total false free.account db (not_positive_of q.total positive)
            free.found bounds.0)
      ∙ bind-ok (create_bet (bet_row stamp q)) _ db (
          create_bet-accepts (bet_row stamp q) db positive safe_total short free.new_id
            free.new_key)
      ∙ bind-ok (create_bet_items (item_rows stamp.bet_uuid q.merged)) _
          (record db { bets = bet_row stamp q ∷ db.bets }) items_written
      ∙ bind-ok (commit_mutation stamp.ledger debit_on ref) _ (with_bet stamp q db) debit_written

-- A request that passes the checks and stakes something is accepted, under a key that is new, as
-- soon as the tables that its transaction meets are sound and have its round open before the
-- deadline, an account that covers the total with a balance that fits its column, and none of the
-- generated identifiers, and the ledger key made of the bet's UUID fits its column: the answer is
-- the new bet, and the tables have bet, items, debit and the new balance.
pub place_bet-accepts :
    (uuid_text : ℕ → String) (others : Others) (stamp : BetStamp) (p : PlaceBetParams)
    (q : BetRequest) (db : Db)
    → checked_request p ≡ ok q
    → pos 1 ≤ℤ q.total
    → find_bet q.user_id q.key db.bets ≡ none
    → IsServiceSound (others.before_lock db)
    → (free : IsAcceptable uuid_text stamp q (others.before_lock db))
    → place_bet uuid_text others stamp p db ≡ (
      ok (
          placed_result uuid_text stamp q (bet_row stamp q) (
            to_result
              (ledger_row stamp.ledger
                (locked_on debit q.total free.account)
                (bet_ledger_ref uuid_text stamp q))
              false)),
      posted stamp.ledger
          (locked_on debit q.total free.account)
          (bet_ledger_ref uuid_text stamp q)
          (with_bet stamp q (others.before_lock db)),
    )
unfolding place_bet bet_recover
place_bet-accepts uuid_text others stamp p q db checked positive fresh sound free =
    let mid = others.before_lock db in
    let written =
      run_placement_transaction-accepts uuid_text stamp q mid p.dto.items
        (checked_items-IsValidBet p.dto.items (checked_request-merged p checked))
        (checked_request-total p checked) positive (checked_request-count p checked) sound free in
    rw (checked, fresh, written) refl
