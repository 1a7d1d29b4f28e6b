-- ===== src/Examples/Placement.antt =====
-- Runs of bet placement.
use jito_india_game.Bets.{
  BetRequest, BetStamp, MergedItem, PlaceBetItemDto, PlaceBetParams, PlaceBetResult,
  bet_item_row_ok, bet_ledger_ref, bet_recover, bet_row, bet_row_ok, checked_items, checked_request,
  create_bet, create_bet_items, find_bet, find_round, has_bet_id, has_bet_item, int, item_rows,
  ledger_idempotency_key, lock_round, merge_into, merge_items, place_bet, placed_result,
  run_placement_transaction, safe_amount, total_from, validate_safe_amounts,
  validate_selection_ranges,
}
use jito_india_game.Bets.Acceptance.{IsAcceptable, place_bet-accepts}
use jito_india_game.Bets.Funding.{IsServiceSound, place_bet-IsServiceSound}
use jito_india_game.Bets.Merging.{
  IsValidBet, checked_items-IsValidBet, entry, stake, stake-merge_items,
}
use jito_india_game.Bets.Outcomes.{PlaceAccounts, place_bet-PlaceAccounts}
use jito_india_game.Bets.Placement.{with_bet}
use jito_india_game.Bets.Retry.{place_bet_retry}
use jito_india_game.Centipoints.Numbers.{centipoints_to_number, nearest_double}
use jito_india_game.Database.{
  Db, accepted, bet_placed, debit, doubles, ok, singles, triple_chance_timer,
}
use jito_india_game.Database.Statements.{
  create_transaction, find_account, find_account_by_id, find_transaction, fits_bigint, fits_varchar,
  has_transaction_id, moved_balance, set_balance, transaction_row_ok, update_account,
}
use jito_india_game.Examples.{
  account, alone, betting_round, first_credit, ledger_stamp, player, retry_stamp, start,
  start-IsSystemSound, uuid_text,
}
use jito_india_game.Points.Ledger.{
  apply_direction, commit_mutation, ledger_row, lock_and_validate_account, to_result,
}
use jito_india_game.Points.Ledger.Steps.{locked_on, posted}
use jito_india_game.Prelude.{List, [], arith, false, map, none, refl, some, true, ◌∷◌, ◌≡◌}
use jito_india_game.Prelude.Int.{pos, ◌+ℤ◌, ◌-ℤ◌}
use jito_india_game.Prelude.Text.{js_length}

abbrev stamp : BetStamp
stamp = record { bet_uuid = 400; ledger = ledger_stamp }

abbrev later_stamp : BetStamp
later_stamp = record { bet_uuid = 401; ledger = retry_stamp }

-- Two stakes on one digit, and one on a pair of digits.
abbrev items : List PlaceBetItemDto
items =
    record { category = singles; selection = pos 7; amount_minor = int (pos 100) }
    ∷ record { category = doubles; selection = pos 42; amount_minor = int (pos 50) }
    ∷ record { category = singles; selection = pos 7; amount_minor = int (pos 25) }
    ∷ []

abbrev merged : List MergedItem
merged =
    record { category = singles; selection = pos 7; amount_minor = pos 125 }
    ∷ record { category = doubles; selection = pos 42; amount_minor = pos 50 }
    ∷ []

abbrev request : PlaceBetParams
request = record {
  user_id = player;
  idempotency_key = some "tap";
  dto = record { round_id = 300; game_id = triple_chance_timer; items = items };
}

items-merged : merge_items items ≡ ok merged
unfolding merge_items merge_into safe_amount ◌+ℤ◌
items-merged = refl

items-checked : checked_items items ≡ ok merged
unfolding checked_items merge_items merge_into safe_amount validate_selection_ranges
    validate_safe_amounts total_from ◌+ℤ◌
items-checked = refl

abbrev answer : PlaceBetResult
answer = record {
  bet_id = 400;
  round_id = 300;
  total_amount_minor = pos 175;
  balance_minor = pos 825;
  status = accepted;
  accepted_at = 20;
  replayed = false;
}

abbrev placed : Db
placed = record start {
  accounts = record account { balance_minor = pos 825; version = 2; updated_at = 20 } ∷ [];
  transactions =
      record {
        id = 101;
        account_id = 10;
        direction = debit;
        amount_minor = pos 175;
        balance_before_minor = pos 1000;
        balance_after_minor = pos 825;
        reference_type = bet_placed;
        reference_id = some 400;
        idempotency_key = "bet-debit:00000000-0400";
        description = some "Bet on round 00000000-0300";
        created_at = 20;
      }
      ∷ first_credit
      ∷ [];
  bets =
      record {
        id = 400;
        user_id = player;
        round_id = 300;
        total_amount_minor = pos 175;
        status = accepted;
        idempotency_key = "tap";
        accepted_at = 20;
      }
      ∷ [];
  bet_items =
      record { bet_id = 400; category = doubles; selection = pos 42; amount_minor = pos 50 }
      ∷ record { bet_id = 400; category = singles; selection = pos 7; amount_minor = pos 125 }
      ∷ [];
}

runs : place_bet uuid_text alone stamp request start ≡ (ok answer, placed)
unfolding place_bet checked_request merge_items merge_into safe_amount validate_selection_ranges
    validate_safe_amounts total_from ◌+ℤ◌ ◌-ℤ◌ find_bet run_placement_transaction lock_round
    find_round lock_and_validate_account find_account apply_direction create_bet bet_row_ok
    has_bet_id create_bet_items bet_item_row_ok has_bet_item item_rows commit_mutation
    create_transaction transaction_row_ok moved_balance fits_bigint fits_varchar has_transaction_id
    find_transaction update_account find_account_by_id set_balance to_result bet_recover
    ledger_idempotency_key centipoints_to_number nearest_double js_length
runs = refl

place_bet-PlaceAccounts_example :
    PlaceAccounts uuid_text alone stamp
      (checked_request request)
      start
      (place_bet uuid_text alone stamp request start)
place_bet-PlaceAccounts_example = place_bet-PlaceAccounts uuid_text alone stamp request start

place_bet-IsServiceSound_example : IsServiceSound (place_bet uuid_text alone stamp request start).1
place_bet-IsServiceSound_example =
    place_bet-IsServiceSound uuid_text alone stamp (λ db h. h) (λ db h. h) request start
      (start-IsSystemSound.service)

place_bet_retry_example :
    place_bet uuid_text alone later_stamp request placed
    ≡ (ok (record answer { replayed = true }), placed)
place_bet_retry_example =
    place_bet_retry uuid_text alone alone stamp later_stamp request (λ db. db) start tt
      (λ db u k b h. (h, refl, refl)) runs

checked_items-IsValidBet_example : IsValidBet items merged
checked_items-IsValidBet_example = checked_items-IsValidBet items items-checked

stake-merge_items_example : stake singles (pos 7) merged ≡ stake singles (pos 7) (map entry items)
stake-merge_items_example = stake-merge_items singles (pos 7) items items-merged

abbrev checked : BetRequest
checked = record {
  user_id = player;
  key = "tap";
  round_id = 300;
  game_id = triple_chance_timer;
  merged = merged;
  total = pos 175;
}

request-checked : checked_request request ≡ ok checked
unfolding checked_request merge_items merge_into safe_amount validate_selection_ranges
    validate_safe_amounts total_from ◌+ℤ◌ js_length
request-checked = refl

no_bet_yet : find_bet 1 "tap" start.bets ≡ none
unfolding find_bet
no_bet_yet = refl

acceptable : IsAcceptable uuid_text stamp checked start
unfolding find_round find_account find_bet has_bet_id has_transaction_id find_transaction
    ledger_idempotency_key
acceptable = record {
  round = betting_round;
  open_round = record { found = refl; game = refl; accepting = refl; in_time = omega arith };
  account = account;
  found = refl;
  covered = omega arith;
  fits = omega arith;
  new_key = refl;
  new_id = refl;
  new_row = refl;
  new_ledger_key = refl;
  short_ledger_key = omega arith;
}

place_bet-accepts_example : place_bet uuid_text alone stamp request start ≡ (
  ok (
      placed_result uuid_text stamp checked (bet_row stamp checked) (
        to_result
          (ledger_row stamp.ledger
            (locked_on debit (pos 175) account)
            (bet_ledger_ref uuid_text stamp checked))
          false)),
  posted stamp.ledger
      (locked_on debit (pos 175) account)
      (bet_ledger_ref uuid_text stamp checked)
      (with_bet stamp checked start),
)
unfolding acceptable
place_bet-accepts_example =
    place_bet-accepts uuid_text alone stamp request checked start request-checked (omega arith)
      no_bet_yet start-IsSystemSound.service acceptable
