-- ===== src/Examples/Adjustment.antt =====
-- Runs of adjustments, and of requests that overtake one another.
use jito_india_game.Admin.{AdjustPointsParams, AdjustStamp, adjust}
use jito_india_game.Admin.Outcomes.{KeyedAccounts, adjust-KeyedAccounts}
use jito_india_game.Bets.{PlaceBetParams, int}
use jito_india_game.Database.{debit, ok, triple_chance_timer, triples}
use jito_india_game.Database.Statements.{fits_bigint}
use jito_india_game.Examples.{
  admin, alone, ledger_stamp, player, retry_stamp, start, start-IsSystemSound, uuid_text,
}
use jito_india_game.Points.Reconciliation.{verify_all}
use jito_india_game.Prelude.{[], length, refl, some, ◌∷◌, ◌≡◌}
use jito_india_game.Prelude.Int.{pos}
use jito_india_game.System.{Requests, adjustment, done, first, place, serve_all}
use jito_india_game.System.Sound.{
  IsSystemSound, serve_all-IsSystemSound, undisturbed_check, verify_all-serve_all,
}

abbrev correction : AdjustPointsParams
correction = record {
  admin_id = admin;
  target_user_id = player;
  dto = record { direction = debit; amount_minor = pos 300; reason = "correction" };
  idempotency_key = some "fix";
  ip = "10.0.0.2";
}

abbrev adjust_stamp : AdjustStamp
adjust_stamp = record { log_uuid = 201; ledger = retry_stamp }

adjust-KeyedAccounts_example :
    KeyedAccounts alone adjust_stamp correction
      (some "fix")
      start
      (adjust alone adjust_stamp correction start)
adjust-KeyedAccounts_example = adjust-KeyedAccounts alone adjust_stamp correction start

-- A bet that an adjustment overtakes before it takes its locks, and the same bet once more.
abbrev bet : PlaceBetParams
bet = record {
  user_id = player;
  idempotency_key = some "tap";
  dto = record {
    round_id = 300;
    game_id = triple_chance_timer;
    items = record { category = triples; selection = pos 123; amount_minor = int (pos 200) } ∷ [];
  };
}

abbrev requests : Requests
requests =
    first
      (place (first (adjustment done done adjust_stamp correction) done) done
        (record { bet_uuid = 400; ledger = ledger_stamp }) bet)
      (first
        (place done done (record { bet_uuid = 401; ledger = record { uuid = 103; now = 31 } }) bet)
        done)

serve_all-IsSystemSound_example : IsSystemSound (serve_all uuid_text requests start)
serve_all-IsSystemSound_example =
    serve_all-IsSystemSound uuid_text requests start start-IsSystemSound

verify_all-serve_all_example :
    verify_all undisturbed_check (serve_all uuid_text requests start)
    ≡ ok
        (record { checked = length (serve_all uuid_text requests start).accounts; mismatches = [] })
unfolding fits_bigint
verify_all-serve_all_example =
    verify_all-serve_all uuid_text requests start start-IsSystemSound (refl, tt)
