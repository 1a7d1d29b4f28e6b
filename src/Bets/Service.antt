-- ===== src/Bets/Service.antt =====
-- services/api/src/bets/bets.service.ts: `placeBet`, its transaction and its replays. The text of a
-- UUID comes from outside: `uuid_text`.
use text.Mathlib.Text.{◌==◌ as str_eq}
use Prim.Native.String
use Prim.Native.String.{String}
use jito_india_game.Bets.Items.{
  MergedItem, PlaceBetDto, PlaceBetItemDto, items_match, merge_items, total_amount,
  validate_safe_amounts, validate_selection_ranges,
}
use jito_india_game.Bets.Tables.{
  create_bet, create_bet_items, find_bet, find_bet_debit, find_round, items_of,
}
use jito_india_game.Centipoints.Numbers.{centipoints_to_number}
use jito_india_game.Database.{
  Bet, BetItem, BetStatus, Db, GameId, GameRound, Outcome, PointsTransaction, Result, RoundState,
  Tx, accepted, bet_placed, betting_active, betting_open, deadline_passed, debit, err, gets,
  idempotency_key_required, idempotency_key_reused, idempotency_key_too_long, not_found, ok, pure,
  round_mismatch, round_not_accepting, throw_if, transaction, triple_chance_pro_timer,
  triple_chance_timer, unique_violation, ◌>>=◌, ◌>>◌,
}
use jito_india_game.Points.Ledger.{
  LedgerMutationResult, LedgerRef, Others, Stamp, commit_mutation, lock_and_validate_account,
  or_throw,
}
use jito_india_game.Prelude.{
  Bool, List, Option, [], false, if◌then◌else◌, leb, ltb, none, not, some, true, ℕ, ◌&&◌, ◌==◌, ◌∷◌,
}
use jito_india_game.Prelude.Int.{pos, ℤ, ◌==ℤ◌}
use jito_india_game.Prelude.Text.{js_length}

pub record PlaceBetParams : Type 0 where
  pub user_id : ℕ
  pub idempotency_key : Option String
  pub dto : PlaceBetDto

-- The numbers of the result are JavaScript numbers that hold whole amounts.
pub record PlaceBetResult : Type 0 where
  pub bet_id : ℕ
  pub round_id : ℕ
  pub total_amount_minor : ℤ
  pub balance_minor : ℤ
  pub status : BetStatus
  pub accepted_at : ℕ
  pub replayed : Bool

-- What is generated during a call: randomUUID() for the bet, and the ledger row's stamp, whose
-- time is that of the transaction (PostgreSQL's now()).
pub record BetStamp : Type 0 where
  pub bet_uuid : ℕ
  pub ledger : Stamp

abbrev pub max_idempotency_key_length : ℕ
max_idempotency_key_length = 120

-- The header, if it is there, not empty and not too long.
unfoldable pub checked_key : Option String → Result String
checked_key none = err idempotency_key_required
checked_key (some k) =
    if str_eq k ""
    then err idempotency_key_required
    else if ltb max_idempotency_key_length (js_length k)
    then err idempotency_key_too_long
    else ok k

-- What the request comes to before any table is read.
pub record BetRequest : Type 0 where
  pub user_id : ℕ
  pub key : String
  pub round_id : ℕ
  pub game_id : GameId
  pub merged : List MergedItem
  pub total : ℤ

unfoldable pub checked_items : List PlaceBetItemDto → Result (List MergedItem)
checked_items items = elim (merge_items items) [
  | err e ↦ err e
  | ok merged ↦ elim (validate_selection_ranges merged) [
    | err e ↦ err e
    | ok _ ↦ elim (validate_safe_amounts merged (total_amount merged)) [
      | err e ↦ err e
      | ok _ ↦ ok merged
    ]
  ]
]

unfoldable pub checked_request : PlaceBetParams → Result BetRequest
unfolding checked_key checked_items
checked_request p = elim (checked_key p.idempotency_key) [
  | err e ↦ err e
  | ok key ↦ elim (checked_items p.dto.items) [
    | err e ↦ err e
    | ok merged ↦ ok (record {
      user_id = p.user_id;
      key = key;
      round_id = p.dto.round_id;
      game_id = p.dto.game_id;
      merged = merged;
      total = total_amount merged;
    })
  ]
]

abbrev pub same_game : GameId → GameId → Bool
same_game triple_chance_timer triple_chance_timer = true
same_game triple_chance_pro_timer triple_chance_pro_timer = true
same_game _ _ = false

abbrev pub accepts_bets : RoundState → Bool
accepts_bets betting_open = true
accepts_bets betting_active = true
accepts_bets _ = false

-- Step 1: lock the round and check it, in the order of the code.
unfoldable pub lock_round : ℕ → BetRequest → Tx GameRound
lock_round now q = do
  rows ← gets (λ db. find_round q.round_id db.rounds)
  round ← or_throw rows not_found
  throw_if (not (same_game round.game_id q.game_id)) round_mismatch
  throw_if (not (accepts_bets round.state)) round_not_accepting
  throw_if (leb round.betting_deadline now) deadline_passed
  pure round

abbrev pub bet_row : BetStamp → BetRequest → Bet
bet_row stamp q = record {
  id = stamp.bet_uuid;
  user_id = q.user_id;
  round_id = q.round_id;
  total_amount_minor = q.total;
  status = accepted;
  idempotency_key = q.key;
  accepted_at = stamp.ledger.now;
}

abbrev pub item_row : ℕ → MergedItem → BetItem
item_row bet_id m = record {
  bet_id = bet_id;
  category = m.category;
  selection = m.selection;
  amount_minor = m.amount_minor;
}

unfoldable pub item_rows : ℕ → List MergedItem → List BetItem
item_rows bet_id [] = []
item_rows bet_id (m ∷ more) = item_row bet_id m ∷ item_rows bet_id more

-- `ledgerRow?.balanceAfterMinor ?? 0n`
abbrev pub debit_balance : Option PointsTransaction → ℤ
debit_balance none = pos 0
debit_balance (some t) = t.balance_after_minor

unfoldable pub replay_result : Bet → Db → PlaceBetResult
replay_result b db = record {
  bet_id = b.id;
  round_id = b.round_id;
  total_amount_minor = centipoints_to_number b.total_amount_minor;
  balance_minor = centipoints_to_number (debit_balance (find_bet_debit b.id db.transactions));
  status = b.status;
  accepted_at = b.accepted_at;
  replayed = true;
}

unfoldable pub bet_matches : Bet → BetRequest → Db → Bool
bet_matches b q db =
    (b.round_id == q.round_id)
    && b.total_amount_minor ==ℤ q.total
    && items_match (items_of b.id db.bet_items) q.merged

-- `findReplay`, once the bet of the key is known.
unfoldable pub bet_replay : Bet → BetRequest → Db → Result PlaceBetResult
bet_replay b q db =
    if bet_matches b q db then ok (replay_result b db) else err idempotency_key_reused

-- The second `findReplay`, after a P2002: no bet of the key means that the P2002 is thrown on.
abbrev pub bet_reread_found : Option Bet → BetRequest → Db → Outcome PlaceBetResult
bet_reread_found none q db = (err unique_violation, db)
bet_reread_found (some b) q db = (bet_replay b q db, db)

unfoldable pub bet_recover : Others → BetRequest → Outcome PlaceBetResult → Outcome PlaceBetResult
bet_recover others q (err unique_violation, db) =
    let seen = others.before_reread db in
    bet_reread_found (find_bet q.user_id q.key seen.bets) q seen
bet_recover others q (r, db) = (r, db)

module _ (uuid_text : ℕ → String) where
  -- `ledgerIdempotencyKey`
  unfoldable pub ledger_idempotency_key : ℕ → String
  ledger_idempotency_key bet_id = String.◌++◌ "bet-debit:" (uuid_text bet_id)

  abbrev pub bet_ledger_ref : BetStamp → BetRequest → LedgerRef
  bet_ledger_ref stamp q = record {
    reference_type = bet_placed;
    reference_id = some stamp.bet_uuid;
    idempotency_key = ledger_idempotency_key stamp.bet_uuid;
    description = some (String.◌++◌ "Bet on round " (uuid_text q.round_id));
  }

  abbrev pub placed_result : BetStamp → BetRequest → Bet → LedgerMutationResult → PlaceBetResult
  placed_result stamp q b r = record {
    bet_id = stamp.bet_uuid;
    round_id = q.round_id;
    total_amount_minor = centipoints_to_number q.total;
    balance_minor = centipoints_to_number r.balance_after_minor;
    status = b.status;
    accepted_at = b.accepted_at;
    replayed = false;
  }

  -- The body of `runPlacementTransaction`: round, account, bet, ledger.
  unfoldable pub run_placement_transaction : BetStamp → BetRequest → Tx PlaceBetResult
  run_placement_transaction stamp q = do
    round ← lock_round stamp.ledger.now q
    locked ← lock_and_validate_account q.user_id debit q.total false
    bet ← create_bet (bet_row stamp q)
    create_bet_items (item_rows stamp.bet_uuid q.merged)
    r ← commit_mutation stamp.ledger locked (bet_ledger_ref stamp q)
    pure (placed_result stamp q bet r)

  -- After the first `findReplay`: a bet of the key is answered at once.
  abbrev pub place_found : Option Bet → Others → BetStamp → BetRequest → Db → Outcome PlaceBetResult
  place_found (some b) others stamp q db = (bet_replay b q db, db)
  place_found none others stamp q db =
      bet_recover others q (transaction (run_placement_transaction stamp q) (others.before_lock db))

  abbrev pub place_checked : Result BetRequest → Others → BetStamp → Db → Outcome PlaceBetResult
  place_checked (err e) others stamp db = (err e, db)
  place_checked (ok q) others stamp db =
      place_found (find_bet q.user_id q.key db.bets) others stamp q db

  unfoldable pub place_bet : Others → BetStamp → PlaceBetParams → Db → Outcome PlaceBetResult
  place_bet others stamp p db = place_checked (checked_request p) others stamp db
