-- ===== src/Bets/Tables.antt =====
-- The statements on game_rounds, bets and bet_items that bet placement issues, with the indexes
-- and constraints of the migration.
use text.Mathlib.Text.{◌==◌ as str_eq}
use Prim.Native.String.{String}
use jito_india_game.Bets.Items.{same_category, selection_max}
use jito_india_game.Database.{
  Bet, BetItem, GameRound, PointsTransaction, Tx, bet_placed, constraint_violation, err, ok,
  unique_violation,
}
use jito_india_game.Database.Statements.{fits_bigint, fits_varchar, is_some}
use jito_india_game.Points.Ledger.{same_ref_type}
use jito_india_game.Prelude.{
  Bool, List, Option, [], false, if◌then◌else◌, none, not, same_option, some, ℕ, ◌&&◌, ◌==◌, ◌||◌,
  ◌∷◌,
}
use jito_india_game.Prelude.Int.{leb_ℤ, ltb_ℤ, pos, ◌==ℤ◌}

-- SELECT … FROM game_rounds WHERE id = $1 FOR UPDATE
unfoldable pub find_round : ℕ → List GameRound → Option GameRound
find_round i [] = none
find_round i (r ∷ more) = if r.id == i then some r else find_round i more

-- bet.findFirst({ where: { userId, idempotencyKey } })
unfoldable pub find_bet : ℕ → String → List Bet → Option Bet
find_bet u k [] = none
find_bet u k (b ∷ more) =
    if b.user_id == u && str_eq b.idempotency_key k then some b else find_bet u k more

unfoldable pub has_bet_id : ℕ → List Bet → Bool
has_bet_id i [] = false
has_bet_id i (b ∷ more) = b.id == i || has_bet_id i more

-- chk_bets_total_amount_positive and the column types.
unfoldable pub bet_row_ok : Bet → Bool
unfolding fits_bigint fits_varchar
bet_row_ok b =
    ltb_ℤ (pos 0) b.total_amount_minor
    && fits_bigint b.total_amount_minor
    && fits_varchar 120 b.idempotency_key

-- tx.bet.create({ data })
unfoldable pub create_bet : Bet → Tx Bet
create_bet b db =
    if bet_row_ok b
    then (if has_bet_id b.id db.bets || is_some (find_bet b.user_id b.idempotency_key db.bets)
        then err unique_violation
        else ok (b, record db { bets = b ∷ db.bets }))
    else err constraint_violation

-- The `items` of a bet: its rows of bet_items.
unfoldable pub items_of : ℕ → List BetItem → List BetItem
items_of i [] = []
items_of i (x ∷ more) = if x.bet_id == i then x ∷ items_of i more else items_of i more

-- The CHECK constraints of bet_items and its column type.
unfoldable pub bet_item_row_ok : BetItem → Bool
unfolding fits_bigint
bet_item_row_ok i =
    ltb_ℤ (pos 0) i.amount_minor
    && fits_bigint i.amount_minor
    && not (ltb_ℤ i.selection (pos 0))
    && leb_ℤ i.selection (selection_max i.category)

-- uq (bet_id, category, selection)
unfoldable pub has_bet_item : BetItem → List BetItem → Bool
has_bet_item i [] = false
has_bet_item i (x ∷ more) =
    (x.bet_id == i.bet_id && same_category x.category i.category && x.selection ==ℤ i.selection)
    || has_bet_item i more

-- tx.betItem.createMany({ data }): row by row, in one statement.
unfoldable pub create_bet_items : List BetItem → Tx (Unit {0})
create_bet_items [] db = ok (tt, db)
create_bet_items (i ∷ more) db =
    let rest = create_bet_items more (record db { bet_items = i ∷ db.bet_items }) in
    if bet_item_row_ok i
    then (if has_bet_item i db.bet_items then err unique_violation else rest)
    else err constraint_violation

-- pointsTransaction.findFirst({ where: { referenceType: 'bet_placed', referenceId } })
unfoldable pub find_bet_debit : ℕ → List PointsTransaction → Option PointsTransaction
find_bet_debit i [] = none
find_bet_debit i (t ∷ ts) =
    if same_ref_type t.reference_type bet_placed && same_option t.reference_id (some i)
    then some t
    else find_bet_debit i ts
