-- ===== src/Bets/Replay.antt =====
-- Idempotency of bet placement: the same request, sent again, returns the bet that it placed.
use Prim.Native.String.{String}
use jito_india_game.Bets.Merging.{HasDistinctSelections}
use jito_india_game.Bets.Placement.{IsPlaced, with_bet}
use jito_india_game.Bets.Recorded.{IsOwned, items_match-add_items, items_of-with_bet}
use jito_india_game.Bets.Service.{
  BetRequest, BetStamp, PlaceBetResult, bet_ledger_ref, bet_matches, bet_replay, bet_row,
  placed_result, replay_result,
}
use jito_india_game.Bets.Tables.{find_bet, find_bet_debit, has_bet_id}
use jito_india_game.Database.{Bet, Db, PointsAccount, PointsTransaction, bet_placed, debit, ok}
use jito_india_game.Points.Ledger.{ledger_row, to_result}
use jito_india_game.Points.Ledger.Steps.{locked_on, posted}
use jito_india_game.Prelude.{
  All, Bool-cases, List, ap, arith, false, inl, inr, refl, some, sym, true, ℕ, ◌∙◌, ◌∷◌, ◌≡◌,
}
use mathlib.Core.Path.{subst}
use text.Mathlib.TextPositions.{eq_refl}

-- The tables hold the bet that `r` reports, and it answers to the request.
pub record IsBetRecorded (q : BetRequest) (r : PlaceBetResult) (db : Db) : Type 0 where
  pub bet : Bet
  pub found : find_bet q.user_id q.key db.bets ≡ some bet
  pub matches : bet_matches bet q db ≡ true
  pub reported : record r { replayed = true } ≡ replay_result bet db

pub bet_replay-IsBetRecorded :
    (q : BetRequest) (b : Bet) (db : Db) {r : PlaceBetResult}
    → find_bet q.user_id q.key db.bets ≡ some b
    → bet_replay b q db ≡ ok r
    → IsBetRecorded q r db
unfolding bet_replay replay_result
bet_replay-IsBetRecorded q b db {r} found h = elim (Bool-cases (bet_matches b q db)) [
  | inl e ↦ record { bet = b; found = found; matches = e; reported = ground arith }
  | inr e ↦ absurd (ground arith)
]

find_bet-cons_self :
    (b : Bet) (bets : List Bet) → find_bet b.user_id b.idempotency_key (b ∷ bets) ≡ some b
unfolding find_bet
find_bet-cons_self b bets = ground (arith, eq_refl b.idempotency_key)

find_bet_debit-cons_self :
    (i : ℕ) (t : PointsTransaction) (ts : List PointsTransaction)
    → t.reference_type ≡ bet_placed
    → t.reference_id ≡ some i
    → find_bet_debit i (t ∷ ts) ≡ some t
unfolding find_bet_debit
find_bet_debit-cons_self i t ts h k = ground arith

module _ (uuid_text : ℕ → String) (stamp : BetStamp) (q : BetRequest) (db : Db)
    (distinct : HasDistinctSelections q.merged) (owned : All (IsOwned db.bets) db.bet_items)
    (new_id : has_bet_id stamp.bet_uuid db.bets ≡ false) where
  bet_matches-with_bet : bet_matches (bet_row stamp q) q (with_bet stamp q db) ≡ true
  unfolding bet_matches
  bet_matches-with_bet =
      rw
        (
          items_of-with_bet stamp.bet_uuid db.bets q.merged db.bet_items new_id owned,
          items_match-add_items stamp.bet_uuid q.merged distinct,
        )
        (ground arith)

  posted-IsBetRecorded :
      (a : PointsAccount)
      → let row =
          ledger_row stamp.ledger (locked_on debit q.total a) (bet_ledger_ref uuid_text stamp q) in
        IsBetRecorded q (placed_result uuid_text stamp q (bet_row stamp q) (to_result row false)) (
          posted stamp.ledger
            (locked_on debit q.total a)
            (bet_ledger_ref uuid_text stamp q)
            (with_bet stamp q db))
  unfolding replay_result to_result
  posted-IsBetRecorded a = record {
    bet = bet_row stamp q;
    found = find_bet-cons_self (bet_row stamp q) db.bets;
    matches = unfold bet_matches in bet_matches-with_bet;
    reported = rw (
        find_bet_debit-cons_self stamp.bet_uuid
          (ledger_row stamp.ledger (locked_on debit q.total a) (bet_ledger_ref uuid_text stamp q))
          db.transactions refl refl);
  }

  pub IsPlaced-IsBetRecorded :
      {r : PlaceBetResult} {db' : Db} → IsPlaced uuid_text stamp q db r db' → IsBetRecorded q r db'
  IsPlaced-IsBetRecorded {r} {db'} m =
      let applied = m.debit_applied in
      let same : r
          ≡ placed_result uuid_text stamp q (bet_row stamp q) (
              to_result
                (ledger_row stamp.ledger (locked_on debit q.total applied.account)
                  (bet_ledger_ref uuid_text stamp q))
                false) =
        m.result ∙ ap (placed_result uuid_text stamp q (bet_row stamp q)) applied.result in
      subst (λ x. IsBetRecorded q r x) (sym applied.tables)
        (subst
          (λ x. IsBetRecorded q x (
            posted stamp.ledger (locked_on debit q.total applied.account)
              (bet_ledger_ref uuid_text stamp q) (with_bet stamp q db)))
          (sym same) (posted-IsBetRecorded applied.account))
