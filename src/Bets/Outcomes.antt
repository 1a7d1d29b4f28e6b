-- ===== src/Bets/Outcomes.antt =====
-- `placeBet` on every path: a bet is placed whole, or nothing is written.
use Prim.Native.String.{String}
use jito_india_game.Bets.Placement.{IsPlaced, run_placement_transaction-IsPlaced}
use jito_india_game.Bets.Service.{
  BetRequest, BetStamp, PlaceBetParams, PlaceBetResult, bet_matches, bet_recover, bet_replay,
  bet_reread_found, checked_request, place_bet, place_checked, place_found, replay_result,
  run_placement_transaction,
}
use jito_india_game.Database.{
  Bet, Db, Error, Outcome, Result, Result-cases, commit, err, ok, unique_violation,
}
use jito_india_game.Points.Ledger.{Others}
use jito_india_game.Points.Mutation.{WroteNothing}
use jito_india_game.Prelude.{
  Bool-cases, Option, false, inl, inr, none, refl, some, true, ℕ, ◌≡◌, ◌⊎◌,
}

module _ (uuid_text : ℕ → String) (others : Others) (stamp : BetStamp) where
  -- What a checked request did, by its answer.
  abbrev pub BetAccounts : BetRequest → Db → Outcome PlaceBetResult → Type 0
  BetAccounts q db (ok r, db') =
      (IsPlaced uuid_text stamp q (others.before_lock db) r db' × (r.replayed ≡ false))
      ⊎ (WroteNothing others db db' × (r.replayed ≡ true))
  BetAccounts q db (err e, db') = WroteNothing others db db'

  bet_replay-BetAccounts :
      (q : BetRequest) (b : Bet) (db seen : Db)
      → WroteNothing others db seen
      → BetAccounts q db (bet_replay b q seen, seen)
  unfolding bet_replay replay_result
  bet_replay-BetAccounts q b db seen w = elim (Bool-cases (bet_matches b q seen)) [
    | inl e ↦ rw e (inr (w, refl))
    | inr e ↦ rw e w
  ]

  bet_reread_found-BetAccounts :
      (q : BetRequest) (found : Option Bet) (db seen : Db)
      → WroteNothing others db seen
      → BetAccounts q db (bet_reread_found found q seen)
  bet_reread_found-BetAccounts q none db seen w = w
  bet_reread_found-BetAccounts q (some b) db seen w = bet_replay-BetAccounts q b db seen w

  bet_recover-BetAccounts :
      (q : BetRequest) (db : Db) (e : Error)
      → BetAccounts q db (bet_recover others q (err e, others.before_lock db))
  unfolding bet_recover
  bet_recover-BetAccounts q db unique_violation =
      bet_reread_found-BetAccounts q _ db _ (inr (inr refl))
  bet_recover-BetAccounts q db _ = inr (inl refl)

  place_found-BetAccounts :
      (found : Option Bet) (q : BetRequest) (db : Db)
      → BetAccounts q db (place_found uuid_text found others stamp q db)
  place_found-BetAccounts (some b) q db = bet_replay-BetAccounts q b db db (inl refl)
  place_found-BetAccounts none q db =
      elim (Result-cases (run_placement_transaction uuid_text stamp q (others.before_lock db))) [
        | inl (r, e) ↦
            let placed = run_placement_transaction-IsPlaced uuid_text stamp q _ e in
            rw (e, commit) (unfold bet_recover in inl (placed, rw placed.result))
        | inr (x, e) ↦ rw (e, commit) (bet_recover-BetAccounts q db x)
      ]

  -- By its answer: a request that the checks refuse has read and written nothing.
  abbrev pub PlaceAccounts : Result BetRequest → Db → Outcome PlaceBetResult → Type 0
  PlaceAccounts (ok q) db out = BetAccounts q db out
  PlaceAccounts (err e) db out = out ≡ (err e, db)

  place_checked-PlaceAccounts :
      (c : Result BetRequest) (db : Db)
      → PlaceAccounts c db (place_checked uuid_text c others stamp db)
  place_checked-PlaceAccounts (ok q) db = place_found-BetAccounts _ q db
  place_checked-PlaceAccounts (err e) db = refl

  -- A call of `placeBet` that answers with a new result has placed the checked request whole: round
  -- open and in time, balance sufficient, key new; bet, items, ledger row and balance written. One
  -- that replays or throws has written nothing, and one that the checks refuse throws their error.
  pub place_bet-PlaceAccounts :
      (p : PlaceBetParams) (db : Db)
      → PlaceAccounts (checked_request p) db (place_bet uuid_text others stamp p db)
  unfolding place_bet
  place_bet-PlaceAccounts p db = place_checked-PlaceAccounts (checked_request p) db
