-- ===== src/Rounds/Betting.antt =====
-- The engine's locks against bet placement: both go by the same round row and the same clock.
use Prim.Native.String.{String}
use jito_india_game.Bets.{
  BetRequest, BetStamp, accepts_bets, find_round, lock_round, run_placement_transaction, same_game,
}
use jito_india_game.Database.{
  Db, Error, GameRound, bind-err, err, round_mismatch, round_not_accepting,
}
use jito_india_game.Prelude.{
  Bool-cases, List, [], ap, arith, false, inl, inr, leb, refl, some, true, ℕ, ◌==◌, ◌∷◌, ◌≡◌, ◌⊎◌,
}
use jito_india_game.Rounds.{
  is_lockable, lock_if_deadline_passed, locked, selects_lock, update_where,
}

find_round-lock :
    (now i : ℕ) (rs : List GameRound) {r : GameRound}
    → find_round i rs ≡ some r
    → is_lockable r.state ≡ true
    → leb r.betting_deadline now ≡ true
    → find_round i (update_where (selects_lock now i) (locked now) rs) ≡ some (locked now r)
unfolding find_round update_where
find_round-lock now i [] found lockable due = absurd (ground arith)
find_round-lock now i (x ∷ rs) {r} found lockable due = elim (Bool-cases (x.id == i)) [
  | inl e ↦
      let same : x ≡ r = ground arith in
      let selected : selects_lock now i x ≡ true = rw (e, same, lockable, due) refl in
      rw (selected, e) (ap (λ y. some (locked now y)) same)
  | inr e ↦ rw (e, e) (find_round-lock now i rs {r = r} (rw e at found) lockable due)
]

-- A bet on a round that takes none is refused under the round lock.
lock_round-refuses :
    (now : ℕ) (q : BetRequest) (db : Db) {r : GameRound}
    → find_round q.round_id db.rounds ≡ some r
    → accepts_bets r.state ≡ false
    → (lock_round now q db ≡ err round_mismatch) ⊎ (lock_round now q db ≡ err round_not_accepting)
unfolding lock_round
lock_round-refuses now q db {r} found closed = elim (Bool-cases (same_game r.game_id q.game_id)) [
  | inl e ↦ inr (rw (found, e, closed) refl)
  | inr e ↦ inl (rw (found, e) refl)
]

refused_placement :
    (uuid_text : ℕ → String) (stamp : BetStamp) (q : BetRequest) (db : Db) {x : Error}
    → lock_round stamp.ledger.now q db ≡ err x
    → run_placement_transaction uuid_text stamp q db ≡ err x
unfolding run_placement_transaction
refused_placement uuid_text stamp q db h = bind-err (lock_round stamp.ledger.now q) _ db h

-- Once the engine has locked a round whose deadline has passed, the transaction of a bet on it
-- fails, with a mismatch of the game or because the round takes no bets.
pub run_placement_transaction-lock :
    (uuid_text : ℕ → String) (stamp : BetStamp) (q : BetRequest) (now : ℕ) (db : Db) {r : GameRound}
    → find_round q.round_id db.rounds ≡ some r
    → is_lockable r.state ≡ true
    → leb r.betting_deadline now ≡ true
    → (run_placement_transaction uuid_text stamp q (lock_if_deadline_passed now q.round_id db).1
        ≡ err round_mismatch)
      ⊎ (run_placement_transaction uuid_text stamp q (lock_if_deadline_passed now q.round_id db).1
          ≡ err round_not_accepting)
unfolding lock_if_deadline_passed
run_placement_transaction-lock uuid_text stamp q now db found lockable due =
    let after = (lock_if_deadline_passed now q.round_id db).1 in
    let kept = find_round-lock now q.round_id db.rounds found lockable due in
    elim (lock_round-refuses stamp.ledger.now q after kept refl) [
      | inl e ↦ inl (refused_placement uuid_text stamp q after e)
      | inr e ↦ inr (refused_placement uuid_text stamp q after e)
    ]
