-- ===== src/Rounds/Numbering.antt =====
-- The rounds of a game are numbered without gaps, also when engines race.
use jito_india_game.Database.{Db, GameId, GameRound, Result-cases, commit, ok}
use jito_india_game.Prelude.{
  Bool-cases, Option, any, ap, arith, false, inl, inr, length, none, some, sym, ℕ, ◌+◌, ◌∷◌, ◌≡◌,
  ◌≤◌,
}
use jito_india_game.Rounds.{
  Races, RoundStamp, clashes, create_round, created_or_lost, find_live_round, is_created,
  is_lockable, next_round_number, reconcile, reconcile_found, round_row, try_create_round,
}
use jito_india_game.Rounds.Numbers.{
  IsCountdown, IsNumbered, KeepsNumbers, cons-IsNumbered, lock-numbers, max_round_number-eq-length,
  next_number, numbers, open_round-numbers,
}
use jito_india_game.Rounds.Reconciled.{created_or_lost-tables}
use mathlib.Core.Path.{subst}

create_round-IsNumbered :
    (r r' : GameRound) (old : ℕ) (db db' : Db)
    → IsNumbered db.rounds
    → r.round_number ≡ old + 1
    → old ≤ length (numbers r.game_id db.rounds)
    → create_round r db ≡ ok (r', db')
    → IsNumbered db'.rounds
unfolding create_round
create_round-IsNumbered r r' old db db' h number grown made =
    let same : db' ≡ record db { rounds = r ∷ db.rounds } = ground arith in
    let fresh : any (clashes r) db.rounds ≡ false = ground arith in
    subst (λ (x : Db). IsNumbered x.rounds) (sym same)
      (cons-IsNumbered r db.rounds h (next_number r old db.rounds h number grown fresh))

module _ (races : Races) (window now : ℕ) (stamp : RoundStamp) (game : GameId)
    (before_act : KeepsNumbers races.before_act)
    (before_insert : KeepsNumbers races.before_insert) where
  try_create_round-IsNumbered :
      (db : Db)
      → IsNumbered db.rounds
      → IsNumbered (try_create_round races.before_insert window stamp game db).1.rounds
  unfolding try_create_round created_or_lost next_round_number
  try_create_round-IsNumbered db h =
      let mid = races.before_insert db in
      let kept = before_insert db h in
      let row = round_row window stamp game (next_round_number game db.rounds) in
      elim (Result-cases (create_round row mid)) [
        | inl ((r, db'), e) ↦
            rw (e, commit)
              (create_round-IsNumbered row r (length (numbers game db.rounds)) mid db' kept.0
                (ap (λ n. n + 1) (max_round_number-eq-length game db.rounds (h game))) (kept.1 game)
                e)
        | inr (x, e) ↦ rw (e, commit, created_or_lost-tables x mid) kept.0
      ]

  reconcile_found-IsNumbered :
      (o : Option GameRound) (db : Db)
      → IsNumbered db.rounds
      → IsNumbered (reconcile_found o races window now stamp game db).rounds
  reconcile_found-IsNumbered none db h =
      try_create_round-IsNumbered (races.before_act db) (before_act db h).0
  reconcile_found-IsNumbered (some r) db h =
      let mid = races.before_act db in
      let kept = (before_act db h).0 in
      elim (Bool-cases (is_created r.state)) [
        | inl e ↦ rw e (λ g. subst IsCountdown (sym (open_round-numbers g r.id mid)) (kept g))
        | inr e ↦ elim (Bool-cases (is_lockable r.state)) [
          | inl f ↦ rw (e, f) (λ g. subst IsCountdown (sym (lock-numbers g now r.id mid)) (kept g))
          | inr f ↦ rw (e, f) h
        ]
      ]

  -- If other writers keep the numbering and take no round away, a call of `reconcile` keeps it: the
  -- rounds of every game are numbered 1, 2, 3 and so on, without a gap, whatever is committed
  -- between its read of the largest number and its insert.
  pub reconcile-IsNumbered :
      (db : Db)
      → IsNumbered db.rounds
      → IsNumbered (reconcile races window now stamp game db).rounds
  unfolding reconcile
  reconcile-IsNumbered db h = reconcile_found-IsNumbered (find_live_round game db.rounds) db h
