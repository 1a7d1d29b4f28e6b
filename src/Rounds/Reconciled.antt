-- ===== src/Rounds/Reconciled.antt =====
-- The reconciling step as a whole.
use jito_india_game.Database.{
  Db, Error, GameId, GameRound, Result-cases, commit, err, ok, round_created, unique_violation,
}
use jito_india_game.Prelude.{
  Bool-cases, Option, any, arith, false, inl, inr, none, refl, some, ℕ, ◌∷◌, ◌≡◌, ◌⊎◌,
}
use jito_india_game.Rounds.{
  Races, RoundStamp, clashes, create_round, created_or_lost, find_live_round, is_created,
  is_lockable, lock_if_deadline_passed, next_round_number, open_round, reconcile, reconcile_found,
  round_row, try_create_round,
}
use jito_india_game.Rounds.Steps.{
  HasNoClash, RoundStep, RoundStep-HasNoClash, creates, lock-RoundStep, open_round-RoundStep, stays,
}

-- The tables that the step's write met: those it started from, or what other writers left.
abbrev pub IsMet : Races → Db → Db → Type 0
IsMet races db mid =
    (mid ≡ db) ⊎ (mid ≡ races.before_act db) ⊎ (mid ≡ races.before_insert (races.before_act db))

-- A step changed the rounds of the tables it met by one legal change at most, and nothing else.
pub record IsOneStep (races : Races) (now : ℕ) (db db' : Db) : Type 0 where
  pub met : Db
  pub seen : IsMet races db met
  pub step : RoundStep now met.rounds db'.rounds
  pub rest : db' ≡ record met { rounds = db'.rounds }

-- What other writers commit keeps the indexes.
abbrev pub KeepsRounds : (Db → Db) → Type 0
KeepsRounds f = (db : Db) → HasNoClash db.rounds → HasNoClash (f db).rounds

create_round-ok :
    (now : ℕ) (r r' : GameRound) (db db' : Db)
    → r.state ≡ round_created
    → r.state_version ≡ 0
    → r.locked_at ≡ none
    → create_round r db ≡ ok (r', db')
    → RoundStep now db.rounds db'.rounds × (db' ≡ record db { rounds = db'.rounds })
unfolding create_round
create_round-ok now r r' db db' created version unlocked h =
    let same : db' ≡ record db { rounds = r ∷ db.rounds } = ground arith in
    let fresh : any (clashes r) db.rounds ≡ false = ground arith in
    rw same (creates r db.rounds created version unlocked fresh, refl)

pub created_or_lost-tables : (x : Error) (db : Db) → (created_or_lost (err x, db)).1 ≡ db
unfolding created_or_lost
created_or_lost-tables unique_violation db = refl
created_or_lost-tables _ db = refl

module _ (races : Races) (window now : ℕ) (stamp : RoundStamp) (g : GameId)
    (before_act : KeepsRounds races.before_act)
    (before_insert : KeepsRounds races.before_insert) where
  stays-IsOneStep : (db mid : Db) → IsMet races db mid → IsOneStep races now db mid
  stays-IsOneStep db mid seen = record {
    met = mid;
    seen = seen;
    step = stays mid.rounds;
    rest = refl;
  }

  try_create_round-IsOneStep :
      (db : Db)
      → IsOneStep races now db
          (try_create_round races.before_insert window stamp g (races.before_act db)).1
  unfolding try_create_round created_or_lost
  try_create_round-IsOneStep db =
      let start = races.before_act db in
      let mid = races.before_insert start in
      let row = round_row window stamp g (next_round_number g start.rounds) in
      elim (Result-cases (create_round row mid)) [
        | inl ((r, db'), e) ↦
            let (step, rest) = create_round-ok now row r mid db' refl refl refl e in
            rw (e, commit) (record { met = mid; seen = inr (inr refl); step = step; rest = rest })
        | inr (x, e) ↦
            rw (e, commit, created_or_lost-tables x mid) (stays-IsOneStep db mid (inr (inr refl)))
      ]

  reconcile_found-IsOneStep :
      (o : Option GameRound) (db : Db)
      → HasNoClash db.rounds
      → IsOneStep races now db (reconcile_found o races window now stamp g db)
  reconcile_found-IsOneStep none db h = try_create_round-IsOneStep db
  reconcile_found-IsOneStep (some r) db h =
      let mid = races.before_act db in
      let kept = before_act db h in
      elim (Bool-cases (is_created r.state)) [
        | inl e ↦ rw e (record {
          met = mid;
          seen = inr (inl refl);
          step = open_round-RoundStep now r.id mid kept;
          rest = unfold open_round in refl;
        })
        | inr e ↦ elim (Bool-cases (is_lockable r.state)) [
          | inl f ↦
              rw (e, f)
                (record {
                  met = mid;
                  seen = inr (inl refl);
                  step = lock-RoundStep now r.id mid kept;
                  rest = unfold lock_if_deadline_passed in refl;
                })
          | inr f ↦ rw (e, f) (stays-IsOneStep db db (inl refl))
        ]
      ]

  -- Whatever other writers commit during it, as long as they keep the unique indexes, a call of
  -- `reconcile` makes one legal change at most: it adds a created round of version 0 that was never locked, opens a
  -- created one, or locks an accepting one whose deadline has passed, with the time of it; these two raise its
  -- version by one. Everything else in the tables stays as the other writers left it.
  pub reconcile-IsOneStep :
      (db : Db)
      → HasNoClash db.rounds
      → IsOneStep races now db (reconcile races window now stamp g db)
  unfolding reconcile
  reconcile-IsOneStep db h = reconcile_found-IsOneStep (find_live_round g db.rounds) db h

  met-HasNoClash : (db mid : Db) → HasNoClash db.rounds → IsMet races db mid → HasNoClash mid.rounds
  met-HasNoClash db mid h (inl e) = rw e h
  met-HasNoClash db mid h (inr (inl e)) = rw e (before_act db h)
  met-HasNoClash db mid h (inr (inr e)) = rw e (before_insert _ (before_act db h))

  -- If other writers keep the unique indexes of game_rounds, a call of `reconcile` keeps them: one
  -- live round of a game at most, and distinct identifiers, numbers and display codes.
  pub reconcile-HasNoClash :
      (db : Db) → HasNoClash db.rounds → HasNoClash (reconcile races window now stamp g db).rounds
  reconcile-HasNoClash db h =
      let m = reconcile-IsOneStep db h in
      RoundStep-HasNoClash now m.step (met-HasNoClash db m.met h m.seen)
