-- ===== src/Rounds/Progress.antt =====
-- A created round is opened and then locked.
use jito_india_game.Bets.{same_game}
use jito_india_game.Database.{Db, GameId, GameRound, betting_locked}
use jito_india_game.Prelude.{
  Bool, Bool-cases, List, Option, [], arith, false, if◌then◌else◌, inl, inr, leb, ltb, none, refl,
  some, sym, true, ℕ, ◌&&◌, ◌+◌, ◌∷◌, ◌≡◌,
}
use jito_india_game.Rounds.{
  Races, RoundStamp, find_live_round, is_created, is_live, is_lockable, later_round,
  lock_if_deadline_passed, locked, open_round, opened, reconcile, selects_lock, selects_open,
  update_where,
}
use jito_india_game.Rounds.Steps.{created_is_live, lockable_is_live}

-- The change of the rounds that an UPDATE selects.
abbrev changed : (GameRound → Bool) → (GameRound → GameRound) → GameRound → GameRound
changed p f r = if p r then f r else r

-- An UPDATE that keeps game, number and liveness keeps which round is the live one.
record KeepsPlace (p : GameRound → Bool) (f : GameRound → GameRound) : Type 0 where
  game : (r : GameRound) → (changed p f r).game_id ≡ r.game_id
  number : (r : GameRound) → (changed p f r).round_number ≡ r.round_number
  live : (r : GameRound) → is_live (changed p f r).state ≡ is_live r.state

map_option : (GameRound → GameRound) → Option GameRound → Option GameRound
map_option f none = none
map_option f (some r) = some (f r)

later_round-changed :
    (p : GameRound → Bool) (f : GameRound → GameRound) (r : GameRound) (o : Option GameRound)
    → KeepsPlace p f
    → later_round (changed p f r) (map_option (changed p f) o)
      ≡ map_option (changed p f) (later_round r o)
unfolding map_option
later_round-changed p f r none k = refl
later_round-changed p f r (some s) k = elim (Bool-cases (ltb r.round_number s.round_number)) [
  | inl e ↦ rw (k.number r, k.number s, e) refl
  | inr e ↦ rw (k.number r, k.number s, e) refl
]

find_live_round-update_where :
    (p : GameRound → Bool) (f : GameRound → GameRound) (g : GameId) (rs : List GameRound)
    → KeepsPlace p f
    → find_live_round g (update_where p f rs) ≡ map_option (changed p f) (find_live_round g rs)
unfolding find_live_round update_where
find_live_round-update_where p f g [] k = unfold map_option in refl
find_live_round-update_where p f g (r ∷ rs) k =
    elim (Bool-cases (same_game r.game_id g && is_live r.state)) [
      | inl e ↦
          rw (k.game, k.live, e, find_live_round-update_where p f g rs k)
            (later_round-changed p f r (find_live_round g rs) k)
      | inr e ↦ rw (k.game, k.live, e) (find_live_round-update_where p f g rs k)
    ]

opened-KeepsPlace : (i : ℕ) → KeepsPlace (selects_open i) opened
opened-KeepsPlace i = record {
  game = λ r. elim (Bool-cases (selects_open i r)) [ inl e ↦ rw e refl | inr e ↦ rw e refl ];
  number = λ r. elim (Bool-cases (selects_open i r)) [ inl e ↦ rw e refl | inr e ↦ rw e refl ];
  live = λ r. elim (Bool-cases (selects_open i r)) [
    | inl e ↦ rw e (sym (created_is_live r.state (ground arith)))
    | inr e ↦ rw e refl
  ];
}

locked-KeepsPlace : (now i : ℕ) → KeepsPlace (selects_lock now i) (locked now)
locked-KeepsPlace now i = record {
  game = λ r. elim (Bool-cases (selects_lock now i r)) [ inl e ↦ rw e refl | inr e ↦ rw e refl ];
  number = λ r. elim (Bool-cases (selects_lock now i r)) [ inl e ↦ rw e refl | inr e ↦ rw e refl ];
  live = λ r. elim (Bool-cases (selects_lock now i r)) [
    | inl e ↦ rw e (sym (lockable_is_live r.state (ground arith)))
    | inr e ↦ rw e refl
  ];
}

-- No other writer commits.
abbrev pub undisturbed : Races
undisturbed = record { before_act = λ db. db; before_insert = λ db. db }

pub reconcile_opens :
    (window now : ℕ) (stamp : RoundStamp) (g : GameId) (db : Db) {r : GameRound}
    → find_live_round g db.rounds ≡ some r
    → is_created r.state ≡ true
    → find_live_round g (reconcile undisturbed window now stamp g db).rounds ≡ some (opened r)
unfolding reconcile open_round map_option
reconcile_opens window now stamp g db {r} found created =
    let selected : selects_open r.id r ≡ true = ground arith in
    rw
      (
        found,
        created,
        find_live_round-update_where (selects_open r.id) opened g db.rounds
            (opened-KeepsPlace r.id),
        found,
      )
      (rw selected refl)

pub reconcile_locks :
    (window now : ℕ) (stamp : RoundStamp) (g : GameId) (db : Db) {r : GameRound}
    → find_live_round g db.rounds ≡ some r
    → is_created r.state ≡ false
    → is_lockable r.state ≡ true
    → leb r.betting_deadline now ≡ true
    → find_live_round g (reconcile undisturbed window now stamp g db).rounds ≡ some (locked now r)
unfolding reconcile lock_if_deadline_passed map_option
reconcile_locks window now stamp g db {r} found other lockable due =
    let selected : selects_lock now r.id r ≡ true = ground arith in
    rw
      (
        found,
        other,
        lockable,
        find_live_round-update_where (selects_lock now r.id) (locked now) g db.rounds
            (locked-KeepsPlace now r.id),
        found,
      )
      (rw selected refl)

-- With no other writer, two steps of the engine take a created round to locked, once its deadline
-- has passed at the second: it is opened and then locked, still the live round of its game, with
-- the time of the lock and a version raised by two; nothing else of the row has changed.
pub reconcile_reaches_locked :
    (window then_now now : ℕ) (stamp stamp' : RoundStamp) (g : GameId) (db : Db) {r : GameRound}
    → find_live_round g db.rounds ≡ some r
    → is_created r.state ≡ true
    → leb r.betting_deadline now ≡ true
    → find_live_round g
        (reconcile undisturbed window now stamp' g
          (reconcile undisturbed window then_now stamp g db)).rounds
      ≡ some (record r {
        state = betting_locked;
        state_version = r.state_version + 1 + 1;
        locked_at = some now;
      })
reconcile_reaches_locked window then_now now stamp stamp' g db {r} found created due =
    reconcile_locks window now stamp' g _ (reconcile_opens window then_now stamp g db found created)
      refl refl due
