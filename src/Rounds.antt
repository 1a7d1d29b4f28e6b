-- ===== src/Rounds.antt =====
-- services/game-engine/src/rounds: rounds.service.ts, with display-code.ts, over game_rounds. The
-- log lines are left out. `opensAt` is the host's clock, `locked_at` PostgreSQL's.
pub mod Steps
pub mod Reconciled
pub mod Progress
pub mod Betting
pub mod Numbers
pub mod Numbering
use text.Mathlib.Text.{◌==◌ as str_eq}
use Prim.Native.String
use Prim.Native.String.{String}
use jito_india_game.Bets.{same_game}
use jito_india_game.Database.{
  Db, GameId, GameRound, Outcome, RoundState, Tx, betting_active, betting_locked, betting_open,
  constraint_violation, err, ok, round_completed, round_created, round_void, transaction,
  triple_chance_pro_timer, triple_chance_timer, unique_violation,
}
use jito_india_game.Database.Statements.{fits_bigint, fits_varchar}
use jito_india_game.Prelude.{
  Bool, List, Option, [], any, false, if◌then◌else◌, leb, ltb, none, some, suc, true, zero, ℕ, ◌%◌,
  ◌&&◌, ◌+◌, ◌/◌, ◌==◌, ◌||◌, ◌∷◌,
}
use jito_india_game.Prelude.Int.{pos}

-- TERMINAL_STATES, as the test that the states of live rounds pass.
abbrev pub is_live : RoundState → Bool
is_live round_completed = false
is_live round_void = false
is_live _ = true

abbrev pub is_created : RoundState → Bool
is_created round_created = true
is_created _ = false

-- LOCKABLE_STATES
abbrev pub is_lockable : RoundState → Bool
is_lockable betting_open = true
is_lockable betting_active = true
is_lockable _ = false

abbrev pub game_display_prefix : GameId → String
game_display_prefix triple_chance_timer = "TC"
game_display_prefix triple_chance_pro_timer = "TCP"

abbrev pub digit : ℕ → String
digit n = String.slice "0123456789" n (n + 1)

-- The decimal digits of a number below 10 ^ fuel.
unfoldable pub decimal_from : ℕ → ℕ → String
decimal_from zero n = ""
decimal_from (suc fuel) n =
    let front = decimal_from fuel (n / 10) in
    if ltb n 10 then digit n else String.◌++◌ front (digit (n % 10))

-- `roundNumber.toString()`: a BIGINT has at most 19 digits.
unfoldable pub decimal : ℕ → String
unfolding decimal_from
decimal n = decimal_from 19 n

unfoldable pub generate_display_code : GameId → ℕ → String
generate_display_code g n = String.◌++◌ (game_display_prefix g) (decimal n)

-- The larger round number of two.
abbrev pub later_round : GameRound → Option GameRound → Option GameRound
later_round r none = some r
later_round r (some s) = if ltb r.round_number s.round_number then some s else some r

-- gameRound.findFirst({ where: { gameId, state: { notIn } }, orderBy: { roundNumber: 'desc' } })
unfoldable pub find_live_round : GameId → List GameRound → Option GameRound
find_live_round g [] = none
find_live_round g (r ∷ more) =
    let rest = find_live_round g more in
    if same_game r.game_id g && is_live r.state then later_round r rest else rest

-- `_max.roundNumber ?? 0n`
unfoldable pub max_round_number : GameId → List GameRound → ℕ
max_round_number g [] = 0
max_round_number g (r ∷ more) =
    let rest = max_round_number g more in
    if same_game r.game_id g && ltb rest r.round_number then r.round_number else rest

unfoldable pub next_round_number : GameId → List GameRound → ℕ
next_round_number g rounds = max_round_number g rounds + 1

-- The primary key and the UNIQUE indexes: display_code, (game_id, round_number), and game_id among
-- the live rounds (uq_rounds_one_live_per_game).
abbrev pub clashes : GameRound → GameRound → Bool
clashes r s =
    r.id == s.id
    || str_eq r.display_code s.display_code
    || (same_game r.game_id s.game_id && r.round_number == s.round_number)
    || (same_game r.game_id s.game_id && is_live r.state && is_live s.state)

-- gameRound.create({ data }): round_number is a BIGINT, display_code a VARCHAR(20).
unfoldable pub create_round : GameRound → Tx GameRound
unfolding fits_bigint fits_varchar
create_round r db =
    if fits_bigint (pos r.round_number) && fits_varchar 20 r.display_code
    then (if any (clashes r) db.rounds
        then err unique_violation
        else ok (r, record db { rounds = r ∷ db.rounds }))
    else err constraint_violation

-- The row's gen_random_uuid(), and `new Date()` of the host.
pub record RoundStamp : Type 0 where
  pub uuid : ℕ
  pub opens_at : ℕ

abbrev pub round_row : ℕ → RoundStamp → GameId → ℕ → GameRound
round_row window stamp g n = record {
  id = stamp.uuid;
  game_id = g;
  round_number = n;
  display_code = generate_display_code g n;
  state = round_created;
  state_version = 0;
  opens_at = stamp.opens_at;
  betting_deadline = stamp.opens_at + window;
  locked_at = none;
}

-- `null` where another writer created the round first.
unfoldable pub created_or_lost : Outcome GameRound → Outcome (Option GameRound)
created_or_lost (ok r, db) = (ok (some r), db)
created_or_lost (err unique_violation, db) = (ok none, db)
created_or_lost (err e, db) = (err e, db)

-- `between` is what other writers commit after the number is read and before the row is inserted.
unfoldable pub try_create_round :
    (Db → Db) → ℕ → RoundStamp → GameId → Db → Outcome (Option GameRound)
try_create_round between window stamp g db = created_or_lost (
    transaction (create_round (round_row window stamp g (next_round_number g db.rounds)))
      (between db))

-- The rounds that a conditional UPDATE selects, changed, and their number.
unfoldable pub update_where :
    (GameRound → Bool) → (GameRound → GameRound) → List GameRound → List GameRound
update_where p f [] = []
update_where p f (r ∷ more) = (if p r then f r else r) ∷ update_where p f more

abbrev pub selects_open : ℕ → GameRound → Bool
selects_open i r = r.id == i && is_created r.state

abbrev pub opened : GameRound → GameRound
opened r = record r { state = betting_open; state_version = r.state_version + 1 }

unfoldable pub open_round : ℕ → Db → Bool × Db
open_round i db = (
  any (selects_open i) db.rounds,
  record db { rounds = update_where (selects_open i) opened db.rounds },
)

abbrev pub selects_lock : ℕ → ℕ → GameRound → Bool
selects_lock now i r = r.id == i && is_lockable r.state && leb r.betting_deadline now

abbrev pub locked : ℕ → GameRound → GameRound
locked now r = record r {
  state = betting_locked;
  state_version = r.state_version + 1;
  locked_at = some now;
}

-- The raw UPDATE, with `now()` of the database.
unfoldable pub lock_if_deadline_passed : ℕ → ℕ → Db → Bool × Db
lock_if_deadline_passed now i db = (
  any (selects_lock now i) db.rounds,
  record db { rounds = update_where (selects_lock now i) (locked now) db.rounds },
)

-- What other writers commit during a step: after the live round is read, and, where a round is
-- created, after its number is read.
pub record Races : Type 0 where
  pub before_act : Db → Db
  pub before_insert : Db → Db

-- One step on the live round that was read.
abbrev pub advance : Races → ℕ → GameRound → Db → Db
advance races now r db =
    if is_created r.state
    then (open_round r.id (races.before_act db)).1
    else (if is_lockable r.state
        then (lock_if_deadline_passed now r.id (races.before_act db)).1
        else db)

abbrev pub reconcile_found : Option GameRound → Races → ℕ → ℕ → RoundStamp → GameId → Db → Db
reconcile_found (some r) races window now stamp g db = advance races now r db
reconcile_found none races window now stamp g db =
    (try_create_round races.before_insert window stamp g (races.before_act db)).1

-- `reconcile`: what it leaves in the tables. An error other than P2002 is thrown on, and has
-- written nothing.
unfoldable pub reconcile : Races → ℕ → ℕ → RoundStamp → GameId → Db → Db
reconcile races window now stamp g db =
    reconcile_found (find_live_round g db.rounds) races window now stamp g db
