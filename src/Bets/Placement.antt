-- ===== src/Bets/Placement.antt =====
-- What a placement that went through has read and written.
use Prim.Native.String.{String}
use jito_india_game.Bets.Service.{
  BetRequest, BetStamp, PlaceBetResult, accepts_bets, bet_ledger_ref, bet_row, item_rows,
  lock_round, placed_result, run_placement_transaction, same_game,
}
use jito_india_game.Bets.Tables.{create_bet, create_bet_items, find_bet, find_round, has_bet_id}
use jito_india_game.Database.{
  Bet, BetItem, Db, GameId, GameRound, Result, bind-eq-ok, debit, ok, triple_chance_pro_timer,
  triple_chance_timer,
}
use jito_india_game.Points.Ledger.{
  LedgerMutationResult, LockedAccountMutation, commit_mutation, lock_and_validate_account,
}
use jito_india_game.Points.Ledger.Steps.{
  IsApplied, IsCommitted, IsLocked, commit-IsCommitted, commit_after_lock, lock-IsLocked,
}
use jito_india_game.Prelude.{
  List, Option-cases, [], arith, false, inl, inr, none, refl, some, true, ℕ, ◌<◌, ◌∙◌, ◌∷◌, ◌≡◌,
}
use mathlib.Core.Path.{subst}

unfoldable pub add_items : List BetItem → List BetItem → List BetItem
add_items [] items = items
add_items (i ∷ more) items = add_items more (i ∷ items)

-- The tables with the bet and its items, before the debit is written.
abbrev pub with_bet : BetStamp → BetRequest → Db → Db
with_bet stamp q db = record db {
  bets = bet_row stamp q ∷ db.bets;
  bet_items = add_items (item_rows stamp.bet_uuid q.merged) db.bet_items;
}

pub record IsRoundOpen (now : ℕ) (q : BetRequest) (db : Db) (round : GameRound) : Type 0 where
  pub found : find_round q.round_id db.rounds ≡ some round
  pub game : round.game_id ≡ q.game_id
  pub accepting : accepts_bets round.state ≡ true
  pub in_time : now < round.betting_deadline

same_game-eq : (a b : GameId) → same_game a b ≡ true → a ≡ b
same_game-eq triple_chance_timer triple_chance_timer h = refl
same_game-eq triple_chance_pro_timer triple_chance_pro_timer h = refl
same_game-eq triple_chance_timer triple_chance_pro_timer h = absurd (ground arith)
same_game-eq triple_chance_pro_timer triple_chance_timer h = absurd (ground arith)

pub lock_round-IsRoundOpen :
    (now : ℕ) (q : BetRequest) (db : Db) {round : GameRound} {db' : Db}
    → lock_round now q db ≡ ok (round, db')
    → IsRoundOpen now q db round × (db' ≡ db)
unfolding lock_round
lock_round-IsRoundOpen now q db {round} {db'} h =
    elim (Option-cases (find_round q.round_id db.rounds)) [
      | inl e ↦ absurd (ground arith)
      | inr (x, e) ↦
          let same : x ≡ round = ground arith in
          (
            subst (IsRoundOpen now q db) same (record {
              found = e;
              game = same_game-eq x.game_id q.game_id (ground arith);
              accepting = ground arith;
              in_time = ground arith;
            }),
            ground arith,
          )
    ]

create_bet-ok :
    (b : Bet) (db : Db) {row : Bet} {db' : Db}
    → create_bet b db ≡ ok (row, db')
    → (find_bet b.user_id b.idempotency_key db.bets ≡ none)
      × (has_bet_id b.id db.bets ≡ false)
      × (row ≡ b)
      × (db' ≡ record db { bets = b ∷ db.bets })
unfolding create_bet
create_bet-ok b db h = ground arith

create_bet_items-ok :
    (rows : List BetItem) (db : Db) {u : Unit {0}} {db' : Db}
    → create_bet_items rows db ≡ ok (u, db')
    → db' ≡ record db { bet_items = add_items rows db.bet_items }
unfolding create_bet_items add_items
create_bet_items-ok [] db h = ground arith
create_bet_items-ok (i ∷ more) db {u} {db'} h =
    create_bet_items-ok more (record db { bet_items = i ∷ db.bet_items }) {u = u} (ground arith)

-- A bet that was placed: the round was open, the account covered the total, the key was new; the
-- bet, its items, one ledger row and the balance were written, together.
pub record IsPlaced (uuid_text : ℕ → String) (stamp : BetStamp) (q : BetRequest) (db : Db)
    (r : PlaceBetResult) (db' : Db) : Type 0 where
  pub round : GameRound
  pub open_round : IsRoundOpen stamp.ledger.now q db round
  pub new_key : find_bet q.user_id q.key db.bets ≡ none
  pub new_id : has_bet_id stamp.bet_uuid db.bets ≡ false
  pub debited : LedgerMutationResult
  pub debit_applied :
      IsApplied stamp.ledger q.user_id debit q.total false
        (bet_ledger_ref uuid_text stamp q)
        (with_bet stamp q db)
        debited
        db'
  pub result : r ≡ placed_result uuid_text stamp q (bet_row stamp q) debited

module _ (uuid_text : ℕ → String) (stamp : BetStamp) (q : BetRequest) where
  after_create :
      (db m2 m3 m4 : Db) (locked : LockedAccountMutation) (b : Bet) (r : LedgerMutationResult)
      {db' : Db}
      → IsLocked q.user_id debit q.total false db locked m2
      → (b ≡ bet_row stamp q) × (m3 ≡ record m2 { bets = bet_row stamp q ∷ m2.bets })
      → m4 ≡ record m3 { bet_items = add_items (item_rows stamp.bet_uuid q.merged) m3.bet_items }
      → IsCommitted stamp.ledger locked (bet_ledger_ref uuid_text stamp q) m4 r db'
      → IsApplied stamp.ledger q.user_id debit q.total false
          (bet_ledger_ref uuid_text stamp q)
          (with_bet stamp q db)
          r
          db'
  after_create db m2 m3 m4 locked b r {db'} l (same, e3) e4 c =
      let moved : m4 ≡ with_bet stamp q db = ground arith in
      commit_after_lock stamp.ledger q.user_id debit q.total false _ (with_bet stamp q db)
        (with_bet stamp q db) locked
        (record {
          account = l.account;
          found = l.found;
          token = l.token;
          unchanged = refl;
          positive = l.positive;
          covered = l.covered;
        })
        (subst (λ x. IsCommitted stamp.ledger locked (bet_ledger_ref uuid_text stamp q) x r db')
          moved c)

  pub run_placement_transaction-IsPlaced :
      (db : Db) {r : PlaceBetResult} {db' : Db}
      → run_placement_transaction uuid_text stamp q db ≡ ok (r, db')
      → IsPlaced uuid_text stamp q db r db'
  unfolding run_placement_transaction
  run_placement_transaction-IsPlaced db {r} {db'} h =
      let (round, m1, ran1, h1) = bind-eq-ok (lock_round stamp.ledger.now q) _ db h in
      let (locked, m2, ran2, h2) =
        bind-eq-ok (lock_and_validate_account q.user_id debit q.total false) _ m1 h1 in
      let (b, m3, ran3, h3) = bind-eq-ok (create_bet (bet_row stamp q)) _ m2 h2 in
      let (u, m4, ran4, h4) =
        bind-eq-ok (create_bet_items (item_rows stamp.bet_uuid q.merged)) _ m3 h3 in
      let (done, m5, ran5, h5) =
        bind-eq-ok (commit_mutation stamp.ledger locked (bet_ledger_ref uuid_text stamp q)) _ m4
          h4 in
      finish round m1 locked m2 b m3 m4 done m5 ran1 ran2 ran3 ran4 ran5 h5
    where
      finish :
          (round : GameRound) (m1 : Db) (locked : LockedAccountMutation) (m2 : Db) (b : Bet)
          (m3 m4 : Db) (done : LedgerMutationResult) (m5 : Db)
          → lock_round stamp.ledger.now q db ≡ ok (round, m1)
          → lock_and_validate_account q.user_id debit q.total false m1 ≡ ok (locked, m2)
          → create_bet (bet_row stamp q) m2 ≡ ok (b, m3)
          → create_bet_items (item_rows stamp.bet_uuid q.merged) m3 ≡ ok (tt, m4)
          → commit_mutation stamp.ledger locked (bet_ledger_ref uuid_text stamp q) m4
            ≡ ok (done, m5)
          → ◌≡◌ {A = Result (PlaceBetResult × Db)}
              (ok (placed_result uuid_text stamp q b done, m5))
              (ok (r, db'))
          → IsPlaced uuid_text stamp q db r db'
      finish round m1 locked m2 b m3 m4 done m5 ran1 ran2 ran3 ran4 ran5 end =
          let (is_open, e1) = lock_round-IsRoundOpen stamp.ledger.now q db ran1 in
          let l = lock-IsLocked q.user_id debit q.total false m1 ran2 in
          let at_db : m2 ≡ db = l.unchanged ∙ e1 in
          let (new_key, new_id, same, e3) = create_bet-ok (bet_row stamp q) m2 ran3 in
          let e4 = create_bet_items-ok (item_rows stamp.bet_uuid q.merged) m3 ran4 in
          let c =
            commit-IsCommitted stamp.ledger locked (bet_ledger_ref uuid_text stamp q) m4 ran5 in
          let last : m5 ≡ db' = ground arith in
          record {
            round = round;
            open_round = is_open;
            new_key = subst (λ x. find_bet q.user_id q.key x.bets ≡ none) at_db new_key;
            new_id = subst (λ x. has_bet_id stamp.bet_uuid x.bets ≡ false) at_db new_id;
            debited = done;
            debit_applied =
                subst
                  (λ x.
                    IsApplied stamp.ledger q.user_id debit q.total false
                      (bet_ledger_ref uuid_text stamp q) (with_bet stamp q db) done x)
                  last
                  (after_create db m2 m3 m4 locked b done
                    (subst (λ x. IsLocked q.user_id debit q.total false x locked m2) e1 l)
                    (same, e3) e4 c);
            result = ground arith;
          }
