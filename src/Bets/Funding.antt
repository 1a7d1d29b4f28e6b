-- ===== src/Bets/Funding.antt =====
-- A placement keeps every bet paid for, and the points tables sound.
use Prim.Native.String.{String}
use jito_india_game.Bets.Items.{MergedItem, total_amount}
use jito_india_game.Bets.Outcomes.{BetAccounts, PlaceAccounts, place_bet-PlaceAccounts}
use jito_india_game.Bets.Paid.{
  All-map-with, All-weaken, IsBetsSound, IsPaid, IsReferenceOwned, bet_debits, bet_debits-new,
  has_bet_id-All, has_bet_id_mono, has_bet_id_self, items_of-other, sum_items, sum_items-add_items,
}
use jito_india_game.Bets.Placement.{IsPlaced, add_items, with_bet}
use jito_india_game.Bets.Recorded.{IsOwned, items_of-with_bet}
use jito_india_game.Bets.Service.{
  BetRequest, BetStamp, PlaceBetParams, PlaceBetResult, bet_ledger_ref, bet_row, checked_items,
  checked_key, checked_request, item_row, item_rows, place_bet,
}
use jito_india_game.Bets.Tables.{has_bet_id}
use jito_india_game.Database.{
  Bet, BetItem, Db, Outcome, PointsAccount, PointsTransaction, Result-cases, debit, err, ok,
}
use jito_india_game.Points.Invariant.{IsSound}
use jito_india_game.Points.Ledger.{Others, ledger_row}
use jito_india_game.Points.Ledger.Steps.{locked_on, posted}
use jito_india_game.Points.Mutation.{WroteNothing}
use jito_india_game.Points.Posting.{IsApplied-IsSound}
use jito_india_game.Prelude.{
  All, List, [], ap, arith, false, inl, inr, refl, sym, ℕ, ◌==◌, ◌∙◌, ◌∷◌, ◌≡◌,
}
use mathlib.Core.Path.{subst}

module _ (uuid_text : ℕ → String) (stamp : BetStamp) (q : BetRequest) (db : Db) (a : PointsAccount)
    (sound : IsBetsSound db) (new_id : has_bet_id stamp.bet_uuid db.bets ≡ false)
    (total : q.total ≡ total_amount q.merged) where
  abbrev debit_row : PointsTransaction
  debit_row = ledger_row stamp.ledger (locked_on debit q.total a) (bet_ledger_ref uuid_text stamp q)

  abbrev after : Db
  after =
      posted stamp.ledger (locked_on debit q.total a) (bet_ledger_ref uuid_text stamp q)
        (with_bet stamp q db)

  new_items-IsOwned :
      (merged : List MergedItem) (items : List BetItem)
      → All (IsOwned after.bets) items
      → All (IsOwned after.bets) (add_items (item_rows stamp.bet_uuid merged) items)
  unfolding add_items item_rows
  new_items-IsOwned [] items h = h
  new_items-IsOwned (m ∷ more) items h =
      new_items-IsOwned more (item_row stamp.bet_uuid m ∷ items)
        (has_bet_id_self stamp.bet_uuid (bet_row stamp q) db.bets (ground arith), h)

  debit_row-IsReferenceOwned : IsReferenceOwned after.bets debit_row
  debit_row-IsReferenceOwned i h = has_bet_id_self i (bet_row stamp q) db.bets (ground arith)

  new_bet-IsPaid : IsPaid after (bet_row stamp q)
  unfolding bet_debits
  new_bet-IsPaid = record {
    row = debit_row;
    once =
        rw (bet_debits-new stamp.bet_uuid db.bets db.transactions new_id sound.references)
          (ground arith);
    kind = refl;
    amount = refl;
    items =
        ap sum_items
          (items_of-with_bet stamp.bet_uuid db.bets q.merged db.bet_items new_id sound.owned)
        ∙ sum_items-add_items stamp.bet_uuid q.merged []
        ∙ (unfold sum_items in sym total);
  }

  old_bet-IsPaid : (b : Bet) → (b.id == stamp.bet_uuid) ≡ false → IsPaid db b → IsPaid after b
  unfolding bet_debits
  old_bet-IsPaid b other p = record {
    row = p.row;
    once = ground (arith, p.once);
    kind = p.kind;
    amount = p.amount;
    items = ap sum_items (items_of-other b.id stamp.bet_uuid q.merged db.bet_items other) ∙ p.items;
  }

  pub posted-IsBetsSound : IsBetsSound after
  posted-IsBetsSound = record {
    owned = new_items-IsOwned q.merged db.bet_items (
        All-weaken _ _ db.bet_items (λ i h. has_bet_id_mono i.bet_id (bet_row stamp q) db.bets h)
          sound.owned);
    references = (
      debit_row-IsReferenceOwned,
      All-weaken _ _ db.transactions
          (λ t h. λ i e. has_bet_id_mono i (bet_row stamp q) db.bets (h i e)) sound.references,
    );
    paid = (
      new_bet-IsPaid,
      All-map-with _ _ _ db.bets old_bet-IsPaid (has_bet_id-All stamp.bet_uuid db.bets new_id)
          sound.paid,
    );
  }

-- Both groups of tables.
pub record IsServiceSound (db : Db) : Type 0 where
  pub points : IsSound db
  pub bets : IsBetsSound db

abbrev pub KeepsService : (Db → Db) → Type 0
KeepsService f = (db : Db) → IsServiceSound db → IsServiceSound (f db)

pub WroteNothing-keeps :
    (P : Db → Type 0) (others : Others) (db db' : Db)
    → ((x : Db) → P x → P (others.before_lock x))
    → ((x : Db) → P x → P (others.before_reread x))
    → P db
    → WroteNothing others db db'
    → P db'
WroteNothing-keeps P others db db' before again h (inl e) = subst P (sym e) h
WroteNothing-keeps P others db db' before again h (inr (inl e)) = subst P (sym e) (before db h)
WroteNothing-keeps P others db db' before again h (inr (inr e)) =
    subst P (sym e) (again _ (before db h))

pub checked_request-total :
    (p : PlaceBetParams) {q : BetRequest}
    → checked_request p ≡ ok q
    → q.total ≡ total_amount q.merged
unfolding checked_request
checked_request-total p {q} h = elim (Result-cases (checked_key p.idempotency_key)) [
  | inr (x, e) ↦ absurd (ground arith)
  | inl (k, e) ↦ elim (Result-cases (checked_items p.dto.items)) [
    | inr (x, f) ↦ absurd (ground arith)
    | inl (m, f) ↦
        let total : q.total ≡ total_amount m = ground arith in
        let merged : m ≡ q.merged = ground arith in total ∙ ap total_amount merged
  ]
]

pub IsPlaced-IsServiceSound :
    (uuid_text : ℕ → String) (stamp : BetStamp) (q : BetRequest) (db : Db) {r : PlaceBetResult}
    {db' : Db}
    → q.total ≡ total_amount q.merged
    → IsServiceSound db
    → IsPlaced uuid_text stamp q db r db'
    → IsServiceSound db'
IsPlaced-IsServiceSound uuid_text stamp q db {r} {db'} total sound m =
    let points : IsSound (with_bet stamp q db) = record {
      balances = sound.points.balances;
      ids = sound.points.ids;
      keys = sound.points.keys;
      rows = sound.points.rows;
    } in
    record {
      points =
          IsApplied-IsSound stamp.ledger q.user_id debit q.total false _ (with_bet stamp q db)
            points m.debit_applied;
      bets = subst IsBetsSound (sym m.debit_applied.tables) (
          posted-IsBetsSound uuid_text stamp q db m.debit_applied.account sound.bets m.new_id
            total);
    }

-- What other requests and a placement that goes through keep, every call of `placeBet` keeps.
module _ (P : Db → Type 0) (uuid_text : ℕ → String) (others : Others) (stamp : BetStamp)
    (before : (x : Db) → P x → P (others.before_lock x))
    (again : (x : Db) → P x → P (others.before_reread x))
    (placed_keeps : (q : BetRequest) (x : Db) (r : PlaceBetResult) (x' : Db)
      → q.total ≡ total_amount q.merged
      → P x
      → IsPlaced uuid_text stamp q x r x'
      → P x') where
  BetAccounts-keeps :
      (q : BetRequest) (db : Db) (out : Outcome PlaceBetResult)
      → q.total ≡ total_amount q.merged
      → P db
      → BetAccounts uuid_text others stamp q db out
      → P out.1
  BetAccounts-keeps q db (ok r, db') total h (inl (placed, _)) =
      placed_keeps q (others.before_lock db) r db' total (before db h) placed
  BetAccounts-keeps q db (ok r, db') total h (inr (w, _)) =
      WroteNothing-keeps P others db db' before again h w
  BetAccounts-keeps q db (err e, db') total h w =
      WroteNothing-keeps P others db db' before again h w

  pub place_bet-keeps :
      (p : PlaceBetParams) (db : Db) → P db → P (place_bet uuid_text others stamp p db).1
  place_bet-keeps p db h = elim (Result-cases (checked_request p)) [
    | inl (q, e) ↦
        BetAccounts-keeps q db (place_bet uuid_text others stamp p db) (checked_request-total p e) h
          (subst
            (λ c. PlaceAccounts uuid_text others stamp c db (place_bet uuid_text others stamp p db))
            e (place_bet-PlaceAccounts uuid_text others stamp p db))
    | inr (x, e) ↦
        let refused : place_bet uuid_text others stamp p db ≡ (err x, db) =
          subst
            (λ c. PlaceAccounts uuid_text others stamp c db (place_bet uuid_text others stamp p db))
            e (place_bet-PlaceAccounts uuid_text others stamp p db) in
        subst (λ (o : Outcome PlaceBetResult). P o.1) (sym refused) h
  ]

-- If what other requests commit keeps the tables sound and every bet paid for, so does `placeBet`,
-- whatever it answers: balances are their ledger sums and not negative, keys and rows are sound,
-- each bet has exactly one debit of its total, and items that add up to it.
pub place_bet-IsServiceSound :
    (uuid_text : ℕ → String) (others : Others) (stamp : BetStamp)
    → KeepsService others.before_lock
    → KeepsService others.before_reread
    → (p : PlaceBetParams) (db : Db) → IsServiceSound db
    → IsServiceSound (place_bet uuid_text others stamp p db).1
place_bet-IsServiceSound uuid_text others stamp before again =
    place_bet-keeps IsServiceSound uuid_text others stamp before again
      (λ q x r x'. IsPlaced-IsServiceSound uuid_text stamp q x {r = r} {db' = x'})
