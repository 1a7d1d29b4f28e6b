-- ===== src/Bets/Retry.antt =====
-- A request that was answered with a bet is answered with the same bet when it is sent again.
use Prim.Native.String.{String}
use jito_india_game.Bets.Merging.{HasDistinctSelections, checked_items-IsValidBet}
use jito_india_game.Bets.Placement.{run_placement_transaction-IsPlaced}
use jito_india_game.Bets.Recorded.{IsOwned}
use jito_india_game.Bets.Replay.{IsBetRecorded, IsPlaced-IsBetRecorded, bet_replay-IsBetRecorded}
use jito_india_game.Bets.Service.{
  BetRequest, BetStamp, PlaceBetParams, PlaceBetResult, bet_matches, bet_recover, bet_replay,
  bet_reread_found, checked_items, checked_key, checked_request, place_bet, place_checked,
  place_found, replay_result, run_placement_transaction,
}
use jito_india_game.Bets.Tables.{find_bet, find_bet_debit, items_of}
use jito_india_game.Database.{
  Bet, Db, Error, Outcome, Result-cases, commit, err, ok, unique_violation,
}
use jito_india_game.Points.Ledger.{Others}
use jito_india_game.Prelude.{
  All, Option, ap, arith, inl, inr, none, refl, some, sym, true, ℕ, ◌∙◌, ◌≡◌,
}
use mathlib.Core.Path.{subst}

bet_reread_found-IsBetRecorded :
    (found : Option Bet) (q : BetRequest) (db : Db) {r : PlaceBetResult} {db' : Db}
    → found ≡ find_bet q.user_id q.key db.bets
    → bet_reread_found found q db ≡ (ok r, db')
    → IsBetRecorded q r db'
bet_reread_found-IsBetRecorded none q db found h = absurd (ground arith)
bet_reread_found-IsBetRecorded (some b) q db {r} found h =
    subst (λ x. IsBetRecorded q r x) (ap (λ (o : Outcome PlaceBetResult). o.1) h)
      (bet_replay-IsBetRecorded q b db (sym found) (ap (λ (o : Outcome PlaceBetResult). o.0) h))

bet_recover-IsBetRecorded :
    (others : Others) (q : BetRequest) (x : Error) (mid : Db) {r : PlaceBetResult} {db' : Db}
    → bet_recover others q (err x, mid) ≡ (ok r, db')
    → IsBetRecorded q r db'
unfolding bet_recover
bet_recover-IsBetRecorded others q unique_violation mid h =
    bet_reread_found-IsBetRecorded _ q (others.before_reread mid) refl h
bet_recover-IsBetRecorded others q _ mid h = absurd (ground arith)

bet_recover-ok :
    (others : Others) (q : BetRequest) (r : PlaceBetResult) (db : Db)
    → bet_recover others q (ok r, db) ≡ (ok r, db)
unfolding bet_recover
bet_recover-ok others q r db = refl

module _ (uuid_text : ℕ → String) where
  place_found-IsBetRecorded :
      (found : Option Bet) (others : Others) (stamp : BetStamp) (q : BetRequest) (db : Db)
      {r : PlaceBetResult} {db' : Db}
      → HasDistinctSelections q.merged
      → All (IsOwned (others.before_lock db).bets) (others.before_lock db).bet_items
      → found ≡ find_bet q.user_id q.key db.bets
      → place_found uuid_text found others stamp q db ≡ (ok r, db')
      → IsBetRecorded q r db'
  place_found-IsBetRecorded (some b) others stamp q db distinct owned found h =
      bet_reread_found-IsBetRecorded (some b) q db found h
  place_found-IsBetRecorded none others stamp q db {r} {db'} distinct owned found h =
      let mid = others.before_lock db in
      elim (Result-cases (run_placement_transaction uuid_text stamp q mid)) [
        | inl ((x, last), e) ↦
            let same = sym (bet_recover-ok others q x last) ∙ (rw (e, commit) at h) in
            let done : run_placement_transaction uuid_text stamp q mid ≡ ok (r, db') =
              ground arith in
            let placed = run_placement_transaction-IsPlaced uuid_text stamp q mid done in
            IsPlaced-IsBetRecorded uuid_text stamp q mid distinct owned placed.new_id placed
        | inr (x, e) ↦ bet_recover-IsBetRecorded others q x mid (rw (e, commit) at h)
      ]

pub checked_request-merged :
    (p : PlaceBetParams) {q : BetRequest}
    → checked_request p ≡ ok q
    → checked_items p.dto.items ≡ ok q.merged
unfolding checked_request
checked_request-merged p {q} h = elim (Result-cases (checked_key p.idempotency_key)) [
  | inr (x, e) ↦ absurd (ground arith)
  | inl (k, e) ↦ elim (Result-cases (checked_items p.dto.items)) [
    | inr (x, f) ↦ absurd (ground arith)
    | inl (m, f) ↦ f ∙ ground arith
  ]
]

-- Later requests keep the bets, their items and their debits (until a settlement changes a status).
abbrev pub KeepsBets : (Db → Db) → Type 0
KeepsBets f =
    (db : Db) (u : ℕ) (k : String) (b : Bet)
    → find_bet u k db.bets ≡ some b
    → (find_bet u k (f db).bets ≡ some b)
      × (items_of b.id (f db).bet_items ≡ items_of b.id db.bet_items)
      × (find_bet_debit b.id (f db).transactions ≡ find_bet_debit b.id db.transactions)

-- A call of `placeBet` that was answered with a result is answered with the same result, marked as
-- a replay, whenever the request is sent again, and the second call writes nothing; whatever other
-- requests do during it, and whatever the tables gained in between.
pub place_bet_retry :
    (uuid_text : ℕ → String) (others others' : Others) (stamp stamp' : BetStamp)
    (p : PlaceBetParams) (later : Db → Db) (db : Db) {r : PlaceBetResult} {db' : Db}
    → All (IsOwned (others.before_lock db).bets) (others.before_lock db).bet_items
    → KeepsBets later
    → place_bet uuid_text others stamp p db ≡ (ok r, db')
    → place_bet uuid_text others' stamp' p (later db')
      ≡ (ok (record r { replayed = true }), later db')
unfolding place_bet bet_replay
place_bet_retry uuid_text others others' stamp stamp' p later db {r} {db'} owned keeps h =
    elim (Result-cases (checked_request p)) [
      | inr (x, e) ↦ absurd (ground arith)
      | inl (q, e) ↦
          let distinct =
            (checked_items-IsValidBet p.dto.items
              (checked_request-merged p e)).is_merged.distinct in
          let m =
            place_found-IsBetRecorded uuid_text _ others stamp q db distinct owned refl
              (rw (e, place_checked) at h) in
          let (found, items, paid) = keeps db' q.user_id q.key m.bet m.found in
          rw (
            e,
            found,
            same_matches q m.bet db' (later db') items m.matches,
            same_result m.bet db' (later db') paid,
            ← m.reported,
          )
    ]
  where
    same_matches :
        (q : BetRequest) (b : Bet) (x y : Db)
        → items_of b.id y.bet_items ≡ items_of b.id x.bet_items
        → bet_matches b q x ≡ true
        → bet_matches b q y ≡ true
    same_matches q b x y e h = unfold bet_matches in rw e h

    same_result :
        (b : Bet) (x y : Db)
        → find_bet_debit b.id y.transactions ≡ find_bet_debit b.id x.transactions
        → replay_result b y ≡ replay_result b x
    same_result b x y e = unfold replay_result in rw e
