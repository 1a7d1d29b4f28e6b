-- ===== src/System/Steps.antt =====
-- What placed bets and adjustments keep, requests in any order and interleaving keep.
use Prim.Native.String.{String}
use jito_india_game.Admin.{AdjustPointsParams, AdjustPointsResult, AdjustStamp, adjust}
use jito_india_game.Admin.Outcomes.{AdjustAccounts, IsAdjusted, KeyedAccounts, adjust-KeyedAccounts}
use jito_india_game.Bets.{BetRequest, BetStamp, PlaceBetResult, total_amount}
use jito_india_game.Bets.Funding.{WroteNothing-keeps, place_bet-keeps}
use jito_india_game.Bets.Placement.{IsPlaced}
use jito_india_game.Database.{Db, Outcome, err, ok}
use jito_india_game.Points.Ledger.{Others}
use jito_india_game.Prelude.{Option, inl, inr, none, some, sym, ℕ, ◌≡◌}
use jito_india_game.System.{Request, Requests, adjustment, done, first, place, serve, serve_all}
use mathlib.Core.Path.{subst}

AdjustAccounts-keeps :
    (P : Db → Type 0) (others : Others) (stamp : AdjustStamp) (p : AdjustPointsParams)
    (key : String) (db : Db) (out : Outcome AdjustPointsResult)
    → ((x : Db) → P x → P (others.before_lock x))
    → ((x : Db) → P x → P (others.before_reread x))
    → ((x : Db) (r : AdjustPointsResult) (x' : Db) → P x → IsAdjusted stamp key p x r x' → P x')
    → P db
    → AdjustAccounts others stamp p key db out
    → P out.1
AdjustAccounts-keeps P others stamp p key db (ok r, db') before again adjusted h (inl (m, _)) =
    adjusted (others.before_lock db) r db' (before db h) m
AdjustAccounts-keeps P others stamp p key db (ok r, db') before again adjusted h (inr (w, _)) =
    WroteNothing-keeps P others db db' before again h w
AdjustAccounts-keeps P others stamp p key db (err e, db') before again adjusted h w =
    WroteNothing-keeps P others db db' before again h w

KeyedAccounts-keeps :
    (P : Db → Type 0) (others : Others) (stamp : AdjustStamp) (p : AdjustPointsParams)
    (k : Option String) (db : Db) (out : Outcome AdjustPointsResult)
    → ((x : Db) → P x → P (others.before_lock x))
    → ((x : Db) → P x → P (others.before_reread x))
    → ((key : String) (x : Db) (r : AdjustPointsResult) (x' : Db)
        → P x
        → IsAdjusted stamp key p x r x'
        → P x')
    → P db
    → KeyedAccounts others stamp p k db out
    → P out.1
KeyedAccounts-keeps P others stamp p none db out before again adjusted h e =
    subst (λ (o : Outcome AdjustPointsResult). P o.1) (sym e) h
KeyedAccounts-keeps P others stamp p (some key) db out before again adjusted h (inl (_, e)) =
    subst (λ (o : Outcome AdjustPointsResult). P o.1) (sym e) h
KeyedAccounts-keeps P others stamp p (some key) db out before again adjusted h
      (inr (inl (_, _, e))) =
    subst (λ (o : Outcome AdjustPointsResult). P o.1) (sym e) h
KeyedAccounts-keeps P others stamp p (some key) db out before again adjusted h
      (inr (inr (_, _, m))) =
    AdjustAccounts-keeps P others stamp p key db out before again (adjusted key) h m

-- What every placed bet and every adjustment keeps.
pub record IsKeptBySteps (uuid_text : ℕ → String) (P : Db → Type 0) : Type 0 where
  pub placed :
      (stamp : BetStamp) (q : BetRequest) (db : Db) (r : PlaceBetResult) (db' : Db)
      → q.total ≡ total_amount q.merged
      → P db
      → IsPlaced uuid_text stamp q db r db'
      → P db'
  pub adjusted :
      (stamp : AdjustStamp) (p : AdjustPointsParams) (key : String) (db : Db)
      (r : AdjustPointsResult) (db' : Db)
      → P db
      → IsAdjusted stamp key p db r db'
      → P db'

module _ (uuid_text : ℕ → String) (P : Db → Type 0) (kept : IsKeptBySteps uuid_text P) where
  mutual
    unfolding serve serve_all

    serve-keeps : (r : Request) (db : Db) → P db → P (serve uuid_text r db)
    serve-keeps (place before again stamp p) db h =
        place_bet-keeps P uuid_text
          (record {
            before_lock = serve_all uuid_text before;
            before_reread = serve_all uuid_text again;
          })
          stamp (serve_all-keeps before) (serve_all-keeps again) (kept.placed stamp) p db h
    serve-keeps (adjustment before again stamp p) db h =
        let others : Others = record {
          before_lock = serve_all uuid_text before;
          before_reread = serve_all uuid_text again;
        } in
        KeyedAccounts-keeps P others stamp p p.idempotency_key db (adjust others stamp p db)
          (serve_all-keeps before) (serve_all-keeps again) (kept.adjusted stamp p) h
          (adjust-KeyedAccounts others stamp p db)

    pub serve_all-keeps : (rs : Requests) (db : Db) → P db → P (serve_all uuid_text rs db)
    serve_all-keeps done db h = h
    serve_all-keeps (first r more) db h =
        serve_all-keeps more (serve uuid_text r db) (serve-keeps r db h)
