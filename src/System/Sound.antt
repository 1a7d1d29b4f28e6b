-- ===== src/System/Sound.antt =====
-- What every run of requests keeps, whatever their order and interleaving.
use Prim.Native.String.{String}
use jito_india_game.Admin.{AdjustPointsParams, AdjustPointsResult, AdjustStamp, audit_log}
use jito_india_game.Admin.Audit.{
  IsAdjusted-IsAudited, IsAdjusted-IsBetsSound, IsAudited, IsPlaced-IsAudited,
}
use jito_india_game.Admin.Outcomes.{IsAdjusted}
use jito_india_game.Bets.{BetRequest, BetStamp, PlaceBetResult, total_amount}
use jito_india_game.Bets.Funding.{IsPlaced-IsServiceSound, IsServiceSound}
use jito_india_game.Bets.Paid.{All-weaken}
use jito_india_game.Bets.Placement.{IsPlaced, with_bet}
use jito_india_game.Database.{Db, PointsAccount, PointsTransaction, TxnDirection, debit, ok}
use jito_india_game.Database.Statements.{fits_bigint, transaction_row_ok}
use jito_india_game.Points.Invariant.{IsBalanced, IsSound, set_balance-All}
use jito_india_game.Points.Ledger.{LedgerMutationResult, LedgerRef, Stamp, apply_direction}
use jito_india_game.Points.Ledger.Steps.{IsApplied}
use jito_india_game.Points.Posting.{IsApplied-IsSound}
use jito_india_game.Points.Reconciliation.{verify_all}
use jito_india_game.Points.Reconciliation.Verified.{
  AllSeen, IsInRange, IsReconciled, IsReport-nil, compute_ledger_derived_balance-totals,
  verify_all_complete,
}
use jito_india_game.Prelude.{All, Bool, List, [], arith, false, length, sym, true, ℕ, ◌∙◌, ◌∷◌, ◌≡◌}
use jito_india_game.Prelude.Int.{ℤ}
use jito_india_game.System.{Requests, serve_all}
use jito_india_game.System.Steps.{IsKeptBySteps, serve_all-keeps}
use mathlib.Core.Path.{subst}

-- The points tables are sound, every bet is paid for, and every admin row is audited.
pub record IsSystemSound (db : Db) : Type 0 where
  pub service : IsServiceSound db
  pub audited : All (IsAudited db.admin_logs) db.transactions

IsPlaced-IsSystemSound :
    (uuid_text : ℕ → String) (stamp : BetStamp) (q : BetRequest) (db : Db) (r : PlaceBetResult)
    (db' : Db)
    → q.total ≡ total_amount q.merged
    → IsSystemSound db
    → IsPlaced uuid_text stamp q db r db'
    → IsSystemSound db'
IsPlaced-IsSystemSound uuid_text stamp q db r db' total h m = record {
  service = IsPlaced-IsServiceSound uuid_text stamp q db total h.service m;
  audited = IsPlaced-IsAudited uuid_text stamp q db h.audited m;
}

IsAdjusted-IsSystemSound :
    (stamp : AdjustStamp) (p : AdjustPointsParams) (key : String) (db : Db) (r : AdjustPointsResult)
    (db' : Db)
    → IsSystemSound db
    → IsAdjusted stamp key p db r db'
    → IsSystemSound db'
IsAdjusted-IsSystemSound stamp p key db r db' h m =
    let logged : Db = record db { admin_logs = audit_log stamp p ∷ db.admin_logs } in
    let points : IsSound logged = record {
      balances = h.service.points.balances;
      ids = h.service.points.ids;
      keys = h.service.points.keys;
      rows = h.service.points.rows;
    } in
    record {
      service = record {
        points =
            IsApplied-IsSound stamp.ledger p.target_user_id p.dto.direction p.dto.amount_minor false
              _ logged points m.applied;
        bets = IsAdjusted-IsBetsSound stamp key p db h.service.bets m;
      };
      audited = IsAdjusted-IsAudited stamp key p db h.audited m;
    }

system-IsKeptBySteps : (uuid_text : ℕ → String) → IsKeptBySteps uuid_text IsSystemSound
system-IsKeptBySteps uuid_text = record {
  placed = IsPlaced-IsSystemSound uuid_text;
  adjusted = IsAdjusted-IsSystemSound;
}

-- points_accounts.balance_minor is a BIGINT.
abbrev pub HasBalancesInRange : Db → Type 0
HasBalancesInRange db = All (λ a. fits_bigint a.balance_minor ≡ true) db.accounts

IsApplied-HasBalancesInRange :
    (stamp : Stamp) (u : ℕ) (d : TxnDirection) (amount : ℤ) (overdraw : Bool) (ref : LedgerRef)
    (db : Db) {r : LedgerMutationResult} {db' : Db}
    → HasBalancesInRange db
    → IsApplied stamp u d amount overdraw ref db r db'
    → HasBalancesInRange db'
unfolding transaction_row_ok
IsApplied-HasBalancesInRange stamp u d amount overdraw ref db h m =
    subst HasBalancesInRange (sym m.tables) (
      set_balance-All (λ a. fits_bigint a.balance_minor ≡ true)
        (λ a. fits_bigint a.balance_minor ≡ true) m.account.id
        (apply_direction d m.account.balance_minor amount) stamp.now db.accounts
        (λ a same p. ground (arith, m.row_ok)) (λ a other p. p) h)

range-IsKeptBySteps : (uuid_text : ℕ → String) → IsKeptBySteps uuid_text HasBalancesInRange
range-IsKeptBySteps uuid_text = record {
  placed = λ stamp q db r db' total h m.
      IsApplied-HasBalancesInRange stamp.ledger q.user_id debit q.total false _
        (with_bet stamp q db) h m.debit_applied;
  adjusted = λ stamp p key db r db' h m.
      IsApplied-HasBalancesInRange stamp.ledger p.target_user_id p.dto.direction p.dto.amount_minor
        false _ (record db { admin_logs = audit_log stamp p ∷ db.admin_logs }) h m.applied;
}

-- No other request commits while the accounts are checked.
abbrev pub undisturbed_check : PointsAccount → Db → Db
undisturbed_check a db = db

AllSeen-undisturbed :
    (P : List PointsTransaction → PointsAccount → Type 0) (accounts : List PointsAccount) (db : Db)
    → All (P db.transactions) accounts
    → AllSeen P undisturbed_check accounts db
AllSeen-undisturbed P [] db h = tt
AllSeen-undisturbed P (a ∷ more) db (p, h) = (p, AllSeen-undisturbed P more db h)

IsBalanced-IsReconciled :
    (ts : List PointsTransaction) (a : PointsAccount) → IsBalanced ts a → IsReconciled ts a
IsBalanced-IsReconciled ts a (e, _) = e ∙ compute_ledger_derived_balance-totals a.id ts

reconciled-IsInRange :
    (ts : List PointsTransaction) (accounts : List PointsAccount)
    → All (IsReconciled ts) accounts
    → All (λ a. fits_bigint a.balance_minor ≡ true) accounts
    → All (IsInRange ts) accounts
reconciled-IsInRange ts [] h fits = tt
reconciled-IsInRange ts (a ∷ more) (e, h) (p, fits) =
    (rw (← e) p, reconciled-IsInRange ts more h fits)

-- On balances that are their ledger sums, `verifyAll` has nothing to report.
verify_all-IsReconciled :
    (db : Db)
    → All (IsReconciled db.transactions) db.accounts
    → HasBalancesInRange db
    → verify_all undisturbed_check db
      ≡ ok (record { checked = length db.accounts; mismatches = [] })
verify_all-IsReconciled db h fits =
    let in_range = reconciled-IsInRange db.transactions db.accounts h fits in
    let (out, e, r) =
      verify_all_complete undisturbed_check db
        (AllSeen-undisturbed IsInRange db.accounts db in_range) in
    let empty =
      IsReport-nil undisturbed_check db.accounts db out
        (AllSeen-undisturbed IsReconciled db.accounts db h) r in
    subst
      (λ found.
        verify_all undisturbed_check db
        ≡ ok (record { checked = length db.accounts; mismatches = found }))
      empty e

module _ (uuid_text : ℕ → String) where
  -- Any run of placements and adjustments, in any order and with any of them committing while
  -- another is under way, keeps the system sound: balances are their ledger sums and not negative,
  -- every bet has exactly one debit of its total and items that add up to it, and every admin row
  -- has its audit log.
  pub serve_all-IsSystemSound :
      (rs : Requests) (db : Db) → IsSystemSound db → IsSystemSound (serve_all uuid_text rs db)
  serve_all-IsSystemSound = serve_all-keeps uuid_text IsSystemSound (system-IsKeptBySteps uuid_text)

  -- Any run of placements and adjustments that starts with sound tables, whose balances are BIGINTs,
  -- in any order and interleaving, ends with tables on which `verifyAll`, with no other request
  -- meanwhile, checks every account and reports no mismatch.
  pub verify_all-serve_all :
      (rs : Requests) (db : Db)
      → IsSystemSound db
      → HasBalancesInRange db
      → let last = serve_all uuid_text rs db in
        verify_all undisturbed_check last
        ≡ ok (record { checked = length last.accounts; mismatches = [] })
  verify_all-serve_all rs db h fits =
      let last = serve_all uuid_text rs db in
      verify_all-IsReconciled last
        (All-weaken (IsBalanced last.transactions) (IsReconciled last.transactions) last.accounts
          (IsBalanced-IsReconciled last.transactions)
          (serve_all-IsSystemSound rs db h).service.points.balances)
        (serve_all-keeps uuid_text HasBalancesInRange (range-IsKeptBySteps uuid_text) rs db fits)
