-- ===== src/Admin/Audit.antt =====
-- No adjustment without an audit trail, and adjustments leave the bets paid for.
use Prim.Native.String.{String}
use jito_india_game.Admin.{
  AdjustPointsParams, AdjustPointsResult, AdjustStamp, adjust_ref_type, audit_log, find_admin_log,
}
use jito_india_game.Admin.Outcomes.{IsAdjusted}
use jito_india_game.Bets.{BetRequest, BetStamp, PlaceBetResult}
use jito_india_game.Bets.Paid.{All-weaken, IsBetsSound, IsPaid, bet_debits}
use jito_india_game.Bets.Placement.{IsPlaced}
use jito_india_game.Database.{
  AdminLog, Db, PointsTransaction, TxnDirection, TxnRefType, admin_credit, admin_debit, bet_placed,
  credit, debit,
}
use jito_india_game.Points.Ledger.{same_ref_type}
use jito_india_game.Prelude.{
  ==_iff, All, Bool, Bool-cases, List, arith, false, inl, inr, none, refl, some, sym, true, ℕ, ◌&&◌,
  ◌==◌, ◌∙◌, ◌∷◌, ◌≡◌,
}
use mathlib.Core.Path.{subst}

abbrev pub is_admin_type : TxnRefType → Bool
is_admin_type admin_credit = true
is_admin_type admin_debit = true
is_admin_type _ = false

-- The audit log that a ledger row refers to, which names the same movement.
pub record IsAuditedBy (logs : List AdminLog) (t : PointsTransaction) : Type 0 where
  pub log_id : ℕ
  pub log : AdminLog
  pub refers : t.reference_id ≡ some log_id
  pub found : find_admin_log log_id logs ≡ some log
  pub direction : log.direction ≡ t.direction
  pub amount : log.amount_minor ≡ t.amount_minor

abbrev pub IsAudited : List AdminLog → PointsTransaction → Type 0
IsAudited logs t = is_admin_type t.reference_type ≡ true → IsAuditedBy logs t

find_admin_log-cons :
    (i : ℕ) (l : AdminLog) (logs : List AdminLog) {m : AdminLog}
    → find_admin_log l.id logs ≡ none
    → find_admin_log i logs ≡ some m
    → find_admin_log i (l ∷ logs) ≡ some m
unfolding find_admin_log
find_admin_log-cons i l logs {m} new found = elim (Bool-cases (l.id == i)) [
  | inl e ↦ absurd (clash l.id i ((==_iff l.id i).0 e) new found)
  | inr e ↦ rw e found
]
  where
    clash : (a b : ℕ) → a ≡ b → find_admin_log a logs ≡ none → find_admin_log b logs ≡ some m → ⊥
    clash a b e x y = cc

IsAudited-cons :
    (l : AdminLog) (logs : List AdminLog) (t : PointsTransaction)
    → find_admin_log l.id logs ≡ none
    → IsAudited logs t
    → IsAudited (l ∷ logs) t
IsAudited-cons l logs t new h e =
    let m = h e in
    record {
      log_id = m.log_id;
      log = m.log;
      refers = m.refers;
      found = find_admin_log-cons m.log_id l logs new m.found;
      direction = m.direction;
      amount = m.amount;
    }

find_admin_log_self :
    (l : AdminLog) (logs : List AdminLog) → find_admin_log l.id (l ∷ logs) ≡ some l
unfolding find_admin_log
find_admin_log_self l logs = ground arith

-- An adjustment that went through keeps every admin row audited.
pub IsAdjusted-IsAudited :
    (stamp : AdjustStamp) (key : String) (p : AdjustPointsParams) (db : Db) {r : AdjustPointsResult}
    {db' : Db}
    → All (IsAudited db.admin_logs) db.transactions
    → IsAdjusted stamp key p db r db'
    → All (IsAudited db'.admin_logs) db'.transactions
IsAdjusted-IsAudited stamp key p db h m =
    let logs = audit_log stamp p ∷ db.admin_logs in
    subst (λ (x : Db). All (IsAudited x.admin_logs) x.transactions) (sym m.applied.tables)
      (
        λ e. record {
          log_id = stamp.log_uuid;
          log = audit_log stamp p;
          refers = refl;
          found = find_admin_log_self (audit_log stamp p) db.admin_logs;
          direction = refl;
          amount = refl;
        },
        All-weaken (IsAudited db.admin_logs) (IsAudited logs) db.transactions
            (λ t. IsAudited-cons (audit_log stamp p) db.admin_logs t m.new_log) h,
      )

-- A bet's debit is no admin row.
pub IsPlaced-IsAudited :
    (uuid_text : ℕ → String) (stamp : BetStamp) (q : BetRequest) (db : Db) {r : PlaceBetResult}
    {db' : Db}
    → All (IsAudited db.admin_logs) db.transactions
    → IsPlaced uuid_text stamp q db r db'
    → All (IsAudited db'.admin_logs) db'.transactions
IsPlaced-IsAudited uuid_text stamp q db h m =
    subst (λ (x : Db). All (IsAudited x.admin_logs) x.transactions) (sym m.debit_applied.tables)
      (λ e. absurd (no_admin e), h)
  where
    no_admin : is_admin_type bet_placed ≡ true → ⊥
    no_admin e = cc

adjust_type-ne-bet_placed :
    (d : TxnDirection) → same_ref_type (adjust_ref_type d) bet_placed ≡ false
adjust_type-ne-bet_placed credit = refl
adjust_type-ne-bet_placed debit = refl

bet_debits-adjust :
    (i : ℕ) (t : PointsTransaction) (ts : List PointsTransaction)
    → same_ref_type t.reference_type bet_placed ≡ false
    → bet_debits i (t ∷ ts) ≡ bet_debits i ts
unfolding bet_debits
bet_debits-adjust i t ts h = rw h

-- An adjustment leaves every bet paid for as it was.
pub IsAdjusted-IsBetsSound :
    (stamp : AdjustStamp) (key : String) (p : AdjustPointsParams) (db : Db) {r : AdjustPointsResult}
    {db' : Db}
    → IsBetsSound db
    → IsAdjusted stamp key p db r db'
    → IsBetsSound db'
IsAdjusted-IsBetsSound stamp key p db h m =
    let kind = adjust_type-ne-bet_placed p.dto.direction in
    subst IsBetsSound (sym m.applied.tables) (record {
      owned = h.owned;
      references = (λ i e. absurd (differs _ _ kind e), h.references);
      paid =
          All-weaken (IsPaid db) _ db.bets
            (λ b x. record {
              row = x.row;
              once = bet_debits-adjust b.id _ db.transactions kind ∙ x.once;
              kind = x.kind;
              amount = x.amount;
              items = x.items;
            })
            h.paid;
    })
  where
    differs : (x y : Bool) → x ≡ false → (x && y) ≡ true → ⊥
    differs x y e f = ground arith
