-- ===== src/Admin/Outcomes.antt =====
-- `adjust` on every path: an audit log with its ledger row, or nothing.
use text.Mathlib.Text.{◌==◌ as str_eq}
use Prim.Native.String.{String}
use jito_india_game.Admin.{
  AdjustPointsParams, AdjustPointsResult, AdjustStamp, adjust, adjust_found, adjust_keyed,
  adjust_mutation, adjust_recover, adjust_replay, adjust_reread_found, adjust_result,
  adjust_with_key, adjustment_matches, audit_log, create_admin_log, find_admin_log, has_user,
  run_adjustment_transaction,
}
use jito_india_game.Database.{
  AdminLog, Db, Error, Outcome, PointsTransaction, Result, Result-cases, bind-eq-ok, commit, err,
  idempotency_key_required, not_found, ok, unique_violation,
}
use jito_india_game.Points.Ledger.{LedgerMutationResult, Others, mutate_within_transaction, ref_of}
use jito_india_game.Points.Ledger.Steps.{IsApplied, mutate-IsApplied}
use jito_india_game.Points.Mutation.{WroteNothing}
use jito_india_game.Prelude.{
  Bool, Bool-cases, Option, any, arith, false, inl, inr, none, refl, some, true, ◌==◌, ◌∷◌, ◌≡◌,
  ◌⊎◌,
}
use mathlib.Core.Path.{subst}

-- An adjustment that went through: the audit log was written, and the mutation that refers to it.
pub record IsAdjusted (stamp : AdjustStamp) (key : String) (p : AdjustPointsParams) (db : Db)
    (r : AdjustPointsResult) (db' : Db) : Type 0 where
  pub new_log : find_admin_log stamp.log_uuid db.admin_logs ≡ none
  pub moved : LedgerMutationResult
  pub applied :
      IsApplied stamp.ledger p.target_user_id p.dto.direction p.dto.amount_minor false
        (ref_of (adjust_mutation stamp key p))
        (record db { admin_logs = audit_log stamp p ∷ db.admin_logs })
        moved
        db'
  pub result : r ≡ adjust_result (some stamp.log_uuid) false moved

create_admin_log-ok :
    (l : AdminLog) (db : Db) {u : Unit {0}} {db' : Db}
    → create_admin_log l db ≡ ok (u, db')
    → (find_admin_log l.id db.admin_logs ≡ none)
      × (db' ≡ record db { admin_logs = l ∷ db.admin_logs })
unfolding create_admin_log
create_admin_log-ok l db h = ground arith

pub run_adjustment_transaction-IsAdjusted :
    (stamp : AdjustStamp) (key : String) (p : AdjustPointsParams) (db : Db) {r : AdjustPointsResult}
    {db' : Db}
    → run_adjustment_transaction stamp key p db ≡ ok (r, db')
    → IsAdjusted stamp key p db r db'
unfolding run_adjustment_transaction
run_adjustment_transaction-IsAdjusted stamp key p db {r} {db'} h =
    let (u, m1, ran1, h1) = bind-eq-ok (create_admin_log (audit_log stamp p)) _ db h in
    let (moved, m2, ran2, h2) =
      bind-eq-ok (mutate_within_transaction stamp.ledger (adjust_mutation stamp key p)) _ m1 h1 in
    finish m1 moved m2 ran1 ran2 h2
  where
    finish :
        (m1 : Db) (moved : LedgerMutationResult) (m2 : Db)
        → create_admin_log (audit_log stamp p) db ≡ ok (tt, m1)
        → mutate_within_transaction stamp.ledger (adjust_mutation stamp key p) m1 ≡ ok (moved, m2)
        → ◌≡◌ {A = Result (AdjustPointsResult × Db)}
            (ok (adjust_result (some stamp.log_uuid) false moved, m2))
            (ok (r, db'))
        → IsAdjusted stamp key p db r db'
    finish m1 moved m2 ran1 ran2 end =
        let (new_log, e1) = create_admin_log-ok (audit_log stamp p) db ran1 in
        let last : m2 ≡ db' = ground arith in
        record {
          new_log = new_log;
          moved = moved;
          applied =
              subst
                (λ x.
                  IsApplied stamp.ledger p.target_user_id p.dto.direction p.dto.amount_minor false
                    (ref_of (adjust_mutation stamp key p))
                    (record db { admin_logs = audit_log stamp p ∷ db.admin_logs }) moved x)
                last
                (subst
                  (λ x.
                    IsApplied stamp.ledger p.target_user_id p.dto.direction p.dto.amount_minor false
                      (ref_of (adjust_mutation stamp key p)) x moved m2)
                  e1 (mutate-IsApplied stamp.ledger (adjust_mutation stamp key p) m1 ran2));
          result = ground arith;
        }

module _ (others : Others) (stamp : AdjustStamp) (p : AdjustPointsParams) where
  -- What a call did under its key, by its answer.
  abbrev pub AdjustAccounts : String → Db → Outcome AdjustPointsResult → Type 0
  AdjustAccounts key db (ok r, db') =
      (IsAdjusted stamp key p (others.before_lock db) r db' × (r.replayed ≡ false))
      ⊎ (WroteNothing others db db' × (r.replayed ≡ true))
  AdjustAccounts key db (err e, db') = WroteNothing others db db'

  adjust_replay-AdjustAccounts :
      (key : String) (t : PointsTransaction) (db seen : Db)
      → WroteNothing others db seen
      → AdjustAccounts key db (adjust_replay t p seen, seen)
  unfolding adjust_replay
  adjust_replay-AdjustAccounts key t db seen w = elim (Bool-cases (adjustment_matches t p seen)) [
    | inl e ↦ rw e (inr (w, refl))
    | inr e ↦ rw e w
  ]

  adjust_reread_found-AdjustAccounts :
      (key : String) (found : Option PointsTransaction) (db seen : Db)
      → WroteNothing others db seen
      → AdjustAccounts key db (adjust_reread_found found p seen)
  adjust_reread_found-AdjustAccounts key none db seen w = w
  adjust_reread_found-AdjustAccounts key (some t) db seen w =
      adjust_replay-AdjustAccounts key t db seen w

  adjust_recover-AdjustAccounts :
      (key : String) (db : Db) (e : Error)
      → AdjustAccounts key db (adjust_recover others key p (err e, others.before_lock db))
  unfolding adjust_recover
  adjust_recover-AdjustAccounts key db unique_violation =
      adjust_reread_found-AdjustAccounts key _ db _ (inr (inr refl))
  adjust_recover-AdjustAccounts key db _ = inr (inl refl)

  adjust_found-AdjustAccounts :
      (key : String) (found : Option PointsTransaction) (db : Db)
      → AdjustAccounts key db (adjust_found found others stamp key p db)
  adjust_found-AdjustAccounts key (some t) db = adjust_replay-AdjustAccounts key t db db (inl refl)
  adjust_found-AdjustAccounts key none db =
      elim (Result-cases (run_adjustment_transaction stamp key p (others.before_lock db))) [
        | inl (r, e) ↦
            let adjusted = run_adjustment_transaction-IsAdjusted stamp key p _ e in
            rw (e, commit) (unfold adjust_recover in inl (adjusted, rw adjusted.result))
        | inr (x, e) ↦ rw (e, commit) (adjust_recover-AdjustAccounts key db x)
      ]

  -- What a call did, by its header: without a key, with an empty one, or for a user that is not
  -- there, the call is refused, and has written nothing.
  abbrev pub KeyedAccounts : Option String → Db → Outcome AdjustPointsResult → Type 0
  KeyedAccounts none db out = out ≡ (err idempotency_key_required, db)
  KeyedAccounts (some key) db out =
      ((str_eq key "" ≡ true) × (out ≡ (err idempotency_key_required, db)))
      ⊎ ((str_eq key "" ≡ false)
          × (any (λ u. u.id == p.target_user_id) db.users ≡ false)
          × (out ≡ (err not_found, db)))
      ⊎ ((str_eq key "" ≡ false)
          × (any (λ u. u.id == p.target_user_id) db.users ≡ true)
          × AdjustAccounts key db out)

  adjust_with_key-KeyedAccounts :
      (empty : Bool) (key : String) (db : Db)
      → str_eq key "" ≡ empty
      → KeyedAccounts (some key) db (adjust_with_key empty others stamp key p db)
  unfolding has_user
  adjust_with_key-KeyedAccounts true key db text = inl (text, refl)
  adjust_with_key-KeyedAccounts false key db text =
      elim (Bool-cases (any (λ u. u.id == p.target_user_id) db.users)) [
        | inl e ↦ rw e (inr (inr (text, refl, adjust_found-AdjustAccounts key _ db)))
        | inr e ↦ rw e (inr (inl (text, refl, refl)))
      ]

  adjust_keyed-KeyedAccounts :
      (k : Option String) (db : Db) → KeyedAccounts k db (adjust_keyed k others stamp p db)
  adjust_keyed-KeyedAccounts none db = refl
  adjust_keyed-KeyedAccounts (some key) db = adjust_with_key-KeyedAccounts _ key db refl

  -- A call of `adjust` without a key or with an empty one is refused with the 400, and otherwise one
  -- for a user that is not there with the 404; both have written nothing. Of the other calls, one that
  -- answers with a new result has written one audit log and the ledger row that refers to it, and one
  -- that replays or throws has written nothing.
  pub adjust-KeyedAccounts :
      (db : Db) → KeyedAccounts p.idempotency_key db (adjust others stamp p db)
  unfolding adjust
  adjust-KeyedAccounts db = adjust_keyed-KeyedAccounts p.idempotency_key db
