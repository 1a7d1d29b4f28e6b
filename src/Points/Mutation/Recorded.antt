-- ===== src/Points/Mutation/Recorded.antt =====
-- What a result leaves in the ledger: the row that later calls with its key are held against.
use jito_india_game.Database.{
  Db, Error, Outcome, PointsAccount, PointsTransaction, Result-cases, commit, err, ok, transaction,
  unique_violation,
}
use jito_india_game.Database.Statements.{find_account, find_transaction}
use jito_india_game.Points.Invariant.{
  IsSound, find_account-user_id, find_account_by_id-find_account, user_of-set_balance,
}
use jito_india_game.Points.Ledger.{
  ApplyLedgerMutationParams, LedgerMutationResult, Others, Stamp, ledger_row,
  mutate_within_transaction, not_positive, owner_of, recover, ref_of, replay, replay_matches,
  reread_found, to_result, user_of,
}
use jito_india_game.Points.Ledger.Steps.{IsApplied, locked_on, mutate-IsApplied, posted}
use jito_india_game.Prelude.{
  Bool-cases, List, Option, ap, arith, false, inl, inr, none, refl, some, sym, true, ℕ, ◌∙◌, ◌∷◌,
  ◌≡◌,
}
use mathlib.Core.Path.{subst}
use text.Mathlib.TextPositions.{eq_refl}

-- What makes a row the record of a request.
abbrev pub Describes : PointsTransaction → ApplyLedgerMutationParams → Db → Type 0
Describes t p db =
    (owner_of t db ≡ some p.user_id)
    × (t.direction ≡ p.direction)
    × (t.amount_minor ≡ p.amount_minor)
    × (t.reference_type ≡ p.reference_type)
    × (t.reference_id ≡ p.reference_id)

pub replay_matches→Describes :
    (owner : Option ℕ) (t : PointsTransaction) (p : ApplyLedgerMutationParams)
    → replay_matches owner t p ≡ true
    → (owner ≡ some p.user_id)
      × (t.direction ≡ p.direction)
      × (t.amount_minor ≡ p.amount_minor)
      × (t.reference_type ≡ p.reference_type)
      × (t.reference_id ≡ p.reference_id)
unfolding replay_matches
replay_matches→Describes owner t p h = ground arith

pub Describes→replay_matches :
    (owner : Option ℕ) (t : PointsTransaction) (p : ApplyLedgerMutationParams)
    → owner ≡ some p.user_id
    → t.direction ≡ p.direction
    → t.amount_minor ≡ p.amount_minor
    → t.reference_type ≡ p.reference_type
    → t.reference_id ≡ p.reference_id
    → replay_matches owner t p ≡ true
unfolding replay_matches
Describes→replay_matches owner t p ho hd ha ht hr = ground arith

pub replay-ok :
    (t : PointsTransaction) (p : ApplyLedgerMutationParams) (db : Db)
    → Describes t p db
    → replay t p db ≡ ok (to_result t true)
unfolding replay
replay-ok t p db (ho, hd, ha, ht, hr) =
    rw (Describes→replay_matches (owner_of t db) t p ho hd ha ht hr)

pub replay-Describes :
    (t : PointsTransaction) (p : ApplyLedgerMutationParams) (db : Db) {r : LedgerMutationResult}
    → replay t p db ≡ ok r
    → Describes t p db × (r ≡ to_result t true)
unfolding replay
replay-Describes t p db h = elim (Bool-cases (replay_matches (owner_of t db) t p)) [
  | inl e ↦ (replay_matches→Describes (owner_of t db) t p e, ground arith)
  | inr e ↦ absurd (ground arith)
]

-- The ledger of `db` holds the row that `r` reports, and the row answers to `p`.
pub record IsRecorded (p : ApplyLedgerMutationParams) (r : LedgerMutationResult) (db : Db)
    : Type 0 where
  pub row : PointsTransaction
  pub positive : not_positive p.amount_minor ≡ false
  pub found : find_transaction p.idempotency_key db.transactions ≡ some row
  pub describes : Describes row p db
  pub reported : record r { replayed = true } ≡ to_result row true

replay-IsRecorded :
    (t : PointsTransaction) (p : ApplyLedgerMutationParams) (db : Db) {r : LedgerMutationResult}
    → not_positive p.amount_minor ≡ false
    → find_transaction p.idempotency_key db.transactions ≡ some t
    → replay t p db ≡ ok r
    → IsRecorded p r db
unfolding to_result
replay-IsRecorded t p db positive found h =
    let (describes, same) = replay-Describes t p db h in
    record {
      row = t;
      positive = positive;
      found = found;
      describes = describes;
      reported = rw same;
    }

find_transaction-cons_self :
    (t : PointsTransaction) (ts : List PointsTransaction)
    → find_transaction t.idempotency_key (t ∷ ts) ≡ some t
unfolding find_transaction
find_transaction-cons_self t ts = rw (eq_refl t.idempotency_key)

posted-IsRecorded :
    (stamp : Stamp) (p : ApplyLedgerMutationParams) (a : PointsAccount) (db : Db)
    → not_positive p.amount_minor ≡ false
    → IsSound db
    → find_account p.user_id db.accounts ≡ some a
    → IsRecorded p
        (to_result (ledger_row stamp (locked_on p.direction p.amount_minor a) (ref_of p)) false)
        (posted stamp (locked_on p.direction p.amount_minor a) (ref_of p) db)
unfolding to_result
posted-IsRecorded stamp p a db positive sound found =
    let owner = user_of-set_balance a.id a.id _ stamp.now db.accounts in
    let by_id = find_account_by_id-find_account p.user_id db.accounts sound.ids found in
    record {
      row = ledger_row stamp (locked_on p.direction p.amount_minor a) (ref_of p);
      positive = positive;
      found = find_transaction-cons_self _ db.transactions;
      describes = (
        owner ∙ ap user_of by_id ∙ ap some (find_account-user_id p.user_id db.accounts found),
        refl,
        refl,
        refl,
        refl,
      );
      reported = refl;
    }

pub IsApplied-IsRecorded :
    (stamp : Stamp) (p : ApplyLedgerMutationParams) (db : Db) {r : LedgerMutationResult} {db' : Db}
    → IsSound db
    → IsApplied stamp p.user_id p.direction p.amount_minor p.allow_overdraw (ref_of p) db r db'
    → IsRecorded p r db'
IsApplied-IsRecorded stamp p db {r} {db'} sound m =
    subst (λ x. IsRecorded p r x) (sym m.tables)
      (subst
        (λ x.
          IsRecorded p x
            (posted stamp (locked_on p.direction p.amount_minor m.account) (ref_of p) db))
        (sym m.result) (posted-IsRecorded stamp p m.account db m.positive sound m.found))

pub reread_found-IsRecorded :
    (found : Option PointsTransaction) (p : ApplyLedgerMutationParams) (db : Db)
    {r : LedgerMutationResult} {db' : Db}
    → not_positive p.amount_minor ≡ false
    → found ≡ find_transaction p.idempotency_key db.transactions
    → reread_found found p db ≡ (ok r, db')
    → IsRecorded p r db'
reread_found-IsRecorded none p db positive found h = absurd (ground arith)
reread_found-IsRecorded (some t) p db {r} positive found h =
    subst (λ x. IsRecorded p r x) (ap (λ (o : Outcome LedgerMutationResult). o.1) h)
      (replay-IsRecorded t p db positive (sym found)
        (ap (λ (o : Outcome LedgerMutationResult). o.0) h))

recover-IsRecorded :
    (others : Others) (p : ApplyLedgerMutationParams) (x : Error) (mid : Db)
    {r : LedgerMutationResult} {db' : Db}
    → not_positive p.amount_minor ≡ false
    → recover others p (err x, mid) ≡ (ok r, db')
    → IsRecorded p r db'
unfolding recover
recover-IsRecorded others p unique_violation mid positive h =
    reread_found-IsRecorded _ p (others.before_reread mid) positive refl h
recover-IsRecorded others p _ mid positive h = absurd (ground arith)

pub recover-ok :
    (others : Others) (p : ApplyLedgerMutationParams) (r : LedgerMutationResult) (db : Db)
    → recover others p (ok r, db) ≡ (ok r, db)
unfolding recover
recover-ok others p r db = refl

pub transaction-IsRecorded :
    (others : Others) (stamp : Stamp) (p : ApplyLedgerMutationParams) (db : Db)
    {r : LedgerMutationResult} {db' : Db}
    → not_positive p.amount_minor ≡ false
    → IsSound db
    → recover others p (transaction (mutate_within_transaction stamp p) db) ≡ (ok r, db')
    → IsRecorded p r db'
transaction-IsRecorded others stamp p db {r} {db'} positive sound h =
    elim (Result-cases (mutate_within_transaction stamp p db)) [
      | inl ((x, mid), e) ↦
          let same = sym (recover-ok others p x mid) ∙ (rw (e, commit) at h) in
          let done : mutate_within_transaction stamp p db ≡ ok (r, db') = ground arith in
          IsApplied-IsRecorded stamp p db sound (mutate-IsApplied stamp p db done)
      | inr (x, e) ↦ recover-IsRecorded others p x db positive (rw (e, commit) at h)
    ]
