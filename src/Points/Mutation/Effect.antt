-- ===== src/Points/Mutation/Effect.antt =====
-- A call either applies its mutation exactly once or writes nothing.
use jito_india_game.Database.{
  Db, Error, Outcome, PointsTransaction, Result-cases, commit, err, ok, transaction,
  unique_violation,
}
use jito_india_game.Database.Statements.{find_transaction}
use jito_india_game.Points.Ledger.{
  ApplyLedgerMutationParams, LedgerMutationResult, Others, Stamp, apply_mutation,
  mutate_within_transaction, not_positive, recover, ref_of, replay, reread_found, to_result,
}
use jito_india_game.Points.Ledger.Steps.{IsApplied, mutate-IsApplied}
use jito_india_game.Prelude.{
  Bool, Bool-cases, Option, Option-cases, arith, false, inl, inr, none, refl, some, true, ◌≡◌, ◌⊎◌,
}

-- Nothing of the call itself was written: the tables are those that other requests left.
abbrev pub WroteNothing : Others → Db → Db → Type 0
WroteNothing others db db' =
    (db' ≡ db)
    ⊎ (db' ≡ others.before_lock db)
    ⊎ (db' ≡ others.before_reread (others.before_lock db))

-- What a call did, by its answer.
abbrev pub Accounts :
    Others → Stamp → ApplyLedgerMutationParams → Db → Outcome LedgerMutationResult → Type 0
Accounts others stamp p db (ok r, db') =
    (IsApplied stamp p.user_id p.direction p.amount_minor p.allow_overdraw (ref_of p)
        (others.before_lock db) r db'
      × (r.replayed ≡ false))
    ⊎ (WroteNothing others db db' × (r.replayed ≡ true))
Accounts others stamp p db (err e, db') = WroteNothing others db db'

replay-replayed :
    (t : PointsTransaction) (p : ApplyLedgerMutationParams) (db : Db) {r : LedgerMutationResult}
    → replay t p db ≡ ok r
    → r.replayed ≡ true
unfolding replay to_result
replay-replayed t p db h = ground arith

replay-Accounts :
    (others : Others) (stamp : Stamp) (p : ApplyLedgerMutationParams) (db seen : Db)
    (t : PointsTransaction)
    → WroteNothing others db seen
    → Accounts others stamp p db (replay t p seen, seen)
replay-Accounts others stamp p db seen t w = elim (Result-cases (replay t p seen)) [
  | inl (r, e) ↦ rw e (inr (w, replay-replayed t p seen e))
  | inr (x, e) ↦ rw e w
]

reread_found-Accounts :
    (others : Others) (stamp : Stamp) (p : ApplyLedgerMutationParams) (db seen : Db)
    (found : Option PointsTransaction)
    → WroteNothing others db seen
    → Accounts others stamp p db (reread_found found p seen)
reread_found-Accounts others stamp p db seen none w = w
reread_found-Accounts others stamp p db seen (some t) w = replay-Accounts others stamp p db seen t w

recover-Accounts :
    (others : Others) (stamp : Stamp) (p : ApplyLedgerMutationParams) (db : Db) (e : Error)
    → Accounts others stamp p db (recover others p (err e, others.before_lock db))
unfolding recover
recover-Accounts others stamp p db unique_violation =
    reread_found-Accounts others stamp p db _ _ (inr (inr refl))
recover-Accounts others stamp p db _ = inr (inl refl)

to_result-replayed : (t : PointsTransaction) (b : Bool) → (to_result t b).replayed ≡ b
unfolding to_result
to_result-replayed t b = refl

transaction-Accounts :
    (others : Others) (stamp : Stamp) (p : ApplyLedgerMutationParams) (db : Db)
    → Accounts others stamp p db
        (recover others p (transaction (mutate_within_transaction stamp p) (others.before_lock db)))
transaction-Accounts others stamp p db =
    elim (Result-cases (mutate_within_transaction stamp p (others.before_lock db))) [
      | inl (r, e) ↦
          let applied = mutate-IsApplied stamp p _ e in
          rw (e, commit)
            (unfold recover in inl (applied, rw applied.result (to_result-replayed _ _)))
      | inr (x, e) ↦ rw (e, commit) (recover-Accounts others stamp p db x)
    ]

-- A call that answers with a new result has written exactly its ledger row and its balance; one
-- that replays or throws has written nothing.
pub apply_mutation-Accounts :
    (others : Others) (stamp : Stamp) (p : ApplyLedgerMutationParams) (db : Db)
    → Accounts others stamp p db (apply_mutation others stamp p db)
unfolding apply_mutation
apply_mutation-Accounts others stamp p db = elim (Bool-cases (not_positive p.amount_minor)) [
  | inl bad ↦ rw bad (inl refl)
  | inr good ↦ elim (Option-cases (find_transaction p.idempotency_key db.transactions)) [
    | inl fresh ↦ rw (good, fresh) (transaction-Accounts others stamp p db)
    | inr (t, e) ↦ rw (good, e) (replay-Accounts others stamp p db db t (inl refl))
  ]
]
