-- ===== src/Points/Mutation/Replay.antt =====
-- Idempotency: a key that is in the ledger is never applied again, and answers its first caller's
-- parameters only.
-- A call that answers with a result, new or replayed, leaves the row of that result in the ledger.
use Prim.Native.String.{String}
use jito_india_game.Database.{
  Db, Error, Outcome, PointsTransaction, Result-cases, commit, err, idempotency_key_reused, ok,
  transaction, unique_violation,
}
use jito_india_game.Database.Statements.{find_transaction}
use jito_india_game.Points.Invariant.{IsSound}
use jito_india_game.Points.Ledger.{
  ApplyLedgerMutationParams, LedgerMutationResult, Others, Stamp, apply_mutation,
  mutate_within_transaction, not_positive, owner_of, recover, replay, replay_matches, reread,
  to_result,
}
use jito_india_game.Points.Ledger.Steps.{mutate-IsApplied}
use jito_india_game.Points.Mutation.Recorded.{
  Describes, Describes→replay_matches, IsRecorded, replay-ok, replay_matches→Describes,
  reread_found-IsRecorded, transaction-IsRecorded,
}
use jito_india_game.Prelude.{
  Bool-cases, Option, Option-cases, ap, arith, false, inl, inr, none, refl, some, sym, true, ◌∙◌,
  ◌≡◌, ◌⊎◌,
}
use mathlib.Core.Path.{subst}

pub apply_mutation-IsRecorded :
    (others : Others) (stamp : Stamp) (p : ApplyLedgerMutationParams) (db : Db)
    {r : LedgerMutationResult} {db' : Db}
    → IsSound (others.before_lock db)
    → apply_mutation others stamp p db ≡ (ok r, db')
    → IsRecorded p r db'
unfolding apply_mutation
apply_mutation-IsRecorded others stamp p db {r} {db'} sound h =
    elim (Bool-cases (not_positive p.amount_minor)) [
      | inl bad ↦ absurd (ground arith)
      | inr good ↦ elim (Option-cases (find_transaction p.idempotency_key db.transactions)) [
        | inl fresh ↦ transaction-IsRecorded others stamp p _ good sound (rw (good, fresh) at h)
        | inr (t, e) ↦ reread_found-IsRecorded (some t) p db good (sym e) (rw (good, e) at h)
      ]
    ]

-- Later requests: the ledger only grows, and accounts keep their owners.
abbrev pub KeepsLedger : (Db → Db) → Type 0
KeepsLedger f =
    (db : Db) (k : String) (t : PointsTransaction)
    → find_transaction k db.transactions ≡ some t
    → (find_transaction k (f db).transactions ≡ some t) × (owner_of t (f db) ≡ owner_of t db)

-- A request that was answered with a result is answered with the same result, marked as a replay,
-- whenever it is sent again, and the second call writes nothing; whatever the ledger gained in
-- between, and whatever other requests do during the second call.
pub apply_mutation_retry :
    (others others' : Others) (stamp stamp' : Stamp) (p : ApplyLedgerMutationParams)
    (later : Db → Db) (db : Db) {r : LedgerMutationResult} {db' : Db}
    → IsSound (others.before_lock db)
    → KeepsLedger later
    → apply_mutation others stamp p db ≡ (ok r, db')
    → apply_mutation others' stamp' p (later db') ≡ (ok (record r { replayed = true }), later db')
unfolding apply_mutation
apply_mutation_retry others others' stamp stamp' p later db {r} {db'} sound keeps h =
    let m = apply_mutation-IsRecorded others stamp p db sound h in
    let (found, owner) = keeps db' _ m.row m.found in
    let (ho, hd, ha, ht, hr) = m.describes in
    rw (m.positive, found, replay-ok m.row p (later db') (owner ∙ ho, hd, ha, ht, hr), m.reported)

-- With a key that is in the ledger, a call writes nothing: it returns the row of that key as a
-- replay exactly if account, direction, amount and reference are those of the row, and otherwise
-- it answers 409.
pub apply_mutation_known_key :
    (others : Others) (stamp : Stamp) (p : ApplyLedgerMutationParams) (db : Db)
    (t : PointsTransaction)
    → not_positive p.amount_minor ≡ false
    → find_transaction p.idempotency_key db.transactions ≡ some t
    → ((apply_mutation others stamp p db ≡ (ok (to_result t true), db)) × Describes t p db)
      ⊎ ((apply_mutation others stamp p db ≡ (err idempotency_key_reused, db)) × ¬ Describes t p db)
unfolding apply_mutation replay
apply_mutation_known_key others stamp p db t positive found =
    elim (Bool-cases (replay_matches (owner_of t db) t p)) [
      | inl e ↦ inl (rw (positive, found, e), replay_matches→Describes (owner_of t db) t p e)
      | inr e ↦ inr (rw (positive, found, e), λ d. differs d e)
    ]
  where
    differs : Describes t p db → replay_matches (owner_of t db) t p ≡ false → ⊥
    differs (ho, hd, ha, ht, hr) e =
        cc (Describes→replay_matches (owner_of t db) t p ho hd ha ht hr, e)

-- The same request, sent twice at once: the other one commits while this one waits for the lock.
abbrev pub overtaken_by : Others → Stamp → ApplyLedgerMutationParams → Others
overtaken_by others stamp p = record {
  before_lock = λ db. (apply_mutation others stamp p db).1;
  before_reread = λ db. db;
}

-- What a call may answer when the row of its key is `r`'s: that result, or an error.
abbrev pub IsReplayOf : LedgerMutationResult → Db → Outcome LedgerMutationResult → Type 0
IsReplayOf r db out =
    (out.1 ≡ db) × ((out.0 ≡ ok (record r { replayed = true })) ⊎ ((e : Error) × (out.0 ≡ err e)))

replay-IsReplayOf :
    (p : ApplyLedgerMutationParams) (r : LedgerMutationResult) (db : Db)
    → IsRecorded p r db
    → IsReplayOf r db (reread p db)
replay-IsReplayOf p r db m =
    rw (m.found, replay-ok m.row p db m.describes) (refl, inl (rw m.reported))

lost_recover :
    (others : Others) (stamp : Stamp) (p : ApplyLedgerMutationParams) (r : LedgerMutationResult)
    (db : Db) (x : Error)
    → IsRecorded p r db
    → IsReplayOf r db (recover (overtaken_by others stamp p) p (err x, db))
unfolding recover
lost_recover others stamp p r db unique_violation m = replay-IsReplayOf p r db m
lost_recover others stamp p r db _ m = (refl, inr (_, refl))

lost_race :
    (others : Others) (stamp stamp' : Stamp) (p : ApplyLedgerMutationParams)
    (r : LedgerMutationResult) (db : Db)
    → IsRecorded p r db
    → IsReplayOf r db (
        recover
          (overtaken_by others stamp p)
          p
          (transaction (mutate_within_transaction stamp' p) db))
lost_race others stamp stamp' p r db m =
    elim (Result-cases (mutate_within_transaction stamp' p db)) [
      | inl (x, e) ↦ absurd (none-ne-some ((mutate-IsApplied stamp' p db e).fresh) m.found)
      | inr (x, e) ↦ rw (e, commit) (lost_recover others stamp p r db x m)
    ]
  where
    none-ne-some :
        {o : Option PointsTransaction} {t : PointsTransaction} → o ≡ none → o ≡ some t → ⊥
    none-ne-some e f = cc

-- Two requests with the same key and parameters, the second of which looks the key up before the
-- first commits: only the first is applied. The second leaves the tables that the first left, and
-- it answers with the result of the first, marked as a replay, or with an error.
pub apply_mutation_duplicate :
    (others : Others) (stamp stamp' : Stamp) (p : ApplyLedgerMutationParams) (db : Db)
    {r : LedgerMutationResult} {db' : Db}
    → find_transaction p.idempotency_key db.transactions ≡ none
    → IsSound (others.before_lock db)
    → apply_mutation others stamp p db ≡ (ok r, db')
    → IsReplayOf r db' (apply_mutation (overtaken_by others stamp p) stamp' p db)
unfolding apply_mutation
apply_mutation_duplicate others stamp stamp' p db {r} {db'} fresh sound h =
    let m = apply_mutation-IsRecorded others stamp p db sound h in
    let left : (apply_mutation others stamp p db).1 ≡ db' =
      ap (λ (o : Outcome LedgerMutationResult). o.1) h in
    rw (m.positive, fresh)
      (subst
        (λ x. IsReplayOf r db' (
          recover (overtaken_by others stamp p) p
            (transaction (mutate_within_transaction stamp' p) x)))
        (sym left) (lost_race others stamp stamp' p r db' m))
