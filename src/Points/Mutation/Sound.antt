-- ===== src/Points/Mutation/Sound.antt =====
-- Whatever other requests do meanwhile, a call leaves sound tables, and an error writes nothing.
use jito_india_game.Database.{Db, Result, Result-cases, commit, err, transaction, unique_violation}
use jito_india_game.Database.Statements.{find_transaction}
use jito_india_game.Points.Invariant.{IsSound}
use jito_india_game.Points.Ledger.{
  ApplyLedgerMutationParams, LedgerMutationResult, Others, Stamp, apply_mutation,
  mutate_within_transaction, not_positive, recover, reread,
}
use jito_india_game.Points.Ledger.Steps.{mutate-IsApplied}
use jito_india_game.Points.Posting.{IsApplied-IsSound}
use jito_india_game.Prelude.{Bool-cases, Option-cases, arith, inl, inr, ◌≡◌}

-- What other requests commit keeps the tables sound.
abbrev pub KeepsSound : (Db → Db) → Type 0
KeepsSound f = (db : Db) → IsSound db → IsSound (f db)

commit-IsSound :
    (stamp : Stamp) (p : ApplyLedgerMutationParams) (db : Db)
    → IsSound db
    → IsSound (transaction (mutate_within_transaction stamp p) db).1
commit-IsSound stamp p db sound = elim (Result-cases (mutate_within_transaction stamp p db)) [
  | inl (r, e) ↦
      rw (e, commit) (IsApplied-IsSound stamp _ _ _ _ _ db sound (mutate-IsApplied stamp p db e))
  | inr (x, e) ↦ rw (e, commit) sound
]

reread-tables : (p : ApplyLedgerMutationParams) (db : Db) → (reread p db).1 ≡ db
reread-tables p db = ground arith

recover-IsSound :
    (others : Others) (p : ApplyLedgerMutationParams) (r : Result LedgerMutationResult) (db : Db)
    → KeepsSound others.before_reread
    → IsSound db
    → IsSound (recover others p (r, db)).1
unfolding recover
recover-IsSound others p (err unique_violation) db keeps sound = rw reread-tables (keeps db sound)
recover-IsSound others p _ db keeps sound = sound

-- If what other requests commit keeps the tables sound, so does `applyMutation`: on success, on
-- every error, on a replay and after a lost race.
pub apply_mutation-IsSound :
    (others : Others) (stamp : Stamp) (p : ApplyLedgerMutationParams) (db : Db)
    → KeepsSound others.before_lock
    → KeepsSound others.before_reread
    → IsSound db
    → IsSound (apply_mutation others stamp p db).1
unfolding apply_mutation
apply_mutation-IsSound others stamp p db before again sound =
    elim (Bool-cases (not_positive p.amount_minor)) [
      | inl bad ↦ rw bad sound
      | inr good ↦ elim (Option-cases (find_transaction p.idempotency_key db.transactions)) [
        | inl fresh ↦
            rw (good, fresh)
              (recover-IsSound others p _ _ again (commit-IsSound stamp p _ (before db sound)))
        | inr (t, e) ↦ rw (good, e) sound
      ]
    ]
