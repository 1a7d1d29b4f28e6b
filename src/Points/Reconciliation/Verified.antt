-- ===== src/Points/Reconciliation/Verified.antt =====
-- What the reconciliation reports: exactly the accounts whose balance is not their ledger sum.
use jito_india_game.Database.{Db, PointsAccount, PointsTransaction, TxnDirection, credit, debit, ok}
use jito_india_game.Database.Statements.{fits_bigint}
use jito_india_game.Points.Reconciliation.{
  AccountInvariantResult, check_account, compute_ledger_derived_balance, derived_balance,
  mismatches_of, reported, signed_amount, verify_all,
}
use jito_india_game.Prelude.{
  Bool, Bool-cases, List, [], arith, false, if◌then◌else◌, inl, inr, length, refl, true, ℕ, ◌&&◌,
  ◌==◌, ◌↔◌, ◌∷◌, ◌≡◌, ◌⊎◌,
}
use jito_india_game.Prelude.Int.{eq_of_parts, int_laws, pos, ℤ, ◌+ℤ◌, ◌-ℤ◌, ◌==ℤ◌}

abbrev is_of : TxnDirection → TxnDirection → Bool
is_of credit credit = true
is_of debit debit = true
is_of d d' = false

-- The total of an account's rows of one direction.
unfoldable pub total_of : TxnDirection → ℕ → List PointsTransaction → ℤ
total_of d i [] = pos 0
total_of d i (t ∷ ts) =
    if t.account_id == i && is_of d t.direction
    then t.amount_minor +ℤ total_of d i ts
    else total_of d i ts

-- An account whose balance is its credits less its debits.
abbrev pub IsReconciled : List PointsTransaction → PointsAccount → Type 0
IsReconciled ts a = a.balance_minor ≡ total_of credit a.id ts -ℤ total_of debit a.id ts

-- The credits less the debits of an account are a BIGINT.
abbrev pub IsInRange : List PointsTransaction → PointsAccount → Type 0
IsInRange ts a = fits_bigint (total_of credit a.id ts -ℤ total_of debit a.id ts) ≡ true

-- What holds of each account and of the ledger as the loop finds it at the account's turn.
abbrev pub AllSeen :
    (List PointsTransaction → PointsAccount → Type 0)
    → (PointsAccount → Db → Db)
    → List PointsAccount
    → Db
    → Type 0
AllSeen P meanwhile [] db = Unit
AllSeen P meanwhile (a ∷ more) db =
    P (meanwhile a db).transactions a × AllSeen P meanwhile more (meanwhile a db)

-- A report of the accounts that are not reconciled at their turn, in order, with both balances.
abbrev pub IsReport :
    (PointsAccount → Db → Db) → List PointsAccount → Db → List AccountInvariantResult → Type 0
IsReport meanwhile [] db out = out ≡ []
IsReport meanwhile (a ∷ more) db out =
    (IsReconciled (meanwhile a db).transactions a × IsReport meanwhile more (meanwhile a db) out)
    ⊎ ((rest : List AccountInvariantResult) × (¬ IsReconciled (meanwhile a db).transactions a)
        × (out
            ≡ record {
              user_id = a.user_id;
              account_id = a.id;
              projected_balance_minor = a.balance_minor;
              ledger_derived_balance_minor =
                  total_of credit a.id (meanwhile a db).transactions
                  -ℤ total_of debit a.id (meanwhile a db).transactions;
              matches = false;
            }
              ∷ rest)
        × IsReport meanwhile more (meanwhile a db) rest)

add_row :
    (here : Bool) (d : TxnDirection) (amount derived credits debits : ℤ)
    → derived ≡ credits -ℤ debits
    → (if here then derived +ℤ signed_amount d amount else derived)
      ≡ (if here && is_of credit d then amount +ℤ credits else credits)
        -ℤ (if here && is_of debit d then amount +ℤ debits else debits)
unfolding signed_amount
add_row true credit amount derived credits debits h = rw h (omega int_laws)
add_row true debit amount derived credits debits h = rw h (omega int_laws)
add_row false d amount derived credits debits h = h

pub compute_ledger_derived_balance-totals :
    (i : ℕ) (ts : List PointsTransaction)
    → compute_ledger_derived_balance i ts ≡ total_of credit i ts -ℤ total_of debit i ts
unfolding compute_ledger_derived_balance total_of
compute_ledger_derived_balance-totals i [] = omega int_laws
compute_ledger_derived_balance-totals i (t ∷ ts) =
    add_row (t.account_id == i) t.direction t.amount_minor _ _ _
      (compute_ledger_derived_balance-totals i ts)

derived_balance-ok :
    (i : ℕ) (ts : List PointsTransaction)
    → fits_bigint (total_of credit i ts -ℤ total_of debit i ts) ≡ true
    → derived_balance i ts ≡ ok (total_of credit i ts -ℤ total_of debit i ts)
unfolding derived_balance
derived_balance-ok i ts h = rw (compute_ledger_derived_balance-totals i ts, h) refl

==ℤ_iff : (a b : ℤ) → ((a ==ℤ b) ≡ true) ↔ (a ≡ b)
==ℤ_iff a b = (λ h. eq_of_parts a b (ground arith), λ h. ground arith)

-- One turn of the loop.
reported-IsReport :
    (meanwhile : PointsAccount → Db → Db) (a : PointsAccount) (more : List PointsAccount) (db : Db)
    (rest : List AccountInvariantResult)
    → IsReport meanwhile more (meanwhile a db) rest
    → let ts = (meanwhile a db).transactions in
      (out : List AccountInvariantResult) × (reported a
          (ok (total_of credit a.id ts -ℤ total_of debit a.id ts))
          (ok rest)
        ≡ ok out)
      × IsReport meanwhile (a ∷ more) db out
reported-IsReport meanwhile a more db rest h =
    let ts = (meanwhile a db).transactions in
    let derived = total_of credit a.id ts -ℤ total_of debit a.id ts in
    elim (Bool-cases (a.balance_minor ==ℤ derived)) [
      | inl e ↦ (rest, rw e refl, inl ((==ℤ_iff a.balance_minor derived).0 e, h))
      | inr e ↦ (
        record (check_account a derived) { matches = false } ∷ rest,
        rw e refl,
        inr (
          rest,
          (λ same. absurd (ground (arith, (==ℤ_iff a.balance_minor derived).1 same))),
          refl,
          h,
        ),
      )
    ]

mismatches_of-IsReport :
    (meanwhile : PointsAccount → Db → Db) (accounts : List PointsAccount) (db : Db)
    → AllSeen IsInRange meanwhile accounts db
    → (out : List AccountInvariantResult) × (mismatches_of meanwhile accounts db ≡ ok out)
      × IsReport meanwhile accounts db out
unfolding mismatches_of
mismatches_of-IsReport meanwhile [] db h = ([], refl, refl)
mismatches_of-IsReport meanwhile (a ∷ more) db (fits, h) =
    let (rest, e, r) = mismatches_of-IsReport meanwhile more (meanwhile a db) h in
    rw (derived_balance-ok a.id (meanwhile a db).transactions fits, e)
      (reported-IsReport meanwhile a more db rest r)

-- `verifyAll` looks at every account that it read, and, whatever other requests commit before each
-- sum, it reports exactly those accounts whose balance, as it was read, is not their credits less
-- their debits when they are summed, with both numbers, as long as these differences are BIGINTs.
pub verify_all_complete :
    (meanwhile : PointsAccount → Db → Db) (db : Db)
    → AllSeen IsInRange meanwhile db.accounts db
    → (out : List AccountInvariantResult) × (verify_all meanwhile db
        ≡ ok (record { checked = length db.accounts; mismatches = out }))
      × IsReport meanwhile db.accounts db out
unfolding verify_all
verify_all_complete meanwhile db h =
    let (out, e, r) = mismatches_of-IsReport meanwhile db.accounts db h in (out, rw e refl, r)

-- Nothing to report.
pub IsReport-nil :
    (meanwhile : PointsAccount → Db → Db) (accounts : List PointsAccount) (db : Db)
    (out : List AccountInvariantResult)
    → AllSeen IsReconciled meanwhile accounts db
    → IsReport meanwhile accounts db out
    → out ≡ []
IsReport-nil meanwhile [] db out h r = r
IsReport-nil meanwhile (a ∷ more) db out (p, h) (inl (_, r)) =
    IsReport-nil meanwhile more (meanwhile a db) out h r
IsReport-nil meanwhile (a ∷ more) db out (p, h) (inr (rest, apart, _, r)) = absurd (apart p)
