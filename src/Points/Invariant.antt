-- ===== src/Points/Invariant.antt =====
-- The soundness of the points tables: every balance is the sum of its ledger rows and not negative,
-- no idempotency key occurs twice, and every ledger row adds up.
use jito_india_game.Database.{Db, PointsAccount, PointsTransaction, TxnDirection, credit, debit}
use jito_india_game.Database.Statements.{
  find_account, find_account_by_id, find_transaction, set_balance, with_balance,
}
use jito_india_game.Points.Ledger.{apply_direction, user_of}
use jito_india_game.Points.Reconciliation.{compute_ledger_derived_balance, signed_amount}
use jito_india_game.Prelude.{
  All, Bool-cases, List, [], arith, inl, inr, none, refl, some, ℕ, ◌==◌, ◌∷◌, ◌≡◌, ◌≢◌,
}
use jito_india_game.Prelude.Int.{int_laws, pos, ℤ, ◌+ℤ◌, ◌≤ℤ◌}
use mathlib.Core.Path.{subst}

-- points_accounts.balance_minor = SUM(credits) - SUM(debits), and it is not negative.
abbrev pub IsBalanced : List PointsTransaction → PointsAccount → Type 0
IsBalanced ts a =
    (a.balance_minor ≡ compute_ledger_derived_balance a.id ts) × (pos 0 ≤ℤ a.balance_minor)

abbrev pub HasDistinctKeys : List PointsTransaction → Type 0
HasDistinctKeys [] = Unit
HasDistinctKeys (t ∷ ts) = (find_transaction t.idempotency_key ts ≡ none) × HasDistinctKeys ts

-- A ledger row moves a positive amount in its direction, and does not overdraw.
abbrev pub AddsUp : PointsTransaction → Type 0
AddsUp t =
    (pos 1 ≤ℤ t.amount_minor)
    × (t.balance_after_minor ≡ apply_direction t.direction t.balance_before_minor t.amount_minor)
    × (pos 0 ≤ℤ t.balance_after_minor)

-- The primary key of points_accounts.
abbrev pub HasDistinctIds : List PointsAccount → Type 0
HasDistinctIds [] = Unit
HasDistinctIds (a ∷ more) = (find_account_by_id a.id more ≡ none) × HasDistinctIds more

pub record IsSound (db : Db) : Type 0 where
  pub balances : All (IsBalanced db.transactions) db.accounts
  pub ids : HasDistinctIds db.accounts
  pub keys : HasDistinctKeys db.transactions
  pub rows : All AddsUp db.transactions

-- What holds of every account holds of the one that is found.
pub find_account-All {κ} :
    (P : PointsAccount → Type κ) (u : ℕ) (accounts : List PointsAccount) {a : PointsAccount}
    → All P accounts
    → find_account u accounts ≡ some a
    → P a
unfolding find_account
find_account-All P u [] h e = absurd (ground arith)
find_account-All P u (x ∷ more) {a} (p, h) e = elim (Bool-cases (x.user_id == u)) [
  | inl same ↦ subst P (ground arith) p
  | inr other ↦ find_account-All P u more h (ground arith)
]

-- An update of one account keeps what the touched and the untouched accounts keep.
pub set_balance-All {κ μ} :
    (P : PointsAccount → Type κ) (Q : PointsAccount → Type μ) (i : ℕ) (z : ℤ) (now : ℕ)
    (accounts : List PointsAccount)
    → ((a : PointsAccount) → a.id ≡ i → P a → Q (with_balance z now a))
    → ((a : PointsAccount) → a.id ≢ i → P a → Q a)
    → All P accounts
    → All Q (set_balance i z now accounts)
unfolding set_balance
set_balance-All P Q i z now [] touched left h = tt
set_balance-All P Q i z now (a ∷ more) touched left (p, h) =
    let rest = set_balance-All P Q i z now more touched left h in
    elim (Bool-cases (a.id == i)) [
      | inl same ↦ rw same (touched a (ground arith) p, rest)
      | inr other ↦ rw other (left a (ground arith) p, rest)
    ]

pub apply_direction-eq-add :
    (d : TxnDirection) (before amount : ℤ)
    → apply_direction d before amount ≡ before +ℤ signed_amount d amount
unfolding apply_direction signed_amount
apply_direction-eq-add credit before amount = refl
apply_direction-eq-add debit before amount = omega int_laws

-- Who owns an account is not changed by an update of a balance.
pub user_of-set_balance :
    (i j : ℕ) (z : ℤ) (now : ℕ) (accounts : List PointsAccount)
    → user_of (find_account_by_id i (set_balance j z now accounts))
      ≡ user_of (find_account_by_id i accounts)
unfolding find_account_by_id set_balance
user_of-set_balance i j z now [] = refl
user_of-set_balance i j z now (a ∷ more) = ground (arith, user_of-set_balance i j z now more)

pub set_balance-none :
    (i j : ℕ) (z : ℤ) (now : ℕ) (accounts : List PointsAccount)
    → find_account_by_id i accounts ≡ none
    → find_account_by_id i (set_balance j z now accounts) ≡ none
unfolding find_account_by_id set_balance
set_balance-none i j z now [] h = refl
set_balance-none i j z now (a ∷ more) h = ground (arith, set_balance-none i j z now more)

pub set_balance-HasDistinctIds :
    (j : ℕ) (z : ℤ) (now : ℕ) (accounts : List PointsAccount)
    → HasDistinctIds accounts
    → HasDistinctIds (set_balance j z now accounts)
unfolding set_balance
set_balance-HasDistinctIds j z now [] h = tt
set_balance-HasDistinctIds j z now (a ∷ more) (p, h) =
    ground (arith, set_balance-none a.id j z now more p, set_balance-HasDistinctIds j z now more h)

-- An account that is found under its user has that user.
pub find_account-user_id :
    (u : ℕ) (accounts : List PointsAccount) {a : PointsAccount}
    → find_account u accounts ≡ some a
    → a.user_id ≡ u
unfolding find_account
find_account-user_id u [] e = absurd (ground arith)
find_account-user_id u (x ∷ more) {a} e = ground (arith, find_account-user_id u more {a = a})

-- An account that is found under its user is the one found under its identifier.
pub find_account_by_id-find_account :
    (u : ℕ) (accounts : List PointsAccount) {a : PointsAccount}
    → HasDistinctIds accounts
    → find_account u accounts ≡ some a
    → find_account_by_id a.id accounts ≡ some a
unfolding find_account find_account_by_id
find_account_by_id-find_account u [] h e = absurd (ground arith)
find_account_by_id-find_account u (x ∷ more) {a} (p, h) e =
    ground (arith, find_account_by_id-find_account u more {a = a} h)
