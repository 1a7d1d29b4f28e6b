-- ===== src/Database/Transactions.antt =====
-- The body of `prisma.$transaction(async (tx) => …)`, and the call itself. A body that throws
-- leaves nothing behind: PostgreSQL rolls it back. The row locks (`FOR UPDATE`) that the services
-- take first make the body one step; what other requests commit before it is an argument of the
-- operations that use it.
use jito_india_game.Database.Errors.{Error, Result, err, ok}
use jito_india_game.Database.Rows.{Db}
use jito_india_game.Prelude.{Bool, arith, false, inl, inr, refl, true, ◌≡◌, ◌⊎◌}

abbrev pub Tx : Type 0 → Type 0
Tx A = Db → Result (A × Db)

pub Result-cases {ℓ} :
    {A : Type ℓ} (r : Result A) → ((a : A) × (r ≡ ok a)) ⊎ ((e : Error) × (r ≡ err e))
Result-cases (ok a) = inl (a, refl)
Result-cases (err e) = inr (e, refl)

infixl 5 ◌>>=◌ ◌>>◌
abbrev pub ◌>>=◌ : {A B : Type 0} → Tx A → (A → Tx B) → Tx B
◌>>=◌ m f db = elim (m db) [ ok r ↦ f r.0 r.1 | err e ↦ err e ]

abbrev pub ◌>>◌ : {B : Type 0} → Tx (Unit {0}) → Tx B → Tx B
m >> k = m >>= λ _. k

abbrev pub pure : {A : Type 0} → A → Tx A
pure a db = ok (a, db)

abbrev pub throw : {A : Type 0} → Error → Tx A
throw e db = err e

abbrev pub throw_if : Bool → Error → Tx (Unit {0})
throw_if true e db = err e
throw_if false e db = ok (tt, db)

abbrev pub gets : {A : Type 0} → (Db → A) → Tx A
gets f db = ok (f db, db)

-- What a request leaves: its answer, and the committed tables.
abbrev pub Outcome : Type 0 → Type 0
Outcome A = Result A × Db

abbrev pub commit : {A : Type 0} → Db → Result (A × Db) → Outcome A
commit db (ok (a, db')) = (ok a, db')
commit db (err e) = (err e, db)

-- `prisma.$transaction(body)`.
abbrev pub transaction : {A : Type 0} → Tx A → Db → Outcome A
transaction body db = commit db (body db)

-- A body that succeeds has steps that succeed.
pub bind-eq-ok :
    {A B : Type 0} (m : Tx A) (f : A → Tx B) (db : Db) {b : B} {db' : Db}
    → (m >>= f) db ≡ ok (b, db')
    → (a : A) × (mid : Db) × (m db ≡ ok (a, mid)) × (f a mid ≡ ok (b, db'))
bind-eq-ok m f db h = elim (Result-cases (m db)) [
  | inl (r, e) ↦ (r.0, r.1, e, ground arith)
  | inr (x, e) ↦ cc
]

-- After a step that succeeds the body goes on with its value.
pub bind-ok :
    {A B : Type 0} (m : Tx A) (f : A → Tx B) (db : Db) {a : A} {mid : Db}
    → m db ≡ ok (a, mid)
    → (m >>= f) db ≡ f a mid
bind-ok m f db h = rw (h, ◌>>=◌)

pub bind-err :
    {A B : Type 0} (m : Tx A) (f : A → Tx B) (db : Db) {e : Error}
    → m db ≡ err e
    → (m >>= f) db ≡ err e
bind-err m f db h = rw (h, ◌>>=◌)
