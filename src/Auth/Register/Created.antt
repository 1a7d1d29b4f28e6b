-- ===== src/Auth/Register/Created.antt =====
-- A registration creates the player and its points account together, or nothing.
use jito_india_game.Auth.{UserProfile, to_profile}
use jito_india_game.Auth.Register.{
  RegisterOthers, create_player, is_taken, register_user, registered,
}
use jito_india_game.Auth.Tables.{create_account, create_user, user_clashes, user_row_ok}
use jito_india_game.Database.{
  Db, Error, Outcome, PointsAccount, Result, User, bind-eq-ok, commit, err, ok, unique_violation,
}
use jito_india_game.Prelude.{
  Bool, any, ap, arith, false, if◌then◌else◌, inl, inr, refl, true, ◌&&◌, ◌==◌, ◌||◌, ◌∷◌, ◌≡◌, ◌⊎◌,
}
use jito_india_game.Prelude.Text.{is_blank}
use mathlib.Core.Path.{subst}

-- The tables after a registration.
abbrev pub with_player : User → PointsAccount → Db → Db
with_player u a db = record db { users = u ∷ db.users; accounts = a ∷ db.accounts }

pub record IsCreated (u : User) (a : PointsAccount) (db : Db) (r : User) (db' : Db) : Type 0 where
  pub fits : user_row_ok u ≡ true
  pub new_user_row : any (user_clashes u) db.users ≡ false
  pub new_account_row : any (λ b. b.id == a.id || b.user_id == a.user_id) db.accounts ≡ false
  pub table : db' ≡ with_player u a db
  pub result : r ≡ u

create_user-ok :
    (u : User) (db : Db) {x : Unit {0}} {db' : Db}
    → create_user u db ≡ ok (x, db')
    → (user_row_ok u ≡ true)
      × (any (user_clashes u) db.users ≡ false)
      × (db' ≡ record db { users = u ∷ db.users })
unfolding create_user
create_user-ok u db h = ground arith

create_account-ok :
    (a : PointsAccount) (db : Db) {x : Unit {0}} {db' : Db}
    → create_account a db ≡ ok (x, db')
    → (any (λ b. b.id == a.id || b.user_id == a.user_id) db.accounts ≡ false)
      × (db' ≡ record db { accounts = a ∷ db.accounts })
unfolding create_account
create_account-ok a db h = ground arith

create_player-IsCreated :
    (u : User) (a : PointsAccount) (db : Db) (r : User) (db' : Db)
    → create_player u a db ≡ ok (r, db')
    → IsCreated u a db r db'
unfolding create_player
create_player-IsCreated u a db r db' h =
    let (x, m1, ran1, h1) = bind-eq-ok (create_user u) _ db h in
    let (y, m2, ran2, h2) = bind-eq-ok (create_account a) _ m1 h1 in
    let (fits, new_user_row, e1) = create_user-ok u db ran1 in
    let (new_account_row, e2) = create_account-ok a m1 ran2 in
    record {
      fits = fits;
      new_user_row = new_user_row;
      new_account_row =
          subst (λ (d : Db). any (λ b. b.id == a.id || b.user_id == a.user_id) d.accounts ≡ false)
            e1 new_account_row;
      table = ground arith;
      result = ground arith;
    }

-- The answer to a registration, from the tables that it met and those that its transaction met.
abbrev pub RegisterAccounts : User → PointsAccount → Db → Db → Outcome UserProfile → Type 0
RegisterAccounts u a db m (ok p, db') = (p ≡ to_profile u) × IsCreated u a m u db'
RegisterAccounts u a db m (err e, db') = (db' ≡ db) ⊎ (db' ≡ m)

registered-RegisterAccounts :
    (u : User) (a : PointsAccount) (db m : Db) (r : Result (User × Db))
    → ((v : User) (db' : Db) → r ≡ ok (v, db') → IsCreated u a m v db')
    → RegisterAccounts u a db m (registered (commit m r))
registered-RegisterAccounts u a db m (ok (v, db')) h =
    let c = h v db' refl in (ap to_profile c.result, subst (λ w. IsCreated u a m w db') c.result c)
registered-RegisterAccounts u a db m (err unique_violation) h = inr refl
registered-RegisterAccounts u a db m (err e) h = inr refl

if-RegisterAccounts :
    (u : User) (a : PointsAccount) (db m : Db) (b : Bool) (e : Error) (o : Outcome UserProfile)
    → RegisterAccounts u a db m o
    → RegisterAccounts u a db m (if b then (err e, db) else o)
if-RegisterAccounts u a db m true e o h = inl refl
if-RegisterAccounts u a db m false e o h = h

-- A registration that succeeds answers the player's profile and adds its row and its points
-- account to the tables that its transaction met, where neither clashes with another row; one that
-- fails writes nothing.
pub register_creates_both :
    (others : RegisterOthers) (u : User) (a : PointsAccount) (db : Db)
    → RegisterAccounts u a db (others.before_create db) (register_user others u a db)
unfolding register_user
register_creates_both others u a db =
    if-RegisterAccounts u a db (others.before_create db) (is_blank u.email && is_blank u.phone) _ _
      (if-RegisterAccounts u a db (others.before_create db) (is_taken u db.users) _ _ (
        registered-RegisterAccounts u a db (others.before_create db)
          (create_player u a (others.before_create db))
          (create_player-IsCreated u a (others.before_create db))))
