-- ===== src/Auth/Tables.antt =====
-- The statements on users, administrators and sessions, with the UNIQUE indexes, the CHECK
-- constraints and the column types of services/api/prisma/migrations.
pub mod Found
use text.Mathlib.Text.{◌==◌ as str_eq}
use Prim.Native.String.{String}
use jito_india_game.Database.{
  AdminUser, Db, PointsAccount, Session, Tx, User, constraint_violation, err, ok, record_not_found,
  unique_violation,
}
use jito_india_game.Database.Statements.{fits_varchar, is_some}
use jito_india_game.Prelude.{
  Bool, List, Option, [], any, false, if◌then◌else◌, ltb, none, some, true, ℕ, ◌&&◌, ◌==◌, ◌||◌,
  ◌∷◌,
}

module _ {ℓ} {A : Type ℓ} where
  -- The first row that a test accepts, with none when there is no such row.
  abbrev pub find_row : (A → Bool) → List A → Option A
  find_row p [] = none
  find_row p (x ∷ xs) = if p x then some x else find_row p xs

  -- UPDATE … WHERE: the rows that a test accepts are replaced.
  abbrev pub update_rows : (A → Bool) → (A → A) → List A → List A
  update_rows p f [] = []
  update_rows p f (x ∷ xs) = (if p x then f x else x) ∷ update_rows p f xs

-- Two columns of a UNIQUE index that admits several NULLs.
unfoldable pub same_text : Option String → Option String → Bool
same_text none b = false
same_text (some a) none = false
same_text (some a) (some b) = str_eq a b

unfoldable pub find_user : ℕ → List User → Option User
find_user i us = find_row (λ u. u.id == i) us

-- user.findUnique({ where: { username } })
unfoldable pub find_user_by_name : String → List User → Option User
find_user_by_name name us = find_row (λ u. str_eq u.username name) us

unfoldable pub find_admin : ℕ → List AdminUser → Option AdminUser
find_admin i admins = find_row (λ a. a.id == i) admins

unfoldable pub find_admin_by_name : String → List AdminUser → Option AdminUser
find_admin_by_name name admins = find_row (λ a. str_eq a.username name) admins

unfoldable pub find_session : ℕ → List Session → Option Session
find_session i ss = find_row (λ s. s.id == i) ss

-- SELECT … FROM sessions WHERE refresh_token_hash = $1 LIMIT 1 FOR UPDATE
unfoldable pub find_session_by_hash : String → List Session → Option Session
find_session_by_hash h ss = find_row (λ s. str_eq s.refresh_token_hash h) ss

abbrev fits_column : ℕ → Option String → Bool
fits_column n none = true
fits_column n (some s) = fits_varchar n s

-- VARCHAR(n) and SMALLINT.
unfoldable pub user_row_ok : User → Bool
user_row_ok u =
    fits_varchar 50 u.username
    && fits_column 255 u.email
    && fits_column 20 u.phone
    && fits_varchar 255 u.password_hash
    && fits_column 100 u.display_name
    && ltb u.failed_login_count 32768

-- The primary key, and the UNIQUE indexes on username, email and phone.
unfoldable pub user_clashes : User → User → Bool
user_clashes u v =
    v.id == u.id
    || str_eq v.username u.username
    || same_text v.email u.email
    || same_text v.phone u.phone

-- tx.user.create({ data })
unfoldable pub create_user : User → Tx (Unit {0})
create_user u db =
    if user_row_ok u
    then (if any (user_clashes u) db.users
        then err unique_violation
        else ok (tt, record db { users = u ∷ db.users }))
    else err constraint_violation

-- tx.pointsAccount.create({ data }): its user is the one that the same transaction created.
unfoldable pub create_account : PointsAccount → Tx (Unit {0})
create_account a db =
    if any (λ b. b.id == a.id || b.user_id == a.user_id) db.accounts
    then err unique_violation
    else ok (tt, record db { accounts = a ∷ db.accounts })

-- prisma.user.update({ where: { id }, data })
unfoldable pub update_user : ℕ → (User → User) → Tx (Unit {0})
update_user i change db = elim (find_user i db.users) [
  | none ↦ err record_not_found
  | some u ↦
      if user_row_ok (change u)
      then ok (tt, record db { users = update_rows (λ v. v.id == i) change db.users })
      else err constraint_violation
]

abbrev pub with_password_hash : String → User → User
with_password_hash hash u = record u { password_hash = hash }

unfoldable pub update_admin : ℕ → (AdminUser → AdminUser) → Tx (Unit {0})
update_admin i change db = elim (find_admin i db.admin_users) [
  | none ↦ err record_not_found
  | some a ↦ ok (tt, record db { admin_users = update_rows (λ b. b.id == i) change db.admin_users })
]

abbrev owner_exists : Option ℕ → Option ℕ → Db → Bool
owner_exists (some u) admin db = is_some (find_user u db.users)
owner_exists none (some a) db = is_some (find_admin a db.admin_users)
owner_exists none none db = false

-- session.create({ data }): `connect` requires the owner, ip_address is VARCHAR(45), and the
-- primary key and refresh_token_hash are UNIQUE. chk_sessions_exactly_one_owner holds of a row
-- that connects one owner.
unfoldable pub create_session_row : Session → Tx (Unit {0})
create_session_row s db =
    if owner_exists s.user_id s.admin_id db
    then (if fits_varchar 45 s.ip_address && fits_varchar 255 s.refresh_token_hash
        then (if any (λ r. r.id == s.id || str_eq r.refresh_token_hash s.refresh_token_hash)
              db.sessions
            then err unique_violation
            else ok (tt, record db { sessions = s ∷ db.sessions }))
        else err constraint_violation)
    else err record_not_found

abbrev pub is_unrevoked : Session → Bool
is_unrevoked s = elim s.revoked_at [ none ↦ true | some at ↦ false ]

abbrev pub revoke : ℕ → Session → Session
revoke now s = record s { revoked_at = some now }

-- session.updateMany({ where: { …, revokedAt: null }, data: { revokedAt: now } }) under READ
-- COMMITTED: the statement finds its rows in the tables as they were when it started, waits for
-- their locks, and tests each row again as it is then. Rows that others inserted meanwhile are not
-- among them.
unfoldable pub revoke_sessions :
    (Session → Bool) → ℕ → (snapshot current : List Session) → List Session
revoke_sessions p now snapshot current =
    update_rows
      (λ s. p s && is_unrevoked s && any (λ r. r.id == s.id && p r && is_unrevoked r) snapshot)
      (revoke now) current
