-- ===== src/Auth/Users.antt =====
-- services/api/src/users/users.service.ts: the profile, and the change of the password, which
-- revokes every session of the player in the same transaction.
use Prim.Native.String.{String}
use jito_india_game.Auth.{Libraries, MeResult, UserProfile, balance_of, to_profile}
use jito_india_game.Auth.Sessions.{owned_by, revoke_where}
use jito_india_game.Auth.Tables.{find_user, update_user, with_password_hash}
use jito_india_game.Database.{
  Db, Outcome, Result, Tx, User, err, gets, internal_error, ok, pure, record_not_found, throw,
  transaction, unauthorized, ◌>>=◌, ◌>>◌,
}
use jito_india_game.Prelude.{Bool, Option, false, none, some, true, ℕ}
use jito_india_game.Prelude.Text.{trim}

-- The fields of `getProfile`'s answer are those of `getMe`'s.
unfoldable pub get_profile : ℕ → Db → Result MeResult
get_profile user_id db = elim (find_user user_id db.users) [
  | none ↦ err record_not_found
  | some u ↦ ok (record { user = to_profile u; balance_minor = balance_of user_id db })
]

abbrev pub with_display_name : Option String → User → User
with_display_name none u = u
with_display_name (some name) u = record u { display_name = some (trim name) }

abbrev pub updated_profile : Option User → Tx UserProfile
updated_profile none = throw record_not_found
updated_profile (some u) = pure (to_profile u)

unfoldable pub update_profile : ℕ → Option String → Tx UserProfile
update_profile user_id display_name = do
  update_user user_id (with_display_name display_name)
  user ← gets (λ db. find_user user_id db.users)
  updated_profile user

pub record ChangePasswordDto : Type 0 where
  pub current_password : String
  pub new_password : String

pub record PasswordStamp : Type 0 where
  pub salt : ℕ
  pub now : ℕ

-- What other requests commit until the transaction begins, and until the revocation has its rows.
pub record PasswordOthers : Type 0 where
  pub before_update : Db → Db
  pub before_revocation : Db → Db

unfoldable pub replace_password : PasswordOthers → (now user_id : ℕ) → String → Tx (Unit {0})
replace_password others now user_id hash = do
  update_user user_id (with_password_hash hash)
  λ db. ok (tt, revoke_where (owned_by user_id false) now others.before_revocation db)

abbrev pub change_verified :
    Option Bool
    → Libraries
    → PasswordOthers
    → PasswordStamp
    → (user_id : ℕ) → (new_password : String) → Db
    → Outcome (Unit {0})
change_verified none lib others stamp user_id new_password db = (err internal_error, db)
change_verified (some false) lib others stamp user_id new_password db = (err unauthorized, db)
change_verified (some true) lib others stamp user_id new_password db =
    transaction
      (replace_password others stamp.now user_id (lib.hash_password stamp.salt new_password))
      (others.before_update db)

abbrev pub change_found :
    Option User
    → Libraries
    → PasswordOthers
    → PasswordStamp
    → (user_id : ℕ) → ChangePasswordDto
    → Db
    → Outcome (Unit {0})
change_found none lib others stamp user_id dto db = (err record_not_found, db)
change_found (some u) lib others stamp user_id dto db =
    change_verified (lib.verify_password u.password_hash dto.current_password) lib others stamp
      user_id dto.new_password db

unfoldable pub change_password :
    Libraries → PasswordOthers → PasswordStamp → ℕ → ChangePasswordDto → Db → Outcome (Unit {0})
change_password lib others stamp user_id dto db =
    change_found (find_user user_id db.users) lib others stamp user_id dto db
