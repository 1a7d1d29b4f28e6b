-- ===== src/Auth/Register.antt =====
-- `register` and `advisoryUniquenessCheck` of services/api/src/auth/auth.service.ts: a player and
-- its points account are created in one transaction.
pub mod Created
pub mod RoundTrip
pub mod Sound
use text.Mathlib.Text.{◌==◌ as str_eq}
use Prim.Native.String.{String}
use jito_india_game.Auth.{Libraries, RegisterDto, UserProfile, to_profile}
use jito_india_game.Auth.RateLimit.{
  RedisFaults, World, check_rate_limit, limited, register_rate_limit_ip_key, with_redis,
}
use jito_india_game.Auth.Tables.{create_account, create_user, same_text}
use jito_india_game.Database.{
  Db, Outcome, PointsAccount, Result, Tx, User, active, conflict, err, ok, pure, transaction,
  unique_violation, validation_error, ◌>>=◌, ◌>>◌,
}
use jito_india_game.Prelude.{
  Bool, List, Option, any, if◌then◌else◌, none, not, some, ℕ, ◌&&◌, ◌*◌, ◌||◌,
}
use jito_india_game.Prelude.Int.{pos}
use jito_india_game.Prelude.Text.{is_blank, trim}

pub record RegisterStamp : Type 0 where
  pub now : ℕ
  pub salt : ℕ
  pub user_uuid : ℕ
  pub account_uuid : ℕ

-- What other requests commit between the advisory check and the transaction, and Redis' faults.
pub record RegisterOthers : Type 0 where
  pub before_create : Db → Db
  pub faults : RedisFaults

abbrev map_some : (String → String) → Option String → Option String
map_some f none = none
map_some f (some s) = some (f s)

-- The fields as they are stored.
abbrev pub new_user : Libraries → RegisterStamp → RegisterDto → User
new_user lib stamp dto = record {
  id = stamp.user_uuid;
  username = trim dto.username;
  email = map_some (λ s. lib.to_lower_case (trim s)) dto.email;
  phone = map_some trim dto.phone;
  password_hash = lib.hash_password stamp.salt dto.password;
  display_name = map_some trim dto.display_name;
  status = active;
  failed_login_count = 0;
  locked_until = none;
  last_login_at = none;
  created_at = stamp.now;
}

abbrev pub new_account : RegisterStamp → PointsAccount
new_account stamp = record {
  id = stamp.account_uuid;
  user_id = stamp.user_uuid;
  balance_minor = pos 0;
  version = 0;
  updated_at = stamp.now;
}

abbrev matches_contact : User → User → Bool
matches_contact u v =
    str_eq v.username u.username
    || not (is_blank u.email) && same_text v.email u.email
    || not (is_blank u.phone) && same_text v.phone u.phone

-- `advisoryUniquenessCheck` finds a row.
unfoldable pub is_taken : User → List User → Bool
is_taken u us = any (matches_contact u) us

-- The body of the transaction.
unfoldable pub create_player : User → PointsAccount → Tx User
create_player u a = do create_user u; create_account a; pure u

-- P2002 becomes a conflict.
abbrev pub registered : Outcome User → Outcome UserProfile
registered (ok u, db) = (ok (to_profile u), db)
registered (err unique_violation, db) = (err conflict, db)
registered (err e, db) = (err e, db)

unfoldable pub register_user : RegisterOthers → User → PointsAccount → Db → Outcome UserProfile
register_user others u a db =
    if is_blank u.email && is_blank u.phone
    then (err validation_error, db)
    else (if is_taken u db.users
        then (err conflict, db)
        else registered (transaction (create_player u a) (others.before_create db)))

-- 3 registrations per address in an hour.
unfoldable pub register :
    Libraries
    → RegisterOthers
    → RegisterStamp
    → RegisterDto
    → (ip : String) → World
    → Result UserProfile × World
register lib others stamp dto ip w =
    limited
      (check_rate_limit others.faults stamp.now (register_rate_limit_ip_key ip) 3 (60 * 60) w.redis)
      (λ redis db.
        with_redis redis (register_user others (new_user lib stamp dto) (new_account stamp) db))
      w.db
