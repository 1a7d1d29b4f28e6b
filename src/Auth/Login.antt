-- ===== src/Auth/Login.antt =====
-- `login` and `handleFailedLogin` of services/api/src/auth/auth.service.ts. Its statements are
-- transactions of their own, and other requests commit between them.
pub mod Lockout
pub mod Alone
pub mod Success
use Prim.Native.String.{String}
use jito_india_game.Auth.{Config, Libraries, LoginDto, LoginResult, balance_of, to_profile}
use jito_india_game.Auth.RateLimit.{
  RedisFaults, World, check_rate_limit, limited, login_rate_limit_ip_key, login_rate_limit_user_key,
  with_redis,
}
use jito_india_game.Auth.Sessions.{SessionStamp, create_session}
use jito_india_game.Auth.Tables.{find_user_by_name, update_user, with_password_hash}
use jito_india_game.Database.{
  Db, Outcome, Result, Tx, User, active, err, internal_error, ok, transaction, unauthorized,
}
use jito_india_game.Prelude.{
  Bool, Option, false, if◌then◌else◌, leb, ltb, none, not, some, true, ℕ, ◌*◌, ◌+◌, ◌||◌,
}
use jito_india_game.Prelude.Int.{ℤ}
use jito_india_game.Prelude.Text.{trim}

abbrev pub lockout_threshold : ℕ
lockout_threshold = 10

abbrev pub lockout_duration_ms : ℕ
lockout_duration_ms = 15 * 60 * 1000

pub record LoginStamp : Type 0 where
  pub now : ℕ
  pub salt : ℕ
  pub session : SessionStamp

-- What other requests commit before each statement, and how Redis answers the two rate limits.
pub record LoginOthers : Type 0 where
  pub before_rehash : Db → Db
  pub before_update : Db → Db
  pub before_session : Db → Db
  pub ip_faults : RedisFaults
  pub user_faults : RedisFaults

-- A statement, or a transaction, after another one that may have failed.
abbrev pub and_then : {A B : Type 0} → Outcome A → (A → Db → Outcome B) → Outcome B
and_then (ok a, db) next = next a db
and_then (err e, db) next = (err e, db)

-- `user.lockedUntil && user.lockedUntil > new Date()`
abbrev pub is_locked : ℕ → User → Bool
is_locked now u = elim u.locked_until [ none ↦ false | some until ↦ ltb now until ]

abbrev pub is_active : User → Bool
is_active u = elim u.status [ active ↦ true | _ ↦ false ]

-- `lockedUntil: undefined` leaves the column as it is.
abbrev pub failed : (now current_count : ℕ) → User → User
failed now current_count u =
    if leb lockout_threshold (current_count + 1)
    then record u { failed_login_count = 0; locked_until = some (now + lockout_duration_ms) }
    else record u { failed_login_count = current_count + 1 }

-- The count is the one that the login read, not the row's.
unfoldable pub handle_failed_login : (now user_id current_count : ℕ) → Tx (Unit {0})
handle_failed_login now user_id current_count = update_user user_id (failed now current_count)

abbrev pub logged_in : ℕ → User → User
logged_in now u = record u { failed_login_count = 0; locked_until = none; last_login_at = some now }

unfoldable pub rehash :
    Libraries → LoginOthers → (salt : ℕ) → (password : String) → User → Db → Outcome (Unit {0})
rehash lib others salt password user db =
    if lib.needs_rehash user.password_hash
    then transaction (update_user user.id (with_password_hash (lib.hash_password salt password)))
        (others.before_rehash db)
    else (ok tt, db)

-- The password is right.
unfoldable pub complete_login :
    Libraries
    → Config
    → LoginOthers
    → LoginStamp
    → (password ip : String) → Option String
    → User
    → (balance : ℤ) → Db
    → Outcome LoginResult
complete_login lib config others stamp password ip user_agent user balance db =
    and_then (rehash lib others stamp.salt password user db) λ a db1.
      and_then (transaction (update_user user.id (logged_in stamp.now)) (others.before_update db1))
        λ b db2.
          and_then
            (transaction
              (create_session lib config stamp.session user.id "jito-player" "user" ip user_agent)
              (others.before_session db2))
            λ created db3. (
              ok (record { tokens = created.0; user = to_profile user; balance_minor = balance }),
              db3,
            )

unfoldable pub refuse_login : LoginOthers → (now : ℕ) → User → Db → Outcome LoginResult
refuse_login others now user db =
    and_then
      (transaction (handle_failed_login now user.id user.failed_login_count)
        (others.before_update db))
      λ a db1. (err unauthorized, db1)

abbrev pub answer_password :
    Option Bool
    → Libraries
    → Config
    → LoginOthers
    → LoginStamp
    → (password ip : String) → Option String
    → User
    → Db
    → Outcome LoginResult
answer_password none lib config others stamp password ip user_agent user db =
    (err internal_error, db)
answer_password (some true) lib config others stamp password ip user_agent user db =
    complete_login lib config others stamp password ip user_agent user (balance_of user.id db) db
answer_password (some false) lib config others stamp password ip user_agent user db =
    refuse_login others stamp.now user db

-- An account that is locked is refused before its password is verified; one that is not active is
-- refused whatever the verification says.
unfoldable pub login_user :
    Libraries
    → Config
    → LoginOthers
    → LoginStamp
    → (password ip : String) → Option String
    → User
    → Db
    → Outcome LoginResult
login_user lib config others stamp password ip user_agent user db =
    if is_locked stamp.now user || not (is_active user)
    then (err unauthorized, db)
    else answer_password (lib.verify_password user.password_hash password) lib config others stamp
        password ip user_agent user db

abbrev pub login_found :
    Option User
    → Libraries
    → Config
    → LoginOthers
    → LoginStamp
    → (password ip : String) → Option String
    → Db
    → Outcome LoginResult
login_found none lib config others stamp password ip user_agent db = (err unauthorized, db)
login_found (some user) lib config others stamp password ip user_agent db =
    login_user lib config others stamp password ip user_agent user db

unfoldable pub authenticate :
    Libraries
    → Config
    → LoginOthers
    → LoginStamp
    → LoginDto
    → (ip : String) → Option String
    → Db
    → Outcome LoginResult
authenticate lib config others stamp dto ip user_agent db =
    login_found (find_user_by_name (trim dto.username) db.users) lib config others stamp
      dto.password ip user_agent db

-- 5 logins per address and 10 per username in 15 minutes.
unfoldable pub login :
    Libraries
    → Config
    → LoginOthers
    → LoginStamp
    → LoginDto
    → (ip : String) → Option String
    → World
    → Result LoginResult × World
login lib config others stamp dto ip user_agent w =
    limited
      (check_rate_limit others.ip_faults stamp.now (login_rate_limit_ip_key ip) 5 (15 * 60) w.redis)
      (λ redis db.
        limited
          (check_rate_limit others.user_faults stamp.now
            (login_rate_limit_user_key (trim dto.username)) 10 (15 * 60) redis)
          (λ redis2 db2.
            with_redis redis2 (authenticate lib config others stamp dto ip user_agent db2))
          db)
      w.db
