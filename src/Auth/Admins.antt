-- ===== src/Auth/Admins.antt =====
-- services/api/src/admin/auth/admin-auth.service.ts: the administrators' login, refresh, logout and
-- `getMe`. Their sessions and tokens are the player service's.
use Prim.Native.String.{String}
use jito_india_game.Auth.{AuthTokens, Config, Libraries, LoginDto, role_name}
use jito_india_game.Auth.Login.{and_then}
use jito_india_game.Auth.RateLimit.{
  RedisFaults, World, admin_login_rate_limit_ip_key, check_rate_limit, limited, with_redis,
}
use jito_india_game.Auth.Refresh.{RefreshOthers, RefreshStamp, refresh}
use jito_india_game.Auth.Sessions.{SessionStamp, create_session, logout}
use jito_india_game.Auth.Tables.{find_admin, find_admin_by_name, update_admin}
use jito_india_game.Database.{
  AdminRole, AdminUser, Db, Outcome, Result, err, forbidden, internal_error, ok, record_not_found,
  transaction, unauthorized,
}
use jito_india_game.Prelude.{Bool, Option, false, if◌then◌else◌, none, some, true, ℕ, ◌*◌}
use jito_india_game.Prelude.Text.{trim}

pub record AdminLoginResult : Type 0 where
  pub tokens : AuthTokens
  pub id : ℕ
  pub username : String
  pub role : AdminRole
  pub is_active : Bool

pub record AdminProfile : Type 0 where
  pub id : ℕ
  pub username : String
  pub role : AdminRole
  pub is_active : Bool
  pub last_login_at : Option ℕ

pub record AdminLoginStamp : Type 0 where
  pub now : ℕ
  pub session : SessionStamp
  pub logged_in_at : ℕ

pub record AdminLoginOthers : Type 0 where
  pub before_session : Db → Db
  pub before_update : Db → Db
  pub faults : RedisFaults

abbrev admin_logged_in : ℕ → AdminUser → AdminUser
admin_logged_in now a = record a { last_login_at = some now }

abbrev admin_answer : AuthTokens → String → AdminUser → AdminLoginResult
admin_answer tokens username a = record {
  tokens = tokens;
  id = a.id;
  username = username;
  role = a.role;
  is_active = a.is_active;
}

-- The password is right: the session first, then the time of the login.
unfoldable pub complete_admin_login :
    Libraries
    → Config
    → AdminLoginOthers
    → AdminLoginStamp
    → (username ip : String) → Option String
    → AdminUser
    → Db
    → Outcome AdminLoginResult
complete_admin_login lib config others stamp username ip user_agent a db =
    and_then
      (transaction
        (create_session lib config stamp.session a.id "jito-admin" (role_name a.role) ip user_agent)
        (others.before_session db))
      λ created db1.
        and_then
          (transaction (update_admin a.id (admin_logged_in stamp.logged_in_at))
            (others.before_update db1))
          λ u db2. (ok (admin_answer created.0 username a), db2)

abbrev pub answer_admin_password :
    Option Bool
    → Libraries
    → Config
    → AdminLoginOthers
    → AdminLoginStamp
    → (username ip : String) → Option String
    → AdminUser
    → Db
    → Outcome AdminLoginResult
answer_admin_password none lib config others stamp username ip user_agent a db =
    (err internal_error, db)
answer_admin_password (some false) lib config others stamp username ip user_agent a db =
    (err unauthorized, db)
answer_admin_password (some true) lib config others stamp username ip user_agent a db =
    complete_admin_login lib config others stamp username ip user_agent a db

abbrev pub login_admin :
    Option AdminUser
    → Libraries
    → Config
    → AdminLoginOthers
    → AdminLoginStamp
    → (username password ip : String) → Option String
    → Db
    → Outcome AdminLoginResult
login_admin none lib config others stamp username password ip user_agent db = (err unauthorized, db)
login_admin (some a) lib config others stamp username password ip user_agent db =
    if a.is_active
    then answer_admin_password (lib.verify_password a.password_hash password) lib config others
        stamp username ip user_agent a db
    else (err forbidden, db)

unfoldable pub authenticate_admin :
    Libraries
    → Config
    → AdminLoginOthers
    → AdminLoginStamp
    → LoginDto
    → (ip : String) → Option String
    → Db
    → Outcome AdminLoginResult
authenticate_admin lib config others stamp dto ip user_agent db =
    login_admin (find_admin_by_name (trim dto.username) db.admin_users) lib config others stamp
      (trim dto.username) dto.password ip user_agent db

-- 5 logins per address in 15 minutes.
unfoldable pub admin_login :
    Libraries
    → Config
    → AdminLoginOthers
    → AdminLoginStamp
    → LoginDto
    → (ip : String) → Option String
    → World
    → Result AdminLoginResult × World
admin_login lib config others stamp dto ip user_agent w =
    limited
      (check_rate_limit others.faults stamp.now (admin_login_rate_limit_ip_key ip) 5 (15 * 60)
        w.redis)
      (λ redis db.
        with_redis redis (authenticate_admin lib config others stamp dto ip user_agent db))
      w.db

unfoldable pub admin_refresh :
    Libraries
    → Config
    → RefreshOthers
    → RefreshStamp
    → (raw_token ip : String) → Db
    → Outcome AuthTokens
admin_refresh lib config others stamp raw_token ip db =
    refresh lib config others stamp raw_token ip db

unfoldable pub admin_logout :
    (session_id : ℕ) → (admin_id : Option ℕ) → (now : ℕ) → (meanwhile : Db → Db) → Db → Db
admin_logout session_id admin_id now meanwhile db = logout session_id admin_id true now meanwhile db

unfoldable pub get_admin : ℕ → Db → Result AdminProfile
get_admin admin_id db = elim (find_admin admin_id db.admin_users) [
  | none ↦ err record_not_found
  | some a ↦ ok (record {
    id = a.id;
    username = a.username;
    role = a.role;
    is_active = a.is_active;
    last_login_at = a.last_login_at;
  })
]
