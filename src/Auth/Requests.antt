-- ===== src/Auth/Requests.antt =====
-- The requests that change the users, the administrators and the sessions, in any order and
-- interleaving. A request names the requests that commit while it runs. The rate limits only
-- refuse requests, so a run here is a run that they let through.
pub mod Moving
pub mod Changes
pub mod Logins
pub mod Serving
pub mod Spent
pub mod Ended
use Prim.Native.String.{String}
use jito_india_game.Auth.{Config, Libraries, LoginDto, RegisterDto}
use jito_india_game.Auth.Admins.{AdminLoginStamp, authenticate_admin}
use jito_india_game.Auth.Login.{LoginStamp, authenticate}
use jito_india_game.Auth.RateLimit.{RedisFaults}
use jito_india_game.Auth.Refresh.{RefreshStamp, refresh}
use jito_india_game.Auth.Register.{RegisterStamp, new_account, new_user, register_user}
use jito_india_game.Auth.Sessions.{logout, logout_all}
use jito_india_game.Auth.Users.{ChangePasswordDto, PasswordStamp, change_password, update_profile}
use jito_india_game.Database.{Db, transaction}
use jito_india_game.Prelude.{Bool, Option, ℕ}

mutual
  pub data AuthRequest : Type 0 where
    register_request : AuthRequests → RedisFaults → RegisterStamp → RegisterDto → AuthRequest
    login_request :
        (before_rehash before_update before_session : AuthRequests)
        → (ip_faults user_faults : RedisFaults) → LoginStamp
        → LoginDto
        → (ip : String) → Option String
        → AuthRequest
    refresh_request :
        (before_lock before_revocation : AuthRequests)
        → RefreshStamp
        → (raw_token ip : String) → AuthRequest
    logout_request :
        AuthRequests
        → (session_id : ℕ) → (owner_id : Option ℕ) → (is_admin : Bool) → (now : ℕ) → AuthRequest
    logout_all_request : AuthRequests → (user_id now : ℕ) → AuthRequest
    profile_request : (user_id : ℕ) → Option String → AuthRequest
    password_request :
        (before_update before_revocation : AuthRequests)
        → PasswordStamp
        → ℕ
        → ChangePasswordDto
        → AuthRequest
    admin_login_request :
        (before_session before_update : AuthRequests)
        → RedisFaults
        → AdminLoginStamp
        → LoginDto
        → (ip : String) → Option String
        → AuthRequest

  pub data AuthRequests : Type 0 where
    no_requests : AuthRequests
    then_requests : AuthRequest → AuthRequests → AuthRequests

module _ (lib : Libraries) (config : Config) where
  unfoldable mutual
    pub serve_auth : AuthRequest → Db → Db
    serve_auth (register_request before faults stamp dto) db =
        (register_user (record { before_create = serve_auths before; faults = faults })
          (new_user lib stamp dto) (new_account stamp) db).1
    serve_auth (login_request b1 b2 b3 f1 f2 stamp dto ip user_agent) db =
        (authenticate lib config
          (record {
            before_rehash = serve_auths b1;
            before_update = serve_auths b2;
            before_session = serve_auths b3;
            ip_faults = f1;
            user_faults = f2;
          })
          stamp dto ip user_agent db).1
    serve_auth (refresh_request b1 b2 stamp raw_token ip) db =
        (refresh lib config
          (record { before_lock = serve_auths b1; before_revocation = serve_auths b2 }) stamp
          raw_token ip db).1
    serve_auth (logout_request meanwhile session_id owner_id is_admin now) db =
        logout session_id owner_id is_admin now (serve_auths meanwhile) db
    serve_auth (logout_all_request meanwhile user_id now) db =
        logout_all user_id now (serve_auths meanwhile) db
    serve_auth (profile_request user_id display_name) db =
        (transaction (update_profile user_id display_name) db).1
    serve_auth (password_request b1 b2 stamp user_id dto) db =
        (change_password lib
          (record { before_update = serve_auths b1; before_revocation = serve_auths b2 }) stamp
          user_id dto db).1
    serve_auth (admin_login_request b1 b2 faults stamp dto ip user_agent) db =
        (authenticate_admin lib config
          (record {
            before_session = serve_auths b1;
            before_update = serve_auths b2;
            faults = faults;
          })
          stamp dto ip user_agent db).1

    pub serve_auths : AuthRequests → Db → Db
    serve_auths no_requests db = db
    serve_auths (then_requests r more) db = serve_auths more (serve_auth r db)
