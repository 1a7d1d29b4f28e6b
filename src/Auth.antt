-- ===== src/Auth.antt =====
-- services/api/src/auth: the players' registration, login, refresh, logout and guards, with
-- services/api/src/users/users.service.ts and services/api/src/admin/auth/admin-auth.service.ts.
-- This file has the requests, the answers, the configuration and the third-party functions.
pub mod Tables
pub mod RateLimit
pub mod Sessions
pub mod Refresh
pub mod Login
pub mod Register
pub mod Guards
pub mod Users
pub mod Admins
pub mod Requests
use Prim.Native.String.{String}
use jito_india_game.Database.{
  AdminRole, Db, PointsAccount, User, UserStatus, operator, super_admin, viewer,
}
use jito_india_game.Database.Statements.{find_account}
use jito_india_game.Prelude.{Bool, Option, none, some, ℕ}
use jito_india_game.Prelude.Int.{pos, ℤ}

-- The claims that the services set; `none` is a claim that is missing or empty.
pub record JwtPayload : Type 0 where
  pub sub : Option ℕ
  pub aud : String
  pub role : String
  pub sid : Option ℕ
  pub jti : ℕ

-- argon2 (`verify` throws on a digest that it cannot read, which is `none`), `createHash('sha256')`
-- with its digest, `jwt.signAsync` with the service's secret, and `toLowerCase`.
pub record Libraries : Type 0 where
  pub hash_password : (salt : ℕ) → String → String
  pub verify_password : (digest plain : String) → Option Bool
  pub needs_rehash : String → Bool
  pub hash_token : String → String
  pub sign : JwtPayload → String
  pub to_lower_case : String → String

-- AppConfigService.
pub record Config : Type 0 where
  pub jwt_access_ttl_seconds : ℕ
  pub jwt_refresh_ttl_seconds : ℕ

pub record RegisterDto : Type 0 where
  pub username : String
  pub password : String
  pub email : Option String
  pub phone : Option String
  pub display_name : Option String

pub record LoginDto : Type 0 where
  pub username : String
  pub password : String

pub record AuthTokens : Type 0 where
  pub access_token : String
  pub refresh_token : String
  pub expires_in : ℕ

pub record UserProfile : Type 0 where
  pub id : ℕ
  pub username : String
  pub email : Option String
  pub phone : Option String
  pub display_name : Option String
  pub status : UserStatus
  pub created_at : ℕ

-- `balanceMinor` is printed in decimal.
pub record MeResult : Type 0 where
  pub user : UserProfile
  pub balance_minor : ℤ

pub record LoginResult : Type 0 where
  pub tokens : AuthTokens
  pub user : UserProfile
  pub balance_minor : ℤ

abbrev pub to_profile : User → UserProfile
to_profile user = record {
  id = user.id;
  username = user.username;
  email = user.email;
  phone = user.phone;
  display_name = user.display_name;
  status = user.status;
  created_at = user.created_at;
}

abbrev balance_or_zero : Option PointsAccount → ℤ
balance_or_zero none = pos 0
balance_or_zero (some a) = a.balance_minor

-- `user.pointsAccount?.balanceMinor ?? 0n`
abbrev pub balance_of : ℕ → Db → ℤ
balance_of user_id db = balance_or_zero (find_account user_id db.accounts)

abbrev pub role_name : AdminRole → String
role_name super_admin = "super_admin"
role_name operator = "operator"
role_name viewer = "viewer"
