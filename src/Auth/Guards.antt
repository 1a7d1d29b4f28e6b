-- ===== src/Auth/Guards.antt =====
-- services/api/src/auth/guards and services/api/src/auth/strategies: what stands between a request
-- with a valid token and its handler. The signature, the expiry and the issuer of a token are
-- Passport's to check.
pub mod Ended
pub mod Admitted
use text.Mathlib.Text.{◌==◌ as str_eq}
use Prim.Native.String.{String}
use jito_india_game.Auth.{JwtPayload}
use jito_india_game.Auth.Sessions.{owned_by}
use jito_india_game.Auth.Tables.{find_admin, find_user, is_unrevoked}
use jito_india_game.Database.{
  AdminRole, AdminUser, Db, Result, Session, UserStatus, account_banned, account_suspended, active,
  banned, err, forbidden, ok, operator, session_revoked, super_admin, suspended, unauthorized,
  viewer,
}
use jito_india_game.Database.Statements.{is_some}
use jito_india_game.Prelude.{
  Bool, List, Option, [], any, false, if◌then◌else◌, leb, ltb, none, some, true, ℕ, ◌&&◌, ◌*◌, ◌+◌,
  ◌==◌, ◌∷◌,
}

abbrev validate_audience : String → JwtPayload → Result JwtPayload
validate_audience audience payload =
    if str_eq payload.aud audience
    then (if is_some payload.sub && is_some payload.sid then ok payload else err unauthorized)
    else err unauthorized

-- PlayerJwtStrategy.validate and AdminJwtStrategy.validate
unfoldable pub validate_player : JwtPayload → Result JwtPayload
validate_player payload = validate_audience "jito-player" payload

unfoldable pub validate_admin : JwtPayload → Result JwtPayload
validate_admin payload = validate_audience "jito-admin" payload

-- What Redis holds under `user:status:{id}`: any text.
pub record CachedStatus : Type 0 where
  pub user_id : ℕ
  pub status : String
  pub expires_at : ℕ

pub record CacheFaults : Type 0 where
  pub get_fails : Bool
  pub set_fails : Bool

abbrev pub status_cache_ttl_seconds : ℕ
status_cache_ttl_seconds = 60

unfoldable pub find_status : ℕ → ℕ → List CachedStatus → Option String
find_status now user [] = none
find_status now user (c ∷ more) =
    if c.user_id == user
    then (if leb c.expires_at now then none else some c.status)
    else find_status now user more

abbrev pub cached : CacheFaults → ℕ → ℕ → List CachedStatus → Option String
cached faults now user cache = if faults.get_fails then none else find_status now user cache

abbrev remember : CacheFaults → ℕ → ℕ → String → List CachedStatus → List CachedStatus
remember faults now user status cache =
    if faults.set_fails
    then cache
    else record {
      user_id = user;
      status = status;
      expires_at = now + status_cache_ttl_seconds * 1000;
    }
      ∷ cache

-- `user.status as string`
abbrev pub status_name : UserStatus → String
status_name active = "active"
status_name suspended = "suspended"
status_name banned = "banned"

-- The status of the cache, or else the user's own, which goes into the cache.
unfoldable pub get_cached_status :
    CacheFaults → (now user_id : ℕ) → List CachedStatus → Db → Result String × List CachedStatus
get_cached_status faults now user_id cache db = elim (cached faults now user_id cache) [
  | some status ↦ (ok status, cache)
  | none ↦ elim (find_user user_id db.users) [
    | none ↦ (err unauthorized, cache)
    | some u ↦ (ok (status_name u.status), remember faults now user_id (status_name u.status) cache)
  ]
]

abbrev pub is_usable_by : (owner : ℕ) → (is_admin : Bool) → (sid now : ℕ) → Session → Bool
is_usable_by owner is_admin sid now s =
    s.id == sid && owned_by owner is_admin s && is_unrevoked s && ltb now s.expires_at

-- session.findFirst({ where: { id, userId, revokedAt: null, expiresAt: { gt: now } } })
unfoldable pub has_session : (owner : ℕ) → (is_admin : Bool) → (sid now : ℕ) → List Session → Bool
has_session owner is_admin sid now ss = any (is_usable_by owner is_admin sid now) ss

abbrev pub admitted : Result String → Result (Unit {0})
admitted (ok status) =
    if str_eq status "suspended"
    then err account_suspended
    else (if str_eq status "banned" then err account_banned else ok tt)
admitted (err e) = err e

-- UserStatusGuard.canActivate
unfoldable pub user_status_guard :
    CacheFaults
    → (now : ℕ) → JwtPayload
    → List CachedStatus
    → Db
    → Result (Unit {0}) × List CachedStatus
user_status_guard faults now payload cache db = elim payload.sub [
  | none ↦ (err unauthorized, cache)
  | some sub ↦ elim payload.sid [
    | none ↦ (err unauthorized, cache)
    | some sid ↦
        if has_session sub false sid now db.sessions
        then (let r = get_cached_status faults now sub cache db in (admitted r.0, r.1))
        else (err session_revoked, cache)
  ]
]

abbrev active_admin : Option AdminUser → Result (Unit {0})
active_admin none = err unauthorized
active_admin (some a) = if a.is_active then ok tt else err forbidden

-- AdminStatusGuard.canActivate
unfoldable pub admin_status_guard : (now : ℕ) → JwtPayload → Db → Result (Unit {0})
admin_status_guard now payload db = elim payload.sub [
  | none ↦ err unauthorized
  | some sub ↦ elim payload.sid [
    | none ↦ err unauthorized
    | some sid ↦
        if has_session sub true sid now db.sessions
        then active_admin (find_admin sub db.admin_users)
        else err session_revoked
  ]
]

abbrev pub same_role : AdminRole → AdminRole → Bool
same_role super_admin super_admin = true
same_role operator operator = true
same_role viewer viewer = true
same_role a b = false

abbrev has_role : List AdminRole → Option AdminUser → Result (Unit {0})
has_role required none = err unauthorized
has_role required (some a) = if any (same_role a.role) required then ok tt else err forbidden

-- RolesGuard.canActivate: a handler without roles is open to every administrator.
unfoldable pub roles_guard : List AdminRole → JwtPayload → Db → Result (Unit {0})
roles_guard [] payload db = ok tt
roles_guard (r ∷ rs) payload db = elim payload.sub [
  | none ↦ err unauthorized
  | some sub ↦ has_role (r ∷ rs) (find_admin sub db.admin_users)
]
