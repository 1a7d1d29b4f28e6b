-- ===== src/Auth/Sessions.antt =====
-- `createSession`, `revokeAllSessions`, `logout`, `logoutAll` and `getMe` of
-- services/api/src/auth/auth.service.ts.
pub mod Moves
pub mod Unique
use text.Mathlib.Text.{◌==◌ as str_eq}
use Prim.Native.String.{String}
use jito_india_game.Auth.{AuthTokens, Config, Libraries, MeResult, balance_of, to_profile}
use jito_india_game.Auth.Tables.{create_session_row, find_user, revoke_sessions}
use jito_india_game.Database.{Db, Result, Session, Tx, err, ok, pure, record_not_found, ◌>>=◌, ◌>>◌}
use jito_india_game.Prelude.{
  Bool, Option, false, if◌then◌else◌, none, same_option, some, true, ℕ, ◌&&◌, ◌*◌, ◌+◌, ◌==◌,
}

-- What is generated while a session is created: the row's UUID, `randomBytes(32)`, the time and the
-- token's identifier.
pub record SessionStamp : Type 0 where
  pub session_uuid : ℕ
  pub raw_token : String
  pub issued_at : ℕ
  pub jti : ℕ

abbrev pub session_row :
    Libraries
    → Config
    → SessionStamp
    → (owner : ℕ) → (audience : String) → (ip : String) → Option String
    → Session
session_row lib config stamp owner audience ip user_agent =
    let is_player = str_eq audience "jito-player" in
    record {
      id = stamp.session_uuid;
      user_id = if is_player then some owner else none;
      admin_id = if is_player then none else some owner;
      refresh_token_hash = lib.hash_token stamp.raw_token;
      ip_address = ip;
      user_agent = user_agent;
      expires_at = stamp.issued_at + config.jwt_refresh_ttl_seconds * 1000;
      revoked_at = none;
      replaced_by_session_id = none;
    }

abbrev pub session_tokens :
    Libraries → Config → SessionStamp → (owner : ℕ) → (audience role : String) → AuthTokens
session_tokens lib config stamp owner audience role = record {
  access_token = lib.sign (record {
    sub = some owner;
    aud = audience;
    role = role;
    sid = some stamp.session_uuid;
    jti = stamp.jti;
  });
  refresh_token = stamp.raw_token;
  expires_in = config.jwt_access_ttl_seconds;
}

-- The tokens and the session's identifier.
unfoldable pub create_session :
    Libraries
    → Config
    → SessionStamp
    → (owner : ℕ) → (audience role : String) → (ip : String) → Option String
    → Tx (AuthTokens × ℕ)
create_session lib config stamp owner audience role ip user_agent = do
  create_session_row (session_row lib config stamp owner audience ip user_agent)
  pure (session_tokens lib config stamp owner audience role, stamp.session_uuid)

abbrev pub owned_by : (owner : ℕ) → (is_admin : Bool) → Session → Bool
owned_by owner true s = same_option s.admin_id (some owner)
owned_by owner false s = same_option s.user_id (some owner)

-- `meanwhile` is what other requests commit while the statement waits for its rows' locks.
unfoldable pub revoke_where : (Session → Bool) → (now : ℕ) → (meanwhile : Db → Db) → Db → Db
revoke_where p now meanwhile db =
    let then_db = meanwhile db in
    record then_db { sessions = revoke_sessions p now db.sessions then_db.sessions }

unfoldable pub revoke_all_sessions :
    (owner : ℕ) → (is_admin : Bool) → (now : ℕ) → (meanwhile : Db → Db) → Db → Db
revoke_all_sessions owner is_admin now meanwhile db =
    revoke_where (owned_by owner is_admin) now meanwhile db

abbrev in_scope : Option ℕ → Bool → Session → Bool
in_scope none is_admin s = true
in_scope (some owner) is_admin s = owned_by owner is_admin s

unfoldable pub logout :
    (session_id : ℕ)
    → (owner_id : Option ℕ) → (is_admin : Bool) → (now : ℕ) → (meanwhile : Db → Db) → Db
    → Db
logout session_id owner_id is_admin now meanwhile db =
    revoke_where (λ s. s.id == session_id && in_scope owner_id is_admin s) now meanwhile db

unfoldable pub logout_all : (user_id : ℕ) → (now : ℕ) → (meanwhile : Db → Db) → Db → Db
logout_all user_id now meanwhile db = revoke_where (owned_by user_id false) now meanwhile db

-- `findUniqueOrThrow` raises P2025.
unfoldable pub get_me : ℕ → Db → Result MeResult
get_me user_id db = elim (find_user user_id db.users) [
  | none ↦ err record_not_found
  | some u ↦ ok (record { user = to_profile u; balance_minor = balance_of user_id db })
]
