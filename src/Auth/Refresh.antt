-- ===== src/Auth/Refresh.antt =====
-- `refresh` of services/api/src/auth/auth.service.ts: the rotation of a refresh token, and the
-- revocation of every session of its owner when a revoked token comes back.
pub mod Rotation
pub mod Reuse
pub mod Successor
pub mod Valid
use Prim.Native.String.{String}
use jito_india_game.Auth.{AuthTokens, Config, Libraries, role_name}
use jito_india_game.Auth.Sessions.{SessionStamp, create_session, revoke_all_sessions}
use jito_india_game.Auth.Tables.{
  find_admin, find_session, find_session_by_hash, is_unrevoked, update_rows,
}
use jito_india_game.Database.{
  Db, Outcome, Result, Session, Tx, err, ok, pure, record_not_found, refresh_token_reused,
  session_expired, session_revoked, transaction, ◌>>=◌, ◌>>◌,
}
use jito_india_game.Database.Statements.{is_some}
use jito_india_game.Prelude.{Bool, Option, false, if◌then◌else◌, ltb, none, some, true, ℕ, ◌==◌}

-- The outcome that the transaction returns, so that what it wrote is committed.
pub data RefreshOutcome : Type 0 where
  rotated : AuthTokens → RefreshOutcome
  invalid expired reused : RefreshOutcome

pub record RefreshStamp : Type 0 where
  pub checked_at : ℕ
  pub session : SessionStamp
  pub revoked_at : ℕ

-- `before_lock` is what other requests commit until `FOR UPDATE` has its row, `before_revocation`
-- until the revocation of the owner's sessions has its own.
pub record RefreshOthers : Type 0 where
  pub before_lock : Db → Db
  pub before_revocation : Db → Db

-- `s.user_id ?? s.admin_id`, and whether it is the administrator's.
abbrev pub session_owner : Session → Option (ℕ × Bool)
session_owner s = elim s.user_id [
  | some u ↦ some (u, false)
  | none ↦ elim s.admin_id [ some a ↦ some (a, true) | none ↦ none ]
]

-- The role claim: an administrator's is read from its row.
unfoldable pub role_of : (owner : ℕ) → (is_admin : Bool) → Db → Option String
role_of owner false db = some "user"
role_of owner true db = elim (find_admin owner db.admin_users) [
  | none ↦ none
  | some a ↦ some (role_name a.role)
]

abbrev pub audience_of : Bool → String
audience_of true = "jito-admin"
audience_of false = "jito-player"

abbrev pub succeeded_by : (now successor : ℕ) → Session → Session
succeeded_by now successor s = record s {
  revoked_at = some now;
  replaced_by_session_id = some successor;
}

-- tx.session.update({ where: { id }, data: { revokedAt, replacedBySessionId } })
unfoldable pub link_successor : (session_id now successor : ℕ) → Tx (Unit {0})
link_successor session_id now successor db =
    if is_some (find_session session_id db.sessions)
    then ok (
      tt,
      record db {
        sessions = update_rows (λ s. s.id == session_id) (succeeded_by now successor) db.sessions;
      },
    )
    else err record_not_found

unfoldable pub rotate :
    Libraries
    → Config
    → RefreshStamp
    → (ip : String) → Session
    → (owner : ℕ) → (is_admin : Bool) → (role : String) → Tx RefreshOutcome
rotate lib config stamp ip s owner is_admin role = do
  created ← create_session lib config stamp.session owner (audience_of is_admin) role ip none
  link_successor s.id stamp.revoked_at created.1
  pure (rotated created.0)

unfoldable pub refresh_live :
    Libraries → Config → RefreshStamp → (ip : String) → Session → Tx RefreshOutcome
refresh_live lib config stamp ip s db = elim (session_owner s) [
  | none ↦ ok (invalid, db)
  | some o ↦ elim (role_of o.0 o.1 db) [
    | none ↦ ok (invalid, db)
    | some role ↦ rotate lib config stamp ip s o.0 o.1 role db
  ]
]

unfoldable pub refresh_reused : RefreshOthers → RefreshStamp → Session → Tx RefreshOutcome
refresh_reused others stamp s db = elim (session_owner s) [
  | none ↦ ok (reused, db)
  | some o ↦ ok (reused, revoke_all_sessions o.0 o.1 stamp.revoked_at others.before_revocation db)
]

unfoldable pub refresh_locked :
    Libraries → Config → RefreshOthers → RefreshStamp → (ip : String) → Session → Tx RefreshOutcome
refresh_locked lib config others stamp ip s db =
    if ltb s.expires_at stamp.checked_at
    then ok (expired, db)
    else (if is_unrevoked s
        then refresh_live lib config stamp ip s db
        else refresh_reused others stamp s db)

-- The transaction's body, with the row that it locks.
unfoldable pub refresh_body :
    Libraries → Config → RefreshOthers → RefreshStamp → (raw_token ip : String) → Tx RefreshOutcome
refresh_body lib config others stamp raw_token ip db =
    elim (find_session_by_hash (lib.hash_token raw_token) db.sessions) [
      | none ↦ ok (invalid, db)
      | some s ↦ refresh_locked lib config others stamp ip s db
    ]

-- The exceptions that follow the commit.
abbrev pub refresh_answer : RefreshOutcome → Result AuthTokens
refresh_answer (rotated tokens) = ok tokens
refresh_answer expired = err session_expired
refresh_answer reused = err refresh_token_reused
refresh_answer invalid = err session_revoked

abbrev pub answered_refresh : Outcome RefreshOutcome → Outcome AuthTokens
answered_refresh (ok o, db) = (refresh_answer o, db)
answered_refresh (err e, db) = (err e, db)

unfoldable pub refresh :
    Libraries
    → Config
    → RefreshOthers
    → RefreshStamp
    → (raw_token ip : String) → Db
    → Outcome AuthTokens
refresh lib config others stamp raw_token ip db =
    answered_refresh
      (transaction (refresh_body lib config others stamp raw_token ip) (others.before_lock db))
