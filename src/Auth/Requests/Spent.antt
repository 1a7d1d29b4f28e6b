-- ===== src/Auth/Requests/Spent.antt =====
-- A refresh token is good for one rotation, whatever requests follow it.
use Prim.Native.String.{String}
use jito_india_game.Auth.{AuthTokens, Config, Libraries}
use jito_india_game.Auth.Refresh.{
  RefreshOthers, RefreshStamp, expired, session_owner, refresh, refresh_body, refresh_locked,
  refresh_reused, reused,
}
use jito_india_game.Auth.Refresh.Rotation.{IsRotated, refresh-ok}
use jito_india_game.Auth.Requests.{AuthRequests, serve_auths}
use jito_india_game.Auth.Requests.Serving.{serve_auths-Moves}
use jito_india_game.Auth.Sessions.{revoke_all_sessions}
use jito_india_game.Auth.Sessions.Moves.{
  IsKept, IsPinned, Moved-IsPinned, by_hash, creates, links, revokes, update_rows-IsPinned,
}
use jito_india_game.Auth.Sessions.Unique.{HasUniqueKeys, IsPinned-find_row, find_row-IsPinned}
use jito_india_game.Auth.Tables.{find_session_by_hash, is_unrevoked}
use jito_india_game.Database.{Db, Session, err, ok, refresh_token_reused, session_expired}
use jito_india_game.Prelude.{
  Bool, Bool-cases, Option-cases, arith, inl, inr, ltb, not, refl, sym, ℕ, ◌==◌, ◌≡◌, ◌⊎◌,
}
use mathlib.Core.Path.{subst}

abbrev pub is_revoked : Session → Bool
is_revoked s = not (is_unrevoked s)

pub is_revoked-IsKept : IsKept is_revoked
is_revoked-IsKept (revokes now) s h = refl
is_revoked-IsKept (links now successor) s h = refl

id-IsKept : (i : ℕ) → IsKept (λ s. s.id == i)
id-IsKept i (revokes now) s h = h
id-IsKept i (links now successor) s h = h

-- The token with this hash has been used, or its session has been revoked.
abbrev pub IsSpent : String → Db → Type 0
IsSpent h db = IsPinned (by_hash h) is_revoked db.sessions

module _ (lib : Libraries) (config : Config) where
  pub serve_auths-IsSpent :
      (h : String) (rs : AuthRequests) (db : Db)
      → IsSpent h db
      → IsSpent h (serve_auths lib config rs db)
  serve_auths-IsSpent h rs db spent =
      Moved-IsPinned (by_hash h) is_revoked is_revoked-IsKept (serve_auths-Moves lib config rs db)
        spent

  refresh_body-IsSpent :
      (others : RefreshOthers) (stamp : RefreshStamp) (raw_token ip : String) (db : Db)
      → IsSpent (lib.hash_token raw_token) db
      → (refresh_body lib config others stamp raw_token ip db ≡ ok (expired, db))
        ⊎ ((db' : Db) × (refresh_body lib config others stamp raw_token ip db ≡ ok (reused, db')))
  unfolding refresh_body refresh_locked refresh_reused find_session_by_hash
  refresh_body-IsSpent others stamp raw_token ip db spent =
      let (s, found, e) =
        IsPinned-find_row (by_hash (lib.hash_token raw_token)) is_revoked db.sessions spent in
      elim (Bool-cases (ltb s.expires_at stamp.checked_at)) [
        | inl t ↦ inl (ground arith)
        | inr f ↦ elim (Option-cases (session_owner s)) [
          | inl e' ↦ inr (db, ground arith)
          | inr (o, e') ↦ inr (
            revoke_all_sessions o.0 o.1 stamp.revoked_at others.before_revocation db,
            ground arith,
          )
        ]
      ]

  pub refresh-IsSpent :
      (others : RefreshOthers) (stamp : RefreshStamp) (raw_token ip : String) (db : Db)
      → IsSpent (lib.hash_token raw_token) (others.before_lock db)
      → ((refresh lib config others stamp raw_token ip db).0 ≡ err session_expired)
        ⊎ ((refresh lib config others stamp raw_token ip db).0 ≡ err refresh_token_reused)
  unfolding refresh
  refresh-IsSpent others stamp raw_token ip db spent =
      elim (refresh_body-IsSpent others stamp raw_token ip (others.before_lock db) spent) [
        | inl e ↦ inl (rw e refl)
        | inr (db', e) ↦ inr (rw e refl)
      ]

  IsRotated-IsSpent :
      (stamp : RefreshStamp) (raw_token ip : String) (db : Db) (tokens : AuthTokens) (db' : Db)
      → HasUniqueKeys db.sessions
      → IsRotated lib config stamp raw_token ip db tokens db'
      → IsSpent (lib.hash_token raw_token) db'
  unfolding find_session_by_hash
  IsRotated-IsSpent stamp raw_token ip db tokens db' u m =
      let of_old : IsPinned (by_hash (lib.hash_token raw_token)) (λ s. s.id == m.old.id)
          db.sessions =
        find_row-IsPinned (by_hash (lib.hash_token raw_token)) (λ s. s.id == m.old.id) db.sessions
          m.old u m.found (ground arith) in
      subst (IsSpent (lib.hash_token raw_token)) (sym m.table) (
        update_rows-IsPinned (by_hash (lib.hash_token raw_token)) is_revoked (λ s. s.id == m.old.id)
          (links stamp.revoked_at stamp.session.session_uuid) _ (λ s. refl)
          (Moved-IsPinned (by_hash (lib.hash_token raw_token)) (λ s. s.id == m.old.id)
            (id-IsKept m.old.id) (creates _ db.sessions m.fresh) of_old))

  -- When a refresh has rotated a token, on a table of sessions with distinct identifiers and hashes,
  -- and other requests have come and gone in any order, a second refresh with the same token is
  -- refused as expired or as reused.
  pub rotates_once :
      (others : RefreshOthers) (stamp : RefreshStamp) (raw_token ip : String) (db : Db)
      (tokens : AuthTokens) (db' : Db) (between : AuthRequests) (meanwhile : Db → Db)
      (again : RefreshStamp) (ip' : String)
      → HasUniqueKeys (others.before_lock db).sessions
      → refresh lib config others stamp raw_token ip db ≡ (ok tokens, db')
      → let second =
          refresh lib config
            (record { before_lock = serve_auths lib config between; before_revocation = meanwhile })
            again
            raw_token
            ip'
            db' in
        (second.0 ≡ err session_expired) ⊎ (second.0 ≡ err refresh_token_reused)
  rotates_once others stamp raw_token ip db tokens db' between meanwhile again ip' u h =
      refresh-IsSpent _ again raw_token ip' db' (
        serve_auths-IsSpent (lib.hash_token raw_token) between db' (
          IsRotated-IsSpent stamp raw_token ip (others.before_lock db) tokens db' u
            (refresh-ok lib config others stamp raw_token ip db h)))
