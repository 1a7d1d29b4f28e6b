-- ===== src/Auth/Requests/Ended.antt =====
-- A logout, a change of the password and a rotation end sessions for good: whatever requests
-- follow, the guards refuse their access tokens.
use Prim.Native.String.{String}
use jito_india_game.Auth.{Config, Libraries}
use jito_india_game.Auth.Guards.{CacheFaults, CachedStatus, user_status_guard}
use jito_india_game.Auth.Guards.Ended.{
  IsEnded, owned_by-IsKept, revoke_where-IsPinned, token_of, user_status_guard-IsEnded,
}
use jito_india_game.Auth.Refresh.{RefreshStamp, refresh}
use jito_india_game.Auth.Requests.{AuthRequests, serve_auths}
use jito_india_game.Auth.Requests.Serving.{serve_auths-Moves}
use jito_india_game.Auth.Requests.Spent.{is_revoked, is_revoked-IsKept, refresh-IsSpent}
use jito_india_game.Auth.Sessions.{logout, owned_by, revoke_where}
use jito_india_game.Auth.Sessions.Moves.{
  IsKept, IsPinned, Moved-IsPinned, SessionKey, by_hash, by_id, has_key, links, revokes,
}
use jito_india_game.Auth.Sessions.Unique.{HasUniqueKeys}
use jito_india_game.Auth.Tables.{
  find_row, find_session, find_session_by_hash, update_user, with_password_hash,
}
use jito_india_game.Auth.Users.{
  ChangePasswordDto, PasswordOthers, PasswordStamp, change_found, change_password, change_verified,
  replace_password,
}
use jito_india_game.Database.{
  Db, Result, Session, User, bind-eq-ok, commit, err, ok, refresh_token_reused, session_expired,
  session_revoked,
}
use jito_india_game.Prelude.{
  Bool, List, Option, arith, false, none, some, sym, true, ℕ, ◌&&◌, ◌==◌, ◌≡◌, ◌⊎◌,
}
use mathlib.Core.Path.{subst}

owned_session : (owner i : ℕ) → IsKept (λ s. s.id == i && owned_by owner false s)
owned_session owner i (revokes now) s h = h
owned_session owner i (links now successor) s h = h

module _ (lib : Libraries) (config : Config) where
  serve_auths-IsEnded :
      (sid : ℕ) (rs : AuthRequests) (db : Db)
      → IsEnded sid db
      → IsEnded sid (serve_auths lib config rs db)
  serve_auths-IsEnded sid rs db ended =
      Moved-IsPinned (by_id sid) is_revoked is_revoked-IsKept (serve_auths-Moves lib config rs db)
        ended

  -- After a player has logged a session of its own out, in a table of sessions with distinct
  -- identifiers and hashes, while other requests ran, and after any requests that follow, the guard answers 401 SESSION_REVOKED to the session's access tokens.
  pub logout_ends :
      (s : Session) (owner now : ℕ) (db : Db) (meanwhile later : AuthRequests)
      (faults : CacheFaults) (at jti : ℕ) (audience role : String) (cache : List CachedStatus)
      → HasUniqueKeys db.sessions
      → find_session s.id db.sessions ≡ some s
      → s.user_id ≡ some owner
      → user_status_guard faults at (token_of owner s.id audience role jti) cache (
          serve_auths lib config later
            (logout s.id (some owner) false now (serve_auths lib config meanwhile) db))
        ≡ (err session_revoked, cache)
  unfolding logout find_session
  logout_ends s owner now db meanwhile later faults at jti audience role cache u found owned =
      user_status_guard-IsEnded faults owner s.id at jti audience role cache _ (
        serve_auths-IsEnded s.id later _ (
          revoke_where-IsPinned (by_id s.id) (λ r. r.id == s.id && owned_by owner false r) now
            (serve_auths lib config meanwhile) db s (owned_session owner s.id)
            (serve_auths-Moves lib config meanwhile) u found (ground arith)))

  update_user-sessions :
      (i : ℕ) (f : User → User) (db : Db) {u : Unit {0}} {db' : Db}
      → update_user i f db ≡ ok (u, db')
      → db'.sessions ≡ db.sessions
  unfolding update_user
  update_user-sessions i f db h = ground arith

  replaced :
      (others : PasswordOthers) (now user_id : ℕ) (hash : String) (db : Db) {u : Unit {0}}
      {db' : Db}
      → replace_password others now user_id hash db ≡ ok (u, db')
      → (mid : Db) × (mid.sessions ≡ db.sessions)
        × (db' ≡ revoke_where (owned_by user_id false) now others.before_revocation mid)
  unfolding replace_password
  replaced others now user_id hash db h =
      let (u, mid, ran, rest) = bind-eq-ok (update_user user_id (with_password_hash hash)) _ db h in
      (mid, update_user-sessions user_id _ db ran, ground arith)

  verified_ok :
      (valid : Option Bool) (others : PasswordOthers) (stamp : PasswordStamp) (user_id : ℕ)
      (password : String) (db : Db) {db' : Db}
      → change_verified valid lib others stamp user_id password db ≡ (ok tt, db')
      → replace_password others stamp.now user_id
          (lib.hash_password stamp.salt password)
          (others.before_update db)
        ≡ ok (tt, db')
  verified_ok none others stamp user_id password db h = absurd (ground arith)
  verified_ok (some false) others stamp user_id password db h = absurd (ground arith)
  verified_ok (some true) others stamp user_id password db h =
      committed
        (replace_password others stamp.now user_id (lib.hash_password stamp.salt password)
          (others.before_update db))
        h
    where
      committed :
          (r : Result (Unit {0} × Db)) {db' : Db}
          → commit (others.before_update db) r ≡ (ok tt, db')
          → r ≡ ok (tt, db')
      committed (ok (tt, x)) h = ground arith
      committed (err e) h = absurd (ground arith)

  change_found_ok :
      (user : Option User) (others : PasswordOthers) (stamp : PasswordStamp) (user_id : ℕ)
      (dto : ChangePasswordDto) (db : Db) {db' : Db}
      → change_found user lib others stamp user_id dto db ≡ (ok tt, db')
      → replace_password others stamp.now user_id
          (lib.hash_password stamp.salt dto.new_password)
          (others.before_update db)
        ≡ ok (tt, db')
  change_found_ok none others stamp user_id dto db h = absurd (ground arith)
  change_found_ok (some user) others stamp user_id dto db h =
      verified_ok _ others stamp user_id dto.new_password db h

  -- A change of the password that succeeds ends every session of the player that was there when
  -- its transaction began, in a table of sessions with distinct identifiers and hashes: whatever requests run meanwhile and follow, the guard answers 401
  -- SESSION_REVOKED to the session's access tokens, and a refresh with its token is refused as
  -- expired or as reused.
  pub change_password_ends :
      (before meanwhile later : AuthRequests) (stamp : PasswordStamp) (user_id : ℕ)
      (dto : ChangePasswordDto) (db db' : Db) (s : Session) (raw_token : String)
      (faults : CacheFaults) (at jti : ℕ) (audience role : String) (cache : List CachedStatus)
      (others : Db → Db) (again : RefreshStamp) (ip : String)
      → HasUniqueKeys (serve_auths lib config before db).sessions
      → find_session s.id (serve_auths lib config before db).sessions ≡ some s
      → find_session_by_hash (lib.hash_token raw_token) (serve_auths lib config before db).sessions
        ≡ some s
      → s.user_id ≡ some user_id
      → change_password lib
          (record {
            before_update = serve_auths lib config before;
            before_revocation = serve_auths lib config meanwhile;
          })
          stamp
          user_id
          dto
          db
        ≡ (ok tt, db')
      → let second =
          refresh lib config
            (record { before_lock = serve_auths lib config later; before_revocation = others })
            again
            raw_token
            ip
            db' in
        (user_status_guard faults at
            (token_of user_id s.id audience role jti)
            cache
            (serve_auths lib config later db')
          ≡ (err session_revoked, cache))
        × ((second.0 ≡ err session_expired) ⊎ (second.0 ≡ err refresh_token_reused))
  unfolding change_password find_session find_session_by_hash
  change_password_ends before meanwhile later stamp user_id dto db db' s raw_token faults at jti
        audience role cache others again ip u found found' owned h =
      let (mid, same, e) =
        replaced _ stamp.now user_id _ (serve_auths lib config before db)
          (change_found_ok _ _ stamp user_id dto db h) in
      let ended : (k : SessionKey)
          → find_row (has_key k) (serve_auths lib config before db).sessions ≡ some s
          → IsPinned k is_revoked (serve_auths lib config later db').sessions =
        λ k f.
          Moved-IsPinned k is_revoked is_revoked-IsKept (serve_auths-Moves lib config later db') (
            subst (λ (d : Db). IsPinned k is_revoked d.sessions) (sym e)
              (revoke_where-IsPinned k (owned_by user_id false) stamp.now
                (serve_auths lib config meanwhile) mid s (owned_by-IsKept user_id false)
                (serve_auths-Moves lib config meanwhile) (subst HasUniqueKeys (sym same) u)
                (rw same f) (ground arith))) in
      (
        user_status_guard-IsEnded faults user_id s.id at jti audience role cache _
            (ended (by_id s.id) found),
        refresh-IsSpent lib config _ again raw_token ip db'
            (ended (by_hash (lib.hash_token raw_token)) found'),
      )
