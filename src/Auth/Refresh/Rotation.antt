-- ===== src/Auth/Refresh/Rotation.antt =====
-- What a refresh does to the two sessions of a rotation.
use Prim.Native.String.{String}
use jito_india_game.Auth.{AuthTokens, Config, Libraries}
use jito_india_game.Auth.Refresh.{
  RefreshOthers, RefreshOutcome, RefreshStamp, answered_refresh, audience_of, expired, invalid,
  link_successor, session_owner, refresh, refresh_body, refresh_live, refresh_locked,
  refresh_reused, reused, role_of, rotate, rotated, succeeded_by,
}
use jito_india_game.Auth.Requests.Moving.{create_session_row-ok}
use jito_india_game.Auth.Sessions.{SessionStamp, create_session, session_row, session_tokens}
use jito_india_game.Auth.Sessions.Moves.{clashes_with}
use jito_india_game.Auth.Tables.{
  create_session_row, find_session_by_hash, is_unrevoked, update_rows,
}
use jito_india_game.Database.{Db, Result, Session, bind-eq-ok, commit, err, ok}
use jito_india_game.Prelude.{
  Bool, Bool-cases, Option, Option-cases, any, arith, false, inl, inr, ltb, none, some, true, ℕ,
  ◌==◌, ◌∷◌, ◌≡◌,
}

-- The session that a refresh locked, and what a rotation made of the tables.
pub record IsRotated (lib : Libraries) (config : Config) (stamp : RefreshStamp)
    (raw_token ip : String) (db : Db) (tokens : AuthTokens) (db' : Db) : Type 0 where
  pub old : Session
  pub owner : ℕ
  pub is_admin : Bool
  pub role : String
  pub found : find_session_by_hash (lib.hash_token raw_token) db.sessions ≡ some old
  pub unexpired : ltb old.expires_at stamp.checked_at ≡ false
  pub unrevoked : is_unrevoked old ≡ true
  pub owned : session_owner old ≡ some (owner, is_admin)
  pub has_role : role_of owner is_admin db ≡ some role
  pub fresh :
      any
        (clashes_with (session_row lib config stamp.session owner (audience_of is_admin) ip none))
        db.sessions
      ≡ false
  pub answer : tokens ≡ session_tokens lib config stamp.session owner (audience_of is_admin) role
  pub table : db' ≡ record db {
    sessions =
        update_rows
          (λ s. s.id == old.id)
          (succeeded_by stamp.revoked_at stamp.session.session_uuid)
          (session_row lib config stamp.session owner (audience_of is_admin) ip none ∷ db.sessions);
  }

module _ (lib : Libraries) (config : Config) where
  pub create_session-ok :
      (stamp : SessionStamp) (owner : ℕ) (audience role ip : String) (user_agent : Option String)
      (db : Db) {r : AuthTokens × ℕ} {db' : Db}
      → create_session lib config stamp owner audience role ip user_agent db ≡ ok (r, db')
      → (any (clashes_with (session_row lib config stamp owner audience ip user_agent)) db.sessions
          ≡ false)
        × (db' ≡ record db {
          sessions = session_row lib config stamp owner audience ip user_agent ∷ db.sessions;
        })
        × (r ≡ (session_tokens lib config stamp owner audience role, stamp.session_uuid))
  unfolding create_session
  create_session-ok stamp owner audience role ip user_agent db h =
      let (u, mid, ran, rest) =
        bind-eq-ok (create_session_row (session_row lib config stamp owner audience ip user_agent))
          _ db h in
      let (fresh, e) =
        create_session_row-ok (session_row lib config stamp owner audience ip user_agent) db ran in
      (fresh, ground arith, ground arith)

  link_successor-ok :
      (session_id now successor : ℕ) (db : Db) {u : Unit {0}} {db' : Db}
      → link_successor session_id now successor db ≡ ok (u, db')
      → db' ≡ record db {
        sessions = update_rows (λ s. s.id == session_id) (succeeded_by now successor) db.sessions;
      }
  unfolding link_successor
  link_successor-ok session_id now successor db h = ground arith

  rotate-ok :
      (stamp : RefreshStamp) (ip : String) (s : Session) (owner : ℕ) (is_admin : Bool)
      (role : String) (db : Db) {o : RefreshOutcome} {db' : Db}
      → rotate lib config stamp ip s owner is_admin role db ≡ ok (o, db')
      → (any
            (clashes_with
              (session_row lib config stamp.session owner (audience_of is_admin) ip none))
            db.sessions
          ≡ false)
        × (db' ≡ record db {
          sessions =
              update_rows
                (λ r. r.id == s.id)
                (succeeded_by stamp.revoked_at stamp.session.session_uuid)
                (session_row lib config stamp.session owner (audience_of is_admin) ip none
                  ∷ db.sessions);
        })
        × (o ≡ rotated (session_tokens lib config stamp.session owner (audience_of is_admin) role))
  unfolding rotate
  rotate-ok stamp ip s owner is_admin role db h =
      let (c, mid, ran, rest) =
        bind-eq-ok
          (create_session lib config stamp.session owner (audience_of is_admin) role ip none) _ db
          h in
      let (u, mid2, ran2, rest2) =
        bind-eq-ok (link_successor s.id stamp.revoked_at c.1) _ mid rest in
      let (fresh, e1, e2) =
        create_session-ok stamp.session owner (audience_of is_admin) role ip none db ran in
      let linked = link_successor-ok s.id stamp.revoked_at c.1 mid ran2 in
      (fresh, ground arith, ground arith)

  refresh_live-IsRotated :
      (stamp : RefreshStamp) (raw_token ip : String) (s : Session) (db : Db) (tokens : AuthTokens)
      (db' : Db)
      → find_session_by_hash (lib.hash_token raw_token) db.sessions ≡ some s
      → ltb s.expires_at stamp.checked_at ≡ false
      → is_unrevoked s ≡ true
      → refresh_live lib config stamp ip s db ≡ ok (rotated tokens, db')
      → IsRotated lib config stamp raw_token ip db tokens db'
  unfolding refresh_live rotate
  refresh_live-IsRotated stamp raw_token ip s db tokens db' found unexpired unrevoked h =
      elim (Option-cases (session_owner s)) [
        | inl e ↦ absurd (ground arith)
        | inr (o, e) ↦ elim (Option-cases (role_of o.0 o.1 db)) [
          | inl e' ↦ absurd (ground arith)
          | inr (role, e') ↦
              let (fresh, e1, e2) =
                rotate-ok stamp ip s o.0 o.1 role db {o = rotated tokens} {db' = db'}
                  (ground arith) in
              record {
                old = s;
                owner = o.0;
                is_admin = o.1;
                role = role;
                found = found;
                unexpired = unexpired;
                unrevoked = unrevoked;
                owned = e;
                has_role = e';
                fresh = fresh;
                answer = ground arith;
                table = e1;
              }
        ]
      ]

  pub refresh_body-IsRotated :
      (others : RefreshOthers) (stamp : RefreshStamp) (raw_token ip : String) (db : Db)
      {tokens : AuthTokens} {db' : Db}
      → refresh_body lib config others stamp raw_token ip db ≡ ok (rotated tokens, db')
      → IsRotated lib config stamp raw_token ip db tokens db'
  unfolding refresh_body refresh_locked refresh_reused
  refresh_body-IsRotated others stamp raw_token ip db h =
      elim (Option-cases (find_session_by_hash (lib.hash_token raw_token) db.sessions)) [
        | inl e ↦ absurd (ground arith)
        | inr (s, e) ↦ elim (Bool-cases (ltb s.expires_at stamp.checked_at)) [
          | inl t ↦ absurd (ground arith)
          | inr f ↦ elim (Bool-cases (is_unrevoked s)) [
            | inl t ↦ refresh_live-IsRotated stamp raw_token ip s db _ _ e f t (ground arith)
            | inr g ↦ absurd (ground arith)
          ]
        ]
      ]

  pub refresh-ok :
      (others : RefreshOthers) (stamp : RefreshStamp) (raw_token ip : String) (db : Db)
      {tokens : AuthTokens} {db' : Db}
      → refresh lib config others stamp raw_token ip db ≡ (ok tokens, db')
      → IsRotated lib config stamp raw_token ip (others.before_lock db) tokens db'
  unfolding refresh
  refresh-ok others stamp raw_token ip db h =
      refresh_body-IsRotated others stamp raw_token ip (others.before_lock db) (answered _ h)
    where
      answered :
          (r : Result (RefreshOutcome × Db)) {tokens : AuthTokens} {db' : Db}
          → answered_refresh (commit (others.before_lock db) r) ≡ (ok tokens, db')
          → r ≡ ok (rotated tokens, db')
      answered (ok (rotated tokens, db')) h = ground arith
      answered (ok (invalid, db')) h = absurd (ground arith)
      answered (ok (expired, db')) h = absurd (ground arith)
      answered (ok (reused, db')) h = absurd (ground arith)
      answered (err e) h = absurd (ground arith)
