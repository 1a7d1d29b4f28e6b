-- ===== src/Auth/Refresh/Valid.antt =====
-- The refreshes that are bound to succeed.
use Prim.Native.String.{String}
use jito_india_game.Auth.{Config, Libraries}
use jito_india_game.Auth.Refresh.{
  RefreshOthers, RefreshStamp, link_successor, refresh, refresh_body, refresh_live, refresh_locked,
  role_of, rotate, rotated, succeeded_by,
}
use jito_india_game.Auth.Sessions.{create_session, session_row, session_tokens}
use jito_india_game.Auth.Sessions.Moves.{by_hash, clashes_with, create_session_row_fresh, has_key}
use jito_india_game.Auth.Tables.{
  create_session_row, find_row, find_session, find_session_by_hash, find_user, is_unrevoked,
  update_rows,
}
use jito_india_game.Database.{Db, Session, bind-ok, ok}
use jito_india_game.Database.Statements.{fits_varchar, is_some}
use jito_india_game.Prelude.{
  Bool, List, [], any, arith, false, ltb, none, refl, some, true, ℕ, ◌==◌, ◌∙◌, ◌∷◌, ◌≡◌,
}

module _ (lib : Libraries) (config : Config) where
  present :
      (p : Session → Bool) (ss : List Session) (s : Session)
      → find_row p ss ≡ some s
      → is_some (find_row (λ r. r.id == s.id) ss) ≡ true
  present p [] s h = absurd (ground arith)
  present p (r ∷ ss) s h = ground (arith, present p ss s)

  link_present :
      (p : Session → Bool) (s row : Session) (now successor : ℕ) (db : Db)
      → find_row p db.sessions ≡ some s
      → link_successor s.id now successor (record db { sessions = row ∷ db.sessions })
        ≡ ok (
          tt,
          record db {
            sessions =
                update_rows (λ r. r.id == s.id) (succeeded_by now successor) (row ∷ db.sessions);
          },
        )
  unfolding link_successor find_session
  link_present p s row now successor db h = ground (arith, present p db.sessions s h)

  rotate_fresh :
      (stamp : RefreshStamp) (p : Session → Bool) (ip : String) (db : Db) (s : Session) (owner : ℕ)
      → find_row p db.sessions ≡ some s
      → is_some (find_user owner db.users) ≡ true
      → fits_varchar 45 ip ≡ true
      → fits_varchar 255 (lib.hash_token stamp.session.raw_token) ≡ true
      → any
          (clashes_with (session_row lib config stamp.session owner "jito-player" ip none))
          db.sessions
        ≡ false
      → (db' : Db) × (rotate lib config stamp ip s owner false "user" db
          ≡ ok (rotated (session_tokens lib config stamp.session owner "jito-player" "user"), db'))
  unfolding rotate create_session
  rotate_fresh stamp p ip db s owner found user f1 f2 fresh =
      let row = session_row lib config stamp.session owner "jito-player" ip none in
      let created = create_session_row_fresh row db owner refl user f1 f2 fresh in
      let linked = link_present p s row stamp.revoked_at stamp.session.session_uuid db found in
      (
        _,
        bind-ok (create_session lib config stamp.session owner "jito-player" "user" ip none) _ db
              (bind-ok (create_session_row row) _ db created)
            ∙ bind-ok (link_successor s.id stamp.revoked_at stamp.session.session_uuid) _ _ linked,
      )

  refresh_body_valid :
      (others : RefreshOthers) (stamp : RefreshStamp) (raw_token ip : String) (db : Db)
      (s : Session) (owner : ℕ)
      → find_session_by_hash (lib.hash_token raw_token) db.sessions ≡ some s
      → s.user_id ≡ some owner
      → is_unrevoked s ≡ true
      → ltb s.expires_at stamp.checked_at ≡ false
      → refresh_body lib config others stamp raw_token ip db
        ≡ rotate lib config stamp ip s owner false "user" db
  unfolding refresh_body refresh_locked refresh_live role_of
  refresh_body_valid others stamp raw_token ip db s owner found owned live unexpired = ground arith

  -- A refresh with the token of a player's session that is neither revoked nor expired succeeds,
  -- when the player's row is there, the new session's identifier and hash are new, and the address
  -- and the hash fit their columns.
  pub refresh_valid :
      (others : RefreshOthers) (stamp : RefreshStamp) (raw_token ip : String) (db : Db)
      (s : Session) (owner : ℕ)
      → find_session_by_hash (lib.hash_token raw_token) (others.before_lock db).sessions ≡ some s
      → s.user_id ≡ some owner
      → is_unrevoked s ≡ true
      → ltb s.expires_at stamp.checked_at ≡ false
      → is_some (find_user owner (others.before_lock db).users) ≡ true
      → fits_varchar 45 ip ≡ true
      → fits_varchar 255 (lib.hash_token stamp.session.raw_token) ≡ true
      → any
          (clashes_with (session_row lib config stamp.session owner "jito-player" ip none))
          (others.before_lock db).sessions
        ≡ false
      → (refresh lib config others stamp raw_token ip db).0
        ≡ ok (session_tokens lib config stamp.session owner "jito-player" "user")
  unfolding refresh find_session_by_hash
  refresh_valid others stamp raw_token ip db s owner found owned live unexpired user f1 f2 fresh =
      let k = by_hash (lib.hash_token raw_token) in
      let (db', rotation) =
        rotate_fresh stamp (has_key k) ip (others.before_lock db) s owner found user f1 f2 fresh in
      let body =
        refresh_body_valid others stamp raw_token ip (others.before_lock db) s owner found owned
          live unexpired in
      rw (body ∙ rotation) refl
