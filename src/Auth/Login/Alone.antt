-- ===== src/Auth/Login/Alone.antt =====
-- A login with the right password and nothing else going on succeeds.
use Prim.Native.String.{String}
use jito_india_game.Auth.{Config, Libraries, to_profile}
use jito_india_game.Auth.Login.{LoginStamp, complete_login, logged_in, rehash}
use jito_india_game.Auth.Login.Lockout.{quiet_login}
use jito_india_game.Auth.Sessions.{SessionStamp, create_session, session_row, session_tokens}
use jito_india_game.Auth.Sessions.Moves.{clashes_with, create_session_row_fresh}
use jito_india_game.Auth.Tables.{create_session_row, find_user, update_rows, user_row_ok}
use jito_india_game.Auth.Tables.Found.{find_row-update_rows, update_user-ok}
use jito_india_game.Database.{Db, User, bind-ok, ok}
use jito_india_game.Database.Statements.{fits_varchar, is_some}
use jito_india_game.Prelude.{List, Option, any, arith, false, refl, some, true, ℕ, ◌==◌, ◌∷◌, ◌≡◌}
use jito_india_game.Prelude.Int.{ℤ}

logged_in-user_row_ok :
    (now : ℕ) (u : User) → user_row_ok u ≡ true → user_row_ok (logged_in now u) ≡ true
unfolding user_row_ok
logged_in-user_row_ok now u h = ground arith

still_there :
    (now : ℕ) (u : User) (users : List User)
    → find_user u.id users ≡ some u
    → is_some (find_user u.id (update_rows (λ v. v.id == u.id) (logged_in now) users)) ≡ true
unfolding find_user
still_there now u users found = ground (
  arith,
  find_row-update_rows (λ v. v.id == u.id) (λ v. v.id == u.id) (logged_in now) users u (λ y. refl)
      found,
)

module _ (lib : Libraries) (config : Config) where
  create_session_fresh :
      (stamp : SessionStamp) (owner : ℕ) (ip : String) (user_agent : Option String) (db : Db)
      → is_some (find_user owner db.users) ≡ true
      → fits_varchar 45 ip ≡ true
      → fits_varchar 255 (lib.hash_token stamp.raw_token) ≡ true
      → any
          (clashes_with (session_row lib config stamp owner "jito-player" ip user_agent))
          db.sessions
        ≡ false
      → create_session lib config stamp owner "jito-player" "user" ip user_agent db
        ≡ ok (
          (session_tokens lib config stamp owner "jito-player" "user", stamp.session_uuid),
          record db {
            sessions = session_row lib config stamp owner "jito-player" ip user_agent ∷ db.sessions;
          },
        )
  unfolding create_session
  create_session_fresh stamp owner ip user_agent db there f1 f2 fresh =
      let row = session_row lib config stamp owner "jito-player" ip user_agent in
      bind-ok (create_session_row row) _ db
        (create_session_row_fresh row db owner refl there f1 f2 fresh)

  -- The right password of a player, with nothing else going on.
  pub complete_login-alone :
      (stamp : LoginStamp) (password ip : String) (user_agent : Option String) (u : User)
      (balance : ℤ) (db : Db)
      → lib.needs_rehash u.password_hash ≡ false
      → find_user u.id db.users ≡ some u
      → user_row_ok u ≡ true
      → fits_varchar 45 ip ≡ true
      → fits_varchar 255 (lib.hash_token stamp.session.raw_token) ≡ true
      → any
          (clashes_with (session_row lib config stamp.session u.id "jito-player" ip user_agent))
          db.sessions
        ≡ false
      → complete_login lib config quiet_login stamp password ip user_agent u balance db ≡ (
        ok (record {
          tokens = session_tokens lib config stamp.session u.id "jito-player" "user";
          user = to_profile u;
          balance_minor = balance;
        }),
        record db {
          users = update_rows (λ v. v.id == u.id) (logged_in stamp.now) db.users;
          sessions =
              session_row lib config stamp.session u.id "jito-player" ip user_agent ∷ db.sessions;
        },
      )
  unfolding complete_login rehash
  complete_login-alone stamp password ip user_agent u balance db no_rehash found fits f1 f2 fresh =
      let updated =
        update_user-ok u.id (logged_in stamp.now) u db found
          (logged_in-user_row_ok stamp.now u fits) in
      let db1 : Db = record db {
        users = update_rows (λ v. v.id == u.id) (logged_in stamp.now) db.users;
      } in
      let created =
        create_session_fresh stamp.session u.id ip user_agent db1
          (still_there stamp.now u db.users found) f1 f2 fresh in
      rw (no_rehash, updated, created) refl
