-- ===== src/Auth/Register/RoundTrip.antt =====
-- A player who has registered can log in.
use Prim.Native.String.{String}
use jito_india_game.Auth.{
  Config, Libraries, LoginDto, LoginResult, RegisterDto, UserProfile, balance_of, to_profile,
}
use jito_india_game.Auth.Login.{LoginStamp, authenticate, login_user}
use jito_india_game.Auth.Login.Alone.{complete_login-alone}
use jito_india_game.Auth.Login.Lockout.{quiet_login}
use jito_india_game.Auth.Register.{
  RegisterOthers, RegisterStamp, new_account, new_user, register_user,
}
use jito_india_game.Auth.Register.Created.{RegisterAccounts, register_creates_both, with_player}
use jito_india_game.Auth.Sessions.{session_row, session_tokens}
use jito_india_game.Auth.Sessions.Moves.{clashes_with}
use jito_india_game.Auth.Tables.{find_user, find_user_by_name, user_row_ok}
use jito_india_game.Database.{Db, Session, User, ok}
use jito_india_game.Database.Statements.{find_account, fits_varchar}
use jito_india_game.Prelude.{Option, any, arith, false, refl, some, true, ◌≡◌}
use jito_india_game.Prelude.Int.{pos}
use jito_india_game.Prelude.Text.{trim}
use mathlib.Core.Path.{subst}
use text.Mathlib.TextEquality.{eq_iff}

module _ (lib : Libraries) (config : Config) where
  new_player_found :
      (stamp : RegisterStamp) (dto : RegisterDto) (db : Db)
      → find_user_by_name
          (trim dto.username)
          (with_player (new_user lib stamp dto) (new_account stamp) db).users
        ≡ some (new_user lib stamp dto)
  unfolding find_user_by_name
  new_player_found stamp dto db = ground (arith, eq_iff (trim dto.username) (trim dto.username))

  abbrev pub first_row : RegisterStamp → LoginStamp → (ip : String) → Option String → Session
  first_row stamp login_stamp ip user_agent =
      session_row lib config login_stamp.session stamp.user_uuid "jito-player" ip user_agent

  abbrev pub first_answer : RegisterStamp → LoginStamp → UserProfile → LoginResult
  first_answer stamp login_stamp profile = record {
    tokens = session_tokens lib config login_stamp.session stamp.user_uuid "jito-player" "user";
    user = profile;
    balance_minor = pos 0;
  }

  abbrev pub login_of : RegisterDto → LoginDto
  login_of dto = record { username = dto.username; password = dto.password }

  new_account_balance :
      (stamp : RegisterStamp) (u : User) (db : Db)
      → balance_of stamp.user_uuid (with_player u (new_account stamp) db) ≡ pos 0
  unfolding find_account
  new_account_balance stamp u db = ground arith

  new_player_logs_in :
      (stamp : RegisterStamp) (dto : RegisterDto) (m : Db) (login_stamp : LoginStamp) (ip : String)
      (user_agent : Option String)
      → user_row_ok (new_user lib stamp dto) ≡ true
      → lib.verify_password (lib.hash_password stamp.salt dto.password) dto.password ≡ some true
      → lib.needs_rehash (lib.hash_password stamp.salt dto.password) ≡ false
      → fits_varchar 45 ip ≡ true
      → fits_varchar 255 (lib.hash_token login_stamp.session.raw_token) ≡ true
      → any (clashes_with (first_row stamp login_stamp ip user_agent)) m.sessions ≡ false
      → (authenticate lib config quiet_login login_stamp
          (login_of dto)
          ip
          user_agent
          (with_player (new_user lib stamp dto) (new_account stamp) m)).0
        ≡ ok (first_answer stamp login_stamp (to_profile (new_user lib stamp dto)))
  unfolding authenticate login_user find_user
  new_player_logs_in stamp dto m login_stamp ip user_agent fits verifies no_rehash f1 f2 fresh =
      let u = new_user lib stamp dto in
      let db = with_player u (new_account stamp) m in
      rw
        (
          new_player_found stamp dto m,
          verifies,
          complete_login-alone lib config login_stamp dto.password ip user_agent u
              (balance_of u.id db) db no_rehash (ground arith) fits f1 f2 fresh,
          new_account_balance stamp u m,
        )
        refl

  -- A registration that succeeds is followed by a login that succeeds, with the registration's
  -- username and password, its profile and a balance of 0, when nothing runs meanwhile, argon2 verifies
  -- what it hashed and finds no rehash due, the session's identifier and hash are new, and the
  -- address and the hash fit their columns.
  pub register_then_login :
      (others : RegisterOthers) (stamp : RegisterStamp) (dto : RegisterDto) (db : Db)
      (profile : UserProfile) (db' : Db) (login_stamp : LoginStamp) (ip : String)
      (user_agent : Option String)
      → register_user others (new_user lib stamp dto) (new_account stamp) db ≡ (ok profile, db')
      → lib.verify_password (lib.hash_password stamp.salt dto.password) dto.password ≡ some true
      → lib.needs_rehash (lib.hash_password stamp.salt dto.password) ≡ false
      → fits_varchar 45 ip ≡ true
      → fits_varchar 255 (lib.hash_token login_stamp.session.raw_token) ≡ true
      → any (clashes_with (first_row stamp login_stamp ip user_agent)) db'.sessions ≡ false
      → (authenticate lib config quiet_login login_stamp (login_of dto) ip user_agent db').0
        ≡ ok (first_answer stamp login_stamp profile)
  register_then_login others stamp dto db profile db' login_stamp ip user_agent h verifies no_rehash
        f1 f2 fresh =
      let (p, c) =
        subst
          (RegisterAccounts (new_user lib stamp dto) (new_account stamp) db
            (others.before_create db))
          h (register_creates_both others (new_user lib stamp dto) (new_account stamp) db) in
      let fresh' =
        subst
          (λ (d : Db).
            any (clashes_with (first_row stamp login_stamp ip user_agent)) d.sessions ≡ false)
          c.table fresh in
      let logs_in =
        new_player_logs_in stamp dto (others.before_create db) login_stamp ip user_agent c.fits
          verifies no_rehash f1 f2 fresh' in
      rw (c.table, p) logs_in
