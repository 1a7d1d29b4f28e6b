-- ===== src/Auth/Requests/Logins.antt =====
-- The logins move the sessions table by creations only.
use Prim.Native.String.{String}
use jito_india_game.Auth.{Config, Libraries, LoginResult, role_name}
use jito_india_game.Auth.Admins.{
  AdminLoginOthers, AdminLoginStamp, answer_admin_password, complete_admin_login, login_admin,
}
use jito_india_game.Auth.Login.{
  LoginOthers, LoginStamp, answer_password, complete_login, handle_failed_login, is_active,
  is_locked, login_found, login_user, refuse_login, rehash,
}
use jito_india_game.Auth.Requests.Moving.{
  Moves, after_others, and_then-Moved, create_session-BodyMoves, transaction-Moved,
  update_admin-BodyMoves, update_user-BodyMoves,
}
use jito_india_game.Auth.Sessions.{create_session}
use jito_india_game.Auth.Sessions.Moves.{Moved, stays}
use jito_india_game.Auth.Tables.{update_admin, update_user}
use jito_india_game.Database.{AdminUser, Outcome, Session, User, transaction}
use jito_india_game.Prelude.{
  Bool, Bool-cases, List, Option, false, if◌then◌else◌, inl, inr, none, not, some, true, ℕ, ◌||◌,
}
use jito_india_game.Prelude.Int.{ℤ}

if-Moved :
    {A : Type 0} {ss : List Session} (b : Bool) (x y : Outcome A)
    → Moved ss x.1.sessions
    → Moved ss y.1.sessions
    → Moved ss (if b then x else y).1.sessions
if-Moved true x y hx hy = hx
if-Moved false x y hx hy = hy

module _ (lib : Libraries) (config : Config) where
  rehash-Moves :
      (others : LoginOthers) (salt : ℕ) (password : String) (user : User)
      → Moves others.before_rehash
      → Moves (λ db. (rehash lib others salt password user db).1)
  unfolding rehash
  rehash-Moves others salt password user m db =
      elim (Bool-cases (lib.needs_rehash user.password_hash)) [
        | inl t ↦ rw t (
            after_others others.before_rehash db _ m
              (transaction-Moved _ _ (update_user-BodyMoves user.id _)))
        | inr f ↦ rw f (stays db.sessions)
      ]

  complete_login-Moves :
      (others : LoginOthers) (stamp : LoginStamp) (password ip : String)
      (user_agent : Option String) (user : User) (balance : ℤ)
      → Moves others.before_rehash
      → Moves others.before_update
      → Moves others.before_session
      → Moves
          (λ db. (complete_login lib config others stamp password ip user_agent user balance db).1)
  unfolding complete_login
  complete_login-Moves others stamp password ip user_agent user balance m1 m2 m3 db =
      and_then-Moved _ (rehash lib others stamp.salt password user db) _
        (rehash-Moves others stamp.salt password user m1 db)
        λ a db1.
          and_then-Moved _ (transaction (update_user user.id _) (others.before_update db1)) _
            (after_others others.before_update db1 _ m2
              (transaction-Moved _ _ (update_user-BodyMoves user.id _)))
            λ b db2.
              and_then-Moved _
                (transaction
                  (create_session lib config stamp.session user.id "jito-player" "user" ip
                    user_agent)
                  (others.before_session db2))
                _
                (after_others others.before_session db2 _ m3
                  (transaction-Moved _ _ (create_session-BodyMoves lib config _ _ _ _ _ _)))
                λ created db3. stays db3.sessions

  answer_password-Moves :
      (valid : Option Bool) (others : LoginOthers) (stamp : LoginStamp) (password ip : String)
      (user_agent : Option String) (user : User)
      → Moves others.before_rehash
      → Moves others.before_update
      → Moves others.before_session
      → Moves
          (λ db. (answer_password valid lib config others stamp password ip user_agent user db).1)
  unfolding refuse_login handle_failed_login
  answer_password-Moves none others stamp password ip user_agent user m1 m2 m3 db =
      stays db.sessions
  answer_password-Moves (some true) others stamp password ip user_agent user m1 m2 m3 db =
      complete_login-Moves others stamp password ip user_agent user _ m1 m2 m3 db
  answer_password-Moves (some false) others stamp password ip user_agent user m1 m2 m3 db =
      and_then-Moved {B = LoginResult} _
        (transaction (handle_failed_login stamp.now user.id user.failed_login_count)
          (others.before_update db))
        _
        (after_others others.before_update db _ m2
          (transaction-Moved _ _ (update_user-BodyMoves user.id _)))
        λ a db1. stays db1.sessions

  pub login_found-Moves :
      (user : Option User) (others : LoginOthers) (stamp : LoginStamp) (password ip : String)
      (user_agent : Option String)
      → Moves others.before_rehash
      → Moves others.before_update
      → Moves others.before_session
      → Moves (λ db. (login_found user lib config others stamp password ip user_agent db).1)
  unfolding login_user
  login_found-Moves none others stamp password ip user_agent m1 m2 m3 db = stays db.sessions
  login_found-Moves (some user) others stamp password ip user_agent m1 m2 m3 db =
      elim (Bool-cases (is_locked stamp.now user || not (is_active user))) [
        | inl t ↦ rw t (stays db.sessions)
        | inr f ↦
            rw f (answer_password-Moves _ others stamp password ip user_agent user m1 m2 m3 db)
      ]

  complete_admin_login-Moves :
      (others : AdminLoginOthers) (stamp : AdminLoginStamp) (username ip : String)
      (user_agent : Option String) (a : AdminUser)
      → Moves others.before_session
      → Moves others.before_update
      → Moves (λ db. (complete_admin_login lib config others stamp username ip user_agent a db).1)
  unfolding complete_admin_login
  complete_admin_login-Moves others stamp username ip user_agent a m1 m2 db =
      and_then-Moved _
        (transaction
          (create_session lib config stamp.session a.id "jito-admin" (role_name a.role) ip
            user_agent)
          (others.before_session db))
        _
        (after_others others.before_session db _ m1
          (transaction-Moved _ _ (create_session-BodyMoves lib config _ _ _ _ _ _)))
        λ created db1.
          and_then-Moved _ (transaction (update_admin a.id _) (others.before_update db1)) _
            (after_others others.before_update db1 _ m2
              (transaction-Moved _ _ (update_admin-BodyMoves a.id _)))
            λ u db2. stays db2.sessions

  answer_admin_password-Moves :
      (valid : Option Bool) (others : AdminLoginOthers) (stamp : AdminLoginStamp)
      (username ip : String) (user_agent : Option String) (a : AdminUser)
      → Moves others.before_session
      → Moves others.before_update
      → Moves (λ db.
        (answer_admin_password valid lib config others stamp username ip user_agent a db).1)
  answer_admin_password-Moves none others stamp username ip user_agent a m1 m2 db =
      stays db.sessions
  answer_admin_password-Moves (some false) others stamp username ip user_agent a m1 m2 db =
      stays db.sessions
  answer_admin_password-Moves (some true) others stamp username ip user_agent a m1 m2 db =
      complete_admin_login-Moves others stamp username ip user_agent a m1 m2 db

  pub login_admin-Moves :
      (a : Option AdminUser) (others : AdminLoginOthers) (stamp : AdminLoginStamp)
      (username password ip : String) (user_agent : Option String)
      → Moves others.before_session
      → Moves others.before_update
      → Moves (λ db. (login_admin a lib config others stamp username password ip user_agent db).1)
  login_admin-Moves none others stamp username password ip user_agent m1 m2 db = stays db.sessions
  login_admin-Moves (some a) others stamp username password ip user_agent m1 m2 db =
      if-Moved a.is_active _ _
        (answer_admin_password-Moves (lib.verify_password a.password_hash password) others stamp
          username ip user_agent a m1 m2 db)
        (stays db.sessions)
