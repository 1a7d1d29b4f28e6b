-- ===== src/Auth/Login/Lockout.antt =====
-- Ten wrong passwords lock an account, and a locked account refuses every login.
use text.Mathlib.Text.{◌==◌ as str_eq}
use Prim.Native.String.{String, count}
use jito_india_game.Auth.{Config, Libraries, LoginDto, LoginResult}
use jito_india_game.Auth.Login.{
  LoginOthers, LoginStamp, authenticate, failed, handle_failed_login, is_active, is_locked,
  lockout_duration_ms, login_user, refuse_login,
}
use jito_india_game.Auth.RateLimit.{no_faults}
use jito_india_game.Auth.Tables.{find_user, find_user_by_name, update_rows, user_row_ok}
use jito_india_game.Auth.Tables.Found.{find_row-update_rows, update_user-ok}
use jito_india_game.Database.{Db, Outcome, User, err, unauthorized}
use jito_india_game.Prelude.{
  All, List, Option, [], ap, arith, false, length, ltb, not, refl, some, true, ℕ, ◌+◌, ◌<◌, ◌==◌,
  ◌||◌, ◌∙◌, ◌∷◌, ◌≡◌,
}
use jito_india_game.Prelude.Text.{trim}
use mathlib.Core.Path.{subst}

-- Nothing else runs meanwhile.
abbrev pub quiet_login : LoginOthers
quiet_login = record {
  before_rehash = λ db. db;
  before_update = λ db. db;
  before_session = λ db. db;
  ip_faults = no_faults;
  user_faults = no_faults;
}

failed-user_row_ok :
    (now : ℕ) (u : User)
    → user_row_ok u ≡ true
    → ltb u.failed_login_count 10 ≡ true
    → user_row_ok (failed now u.failed_login_count u) ≡ true
unfolding user_row_ok
failed-user_row_ok now u h few = ground arith

-- A login of a locked account is refused, whatever its password.
login-locked :
    (lib : Libraries) (config : Config) (others : LoginOthers) (stamp : LoginStamp) (dto : LoginDto)
    (ip : String) (user_agent : Option String) (u : User) (db : Db)
    → find_user_by_name (trim dto.username) db.users ≡ some u
    → is_locked stamp.now u ≡ true
    → authenticate lib config others stamp dto ip user_agent db ≡ (err unauthorized, db)
unfolding authenticate login_user
login-locked lib config others stamp dto ip user_agent u db named locked = rw (named, locked) refl

-- One login of a sequence.
pub record LoginAttempt : Type 0 where
  pub stamp : LoginStamp
  pub dto : LoginDto
  pub ip : String
  pub user_agent : Option String

-- The time of the last login.
abbrev pub last_time : LoginAttempt → List LoginAttempt → ℕ
last_time a [] = a.stamp.now
last_time a (next ∷ more) = last_time next more

-- What a wrong password does.
abbrev attempted : ℕ → User → Db → Db
attempted now u db = record db {
  users = update_rows (λ v. v.id == u.id) (failed now u.failed_login_count) db.users;
}

-- The active player of a name.
pub record IsPlayer (name : String) (u : User) (db : Db) : Type 0 where
  pub named : find_user_by_name name db.users ≡ some u
  pub identified : find_user u.id db.users ≡ some u
  pub is_able : is_active u ≡ true
  pub fits : user_row_ok u ≡ true

attempted-named :
    (now : ℕ) (name : String) (u : User) (db : Db)
    → IsPlayer name u db
    → find_user_by_name name (attempted now u db).users ≡ some (failed now u.failed_login_count u)
unfolding find_user_by_name
attempted-named now name u db r =
    find_row-update_rows (λ v. str_eq v.username name) (λ v. v.id == u.id)
      (failed now u.failed_login_count) db.users u (λ y. ground arith) r.named
    ∙ ground arith

attempted-identified :
    (now : ℕ) (name : String) (u : User) (db : Db)
    → IsPlayer name u db
    → find_user u.id (attempted now u db).users ≡ some (failed now u.failed_login_count u)
unfolding find_user
attempted-identified now name u db r =
    find_row-update_rows (λ v. v.id == u.id) (λ v. v.id == u.id) (failed now u.failed_login_count)
      db.users u (λ y. ground arith) r.identified
    ∙ ground arith

attempted-IsPlayer :
    (now : ℕ) (name : String) (u : User) (db : Db)
    → IsPlayer name u db
    → ltb (u.failed_login_count + 1) 10 ≡ true
    → IsPlayer name
        (record u { failed_login_count = u.failed_login_count + 1 })
        (attempted now u db)
attempted-IsPlayer now name u db r few =
    let counted : failed now u.failed_login_count u
        ≡ record u { failed_login_count = u.failed_login_count + 1 } =
      ground arith in
    let same = ap some counted in
    record {
      named = attempted-named now name u db r ∙ same;
      identified = attempted-identified now name u db r ∙ same;
      is_able = r.is_able;
      fits =
          subst (λ v. user_row_ok v ≡ true) counted
            (failed-user_row_ok now u r.fits (ground arith));
    }

module _ (lib : Libraries) (config : Config) where
  -- Logins one after the other.
  unfoldable pub login_attempts : List LoginAttempt → Db → Db
  login_attempts [] db = db
  login_attempts (a ∷ more) db =
      login_attempts more (authenticate lib config quiet_login a.stamp a.dto a.ip a.user_agent db).1

  -- A login with the name and a wrong password, at a time when the account is not locked.
  abbrev pub IsWrong : String → User → LoginAttempt → Type 0
  IsWrong name u a =
      (trim a.dto.username ≡ name)
      × (lib.verify_password u.password_hash a.dto.password ≡ some false)
      × (is_locked a.stamp.now u ≡ false)

  authenticate-attempted :
      (name : String) (a : LoginAttempt) (u : User) (db : Db)
      → IsPlayer name u db
      → IsWrong name u a
      → ltb u.failed_login_count 10 ≡ true
      → authenticate lib config quiet_login a.stamp a.dto a.ip a.user_agent db
        ≡ (err unauthorized, attempted a.stamp.now u db)
  unfolding authenticate login_user refuse_login handle_failed_login
  authenticate-attempted name a u db r (typed, wrong, unlocked) few =
      let able : (is_locked a.stamp.now u || not (is_active u)) ≡ false =
        ground (arith, unlocked, r.is_able) in
      rw
        (
          typed,
          r.named,
          able,
          wrong,
          update_user-ok u.id (failed a.stamp.now u.failed_login_count) u db r.identified
              (failed-user_row_ok a.stamp.now u r.fits few),
        )
        refl

  login_attempts-step :
      (name : String) (a : LoginAttempt) (more : List LoginAttempt) (u : User) (db : Db)
      → IsPlayer name u db
      → IsWrong name u a
      → ltb u.failed_login_count 10 ≡ true
      → login_attempts (a ∷ more) db ≡ login_attempts more (attempted a.stamp.now u db)
  unfolding login_attempts
  login_attempts-step name a more u db r wrong few =
      ap (λ (o : Outcome LoginResult). login_attempts more o.1)
        (authenticate-attempted name a u db r wrong few)

  login_attempts-locked :
      (name : String) (a : LoginAttempt) (more : List LoginAttempt) (u : User) (db : Db)
      → IsPlayer name u db
      → All (IsWrong name u) (a ∷ more)
      → u.failed_login_count + 1 + length more ≡ 10
      → (v : User) × (find_user_by_name name (login_attempts (a ∷ more) db).users ≡ some v)
        × (v.locked_until ≡ some (last_time a more + lockout_duration_ms))
        × (v.failed_login_count ≡ 0)
  unfolding login_attempts
  login_attempts-locked name a [] u db r (wrong, _) n =
      rw (login_attempts-step name a [] u db r wrong (ground arith)) (
        failed a.stamp.now u.failed_login_count u,
        attempted-named a.stamp.now name u db r,
        ground arith,
        ground arith,
      )
  login_attempts-locked name a (next ∷ more) u db r (wrong, others) n =
      rw (login_attempts-step name a (next ∷ more) u db r wrong (ground arith)) (
        login_attempts-locked name next more
          (record u { failed_login_count = u.failed_login_count + 1 }) (attempted a.stamp.now u db)
          (attempted-IsPlayer a.stamp.now name u db r (ground arith)) others (omega arith))

  -- From an active account with some failed logins, logins with its name and wrong passwords, each at
  -- a time when the account is not locked, up to the tenth failure lock it, when nothing else runs
  -- meanwhile: up to 15 minutes after the last of them, every login with the name is refused with 401
  -- and writes nothing, the right password's too, whatever runs then; and the count of failures is
  -- back at 0.
  pub ten_failures_lock :
      (name : String) (a : LoginAttempt) (more : List LoginAttempt) (u : User) (db : Db)
      (again : LoginAttempt) (others : LoginOthers)
      → IsPlayer name u db
      → All (IsWrong name u) (a ∷ more)
      → u.failed_login_count + 1 + length more ≡ 10
      → trim again.dto.username ≡ name
      → again.stamp.now < last_time a more + lockout_duration_ms
      → let locked = login_attempts (a ∷ more) db in
        (v : User) × (find_user_by_name name locked.users ≡ some v)
        × (v.failed_login_count ≡ 0)
        × (authenticate lib config others again.stamp again.dto again.ip again.user_agent locked
            ≡ (err unauthorized, locked))
  ten_failures_lock name a more u db again others r wrong n typed early =
      let (v, named, until, count) = login_attempts-locked name a more u db r wrong n in
      (
        v,
        named,
        count,
        login-locked lib config others again.stamp again.dto again.ip again.user_agent v
            (login_attempts (a ∷ more) db) (rw typed named) (ground arith),
      )
