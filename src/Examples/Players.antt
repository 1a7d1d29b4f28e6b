-- ===== src/Examples/Players.antt =====
-- Runs of the rate limit, the logins, the registration and the listing of transactions.
use jito_india_game.Auth.{LoginDto, LoginResult, RegisterDto, to_profile}
use jito_india_game.Auth.Guards.{CacheFaults}
use jito_india_game.Auth.Login.{LoginStamp, authenticate, logged_in}
use jito_india_game.Auth.Login.Lockout.{
  IsPlayer, IsWrong, LoginAttempt, login_attempts, quiet_login, ten_failures_lock,
}
use jito_india_game.Auth.RateLimit.{find_counter, no_faults}
use jito_india_game.Auth.RateLimit.Window.{allowed_count, window_allows}
use jito_india_game.Auth.Register.{
  RegisterOthers, RegisterStamp, create_player, is_taken, new_account, new_user, register_user,
}
use jito_india_game.Auth.Register.Created.{RegisterAccounts, register_creates_both, with_player}
use jito_india_game.Auth.Register.RoundTrip.{first_answer, register_then_login}
use jito_india_game.Auth.Register.Sound.{register_user-IsSound}
use jito_india_game.Auth.Sessions.{session_row, session_tokens}
use jito_india_game.Auth.Tables.{
  create_account, create_user, find_user, find_user_by_name, same_text, user_clashes, user_row_ok,
}
use jito_india_game.Database.{Db, PointsTransaction, User, err, ok, unauthorized}
use jito_india_game.Database.Statements.{fits_varchar}
use jito_india_game.Examples.{first_credit, player, player_row, start, start-IsSound}
use jito_india_game.Examples.Authentication.{config, fits_hash, fits_ip, libs, new_session}
use jito_india_game.Points.Invariant.{IsSound}
use jito_india_game.Points.Listing.{
  ListTransactionsQueryDto, is_listed, list_item, list_rows, listed,
}
use jito_india_game.Points.Listing.Order.{
  HasDistinctTimes, IsLatestFirst, Rearranged, Rearranged-refl, swaps,
}
use jito_india_game.Points.Listing.Pages.{FindsAll, collect_pages, pages_are_the_listing}
use jito_india_game.Prelude.{
  Bool-cases, List, [], arith, if◌then◌else◌, inl, inr, map, none, refl, some, true, ℕ, ◌==◌, ◌∷◌,
  ◌≡◌,
}
use jito_india_game.Prelude.Int.{pos}
use jito_india_game.Prelude.Text.{is_blank, trim, trim_end, trim_start}

no_counter : find_counter 10 "k" [] ≡ none
unfolding find_counter
no_counter = refl

window_allows_example :
    allowed_count "k" 2 60 (("k", 10) ∷ ("j", 11) ∷ ("k", 12) ∷ ("k", 13) ∷ []) [] ≡ 2
window_allows_example =
    window_allows 10 2 60 "k" (("j", 11) ∷ ("k", 12) ∷ ("k", 13) ∷ []) [] (omega arith) no_counter
      refl

abbrev first_login : LoginStamp
first_login = record { now = 70; salt = 3; session = new_session }

abbrev wrong_login : LoginDto
wrong_login = record { username = " asha "; password = "guess" }

abbrev wrong_attempt : LoginAttempt
wrong_attempt = record {
  stamp = first_login;
  dto = wrong_login;
  ip = "10.0.0.9";
  user_agent = none;
}

abbrev right_attempt : LoginAttempt
right_attempt = record {
  stamp = record first_login { now = 900000 };
  dto = record { username = "asha"; password = "secret77" };
  ip = "10.0.0.10";
  user_agent = some "browser";
}

-- An earlier lock of the player has run out, and nine logins have failed since.
abbrev once_locked : User
once_locked = record player_row { failed_login_count = 9; locked_until = some 50 }

abbrev once_locked_tables : Db
once_locked_tables = record start { users = once_locked ∷ [] }

is_player : IsPlayer "asha" once_locked once_locked_tables
unfolding find_user find_user_by_name user_row_ok fits_varchar
is_player = record { named = refl; identified = refl; is_able = refl; fits = refl }

is_wrong : IsWrong libs config "asha" once_locked wrong_attempt
unfolding trim trim_start trim_end
is_wrong = (refl, refl, refl)

types_name : trim "asha" ≡ "asha"
unfolding trim trim_start trim_end
types_name = refl

ten_failures_lock_example :
    let locked = login_attempts libs config (wrong_attempt ∷ []) once_locked_tables in
    (v : User) × (find_user_by_name "asha" locked.users ≡ some v)
    × (v.failed_login_count ≡ 0)
    × (authenticate libs config quiet_login
          (record first_login { now = 900000 })
          (record { username = "asha"; password = "secret77" })
          "10.0.0.10"
          (some "browser")
          locked
        ≡ (err unauthorized, locked))
ten_failures_lock_example =
    ten_failures_lock libs config "asha" wrong_attempt [] once_locked once_locked_tables
      right_attempt quiet_login is_player (is_wrong, tt) (omega arith) types_name (omega arith)

abbrev right_login : LoginDto
right_login = record { username = "asha"; password = "secret77" }

abbrev login_answer : LoginResult
login_answer = record {
  tokens = session_tokens libs config new_session player "jito-player" "user";
  user = to_profile player_row;
  balance_minor = pos 1000;
}

abbrev logged_in_tables : Db
logged_in_tables = record start {
  users = logged_in 70 player_row ∷ [];
  sessions = session_row libs config new_session player "jito-player" "10.0.0.9" none ∷ [];
}

abbrev cache_off : CacheFaults
cache_off = record { get_fails = true; set_fails = true }

abbrev newcomer : RegisterDto
newcomer = record {
  username = " ravi ";
  password = "password1";
  email = none;
  phone = some "12345";
  display_name = none;
}

abbrev register_stamp : RegisterStamp
register_stamp = record { now = 60; salt = 4; user_uuid = 30; account_uuid = 31 }

abbrev register_others : RegisterOthers
register_others = record { before_create = λ db. db; faults = no_faults }

abbrev ravi : User
ravi = new_user libs register_stamp newcomer

register_creates_both_example :
    RegisterAccounts ravi
      (new_account register_stamp)
      start
      start
      (register_user register_others ravi (new_account register_stamp) start)
register_creates_both_example =
    register_creates_both register_others ravi (new_account register_stamp) start

registers :
    register_user register_others ravi (new_account register_stamp) start
    ≡ (ok (to_profile ravi), with_player ravi (new_account register_stamp) start)
unfolding register_user create_player create_user create_account user_row_ok user_clashes same_text
    is_taken is_blank fits_varchar trim trim_start trim_end
registers = refl

register_then_login_example :
    (authenticate libs config quiet_login first_login
      (record { username = " ravi "; password = "password1" })
      "10.0.0.9"
      none
      (with_player ravi (new_account register_stamp) start)).0
    ≡ ok (first_answer libs config register_stamp first_login (to_profile ravi))
register_then_login_example =
    register_then_login libs config register_others register_stamp newcomer start (to_profile ravi)
      (with_player ravi (new_account register_stamp) start) first_login "10.0.0.9" none registers
      refl refl fits_ip fits_hash refl

-- A username of spaces is registered as the empty text.
registers_blank : (new_user libs register_stamp (record newcomer { username = "  " })).username ≡ ""
unfolding trim trim_start trim_end
registers_blank = refl

abbrev one_by_one : ListTransactionsQueryDto
one_by_one = record {
  page = none;
  limit = some 1;
  from_time = none;
  to_time = none;
  reference_type = none;
}

abbrev later_credit : PointsTransaction
later_credit = record first_credit { id = 150; created_at = 40; idempotency_key = "later" }

abbrev two_credits : Db
two_credits = record start { transactions = first_credit ∷ later_credit ∷ [] }

-- The first two rows the other way round.
unfoldable first_two_turned : List PointsTransaction → List PointsTransaction
first_two_turned [] = []
first_two_turned (t ∷ []) = t ∷ []
first_two_turned (t ∷ u ∷ ts) = u ∷ t ∷ ts

Rearranged-first_two_turned :
    (rows : List PointsTransaction) → Rearranged (first_two_turned rows) rows
unfolding first_two_turned
Rearranged-first_two_turned [] = Rearranged-refl []
Rearranged-first_two_turned (t ∷ []) = Rearranged-refl (t ∷ [])
Rearranged-first_two_turned (t ∷ u ∷ ts) = swaps u t ts

-- The query of the second page finds the rows the other way round.
unfoldable turned : ℕ → List PointsTransaction → List PointsTransaction
turned page rows = if page == 2 then first_two_turned rows else rows

FindsAll-turned : FindsAll turned
unfolding turned
FindsAll-turned page rows = elim (Bool-cases (page == 2)) [
  | inl e ↦ rw e (Rearranged-first_two_turned rows)
  | inr e ↦ rw e (Rearranged-refl rows)
]

are_apart : HasDistinctTimes (listed 10 one_by_one two_credits.transactions)
unfolding listed is_listed
are_apart = ((refl, tt), (tt, tt))

pages_are_the_listing_example :
    (rows : List PointsTransaction) × (collect_pages turned 10 one_by_one two_credits 1
        (list_rows (turned 1) 10 one_by_one two_credits).total_pages
      ≡ map list_item rows)
    × Rearranged rows (listed 10 one_by_one two_credits.transactions)
    × IsLatestFirst rows
pages_are_the_listing_example =
    pages_are_the_listing turned 10 one_by_one two_credits FindsAll-turned are_apart (omega arith)

register_user-IsSound_example :
    IsSound (register_user register_others ravi (new_account register_stamp) start).1
register_user-IsSound_example =
    register_user-IsSound libs register_others register_stamp newcomer start refl start-IsSound
      start-IsSound
