-- ===== src/Examples/Revocation.antt =====
-- Runs of a logout and of a password change, and a revocation that a refresh overtakes.
use jito_india_game.Auth.Guards.{
  CacheFaults, find_status, get_cached_status, has_session, user_status_guard,
}
use jito_india_game.Auth.Guards.Admitted.{IsAdmitted, guard_admits}
use jito_india_game.Auth.Guards.Ended.{token_of}
use jito_india_game.Auth.Refresh.{
  link_successor, refresh, refresh_body, refresh_live, refresh_locked, refresh_reused, role_of,
  rotate,
}
use jito_india_game.Auth.Requests.{
  no_requests, refresh_request, serve_auth, serve_auths, then_requests,
}
use jito_india_game.Auth.Requests.Ended.{change_password_ends, logout_ends}
use jito_india_game.Auth.Sessions.{
  create_session, logout, owned_by, revoke_all_sessions, revoke_where,
}
use jito_india_game.Auth.Sessions.Unique.{HasUniqueKeys}
use jito_india_game.Auth.Tables.{
  create_session_row, find_session, find_session_by_hash, find_user, is_unrevoked, revoke,
  revoke_sessions, update_user, user_row_ok, with_password_hash,
}
use jito_india_game.Auth.Users.{
  ChangePasswordDto, PasswordOthers, change_password, replace_password,
}
use jito_india_game.Database.{
  Db, account_banned, err, ok, refresh_token_reused, session_expired, session_revoked,
}
use jito_india_game.Database.Statements.{fits_varchar}
use jito_india_game.Examples.{player, player_row}
use jito_india_game.Examples.Authentication.{
  config, finds_session, libs, refresh_stamp, session, signed_in, signed_in-HasUniqueKeys,
  some_requests, used_up,
}
use jito_india_game.Prelude.{[], any, false, refl, some, sym, true, ◌&&◌, ◌∷◌, ◌≡◌, ◌⊎◌}
use mathlib.Core.Path.{subst}

finds_session_by_id : find_session 500 signed_in.sessions ≡ some session
unfolding find_session
finds_session_by_id = refl

abbrev cache_up : CacheFaults
cache_up = record { get_fails = false; set_fails = false }

logout_ends_example :
    user_status_guard cache_up 90 (token_of player 500 "jito-player" "user" 7) [] (
      serve_auths libs config some_requests
        (logout 500 (some player) false 80 (serve_auths libs config some_requests) signed_in))
    ≡ (err session_revoked, [])
logout_ends_example =
    logout_ends libs config session player 80 signed_in some_requests some_requests cache_up 90 7
      "jito-player" "user" [] signed_in-HasUniqueKeys finds_session_by_id refl

abbrev new_password : ChangePasswordDto
new_password = record { current_password = "secret77"; new_password = "better88" }

abbrev password_others : PasswordOthers
password_others = record {
  before_update = serve_auths libs config no_requests;
  before_revocation = serve_auths libs config no_requests;
}

abbrev after_change : Db
after_change = record signed_in {
  users = with_password_hash "hash:better88" player_row ∷ [];
  sessions = revoke 81 session ∷ [];
}

changes_password :
    change_password libs password_others
      (record { salt = 1; now = 81 })
      player
      new_password
      signed_in
    ≡ (ok tt, after_change)
unfolding change_password replace_password update_user find_user user_row_ok fits_varchar
    revoke_where revoke_sessions serve_auths
changes_password = refl

serves_nothing : (serve_auths libs config no_requests signed_in).sessions ≡ session ∷ []
unfolding serve_auths
serves_nothing = refl

change_password_ends_example :
    let second =
      refresh libs config
        (record {
          before_lock = serve_auths libs config some_requests;
          before_revocation = λ db. db;
        })
        refresh_stamp
        "tok1"
        "10.0.0.9"
        after_change in
    (user_status_guard cache_up 90
        (token_of player 500 "jito-player" "user" 7)
        []
        (serve_auths libs config some_requests after_change)
      ≡ (err session_revoked, []))
    × ((second.0 ≡ err session_expired) ⊎ (second.0 ≡ err refresh_token_reused))
change_password_ends_example =
    change_password_ends libs config no_requests no_requests some_requests
      (record { salt = 1; now = 81 }) player new_password signed_in after_change session "tok1"
      cache_up 90 7 "jito-player" "user" [] (λ db. db) refresh_stamp "10.0.0.9"
      (subst HasUniqueKeys (sym serves_nothing) signed_in-HasUniqueKeys)
      (rw serves_nothing finds_session_by_id) (rw serves_nothing finds_session) refl
      changes_password

-- The live session is rotated while the revocation waits for its row: the successor stays live.

overtaken_revocation :
    any
      (λ r. owned_by player false r && is_unrevoked r)
      (refresh libs config
        (record {
          before_lock = λ db. db;
          before_revocation = serve_auths libs config (
              then_requests
                (refresh_request no_requests no_requests refresh_stamp "tok2" "10.0.0.9")
                no_requests);
        })
        refresh_stamp
        "tok1"
        "10.0.0.9"
        used_up).1.sessions
    ≡ true
unfolding serve_auth serve_auths refresh refresh_body refresh_locked refresh_live refresh_reused
    role_of rotate create_session create_session_row link_successor find_session
    find_session_by_hash find_user fits_varchar revoke_all_sessions revoke_where revoke_sessions
overtaken_revocation = refl

admits_session :
    (user_status_guard cache_up 80 (token_of player 500 "jito-player" "user" 7) [] signed_in).0
    ≡ ok tt
unfolding user_status_guard has_session get_cached_status find_status find_user
admits_session = refl

guard_admits_example :
    IsAdmitted cache_up 80 (token_of player 500 "jito-player" "user" 7) [] signed_in
guard_admits_example =
    guard_admits cache_up 80 (token_of player 500 "jito-player" "user" 7) [] signed_in
      admits_session

-- The text of the cache goes before the player's row.
cached_text_counts :
    (user_status_guard cache_up 80
      (token_of player 500 "jito-player" "user" 7)
      (record { user_id = player; status = "banned"; expires_at = 90 } ∷ [])
      signed_in).0
    ≡ err account_banned
unfolding user_status_guard has_session get_cached_status find_status find_user
cached_text_counts = refl
