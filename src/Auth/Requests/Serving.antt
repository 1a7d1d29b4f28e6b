-- ===== src/Auth/Requests/Serving.antt =====
-- A run of requests moves the sessions table by creations, revocations and links only.
use jito_india_game.Auth.{Config, Libraries}
use jito_india_game.Auth.Admins.{authenticate_admin}
use jito_india_game.Auth.Login.{authenticate}
use jito_india_game.Auth.Requests.{
  AuthRequest, AuthRequests, admin_login_request, login_request, logout_all_request, logout_request,
  no_requests, password_request, profile_request, refresh_request, register_request, serve_auth,
  serve_auths, then_requests,
}
use jito_india_game.Auth.Requests.Changes.{
  change_found-Moves, register_user-Moves, update_profile-BodyMoves,
}
use jito_india_game.Auth.Requests.Logins.{login_admin-Moves, login_found-Moves}
use jito_india_game.Auth.Requests.Moving.{
  Moves, refresh-Moves, revoke_where-Moves, transaction-Moved,
}
use jito_india_game.Auth.Sessions.{logout, logout_all}
use jito_india_game.Auth.Sessions.Moves.{continues, stays}
use jito_india_game.Auth.Users.{change_password}

module _ (lib : Libraries) (config : Config) where
  mutual
    unfolding serve_auth serve_auths authenticate logout logout_all change_password
        authenticate_admin

    serve_auth-Moves : (r : AuthRequest) → Moves (serve_auth lib config r)
    serve_auth-Moves (register_request before faults stamp dto) db =
        register_user-Moves _ _ _ (serve_auths-Moves before) db
    serve_auth-Moves (login_request b1 b2 b3 f1 f2 stamp dto ip user_agent) db =
        login_found-Moves lib config _ _ stamp dto.password ip user_agent (serve_auths-Moves b1)
          (serve_auths-Moves b2) (serve_auths-Moves b3) db
    serve_auth-Moves (refresh_request b1 b2 stamp raw_token ip) db =
        refresh-Moves lib config _ stamp raw_token ip (serve_auths-Moves b1) (serve_auths-Moves b2)
          db
    serve_auth-Moves (logout_request meanwhile session_id owner_id is_admin now) db =
        revoke_where-Moves _ now _ (serve_auths-Moves meanwhile) db
    serve_auth-Moves (logout_all_request meanwhile user_id now) db =
        revoke_where-Moves _ now _ (serve_auths-Moves meanwhile) db
    serve_auth-Moves (profile_request user_id display_name) db =
        transaction-Moved _ db (update_profile-BodyMoves user_id display_name)
    serve_auth-Moves (password_request b1 b2 stamp user_id dto) db =
        change_found-Moves lib _ _ stamp user_id dto (serve_auths-Moves b1) (serve_auths-Moves b2)
          db
    serve_auth-Moves (admin_login_request b1 b2 faults stamp dto ip user_agent) db =
        login_admin-Moves lib config _ _ stamp _ dto.password ip user_agent (serve_auths-Moves b1)
          (serve_auths-Moves b2) db

    pub serve_auths-Moves : (rs : AuthRequests) → Moves (serve_auths lib config rs)
    serve_auths-Moves no_requests db = stays db.sessions
    serve_auths-Moves (then_requests r more) db =
        continues db.sessions _ _ (serve_auth-Moves r db)
          (serve_auths-Moves more (serve_auth lib config r db))
