-- ===== src/Examples/Authentication.antt =====
-- Runs of the refresh, on a toy of the third-party functions.
use Prim.Native.String.{◌++◌ as ◌<>◌}
use text.Mathlib.Text.{◌==◌ as str_eq}
use jito_india_game.Auth.{AuthTokens, Config, Libraries}
use jito_india_game.Auth.Refresh.{
  RefreshOthers, RefreshStamp, link_successor, refresh, refresh_body, refresh_live, refresh_locked,
  role_of, rotate, succeeded_by,
}
use jito_india_game.Auth.Refresh.Reuse.{reuse_revokes_all, reuse_revokes_seen}
use jito_india_game.Auth.Refresh.Successor.{HasSameOwner, refresh_rotates}
use jito_india_game.Auth.Refresh.Valid.{refresh_valid}
use jito_india_game.Auth.Requests.{
  AuthRequests, logout_all_request, no_requests, serve_auths, then_requests,
}
use jito_india_game.Auth.Requests.Spent.{rotates_once}
use jito_india_game.Auth.Sessions.{
  SessionStamp, create_session, owned_by, session_row, session_tokens,
}
use jito_india_game.Auth.Sessions.Unique.{HasUniqueKeys}
use jito_india_game.Auth.Tables.{
  create_session_row, find_session, find_session_by_hash, find_user, is_unrevoked,
}
use jito_india_game.Database.{Db, Session, err, ok, refresh_token_reused, session_expired}
use jito_india_game.Database.Statements.{fits_varchar, is_some}
use jito_india_game.Examples.{player, start}
use jito_india_game.Prelude.{[], any, false, ltb, none, refl, some, true, ◌&&◌, ◌==◌, ◌∷◌, ◌≡◌, ◌⊎◌}

-- A toy of the third-party functions, with their documented behaviour.
abbrev pub libs : Libraries
libs = record {
  hash_password = λ salt p. "hash:" <> p;
  verify_password = λ digest p. some (str_eq digest ("hash:" <> p));
  needs_rehash = λ digest. false;
  hash_token = λ t. "sha:" <> t;
  sign = λ payload. "jwt";
  to_lower_case = λ s. s;
}

abbrev pub config : Config
config = record { jwt_access_ttl_seconds = 900; jwt_refresh_ttl_seconds = 86400 }

abbrev pub quiet : RefreshOthers
quiet = record { before_lock = λ db. db; before_revocation = λ db. db }

abbrev pub session : Session
session = record {
  id = 500;
  user_id = some player;
  admin_id = none;
  refresh_token_hash = "sha:tok1";
  ip_address = "10.0.0.1";
  user_agent = none;
  expires_at = 90000;
  revoked_at = none;
  replaced_by_session_id = none;
}

abbrev pub signed_in : Db
signed_in = record start { sessions = session ∷ [] }

abbrev pub used_up : Db
used_up = record start {
  sessions =
      record session { id = 501; refresh_token_hash = "sha:tok2" }
      ∷ succeeded_by 60 501 session
      ∷ [];
}

abbrev pub new_session : SessionStamp
new_session = record { session_uuid = 502; raw_token = "tok3"; issued_at = 70; jti = 7 }

abbrev pub refresh_stamp : RefreshStamp
refresh_stamp = record { checked_at = 70; session = new_session; revoked_at = 71 }

abbrev rotated_tokens : AuthTokens
rotated_tokens = session_tokens libs config new_session player "jito-player" "user"

abbrev after_rotation : Db
after_rotation = record start {
  sessions =
      session_row libs config new_session player "jito-player" "10.0.0.9" none
      ∷ succeeded_by 71 502 session
      ∷ [];
}

pub signed_in-HasUniqueKeys : HasUniqueKeys signed_in.sessions
unfolding HasUniqueKeys
signed_in-HasUniqueKeys = (refl, tt)

runs_refresh :
    refresh libs config quiet refresh_stamp "tok1" "10.0.0.9" signed_in
    ≡ (ok rotated_tokens, after_rotation)
unfolding refresh refresh_body refresh_locked refresh_live role_of rotate create_session
    create_session_row link_successor find_session find_session_by_hash find_user fits_varchar
runs_refresh = refl

abbrev pub some_requests : AuthRequests
some_requests = then_requests (logout_all_request no_requests 9 80) no_requests

rotates_once_example :
    let second =
      refresh libs config
        (record {
          before_lock = serve_auths libs config some_requests;
          before_revocation = λ db. db;
        })
        refresh_stamp
        "tok1"
        "10.0.0.9"
        after_rotation in
    (second.0 ≡ err session_expired) ⊎ (second.0 ≡ err refresh_token_reused)
rotates_once_example =
    rotates_once libs config quiet refresh_stamp "tok1" "10.0.0.9" signed_in rotated_tokens
      after_rotation some_requests (λ db. db) refresh_stamp "10.0.0.9" signed_in-HasUniqueKeys
      runs_refresh

refresh_rotates_example :
    (old : Session) × (new : Session) × (find_session_by_hash "sha:tok1" signed_in.sessions
      ≡ some old)
    × (is_unrevoked old ≡ true)
    × (ltb old.expires_at 70 ≡ false)
    × (find_session_by_hash "sha:tok3" after_rotation.sessions ≡ some new)
    × ((new.id == old.id) ≡ false)
    × (new.revoked_at ≡ none)
    × (new.replaced_by_session_id ≡ none)
    × HasSameOwner old new
    × (find_session_by_hash "sha:tok1" after_rotation.sessions
        ≡ some (record old { revoked_at = some 71; replaced_by_session_id = some new.id }))
refresh_rotates_example =
    refresh_rotates libs config quiet refresh_stamp "tok1" "10.0.0.9" signed_in rotated_tokens
      after_rotation runs_refresh

pub finds_session : find_session_by_hash "sha:tok1" signed_in.sessions ≡ some session
unfolding find_session_by_hash
finds_session = refl

finds_player : is_some (find_user player signed_in.users) ≡ true
unfolding find_user
finds_player = refl

pub fits_ip : fits_varchar 45 "10.0.0.9" ≡ true
unfolding fits_varchar
fits_ip = refl

pub fits_hash : fits_varchar 255 "sha:tok3" ≡ true
unfolding fits_varchar
fits_hash = refl

refresh_valid_example :
    (refresh libs config quiet refresh_stamp "tok1" "10.0.0.9" signed_in).0 ≡ ok rotated_tokens
refresh_valid_example =
    refresh_valid libs config quiet refresh_stamp "tok1" "10.0.0.9" signed_in session player
      finds_session refl refl refl finds_player fits_ip fits_hash refl

finds_used_up :
    find_session_by_hash "sha:tok1" used_up.sessions ≡ some (succeeded_by 60 501 session)
unfolding find_session_by_hash
finds_used_up = refl

reuse_revokes_seen_example :
    let out = refresh libs config quiet refresh_stamp "tok1" "10.0.0.9" used_up in
    (out.0 ≡ err refresh_token_reused)
    × (any
          (λ r.
            owned_by player false r
            && is_unrevoked r
            && any
                (λ t. t.id == r.id && owned_by player false t && is_unrevoked t)
                used_up.sessions)
          out.1.sessions
        ≡ false)
reuse_revokes_seen_example =
    reuse_revokes_seen libs config quiet refresh_stamp "tok1" "10.0.0.9" used_up
      (succeeded_by 60 501 session) player false finds_used_up refl refl refl

reuse_revokes_all_example :
    any
      (λ r. owned_by player false r && is_unrevoked r)
      (refresh libs config quiet refresh_stamp "tok1" "10.0.0.9" used_up).1.sessions
    ≡ false
reuse_revokes_all_example =
    reuse_revokes_all libs config (λ db. db) refresh_stamp "tok1" "10.0.0.9" used_up
      (succeeded_by 60 501 session) player false finds_used_up refl refl refl
