-- ===== src/Auth/Refresh/Reuse.antt =====
-- A revoked token that comes back costs its owner every session.
use Prim.Native.String.{String}
use jito_india_game.Auth.{Config, Libraries}
use jito_india_game.Auth.Refresh.{
  RefreshOthers, RefreshStamp, session_owner, refresh, refresh_body, refresh_locked, refresh_reused,
  reused,
}
use jito_india_game.Auth.Sessions.{owned_by, revoke_all_sessions, revoke_where}
use jito_india_game.Auth.Tables.{find_session_by_hash, is_unrevoked, revoke, revoke_sessions}
use jito_india_game.Database.{Db, Session, err, ok, refresh_token_reused}
use jito_india_game.Prelude.{
  Bool, List, [], all, any, arith, false, ltb, not, refl, some, true, ℕ, ◌&&◌, ◌==◌, ◌||◌, ◌∷◌, ◌≡◌,
}

-- After the statement, no row that it saw as a live session of its condition is one still.
left_by_revocation :
    (p : Session → Bool) (now : ℕ) (snapshot current : List Session)
    → ((s : Session) → p (revoke now s) ≡ p s)
    → any
        (λ s. p s && is_unrevoked s && any (λ r. r.id == s.id && p r && is_unrevoked r) snapshot)
        (revoke_sessions p now snapshot current)
      ≡ false
unfolding revoke_sessions
left_by_revocation p now snapshot [] same = refl
left_by_revocation p now snapshot (s ∷ ss) same =
    ground (arith, same s, left_by_revocation p now snapshot ss)

-- A live session of the condition is among those that the snapshot has.
abbrev is_covered : (Session → Bool) → List Session → Session → Bool
is_covered p snapshot s =
    any (λ r. r.id == s.id && p r && is_unrevoked r) snapshot || not (p s && is_unrevoked s)

more_covered :
    (p : Session → Bool) (r : Session) (snapshot ss : List Session)
    → all (is_covered p snapshot) ss ≡ true
    → all (is_covered p (r ∷ snapshot)) ss ≡ true
more_covered p r snapshot [] h = refl
more_covered p r snapshot (s ∷ ss) h = ground (arith, more_covered p r snapshot ss)

all_covered : (p : Session → Bool) (ss : List Session) → all (is_covered p ss) ss ≡ true
all_covered p [] = refl
all_covered p (s ∷ ss) = ground (arith, more_covered p s ss ss (all_covered p ss))

covered_are_revoked :
    (p : Session → Bool) (now : ℕ) (snapshot ss : List Session)
    → ((s : Session) → p (revoke now s) ≡ p s)
    → all (is_covered p snapshot) ss ≡ true
    → any (λ s. p s && is_unrevoked s) (revoke_sessions p now snapshot ss) ≡ false
unfolding revoke_sessions
covered_are_revoked p now snapshot [] same h = refl
covered_are_revoked p now snapshot (s ∷ ss) same h =
    ground (arith, same s, covered_are_revoked p now snapshot ss same)

owned_by-revoke :
    (owner : ℕ) (is_admin : Bool) (now : ℕ) (s : Session)
    → owned_by owner is_admin (revoke now s) ≡ owned_by owner is_admin s
owned_by-revoke owner true now s = refl
owned_by-revoke owner false now s = refl

module _ (lib : Libraries) (config : Config) where
  refresh_body-reused :
      (others : RefreshOthers) (stamp : RefreshStamp) (raw_token ip : String) (db : Db)
      (s : Session) (owner : ℕ) (is_admin : Bool)
      → find_session_by_hash (lib.hash_token raw_token) db.sessions ≡ some s
      → ltb s.expires_at stamp.checked_at ≡ false
      → is_unrevoked s ≡ false
      → session_owner s ≡ some (owner, is_admin)
      → refresh_body lib config others stamp raw_token ip db
        ≡ ok (
          reused,
          revoke_all_sessions owner is_admin stamp.revoked_at others.before_revocation db,
        )
  unfolding refresh_body refresh_locked refresh_reused
  refresh_body-reused others stamp raw_token ip db s owner is_admin found unexpired revoked owned =
      ground arith

  -- A revoked token that comes back before it expires is refused with 401 REFRESH_TOKEN_REUSED, and
  -- of the sessions that its owner had live when the revocation began, none is live afterwards,
  -- whatever commits meanwhile.
  pub reuse_revokes_seen :
      (others : RefreshOthers) (stamp : RefreshStamp) (raw_token ip : String) (db : Db)
      (s : Session) (owner : ℕ) (is_admin : Bool)
      → find_session_by_hash (lib.hash_token raw_token) (others.before_lock db).sessions ≡ some s
      → ltb s.expires_at stamp.checked_at ≡ false
      → is_unrevoked s ≡ false
      → session_owner s ≡ some (owner, is_admin)
      → let out = refresh lib config others stamp raw_token ip db in
        (out.0 ≡ err refresh_token_reused)
        × (any
              (λ r.
                owned_by owner is_admin r
                && is_unrevoked r
                && any
                    (λ t. t.id == r.id && owned_by owner is_admin t && is_unrevoked t)
                    (others.before_lock db).sessions)
              out.1.sessions
            ≡ false)
  unfolding refresh revoke_all_sessions revoke_where
  reuse_revokes_seen others stamp raw_token ip db s owner is_admin found unexpired revoked owned =
      let body =
        refresh_body-reused others stamp raw_token ip (others.before_lock db) s owner is_admin found
          unexpired revoked owned in
      rw body (
        refl,
        left_by_revocation (owned_by owner is_admin) stamp.revoked_at
            (others.before_lock db).sessions _ (owned_by-revoke owner is_admin stamp.revoked_at),
      )

  -- A revoked token that comes back before it expires leaves its owner without a live session, when
  -- nothing commits between the row lock and the revocation.
  pub reuse_revokes_all :
      (before : Db → Db) (stamp : RefreshStamp) (raw_token ip : String) (db : Db) (s : Session)
      (owner : ℕ) (is_admin : Bool)
      → find_session_by_hash (lib.hash_token raw_token) (before db).sessions ≡ some s
      → ltb s.expires_at stamp.checked_at ≡ false
      → is_unrevoked s ≡ false
      → session_owner s ≡ some (owner, is_admin)
      → any
          (λ r. owned_by owner is_admin r && is_unrevoked r)
          (refresh lib config
            (record { before_lock = before; before_revocation = λ d. d })
            stamp
            raw_token
            ip
            db).1.sessions
        ≡ false
  unfolding refresh revoke_all_sessions revoke_where
  reuse_revokes_all before stamp raw_token ip db s owner is_admin found unexpired revoked owned =
      let body =
        refresh_body-reused (record { before_lock = before; before_revocation = λ d. d }) stamp
          raw_token ip (before db) s owner is_admin found unexpired revoked owned in
      rw body (
        covered_are_revoked (owned_by owner is_admin) stamp.revoked_at (before db).sessions
          (before db).sessions (owned_by-revoke owner is_admin stamp.revoked_at)
          (all_covered (owned_by owner is_admin) (before db).sessions))
