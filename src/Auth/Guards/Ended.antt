-- ===== src/Auth/Guards/Ended.antt =====
-- A session that has been revoked is refused by the guards and by the refresh, whatever requests
-- follow.
use Prim.Native.String.{String}
use jito_india_game.Auth.{JwtPayload}
use jito_india_game.Auth.Guards.{
  CacheFaults, CachedStatus, admin_status_guard, has_session, is_usable_by, user_status_guard,
}
use jito_india_game.Auth.Requests.Moving.{Moves}
use jito_india_game.Auth.Requests.Spent.{is_revoked, is_revoked-IsKept}
use jito_india_game.Auth.Sessions.{owned_by, revoke_where}
use jito_india_game.Auth.Sessions.Moves.{
  IsKept, IsPinned, IsPinned-weaken, Moved-IsPinned, SessionKey, by_id, has_key, links, revokes,
  update_rows-IsPinned_or,
}
use jito_india_game.Auth.Sessions.Unique.{HasUniqueKeys, find_row-IsPinned}
use jito_india_game.Auth.Tables.{find_row, is_unrevoked, revoke_sessions}
use jito_india_game.Database.{Db, Session, err, session_revoked}
use jito_india_game.Prelude.{
  Bool, Bool-cases, List, [], all, any, arith, false, inl, inr, not, refl, some, true, ℕ, ◌&&◌,
  ◌==◌, ◌||◌, ◌∷◌, ◌≡◌,
}

any-IsRevoked :
    (owner : ℕ) (is_admin : Bool) (sid now : ℕ) (ss : List Session)
    → all (λ s. not (has_key (by_id sid) s) || is_revoked s) ss ≡ true
    → any (is_usable_by owner is_admin sid now) ss ≡ false
any-IsRevoked owner is_admin sid now [] h = refl
any-IsRevoked owner is_admin sid now (s ∷ ss) h =
    ground (arith, any-IsRevoked owner is_admin sid now ss)

-- The session with this identifier is over.
abbrev pub IsEnded : ℕ → Db → Type 0
IsEnded sid db = IsPinned (by_id sid) is_revoked db.sessions

has_session-IsEnded :
    (owner : ℕ) (is_admin : Bool) (sid now : ℕ) (db : Db)
    → IsEnded sid db
    → has_session owner is_admin sid now db.sessions ≡ false
unfolding has_session IsPinned
has_session-IsEnded owner is_admin sid now db (some_row, rows) =
    any-IsRevoked owner is_admin sid now db.sessions rows

abbrev pub token_of : (owner sid : ℕ) → (audience role : String) → (jti : ℕ) → JwtPayload
token_of owner sid audience role jti = record {
  sub = some owner;
  aud = audience;
  role = role;
  sid = some sid;
  jti = jti;
}

pub user_status_guard-IsEnded :
    (faults : CacheFaults) (owner sid now jti : ℕ) (audience role : String)
    (cache : List CachedStatus) (db : Db)
    → IsEnded sid db
    → user_status_guard faults now (token_of owner sid audience role jti) cache db
      ≡ (err session_revoked, cache)
unfolding user_status_guard
user_status_guard-IsEnded faults owner sid now jti audience role cache db ended =
    rw (has_session-IsEnded owner false sid now db ended) refl

pub admin_status_guard-IsEnded :
    (owner sid now jti : ℕ) (audience role : String) (db : Db)
    → IsEnded sid db
    → admin_status_guard now (token_of owner sid audience role jti) db ≡ err session_revoked
unfolding admin_status_guard
admin_status_guard-IsEnded owner sid now jti audience role db ended =
    rw (has_session-IsEnded owner true sid now db ended) refl

covered-IsPinned :
    (k : SessionKey) (p : Session → Bool) (s : Session) (snapshot current : List Session)
    → find_row (has_key k) snapshot ≡ some s
    → p s ≡ true
    → is_unrevoked s ≡ true
    → IsPinned k (λ r. p r && r.id == s.id) current
    → IsPinned k
        (λ r.
          (p r && is_unrevoked r && any (λ t. t.id == r.id && p t && is_unrevoked t) snapshot)
          || is_revoked r)
        current
covered-IsPinned k p s snapshot current found owned live h =
    IsPinned-weaken k (λ r. p r && r.id == s.id) _ current
      (λ r key e. ground (arith, seen snapshot r found (ground arith))) h
  where
    seen :
        (ss : List Session) (r : Session)
        → find_row (has_key k) ss ≡ some s
        → r.id ≡ s.id
        → any (λ t. t.id == r.id && p t && is_unrevoked t) ss ≡ true
    seen [] r e i = absurd (ground arith)
    seen (t ∷ ss) r e i = elim (Bool-cases (has_key k t)) [
      | inl here ↦ let same : t ≡ s = ground arith in ground arith
      | inr there ↦ ground (arith, seen ss r)
    ]

both-IsKept : (p : Session → Bool) (i : ℕ) → IsKept p → IsKept (λ r. p r && r.id == i)
both-IsKept p i kept (revokes now) s h = ground (arith, kept (revokes now) s)
both-IsKept p i kept (links now successor) s h = ground (arith, kept (links now successor) s)

-- The statement ends each session that it saw and that its condition selects.
pub revoke_where-IsPinned :
    (k : SessionKey) (p : Session → Bool) (now : ℕ) (meanwhile : Db → Db) (db : Db) (s : Session)
    → IsKept p
    → Moves meanwhile
    → HasUniqueKeys db.sessions
    → find_row (has_key k) db.sessions ≡ some s
    → p s ≡ true
    → IsPinned k is_revoked (revoke_where p now meanwhile db).sessions
unfolding revoke_where revoke_sessions
revoke_where-IsPinned k p now meanwhile db s kept moves u found owned =
    update_rows-IsPinned_or k is_revoked _ (revokes now) (meanwhile db).sessions is_revoked-IsKept
      (λ r. refl)
      (elim (Bool-cases (is_unrevoked s)) [
        | inl live ↦ covered-IsPinned k p s db.sessions (meanwhile db).sessions found owned live (
            Moved-IsPinned k (λ r. p r && r.id == s.id) (both-IsKept p s.id kept) (moves db)
              (find_row-IsPinned k (λ r. p r && r.id == s.id) db.sessions s u found (ground arith)))
        | inr dead ↦
            IsPinned-weaken k is_revoked _ (meanwhile db).sessions (λ r key e. ground arith)
              (Moved-IsPinned k is_revoked is_revoked-IsKept (moves db)
                (find_row-IsPinned k is_revoked db.sessions s u found (ground arith)))
      ])

pub owned_by-IsKept : (owner : ℕ) (is_admin : Bool) → IsKept (owned_by owner is_admin)
owned_by-IsKept owner true (revokes now) s h = h
owned_by-IsKept owner false (revokes now) s h = h
owned_by-IsKept owner true (links now successor) s h = h
owned_by-IsKept owner false (links now successor) s h = h
