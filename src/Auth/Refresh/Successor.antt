-- ===== src/Auth/Refresh/Successor.antt =====
-- The live successor that a rotation leaves.
use Prim.Native.String.{String}
use jito_india_game.Auth.{AuthTokens, Config, Libraries}
use jito_india_game.Auth.Refresh.{
  RefreshOthers, RefreshStamp, audience_of, refresh, session_owner, succeeded_by,
}
use jito_india_game.Auth.Refresh.Rotation.{IsRotated, refresh-ok}
use jito_india_game.Auth.Sessions.{SessionStamp, session_row}
use jito_india_game.Auth.Sessions.Moves.{
  SessionKey, by_hash, changed-has_key, clashes_with, fresh-has_key, has_key, links,
}
use jito_india_game.Auth.Tables.{find_row, find_session_by_hash, is_unrevoked, update_rows}
use jito_india_game.Database.{Db, Session, ok}
use jito_india_game.Prelude.{
  Bool, List, Option, Option-cases, [], any, arith, false, if◌then◌else◌, inl, inr, ltb, none, refl,
  some, true, ℕ, ◌==◌, ◌∙◌, ◌∷◌, ◌≡◌, ◌⊎◌,
}
use text.Mathlib.TextEquality.{eq_iff}

-- Both sessions are the same player's, or the same administrator's.
abbrev pub HasSameOwner : Session → Session → Type 0
HasSameOwner old new =
    ((owner : ℕ) × (old.user_id ≡ some owner) × (new.user_id ≡ some owner) × (new.admin_id ≡ none))
    ⊎ ((owner : ℕ) × (old.user_id ≡ none)
        × (old.admin_id ≡ some owner)
        × (new.user_id ≡ none)
        × (new.admin_id ≡ some owner))

session_row-HasSameOwner :
    (lib : Libraries) (config : Config) (stamp : SessionStamp) (old : Session) (owner : ℕ)
    (is_admin : Bool) (ip : String) (user_agent : Option String)
    → session_owner old ≡ some (owner, is_admin)
    → HasSameOwner old (session_row lib config stamp owner (audience_of is_admin) ip user_agent)
session_row-HasSameOwner lib config stamp old owner true ip user_agent h =
    elim (Option-cases old.user_id) [
      | inr (u, e) ↦ absurd (ground arith)
      | inl e ↦ elim (Option-cases old.admin_id) [
        | inr (a, e') ↦ inr (owner, e, ground arith, refl, refl)
        | inl e' ↦ absurd (ground arith)
      ]
    ]
session_row-HasSameOwner lib config stamp old owner false ip user_agent h =
    elim (Option-cases old.user_id) [
      | inr (u, e) ↦ inl (owner, ground arith, refl, refl)
      | inl e ↦ elim (Option-cases old.admin_id) [
        | inr (a, e') ↦ absurd (ground arith)
        | inl e' ↦ absurd (ground arith)
      ]
    ]

-- An update of other rows, and of the row itself.
find_row-update :
    (k : SessionKey) (i now successor : ℕ) (ss : List Session) (s : Session)
    → find_row (has_key k) ss ≡ some s
    → find_row (has_key k) (update_rows (λ r. r.id == i) (succeeded_by now successor) ss)
      ≡ some (if s.id == i then succeeded_by now successor s else s)
find_row-update k i now successor [] s h = absurd (ground arith)
find_row-update k i now successor (r ∷ ss) s h =
    head (r.id == i) refl (find_row-update k i now successor ss s)
  where
    head :
        (b : Bool)
        → (r.id == i) ≡ b
        → (find_row (has_key k) ss ≡ some s
            → find_row (has_key k) (update_rows (λ r. r.id == i) (succeeded_by now successor) ss)
              ≡ some (if s.id == i then succeeded_by now successor s else s))
        → find_row (has_key k) (
            (if b then succeeded_by now successor r else r)
            ∷ update_rows (λ r. r.id == i) (succeeded_by now successor) ss)
          ≡ some (if s.id == i then succeeded_by now successor s else s)
    head true e rest = ground (arith, changed-has_key k (links now successor) r)
    head false e rest = ground arith

find_row-any :
    {A : Type 0} (p q : A → Bool) (xs : List A) (x : A)
    → find_row p xs ≡ some x
    → any q xs ≡ false
    → q x ≡ false
find_row-any p q [] x h e = absurd (ground arith)
find_row-any p q (y ∷ xs) x h e = ground (arith, find_row-any p q xs x)

find_row-some :
    {A : Type 0} (p : A → Bool) (xs : List A) (x : A) → find_row p xs ≡ some x → any p xs ≡ true
find_row-some p [] x h = absurd (ground arith)
find_row-some p (y ∷ xs) x h = ground (arith, find_row-some p xs x)

module _ (lib : Libraries) (config : Config) where
  successor_apart :
      (stamp : RefreshStamp) (raw_token ip : String) (db : Db) (tokens : AuthTokens) (db' : Db)
      (m : IsRotated lib config stamp raw_token ip db tokens db')
      → (stamp.session.session_uuid == m.old.id) ≡ false
  unfolding find_session_by_hash
  successor_apart stamp raw_token ip db tokens db' m =
      let row = session_row lib config stamp.session m.owner (audience_of m.is_admin) ip none in
      ground (
        arith,
        find_row-any (has_key (by_hash (lib.hash_token raw_token))) (clashes_with row) db.sessions
            m.old m.found m.fresh,
      )

  successor_found :
      (stamp : RefreshStamp) (raw_token ip : String) (db : Db) (tokens : AuthTokens) (db' : Db)
      (m : IsRotated lib config stamp raw_token ip db tokens db')
      → find_session_by_hash (lib.hash_token tokens.refresh_token) db'.sessions
        ≡ some (session_row lib config stamp.session m.owner (audience_of m.is_admin) ip none)
  unfolding find_session_by_hash
  successor_found stamp raw_token ip db tokens db' m =
      let row = session_row lib config stamp.session m.owner (audience_of m.is_admin) ip none in
      let other = successor_apart stamp raw_token ip db tokens db' m in
      rw (m.answer, m.table)
        (find_row-update (by_hash (lib.hash_token stamp.session.raw_token)) m.old.id
            stamp.revoked_at stamp.session.session_uuid (row ∷ db.sessions) row
            (ground (
              arith,
              eq_iff (lib.hash_token stamp.session.raw_token)
                  (lib.hash_token stamp.session.raw_token),
            ))
          ∙ rw other refl)

  old_linked :
      (stamp : RefreshStamp) (raw_token ip : String) (db : Db) (tokens : AuthTokens) (db' : Db)
      (m : IsRotated lib config stamp raw_token ip db tokens db')
      → find_session_by_hash (lib.hash_token raw_token) db'.sessions
        ≡ some (succeeded_by stamp.revoked_at stamp.session.session_uuid m.old)
  unfolding find_session_by_hash
  old_linked stamp raw_token ip db tokens db' m =
      let row = session_row lib config stamp.session m.owner (audience_of m.is_admin) ip none in
      let k = by_hash (lib.hash_token raw_token) in
      let other =
        fresh-has_key k row db.sessions m.fresh
          (find_row-some (has_key k) db.sessions m.old m.found) in
      rw m.table (
        find_row-update k m.old.id stamp.revoked_at stamp.session.session_uuid (row ∷ db.sessions)
          m.old (ground arith)
        ∙ ground arith)

  -- A refresh that succeeds found the token's session live and unexpired. It leaves another session,
  -- live and without a successor, of the same owner for the new token; and the old one with its time
  -- of revocation and the new one's identifier as its successor, all else of it unchanged.
  pub refresh_rotates :
      (others : RefreshOthers) (stamp : RefreshStamp) (raw_token ip : String) (db : Db)
      (tokens : AuthTokens) (db' : Db)
      → refresh lib config others stamp raw_token ip db ≡ (ok tokens, db')
      → (old : Session) × (new : Session) × (find_session_by_hash
            (lib.hash_token raw_token)
            (others.before_lock db).sessions
          ≡ some old)
        × (is_unrevoked old ≡ true)
        × (ltb old.expires_at stamp.checked_at ≡ false)
        × (find_session_by_hash (lib.hash_token tokens.refresh_token) db'.sessions ≡ some new)
        × ((new.id == old.id) ≡ false)
        × (new.revoked_at ≡ none)
        × (new.replaced_by_session_id ≡ none)
        × HasSameOwner old new
        × (find_session_by_hash (lib.hash_token raw_token) db'.sessions
            ≡ some (record old {
              revoked_at = some stamp.revoked_at;
              replaced_by_session_id = some new.id;
            }))
  refresh_rotates others stamp raw_token ip db tokens db' h =
      let m = refresh-ok lib config others stamp raw_token ip db h in
      (
        m.old,
        session_row lib config stamp.session m.owner (audience_of m.is_admin) ip none,
        m.found,
        m.unrevoked,
        m.unexpired,
        successor_found stamp raw_token ip (others.before_lock db) tokens db' m,
        successor_apart stamp raw_token ip (others.before_lock db) tokens db' m,
        refl,
        refl,
        session_row-HasSameOwner lib config stamp.session m.old m.owner m.is_admin ip none m.owned,
        old_linked stamp raw_token ip (others.before_lock db) tokens db' m,
      )
