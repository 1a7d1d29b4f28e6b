-- ===== src/Auth/Requests/Moving.antt =====
-- Every request moves the sessions table by creations, revocations and links only.
use Prim.Native.String.{String}
use jito_india_game.Auth.{Config, Libraries}
use jito_india_game.Auth.Login.{and_then}
use jito_india_game.Auth.Refresh.{
  RefreshOthers, RefreshOutcome, RefreshStamp, answered_refresh, link_successor, session_owner,
  refresh, refresh_body, refresh_live, refresh_locked, refresh_reused, role_of, rotate,
}
use jito_india_game.Auth.Sessions.{
  SessionStamp, create_session, owned_by, revoke_all_sessions, revoke_where,
}
use jito_india_game.Auth.Sessions.Moves.{
  Moved, changes, clashes_with, continues, creates, links, revokes, stays,
}
use jito_india_game.Auth.Tables.{
  create_account, create_session_row, create_user, find_session_by_hash, is_unrevoked,
  revoke_sessions, update_admin, update_user,
}
use jito_india_game.Database.{
  AdminUser, Db, Outcome, PointsAccount, Result, Session, Tx, User, bind-eq-ok, commit, err, ok,
  pure, transaction, ◌>>=◌,
}
use jito_india_game.Prelude.{
  Bool, Bool-cases, List, Option, Option-cases, any, arith, false, inl, inr, ltb, none, refl, sym,
  ℕ, ◌==◌, ◌∷◌, ◌≡◌,
}
use mathlib.Core.Path.{subst}

abbrev pub Moves : (Db → Db) → Type 0
Moves m = (db : Db) → Moved db.sessions (m db).sessions

-- A transaction's body moves the table when it succeeds.
abbrev pub BodyMoves : {A : Type 0} → Tx A → Type 0
BodyMoves {A} body =
    (db : Db) (a : A) (db' : Db) → body db ≡ ok (a, db') → Moved db.sessions db'.sessions

commit-Moved :
    {A : Type 0} (db : Db) (r : Result (A × Db))
    → ((a : A) (db' : Db) → r ≡ ok (a, db') → Moved db.sessions db'.sessions)
    → Moved db.sessions (commit db r).1.sessions
commit-Moved db (ok (a, db')) h = h a db' refl
commit-Moved db (err e) h = stays db.sessions

pub transaction-Moved :
    {A : Type 0} (body : Tx A) (db : Db)
    → BodyMoves body
    → Moved db.sessions (transaction body db).1.sessions
transaction-Moved body db h = commit-Moved db (body db) (h db)

pub bind-BodyMoves :
    {A B : Type 0} (m : Tx A) (f : A → Tx B)
    → BodyMoves m
    → ((a : A) → BodyMoves (f a))
    → BodyMoves (m >>= f)
bind-BodyMoves m f hm hf db b db' h =
    let (a, mid, ran, rest) = bind-eq-ok m f db h in
    continues db.sessions mid.sessions db'.sessions (hm db a mid ran) (hf a mid b db' rest)

pub and_then-Moved :
    {A B : Type 0} (ss : List Session) (o : Outcome A) (next : A → Db → Outcome B)
    → Moved ss o.1.sessions
    → ((a : A) (db : Db) → Moved db.sessions (next a db).1.sessions)
    → Moved ss (and_then o next).1.sessions
and_then-Moved ss (ok a, db) next h k = continues ss db.sessions _ h (k a db)
and_then-Moved ss (err e, db) next h k = h

-- The commits before a step, then the step.
pub after_others :
    (m : Db → Db) (db : Db) (ss : List Session)
    → Moves m
    → Moved (m db).sessions ss
    → Moved db.sessions ss
after_others m db ss h k = continues db.sessions (m db).sessions ss (h db) k

pub create_session_row-ok :
    (s : Session) (db : Db) {u : Unit {0}} {db' : Db}
    → create_session_row s db ≡ ok (u, db')
    → (any (clashes_with s) db.sessions ≡ false) × (db' ≡ record db { sessions = s ∷ db.sessions })
unfolding create_session_row
create_session_row-ok s db h = ground arith

create_session_row-BodyMoves : (s : Session) → BodyMoves (create_session_row s)
create_session_row-BodyMoves s db u db' h =
    let (fresh, e) = create_session_row-ok s db h in
    subst (λ (d : Db). Moved db.sessions d.sessions) (sym e) (creates s db.sessions fresh)

pub pure-BodyMoves : {A : Type 0} (a : A) → BodyMoves (pure a)
pure-BodyMoves a db b db' h = subst (Moved db.sessions) (ground arith) (stays db.sessions)

pub create_session-BodyMoves :
    (lib : Libraries) (config : Config) (stamp : SessionStamp) (owner : ℕ)
    (audience role ip : String) (user_agent : Option String)
    → BodyMoves (create_session lib config stamp owner audience role ip user_agent)
unfolding create_session
create_session-BodyMoves lib config stamp owner audience role ip user_agent =
    bind-BodyMoves _ _ (create_session_row-BodyMoves _) (λ u. pure-BodyMoves _)

link_successor-BodyMoves :
    (session_id now successor : ℕ) → BodyMoves (link_successor session_id now successor)
unfolding link_successor
link_successor-BodyMoves session_id now successor db u db' h =
    subst (Moved db.sessions) (ground arith)
      (changes (λ s. s.id == session_id) (links now successor) db.sessions)

-- Statements on the users and the administrators leave the sessions alone.
pub update_user-BodyMoves : (i : ℕ) (f : User → User) → BodyMoves (update_user i f)
unfolding update_user
update_user-BodyMoves i f db u db' h = subst (Moved db.sessions) (ground arith) (stays db.sessions)

pub update_admin-BodyMoves : (i : ℕ) (f : AdminUser → AdminUser) → BodyMoves (update_admin i f)
unfolding update_admin
update_admin-BodyMoves i f db u db' h = subst (Moved db.sessions) (ground arith) (stays db.sessions)

pub create_user-BodyMoves : (u : User) → BodyMoves (create_user u)
unfolding create_user
create_user-BodyMoves u db t db' h = subst (Moved db.sessions) (ground arith) (stays db.sessions)

pub create_account-BodyMoves : (a : PointsAccount) → BodyMoves (create_account a)
unfolding create_account
create_account-BodyMoves a db t db' h = subst (Moved db.sessions) (ground arith) (stays db.sessions)

pub revoke_where-Moves :
    (p : Session → Bool) (now : ℕ) (meanwhile : Db → Db)
    → Moves meanwhile
    → Moves (revoke_where p now meanwhile)
unfolding revoke_where revoke_sessions
revoke_where-Moves p now meanwhile h db =
    after_others meanwhile db _ h (changes _ (revokes now) (meanwhile db).sessions)

module _ (lib : Libraries) (config : Config) where
  rotate-BodyMoves :
      (stamp : RefreshStamp) (ip : String) (s : Session) (owner : ℕ) (is_admin : Bool)
      (role : String)
      → BodyMoves (rotate lib config stamp ip s owner is_admin role)
  unfolding rotate
  rotate-BodyMoves stamp ip s owner is_admin role =
      bind-BodyMoves _ _ (create_session-BodyMoves lib config stamp.session owner _ role ip none)
        (λ created.
          bind-BodyMoves _ _ (link_successor-BodyMoves s.id stamp.revoked_at created.1)
            (λ u. pure-BodyMoves _))

  refresh_live-BodyMoves :
      (stamp : RefreshStamp) (ip : String) (s : Session)
      → BodyMoves (refresh_live lib config stamp ip s)
  unfolding refresh_live
  refresh_live-BodyMoves stamp ip s db a db' h = elim (Option-cases (session_owner s)) [
    | inl e ↦ subst (Moved db.sessions) (ground arith) (stays db.sessions)
    | inr (o, e) ↦ elim (Option-cases (role_of o.0 o.1 db)) [
      | inl e' ↦ subst (Moved db.sessions) (ground arith) (stays db.sessions)
      | inr (role, e') ↦ rotate-BodyMoves stamp ip s o.0 o.1 role db a db' (ground arith)
    ]
  ]

  refresh_reused-BodyMoves :
      (others : RefreshOthers) (stamp : RefreshStamp) (s : Session)
      → Moves others.before_revocation
      → BodyMoves (refresh_reused others stamp s)
  unfolding refresh_reused revoke_all_sessions
  refresh_reused-BodyMoves others stamp s m db a db' h = elim (Option-cases (session_owner s)) [
    | inl e ↦ subst (Moved db.sessions) (ground arith) (stays db.sessions)
    | inr (o, e) ↦
        subst (Moved db.sessions) (ground arith)
          (revoke_where-Moves (owned_by o.0 o.1) stamp.revoked_at others.before_revocation m db)
  ]

  pub refresh_body-BodyMoves :
      (others : RefreshOthers) (stamp : RefreshStamp) (raw_token ip : String)
      → Moves others.before_revocation
      → BodyMoves (refresh_body lib config others stamp raw_token ip)
  unfolding refresh_body refresh_locked
  refresh_body-BodyMoves others stamp raw_token ip m db a db' h =
      elim (Option-cases (find_session_by_hash (lib.hash_token raw_token) db.sessions)) [
        | inl e ↦ subst (Moved db.sessions) (ground arith) (stays db.sessions)
        | inr (s, e) ↦ elim (Bool-cases (ltb s.expires_at stamp.checked_at)) [
          | inl t ↦ subst (Moved db.sessions) (ground arith) (stays db.sessions)
          | inr f ↦ elim (Bool-cases (is_unrevoked s)) [
            | inl t ↦ refresh_live-BodyMoves stamp ip s db a db' (ground arith)
            | inr g ↦ refresh_reused-BodyMoves others stamp s m db a db' (ground arith)
          ]
        ]
      ]

  answered-sessions : (o : Outcome RefreshOutcome) → (answered_refresh o).1 ≡ o.1
  answered-sessions (ok o, db) = refl
  answered-sessions (err e, db) = refl

  pub refresh-Moves :
      (others : RefreshOthers) (stamp : RefreshStamp) (raw_token ip : String)
      → Moves others.before_lock
      → Moves others.before_revocation
      → Moves (λ db. (refresh lib config others stamp raw_token ip db).1)
  unfolding refresh
  refresh-Moves others stamp raw_token ip m1 m2 db = after_others others.before_lock db _ m1 (
      rw
        (answered-sessions
          (transaction (refresh_body lib config others stamp raw_token ip) (others.before_lock db)))
        (transaction-Moved _ _ (refresh_body-BodyMoves others stamp raw_token ip m2)))
