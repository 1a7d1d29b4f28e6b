-- ===== src/Auth/Guards/Admitted.antt =====
-- Whom the player's guard lets through.
use text.Mathlib.Text.{◌==◌ as str_eq}
use Prim.Native.String.{String}
use jito_india_game.Auth.{JwtPayload}
use jito_india_game.Auth.Guards.{
  CacheFaults, CachedStatus, admitted, cached, find_status, get_cached_status, has_session,
  is_usable_by, status_name, user_status_guard,
}
use jito_india_game.Auth.Tables.{find_row, find_user}
use jito_india_game.Database.{Db, Result, Session, User, UserStatus, banned, err, ok, suspended}
use jito_india_game.Prelude.{
  All, Bool, Bool-cases, List, Option-cases, [], any, arith, false, inl, inr, none, refl, some,
  true, ℕ, ◌++◌, ◌<◌, ◌==◌, ◌∷◌, ◌≡◌, ◌⊎◌,
}

-- What the guard goes by: the subject's entry of the cache, or the subject's own row.
abbrev pub IsPermitted : CacheFaults → ℕ → ℕ → List CachedStatus → Db → Type 0
IsPermitted faults now user cache db =
    ((c : CachedStatus) × (earlier : List CachedStatus) × (later : List CachedStatus)
      × (faults.get_fails ≡ false)
      × (cache ≡ earlier ++ (c ∷ later))
      × All (λ d. (d.user_id == user) ≡ false) earlier
      × (c.user_id ≡ user)
      × (now < c.expires_at)
      × (str_eq c.status "suspended" ≡ false)
      × (str_eq c.status "banned" ≡ false))
    ⊎ ((u : User) × (earlier : List User) × (later : List User) × (db.users
          ≡ earlier ++ (u ∷ later))
        × (u.id ≡ user)
        × (u.status ≡ UserStatus.active))

-- Whom the guard may let through: the token names a subject and a live session of it, and the subject
-- is permitted.
pub record IsAdmitted (faults : CacheFaults) (now : ℕ) (payload : JwtPayload)
    (cache : List CachedStatus) (db : Db) : Type 0 where
  sub : ℕ
  sid : ℕ
  has_sub : payload.sub ≡ some sub
  has_sid : payload.sid ≡ some sid
  session : Session
  earlier : List Session
  later : List Session
  in_table : db.sessions ≡ earlier ++ (session ∷ later)
  identified : session.id ≡ sid
  owned : session.user_id ≡ some sub
  live : session.revoked_at ≡ none
  unexpired : now < session.expires_at
  permitted : IsPermitted faults now sub cache db

any-split :
    {A : Type 0} (p : A → Bool) (xs : List A)
    → any p xs ≡ true
    → (x : A) × (earlier : List A) × (later : List A) × (xs ≡ earlier ++ (x ∷ later)) × (p x ≡ true)
any-split p [] h = absurd (ground arith)
any-split p (x ∷ xs) h = elim (Bool-cases (p x)) [
  | inl e ↦ (x, [], xs, refl, e)
  | inr e ↦
      let (y, earlier, later, split, q) = any-split p xs (ground arith) in
      (y, x ∷ earlier, later, rw split refl, q)
]

find_row-split :
    {A : Type 0} (p : A → Bool) (xs : List A) {x : A}
    → find_row p xs ≡ some x
    → (earlier : List A) × (later : List A) × (xs ≡ earlier ++ (x ∷ later)) × (p x ≡ true)
find_row-split p [] h = absurd (ground arith)
find_row-split p (y ∷ xs) h = elim (Bool-cases (p y)) [
  | inl e ↦ ([], xs, ground arith, ground arith)
  | inr e ↦
      let (earlier, later, split, q) = find_row-split p xs (ground arith) in
      (y ∷ earlier, later, rw split refl, q)
]

find_status-split :
    (now user : ℕ) (cache : List CachedStatus) {status : String}
    → find_status now user cache ≡ some status
    → (c : CachedStatus) × (earlier : List CachedStatus) × (later : List CachedStatus) × (cache
        ≡ earlier ++ (c ∷ later))
      × All (λ d. (d.user_id == user) ≡ false) earlier
      × (c.user_id ≡ user)
      × (now < c.expires_at)
      × (c.status ≡ status)
unfolding find_status
find_status-split now user [] h = absurd (ground arith)
find_status-split now user (c ∷ cache) h = elim (Bool-cases (c.user_id == user)) [
  | inl e ↦ (c, [], cache, refl, tt, ground arith, ground arith, ground arith)
  | inr e ↦
      let (d, earlier, later, split, others, own, fresh, text) =
        find_status-split now user cache (ground arith) in
      (d, c ∷ earlier, later, rw split refl, (e, others), own, fresh, text)
]

admitted-ok :
    (r : Result String)
    → admitted r ≡ ok tt
    → (status : String) × (r ≡ ok status)
      × (str_eq status "suspended" ≡ false)
      × (str_eq status "banned" ≡ false)
admitted-ok (ok status) h = (status, refl, ground arith, ground arith)
admitted-ok (err e) h = absurd (ground arith)

status_name-active :
    (s : UserStatus)
    → str_eq (status_name s) "suspended" ≡ false
    → str_eq (status_name s) "banned" ≡ false
    → s ≡ UserStatus.active
status_name-active UserStatus.active h h' = refl
status_name-active suspended h h' = absurd (ground arith)
status_name-active banned h h' = absurd (ground arith)

get_cached_status-IsPermitted :
    (faults : CacheFaults) (now user : ℕ) (cache : List CachedStatus) (db : Db) {status : String}
    → (get_cached_status faults now user cache db).0 ≡ ok status
    → str_eq status "suspended" ≡ false
    → str_eq status "banned" ≡ false
    → IsPermitted faults now user cache db
unfolding get_cached_status find_user
get_cached_status-IsPermitted faults now user cache db {status} h fine fine' =
    elim (Option-cases (cached faults now user cache)) [
      | inl e ↦ elim (Option-cases (find_user user db.users)) [
        | inl e' ↦ absurd (ground arith)
        | inr (u, e') ↦
            let (earlier, later, split, own) = find_row-split (λ v. v.id == user) db.users e' in
            let name : status_name u.status ≡ status = ground arith in
            inr (
              u,
              earlier,
              later,
              split,
              ground arith,
              status_name-active u.status (rw name fine) (rw name fine'),
            )
      ]
      | inr (s, e) ↦
          let found : find_status now user cache ≡ some status = ground arith in
          let (c, earlier, later, split, others, own, fresh, text) =
            find_status-split now user cache found in
          inl (
            c,
            earlier,
            later,
            ground arith,
            split,
            others,
            own,
            fresh,
            rw text fine,
            rw text fine',
          )
    ]

-- Whoever passes the player's guard has a token with a subject and a session, and the table has this
-- session, which is the subject's, not revoked, and expires later. The subject's row is active, or
-- Redis answers and the first entry that it has for the subject expires later and is neither
-- "suspended" nor "banned".
pub guard_admits :
    (faults : CacheFaults) (now : ℕ) (payload : JwtPayload) (cache : List CachedStatus) (db : Db)
    → (user_status_guard faults now payload cache db).0 ≡ ok tt
    → IsAdmitted faults now payload cache db
unfolding user_status_guard has_session
guard_admits faults now payload cache db h = elim (Option-cases payload.sub) [
  | inl e ↦ absurd (ground arith)
  | inr (sub, e) ↦ elim (Option-cases payload.sid) [
    | inl e' ↦ absurd (ground arith)
    | inr (sid, e') ↦ elim (Bool-cases (any (is_usable_by sub false sid now) db.sessions)) [
      | inl t ↦
          let (s, earlier, later, split, usable) =
            any-split (is_usable_by sub false sid now) db.sessions t in
          let (status, answer, fine, fine') =
            admitted-ok (get_cached_status faults now sub cache db).0 (ground arith) in
          record {
            sub = sub;
            sid = sid;
            has_sub = e;
            has_sid = e';
            session = s;
            earlier = earlier;
            later = later;
            in_table = split;
            identified = ground arith;
            owned = ground arith;
            live = ground arith;
            unexpired = ground arith;
            permitted = get_cached_status-IsPermitted faults now sub cache db answer fine fine';
          }
      | inr f ↦ absurd (ground arith)
    ]
  ]
]
