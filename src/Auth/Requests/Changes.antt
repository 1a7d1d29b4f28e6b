-- ===== src/Auth/Requests/Changes.antt =====
-- The registration and the changes of a user move the sessions table by revocations only.
use Prim.Native.String.{String}
use jito_india_game.Auth.{Libraries, to_profile}
use jito_india_game.Auth.Register.{
  RegisterOthers, create_player, is_taken, register_user, registered,
}
use jito_india_game.Auth.Requests.Moving.{
  BodyMoves, Moves, after_others, bind-BodyMoves, create_account-BodyMoves, create_user-BodyMoves,
  pure-BodyMoves, revoke_where-Moves, transaction-Moved, update_user-BodyMoves,
}
use jito_india_game.Auth.Sessions.{owned_by}
use jito_india_game.Auth.Sessions.Moves.{Moved, stays}
use jito_india_game.Auth.Users.{
  ChangePasswordDto, PasswordOthers, PasswordStamp, change_found, change_verified, replace_password,
  update_profile, updated_profile,
}
use jito_india_game.Database.{
  Db, Outcome, PointsAccount, User, err, gets, ok, transaction, unique_violation,
}
use jito_india_game.Prelude.{
  Bool, Bool-cases, Option, arith, false, inl, inr, none, refl, some, true, ℕ, ◌&&◌, ◌≡◌,
}
use jito_india_game.Prelude.Text.{is_blank}
use mathlib.Core.Path.{subst}

pub register_user-Moves :
    (others : RegisterOthers) (u : User) (a : PointsAccount)
    → Moves others.before_create
    → Moves (λ db. (register_user others u a db).1)
unfolding register_user create_player
register_user-Moves others u a m db = elim (Bool-cases (is_blank u.email && is_blank u.phone)) [
  | inl t ↦ rw t (stays db.sessions)
  | inr f ↦ rw f (elim (Bool-cases (is_taken u db.users)) [
    | inl t ↦ rw t (stays db.sessions)
    | inr g ↦
        rw (g, registered-db (transaction (create_player u a) (others.before_create db)))
          (after_others others.before_create db _ m (
            transaction-Moved _ _ (
              bind-BodyMoves _ _ (create_user-BodyMoves u)
                (λ x. bind-BodyMoves _ _ (create_account-BodyMoves a) (λ y. pure-BodyMoves u)))))
  ])
]
  where
    registered-db : (o : Outcome User) → (registered o).1 ≡ o.1
    registered-db (ok u, db) = refl
    registered-db (err unique_violation, db) = refl
    registered-db (err e, db) = refl

gets-BodyMoves : {A : Type 0} (f : Db → A) → BodyMoves (gets f)
gets-BodyMoves f db a db' h = subst (Moved db.sessions) (ground arith) (stays db.sessions)

updated_profile-BodyMoves : (u : Option User) → BodyMoves (updated_profile u)
updated_profile-BodyMoves none db a db' h = absurd (ground arith)
updated_profile-BodyMoves (some u) db a db' h = pure-BodyMoves (to_profile u) db a db' h

pub update_profile-BodyMoves :
    (user_id : ℕ) (name : Option String) → BodyMoves (update_profile user_id name)
unfolding update_profile
update_profile-BodyMoves user_id name =
    bind-BodyMoves _ _ (update_user-BodyMoves user_id _)
      λ u. bind-BodyMoves _ _ (gets-BodyMoves _) updated_profile-BodyMoves

module _ (lib : Libraries) where
  change_verified-Moves :
      (valid : Option Bool) (others : PasswordOthers) (stamp : PasswordStamp) (user_id : ℕ)
      (new_password : String)
      → Moves others.before_update
      → Moves others.before_revocation
      → Moves (λ db. (change_verified valid lib others stamp user_id new_password db).1)
  unfolding replace_password
  change_verified-Moves none others stamp user_id new_password m1 m2 db = stays db.sessions
  change_verified-Moves (some false) others stamp user_id new_password m1 m2 db = stays db.sessions
  change_verified-Moves (some true) others stamp user_id new_password m1 m2 db =
      after_others others.before_update db _ m1 (
        transaction-Moved _ _ (
          bind-BodyMoves _ _ (update_user-BodyMoves user_id _) λ x db1 a db2 h.
            subst (Moved db1.sessions) (ground arith) (
              revoke_where-Moves (owned_by user_id false) stamp.now others.before_revocation m2
                db1)))

  pub change_found-Moves :
      (u : Option User) (others : PasswordOthers) (stamp : PasswordStamp) (user_id : ℕ)
      (dto : ChangePasswordDto)
      → Moves others.before_update
      → Moves others.before_revocation
      → Moves (λ db. (change_found u lib others stamp user_id dto db).1)
  change_found-Moves none others stamp user_id dto m1 m2 db = stays db.sessions
  change_found-Moves (some u) others stamp user_id dto m1 m2 db =
      change_verified-Moves _ others stamp user_id dto.new_password m1 m2 db
