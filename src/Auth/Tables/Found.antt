-- ===== src/Auth/Tables/Found.antt =====
-- What a lookup finds after an update.
use jito_india_game.Auth.Tables.{find_row, find_user, update_rows, update_user, user_row_ok}
use jito_india_game.Database.{Db, User, ok}
use jito_india_game.Prelude.{
  Bool, List, [], arith, false, if◌then◌else◌, refl, some, true, ℕ, ◌==◌, ◌∷◌, ◌≡◌,
}

module _ {A : Type 0} where
  pub find_row-update_rows :
      (p q : A → Bool) (f : A → A) (xs : List A) (x : A)
      → ((y : A) → p (f y) ≡ p y)
      → find_row p xs ≡ some x
      → find_row p (update_rows q f xs) ≡ some (if q x then f x else x)
  find_row-update_rows p q f [] x same h = absurd (ground arith)
  find_row-update_rows p q f (y ∷ xs) x same h =
      head (q y) refl (find_row-update_rows p q f xs x same)
    where
      head :
          (b : Bool)
          → q y ≡ b
          → (find_row p xs ≡ some x
              → find_row p (update_rows q f xs) ≡ some (if q x then f x else x))
          → find_row p ((if b then f y else y) ∷ update_rows q f xs) ≡ some (if q x then f x else x)
      head true e rest = ground (arith, same y)
      head false e rest = ground arith

  pub find_row-test : (p : A → Bool) (xs : List A) (x : A) → find_row p xs ≡ some x → p x ≡ true
  find_row-test p [] x h = absurd (ground arith)
  find_row-test p (y ∷ xs) x h = ground (arith, find_row-test p xs x)

pub update_user-ok :
    (i : ℕ) (f : User → User) (u : User) (db : Db)
    → find_user i db.users ≡ some u
    → user_row_ok (f u) ≡ true
    → update_user i f db ≡ ok (tt, record db { users = update_rows (λ v. v.id == i) f db.users })
unfolding update_user
update_user-ok i f u db found fits = ground arith
