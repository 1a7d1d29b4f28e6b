-- ===== src/Auth/Sessions/Unique.antt =====
-- The primary key of the sessions table and the UNIQUE index on refresh_token_hash.
use jito_india_game.Auth.Sessions.Moves.{
  IsPinned, Moved, RowChange, SessionKey, changed, changes, clashes_with, continues, creates,
  fresh-has_key, has_key, links, revokes, stays,
}
use jito_india_game.Auth.Tables.{find_row, update_rows}
use jito_india_game.Database.{Session}
use jito_india_game.Prelude.{
  Bool, Bool-cases, List, [], all, any, arith, false, if◌then◌else◌, inl, inr, not, refl, some,
  true, ◌||◌, ◌∙◌, ◌∷◌, ◌≡◌,
}

unfoldable pub HasUniqueKeys : List Session → Type 0
HasUniqueKeys [] = Unit
HasUniqueKeys (s ∷ ss) = (any (clashes_with s) ss ≡ false) × HasUniqueKeys ss

changed-clashes_with :
    (f g : RowChange) (b c : Bool) (s r : Session)
    → clashes_with (if b then changed f s else s) (if c then changed g r else r) ≡ clashes_with s r
changed-clashes_with f g false false s r = refl
changed-clashes_with (revokes n) g true false s r = refl
changed-clashes_with (links n i) g true false s r = refl
changed-clashes_with f (revokes n) false true s r = refl
changed-clashes_with f (links n i) false true s r = refl
changed-clashes_with (revokes n) (revokes m) true true s r = refl
changed-clashes_with (revokes n) (links m j) true true s r = refl
changed-clashes_with (links n i) (revokes m) true true s r = refl
changed-clashes_with (links n i) (links m j) true true s r = refl

update_rows-any_clash :
    (p : Session → Bool) (f : RowChange) (b : Bool) (s : Session) (ss : List Session)
    → any (clashes_with (if b then changed f s else s)) (update_rows p (changed f) ss)
      ≡ any (clashes_with s) ss
update_rows-any_clash p f b s [] = refl
update_rows-any_clash p f b s (r ∷ ss) =
    ground (arith, changed-clashes_with f f b (p r) s r, update_rows-any_clash p f b s ss)

update_rows-HasUniqueKeys :
    (p : Session → Bool) (f : RowChange) (ss : List Session)
    → HasUniqueKeys ss
    → HasUniqueKeys (update_rows p (changed f) ss)
unfolding HasUniqueKeys
update_rows-HasUniqueKeys p f [] u = tt
update_rows-HasUniqueKeys p f (s ∷ ss) (fresh, u) =
    (update_rows-any_clash p f (p s) s ss ∙ fresh, update_rows-HasUniqueKeys p f ss u)

pub Moved-HasUniqueKeys : {a b : List Session} → Moved a b → HasUniqueKeys a → HasUniqueKeys b
unfolding HasUniqueKeys
Moved-HasUniqueKeys (stays ss) u = u
Moved-HasUniqueKeys (continues a b c m n) u = Moved-HasUniqueKeys n (Moved-HasUniqueKeys m u)
Moved-HasUniqueKeys (creates s ss fresh) u = (fresh, u)
Moved-HasUniqueKeys (changes p f ss) u = update_rows-HasUniqueKeys p f ss u

no_key :
    (k : SessionKey) (s : Session) (ss : List Session)
    → any (clashes_with s) ss ≡ false
    → has_key k s ≡ true
    → any (has_key k) ss ≡ false
no_key k s ss fresh h = elim (Bool-cases (any (has_key k) ss)) [
  | inl t ↦ absurd (ground (arith, fresh-has_key k s ss fresh t))
  | inr f ↦ f
]

without_key :
    (k : SessionKey) (q : Session → Bool) (ss : List Session)
    → any (has_key k) ss ≡ false
    → all (λ s. not (has_key k s) || q s) ss ≡ true
without_key k q [] h = refl
without_key k q (s ∷ ss) h = ground (arith, without_key k q ss)

-- The row that a key finds is the only one of the key.
pub find_row-IsPinned :
    (k : SessionKey) (q : Session → Bool) (ss : List Session) (s : Session)
    → HasUniqueKeys ss
    → find_row (has_key k) ss ≡ some s
    → q s ≡ true
    → IsPinned k q ss
unfolding IsPinned HasUniqueKeys
find_row-IsPinned k q [] s u h e = absurd (ground arith)
find_row-IsPinned k q (r ∷ ss) s (fresh, u) h e = elim (Bool-cases (has_key k r)) [
  | inl t ↦
      let same : r ≡ s = ground arith in
      (ground arith, ground (arith, without_key k q ss (no_key k r ss fresh t)))
  | inr f ↦
      let rest = find_row-IsPinned k q ss s u (ground arith) e in
      (ground (arith, rest.0), ground (arith, rest.1))
]

pub IsPinned-find_row :
    (k : SessionKey) (q : Session → Bool) (ss : List Session)
    → IsPinned k q ss
    → (s : Session) × (find_row (has_key k) ss ≡ some s) × (q s ≡ true)
unfolding IsPinned
IsPinned-find_row k q [] (some_row, rows) = absurd (ground arith)
IsPinned-find_row k q (r ∷ ss) (some_row, rows) = elim (Bool-cases (has_key k r)) [
  | inl t ↦ (r, ground arith, ground arith)
  | inr f ↦
      let (s, found, e) = IsPinned-find_row k q ss (ground arith, ground arith) in
      (s, ground arith, e)
]
