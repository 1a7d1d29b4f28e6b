-- ===== src/Auth/Sessions/Moves.antt =====
-- What the services do to the sessions table: they create rows, revoke rows and link rows to their
-- successors. A fact about the rows of an identifier, or of a token's hash, that revocation keeps
-- is kept by all of it.
use text.Mathlib.Text.{◌==◌ as str_eq}
use Prim.Native.String.{String}
use jito_india_game.Auth.Refresh.{succeeded_by}
use jito_india_game.Auth.Tables.{create_session_row, find_user, revoke, update_rows}
use jito_india_game.Database.{Db, Session, ok}
use jito_india_game.Database.Statements.{fits_varchar, is_some}
use jito_india_game.Prelude.{
  Bool, List, [], all, any, arith, false, not, refl, some, true, ℕ, ◌==◌, ◌||◌, ◌∙◌, ◌∷◌, ◌≡◌,
}
use text.Mathlib.TextEquality.{eq_iff}

abbrev pub clashes_with : Session → Session → Bool
clashes_with s r = r.id == s.id || str_eq r.refresh_token_hash s.refresh_token_hash

-- The two changes of a row.
pub data RowChange : Type 0 where
  revokes : (now : ℕ) → RowChange
  links : (now successor : ℕ) → RowChange

abbrev pub changed : RowChange → Session → Session
changed (revokes now) s = revoke now s
changed (links now successor) s = succeeded_by now successor s

pub data Moved : List Session → List Session → Type 0 where
  stays : (ss : List Session) → Moved ss ss
  continues : (a b c : List Session) → Moved a b → Moved b c → Moved a c
  creates : (s : Session) (ss : List Session) → any (clashes_with s) ss ≡ false → Moved ss (s ∷ ss)
  changes :
      (p : Session → Bool) (f : RowChange) (ss : List Session)
      → Moved ss (update_rows p (changed f) ss)

pub data SessionKey : Type 0 where
  by_id : ℕ → SessionKey
  by_hash : String → SessionKey

abbrev pub has_key : SessionKey → Session → Bool
has_key (by_id i) s = s.id == i
has_key (by_hash h) s = str_eq s.refresh_token_hash h

-- There are rows of the key, and all of them pass the test.
unfoldable pub IsPinned : SessionKey → (Session → Bool) → List Session → Type 0
IsPinned k q ss = (any (has_key k) ss ≡ true) × (all (λ s. not (has_key k s) || q s) ss ≡ true)

-- A test that a row goes on passing.
abbrev pub IsKept : (Session → Bool) → Type 0
IsKept q = (f : RowChange) (s : Session) → q s ≡ true → q (changed f s) ≡ true

pub changed-has_key :
    (k : SessionKey) (f : RowChange) (s : Session) → has_key k (changed f s) ≡ has_key k s
changed-has_key (by_id i) (revokes now) s = refl
changed-has_key (by_id i) (links now successor) s = refl
changed-has_key (by_hash h) (revokes now) s = refl
changed-has_key (by_hash h) (links now successor) s = refl

update_rows-any :
    (k : SessionKey) (p : Session → Bool) (f : RowChange) (ss : List Session)
    → any (has_key k) (update_rows p (changed f) ss) ≡ any (has_key k) ss
update_rows-any k p f [] = refl
update_rows-any k p f (s ∷ ss) = ground (arith, changed-has_key k f s, update_rows-any k p f ss)

update_rows-all :
    (k : SessionKey) (q p : Session → Bool) (f : RowChange) (ss : List Session)
    → IsKept q
    → all (λ s. not (has_key k s) || q s) ss ≡ true
    → all (λ s. not (has_key k s) || q s) (update_rows p (changed f) ss) ≡ true
update_rows-all k q p f [] kept h = refl
update_rows-all k q p f (s ∷ ss) kept h =
    ground (arith, changed-has_key k f s, kept f s, update_rows-all k q p f ss kept)

update_rows-all_or :
    (k : SessionKey) (q p : Session → Bool) (f : RowChange) (ss : List Session)
    → IsKept q
    → ((s : Session) → q (changed f s) ≡ true)
    → all (λ s. not (has_key k s) || (p s || q s)) ss ≡ true
    → all (λ s. not (has_key k s) || q s) (update_rows p (changed f) ss) ≡ true
update_rows-all_or k q p f [] kept made h = refl
update_rows-all_or k q p f (s ∷ ss) kept made h =
    ground (arith, changed-has_key k f s, made s, kept f s, update_rows-all_or k q p f ss kept made)

-- Where an update covers the rows of a key that do not pass a test yet, all pass it afterwards.
pub update_rows-IsPinned_or :
    (k : SessionKey) (q p : Session → Bool) (f : RowChange) (ss : List Session)
    → IsKept q
    → ((s : Session) → q (changed f s) ≡ true)
    → IsPinned k (λ s. p s || q s) ss
    → IsPinned k q (update_rows p (changed f) ss)
unfolding IsPinned
update_rows-IsPinned_or k q p f ss kept made (some_row, rows) =
    (update_rows-any k p f ss ∙ some_row, update_rows-all_or k q p f ss kept made rows)

pub IsPinned-weaken :
    (k : SessionKey) (q q' : Session → Bool) (ss : List Session)
    → ((s : Session) → has_key k s ≡ true → q s ≡ true → q' s ≡ true)
    → IsPinned k q ss
    → IsPinned k q' ss
unfolding IsPinned
IsPinned-weaken k q q' [] sub (some_row, rows) = (some_row, rows)
IsPinned-weaken k q q' (s ∷ ss) sub (some_row, rows) = (some_row, weaken (s ∷ ss) rows)
  where
    weaken :
        (ss : List Session)
        → all (λ s. not (has_key k s) || q s) ss ≡ true
        → all (λ s. not (has_key k s) || q' s) ss ≡ true
    weaken [] h = refl
    weaken (s ∷ ss) h = ground (arith, sub s, weaken ss)

-- Where an update covers the rows of a key, they are as it made them.
update_rows-all-changed :
    (k : SessionKey) (q p : Session → Bool) (f : RowChange) (ss : List Session)
    → ((s : Session) → q (changed f s) ≡ true)
    → all (λ s. not (has_key k s) || p s) ss ≡ true
    → all (λ s. not (has_key k s) || q s) (update_rows p (changed f) ss) ≡ true
update_rows-all-changed k q p f [] made h = refl
update_rows-all-changed k q p f (s ∷ ss) made h =
    ground (arith, changed-has_key k f s, made s, update_rows-all-changed k q p f ss made)

pub update_rows-IsPinned :
    (k : SessionKey) (q p : Session → Bool) (f : RowChange) (ss : List Session)
    → ((s : Session) → q (changed f s) ≡ true)
    → IsPinned k p ss
    → IsPinned k q (update_rows p (changed f) ss)
unfolding IsPinned
update_rows-IsPinned k q p f ss made (some_row, rows) =
    (update_rows-any k p f ss ∙ some_row, update_rows-all-changed k q p f ss made rows)

-- A row that clashes with no other has no key of theirs.
pub fresh-has_key :
    (k : SessionKey) (s : Session) (ss : List Session)
    → any (clashes_with s) ss ≡ false
    → any (has_key k) ss ≡ true
    → has_key k s ≡ false
fresh-has_key k s [] fresh h = absurd (ground arith)
fresh-has_key (by_id i) s (r ∷ ss) fresh h = ground (arith, fresh-has_key (by_id i) s ss)
fresh-has_key (by_hash x) s (r ∷ ss) fresh h = ground (
  arith,
  eq_iff r.refresh_token_hash x,
  eq_iff s.refresh_token_hash x,
  eq_iff r.refresh_token_hash s.refresh_token_hash,
  fresh-has_key (by_hash x) s ss,
)

pub Moved-IsPinned :
    (k : SessionKey) (q : Session → Bool) {a b : List Session}
    → IsKept q
    → Moved a b
    → IsPinned k q a
    → IsPinned k q b
unfolding IsPinned
Moved-IsPinned k q kept (stays ss) h = h
Moved-IsPinned k q kept (continues a b c m n) h =
    Moved-IsPinned k q kept n (Moved-IsPinned k q kept m h)
Moved-IsPinned k q kept (creates s ss fresh) (some_row, rows) =
    (ground arith, ground (arith, fresh-has_key k s ss fresh some_row))
Moved-IsPinned k q kept (changes p f ss) (some_row, rows) =
    (update_rows-any k p f ss ∙ some_row, update_rows-all k q p f ss kept rows)

pub create_session_row_fresh :
    (s : Session) (db : Db) (owner : ℕ)
    → s.user_id ≡ some owner
    → is_some (find_user owner db.users) ≡ true
    → fits_varchar 45 s.ip_address ≡ true
    → fits_varchar 255 s.refresh_token_hash ≡ true
    → any (clashes_with s) db.sessions ≡ false
    → create_session_row s db ≡ ok (tt, record db { sessions = s ∷ db.sessions })
unfolding create_session_row
create_session_row_fresh s db owner o u f1 f2 fresh = ground arith
