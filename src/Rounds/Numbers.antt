-- ===== src/Rounds/Numbers.antt =====
-- The numbers of the rounds of a game: a countdown to 1, and what the statements do to it.
use text.Mathlib.Text.{◌==◌ as str_eq}
use jito_india_game.Bets.{same_game}
use jito_india_game.Database.{Db, GameId, GameRound, triple_chance_pro_timer, triple_chance_timer}
use jito_india_game.Prelude.{
  ==_iff, Bool, Bool-cases, List, [], any, ap, arith, false, if◌then◌else◌, inl, inr, leb, length,
  refl, suc, true, ℕ, ◌&&◌, ◌+◌, ◌==◌, ◌||◌, ◌∙◌, ◌∷◌, ◌≡◌, ◌≤◌,
}
use jito_india_game.Rounds.{
  clashes, is_live, lock_if_deadline_passed, locked, max_round_number, open_round, opened,
  selects_lock, selects_open, update_where,
}

-- The numbers of a game's rounds, newest first.
unfoldable pub numbers : GameId → List GameRound → List ℕ
numbers g [] = []
numbers g (r ∷ more) =
    let rest = numbers g more in if same_game r.game_id g then r.round_number ∷ rest else rest

abbrev pub IsCountdown : List ℕ → Type 0
IsCountdown [] = Unit
IsCountdown (n ∷ ns) = (n ≡ suc (length ns)) × IsCountdown ns

-- Newest first, the numbers of every game count down to 1.
abbrev pub IsNumbered : List GameRound → Type 0
IsNumbered rs = (g : GameId) → IsCountdown (numbers g rs)

pub max_round_number-eq-length :
    (g : GameId) (rs : List GameRound)
    → IsCountdown (numbers g rs)
    → max_round_number g rs ≡ length (numbers g rs)
unfolding max_round_number numbers
max_round_number-eq-length g [] h = refl
max_round_number-eq-length g (r ∷ rs) h = elim (Bool-cases (same_game r.game_id g)) [
  | inr e ↦ rw e (max_round_number-eq-length g rs (rw e at h))
  | inl e ↦
      let parts : IsCountdown (r.round_number ∷ numbers g rs) = rw e at h in
      let before = max_round_number-eq-length g rs parts.1 in
      let top = parts.0 in rw e (ground (arith, before, top))
]

same_game-sym : (a b : GameId) → same_game a b ≡ same_game b a
same_game-sym triple_chance_timer triple_chance_timer = refl
same_game-sym triple_chance_timer triple_chance_pro_timer = refl
same_game-sym triple_chance_pro_timer triple_chance_timer = refl
same_game-sym triple_chance_pro_timer triple_chance_pro_timer = refl

clashes_same_number :
    (r s : GameRound)
    → same_game s.game_id r.game_id ≡ true
    → r.round_number ≡ s.round_number
    → clashes r s ≡ true
clashes_same_number r s game number =
    let turned : same_game r.game_id s.game_id ≡ true = same_game-sym r.game_id s.game_id ∙ game in
    let same : (r.round_number == s.round_number) ≡ true = ground arith in
    clash_of (r.id == s.id) (str_eq r.display_code s.display_code) (is_live r.state)
      (is_live s.state) turned same
  where
    clash_of :
        (a b c d : Bool) {x y : Bool}
        → x ≡ true
        → y ≡ true
        → (a || b || (x && y) || (x && c && d)) ≡ true
    clash_of a b c d e f = ground arith

-- A number that is given already clashes.
taken-number :
    (r : GameRound) (rs : List GameRound)
    → IsCountdown (numbers r.game_id rs)
    → 1 ≤ r.round_number
    → r.round_number ≤ length (numbers r.game_id rs)
    → any (clashes r) rs ≡ true
unfolding numbers
taken-number r [] h low high = absurd (omega arith)
taken-number r (s ∷ rs) h low high = elim (Bool-cases (same_game s.game_id r.game_id)) [
  | inr e ↦
      let later = taken-number r rs (rw e at h) low (rw e at high) in
      rw later (or_true (clashes r s))
  | inl e ↦
      let parts : IsCountdown (s.round_number ∷ numbers r.game_id rs) = rw e at h in
      let bound : r.round_number ≤ suc (length (numbers r.game_id rs)) = rw e at high in
      elim (Bool-cases (r.round_number == s.round_number)) [
        | inl same ↦
            rw (clashes_same_number r s e ((==_iff r.round_number s.round_number).0 same)) refl
        | inr other ↦
            let top = parts.0 in
            let below : r.round_number ≤ length (numbers r.game_id rs) = ground (arith, top) in
            rw (taken-number r rs parts.1 low below) (or_true (clashes r s))
      ]
]
  where
    or_true : (b : Bool) → (b || true) ≡ true
    or_true b = ground arith

-- What other writers commit keeps the numbering, and takes no round away.
abbrev pub KeepsNumbers : (Db → Db) → Type 0
KeepsNumbers f =
    (db : Db)
    → IsNumbered db.rounds
    → IsNumbered (f db).rounds
      × ((g : GameId) → length (numbers g db.rounds) ≤ length (numbers g (f db).rounds))

-- An update that keeps game and number of every round keeps the numbers.
numbers-update_where :
    (g : GameId) (p : GameRound → Bool) (f : GameRound → GameRound) (rs : List GameRound)
    → ((r : GameRound) → (f r).game_id ≡ r.game_id)
    → ((r : GameRound) → (f r).round_number ≡ r.round_number)
    → numbers g (update_where p f rs) ≡ numbers g rs
unfolding numbers update_where
numbers-update_where g p f [] game number = refl
numbers-update_where g p f (r ∷ rs) game number = elim (Bool-cases (p r)) [
  | inl e ↦ rw (e, game r, number r, numbers-update_where g p f rs game number) refl
  | inr e ↦ rw (e, numbers-update_where g p f rs game number) refl
]

pub open_round-numbers :
    (g : GameId) (i : ℕ) (db : Db) → numbers g (open_round i db).1.rounds ≡ numbers g db.rounds
unfolding open_round
open_round-numbers g i db =
    numbers-update_where g (selects_open i) opened db.rounds (λ r. refl) (λ r. refl)

pub lock-numbers :
    (g : GameId) (now i : ℕ) (db : Db)
    → numbers g (lock_if_deadline_passed now i db).1.rounds ≡ numbers g db.rounds
unfolding lock_if_deadline_passed
lock-numbers g now i db =
    numbers-update_where g (selects_lock now i) (locked now) db.rounds (λ r. refl) (λ r. refl)

same_game-eq : (a b : GameId) → same_game a b ≡ true → a ≡ b
same_game-eq triple_chance_timer triple_chance_timer h = refl
same_game-eq triple_chance_pro_timer triple_chance_pro_timer h = refl
same_game-eq triple_chance_timer triple_chance_pro_timer h = absurd (ground arith)
same_game-eq triple_chance_pro_timer triple_chance_timer h = absurd (ground arith)

-- A row under the number after an earlier count goes in only if that is the next number.
pub next_number :
    (r : GameRound) (old : ℕ) (rs : List GameRound)
    → IsNumbered rs
    → r.round_number ≡ old + 1
    → old ≤ length (numbers r.game_id rs)
    → any (clashes r) rs ≡ false
    → r.round_number ≡ suc (length (numbers r.game_id rs))
next_number r old rs h number grown fresh =
    elim (Bool-cases (leb r.round_number (length (numbers r.game_id rs)))) [
      | inl e ↦ absurd (
          clash (taken-number r rs (h r.game_id) (omega (arith, number)) (ground (arith, e))) fresh)
      | inr e ↦ ground (arith, number, grown, e)
    ]
  where
    clash : {b : Bool} → b ≡ true → b ≡ false → ⊥
    clash e f = cc

pub cons-IsNumbered :
    (r : GameRound) (rs : List GameRound)
    → IsNumbered rs
    → r.round_number ≡ suc (length (numbers r.game_id rs))
    → IsNumbered (r ∷ rs)
unfolding numbers
cons-IsNumbered r rs h next g = elim (Bool-cases (same_game r.game_id g)) [
  | inr e ↦ rw e (h g)
  | inl e ↦
      let game = same_game-eq r.game_id g e in
      rw e (next ∙ ap (λ x. suc (length (numbers x rs))) game, h g)
]
