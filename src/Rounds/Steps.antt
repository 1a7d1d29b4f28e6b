-- ===== src/Rounds/Steps.antt =====
-- What a reconciling step does to the rounds, whatever other writers commit meanwhile.
use jito_india_game.Database.{
  Db, GameRound, RoundState, betting_locked, betting_open, round_completed, round_created,
  round_void,
}
use jito_india_game.Prelude.{
  All, Bool, Bool-cases, List, [], any, arith, false, inl, inr, leb, none, refl, some, sym, true, ℕ,
  ◌++◌, ◌+◌, ◌==◌, ◌∷◌, ◌≡◌, ◌⊎◌,
}
use jito_india_game.Rounds.{
  clashes, is_created, is_live, is_lockable, lock_if_deadline_passed, locked, open_round, opened,
  selects_lock, selects_open, update_where,
}

-- The UNIQUE indexes of game_rounds hold: identifiers, display codes and the numbers of a game are
-- distinct, and a game has one live round at most.
abbrev pub HasNoClash : List GameRound → Type 0
HasNoClash [] = Unit
HasNoClash (r ∷ more) = All (λ s. clashes r s ≡ false) more × HasNoClash more

-- The legal changes of the table: a new round, or one round opened or locked.
pub data RoundStep (now : ℕ) : List GameRound → List GameRound → Type 0 where
  stays : (rs : List GameRound) → RoundStep now rs rs
  creates :
      (r : GameRound) (rs : List GameRound)
      → r.state ≡ round_created
      → r.state_version ≡ 0
      → r.locked_at ≡ none
      → any (clashes r) rs ≡ false
      → RoundStep now rs (r ∷ rs)
  opens :
      (front : List GameRound) (r : GameRound) (back : List GameRound)
      → is_created r.state ≡ true
      → RoundStep now
          (front ++ (r ∷ back))
          (front ++ (record r { state = betting_open; state_version = r.state_version + 1 } ∷ back))
  locks :
      (front : List GameRound) (r : GameRound) (back : List GameRound)
      → is_lockable r.state ≡ true
      → leb r.betting_deadline now ≡ true
      → RoundStep now (front ++ (r ∷ back)) (
          front
          ++ (record r {
            state = betting_locked;
            state_version = r.state_version + 1;
            locked_at = some now;
          }
              ∷ back))

any-false-All :
    (p : GameRound → Bool) (rs : List GameRound) → any p rs ≡ false → All (λ r. p r ≡ false) rs
any-false-All p [] h = tt
any-false-All p (r ∷ rs) h = ground (arith, any-false-All p rs)

-- A conditional UPDATE that selects no round changes nothing.
update_where-none :
    (p : GameRound → Bool) (f : GameRound → GameRound) (rs : List GameRound)
    → All (λ r. p r ≡ false) rs
    → update_where p f rs ≡ rs
unfolding update_where
update_where-none p f [] h = refl
update_where-none p f (r ∷ rs) (e, h) = rw (e, update_where-none p f rs h)

-- What an UPDATE by identifier changes: nothing, or one round that it selects.
abbrev pub ChangesOne : (GameRound → Bool) → (GameRound → GameRound) → List GameRound → Type 0
ChangesOne p f rs =
    (update_where p f rs ≡ rs)
    ⊎ ((front : List GameRound) × (r : GameRound) × (back : List GameRound) × (rs
          ≡ front ++ (r ∷ back))
        × (update_where p f rs ≡ front ++ (f r ∷ back))
        × (p r ≡ true))

clashes_same_id :
    (i : ℕ) (r s : GameRound) → (r.id == i) ≡ true → clashes r s ≡ false → (s.id == i) ≡ false
clashes_same_id i r s h k = ground arith

others_not_selected :
    (p : GameRound → Bool) (i : ℕ) (r : GameRound) (rs : List GameRound)
    → ((s : GameRound) → (s.id == i) ≡ false → p s ≡ false)
    → (r.id == i) ≡ true
    → All (λ s. clashes r s ≡ false) rs
    → All (λ s. p s ≡ false) rs
others_not_selected p i r [] by_id same h = tt
others_not_selected p i r (s ∷ rs) by_id same (e, h) =
    (by_id s (clashes_same_id i r s same e), others_not_selected p i r rs by_id same h)

cons_ChangesOne :
    (p : GameRound → Bool) (f : GameRound → GameRound) (r : GameRound) (rs : List GameRound)
    → p r ≡ false
    → ChangesOne p f rs
    → ChangesOne p f (r ∷ rs)
unfolding update_where
cons_ChangesOne p f r rs e (inl same) = inl (rw (e, same))
cons_ChangesOne p f r rs e (inr (front, s, back, was, now, sel)) =
    inr (r ∷ front, s, back, rw was, rw (e, now), sel)

update_where-ChangesOne :
    (p : GameRound → Bool) (f : GameRound → GameRound) (i : ℕ) (rs : List GameRound)
    → ((s : GameRound) → (s.id == i) ≡ false → p s ≡ false)
    → HasNoClash rs
    → ChangesOne p f rs
unfolding update_where
update_where-ChangesOne p f i [] by_id h = inl refl
update_where-ChangesOne p f i (r ∷ rs) by_id (apart, h) = elim (Bool-cases (p r)) [
  | inr e ↦ cons_ChangesOne p f r rs e (update_where-ChangesOne p f i rs by_id h)
  | inl e ↦ elim (Bool-cases (r.id == i)) [
    | inr other ↦ absurd (ground (arith, by_id r other))
    | inl same ↦ inr (
      [],
      r,
      rs,
      refl,
      rw (e, update_where-none p f rs (others_not_selected p i r rs by_id same apart)),
      e,
    )
  ]
]

pub open_round-RoundStep :
    (now i : ℕ) (db : Db)
    → HasNoClash db.rounds
    → RoundStep now db.rounds (open_round i db).1.rounds
unfolding open_round
open_round-RoundStep now i db h =
    elim (update_where-ChangesOne (selects_open i) opened i db.rounds (λ s e. ground arith) h) [
      | inl same ↦ rw same (stays db.rounds)
      | inr (front, r, back, was, after, sel) ↦ rw (after, was) (opens front r back (ground arith))
    ]

pub lock-RoundStep :
    (now i : ℕ) (db : Db)
    → HasNoClash db.rounds
    → RoundStep now db.rounds (lock_if_deadline_passed now i db).1.rounds
unfolding lock_if_deadline_passed
lock-RoundStep now i db h =
    elim (update_where-ChangesOne (selects_lock now i) (locked now) i db.rounds
      (λ s e. ground arith) h) [
        | inl same ↦ rw same (stays db.rounds)
        | inr (front, r, back, was, after, sel) ↦
            rw (after, was) (locks front r back (ground arith) (ground arith))
      ]

pub created_is_live : (s : RoundState) → is_created s ≡ true → is_live s ≡ true
created_is_live round_completed h = absurd (ground arith)
created_is_live round_void h = absurd (ground arith)
created_is_live _ h = refl

pub lockable_is_live : (s : RoundState) → is_lockable s ≡ true → is_live s ≡ true
lockable_is_live round_completed h = absurd (ground arith)
lockable_is_live round_void h = absurd (ground arith)
lockable_is_live _ h = refl

-- A change of one round that keeps what the indexes read keeps them.
record SameKeys (r r' : GameRound) : Type 0 where
  id : r'.id ≡ r.id
  code : r'.display_code ≡ r.display_code
  game : r'.game_id ≡ r.game_id
  number : r'.round_number ≡ r.round_number
  live : is_live r'.state ≡ is_live r.state

clashes_from : (r r' s : GameRound) → SameKeys r r' → clashes r s ≡ false → clashes r' s ≡ false
clashes_from r r' s k h = rw (k.id, k.code, k.game, k.number, k.live) h

clashes_to : (r r' s : GameRound) → SameKeys r r' → clashes s r ≡ false → clashes s r' ≡ false
clashes_to r r' s k h = rw (k.id, k.code, k.game, k.number, k.live) h

All-clashes_to :
    (r r' s : GameRound) (front back : List GameRound)
    → SameKeys r r'
    → All (λ x. clashes s x ≡ false) (front ++ (r ∷ back))
    → All (λ x. clashes s x ≡ false) (front ++ (r' ∷ back))
All-clashes_to r r' s [] back k (e, h) = (clashes_to r r' s k e, h)
All-clashes_to r r' s (x ∷ front) back k (e, h) = (e, All-clashes_to r r' s front back k h)

All-clashes_from :
    (r r' : GameRound) (back : List GameRound)
    → SameKeys r r'
    → All (λ x. clashes r x ≡ false) back
    → All (λ x. clashes r' x ≡ false) back
All-clashes_from r r' [] k h = tt
All-clashes_from r r' (x ∷ back) k (e, h) =
    (clashes_from r r' x k e, All-clashes_from r r' back k h)

HasNoClash-replace :
    (r r' : GameRound) (front back : List GameRound)
    → SameKeys r r'
    → HasNoClash (front ++ (r ∷ back))
    → HasNoClash (front ++ (r' ∷ back))
HasNoClash-replace r r' [] back k (e, h) = (All-clashes_from r r' back k e, h)
HasNoClash-replace r r' (x ∷ front) back k (e, h) =
    (All-clashes_to r r' x front back k e, HasNoClash-replace r r' front back k h)

pub RoundStep-HasNoClash :
    (now : ℕ) {rs rs' : List GameRound} → RoundStep now rs rs' → HasNoClash rs → HasNoClash rs'
RoundStep-HasNoClash now (stays _) h = h
RoundStep-HasNoClash now (creates r rs _ _ _ fresh) h = (any-false-All (clashes r) rs fresh, h)
RoundStep-HasNoClash now (opens front r back created) h =
    HasNoClash-replace r (opened r) front back
      (record {
        id = refl;
        code = refl;
        game = refl;
        number = refl;
        live = sym (created_is_live r.state created);
      })
      h
RoundStep-HasNoClash now (locks front r back lockable due) h =
    HasNoClash-replace r (locked now r) front back
      (record {
        id = refl;
        code = refl;
        game = refl;
        number = refl;
        live = sym (lockable_is_live r.state lockable);
      })
      h
