-- ===== src/Bets/Acceptance/Statements.antt =====
-- The statements of a placement, where nothing is in their way.
use Prim.Native.String.{String, count}
use jito_india_game.Bets.Items.{MergedItem, max_safe_amount, same_category, same_key}
use jito_india_game.Bets.Merging.{HasDistinctSelections, InRange}
use jito_india_game.Bets.Placement.{IsRoundOpen, add_items}
use jito_india_game.Bets.Recorded.{IsOwned}
use jito_india_game.Bets.Service.{
  BetRequest, PlaceBetParams, checked_items, checked_key, checked_request, item_row, item_rows,
  lock_round, same_game,
}
use jito_india_game.Bets.Tables.{
  bet_item_row_ok, bet_row_ok, create_bet, create_bet_items, find_bet, has_bet_id, has_bet_item,
}
use jito_india_game.Database.{
  Bet, BetCategory, BetItem, Db, GameId, GameRound, Result-cases, debit, doubles, ok, singles,
  triple_chance_pro_timer, triple_chance_timer, triples,
}
use jito_india_game.Database.Statements.{fits_bigint, fits_varchar}
use jito_india_game.Points.Ledger.{apply_direction}
use jito_india_game.Points.Mutation.{max_bigint}
use jito_india_game.Prelude.{
  ==_iff, All, Bool-cases, List, Option, [], arith, false, inl, inr, leb, none, refl, some, true, ℕ,
  ◌==◌, ◌∷◌, ◌≡◌, ◌≤◌,
}
use jito_india_game.Prelude.Int.{int_laws, pos, ℤ, ◌≤ℤ◌}
use jito_india_game.Prelude.Text.{count-le-js_length, js_length}
use mathlib.Core.Path.{subst}

pub same_game_refl : (g : GameId) → same_game g g ≡ true
same_game_refl triple_chance_timer = refl
same_game_refl triple_chance_pro_timer = refl

pub lock_round-accepts :
    (now : ℕ) (q : BetRequest) (db : Db) (r : GameRound)
    → IsRoundOpen now q db r
    → lock_round now q db ≡ ok (r, db)
unfolding lock_round
lock_round-accepts now q db r o =
    let in_time : leb r.betting_deadline now ≡ false = ground (arith, o.in_time) in
    rw (o.found, o.game, same_game_refl q.game_id, o.accepting, in_time) refl

pub bet_row_ok_of_bounds :
    (b : Bet)
    → pos 1 ≤ℤ b.total_amount_minor
    → b.total_amount_minor ≤ℤ max_safe_amount
    → count b.idempotency_key ≤ 120
    → bet_row_ok b ≡ true
unfolding bet_row_ok fits_bigint fits_varchar
bet_row_ok_of_bounds b positive safe short = ground arith

pub create_bet-accepts :
    (b : Bet) (db : Db)
    → pos 1 ≤ℤ b.total_amount_minor
    → b.total_amount_minor ≤ℤ max_safe_amount
    → count b.idempotency_key ≤ 120
    → has_bet_id b.id db.bets ≡ false
    → find_bet b.user_id b.idempotency_key db.bets ≡ none
    → create_bet b db ≡ ok (b, record db { bets = b ∷ db.bets })
unfolding create_bet
create_bet-accepts b db positive safe short new_id new_key =
    rw (bet_row_ok_of_bounds b positive safe short, new_id, new_key) refl

pub item_row-ok :
    (i : ℕ) (m : MergedItem)
    → pos 1 ≤ℤ m.amount_minor
    → m.amount_minor ≤ℤ max_safe_amount
    → InRange m
    → bet_item_row_ok (item_row i m) ≡ true
unfolding bet_item_row_ok fits_bigint
item_row-ok i m positive safe (low, high) = ground arith

-- No item of the bet for a selection is in the table.
abbrev pub IsUnused : ℕ → List BetItem → MergedItem → Type 0
IsUnused i items m = has_bet_item (item_row i m) items ≡ false

pub same_category_comm : (a b : BetCategory) → same_category a b ≡ same_category b a
same_category_comm singles singles = refl
same_category_comm singles doubles = refl
same_category_comm singles triples = refl
same_category_comm doubles singles = refl
same_category_comm doubles doubles = refl
same_category_comm doubles triples = refl
same_category_comm triples singles = refl
same_category_comm triples doubles = refl
same_category_comm triples triples = refl

pub IsUnused-one :
    (i : ℕ) (m x : MergedItem) (items : List BetItem)
    → same_key m.category m.selection x ≡ false
    → IsUnused i items x
    → IsUnused i (item_row i m ∷ items) x
unfolding has_bet_item
IsUnused-one i m x items p u = rw (same_category_comm m.category x.category, u) (ground arith)

pub IsUnused-cons :
    (i : ℕ) (m : MergedItem) (more : List MergedItem) (items : List BetItem)
    → All (λ x. same_key m.category m.selection x ≡ false) more
    → All (IsUnused i items) more
    → All (IsUnused i (item_row i m ∷ items)) more
IsUnused-cons i m [] items d h = tt
IsUnused-cons i m (x ∷ more) items (p, d) (u, h) =
    (IsUnused-one i m x items p u, IsUnused-cons i m more items d h)

pub create_bet_items-accepts :
    (i : ℕ) (merged : List MergedItem) (db : Db)
    → HasDistinctSelections merged
    → All (λ m. pos 1 ≤ℤ m.amount_minor) merged
    → All (λ m. m.amount_minor ≤ℤ max_safe_amount) merged
    → All InRange merged
    → All (IsUnused i db.bet_items) merged
    → create_bet_items (item_rows i merged) db
      ≡ ok (tt, record db { bet_items = add_items (item_rows i merged) db.bet_items })
unfolding create_bet_items item_rows add_items
create_bet_items-accepts i [] db d p s r u = refl
create_bet_items-accepts i (m ∷ more) db (d, ds) (p, ps) (s, ss) (r, rs) (u, us) =
    rw (item_row-ok i m p s r, u)
      (create_bet_items-accepts i more (record db { bet_items = item_row i m ∷ db.bet_items }) ds ps
        ss rs (IsUnused-cons i m more db.bet_items d us))

pub new_bet-IsUnused :
    (i : ℕ) (bets : List Bet) (items : List BetItem) (m : MergedItem)
    → has_bet_id i bets ≡ false
    → All (IsOwned bets) items
    → IsUnused i items m
unfolding has_bet_item
new_bet-IsUnused i bets [] m new owned = refl
new_bet-IsUnused i bets (x ∷ items) m new (o, owned) = elim (Bool-cases (x.bet_id == i)) [
  | inl e ↦ absurd (clash x.bet_id i ((==_iff x.bet_id i).0 e) o new)
  | inr e ↦ rw e (new_bet-IsUnused i bets items m new owned)
]
  where
    clash : (a b : ℕ) → a ≡ b → has_bet_id a bets ≡ true → has_bet_id b bets ≡ false → ⊥
    clash a b e p q = cc

pub All-of {κ} : {A : Type 0} (P : A → Type κ) (xs : List A) → ((x : A) → P x) → All P xs
All-of P [] f = tt
All-of P (x ∷ xs) f = (f x, All-of P xs f)

pub covered_debit :
    (total balance : ℤ)
    → total ≤ℤ balance
    → balance ≤ℤ max_bigint
    → pos 1 ≤ℤ total
    → (pos 0 ≤ℤ apply_direction debit balance total)
      × (apply_direction debit balance total ≤ℤ max_bigint)
unfolding apply_direction
covered_debit total balance covered fits positive = (omega int_laws, omega int_laws)

pub safe_fits : (z : ℤ) → z ≤ℤ max_safe_amount → z ≤ℤ max_bigint
safe_fits z h = omega arith

pub checked_key-count :
    (k : Option String) {key : String} → checked_key k ≡ ok key → count key ≤ 120
unfolding checked_key
checked_key-count none h = absurd (ground arith)
checked_key-count (some k) {key} h =
    let same : k ≡ key = ground arith in
    let bound : js_length k ≤ 120 = ground arith in
    subst (λ s. count s ≤ 120) same (omega (arith, bound, count-le-js_length k))

pub checked_request-count :
    (p : PlaceBetParams) {q : BetRequest} → checked_request p ≡ ok q → count q.key ≤ 120
unfolding checked_request
checked_request-count p {q} h = elim (Result-cases (checked_key p.idempotency_key)) [
  | inr (x, e) ↦ absurd (ground arith)
  | inl (k, e) ↦ elim (Result-cases (checked_items p.dto.items)) [
    | inr (x, f) ↦ absurd (ground arith)
    | inl (m, f) ↦
        let same : k ≡ q.key = ground arith in
        subst (λ s. count s ≤ 120) same (checked_key-count p.idempotency_key e)
  ]
]
