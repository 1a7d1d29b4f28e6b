-- ===== src/Bets/Recorded.antt =====
-- The items of a bet as they stand in the table match the request that placed it.
use jito_india_game.Bets.Items.{
  MergedItem, get_amount, is_amount, items_match, same_category, same_key,
}
use jito_india_game.Bets.Merging.{HasDistinctSelections}
use jito_india_game.Bets.Placement.{add_items}
use jito_india_game.Bets.Service.{item_row, item_rows}
use jito_india_game.Bets.Tables.{has_bet_id, items_of}
use jito_india_game.Database.{Bet, BetCategory, BetItem, singles}
use jito_india_game.Prelude.{
  ==_iff, All, Bool-cases, List, Option, [], all, ap, arith, false, if◌then◌else◌, inl, inr, length,
  none, refl, some, suc, true, ℕ, ◌&&◌, ◌+◌, ◌==◌, ◌∙◌, ◌∷◌, ◌≡◌,
}
use jito_india_game.Prelude.Int.{pos, ℤ, ◌==ℤ◌}

-- The first entry for a selection.
first_amount : BetCategory → ℤ → List BetItem → Option ℤ
first_amount c s [] = none
first_amount c s (i ∷ more) =
    if same_category i.category c && i.selection ==ℤ s
    then some i.amount_minor
    else first_amount c s more

or_else : Option ℤ → Option ℤ → Option ℤ
or_else none y = y
or_else (some x) y = some x

or_else_assoc : (x y z : Option ℤ) → or_else (or_else x y) z ≡ or_else x (or_else y z)
unfolding or_else
or_else_assoc none y z = refl
or_else_assoc (some x) y z = refl

get_amount-cons :
    (c : BetCategory) (s : ℤ) (i : BetItem) (items : List BetItem)
    → get_amount c s (i ∷ items) ≡ or_else (get_amount c s items) (first_amount c s (i ∷ []))
unfolding get_amount first_amount or_else
get_amount-cons c s i items = ground arith

first_amount-cons :
    (c : BetCategory) (s : ℤ) (i : BetItem) (items : List BetItem)
    → first_amount c s (i ∷ items) ≡ or_else (first_amount c s (i ∷ [])) (first_amount c s items)
unfolding first_amount or_else
first_amount-cons c s i items = ground arith

or_else_none : (x : Option ℤ) → x ≡ or_else x (first_amount singles (pos 0) [])
unfolding or_else first_amount
or_else_none none = refl
or_else_none (some x) = refl

get_amount-add_items :
    (c : BetCategory) (s : ℤ) (rows items : List BetItem)
    → get_amount c s (add_items rows items) ≡ or_else (get_amount c s items) (first_amount c s rows)
unfolding add_items first_amount
get_amount-add_items c s [] items = or_else_none (get_amount c s items)
get_amount-add_items c s (i ∷ rows) items =
    get_amount-add_items c s rows (i ∷ items)
    ∙ rw (get_amount-cons c s i items, first_amount-cons c s i rows)
        (or_else_assoc (get_amount c s items) _ _)

-- An entry for another selection is passed over.
first_amount-skip :
    (i : ℕ) (m : MergedItem) (more : List MergedItem) (xs : List MergedItem)
    → All (λ x. same_key m.category m.selection x ≡ false) xs
    → All (λ x. first_amount x.category x.selection (item_rows i more) ≡ some x.amount_minor) xs
    → All
        (λ x. first_amount x.category x.selection (item_rows i (m ∷ more)) ≡ some x.amount_minor)
        xs
unfolding item_rows first_amount
first_amount-skip i m more [] p h = tt
first_amount-skip i m more (x ∷ xs) (other, p) (found, h) = (
  rw (differs x.category m.category x.selection m.selection other) found,
  first_amount-skip i m more xs p h,
)
  where
    differs :
        (c c' : BetCategory) (s s' : ℤ)
        → (same_category c c' && s ==ℤ s') ≡ false
        → (same_category c' c && s' ==ℤ s) ≡ false
    differs c c' s s' h = ground arith

-- Each merged item is found with its amount.
first_amount-item_rows :
    (i : ℕ) (merged : List MergedItem)
    → HasDistinctSelections merged
    → All
        (λ m. first_amount m.category m.selection (item_rows i merged) ≡ some m.amount_minor)
        merged
unfolding item_rows first_amount
first_amount-item_rows i [] h = tt
first_amount-item_rows i (m ∷ more) (p, h) =
    (ground arith, first_amount-skip i m more more p (first_amount-item_rows i more h))

length-add_items :
    (rows items : List BetItem) → length (add_items rows items) ≡ length rows + length items
unfolding add_items
length-add_items [] items = omega arith
length-add_items (i ∷ rows) items = omega (arith, length-add_items rows (i ∷ items))

length-item_rows : (i : ℕ) (merged : List MergedItem) → length (item_rows i merged) ≡ length merged
unfolding item_rows
length-item_rows i [] = refl
length-item_rows i (m ∷ more) = ap suc (length-item_rows i more)

get_amount-new :
    (c : BetCategory) (s : ℤ) (rows : List BetItem)
    → get_amount c s (add_items rows []) ≡ first_amount c s rows
unfolding get_amount or_else
get_amount-new c s rows = get_amount-add_items c s rows []

all_found :
    (i : ℕ) (merged : List MergedItem) (xs : List MergedItem)
    → All (λ m. first_amount m.category m.selection (item_rows i merged) ≡ some m.amount_minor) xs
    → all
        (λ m.
          is_amount
            (get_amount m.category m.selection (add_items (item_rows i merged) []))
            m.amount_minor)
        xs
      ≡ true
all_found i merged [] h = refl
all_found i merged (x ∷ xs) (p, h) =
    rw (get_amount-new x.category x.selection (item_rows i merged), p, all_found i merged xs h)
      (ground arith)

-- The rows that a request inserts match that request.
pub items_match-add_items :
    (i : ℕ) (merged : List MergedItem)
    → HasDistinctSelections merged
    → items_match (add_items (item_rows i merged) []) merged ≡ true
unfolding items_match
items_match-add_items i merged h =
    let counted : length (add_items (item_rows i merged) []) ≡ length merged =
      omega (arith, length-add_items (item_rows i merged) [], length-item_rows i merged) in
    rw (counted, all_found i merged merged (first_amount-item_rows i merged h)) (ground arith)

items_of-add_items :
    (i : ℕ) (merged : List MergedItem) (items : List BetItem)
    → items_of i (add_items (item_rows i merged) items)
      ≡ add_items (item_rows i merged) (items_of i items)
unfolding item_rows add_items
items_of-add_items i [] items = refl
items_of-add_items i (m ∷ more) items =
    items_of-add_items i more (item_row i m ∷ items)
    ∙ ap (add_items (item_rows i more)) (items_of_self i m items)
  where
    items_of_self :
        (j : ℕ) (x : MergedItem) (rest : List BetItem)
        → items_of j (item_row j x ∷ rest) ≡ item_row j x ∷ items_of j rest
    items_of_self j x rest = unfold items_of in ground arith

-- Every item belongs to a bet (the foreign key of bet_items).
abbrev pub IsOwned : List Bet → BetItem → Type 0
IsOwned bets i = has_bet_id i.bet_id bets ≡ true

items_of-new :
    (i : ℕ) (bets : List Bet) (items : List BetItem)
    → has_bet_id i bets ≡ false
    → All (IsOwned bets) items
    → items_of i items ≡ []
unfolding items_of
items_of-new i bets [] new h = refl
items_of-new i bets (x ∷ items) new (p, h) = elim (Bool-cases (x.bet_id == i)) [
  | inl e ↦ absurd (clash x.bet_id i e p new)
  | inr e ↦ rw e (items_of-new i bets items new h)
]
  where
    clash : (a b : ℕ) → (a == b) ≡ true → has_bet_id a bets ≡ true → has_bet_id b bets ≡ false → ⊥
    clash a b e t f = let same = (==_iff a b).0 e in cc (same, t, f)

-- Under a new identifier, a bet's items are the rows of its request.
pub items_of-with_bet :
    (i : ℕ) (bets : List Bet) (merged : List MergedItem) (items : List BetItem)
    → has_bet_id i bets ≡ false
    → All (IsOwned bets) items
    → items_of i (add_items (item_rows i merged) items) ≡ add_items (item_rows i merged) []
items_of-with_bet i bets merged items new h =
    items_of-add_items i merged items
    ∙ ap (add_items (item_rows i merged)) (items_of-new i bets items new h)
