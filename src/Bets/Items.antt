-- ===== src/Bets/Items.antt =====
-- The items of a bet request: services/api/src/bets/dto/place-bet.dto.ts, and the merging and
-- validation that bets.service.ts does before it opens a transaction.
use jito_india_game.Centipoints.Numbers.{max_safe_integer}
use jito_india_game.Database.{
  BetCategory, BetItem, GameId, Result, doubles, err, invalid_selection, ok, singles, triples,
  unsafe_selection_amount, unsafe_total_amount,
}
use jito_india_game.Prelude.{
  Bool, List, Option, [], all, false, if◌then◌else◌, length, none, some, true, ℕ, ◌&&◌, ◌==◌, ◌||◌,
  ◌∷◌,
}
use jito_india_game.Prelude.Int.{leb_ℤ, ltb_ℤ, pos, ℤ, ◌+ℤ◌, ◌==ℤ◌}

-- A JavaScript number: an integer, or one that is not (a fraction, NaN, an infinity).
pub data JsNumber : Type 0 where
  int : ℤ → JsNumber
  not_int : JsNumber

pub record PlaceBetItemDto : Type 0 where
  pub category : BetCategory
  pub selection : ℤ
  pub amount_minor : JsNumber

pub record PlaceBetDto : Type 0 where
  pub round_id : ℕ
  pub game_id : GameId
  pub items : List PlaceBetItemDto

pub record MergedItem : Type 0 where
  pub category : BetCategory
  pub selection : ℤ
  pub amount_minor : ℤ

abbrev pub same_category : BetCategory → BetCategory → Bool
same_category singles singles = true
same_category doubles doubles = true
same_category triples triples = true
same_category _ _ = false

-- SELECTION_RANGE
abbrev pub selection_max : BetCategory → ℤ
selection_max singles = pos 9
selection_max doubles = pos 99
selection_max triples = pos 999

-- MAX_SAFE_AMOUNT
abbrev pub max_safe_amount : ℤ
max_safe_amount = pos max_safe_integer

-- The keys `${category}:${selection}` of the map are equal.
abbrev pub same_key : BetCategory → ℤ → MergedItem → Bool
same_key c s m = same_category m.category c && m.selection ==ℤ s

-- `existing.amountMinor += amount`, or a new entry at the end of the map.
unfoldable pub merge_into : List MergedItem → BetCategory → ℤ → ℤ → List MergedItem
merge_into [] c s amount = record { category = c; selection = s; amount_minor = amount } ∷ []
merge_into (m ∷ more) c s amount =
    if same_key c s m
    then record m { amount_minor = m.amount_minor +ℤ amount } ∷ more
    else m ∷ merge_into more c s amount

-- The test that `mergeItems` makes before it calls BigInt: a safe integer above 0.
unfoldable pub safe_amount : JsNumber → Option ℤ
safe_amount (int z) = if ltb_ℤ (pos 0) z && leb_ℤ z max_safe_amount then some z else none
safe_amount not_int = none

unfoldable pub merge_from : List MergedItem → List PlaceBetItemDto → Result (List MergedItem)
merge_from acc [] = ok acc
merge_from acc (item ∷ items) = elim (safe_amount item.amount_minor) [
  | none ↦ err (unsafe_selection_amount item.category item.selection)
  | some amount ↦ merge_from (merge_into acc item.category item.selection amount) items
]

unfoldable pub merge_items : List PlaceBetItemDto → Result (List MergedItem)
unfolding merge_from
merge_items items = merge_from [] items

unfoldable pub validate_selection_ranges : List MergedItem → Result (Unit {0})
validate_selection_ranges [] = ok tt
validate_selection_ranges (m ∷ more) =
    if ltb_ℤ m.selection (pos 0) || ltb_ℤ (selection_max m.category) m.selection
    then err (invalid_selection m.category m.selection)
    else validate_selection_ranges more

unfoldable pub total_from : ℤ → List MergedItem → ℤ
total_from acc [] = acc
total_from acc (m ∷ more) = total_from (acc +ℤ m.amount_minor) more

-- merged.reduce((sum, item) => sum + item.amountMinor, 0n)
abbrev pub total_amount : List MergedItem → ℤ
total_amount merged = total_from (pos 0) merged

unfoldable pub validate_item_amounts : List MergedItem → Result (Unit {0})
validate_item_amounts [] = ok tt
validate_item_amounts (m ∷ more) =
    if ltb_ℤ max_safe_amount m.amount_minor
    then err (unsafe_selection_amount m.category m.selection)
    else validate_item_amounts more

unfoldable pub validate_safe_amounts : List MergedItem → ℤ → Result (Unit {0})
unfolding validate_item_amounts
validate_safe_amounts merged total = elim (validate_item_amounts merged) [
  | err e ↦ err e
  | ok u ↦ if ltb_ℤ max_safe_amount total then err unsafe_total_amount else ok tt
]

-- `existingByKey.get(key)`: the map is filled in order, so the last entry of a key counts.
unfoldable pub get_amount : BetCategory → ℤ → List BetItem → Option ℤ
get_amount c s [] = none
get_amount c s (i ∷ more) = elim (get_amount c s more) [
  | some amount ↦ some amount
  | none ↦ if same_category i.category c && i.selection ==ℤ s then some i.amount_minor else none
]

abbrev pub is_amount : Option ℤ → ℤ → Bool
is_amount none z = false
is_amount (some x) z = x ==ℤ z

-- `itemsMatch`
unfoldable pub items_match : List BetItem → List MergedItem → Bool
items_match existing merged =
    (length existing == length merged)
    && all (λ m. is_amount (get_amount m.category m.selection existing) m.amount_minor) merged
