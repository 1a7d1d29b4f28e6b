-- ===== src/Bets/Merging/Limits.antt =====
-- Merged selections are distinct, their amounts positive, and their total that of the request.
use jito_india_game.Bets.Items.{
  MergedItem, PlaceBetItemDto, max_safe_amount, merge_from, merge_into, merge_items, safe_amount,
  same_key, selection_max, total_amount, total_from, validate_item_amounts, validate_safe_amounts,
  validate_selection_ranges,
}
use jito_india_game.Bets.Merging.Stakes.{HasDistinctSelections, entry, safe_amount-whole}
use jito_india_game.Bets.Service.{checked_items}
use jito_india_game.Database.{BetCategory, Result-cases, ok}
use jito_india_game.Prelude.{
  All, Bool-cases, List, Option-cases, [], ap, arith, false, inl, inr, map, refl, sym, true, ◌∙◌,
  ◌∷◌, ◌≡◌,
}
use jito_india_game.Prelude.Int.{int_laws, pos, ℤ, ◌+ℤ◌, ◌≤ℤ◌}
use mathlib.Core.Path.{subst}

same_key_trans :
    (c : BetCategory) (s : ℤ) (x : MergedItem) (m : MergedItem)
    → same_key c s m ≡ true
    → same_key m.category m.selection x ≡ same_key c s x
same_key_trans c s x m h = ground arith

same_key_sym :
    (c : BetCategory) (s : ℤ) (m : MergedItem) (z : ℤ)
    → same_key c s m ≡ false
    → same_key m.category m.selection (record { category = c; selection = s; amount_minor = z })
      ≡ false
same_key_sym c s m z h = ground arith

-- What holds of every entry, of the new one, and of an entry that grows, holds after the merge.
merge_into-All :
    (P : MergedItem → Type 0) (c : BetCategory) (s z : ℤ) (acc : List MergedItem)
    → ((x : MergedItem) → P x → P (record x { amount_minor = x.amount_minor +ℤ z }))
    → P (record { category = c; selection = s; amount_minor = z })
    → All P acc
    → All P (merge_into acc c s z)
unfolding merge_into
merge_into-All P c s z [] grows new h = (new, tt)
merge_into-All P c s z (m ∷ acc) grows new (p, h) = elim (Bool-cases (same_key c s m)) [
  | inl e ↦ rw e (grows m p, h)
  | inr e ↦ rw e (p, merge_into-All P c s z acc grows new h)
]

merge_into-HasDistinctSelections :
    (c : BetCategory) (s z : ℤ) (acc : List MergedItem)
    → HasDistinctSelections acc
    → HasDistinctSelections (merge_into acc c s z)
unfolding merge_into
merge_into-HasDistinctSelections c s z [] h = (tt, tt)
merge_into-HasDistinctSelections c s z (m ∷ acc) (p, h) = elim (Bool-cases (same_key c s m)) [
  | inl e ↦ rw e (p, h)
  | inr e ↦ rw e (
    merge_into-All (λ x. same_key m.category m.selection x ≡ false) c s z acc (λ x q. q)
        (same_key_sym c s m z e) p,
    merge_into-HasDistinctSelections c s z acc h,
  )
]

total_from_shift :
    (acc z : ℤ) (merged : List MergedItem)
    → total_from (acc +ℤ z) merged ≡ total_from acc merged +ℤ z
unfolding total_from
total_from_shift acc z [] = refl
total_from_shift acc z (m ∷ more) =
    ap (λ x. total_from x more) (swap_last acc z m.amount_minor)
    ∙ total_from_shift (acc +ℤ m.amount_minor) z more
  where
    swap_last : (a b c : ℤ) → a +ℤ b +ℤ c ≡ a +ℤ c +ℤ b
    swap_last a b c = omega int_laws

total_from-merge_into :
    (start : ℤ) (c : BetCategory) (s z : ℤ) (acc : List MergedItem)
    → total_from start (merge_into acc c s z) ≡ total_from start acc +ℤ z
unfolding total_from merge_into
total_from-merge_into start c s z [] = refl
total_from-merge_into start c s z (m ∷ acc) = elim (Bool-cases (same_key c s m)) [
  | inl e ↦ rw e (
      ap (λ x. total_from x acc) (regroup start m.amount_minor z)
      ∙ total_from_shift (start +ℤ m.amount_minor) z acc)
  | inr e ↦ rw e (total_from-merge_into (start +ℤ m.amount_minor) c s z acc)
]
  where
    regroup : (a b c : ℤ) → a +ℤ (b +ℤ c) ≡ a +ℤ b +ℤ c
    regroup a b c = omega int_laws

-- What every loop round of `mergeItems` keeps.
pub record IsMerged (merged : List MergedItem) : Type 0 where
  pub distinct : HasDistinctSelections merged
  pub positive : All (λ m. pos 1 ≤ℤ m.amount_minor) merged

merge_into-IsMerged :
    (c : BetCategory) (s z : ℤ) (acc : List MergedItem)
    → pos 1 ≤ℤ z
    → IsMerged acc
    → IsMerged (merge_into acc c s z)
merge_into-IsMerged c s z acc h m = record {
  distinct = merge_into-HasDistinctSelections c s z acc m.distinct;
  positive =
      merge_into-All (λ x. pos 1 ≤ℤ x.amount_minor) c s z acc (λ x q. omega int_laws) h m.positive;
}

merge_from-IsMerged :
    (acc : List MergedItem) (items : List PlaceBetItemDto) {merged : List MergedItem}
    → merge_from acc items ≡ ok merged
    → IsMerged acc
    → IsMerged merged × (total_amount merged ≡ total_from (total_amount acc) (map entry items))
unfolding merge_from total_from
merge_from-IsMerged acc [] {merged} h m =
    let same : acc ≡ merged = ground arith in (subst IsMerged same m, ap total_amount (sym same))
merge_from-IsMerged acc (item ∷ items) {merged} h m =
    elim (Option-cases (safe_amount item.amount_minor)) [
      | inl e ↦ absurd (ground arith)
      | inr (z, e) ↦
          let (exact, positive, _) = safe_amount-whole item.amount_minor e in
          let next = merge_into acc item.category item.selection z in
          let (kept, total) =
            merge_from-IsMerged next items {merged = merged} (rw (e, merge_from) at h)
              (merge_into-IsMerged item.category item.selection z acc positive m) in
          (
            kept,
            total
                ∙ ap (λ x. total_from x (map entry items))
                    (total_from-merge_into (pos 0) item.category item.selection z acc
                      ∙ rw exact refl),
          )
    ]

-- `mergeItems` returns each selection once, with a positive amount; the amounts add up to those of
-- the request.
pub merge_items-IsMerged :
    (items : List PlaceBetItemDto) {merged : List MergedItem}
    → merge_items items ≡ ok merged
    → IsMerged merged × (total_amount merged ≡ total_amount (map entry items))
unfolding merge_items total_from
merge_items-IsMerged items h =
    merge_from-IsMerged [] items h (record { distinct = tt; positive = tt })

-- A selection is one of its category's numbers.
abbrev pub InRange : MergedItem → Type 0
InRange m = (pos 0 ≤ℤ m.selection) × (m.selection ≤ℤ selection_max m.category)

validate_selection_ranges-All :
    (merged : List MergedItem) → validate_selection_ranges merged ≡ ok tt → All InRange merged
unfolding validate_selection_ranges
validate_selection_ranges-All [] h = tt
validate_selection_ranges-All (m ∷ more) h = ground (arith, validate_selection_ranges-All more)

validate_item_amounts-All :
    (merged : List MergedItem)
    → validate_item_amounts merged ≡ ok tt
    → All (λ m. m.amount_minor ≤ℤ max_safe_amount) merged
unfolding validate_item_amounts
validate_item_amounts-All [] h = tt
validate_item_amounts-All (m ∷ more) h = ground (arith, validate_item_amounts-All more)

-- What a request has passed when a transaction is opened for it.
pub record IsValidBet (items : List PlaceBetItemDto) (merged : List MergedItem) : Type 0 where
  pub merges : merge_items items ≡ ok merged
  pub is_merged : IsMerged merged
  pub ranges : All InRange merged
  pub amounts : All (λ m. m.amount_minor ≤ℤ max_safe_amount) merged
  pub total : total_amount merged ≤ℤ max_safe_amount
  pub total_kept : total_amount merged ≡ total_amount (map entry items)

validate_safe_amounts-bounds :
    (merged : List MergedItem) (total : ℤ)
    → validate_safe_amounts merged total ≡ ok tt
    → All (λ m. m.amount_minor ≤ℤ max_safe_amount) merged × (total ≤ℤ max_safe_amount)
unfolding validate_safe_amounts
validate_safe_amounts-bounds merged total h = elim (Result-cases (validate_item_amounts merged)) [
  | inl (u, e) ↦ (validate_item_amounts-All merged e, ground arith)
  | inr (x, e) ↦ absurd (ground arith)
]

-- The checks before the transaction let through only requests whose merged selections are
-- distinct, in range and positive, with amounts and a total that JavaScript numbers hold exactly.
pub checked_items-IsValidBet :
    (items : List PlaceBetItemDto) {merged : List MergedItem}
    → checked_items items ≡ ok merged
    → IsValidBet items merged
unfolding checked_items
checked_items-IsValidBet items {merged} h = elim (Result-cases (merge_items items)) [
  | inr (x, e) ↦ absurd (ground arith)
  | inl (m, e) ↦ elim (Result-cases (validate_selection_ranges m)) [
    | inr (x, f) ↦ absurd (ground arith)
    | inl (u, f) ↦ elim (Result-cases (validate_safe_amounts m (total_amount m))) [
      | inr (x, g) ↦ absurd (ground arith)
      | inl (v, g) ↦
          let same : m ≡ merged = ground arith in
          let (is_merged, kept) = merge_items-IsMerged items e in
          let (amounts, total) = validate_safe_amounts-bounds m (total_amount m) g in
          subst (IsValidBet items) same (record {
            merges = e;
            is_merged = is_merged;
            ranges = validate_selection_ranges-All m f;
            amounts = amounts;
            total = total;
            total_kept = kept;
          })
    ]
  ]
]
