-- ===== src/Bets/Merging/Stakes.antt =====
-- The stake on a selection, before and after merging.
use jito_india_game.Bets.Items.{
  JsNumber, MergedItem, PlaceBetItemDto, int, max_safe_amount, merge_from, merge_into, merge_items,
  not_int, safe_amount, same_key,
}
use jito_india_game.Database.{BetCategory, ok}
use jito_india_game.Prelude.{
  All, Bool, Bool-cases, List, Option-cases, [], ap, arith, false, if◌then◌else◌, inl, inr, map,
  refl, some, true, ◌∙◌, ◌∷◌, ◌≡◌,
}
use jito_india_game.Prelude.Int.{int_laws, pos, ℤ, ◌+ℤ◌, ◌≤ℤ◌}

-- The sum of the entries for one selection.
unfoldable pub stake : BetCategory → ℤ → List MergedItem → ℤ
stake c s [] = pos 0
stake c s (m ∷ more) = if same_key c s m then m.amount_minor +ℤ stake c s more else stake c s more

-- One request item as an entry of its own; an amount that is no integer counts as 0.
abbrev pub whole : JsNumber → ℤ
whole (int z) = z
whole not_int = pos 0

abbrev pub entry : PlaceBetItemDto → MergedItem
entry i = record {
  category = i.category;
  selection = i.selection;
  amount_minor = whole i.amount_minor;
}

abbrev pub HasDistinctSelections : List MergedItem → Type 0
HasDistinctSelections [] = Unit
HasDistinctSelections (m ∷ more) =
    All (λ x. same_key m.category m.selection x ≡ false) more × HasDistinctSelections more

same_key_replace :
    (c c' : BetCategory) (s s' : ℤ) (m : MergedItem) (z : ℤ)
    → same_key c' s' m ≡ true
    → same_key c s m ≡ same_key c s (record { category = c'; selection = s'; amount_minor = z })
same_key_replace c c' s s' m z h = ground arith

add_to_entry :
    (hit : Bool) (a z rest : ℤ)
    → (if hit then (a +ℤ z) +ℤ rest else rest)
      ≡ (if hit then z +ℤ (if hit then a +ℤ rest else rest) else (if hit then a +ℤ rest else rest))
add_to_entry true a z rest = omega int_laws
add_to_entry false a z rest = refl

add_elsewhere :
    (hit new : Bool) (a z rest : ℤ)
    → (if hit then a +ℤ (if new then z +ℤ rest else rest) else (if new then z +ℤ rest else rest))
      ≡ (if new then z +ℤ (if hit then a +ℤ rest else rest) else (if hit then a +ℤ rest else rest))
add_elsewhere true true a z rest = omega int_laws
add_elsewhere true false a z rest = refl
add_elsewhere false true a z rest = refl
add_elsewhere false false a z rest = refl

stake-merge_into :
    (c c' : BetCategory) (s s' z : ℤ) (acc : List MergedItem)
    → stake c s (merge_into acc c' s' z)
      ≡ stake c s (record { category = c'; selection = s'; amount_minor = z } ∷ acc)
unfolding stake merge_into
stake-merge_into c c' s s' z [] = refl
stake-merge_into c c' s s' z (m ∷ acc) = elim (Bool-cases (same_key c' s' m)) [
  | inl e ↦ rw e (
      rw (← same_key_replace c c' s s' m z e)
        (add_to_entry (same_key c s m) m.amount_minor z (stake c s acc)))
  | inr e ↦
      rw (e, stake-merge_into c c' s s' z acc)
        (add_elsewhere (same_key c s m)
          (same_key c s (record { category = c'; selection = s'; amount_minor = z })) m.amount_minor
          z (stake c s acc))
]

join_stakes :
    (hit : Bool) (old z rest : ℤ)
    → (if hit then z +ℤ old else old) +ℤ rest ≡ old +ℤ (if hit then z +ℤ rest else rest)
join_stakes true old z rest = omega int_laws
join_stakes false old z rest = refl

pub safe_amount-whole :
    (n : JsNumber) {z : ℤ}
    → safe_amount n ≡ some z
    → (whole n ≡ z) × (pos 1 ≤ℤ z) × (z ≤ℤ max_safe_amount)
unfolding safe_amount
safe_amount-whole (int z) h = ground arith
safe_amount-whole not_int h = absurd (ground arith)

stake-merge_from :
    (c : BetCategory) (s : ℤ) (acc : List MergedItem) (items : List PlaceBetItemDto)
    {merged : List MergedItem}
    → merge_from acc items ≡ ok merged
    → stake c s merged ≡ stake c s acc +ℤ stake c s (map entry items)
unfolding merge_from stake
stake-merge_from c s acc [] {merged} h =
    let same : merged ≡ acc = ground arith in ap (stake c s) same ∙ omega int_laws
stake-merge_from c s acc (item ∷ items) {merged} h =
    elim (Option-cases (safe_amount item.amount_minor)) [
      | inl e ↦ absurd (ground arith)
      | inr (z, e) ↦
          let exact = (safe_amount-whole item.amount_minor e).0 in
          let next = merge_into acc item.category item.selection z in
          let later = stake c s (map entry items) in
          stake-merge_from c s next items {merged = merged} (rw (e, merge_from) at h)
          ∙ ap (λ x. x +ℤ later) (stake-merge_into c item.category s item.selection z acc)
          ∙ rw exact (join_stakes (same_key c s (entry item)) (stake c s acc) z later)
    ]

-- Merging keeps what is staked on each selection.
pub stake-merge_items :
    (c : BetCategory) (s : ℤ) (items : List PlaceBetItemDto) {merged : List MergedItem}
    → merge_items items ≡ ok merged
    → stake c s merged ≡ stake c s (map entry items)
unfolding merge_items stake
stake-merge_items c s items h = stake-merge_from c s [] items h ∙ omega int_laws
