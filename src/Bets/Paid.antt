-- ===== src/Bets/Paid.antt =====
-- Every bet is paid for: one debit of its total, and items that add up to it.
use jito_india_game.Bets.Items.{MergedItem, total_from}
use jito_india_game.Bets.Placement.{add_items}
use jito_india_game.Bets.Recorded.{IsOwned}
use jito_india_game.Bets.Service.{item_row, item_rows}
use jito_india_game.Bets.Tables.{has_bet_id, items_of}
use jito_india_game.Database.{Bet, BetItem, Db, PointsTransaction, bet_placed, debit}
use jito_india_game.Points.Ledger.{same_ref_type}
use jito_india_game.Prelude.{
  All, Bool-cases, List, [], arith, false, if◌then◌else◌, inl, inr, refl, same_option, some, true,
  ℕ, ◌&&◌, ◌==◌, ◌∙◌, ◌∷◌, ◌≡◌,
}
use jito_india_game.Prelude.Int.{pos, ℤ, ◌+ℤ◌}

-- The ledger rows that refer to a bet.
unfoldable pub bet_debits : ℕ → List PointsTransaction → List PointsTransaction
bet_debits i [] = []
bet_debits i (t ∷ ts) =
    if same_ref_type t.reference_type bet_placed && same_option t.reference_id (some i)
    then t ∷ bet_debits i ts
    else bet_debits i ts

unfoldable pub sum_items : List BetItem → ℤ
sum_items [] = pos 0
sum_items (i ∷ more) = sum_items more +ℤ i.amount_minor

-- One debit of the total refers to the bet, and its items add up to the total.
pub record IsPaid (db : Db) (b : Bet) : Type 0 where
  pub row : PointsTransaction
  pub once : bet_debits b.id db.transactions ≡ row ∷ []
  pub kind : row.direction ≡ debit
  pub amount : row.amount_minor ≡ b.total_amount_minor
  pub items : sum_items (items_of b.id db.bet_items) ≡ b.total_amount_minor

-- A ledger row that refers to a bet refers to one that is there.
abbrev pub IsReferenceOwned : List Bet → PointsTransaction → Type 0
IsReferenceOwned bets t =
    (i : ℕ)
    → (same_ref_type t.reference_type bet_placed && same_option t.reference_id (some i)) ≡ true
    → has_bet_id i bets ≡ true

pub record IsBetsSound (db : Db) : Type 0 where
  pub owned : All (IsOwned db.bets) db.bet_items
  pub references : All (IsReferenceOwned db.bets) db.transactions
  pub paid : All (IsPaid db) db.bets

pub bet_debits-new :
    (i : ℕ) (bets : List Bet) (ts : List PointsTransaction)
    → has_bet_id i bets ≡ false
    → All (IsReferenceOwned bets) ts
    → bet_debits i ts ≡ []
unfolding bet_debits
bet_debits-new i bets [] new h = refl
bet_debits-new i bets (t ∷ ts) new (p, h) =
    elim (Bool-cases
      (same_ref_type t.reference_type bet_placed && same_option t.reference_id (some i))) [
        | inl e ↦ absurd (clash (p i e) new)
        | inr e ↦ rw e (bet_debits-new i bets ts new h)
      ]
  where
    clash : has_bet_id i bets ≡ true → has_bet_id i bets ≡ false → ⊥
    clash x y = cc

pub sum_items-add_items :
    (i : ℕ) (merged : List MergedItem) (items : List BetItem)
    → sum_items (add_items (item_rows i merged) items) ≡ total_from (sum_items items) merged
unfolding sum_items add_items item_rows total_from
sum_items-add_items i [] items = refl
sum_items-add_items i (m ∷ more) items = sum_items-add_items i more (item_row i m ∷ items)

pub has_bet_id-All :
    (i : ℕ) (bets : List Bet) → has_bet_id i bets ≡ false → All (λ b. (b.id == i) ≡ false) bets
unfolding has_bet_id
has_bet_id-All i [] h = tt
has_bet_id-All i (b ∷ more) h = ground (arith, has_bet_id-All i more)

pub has_bet_id_mono :
    (i : ℕ) (b : Bet) (bets : List Bet) → has_bet_id i bets ≡ true → has_bet_id i (b ∷ bets) ≡ true
unfolding has_bet_id
has_bet_id_mono i b bets h = ground arith

pub has_bet_id_self :
    (i : ℕ) (b : Bet) (bets : List Bet) → (b.id == i) ≡ true → has_bet_id i (b ∷ bets) ≡ true
unfolding has_bet_id
has_bet_id_self i b bets h = ground arith

pub items_of-other :
    (j i : ℕ) (merged : List MergedItem) (items : List BetItem)
    → (j == i) ≡ false
    → items_of j (add_items (item_rows i merged) items) ≡ items_of j items
unfolding add_items item_rows
items_of-other j i [] items h = refl
items_of-other j i (m ∷ more) items h =
    items_of-other j i more (item_row i m ∷ items) h ∙ skip j i m items h
  where
    skip :
        (k n : ℕ) (x : MergedItem) (rest : List BetItem)
        → (k == n) ≡ false
        → items_of k (item_row n x ∷ rest) ≡ items_of k rest
    skip k n x rest e = unfold items_of in ground arith

pub All-map-with {ℓ} :
    {A : Type ℓ} (P Q R : A → Type 0) (xs : List A)
    → ((x : A) → P x → Q x → R x)
    → All P xs
    → All Q xs
    → All R xs
All-map-with P Q R [] f h k = tt
All-map-with P Q R (x ∷ xs) f (p, h) (q, k) = (f x p q, All-map-with P Q R xs f h k)

pub All-weaken {ℓ} :
    {A : Type ℓ} (P R : A → Type 0) (xs : List A) → ((x : A) → P x → R x) → All P xs → All R xs
All-weaken P R [] f h = tt
All-weaken P R (x ∷ xs) f (p, h) = (f x p, All-weaken P R xs f h)
