-- ===== src/Points/Listing/Order.antt =====
-- The order of the listing: the latest row first.
use jito_india_game.Database.{PointsTransaction}
use jito_india_game.Points.Listing.{insert_by_time, latest_first}
use jito_india_game.Prelude.{
  All, Bool-cases, List, [], ap, arith, false, inl, inr, leb, length, refl, suc, ℕ, ◌==◌, ◌∙◌, ◌∷◌,
  ◌≡◌, ◌≤◌,
}

-- The same rows, each as often, in some order.
pub data Rearranged : List PointsTransaction → List PointsTransaction → Type 0 where
  nothing : Rearranged [] []
  keeps :
      (t : PointsTransaction) {ts us : List PointsTransaction}
      → Rearranged ts us
      → Rearranged (t ∷ ts) (t ∷ us)
  swaps :
      (t u : PointsTransaction) (ts : List PointsTransaction) → Rearranged (t ∷ u ∷ ts) (u ∷ t ∷ ts)
  then_by :
      {ts us vs : List PointsTransaction} → Rearranged ts us → Rearranged us vs → Rearranged ts vs

pub Rearranged-refl : (ts : List PointsTransaction) → Rearranged ts ts
Rearranged-refl [] = nothing
Rearranged-refl (t ∷ ts) = keeps t (Rearranged-refl ts)

pub Rearranged-sym : {ts us : List PointsTransaction} → Rearranged ts us → Rearranged us ts
Rearranged-sym nothing = nothing
Rearranged-sym (keeps t d) = keeps t (Rearranged-sym d)
Rearranged-sym (swaps t u ts) = swaps u t ts
Rearranged-sym (then_by d d') = then_by (Rearranged-sym d') (Rearranged-sym d)

length-Rearranged : {ts us : List PointsTransaction} → Rearranged ts us → length ts ≡ length us
length-Rearranged nothing = refl
length-Rearranged (keeps t d) = ap suc (length-Rearranged d)
length-Rearranged (swaps t u ts) = refl
length-Rearranged (then_by d d') = length-Rearranged d ∙ length-Rearranged d'

abbrev pub IsLatestFirst : List PointsTransaction → Type 0
IsLatestFirst [] = Unit
IsLatestFirst (t ∷ ts) = All (λ u. u.created_at ≤ t.created_at) ts × IsLatestFirst ts

-- No two rows have the same time.
abbrev pub HasDistinctTimes : List PointsTransaction → Type 0
HasDistinctTimes [] = Unit
HasDistinctTimes (t ∷ ts) =
    All (λ u. (u.created_at == t.created_at) ≡ false) ts × HasDistinctTimes ts

insert_by_time-All {κ} :
    (P : PointsTransaction → Type κ) (t : PointsTransaction) (ts : List PointsTransaction)
    → P t
    → All P ts
    → All P (insert_by_time t ts)
unfolding insert_by_time
insert_by_time-All P t [] p h = (p, tt)
insert_by_time-All P t (u ∷ us) p (q, h) = elim (Bool-cases (leb u.created_at t.created_at)) [
  | inl e ↦ rw e (p, (q, h))
  | inr e ↦ rw e (q, insert_by_time-All P t us p h)
]

All-earlier :
    (a b : ℕ) (ts : List PointsTransaction)
    → a ≤ b
    → All (λ u. u.created_at ≤ a) ts
    → All (λ u. u.created_at ≤ b) ts
All-earlier a b [] le h = tt
All-earlier a b (t ∷ ts) le (p, h) = (omega arith, All-earlier a b ts le h)

insert_by_time-IsLatestFirst :
    (t : PointsTransaction) (ts : List PointsTransaction)
    → IsLatestFirst ts
    → IsLatestFirst (insert_by_time t ts)
unfolding insert_by_time
insert_by_time-IsLatestFirst t [] h = (tt, tt)
insert_by_time-IsLatestFirst t (u ∷ us) (p, h) = elim (Bool-cases (leb u.created_at t.created_at)) [
  | inl e ↦ rw e ((ground arith, All-earlier u.created_at t.created_at us (ground arith) p), (p, h))
  | inr e ↦ rw e (
    insert_by_time-All (λ v. v.created_at ≤ u.created_at) t us (ground arith) p,
    insert_by_time-IsLatestFirst t us h,
  )
]

pub latest_first-IsLatestFirst : (ts : List PointsTransaction) → IsLatestFirst (latest_first ts)
unfolding latest_first
latest_first-IsLatestFirst [] = tt
latest_first-IsLatestFirst (t ∷ ts) =
    insert_by_time-IsLatestFirst t (latest_first ts) (latest_first-IsLatestFirst ts)

insert_by_time-Rearranged :
    (t : PointsTransaction) (ts : List PointsTransaction)
    → Rearranged (insert_by_time t ts) (t ∷ ts)
unfolding insert_by_time
insert_by_time-Rearranged t [] = Rearranged-refl (t ∷ [])
insert_by_time-Rearranged t (u ∷ us) = elim (Bool-cases (leb u.created_at t.created_at)) [
  | inl e ↦ rw e (Rearranged-refl (t ∷ u ∷ us))
  | inr e ↦ rw e (then_by (keeps u (insert_by_time-Rearranged t us)) (swaps u t us))
]

pub latest_first-Rearranged : (ts : List PointsTransaction) → Rearranged (latest_first ts) ts
unfolding latest_first
latest_first-Rearranged [] = nothing
latest_first-Rearranged (t ∷ ts) =
    then_by (insert_by_time-Rearranged t (latest_first ts)) (keeps t (latest_first-Rearranged ts))

All-Rearranged {κ} :
    (P : PointsTransaction → Type κ) {ts us : List PointsTransaction}
    → Rearranged ts us
    → All P ts
    → All P us
All-Rearranged P nothing h = tt
All-Rearranged P (keeps t d) (p, h) = (p, All-Rearranged P d h)
All-Rearranged P (swaps t u ts) (p, (q, h)) = (q, (p, h))
All-Rearranged P (then_by d d') h = All-Rearranged P d' (All-Rearranged P d h)

HasDistinctTimes-Rearranged :
    {ts us : List PointsTransaction} → Rearranged ts us → HasDistinctTimes ts → HasDistinctTimes us
HasDistinctTimes-Rearranged nothing h = tt
HasDistinctTimes-Rearranged (keeps t d) (p, h) = (
  All-Rearranged (λ u. (u.created_at == t.created_at) ≡ false) d p,
  HasDistinctTimes-Rearranged d h,
)
HasDistinctTimes-Rearranged (swaps t u ts) ((p, hp), (hq, h)) = ((ground arith, hq), (hp, h))
HasDistinctTimes-Rearranged (then_by d d') h =
    HasDistinctTimes-Rearranged d' (HasDistinctTimes-Rearranged d h)

insert_by_time_comm :
    (a b : PointsTransaction) (ts : List PointsTransaction)
    → (b.created_at == a.created_at) ≡ false
    → insert_by_time a (insert_by_time b ts) ≡ insert_by_time b (insert_by_time a ts)
unfolding insert_by_time
insert_by_time_comm a b [] h = ground arith
insert_by_time_comm a b (t ∷ ts) h = ground (arith, insert_by_time_comm a b ts h)

-- Rows of distinct times have one order, however they are found.
pub latest_first-eq :
    {ts us : List PointsTransaction}
    → Rearranged ts us
    → HasDistinctTimes ts
    → latest_first ts ≡ latest_first us
unfolding latest_first
latest_first-eq nothing h = refl
latest_first-eq (keeps t d) (p, h) = ap (insert_by_time t) (latest_first-eq d h)
latest_first-eq (swaps t u ts) ((p, hp), h) = insert_by_time_comm t u (latest_first ts) p
latest_first-eq (then_by d d') h =
    latest_first-eq d h ∙ latest_first-eq d' (HasDistinctTimes-Rearranged d h)

pub length-latest_first : (ts : List PointsTransaction) → length (latest_first ts) ≡ length ts
length-latest_first ts = length-Rearranged (latest_first-Rearranged ts)
