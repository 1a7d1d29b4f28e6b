-- ===== src/Auth/RateLimit/Window.antt =====
-- How many of a key's requests the rate limit lets through in one window.
use text.Mathlib.Text.{◌==◌ as str_eq}
use Prim.Native.String.{String}
use jito_india_game.Auth.RateLimit.{
  Counter, Counters, check_rate_limit, find_counter, incr, no_faults, verdict,
}
use jito_india_game.Auth.Tables.{find_row}
use jito_india_game.Database.{Result, err, ok}
use jito_india_game.Prelude.{
  Bool, Bool-cases, List, Option, Option-cases, [], all, arith, false, if◌then◌else◌, inl, inr, leb,
  ltb, none, refl, some, sym, true, ℕ, ◌&&◌, ◌*◌, ◌+◌, ◌-◌, ◌<◌, ◌∙◌, ◌∷◌, ◌≡◌, ◌≤◌,
}
use mathlib.Core.Path.{subst}
use text.Mathlib.TextEquality.{eq_iff}

abbrev is_ok : {A : Type 0} → Result A → Bool
is_ok (ok a) = true
is_ok (err e) = false

abbrev pub requests_of : String → List (String × ℕ) → ℕ
requests_of k [] = 0
requests_of k (q ∷ more) = (if str_eq q.0 k then 1 else 0) + requests_of k more

-- Serves requests, each with its key and time, and counts those of the key that go through.
unfoldable pub allowed_count : String → (max window_seconds : ℕ) → List (String × ℕ) → Counters → ℕ
allowed_count k max window [] redis = 0
allowed_count k max window (q ∷ more) redis =
    let out = check_rate_limit no_faults q.1 q.0 max window redis in
    (if str_eq q.0 k && is_ok out.0 then 1 else 0) + allowed_count k max window more out.1

abbrev pub smaller : ℕ → ℕ → ℕ
smaller a b = if leb a b then a else b

-- The entry of the key, with no regard to its time to live.
abbrev entry : String → Counters → Option Counter
entry k redis = find_row (λ c. str_eq c.key k) redis

find_counter-entry :
    (now until : ℕ) (k : String) (redis : Counters) (c : Counter)
    → entry k redis ≡ some c
    → c.expires_at ≡ some until
    → now < until
    → find_counter now k redis ≡ some c
unfolding find_counter
find_counter-entry now until k [] c h e l = absurd (ground arith)
find_counter-entry now until k (d ∷ redis) c h e l = elim (Bool-cases (str_eq d.key k)) [
  | inl here ↦ let same : d ≡ c = ground arith in ground arith
  | inr there ↦ ground (arith, find_counter-entry now until k redis c)
]

find_counter-key :
    (now : ℕ) (k : String) (redis : Counters) (c : Counter)
    → find_counter now k redis ≡ some c
    → str_eq c.key k ≡ true
unfolding find_counter
find_counter-key now k [] c h = absurd (ground arith)
find_counter-key now k (d ∷ redis) c h = ground (arith, find_counter-key now k redis c)

incr-key : (now : ℕ) (k : String) (redis : Counters) → str_eq (incr now k redis).key k ≡ true
unfolding incr
incr-key now k redis = elim (Option-cases (find_counter now k redis)) [
  | inl e ↦ ground (arith, eq_iff k k)
  | inr (c, e) ↦ ground (arith, find_counter-key now k redis c e)
]

-- A later request of the window, while the counter lives.
check-entry :
    (now until max window : ℕ) (k : String) (redis : Counters) (c : Counter)
    → entry k redis ≡ some c
    → c.expires_at ≡ some until
    → now < until
    → 1 ≤ c.count
    → check_rate_limit no_faults now k max window redis
      ≡ (verdict (c.count + 1) max window, record c { count = c.count + 1 } ∷ redis)
unfolding check_rate_limit incr
check-entry now until max window k redis c h e l positive =
    ground (arith, find_counter-entry now until k redis c h e l)

check-other :
    (now max window : ℕ) (j k : String) (redis : Counters)
    → str_eq j k ≡ false
    → entry k (check_rate_limit no_faults now j max window redis).1 ≡ entry k redis
unfolding check_rate_limit
check-other now max window j k redis other =
    ground (arith, incr-key now j redis, eq_iff (incr now j redis).key j)

places :
    (max n requests window : ℕ)
    → (if is_ok (verdict (n + 1) max window) then 1 else 0) + smaller requests (max - (n + 1))
      ≡ smaller (1 + requests) (max - n)
places max n requests window = ground arith

-- While the counter lives, each of the key's requests takes one of the places that are left.
count_within :
    (until max window : ℕ) (k : String) (requests : List (String × ℕ)) (redis : Counters)
    (c : Counter)
    → entry k redis ≡ some c
    → str_eq c.key k ≡ true
    → c.expires_at ≡ some until
    → 1 ≤ c.count
    → all (λ q. ltb q.1 until) requests ≡ true
    → allowed_count k max window requests redis ≡ smaller (requests_of k requests) (max - c.count)
unfolding allowed_count
count_within until max window k [] redis c h key e positive times = ground arith
count_within until max window k ((j, t) ∷ more) redis c h key e positive times =
    elim (Bool-cases (str_eq j k)) [
      | inl same ↦
          let next : Counter = record c { count = c.count + 1 } in
          let ran =
            check-entry t until max window j redis c
              (subst (λ x. entry x redis ≡ some c) (sym ((eq_iff j k).0 same)) h) e (ground arith)
              positive in
          let rest =
            count_within until max window k more (next ∷ redis) next (ground arith) key e
              (ground arith) (ground arith) in
          rw (ran, rest, same) (places max c.count (requests_of k more) window)
      | inr other ↦
          let rest =
            count_within until max window k more _ c (check-other t max window j k redis other ∙ h)
              key e positive (ground arith) in
          rw (other, rest) (ground arith)
    ]

first_request :
    (start max window : ℕ) (k : String) (redis : Counters)
    → 1 ≤ max
    → find_counter start k redis ≡ none
    → check_rate_limit no_faults start k max window redis
      ≡ (ok tt, record { key = k; count = 1; expires_at = some (start + window * 1000) } ∷ redis)
unfolding check_rate_limit incr
first_request start max window k redis positive absent = rw absent (ground arith)

-- With Redis at work, a positive `max`, and no live counter of the key at the start: of a first
-- request of the key and any requests of this and other keys that come before the window ends, exactly
-- the first `max` of the key are let through.
pub window_allows :
    (start max window : ℕ) (k : String) (requests : List (String × ℕ)) (redis : Counters)
    → 1 ≤ max
    → find_counter start k redis ≡ none
    → all (λ q. ltb q.1 (start + window * 1000)) requests ≡ true
    → allowed_count k max window ((k, start) ∷ requests) redis
      ≡ smaller (1 + requests_of k requests) max
unfolding allowed_count
window_allows start max window k requests redis positive absent times =
    let first : Counter = record {
      key = k;
      count = 1;
      expires_at = some (start + window * 1000);
    } in
    let ran = first_request start max window k redis positive absent in
    let rest =
      count_within (start + window * 1000) max window k requests (first ∷ redis) first
        (ground (arith, eq_iff k k)) (ground (arith, eq_iff k k)) refl (ground arith) times in
    rw (ran, rest) (ground (arith, eq_iff k k))
