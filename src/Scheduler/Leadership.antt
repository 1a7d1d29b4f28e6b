-- ===== src/Scheduler/Leadership.antt =====
-- At most one engine is the leader at a time.
use jito_india_game.Prelude.{
  All, Bool, List, Option, [], arith, false, refl, some, true, ℕ, ◌+◌, ◌<◌, ◌==◌, ◌∷◌, ◌≡◌,
}
use jito_india_game.Scheduler.{
  Delivery, LeaderCheck, LeaderLock, RoundScheduler, acquire_leader_lock, acquisition_seen,
  answer_lost, answered, check_leader, ensure_leader, not_run, renew_leader_lock, renewal_seen,
  try_acquire,
}

-- The lock belongs to the holder until the time.
abbrev pub IsHeldUntil : ℕ → ℕ → Option LeaderLock → Type 0
IsHeldUntil holder until lock = lock ≡ some (record { holder = holder; expires_at = until })

acquire-IsHeldUntil :
    (ttl now holder : ℕ) (lock : Option LeaderLock)
    → (acquire_leader_lock ttl now holder lock).0 ≡ true
    → IsHeldUntil holder (now + ttl) (acquire_leader_lock ttl now holder lock).1
unfolding acquire_leader_lock
acquire-IsHeldUntil ttl now holder lock h = ground arith

renew-IsHeldUntil :
    (ttl now holder : ℕ) (lock : Option LeaderLock)
    → (renew_leader_lock ttl now holder lock).0 ≡ true
    → IsHeldUntil holder (now + ttl) (renew_leader_lock ttl now holder lock).1
unfolding renew_leader_lock
renew-IsHeldUntil ttl now holder lock h = ground arith

try_acquire-IsHeldUntil :
    (d : Delivery) (ttl now : ℕ) (s : RoundScheduler) (lock : Option LeaderLock)
    → (try_acquire d ttl now s lock).leader ≡ true
    → IsHeldUntil s.holder_id (now + ttl) (try_acquire d ttl now s lock).lock
unfolding try_acquire
try_acquire-IsHeldUntil answered ttl now s lock h = acquire-IsHeldUntil ttl now s.holder_id lock h
try_acquire-IsHeldUntil not_run ttl now s lock h = absurd (ground arith)
try_acquire-IsHeldUntil answer_lost ttl now s lock h = absurd (ground arith)

renewal_seen-IsHeldUntil :
    (renewal d : Delivery) (ttl now : ℕ) (s : RoundScheduler) (before : Option LeaderLock)
    (result : Bool × Option LeaderLock)
    → (result.0 ≡ true → IsHeldUntil s.holder_id (now + ttl) result.1)
    → (renewal_seen renewal d ttl now s before result).leader ≡ true
    → IsHeldUntil s.holder_id (now + ttl) (renewal_seen renewal d ttl now s before result).lock
renewal_seen-IsHeldUntil answered d ttl now s before (true, lock) held h = held refl
renewal_seen-IsHeldUntil answered d ttl now s before (false, lock) held h =
    try_acquire-IsHeldUntil d ttl now (record s { is_leader = false }) lock h
renewal_seen-IsHeldUntil not_run d ttl now s before result held h = absurd (ground arith)
renewal_seen-IsHeldUntil answer_lost d ttl now s before result held h = absurd (ground arith)

check_leader-IsHeldUntil :
    (b : Bool) (renewal acquisition : Delivery) (ttl now : ℕ) (s : RoundScheduler)
    (lock : Option LeaderLock)
    → (check_leader b renewal acquisition ttl now s lock).leader ≡ true
    → IsHeldUntil s.holder_id (now + ttl) (check_leader b renewal acquisition ttl now s lock).lock
check_leader-IsHeldUntil true renewal acquisition ttl now s lock h =
    renewal_seen-IsHeldUntil renewal acquisition ttl now s lock _
      (renew-IsHeldUntil ttl now s.holder_id lock) h
check_leader-IsHeldUntil false renewal acquisition ttl now s lock h =
    try_acquire-IsHeldUntil acquisition ttl now s lock h

-- A check that answers "leader" has set the lock to this engine for a whole period.
pub ensure_leader-IsHeldUntil :
    (renewal acquisition : Delivery) (ttl now : ℕ) (s : RoundScheduler) (lock : Option LeaderLock)
    → (ensure_leader renewal acquisition ttl now s lock).leader ≡ true
    → IsHeldUntil s.holder_id (now + ttl) (ensure_leader renewal acquisition ttl now s lock).lock
unfolding ensure_leader
ensure_leader-IsHeldUntil renewal acquisition ttl now s lock h =
    check_leader-IsHeldUntil s.is_leader renewal acquisition ttl now s lock h

-- What one engine does with the lock at a time.
pub record LeaderAttempt : Type 0 where
  pub renewal : Delivery
  pub acquisition : Delivery
  pub now : ℕ
  pub scheduler : RoundScheduler

-- The answers to a sequence of attempts.
unfoldable pub attempts : ℕ → List LeaderAttempt → Option LeaderLock → List Bool
attempts ttl [] lock = []
attempts ttl (a ∷ more) lock =
    let c = ensure_leader a.renewal a.acquisition ttl a.now a.scheduler lock in
    c.leader ∷ attempts ttl more c.lock

-- Attempts of other engines before the time.
abbrev pub IsOfOthers : ℕ → ℕ → LeaderAttempt → Type 0
IsOfOthers holder until a = ((a.scheduler.holder_id == holder) ≡ false) × (a.now < until)

-- The lock of another engine that has not expired is left as it is.
module _ (holder until ttl now h : ℕ) (other : (h == holder) ≡ false) (early : now < until) where
  acquire_other :
      acquire_leader_lock ttl now h (some (record { holder = holder; expires_at = until }))
      ≡ (false, some (record { holder = holder; expires_at = until }))
  unfolding acquire_leader_lock
  acquire_other = ground arith

  renew_other :
      renew_leader_lock ttl now h (some (record { holder = holder; expires_at = until }))
      ≡ (false, some (record { holder = holder; expires_at = until }))
  unfolding renew_leader_lock
  renew_other = ground arith

-- What an attempt on a lock that stays answers.
abbrev pub IsRefused : Option LeaderLock → LeaderCheck → Type 0
IsRefused lock c = (c.leader ≡ false) × (c.lock ≡ lock)

acquisition_seen-IsRefused :
    (d : Delivery) (s : RoundScheduler) (lock : Option LeaderLock)
    → IsRefused lock (acquisition_seen d s lock (false, lock))
acquisition_seen-IsRefused answered s lock = (refl, refl)
acquisition_seen-IsRefused not_run s lock = (refl, refl)
acquisition_seen-IsRefused answer_lost s lock = (refl, refl)

try_acquire_other :
    (holder until ttl now : ℕ) (d : Delivery) (s : RoundScheduler)
    → (s.holder_id == holder) ≡ false
    → now < until
    → IsRefused
        (some (record { holder = holder; expires_at = until }))
        (try_acquire d ttl now s (some (record { holder = holder; expires_at = until })))
unfolding try_acquire
try_acquire_other holder until ttl now d s other early =
    rw (acquire_other holder until ttl now s.holder_id other early)
      (acquisition_seen-IsRefused d s _)

renewal_seen_other :
    (holder until ttl now : ℕ) (renewal d : Delivery) (s : RoundScheduler)
    → (s.holder_id == holder) ≡ false
    → now < until
    → IsRefused (some (record { holder = holder; expires_at = until })) (
        renewal_seen renewal d ttl now s
          (some (record { holder = holder; expires_at = until }))
          (false, some (record { holder = holder; expires_at = until })))
renewal_seen_other holder until ttl now answered d s other early =
    try_acquire_other holder until ttl now d (record s { is_leader = false }) other early
renewal_seen_other holder until ttl now not_run d s other early = (refl, refl)
renewal_seen_other holder until ttl now answer_lost d s other early = (refl, refl)

check_leader_other :
    (b : Bool) (holder until ttl now : ℕ) (renewal d : Delivery) (s : RoundScheduler)
    → (s.holder_id == holder) ≡ false
    → now < until
    → IsRefused
        (some (record { holder = holder; expires_at = until }))
        (check_leader b renewal d ttl now s (some (record { holder = holder; expires_at = until })))
check_leader_other true holder until ttl now renewal d s other early =
    rw (renew_other holder until ttl now s.holder_id other early)
      (renewal_seen_other holder until ttl now renewal d s other early)
check_leader_other false holder until ttl now renewal d s other early =
    try_acquire_other holder until ttl now d s other early

pub ensure_leader_other :
    (holder until ttl : ℕ) (a : LeaderAttempt)
    → IsOfOthers holder until a
    → IsRefused (some (record { holder = holder; expires_at = until })) (
        ensure_leader a.renewal a.acquisition ttl a.now a.scheduler
          (some (record { holder = holder; expires_at = until })))
unfolding ensure_leader
ensure_leader_other holder until ttl a (other, early) =
    check_leader_other a.scheduler.is_leader holder until ttl a.now a.renewal a.acquisition
      a.scheduler other early

attempts_of_others :
    (holder until ttl : ℕ) (more : List LeaderAttempt)
    → All (IsOfOthers holder until) more
    → All
        (λ b. b ≡ false)
        (attempts ttl more (some (record { holder = holder; expires_at = until })))
unfolding attempts
attempts_of_others holder until ttl [] h = tt
attempts_of_others holder until ttl (a ∷ more) (p, h) =
    let (refused, left) = ensure_leader_other holder until ttl a p in
    (refused, rw left (attempts_of_others holder until ttl more h))

-- Once a leader check has answered "leader", no check of another engine does so before the lock's
-- period is over, whatever their number and order, and whichever of their commands throw.
pub ensure_leader-attempts :
    (renewal acquisition : Delivery) (ttl now : ℕ) (s : RoundScheduler) (lock : Option LeaderLock)
    (more : List LeaderAttempt)
    → (ensure_leader renewal acquisition ttl now s lock).leader ≡ true
    → All (IsOfOthers s.holder_id (now + ttl)) more
    → All
        (λ b. b ≡ false)
        (attempts ttl more (ensure_leader renewal acquisition ttl now s lock).lock)
ensure_leader-attempts renewal acquisition ttl now s lock more h others =
    rw (ensure_leader-IsHeldUntil renewal acquisition ttl now s lock h)
      (attempts_of_others s.holder_id (now + ttl) ttl more others)
