-- ===== src/Scheduler/Ticks.antt =====
-- When a tick of the engine acts, and when it stands down.
use jito_india_game.Database.{Db, GameId, triple_chance_pro_timer, triple_chance_timer}
use jito_india_game.Prelude.{
  Bool, Option, arith, false, if◌then◌else◌, inl, inr, none, refl, some, true, ℕ, ◌+◌, ◌<◌, ◌==◌,
  ◌≡◌, ◌≤◌, ◌⊎◌,
}
use jito_india_game.Rounds.{reconcile}
use jito_india_game.Scheduler.{
  Delivery, LeaderCheck, LeaderLock, RoundScheduler, StepContext, TickResult, acquire_leader_lock,
  after_check, answered, check_leader, ensure_leader, get_lock, reconcile_games, renew_leader_lock,
  tick, try_acquire,
}
use jito_india_game.Scheduler.Leadership.{IsHeldUntil, IsRefused, ensure_leader_other}

-- The lock is free, or this engine leads and has it.
abbrev pub IsAvailable : ℕ → RoundScheduler → Option LeaderLock → Type 0
IsAvailable now s lock =
    (lock ≡ none)
    ⊎ ((l : LeaderLock) × (lock ≡ some l) × (l.expires_at ≤ now))
    ⊎ ((until : ℕ) × IsHeldUntil s.holder_id until lock × (now < until) × (s.is_leader ≡ true))

get_lock-expired : (now : ℕ) (l : LeaderLock) → l.expires_at ≤ now → get_lock now (some l) ≡ none
unfolding get_lock
get_lock-expired now l h = ground arith

-- What a check that succeeds leaves.
abbrev led : ℕ → ℕ → RoundScheduler → LeaderCheck
led ttl now s = record {
  leader = true;
  scheduler = record s { is_leader = true };
  lock = some (record { holder = s.holder_id; expires_at = now + ttl });
}

acquire-free :
    (ttl now holder : ℕ) (lock : Option LeaderLock)
    → get_lock now lock ≡ none
    → acquire_leader_lock ttl now holder lock
      ≡ (true, some (record { holder = holder; expires_at = now + ttl }))
unfolding acquire_leader_lock
acquire-free ttl now holder none free = unfold get_lock in refl
acquire-free ttl now holder (some l) free = ground arith

renew-free :
    (ttl now holder : ℕ) (lock : Option LeaderLock)
    → get_lock now lock ≡ none
    → renew_leader_lock ttl now holder lock ≡ (false, none)
unfolding renew_leader_lock
renew-free ttl now holder none free = unfold get_lock in refl
renew-free ttl now holder (some l) free = ground arith

try_acquire-free :
    (ttl now : ℕ) (s : RoundScheduler) (lock : Option LeaderLock)
    → get_lock now lock ≡ none
    → try_acquire answered ttl now s lock ≡ led ttl now s
unfolding try_acquire
try_acquire-free ttl now s lock free = rw (acquire-free ttl now s.holder_id lock free) refl

check_leader-free :
    (b : Bool) (ttl now : ℕ) (s : RoundScheduler) (lock : Option LeaderLock)
    → get_lock now lock ≡ none
    → check_leader b answered answered ttl now s lock ≡ led ttl now s
check_leader-free true ttl now s lock free =
    rw (renew-free ttl now s.holder_id lock free)
      (try_acquire-free ttl now (record s { is_leader = false }) none (unfold get_lock in refl))
check_leader-free false ttl now s lock free = try_acquire-free ttl now s lock free

renew-own :
    (ttl now holder until : ℕ)
    → now < until
    → renew_leader_lock ttl now holder (some (record { holder = holder; expires_at = until }))
      ≡ (true, some (record { holder = holder; expires_at = now + ttl }))
unfolding renew_leader_lock get_lock
renew-own ttl now holder until early = ground arith

check_leader-own :
    (b : Bool) (ttl now until : ℕ) (s : RoundScheduler)
    → now < until
    → s.is_leader ≡ b
    → b ≡ true
    → check_leader b answered answered ttl now s
        (some (record { holder = s.holder_id; expires_at = until }))
      ≡ led ttl now s
check_leader-own false ttl now until s early same leads = absurd (ground arith)
check_leader-own true ttl now until s early same leads =
    rw (renew-own ttl now s.holder_id until early) (ground arith)

ensure_leader-available :
    (ttl now : ℕ) (s : RoundScheduler) (lock : Option LeaderLock)
    → IsAvailable now s lock
    → ensure_leader answered answered ttl now s lock ≡ led ttl now s
unfolding ensure_leader
ensure_leader-available ttl now s lock (inl e) =
    check_leader-free s.is_leader ttl now s lock (rw e (unfold get_lock in refl))
ensure_leader-available ttl now s lock (inr (inl (l, e, late))) =
    check_leader-free s.is_leader ttl now s lock (rw e (get_lock-expired now l late))
ensure_leader-available ttl now s lock (inr (inr (until, e, early, leads))) =
    rw e (check_leader-own s.is_leader ttl now until s early refl leads)

module _ (ttl window : ℕ) (context : GameId → StepContext) (now : ℕ) (s : RoundScheduler)
    (lock : Option LeaderLock) (db : Db) where
  -- `tick`, by whether one is in flight, and by the answer of its leader check.
  abbrev gated : Bool → LeaderCheck → TickResult
  gated in_flight c =
      if in_flight
      then record { scheduler = s; lock = lock; db = db }
      else after_check c window context db

  gated_off :
      (in_flight : Bool) (c : LeaderCheck)
      → (in_flight ≡ true) ⊎ IsRefused lock c
      → ((gated in_flight c).db ≡ db) × ((gated in_flight c).lock ≡ lock)
  gated_off true c h = (refl, refl)
  gated_off false c (inl h) = absurd (ground arith)
  gated_off false c (inr (refused, kept)) = (rw refused refl, kept)

  gated_on :
      (in_flight : Bool) (c : LeaderCheck)
      → in_flight ≡ false
      → c ≡ led ttl now (record s { tick_in_flight = true })
      → gated in_flight c ≡ after_check (led ttl now s) window context db
  gated_on true c free e = absurd (ground arith)
  gated_on false c free e = rw e refl

  -- A tick that finds another one in flight, or the lock with another engine and not expired, changes
  -- no table and leaves the lock as it is, whatever this engine believes of its leadership, and
  -- whichever of its commands throw.
  pub tick_stands_down :
      (renewal acquisition : Delivery) (holder until : ℕ)
      → (s.tick_in_flight ≡ true)
        ⊎ (IsHeldUntil holder until lock × ((s.holder_id == holder) ≡ false) × (now < until))
      → let t = tick renewal acquisition ttl window context now s lock db in
        (t.db ≡ db) × (t.lock ≡ lock)
  unfolding tick
  tick_stands_down renewal acquisition holder until (inl busy) =
      gated_off s.tick_in_flight
        (ensure_leader renewal acquisition ttl now (record s { tick_in_flight = true }) lock)
        (inl busy)
  tick_stands_down renewal acquisition holder until (inr (held, other, early)) =
      gated_off s.tick_in_flight
        (ensure_leader renewal acquisition ttl now (record s { tick_in_flight = true }) lock)
        (inr (
          rw held (
            ensure_leader_other holder until ttl
              (record {
                renewal = renewal;
                acquisition = acquisition;
                now = now;
                scheduler = record s { tick_in_flight = true };
              })
              (other, early))))

  -- With no other tick in flight, the lock free or held by this engine, which leads, and its commands
  -- answered, a tick takes or renews the lock for a whole period, and takes one step of `reconcile`
  -- for each of the two games in turn. It ends as the leader, with no tick in flight.
  pub tick_leads :
      s.tick_in_flight ≡ false
      → IsAvailable now s lock
      → let step : GameId → Db → Db =
          λ g x. reconcile (context g).races window (context g).now (context g).stamp g x in
        tick answered answered ttl window context now s lock db ≡ record {
          scheduler = record { holder_id = s.holder_id; is_leader = true; tick_in_flight = false };
          lock = some (record { holder = s.holder_id; expires_at = now + ttl });
          db = step triple_chance_pro_timer (step triple_chance_timer db);
        }
  unfolding tick reconcile_games
  tick_leads free available =
      gated_on s.tick_in_flight
        (ensure_leader answered answered ttl now (record s { tick_in_flight = true }) lock) free
        (ensure_leader-available ttl now (record s { tick_in_flight = true }) lock available)
