-- ===== src/Scheduler.antt =====
-- services/game-engine/src/rounds/round-scheduler.service.ts, active-games.ts, and the leader lock of
-- services/game-engine/src/redis/redis.service.ts, as Redis runs its commands: the key is there
-- until its expiry. The interval timer and the log lines are left out.
pub mod Leadership
pub mod Ticks
use jito_india_game.Database.{Db, GameId, triple_chance_pro_timer, triple_chance_timer}
use jito_india_game.Prelude.{
  Bool, List, Option, [], false, if◌then◌else◌, ltb, none, some, true, ℕ, ◌+◌, ◌==◌, ◌∷◌,
}
use jito_india_game.Rounds.{Races, RoundStamp, reconcile}

-- The value of the lock's key, and when it expires.
pub record LeaderLock : Type 0 where
  pub holder : ℕ
  pub expires_at : ℕ

-- GET: an expired key is not there.
unfoldable pub get_lock : ℕ → Option LeaderLock → Option LeaderLock
get_lock now none = none
get_lock now (some l) = if ltb now l.expires_at then some l else none

-- SET key holder PX ttl NX
unfoldable pub acquire_leader_lock : ℕ → ℕ → ℕ → Option LeaderLock → Bool × Option LeaderLock
unfolding get_lock
acquire_leader_lock ttl now holder lock = elim (get_lock now lock) [
  | none ↦ (true, some (record { holder = holder; expires_at = now + ttl }))
  | some l ↦ (false, some l)
]

-- The script: PEXPIRE if GET answers the holder.
unfoldable pub renew_leader_lock : ℕ → ℕ → ℕ → Option LeaderLock → Bool × Option LeaderLock
unfolding get_lock
renew_leader_lock ttl now holder lock = elim (get_lock now lock) [
  | none ↦ (false, none)
  | some l ↦
      if l.holder == holder
      then (true, some (record { holder = l.holder; expires_at = now + ttl }))
      else (false, some l)
]

-- The script: DEL if GET answers the holder.
unfoldable pub release_leader_lock : ℕ → ℕ → Option LeaderLock → Option LeaderLock
unfolding get_lock
release_leader_lock now holder lock = elim (get_lock now lock) [
  | none ↦ none
  | some l ↦ if l.holder == holder then none else some l
]

-- A command is answered, or it throws: before Redis ran it, or after.
pub data Delivery : Type 0 where
  answered not_run answer_lost : Delivery

-- The fields of the service.
pub record RoundScheduler : Type 0 where
  pub holder_id : ℕ
  pub is_leader : Bool
  pub tick_in_flight : Bool

pub record LeaderCheck : Type 0 where
  pub leader : Bool
  pub scheduler : RoundScheduler
  pub lock : Option LeaderLock

-- The end of `ensureLeader`, by the delivery of the acquisition and its result. An error means that
-- this tick has no leader, and leaves `isLeader` as it is.
abbrev pub acquisition_seen :
    Delivery → RoundScheduler → Option LeaderLock → Bool × Option LeaderLock → LeaderCheck
acquisition_seen answered s before (acquired, lock) = record {
  leader = acquired;
  scheduler = record s { is_leader = acquired };
  lock = lock;
}
acquisition_seen not_run s before result = record { leader = false; scheduler = s; lock = before }
acquisition_seen answer_lost s before (acquired, lock) = record {
  leader = false;
  scheduler = s;
  lock = lock;
}

unfoldable pub try_acquire : Delivery → ℕ → ℕ → RoundScheduler → Option LeaderLock → LeaderCheck
try_acquire d ttl now s lock =
    acquisition_seen d s lock (acquire_leader_lock ttl now s.holder_id lock)

-- What follows a renewal, by its delivery and its result.
abbrev pub renewal_seen :
    Delivery
    → Delivery
    → ℕ
    → ℕ
    → RoundScheduler
    → Option LeaderLock
    → Bool × Option LeaderLock
    → LeaderCheck
renewal_seen answered d ttl now s before (true, lock) = record {
  leader = true;
  scheduler = s;
  lock = lock;
}
renewal_seen answered d ttl now s before (false, lock) =
    try_acquire d ttl now (record s { is_leader = false }) lock
renewal_seen not_run d ttl now s before result = record {
  leader = false;
  scheduler = s;
  lock = before;
}
renewal_seen answer_lost d ttl now s before (renewed, lock) = record {
  leader = false;
  scheduler = s;
  lock = lock;
}

-- `ensureLeader`, by `isLeader`, with the deliveries of its renewal and its acquisition.
abbrev pub check_leader :
    Bool → Delivery → Delivery → ℕ → ℕ → RoundScheduler → Option LeaderLock → LeaderCheck
check_leader true renewal acquisition ttl now s lock =
    renewal_seen renewal acquisition ttl now s lock (renew_leader_lock ttl now s.holder_id lock)
check_leader false renewal acquisition ttl now s lock = try_acquire acquisition ttl now s lock

unfoldable pub ensure_leader :
    Delivery → Delivery → ℕ → ℕ → RoundScheduler → Option LeaderLock → LeaderCheck
ensure_leader renewal acquisition ttl now s lock =
    check_leader s.is_leader renewal acquisition ttl now s lock

abbrev pub active_game_ids : List GameId
active_game_ids = triple_chance_timer ∷ triple_chance_pro_timer ∷ []

-- What surrounds one game's step of a tick: other writers, the database's clock, the new row.
pub record StepContext : Type 0 where
  pub races : Races
  pub now : ℕ
  pub stamp : RoundStamp

-- The loop of `tick`: a game whose `reconcile` throws has written nothing, and the next one follows.
unfoldable pub reconcile_games : ℕ → (GameId → StepContext) → List GameId → Db → Db
reconcile_games window context [] db = db
reconcile_games window context (g ∷ games) db =
    let c = context g in
    reconcile_games window context games (reconcile c.races window c.now c.stamp g db)

pub record TickResult : Type 0 where
  pub scheduler : RoundScheduler
  pub lock : Option LeaderLock
  pub db : Db

-- `tick`, once the leader check has answered.
abbrev pub after_check : LeaderCheck → ℕ → (GameId → StepContext) → Db → TickResult
after_check c window context db = record {
  scheduler = record (c.scheduler) { tick_in_flight = false };
  lock = c.lock;
  db = if c.leader then reconcile_games window context active_game_ids db else db;
}

unfoldable pub tick :
    Delivery
    → Delivery
    → ℕ
    → ℕ
    → (GameId → StepContext)
    → ℕ
    → RoundScheduler
    → Option LeaderLock
    → Db
    → TickResult
tick renewal acquisition ttl window context now s lock db =
    if s.tick_in_flight
    then record { scheduler = s; lock = lock; db = db }
    else after_check
        (ensure_leader renewal acquisition ttl now (record s { tick_in_flight = true }) lock) window
        context db
