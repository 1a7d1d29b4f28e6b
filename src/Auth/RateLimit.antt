-- ===== src/Auth/RateLimit.antt =====
-- `checkRateLimit` of services/api/src/auth/auth.service.ts: a counter per key in Redis, whose time
-- to live is set when it is first incremented, and the keys of
-- services/api/src/redis/redis.service.ts.
pub mod Window
use text.Mathlib.Text.{◌==◌ as str_eq}
use Prim.Native.String.{◌++◌ as ◌<>◌}
use Prim.Native.String.{String}
use jito_india_game.Database.{Db, Outcome, Result, err, ok, rate_limit_exceeded}
use jito_india_game.Prelude.{
  Bool, List, Option, [], false, if◌then◌else◌, leb, ltb, none, some, ℕ, ◌*◌, ◌+◌, ◌==◌, ◌∷◌,
}

pub record Counter : Type 0 where
  pub key : String
  pub count : ℕ
  -- In milliseconds; none for a key without a time to live.
  pub expires_at : Option ℕ

-- What Redis holds, the last write of a key first.
abbrev pub Counters : Type 0
Counters = List Counter

-- Which of the two commands of a call fail.
pub record RedisFaults : Type 0 where
  pub incr_fails : Bool
  pub expire_fails : Bool

abbrev pub no_faults : RedisFaults
no_faults = record { incr_fails = false; expire_fails = false }

abbrev is_gone : ℕ → Option ℕ → Bool
is_gone now none = false
is_gone now (some at) = leb at now

-- GET: a key whose time has come counts as absent.
unfoldable pub find_counter : ℕ → String → Counters → Option Counter
find_counter now k [] = none
find_counter now k (c ∷ more) =
    if str_eq c.key k
    then (if is_gone now c.expires_at then none else some c)
    else find_counter now k more

abbrev next_counter : String → Option Counter → Counter
next_counter k none = record { key = k; count = 1; expires_at = none }
next_counter k (some c) = record c { count = c.count + 1 }

-- INCR: the counter after it.
unfoldable pub incr : ℕ → String → Counters → Counter
incr now k redis = next_counter k (find_counter now k redis)

abbrev pub with_ttl : ℕ → Counter → Counter
with_ttl until c = record c { expires_at = some until }

abbrev pub verdict : (current max window : ℕ) → Result (Unit {0})
verdict current max window = if ltb max current then err (rate_limit_exceeded window) else ok tt

-- The request goes on when Redis fails; a failed EXPIRE leaves a counter without a time to live.
unfoldable pub check_rate_limit :
    RedisFaults
    → (now : ℕ) → String
    → (max window_seconds : ℕ) → Counters
    → Result (Unit {0}) × Counters
check_rate_limit faults now k max window redis =
    let c = incr now k redis in
    if faults.incr_fails
    then (ok tt, redis)
    else (if c.count == 1
        then (if faults.expire_fails
            then (ok tt, c ∷ redis)
            else (verdict c.count max window, with_ttl (now + window * 1000) c ∷ redis))
        else (verdict c.count max window, c ∷ redis))

abbrev pub login_rate_limit_ip_key : String → String
login_rate_limit_ip_key ip = "ratelimit:login:ip:" <> ip

abbrev pub login_rate_limit_user_key : String → String
login_rate_limit_user_key username = "ratelimit:login:user:" <> username

abbrev pub register_rate_limit_ip_key : String → String
register_rate_limit_ip_key ip = "ratelimit:register:ip:" <> ip

abbrev pub admin_login_rate_limit_ip_key : String → String
admin_login_rate_limit_ip_key ip = "ratelimit:login:admin:ip:" <> ip

-- The two stores that a request works on.
pub record World : Type 0 where
  pub redis : Counters
  pub db : Db

-- A handler's work on the database behind a rate limit.
abbrev pub limited :
    {A : Type 0}
    → Result (Unit {0}) × Counters
    → (Counters → Db → Result A × World)
    → Db
    → Result A × World
limited (ok u, redis) go db = go redis db
limited (err e, redis) go db = (err e, record { redis = redis; db = db })

abbrev pub with_redis : {A : Type 0} → Counters → Outcome A → Result A × World
with_redis redis (r, db) = (r, record { redis = redis; db = db })
