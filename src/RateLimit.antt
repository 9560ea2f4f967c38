-- ===== src/RateLimit.antt =====
-- apps/worker/src/core/ratelimit/limiter.ts: a token bucket for each bot and room.
--
-- The source counts tokens in floating point, and adds `elapsed * (refillPerSec / 1000)`. Here
-- `refillPerSec` is the fraction `refill_num / refill_den`, and tokens are counted in units of
-- `1 / (1000 * refill_den)`, in which every sum and product of the source is exact; rounding is not
-- modelled.
mod Tests
pub mod Held
pub mod Calls
pub mod Bounds
use line_deno_bot.Prelude.{
  ℕ, ◌+◌, ◌-◌, ◌*◌, min, Bool, true, false, ◌||◌, Option, none, some, [], ◌∷◌, ◌++◌, if◌then◌else◌,
  ltb, leb, ◌==◌, get_or,
}
use line_deno_bot.Prelude.Text.{Text}
use line_deno_bot.Store.{BoundedTtlMap, create}
use line_deno_bot.Store

pub record RateLimiterOptions : Type 0 where
  pub capacity : ℕ
  pub refill_num : ℕ
  pub refill_den : ℕ
  pub max_rooms : Option ℕ
  pub idle_ttl_ms : Option ℕ

pub record Bucket : Type 0 where
  pub tokens : ℕ
  pub last_refill_ms : ℕ

pub record RateLimiter : Type 0 where
  pub capacity : ℕ
  pub refill_num : ℕ
  pub refill_den : ℕ
  pub buckets : BoundedTtlMap Bucket

abbrev pub default_max_rooms : ℕ
default_max_rooms = 10000

abbrev pub default_idle_ttl_ms : ℕ
default_idle_ttl_ms = 600000

-- One token.
abbrev pub unit : RateLimiter → ℕ
unit l = 1000 * l.refill_den

abbrev with_buckets : RateLimiterOptions → Option (BoundedTtlMap Bucket) → Option RateLimiter
with_buckets o none = none
with_buckets o (some buckets) = some (record {
  capacity = o.capacity;
  refill_num = o.refill_num;
  refill_den = o.refill_den;
  buckets = buckets;
})

-- Whether `assertValidOptions` throws.
abbrev invalid_options : RateLimiterOptions → Bool
invalid_options o = (o.capacity == 0) || (o.refill_num == 0) || (o.refill_den == 0)

-- The constructor; `none` is its ConfigError, or the RangeError of the map.
unfoldable pub new_limiter : RateLimiterOptions → Option RateLimiter
new_limiter o =
    if invalid_options o
    then none
    else with_buckets o
        (create (get_or o.idle_ttl_ms default_idle_ttl_ms) (get_or o.max_rooms default_max_rooms))

unfoldable pub room_key : Text → Text → Text
room_key bot_id room = bot_id ++ (0 ∷ room)

-- `Math.max(0, now - existing.lastRefillMs)` is the truncated difference.
unfoldable pub refill : ℕ → RateLimiter → Option Bucket → Bucket
refill now l none = record { tokens = l.capacity * unit l; last_refill_ms = now }
refill now l (some existing) = record {
  tokens =
      min (l.capacity * unit l) (existing.tokens + (now - existing.last_refill_ms) * l.refill_num);
  last_refill_ms = now;
}

unfoldable pub spend : RateLimiter → Bucket → Bucket × Bool
spend l refilled =
    if leb (unit l) refilled.tokens
    then (record refilled { tokens = refilled.tokens - unit l }, true)
    else (refilled, false)

unfoldable pub try_admit : ℕ → Text → Text → RateLimiter → RateLimiter × Bool
unfolding room_key refill spend
try_admit now bot_id room l =
    let key = room_key bot_id room in
    let (buckets, existing) = Store.get now key l.buckets in
    let (next, admitted) = spend l (refill now l existing) in
    (record l { buckets = Store.set now key next buckets }, admitted)

unfoldable pub tracked_rooms : RateLimiter → ℕ
tracked_rooms l = Store.size l.buckets
