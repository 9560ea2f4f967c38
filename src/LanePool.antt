-- ===== src/LanePool.antt =====
-- apps/worker/src/transport/lane-pool.ts: the lanes to one origin, with what the pool keeps for
-- routing. Latencies are in milliseconds; predictions and the switch margin are in units of 1 / 20 of
-- one, as in Lane. A lane is named by its id. One reading of the clock serves a whole call. Log lines, headers and requests are not modelled.
pub mod Pick
pub mod Events
pub mod Stats
pub mod Choice
pub mod Reply
pub mod Reserve
pub mod Served
pub mod Tiers
pub mod Replies
pub mod Least
pub mod Open
pub mod Runs
pub mod Routes
pub mod Near
pub mod Parked
pub mod Slow
mod Tests
use line_deno_bot.Prelude.{
  ℕ, zero, suc, ◌+◌, ◌-◌, ◌*◌, max, Bool, true, false, not, ◌&&◌, ◌||◌, Option, none, some, List,
  [], ◌∷◌, ltb, leb, if◌then◌else◌, get_or, length, filter, any, find, ◌==◌,
}
use line_deno_bot.Lane.{
  Lane, LaneMeasurement, send, preflight, new_lane, is_routable, predicted_rtt_for, median_rtt_for,
  tail_rtt_for, last_rtt_at_for,
}

pub data LaneRole : Type 0 where
  send_role poll_role general_role : LaneRole

pub record LanePoolOptions : Type 0 where
  pub lanes : Option ℕ
  pub sample_window : Option ℕ
  pub send_reserved_lanes : Option ℕ
  pub send_spare_lanes : Option ℕ
  pub sample_max_age_ms : Option ℕ
  pub switch_margin : Option ℕ
  pub fast_route_threshold_ms : Option ℕ
  pub max_send_tail_ms : Option ℕ
  pub slow_threshold_ms : Option ℕ
  pub slow_samples_before_cooldown : Option ℕ
  pub slow_cooldown_ms : Option ℕ
  pub max_age_ms : Option ℕ
  pub recycle_gap_ms : Option ℕ
  pub max_poll_in_flight_per_lane : Option ℕ

-- The options with the defaults put in.
pub record Settings : Type 0 where
  pub lanes : ℕ
  pub sample_window : ℕ
  pub send_reserved_lanes : ℕ
  pub send_spare_lanes : ℕ
  pub sample_max_age_ms : ℕ
  pub switch_margin : ℕ
  pub fast_route_threshold_ms : ℕ
  pub max_send_tail_ms : ℕ
  pub slow_threshold_ms : ℕ
  pub slow_samples_before_cooldown : ℕ
  pub slow_cooldown_ms : ℕ
  pub max_age_ms : ℕ
  pub recycle_gap_ms : ℕ
  pub max_poll_in_flight_per_lane : ℕ

unfoldable pub settings_of : LanePoolOptions → Settings
settings_of o =
    let lanes = get_or o.lanes 6 in
    record {
      lanes = lanes;
      sample_window = get_or o.sample_window 7;
      send_reserved_lanes = get_or o.send_reserved_lanes (if ltb 1 lanes then 1 else 0);
      send_spare_lanes = get_or o.send_spare_lanes 0;
      sample_max_age_ms = get_or o.sample_max_age_ms 900000;
      switch_margin = get_or o.switch_margin 2;
      fast_route_threshold_ms = get_or o.fast_route_threshold_ms 20;
      max_send_tail_ms = get_or o.max_send_tail_ms 27;
      slow_threshold_ms = get_or o.slow_threshold_ms 23;
      slow_samples_before_cooldown = get_or o.slow_samples_before_cooldown 2;
      slow_cooldown_ms = get_or o.slow_cooldown_ms 15000;
      max_age_ms = get_or o.max_age_ms 900000;
      recycle_gap_ms = get_or o.recycle_gap_ms 60000;
      max_poll_in_flight_per_lane = get_or o.max_poll_in_flight_per_lane 1;
    }

-- A time, or `Number.POSITIVE_INFINITY`.
pub data Until : Type 0 where
  until : ℕ → Until
  forever : Until

-- The maps from lane ids are functions.
pub record LanePool : Type 0 where
  pub opts : Settings
  pub lanes : List Lane
  pub cooldown_until : ℕ → Option Until
  pub fast_bypass_until : ℕ → Option ℕ
  pub slow_send_streak : ℕ → ℕ
  -- `none` for `Number.NEGATIVE_INFINITY`.
  pub last_recycle_mono : Option ℕ
  pub closed : Bool
  pub current_send_lane_id : Option ℕ
  pub last_unpin : Option (ℕ × ℕ)

pub data ConfigError : Type 0 where
  bad_lanes bad_send_reserved bad_send_spare bad_slow_samples bad_poll_cap bad_send_tail :
      ConfigError

pub data Created : Type 0 where
  created : LanePool → Created
  refused : ConfigError → Created

-- The loop that makes the lanes, from `id` on.
unfoldable pub make_lanes : ℕ → Settings → ℕ → ℕ → List Lane
make_lanes now s zero id = []
make_lanes now s (suc n) id =
    new_lane now (record {
      id = id;
      sample_window = some s.sample_window;
      fast_route_threshold_ms = some s.fast_route_threshold_ms;
    })
    ∷ make_lanes now s n (suc id)

abbrev pub fresh_pool : ℕ → Settings → LanePool
fresh_pool now s = record {
  opts = s;
  lanes = make_lanes now s s.lanes 0;
  cooldown_until = λ id. none;
  fast_bypass_until = λ id. none;
  slow_send_streak = λ id. 0;
  last_recycle_mono = none;
  closed = false;
  current_send_lane_id = none;
  last_unpin = none;
}

-- The constructor, with its tests in their order.
unfoldable pub new_pool : ℕ → LanePoolOptions → Created
unfolding make_lanes
new_pool now o =
    let s = settings_of o in
    if ltb s.lanes 1
    then refused bad_lanes
    else if leb s.lanes s.send_reserved_lanes
    then refused bad_send_reserved
    else if leb (max 1 s.send_reserved_lanes) s.send_spare_lanes
    then refused bad_send_spare
    else if ltb s.slow_samples_before_cooldown 1
    then refused bad_slow_samples
    else if ltb s.max_poll_in_flight_per_lane 1
    then refused bad_poll_cap
    else if s.max_send_tail_ms == 0
    then refused bad_send_tail
    else created (fresh_pool now s)

abbrev pub put {ℓ} : {A : Type ℓ} → ℕ → A → (ℕ → A) → ℕ → A
put id a f i = if id == i then a else f i

-- The lane of an id, changed.
unfoldable pub with_lane : ℕ → (Lane → Lane) → List Lane → List Lane
with_lane id f [] = []
with_lane id f (lane ∷ lanes) =
    let rest = with_lane id f lanes in if lane.id == id then f lane ∷ rest else lane ∷ rest

abbrev pub passed : ℕ → Option Until → Bool
passed now none = true
passed now (some (until t)) = leb t now
passed now (some forever) = false

-- `(this.#cooldownUntil.get(id) ?? 0) <= now`.
unfoldable pub is_available : ℕ → LanePool → ℕ → Bool
is_available now p id = passed now (p.cooldown_until id)

abbrev later : ℕ → Option ℕ → Bool
later now none = false
later now (some t) = ltb now t

-- `#isFastBypassed`; it also deletes an expired entry, which no later call can tell from a missing one, so
-- that the deletion is left out.
unfoldable pub is_fast_bypassed : ℕ → LanePool → ℕ → Bool
is_fast_bypassed now p id = later now (p.fast_bypass_until id)

abbrev at_most : Option ℕ → ℕ → Bool
at_most none limit = true
at_most (some t) limit = leb t limit

unfoldable pub is_send_tail_eligible : LanePool → Lane → Bool
is_send_tail_eligible p lane = at_most (tail_rtt_for send lane) p.opts.max_send_tail_ms

abbrev below_or_at : Option ℕ → ℕ → Bool
below_or_at none limit = false
below_or_at (some t) limit = leb t limit

unfoldable pub is_fast_lane : ℕ → LanePool → Lane → Bool
unfolding is_send_tail_eligible is_fast_bypassed
is_fast_lane now p lane =
    below_or_at (predicted_rtt_for send lane) (20 * p.opts.fast_route_threshold_ms)
    && is_send_tail_eligible p lane
    && not (is_fast_bypassed now p lane.id)

abbrev not_older : ℕ → ℕ → Option ℕ → Option ℕ → LaneMeasurement → Bool
not_older now limit none last m = false
not_older now limit (some median) none m = false
not_older now limit (some median) (some last) send = true
not_older now limit (some median) (some last) preflight = true
not_older now limit (some median) (some last) m = leb (now - last) limit

unfoldable pub has_fresh_sample : ℕ → LanePool → LaneMeasurement → Lane → Bool
has_fresh_sample now p m lane =
    not_older now p.opts.sample_max_age_ms (median_rtt_for m lane) (last_rtt_at_for m lane) m

abbrev pub is_send_role : LaneRole → Bool
is_send_role send_role = true
is_send_role _ = false

-- `#candidates`: the band of the role.
unfoldable pub candidates : LanePool → LaneRole → List Lane → List Lane
candidates p role lanes =
    if p.opts.send_reserved_lanes == 0
    then lanes
    else filter
        (λ lane.
          if is_send_role role
          then ltb lane.id p.opts.send_reserved_lanes
          else leb p.opts.send_reserved_lanes lane.id)
        lanes

pub data BandRole : Type 0 where
  send_band poll_band shared_band : BandRole

unfoldable pub role_for : LanePool → ℕ → BandRole
role_for p id =
    if p.opts.send_reserved_lanes == 0
    then shared_band
    else if ltb id p.opts.send_reserved_lanes
    then send_band
    else poll_band

unfoldable pub is_spare : LanePool → ℕ → Bool
is_spare p id =
    ltb 0 p.opts.send_spare_lanes
    && leb (p.opts.send_reserved_lanes - p.opts.send_spare_lanes) id
    && ltb id p.opts.send_reserved_lanes

unfoldable pub routable_count : LanePool → ℕ
routable_count p = length (filter is_routable p.lanes)
