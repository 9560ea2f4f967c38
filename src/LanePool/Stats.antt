-- ===== src/LanePool/Stats.antt =====
-- lane-pool.ts: the lanes as the dashboard sees them.
use line_deno_bot.Prelude.{ℕ, ◌-◌, Bool, true, false, not, ◌&&◌, ◌||◌, Option, List, map, ltb, any}
use line_deno_bot.Lane.{
  Lane, LaneMeasurement, send, is_routable, median_rtt_for, tail_rtt_for, predicted_rtt_for,
  last_rtt_at_for,
}
use line_deno_bot.LanePool.{
  LanePool, is_send_tail_eligible, is_fast_bypassed, is_available, BandRole, send_band, poll_band,
  shared_band, role_for, is_spare,
}
use line_deno_bot.LanePool.Events.{names}

-- A lane on the dashboard: the fields of `LaneStat` that the pool decides.
pub record LaneStat : Type 0 where
  pub id : ℕ
  pub in_flight : ℕ
  pub median_rtt_ms : Option ℕ
  pub tail_rtt_ms : Option ℕ
  pub predicted_rtt_ms : Option ℕ
  pub last_sample_mono : Option ℕ
  pub role : BandRole
  pub available : Bool
  pub route_eligible : Bool
  pub current_send : Bool
  pub spare : Bool

abbrev stat_measurement : BandRole → LaneMeasurement
stat_measurement send_band = send
stat_measurement poll_band = LaneMeasurement.poll
stat_measurement shared_band = LaneMeasurement.general

abbrev is_send_band : BandRole → Bool
is_send_band send_band = true
is_send_band _ = false

unfoldable pub has_available_primary : ℕ → LanePool → Bool
unfolding is_routable is_available is_fast_bypassed is_send_tail_eligible
has_available_primary now p =
    any
      (λ lane.
        ltb lane.id (p.opts.send_reserved_lanes - p.opts.send_spare_lanes)
        && is_routable lane
        && is_available now p lane.id
        && not (is_fast_bypassed now p lane.id)
        && is_send_tail_eligible p lane)
      p.lanes

unfoldable pub stat_of : ℕ → LanePool → Lane → LaneStat
unfolding median_rtt_for tail_rtt_for predicted_rtt_for last_rtt_at_for role_for is_spare
    has_available_primary is_available is_fast_bypassed is_send_tail_eligible
stat_of now p lane =
    let role = role_for p lane.id in
    let m = stat_measurement role in
    record {
      id = lane.id;
      in_flight = lane.in_flight;
      median_rtt_ms = median_rtt_for m lane;
      tail_rtt_ms = tail_rtt_for m lane;
      predicted_rtt_ms = predicted_rtt_for m lane;
      last_sample_mono = last_rtt_at_for m lane;
      role = role;
      available = is_available now p lane.id;
      route_eligible =
          not (is_spare p lane.id)
          && (not (is_send_band role)
              || not (has_available_primary now p)
              || (not (is_fast_bypassed now p lane.id) && is_send_tail_eligible p lane));
      current_send = names p.current_send_lane_id lane.id;
      spare = is_spare p lane.id;
    }

unfoldable pub stats : ℕ → LanePool → List LaneStat
unfolding stat_of
stats now p = map (stat_of now p) p.lanes
