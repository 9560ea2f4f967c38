-- ===== src/LanePool/Events.antt =====
-- lane-pool.ts: what a request does to the pool when it starts, ends or fails, and the background work. A
-- request is two steps, its start and its end; between them other requests run.
use line_deno_bot.Prelude.{
  ℕ, ◌+◌, ◌-◌, min, Bool, true, false, not, ◌&&◌, ◌||◌, Option, none, some, map, ltb, leb,
  if◌then◌else◌, filter, find, ◌==◌,
}
use line_deno_bot.Lane.{
  Lane, LaneMeasurement, send, warm, LaneSample, Request, begin_send, end_send, fail_send, drain,
  recycle, close, is_routable, age_ms,
}
use line_deno_bot.LanePool.{
  LanePool, LaneRole, until, forever, put, with_lane, is_send_tail_eligible, is_fast_lane,
  has_fresh_sample, routable_count,
}
use line_deno_bot.LanePool.Pick.{Picked, picked, pick, is_idle, reduce}

abbrev pub names : Option ℕ → ℕ → Bool
names none id = false
names (some pin) id = pin == id

-- The pin, dropped when it names the lane.
abbrev pub unpinned : ℕ → Option ℕ → Option ℕ
unpinned id pin = if names pin id then none else pin

-- `#afterSend` on the bypass of a fast lane.
unfoldable pub note_bypass : ℕ → Lane → LaneSample → LanePool → LanePool
unfolding is_send_tail_eligible
note_bypass now lane sample p =
    if not (ltb (p.opts.fast_route_threshold_ms + 3) sample.rtt_ms) && is_send_tail_eligible p lane
    then record p { fast_bypass_until = put lane.id none p.fast_bypass_until }
    else if sample.contended
    then p
    else record p {
      fast_bypass_until = put lane.id (some (now + p.opts.slow_cooldown_ms)) p.fast_bypass_until;
    }

-- `#afterSend` on the pin.
unfoldable pub note_breach : Lane → LaneSample → LanePool → LanePool
unfolding is_send_tail_eligible
note_breach lane sample p =
    if (ltb p.opts.fast_route_threshold_ms sample.rtt_ms || not (is_send_tail_eligible p lane))
      && not sample.contended
      && names p.current_send_lane_id lane.id
    then record p { current_send_lane_id = none; last_unpin = some (lane.id, sample.rtt_ms) }
    else p

-- `#afterSend` on the streak of slow sends, and the cooldown that ends it.
unfoldable pub note_streak : ℕ → Lane → LaneSample → LanePool → LanePool
unfolding routable_count
note_streak now lane sample p =
    let streak = min 255 (p.slow_send_streak lane.id + 1) in
    if sample.contended
    then p
    else if leb sample.rtt_ms p.opts.slow_threshold_ms
    then record p { slow_send_streak = put lane.id 0 p.slow_send_streak }
    else if ltb streak p.opts.slow_samples_before_cooldown
    then record p { slow_send_streak = put lane.id streak p.slow_send_streak }
    else if leb (routable_count p) 1
    then record p { slow_send_streak = put lane.id streak p.slow_send_streak }
    else record p {
      slow_send_streak = put lane.id 0 p.slow_send_streak;
      cooldown_until = put lane.id (some (until (now + p.opts.slow_cooldown_ms))) p.cooldown_until;
      current_send_lane_id = unpinned lane.id p.current_send_lane_id;
    }

unfoldable pub after_send : ℕ → Lane → LaneSample → LanePool → LanePool
unfolding note_bypass note_breach note_streak
after_send now lane sample p =
    note_streak now lane sample (note_breach lane sample (note_bypass now lane sample p))

-- `#afterFailure`; `drains` is what `isGoAway` and `classifyError` say of the error.
unfoldable pub after_failure : ℕ → Bool → ℕ → LanePool → LanePool
unfolding with_lane drain recycle
after_failure now drains id p =
    if not drains
    then p
    else if p.closed
    then record p {
      current_send_lane_id = unpinned id p.current_send_lane_id;
      lanes = with_lane id drain p.lanes;
    }
    else record p {
      current_send_lane_id = unpinned id p.current_send_lane_id;
      lanes = with_lane id (recycle now) (with_lane id drain p.lanes);
      fast_bypass_until = put id none p.fast_bypass_until;
      cooldown_until = put id none p.cooldown_until;
      slow_send_streak = put id 0 p.slow_send_streak;
    }

-- A request under way; `maintains` for the one of `maintain`.
pub record PoolRequest : Type 0 where
  pub lane_id : ℕ
  pub request : Request
  pub maintains : Bool

-- `lane.send`, up to the transport's `fetch`.
unfoldable pub begin_on : ℕ → LaneMeasurement → Bool → Lane → LanePool → LanePool × PoolRequest
unfolding with_lane begin_send
begin_on now m maintains lane p = (
  record p { lanes = with_lane lane.id (λ l. (begin_send now m l).0) p.lanes },
  record { lane_id = lane.id; request = (begin_send now m lane).1; maintains = maintains },
)

abbrev pub begin_picked : ℕ → LaneMeasurement → Picked → Option (LanePool × PoolRequest)
begin_picked now m (picked p lane) = some (begin_on now m false lane p)
begin_picked now m _ = none

-- `#send` and the fetch of `fetchFor`, up to the transport's `fetch`; `none` for an error of `#pick`.
unfoldable pub begin_request :
    ℕ → LaneRole → LaneMeasurement → Option ℕ → LanePool → Option (LanePool × PoolRequest)
unfolding pick begin_on
begin_request now role m forced p = begin_picked now m (pick now p role m forced)

-- `lane.send`, after `fetch` has resolved; only a send has the callback `#afterSend`.
abbrev pub noted : ℕ → LaneMeasurement → Lane → LaneSample → LanePool → LanePool
noted now send lane sample p = after_send now lane sample p
noted now _ lane sample p = p

abbrev pub without_cooldown : Bool → ℕ → LanePool → LanePool
without_cooldown maintains id p =
    if maintains then record p { cooldown_until = put id none p.cooldown_until } else p

abbrev pub end_on : ℕ → PoolRequest → Option Lane → LanePool → LanePool
end_on now r none p = p
end_on now r (some lane) p =
    let ended = end_send now r.request lane in
    noted now r.request.measurement ended.0 ended.1
      (record p { lanes = with_lane r.lane_id (λ l. (end_send now r.request l).0) p.lanes })

-- `#sendOnLane` and `maintain`, after the response.
unfoldable pub end_request : ℕ → PoolRequest → LanePool → LanePool
unfolding with_lane end_send after_send
end_request now r p =
    without_cooldown r.maintains r.lane_id
      (end_on now r (find (λ lane. lane.id == r.lane_id) p.lanes) p)

-- The same, after an error.
unfoldable pub fail_request : ℕ → Bool → PoolRequest → LanePool → LanePool
unfolding with_lane fail_send after_failure
fail_request now drains r p = without_cooldown r.maintains r.lane_id (
    after_failure now drains r.lane_id (record p { lanes = with_lane r.lane_id fail_send p.lanes }))

abbrev gap_is_over : ℕ → ℕ → Option ℕ → Bool
gap_is_over now gap none = true
gap_is_over now gap (some last) = leb gap (now - last)

unfoldable pub is_stale : ℕ → LanePool → Lane → Bool
unfolding is_routable age_ms has_fresh_sample is_fast_lane
is_stale now p lane =
    is_routable lane
    && is_idle lane
    && leb p.opts.max_age_ms (age_ms now lane)
    && leb p.opts.send_reserved_lanes lane.id
    && not (
        names p.current_send_lane_id lane.id
        && has_fresh_sample now p send lane
        && is_fast_lane now p lane)

-- `#recycleOldest` up to its victim: the first of the sorted list.
unfoldable pub victim : ℕ → LanePool → Option Lane
unfolding is_stale age_ms routable_count
victim now p =
    if not (gap_is_over now p.opts.recycle_gap_ms p.last_recycle_mono) || leb (routable_count p) 1
    then none
    else reduce (λ lane best. ltb (age_ms now best) (age_ms now lane))
        (filter (is_stale now p) p.lanes)

-- `#recycleOldest` from its victim on, and `maintain` up to the transport's `fetch`.
unfoldable pub begin_recycled : ℕ → Lane → LanePool → LanePool × PoolRequest
unfolding with_lane recycle begin_on
begin_recycled now lane p = begin_on now warm true (recycle now lane) (record p {
  current_send_lane_id = unpinned lane.id p.current_send_lane_id;
  lanes = with_lane lane.id (recycle now) p.lanes;
  fast_bypass_until = put lane.id none p.fast_bypass_until;
  last_recycle_mono = some now;
  cooldown_until = put lane.id (some forever) p.cooldown_until;
})

abbrev pub begin_maintain_of : ℕ → LanePool → Option Lane → Option (LanePool × PoolRequest)
begin_maintain_of now p none = none
begin_maintain_of now p (some lane) = some (begin_recycled now lane p)

unfoldable pub begin_maintain : ℕ → LanePool → Option (LanePool × PoolRequest)
unfolding victim begin_recycled
begin_maintain now p = begin_maintain_of now p (victim now p)

unfoldable pub close_pool : LanePool → LanePool
unfolding close
close_pool p = record p { closed = true; lanes = map close p.lanes }
