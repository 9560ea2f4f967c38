-- ===== src/LanePool/Pick.antt =====
-- lane-pool.ts: which lane carries a request.
use line_deno_bot.Prelude.{
  ℕ, ◌+◌, ◌-◌, ◌*◌, Bool, true, false, not, ◌&&◌, Option, none, some, List, [], ◌∷◌, map, ltb, leb,
  if◌then◌else◌, length, filter, find, is_some, ◌==◌,
}
use line_deno_bot.Lane.{
  Lane, LaneMeasurement, send, preflight, poll, warm, is_routable, predicted_rtt_for,
  median_rtt_for, last_rtt_at_for,
}
use line_deno_bot.LanePool.{
  LanePool, LaneRole, is_send_role, is_available, is_fast_bypassed, is_send_tail_eligible,
  is_fast_lane, has_fresh_sample, candidates,
}

abbrev pub best_of : (Lane → Lane → Bool) → Lane → List Lane → Lane
best_of better best [] = best
best_of better best (lane ∷ lanes) = best_of better (if better lane best then lane else best) lanes

-- `lanes.reduce((best, lane) => better(lane, best) ? lane : best)`; `none` for the `TypeError` that an empty list
-- throws.
abbrev pub reduce : (Lane → Lane → Bool) → List Lane → Option Lane
reduce better [] = none
reduce better (lane ∷ lanes) = some (best_of better lane lanes)

abbrev pub is_empty : List Lane → Bool
is_empty [] = true
is_empty (lane ∷ lanes) = false

-- `xs.length > 0 ? xs : ys`.
abbrev pub or_all : List Lane → List Lane → List Lane
or_all [] ys = ys
or_all (x ∷ xs) ys = x ∷ xs

abbrev pub is_idle : Lane → Bool
is_idle lane = lane.in_flight == 0

-- `netScore`, the rabbits less the turtles, compared by sums.
abbrev pub net_score_beats : Lane → Lane → Bool
net_score_beats a b = ltb (b.score.rabbits + a.score.turtles) (a.score.rabbits + b.score.turtles)

-- What two predictions say with a margin; `tie` decides inside it.
abbrev pub faster : ℕ → Option ℕ → Option ℕ → Bool → Bool
faster margin none b tie = false
faster margin (some a) none tie = true
faster margin (some a) (some b) tie =
    if leb (a + margin) b then true else if leb (b + margin) a then false else tie

unfoldable pub beats_for_send : LanePool → Lane → Lane → Bool
beats_for_send p candidate current =
    faster p.opts.switch_margin (predicted_rtt_for send candidate) (predicted_rtt_for send current)
      (if net_score_beats candidate current
        then true
        else if net_score_beats current candidate
        then false
        else ltb candidate.in_flight current.in_flight)

abbrev scaled : Option ℕ → Option ℕ
scaled none = none
scaled (some a) = some (20 * a)

-- The number that `#beats` compares.
abbrev pub rtt_of : LaneMeasurement → Lane → Option ℕ
rtt_of send lane = predicted_rtt_for send lane
rtt_of poll lane = predicted_rtt_for poll lane
rtt_of m lane = scaled (median_rtt_for m lane)

unfoldable pub beats : LanePool → LaneMeasurement → Lane → Lane → Bool
beats p m candidate current =
    faster p.opts.switch_margin (rtt_of m candidate) (rtt_of m current)
      (ltb candidate.in_flight current.in_flight)

unfoldable pub best_send : LanePool → List Lane → Option Lane
unfolding beats_for_send
best_send p lanes = reduce (beats_for_send p) lanes

unfoldable pub best_untried : ℕ → LanePool → List Lane → Option Lane
unfolding beats has_fresh_sample
best_untried now p lanes =
    let tested = filter (has_fresh_sample now p preflight) lanes in
    let warmed = filter (has_fresh_sample now p warm) lanes in
    if not (is_empty tested)
    then reduce (beats p preflight) tested
    else if not (is_empty warmed)
    then reduce (beats p warm) warmed
    else reduce (λ lane best. ltb lane.in_flight best.in_flight) lanes

unfoldable pub split_send_band : LanePool → List Lane → List Lane × List Lane
split_send_band p pool =
    let first_spare_id = p.opts.send_reserved_lanes - p.opts.send_spare_lanes in
    let primary = filter (λ lane. ltb lane.id first_spare_id) pool in
    if p.opts.send_spare_lanes == 0
    then (pool, [])
    else if is_empty primary
    then (pool, [])
    else (primary, filter (λ lane. leb first_spare_id lane.id) pool)

abbrev pub fresh_only : ℕ → LanePool → Option Lane → Option Lane
fresh_only now p none = none
fresh_only now p (some lane) = if has_fresh_sample now p send lane then some lane else none

abbrev pub pin_among : ℕ → LanePool → Option ℕ → List Lane → Option Lane
pin_among now p none lanes = none
pin_among now p (some id) lanes = fresh_only now p (find (λ lane. lane.id == id) lanes)

unfoldable pub pinned_send_lane : ℕ → LanePool → List Lane → Option Lane
unfolding has_fresh_sample
pinned_send_lane now p lanes = pin_among now p p.current_send_lane_id lanes

unfoldable pub pin_send : LanePool → Lane → LanePool
pin_send p lane = record p { last_unpin = none; current_send_lane_id = some lane.id }

-- `take`, on the lane of a reduction.
abbrev pub taken : Bool → LanePool → Option Lane → Option (LanePool × Lane)
taken busy_pin p none = none
taken busy_pin p (some lane) = some (if busy_pin then p else pin_send p lane, lane)

-- A lane that leaves the pin where it is.
abbrev pub kept : LanePool → Option Lane → Option (LanePool × Lane)
kept p none = none
kept p (some lane) = some (p, lane)

-- `primary` in `#pickSend`, from the lanes outside the spares.
unfoldable pub primaries : ℕ → LanePool → List Lane → List Lane
unfolding is_fast_bypassed is_send_tail_eligible
primaries now p all_primary =
    let outside = filter (λ lane. not (is_fast_bypassed now p lane.id)) all_primary in
    let unbypassed = or_all outside all_primary in
    or_all (filter (is_send_tail_eligible p) unbypassed) unbypassed

-- `#pickSend` below the pinned lane: the tiers 2 to 5 and the fallback.
unfoldable pub pick_tiers :
    ℕ → LanePool → List Lane → List Lane → List Lane → Bool → Option (LanePool × Lane)
unfolding best_send best_untried pin_send is_fast_lane has_fresh_sample
pick_tiers now p primary spare pool busy_pin =
    let timed : Lane → Bool = has_fresh_sample now p send in
    let idle_primary = filter is_idle primary in
    let fast_idle = filter is_idle (filter (is_fast_lane now p) primary) in
    let idle_spare = filter is_idle spare in
    let known = filter timed idle_spare in
    let timed_idle = filter timed idle_primary in
    let untried = filter (λ lane. not (timed lane)) idle_primary in
    let timed_primary = filter timed primary in
    if not (is_empty fast_idle)
    then taken busy_pin p (best_send p fast_idle)
    else if not (is_empty primary) && is_empty idle_primary && not (is_empty idle_spare)
    then kept p (if not (is_empty known) then best_send p known else best_untried now p idle_spare)
    else if not (is_empty timed_idle)
    then taken busy_pin p (best_send p timed_idle)
    else if not (is_empty untried)
    then taken busy_pin p (best_untried now p untried)
    else if not (is_empty timed_primary)
    then taken busy_pin p (best_send p timed_primary)
    else taken busy_pin p (best_untried now p (or_all primary pool))

abbrev pub pick_pinned :
    ℕ → LanePool → List Lane → List Lane → List Lane → Option Lane → Option (LanePool × Lane)
pick_pinned now p primary spare pool (some lane) = some (p, lane)
pick_pinned now p primary spare pool none =
    pick_tiers now p primary spare pool
      (is_some (pinned_send_lane now p (filter (is_fast_lane now p) primary)))

unfoldable pub pick_send : ℕ → LanePool → List Lane → Option (LanePool × Lane)
unfolding split_send_band primaries pinned_send_lane is_fast_lane pick_tiers
pick_send now p pool =
    let (all_primary, spare) = split_send_band p pool in
    let primary = primaries now p all_primary in
    pick_pinned now p primary spare pool
      (pinned_send_lane now p (filter is_idle (filter (is_fast_lane now p) primary)))

-- `x ?? Number.NEGATIVE_INFINITY`, compared.
abbrev pub earlier : Option ℕ → Option ℕ → Bool
earlier a none = false
earlier none (some b) = true
earlier (some a) (some b) = ltb a b

abbrev pub warmed_earlier : Lane → Lane → Bool
warmed_earlier lane best = earlier (last_rtt_at_for warm lane) (last_rtt_at_for warm best)

abbrev pub less_loaded : LaneMeasurement → Lane → Lane → Bool
less_loaded m lane best =
    if lane.in_flight == best.in_flight
    then earlier (last_rtt_at_for m lane) (last_rtt_at_for m best)
    else ltb lane.in_flight best.in_flight

-- What `#pick` does: a lane, or the error that it throws. `crashed` is a `reduce` of an empty list.
pub data Picked : Type 0 where
  picked : LanePool → Lane → Picked
  no_routable : ℕ → Picked
  forced_not_send : LaneRole → ℕ → Picked
  forced_not_routable : ℕ → List ℕ → Picked
  crashed : Picked

abbrev pub the_lane : LanePool → Option Lane → Picked
the_lane p none = crashed
the_lane p (some lane) = picked p lane

abbrev pub the_choice : Option (LanePool × Lane) → Picked
the_choice none = crashed
the_choice (some (p, lane)) = picked p lane

abbrev pub is_warm : LaneMeasurement → Bool
is_warm warm = true
is_warm _ = false

-- `pool` in `#pick`.
unfoldable pub pool_for : ℕ → LanePool → LaneRole → List Lane
unfolding is_available candidates is_routable
pool_for now p role =
    let usable = filter (λ lane. is_routable lane && is_available now p lane.id) p.lanes in
    let routable = or_all usable (filter is_routable p.lanes) in
    or_all (candidates p role routable) routable

-- `bounded`: the lanes under the cap of a receive lane, or all of them when none is.
unfoldable pub bounded : LanePool → LaneRole → List Lane → List Lane
bounded p role pool =
    if is_send_role role
    then pool
    else or_all (filter (λ lane. ltb lane.in_flight p.opts.max_poll_in_flight_per_lane) pool) pool

abbrev pub pick_measured : ℕ → LanePool → LaneMeasurement → List Lane → Option Lane
pick_measured now p m lanes =
    let unmeasured = filter (λ lane. not (has_fresh_sample now p m lane)) lanes in
    if is_empty unmeasured then reduce (beats p m) lanes else reduce (less_loaded m) unmeasured

abbrev pub pick_warm : List Lane → Option Lane
pick_warm lanes = reduce warmed_earlier (or_all (filter is_idle lanes) lanes)

-- `#pick` after the forced lane.
unfoldable pub pick_free : ℕ → LanePool → LaneRole → LaneMeasurement → List Lane → Picked
unfolding pick_send bounded has_fresh_sample beats
pick_free now p role m pool =
    let lanes = bounded p role pool in
    if is_warm m
    then the_lane p (pick_warm lanes)
    else if is_send_role role
    then the_choice (pick_send now p lanes)
    else the_lane p (pick_measured now p m lanes)

abbrev pub forced_lane : LanePool → ℕ → List Lane → Option Lane → Picked
forced_lane p id pool none = forced_not_routable id (map (λ lane. lane.id) pool)
forced_lane p id pool (some lane) = picked p lane

abbrev pub pick_in : ℕ → LanePool → LaneRole → LaneMeasurement → Option ℕ → List Lane → Picked
pick_in now p role m none pool = pick_free now p role m pool
pick_in now p role m (some id) pool =
    if is_send_role role
    then forced_lane p id pool (find (λ lane. lane.id == id) pool)
    else forced_not_send role id

unfoldable pub pick : ℕ → LanePool → LaneRole → LaneMeasurement → Option ℕ → Picked
unfolding pool_for pick_free
pick now p role m forced =
    let pool = pool_for now p role in
    if is_empty pool then no_routable (length p.lanes) else pick_in now p role m forced pool
