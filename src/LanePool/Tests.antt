-- ===== src/LanePool/Tests.antt =====
-- A pool of four lanes, two of them for replies and one of these a spare.
use line_deno_bot.Prelude.{
  ℕ, ◌*◌, ◌≤◌, ◌≡◌, ◌⊎◌, refl, true, false, none, some, inl, if◌then◌else◌, ◌==◌, List, [], ◌∷◌, In,
  arith,
}
use line_deno_bot.Lane.{
  Lane, LaneMeasurement, send, new_lane, record_sample, predicted_rtt_for, predicted, measured,
  sorted, insert_sorted, median_rtt_for, tail_rtt_for, last_rtt_at_for, is_routable,
}
use line_deno_bot.LanePool.{
  LanePool, LanePoolOptions, send_role, poll_role, new_pool, created, settings_of, fresh_pool,
  make_lanes, with_lane, until, is_fast_bypassed, is_send_tail_eligible, is_fast_lane,
  has_fresh_sample, routable_count,
}
use line_deno_bot.LanePool.Pick.{
  pick, pick_send, pick_tiers, pinned_send_lane, split_send_band, primaries, best_send,
  best_untried, beats_for_send,
}
use line_deno_bot.LanePool.Reserve.{IsServed}
use line_deno_bot.LanePool.Served.{pick-IsServed}
use line_deno_bot.LanePool.Tiers.{IsReply}
use line_deno_bot.LanePool.Replies.{reply_lanes, pick_send-IsReply, is_safe, pick_send-is_safe}
use line_deno_bot.LanePool.Near.{IsNear, best_send-IsNear}
use line_deno_bot.LanePool.Runs.{Call, begins, ends, fails, maintains, run}
use line_deno_bot.LanePool.Routes.{is_picked, run-is_picked}
use line_deno_bot.LanePool.Parked.{Sent, run_sends, count, slow_run, after_send-parks}
use line_deno_bot.LanePool.Slow.{run_sends-parks}
use line_deno_bot.LanePool.Events.{after_send}

abbrev four : LanePoolOptions
four = record {
  lanes = some 4;
  sample_window = none;
  send_reserved_lanes = some 2;
  send_spare_lanes = some 1;
  sample_max_age_ms = none;
  switch_margin = none;
  fast_route_threshold_ms = none;
  max_send_tail_ms = none;
  slow_threshold_ms = none;
  slow_samples_before_cooldown = none;
  slow_cooldown_ms = none;
  max_age_ms = none;
  recycle_gap_ms = none;
  max_poll_in_flight_per_lane = none;
}

abbrev new : LanePool
new = fresh_pool 0 (settings_of four)

new_pool-four : new_pool 0 four ≡ created new
unfolding new_pool settings_of
new_pool-four = refl

-- A poll that fails, a reply under way, and a background recycle after twenty minutes.
abbrev calls : List Call
calls =
    begins 5 poll_role LaneMeasurement.poll none
    ∷ fails 9 0 true
    ∷ begins 10 send_role send none
    ∷ ends 28 0
    ∷ maintains 1200000
    ∷ []

run-is_picked_example : is_picked (pick 1200001 (run calls (new, [])).0 send_role send none) ≡ true
run-is_picked_example = run-is_picked 0 1200001 four new calls send_role send new_pool-four

pick-IsServed_example : IsServed 3 new poll_role (pick 3 new poll_role LaneMeasurement.poll none)
pick-IsServed_example = pick-IsServed 3 new poll_role LaneMeasurement.poll

abbrev slow : ℕ → Sent
slow t = record {
  at = t;
  lane = new_lane 0 (record { id = 1; sample_window = none; fast_route_threshold_ms = none });
  sample = record { rtt_ms = 40; contended = false };
}

run_sends-parks_example :
    (run_sends (slow 50 ∷ slow 100 ∷ []) new).cooldown_until 1 ≡ some (until 15100)
unfolding settings_of make_lanes new_lane routable_count is_routable
run_sends-parks_example =
    run_sends-parks (slow 50 ∷ slow 100 ∷ []) 1 0 new (omega arith) (omega arith) (omega arith) refl
      ((refl, refl, omega arith), ((refl, refl, omega arith), tt))

after_send-parks_example :
    let before = run_sends (slow 50 ∷ []) new in
    ((after_send 100 (slow 100).lane (slow 100).sample before).cooldown_until 1
      ≡ before.cooldown_until 1)
    ⊎ (2 ≤ 2)
unfolding settings_of slow_run count new_lane
after_send-parks_example = after_send-parks (slow 50 ∷ []) (slow 100) 1 new refl

-- The two reply lanes with a reply of 15 milliseconds on the first, which is the pin.
abbrev warmed : Lane → Lane
warmed lane = record_sample 20 send (record { rtt_ms = 15; contended = false }) lane

abbrev pinned : LanePool
pinned = record new { lanes = with_lane 0 warmed new.lanes; current_send_lane_id = some 0 }

pick_send-IsReply_example :
    IsReply 30 pinned
      (reply_lanes 30 pinned pinned.lanes).0
      (reply_lanes 30 pinned pinned.lanes).1
      (pick_send 30 pinned pinned.lanes)
unfolding with_lane make_lanes settings_of new_lane
pick_send-IsReply_example = pick_send-IsReply 30 pinned pinned.lanes refl

abbrev first : Lane
first =
    warmed
      (new_lane 0 (record { id = 0; sample_window = some 7; fast_route_threshold_ms = some 20 }))

stays : pick_send 30 pinned pinned.lanes ≡ some (pinned, first)
unfolding pick_send pick_tiers pinned_send_lane split_send_band primaries best_send best_untried
    with_lane make_lanes settings_of new_lane record_sample measured sorted insert_sorted
    is_fast_lane is_send_tail_eligible is_fast_bypassed has_fresh_sample predicted_rtt_for predicted
    median_rtt_for tail_rtt_for last_rtt_at_for
stays = refl

pick_send-is_safe_example :
    (is_safe 30 pinned first ≡ true)
    ⊎ (In first (split_send_band pinned pinned.lanes).1 × (pinned ≡ pinned))
unfolding is_fast_bypassed is_send_tail_eligible split_send_band with_lane make_lanes settings_of
    new_lane record_sample measured sorted insert_sorted tail_rtt_for
pick_send-is_safe_example = pick_send-is_safe 30 pinned pinned pinned.lanes first refl stays

best_send-pinned : best_send pinned pinned.lanes ≡ some first
unfolding best_send beats_for_send with_lane make_lanes settings_of new_lane record_sample measured
    sorted insert_sorted predicted_rtt_for predicted
best_send-pinned = refl

best_send-IsNear_example :
    IsNear (3 * 2) (predicted_rtt_for send first) (predicted_rtt_for send first)
unfolding with_lane make_lanes settings_of new_lane
best_send-IsNear_example =
    best_send-IsNear pinned pinned.lanes first first best_send-pinned (inl refl)

abbrev lane_of : ℕ → ℕ → Lane
lane_of id in_flight =
    record (new_lane 0 (record { id = id; sample_window = none; fast_route_threshold_ms = none })) {
      in_flight = in_flight;
    }

-- Two primary lanes, an idle one in the bypass and a busy one, and a spare: the spare answers.
abbrev bypassed : LanePool
bypassed = record new {
  opts = record new.opts { send_reserved_lanes = 3; send_spare_lanes = 1 };
  fast_bypass_until = λ id. if id == 0 then some 100 else none;
}

spare_answers :
    pick_send 50 bypassed (lane_of 0 0 ∷ lane_of 1 1 ∷ lane_of 2 0 ∷ [])
    ≡ some (bypassed, lane_of 2 0)
unfolding pick_send pick_tiers pinned_send_lane split_send_band primaries best_send best_untried
    is_fast_bypassed is_send_tail_eligible is_fast_lane has_fresh_sample settings_of new_lane
    predicted_rtt_for predicted median_rtt_for tail_rtt_for last_rtt_at_for
spare_answers = refl
