-- ===== src/Lane/Tests.antt =====
-- A lane with two requests in flight.
use line_deno_bot.Prelude.{ℕ, ◌*◌, ◌≤◌, ◌≡◌, refl, none, some, List, [], ◌∷◌, In, arith}
use line_deno_bot.Lane.{
  LaneOptions, new_lane, send, predicted_rtt_for, predicted, measured, sorted, insert_sorted,
  begin_send, end_send, record_sample,
}
use line_deno_bot.Lane.Runs.{
  Call, begins, ends, run, IsLane, step, run-new_lane-IsLane, run-predicted_rtt_for,
}

abbrev defaults : LaneOptions
defaults = record { id = 1; sample_window = none; fast_route_threshold_ms = none }

abbrev calls : List Call
calls = begins 1 send ∷ begins 4 send ∷ ends 21 1 ∷ ends 30 0 ∷ []

run-new_lane-IsLane_example : IsLane 7 (run calls (new_lane 0 defaults, []))
unfolding new_lane
run-new_lane-IsLane_example = run-new_lane-IsLane 0 defaults calls (omega arith)

prediction : predicted_rtt_for send (run calls (new_lane 0 defaults, [])).0 ≡ some 520
unfolding predicted_rtt_for predicted run step begin_send end_send record_sample measured sorted
    insert_sorted new_lane
prediction = refl

run-predicted_rtt_for_example :
    let samples = ((run calls (new_lane 0 defaults, [])).0.profiles send).samples in
    (low : ℕ) × (high : ℕ) × In low samples × In high samples × (20 * low ≤ 520) × (520 ≤ 20 * high)
unfolding new_lane
run-predicted_rtt_for_example =
    run-predicted_rtt_for 0 defaults calls send 520 (omega arith) prediction
