-- ===== src/Alerts/Tests.antt =====
-- Two snapshots without a usable lane.
use line_deno_bot.Prelude.{ℕ, ◌≡◌, none, [], ◌∷◌}
use line_deno_bot.Recovery.{no_lane_available}
use line_deno_bot.Alerts.{default_thresholds, Snapshot, other_badge, evaluate, new_evaluator}
use line_deno_bot.Alerts.Held.{fires, fuse, due, held_since, verdict, run, run-alerts}

abbrev snapshot : ℕ → Snapshot
snapshot now = record {
  generated_at_ms = now;
  readiness = none;
  race_seen = none;
  send = none;
  line_round_trip = none;
  dispatched = 0;
  send_failed = 0;
  lanes = other_badge ∷ [];
}

run-alerts_example :
    fires no_lane_available
      (evaluate (run (snapshot 0 ∷ []) (new_evaluator default_thresholds none)) (snapshot 60000)).1
    ≡ due 60000
        (fuse no_lane_available default_thresholds)
        (held_since no_lane_available default_thresholds none (snapshot 0 ∷ []) none)
        (verdict no_lane_available default_thresholds none (snapshot 60000))
run-alerts_example =
    run-alerts default_thresholds none (snapshot 0 ∷ []) (snapshot 60000) no_lane_available
