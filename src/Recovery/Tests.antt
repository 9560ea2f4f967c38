-- ===== src/Recovery/Tests.antt =====
-- A run of the recovery planner on a small input.
use line_deno_bot.Prelude.{◌+◌, ◌-◌, ◌*◌, ◌≤◌, ◌⊎◌, none, List, [], ◌∷◌, arith}
use line_deno_bot.Prelude.Text.{text}
use line_deno_bot.Recovery.{Alert, failure_rate, RecoveryOptions, rung_index, new_planner}
use line_deno_bot.Recovery.Earned.{Call, evaluates, run, last_of}
use line_deno_bot.Recovery.Ladder.{run-climbs}

abbrev defaults : RecoveryOptions
defaults = record { cooldown_ms = none; clear_after_clean_checks = none; ceiling = none }

abbrev alerts : List Alert
alerts = record { kind = failure_rate; message = text "m" } ∷ []

abbrev calls : List Call
calls = evaluates 1000 alerts ∷ evaluates 2000 alerts ∷ evaluates 130000 alerts ∷ []

run-climbs_example :
    let p = run calls (new_planner defaults) in
    (rung_index p.rung * (new_planner defaults).cooldown_ms
      ≤ 2 * (new_planner defaults).cooldown_ms + (last_of 1000 calls - 1000))
    × ((rung_index p.rung ≤ 2) ⊎ (rung_index p.rung ≤ (new_planner defaults).ceiling_index))
run-climbs_example =
    run-climbs defaults 1000 2 calls (omega arith, (omega arith, (omega arith, tt)))
      ((omega arith, tt), ((omega arith, tt), ((omega arith, tt), tt)))
