-- ===== src/Readiness/Tests.antt =====
-- A run of the readiness machine on a small input.
use line_deno_bot.Prelude.{◌≡◌, true, not, ◌&&◌, some, List, [], ◌∷◌}
use line_deno_bot.Prelude.Text.{text}
use line_deno_bot.Readiness.{Patch, all_false, is_armed, new_fsm}
use line_deno_bot.Readiness.Armed.{
  Call, sets, degrades, repairs, run, reported, was_degraded, all_pass, run-new_fsm-armed,
}

abbrev everything : Patch
everything = record {
  session_valid = some true;
  receiver_subscribed = some true;
  rules_loaded = some true;
  sender_ready = some true;
  backlog_drained = some true;
}

abbrev calls : List Call
calls = sets 1 everything ∷ degrades 2 (text "lost") ∷ repairs 3 ∷ sets 4 everything ∷ []

run-new_fsm-armed_example :
    is_armed (run calls (new_fsm 0))
    ≡ (all_pass (reported calls all_false) && not (was_degraded calls))
run-new_fsm-armed_example = run-new_fsm-armed 0 calls
