-- ===== src/LoginFlow/Tests.antt =====
-- A login that succeeds, with a second attempt while it runs.
use line_deno_bot.Prelude.{◌≡◌, refl, some, none, [], ◌∷◌, List, true, false}
use line_deno_bot.Prelude.Text.{text}
use line_deno_bot.LoginFlow.{
  running, success, start, elapsed_ms, on_qr_url, on_pincode, on_resolved, on_rejected, finally,
  reset,
}
use line_deno_bot.LoginFlow.Single.{
  Event, starts, shows_url, shows_pin, logs_in, calls_back, settles, login_fails, new_world, step,
  run, IsSingle, start-run,
}

abbrev events : List Event
events =
    starts 5
    ∷ shows_url (text "qr")
    ∷ starts 6
    ∷ shows_pin (text "12")
    ∷ logs_in 90
    ∷ calls_back
    ∷ settles
    ∷ []

run-events : (run events new_world).flow ≡ record { state = success 90; in_flight = false }
unfolding run step start on_qr_url on_pincode on_resolved on_rejected finally reset
run-events = refl

elapsed_running : elapsed_ms 9 (record { state = running 5 none none; in_flight = true }) ≡ some 4
unfolding elapsed_ms
elapsed_running = refl

start-run_example :
    IsSingle (run events new_world)
    × (start 100
          (run (login_fails (text "late") ∷ calls_back ∷ settles ∷ []) (run events new_world)).flow
        ≡ some (record { state = running 100 none none; in_flight = true }))
start-run_example = start-run events (text "late") 100
