-- ===== src/WriteBehind/Tests.antt =====
-- A run of a small queue.
use line_deno_bot.Prelude.{ℕ, ◌+◌, ◌≡◌, refl, true, false, none, some, List, [], ◌∷◌}
use line_deno_bot.WriteBehind.{
  WriteBehindOptions, WriteBehindQueue, new_queue, enqueue, arm, flush_now, close, close_loop,
  settle,
}
use line_deno_bot.WriteBehind.Bounds.{
  Call, enqueues, fires, closes, settles, step, run, IsSound, run-new_queue-IsSound,
}
use line_deno_bot.WriteBehind.Counts.{total, lost, accepted, total-run}

abbrev options : WriteBehindOptions
options = record { batch_size = some 2; flush_interval_ms = none; max_queued = some 3 }

abbrev empty : WriteBehindQueue ℕ
empty = record {
  batch_size = 2;
  max_queued = 3;
  flush_interval_ms = 1000;
  queue = [];
  armed = false;
  flushing = none;
  written = 0;
  dropped = 0;
  flushes = 0;
  failures = 0;
  closed = false;
  closing = none;
}

abbrev calls : List (Call ℕ)
calls = enqueues 1 ∷ enqueues 2 ∷ enqueues 3 ∷ settles false ∷ fires ∷ settles true ∷ closes ∷ []

-- A second close while the first waits: the first goes on and writes the rest.
abbrev closed_twice : List (Call ℕ)
closed_twice =
    enqueues 1
    ∷ enqueues 2
    ∷ enqueues 3
    ∷ enqueues 4
    ∷ enqueues 5
    ∷ settles true
    ∷ closes
    ∷ closes
    ∷ settles true
    ∷ settles true
    ∷ []

run-closed_twice : (run closed_twice empty).written ≡ 5
unfolding run step enqueue arm flush_now close close_loop settle
run-closed_twice = refl

run-new_queue-IsSound_example : IsSound (run calls empty)
unfolding new_queue
run-new_queue-IsSound_example = run-new_queue-IsSound options empty calls refl

total-run_example : total (run calls empty) + lost calls empty ≡ total empty + accepted calls empty
total-run_example = total-run calls empty
