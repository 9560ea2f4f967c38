-- ===== src/AsyncQueue/Tests.antt =====
-- A run of a small queue.
use line_deno_bot.Prelude.{ℕ, ◌≡◌, List, [], ◌∷◌, ◌++◌}
use line_deno_bot.AsyncQueue.{new_queue}
use line_deno_bot.AsyncQueue.Order.{
  Call, offers, closes, iterates, run, delivered, accepted, run-items,
}

abbrev calls : List (Call ℕ)
calls = offers 1 ∷ offers 2 ∷ offers 3 ∷ iterates ∷ closes ∷ iterates ∷ []

run-items_example :
    (new_queue 2).items ++ accepted calls (new_queue 2)
    ≡ delivered calls (new_queue 2) ++ (run calls (new_queue 2)).items
run-items_example = run-items calls (new_queue 2)
