-- ===== src/WarmupGate/Tests.antt =====
-- A gate of two with four accounts.
use line_deno_bot.Prelude.{ℕ, ◌≡◌, refl, List, [], ◌∷◌}
use line_deno_bot.WarmupGate.{WarmupGate, new_gate, submit, settle, drain, drain_loop}
use line_deno_bot.WarmupGate.Order.{Call, submits, settles, step, run, IsGate, new_gate-IsGate}
use line_deno_bot.WarmupGate.Settled.{settlings, new_gate-settles}

abbrev gate : WarmupGate ℕ
gate = record { limit = 2; pending = []; active = 0 }

abbrev calls : List (Call ℕ)
calls = submits 1 ∷ submits 2 ∷ submits 3 ∷ settles ∷ submits 4 ∷ []

begun : (run calls (gate, [])).1 ≡ 1 ∷ 2 ∷ 3 ∷ []
unfolding run step submit settle drain drain_loop
begun = refl

new_gate-IsGate_example : IsGate 2 (1 ∷ 2 ∷ 3 ∷ 4 ∷ []) (run calls (gate, []))
unfolding new_gate
new_gate-IsGate_example = new_gate-IsGate 2 gate calls refl

new_gate-settles_example : (run (settlings 4) (run calls (gate, []))).1 ≡ 1 ∷ 2 ∷ 3 ∷ 4 ∷ []
unfolding new_gate
new_gate-settles_example = new_gate-settles 2 gate calls refl
