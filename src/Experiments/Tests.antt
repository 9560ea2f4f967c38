-- ===== src/Experiments/Tests.antt =====
-- A slot that is used twice, and two experiments that conflict.
use line_deno_bot.Prelude.{ℕ, ◌≡◌, ◌≤◌, refl, true, false, none, some, List, [], ◌∷◌}
use line_deno_bot.Prelude.Text.{text, text_eq, trim, trim_start, trim_end, is_space}
use line_deno_bot.Prelude.Dict.{lookup, insert}
use line_deno_bot.Experiments.Slot.{new_slot, take}
use line_deno_bot.Experiments.Taken.{Call, prepares, takes, advances, run, given, payload, run-take}
use line_deno_bot.Experiments.Registry.{
  ExperimentDefinition, ExperimentRegistry, live_paired, entry_of, answered, new_registry,
  define_all, start, conclude, active, conflict_on, is_on,
}
use line_deno_bot.Experiments.Active
use line_deno_bot.Experiments.Active.{
  starts, concludes, rolls_back, blocks, has_bare_adoption, step,
}
use line_deno_bot.Experiments.Conflicts.{IsSafe}
use line_deno_bot.Experiments.Fresh.{new_registry-IsSafe}

abbrev slot_calls : List (Call ℕ)
slot_calls =
    prepares 10 (text "a") 1 100
    ∷ advances (text "a") 1
    ∷ takes 20 (text "a") 1
    ∷ prepares 30 (text "a") 2 200
    ∷ []

run-take_example :
    let s = run slot_calls (new_slot none) in
    ((take 40 (text "a") 2 s).1 ≡ given 60000 40 (text "a") 2 (payload slot_calls none))
    × (s.hits ≤ s.prepared)
run-take_example = run-take none slot_calls 40 2 (text "a")

got : given 60000 40 (text "a") 2 (payload slot_calls none) ≡ some 200
unfolding payload
got = refl

abbrev racing : ExperimentDefinition
racing = record {
  id = text "race";
  min_samples = 200;
  rollback = text "stop";
  conflicts_with = text "slot" ∷ [];
  requires_host_control = false;
}

abbrev slot : ExperimentDefinition
slot = record {
  id = text "slot";
  min_samples = 200;
  rollback = text "stop";
  conflicts_with = [];
  requires_host_control = false;
}

abbrev both : ExperimentRegistry
both = record {
  entries = (text "race", entry_of racing) ∷ (text "slot", entry_of slot) ∷ [];
  max_concurrent = 2;
}

new_registry-both : new_registry (racing ∷ slot ∷ []) (some 2) ≡ answered both
unfolding new_registry define_all lookup insert trim trim_start trim_end is_space entry_of
new_registry-both = refl

abbrev registry_calls : List Active.Call
registry_calls =
    starts (text "race") false
    ∷ starts (text "slot") false
    ∷ concludes (text "race") true
        (record { note = text "faster"; evidence = live_paired; samples = some 300 })
    ∷ starts (text "slot") false
    ∷ []

new_registry-IsSafe_example : IsSafe 2 (Active.run registry_calls both)
unfolding has_bare_adoption step start conclude active conflict_on is_on lookup insert entry_of
new_registry-IsSafe_example =
    new_registry-IsSafe (racing ∷ slot ∷ []) (some 2) registry_calls both new_registry-both refl
