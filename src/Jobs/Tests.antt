-- ===== src/Jobs/Tests.antt =====
-- Runs of the job registry on small inputs.
use line_deno_bot.Prelude.{◌+◌, ◌*◌, ◌≡◌, ◌↔◌, refl, none, some, List, [], ◌∷◌, arith}
use line_deno_bot.Prelude.Text.{text, text_eq}
use line_deno_bot.Prelude.Dict.{lookup}
use line_deno_bot.Store.Reads.{behind}
use line_deno_bot.Store.Bounds.{IsValid}
use line_deno_bot.Jobs.{
  JobState, first_response_dispatched, JobRegistry, JobKeyInput, derive_job_key,
}
use line_deno_bot.Jobs.Keys.{derive_job_key-race, race, IsPlainInput}
use line_deno_bot.Store
use line_deno_bot.Jobs.Progress.{AtLeast, here, Call, checks, moves, run, run-AtLeast}

abbrev one_job : JobRegistry
one_job = record {
  entries =
      (
        text "j",
        record {
          value = record {
            key = text "j";
            state = first_response_dispatched;
            created_at = 1;
            updated_at = 2;
          };
          expires_at = 12;
        },
      )
      ∷ [];
  ttl_ms = 10;
  max_entries = 20;
}

one_job-IsValid : IsValid one_job
unfolding lookup
one_job-IsValid = record { distinct = (refl, tt); bounded = omega arith; positive = omega arith }

held : AtLeast first_response_dispatched (text "j") 12 0 one_job
unfolding lookup behind
held = record {
  entry = record {
    value = record {
      key = text "j";
      state = first_response_dispatched;
      created_at = 1;
      updated_at = 2;
    };
    expires_at = 12;
  };
  stored = refl;
  lasting = omega arith;
  near = omega arith;
  holds = here;
}

abbrev two_calls : List Call
two_calls = checks 3 (text "k") ∷ moves 4 (text "j") JobState.won ∷ []

run-AtLeast_example :
    AtLeast first_response_dispatched (text "j") 12 (0 + 2 * 2) (run two_calls one_job)
run-AtLeast_example =
    run-AtLeast two_calls first_response_dispatched (text "j") 12 0 one_job one_job-IsValid held
      ((omega arith, omega arith), ((omega arith, omega arith), tt)) (omega arith)

abbrev observed_input : JobKeyInput
observed_input = record {
  explicit_job_id = none;
  source_message_id = text "m";
  sender_id = text "s";
  room_id = text "r";
  rule_id = text "x";
}

abbrev named_input : JobKeyInput
named_input = record observed_input { explicit_job_id = some (text " 7 ") }

plain_parts : IsPlainInput observed_input
plain_parts = (
  (λ e. ground (arith, e), tt),
  (
    (λ e. ground (arith, e), tt),
    ((λ e. ground (arith, e), tt), ((λ e. ground (arith, e), tt), tt)),
  ),
)

derive_job_key-race_example :
    (derive_job_key observed_input ≡ derive_job_key named_input)
    ↔ (race observed_input ≡ race named_input)
derive_job_key-race_example = derive_job_key-race observed_input named_input plain_parts plain_parts
