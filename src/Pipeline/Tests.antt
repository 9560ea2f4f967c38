-- ===== src/Pipeline/Tests.antt =====
-- Runs of the pipeline on small inputs.
use line_deno_bot.Prelude.{
  ℕ, ◌+◌, ◌-◌, ◌*◌, ◌≤◌, ◌<◌, ◌≡◌, ◌≢◌, ◌⊎◌, inl, inr, ◌↔◌, refl, Bool, true, false, not, ◌&&◌,
  Option, none, some, List, [], ◌∷◌, All, In, arith, length, if◌then◌else◌, is_some, get_or, find,
}
use line_deno_bot.Prelude.Text.{Text, text, text_eq}
use line_deno_bot.Prelude.Dict.{lookup}
use line_deno_bot.Claims.{ClaimStore, square}
use line_deno_bot.Store.Bounds.{IsValid}
use line_deno_bot.Store.Reads.{behind}
use line_deno_bot.Allowlist.{allow_any_sender}
use line_deno_bot.Jobs.{
  JobRegistry, JobState, is_terminal, eligible_trigger, first_response_dispatched,
}
use line_deno_bot.Jobs.Progress.{AtLeast, here}
use line_deno_bot.Rules.{CompiledRule, default_match_options, rule_set}
use line_deno_bot.Rules.Best.{Best}
use line_deno_bot.Rules.Index.{passes, canonical}
use line_deno_bot.Rules.Cache.{matched}
use line_deno_bot.Rules.Samples.{same, specs, rules, specs_compile}
use line_deno_bot.Pipeline.{
  InboundEvent, push, SendReply, delivered, SendCommand, Core, Passed, pass, evaluate,
  process_inbound, job_key_for, rejected, command_for,
}
use line_deno_bot.Pipeline.Once.{Arrival, sends, sends-once}
use line_deno_bot.Pipeline.Replies.{sent-Best, repeated-rejected}

abbrev empty_claims : ClaimStore
empty_claims = record { entries = []; ttl_ms = 100; max_entries = 20 }

abbrev core : Core
core = record {
  claims = record { incoming = empty_claims; reply = empty_claims; room_answer = empty_claims };
  rate_limiter = record {
    capacity = 5;
    refill_num = 1;
    refill_den = 1;
    buckets = record { entries = []; ttl_ms = 5000; max_entries = 20 };
  };
  jobs = record { entries = []; ttl_ms = 100; max_entries = 20 };
  rules = rule_set same same default_match_options rules specs;
}

core-IsValid : IsValid core.jobs
core-IsValid = record { distinct = tt; bounded = omega arith; positive = omega arith }

abbrev event : Text → InboundEvent
event message_id = record {
  surface = square;
  source = push;
  bot_id = text "b";
  owner_id = text "o";
  room_id = text "r";
  sender_id = text "s";
  message_id = message_id;
  content = text "hi";
  service_event_time_ms = none;
  observed_at_mono = 1;
  observed_at_wall_ms = none;
  explicit_job_id = some (text "7");
}

abbrev acknowledged : SendReply
acknowledged = delivered (record {
  succeeded = true;
  sent_message_id = none;
  ack_at_mono = 3;
  submitted_at_mono = some 2;
  sent_service_event_time_ms = none;
})

abbrev arrivals : List Arrival
arrivals =
    record { now = 1; allowlist = none; event = event (text "m"); reply = acknowledged }
    ∷ record { now = 5; allowlist = none; event = event (text "n"); reply = acknowledged }
    ∷ []

sends-once_example : sends same same (text "id:7") arrivals core ≤ 1
sends-once_example =
    sends-once same same arrivals core (text "id:7") 101 core-IsValid (omega arith)
      ((omega arith, omega arith), ((omega arith, omega arith), tt)) (omega arith)

abbrev answer : Text × SendCommand
answer = (text "id:7", record { surface = square; room_id = text "r"; content = text "y" })

answer_sent :
    (process_inbound same same 1 none (event (text "m")) acknowledged core).sent ≡ some answer
unfolding process_inbound line_deno_bot.Pipeline.after_gate line_deno_bot.Pipeline.launch
    command_for line_deno_bot.Jobs.allowed line_deno_bot.Jobs.ensure
    line_deno_bot.Jobs.mark_dispatched line_deno_bot.Jobs.mark_eligible
    line_deno_bot.Jobs.transition evaluate line_deno_bot.Claims.incoming_message
    line_deno_bot.Claims.try_claim line_deno_bot.Store.has lookup line_deno_bot.Rules.match_text
    rule_set line_deno_bot.Rules.decide line_deno_bot.Prelude.Dict.insert
    line_deno_bot.Rules.normalize_text line_deno_bot.Rules.build_test
    line_deno_bot.Prelude.Text.includes line_deno_bot.Rules.beats is_terminal
    line_deno_bot.Store.get line_deno_bot.Claims.claim_reply line_deno_bot.Claims.claim_room_answer
    line_deno_bot.Claims.claim_key line_deno_bot.Jobs.derive_job_key
    line_deno_bot.Jobs.is_terminal_job_state job_key_for line_deno_bot.Prelude.Dict.delete
    line_deno_bot.Prelude.Text.is_space line_deno_bot.Prelude.Text.starts_with
    line_deno_bot.Prelude.Text.trim line_deno_bot.Prelude.Text.trim_end
    line_deno_bot.Prelude.Text.trim_start line_deno_bot.RateLimit.refill
    line_deno_bot.RateLimit.room_key line_deno_bot.RateLimit.spend line_deno_bot.RateLimit.try_admit
    line_deno_bot.Rules.collect_candidates line_deno_bot.Rules.index_exact
    line_deno_bot.Rules.remember_match line_deno_bot.Rules.select_best line_deno_bot.Store.live
    line_deno_bot.Store.set
answer_sent = refl

-- The registry still has job `7` as dispatched.
abbrev later_core : Core
later_core = record core {
  jobs = record {
    entries =
        (
          text "id:7",
          record {
            value = record {
              key = text "id:7";
              state = first_response_dispatched;
              created_at = 1;
              updated_at = 1;
            };
            expires_at = 101;
          },
        )
        ∷ [];
    ttl_ms = 100;
    max_entries = 20;
  };
}

later_core-IsValid : IsValid later_core.jobs
unfolding lookup
later_core-IsValid = record { distinct = (refl, tt); bounded = omega arith; positive = omega arith }

later_core-AtLeast : AtLeast first_response_dispatched (text "id:7") 101 0 later_core.jobs
unfolding lookup behind
later_core-AtLeast = record {
  entry = record {
    value = record {
      key = text "id:7";
      state = first_response_dispatched;
      created_at = 1;
      updated_at = 1;
    };
    expires_at = 101;
  };
  stored = refl;
  lasting = omega arith;
  near = omega arith;
  holds = here;
}

abbrev again : Passed
again = record { rule_id = text "b"; reply = text "y"; job_key = text "id:7" }

gates_passed : (evaluate same same 5 none (event (text "n")) later_core).1 ≡ pass again
unfolding evaluate line_deno_bot.Claims.incoming_message line_deno_bot.Claims.try_claim
    line_deno_bot.Store.has lookup line_deno_bot.Rules.match_text rule_set
    line_deno_bot.Rules.decide line_deno_bot.Prelude.Dict.insert line_deno_bot.Rules.normalize_text
    line_deno_bot.Rules.build_test line_deno_bot.Prelude.Text.includes line_deno_bot.Rules.beats
    is_terminal line_deno_bot.Store.get line_deno_bot.Claims.claim_reply
    line_deno_bot.Claims.claim_room_answer line_deno_bot.Claims.claim_key
    line_deno_bot.Jobs.derive_job_key line_deno_bot.Jobs.is_terminal_job_state job_key_for
    line_deno_bot.Prelude.Dict.delete line_deno_bot.Prelude.Text.is_space
    line_deno_bot.Prelude.Text.starts_with line_deno_bot.Prelude.Text.trim
    line_deno_bot.Prelude.Text.trim_end line_deno_bot.Prelude.Text.trim_start
    line_deno_bot.RateLimit.refill line_deno_bot.RateLimit.room_key line_deno_bot.RateLimit.spend
    line_deno_bot.RateLimit.try_admit line_deno_bot.Rules.collect_candidates
    line_deno_bot.Rules.index_exact line_deno_bot.Rules.remember_match
    line_deno_bot.Rules.select_best line_deno_bot.Store.live line_deno_bot.Store.set
gates_passed = refl

repeated-rejected_example :
    let p = process_inbound same same 5 none (event (text "n")) acknowledged later_core in
    (p.sent ≡ none)
    × (p.metrics ≡ [])
    × ((from : JobState) × (p.promise ≡ rejected from eligible_trigger))
repeated-rejected_example =
    repeated-rejected 5 (event (text "n")) acknowledged same same none later_core again 101 0
      later_core-IsValid gates_passed later_core-AtLeast (omega arith) (omega arith) (omega arith)

sent-Best_example :
    (get_or none allow_any_sender (text "o") (text "s") ≡ true)
    × ((rule : CompiledRule) × Best
          (passes same same default_match_options
            (canonical same same default_match_options (text "hi")))
          rules
          (some rule)
        × ((is_terminal 1 (job_key_for (event (text "m")) rule.id) core.jobs).1 ≡ false)
        × (answer ≡ (
          job_key_for (event (text "m")) rule.id,
          record { surface = square; room_id = text "r"; content = rule.reply },
        )))
unfolding matched
sent-Best_example =
    sent-Best 1 (event (text "m")) acknowledged same same none core default_match_options specs
      rules [] answer specs_compile refl answer_sent
