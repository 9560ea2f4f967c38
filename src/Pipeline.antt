-- ===== src/Pipeline.antt =====
-- apps/worker/src/pipeline/process-inbound.ts and apps/worker/src/core/core.ts: one inbound event
-- through the gates of the core and, if it clears them, one reply. The event and command types are
-- those of apps/worker/src/adapters/types.ts.
--
-- The gates change the core as they run, so they are a state monad with an early stop. The wall
-- clock is read once for an event. What the transport answers is an argument: `delivered` with its
-- result, or `thrown` at a monotonic time, which also stands for the timeout and for an abort.
mod Tests
pub mod Steps
pub mod Marks
pub mod Once
pub mod Replies
use line_deno_bot.Prelude.{
  ℕ, suc, ◌+◌, ◌-◌, Bool, true, false, not, Option, none, some, List, [], ◌∷◌, ◌++◌, if◌then◌else◌,
  leb, get_or,
}
use line_deno_bot.Prelude.Int.{ℤ, pos, negsuc}
use line_deno_bot.Prelude.Text.{Text, text}
use line_deno_bot.Allowlist.{SenderAllowlist, allow_any_sender}
use line_deno_bot.Claims.{
  Surface, talk, square, oa, surface_name, Claims, incoming_message, claim_reply, claim_room_answer,
}
use line_deno_bot.Jobs.{
  JobState, JobRegistry, JobResult, derive_job_key, is_terminal, mark_eligible, mark_dispatched,
}
use line_deno_bot.Jobs
use line_deno_bot.RateLimit.{RateLimiter, try_admit}
use line_deno_bot.Rules.{CompiledRule, CompiledRuleSet, match_text}

pub data InboundSource : Type 0 where
  push normal_poll dedicated_poll : InboundSource

abbrev pub source_name : InboundSource → Text
source_name push = text "push"
source_name normal_poll = text "normal-poll"
source_name dedicated_poll = text "dedicated-poll"

pub record InboundEvent : Type 0 where
  pub surface : Surface
  pub source : InboundSource
  pub bot_id : Text
  pub owner_id : Text
  pub room_id : Text
  pub sender_id : Text
  pub message_id : Text
  pub content : Text
  pub service_event_time_ms : Option ℕ
  pub observed_at_mono : ℕ
  pub observed_at_wall_ms : Option ℕ
  pub explicit_job_id : Option Text

pub record SendCommand : Type 0 where
  pub surface : Surface
  pub room_id : Text
  pub content : Text

pub record SendResult : Type 0 where
  pub succeeded : Bool
  pub sent_message_id : Option Text
  pub ack_at_mono : ℕ
  pub submitted_at_mono : Option ℕ
  pub sent_service_event_time_ms : Option ℕ

pub data SendReply : Type 0 where
  delivered : SendResult → SendReply
  thrown : ℕ → SendReply

pub data PipelineOutcome : Type 0 where
  dispatched sender_not_allowed deduped_incoming no_rule job_terminal : PipelineOutcome
  deduped_reply deduped_room rate_limited send_failed : PipelineOutcome

pub record PipelineResult : Type 0 where
  pub outcome : PipelineOutcome
  pub job_key : Option Text
  pub rule_id : Option Text
  pub send_result : Option SendResult

-- `CorrectnessCore`, with the rule set and its cache.
pub record Core : Type 0 where
  pub claims : Claims
  pub rate_limiter : RateLimiter
  pub jobs : JobRegistry
  pub rules : CompiledRuleSet

pub record Passed : Type 0 where
  pub rule_id : Text
  pub reply : Text
  pub job_key : Text

pub data GateResult (A : Type 0) : Type 0 where
  stop : PipelineResult → GateResult A
  pass : A → GateResult A

abbrev pub Gate : Type 0 → Type 0
Gate A = Core → Core × GateResult A

infixl 5 ◌>>=◌ ◌>>◌
abbrev pub ◌>>=◌ : {A B : Type 0} → Gate A → (A → Gate B) → Gate B
◌>>=◌ m f core =
    let (core', r) = m core in elim r [ stop result ↦ (core', stop result) | pass a ↦ f a core' ]

abbrev pub ◌>>◌ : {B : Type 0} → Gate (Unit {0}) → Gate B → Gate B
m >> k = m >>= λ _. k

abbrev pub done : {A : Type 0} → A → Gate A
done a core = (core, pass a)

-- `if (!test) return stop(outcome, extra)`.
abbrev pub require : Bool → PipelineResult → Gate (Unit {0})
require true r core = (core, pass tt)
require false r core = (core, stop r)

abbrev pub plain : PipelineOutcome → PipelineResult
plain o = record { outcome = o; job_key = none; rule_id = none; send_result = none }

abbrev pub for_job : PipelineOutcome → Text → Text → PipelineResult
for_job o job_key rule_id = record {
  outcome = o;
  job_key = some job_key;
  rule_id = some rule_id;
  send_result = none;
}

pub claim_incoming : ℕ → InboundEvent → Gate Bool
claim_incoming now e core =
    let (claims, won) = incoming_message now e.bot_id e.surface e.message_id core.claims in
    (record core { claims = claims }, pass won)

pub check_terminal : ℕ → Text → Gate Bool
check_terminal now job_key core =
    let (jobs, terminal) = is_terminal now job_key core.jobs in
    (record core { jobs = jobs }, pass terminal)

pub claim_reply_gate : ℕ → InboundEvent → Text → Gate Bool
claim_reply_gate now e rule_id core =
    let (claims, won) = claim_reply now e.bot_id e.room_id rule_id e.message_id core.claims in
    (record core { claims = claims }, pass won)

pub claim_room_gate : ℕ → InboundEvent → Gate Bool
claim_room_gate now e core =
    let (claims, won) = claim_room_answer now e.owner_id e.room_id e.message_id core.claims in
    (record core { claims = claims }, pass won)

pub admit : ℕ → InboundEvent → Gate Bool
admit now e core =
    let (limiter, admitted) = try_admit now e.bot_id e.room_id core.rate_limiter in
    (record core { rate_limiter = limiter }, pass admitted)

unfoldable pub job_key_for : InboundEvent → Text → Text
job_key_for e rule_id = derive_job_key (record {
  explicit_job_id = e.explicit_job_id;
  source_message_id = e.message_id;
  sender_id = e.sender_id;
  room_id = e.room_id;
  rule_id = rule_id;
})

pub data SpanName : Type 0 where
  code_span send_span local_total : SpanName

pub data CrossHostName : Type 0 where
  inbound line_round_trip : CrossHostName

-- What `report` files with the recorder, in order.
pub data Metric : Type 0 where
  counted : Text → Metric
  span : SpanName → ℕ → Metric
  cross_host : CrossHostName → ℤ → Metric

abbrev pub outcome_name : PipelineOutcome → Text
outcome_name dispatched = text "dispatched"
outcome_name sender_not_allowed = text "sender-not-allowed"
outcome_name deduped_incoming = text "deduped-incoming"
outcome_name no_rule = text "no-rule"
outcome_name job_terminal = text "job-terminal"
outcome_name deduped_reply = text "deduped-reply"
outcome_name deduped_room = text "deduped-room"
outcome_name rate_limited = text "rate-limited"
outcome_name send_failed = text "send-failed"

-- `a - b` of two readings of wall clocks.
abbrev difference : ℕ → ℕ → ℤ
difference a b = if leb b a then pos (a - b) else negsuc (b - a - 1)

cross : CrossHostName → Option ℕ → Option ℕ → List Metric
cross name none later = []
cross name (some trigger) none = []
cross name (some trigger) (some later) = cross_host name (difference later trigger) ∷ []

-- `Math.max(0, a - b)` is the truncated difference.
spans : InboundEvent → SendResult → Option ℕ → List Metric
spans e r none = []
spans e r (some submitted) =
    span code_span (submitted - e.observed_at_mono)
    ∷ span send_span (r.ack_at_mono - submitted)
    ∷ span local_total (r.ack_at_mono - e.observed_at_mono)
    ∷ []

send_metrics : InboundEvent → Option SendResult → List Metric
unfolding spans
send_metrics e none = []
send_metrics e (some r) = counted (text "line_calls") ∷ spans e r r.submitted_at_mono

abbrev sent_time : Option SendResult → Option ℕ
sent_time none = none
sent_time (some r) = r.sent_service_event_time_ms

-- `report`, for a worker that has a recorder.
unfoldable pub report : PipelineOutcome → InboundEvent → Option SendResult → List Metric
unfolding cross send_metrics
report outcome e send_result =
    counted (text "outcome." ++ outcome_name outcome)
    ∷ counted (text "surface." ++ surface_name e.surface)
    ∷ counted (text "source." ++ source_name e.source)
    ∷ (send_metrics e send_result
        ++ (cross inbound e.service_event_time_ms e.observed_at_wall_ms
            ++ cross line_round_trip e.service_event_time_ms (sent_time send_result)))

-- The result of the send, with a rejection of the race as a failed result.
abbrev settled : SendReply → SendResult
settled (delivered r) = r
settled (thrown ack) = record {
  succeeded = false;
  sent_message_id = none;
  ack_at_mono = ack;
  submitted_at_mono = none;
  sent_service_event_time_ms = none;
}

unfoldable pub command_for : InboundEvent → Passed → SendCommand
command_for e passed = record { surface = e.surface; room_id = e.room_id; content = passed.reply }

unfoldable pub dispatch : InboundEvent → Passed → SendReply → PipelineResult
dispatch e passed reply =
    let send_result = settled reply in
    record {
      outcome = if send_result.succeeded then dispatched else send_failed;
      job_key = some passed.job_key;
      rule_id = some passed.rule_id;
      send_result = some send_result;
    }

pub data Promised : Type 0 where
  resolved : PipelineResult → Promised
  -- The promise rejects with an IllegalStateTransitionError, with its `from` and `to`.
  rejected : JobState → JobState → Promised

-- What one event leaves: the core, the promise, the command that went to the transport, if any, with
-- the job that it was for, and the metrics.
pub record Processed : Type 0 where
  pub core : Core
  pub promise : Promised
  pub sent : Option (Text × SendCommand)
  pub metrics : List Metric

send_for : InboundEvent → Passed → SendReply → Core → Processed
send_for e passed reply core =
    let result = dispatch e passed reply in
    record {
      core = core;
      promise = resolved result;
      sent = some (passed.job_key, command_for e passed);
      metrics = report result.outcome e result.send_result;
    }

abbrev refused_at : JobState → JobState → Core → Processed
refused_at from to core = record {
  core = core;
  promise = rejected from to;
  sent = none;
  metrics = [];
}

abbrev or_reject : JobResult → Core → Processed → Processed
or_reject (Jobs.ok job) core next = next
or_reject (Jobs.illegal from to) core next = refused_at from to core

-- `markEligible`, `markDispatched` and `dispatch`.
unfoldable pub launch : ℕ → InboundEvent → SendReply → Core → Passed → Processed
unfolding send_for
launch now e reply core passed =
    let (eligible, first) = mark_eligible now passed.job_key core.jobs in
    let core₁ : Core = record core { jobs = eligible } in
    let (marked, second) = mark_dispatched now passed.job_key eligible in
    let core₂ : Core = record core { jobs = marked } in
    or_reject first core₁ (or_reject second core₂ (send_for e passed reply core₂))

abbrev stopped : InboundEvent → PipelineResult → Core → Processed
stopped e r core = record {
  core = core;
  promise = resolved r;
  sent = none;
  metrics = report r.outcome e none;
}

pub after_gate : ℕ → InboundEvent → SendReply → Core → GateResult Passed → Processed
after_gate now e reply core (stop r) = stopped e r core
after_gate now e reply core (pass passed) = launch now e reply core passed

module _ (nfc lower : Text → Text) where
  pub found : CompiledRuleSet × Option CompiledRule → Gate CompiledRule
  found (rules, none) core = (record core { rules = rules }, stop (plain no_rule))
  found (rules, some rule) core = (record core { rules = rules }, pass rule)

  pub match_rule : InboundEvent → Gate CompiledRule
  unfolding found
  match_rule e core = found (match_text nfc lower core.rules e.content) core

  -- `evaluate`: the gates, in their fixed order.
  unfoldable pub evaluate : ℕ → Option SenderAllowlist → InboundEvent → Gate Passed
  unfolding claim_incoming match_rule check_terminal claim_reply_gate claim_room_gate admit
  evaluate now allowlist e = do
    require (get_or allowlist allow_any_sender e.owner_id e.sender_id) (plain sender_not_allowed)
    fresh ← claim_incoming now e
    require fresh (plain deduped_incoming)
    rule ← match_rule e
    let job_key = job_key_for e rule.id
    terminal ← check_terminal now job_key
    require (not terminal) (for_job job_terminal job_key rule.id)
    first_reply ← claim_reply_gate now e rule.id
    require first_reply (for_job deduped_reply job_key rule.id)
    first_in_room ← claim_room_gate now e
    require first_in_room (for_job deduped_room job_key rule.id)
    admitted ← admit now e
    require admitted (for_job rate_limited job_key rule.id)
    done (record { rule_id = rule.id; reply = rule.reply; job_key = job_key })

  unfoldable pub process_inbound :
      ℕ → Option SenderAllowlist → InboundEvent → SendReply → Core → Processed
  unfolding after_gate
  process_inbound now allowlist e reply core =
      let (core', gate) = evaluate now allowlist e core in after_gate now e reply core' gate
