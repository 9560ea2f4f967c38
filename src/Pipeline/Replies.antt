-- ===== src/Pipeline/Replies.antt =====
-- process-inbound.ts: which command an event sends, and when it sends none.
use line_deno_bot.Prelude.{
  ℕ, ◌+◌, ◌≤◌, ◌<◌, ◌≡◌, refl, subst, sym, true, false, Option, none, some, List, [], arith, inl,
  inr, Option-cases, get_or,
}
use line_deno_bot.Prelude.Text.{Text, text_eq}
use line_deno_bot.Allowlist.{SenderAllowlist, allow_any_sender}
use line_deno_bot.Claims.{incoming_message}
use line_deno_bot.RateLimit.{try_admit}
use line_deno_bot.Rules.{
  CompiledRule, CompiledRuleSet, RuleSpec, MatchOptions, match_text, compile_from, rule_set,
}
use line_deno_bot.Rules
use line_deno_bot.Rules.Best.{Best}
use line_deno_bot.Rules.Index.{passes, canonical}
use line_deno_bot.Rules.Cache.{match_text-Best, matched}
use line_deno_bot.Store.Bounds.{IsValid}
use line_deno_bot.Jobs.{JobState, is_terminal, eligible_trigger, first_response_dispatched}
use line_deno_bot.Jobs.Progress.{AtLeast, mark_eligible-dispatched}
use line_deno_bot.Pipeline.{
  InboundEvent, SendReply, SendCommand, Core, Passed, GateResult, stop, pass, rejected, evaluate,
  launch, after_gate, process_inbound, command_for, job_key_for,
}
use line_deno_bot.Pipeline.Steps.{evaluate-Grown}
use line_deno_bot.Pipeline.Marks.{Grown-AtLeast}

module _ (now : ℕ) (e : InboundEvent) (reply : SendReply) where
  launch-command :
      (core : Core) (passed : Passed) (x : Text × SendCommand)
      → (launch now e reply core passed).sent ≡ some x
      → x ≡ (passed.job_key, command_for e passed)
  unfolding launch
  launch-command core passed x s = ground (arith, s)

  launch-refused :
      (core : Core) (passed : Passed) (until n : ℕ)
      → now < until
      → AtLeast first_response_dispatched passed.job_key until n core.jobs
      → let p = launch now e reply core passed in
        (p.sent ≡ none)
        × (p.metrics ≡ [])
        × ((from : JobState) × (p.promise ≡ rejected from eligible_trigger))
  unfolding launch
  launch-refused core passed until n before h =
      rw (mark_eligible-dispatched now passed.job_key until n core.jobs h before)
        (refl, refl, (h.entry.value.state, refl))

  after_gate-command :
      (core : Core) (gate : GateResult Passed) (x : Text × SendCommand)
      → (after_gate now e reply core gate).sent ≡ some x
      → (passed : Passed) × (gate ≡ pass passed) × (x ≡ (passed.job_key, command_for e passed))
  unfolding after_gate
  after_gate-command core (stop r) x s = absurd (ground (arith, s))
  after_gate-command core (pass passed) x s = (passed, refl, launch-command core passed x s)

  module _ (nfc lower : Text → Text) (allowlist : Option SenderAllowlist) (core : Core) where
    evaluate-pass :
        (passed : Passed)
        → (evaluate nfc lower now allowlist e core).1 ≡ pass passed
        → (get_or allowlist allow_any_sender e.owner_id e.sender_id ≡ true)
          × ((incoming_message now e.bot_id e.surface e.message_id core.claims).1 ≡ true)
          × ((try_admit now e.bot_id e.room_id core.rate_limiter).1 ≡ true)
          × ((rule : CompiledRule) × ((match_text nfc lower core.rules e.content).1 ≡ some rule)
              × ((is_terminal now (job_key_for e rule.id) core.jobs).1 ≡ false)
              × (passed ≡ record {
                rule_id = rule.id;
                reply = rule.reply;
                job_key = job_key_for e rule.id;
              }))
    unfolding evaluate
    evaluate-pass passed s = elim (Option-cases (match_text nfc lower core.rules e.content).1) [
      | inl r ↦ absurd (ground arith)
      | inr (rule, r) ↦
          (ground arith, ground arith, ground arith, (rule, r, ground arith, ground arith))
    ]

    -- A command goes out only for an allowed sender, in the room and on the surface of the event,
    -- with the reply of a rule that the event's text passes and that no passing rule beats; the job
    -- is the one that the event and the rule derive, and is not yet terminal. The rules of the core
    -- are those that `specs` compile to, after any texts were matched.
    pub sent-Best :
        (options : MatchOptions) (specs : List RuleSpec) (rules : List CompiledRule)
        (before : List Text) (x : Text × SendCommand)
        → compile_from nfc lower options 0 [] specs ≡ Rules.ok rules
        → core.rules ≡ matched nfc lower (rule_set nfc lower options rules specs) before
        → (process_inbound nfc lower now allowlist e reply core).sent ≡ some x
        → (get_or allowlist allow_any_sender e.owner_id e.sender_id ≡ true)
          × ((rule : CompiledRule) × Best
                (passes nfc lower options (canonical nfc lower options e.content))
                rules
                (some rule)
              × ((is_terminal now (job_key_for e rule.id) core.jobs).1 ≡ false)
              × (x ≡ (
                job_key_for e rule.id,
                record { surface = e.surface; room_id = e.room_id; content = rule.reply },
              )))
    unfolding process_inbound command_for
    sent-Best options specs rules before x compiled same s =
        let gated = evaluate nfc lower now allowlist e core in
        let (passed, p, q) = after_gate-command gated.0 gated.1 x s in
        let (allowed', fresh', admitted', (rule, m, live', shape)) = evaluate-pass passed p in
        let best = match_text-Best nfc lower options specs rules before e.content compiled in
        let chosen =
          subst
            (λ set.
              Best (passes nfc lower options (canonical nfc lower options e.content)) rules
                (match_text nfc lower set e.content).1)
            (sym same) best.0 in
        (allowed', (rule, subst (Best _ rules) m chosen, live', rw (q, shape) refl))

    -- An event that passes every gate for a job which the registry still holds as dispatched sends
    -- nothing and files no metric, and the promise is rejected with the transition error; the job's
    -- record must outlive the call, with room in the registry.
    pub repeated-rejected :
        (passed : Passed) (until n : ℕ)
        → IsValid core.jobs
        → (evaluate nfc lower now allowlist e core).1 ≡ pass passed
        → AtLeast first_response_dispatched passed.job_key until n core.jobs
        → now < until
        → until ≤ now + core.jobs.ttl_ms
        → n + 2 < core.jobs.max_entries
        → let p = process_inbound nfc lower now allowlist e reply core in
          (p.sent ≡ none)
          × (p.metrics ≡ [])
          × ((from : JobState) × (p.promise ≡ rejected from eligible_trigger))
    unfolding process_inbound after_gate
    repeated-rejected passed until n v s h before late room =
        let gated = evaluate nfc lower now allowlist e core in
        let g = evaluate-Grown now nfc lower allowlist e core in
        let h' =
          Grown-AtLeast now 1 core.jobs gated.0.jobs g v first_response_dispatched passed.job_key
            until n before late (omega (arith, room)) h in
        rw s (launch-refused gated.0 passed until (n + 2) before h')
