-- ===== src/Pipeline/Steps.antt =====
-- process-inbound.ts: the calls that an event makes on the job registry.
use line_deno_bot.Prelude.{
  ℕ, ◌+◌, ◌≤◌, ◌≡◌, refl, ap, sym, ◌∙◌, Option, none, some, List, [], ◌∷◌, ◌++◌, arith, length,
  length-append, All, inl, inr, ◌⊎◌, Option-cases,
}
use line_deno_bot.Prelude.Text.{Text}
use line_deno_bot.Allowlist.{SenderAllowlist}
use line_deno_bot.Rules.{CompiledRule, match_text}
use line_deno_bot.Jobs.{
  JobRegistry, is_terminal, mark_eligible, mark_dispatched, eligible_trigger,
  first_response_dispatched,
}
use line_deno_bot.Jobs.Progress.{Call, run, step, time_of}
use line_deno_bot.Jobs.Progress
use line_deno_bot.Pipeline.{
  InboundEvent, Core, Passed, GateResult, stop, pass, evaluate, job_key_for, process_inbound,
  launch, after_gate, SendReply,
}

run-append : (cs ds : List Call) (jobs : JobRegistry) → run (cs ++ ds) jobs ≡ run ds (run cs jobs)
unfolding run
run-append [] ds jobs = refl
run-append (c ∷ cs) ds jobs = run-append cs ds (step c jobs)

-- All calls are made at the event's time.
abbrev pub Now : ℕ → List Call → Type 0
Now now = All (λ c. time_of c ≡ now)

Now-append : (now : ℕ) (cs ds : List Call) → Now now cs → Now now ds → Now now (cs ++ ds)
Now-append now [] ds p q = q
Now-append now (c ∷ cs) ds p q = (p.0, Now-append now cs ds p.1 q)

-- The second registry comes of the first by at most `n` calls.
pub record Grown (now n : ℕ) (from to : JobRegistry) : Type 0 where
  pub calls : List Call
  pub made : to ≡ run calls from
  pub few : length calls ≤ n
  pub timed : Now now calls

module _ (now : ℕ) where
  Grown-refl : (jobs : JobRegistry) → Grown now 0 jobs jobs
  unfolding run
  Grown-refl jobs = record { calls = []; made = refl; few = omega arith; timed = tt }

  Grown-one : (c : Call) (jobs : JobRegistry) → time_of c ≡ now → Grown now 1 jobs (step c jobs)
  unfolding run
  Grown-one c jobs e = record { calls = c ∷ []; made = refl; few = omega arith; timed = (e, tt) }

  Grown-trans :
      (m n : ℕ) (a b c : JobRegistry) → Grown now m a b → Grown now n b c → Grown now (m + n) a c
  Grown-trans m n a b c p q = record {
    calls = p.calls ++ q.calls;
    made = q.made ∙ ap (run q.calls) p.made ∙ sym (run-append p.calls q.calls a);
    few = omega (arith, length-append p.calls q.calls, p.few, q.few);
    timed = Now-append now p.calls q.calls p.timed q.timed;
  }

  Grown-more : (m n : ℕ) (a b : JobRegistry) → m ≤ n → Grown now m a b → Grown now n a b
  Grown-more m n a b le p = record {
    calls = p.calls;
    made = p.made;
    few = omega (arith, p.few);
    timed = p.timed;
  }

  module _ (key : Text) (jobs : JobRegistry) where
    is_terminal-Grown : Grown now 1 jobs (is_terminal now key jobs).0
    unfolding step
    is_terminal-Grown = Grown-one (Progress.checks now key) jobs refl

    mark_eligible-Grown : Grown now 1 jobs (mark_eligible now key jobs).0
    unfolding mark_eligible step
    mark_eligible-Grown = Grown-one (Progress.moves now key eligible_trigger) jobs refl

    mark_dispatched-Grown : Grown now 1 jobs (mark_dispatched now key jobs).0
    unfolding mark_dispatched step
    mark_dispatched-Grown = Grown-one (Progress.moves now key first_response_dispatched) jobs refl

  module _ (nfc lower : Text → Text) (allowlist : Option SenderAllowlist) (e : InboundEvent) where
    evaluate-jobs_none :
        (core : Core)
        → (match_text nfc lower core.rules e.content).1 ≡ none
        → (evaluate nfc lower now allowlist e core).0.jobs ≡ core.jobs
    unfolding evaluate
    evaluate-jobs_none core r = ground arith

    evaluate-jobs_some :
        (core : Core) (rule : CompiledRule)
        → (match_text nfc lower core.rules e.content).1 ≡ some rule
        → ((evaluate nfc lower now allowlist e core).0.jobs ≡ core.jobs)
          ⊎ ((evaluate nfc lower now allowlist e core).0.jobs
              ≡ (is_terminal now (job_key_for e rule.id) core.jobs).0)
    unfolding evaluate
    evaluate-jobs_some core rule r = ground arith

    pub evaluate-Grown :
        (core : Core) → Grown now 1 core.jobs (evaluate nfc lower now allowlist e core).0.jobs
    evaluate-Grown core = elim (Option-cases (match_text nfc lower core.rules e.content).1) [
      | inl r ↦
          rw (evaluate-jobs_none core r)
            (Grown-more 0 1 core.jobs core.jobs (omega arith) (Grown-refl core.jobs))
      | inr (rule, r) ↦ elim (evaluate-jobs_some core rule r) [
        | inl q ↦ rw q (Grown-more 0 1 core.jobs core.jobs (omega arith) (Grown-refl core.jobs))
        | inr q ↦ rw q (is_terminal-Grown (job_key_for e rule.id) core.jobs)
      ]
    ]

  module _ (e : InboundEvent) (reply : SendReply) (core : Core) (passed : Passed) where
    launch-jobs :
        let first = (mark_eligible now passed.job_key core.jobs).0 in
        ((launch now e reply core passed).core.jobs ≡ first)
        ⊎ ((launch now e reply core passed).core.jobs
            ≡ (mark_dispatched now passed.job_key first).0)
    unfolding launch
    launch-jobs = ground arith

    launch-Grown : Grown now 2 core.jobs (launch now e reply core passed).core.jobs
    launch-Grown =
        let first = (mark_eligible now passed.job_key core.jobs).0 in
        let second = (mark_dispatched now passed.job_key first).0 in
        let one = mark_eligible-Grown passed.job_key core.jobs in
        let two =
          Grown-trans 1 1 core.jobs first second one (mark_dispatched-Grown passed.job_key first) in
        elim launch-jobs [
          | inl q ↦ rw q (Grown-more 1 2 core.jobs first (omega arith) one)
          | inr q ↦ rw q two
        ]

  after_gate-Grown :
      (e : InboundEvent) (reply : SendReply) (core : Core) (gate : GateResult Passed)
      → Grown now 2 core.jobs (after_gate now e reply core gate).core.jobs
  unfolding after_gate
  after_gate-Grown e reply core (stop r) =
      Grown-more 0 2 core.jobs core.jobs (omega arith) (Grown-refl core.jobs)
  after_gate-Grown e reply core (pass passed) = launch-Grown e reply core passed

  -- An event makes at most three calls on the registry, all at its own time.
  pub process-Grown :
      (nfc lower : Text → Text) (allowlist : Option SenderAllowlist) (e : InboundEvent)
      (reply : SendReply) (core : Core)
      → Grown now 3 core.jobs (process_inbound nfc lower now allowlist e reply core).core.jobs
  unfolding process_inbound
  process-Grown nfc lower allowlist e reply core =
      let gated = evaluate nfc lower now allowlist e core in
      Grown-trans 1 2 core.jobs gated.0.jobs (after_gate now e reply gated.0 gated.1).core.jobs
        (evaluate-Grown nfc lower allowlist e core) (after_gate-Grown e reply gated.0 gated.1)
