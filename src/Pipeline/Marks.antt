-- ===== src/Pipeline/Marks.antt =====
-- process-inbound.ts and job-registry.ts: what a send leaves of the job that it was for.
use line_deno_bot.Prelude.{
  ℕ, ◌+◌, ◌*◌, ◌≤◌, ◌<◌, ◌≡◌, ◌≢◌, refl, ap, subst, sym, ◌∙◌, some, List, [], ◌∷◌, arith, length,
  inl, inr,
}
use line_deno_bot.Prelude.Text.{Text, text_eq}
use line_deno_bot.Store.Bounds.{IsValid}
use line_deno_bot.Store.Held.{set-IsHeld_self, IsHeld-near}
use line_deno_bot.Jobs.{
  JobRecord, JobRegistry, JobResult, ensure, mark_eligible, mark_dispatched, transition, waiting,
  eligible_trigger, first_response_dispatched, allowed, state_beq, state_beq_iff,
}
use line_deno_bot.Jobs
use line_deno_bot.Jobs.Lifecycle.{state_at, transition-outcome, ensure-IsValid, ensure-options}
use line_deno_bot.Jobs.Progress.{
  AtLeast, here, run, step-IsValid, run-AtLeast, mark_eligible-dispatched, transition-IsValid,
  transition-options, Timely, Call, step,
}
use line_deno_bot.Pipeline.{
  InboundEvent, SendReply, SendCommand, Core, Passed, GateResult, stop, pass, launch, after_gate,
}
use line_deno_bot.Pipeline.Steps.{Grown, Now}

run-IsValid :
    (cs : List Call) (jobs : JobRegistry)
    → IsValid jobs
    → IsValid (run cs jobs)
      × ((run cs jobs).max_entries ≡ jobs.max_entries)
      × ((run cs jobs).ttl_ms ≡ jobs.ttl_ms)
unfolding run
run-IsValid [] jobs v = (v, refl, refl)
run-IsValid (c ∷ cs) jobs v =
    let (w, cap, ttl) = step-IsValid c jobs v in
    let (w', cap', ttl') = run-IsValid cs (step c jobs) w in (w', cap' ∙ cap, ttl' ∙ ttl)

Now-Timely :
    (now ttl until : ℕ) (cs : List Call)
    → now < until
    → until ≤ now + ttl
    → Now now cs
    → Timely ttl until cs
Now-Timely now ttl until [] before late t = tt
Now-Timely now ttl until (c ∷ cs) before late t =
    ((omega (arith, t.0), omega (arith, t.0)), Now-Timely now ttl until cs before late t.1)

module _ (now count : ℕ) (a b : JobRegistry) (g : Grown now count a b) (v : IsValid a) where
  pub Grown-IsValid : IsValid b × (b.max_entries ≡ a.max_entries) × (b.ttl_ms ≡ a.ttl_ms)
  Grown-IsValid = rw g.made (run-IsValid g.calls a v)

  pub Grown-AtLeast :
      (s : Jobs.JobState) (k : Text) (until n : ℕ)
      → now < until
      → until ≤ now + a.ttl_ms
      → n + 2 * count < a.max_entries
      → AtLeast s k until n a
      → AtLeast s k until (n + 2 * count) b
  Grown-AtLeast s k until n before late room h =
      let timely = Now-Timely now a.ttl_ms until g.calls before late g.timed in
      let kept = run-AtLeast g.calls s k until n a v h timely (omega (arith, g.few)) in
      rw g.made (
        IsHeld-near _ k until (n + 2 * length g.calls) (n + 2 * count) (run g.calls a)
          (omega (arith, g.few)) kept)

module _ (now : ℕ) (key : Text) (jobs : JobRegistry) where
  -- A job that the registry has as eligible is held as dispatched by `mark_dispatched`.
  mark_dispatched-AtLeast :
      (until : ℕ)
      → until ≤ now + jobs.ttl_ms
      → IsValid jobs
      → state_at now key jobs ≡ eligible_trigger
      → AtLeast first_response_dispatched key until 0 (mark_dispatched now key jobs).0
  unfolding mark_dispatched transition state_at allowed
  mark_dispatched-AtLeast until late v e =
      let jobs' = (ensure now key jobs).0 in
      let job : JobRecord = record (ensure now key jobs).1 {
        state = first_response_dispatched;
        updated_at = now;
      } in
      let opts = ensure-options now key jobs in
      rw (e, transition, allowed)
        (set-IsHeld_self now key jobs' job _ until (omega (arith, opts.1))
          (ensure-IsValid now key jobs v) here)

mark_eligible-kept :
    (now : ℕ) (key : Text) (jobs : JobRegistry)
    → IsValid jobs
    → IsValid (mark_eligible now key jobs).0 × ((mark_eligible now key jobs).0.ttl_ms ≡ jobs.ttl_ms)
unfolding mark_eligible
mark_eligible-kept now key jobs v = (
  transition-IsValid now key jobs eligible_trigger v,
  (transition-options now key jobs eligible_trigger).1,
)

module _ (now : ℕ) (e : InboundEvent) (reply : SendReply) (core : Core) (passed : Passed)
    (v : IsValid core.jobs) where
  sent-ok :
      (x : Text × SendCommand)
      → (launch now e reply core passed).sent ≡ some x
      → (x.0 ≡ passed.job_key)
        × ((from to : Jobs.JobState)
            → (mark_eligible now passed.job_key core.jobs).1 ≢ Jobs.illegal from to)
        × ((launch now e reply core passed).core.jobs
            ≡ (mark_dispatched now passed.job_key (mark_eligible now passed.job_key core.jobs).0).0)
  unfolding launch
  sent-ok x s = ground (arith, s)

  eligible-state :
      0 < core.jobs.ttl_ms
      → ((from to : Jobs.JobState)
          → (mark_eligible now passed.job_key core.jobs).1 ≢ Jobs.illegal from to)
      → state_at now passed.job_key (mark_eligible now passed.job_key core.jobs).0
        ≡ eligible_trigger
  unfolding mark_eligible
  eligible-state t allowed' =
      elim (transition-outcome now passed.job_key core.jobs eligible_trigger v t) [
        | inl h ↦ h.1
        | inr h ↦ absurd (allowed' _ _ h.3)
      ]

  -- A send leaves the job dispatched, under the key of the command.
  pub launch-sent :
      (until : ℕ) (x : Text × SendCommand)
      → 0 < core.jobs.ttl_ms
      → until ≤ now + core.jobs.ttl_ms
      → (launch now e reply core passed).sent ≡ some x
      → AtLeast first_response_dispatched x.0 until 0 (launch now e reply core passed).core.jobs
  launch-sent until x t late s =
      let (key, fine, left) = sent-ok x s in
      let first = mark_eligible-kept now passed.job_key core.jobs v in
      rw (key, left)
        (mark_dispatched-AtLeast now passed.job_key (mark_eligible now passed.job_key core.jobs).0
          until (omega (arith, first.1)) first.0 (eligible-state t fine))

  -- A job that is held as dispatched gets no second send.
  pub launch-held :
      (until n : ℕ) (x : Text × SendCommand) (k : Text)
      → now < until
      → AtLeast first_response_dispatched k until n core.jobs
      → (launch now e reply core passed).sent ≡ some x
      → x.0 ≢ k
  launch-held until n x k before h s same =
      let (key, fine, left) = sent-ok x s in
      let h' : AtLeast first_response_dispatched passed.job_key until n core.jobs =
        subst (λ i. AtLeast first_response_dispatched i until n core.jobs) (sym same ∙ key) h in
      fine _ _
        (ap (λ p. p.1) (mark_eligible-dispatched now passed.job_key until n core.jobs h' before))

module _ (now : ℕ) (e : InboundEvent) (reply : SendReply) (core : Core) (v : IsValid core.jobs)
    (until : ℕ) where
  pub after_gate-sent :
      (gate : GateResult Passed) (x : Text × SendCommand)
      → 0 < core.jobs.ttl_ms
      → until ≤ now + core.jobs.ttl_ms
      → (after_gate now e reply core gate).sent ≡ some x
      → AtLeast first_response_dispatched x.0 until 0 (after_gate now e reply core gate).core.jobs
  unfolding after_gate
  after_gate-sent (stop r) x t late s = absurd (ground (arith, s))
  after_gate-sent (pass passed) x t late s = launch-sent now e reply core passed v until x t late s

  pub after_gate-held :
      (gate : GateResult Passed) (n : ℕ) (x : Text × SendCommand) (k : Text)
      → now < until
      → AtLeast first_response_dispatched k until n core.jobs
      → (after_gate now e reply core gate).sent ≡ some x
      → x.0 ≢ k
  unfolding after_gate
  after_gate-held (stop r) n x k before h s = absurd (ground (arith, s))
  after_gate-held (pass passed) n x k before h s =
      launch-held now e reply core passed v until n x k before h s
