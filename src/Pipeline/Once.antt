-- ===== src/Pipeline/Once.antt =====
-- process-inbound.ts and job-registry.ts: how often a run of events answers for one job.
use line_deno_bot.Prelude.{
  ℕ, ◌+◌, ◌*◌, ◌≤◌, ◌<◌, ◌≡◌, ◌≢◌, refl, subst, Option, none, some, List, [], ◌∷◌, arith, length,
  All, inl, inr, ◌⊎◌, Bool-cases, if◌then◌else◌,
}
use line_deno_bot.Prelude.Text.{Text, text_eq, text_beq, text_beq_iff}
use line_deno_bot.Allowlist.{SenderAllowlist}
use line_deno_bot.Store.Bounds.{IsValid}
use line_deno_bot.Jobs.{first_response_dispatched}
use line_deno_bot.Jobs.Progress.{AtLeast}
use line_deno_bot.Pipeline.{
  InboundEvent, SendReply, SendCommand, Core, Processed, evaluate, process_inbound,
}
use line_deno_bot.Pipeline.Steps.{process-Grown, evaluate-Grown}
use line_deno_bot.Pipeline.Marks.{Grown-IsValid, Grown-AtLeast, after_gate-sent, after_gate-held}

-- An event with the time at which it is processed, the allowlist then, and the transport's answer.
pub record Arrival : Type 0 where
  pub now : ℕ
  pub allowlist : Option SenderAllowlist
  pub event : InboundEvent
  pub reply : SendReply

sends_of : Text → Option (Text × SendCommand) → ℕ
sends_of k none = 0
sends_of k (some x) = if text_beq x.0 k then 1 else 0

sends_of_zero :
    (k : Text) (sent : Option (Text × SendCommand))
    → ((x : Text × SendCommand) → sent ≡ some x → x.0 ≢ k)
    → sends_of k sent ≡ 0
unfolding sends_of
sends_of_zero k none h = refl
sends_of_zero k (some x) h = ground (arith, h x refl, text_beq_iff x.0 k)

sends_of_cases :
    (k : Text) (sent : Option (Text × SendCommand))
    → (sends_of k sent ≡ 0)
      ⊎ ((x : Text × SendCommand) × (sent ≡ some x) × (x.0 ≡ k) × (sends_of k sent ≡ 1))
unfolding sends_of
sends_of_cases k none = inl refl
sends_of_cases k (some x) = elim (Bool-cases (text_beq x.0 k)) [
  | inl e ↦ inr (x, refl, (text_beq_iff x.0 k).0 e, rw e refl)
  | inr e ↦ inl (rw e refl)
]

module _ (nfc lower : Text → Text) where
  abbrev pub processed : Arrival → Core → Processed
  processed a core = process_inbound nfc lower a.now a.allowlist a.event a.reply core

  -- How many of the commands that the events send are for the job `k`.
  unfoldable pub sends : Text → List Arrival → Core → ℕ
  unfolding sends_of
  sends k [] core = 0
  sends k (a ∷ arrivals) core =
      let p = processed a core in sends_of k p.sent + sends k arrivals p.core

  module _ (a : Arrival) (core : Core) (v : IsValid core.jobs) where
    kept :
        IsValid (processed a core).core.jobs
        × ((processed a core).core.jobs.max_entries ≡ core.jobs.max_entries)
        × ((processed a core).core.jobs.ttl_ms ≡ core.jobs.ttl_ms)
    kept =
        Grown-IsValid a.now 3 core.jobs (processed a core).core.jobs
          (process-Grown a.now nfc lower a.allowlist a.event a.reply core) v

    processed-AtLeast :
        (k : Text) (until n : ℕ)
        → a.now < until
        → until ≤ a.now + core.jobs.ttl_ms
        → n + 6 < core.jobs.max_entries
        → AtLeast first_response_dispatched k until n core.jobs
        → AtLeast first_response_dispatched k until (n + 6) (processed a core).core.jobs
    processed-AtLeast k until n before late room h =
        Grown-AtLeast a.now 3 core.jobs (processed a core).core.jobs
          (process-Grown a.now nfc lower a.allowlist a.event a.reply core) v
          first_response_dispatched k until n before late room h

    processed-held :
        (k : Text) (until n : ℕ)
        → a.now < until
        → until ≤ a.now + core.jobs.ttl_ms
        → n + 6 < core.jobs.max_entries
        → AtLeast first_response_dispatched k until n core.jobs
        → sends_of k (processed a core).sent ≡ 0
    unfolding process_inbound
    processed-held k until n before late room h =
        let gated = evaluate nfc lower a.now a.allowlist a.event core in
        let g = evaluate-Grown a.now nfc lower a.allowlist a.event core in
        let (w, cap, ttl) = Grown-IsValid a.now 1 core.jobs gated.0.jobs g v in
        let h' =
          Grown-AtLeast a.now 1 core.jobs gated.0.jobs g v first_response_dispatched k until n
            before late (omega (arith, room)) h in
        sends_of_zero k _ (λ x s.
          after_gate-held a.now a.event a.reply gated.0 w until gated.1 (n + 2) x k before h' s)

    processed-sent :
        (until : ℕ) (x : Text × SendCommand)
        → 0 < core.jobs.ttl_ms
        → until ≤ a.now + core.jobs.ttl_ms
        → (processed a core).sent ≡ some x
        → AtLeast first_response_dispatched x.0 until 0 (processed a core).core.jobs
    unfolding process_inbound
    processed-sent until x t late s =
        let gated = evaluate nfc lower a.now a.allowlist a.event core in
        let g = evaluate-Grown a.now nfc lower a.allowlist a.event core in
        let (w, cap, ttl) = Grown-IsValid a.now 1 core.jobs gated.0.jobs g v in
        after_gate-sent a.now a.event a.reply gated.0 w until gated.1 x (omega (arith, ttl))
          (omega (arith, ttl)) s

  -- The events come within one lifetime of a job record, `until` being its end.
  abbrev pub InWindow : ℕ → ℕ → List Arrival → Type 0
  InWindow ttl until = All (λ a. (a.now < until) × (until ≤ a.now + ttl))

  sends-held :
      (arrivals : List Arrival) (core : Core) (k : Text) (until n : ℕ)
      → IsValid core.jobs
      → InWindow core.jobs.ttl_ms until arrivals
      → n + 6 * length arrivals < core.jobs.max_entries
      → AtLeast first_response_dispatched k until n core.jobs
      → sends k arrivals core ≡ 0
  unfolding sends
  sends-held [] core k until n v timely room h = refl
  sends-held (a ∷ arrivals) core k until n v timely room h =
      let (w, cap, ttl) = kept a core v in
      let (before, late) = timely.0 in
      let none_now = processed-held a core v k until n before late (omega arith) h in
      let h' = processed-AtLeast a core v k until n before late (omega arith) h in
      let none_later =
        sends-held arrivals (processed a core).core k until (n + 6) w (rw ttl timely.1)
          (omega arith) h' in
      omega arith

  -- Over any events that come within one lifetime of the job records, and so few of them that six
  -- times their number is below the registry's capacity, at most one command is sent for each job.
  pub sends-once :
      (arrivals : List Arrival) (core : Core) (k : Text) (until : ℕ)
      → IsValid core.jobs
      → 0 < core.jobs.ttl_ms
      → InWindow core.jobs.ttl_ms until arrivals
      → 6 * length arrivals < core.jobs.max_entries
      → sends k arrivals core ≤ 1
  unfolding sends
  sends-once [] core k until v t timely room = omega arith
  sends-once (a ∷ arrivals) core k until v t timely room =
      let (w, cap, ttl) = kept a core v in
      let next = (processed a core).core in
      elim (sends_of_cases k (processed a core).sent) [
        | inl zero' ↦
            let rest =
              sends-once arrivals next k until w (omega (arith, ttl)) (rw ttl timely.1)
                (omega arith) in
            omega arith
        | inr (x, s, same, one) ↦
            let h = processed-sent a core v until x t timely.0.1 s in
            let rest =
              sends-held arrivals next k until 0 w (rw ttl timely.1) (omega arith)
                (subst (λ i. AtLeast first_response_dispatched i until 0 next.jobs) same h) in
            omega arith
      ]
