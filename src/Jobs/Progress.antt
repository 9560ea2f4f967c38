-- ===== src/Jobs/Progress.antt =====
-- job-registry.ts over a run of calls: while a record lives and is not evicted, its job only moves
-- forward.
use line_deno_bot.Prelude.{
  ℕ, ◌+◌, ◌*◌, ◌≤◌, ◌<◌, ◌≡◌, refl, ◌≢◌, inl, inr, false, List, [], ◌∷◌, arith, length, All,
  Bool-cases, Option-cases,
}
use line_deno_bot.Prelude.Text.{Text, text_eq, text_beq, text_beq_iff}
use line_deno_bot.Store.{Entry, BoundedTtlMap, live}
use line_deno_bot.Store
use line_deno_bot.Store.Bounds.{IsValid, live-IsValid, set-IsValid}
use line_deno_bot.Store.Held.{
  IsHeld, live-options, live-IsHeld_other, live-held, set-IsHeld_other, set-IsHeld_self,
  IsHeld-near,
}
use line_deno_bot.Jobs.{
  JobState, waiting, eligible_trigger, first_response_dispatched, allowed, JobRecord, JobRegistry,
  illegal, get, ensure, is_terminal, transition, state_beq, mark_eligible, JobOutcome, state_of,
}
use line_deno_bot.Jobs.Lifecycle.{
  Next, trigger, dispatch, conclude, is_allowed, allowed-Next, ensure-IsValid, ensure-options,
}

-- The states that a job in state `s` can come to.
pub data Reaches (s : JobState) : JobState → Type 0 where
  here : Reaches s s
  next : {t u : JobState} → Reaches s t → Next t u → Reaches s u

-- The record of `k` is at `s` or past it.
abbrev pub AtLeast : JobState → Text → ℕ → ℕ → JobRegistry → Type 0
AtLeast s = IsHeld (λ job. Reaches s job.state)

module _ (now : ℕ) (key : Text) (jobs : JobRegistry) where
  ensure-AtLeast_other :
      (s : JobState) (k : Text) (until n : ℕ)
      → key ≢ k
      → IsValid jobs
      → n + 1 < jobs.max_entries
      → AtLeast s k until n jobs
      → AtLeast s k until (n + 1) (ensure now key jobs).0
  unfolding ensure Store.get
  ensure-AtLeast_other s k until n other v room h =
      let read = live-IsHeld_other now key jobs _ k until n other h in
      let jobs' = (live now key jobs).0 in
      elim (Option-cases (live now key jobs).1) [
        | inl e ↦
            rw (e, ensure, Store.get)
              (set-IsHeld_other now key jobs'
                (record { key = key; state = waiting; created_at = now; updated_at = now }) _ k
                until n other (live-IsValid now key jobs v) read
                (omega (arith, (live-options now key jobs).0)))
        | inr (x, e) ↦
            rw (e, ensure, Store.get) (IsHeld-near _ k until n (n + 1) jobs' (omega arith) read)
      ]

  pub transition-IsValid : (to : JobState) → IsValid jobs → IsValid (transition now key to jobs).0
  unfolding transition
  transition-IsValid to v =
      let w = ensure-IsValid now key jobs v in
      let job : JobRecord = record (ensure now key jobs).1 { state = to; updated_at = now } in
      ground (arith, w, set-IsValid now key job (ensure now key jobs).0 w)

  pub transition-options :
      (to : JobState)
      → ((transition now key to jobs).0.max_entries ≡ jobs.max_entries)
        × ((transition now key to jobs).0.ttl_ms ≡ jobs.ttl_ms)
  unfolding transition Store.set
  transition-options to = ground (arith, ensure-options now key jobs)

  transition-AtLeast_other :
      (to s : JobState) (k : Text) (until n : ℕ)
      → key ≢ k
      → IsValid jobs
      → n + 2 < jobs.max_entries
      → AtLeast s k until n jobs
      → AtLeast s k until (n + 2) (transition now key to jobs).0
  unfolding transition
  transition-AtLeast_other to s k until n other v room h =
      let jobs' = (ensure now key jobs).0 in
      let job : JobRecord = record (ensure now key jobs).1 { state = to; updated_at = now } in
      let kept = ensure-AtLeast_other s k until n other v (omega arith) h in
      let same = IsHeld-near _ k until (n + 1) (n + 2) jobs' (omega arith) kept in
      let written =
        IsHeld-near _ k until (n + 1 + 1) (n + 2) (Store.set now key job jobs') (omega arith) (
          set-IsHeld_other now key jobs' job _ k until (n + 1) other (ensure-IsValid now key jobs v)
            kept (omega (arith, (ensure-options now key jobs).0))) in
      elim (Bool-cases (state_beq (ensure now key jobs).1.state to)) [
        | inl e ↦ rw (e, transition) same
        | inr e ↦ elim (Bool-cases (is_allowed (ensure now key jobs).1.state to)) [
          | inl f ↦ rw (e, f, transition) written
          | inr f ↦ rw (e, f, transition) same
        ]
      ]

  -- A call for a held key finds its record.
  ensure-held :
      (s : JobState) (until n : ℕ) (h : AtLeast s key until n jobs)
      → now < until
      → ensure now key jobs ≡ (jobs, h.entry.value)
  unfolding ensure Store.get
  ensure-held s until n h before = rw (live-held now key jobs _ until n h before)

  transition-AtLeast_self :
      (to s : JobState) (until n : ℕ)
      → until ≤ now + jobs.ttl_ms
      → now < until
      → IsValid jobs
      → AtLeast s key until n jobs
      → AtLeast s key until n (transition now key to jobs).0
  unfolding transition
  transition-AtLeast_self to s until n late before v h =
      let found = ensure-held s until n h before in
      let current = h.entry.value in
      let job : JobRecord = record current { state = to; updated_at = now } in
      elim (Bool-cases (state_beq current.state to)) [
        | inl e ↦ rw (found, transition, e) h
        | inr e ↦ elim (Bool-cases (is_allowed current.state to)) [
          | inl f ↦
              rw (found, transition, e, f)
                (IsHeld-near _ key until 0 n (Store.set now key job jobs) (omega arith) (
                  set-IsHeld_self now key jobs job _ until late v
                    (next h.holds (allowed-Next _ _ f))))
          | inr f ↦ rw (found, transition, e, f) h
        ]
      ]

pub data Call : Type 0 where
  gets checks ensures : ℕ → Text → Call
  moves : ℕ → Text → JobState → Call

unfoldable pub step : Call → JobRegistry → JobRegistry
step (gets now key) jobs = (get now key jobs).0
step (checks now key) jobs = (is_terminal now key jobs).0
step (ensures now key) jobs = (ensure now key jobs).0
step (moves now key to) jobs = (transition now key to jobs).0

unfoldable pub run : List Call → JobRegistry → JobRegistry
unfolding step
run [] jobs = jobs
run (c ∷ cs) jobs = run cs (step c jobs)

abbrev pub time_of : Call → ℕ
time_of (gets now key) = now
time_of (checks now key) = now
time_of (ensures now key) = now
time_of (moves now key to) = now

pub step-IsValid :
    (c : Call) (jobs : JobRegistry)
    → IsValid jobs
    → IsValid (step c jobs)
      × ((step c jobs).max_entries ≡ jobs.max_entries)
      × ((step c jobs).ttl_ms ≡ jobs.ttl_ms)
unfolding step get is_terminal Store.get
step-IsValid (gets now key) jobs v =
    (live-IsValid now key jobs v, (live-options now key jobs).0, (live-options now key jobs).1)
step-IsValid (checks now key) jobs v =
    (live-IsValid now key jobs v, (live-options now key jobs).0, (live-options now key jobs).1)
step-IsValid (ensures now key) jobs v = (
  ensure-IsValid now key jobs v,
  (ensure-options now key jobs).0,
  (ensure-options now key jobs).1,
)
step-IsValid (moves now key to) jobs v = (
  transition-IsValid now key jobs to v,
  (transition-options now key jobs to).0,
  (transition-options now key jobs to).1,
)

module _ (s : JobState) (k : Text) (until n : ℕ) (jobs : JobRegistry) where
  live-AtLeast :
      (now : ℕ) (key : Text)
      → now < until
      → AtLeast s k until n jobs
      → AtLeast s k until n (live now key jobs).0
  live-AtLeast now key before h = elim (Bool-cases (text_beq key k)) [
    | inl e ↦
        let same : key ≡ k = (text_beq_iff key k).0 e in
        rw (same, live-held now k jobs _ until n h before) h
    | inr e ↦
        live-IsHeld_other now key jobs _ k until n (λ p. ground (arith, (text_beq_iff key k).1 p)) h
  ]

  step-AtLeast :
      (c : Call)
      → time_of c < until
      → until ≤ time_of c + jobs.ttl_ms
      → n + 2 < jobs.max_entries
      → IsValid jobs
      → AtLeast s k until n jobs
      → AtLeast s k until (n + 2) (step c jobs)
  unfolding step get is_terminal Store.get
  step-AtLeast (gets now key) before late room v h =
      IsHeld-near _ k until n (n + 2) _ (omega arith) (live-AtLeast now key before h)
  step-AtLeast (checks now key) before late room v h =
      IsHeld-near _ k until n (n + 2) _ (omega arith) (live-AtLeast now key before h)
  step-AtLeast (ensures now key) before late room v h = elim (Bool-cases (text_beq key k)) [
    | inl e ↦
        let same : key ≡ k = (text_beq_iff key k).0 e in
        rw (same, step, ensure-held now k jobs s until n h before)
          (IsHeld-near _ k until n (n + 2) jobs (omega arith) h)
    | inr e ↦ IsHeld-near _ k until (n + 1) (n + 2) _ (omega arith) (
        ensure-AtLeast_other now key jobs s k until n
          (λ p. ground (arith, (text_beq_iff key k).1 p)) v (omega arith) h)
  ]
  step-AtLeast (moves now key to) before late room v h = elim (Bool-cases (text_beq key k)) [
    | inl e ↦
        let same : key ≡ k = (text_beq_iff key k).0 e in
        rw same (
          IsHeld-near _ k until n (n + 2) (transition now k to jobs).0 (omega arith)
            (transition-AtLeast_self now k jobs to s until n late before v h))
    | inr e ↦
        transition-AtLeast_other now key jobs to s k until n
          (λ p. ground (arith, (text_beq_iff key k).1 p)) v room h
  ]

-- Every call is made before `until`, and not so early that a refreshed record would end before it.
abbrev pub Timely : ℕ → ℕ → List Call → Type 0
Timely ttl until = All (λ c. (time_of c < until) × (until ≤ time_of c + ttl))

-- A record that is at state `s` or past it is still so after any calls on any jobs, as long as it
-- has not expired and twice as many calls as were made fit in the registry.
pub run-AtLeast :
    (cs : List Call) (s : JobState) (k : Text) (until n : ℕ) (jobs : JobRegistry)
    → IsValid jobs
    → AtLeast s k until n jobs
    → Timely jobs.ttl_ms until cs
    → n + 2 * length cs < jobs.max_entries
    → AtLeast s k until (n + 2 * length cs) (run cs jobs)
unfolding run
run-AtLeast [] s k until n jobs v h timely room =
    IsHeld-near _ k until n (n + 2 * 0) jobs (omega arith) h
run-AtLeast (c ∷ cs) s k until n jobs v h timely room =
    let (v', cap, ttl) = step-IsValid c jobs v in
    let h' = step-AtLeast s k until n jobs c timely.0.0 timely.0.1 (omega arith) v h in
    IsHeld-near _ k until (n + 2 + 2 * length cs) (n + 2 * length (c ∷ cs)) (run cs (step c jobs))
      (omega arith)
      (run-AtLeast cs s k until (n + 2) (step c jobs) v' h' (rw ttl timely.1) (omega arith))

past_dispatched :
    {s : JobState}
    → Reaches first_response_dispatched s
    → (state_beq s eligible_trigger ≡ false) × (is_allowed s eligible_trigger ≡ false)
unfolding allowed
past_dispatched here = (refl, refl)
past_dispatched (next r trigger) = absurd (ground (arith, past_dispatched r))
past_dispatched (next r dispatch) = (refl, refl)
past_dispatched (next r (conclude o e)) = rw e (concluded o)
  where
    concluded :
        (o : JobOutcome)
        → (state_beq (state_of o) eligible_trigger ≡ false)
          × (is_allowed (state_of o) eligible_trigger ≡ false)
    concluded JobOutcome.won = (refl, refl)
    concluded JobOutcome.lost = (refl, refl)
    concluded JobOutcome.unknown = (refl, refl)

-- A job that has been dispatched is never made eligible again while its record is held: the call
-- throws, and the registry stays as it was.
pub mark_eligible-dispatched :
    (now : ℕ) (key : Text) (until n : ℕ) (jobs : JobRegistry)
    (h : AtLeast first_response_dispatched key until n jobs)
    → now < until
    → mark_eligible now key jobs ≡ (jobs, illegal h.entry.value.state eligible_trigger)
unfolding mark_eligible transition
mark_eligible-dispatched now key until n jobs h before =
    let (other, refused) = past_dispatched h.holds in
    rw (
      ensure-held now key jobs first_response_dispatched until n h before,
      transition,
      other,
      refused,
    )
