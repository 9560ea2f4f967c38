-- ===== src/Jobs/Lifecycle.antt =====
-- job-registry.ts against the lifecycle that its comments draw: waiting, eligible, dispatched, and
-- then one of three outcomes.
use line_deno_bot.Prelude.{
  ℕ, ◌<◌, ◌≡◌, refl, ap, ◌∙◌, ◌≢◌, ◌⊎◌, inl, inr, Bool, true, Option, none, some, arith, any,
  Bool-cases,
}
use line_deno_bot.Prelude.Text.{Text, text_eq}
use line_deno_bot.Store.{Entry, BoundedTtlMap, live}
use line_deno_bot.Store
use line_deno_bot.Store.Bounds.{IsValid, live-IsValid, set-IsValid}
use line_deno_bot.Store.Reads.{get-set_self, get-cases}
use line_deno_bot.Store.Held.{live-options}
use line_deno_bot.Jobs.{
  JobState, waiting, eligible_trigger, first_response_dispatched, JobOutcome, state_of, allowed,
  JobRecord, JobRegistry, ok, illegal, ensure, transition, state_beq, state_beq_iff, state_eq,
}

pub data Next : JobState → JobState → Type 0 where
  trigger : Next waiting eligible_trigger
  dispatch : Next eligible_trigger first_response_dispatched
  conclude : (o : JobOutcome) {s : JobState} → s ≡ state_of o → Next first_response_dispatched s

abbrev pub is_allowed : JobState → JobState → Bool
is_allowed from to = any (state_beq to) (allowed from)

pub allowed-Next : (from to : JobState) → is_allowed from to ≡ true → Next from to
unfolding allowed
allowed-Next waiting eligible_trigger h = trigger
allowed-Next eligible_trigger first_response_dispatched h = dispatch
allowed-Next first_response_dispatched JobState.won h = conclude JobOutcome.won refl
allowed-Next first_response_dispatched JobState.lost h = conclude JobOutcome.lost refl
allowed-Next first_response_dispatched JobState.unknown h = conclude JobOutcome.unknown refl
allowed-Next _ _ h = cc

conclude-allowed : (o : JobOutcome) → is_allowed first_response_dispatched (state_of o) ≡ true
unfolding allowed
conclude-allowed JobOutcome.won = refl
conclude-allowed JobOutcome.lost = refl
conclude-allowed JobOutcome.unknown = refl

Next-allowed : {from to : JobState} → Next from to → is_allowed from to ≡ true
unfolding allowed
Next-allowed trigger = refl
Next-allowed dispatch = refl
Next-allowed (conclude o e) = rw e (conclude-allowed o)

-- The state of a job: that of its live record, or `waiting`.
unfoldable pub state_at : ℕ → Text → JobRegistry → JobState
state_at now key jobs = (ensure now key jobs).1.state

ensure_found :
    (now : ℕ) (key : Text) (jobs : JobRegistry) (job : JobRecord)
    → (Store.get now key jobs).1 ≡ some job
    → (ensure now key jobs).1 ≡ job
unfolding ensure
ensure_found now key jobs job e = ground (arith, e)

-- The registry as it was, when the job has this live record; without one, with a new record that waits.
abbrev pub left_alone : ℕ → Text → JobRegistry → Option JobRecord → JobRegistry
left_alone now key jobs none =
    Store.set now key (record { key = key; state = waiting; created_at = now; updated_at = now })
      (Store.get now key jobs).0
left_alone now key jobs (some job) = jobs

module _ (now : ℕ) (key : Text) (jobs : JobRegistry) where
  pub ensure-IsValid : IsValid jobs → IsValid (ensure now key jobs).0
  unfolding ensure Store.get
  ensure-IsValid v =
      let w = live-IsValid now key jobs v in
      ground (arith, w, set-IsValid now key (ensure now key jobs).1 (live now key jobs).0 w)

  pub ensure-options :
      ((ensure now key jobs).0.max_entries ≡ jobs.max_entries)
      × ((ensure now key jobs).0.ttl_ms ≡ jobs.ttl_ms)
  unfolding ensure Store.get Store.set
  ensure-options = ground (arith, live-options now key jobs)

  get-ensure :
      IsValid jobs
      → 0 < jobs.ttl_ms
      → (Store.get now key (ensure now key jobs).0).1 ≡ some (ensure now key jobs).1
  unfolding ensure
  get-ensure v t = elim (get-cases now key jobs) [
    | inl e ↦
        let created : JobRecord = record {
          key = key;
          state = waiting;
          created_at = now;
          updated_at = now;
        } in
        let w : IsValid (Store.get now key jobs).0 =
          unfold Store.get in live-IsValid now key jobs v in
        let ttl : (Store.get now key jobs).0.ttl_ms ≡ jobs.ttl_ms =
          unfold Store.get in (live-options now key jobs).1 in
        rw (e, ensure, get-set_self now now key created (Store.get now key jobs).0 w, ttl)
          (ground arith)
    | inr (x, e) ↦ rw (e, ensure, e)
  ]

  ensure-left_alone : (ensure now key jobs).0 ≡ left_alone now key jobs (Store.get now key jobs).1
  unfolding ensure
  ensure-left_alone = elim (get-cases now key jobs) [
    | inl e ↦ rw (e, ensure) refl
    | inr (x, e) ↦ rw (e, ensure) refl
  ]

  state_at-ensure :
      IsValid jobs
      → 0 < jobs.ttl_ms
      → state_at now key (ensure now key jobs).0 ≡ state_at now key jobs
  unfolding state_at
  state_at-ensure v t =
      ap (λ job. job.state) (ensure_found now key (ensure now key jobs).0 _ (get-ensure v t))

  state_at-set :
      (job : JobRecord)
      → IsValid jobs
      → 0 < jobs.ttl_ms
      → state_at now key (Store.set now key job (ensure now key jobs).0) ≡ job.state
  unfolding state_at
  state_at-set job v t =
      let jobs' = (ensure now key jobs).0 in
      let opts = ensure-options in
      let e = get-set_self now now key job jobs' (ensure-IsValid v) in
      ap (λ job'. job'.state)
        (ensure_found now key (Store.set now key job jobs') job (ground arith))

  pub transition-outcome :
      (to : JobState)
      → IsValid jobs
      → 0 < jobs.ttl_ms
      → let s = state_at now key jobs in
        let after = transition now key to jobs in
        (((s ≡ to) ⊎ Next s to)
          × (state_at now key after.0 ≡ to)
          × ((job : JobRecord) × (after.1 ≡ ok job) × (job.state ≡ to)))
        ⊎ ((s ≢ to)
            × (¬ Next s to)
            × (state_at now key after.0 ≡ s)
            × (after.1 ≡ illegal s to)
            × (after.0 ≡ left_alone now key jobs (Store.get now key jobs).1))
  unfolding transition
  transition-outcome to v t =
      let current = (ensure now key jobs).1 in
      let next : JobRecord = record current { state = to; updated_at = now } in
      elim (Bool-cases (state_beq current.state to)) [
        | inl same ↦
            let e = (state_beq_iff current.state to).0 same in
            rw (same, transition)
              (inl (
                unfold state_at in inl e,
                state_at-ensure v t ∙ unfold state_at in e,
                (current, refl, e),
              ))
        | inr other ↦ elim (Bool-cases (is_allowed current.state to)) [
          | inl yes' ↦
              rw (other, yes', transition)
                (inl (
                  inr (unfold state_at in allowed-Next _ _ yes'),
                  state_at-set next v t,
                  (next, refl, refl),
                ))
          | inr no' ↦
              rw (other, no', transition)
                (inr (
                  unfold state_at in λ e. ground (arith, (state_beq_iff current.state to).1 e),
                  unfold state_at in λ m. ground (arith, Next-allowed m),
                  state_at-ensure v t,
                  unfold state_at in refl,
                  ensure-left_alone,
                ))
        ]
      ]
