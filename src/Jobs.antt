-- ===== src/Jobs.antt =====
-- packages/contracts/src/job.ts and apps/worker/src/core/jobs: job states, job keys and the registry
-- of jobs seen lately. An operation that throws returns the error, beside the registry it leaves.
mod Tests
pub mod Keys
pub mod Lifecycle
pub mod Progress
use line_deno_bot.Prelude.{
  ℕ, ◌≡◌, Bool, true, false, ◌||◌, ◌↔◌, Option, none, some, List, [], ◌∷◌, ◌++◌, arith,
  if◌then◌else◌, any, Eq,
}
use line_deno_bot.Prelude.Text.{Text, text, trim}
use line_deno_bot.Store.{BoundedTtlMap, create}
use line_deno_bot.Store
use line_deno_bot.Claims.{StoreOptions, claim_key}

pub data JobState : Type 0 where
  waiting eligible_trigger first_response_dispatched won lost unknown : JobState

pub data JobOutcome : Type 0 where
  won lost unknown : JobOutcome

abbrev pub state_of : JobOutcome → JobState
state_of JobOutcome.won = JobState.won
state_of JobOutcome.lost = JobState.lost
state_of JobOutcome.unknown = JobState.unknown

abbrev pub state_beq : JobState → JobState → Bool
state_beq waiting waiting = true
state_beq eligible_trigger eligible_trigger = true
state_beq first_response_dispatched first_response_dispatched = true
state_beq JobState.won JobState.won = true
state_beq JobState.lost JobState.lost = true
state_beq JobState.unknown JobState.unknown = true
state_beq _ _ = false

pub state_beq_iff : (a b : JobState) → (state_beq a b ≡ true) ↔ (a ≡ b)
state_beq_iff a b = ground arith

instance abbrev pub state_eq : Eq JobState
state_eq = record { beq = state_beq; beq_iff = state_beq_iff }

unfoldable pub is_terminal_job_state : JobState → Bool
is_terminal_job_state state =
    state_beq state JobState.won
    || state_beq state JobState.lost
    || state_beq state JobState.unknown

-- The table ALLOWED.
unfoldable pub allowed : JobState → List JobState
allowed waiting = eligible_trigger ∷ []
allowed eligible_trigger = first_response_dispatched ∷ []
allowed first_response_dispatched = JobState.won ∷ JobState.lost ∷ JobState.unknown ∷ []
allowed JobState.won = []
allowed JobState.lost = []
allowed JobState.unknown = []

pub record JobKeyInput : Type 0 where
  pub explicit_job_id : Option Text
  pub source_message_id : Text
  pub sender_id : Text
  pub room_id : Text
  pub rule_id : Text

derived_key : JobKeyInput → Text
derived_key input =
    text "drv:"
    ++ claim_key (input.source_message_id ∷ input.sender_id ∷ input.room_id ∷ input.rule_id ∷ [])

key_of : JobKeyInput → Option Text → Text
unfolding derived_key
key_of input none = derived_key input
key_of input (some []) = derived_key input
key_of input (some (c ∷ explicit)) = text "id:" ++ (c ∷ explicit)

abbrev trimmed : Option Text → Option Text
trimmed none = none
trimmed (some id) = some (trim id)

unfoldable pub derive_job_key : JobKeyInput → Text
unfolding key_of
derive_job_key input = key_of input (trimmed input.explicit_job_id)

pub record JobRecord : Type 0 where
  pub key : Text
  pub state : JobState
  pub created_at : ℕ
  pub updated_at : ℕ

abbrev pub JobRegistry : Type 0
JobRegistry = BoundedTtlMap JobRecord

pub data JobResult : Type 0 where
  ok : JobRecord → JobResult
  -- IllegalStateTransitionError, with its `from` and `to`.
  illegal : JobState → JobState → JobResult

unfoldable pub new_registry : StoreOptions → Option JobRegistry
new_registry o = create o.ttl_ms o.max_entries

unfoldable pub get : ℕ → Text → JobRegistry → JobRegistry × Option JobRecord
get now key jobs = Store.get now key jobs

pub ensured : ℕ → Text → JobRegistry → Option JobRecord → JobRegistry × JobRecord
ensured now key jobs (some existing) = (jobs, existing)
ensured now key jobs none =
    let created : JobRecord = record {
      key = key;
      state = waiting;
      created_at = now;
      updated_at = now;
    } in
    (Store.set now key created jobs, created)

unfoldable pub ensure : ℕ → Text → JobRegistry → JobRegistry × JobRecord
unfolding ensured
ensure now key jobs =
    let (jobs', existing) = Store.get now key jobs in ensured now key jobs' existing

abbrev terminal_record : Option JobRecord → Bool
terminal_record none = false
terminal_record (some job) = is_terminal_job_state job.state

unfoldable pub is_terminal : ℕ → Text → JobRegistry → JobRegistry × Bool
is_terminal now key jobs =
    let (jobs', existing) = Store.get now key jobs in (jobs', terminal_record existing)

unfoldable pub transition : ℕ → Text → JobState → JobRegistry → JobRegistry × JobResult
transition now key to jobs =
    let (jobs', current) = ensure now key jobs in
    let next : JobRecord = record current { state = to; updated_at = now } in
    if state_beq current.state to
    then (jobs', ok current)
    else if any (state_beq to) (allowed current.state)
    then (Store.set now key next jobs', ok next)
    else (jobs', illegal current.state to)

unfoldable pub mark_eligible : ℕ → Text → JobRegistry → JobRegistry × JobResult
unfolding transition
mark_eligible now key jobs = transition now key eligible_trigger jobs

unfoldable pub mark_dispatched : ℕ → Text → JobRegistry → JobRegistry × JobResult
unfolding transition
mark_dispatched now key jobs = transition now key first_response_dispatched jobs

unfoldable pub settle : ℕ → Text → JobOutcome → JobRegistry → JobRegistry × JobResult
unfolding transition
settle now key outcome jobs = transition now key (state_of outcome) jobs

unfoldable pub size : JobRegistry → ℕ
size jobs = Store.size jobs
