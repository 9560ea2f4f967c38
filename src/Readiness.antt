-- ===== src/Readiness.antt =====
-- apps/worker/src/readiness/state.ts: the worker's readiness state machine. The clock is the
-- monotonic one, read once for a call; the log line of a transition is not modelled.
mod Tests
pub mod Armed
use line_deno_bot.Prelude.{
  ℕ, zero, suc, ◌+◌, ◌-◌, Bool, true, false, not, ◌&&◌, ◌||◌, Option, none, some, List, [], ◌∷◌,
  if◌then◌else◌, ltb, get_elem?, get_or,
}
use line_deno_bot.Prelude.Text.{Text}

pub data ReadinessState : Type 0 where
  starting authenticated syncing warming armed degraded repair : ReadinessState

abbrev pub state_beq : ReadinessState → ReadinessState → Bool
state_beq starting starting = true
state_beq authenticated authenticated = true
state_beq syncing syncing = true
state_beq warming warming = true
state_beq armed armed = true
state_beq degraded degraded = true
state_beq repair repair = true
state_beq _ _ = false

pub record ReadinessChecks : Type 0 where
  pub session_valid : Bool
  pub receiver_subscribed : Bool
  pub rules_loaded : Bool
  pub sender_ready : Bool
  pub backlog_drained : Bool

-- `Partial<ReadinessChecks>`.
pub record Patch : Type 0 where
  pub session_valid : Option Bool
  pub receiver_subscribed : Option Bool
  pub rules_loaded : Option Bool
  pub sender_ready : Option Bool
  pub backlog_drained : Option Bool

abbrev pub all_false : ReadinessChecks
all_false = record {
  session_valid = false;
  receiver_subscribed = false;
  rules_loaded = false;
  sender_ready = false;
  backlog_drained = false;
}

abbrev pub ladder : List ReadinessState
ladder = starting ∷ authenticated ∷ syncing ∷ warming ∷ armed ∷ []

pub record ReadinessFsm : Type 0 where
  pub state : ReadinessState
  pub checks : ReadinessChecks
  pub reason : Option Text
  pub since : ℕ

-- `snapshot` copies these fields.
unfoldable pub new_fsm : ℕ → ReadinessFsm
new_fsm now = record { state = starting; checks = all_false; reason = none; since = now }

unfoldable pub is_armed : ReadinessFsm → Bool
is_armed fsm = state_beq fsm.state armed

abbrev pub patched : Patch → ReadinessChecks → ReadinessChecks
patched patch c = record {
  session_valid = get_or patch.session_valid c.session_valid;
  receiver_subscribed = get_or patch.receiver_subscribed c.receiver_subscribed;
  rules_loaded = get_or patch.rules_loaded c.rules_loaded;
  sender_ready = get_or patch.sender_ready c.sender_ready;
  backlog_drained = get_or patch.backlog_drained c.backlog_drained;
}

-- `LADDER.indexOf`; `none` is -1.
index_from : ReadinessState → List ReadinessState → ℕ → Option ℕ
index_from s [] i = none
index_from s (t ∷ ts) i = if state_beq t s then some i else index_from s ts (suc i)

pub index_of : ReadinessState → Option ℕ
unfolding index_from
index_of s = index_from s ladder 0

pub move : ℕ → ReadinessState → Option Text → ReadinessFsm → ReadinessFsm
move now to reason fsm = record fsm { state = to; reason = reason; since = now }

abbrev climb_to :
    ℕ
    → ReadinessState
    → (ReadinessFsm → ReadinessFsm)
    → Option ReadinessState
    → ReadinessFsm
    → ReadinessFsm
climb_to now target again none fsm = fsm
climb_to now target again (some next) fsm =
    let fsm' = move now next none fsm in if state_beq next target then fsm' else again fsm'

-- The `there` of a target that is not on the ladder, or the `here` of such a state, is -1.
advance_step :
    ℕ
    → ReadinessState
    → (ReadinessFsm → ReadinessFsm)
    → Option ℕ
    → Option ℕ
    → ReadinessFsm
    → ReadinessFsm
advance_step now target again none there fsm = fsm
advance_step now target again (some here) none fsm = fsm
advance_step now target again (some here) (some there) fsm =
    if ltb there here
    then move now target none fsm
    else climb_to now target again (get_elem? ladder (suc here)) fsm

-- `#advanceToward`, on fuel for the rungs that it climbs.
pub advance_toward : ℕ → ℕ → ReadinessState → ReadinessFsm → ReadinessFsm
unfolding advance_step index_of
advance_toward zero now target fsm = fsm
advance_toward (suc fuel) now target fsm =
    advance_step now target (advance_toward fuel now target) (index_of fsm.state) (index_of target)
      fsm

-- The state that the checks call for.
unfoldable pub target_of : ReadinessChecks → ReadinessState
target_of c =
    if not c.session_valid
    then starting
    else if not c.receiver_subscribed || not c.backlog_drained
    then syncing
    else if not c.rules_loaded || not c.sender_ready
    then warming
    else armed

-- The ladder has five rungs, so five are enough.
recompute : ℕ → ReadinessFsm → ReadinessFsm
unfolding advance_toward target_of
recompute now fsm =
    let target = target_of fsm.checks in
    if state_beq fsm.state degraded
    then fsm
    else if state_beq target fsm.state
    then fsm
    else advance_toward 5 now target fsm

unfoldable pub set : ℕ → Patch → ReadinessFsm → ReadinessFsm
unfolding recompute
set now patch fsm = recompute now (record fsm { checks = patched patch fsm.checks })

unfoldable pub degrade : ℕ → Text → ReadinessFsm → ReadinessFsm
unfolding move
degrade now reason fsm =
    if state_beq fsm.state degraded then fsm else move now degraded (some reason) fsm

unfoldable pub begin_repair : ℕ → ReadinessFsm → ReadinessFsm
unfolding move
begin_repair now fsm =
    if not (state_beq fsm.state degraded) then fsm else move now repair fsm.reason fsm
