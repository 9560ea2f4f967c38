-- ===== src/Recovery.antt =====
-- apps/worker/src/monitoring/recovery.ts: the planner of the recovery ladder. Of an alert
-- (apps/worker/src/monitoring/alerts.ts) the planner reads the kind and the message. The monotonic
-- clock is read once for an evaluation; log lines are not modelled.
mod Tests
pub mod Earned
pub mod Ladder
pub mod Actions
use line_deno_bot.Prelude.{
  ℕ, zero, suc, ◌+◌, ◌-◌, Bool, true, false, not, ◌&&◌, ◌||◌, Option, none, some, List, [], ◌∷◌,
  ◌++◌, if◌then◌else◌, ltb, get_elem?, get_or, filter, ◌==◌,
}
use line_deno_bot.Prelude.Text.{Text, text}

pub data AlertKind : Type 0 where
  readiness_loss missed_events first_response_regression line_trigger_reply_budget : AlertKind
  failure_rate no_lane_available : AlertKind

pub record Alert : Type 0 where
  pub kind : AlertKind
  pub message : Text

pub data RecoveryRung : Type 0 where
  no_rung avoid_lane reconnect_lane rearm_poll reconnect_session restart_worker : RecoveryRung

abbrev pub recovery_rungs : List RecoveryRung
recovery_rungs =
    no_rung ∷ avoid_lane ∷ reconnect_lane ∷ rearm_poll ∷ reconnect_session ∷ restart_worker ∷ []

abbrev rung_name : RecoveryRung → Text
rung_name no_rung = text "none"
rung_name avoid_lane = text "avoid-lane"
rung_name reconnect_lane = text "reconnect-lane"
rung_name rearm_poll = text "rearm-poll"
rung_name reconnect_session = text "reconnect-session"
rung_name restart_worker = text "restart-worker"

-- `RECOVERY_RUNGS.indexOf`.
abbrev pub rung_index : RecoveryRung → ℕ
rung_index no_rung = 0
rung_index avoid_lane = 1
rung_index reconnect_lane = 2
rung_index rearm_poll = 3
rung_index reconnect_session = 4
rung_index restart_worker = 5

-- `OBSERVATION_ONLY`.
abbrev pub observation_only : AlertKind → Bool
observation_only line_trigger_reply_budget = true
observation_only _ = false

-- The table ENTRY_RUNG, which has no entry for the kind that is only observed.
abbrev pub entry_rung : AlertKind → Option RecoveryRung
entry_rung first_response_regression = some avoid_lane
entry_rung no_lane_available = some reconnect_lane
entry_rung missed_events = some rearm_poll
entry_rung failure_rate = some reconnect_lane
entry_rung readiness_loss = some reconnect_session
entry_rung line_trigger_reply_budget = none

pub record RecoveryAction : Type 0 where
  pub rung : RecoveryRung
  pub reason : Text
  pub step : ℕ

pub record RecoveryOptions : Type 0 where
  pub cooldown_ms : Option ℕ
  pub clear_after_clean_checks : Option ℕ
  pub ceiling : Option RecoveryRung

pub record RecoveryPlanner : Type 0 where
  pub cooldown_ms : ℕ
  pub clear_after : ℕ
  pub ceiling_index : ℕ
  pub rung : RecoveryRung
  pub entered_mono : ℕ
  pub clean_checks : ℕ
  pub step : ℕ

unfoldable pub new_planner : RecoveryOptions → RecoveryPlanner
new_planner options = record {
  cooldown_ms = get_or options.cooldown_ms 120000;
  clear_after = get_or options.clear_after_clean_checks 3;
  ceiling_index = rung_index (get_or options.ceiling restart_worker);
  rung = no_rung;
  entered_mono = 0;
  clean_checks = 0;
  step = 0;
}

unfoldable pub on_rung_ms : ℕ → RecoveryPlanner → ℕ
on_rung_ms now p = if rung_index p.rung == 0 then 0 else now - p.entered_mono

unfoldable pub reset : RecoveryPlanner → RecoveryPlanner
reset p =
    if rung_index p.rung == 0 then p else record p { rung = no_rung; step = 0; clean_checks = 0 }

pub observe_clean : RecoveryPlanner → RecoveryPlanner × Option RecoveryAction
unfolding reset
observe_clean p =
    let counted : RecoveryPlanner = record p { clean_checks = p.clean_checks + 1 } in
    if rung_index p.rung == 0
    then (p, none)
    else if ltb counted.clean_checks p.clear_after
    then (counted, none)
    else (reset counted, some (record { rung = no_rung; reason = text "recovered"; step = 0 }))

pub enter : ℕ → RecoveryRung → Text → RecoveryPlanner → RecoveryPlanner × Option RecoveryAction
enter now rung reason p = (
  record p { rung = rung; entered_mono = now; step = p.step + 1; clean_checks = 0 },
  some (record { rung = rung; reason = reason; step = p.step + 1 }),
)

-- The actionable alerts, each with its entry rung. The kinds that are only observed are those
-- without one.
abbrev with_rung :
    Option RecoveryRung → Text → List (RecoveryRung × Text) → List (RecoveryRung × Text)
with_rung none message rest = rest
with_rung (some rung) message rest = (rung, message) ∷ rest

unfoldable pub actionable : List Alert → List (RecoveryRung × Text)
actionable [] = []
actionable (alert ∷ alerts) =
    let rest = actionable alerts in
    if observation_only alert.kind
    then rest
    else with_rung (entry_rung alert.kind) alert.message rest

abbrev higher : RecoveryRung × Text → Option (RecoveryRung × Text) → RecoveryRung × Text
higher a none = a
higher a (some b) = if ltb (rung_index a.0) (rung_index b.0) then b else a

-- The head of the stable sort by falling rung: the first alert of the highest rung.
unfoldable pub worst : List (RecoveryRung × Text) → Option (RecoveryRung × Text)
worst [] = none
worst (a ∷ alerts) = some (higher a (worst alerts))

climb : ℕ → Text → RecoveryPlanner → Option RecoveryRung → RecoveryPlanner × Option RecoveryAction
unfolding enter
climb now message p none = (p, none)
climb now message p (some up) =
    if ltb p.ceiling_index (rung_index up)
    then (p, none)
    else enter now up (message ++ text " (still failing after " ++ rung_name p.rung ++ text ")") p

pub respond :
    ℕ → RecoveryPlanner → Option (RecoveryRung × Text) → RecoveryPlanner × Option RecoveryAction
unfolding climb on_rung_ms
respond now p none = (p, none)
respond now p (some (entry, message)) =
    if rung_index p.rung == 0
    then enter now entry message p
    else if ltb (on_rung_ms now p) p.cooldown_ms
    then (p, none)
    else if ltb (rung_index p.rung) (rung_index entry)
    then enter now entry message p
    else climb now message p (get_elem? recovery_rungs (suc (rung_index p.rung)))

unfoldable pub next : ℕ → List Alert → RecoveryPlanner → RecoveryPlanner × Option RecoveryAction
unfolding observe_clean respond
next now [] p = observe_clean p
next now (alert ∷ alerts) p =
    respond now (record p { clean_checks = 0 }) (worst (actionable (alert ∷ alerts)))
