-- ===== src/Alerts.antt =====
-- apps/worker/src/monitoring/alerts.ts: the evaluator of alerts. Of a snapshot it reads what `Snapshot`
-- holds. Rates and factors are fractions, and latencies are counts of one small unit; of an alert the
-- kind, the severity and the duration are modelled, not the numbers and the text that it shows.
pub mod Held
mod Tests
use line_deno_bot.Prelude.{
  ℕ, zero, suc, ◌+◌, ◌-◌, ◌*◌, Bool, true, false, not, ◌&&◌, ◌||◌, Option, none, some, List, [],
  ◌∷◌, ◌++◌, ltb, leb, if◌then◌else◌, get_or, length, take, filter, ◌==◌,
}
use line_deno_bot.Readiness.{ReadinessState, armed, degraded, state_beq}
use line_deno_bot.Recovery.{
  AlertKind, readiness_loss, missed_events, first_response_regression, line_trigger_reply_budget,
  failure_rate, no_lane_available,
}

pub data AlertSeverity : Type 0 where
  info warning critical : AlertSeverity

pub record Alert : Type 0 where
  pub kind : AlertKind
  pub severity : AlertSeverity
  pub for_ms : ℕ

pub record Fraction : Type 0 where
  pub num : ℕ
  pub den : ℕ

pub record AlertThresholds : Type 0 where
  pub readiness_loss_ms : ℕ
  pub missed_event_rate : Fraction
  pub raced_sources : ℕ
  pub regression_factor : Fraction
  pub line_trigger_reply_p95 : ℕ
  pub failure_rate : Fraction
  pub min_duration_ms : ℕ
  pub min_samples : ℕ

-- DEFAULT_THRESHOLDS, with latencies in milliseconds.
abbrev pub default_thresholds : AlertThresholds
default_thresholds = record {
  readiness_loss_ms = 30000;
  missed_event_rate = record { num = 1; den = 5 };
  raced_sources = 1;
  regression_factor = record { num = 3; den = 2 };
  line_trigger_reply_p95 = 30;
  failure_rate = record { num = 1; den = 20 };
  min_duration_ms = 60000;
  min_samples = 20;
}

pub data Badge : Type 0 where
  hot standby other_badge : Badge

pub record Latency : Type 0 where
  pub window : ℕ
  pub p95 : ℕ

pub record Snapshot : Type 0 where
  pub generated_at_ms : ℕ
  pub readiness : Option ReadinessState
  pub race_seen : Option (List ℕ)
  pub send : Option Latency
  pub line_round_trip : Option Latency
  pub dispatched : ℕ
  pub send_failed : ℕ
  pub lanes : List Badge

-- A function for the map of pending conditions: the `sinceMs` of each.
pub record AlertEvaluator : Type 0 where
  pub thresholds : AlertThresholds
  pub pending : AlertKind → Option ℕ
  -- The p95 of the baseline.
  pub baseline : Option ℕ

abbrev pub kind_index : AlertKind → ℕ
kind_index readiness_loss = 0
kind_index missed_events = 1
kind_index first_response_regression = 2
kind_index line_trigger_reply_budget = 3
kind_index failure_rate = 4
kind_index no_lane_available = 5

abbrev pub kind_beq : AlertKind → AlertKind → Bool
kind_beq a b = kind_index a == kind_index b

unfoldable pub new_evaluator : AlertThresholds → Option ℕ → AlertEvaluator
new_evaluator thresholds baseline = record {
  thresholds = thresholds;
  pending = λ k. none;
  baseline = baseline;
}

abbrev pub written : AlertKind → Option ℕ → (AlertKind → Option ℕ) → AlertKind → Option ℕ
written kind since pending k = if kind_beq kind k then since else pending k

unfoldable pub set_baseline : ℕ → AlertEvaluator → AlertEvaluator
set_baseline p95 ev = record ev {
  baseline = some p95;
  pending = written first_response_regression none ev.pending;
}

-- The pending conditions and the alerts so far.
abbrev pub Watch : Type 0
Watch = (AlertKind → Option ℕ) × List Alert

-- `push`, and the rule of readiness, which has a fuse of its own.
unfoldable pub push : ℕ → ℕ → AlertKind → Bool → AlertSeverity → Watch → Watch
push now fuse kind firing severity (pending, alerts) =
    let since = get_or (pending kind) now in
    let alert : Alert = record { kind = kind; severity = severity; for_ms = now - since } in
    if not firing then (written kind none pending, alerts) else (
      written kind (some since) pending,
      (if ltb (now - since) fuse then alerts else alerts ++ alert ∷ []),
    )

-- The values in falling order.
insert_falling : ℕ → List ℕ → List ℕ
insert_falling x [] = x ∷ []
insert_falling x (y ∷ ys) =
    let rest = insert_falling x ys in if ltb x y then y ∷ rest else x ∷ y ∷ ys

falling : List ℕ → List ℕ
unfolding insert_falling
falling [] = []
falling (x ∷ xs) = insert_falling x (falling xs)

last_or : ℕ → List ℕ → ℕ
last_or d [] = d
last_or d (x ∷ xs) = last_or x xs

sum : List ℕ → ℕ
sum [] = 0
sum (x ∷ xs) = x + sum xs

-- `a / b < f`, where the source takes 0 for the quotient if `b` is 0.
abbrev below : ℕ → ℕ → Fraction → Bool
below a b f = if b == 0 then ltb 0 f.num else ltb (a * f.den) (f.num * b)

-- `a / b > n * f`, likewise.
abbrev above : ℕ → ℕ → ℕ → Fraction → Bool
above a b n f = if b == 0 then false else ltb (n * f.num * b) (a * f.den)

unfoldable pub not_armed : ReadinessState → Bool
not_armed state = not (state_beq state armed)

unfoldable pub missed : AlertThresholds → List ℕ → Bool
unfolding falling last_or sum
missed t seen =
    let total = sum seen in
    let weakest = last_or 0 (take t.raced_sources (falling seen)) in
    leb t.min_samples total && below weakest total t.missed_event_rate

unfoldable pub regressed : AlertThresholds → ℕ → Latency → Bool
regressed t baseline send =
    leb t.min_samples send.window
    && ltb (baseline * t.regression_factor.num) (send.p95 * t.regression_factor.den)

unfoldable pub over_budget : AlertThresholds → Latency → Bool
over_budget t trip = leb t.min_samples trip.window && ltb t.line_trigger_reply_p95 trip.p95

unfoldable pub failing : AlertThresholds → ℕ → ℕ → Bool
failing t dispatched failed =
    let attempted = dispatched + failed in
    leb t.min_samples attempted && above failed attempted 1 t.failure_rate

abbrev is_usable : Badge → Bool
is_usable hot = true
is_usable standby = true
is_usable other_badge = false

unfoldable pub no_lane : List Badge → Bool
no_lane lanes = ltb 0 (length lanes) && (length (filter is_usable lanes) == 0)

abbrev readiness_rule : AlertThresholds → ℕ → Option ReadinessState → Watch → Watch
readiness_rule t now none = push now t.readiness_loss_ms readiness_loss false warning
readiness_rule t now (some state) =
    push now t.readiness_loss_ms readiness_loss (not_armed state)
      (if state_beq state degraded then critical else warning)

abbrev missed_rule : AlertThresholds → ℕ → Option (List ℕ) → Watch → Watch
missed_rule t now none w = w
missed_rule t now (some seen) w =
    if leb 2 t.raced_sources
    then push now t.min_duration_ms missed_events (missed t seen) warning w
    else w

abbrev regression_rule : AlertThresholds → ℕ → Option Latency → Option ℕ → Watch → Watch
regression_rule t now none baseline w = w
regression_rule t now (some send) none w = w
regression_rule t now (some send) (some baseline) w =
    push now t.min_duration_ms first_response_regression (regressed t baseline send) warning w

abbrev budget_rule : AlertThresholds → ℕ → Option Latency → Watch → Watch
budget_rule t now none w = w
budget_rule t now (some trip) w =
    push now t.min_duration_ms line_trigger_reply_budget (over_budget t trip)
      (if ltb (3 * t.line_trigger_reply_p95) (2 * trip.p95) then critical else warning) w

abbrev failure_rule : AlertThresholds → ℕ → ℕ → ℕ → Watch → Watch
failure_rule t now dispatched failed =
    push now t.min_duration_ms failure_rate (failing t dispatched failed)
      (if above failed (dispatched + failed) 4 t.failure_rate then critical else warning)

abbrev lane_rule : AlertThresholds → ℕ → List Badge → Watch → Watch
lane_rule t now lanes = push now t.min_duration_ms no_lane_available (no_lane lanes) critical

-- `evaluate`: the six rules, in their order.
unfoldable pub watch : AlertEvaluator → Snapshot → Watch
watch ev s =
    let t = ev.thresholds in
    let now = s.generated_at_ms in
    lane_rule t now s.lanes (
      failure_rule t now s.dispatched s.send_failed (
        budget_rule t now s.line_round_trip (
          regression_rule t now s.send ev.baseline
            (missed_rule t now s.race_seen (readiness_rule t now s.readiness (ev.pending, []))))))

unfoldable pub evaluate : AlertEvaluator → Snapshot → AlertEvaluator × List Alert
unfolding watch
evaluate ev s = let (pending, alerts) = watch ev s in (record ev { pending = pending }, alerts)
