-- ===== src/Alerts/Held.antt =====
-- alerts.ts over a run of snapshots: an alert fires when its condition has held for long enough.
use line_deno_bot.Prelude.{
  ℕ, ◌-◌, ◌≡◌, refl, ap, ◌∙◌, inl, inr, Bool, true, false, ◌&&◌, ◌||◌, Option, none, some, List, [],
  ◌∷◌, ◌++◌, leb, if◌then◌else◌, get_or, any, arith, Bool-cases,
}
use line_deno_bot.Recovery.{
  AlertKind, readiness_loss, missed_events, first_response_regression, line_trigger_reply_budget,
  failure_rate, no_lane_available,
}
use line_deno_bot.Readiness.{ReadinessState}
use line_deno_bot.Alerts.{
  Alert, AlertSeverity, warning, AlertThresholds, Snapshot, AlertEvaluator, Latency, Badge, Watch,
  kind_beq, new_evaluator, push, not_armed, missed, regressed, over_budget, failing, no_lane,
  readiness_rule, missed_rule, regression_rule, budget_rule, failure_rule, lane_rule, watch,
  evaluate,
}

-- Whether the condition of a kind holds of a snapshot; `none` where its rule has nothing to read.
missed_verdict : AlertThresholds → Option (List ℕ) → Option Bool
missed_verdict t none = none
missed_verdict t (some seen) = if leb 2 t.raced_sources then some (missed t seen) else none

regressed_verdict : AlertThresholds → Option Latency → Option ℕ → Option Bool
regressed_verdict t none baseline = none
regressed_verdict t (some send) none = none
regressed_verdict t (some send) (some baseline) = some (regressed t baseline send)

budget_verdict : AlertThresholds → Option Latency → Option Bool
budget_verdict t none = none
budget_verdict t (some trip) = some (over_budget t trip)

readiness_verdict : Option ReadinessState → Option Bool
readiness_verdict none = some false
readiness_verdict (some state) = some (not_armed state)

abbrev verdict_of :
    Option Bool → Option Bool → Option Bool → Option Bool → Bool → Bool → AlertKind → Option Bool
verdict_of budget regressed' missed' ready failing' lane readiness_loss = ready
verdict_of budget regressed' missed' ready failing' lane missed_events = missed'
verdict_of budget regressed' missed' ready failing' lane first_response_regression = regressed'
verdict_of budget regressed' missed' ready failing' lane line_trigger_reply_budget = budget
verdict_of budget regressed' missed' ready failing' lane failure_rate = some failing'
verdict_of budget regressed' missed' ready failing' lane no_lane_available = some lane

unfoldable pub verdict : AlertKind → AlertThresholds → Option ℕ → Snapshot → Option Bool
unfolding missed_verdict regressed_verdict budget_verdict readiness_verdict
verdict k t baseline s =
    verdict_of (budget_verdict t s.line_round_trip) (regressed_verdict t s.send baseline)
      (missed_verdict t s.race_seen) (readiness_verdict s.readiness)
      (failing t s.dispatched s.send_failed) (no_lane s.lanes) k

abbrev pub fuse : AlertKind → AlertThresholds → ℕ
fuse readiness_loss t = t.readiness_loss_ms
fuse _ t = t.min_duration_ms

-- Since when a condition has held without a verdict against it.
abbrev track : ℕ → Option ℕ → Option Bool → Option ℕ
track now since none = since
track now since (some false) = none
track now since (some true) = some (get_or since now)

unfoldable pub held_since :
    AlertKind → AlertThresholds → Option ℕ → List Snapshot → Option ℕ → Option ℕ
held_since k t baseline [] since = since
held_since k t baseline (s ∷ snapshots) since =
    held_since k t baseline snapshots (track s.generated_at_ms since (verdict k t baseline s))

abbrev pub due : ℕ → ℕ → Option ℕ → Option Bool → Bool
due now limit since none = false
due now limit since (some false) = false
due now limit since (some true) = leb limit (now - get_or since now)

abbrev pub fires : AlertKind → List Alert → Bool
fires k = any (λ a. kind_beq a.kind k)

-- A rule that may have nothing to read.
abbrev push_if : ℕ → ℕ → AlertKind → Option Bool → AlertSeverity → Watch → Watch
push_if now limit kind none severity w = w
push_if now limit kind (some firing) severity w = push now limit kind firing severity w

any-append :
    (k : AlertKind) (as' bs : List Alert) → fires k (as' ++ bs) ≡ (fires k as' || fires k bs)
any-append k [] bs = refl
any-append k (a ∷ as') bs = ground (arith, any-append k as' bs)

kind_same : (a b : AlertKind) → kind_beq a b ≡ true → a ≡ b
kind_same a b e = ground (arith, e)

push_if-lem :
    (now limit : ℕ) (kind : AlertKind) (v : Option Bool) (severity : AlertSeverity) (w : Watch)
    (k : AlertKind)
    → ((push_if now limit kind v severity w).0 k
        ≡ (if kind_beq kind k then track now (w.0 kind) v else w.0 k))
      × (fires k (push_if now limit kind v severity w).1
          ≡ (fires k w.1 || (kind_beq kind k && due now limit (w.0 kind) v)))
unfolding push
push_if-lem now limit kind none severity w k = elim (Bool-cases (kind_beq kind k)) [
  | inl e ↦ let same = ap w.0 (kind_same kind k e) in ground (arith, e, same)
  | inr e ↦ ground (arith, e)
]
push_if-lem now limit kind (some false) severity w k = ground arith
push_if-lem now limit kind (some true) severity w k =
    let alert : Alert = record {
      kind = kind;
      severity = severity;
      for_ms = now - get_or (w.0 kind) now;
    } in
    let one = any-append k w.1 (alert ∷ []) in ground (arith, one)

-- What a rule of `kind` with the verdict `v` makes of a watch.
abbrev EffectAt : ℕ → ℕ → AlertKind → Option Bool → Watch → Watch → AlertKind → Type 0
EffectAt now limit kind v w w' k =
    (w'.0 k ≡ (if kind_beq kind k then track now (w.0 kind) v else w.0 k))
    × (fires k w'.1 ≡ (fires k w.1 || (kind_beq kind k && due now limit (w.0 kind) v)))

abbrev Effect : ℕ → ℕ → AlertKind → Option Bool → Watch → Watch → Type 0
Effect now limit kind v w w' = (k : AlertKind) → EffectAt now limit kind v w w' k

module _ (t : AlertThresholds) (now : ℕ) (w : Watch) where
  readiness_rule-Effect :
      (o : Option ReadinessState)
      → Effect now t.readiness_loss_ms readiness_loss
          (readiness_verdict o)
          w
          (readiness_rule t now o w)
  unfolding readiness_verdict
  readiness_rule-Effect none = push_if-lem now t.readiness_loss_ms readiness_loss (some false) _ w
  readiness_rule-Effect (some state) =
      push_if-lem now t.readiness_loss_ms readiness_loss (some (not_armed state)) _ w

  missed_rule-Effect :
      (o : Option (List ℕ))
      → Effect now t.min_duration_ms missed_events (missed_verdict t o) w (missed_rule t now o w)
  unfolding missed_verdict
  missed_rule-Effect none = push_if-lem now t.min_duration_ms missed_events none warning w
  missed_rule-Effect (some seen) = elim (Bool-cases (leb 2 t.raced_sources)) [
    | inl e ↦
        rw e (push_if-lem now t.min_duration_ms missed_events (some (missed t seen)) warning w)
    | inr e ↦ rw e (push_if-lem now t.min_duration_ms missed_events none warning w)
  ]

  regression_rule-Effect :
      (o : Option Latency) (b : Option ℕ)
      → Effect now t.min_duration_ms first_response_regression
          (regressed_verdict t o b)
          w
          (regression_rule t now o b w)
  unfolding regressed_verdict
  regression_rule-Effect none b =
      push_if-lem now t.min_duration_ms first_response_regression none warning w
  regression_rule-Effect (some send) none =
      push_if-lem now t.min_duration_ms first_response_regression none warning w
  regression_rule-Effect (some send) (some b) =
      push_if-lem now t.min_duration_ms first_response_regression (some (regressed t b send))
        warning w

  budget_rule-Effect :
      (o : Option Latency)
      → Effect now t.min_duration_ms line_trigger_reply_budget
          (budget_verdict t o)
          w
          (budget_rule t now o w)
  unfolding budget_verdict
  budget_rule-Effect none =
      push_if-lem now t.min_duration_ms line_trigger_reply_budget none warning w
  budget_rule-Effect (some trip) =
      push_if-lem now t.min_duration_ms line_trigger_reply_budget (some (over_budget t trip)) _ w

  failure_rule-Effect :
      (sent failed : ℕ)
      → Effect now t.min_duration_ms failure_rate
          (some (failing t sent failed))
          w
          (failure_rule t now sent failed w)
  failure_rule-Effect sent failed =
      push_if-lem now t.min_duration_ms failure_rate (some (failing t sent failed)) _ w

  lane_rule-Effect :
      (lanes : List Badge)
      → Effect now t.min_duration_ms no_lane_available
          (some (no_lane lanes))
          w
          (lane_rule t now lanes w)
  lane_rule-Effect lanes =
      push_if-lem now t.min_duration_ms no_lane_available (some (no_lane lanes)) _ w

six-Effects :
    (t : AlertThresholds) (now : ℕ) (budget regressed' missed' ready : Option Bool)
    (failing' lane : Bool) (w₀ w₁ w₂ w₃ w₄ w₅ w₆ : Watch)
    → Effect now t.readiness_loss_ms readiness_loss ready w₀ w₁
    → Effect now t.min_duration_ms missed_events missed' w₁ w₂
    → Effect now t.min_duration_ms first_response_regression regressed' w₂ w₃
    → Effect now t.min_duration_ms line_trigger_reply_budget budget w₃ w₄
    → Effect now t.min_duration_ms failure_rate (some failing') w₄ w₅
    → Effect now t.min_duration_ms no_lane_available (some lane) w₅ w₆
    → w₀.1 ≡ []
    → (k : AlertKind)
    → let v = verdict_of budget regressed' missed' ready failing' lane k in
      (w₆.0 k ≡ track now (w₀.0 k) v) × (fires k w₆.1 ≡ due now (fuse k t) (w₀.0 k) v)
six-Effects t now budget regressed' missed' ready failing' lane w₀ w₁ w₂ w₃ w₄ w₅ w₆ a b c d e f
      start =
    λ k. for k (a k) (b k) (c k) (d k) (e k) (f k)
  where
    for :
        (k : AlertKind)
        → EffectAt now t.readiness_loss_ms readiness_loss ready w₀ w₁ k
        → EffectAt now t.min_duration_ms missed_events missed' w₁ w₂ k
        → EffectAt now t.min_duration_ms first_response_regression regressed' w₂ w₃ k
        → EffectAt now t.min_duration_ms line_trigger_reply_budget budget w₃ w₄ k
        → EffectAt now t.min_duration_ms failure_rate (some failing') w₄ w₅ k
        → EffectAt now t.min_duration_ms no_lane_available (some lane) w₅ w₆ k
        → let v = verdict_of budget regressed' missed' ready failing' lane k in
          (w₆.0 k ≡ track now (w₀.0 k) v) × (fires k w₆.1 ≡ due now (fuse k t) (w₀.0 k) v)
    for readiness_loss a' b' c' d' e' f' = ground (arith, start)
    for missed_events a' b' c' d' e' f' = ground (arith, start)
    for first_response_regression a' b' c' d' e' f' = ground (arith, start)
    for line_trigger_reply_budget a' b' c' d' e' f' = ground (arith, start)
    for failure_rate a' b' c' d' e' f' = ground (arith, start)
    for no_lane_available a' b' c' d' e' f' = ground (arith, start)

-- One snapshot, for each kind.
evaluate-lem :
    (ev : AlertEvaluator) (s : Snapshot) (k : AlertKind)
    → let v = verdict k ev.thresholds ev.baseline s in
      ((evaluate ev s).0.pending k ≡ track s.generated_at_ms (ev.pending k) v)
      × (fires k (evaluate ev s).1 ≡ due s.generated_at_ms (fuse k ev.thresholds) (ev.pending k) v)
unfolding evaluate watch verdict
evaluate-lem ev s k =
    let t = ev.thresholds in
    let now = s.generated_at_ms in
    let w₀ : Watch = (ev.pending, []) in
    let w₁ = readiness_rule t now s.readiness w₀ in
    let w₂ = missed_rule t now s.race_seen w₁ in
    let w₃ = regression_rule t now s.send ev.baseline w₂ in
    let w₄ = budget_rule t now s.line_round_trip w₃ in
    let w₅ = failure_rule t now s.dispatched s.send_failed w₄ in
    six-Effects t now (budget_verdict t s.line_round_trip) (regressed_verdict t s.send ev.baseline)
      (missed_verdict t s.race_seen) (readiness_verdict s.readiness)
      (failing t s.dispatched s.send_failed) (no_lane s.lanes) w₀ w₁ w₂ w₃ w₄ w₅ _
      (readiness_rule-Effect t now w₀ s.readiness) (missed_rule-Effect t now w₁ s.race_seen)
      (regression_rule-Effect t now w₂ s.send ev.baseline)
      (budget_rule-Effect t now w₃ s.line_round_trip)
      (failure_rule-Effect t now w₄ s.dispatched s.send_failed) (lane_rule-Effect t now w₅ s.lanes)
      refl k

unfoldable pub run : List Snapshot → AlertEvaluator → AlertEvaluator
run [] ev = ev
run (s ∷ snapshots) ev = run snapshots (evaluate ev s).0

evaluate-options :
    (ev : AlertEvaluator) (s : Snapshot)
    → ((evaluate ev s).0.thresholds ≡ ev.thresholds) × ((evaluate ev s).0.baseline ≡ ev.baseline)
unfolding evaluate
evaluate-options ev s = (refl, refl)

run-lem :
    (snapshots : List Snapshot) (ev : AlertEvaluator) (k : AlertKind)
    → ((run snapshots ev).pending k
        ≡ held_since k ev.thresholds ev.baseline snapshots (ev.pending k))
      × ((run snapshots ev).thresholds ≡ ev.thresholds)
      × ((run snapshots ev).baseline ≡ ev.baseline)
unfolding run held_since evaluate
run-lem [] ev k = (refl, refl, refl)
run-lem (s ∷ snapshots) ev k =
    let ev' = (evaluate ev s).0 in
    let (pending, thresholds, baseline) = run-lem snapshots ev' k in
    let (one, _) = evaluate-lem ev s k in
    let (same, same') = evaluate-options ev s in
    (
      pending ∙ ap (held_since k ev'.thresholds ev'.baseline snapshots) one,
      thresholds ∙ same,
      baseline ∙ same',
    )

same-due :
    (s : Snapshot) (k : AlertKind) (t t' : AlertThresholds) (b b' p p' : Option ℕ)
    → t ≡ t'
    → b ≡ b'
    → p ≡ p'
    → due s.generated_at_ms (fuse k t) p (verdict k t b s)
      ≡ due s.generated_at_ms (fuse k t') p' (verdict k t' b' s)
same-due s k t t' b b' p p' e f g = rw (e, f, g) refl

-- After any snapshots with one baseline, a snapshot raises an alert of a kind just when the kind's
-- condition holds of it, and has held since a snapshot at least the kind's fuse ago with no snapshot
-- between them of which it does not hold; a snapshot on which the rule has nothing to read counts
-- neither way.
pub run-alerts :
    (t : AlertThresholds) (baseline : Option ℕ) (snapshots : List Snapshot) (s : Snapshot)
    (k : AlertKind)
    → fires k (evaluate (run snapshots (new_evaluator t baseline)) s).1
      ≡ due s.generated_at_ms
          (fuse k t)
          (held_since k t baseline snapshots none)
          (verdict k t baseline s)
unfolding new_evaluator
run-alerts t baseline snapshots s k =
    let ev = run snapshots (new_evaluator t baseline) in
    let (pending, thresholds, baseline') = run-lem snapshots (new_evaluator t baseline) k in
    let (_, alerts) = evaluate-lem ev s k in
    alerts
    ∙ same-due s k ev.thresholds t ev.baseline baseline (ev.pending k)
        (held_since k t baseline snapshots none) thresholds baseline' pending
