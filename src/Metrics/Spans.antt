-- ===== src/Metrics/Spans.antt =====
-- recorder.ts: what a snapshot shows of a span.
use line_deno_bot.Prelude.{
  ℕ, ◌<◌, ◌≡◌, refl, sym, ap, subst, ◌∙◌, true, Option, none, some, inl, inr, List, [], ◌∷◌, arith,
  get_or, if◌then◌else◌, if-cases, Option-cases,
}
use line_deno_bot.Prelude.Int.{ℤ}
use line_deno_bot.Prelude.Text.{Text, text_beq, text_beq_iff, text_eq}
use line_deno_bot.Prelude.Dict.{lookup, IsDict}
use line_deno_bot.Metrics.{
  LatencySnapshot, LatencyRing, ring_snapshot, MetricsRecorder, MetricsOptions, new_recorder,
  snapshots, recorder_snapshot,
}
use line_deno_bot.Metrics.Latest.{reference, IsRing-snapshot}
use line_deno_bot.Metrics.Recorder.{Call, run, history, IsFiled, Kept, run-Kept}

module _ (window : ℕ) (pos : 0 < window) where
  snapshot_or : Option LatencyRing → Option LatencySnapshot
  snapshot_or none = none
  snapshot_or (some r) = ring_snapshot r

  lookup-snapshots :
      (name : Text) (rings : List (Text × LatencyRing))
      → IsDict rings
      → lookup name (snapshots rings) ≡ snapshot_or (lookup name rings)
  unfolding lookup snapshots snapshot_or
  lookup-snapshots name [] d = refl
  lookup-snapshots name ((n, r) ∷ rings) d = elim (Option-cases (ring_snapshot r)) [
    | inl e ↦ rw e (
        if-cases (λ o. lookup name (snapshots rings) ≡ snapshot_or o) (text_beq n name) (some r)
          (lookup name rings)
          (λ h.
            let same : n ≡ name = ground (arith, text_beq_iff n name, h) in
            lookup-snapshots name rings d.1
            ∙ ap snapshot_or (subst (λ k. lookup k rings ≡ none) same d.0)
            ∙ sym e)
          (λ h. lookup-snapshots name rings d.1))
    | inr (s, e) ↦ rw e (
        if-cases
          (λ o. (if text_beq n name then some s else lookup name (snapshots rings)) ≡ snapshot_or o)
          (text_beq n name) (some r) (lookup name rings) (λ h. rw (h, e) refl)
          (λ h. rw h (lookup-snapshots name rings d.1)))
  ]

  IsFiled-snapshot :
      (xs : List ℤ) (o : Option LatencyRing)
      → IsFiled window xs o
      → snapshot_or o ≡ reference window xs
  unfolding snapshot_or
  IsFiled-snapshot xs none e = rw e refl
  IsFiled-snapshot xs (some r) h = IsRing-snapshot window xs r pos h

-- With metrics enabled and a window of at least one, no run of calls throws, and what a snapshot then
-- shows of a span is computed from the span's finite samples since the last reset: those recorded one
-- by one and those of the traces, and none of another span or of the other hosts.
pub run-spans :
    (o : MetricsOptions) (calls : List Call) (name : Text)
    → get_or o.enabled true ≡ true
    → 0 < get_or o.window 512
    → (m : MetricsRecorder) × (run calls (new_recorder o) ≡ some m)
      × (lookup name (recorder_snapshot m).spans
          ≡ reference (get_or o.window 512) (history name calls []))
unfolding new_recorder recorder_snapshot lookup
run-spans o calls name on pos =
    let window = get_or o.window 512 in
    let empty : Kept window pos (λ n. []) (new_recorder o) =
      (record { unique = tt; filed_all = λ n. refl }, refl, on) in
    let (m, e, (k, w, on')) = run-Kept window pos calls (λ n. []) (new_recorder o) empty in
    (
      m,
      e,
      lookup-snapshots window pos name m.rings k.unique
          ∙ IsFiled-snapshot window pos (history name calls []) (lookup name m.rings)
              (k.filed_all name),
    )
