-- ===== src/Metrics/Tests.antt =====
-- A ring of three places that has turned, and a recorder with a reset.
use line_deno_bot.Prelude.{◌≡◌, refl, Option, none, some, List, [], ◌∷◌, arith}
use line_deno_bot.Prelude.Text.{text, text_eq}
use line_deno_bot.Prelude.Dict.{lookup}
use line_deno_bot.Prelude.Int.{ℤ, pos, negsuc, ◌+ℤ◌}
use line_deno_bot.Metrics.{
  fresh_ring, new_ring, ring_snapshot, snapshot_of, sorted, insert_sorted, MetricsRecorder,
  MetricsOptions, new_recorder, recorder_snapshot,
}
use line_deno_bot.Metrics.Latest.{add_all, finite, reference, add_all-snapshot}
use line_deno_bot.Metrics.Recorder.{Call, records, crosses, traces, counts, resets, run, history}
use line_deno_bot.Metrics.Spans.{run-spans}

abbrev samples : List (Option ℤ)
samples = some (pos 30) ∷ some (pos 10) ∷ none ∷ some (pos 50) ∷ some (negsuc 19) ∷ []

add_all-snapshot_example :
    ring_snapshot (add_all samples (fresh_ring 3)) ≡ reference 3 (finite samples)
unfolding new_ring
add_all-snapshot_example = add_all-snapshot 3 samples (fresh_ring 3) refl

median :
    reference 3 (finite samples)
    ≡ some (snapshot_of 4 (pos 70) (negsuc 19) (negsuc 19 ∷ pos 10 ∷ pos 50 ∷ []))
unfolding sorted insert_sorted ◌+ℤ◌
median = refl

abbrev options : MetricsOptions
options = record { window = some 2; enabled = none }

abbrev calls : List Call
calls =
    records (text "send") (some (some (pos 5)))
    ∷ resets
    ∷ traces ((text "send", some (pos 7)) ∷ (text "match", some (pos 1)) ∷ [])
    ∷ crosses (text "inbound") (some (some (negsuc 2)))
    ∷ counts (text "sent") 1
    ∷ records (text "send") (some (some (pos 9)))
    ∷ []

run-spans_example :
    (m : MetricsRecorder) × (run calls (new_recorder options) ≡ some m)
    × (lookup (text "send") (recorder_snapshot m).spans
        ≡ reference 2 (history (text "send") calls []))
run-spans_example = run-spans options calls (text "send") refl (omega arith)
