-- ===== src/Metrics.antt =====
-- apps/worker/src/metrics: the ring of latency samples (ring.ts) and the recorder of spans and counters
-- (recorder.ts). A sample is a whole number of milliseconds, which between two hosts may be
-- negative, or `none` when it is not finite; the mean is
-- kept as a sum and a count.
pub mod Ring
pub mod Latest
pub mod Recorder
pub mod Spans
mod Tests
use line_deno_bot.Prelude.{
  ℕ, zero, suc, ◌+◌, ◌-◌, ◌*◌, ◌/◌, ◌%◌, min, max, Bool, true, false, not, ◌||◌, Option, none, some,
  List, [], ◌∷◌, map, ltb, if◌then◌else◌, get_or, get_elem?, set_at, take, length, ◌==◌,
}
use line_deno_bot.Prelude.Text.{Text, text_eq}
use line_deno_bot.Prelude.Dict.{lookup, insert}
use line_deno_bot.Prelude.Int.{ℤ, pos, ◌+ℤ◌, ltb_ℤ}

pub record LatencySnapshot : Type 0 where
  pub count : ℕ
  pub window : ℕ
  pub min : ℤ
  pub p50 : ℤ
  pub p95 : ℤ
  pub p99 : ℤ
  pub max : ℤ
  -- The mean is `total / count`.
  pub total : ℤ
  pub last : ℤ

pub record LatencyRing : Type 0 where
  pub capacity : ℕ
  pub samples : List ℤ
  pub next : ℕ
  pub filled : ℕ
  pub total : ℤ
  pub count : ℕ

abbrev pub zeros : ℕ → List ℤ
zeros zero = []
zeros (suc n) = pos 0 ∷ zeros n

abbrev pub fresh_ring : ℕ → LatencyRing
fresh_ring capacity = record {
  capacity = capacity;
  samples = zeros capacity;
  next = 0;
  filled = 0;
  total = pos 0;
  count = 0;
}

-- The constructor; `none` is its ConfigError.
unfoldable pub new_ring : ℕ → Option LatencyRing
new_ring capacity = if capacity == 0 then none else some (fresh_ring capacity)

unfoldable pub add : Option ℤ → LatencyRing → LatencyRing
add none r = r
add (some ms) r = record r {
  samples = set_at r.samples r.next ms;
  next = (r.next + 1) % r.capacity;
  filled = if ltb r.filled r.capacity then r.filled + 1 else r.filled;
  count = r.count + 1;
  total = r.total +ℤ ms;
}

-- The order of `sort` on a Float64Array, by insertion.
unfoldable pub insert_sorted : ℤ → List ℤ → List ℤ
insert_sorted x [] = x ∷ []
insert_sorted x (y ∷ ys) =
    let rest = insert_sorted x ys in if ltb_ℤ y x then y ∷ rest else x ∷ y ∷ ys

unfoldable pub sorted : List ℤ → List ℤ
unfolding insert_sorted
sorted [] = []
sorted (x ∷ xs) = insert_sorted x (sorted xs)

-- An element, or 0.
abbrev pub element : List ℤ → ℕ → ℤ
element xs i = get_or (get_elem? xs i) (pos 0)

-- Nearest rank: `Math.ceil((p / 100) * sorted.length)`.
unfoldable pub percentile : List ℤ → ℕ → ℤ
percentile xs p =
    let rank = (p * length xs + 99) / 100 in element xs (min (length xs) (max 1 rank) - 1)

-- A snapshot, from the sorted samples.
abbrev pub snapshot_of : ℕ → ℤ → ℤ → List ℤ → LatencySnapshot
snapshot_of count total last xs = record {
  count = count;
  window = length xs;
  min = element xs 0;
  p50 = percentile xs 50;
  p95 = percentile xs 95;
  p99 = percentile xs 99;
  max = element xs (length xs - 1);
  total = total;
  last = last;
}

unfoldable pub ring_snapshot : LatencyRing → Option LatencySnapshot
unfolding sorted percentile
ring_snapshot r =
    if r.filled == 0
    then none
    else some
        (record (snapshot_of r.count r.total
          (element r.samples ((r.next + r.capacity - 1) % r.capacity))
          (sorted (take r.filled r.samples))) { window = r.filled })

pub record MetricsRecorder : Type 0 where
  pub rings : List (Text × LatencyRing)
  pub cross_host_rings : List (Text × LatencyRing)
  pub counters : List (Text × ℕ)
  pub window : ℕ
  pub enabled : Bool

pub record MetricsOptions : Type 0 where
  pub window : Option ℕ
  pub enabled : Option Bool

unfoldable pub new_recorder : MetricsOptions → MetricsRecorder
new_recorder o = record {
  rings = [];
  cross_host_rings = [];
  counters = [];
  window = get_or o.window 512;
  enabled = get_or o.enabled true;
}

abbrev pub ring_or_new : ℕ → Option LatencyRing → Option LatencyRing
ring_or_new window none = new_ring window
ring_or_new window (some r) = some r

abbrev pub filed :
    Text
    → Option ℤ
    → List (Text × LatencyRing)
    → Option LatencyRing
    → Option (List (Text × LatencyRing))
filed name ms rings none = none
filed name ms rings (some ring) = some (insert name (add ms ring) rings)

-- The write of a sample to the ring of its name, which is made when it is missing.
unfoldable pub file :
    ℕ → Text → Option ℤ → List (Text × LatencyRing) → Option (List (Text × LatencyRing))
unfolding add new_ring
file window name ms rings = filed name ms rings (ring_or_new window (lookup name rings))

abbrev pub with_rings :
    MetricsRecorder → Option (List (Text × LatencyRing)) → Option MetricsRecorder
with_rings m none = none
with_rings m (some rings) = some (record m { rings = rings })

abbrev pub with_cross_host :
    MetricsRecorder → Option (List (Text × LatencyRing)) → Option MetricsRecorder
with_cross_host m none = none
with_cross_host m (some rings) = some (record m { cross_host_rings = rings })

-- `ms` is missing, or a number that may not be finite; `none` is the ConfigError of a ring without a place.
unfoldable pub record_span : Text → Option (Option ℤ) → MetricsRecorder → Option MetricsRecorder
unfolding file
record_span name none m = some m
record_span name (some ms) m =
    if not m.enabled then some m else with_rings m (file m.window name ms m.rings)

unfoldable pub record_cross_host :
    Text → Option (Option ℤ) → MetricsRecorder → Option MetricsRecorder
unfolding file
record_cross_host name none m = some m
record_cross_host name (some ms) m =
    if not m.enabled then some m else with_cross_host m (file m.window name ms m.cross_host_rings)

abbrev pub and_then :
    Option MetricsRecorder → (MetricsRecorder → Option MetricsRecorder) → Option MetricsRecorder
and_then none f = none
and_then (some m) f = f m

-- The loop of `recordTrace`, over the spans of the trace.
unfoldable pub record_spans : List (Text × Option ℤ) → MetricsRecorder → Option MetricsRecorder
unfolding record_span
record_spans [] m = some m
record_spans ((name, ms) ∷ spans) m = and_then (record_span name (some ms) m) (record_spans spans)

unfoldable pub record_trace : List (Text × Option ℤ) → MetricsRecorder → Option MetricsRecorder
unfolding record_spans
record_trace spans m = if not m.enabled then some m else record_spans spans m

unfoldable pub count_by : Text → ℕ → MetricsRecorder → MetricsRecorder
count_by name by m =
    if not m.enabled
    then m
    else record m { counters = insert name (get_or (lookup name m.counters) 0 + by) m.counters }

abbrev pub shown :
    Text → Option LatencySnapshot → List (Text × LatencySnapshot) → List (Text × LatencySnapshot)
shown name none rest = rest
shown name (some s) rest = (name, s) ∷ rest

-- The loop of `snapshot` over the rings.
unfoldable pub snapshots : List (Text × LatencyRing) → List (Text × LatencySnapshot)
unfolding ring_snapshot
snapshots [] = []
snapshots ((name, ring) ∷ rings) = shown name (ring_snapshot ring) (snapshots rings)

pub record MetricsSnapshot : Type 0 where
  pub spans : List (Text × LatencySnapshot)
  pub cross_host : List (Text × LatencySnapshot)
  pub counters : List (Text × ℕ)

unfoldable pub recorder_snapshot : MetricsRecorder → MetricsSnapshot
unfolding snapshots
recorder_snapshot m = record {
  spans = snapshots m.rings;
  cross_host = snapshots m.cross_host_rings;
  counters = m.counters;
}

unfoldable pub reset : MetricsRecorder → MetricsRecorder
reset m = record m { rings = []; cross_host_rings = []; counters = [] }
