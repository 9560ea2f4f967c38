-- ===== src/Lane.antt =====
-- apps/worker/src/transport/lane.ts: one connection with the measurements that routing reads. A
-- request is two steps, its start and its end; what the start keeps for the end is a `Request`. The
-- transports are numbered in the order in which the lane makes them; requests and responses are not
-- modelled. Times are readings of the monotonic clock.
pub mod Measured
pub mod Runs
mod Tests
use line_deno_bot.Prelude.{
  ℕ, zero, suc, ◌+◌, ◌-◌, ◌*◌, Bool, true, false, ◌||◌, Option, none, some, List, [], ◌∷◌, ◌++◌,
  ltb, leb, if◌then◌else◌, get_elem?, get_or, length, tail,
}
use Prim.Native.Nat.{◌/◌}

pub data LaneState : Type 0 where
  connecting ready draining dead : LaneState

abbrev pub is_dead : LaneState → Bool
is_dead dead = true
is_dead _ = false

pub data LaneMeasurement : Type 0 where
  send preflight poll general warm : LaneMeasurement

abbrev pub measurement_beq : LaneMeasurement → LaneMeasurement → Bool
measurement_beq send send = true
measurement_beq preflight preflight = true
measurement_beq poll poll = true
measurement_beq general general = true
measurement_beq warm warm = true
measurement_beq _ _ = false

pub record RttProfile : Type 0 where
  pub samples : List ℕ
  pub median_rtt_ms : Option ℕ
  pub tail_rtt_ms : Option ℕ
  pub last_rtt_ms : Option ℕ
  pub last_rtt_at_mono : Option ℕ
  pub last_contended : Bool

pub record LaneScore : Type 0 where
  pub rabbits : ℕ
  pub turtles : ℕ
  pub contended_slow : ℕ

pub record LaneSample : Type 0 where
  pub rtt_ms : ℕ
  pub contended : Bool

pub record LaneOptions : Type 0 where
  pub id : ℕ
  pub sample_window : Option ℕ
  pub fast_route_threshold_ms : Option ℕ

abbrev pub make_profile : RttProfile
make_profile = record {
  samples = [];
  median_rtt_ms = none;
  tail_rtt_ms = none;
  last_rtt_ms = none;
  last_rtt_at_mono = none;
  last_contended = false;
}

abbrev pub make_score : LaneScore
make_score = record { rabbits = 0; turtles = 0; contended_slow = 0 }

pub record Lane : Type 0 where
  pub id : ℕ
  pub window : ℕ
  pub fast_threshold_ms : ℕ
  pub profiles : LaneMeasurement → RttProfile
  pub score : LaneScore
  pub transport : ℕ
  pub state : LaneState
  pub in_flight : ℕ
  pub opened_at_mono : ℕ
  pub consecutive_failures : ℕ
  pub connected : Bool

unfoldable pub new_lane : ℕ → LaneOptions → Lane
new_lane now options = record {
  id = options.id;
  window = get_or options.sample_window 7;
  fast_threshold_ms = get_or options.fast_route_threshold_ms 20;
  profiles = λ _. make_profile;
  score = make_score;
  transport = 0;
  state = ready;
  in_flight = 0;
  opened_at_mono = now;
  consecutive_failures = 0;
  connected = false;
}

-- `toSorted`, by insertion.
unfoldable pub insert_sorted : ℕ → List ℕ → List ℕ
insert_sorted x [] = x ∷ []
insert_sorted x (y ∷ ys) = let rest = insert_sorted x ys in if ltb y x then y ∷ rest else x ∷ y ∷ ys

unfoldable pub sorted : List ℕ → List ℕ
unfolding insert_sorted
sorted [] = []
sorted (x ∷ xs) = insert_sorted x (sorted xs)

-- `Math.floor(n / 2)` and `Math.ceil(n * 0.95) - 1`.
abbrev pub median_index : ℕ → ℕ
median_index n = n / 2

abbrev pub tail_index : ℕ → ℕ
tail_index n = (19 * n + 19) / 20 - 1

abbrev pub pushed : ℕ → List ℕ → ℕ → List ℕ
pushed window samples x =
    let longer = samples ++ x ∷ [] in if ltb window (length longer) then tail longer else longer

unfoldable pub measured : ℕ → ℕ → LaneSample → RttProfile → RttProfile
unfolding sorted
measured now window sample profile =
    let samples = pushed window profile.samples sample.rtt_ms in
    record {
      samples = samples;
      median_rtt_ms = get_elem? (sorted samples) (median_index (length samples));
      tail_rtt_ms = get_elem? (sorted samples) (tail_index (length samples));
      last_rtt_ms = some sample.rtt_ms;
      last_rtt_at_mono = some now;
      last_contended = sample.contended;
    }

unfoldable pub score_send : ℕ → LaneSample → LaneScore → LaneScore
score_send threshold sample score =
    if leb sample.rtt_ms threshold
    then record score { rabbits = score.rabbits + 1 }
    else if sample.contended
    then record score { contended_slow = score.contended_slow + 1 }
    else record score { turtles = score.turtles + 1 }

abbrev scored : LaneMeasurement → ℕ → LaneSample → LaneScore → LaneScore
scored send threshold sample score = score_send threshold sample score
scored _ threshold sample score = score

unfoldable pub record_sample : ℕ → LaneMeasurement → LaneSample → Lane → Lane
unfolding measured score_send
record_sample now measurement sample lane = record lane {
  consecutive_failures = 0;
  connected = true;
  score = scored measurement lane.fast_threshold_ms sample lane.score;
  profiles = λ m.
      if measurement_beq measurement m
      then measured now lane.window sample (lane.profiles m)
      else lane.profiles m;
}

pub record Request : Type 0 where
  pub measurement : LaneMeasurement
  pub shared_at_start : Bool
  pub started : ℕ

-- `send`, up to the transport's `fetch`.
unfoldable pub begin_send : ℕ → LaneMeasurement → Lane → Lane × Request
begin_send now measurement lane = (
  record lane { in_flight = lane.in_flight + 1 },
  record { measurement = measurement; shared_at_start = ltb 0 lane.in_flight; started = now },
)

-- `send`, after `fetch` has resolved.
unfoldable pub end_send : ℕ → Request → Lane → Lane × LaneSample
unfolding record_sample
end_send now request lane =
    let sample : LaneSample = record {
      rtt_ms = now - request.started;
      contended = request.shared_at_start || ltb 1 lane.in_flight;
    } in
    let recorded = record_sample now request.measurement sample lane in
    (record recorded { in_flight = recorded.in_flight - 1 }, sample)

-- `send`, after `fetch` has rejected.
unfoldable pub fail_send : Lane → Lane
fail_send lane = record lane {
  consecutive_failures = lane.consecutive_failures + 1;
  in_flight = lane.in_flight - 1;
}

unfoldable pub drain : Lane → Lane
drain lane = if is_dead lane.state then lane else record lane { state = draining }

unfoldable pub recycle : ℕ → Lane → Lane
recycle now lane = record lane {
  transport = lane.transport + 1;
  profiles = λ _. make_profile;
  score = make_score;
  consecutive_failures = 0;
  connected = false;
  opened_at_mono = now;
  state = ready;
}

unfoldable pub close : Lane → Lane
close lane = record lane { state = dead }

unfoldable pub is_routable : Lane → Bool
is_routable lane = elim lane.state [ ready ↦ true | _ ↦ false ]

unfoldable pub age_ms : ℕ → Lane → ℕ
age_ms now lane = now - lane.opened_at_mono

-- In units of 1 / 20 of a millisecond; the tail is never below the median.
unfoldable pub predicted : Option ℕ → Option ℕ → Option ℕ
predicted none p95 = none
predicted (some p50) none = none
predicted (some p50) (some p95) = some (20 * p50 + 7 * (p95 - p50))

unfoldable pub predicted_rtt_for : LaneMeasurement → Lane → Option ℕ
unfolding predicted
predicted_rtt_for m lane = predicted (lane.profiles m).median_rtt_ms (lane.profiles m).tail_rtt_ms

unfoldable pub median_rtt_for : LaneMeasurement → Lane → Option ℕ
median_rtt_for m lane = (lane.profiles m).median_rtt_ms

unfoldable pub tail_rtt_for : LaneMeasurement → Lane → Option ℕ
tail_rtt_for m lane = (lane.profiles m).tail_rtt_ms

unfoldable pub last_contended_for : LaneMeasurement → Lane → Bool
last_contended_for m lane = (lane.profiles m).last_contended

unfoldable pub last_rtt_for : LaneMeasurement → Lane → Option ℕ
last_rtt_for m lane = (lane.profiles m).last_rtt_ms

unfoldable pub last_rtt_at_for : LaneMeasurement → Lane → Option ℕ
last_rtt_at_for m lane = (lane.profiles m).last_rtt_at_mono
