-- ===== src/Lane/Runs.antt =====
-- lane.ts over a run of requests: starts, ends in any order, drains, recycles and closes.
use line_deno_bot.Prelude.{
  ℕ, zero, suc, ◌*◌, ◌≤◌, ◌<◌, ◌≡◌, refl, ap, inl, inr, Option, none, some, List, [], ◌∷◌,
  get_elem?, length, In, arith, Bool-cases, Option-cases,
}
use line_deno_bot.Lane.{
  Lane, LaneOptions, LaneMeasurement, Request, LaneSample, new_lane, begin_send, end_send,
  fail_send, drain, is_dead, recycle, close, record_sample, measurement_beq, predicted_rtt_for,
}
use line_deno_bot.Lane.Measured.{
  IsProfile, make_profile-IsProfile, measured-IsProfile, predicted-between,
}

-- A request in flight is named by its place in the list of them.
pub data Call : Type 0 where
  begins : ℕ → LaneMeasurement → Call
  ends : ℕ → ℕ → Call
  fails : ℕ → Call
  drains closes : Call
  recycles : ℕ → Call

abbrev removed : ℕ → List Request → List Request
removed i [] = []
removed zero (r ∷ rs) = rs
removed (suc i) (r ∷ rs) = r ∷ removed i rs

abbrev ended : ℕ → Option Request → List Request → Lane → Lane × List Request
ended now none rest lane = (lane, rest)
ended now (some r) rest lane = ((end_send now r lane).0, rest)

abbrev failed : Option Request → List Request → Lane → Lane × List Request
failed none rest lane = (lane, rest)
failed (some r) rest lane = (fail_send lane, rest)

unfoldable pub step : Call → Lane × List Request → Lane × List Request
step (begins now m) (lane, flying) = let (lane', r) = begin_send now m lane in (lane', r ∷ flying)
step (ends now i) (lane, flying) = ended now (get_elem? flying i) (removed i flying) lane
step (fails i) (lane, flying) = failed (get_elem? flying i) (removed i flying) lane
step drains (lane, flying) = (drain lane, flying)
step closes (lane, flying) = (close lane, flying)
step (recycles now) (lane, flying) = (recycle now lane, flying)

unfoldable pub run : List Call → Lane × List Request → Lane × List Request
unfolding step
run [] s = s
run (c ∷ calls) s = run calls (step c s)

-- The count of requests in flight is right, and the profiles are.
pub record IsLane (window : ℕ) (s : Lane × List Request) : Type 0 where
  pub counted : s.0.in_flight ≡ length s.1
  pub windowed : s.0.window ≡ window
  pub profiled : (m : LaneMeasurement) → IsProfile window (s.0.profiles m)

length-removed :
    (i : ℕ) (rs : List Request) (r : Request)
    → get_elem? rs i ≡ some r
    → length rs ≡ suc (length (removed i rs))
length-removed i [] r e = absurd (ground (arith, e))
length-removed zero (x ∷ rs) r e = refl
length-removed (suc i) (x ∷ rs) r e = ap suc (length-removed i rs r e)

removed_absent : (i : ℕ) (rs : List Request) → get_elem? rs i ≡ none → removed i rs ≡ rs
removed_absent i [] e = refl
removed_absent zero (x ∷ rs) e = absurd (ground (arith, e))
removed_absent (suc i) (x ∷ rs) e = ap (λ l. x ∷ l) (removed_absent i rs e)

record_sample-IsProfile :
    (now : ℕ) (m : LaneMeasurement) (sample : LaneSample) (lane : Lane) (window : ℕ)
    → 0 < window
    → lane.window ≡ window
    → ((k : LaneMeasurement) → IsProfile window (lane.profiles k))
    → (k : LaneMeasurement) → IsProfile window ((record_sample now m sample lane).profiles k)
unfolding record_sample
record_sample-IsProfile now m sample lane window some_room w h k =
    elim (Bool-cases (measurement_beq m k)) [
      | inl e ↦ rw (e, w) (measured-IsProfile now window sample (lane.profiles k) some_room (h k))
      | inr e ↦ rw e (h k)
    ]

step-IsLane :
    (c : Call) (window : ℕ) (s : Lane × List Request)
    → 0 < window
    → IsLane window s
    → IsLane window (step c s)
unfolding step begin_send end_send fail_send drain close recycle record_sample
step-IsLane (begins now m) window (lane, flying) some_room h = record {
  counted = omega (arith, h.counted);
  windowed = h.windowed;
  profiled = h.profiled;
}
step-IsLane (ends now i) window (lane, flying) some_room h =
    elim (Option-cases (get_elem? flying i)) [
      | inl e ↦ rw (e, removed_absent i flying e) h
      | inr (r, e) ↦
          let sample = (end_send now r lane).1 in
          rw e (record {
            counted = omega (arith, h.counted, length-removed i flying r e);
            windowed = h.windowed;
            profiled =
                record_sample-IsProfile now r.measurement sample lane window some_room h.windowed
                  h.profiled;
          })
    ]
step-IsLane (fails i) window (lane, flying) some_room h = elim (Option-cases (get_elem? flying i)) [
  | inl e ↦ rw (e, removed_absent i flying e) h
  | inr (r, e) ↦ rw e (record {
    counted = omega (arith, h.counted, length-removed i flying r e);
    windowed = h.windowed;
    profiled = h.profiled;
  })
]
step-IsLane drains window (lane, flying) some_room h = elim (Bool-cases (is_dead lane.state)) [
  | inl e ↦ rw (e, drain) h
  | inr e ↦
      rw (e, drain) (record { counted = h.counted; windowed = h.windowed; profiled = h.profiled })
]
step-IsLane closes window (lane, flying) some_room h = record {
  counted = h.counted;
  windowed = h.windowed;
  profiled = h.profiled;
}
step-IsLane (recycles now) window (lane, flying) some_room h = record {
  counted = h.counted;
  windowed = h.windowed;
  profiled = λ m. make_profile-IsProfile window;
}

run-IsLane :
    (calls : List Call) (window : ℕ) (s : Lane × List Request)
    → 0 < window
    → IsLane window s
    → IsLane window (run calls s)
unfolding run
run-IsLane [] window s some_room h = h
run-IsLane (c ∷ calls) window s some_room h =
    run-IsLane calls window (step c s) some_room (step-IsLane c window s some_room h)

-- After any calls on a new lane whose window is not empty, the lane counts the requests in flight, no
-- profile has more samples than the window, and each median and tail are samples with the median not
-- above the tail.
pub run-new_lane-IsLane :
    (now : ℕ) (options : LaneOptions) (calls : List Call)
    → 0 < (new_lane now options).window
    → IsLane (new_lane now options).window (run calls (new_lane now options, []))
unfolding new_lane
run-new_lane-IsLane now options calls some_room =
    run-IsLane calls (new_lane now options).window (new_lane now options, []) some_room
      (record {
        counted = refl;
        windowed = refl;
        profiled = λ m. make_profile-IsProfile (new_lane now options).window;
      })

-- After any calls on a new lane whose window is not empty, a predicted round trip lies between two of
-- the recent samples of its kind; the prediction is in units of 1 / 20 of a millisecond.
pub run-predicted_rtt_for :
    (now : ℕ) (options : LaneOptions) (calls : List Call) (m : LaneMeasurement) (r : ℕ)
    → 0 < (new_lane now options).window
    → predicted_rtt_for m (run calls (new_lane now options, [])).0 ≡ some r
    → let samples = ((run calls (new_lane now options, [])).0.profiles m).samples in
      (low : ℕ) × (high : ℕ) × In low samples × In high samples × (20 * low ≤ r) × (r ≤ 20 * high)
unfolding predicted_rtt_for
run-predicted_rtt_for now options calls m r some_room e =
    let h = run-new_lane-IsLane now options calls some_room in
    predicted-between (new_lane now options).window
      ((run calls (new_lane now options, [])).0.profiles m) r (h.profiled m) e
