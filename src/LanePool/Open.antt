-- ===== src/LanePool/Open.antt =====
-- lane-pool.ts: what each operation keeps of the lanes that are routable.
use line_deno_bot.Prelude.{
  ℕ, ◌+◌, min, ◌≡◌, refl, sym, subst, ◌∙◌, ap, Bool, true, false, not, ◌&&◌, ◌||◌, Option, none,
  some, List, [], ◌∷◌, arith, if-cases, All, find, ◌==◌, ltb, leb,
}
use line_deno_bot.Lane.{
  Lane, LaneMeasurement, LaneSample, send, warm, is_routable, is_dead, begin_send, end_send,
  fail_send, drain, recycle, record_sample,
}
use line_deno_bot.LanePool.{LanePool, with_lane, is_send_tail_eligible, routable_count}
use line_deno_bot.LanePool.Pick.{is_empty}
use line_deno_bot.LanePool.Events.{
  PoolRequest, begin_on, end_request, end_on, fail_request, after_send, after_failure, note_bypass,
  note_breach, note_streak, noted, without_cooldown, names,
}

-- Every lane is routable until the pool is closed, and none is afterwards.
pub record IsSteady (closed : Bool) (p : LanePool) : Type 0 where
  pub is_closed : p.closed ≡ closed
  pub lanes_open : All (λ lane. is_routable lane ≡ not closed) p.lanes
  pub has_lane : is_empty p.lanes ≡ false

with_lane-All :
    (P : Lane → Type 0) (id : ℕ) (f : Lane → Lane) (xs : List Lane)
    → ((lane : Lane) → P lane → P (f lane))
    → All P xs
    → All P (with_lane id f xs)
unfolding with_lane
with_lane-All P id f [] k h = h
with_lane-All P id f (x ∷ xs) k h =
    let rest = with_lane-All P id f xs k h.1 in
    if-cases (All P) (x.id == id) (f x ∷ with_lane id f xs) (x ∷ with_lane id f xs)
      (λ e. (k x h.0, rest)) (λ e. (h.0, rest))

-- Two changes of one lane, the first of which may break what the second restores.
with_lane-with_lane-All :
    (P : Lane → Type 0) (id : ℕ) (f g : Lane → Lane) (xs : List Lane)
    → ((lane : Lane) → (g lane).id ≡ lane.id)
    → ((lane : Lane) → P lane → P (f (g lane)))
    → All P xs
    → All P (with_lane id f (with_lane id g xs))
unfolding with_lane
with_lane-with_lane-All P id f g [] same k h = h
with_lane-with_lane-All P id f g (x ∷ xs) same k h =
    let rest = with_lane-with_lane-All P id f g xs same k h.1 in
    let inner = with_lane id g xs in
    if-cases (λ ys. All P (with_lane id f ys)) (x.id == id) (g x ∷ inner) (x ∷ inner)
      (λ e.
        if-cases (All P) ((g x).id == id) (f (g x) ∷ with_lane id f inner)
          (g x ∷ with_lane id f inner) (λ e'. (k x h.0, rest))
          (λ e'. let i = same x in absurd (ground (arith, e, e', i))))
      (λ e.
        if-cases (All P) (x.id == id) (f x ∷ with_lane id f inner) (x ∷ with_lane id f inner)
          (λ e'. absurd (ground (arith, e, e'))) (λ e'. (h.0, rest)))

with_lane-is_empty :
    (id : ℕ) (f : Lane → Lane) (xs : List Lane) → is_empty (with_lane id f xs) ≡ is_empty xs
unfolding with_lane
with_lane-is_empty id f [] = refl
with_lane-is_empty id f (x ∷ xs) = ground arith

drain-id : (lane : Lane) → (drain lane).id ≡ lane.id
unfolding drain
drain-id lane = if-cases (λ l. l.id ≡ lane.id) (is_dead lane.state) lane _ (λ e. refl) (λ e. refl)

abbrev pub IsOpen : Bool → Lane → Type 0
IsOpen closed lane = is_routable lane ≡ not closed

-- What a call leaves alone in its pool.
abbrev pub Unmoved : LanePool → LanePool → Type 0
Unmoved p p' = (p'.lanes ≡ p.lanes) × (p'.closed ≡ p.closed)

pub Unmoved-IsSteady :
    (closed : Bool) (p p' : LanePool) → Unmoved p p' → IsSteady closed p → IsSteady closed p'
Unmoved-IsSteady closed p p' (same, same') h = record {
  is_closed = same' ∙ h.is_closed;
  lanes_open = subst (All (IsOpen closed)) (sym same) h.lanes_open;
  has_lane = ap is_empty same ∙ h.has_lane;
}

-- A change of one lane that keeps it routable, or not.
pub with_lane-IsSteady :
    (closed : Bool) (p : LanePool) (id : ℕ) (f : Lane → Lane)
    → ((lane : Lane) → IsOpen closed lane → IsOpen closed (f lane))
    → IsSteady closed p
    → IsSteady closed (record p { lanes = with_lane id f p.lanes })
with_lane-IsSteady closed p id f k h = record {
  is_closed = h.is_closed;
  lanes_open = with_lane-All (IsOpen closed) id f p.lanes k h.lanes_open;
  has_lane = with_lane-is_empty id f p.lanes ∙ h.has_lane;
}

pub begin_on-IsSteady :
    (closed : Bool) (now : ℕ) (m : LaneMeasurement) (upkeep : Bool) (lane : Lane) (p : LanePool)
    → IsSteady closed p
    → IsSteady closed (begin_on now m upkeep lane p).0
unfolding begin_on begin_send is_routable
begin_on-IsSteady closed now m upkeep lane p h =
    with_lane-IsSteady closed p lane.id (λ l. (begin_send now m l).0) (λ l k. k) h

note_bypass-Unmoved :
    (now : ℕ) (lane : Lane) (sample : LaneSample) (p : LanePool)
    → Unmoved p (note_bypass now lane sample p)
unfolding note_bypass
note_bypass-Unmoved now lane sample p =
    if-cases (Unmoved p)
      (not (ltb (p.opts.fast_route_threshold_ms + 3) sample.rtt_ms) && is_send_tail_eligible p lane)
      _ _ (λ e. (refl, refl))
      (λ e. if-cases (Unmoved p) sample.contended p _ (λ e'. (refl, refl)) (λ e'. (refl, refl)))

note_breach-Unmoved :
    (lane : Lane) (sample : LaneSample) (p : LanePool) → Unmoved p (note_breach lane sample p)
unfolding note_breach
note_breach-Unmoved lane sample p =
    if-cases (Unmoved p)
      ((ltb p.opts.fast_route_threshold_ms sample.rtt_ms || not (is_send_tail_eligible p lane))
        && not sample.contended
        && names p.current_send_lane_id lane.id)
      _ p (λ e. (refl, refl)) (λ e. (refl, refl))

note_streak-Unmoved :
    (now : ℕ) (lane : Lane) (sample : LaneSample) (p : LanePool)
    → Unmoved p (note_streak now lane sample p)
unfolding note_streak
note_streak-Unmoved now lane sample p =
    let streak = min 255 (p.slow_send_streak lane.id + 1) in
    if-cases (Unmoved p) sample.contended p _ (λ e. (refl, refl))
      (λ e.
        if-cases (Unmoved p) (leb sample.rtt_ms p.opts.slow_threshold_ms) _ _ (λ e. (refl, refl))
          (λ e.
            if-cases (Unmoved p) (ltb streak p.opts.slow_samples_before_cooldown) _ _
              (λ e. (refl, refl))
              (λ e.
                if-cases (Unmoved p) (leb (routable_count p) 1) _ _ (λ e. (refl, refl))
                  (λ e. (refl, refl)))))

after_send-IsSteady :
    (closed : Bool) (now : ℕ) (lane : Lane) (sample : LaneSample) (p : LanePool)
    → IsSteady closed p
    → IsSteady closed (after_send now lane sample p)
unfolding after_send
after_send-IsSteady closed now lane sample p h =
    let p1 = note_bypass now lane sample p in
    let p2 = note_breach lane sample p1 in
    Unmoved-IsSteady closed p2 (note_streak now lane sample p2)
      (note_streak-Unmoved now lane sample p2)
      (Unmoved-IsSteady closed p1 p2 (note_breach-Unmoved lane sample p1)
        (Unmoved-IsSteady closed p p1 (note_bypass-Unmoved now lane sample p) h))

-- Draining a lane of a closed pool changes nothing: it is dead already.
drain-closed : (lane : Lane) → IsOpen true lane → IsOpen true (drain lane)
unfolding drain is_routable
drain-closed lane h = if-cases (IsOpen true) (is_dead lane.state) lane _ (λ e. h) (λ e. refl)

after_failure-IsSteady :
    (closed : Bool) (now : ℕ) (drains : Bool) (id : ℕ) (p : LanePool)
    → IsSteady closed p
    → IsSteady closed (after_failure now drains id p)
unfolding after_failure recycle is_routable
after_failure-IsSteady closed now drains id p h =
    if-cases (IsSteady closed) (not drains) p _ (λ e. h)
      (λ e.
        if-cases (IsSteady closed) p.closed _ _
          (λ e'.
            let shut : closed ≡ true = sym h.is_closed ∙ e' in
            Unmoved-IsSteady closed (record p { lanes = with_lane id drain p.lanes }) _ (refl, refl)
              (with_lane-IsSteady closed p id drain
                (λ l k.
                  subst (λ c. IsOpen c (drain l)) (sym shut)
                    (drain-closed l (subst (λ c. IsOpen c l) shut k)))
                h))
          (λ e'.
            let open' : closed ≡ false = sym h.is_closed ∙ e' in
            record {
              is_closed = h.is_closed;
              lanes_open =
                  with_lane-with_lane-All (IsOpen closed) id (recycle now) drain p.lanes drain-id
                    (λ l k. rw open' refl) h.lanes_open;
              has_lane =
                  with_lane-is_empty id (recycle now) (with_lane id drain p.lanes)
                  ∙ with_lane-is_empty id drain p.lanes
                  ∙ h.has_lane;
            }))

without_cooldown-IsSteady :
    (closed upkeep : Bool) (id : ℕ) (p : LanePool)
    → IsSteady closed p
    → IsSteady closed (without_cooldown upkeep id p)
without_cooldown-IsSteady closed upkeep id p h =
    if-cases (IsSteady closed) upkeep _ p (λ e. Unmoved-IsSteady closed p _ (refl, refl) h) (λ e. h)

noted-IsSteady :
    (closed : Bool) (now : ℕ) (m : LaneMeasurement) (lane : Lane) (sample : LaneSample)
    (p : LanePool)
    → IsSteady closed p
    → IsSteady closed (noted now m lane sample p)
noted-IsSteady closed now send lane sample p h = after_send-IsSteady closed now lane sample p h
noted-IsSteady closed now LaneMeasurement.preflight lane sample p h = h
noted-IsSteady closed now LaneMeasurement.poll lane sample p h = h
noted-IsSteady closed now LaneMeasurement.general lane sample p h = h
noted-IsSteady closed now warm lane sample p h = h

pub end_request-IsSteady :
    (closed : Bool) (now : ℕ) (r : PoolRequest) (p : LanePool)
    → IsSteady closed p
    → IsSteady closed (end_request now r p)
unfolding end_request end_send record_sample is_routable
end_request-IsSteady closed now r p h =
    without_cooldown-IsSteady closed r.maintains r.lane_id _
      (ended (find (λ lane. lane.id == r.lane_id) p.lanes))
  where
    ended : (o : Option Lane) → IsSteady closed (end_on now r o p)
    ended none = h
    ended (some lane) =
        noted-IsSteady closed now r.request.measurement _ _ _
          (with_lane-IsSteady closed p r.lane_id (λ l. (end_send now r.request l).0) (λ l k. k) h)

pub fail_request-IsSteady :
    (closed : Bool) (now : ℕ) (drains : Bool) (r : PoolRequest) (p : LanePool)
    → IsSteady closed p
    → IsSteady closed (fail_request now drains r p)
unfolding fail_request fail_send is_routable
fail_request-IsSteady closed now drains r p h =
    without_cooldown-IsSteady closed r.maintains r.lane_id _ (
      after_failure-IsSteady closed now drains r.lane_id _
        (with_lane-IsSteady closed p r.lane_id fail_send (λ l k. k) h))
