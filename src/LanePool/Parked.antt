-- ===== src/LanePool/Parked.antt =====
-- lane-pool.ts: when a reply lane is parked for being slow.
use line_deno_bot.Prelude.{
  ℕ, suc, ◌+◌, min, ◌≤◌, ◌≡◌, ◌⊎◌, refl, subst, ap, ◌∙◌, false, not, ◌&&◌, ◌||◌, some, List, [],
  ◌∷◌, arith, if◌then◌else◌, if-cases, ltb, leb, ◌==◌, Bool-cases, inl, inr,
}
use line_deno_bot.Lane.{Lane, LaneSample}
use line_deno_bot.LanePool.{LanePool, until, put, is_send_tail_eligible, routable_count}
use line_deno_bot.LanePool.Events.{after_send, note_bypass, note_breach, note_streak, names}

-- A reply that has come back.
pub record Sent : Type 0 where
  pub at : ℕ
  pub lane : Lane
  pub sample : LaneSample

unfoldable pub run_sends : List Sent → LanePool → LanePool
unfolding after_send
run_sends [] p = p
run_sends (s ∷ sends) p = run_sends sends (after_send s.at s.lane s.sample p)

-- What a reply says of a lane, without the pool: a slow one counts, a fast one forgets the slow ones before
-- it, and a contended one or one on another lane says nothing.
unfoldable pub count : ℕ → ℕ → Sent → ℕ → ℕ
count slow_ms id s n =
    if not (s.lane.id == id) || s.sample.contended
    then n
    else if leb s.sample.rtt_ms slow_ms
    then 0
    else suc n

unfoldable pub slow_run : ℕ → ℕ → List Sent → ℕ → ℕ
unfolding count
slow_run slow_ms id [] n = n
slow_run slow_ms id (s ∷ sends) n = slow_run slow_ms id sends (count slow_ms id s n)

-- What the first two parts of `#afterSend` leave alone.
abbrev pub Unslowed : LanePool → LanePool → Type 0
Unslowed p p' =
    (p'.opts ≡ p.opts)
    × (p'.slow_send_streak ≡ p.slow_send_streak)
    × (p'.cooldown_until ≡ p.cooldown_until)
    × (p'.lanes ≡ p.lanes)

pub note_bypass-Unslowed :
    (now : ℕ) (lane : Lane) (sample : LaneSample) (p : LanePool)
    → Unslowed p (note_bypass now lane sample p)
unfolding note_bypass
note_bypass-Unslowed now lane sample p =
    if-cases (Unslowed p)
      (not (ltb (p.opts.fast_route_threshold_ms + 3) sample.rtt_ms) && is_send_tail_eligible p lane)
      _ _ (λ e. (refl, refl, refl, refl))
      (λ e.
        if-cases (Unslowed p) sample.contended p _ (λ e'. (refl, refl, refl, refl))
          (λ e'. (refl, refl, refl, refl)))

pub note_breach-Unslowed :
    (lane : Lane) (sample : LaneSample) (p : LanePool) → Unslowed p (note_breach lane sample p)
unfolding note_breach
note_breach-Unslowed lane sample p =
    if-cases (Unslowed p)
      ((ltb p.opts.fast_route_threshold_ms sample.rtt_ms || not (is_send_tail_eligible p lane))
        && not sample.contended
        && names p.current_send_lane_id lane.id)
      _ p (λ e. (refl, refl, refl, refl)) (λ e. (refl, refl, refl, refl))

-- One reply: the streak of a lane never outruns the count, the options and the lanes stay, and a cooldown
-- that is new is the lane's own, given at a count of the configured number of slow replies.
module _ (s : Sent) (id : ℕ) where
  abbrev pub IsCounted : LanePool → ℕ → LanePool → Type 0
  IsCounted p n p' =
      (p'.opts ≡ p.opts)
      × (p'.lanes ≡ p.lanes)
      × (p'.slow_send_streak id ≤ count p.opts.slow_threshold_ms id s n)
      × ((p'.cooldown_until id ≡ p.cooldown_until id)
          ⊎ (p.opts.slow_samples_before_cooldown ≤ count p.opts.slow_threshold_ms id s n))

  note_streak-IsCounted :
      (p : LanePool) (n : ℕ)
      → p.slow_send_streak id ≤ n
      → IsCounted p n (note_streak s.at s.lane s.sample p)
  unfolding note_streak count
  note_streak-IsCounted p n h =
      let streak = min 255 (p.slow_send_streak s.lane.id + 1) in
      if-cases (IsCounted p n) s.sample.contended p _
        (λ e. (refl, refl, ground (arith, h, e), inl refl))
        (λ e.
          if-cases (IsCounted p n) (leb s.sample.rtt_ms p.opts.slow_threshold_ms) _ _
            (λ e'. (refl, refl, ground (arith, h, e, e'), inl refl))
            (λ e'.
              if-cases (IsCounted p n) (ltb streak p.opts.slow_samples_before_cooldown) _ _
                (λ k. (refl, refl, counted p n h e e', inl refl))
                (λ k.
                  if-cases (IsCounted p n) (leb (routable_count p) 1) _ _
                    (λ k'. (refl, refl, counted p n h e e', inl refl))
                    (λ k'. (refl, refl, ground (arith, h, e, e'), parked p n h e e' k)))))
    where
      counted :
          (p : LanePool) (n : ℕ)
          → p.slow_send_streak id ≤ n
          → s.sample.contended ≡ false
          → leb s.sample.rtt_ms p.opts.slow_threshold_ms ≡ false
          → put s.lane.id (min 255 (p.slow_send_streak s.lane.id + 1)) p.slow_send_streak id
            ≤ count p.opts.slow_threshold_ms id s n
      counted p n h e e' = elim (Bool-cases (s.lane.id == id)) [
        | inl same ↦
            let i : s.lane.id ≡ id = ground (arith, same) in
            let j : p.slow_send_streak s.lane.id ≡ p.slow_send_streak id =
              ap p.slow_send_streak i in
            ground (arith, same, e, e', h, j)
        | inr other ↦ ground (arith, other, e, e', h)
      ]

      parked :
          (p : LanePool) (n : ℕ)
          → p.slow_send_streak id ≤ n
          → s.sample.contended ≡ false
          → leb s.sample.rtt_ms p.opts.slow_threshold_ms ≡ false
          → ltb (min 255 (p.slow_send_streak s.lane.id + 1)) p.opts.slow_samples_before_cooldown
            ≡ false
          → (put s.lane.id (some (until (s.at + p.opts.slow_cooldown_ms))) p.cooldown_until id
              ≡ p.cooldown_until id)
            ⊎ (p.opts.slow_samples_before_cooldown ≤ count p.opts.slow_threshold_ms id s n)
      parked p n h e e' k = elim (Bool-cases (s.lane.id == id)) [
        | inl same ↦
            let i : s.lane.id ≡ id = ground (arith, same) in
            let k' : ltb (min 255 (p.slow_send_streak id + 1)) p.opts.slow_samples_before_cooldown
                ≡ false =
              subst
                (λ j.
                  ltb (min 255 (p.slow_send_streak j + 1)) p.opts.slow_samples_before_cooldown
                  ≡ false)
                i k in
            inr (ground (arith, same, e, e', h, k'))
        | inr other ↦ inl (rw other refl)
      ]

  pub after_send-IsCounted :
      (p : LanePool) (n : ℕ)
      → p.slow_send_streak id ≤ n
      → IsCounted p n (after_send s.at s.lane s.sample p)
  unfolding after_send
  after_send-IsCounted p n h =
      let p1 = note_bypass s.at s.lane s.sample p in
      let p2 = note_breach s.lane s.sample p1 in
      let (o1, s1, c1, l1) = note_bypass-Unslowed s.at s.lane s.sample p in
      let (o2, s2, c2, l2) = note_breach-Unslowed s.lane s.sample p1 in
      let opts : p2.opts ≡ p.opts = o2 ∙ o1 in
      let streak : p2.slow_send_streak ≡ p.slow_send_streak = s2 ∙ s1 in
      let cooldown : p2.cooldown_until ≡ p.cooldown_until = c2 ∙ c1 in
      let h' : p2.slow_send_streak id ≤ n = rw streak h in
      let (o3, l3, s3, c3) = note_streak-IsCounted p2 n h' in
      (
        o3 ∙ opts,
        l3 ∙ (l2 ∙ l1),
        subst
            (λ o.
              (note_streak s.at s.lane s.sample p2).slow_send_streak id
              ≤ count o.slow_threshold_ms id s n)
            opts s3,
        elim c3 [
          | inl e ↦ inl (e ∙ ap (λ f. f id) cooldown)
          | inr e ↦ inr (
              subst (λ o. o.slow_samples_before_cooldown ≤ count o.slow_threshold_ms id s n) opts e)
        ],
      )

run_sends-counted :
    (sends : List Sent) (id : ℕ) (p : LanePool) (n : ℕ)
    → p.slow_send_streak id ≤ n
    → ((run_sends sends p).opts ≡ p.opts)
      × ((run_sends sends p).slow_send_streak id ≤ slow_run p.opts.slow_threshold_ms id sends n)
unfolding run_sends slow_run
run_sends-counted [] id p n h = (refl, h)
run_sends-counted (s ∷ sends) id p n h =
    let p1 = after_send s.at s.lane s.sample p in
    let (o, l, k, c) = after_send-IsCounted s id p n h in
    let (o', k') = run_sends-counted sends id p1 (count p.opts.slow_threshold_ms id s n) k in
    (
      o' ∙ o,
      subst
          (λ q.
            (run_sends sends p1).slow_send_streak id
            ≤ slow_run q.slow_threshold_ms id sends (count p.opts.slow_threshold_ms id s n))
          o k',
    )

-- A reply gives a lane a cooldown only when at least the configured number of the lane's replies were slow
-- and had it to themselves, with none within the threshold among them: after any replies, from a pool
-- in which the lane has no slow one.
pub after_send-parks :
    (sends : List Sent) (s : Sent) (id : ℕ) (p : LanePool)
    → p.slow_send_streak id ≡ 0
    → let before = run_sends sends p in
      ((after_send s.at s.lane s.sample before).cooldown_until id ≡ before.cooldown_until id)
      ⊎ (p.opts.slow_samples_before_cooldown
          ≤ count p.opts.slow_threshold_ms id s (slow_run p.opts.slow_threshold_ms id sends 0))
after_send-parks sends s id p h =
    let before = run_sends sends p in
    let n = slow_run p.opts.slow_threshold_ms id sends 0 in
    let (o, k) = run_sends-counted sends id p 0 (omega (arith, h)) in
    let (o', l, k', c) = after_send-IsCounted s id before n k in
    elim c [
      | inl e ↦ inl e
      | inr e ↦
          inr (subst (λ q. q.slow_samples_before_cooldown ≤ count q.slow_threshold_ms id s n) o e)
    ]
