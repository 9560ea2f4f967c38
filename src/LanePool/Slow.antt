-- ===== src/LanePool/Slow.antt =====
-- lane-pool.ts: a reply lane that stays slow is parked.
use line_deno_bot.Prelude.{
  ℕ, ◌+◌, min, ◌≤◌, ◌<◌, ◌≡◌, sym, subst, ap, ◌∙◌, false, some, List, [], ◌∷◌, arith, length,
  filter, All,
}
use line_deno_bot.Lane.{is_routable}
use line_deno_bot.LanePool.{LanePool, until, routable_count, Settings}
use line_deno_bot.LanePool.Events.{after_send, note_bypass, note_breach, note_streak}
use line_deno_bot.LanePool.Parked.{
  Sent, run_sends, note_bypass-Unslowed, note_breach-Unslowed, after_send-IsCounted,
}

-- A slow reply that had the lane of the id to itself.
abbrev IsSlow : Settings → ℕ → Sent → Type 0
IsSlow o id s =
    (s.lane.id ≡ id) × (s.sample.contended ≡ false) × (o.slow_threshold_ms < s.sample.rtt_ms)

abbrev last_at : ℕ → List Sent → ℕ
last_at t [] = t
last_at t (s ∷ sends) = last_at s.at sends

note_streak-slow :
    (s : Sent) (p : LanePool)
    → s.sample.contended ≡ false
    → p.opts.slow_threshold_ms < s.sample.rtt_ms
    → let streak = min 255 (p.slow_send_streak s.lane.id + 1) in
      let p' = note_streak s.at s.lane s.sample p in
      (streak < p.opts.slow_samples_before_cooldown → p'.slow_send_streak s.lane.id ≡ streak)
      × (1 < routable_count p
          → p.opts.slow_samples_before_cooldown ≤ streak
          → p'.cooldown_until s.lane.id ≡ some (until (s.at + p.opts.slow_cooldown_ms)))
unfolding note_streak
note_streak-slow s p alone slow =
    (λ h. ground (arith, alone, slow, h), λ h h'. ground (arith, alone, slow, h, h'))

after_send-slow :
    (s : Sent) (id : ℕ) (p : LanePool)
    → IsSlow p.opts id s
    → let streak = min 255 (p.slow_send_streak id + 1) in
      let p' = after_send s.at s.lane s.sample p in
      (streak < p.opts.slow_samples_before_cooldown → p'.slow_send_streak id ≡ streak)
      × (1 < routable_count p
          → p.opts.slow_samples_before_cooldown ≤ streak
          → p'.cooldown_until id ≡ some (until (s.at + p.opts.slow_cooldown_ms)))
unfolding after_send routable_count
after_send-slow s id p (i, alone, slow) =
    let p1 = note_bypass s.at s.lane s.sample p in
    let p2 = note_breach s.lane s.sample p1 in
    let (o1, s1, c1, l1) = note_bypass-Unslowed s.at s.lane s.sample p in
    let (o2, s2, c2, l2) = note_breach-Unslowed s.lane s.sample p1 in
    let opts : p2.opts ≡ p.opts = o2 ∙ o1 in
    let streak : p2.slow_send_streak s.lane.id ≡ p.slow_send_streak id =
      ap (λ f. f s.lane.id) (s2 ∙ s1) ∙ ap p.slow_send_streak i in
    let count' : routable_count p2 ≡ routable_count p =
      ap (λ xs. length (filter is_routable xs)) (l2 ∙ l1) in
    let p3 = note_streak s.at s.lane s.sample p2 in
    let (a, b) =
      note_streak-slow s p2 alone
        (subst (λ o. o.slow_threshold_ms < s.sample.rtt_ms) (sym opts) slow) in
    let samples : p2.opts.slow_samples_before_cooldown ≡ p.opts.slow_samples_before_cooldown =
      ap (λ o. o.slow_samples_before_cooldown) opts in
    let time : p2.opts.slow_cooldown_ms ≡ p.opts.slow_cooldown_ms =
      ap (λ o. o.slow_cooldown_ms) opts in
    (
      λ h.
          ap p3.slow_send_streak (sym i)
          ∙ a (omega (arith, h, streak, samples))
          ∙ ap (λ n. min 255 (n + 1)) streak,
      λ h h'.
          ap p3.cooldown_until (sym i)
          ∙ b (omega (arith, h, count')) (omega (arith, h', streak, samples))
          ∙ ap (λ t. some (until (s.at + t))) time,
    )

after_send-stays :
    (s : Sent) (id : ℕ) (p : LanePool)
    → let p' = after_send s.at s.lane s.sample p in
      (p'.opts ≡ p.opts) × (routable_count p' ≡ routable_count p)
unfolding routable_count
after_send-stays s id p =
    let (o, l, k, c) = after_send-IsCounted s id p (p.slow_send_streak id) (omega arith) in
    (o, ap (λ xs. length (filter is_routable xs)) l)

-- A lane whose replies are slow, one after another and each alone on it, is parked by the last of as many
-- as the options ask for, at most 255, when another lane is routable.
pub run_sends-parks :
    (sends : List Sent) (id t : ℕ) (p : LanePool)
    → 1 < routable_count p
    → p.opts.slow_samples_before_cooldown ≤ 255
    → 0 < length sends
    → p.slow_send_streak id + length sends ≡ p.opts.slow_samples_before_cooldown
    → All (IsSlow p.opts id) sends
    → (run_sends sends p).cooldown_until id
      ≡ some (until (last_at t sends + p.opts.slow_cooldown_ms))
unfolding run_sends
run_sends-parks [] id t p many small some_send total slow = absurd (omega (arith, some_send))
run_sends-parks (s ∷ []) id t p many small some_send total slow =
    (after_send-slow s id p slow.0).1 many (omega (arith, total, small))
run_sends-parks (s ∷ s' ∷ sends) id t p many small some_send total slow =
    let p1 = after_send s.at s.lane s.sample p in
    let (o, c) = after_send-stays s id p in
    let grown = (after_send-slow s id p slow.0).0 (omega (arith, total, small)) in
    let samples : p1.opts.slow_samples_before_cooldown ≡ p.opts.slow_samples_before_cooldown =
      ap (λ q. q.slow_samples_before_cooldown) o in
    run_sends-parks (s' ∷ sends) id t p1 (omega (arith, many, c)) (omega (arith, small, samples))
      (omega arith) (omega (arith, grown, total, samples, small))
      (subst (λ q. All (IsSlow q id) (s' ∷ sends)) (sym o) slow.1)
    ∙ ap (λ q. some (until (last_at t (s ∷ s' ∷ sends) + q.slow_cooldown_ms))) o
