-- ===== src/LanePool/Near.antt =====
-- lane-pool.ts: how far the lane that `#bestSend` takes can be from the fastest one.
use line_deno_bot.Prelude.{
  ℕ, suc, ◌+◌, ◌*◌, ◌-◌, ◌≤◌, ◌≡◌, refl, sym, Bool, true, false, Option, none, some, inl, inr, List,
  [], ◌∷◌, arith, if◌then◌else◌, if-cases, In, length,
}
use line_deno_bot.Lane.{Lane, send, predicted_rtt_for}
use line_deno_bot.LanePool.{LanePool}
use line_deno_bot.LanePool.Pick.{best_of, faster, beats_for_send, best_send}

-- At most `slack` above the other prediction; a lane with none is last.
abbrev pub IsNear : ℕ → Option ℕ → Option ℕ → Type 0
IsNear slack a none = Unit
IsNear slack none (some b) = ⊥
IsNear slack (some a) (some b) = a ≤ b + slack

IsNear-refl : (slack : ℕ) (a : Option ℕ) → IsNear slack a a
IsNear-refl slack none = tt
IsNear-refl slack (some a) = omega arith

IsNear-trans : (m n : ℕ) (a b c : Option ℕ) → IsNear m a b → IsNear n b c → IsNear (m + n) a c
IsNear-trans m n a b none h k = tt
IsNear-trans m n a none (some c) h k = absurd k
IsNear-trans m n none (some b) (some c) h k = absurd h
IsNear-trans m n (some a) (some b) (some c) h k = omega (arith, h, k)

faster-IsNear : (m : ℕ) (a b : Option ℕ) (tie : Bool) → faster m a b tie ≡ true → IsNear m a b
faster-IsNear m none b tie e = absurd (ground (arith, e))
faster-IsNear m (some a) none tie e = tt
faster-IsNear m (some a) (some b) tie e = ground (arith, e)

slower-IsNear : (m : ℕ) (a b : Option ℕ) (tie : Bool) → faster m a b tie ≡ false → IsNear m b a
slower-IsNear m none b tie e = tt
slower-IsNear m (some a) none tie e = absurd (ground (arith, e))
slower-IsNear m (some a) (some b) tie e = ground (arith, e)

abbrev rtt : Lane → Option ℕ
rtt = predicted_rtt_for send

module _ (p : LanePool) where
  beats_for_send-IsNear :
      (x best : Lane) (n : ℕ)
      → let chosen = if beats_for_send p x best then x else best in
        IsNear p.opts.switch_margin (rtt chosen) (rtt best)
        × IsNear p.opts.switch_margin (rtt chosen) (rtt x)
  unfolding beats_for_send
  beats_for_send-IsNear x best n =
      if-cases
        (λ l.
          IsNear p.opts.switch_margin (rtt l) (rtt best)
          × IsNear p.opts.switch_margin (rtt l) (rtt x))
        (beats_for_send p x best) x best
        (λ e. (faster-IsNear p.opts.switch_margin (rtt x) (rtt best) _ e, IsNear-refl _ (rtt x)))
        (λ e. (IsNear-refl _ (rtt best), slower-IsNear p.opts.switch_margin (rtt x) (rtt best) _ e))

  best_of-IsNear :
      (best : Lane) (xs : List Lane) (lane : Lane)
      → In lane (best ∷ xs)
      → IsNear
          (length xs * p.opts.switch_margin)
          (rtt (best_of (beats_for_send p) best xs))
          (rtt lane)
  best_of-IsNear best [] lane (inl e) = rw e (IsNear-refl _ (rtt best))
  best_of-IsNear best [] lane (inr m) = absurd m
  best_of-IsNear best (x ∷ xs) lane m =
      let margin = p.opts.switch_margin in
      let chosen = if beats_for_send p x best then x else best in
      let (to_best, to_x) = beats_for_send-IsNear x best 0 in
      let here : IsNear (length xs * margin) (rtt (best_of (beats_for_send p) chosen xs))
          (rtt chosen) =
        best_of-IsNear chosen xs chosen (inl refl) in
      let same : length xs * margin + margin ≡ suc (length xs) * margin = omega arith in
      elim m [
        | inl e ↦ rw (e, sym same) (IsNear-trans _ margin _ (rtt chosen) _ here to_best)
        | inr (inl e) ↦ rw (e, sym same) (IsNear-trans _ margin _ (rtt chosen) _ here to_x)
        | inr (inr k) ↦ rw (sym same) (
            IsNear-trans _ margin _ (rtt lane) _ (best_of-IsNear chosen xs lane (inr k))
              (weak (rtt lane)))
      ]
    where
      weak : (a : Option ℕ) → IsNear p.opts.switch_margin a a
      weak a = IsNear-refl _ a

-- The lane that `#bestSend` takes is predicted to be at most one switch margin slower for each other
-- candidate than any candidate, and it has a measurement when some candidate has one.
pub best_send-IsNear :
    (p : LanePool) (lanes : List Lane) (best lane : Lane)
    → best_send p lanes ≡ some best
    → In lane lanes
    → IsNear
        ((length lanes - 1) * p.opts.switch_margin)
        (predicted_rtt_for send best)
        (predicted_rtt_for send lane)
unfolding best_send
best_send-IsNear p [] best lane e m = absurd m
best_send-IsNear p (x ∷ xs) best lane e m =
    let same : best_of (beats_for_send p) x xs ≡ best = ground (arith, e) in
    let others : suc (length xs) - 1 ≡ length xs = omega arith in
    rw (sym same, others) (best_of-IsNear p x xs lane m)
