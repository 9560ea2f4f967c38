-- ===== src/LanePool/Least.antt =====
-- lane-pool.ts: the picks of the warmer and of a lane without a fresh sample.
use line_deno_bot.Prelude.{
  ℕ, ◌≡◌, refl, sym, subst, ap, ◌∙◌, Bool, true, false, not, Option, none, some, inl, inr, List, [],
  ◌∷◌, arith, if◌then◌else◌, if-cases, In, filter,
}
use line_deno_bot.Lane.{Lane, LaneMeasurement, warm, last_rtt_at_for}
use line_deno_bot.LanePool.{LanePool, has_fresh_sample}
use line_deno_bot.LanePool.Pick.{
  best_of, reduce, is_empty, or_all, is_idle, earlier, warmed_earlier, less_loaded, beats,
  pick_warm, pick_measured,
}
use line_deno_bot.LanePool.Choice.{filter-In, reduce-Found}
use line_deno_bot.LanePool.Reserve.{filter-all}

-- What a strict order needs for a `reduce` to find a least lane.
pub record IsOrder (better : Lane → Lane → Bool) : Type 0 where
  pub irreflexive : (a : Lane) → better a a ≡ false
  pub cotransitive : (a b c : Lane) → better a b ≡ false → better b c ≡ false → better a c ≡ false
  pub asymmetric : (a b : Lane) → better a b ≡ true → better b a ≡ false

best_of-least :
    (better : Lane → Lane → Bool) (best : Lane) (xs : List Lane) (lane : Lane)
    → IsOrder better
    → In lane (best ∷ xs)
    → better lane (best_of better best xs) ≡ false
best_of-least better best [] lane o (inl e) = rw e (o.irreflexive best)
best_of-least better best [] lane o (inr m) = absurd m
best_of-least better best (x ∷ xs) lane o m =
    if-cases (λ b. better lane (best_of better b xs) ≡ false) (better x best) x best
      (λ e. elim m [
        | inl k ↦ rw k (
            o.cotransitive best x _ (o.asymmetric x best e)
              (best_of-least better x xs x o (inl refl)))
        | inr k ↦ best_of-least better x xs lane o k
      ])
      (λ e. elim m [
        | inl k ↦ best_of-least better best xs lane o (inl k)
        | inr (inl k) ↦
            rw k (o.cotransitive x best _ e (best_of-least better best xs best o (inl refl)))
        | inr (inr k) ↦ best_of-least better best xs lane o (inr k)
      ])

earlier_irreflexive : (a : Option ℕ) → earlier a a ≡ false
earlier_irreflexive none = refl
earlier_irreflexive (some a) = ground arith

earlier_cotransitive :
    (a b c : Option ℕ) → earlier a b ≡ false → earlier b c ≡ false → earlier a c ≡ false
earlier_cotransitive a b none h k = refl
earlier_cotransitive a none (some c) h k = absurd (ground (arith, k))
earlier_cotransitive none (some b) (some c) h k = absurd (ground (arith, h))
earlier_cotransitive (some a) (some b) (some c) h k = ground (arith, h, k)

earlier_asymmetric : (a b : Option ℕ) → earlier a b ≡ true → earlier b a ≡ false
earlier_asymmetric a none h = absurd (ground (arith, h))
earlier_asymmetric none (some b) h = refl
earlier_asymmetric (some a) (some b) h = ground (arith, h)

warmed_earlier-IsOrder : IsOrder warmed_earlier
warmed_earlier-IsOrder = record {
  irreflexive = λ a. earlier_irreflexive (last_rtt_at_for warm a);
  cotransitive = λ a b c h k. earlier_cotransitive _ (last_rtt_at_for warm b) _ h k;
  asymmetric = λ a b h. earlier_asymmetric (last_rtt_at_for warm a) (last_rtt_at_for warm b) h;
}

less_loaded-IsOrder : (m : LaneMeasurement) → IsOrder (less_loaded m)
less_loaded-IsOrder m = record {
  irreflexive = λ a. let e = earlier_irreflexive (last_rtt_at_for m a) in ground (arith, e);
  cotransitive = λ a b c h k.
      let e =
        earlier_cotransitive (last_rtt_at_for m a) (last_rtt_at_for m b) (last_rtt_at_for m c) in
      ground (arith, h, k, e);
  asymmetric = λ a b h.
      let e = earlier_asymmetric (last_rtt_at_for m a) (last_rtt_at_for m b) in
      ground (arith, h, e);
}

-- The warmer takes an idle lane when there is one, and no idle lane was warmed longer ago.
pub pick_warm-least :
    (lanes : List Lane) (best lane : Lane)
    → pick_warm lanes ≡ some best
    → In lane lanes
    → is_idle lane ≡ true
    → (is_idle best ≡ true)
      × (earlier (last_rtt_at_for warm lane) (last_rtt_at_for warm best) ≡ false)
pick_warm-least lanes best lane e m h =
    go (filter is_idle lanes) refl (filter-all is_idle lanes lane m h)
  where
    go :
        (idle : List Lane)
        → filter is_idle lanes ≡ idle
        → In lane idle
        → (is_idle best ≡ true)
          × (earlier (last_rtt_at_for warm lane) (last_rtt_at_for warm best) ≡ false)
    go [] f k = absurd k
    go (x ∷ xs) f k =
        let e' : reduce warmed_earlier (or_all (x ∷ xs) lanes) ≡ some best =
          subst (λ l. reduce warmed_earlier (or_all l lanes) ≡ some best) f e in
        let same : best_of warmed_earlier x xs ≡ best = ground (arith, e') in
        let found : In best (x ∷ xs) =
          subst (λ b. In b (x ∷ xs)) same (reduce-Found warmed_earlier (x ∷ xs)) in
        (
          filter-In is_idle lanes best (rw f found),
          subst (λ b. warmed_earlier lane b ≡ false) same
              (best_of-least warmed_earlier x xs lane warmed_earlier-IsOrder k),
        )

-- Untagged work and polls go, while some lane of their pool has no fresh sample, to the one of these
-- with the fewest requests in flight, and among such to the one measured longest ago.
pub pick_measured-least :
    (now : ℕ) (p : LanePool) (m : LaneMeasurement) (lanes : List Lane) (best lane : Lane)
    → pick_measured now p m lanes ≡ some best
    → In lane lanes
    → has_fresh_sample now p m lane ≡ false
    → (has_fresh_sample now p m best ≡ false) × (less_loaded m lane best ≡ false)
pick_measured-least now p m lanes best lane e k h =
    go (filter stale lanes) refl (filter-all stale lanes lane k (ground (arith, h)))
  where
    stale : Lane → Bool
    stale l = not (has_fresh_sample now p m l)

    go :
        (xs : List Lane)
        → filter stale lanes ≡ xs
        → In lane xs
        → (has_fresh_sample now p m best ≡ false) × (less_loaded m lane best ≡ false)
    go [] f k = absurd k
    go (x ∷ xs) f k =
        let e' : reduce (less_loaded m) (x ∷ xs) ≡ some best =
          sym
            (ap (λ l. if is_empty l then reduce (beats p m) lanes else reduce (less_loaded m) l) f)
          ∙ e in
        let same : best_of (less_loaded m) x xs ≡ best = ground (arith, e') in
        let found : In best (x ∷ xs) =
          subst (λ b. In b (x ∷ xs)) same (reduce-Found (less_loaded m) (x ∷ xs)) in
        let best_stale = filter-In stale lanes best (rw f found) in
        (
          ground (arith, best_stale),
          subst (λ b. less_loaded m lane b ≡ false) same
              (best_of-least (less_loaded m) x xs lane (less_loaded-IsOrder m) k),
        )
