-- ===== src/LanePool/Reply.antt =====
-- lane-pool.ts: a reply's lane is one of the lanes that it may use.
use line_deno_bot.Prelude.{
  ℕ, ◌≡◌, refl, sym, ◌-◌, Bool, true, false, not, ◌&&◌, Option, none, some, inl, inr, List, [], ◌∷◌,
  arith, if-cases, In, filter, find, any, ltb, ◌==◌,
}
use line_deno_bot.Lane.{Lane}
use line_deno_bot.LanePool.{LanePool, is_fast_bypassed, is_send_tail_eligible, is_fast_lane}
use line_deno_bot.LanePool.Pick.{
  is_empty, or_all, is_idle, split_send_band, pinned_send_lane, pin_among, fresh_only, primaries,
  pick_pinned, pick_send,
}
use line_deno_bot.LanePool.Choice.{Within, filter-Within, or_all-Within, Chosen, pick_tiers-Chosen}

pub filter-is_empty : (p : Lane → Bool) (xs : List Lane) → is_empty (filter p xs) ≡ not (any p xs)
filter-is_empty p [] = refl
filter-is_empty p (x ∷ xs) = ground (arith, filter-is_empty p xs)

pub any-In :
    (p : Lane → Bool) (xs : List Lane) (lane : Lane) → In lane xs → p lane ≡ true → any p xs ≡ true
any-In p [] lane m h = absurd m
any-In p (x ∷ xs) lane (inl e) h = let px : p x ≡ true = rw (sym e) h in ground (arith, px)
any-In p (x ∷ xs) lane (inr m) h = let rest = any-In p xs lane m h in ground (arith, rest)

pub any-filter :
    (p q : Lane → Bool) (xs : List Lane) → any q (filter p xs) ≡ any (λ lane. p lane && q lane) xs
any-filter p q [] = refl
any-filter p q (x ∷ xs) = ground (arith, any-filter p q xs)

primaries-Within : (now : ℕ) (p : LanePool) (xs : List Lane) → Within (primaries now p xs) xs
unfolding primaries
primaries-Within now p xs =
    let outside = filter (λ lane. not (is_fast_bypassed now p lane.id)) xs in
    let w : Within (or_all outside xs) xs =
      or_all-Within outside xs xs (filter-Within _ xs) (λ l m. m) in
    or_all-Within (filter (is_send_tail_eligible p) (or_all outside xs)) (or_all outside xs) xs
      (λ l m. w l (filter-Within _ (or_all outside xs) l m)) w

split_send_band-Within :
    (p : LanePool) (pool : List Lane)
    → Within (split_send_band p pool).0 pool × Within (split_send_band p pool).1 pool
unfolding split_send_band
split_send_band-Within p pool =
    let first = p.opts.send_reserved_lanes - p.opts.send_spare_lanes in
    let P : List Lane × List Lane → Type 0 = λ s. Within s.0 pool × Within s.1 pool in
    if-cases P (p.opts.send_spare_lanes == 0) (pool, []) _ (λ e. (λ l m. m, λ l m. absurd m))
      (λ e.
        if-cases P (is_empty (filter (λ lane. ltb lane.id first) pool)) (pool, []) _
          (λ e'. (λ l m. m, λ l m. absurd m)) (λ e'. (filter-Within _ pool, filter-Within _ pool)))

pub find-Found :
    (q : Lane → Bool) (xs : List Lane) (lane : Lane)
    → find q xs ≡ some lane
    → In lane xs × (q lane ≡ true)
find-Found q [] lane = λ e. absurd (ground (arith, e))
find-Found q (x ∷ xs) lane =
    if-cases (λ o. o ≡ some lane → In lane (x ∷ xs) × (q lane ≡ true)) (q x) (some x) (find q xs)
      (λ h e. let e' : x ≡ lane = ground (arith, e) in (inl (sym e'), rw (sym e') h))
      (λ h e. let (m, k) = find-Found q xs lane e in (inr m, k))

pin_among-Found :
    (now : ℕ) (p : LanePool) (pin : Option ℕ) (xs : List Lane) (lane : Lane)
    → pin_among now p pin xs ≡ some lane
    → In lane xs
pin_among-Found now p none xs lane = λ e. absurd (ground (arith, e))
pin_among-Found now p (some id) xs lane = step (find (λ l. l.id == id) xs) refl
  where
    step :
        (o : Option Lane)
        → find (λ l. l.id == id) xs ≡ o
        → fresh_only now p o ≡ some lane
        → In lane xs
    step none f e = absurd (ground (arith, e))
    step (some x) f e =
        let same : x ≡ lane = ground (arith, e) in
        rw (sym same) (find-Found (λ l. l.id == id) xs x f).0

pub pinned_send_lane-In :
    (now : ℕ) (p : LanePool) (xs : List Lane) (lane : Lane)
    → pinned_send_lane now p xs ≡ some lane
    → In lane xs
unfolding pinned_send_lane
pinned_send_lane-In now p xs lane e = pin_among-Found now p p.current_send_lane_id xs lane e

pub pick_send-Chosen :
    (now : ℕ) (p : LanePool) (pool : List Lane)
    → is_empty pool ≡ false
    → Chosen p pool (pick_send now p pool)
unfolding pick_send
pick_send-Chosen now p pool e = step (pinned_send_lane now p candidates') refl
  where
    all_primary : List Lane
    all_primary = (split_send_band p pool).0

    primary : List Lane
    primary = primaries now p all_primary

    candidates' : List Lane
    candidates' = filter is_idle (filter (is_fast_lane now p) primary)

    w : Within primary pool
    w l m = (split_send_band-Within p pool).0 l (primaries-Within now p all_primary l m)

    step :
        (o : Option Lane)
        → pinned_send_lane now p candidates' ≡ o
        → Chosen p pool (pick_pinned now p primary (split_send_band p pool).1 pool o)
    step (some lane) f =
        let m = pinned_send_lane-In now p candidates' lane f in
        (
          w lane (
              filter-Within _ primary lane
                (filter-Within is_idle (filter (is_fast_lane now p) primary) lane m)),
          refl,
        )
    step none f =
        pick_tiers-Chosen now p primary (split_send_band p pool).1 pool _ e w
          (split_send_band-Within p pool).1
