-- ===== src/LanePool/Replies.antt =====
-- lane-pool.ts: the lane that `#pickSend` gives a reply.
use line_deno_bot.Prelude.{
  ℕ, ◌≡◌, ◌⊎◌, refl, sym, ◌∙◌, ap, Bool, true, false, not, ◌&&◌, Option, none, some, inl, inr, List,
  [], ◌∷◌, arith, if-cases, In, filter, any, ltb, ◌==◌, ◌-◌, subst,
}
use line_deno_bot.Lane.{Lane}
use line_deno_bot.LanePool.{LanePool, is_fast_lane, is_fast_bypassed, is_send_tail_eligible}
use line_deno_bot.LanePool.Pick.{
  is_empty, or_all, is_idle, split_send_band, pinned_send_lane, primaries, pick_pinned, pick_send,
}
use line_deno_bot.LanePool.Choice.{filter-Within, filter-In}
use line_deno_bot.LanePool.Reply.{filter-is_empty, any-filter, pinned_send_lane-In}
use line_deno_bot.LanePool.Reserve.{or_all_full, or_all-absorbs, nonempty_Within}
use line_deno_bot.LanePool.Tiers.{IsReply, pick_tiers-IsReply}

primaries-is_empty :
    (now : ℕ) (p : LanePool) (xs : List Lane) → is_empty (primaries now p xs) ≡ is_empty xs
unfolding primaries
primaries-is_empty now p xs =
    let outside = filter (λ lane. not (is_fast_bypassed now p lane.id)) xs in
    or_all-absorbs (filter (is_send_tail_eligible p) (or_all outside xs)) (or_all outside xs)
      (filter-Within _ _)
    ∙ or_all-absorbs outside xs (filter-Within _ xs)

split_send_band-is_empty :
    (p : LanePool) (pool : List Lane) → is_empty (split_send_band p pool).0 ≡ is_empty pool
unfolding split_send_band
split_send_band-is_empty p pool =
    let first = p.opts.send_reserved_lanes - p.opts.send_spare_lanes in
    let primary = filter (λ lane. ltb lane.id first) pool in
    let P : List Lane × List Lane → Type 0 = λ s. is_empty s.0 ≡ is_empty pool in
    if-cases P (p.opts.send_spare_lanes == 0) (pool, []) _ (λ e. refl)
      (λ e.
        if-cases P (is_empty primary) (pool, []) _ (λ e'. refl)
          (λ e'. e' ∙ sym (nonempty_Within primary pool e' (filter-Within _ pool))))

-- The eligible primary lanes of a reply, and its spares. Eligible are the primary lanes outside the bypass, or
-- all of them when none is; and of these the ones whose p95 is within the ceiling, or all of these when none is.
abbrev pub reply_lanes : ℕ → LanePool → List Lane → List Lane × List Lane
reply_lanes now p pool = (primaries now p (split_send_band p pool).0, (split_send_band p pool).1)

-- A reply that has a lane to go to gets one: an eligible primary lane, or a spare when every eligible primary lane
-- is busy, and then the pin stays. The lane is idle whenever an eligible primary lane is, or a spare, and it is
-- fast and idle whenever an eligible primary lane is both. Eligible are the primary lanes outside the bypass, or
-- all of them when none is; and of these the ones whose p95 is within the ceiling, or all of these when none is.
pub pick_send-IsReply :
    (now : ℕ) (p : LanePool) (pool : List Lane)
    → is_empty pool ≡ false
    → IsReply now p (reply_lanes now p pool).0 (reply_lanes now p pool).1 (pick_send now p pool)
unfolding pick_send
pick_send-IsReply now p pool full = step (pinned_send_lane now p fast_idle) refl
  where
    primary : List Lane
    primary = (reply_lanes now p pool).0

    spare : List Lane
    spare = (reply_lanes now p pool).1

    fast_idle : List Lane
    fast_idle = filter is_idle (filter (is_fast_lane now p) primary)

    step :
        (o : Option Lane)
        → pinned_send_lane now p fast_idle ≡ o
        → IsReply now p primary spare (pick_pinned now p primary spare pool o)
    step (some lane) e =
        let m = pinned_send_lane-In now p fast_idle lane e in
        let fast = filter-Within is_idle (filter (is_fast_lane now p) primary) lane m in
        let idle = filter-In is_idle (filter (is_fast_lane now p) primary) lane m in
        let quick = filter-In (is_fast_lane now p) primary lane fast in
        (inl (filter-Within _ primary lane fast), λ h. idle, λ h. ground (arith, idle, quick))
    step none e = pick_tiers-IsReply now p primary spare pool _ (
        primaries-is_empty now p (split_send_band p pool).0
        ∙ split_send_band-is_empty p pool
        ∙ full)

-- A lane outside the bypass whose tail is within the ceiling.
abbrev pub is_safe : ℕ → LanePool → Lane → Bool
is_safe now p lane = not (is_fast_bypassed now p lane.id) && is_send_tail_eligible p lane

primaries-is_safe :
    (now : ℕ) (p : LanePool) (xs : List Lane) (lane : Lane)
    → any (is_safe now p) xs ≡ true
    → In lane (primaries now p xs)
    → is_safe now p lane ≡ true
unfolding primaries
primaries-is_safe now p xs lane h m =
    let outside = filter (λ l. not (is_fast_bypassed now p l.id)) xs in
    let safe : is_empty (filter (is_send_tail_eligible p) outside) ≡ false =
      rw
        (
          filter-is_empty (is_send_tail_eligible p) outside,
          any-filter (λ l. not (is_fast_bypassed now p l.id)) (is_send_tail_eligible p) xs,
          h,
        )
        refl in
    let full : is_empty outside ≡ false =
      nonempty_Within (filter (is_send_tail_eligible p) outside) outside safe
        (filter-Within _ outside) in
    let m' : In lane (filter (is_send_tail_eligible p) outside) =
      subst (In lane)
        (ap (λ ys. or_all (filter (is_send_tail_eligible p) ys) ys) (or_all_full outside xs full)
          ∙ or_all_full (filter (is_send_tail_eligible p) outside) outside safe)
        m in
    let free =
      filter-In (λ l. not (is_fast_bypassed now p l.id)) xs lane
        (filter-Within _ outside lane m') in
    rw (free, filter-In (is_send_tail_eligible p) outside lane m') refl

-- A reply never goes to a primary lane that is bypassed for a slow send, or whose p95 is above the
-- ceiling, while some primary lane of its pool is neither.
pub pick_send-is_safe :
    (now : ℕ) (p p' : LanePool) (pool : List Lane) (lane : Lane)
    → any (is_safe now p) (split_send_band p pool).0 ≡ true
    → pick_send now p pool ≡ some (p', lane)
    → (is_safe now p lane ≡ true) ⊎ (In lane (split_send_band p pool).1 × (p' ≡ p))
pick_send-is_safe now p p' pool lane h e =
    let all_primary = (split_send_band p pool).0 in
    let full : is_empty pool ≡ false =
      sym (split_send_band-is_empty p pool)
      ∙ (let k = any_full (is_safe now p) all_primary h in k) in
    let reply = pick_send-IsReply now p pool full in
    let reply' : IsReply now p (primaries now p all_primary) (split_send_band p pool).1
        (some (p', lane)) =
      subst (IsReply now p (primaries now p all_primary) (split_send_band p pool).1) e reply in
    elim reply'.0 [
      | inl m ↦ inl (primaries-is_safe now p all_primary lane h m)
      | inr m ↦ inr (m.0, m.1)
    ]
  where
    any_full : (f : Lane → Bool) (xs : List Lane) → any f xs ≡ true → is_empty xs ≡ false
    any_full f [] k = absurd (ground (arith, k))
    any_full f (x ∷ xs) k = refl
