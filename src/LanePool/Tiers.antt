-- ===== src/LanePool/Tiers.antt =====
-- lane-pool.ts: the order in which `#pickSend` prefers the lanes of a reply.
use line_deno_bot.Prelude.{
  ℕ, ◌≡◌, ◌⊎◌, refl, Bool, true, false, not, ◌&&◌, ◌||◌, Option, none, some, inl, inr, List, [],
  ◌∷◌, arith, if-cases, In, filter, any,
}
use line_deno_bot.Lane.{Lane, send}
use line_deno_bot.LanePool.{LanePool, is_fast_lane, has_fresh_sample}
use line_deno_bot.LanePool.Pick.{is_empty, is_idle, best_send, taken, kept, pick_tiers}
use line_deno_bot.LanePool.Choice.{
  Within, filter-Within, filter-In, Found, reduce-Found, best_untried-Found, overflow-Found,
}
use line_deno_bot.LanePool.Reply.{filter-is_empty, any-filter}
use line_deno_bot.LanePool.Reserve.{or_all_full}

-- What a reply gets, whatever the tier, of the primary lanes and the spares.
abbrev pub IsReply : ℕ → LanePool → List Lane → List Lane → Option (LanePool × Lane) → Type 0
IsReply now p primary spare none = ⊥
IsReply now p primary spare (some (p', lane)) =
    (In lane primary ⊎ (In lane spare × (p' ≡ p) × (any is_idle primary ≡ false)))
    × ((any is_idle primary || any is_idle spare) ≡ true → is_idle lane ≡ true)
    × (any (λ l. is_fast_lane now p l && is_idle l) primary ≡ true
        → (is_fast_lane now p lane && is_idle lane) ≡ true)

-- A tier below the first, when its lanes are idle.
module _ (now : ℕ) (p : LanePool) (primary spare : List Lane) where
  abbrev NoFast : Type 0
  NoFast = is_empty (filter is_idle (filter (is_fast_lane now p) primary)) ≡ true

  slow_lem : NoFast → {A : Type 0} → any (λ l. is_fast_lane now p l && is_idle l) primary ≡ true → A
  slow_lem e h =
      let k = filter-is_empty is_idle (filter (is_fast_lane now p) primary) in
      let k' = any-filter (is_fast_lane now p) is_idle primary in
      absurd (ground (arith, e, h, k, k'))

  take-idle :
      NoFast
      → (busy : Bool) (xs : List Lane) (o : Option Lane) → is_empty xs ≡ false
      → Within xs (filter is_idle primary)
      → Found xs o
      → IsReply now p primary spare (taken busy p o)
  take-idle e busy xs none full w f = absurd (ground (arith, full, f))
  take-idle e busy xs (some lane) full w f = (
    inl (filter-Within is_idle primary lane (w lane f)),
    λ h. filter-In is_idle primary lane (w lane f),
    slow_lem e,
  )

  take-busy :
      NoFast
      → (busy : Bool) (xs : List Lane) (o : Option Lane) → is_empty xs ≡ false
      → (any is_idle primary || any is_idle spare) ≡ false
      → Within xs primary
      → Found xs o
      → IsReply now p primary spare (taken busy p o)
  take-busy e busy xs none full idle w f = absurd (ground (arith, full, f))
  take-busy e busy xs (some lane) full idle w f =
      (inl (w lane f), λ h. absurd (ground (arith, h, idle)), slow_lem e)

  keep-spare :
      NoFast
      → (o : Option Lane) → is_empty (filter is_idle primary) ≡ true
      → is_empty (filter is_idle spare) ≡ false
      → Found (filter is_idle spare) o
      → IsReply now p primary spare (kept p o)
  keep-spare e none idle full f = absurd (ground (arith, full, f))
  keep-spare e (some lane) idle full f = (
    inr (
      filter-Within is_idle spare lane f,
      refl,
      (let k = filter-is_empty is_idle primary in ground (arith, k, idle)),
    ),
    λ h. filter-In is_idle spare lane f,
    slow_lem e,
  )

  take-fast :
      (busy : Bool) (o : Option Lane)
      → let fast_idle = filter is_idle (filter (is_fast_lane now p) primary) in
        is_empty fast_idle ≡ false
        → Found fast_idle o
        → IsReply now p primary spare (taken busy p o)
  take-fast busy none full f = absurd (ground (arith, full, f))
  take-fast busy (some lane) full f =
      let fast = filter (is_fast_lane now p) primary in
      let m = filter-Within is_idle fast lane f in
      let idle = filter-In is_idle fast lane f in
      let quick = filter-In (is_fast_lane now p) primary lane m in
      (inl (filter-Within _ primary lane m), λ h. idle, λ h. ground (arith, idle, quick))

-- The lanes with a sample and those without are all the lanes.
halves_lem :
    (f : Lane → Bool) (xs : List Lane)
    → is_empty (filter f xs) ≡ true
    → is_empty (filter (λ lane. not (f lane)) xs) ≡ true
    → is_empty xs ≡ true
halves_lem f [] h k = refl
halves_lem f (x ∷ xs) h k = absurd (ground (arith, h, k))

pub pick_tiers-IsReply :
    (now : ℕ) (p : LanePool) (primary spare pool : List Lane) (busy : Bool)
    → is_empty primary ≡ false
    → IsReply now p primary spare (pick_tiers now p primary spare pool busy)
unfolding pick_tiers best_send
pick_tiers-IsReply now p primary spare pool busy full =
    let timed : Lane → Bool = has_fresh_sample now p send in
    let untimed : Lane → Bool = λ lane. not (timed lane) in
    let idle = filter is_idle primary in
    let fast_idle = filter is_idle (filter (is_fast_lane now p) primary) in
    let idle_spare = filter is_idle spare in
    if-cases (IsReply now p primary spare) (not (is_empty fast_idle)) _ _
      (λ e1. take-fast now p primary spare busy _ (ground (arith, e1)) (reduce-Found _ fast_idle))
      (λ e1.
        let slow : is_empty fast_idle ≡ true = ground (arith, e1) in
        if-cases (IsReply now p primary spare)
          (not (is_empty primary) && is_empty idle && not (is_empty idle_spare)) _ _
          (λ e2.
            keep-spare now p primary spare slow _ (ground (arith, e2)) (ground (arith, e2))
              (overflow-Found now p idle_spare))
          (λ e2.
            if-cases (IsReply now p primary spare) (not (is_empty (filter timed idle))) _ _
              (λ e3.
                take-idle now p primary spare slow busy (filter timed idle) _ (ground (arith, e3))
                  (filter-Within timed idle) (reduce-Found _ (filter timed idle)))
              (λ e3.
                if-cases (IsReply now p primary spare) (not (is_empty (filter untimed idle))) _ _
                  (λ e4.
                    take-idle now p primary spare slow busy (filter untimed idle) _
                      (ground (arith, e4)) (filter-Within untimed idle)
                      (best_untried-Found now p (filter untimed idle)))
                  (λ e4.
                    let no_idle : is_empty idle ≡ true =
                      halves_lem timed idle (ground (arith, e3)) (ground (arith, e4)) in
                    let none_free : (any is_idle primary || any is_idle spare) ≡ false =
                      (let a = filter-is_empty is_idle primary in
                        let b = filter-is_empty is_idle spare in
                        ground (arith, e2, full, no_idle, a, b)) in
                    if-cases (IsReply now p primary spare) (not (is_empty (filter timed primary))) _
                      _
                      (λ e5.
                        take-busy now p primary spare slow busy (filter timed primary) _
                          (ground (arith, e5)) none_free (filter-Within timed primary)
                          (reduce-Found _ (filter timed primary)))
                      (λ e5. rw (or_all_full primary pool full) (
                        take-busy now p primary spare slow busy primary _ full none_free (λ l m. m)
                          (best_untried-Found now p primary)))))))
