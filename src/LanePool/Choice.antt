-- ===== src/LanePool/Choice.antt =====
-- lane-pool.ts: a pick is one of the lanes of its pool, and a `reduce` is never of an empty list.
use line_deno_bot.Prelude.{
  ℕ, ◌≡◌, refl, Bool, true, false, not, ◌&&◌, Option, none, some, inl, inr, List, [], ◌∷◌, arith,
  if◌then◌else◌, if-cases, In, filter,
}
use line_deno_bot.Lane.{Lane, LaneMeasurement, send, warm}
use line_deno_bot.LanePool.{LanePool, is_fast_lane, has_fresh_sample}
use line_deno_bot.LanePool.Pick.{
  best_of, reduce, is_empty, or_all, is_idle, best_send, best_untried, beats_for_send, pin_send,
  taken, kept, pick_tiers,
}

-- Every lane of the one list is in the other.
abbrev pub Within : List Lane → List Lane → Type 0
Within xs ys = (lane : Lane) → In lane xs → In lane ys

pub filter-Within : (p : Lane → Bool) (xs : List Lane) → Within (filter p xs) xs
filter-Within p [] lane = λ m. m
filter-Within p (x ∷ xs) lane =
    if-cases (λ l. In lane l → In lane (x ∷ xs)) (p x) (x ∷ filter p xs) (filter p xs)
      (λ e m. elim m [ inl a ↦ inl a | inr b ↦ inr (filter-Within p xs lane b) ])
      (λ e m. inr (filter-Within p xs lane m))

pub filter-In :
    (p : Lane → Bool) (xs : List Lane) (lane : Lane) → In lane (filter p xs) → p lane ≡ true
filter-In p [] lane = λ m. absurd m
filter-In p (x ∷ xs) lane =
    if-cases (λ l. In lane l → p lane ≡ true) (p x) (x ∷ filter p xs) (filter p xs)
      (λ e m. elim m [ inl a ↦ rw (a, e) refl | inr b ↦ filter-In p xs lane b ])
      (λ e m. filter-In p xs lane m)

pub or_all-Within : (xs ys zs : List Lane) → Within xs zs → Within ys zs → Within (or_all xs ys) zs
or_all-Within [] ys zs f g lane m = g lane m
or_all-Within (x ∷ xs) ys zs f g lane m = f lane m

pub or_all-is_empty : (xs ys : List Lane) → is_empty (or_all xs ys) ≡ (is_empty xs && is_empty ys)
or_all-is_empty [] ys = refl
or_all-is_empty (x ∷ xs) ys = refl

-- A lane of the list, unless the list is empty.
abbrev pub Found : List Lane → Option Lane → Type 0
Found xs none = is_empty xs ≡ true
Found xs (some lane) = In lane xs

best_of-In :
    (better : Lane → Lane → Bool) (best : Lane) (xs : List Lane)
    → In (best_of better best xs) (best ∷ xs)
best_of-In better best [] = inl refl
best_of-In better best (x ∷ xs) =
    if-cases (λ b. In (best_of better b xs) (best ∷ x ∷ xs)) (better x best) x best
      (λ e. inr (best_of-In better x xs))
      (λ e. elim (best_of-In better best xs) [ inl a ↦ inl a | inr m ↦ inr (inr m) ])

pub reduce-Found : (better : Lane → Lane → Bool) (xs : List Lane) → Found xs (reduce better xs)
reduce-Found better [] = refl
reduce-Found better (x ∷ xs) = best_of-In better x xs

pub Found-Within :
    (xs ys : List Lane) (o : Option Lane)
    → is_empty xs ≡ false
    → Within xs ys
    → Found xs o
    → Found ys o
Found-Within xs ys none e w f = absurd (ground (arith, e, f))
Found-Within xs ys (some lane) e w f = w lane f

pub best_untried-Found :
    (now : ℕ) (p : LanePool) (xs : List Lane) → Found xs (best_untried now p xs)
unfolding best_untried
best_untried-Found now p xs =
    let tested = filter (has_fresh_sample now p LaneMeasurement.preflight) xs in
    let warmed = filter (has_fresh_sample now p warm) xs in
    if-cases (Found xs) (not (is_empty tested)) _ _
      (λ e.
        Found-Within tested xs _ (ground (arith, e)) (filter-Within _ xs) (reduce-Found _ tested))
      (λ e.
        if-cases (Found xs) (not (is_empty warmed)) _ _
          (λ e'.
            Found-Within warmed xs _ (ground (arith, e')) (filter-Within _ xs)
              (reduce-Found _ warmed))
          (λ e'. reduce-Found _ xs))

-- A pick changes nothing of the pool but the pin.
abbrev pub IsRepinned : LanePool → LanePool → Type 0
IsRepinned p p' =
    p' ≡ record p { last_unpin = p'.last_unpin; current_send_lane_id = p'.current_send_lane_id }

abbrev pub Chosen : LanePool → List Lane → Option (LanePool × Lane) → Type 0
Chosen p xs none = is_empty xs ≡ true
Chosen p xs (some (p', lane)) = In lane xs × IsRepinned p p'

take-Chosen :
    (busy : Bool) (p : LanePool) (xs : List Lane) (o : Option Lane)
    → Found xs o
    → Chosen p xs (taken busy p o)
unfolding pin_send
take-Chosen busy p xs none f = f
take-Chosen true p xs (some lane) f = (f, refl)
take-Chosen false p xs (some lane) f = (f, refl)

keep-Chosen :
    (p : LanePool) (xs : List Lane) (o : Option Lane) → Found xs o → Chosen p xs (kept p o)
keep-Chosen p xs none f = f
keep-Chosen p xs (some lane) f = (f, refl)

pub Chosen-Within :
    (p : LanePool) (xs ys : List Lane) (o : Option (LanePool × Lane))
    → is_empty xs ≡ false
    → Within xs ys
    → Chosen p xs o
    → Chosen p ys o
Chosen-Within p xs ys none e w f = absurd (ground (arith, e, f))
Chosen-Within p xs ys (some (p', lane)) e w f = (w lane f.0, f.1)

-- A tier takes from a part of the primary lanes.
best_send-Chosen :
    (busy : Bool) (p : LanePool) (xs pool : List Lane)
    → is_empty xs ≡ false
    → Within xs pool
    → Chosen p pool (taken busy p (best_send p xs))
unfolding best_send
best_send-Chosen busy p xs pool e w =
    take-Chosen busy p pool (best_send p xs)
      (Found-Within xs pool _ e w (reduce-Found (beats_for_send p) xs))

best_untried-Chosen :
    (now : ℕ) (busy : Bool) (p : LanePool) (xs pool : List Lane)
    → is_empty xs ≡ false
    → Within xs pool
    → Chosen p pool (taken busy p (best_untried now p xs))
best_untried-Chosen now busy p xs pool e w =
    take-Chosen busy p pool (best_untried now p xs)
      (Found-Within xs pool _ e w (best_untried-Found now p xs))

pub overflow-Found :
    (now : ℕ) (p : LanePool) (xs : List Lane)
    → let known = filter (has_fresh_sample now p send) xs in
      Found xs (if not (is_empty known) then best_send p known else best_untried now p xs)
unfolding best_send
overflow-Found now p xs =
    let known = filter (has_fresh_sample now p send) xs in
    if-cases (Found xs) (not (is_empty known)) (best_send p known) (best_untried now p xs)
      (λ e. Found-Within known xs _ (ground (arith, e)) (filter-Within _ xs) (reduce-Found _ known))
      (λ e. best_untried-Found now p xs)

pub pick_tiers-Chosen :
    (now : ℕ) (p : LanePool) (primary spare pool : List Lane) (busy : Bool)
    → is_empty pool ≡ false
    → Within primary pool
    → Within spare pool
    → Chosen p pool (pick_tiers now p primary spare pool busy)
unfolding pick_tiers
pick_tiers-Chosen now p primary spare pool busy e wp ws =
    let timed : Lane → Bool = has_fresh_sample now p send in
    let idle_primary = filter is_idle primary in
    let fast = filter (is_fast_lane now p) primary in
    let idle_spare = filter is_idle spare in
    let w_idle : Within idle_primary pool = λ l m. wp l (filter-Within is_idle primary l m) in
    if-cases (Chosen p pool) (not (is_empty (filter is_idle fast))) _ _
      (λ e1.
        best_send-Chosen busy p (filter is_idle fast) pool (ground (arith, e1))
          (λ l m. wp l (filter-Within _ primary l (filter-Within is_idle fast l m))))
      (λ e1.
        if-cases (Chosen p pool)
          (not (is_empty primary) && is_empty idle_primary && not (is_empty idle_spare)) _ _
          (λ e2. keep-Chosen p pool _ (
            Found-Within idle_spare pool _ (ground (arith, e2))
              (λ l m. ws l (filter-Within is_idle spare l m)) (overflow-Found now p idle_spare)))
          (λ e2.
            if-cases (Chosen p pool) (not (is_empty (filter timed idle_primary))) _ _
              (λ e3.
                best_send-Chosen busy p (filter timed idle_primary) pool (ground (arith, e3))
                  (λ l m. w_idle l (filter-Within timed idle_primary l m)))
              (λ e3.
                if-cases (Chosen p pool)
                  (not (is_empty (filter (λ lane. not (timed lane)) idle_primary))) _ _
                  (λ e4.
                    best_untried-Chosen now busy p (filter (λ lane. not (timed lane)) idle_primary)
                      pool (ground (arith, e4))
                      (λ l m. w_idle l (filter-Within _ idle_primary l m)))
                  (λ e4.
                    if-cases (Chosen p pool) (not (is_empty (filter timed primary))) _ _
                      (λ e5.
                        best_send-Chosen busy p (filter timed primary) pool (ground (arith, e5))
                          (λ l m. wp l (filter-Within timed primary l m)))
                      (λ e5.
                        best_untried-Chosen now busy p (or_all primary pool) pool
                          (rw (or_all-is_empty primary pool, e) (ground arith))
                          (or_all-Within primary pool pool wp (λ l m. m)))))))
