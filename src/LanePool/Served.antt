-- ===== src/LanePool/Served.antt =====
-- lane-pool.ts: `#pick` finds a lane among those that it considers.
use line_deno_bot.Prelude.{
  ℕ, ◌≡◌, refl, ◌∙◌, false, not, Option, none, some, List, arith, if-cases, In, filter,
}
use line_deno_bot.Lane.{Lane, LaneMeasurement}
use line_deno_bot.LanePool.{LanePool, LaneRole, is_send_role, has_fresh_sample}
use line_deno_bot.LanePool.Pick.{
  is_empty, or_all, is_idle, bounded, pick_measured, pick_warm, pick_free, Picked, picked,
  no_routable, forced_not_send, forced_not_routable, crashed, the_lane, the_choice, less_loaded,
  warmed_earlier, is_warm, pool_for, pick, beats,
}
use line_deno_bot.LanePool.Choice.{
  Within, filter-Within, or_all-Within, Found, reduce-Found, Found-Within, IsRepinned, Chosen,
}
use line_deno_bot.LanePool.Reply.{pick_send-Chosen}
use line_deno_bot.LanePool.Reserve.{
  IsServed, pool_for-In, pool_for-serves, pool_for-is_empty, or_all-absorbs,
}

-- `#pick` after the forced lane, on a pool that is not empty.
abbrev pub PickedFrom : LanePool → List Lane → Picked → Type 0
PickedFrom p pool (picked p' lane) = In lane pool × IsRepinned p p'
PickedFrom p pool _ = ⊥

the_lane-PickedFrom :
    (p : LanePool) (pool : List Lane) (o : Option Lane)
    → is_empty pool ≡ false
    → Found pool o
    → PickedFrom p pool (the_lane p o)
the_lane-PickedFrom p pool none e f = absurd (ground (arith, e, f))
the_lane-PickedFrom p pool (some lane) e f = (f, refl)

the_choice-PickedFrom :
    (p : LanePool) (pool : List Lane) (o : Option (LanePool × Lane))
    → is_empty pool ≡ false
    → Chosen p pool o
    → PickedFrom p pool (the_choice o)
the_choice-PickedFrom p pool none e f = absurd (ground (arith, e, f))
the_choice-PickedFrom p pool (some (p', lane)) e f = f

bounded-Within :
    (p : LanePool) (role : LaneRole) (pool : List Lane) → Within (bounded p role pool) pool
unfolding bounded
bounded-Within p role pool =
    if-cases (λ xs. Within xs pool) (is_send_role role) pool _ (λ e l m. m)
      (λ e. or_all-Within (filter _ pool) pool pool (filter-Within _ pool) (λ l m. m))

bounded-is_empty :
    (p : LanePool) (role : LaneRole) (pool : List Lane)
    → is_empty (bounded p role pool) ≡ is_empty pool
unfolding bounded
bounded-is_empty p role pool =
    if-cases (λ xs. is_empty xs ≡ is_empty pool) (is_send_role role) pool _ (λ e. refl)
      (λ e. or_all-absorbs (filter _ pool) pool (filter-Within _ pool))

pick_measured-Found :
    (now : ℕ) (p : LanePool) (m : LaneMeasurement) (lanes : List Lane)
    → Found lanes (pick_measured now p m lanes)
pick_measured-Found now p m lanes =
    let unmeasured = filter (λ lane. not (has_fresh_sample now p m lane)) lanes in
    if-cases (Found lanes) (is_empty unmeasured) _ _ (λ e. reduce-Found (beats p m) lanes)
      (λ e.
        Found-Within unmeasured lanes _ e (filter-Within _ lanes)
          (reduce-Found (less_loaded m) unmeasured))

pick_warm-Found : (lanes : List Lane) → is_empty lanes ≡ false → Found lanes (pick_warm lanes)
pick_warm-Found lanes e =
    let idle = filter is_idle lanes in
    Found-Within (or_all idle lanes) lanes _ (or_all-absorbs idle lanes (filter-Within _ lanes) ∙ e)
      (or_all-Within idle lanes lanes (filter-Within _ lanes) (λ l m. m))
      (reduce-Found warmed_earlier (or_all idle lanes))

PickedFrom-Within :
    (p : LanePool) (xs ys : List Lane) (r : Picked)
    → Within xs ys
    → PickedFrom p xs r
    → PickedFrom p ys r
PickedFrom-Within p xs ys (picked p' lane) w f = (w lane f.0, f.1)
PickedFrom-Within p xs ys (no_routable n) w f = f
PickedFrom-Within p xs ys (forced_not_send r n) w f = f
PickedFrom-Within p xs ys (forced_not_routable n l) w f = f
PickedFrom-Within p xs ys crashed w f = f

pub pick_free-PickedFrom :
    (now : ℕ) (p : LanePool) (role : LaneRole) (m : LaneMeasurement) (pool : List Lane)
    → is_empty pool ≡ false
    → PickedFrom p pool (pick_free now p role m pool)
unfolding pick_free
pick_free-PickedFrom now p role m pool e =
    let lanes = bounded p role pool in
    let full : is_empty lanes ≡ false = bounded-is_empty p role pool ∙ e in
    PickedFrom-Within p lanes pool _ (bounded-Within p role pool) (
      if-cases (PickedFrom p lanes) (is_warm m) _ _
        (λ h. the_lane-PickedFrom p lanes _ full (pick_warm-Found lanes full))
        (λ h.
          if-cases (PickedFrom p lanes) (is_send_role role) _ _
            (λ h'. the_choice-PickedFrom p lanes _ full (pick_send-Chosen now p lanes full))
            (λ h'. the_lane-PickedFrom p lanes _ full (pick_measured-Found now p m lanes))))

served :
    (now : ℕ) (p : LanePool) (role : LaneRole) (r : Picked)
    → PickedFrom p (pool_for now p role) r
    → IsServed now p role r
served now p role (picked p' lane) (m, same) =
    let (held, r) = pool_for-In now p role lane m in
    (held, r, λ h. pool_for-serves now p role lane h m, same)
served now p role (no_routable n) f = absurd f
served now p role (forced_not_send r n) f = f
served now p role (forced_not_routable n l) f = f
served now p role crashed f = f

-- Without a forced lane, `#pick` answers with a routable lane of the pool, and changes nothing but the
-- pin; the lane is out of its cooldown and in the band of the request's role whenever some lane is both
-- of these and routable. It throws `no routable lane` only when no lane is routable, and nothing else.
pub pick-IsServed :
    (now : ℕ) (p : LanePool) (role : LaneRole) (m : LaneMeasurement)
    → IsServed now p role (pick now p role m none)
unfolding pick
pick-IsServed now p role m =
    if-cases (IsServed now p role) (is_empty (pool_for now p role)) _ _
      (λ e. let h = pool_for-is_empty now p role in ground (arith, e, h))
      (λ e. served now p role _ (pick_free-PickedFrom now p role m (pool_for now p role) e))
