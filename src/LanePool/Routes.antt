-- ===== src/LanePool/Routes.antt =====
-- lane-pool.ts: a pool has a lane for every request until it is closed.
use line_deno_bot.Prelude.{
  ℕ, zero, suc, max, ◌≡◌, refl, sym, ◌∙◌, ap, Bool, true, false, not, none, List, [], ◌∷◌, arith,
  if-cases, All, All-In, any, ◌==◌, ltb, leb,
}
use line_deno_bot.Lane.{Lane, LaneMeasurement, is_routable, new_lane}
use line_deno_bot.LanePool.{
  LanePool, LanePoolOptions, ConfigError, bad_lanes, bad_send_reserved, bad_send_spare,
  bad_slow_samples, bad_poll_cap, bad_send_tail, LaneRole, new_pool, created, refused, Created,
  make_lanes, fresh_pool, settings_of, Settings,
}
use line_deno_bot.LanePool.Pick.{
  Picked, picked, no_routable, forced_not_send, forced_not_routable, crashed, pick, is_empty,
}
use line_deno_bot.LanePool.Reserve.{IsServed}
use line_deno_bot.LanePool.Served.{pick-IsServed}
use line_deno_bot.LanePool.Open.{IsSteady, IsOpen}
use line_deno_bot.LanePool.Runs.{Call, run, is_close, run-IsSteady}

make_lanes-IsOpen : (now : ℕ) (s : Settings) (n id : ℕ) → All (IsOpen false) (make_lanes now s n id)
unfolding make_lanes new_lane is_routable
make_lanes-IsOpen now s zero id = tt
make_lanes-IsOpen now s (suc n) id = (refl, make_lanes-IsOpen now s n (suc id))

created_inj : {a b : LanePool} → created a ≡ created b → a ≡ b
created_inj {a} {b} e = ap (λ c. elim c [ created q ↦ q | refused r ↦ a ]) e

pub new_pool-IsSteady :
    (now : ℕ) (o : LanePoolOptions) (p : LanePool) → new_pool now o ≡ created p → IsSteady false p
unfolding new_pool make_lanes settings_of
new_pool-IsSteady now o p e =
    let (lanes, same) = created_lem e in
    rw (sym same) (record {
      is_closed = refl;
      lanes_open = make_lanes-IsOpen now (settings_of o) (settings_of o).lanes 0;
      has_lane = some_lane (settings_of o).lanes lanes;
    })
  where
    Good : Created → Type 0
    Good c =
        c ≡ created p → (ltb (settings_of o).lanes 1 ≡ false) × (fresh_pool now (settings_of o) ≡ p)

    never : (r : ConfigError) → Good (refused r)
    never r e = absurd (ground (arith, e))

    created_lem : Good (new_pool now o)
    created_lem =
        let s = settings_of o in
        if-cases Good (ltb s.lanes 1) _ _ (λ h. never bad_lanes)
          (λ h.
            if-cases Good (leb s.lanes s.send_reserved_lanes) _ _ (λ h'. never bad_send_reserved)
              (λ h'.
                if-cases Good (leb (max 1 s.send_reserved_lanes) s.send_spare_lanes) _ _
                  (λ h'. never bad_send_spare)
                  (λ h'.
                    if-cases Good (ltb s.slow_samples_before_cooldown 1) _ _
                      (λ h'. never bad_slow_samples)
                      (λ h'.
                        if-cases Good (ltb s.max_poll_in_flight_per_lane 1) _ _
                          (λ h'. never bad_poll_cap)
                          (λ h'.
                            if-cases Good (s.max_send_tail_ms == 0) _ _ (λ h'. never bad_send_tail)
                              (λ h' e. (h, created_inj e)))))))

    some_lane : (n : ℕ) → ltb n 1 ≡ false → is_empty (make_lanes now (settings_of o) n 0) ≡ false
    some_lane zero h = absurd (ground (arith, h))
    some_lane (suc n) h = refl

abbrev pub is_picked : Picked → Bool
is_picked (picked p lane) = true
is_picked _ = false

IsServed-is_picked :
    (closed : Bool) (now : ℕ) (p : LanePool) (role : LaneRole) (r : Picked)
    → IsSteady closed p
    → IsServed now p role r
    → is_picked r ≡ not closed
IsServed-is_picked closed now p role (picked p' lane) h (m, r, rest, same) =
    let k = All-In (IsOpen closed) lane p.lanes h.lanes_open m in sym r ∙ k
IsServed-is_picked closed now p role (no_routable n) h f = dead p.lanes h.lanes_open h.has_lane f
  where
    dead :
        (xs : List Lane)
        → All (IsOpen closed) xs
        → is_empty xs ≡ false
        → any is_routable xs ≡ false
        → false ≡ not closed
    dead [] all full k = absurd (ground (arith, full))
    dead (x ∷ xs) all full k = let a = all.0 in ground (arith, a, k)
IsServed-is_picked closed now p role (forced_not_send r n) h f = absurd f
IsServed-is_picked closed now p role (forced_not_routable n l) h f = absurd f
IsServed-is_picked closed now p role crashed h f = absurd f

-- After any run of calls on a new pool, whatever fails and whatever is recycled, every request without a
-- forced lane is given a lane until the pool is closed, and none is afterwards.
pub run-is_picked :
    (start now : ℕ) (o : LanePoolOptions) (p : LanePool) (calls : List Call) (role : LaneRole)
    (m : LaneMeasurement)
    → new_pool start o ≡ created p
    → is_picked (pick now (run calls (p, [])).0 role m none) ≡ not (any is_close calls)
run-is_picked start now o p calls role m e =
    let last = (run calls (p, [])).0 in
    IsServed-is_picked (any is_close calls) now last role _
      (run-IsSteady false calls (p, []) (new_pool-IsSteady start o p e))
      (pick-IsServed now last role m)
