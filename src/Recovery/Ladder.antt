-- ===== src/Recovery/Ladder.antt =====
-- recovery.ts over a run of evaluations and resets: how high the ladder is climbed, and how fast.
use line_deno_bot.Prelude.{
  ℕ, ◌+◌, ◌-◌, ◌*◌, ◌≤◌, ◌≡◌, refl, ◌⊎◌, inl, inr, Option, none, some, List, [], ◌∷◌, arith, All,
  ◌∙◌,
}
use native.Mathlib.Nat.{zero-mul}
use line_deno_bot.Prelude.Text.{Text}
use line_deno_bot.Recovery.{
  RecoveryRung, RecoveryPlanner, RecoveryOptions, rung_index, actionable, worst, next, respond,
  observe_clean, enter, climb, reset, new_planner,
}
use line_deno_bot.Recovery.Earned.{
  Call, evaluates, resets, step, run, time_of, StartsBy, Rising, last_of, IsEarned, step-IsEarned,
  next_rung,
}

run-IsEarned :
    (start now top : ℕ) (calls : List Call) (p : RecoveryPlanner)
    → start ≤ now
    → Rising now calls
    → All (StartsBy top) calls
    → IsEarned start now top p
    → IsEarned start (last_of now calls) top (run calls p)
unfolding run last_of
run-IsEarned start now top [] p from rising low h = h
run-IsEarned start now top (c ∷ calls) p from rising low h =
    run-IsEarned start (time_of c) top calls (step c p) (omega (arith, rising.0)) rising.1 low.1
      (step-IsEarned start now top c p from rising.0 low.0 h)

step-options :
    (c : Call) (p : RecoveryPlanner)
    → ((step c p).cooldown_ms ≡ p.cooldown_ms) × ((step c p).ceiling_index ≡ p.ceiling_index)
unfolding step next respond observe_clean reset climb enter
step-options (evaluates now []) p = ground arith
step-options (evaluates now (alert ∷ alerts)) p =
    respond-options (worst (actionable (alert ∷ alerts)))
  where
    p' : RecoveryPlanner
    p' = record p { clean_checks = 0 }

    respond-options :
        (w : Option (RecoveryRung × Text))
        → ((respond now p' w).0.cooldown_ms ≡ p.cooldown_ms)
          × ((respond now p' w).0.ceiling_index ≡ p.ceiling_index)
    respond-options none = (refl, refl)
    respond-options (some (entry, message)) = elim (next_rung p.rung) [
      | inl e ↦ ground (arith, e)
      | inr (up, e, f) ↦ ground (arith, e)
    ]
step-options (resets now) p = ground arith

run-options :
    (calls : List Call) (p : RecoveryPlanner)
    → ((run calls p).cooldown_ms ≡ p.cooldown_ms) × ((run calls p).ceiling_index ≡ p.ceiling_index)
unfolding run
run-options [] p = (refl, refl)
run-options (c ∷ calls) p =
    let (a, b) = run-options calls (step c p) in let (a', b') = step-options c p in (a ∙ a', b ∙ b')

earned-le :
    (start last top cooldown : ℕ) (p : RecoveryPlanner)
    → p.cooldown_ms ≡ cooldown
    → IsEarned start last top p
    → rung_index p.rung * cooldown ≤ top * cooldown + (last - start)
earned-le start last top cooldown p e h = elim h.earned [
  | inl z ↦ rw (z, zero-mul cooldown) (omega arith)
  | inr (a, b, c) ↦ rw⁻¹ e (omega (arith, c))
]

-- A rung above those at which alerts start costs one cooldown each: after a run of evaluations and
-- resets from time `start` on, with no alert that starts above rung `top`, the planner stands at most
-- as many rungs above `top` as cooldowns fit in the time since `start`. It stands at or below `top`,
-- or at or below the ceiling.
pub run-climbs :
    (options : RecoveryOptions) (start top : ℕ) (calls : List Call)
    → Rising start calls
    → All (StartsBy top) calls
    → let p = run calls (new_planner options) in
      (rung_index p.rung * (new_planner options).cooldown_ms
        ≤ top * (new_planner options).cooldown_ms + (last_of start calls - start))
      × ((rung_index p.rung ≤ top) ⊎ (rung_index p.rung ≤ (new_planner options).ceiling_index))
unfolding new_planner
run-climbs options start top calls rising low =
    let p = new_planner options in
    let h =
      run-IsEarned start start top calls p (omega arith) rising low
        (record { earned = inl refl; capped = inl (omega arith) }) in
    let (cd, cap) = run-options calls p in
    (
      earned-le start (last_of start calls) top p.cooldown_ms (run calls p) cd h,
      elim h.capped [ inl a ↦ inl a | inr b ↦ inr (omega (arith, cap)) ],
    )
