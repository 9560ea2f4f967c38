-- ===== src/Readiness/Armed.antt =====
-- state.ts: when the machine says that the worker is armed.
use line_deno_bot.Prelude.{
  ℕ, ◌≡◌, refl, Bool, true, false, not, ◌&&◌, ◌||◌, List, [], ◌∷◌, arith, if◌then◌else◌, sym,
}
use line_deno_bot.Prelude.Text.{Text}
use line_deno_bot.Readiness.{
  ReadinessState, starting, authenticated, syncing, warming, armed, degraded, repair,
  ReadinessChecks, Patch, ReadinessFsm, new_fsm, is_armed, state_beq, set, degrade, begin_repair,
  recompute, advance_toward, target_of, patched, move, index_of, advance_step, index_from,
  all_false,
}

-- Off the ladder: `degraded` and `repair`.
abbrev pub off_ladder : ReadinessState → Bool
off_ladder s = state_beq s degraded || state_beq s repair

-- A recomputation on the ladder ends in the state that the checks call for, and off it changes
-- nothing.
recompute_lem :
    (now : ℕ) (fsm : ReadinessFsm)
    → ((recompute now fsm).checks ≡ fsm.checks)
      × ((recompute now fsm).state
          ≡ (if off_ladder fsm.state then fsm.state else target_of fsm.checks))
unfolding recompute advance_toward advance_step index_of index_from move target_of
recompute_lem now fsm = split fsm.state refl
  where
    split :
        (s : ReadinessState)
        → fsm.state ≡ s
        → ((recompute now fsm).checks ≡ fsm.checks)
          × ((recompute now fsm).state
              ≡ (if off_ladder fsm.state then fsm.state else target_of fsm.checks))
    split starting e = rw e (ground arith)
    split authenticated e = ground (arith, e)
    split syncing e = ground (arith, e)
    split warming e = ground (arith, e)
    split armed e = ground (arith, e)
    split degraded e = ground (arith, e)
    split repair e = ground (arith, e)

pub data Call : Type 0 where
  sets : ℕ → Patch → Call
  degrades : ℕ → Text → Call
  repairs : ℕ → Call

unfoldable pub step : Call → ReadinessFsm → ReadinessFsm
step (sets now patch) fsm = set now patch fsm
step (degrades now reason) fsm = degrade now reason fsm
step (repairs now) fsm = begin_repair now fsm

unfoldable pub run : List Call → ReadinessFsm → ReadinessFsm
unfolding step
run [] fsm = fsm
run (c ∷ calls) fsm = run calls (step c fsm)

-- What the calls say, without the machine: each check as it was last set, and whether the worker was
-- ever degraded.
unfoldable pub reported : List Call → ReadinessChecks → ReadinessChecks
reported [] c = c
reported (sets now patch ∷ calls) c = reported calls (patched patch c)
reported (degrades now reason ∷ calls) c = reported calls c
reported (repairs now ∷ calls) c = reported calls c

unfoldable pub was_degraded : List Call → Bool
was_degraded [] = false
was_degraded (sets now patch ∷ calls) = was_degraded calls
was_degraded (degrades now reason ∷ calls) = true
was_degraded (repairs now ∷ calls) = was_degraded calls

unfoldable pub all_pass : ReadinessChecks → Bool
all_pass c =
    c.session_valid && c.receiver_subscribed && c.rules_loaded && c.sender_ready
    && c.backlog_drained

step-off :
    (c : Call) (fsm : ReadinessFsm)
    → off_ladder fsm.state ≡ true
    → off_ladder (step c fsm).state ≡ true
unfolding step set degrade begin_repair move
step-off (sets now patch) fsm off =
    let (_, e) = recompute_lem now (record fsm { checks = patched patch fsm.checks }) in
    rw (e, off) off
step-off (degrades now reason) fsm off = ground (arith, off)
step-off (repairs now) fsm off = ground (arith, off)

run-off :
    (calls : List Call) (fsm : ReadinessFsm)
    → off_ladder fsm.state ≡ true
    → is_armed (run calls fsm) ≡ false
unfolding run is_armed
run-off [] fsm off = ground (arith, off)
run-off (c ∷ calls) fsm off = run-off calls (step c fsm) (step-off c fsm off)

-- A machine that is on the ladder stands where its checks call for.
abbrev IsSettled : ReadinessFsm → Type 0
IsSettled fsm = fsm.state ≡ target_of fsm.checks

on_ladder : (c : ReadinessChecks) → off_ladder (target_of c) ≡ false
unfolding target_of
on_ladder c = ground arith

armed_iff : (fsm : ReadinessFsm) → IsSettled fsm → is_armed fsm ≡ all_pass fsm.checks
unfolding is_armed all_pass target_of
armed_iff fsm e = rw e (ground arith)

set-IsSettled :
    (now : ℕ) (patch : Patch) (fsm : ReadinessFsm)
    → IsSettled fsm
    → IsSettled (set now patch fsm) × ((set now patch fsm).checks ≡ patched patch fsm.checks)
unfolding set
set-IsSettled now patch fsm s =
    let (c, e) = recompute_lem now (record fsm { checks = patched patch fsm.checks }) in
    let on : off_ladder fsm.state ≡ false = rw s (on_ladder fsm.checks) in
    (ground (arith, c, e, on), c)

run-settled :
    (calls : List Call) (fsm : ReadinessFsm)
    → IsSettled fsm
    → is_armed (run calls fsm) ≡ (all_pass (reported calls fsm.checks) && not (was_degraded calls))
unfolding run step reported was_degraded degrade begin_repair move
run-settled [] fsm s = ground (arith, armed_iff fsm s)
run-settled (sets now patch ∷ calls) fsm s =
    let (s', e) = set-IsSettled now patch fsm s in
    rw (sym e) (run-settled calls (set now patch fsm) s')
run-settled (degrades now reason ∷ calls) fsm s =
    let on : off_ladder fsm.state ≡ false = rw s (on_ladder fsm.checks) in
    ground (arith, run-off calls (degrade now reason fsm), on)
run-settled (repairs now ∷ calls) fsm s =
    let on : off_ladder fsm.state ≡ false = rw s (on_ladder fsm.checks) in
    ground (arith, run-settled calls fsm s, on)

-- After any calls on a new machine, the worker is armed just when every check was last reported as
-- passing and the machine was never degraded; a repair does not change that.
pub run-new_fsm-armed :
    (now : ℕ) (calls : List Call)
    → is_armed (run calls (new_fsm now))
      ≡ (all_pass (reported calls all_false) && not (was_degraded calls))
unfolding new_fsm target_of
run-new_fsm-armed now calls = run-settled calls (new_fsm now) refl
