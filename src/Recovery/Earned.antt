-- ===== src/Recovery/Earned.antt =====
-- recovery.ts: what one call on the planner does to the height of the ladder.
use line_deno_bot.Prelude.{
  ℕ, suc, ◌+◌, ◌-◌, ◌*◌, ◌≤◌, ◌≡◌, refl, ap, ◌⊎◌, inl, inr, Option, none, some, List, [], ◌∷◌,
  arith, ltb, Bool-cases, ◌==◌, get_elem?, All,
}
use native.Mathlib.Nat.{mul-le-mul_right, suc-mul}
use line_deno_bot.Prelude.Text.{Text}
use line_deno_bot.Recovery.{
  AlertKind, Alert, RecoveryRung, no_rung, avoid_lane, reconnect_lane, rearm_poll,
  reconnect_session, restart_worker, RecoveryPlanner, rung_index, entry_rung, actionable, worst,
  next, respond, observe_clean, enter, climb, reset, on_rung_ms, recovery_rungs,
}

pub data Call : Type 0 where
  evaluates : ℕ → List Alert → Call
  resets : ℕ → Call

unfoldable pub step : Call → RecoveryPlanner → RecoveryPlanner
step (evaluates now alerts) p = (next now alerts p).0
step (resets now) p = reset p

unfoldable pub run : List Call → RecoveryPlanner → RecoveryPlanner
unfolding step
run [] p = p
run (c ∷ calls) p = run calls (step c p)

abbrev pub time_of : Call → ℕ
time_of (evaluates now alerts) = now
time_of (resets now) = now

-- The alerts of the call start no higher than `top`.
abbrev EntersBy : ℕ → Option RecoveryRung → Type 0
EntersBy top none = Unit
EntersBy top (some rung) = rung_index rung ≤ top

abbrev pub StartsBy : ℕ → Call → Type 0
StartsBy top (evaluates now alerts) = All (λ (a : Alert). EntersBy top (entry_rung a.kind)) alerts
StartsBy top (resets now) = Unit

-- Calls at rising times, the first not before `from`; `last_of` is the time of the last.
abbrev pub Rising : ℕ → List Call → Type 0
Rising from [] = Unit
Rising from (c ∷ calls) = (from ≤ time_of c) × Rising (time_of c) calls

unfoldable pub last_of : ℕ → List Call → ℕ
last_of from [] = from
last_of from (c ∷ calls) = last_of (time_of c) calls

abbrev HeadBy : ℕ → Option (RecoveryRung × Text) → Type 0
HeadBy top none = Unit
HeadBy top (some a) = rung_index a.0 ≤ top

actionable-by :
    (top : ℕ) (alerts : List Alert)
    → All (λ (a : Alert). EntersBy top (entry_rung a.kind)) alerts
    → All (λ (a : RecoveryRung × Text). rung_index a.0 ≤ top) (actionable alerts)
unfolding actionable
actionable-by top [] h = tt
actionable-by top (alert ∷ alerts) h =
    let rest = actionable-by top alerts h.1 in let first = h.0 in split alert.kind refl first rest
  where
    split :
        (k : AlertKind)
        → alert.kind ≡ k
        → EntersBy top (entry_rung alert.kind)
        → All (λ (a : RecoveryRung × Text). rung_index a.0 ≤ top) (actionable alerts)
        → All (λ (a : RecoveryRung × Text). rung_index a.0 ≤ top) (actionable (alert ∷ alerts))
    split k e first rest = ground (arith, e, first, rest)

worst-by :
    (top : ℕ) (alerts : List (RecoveryRung × Text))
    → All (λ (a : RecoveryRung × Text). rung_index a.0 ≤ top) alerts
    → HeadBy top (worst alerts)
unfolding worst
worst-by top [] h = tt
worst-by top (a ∷ alerts) h = ground (arith, worst-by top alerts h.1, h.0)

-- Reached from `start` by waiting out a cooldown for each rung above `top`.
pub record IsEarned (start now top : ℕ) (p : RecoveryPlanner) : Type 0 where
  pub earned :
      rung_index p.rung ≡ 0
      ⊎ ((start ≤ p.entered_mono)
          × (p.entered_mono ≤ now)
          × (rung_index p.rung * p.cooldown_ms ≤ top * p.cooldown_ms + (p.entered_mono - start)))
  pub capped : (rung_index p.rung ≤ top) ⊎ (rung_index p.rung ≤ p.ceiling_index)

-- The next rung up.
pub next_rung :
    (rung : RecoveryRung)
    → (get_elem? recovery_rungs (suc (rung_index rung)) ≡ none)
      ⊎ ((up : RecoveryRung) × (get_elem? recovery_rungs (suc (rung_index rung)) ≡ some up)
          × (rung_index up ≡ suc (rung_index rung)))
next_rung no_rung = inr (avoid_lane, refl, refl)
next_rung avoid_lane = inr (reconnect_lane, refl, refl)
next_rung reconnect_lane = inr (rearm_poll, refl, refl)
next_rung rearm_poll = inr (reconnect_session, refl, refl)
next_rung reconnect_session = inr (restart_worker, refl, refl)
next_rung restart_worker = inl refl

climb-IsEarned :
    (start now top : ℕ) (message : Text) (p : RecoveryPlanner) (up : RecoveryRung)
    → start ≤ p.entered_mono
    → p.entered_mono ≤ now
    → p.cooldown_ms ≤ now - p.entered_mono
    → rung_index p.rung * p.cooldown_ms ≤ top * p.cooldown_ms + (p.entered_mono - start)
    → (rung_index p.rung ≤ top) ⊎ (rung_index p.rung ≤ p.ceiling_index)
    → rung_index up ≡ suc (rung_index p.rung)
    → IsEarned start now top (climb now message p (some up)).0
unfolding climb enter
climb-IsEarned start now top message p up from to waited earned capped higher =
    let grown = suc-mul (rung_index p.rung) p.cooldown_ms in
    let same = ap (λ i. i * p.cooldown_ms) higher in
    elim (Bool-cases (ltb p.ceiling_index (rung_index up))) [
      | inl e ↦ rw (e, climb) (record { earned = inr (from, to, earned); capped = capped })
      | inr e ↦
          rw (e, climb)
            (record {
              earned = inr (omega arith, omega arith, omega arith);
              capped = inr (ground arith);
            })
    ]

enter-IsEarned :
    (start now top : ℕ) (rung : RecoveryRung) (message : Text) (p : RecoveryPlanner)
    → start ≤ now
    → rung_index rung ≤ top
    → IsEarned start now top (enter now rung message p).0
unfolding enter
enter-IsEarned start now top rung message p from low =
    let low' = mul-le-mul_right p.cooldown_ms low in
    record { earned = inr (from, omega arith, omega (arith, low')); capped = inl low }

later-IsEarned :
    (start now later top : ℕ) (p : RecoveryPlanner)
    → now ≤ later
    → IsEarned start now top p
    → IsEarned start later top p
later-IsEarned start now later top p le h = record {
  earned = elim h.earned [ inl e ↦ inl e | inr (a, b, c) ↦ inr (a, omega arith, c) ];
  capped = h.capped;
}

respond-IsEarned :
    (start now later top : ℕ) (p : RecoveryPlanner) (w : Option (RecoveryRung × Text))
    → start ≤ later
    → now ≤ later
    → HeadBy top w
    → IsEarned start now top p
    → IsEarned start later top (respond later p w).0
unfolding respond on_rung_ms
respond-IsEarned start now later top p none from le low h =
    later-IsEarned start now later top p le h
respond-IsEarned start now later top p (some (entry, message)) from le low h =
    let same = later-IsEarned start now later top p le h in
    let entered = enter-IsEarned start later top entry message p from low in
    elim (Bool-cases (rung_index p.rung == 0)) [
      | inl e ↦ rw (e, respond) entered
      | inr e ↦ elim h.earned [
        | inl z ↦ absurd (ground arith)
        | inr (a, b, c) ↦ elim (Bool-cases (ltb (later - p.entered_mono) p.cooldown_ms)) [
          | inl f ↦ rw (e, respond, f) same
          | inr f ↦ elim (Bool-cases (ltb (rung_index p.rung) (rung_index entry))) [
            | inl g ↦ rw (e, respond, f, g) entered
            | inr g ↦ elim (next_rung p.rung) [
              | inl top' ↦ rw (e, respond, f, g, top') same
              | inr (up, q, higher) ↦
                  rw (e, respond, f, g, q)
                    (climb-IsEarned start later top message p up a (omega arith) (ground (arith, f))
                      c h.capped higher)
            ]
          ]
        ]
      ]
    ]

observe_clean-IsEarned :
    (start now later top : ℕ) (p : RecoveryPlanner)
    → now ≤ later
    → IsEarned start now top p
    → IsEarned start later top (observe_clean p).0
unfolding observe_clean reset
observe_clean-IsEarned start now later top p le h = elim (Bool-cases (rung_index p.rung == 0)) [
  | inl e ↦ rw (e, observe_clean) (later-IsEarned start now later top p le h)
  | inr e ↦ elim (Bool-cases (ltb (p.clean_checks + 1) p.clear_after)) [
    | inl f ↦
        let same = later-IsEarned start now later top p le h in
        rw (e, observe_clean, f) (record { earned = same.earned; capped = same.capped })
    | inr f ↦ rw (e, observe_clean, f) (record { earned = inl refl; capped = inl (omega arith) })
  ]
]

reset-IsEarned :
    (start now later top : ℕ) (p : RecoveryPlanner)
    → now ≤ later
    → IsEarned start now top p
    → IsEarned start later top (reset p)
unfolding reset
reset-IsEarned start now later top p le h = elim (Bool-cases (rung_index p.rung == 0)) [
  | inl e ↦ rw (e, reset) (later-IsEarned start now later top p le h)
  | inr e ↦ rw (e, reset) (record { earned = inl refl; capped = inl (omega arith) })
]

pub step-IsEarned :
    (start now top : ℕ) (c : Call) (p : RecoveryPlanner)
    → start ≤ now
    → now ≤ time_of c
    → StartsBy top c
    → IsEarned start now top p
    → IsEarned start (time_of c) top (step c p)
unfolding step next
step-IsEarned start now top (evaluates later []) p from le low h =
    observe_clean-IsEarned start now later top p le h
step-IsEarned start now top (evaluates later (alert ∷ alerts)) p from le low h =
    respond-IsEarned start now later top (record p { clean_checks = 0 })
      (worst (actionable (alert ∷ alerts))) (omega arith) le
      (worst-by top (actionable (alert ∷ alerts)) (actionable-by top (alert ∷ alerts) low))
      (record { earned = h.earned; capped = h.capped })
step-IsEarned start now top (resets later) p from le low h =
    reset-IsEarned start now later top p le h
