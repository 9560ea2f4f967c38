-- ===== src/Recovery/Actions.antt =====
-- recovery.ts: what one evaluation reports.
use line_deno_bot.Prelude.{
  ℕ, ◌<◌, ◌≡◌, refl, Bool, not, Option, none, some, List, [], ◌∷◌, arith, is_some, ◌==◌,
}
use line_deno_bot.Prelude.Text.{Text}
use line_deno_bot.Recovery.{
  Alert, RecoveryRung, RecoveryAction, RecoveryPlanner, rung_index, actionable, worst, next,
  respond, observe_clean, enter, climb, reset, on_rung_ms,
}

-- The rung that an evaluation reports, if it reports one.
abbrev pub reported : Option RecoveryAction → RecoveryRung → RecoveryRung
reported none rung = rung
reported (some action) rung = action.rung

abbrev pub changed : RecoveryRung → RecoveryRung → Bool
changed a b = not (rung_index a == rung_index b)

abbrev Positive : List (RecoveryRung × Text) → Type 0
Positive [] = Unit
Positive (a ∷ alerts) = (0 < rung_index a.0) × Positive alerts

abbrev PositiveHead : Option (RecoveryRung × Text) → Type 0
PositiveHead none = Unit
PositiveHead (some a) = 0 < rung_index a.0

actionable-Positive : (alerts : List Alert) → Positive (actionable alerts)
unfolding actionable
actionable-Positive [] = tt
actionable-Positive (alert ∷ alerts) = ground (arith, actionable-Positive alerts)

worst-Positive :
    (alerts : List (RecoveryRung × Text)) → Positive alerts → PositiveHead (worst alerts)
unfolding worst
worst-Positive [] p = tt
worst-Positive (a ∷ alerts) p = ground (arith, worst-Positive alerts p.1)

respond-action :
    (now : ℕ) (p : RecoveryPlanner) (w : Option (RecoveryRung × Text))
    → PositiveHead w
    → let (p', action) = respond now p w in
      (is_some action ≡ changed p.rung p'.rung) × (p'.rung ≡ reported action p.rung)
unfolding respond climb enter on_rung_ms
respond-action now p none h = ground arith
respond-action now p (some (entry, message)) h = split p.rung refl
  where
    split :
        (r : RecoveryRung)
        → p.rung ≡ r
        → let (p', action) = respond now p (some (entry, message)) in
          (is_some action ≡ changed p.rung p'.rung) × (p'.rung ≡ reported action p.rung)
    split r e = ground (arith, e, h)

-- An evaluation returns an action just when it changes the rung, and the action names the new rung.
pub next-action :
    (now : ℕ) (alerts : List Alert) (p : RecoveryPlanner)
    → let (p', action) = next now alerts p in
      (is_some action ≡ changed p.rung p'.rung) × (p'.rung ≡ reported action p.rung)
unfolding next observe_clean reset
next-action now [] p = ground arith
next-action now (alert ∷ alerts) p =
    respond-action now (record p { clean_checks = 0 }) (worst (actionable (alert ∷ alerts)))
      (worst-Positive (actionable (alert ∷ alerts)) (actionable-Positive (alert ∷ alerts)))
