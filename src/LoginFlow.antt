-- ===== src/LoginFlow.antt =====
-- apps/worker/src/admin/login-flow.ts: one LINE login from a browser. The login and the callback of its success
-- are promises outside this file; how many of them are pending is part of the run. The clock is monotonic.
pub mod Single
mod Tests
use line_deno_bot.Prelude.{
  ℕ, ◌+◌, ◌-◌, Bool, true, false, Option, none, some, List, [], ◌∷◌, if◌then◌else◌, ◌==◌,
}
use line_deno_bot.Prelude.Text.{Text}

pub data LoginFlowState : Type 0 where
  idle : LoginFlowState
  running : ℕ → Option Text → Option Text → LoginFlowState
  success : ℕ → LoginFlowState
  error : Text → LoginFlowState

pub record LoginFlow : Type 0 where
  pub state : LoginFlowState
  pub in_flight : Bool

abbrev pub new_flow : LoginFlow
new_flow = record { state = idle; in_flight = false }

abbrev elapsed_of : ℕ → LoginFlowState → Option ℕ
elapsed_of now idle = none
elapsed_of now (running started url pin) = some (now - started)
elapsed_of now (success saved) = none
elapsed_of now (error message) = none

unfoldable pub elapsed_ms : ℕ → LoginFlow → Option ℕ
elapsed_ms now f = elapsed_of now f.state

-- `none` is the ValidationError.
unfoldable pub start : ℕ → LoginFlow → Option LoginFlow
start now f =
    if f.in_flight then none else some (record { state = running now none none; in_flight = true })

abbrev with_url : Text → LoginFlowState → LoginFlowState
with_url url (running started old pin) = running started (some url) pin
with_url url s = s

abbrev with_pin : Text → LoginFlowState → LoginFlowState
with_pin pin (running started url old) = running started url (some pin)
with_pin pin s = s

unfoldable pub on_qr_url : Text → LoginFlow → LoginFlow
on_qr_url url f = record f { state = with_url url f.state }

unfoldable pub on_pincode : Text → LoginFlow → LoginFlow
on_pincode pin f = record f { state = with_pin pin f.state }

-- The login resolved; its session is saved.
unfoldable pub on_resolved : ℕ → LoginFlow → LoginFlow
on_resolved now f = record f { state = success now }

-- The login, or the callback of its success, rejected.
unfoldable pub on_rejected : Text → LoginFlow → LoginFlow
on_rejected message f = record f { state = error message }

unfoldable pub finally : LoginFlow → LoginFlow
finally f = record f { in_flight = false }

unfoldable pub reset : LoginFlow → Option LoginFlow
reset f = if f.in_flight then none else some (record f { state = idle })
