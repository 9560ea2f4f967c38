-- ===== src/LoginFlow/Single.antt =====
-- login-flow.ts over any order of calls and settlings: one login at a time.
use line_deno_bot.Prelude.{
  ℕ, ◌+◌, ◌-◌, ◌≡◌, ◌≤◌, refl, Bool, true, false, Option, none, some, List, [], ◌∷◌, arith,
  if◌then◌else◌, ◌==◌, get_or, ap, ◌∙◌, if-cases,
}
use line_deno_bot.Prelude.Text.{Text}
use line_deno_bot.LoginFlow.{
  LoginFlowState, idle, running, success, error, LoginFlow, new_flow, start, with_url, with_pin,
  on_qr_url, on_pincode, on_resolved, on_rejected, finally, reset,
}

-- The flow, and how many promises stand at each place of the chain that `start` builds.
pub record World : Type 0 where
  pub flow : LoginFlow
  pub logins : ℕ
  pub callbacks : ℕ
  pub finals : ℕ

pub data Event : Type 0 where
  starts : ℕ → Event
  shows_url shows_pin : Text → Event
  logs_in : ℕ → Event
  login_fails : Text → Event
  calls_back : Event
  callback_fails : Text → Event
  settles resets : Event

abbrev pub new_world : World
new_world = record { flow = new_flow; logins = 0; callbacks = 0; finals = 0 }

abbrev started : World → Option LoginFlow → World
started w none = w
started w (some f) = record w { flow = f; logins = w.logins + 1 }

-- A promise that is not pending settles nothing. The page's callbacks may come at any time.
unfoldable pub step : Event → World → World
unfolding start on_qr_url on_pincode on_resolved on_rejected finally reset
step (starts now) w = started w (start now w.flow)
step (shows_url url) w = record w { flow = on_qr_url url w.flow }
step (shows_pin pin) w = record w { flow = on_pincode pin w.flow }
step (logs_in now) w = if w.logins == 0 then w else record w {
  flow = on_resolved now w.flow;
  logins = w.logins - 1;
  callbacks = w.callbacks + 1;
}
step (login_fails message) w = if w.logins == 0 then w else record w {
  flow = on_rejected message w.flow;
  logins = w.logins - 1;
  finals = w.finals + 1;
}
step calls_back w =
    if w.callbacks == 0 then w else record w { callbacks = w.callbacks - 1; finals = w.finals + 1 }
step (callback_fails message) w = if w.callbacks == 0 then w else record w {
  flow = on_rejected message w.flow;
  callbacks = w.callbacks - 1;
  finals = w.finals + 1;
}
step settles w =
    if w.finals == 0 then w else record w { flow = finally w.flow; finals = w.finals - 1 }
step resets w = record w { flow = get_or (reset w.flow) w.flow }

unfoldable pub run : List Event → World → World
unfolding step
run [] w = w
run (e ∷ events) w = run events (step e w)

abbrev pub is_running : LoginFlowState → Bool
is_running idle = false
is_running (running started url pin) = true
is_running (success saved) = false
is_running (error message) = false

abbrev pub to_nat : Bool → ℕ
to_nat true = 1
to_nat false = 0

-- One chain is pending while the flow is in flight and none otherwise, and the state is running while its login is.
pub record IsSingle (w : World) : Type 0 where
  pub one : w.logins + (w.callbacks + w.finals) ≡ to_nat w.flow.in_flight
  pub login : to_nat (is_running w.flow.state) ≡ w.logins

with_url-is_running : (url : Text) (s : LoginFlowState) → is_running (with_url url s) ≡ is_running s
with_url-is_running url idle = refl
with_url-is_running url (running started old pin) = refl
with_url-is_running url (success saved) = refl
with_url-is_running url (error message) = refl

with_pin-is_running : (pin : Text) (s : LoginFlowState) → is_running (with_pin pin s) ≡ is_running s
with_pin-is_running pin idle = refl
with_pin-is_running pin (running started url old) = refl
with_pin-is_running pin (success saved) = refl
with_pin-is_running pin (error message) = refl

to_nat-small : (b : Bool) → to_nat b ≤ 1
to_nat-small true = omega arith
to_nat-small false = omega arith

to_nat-none : (b : Bool) → to_nat b ≡ 0 → b ≡ false
to_nat-none true e = absurd (omega (arith, e))
to_nat-none false e = refl

step-IsSingle : (e : Event) (w : World) → IsSingle w → IsSingle (step e w)
unfolding step start on_qr_url on_pincode on_resolved on_rejected finally reset
step-IsSingle (starts now) w h =
    if-cases (λ o. IsSingle (started w o)) w.flow.in_flight none _ (λ e. h)
      (λ e.
        let none_pending : w.logins + (w.callbacks + w.finals) ≡ 0 = h.one ∙ ap to_nat e in
        record { one = ground (arith, none_pending); login = ground (arith, none_pending) })
step-IsSingle (shows_url url) w h = record {
  one = h.one;
  login = ap to_nat (with_url-is_running url w.flow.state) ∙ h.login;
}
step-IsSingle (shows_pin pin) w h = record {
  one = h.one;
  login = ap to_nat (with_pin-is_running pin w.flow.state) ∙ h.login;
}
step-IsSingle (logs_in now) w h =
    let small = to_nat-small w.flow.in_flight in
    let one = h.one in
    if-cases IsSingle (w.logins == 0) w _ (λ e. h)
      (λ e. record { one = ground (arith, one, e); login = ground (arith, one, e, small) })
step-IsSingle (login_fails message) w h =
    let small = to_nat-small w.flow.in_flight in
    let one = h.one in
    if-cases IsSingle (w.logins == 0) w _ (λ e. h)
      (λ e. record { one = ground (arith, one, e); login = ground (arith, one, e, small) })
step-IsSingle calls_back w h =
    let one = h.one in
    if-cases IsSingle (w.callbacks == 0) w _ (λ e. h)
      (λ e. record { one = ground (arith, one, e); login = h.login })
step-IsSingle (callback_fails message) w h =
    let small = to_nat-small w.flow.in_flight in
    let one = h.one in
    if-cases IsSingle (w.callbacks == 0) w _ (λ e. h)
      (λ e. record { one = ground (arith, one, e); login = ground (arith, one, e, small) })
step-IsSingle settles w h =
    let small = to_nat-small w.flow.in_flight in
    let one = h.one in
    if-cases IsSingle (w.finals == 0) w _ (λ e. h)
      (λ e. record { one = ground (arith, one, e, small); login = h.login })
step-IsSingle resets w h =
    if-cases (λ o. IsSingle (record w { flow = get_or o w.flow })) w.flow.in_flight none _
      (λ e. record { one = h.one; login = h.login })
      (λ e.
        let none_pending : w.logins + (w.callbacks + w.finals) ≡ 0 = h.one ∙ ap to_nat e in
        record { one = h.one; login = ground (arith, none_pending) })

run-IsSingle : (events : List Event) (w : World) → IsSingle w → IsSingle (run events w)
unfolding run
run-IsSingle [] w h = h
run-IsSingle (e ∷ events) w h = run-IsSingle events (step e w) (step-IsSingle e w h)

login_fails-logins :
    (message : Text) (w : World) → IsSingle w → (step (login_fails message) w).logins ≡ 0
unfolding step
login_fails-logins message w h =
    let small = to_nat-small w.flow.in_flight in
    let one = h.one in
    if-cases (λ (v : World). v.logins ≡ 0) (w.logins == 0) w _ (λ e. ground (arith, e))
      (λ e. ground (arith, e, one, small))

calls_back-callbacks :
    (w : World)
    → IsSingle w
    → w.logins ≡ 0
    → ((step calls_back w).callbacks ≡ 0) × ((step calls_back w).logins ≡ 0)
unfolding step
calls_back-callbacks w h l =
    let small = to_nat-small w.flow.in_flight in
    let one = h.one in
    if-cases (λ (v : World). (v.callbacks ≡ 0) × (v.logins ≡ 0)) (w.callbacks == 0) w _
      (λ e. (ground (arith, e), l)) (λ e. (ground (arith, e, one, small), l))

settles-in_flight :
    (w : World)
    → IsSingle w
    → w.logins ≡ 0
    → w.callbacks ≡ 0
    → (step settles w).flow.in_flight ≡ false
unfolding step finally
settles-in_flight w h l c =
    let one = h.one in
    if-cases (λ (v : World). v.flow.in_flight ≡ false) (w.finals == 0) w _
      (λ e. to_nat-none w.flow.in_flight (ground (arith, e, one, l, c))) (λ e. refl)

settled-in_flight :
    (message : Text) (w : World)
    → IsSingle w
    → (run (login_fails message ∷ calls_back ∷ settles ∷ []) w).flow.in_flight ≡ false
unfolding run
settled-in_flight message w h =
    let failed = step (login_fails message) w in
    let single = step-IsSingle (login_fails message) w h in
    let (c, l) = calls_back-callbacks failed single (login_fails-logins message w h) in
    settles-in_flight (step calls_back failed) (step-IsSingle calls_back failed single) l c

-- Whatever is called and settles, in whatever order, at most one chain of promises is pending: exactly one while the
-- flow is in flight, and the state is running exactly while its login is pending. When the login, the callback and
-- the rest of the chain have settled, the flow starts again.
pub start-run :
    (events : List Event) (message : Text) (now : ℕ)
    → IsSingle (run events new_world)
      × (start now
            (run (login_fails message ∷ calls_back ∷ settles ∷ []) (run events new_world)).flow
          ≡ some (record { state = running now none none; in_flight = true }))
unfolding start
start-run events message now =
    let single = run-IsSingle events new_world (record { one = refl; login = refl }) in
    (
      single,
      ap
          (λ b.
            if b then none else some (record { state = running now none none; in_flight = true }))
          (settled-in_flight message (run events new_world) single),
    )
