-- ===== src/RateLimit/Tests.antt =====
-- Runs of the rate limiter on small inputs.
use line_deno_bot.Prelude.{ℕ, ◌+◌, ◌-◌, ◌*◌, ◌≤◌, ◌≡◌, ◌≢◌, refl, true, List, [], ◌∷◌, arith}
use line_deno_bot.Prelude.Text.{Text, text, text_eq, text_beq_iff}
use line_deno_bot.Prelude.Dict.{lookup}
use line_deno_bot.Store.Bounds.{IsValid}
use line_deno_bot.RateLimit.{RateLimiter, room_key, try_admit}
use line_deno_bot.RateLimit.Bounds.{admissions, admissions-bound, admit_after_wait}
use line_deno_bot.RateLimit.Calls.{Call, step, run, last_of}

-- Two messages, and one more each second.
abbrev limiter : RateLimiter
limiter = record {
  capacity = 2;
  refill_num = 1;
  refill_den = 1;
  buckets = record { entries = []; ttl_ms = 5000; max_entries = 10 };
}

limiter-IsValid : IsValid limiter.buckets
limiter-IsValid = record { distinct = tt; bounded = omega arith; positive = omega arith }

abbrev at_room : ℕ → Text → Call
at_room now room = record { now = now; bot_id = text "b"; room = room }

abbrev calls : List Call
calls =
    at_room 20 (text "r")
    ∷ at_room 25 (text "q")
    ∷ at_room 30 (text "r")
    ∷ at_room 1500 (text "r")
    ∷ []

admissions-bound_example :
    admissions (room_key (text "b") (text "r")) (at_room 10 (text "r") ∷ calls) limiter * 1000
    ≤ 2 * 1000 + (last_of 10 calls - 10) * 1
unfolding lookup room_key
admissions-bound_example =
    admissions-bound (at_room 10 (text "r")) calls limiter limiter-IsValid (omega arith) refl
      (omega arith, (omega arith, (omega arith, (omega arith, tt)))) refl

q_is_other : room_key (text "b") (text "q") ≢ room_key (text "b") (text "r")
unfolding room_key
q_is_other e = absurd (
    ground
      (arith, (text_beq_iff (room_key (text "b") (text "q")) (room_key (text "b") (text "r"))).1 e))

admit_after_wait_example :
    (try_admit 1500
      (text "b")
      (text "r")
      (run (at_room 700 (text "q") ∷ []) (step (at_room 10 (text "r")) limiter))).1
    ≡ true
admit_after_wait_example =
    admit_after_wait (at_room 10 (text "r")) (at_room 700 (text "q") ∷ []) 1500 limiter
      limiter-IsValid (omega arith) (omega arith) (q_is_other, tt) (omega arith) (omega arith)
