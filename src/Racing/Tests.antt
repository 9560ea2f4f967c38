-- ===== src/Racing/Tests.antt =====
-- Two copies of one message from two sources, and one of another.
use line_deno_bot.Prelude.{◌≡◌, refl, none, List, [], ◌∷◌, arith}
use line_deno_bot.Prelude.Text.{Text, text}
use line_deno_bot.Store.{create}
use line_deno_bot.Store
use line_deno_bot.AsyncQueue
use line_deno_bot.Claims.{Surface}
use line_deno_bot.Pipeline.{InboundEvent, InboundSource, push, dedicated_poll}
use line_deno_bot.Racing.{RacingInboundAdapter, new_racing, racing_on, offer, start, add_child}
use line_deno_bot.Racing.Once.{
  Call, offers, starts, adds, step, passed, is_accepted, new_racing-once,
}

abbrev copy : InboundSource → Text → InboundEvent
copy source id = record {
  surface = Surface.square;
  source = source;
  bot_id = text "b";
  owner_id = text "o";
  room_id = text "r";
  sender_id = text "s";
  message_id = id;
  content = text "hello";
  service_event_time_ms = none;
  observed_at_mono = 0;
  observed_at_wall_ms = none;
  explicit_job_id = none;
}

abbrev calls : List Call
calls =
    starts
    ∷ offers 5 (copy push (text "m"))
    ∷ adds 3
    ∷ offers 9 (copy dedicated_poll (text "m"))
    ∷ offers 12 (copy push (text "n"))
    ∷ []

abbrev race : RacingInboundAdapter
race = racing_on (1 ∷ 2 ∷ []) (record { entries = []; ttl_ms = 120000; max_entries = 50000 })

new_racing-once_example : passed (text "m") calls race ≡ 1
unfolding new_racing create is_accepted offer step start add_child AsyncQueue.offer Store.has
    Store.set Store.live AsyncQueue.new_queue
new_racing-once_example =
    new_racing-once none none (1 ∷ 2 ∷ []) race (text "m") 5 calls refl
      ((omega arith, omega arith), ((omega arith, omega arith), ((omega arith, omega arith), tt)))
      (omega arith)
