-- ===== src/Racing.antt =====
-- apps/worker/src/adapters/racing.ts: several sources of one stream of messages, of which the first copy is
-- passed on. The events are those of Pipeline, and a
-- child is named by a number; the events and the end of its stream are steps.
pub mod Forget
pub mod Once
mod Tests
use line_deno_bot.Prelude.{
  ℕ, ◌+◌, ◌-◌, Bool, true, false, not, ◌||◌, Option, none, some, List, [], ◌∷◌, ◌++◌, if◌then◌else◌,
  filter, length, ◌==◌, get_or,
}
use line_deno_bot.Prelude.Text.{Text}
use line_deno_bot.Store.{BoundedTtlMap, create}
use line_deno_bot.Store
use line_deno_bot.AsyncQueue.{AsyncQueue}
use line_deno_bot.Pipeline.{InboundEvent, InboundSource, push, normal_poll, dedicated_poll}
use line_deno_bot.AsyncQueue

pub record RacingInboundAdapter : Type 0 where
  pub children : List ℕ
  pub out : AsyncQueue InboundEvent
  pub seen_ids : BoundedTtlMap InboundSource
  pub wins : InboundSource → ℕ
  pub seen_counts : InboundSource → ℕ
  pub duplicates : ℕ
  pub delivered : ℕ
  pub live_children : ℕ
  pub started : Bool
  -- Whether there is a synchronous sink.
  pub sink : Bool

abbrev pub source_beq : InboundSource → InboundSource → Bool
source_beq push push = true
source_beq normal_poll normal_poll = true
source_beq dedicated_poll dedicated_poll = true
source_beq _ _ = false

abbrev pub plus_one : InboundSource → (InboundSource → ℕ) → InboundSource → ℕ
plus_one source f s = if source_beq source s then f s + 1 else f s

abbrev pub racing_on : List ℕ → BoundedTtlMap InboundSource → RacingInboundAdapter
racing_on children seen_ids = record {
  children = children;
  out = AsyncQueue.new_queue 10000;
  seen_ids = seen_ids;
  wins = λ s. 0;
  seen_counts = λ s. 0;
  duplicates = 0;
  delivered = 0;
  live_children = 0;
  started = false;
  sink = false;
}

abbrev pub racing_of : List ℕ → Option (BoundedTtlMap InboundSource) → Option RacingInboundAdapter
racing_of children none = none
racing_of children (some seen_ids) = some (racing_on children seen_ids)

-- The constructor; `none` is the RangeError of the map.
unfoldable pub new_racing : Option ℕ → Option ℕ → List ℕ → Option RacingInboundAdapter
unfolding create
new_racing ttl_ms max_entries children =
    racing_of children (create (get_or ttl_ms 120000) (get_or max_entries 50000))

-- Where an event goes that is the first of its message: the sink, the queue, or nowhere.
pub data Handed : Type 0 where
  to_sink to_queue lost suppressed : Handed

abbrev pub passed_on : InboundEvent → RacingInboundAdapter → RacingInboundAdapter × Handed
passed_on event a = if a.sink then (a, to_sink) else (
  record a { out = (AsyncQueue.offer event a.out).0 },
  if (AsyncQueue.offer event a.out).1 then to_queue else lost,
)

unfoldable pub offer : ℕ → InboundEvent → RacingInboundAdapter → RacingInboundAdapter × Handed
unfolding Store.has Store.set AsyncQueue.offer
offer now event a =
    let (seen, taken) = Store.has now event.message_id a.seen_ids in
    let (a', handed) =
      passed_on event (record a { seen_ids = Store.set now event.message_id event.source seen }) in
    if taken
    then (
      record a {
        seen_ids = seen;
        seen_counts = plus_one event.source a.seen_counts;
        duplicates = a.duplicates + 1;
      },
      suppressed,
    )
    else (
      record a' {
        seen_counts = plus_one event.source a.seen_counts;
        wins = plus_one event.source a.wins;
        delivered = a.delivered + 1;
      },
      handed,
    )

unfoldable pub start : RacingInboundAdapter → RacingInboundAdapter
start a = if a.started then a else record a { started = true; live_children = length a.children }

unfoldable pub add_child : ℕ → RacingInboundAdapter → RacingInboundAdapter
add_child child a =
    let joined = record a { children = a.children ++ child ∷ [] } in
    if not a.started then joined else record joined { live_children = a.live_children + 1 }

unfoldable pub remove_child : ℕ → RacingInboundAdapter → RacingInboundAdapter
remove_child child a = record a { children = filter (λ c. not (c == child)) a.children }

-- The `finally` of `#pump`, when the stream of a child ends.
unfoldable pub end_child : RacingInboundAdapter → RacingInboundAdapter
unfolding AsyncQueue.close
end_child a =
    let left = a.live_children - 1 in
    if left == 0
    then record a { live_children = left; out = AsyncQueue.close a.out }
    else record a { live_children = left }

unfoldable pub set_synchronous_sink : Bool → RacingInboundAdapter → RacingInboundAdapter
set_synchronous_sink sink a = record a { sink = sink }

unfoldable pub stop : RacingInboundAdapter → RacingInboundAdapter
unfolding AsyncQueue.close
stop a = record a { out = AsyncQueue.close a.out }
