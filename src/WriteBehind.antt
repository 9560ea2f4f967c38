-- ===== src/WriteBehind.antt =====
-- apps/worker/src/persistence/write-behind.ts: the queue of writes. The `flush` of the options and
-- the timer are outside: a flush starts with a batch and settles later, and the timer, while it is
-- set, may fire. `close` runs up to each `await`, and goes on when the flush that it waits for has
-- settled.
pub mod Bounds
pub mod Counts
mod Tests
use line_deno_bot.Prelude.{
  ℕ, zero, suc, ◌+◌, Bool, true, false, not, ◌&&◌, ◌||◌, Option, none, some, List, [], ◌∷◌, ◌++◌,
  ltb, leb, if◌then◌else◌, get_or, length, tail, take, drop, is_some,
}

pub record WriteBehindOptions : Type 0 where
  pub batch_size : Option ℕ
  pub flush_interval_ms : Option ℕ
  pub max_queued : Option ℕ

pub record WriteBehindQueue (T : Type 0) : Type 0 where
  pub batch_size : ℕ
  pub max_queued : ℕ
  pub flush_interval_ms : ℕ
  pub queue : List T
  -- Whether `#handle` is set.
  pub armed : Bool
  -- `#flushing`, with the batch that the pending call has.
  pub flushing : Option (List T)
  pub written : ℕ
  pub dropped : ℕ
  pub flushes : ℕ
  pub failures : ℕ
  pub closed : Bool
  -- The `before` of the loop of `close` that waits for the pending flush; no two loops do.
  pub closing : Option ℕ

pub record WriteBehindStats : Type 0 where
  pub queued : ℕ
  pub written : ℕ
  pub dropped : ℕ
  pub flushes : ℕ
  pub failures : ℕ

module _ {T : Type 0} where
  -- The constructor; `none` is its ConfigError.
  unfoldable pub new_queue : WriteBehindOptions → Option (WriteBehindQueue T)
  new_queue options =
      let batch_size = get_or options.batch_size 64 in
      let max_queued = get_or options.max_queued 10000 in
      if ltb batch_size 1 || ltb max_queued batch_size
      then none
      else some (record {
        batch_size = batch_size;
        max_queued = max_queued;
        flush_interval_ms = get_or options.flush_interval_ms 1000;
        queue = [];
        armed = false;
        flushing = none;
        written = 0;
        dropped = 0;
        flushes = 0;
        failures = 0;
        closed = false;
        closing = none;
      })

  unfoldable pub stats : WriteBehindQueue T → WriteBehindStats
  stats q = record {
    queued = length q.queue;
    written = q.written;
    dropped = q.dropped;
    flushes = q.flushes;
    failures = q.failures;
  }

  unfoldable pub arm : WriteBehindQueue T → WriteBehindQueue T
  arm q = if q.armed || q.closed then q else record q { armed = true }

  abbrev pub started : WriteBehindQueue T → List T → WriteBehindQueue T
  started q [] = q
  started q (item ∷ items) = record q {
    queue = drop q.batch_size q.queue;
    flushing = some (item ∷ items);
    flushes = q.flushes + 1;
  }

  -- `flushNow`, up to its `await`.
  unfoldable pub flush_now : WriteBehindQueue T → WriteBehindQueue T
  flush_now q = if is_some q.flushing then q else started q (take q.batch_size q.queue)

  abbrev pub pushed : T → WriteBehindQueue T → WriteBehindQueue T
  pushed item q =
      let longer = q.queue ++ item ∷ [] in
      if ltb q.max_queued (length longer)
      then record q { queue = tail longer; dropped = q.dropped + 1 }
      else record q { queue = longer }

  unfoldable pub enqueue : T → WriteBehindQueue T → WriteBehindQueue T
  unfolding arm flush_now
  enqueue item q =
      let q' = pushed item q in
      if q.closed then q else if leb q'.batch_size (length q'.queue) then flush_now q' else arm q'

  -- The timer's callback.
  unfoldable pub fire : WriteBehindQueue T → WriteBehindQueue T
  unfolding flush_now
  fire q = if q.armed then flush_now (record q { armed = false }) else q

  -- The loop of a call of `close`, up to its `await` or to its end. A call of `flushNow` that finds a
  -- flush pending returns at once, with the queue as long as before, and the loop breaks; an earlier
  -- call of `close` that waits for that flush goes on waiting.
  unfoldable pub close_loop : WriteBehindQueue T → WriteBehindQueue T
  unfolding flush_now
  close_loop q =
      if leb (length q.queue) 0
      then q
      else if is_some q.flushing
      then q
      else flush_now (record q { closing = some (length q.queue) })

  unfoldable pub close : WriteBehindQueue T → WriteBehindQueue T
  unfolding close_loop
  close q = close_loop (record q { closed = true; armed = false })

  abbrev pub resumed : Option ℕ → WriteBehindQueue T → WriteBehindQueue T
  resumed none q = q
  resumed (some before) q =
      let on = record q { closing = none } in
      if leb before (length q.queue) then on else close_loop on

  abbrev pub rearmed : WriteBehindQueue T → WriteBehindQueue T
  rearmed q = if ltb 0 (length q.queue) then arm q else q

  abbrev pub settled : Bool → Option (List T) → WriteBehindQueue T → WriteBehindQueue T
  settled succeeded none q = q
  settled true (some batch) q =
      resumed q.closing (rearmed (record q { written = q.written + length batch; flushing = none }))
  settled false (some batch) q =
      resumed q.closing (rearmed (record q { failures = q.failures + 1; flushing = none }))

  -- `flushNow` after its `await`, which resolved or rejected, and then `close` if it waits.
  unfoldable pub settle : Bool → WriteBehindQueue T → WriteBehindQueue T
  unfolding arm close_loop
  settle succeeded q = settled succeeded q.flushing q
