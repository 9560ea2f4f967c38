-- ===== src/AsyncQueue.antt =====
-- apps/worker/src/lib/async-queue.ts: the queue between a producer and one consumer. A step of the
-- consumer's loop takes a value, ends, or waits for the next wake.
pub mod Order
mod Tests
use line_deno_bot.Prelude.{
  ℕ, suc, ◌+◌, Bool, true, false, Option, none, some, List, [], ◌∷◌, ◌++◌, leb, if◌then◌else◌,
  length,
}

pub record AsyncQueue (T : Type 0) : Type 0 where
  pub max_pending : ℕ
  pub items : List T
  -- The consumers that wait, each with the promise that a wake resolves.
  pub waiters : ℕ
  pub closed : Bool
  pub dropped : ℕ

pub data Step (T : Type 0) : Type 0 where
  yielded : T → Step T
  finished waiting : Step T

module _ {T : Type 0} where
  unfoldable pub new_queue : ℕ → AsyncQueue T
  new_queue max_pending = record {
    max_pending = max_pending;
    items = [];
    waiters = 0;
    closed = false;
    dropped = 0;
  }

  unfoldable pub pending : AsyncQueue T → ℕ
  pending q = length q.items

  unfoldable pub wake : AsyncQueue T → AsyncQueue T
  wake q = record q { waiters = 0 }

  unfoldable pub offer : T → AsyncQueue T → AsyncQueue T × Bool
  unfolding wake
  offer value q =
      if q.closed
      then (q, false)
      else if leb q.max_pending (length q.items)
      then (record q { dropped = q.dropped + 1 }, false)
      else (wake (record q { items = q.items ++ value ∷ [] }), true)

  unfoldable pub close : AsyncQueue T → AsyncQueue T
  unfolding wake
  close q = wake (record q { closed = true })

  abbrev taken_from : AsyncQueue T → List T → AsyncQueue T × Step T
  taken_from q [] =
      if q.closed then (q, finished) else (record q { waiters = q.waiters + 1 }, waiting)
  taken_from q (value ∷ items) = (record q { items = items }, yielded value)

  -- One round of the loop of `[Symbol.asyncIterator]`.
  unfoldable pub iterate : AsyncQueue T → AsyncQueue T × Step T
  iterate q = taken_from q q.items
