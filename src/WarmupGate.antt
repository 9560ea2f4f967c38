-- ===== src/WarmupGate.antt =====
-- apps/worker/src/bots/connection-warmup-gate.ts: at most a number of connections are established at one
-- time. A piece of work is a value that names it; that it has settled is a step of its own.
pub mod Order
pub mod Settled
mod Tests
use line_deno_bot.Prelude.{
  ℕ, ◌+◌, ◌-◌, Bool, true, false, Option, none, some, List, [], ◌∷◌, ◌++◌, ltb, if◌then◌else◌, ◌==◌,
}

pub record WarmupGate (W : Type 0) : Type 0 where
  pub limit : ℕ
  pub pending : List W
  pub active : ℕ

module _ {W : Type 0} where
  -- The constructor; `none` is its RangeError.
  unfoldable pub new_gate : ℕ → Option (WarmupGate W)
  new_gate limit =
      if limit == 0 then none else some (record { limit = limit; pending = []; active = 0 })

  -- The loop of `#drain`: what is left to do, how many are active, and the work that it starts.
  unfoldable pub drain_loop : ℕ → ℕ → List W → List W × ℕ × List W
  drain_loop limit active [] = ([], active, [])
  drain_loop limit active (next ∷ pending) =
      let (left, active', work) = drain_loop limit (active + 1) pending in
      if ltb active limit then (left, active', next ∷ work) else (next ∷ pending, active, [])

  unfoldable pub drain : WarmupGate W → WarmupGate W × List W
  unfolding drain_loop
  drain g =
      let (left, active', work) = drain_loop g.limit g.active g.pending in
      (record g { pending = left; active = active' }, work)

  -- `run`, up to the promise that it returns.
  unfoldable pub submit : W → WarmupGate W → WarmupGate W × List W
  unfolding drain
  submit work g = drain (record g { pending = g.pending ++ work ∷ [] })

  -- `finally`, after a piece of work has settled, in either way.
  unfoldable pub settle : WarmupGate W → WarmupGate W × List W
  unfolding drain
  settle g = drain (record g { active = g.active - 1 })
