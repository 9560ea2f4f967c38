-- ===== src/WarmupGate/Order.antt =====
-- connection-warmup-gate.ts over a run of calls: what has started, and in which order.
use line_deno_bot.Prelude.{
  ℕ, ◌+◌, ◌-◌, ◌≤◌, ◌≡◌, refl, sym, ap, ◌∙◌, subst, none, some, ◌⊎◌, inl, inr, List, [], ◌∷◌, ◌++◌,
  arith, ltb, if◌then◌else◌, if-cases, length, ◌==◌, get_or,
}
use mathlib.Core.List.{append-nil, append_assoc}
use line_deno_bot.WarmupGate.{WarmupGate, new_gate, drain_loop, drain, submit, settle}

pub data Call (W : Type 0) : Type 0 where
  submits : W → Call W
  settles : Call W

module _ {W : Type 0} where
  -- What happens: a settling needs work that is under way.
  unfoldable pub step : Call W → WarmupGate W × List W → WarmupGate W × List W
  unfolding submit settle
  step (submits work) (g, log) = let (g', work') = submit work g in (g', log ++ work')
  step settles (g, log) =
      if g.active == 0 then (g, log) else (let (g', work') = settle g in (g', log ++ work'))

  unfoldable pub run : List (Call W) → WarmupGate W × List W → WarmupGate W × List W
  unfolding step
  run [] s = s
  run (c ∷ calls) s = run calls (step c s)

  abbrev pub submitted : List (Call W) → List W
  submitted [] = []
  submitted (submits work ∷ calls) = work ∷ submitted calls
  submitted (settles ∷ calls) = submitted calls

  -- A loop starts the first of the pending work, and stops when nothing is left or the gate is full.
  pub drain_loop-full :
      (limit active : ℕ) (pending : List W)
      → active ≤ limit
      → let d = drain_loop limit active pending in
        (d.2 ++ d.0 ≡ pending)
        × (d.1 ≡ active + length d.2)
        × (d.1 ≤ limit)
        × ((d.0 ≡ []) ⊎ (d.1 ≡ limit))
  unfolding drain_loop
  drain_loop-full limit active [] h = (refl, omega arith, h, inl refl)
  drain_loop-full limit active (next ∷ pending) h =
      let P : List W × ℕ × List W → Type 0 = λ d.
        (d.2 ++ d.0 ≡ next ∷ pending)
        × (d.1 ≡ active + length d.2)
        × (d.1 ≤ limit)
        × ((d.0 ≡ []) ⊎ (d.1 ≡ limit)) in
      if-cases P (ltb active limit) _ _
        (λ e.
          let (order, n, low, stop) =
            drain_loop-full limit (active + 1) pending (ground (arith, e)) in
          (ap (λ l. next ∷ l) order, omega (arith, n), low, stop))
        (λ e. (refl, omega arith, h, inr (ground (arith, e, h))))

  -- The gate is never over its limit, holds back nothing while it has room, and starts the work in the
  -- order of its submission.
  pub record IsGate (limit : ℕ) (all : List W) (s : WarmupGate W × List W) : Type 0 where
    pub limited : s.0.limit ≡ limit
    pub bounded : s.0.active ≤ limit
    pub busy : (s.0.pending ≡ []) ⊎ (s.0.active ≡ limit)
    pub in_order : s.1 ++ s.0.pending ≡ all

  drain-IsGate :
      (limit : ℕ) (g : WarmupGate W) (log all : List W)
      → g.limit ≡ limit
      → g.active ≤ limit
      → log ++ g.pending ≡ all
      → IsGate limit all ((drain g).0, log ++ (drain g).1)
  unfolding drain
  drain-IsGate limit g log all l low order =
      let (kept, n, low', stop) =
        drain_loop-full g.limit g.active g.pending (omega (arith, l, low)) in
      record {
        limited = l;
        bounded = omega (arith, low', l);
        busy = elim stop [ inl e ↦ inl e | inr e ↦ inr (e ∙ l) ];
        in_order = append_assoc log _ _ ∙ ap (λ xs. log ++ xs) kept ∙ order;
      }

  abbrev news : Call W → List W
  news (submits work) = work ∷ []
  news settles = []

  pub step-IsGate :
      (limit : ℕ) (c : Call W) (s : WarmupGate W × List W) (all : List W)
      → IsGate limit all s
      → IsGate limit (all ++ news c) (step c s)
  unfolding step submit settle
  step-IsGate limit (submits work) (g, log) all h =
      drain-IsGate limit (record g { pending = g.pending ++ work ∷ [] }) log (all ++ work ∷ [])
        h.limited h.bounded
        (sym (append_assoc log g.pending (work ∷ [])) ∙ ap (λ xs. xs ++ work ∷ []) h.in_order)
  step-IsGate limit settles (g, log) all h = rw (append-nil all) (
      if-cases (IsGate limit all) (g.active == 0) (g, log) _ (λ e. h)
        (λ e.
          let low = h.bounded in
          drain-IsGate limit (record g { active = g.active - 1 }) log all h.limited
            (omega (arith, low)) h.in_order))

  submitted-news :
      (c : Call W) (calls : List (Call W)) → submitted (c ∷ calls) ≡ news c ++ submitted calls
  submitted-news (submits work) calls = refl
  submitted-news settles calls = refl

  pub run-IsGate :
      (limit : ℕ) (calls : List (Call W)) (s : WarmupGate W × List W) (all : List W)
      → IsGate limit all s
      → IsGate limit (all ++ submitted calls) (run calls s)
  unfolding run
  run-IsGate limit [] s all h = rw (append-nil all) h
  run-IsGate limit (c ∷ calls) s all h =
      subst (λ l. IsGate limit l (run calls (step c s)))
        (append_assoc all (news c) (submitted calls)
          ∙ ap (λ l. all ++ l) (sym (submitted-news c calls)))
        (run-IsGate limit calls (step c s) (all ++ news c) (step-IsGate limit c s all h))

  -- Through any run of calls on a new gate: at most `limit` pieces of work are under way, all of it has started
  -- unless exactly `limit` are, and what has started followed by what waits is what was submitted, in
  -- that order.
  pub new_gate-IsGate :
      (limit : ℕ) (g : WarmupGate W) (calls : List (Call W))
      → new_gate limit ≡ some g
      → IsGate limit (submitted calls) (run calls (g, []))
  unfolding new_gate
  new_gate-IsGate limit g calls e =
      if-cases (λ o. o ≡ some g → IsGate limit (submitted calls) (run calls (g, []))) (limit == 0)
        none (some (record { limit = limit; pending = []; active = 0 }))
        (λ h k. absurd (ground (arith, k)))
        (λ h k.
          let same : record { limit = limit; pending = []; active = 0 } ≡ g =
            ap (λ o. get_or o g) k in
          subst (λ q. IsGate limit (submitted calls) (run calls (q, []))) same
            (run-IsGate limit calls _ []
              (record { limited = refl; bounded = omega arith; busy = inl refl; in_order = refl })))
        e
