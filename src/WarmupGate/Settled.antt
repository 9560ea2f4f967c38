-- ===== src/WarmupGate/Settled.antt =====
-- connection-warmup-gate.ts: all work starts once enough of it has settled.
use line_deno_bot.Prelude.{
  ℕ, zero, suc, max, ◌+◌, ◌-◌, ◌≤◌, ◌<◌, ◌≡◌, refl, sym, ap, ◌∙◌, some, inl, inr, List, [], ◌∷◌,
  ◌++◌, arith, if-cases, length, length-append, ◌==◌,
}
use mathlib.Core.List.{append-nil}
use line_deno_bot.WarmupGate.{WarmupGate, new_gate, drain_loop, drain, settle}
use line_deno_bot.WarmupGate.Order.{
  Call, settles, step, run, submitted, IsGate, run-IsGate, drain_loop-full, step-IsGate,
  new_gate-IsGate,
}

module _ {W : Type 0} where
  abbrev pub settlings : ℕ → List (Call W)
  settlings zero = []
  settlings (suc n) = settles ∷ settlings n

  settle-pending :
      (limit : ℕ) (s : WarmupGate W × List W) (all : List W)
      → 0 < limit
      → IsGate limit all s
      → length (step settles s).0.pending + 1 ≤ max 1 (length s.0.pending)
  unfolding step settle drain drain_loop
  settle-pending limit (g, log) all pos h = elim h.busy [
    | inl e ↦
        if-cases (λ (r : WarmupGate W × List W). length r.0.pending + 1 ≤ max 1 (length g.pending))
          (g.active == 0) (g, log) _ (λ z. rw e (omega arith)) (λ z. rw e (omega arith))
    | inr e ↦
        let low : g.active - 1 ≤ g.limit = (let l = h.limited in omega (arith, e, l)) in
        let (order, n, small, stop) = drain_loop-full g.limit (g.active - 1) g.pending low in
        let d = drain_loop g.limit (g.active - 1) g.pending in
        let total : length d.2 + length d.0 ≡ length g.pending =
          sym (length-append d.2 d.0) ∙ ap length order in
        let l = h.limited in
        if-cases (λ (r : WarmupGate W × List W). length r.0.pending + 1 ≤ max 1 (length g.pending))
          (g.active == 0) (g, log) _ (λ z. absurd (ground (arith, z, e, pos)))
          (λ z. elim stop [
            | inl k ↦ rw k (omega arith)
            | inr k ↦ omega (arith, total, n, k, e, l, pos)
          ])
  ]

  settlings-pending :
      (limit n : ℕ) (s : WarmupGate W × List W) (all : List W)
      → 0 < limit
      → IsGate limit all s
      → length s.0.pending ≤ n
      → length (run (settlings n) s).0.pending ≡ 0
  unfolding run
  settlings-pending limit zero s all pos h le = omega (arith, le)
  settlings-pending limit (suc n) s all pos h le =
      settlings-pending limit n (step settles s) (all ++ []) pos (step-IsGate limit settles s all h)
        (omega (arith, settle-pending limit s all pos h, le))

  all_started : (log pending all : List W) → log ++ pending ≡ all → length pending ≡ 0 → log ≡ all
  all_started log [] all e n = sym (append-nil log) ∙ e
  all_started log (x ∷ pending) all e n = absurd (omega (arith, n))

  settlings-nothing : (n : ℕ) → submitted (settlings n) ≡ []
  settlings-nothing zero = refl
  settlings-nothing (suc n) = settlings-nothing n

  -- After any run of calls on a new gate, as many settlings as work was submitted start everything that
  -- was submitted, in its order.
  pub new_gate-settles :
      (limit : ℕ) (g : WarmupGate W) (calls : List (Call W))
      → new_gate limit ≡ some g
      → (run (settlings (length (submitted calls))) (run calls (g, []))).1 ≡ submitted calls
  unfolding new_gate
  new_gate-settles limit g calls e =
      let n = length (submitted calls) in
      let h = new_gate-IsGate limit g calls e in
      let s = run calls (g, []) in
      let done = run (settlings n) s in
      let total : length s.1 + length s.0.pending ≡ n =
        sym (length-append s.1 s.0.pending) ∙ ap length h.in_order in
      let h' : IsGate limit (submitted calls ++ submitted (settlings n)) done =
        run-IsGate limit (settlings n) s (submitted calls) h in
      let all : submitted calls ++ submitted (settlings n) ≡ submitted calls =
        ap (λ l. submitted calls ++ l) (settlings-nothing n) ∙ append-nil (submitted calls) in
      all_started done.1 done.0.pending (submitted calls) (h'.in_order ∙ all)
        (settlings-pending limit n s (submitted calls) (positive e) h (omega (arith, total)))
    where
      positive : new_gate limit ≡ some g → 0 < limit
      positive k = ground (arith, k)
