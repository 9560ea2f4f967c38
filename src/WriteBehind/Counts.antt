-- ===== src/WriteBehind/Counts.antt =====
-- write-behind.ts over a run of calls: where each accepted item goes.
use line_deno_bot.Prelude.{
  ℕ, ◌+◌, ◌≡◌, refl, ap, ◌∙◌, inl, inr, Bool, true, false, Option, none, some, List, [], ◌∷◌, ◌++◌,
  ltb, leb, if◌then◌else◌, length, take, is_some, arith, length-append, length-take, length-drop,
  Bool-cases, Option-cases, if-cases,
}
use line_deno_bot.WriteBehind.{
  WriteBehindQueue, arm, flush_now, enqueue, fire, close_loop, close, settle, pushed, rearmed,
  resumed, settled,
}
use line_deno_bot.WriteBehind.Bounds.{
  Call, enqueues, fires, closes, flushes, settles, step, run, length-tail,
}

module _ {T : Type 0} where
  flight : Option (List T) → ℕ
  flight none = 0
  flight (some batch) = length batch

  -- The items that the queue has counted, is flushing or holds.
  unfoldable pub total : WriteBehindQueue T → ℕ
  unfolding flight
  total q = q.written + q.dropped + flight q.flushing + length q.queue

  accepts : Call T → WriteBehindQueue T → ℕ
  accepts (enqueues item) q = if q.closed then 0 else 1
  accepts _ q = 0

  loses : Call T → WriteBehindQueue T → ℕ
  unfolding flight
  loses (settles false) q = flight q.flushing
  loses _ q = 0

  -- How many items the calls put in while the queue was open, and how many were in a batch whose
  -- flush was rejected.
  unfoldable pub accepted : List (Call T) → WriteBehindQueue T → ℕ
  unfolding accepts
  accepted [] q = 0
  accepted (c ∷ calls) q = accepts c q + accepted calls (step c q)

  unfoldable pub lost : List (Call T) → WriteBehindQueue T → ℕ
  unfolding loses
  lost [] q = 0
  lost (c ∷ calls) q = loses c q + lost calls (step c q)

  flush_now-total : (q : WriteBehindQueue T) → total (flush_now q) ≡ total q
  unfolding flush_now total flight
  flush_now-total q = elim (Option-cases q.flushing) [
    | inl e ↦ started-total q e
    | inr (batch, e) ↦ ground (arith, e)
  ]
    where
      started-total : (q : WriteBehindQueue T) → q.flushing ≡ none → total (flush_now q) ≡ total q
      started-total q e = split (take q.batch_size q.queue) refl
        where
          split : (b : List T) → take q.batch_size q.queue ≡ b → total (flush_now q) ≡ total q
          split [] t = ground (arith, t, e)
          split (x ∷ xs) t =
              let n = length-drop q.batch_size q.queue in
              let m = length-take q.batch_size q.queue in
              let k = ap length t in ground (arith, n, m, k, t, e)

  arm-total : (q : WriteBehindQueue T) → total (arm q) ≡ total q
  unfolding arm total
  arm-total q = ground arith

  close_loop-total : (q : WriteBehindQueue T) → total (close_loop q) ≡ total q
  unfolding close_loop total
  close_loop-total q =
      let P : WriteBehindQueue T → Type 0 = λ q'. total q' ≡ total q in
      if-cases P (leb (length q.queue) 0) _ _ (λ e. refl)
        (λ e.
          if-cases P (is_some q.flushing) _ _ (λ f. refl)
            (λ f.
              flush_now-total (record q { closing = some (length q.queue) })
              ∙ same (some (length q.queue))))
    where
      same : (c : Option ℕ) → total (record q { closing = c }) ≡ total q
      same c = refl

  resumed-total :
      (closing : Option ℕ) (q : WriteBehindQueue T) → total (resumed closing q) ≡ total q
  unfolding total
  resumed-total none q = refl
  resumed-total (some before) q =
      if-cases (λ q'. total q' ≡ total q) (leb before (length q.queue)) _ _ (λ e. refl)
        (λ e. close_loop-total (record q { closing = none }))

  rearmed-total : (q : WriteBehindQueue T) → total (rearmed q) ≡ total q
  rearmed-total q =
      if-cases (λ q'. total q' ≡ total q) (ltb 0 (length q.queue)) _ _ (λ e. arm-total q)
        (λ e. refl)

  settle-total :
      (succeeded : Bool) (q : WriteBehindQueue T)
      → total (settle succeeded q) + loses (settles succeeded) q ≡ total q
  unfolding settle total loses flight
  settle-total succeeded q = split succeeded q.flushing refl
    where
      after : (q' : WriteBehindQueue T) → total (resumed q.closing (rearmed q')) ≡ total q'
      after q' = resumed-total q.closing (rearmed q') ∙ rearmed-total q'

      split :
          (b : Bool) (batch : Option (List T))
          → q.flushing ≡ batch
          → total (settled b batch q) + loses (settles b) q ≡ total q
      split true none e = omega arith
      split false none e = ground (arith, e)
      split true (some batch) e =
          let t = after (record q { written = q.written + length batch; flushing = none }) in
          ground (arith, t, e)
      split false (some batch) e =
          let t = after (record q { failures = q.failures + 1; flushing = none }) in
          ground (arith, t, e)

  pushed-total : (item : T) (q : WriteBehindQueue T) → total (pushed item q) ≡ total q + 1
  unfolding total
  pushed-total item q =
      let longer = length-append q.queue (item ∷ []) in
      let shifted = length-tail (q.queue ++ item ∷ []) in ground (arith, longer, shifted)

  enqueue-total :
      (item : T) (q : WriteBehindQueue T)
      → total (enqueue item q) ≡ total q + accepts (enqueues item) q
  unfolding enqueue accepts
  enqueue-total item q = elim (Bool-cases q.closed) [
    | inl c ↦ ground (arith, c)
    | inr c ↦
        let a = flush_now-total (pushed item q) in
        let b = arm-total (pushed item q) in
        let p = pushed-total item q in ground (arith, c, a, b, p)
  ]

  fire-total : (q : WriteBehindQueue T) → total (fire q) ≡ total q
  unfolding fire total
  fire-total q =
      if-cases (λ q'. total q' ≡ total q) q.armed _ _
        (λ e. flush_now-total (record q { armed = false })) (λ e. refl)

  step-total :
      (c : Call T) (q : WriteBehindQueue T) → total (step c q) + loses c q ≡ total q + accepts c q
  unfolding step accepts loses close total
  step-total (enqueues item) q = omega (arith, enqueue-total item q)
  step-total fires q = omega (arith, fire-total q)
  step-total closes q = omega (arith, close_loop-total (record q { closed = true; armed = false }))
  step-total flushes q = omega (arith, flush_now-total q)
  step-total (settles succeeded) q = omega (arith, settle-total succeeded q)

  -- Every item that is put in while the queue is open is counted once: as written, as dropped, in the
  -- batch of the pending flush, in the queue, or in a batch whose flush was rejected.
  pub total-run :
      (calls : List (Call T)) (q : WriteBehindQueue T)
      → total (run calls q) + lost calls q ≡ total q + accepted calls q
  unfolding run accepted lost
  total-run [] q = omega arith
  total-run (c ∷ calls) q = omega (arith, step-total c q, total-run calls (step c q))
