-- ===== src/WriteBehind/Bounds.antt =====
-- write-behind.ts over a run of calls: what the queue holds, and that it is not left waiting.
use line_deno_bot.Prelude.{
  ℕ, ◌+◌, ◌-◌, ◌≤◌, ◌<◌, ◌≡◌, refl, ap, ◌∙◌, ◌⊎◌, inl, inr, Bool, true, false, Option, none, some,
  List, [], ◌∷◌, ◌++◌, ltb, leb, length, tail, take, is_some, arith, length-append, length-take,
  length-drop, Bool-cases, if-cases,
}
use line_deno_bot.WriteBehind.{
  WriteBehindQueue, WriteBehindOptions, new_queue, arm, flush_now, enqueue, fire, close_loop, close,
  settle, pushed, rearmed, resumed, settled,
}

pub data Call (T : Type 0) : Type 0 where
  enqueues : T → Call T
  fires closes flushes : Call T
  settles : Bool → Call T

module _ {T : Type 0} where
  unfoldable pub step : Call T → WriteBehindQueue T → WriteBehindQueue T
  step (enqueues item) q = enqueue item q
  step fires q = fire q
  step closes q = close q
  step flushes q = flush_now q
  step (settles succeeded) q = settle succeeded q

  unfoldable pub run : List (Call T) → WriteBehindQueue T → WriteBehindQueue T
  unfolding step
  run [] q = q
  run (c ∷ calls) q = run calls (step c q)

  pub record IsSound (q : WriteBehindQueue T) : Type 0 where
    pub bounded : length q.queue ≤ q.max_queued
    pub sized : 0 < q.batch_size
    -- While the queue is open, items that wait have a timer or a pending flush to come after them.
    pub served :
        q.closed ≡ false → (length q.queue ≡ 0) ⊎ (q.armed ≡ true) ⊎ (is_some q.flushing ≡ true)

  flush_now-IsSound :
      (q : WriteBehindQueue T)
      → length q.queue ≤ q.max_queued
      → 0 < q.batch_size
      → IsSound (flush_now q)
  unfolding flush_now
  flush_now-IsSound q bounded sized = elim (Bool-cases (is_some q.flushing)) [
    | inl e ↦
        rw (e, flush_now) (record { bounded = bounded; sized = sized; served = λ o. inr (inr e) })
    | inr e ↦ split (take q.batch_size q.queue) refl e
  ]
    where
      split :
          (batch : List T)
          → take q.batch_size q.queue ≡ batch
          → is_some q.flushing ≡ false
          → IsSound (flush_now q)
      split [] t e =
          let n = length-take q.batch_size q.queue in
          let none_left = ap length t in
          rw (e, flush_now, t)
            (record {
              bounded = bounded;
              sized = sized;
              served = λ o. inl (omega (arith, n, none_left));
            })
      split (x ∷ xs) t e =
          let n = length-drop q.batch_size q.queue in
          rw (e, flush_now, t)
            (record { bounded = omega (arith, n); sized = sized; served = λ o. inr (inr refl) })

  arm-IsSound :
      (q : WriteBehindQueue T) → length q.queue ≤ q.max_queued → 0 < q.batch_size → IsSound (arm q)
  unfolding arm
  arm-IsSound q bounded sized = elim (Bool-cases q.armed) [
    | inl a ↦
        rw (arm, a) (record { bounded = bounded; sized = sized; served = λ o. inr (inl refl) })
    | inr a ↦ elim (Bool-cases q.closed) [
      | inl c ↦
          rw (arm, a, c)
            (record { bounded = bounded; sized = sized; served = λ o. absurd (ground (arith, o)) })
      | inr c ↦
          rw (arm, a, c) (record { bounded = bounded; sized = sized; served = λ o. inr (inl refl) })
    ]
  ]

  pub length-tail : (xs : List T) → length (tail xs) ≡ length xs - 1
  length-tail [] = refl
  length-tail (x ∷ xs) = omega arith

  pushed-kept :
      (item : T) (q : WriteBehindQueue T)
      → length q.queue ≤ q.max_queued
      → (length (pushed item q).queue ≤ (pushed item q).max_queued)
        × ((pushed item q).batch_size ≡ q.batch_size)
  pushed-kept item q bounded =
      let longer = length-append q.queue (item ∷ []) in
      let shifted = length-tail (q.queue ++ item ∷ []) in ground (arith, longer, shifted, bounded)

  enqueue-IsSound : (item : T) (q : WriteBehindQueue T) → IsSound q → IsSound (enqueue item q)
  unfolding enqueue
  enqueue-IsSound item q h =
      let (few, same) = pushed-kept item q h.bounded in
      let sized : 0 < (pushed item q).batch_size = omega (arith, h.sized) in
      if-cases IsSound q.closed _ _ (λ c. h)
        (λ c.
          if-cases IsSound (leb (pushed item q).batch_size (length (pushed item q).queue)) _ _
            (λ e. flush_now-IsSound (pushed item q) few sized)
            (λ e. arm-IsSound (pushed item q) few sized))

  fire-IsSound : (q : WriteBehindQueue T) → IsSound q → IsSound (fire q)
  unfolding fire
  fire-IsSound q h =
      if-cases IsSound q.armed _ _
        (λ e. flush_now-IsSound (record q { armed = false }) h.bounded h.sized) (λ e. h)

  -- Of a closed queue only the bounds are asked.
  closed-IsSound :
      (q : WriteBehindQueue T)
      → length q.queue ≤ q.max_queued
      → 0 < q.batch_size
      → q.closed ≡ true
      → IsSound q
  closed-IsSound q bounded sized c = record {
    bounded = bounded;
    sized = sized;
    served = λ o. absurd (ground (arith, o, c));
  }

  close_loop-IsSound :
      (q : WriteBehindQueue T)
      → length q.queue ≤ q.max_queued
      → 0 < q.batch_size
      → q.closed ≡ true
      → IsSound (close_loop q)
  unfolding close_loop
  close_loop-IsSound q bounded sized c =
      let ended = closed-IsSound q bounded sized c in
      if-cases IsSound (leb (length q.queue) 0) _ _ (λ e. ended)
        (λ e.
          if-cases IsSound (is_some q.flushing) _ _ (λ f. ended)
            (λ f. flush_now-IsSound (record q { closing = some (length q.queue) }) bounded sized))

  close-IsSound : (q : WriteBehindQueue T) → IsSound q → IsSound (close q)
  unfolding close
  close-IsSound q h =
      close_loop-IsSound (record q { closed = true; armed = false }) h.bounded h.sized refl

  -- A queue that `close` waits for is closed.
  pub IsClosing : WriteBehindQueue T → Type 0
  IsClosing q = is_some q.closing ≡ true → q.closed ≡ true

  rearmed-IsSound :
      (q : WriteBehindQueue T)
      → length q.queue ≤ q.max_queued
      → 0 < q.batch_size
      → IsSound (rearmed q)
  rearmed-IsSound q bounded sized =
      if-cases IsSound (ltb 0 (length q.queue)) _ _ (λ e. arm-IsSound q bounded sized)
        (λ e. record { bounded = bounded; sized = sized; served = λ o. inl (ground (arith, e)) })

  resumed-IsSound :
      (closing : Option ℕ) (q : WriteBehindQueue T)
      → (is_some closing ≡ true → q.closed ≡ true)
      → IsSound q
      → IsSound (resumed closing q)
  resumed-IsSound none q c h = h
  resumed-IsSound (some before) q c h =
      if-cases IsSound (leb before (length q.queue)) _ _
        (λ e. closed-IsSound (record q { closing = none }) h.bounded h.sized (c refl))
        (λ e. close_loop-IsSound (record q { closing = none }) h.bounded h.sized (c refl))

  rearmed-closed : (q : WriteBehindQueue T) → (rearmed q).closed ≡ q.closed
  unfolding arm
  rearmed-closed q = ground arith

  new_queue-fields :
      (options : WriteBehindOptions) (q : WriteBehindQueue T)
      → new_queue options ≡ some q
      → (length q.queue ≡ 0) × (0 < q.batch_size) × (is_some q.closing ≡ false)
  unfolding new_queue
  new_queue-fields options q e = ground (arith, e)

  settle-IsSound :
      (succeeded : Bool) (q : WriteBehindQueue T)
      → IsClosing q
      → IsSound q
      → IsSound (settle succeeded q)
  unfolding settle IsClosing
  settle-IsSound succeeded q c h = split succeeded q.flushing
    where
      after :
          (q' : WriteBehindQueue T)
          → length q'.queue ≤ q'.max_queued
          → 0 < q'.batch_size
          → (rearmed q').closed ≡ q.closed
          → IsSound (resumed q.closing (rearmed q'))
      after q' bounded sized same =
          resumed-IsSound q.closing (rearmed q') (λ e. same ∙ c e)
            (rearmed-IsSound q' bounded sized)

      split : (b : Bool) (batch : Option (List T)) → IsSound (settled b batch q)
      split b none = h
      split true (some batch) =
          after (record q { written = q.written + length batch; flushing = none }) h.bounded h.sized
            (rearmed-closed (record q { written = q.written + length batch; flushing = none }))
      split false (some batch) =
          after (record q { failures = q.failures + 1; flushing = none }) h.bounded h.sized
            (rearmed-closed (record q { failures = q.failures + 1; flushing = none }))

  step-IsSound :
      (c : Call T) (q : WriteBehindQueue T) → IsClosing q → IsSound q → IsSound (step c q)
  unfolding step
  step-IsSound (enqueues item) q c h = enqueue-IsSound item q h
  step-IsSound fires q c h = fire-IsSound q h
  step-IsSound closes q c h = close-IsSound q h
  step-IsSound flushes q c h = flush_now-IsSound q h.bounded h.sized
  step-IsSound (settles succeeded) q c h = settle-IsSound succeeded q c h

  step-IsClosing : (c : Call T) (q : WriteBehindQueue T) → IsClosing q → IsClosing (step c q)
  unfolding IsClosing step enqueue fire close close_loop settle flush_now arm
  step-IsClosing (enqueues item) q c = ground (arith, c)
  step-IsClosing fires q c = ground (arith, c)
  step-IsClosing closes q c = ground (arith, c)
  step-IsClosing flushes q c = ground (arith, c)
  step-IsClosing (settles true) q c = ground (arith, c)
  step-IsClosing (settles false) q c = ground (arith, c)

  run-IsSound :
      (calls : List (Call T)) (q : WriteBehindQueue T)
      → IsClosing q
      → IsSound q
      → IsSound (run calls q)
  unfolding run
  run-IsSound [] q c h = h
  run-IsSound (call ∷ calls) q c h =
      run-IsSound calls (step call q) (step-IsClosing call q c) (step-IsSound call q c h)

  -- After any calls on a new queue, it holds at most `max_queued` items, and while it is open and
  -- holds any, the timer is set or a flush is pending.
  pub run-new_queue-IsSound :
      (options : WriteBehindOptions) (q : WriteBehindQueue T) (calls : List (Call T))
      → new_queue options ≡ some q
      → IsSound (run calls q)
  unfolding IsClosing
  run-new_queue-IsSound options q calls e =
      run-IsSound calls q (λ s. ground (arith, new_queue-fields options q e, s))
        (let (empty, sized, _) = new_queue-fields options q e in
          record {
            bounded = omega (arith, empty);
            sized = sized;
            served = λ o. inl (omega (arith, empty));
          })
