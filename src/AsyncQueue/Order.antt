-- ===== src/AsyncQueue/Order.antt =====
-- async-queue.ts over a run of calls: what the consumer gets.
use line_deno_bot.Prelude.{
  ◌+◌, ◌≡◌, refl, sym, ap, ◌∙◌, Bool, true, false, List, [], ◌∷◌, ◌++◌, leb, if◌then◌else◌, length,
  arith, if-cases,
}
use mathlib.Core.List.{append-nil, append_assoc}
use line_deno_bot.AsyncQueue.{
  AsyncQueue, Step, yielded, finished, waiting, offer, close, iterate, wake,
}

pub data Call (T : Type 0) : Type 0 where
  offers : T → Call T
  closes iterates : Call T

module _ {T : Type 0} where
  unfoldable pub step : Call T → AsyncQueue T → AsyncQueue T
  step (offers value) q = (offer value q).0
  step closes q = close q
  step iterates q = (iterate q).0

  unfoldable pub run : List (Call T) → AsyncQueue T → AsyncQueue T
  unfolding step
  run [] q = q
  run (c ∷ calls) q = run calls (step c q)

  abbrev got : Step T → List T
  got (yielded value) = value ∷ []
  got finished = []
  got waiting = []

  gets : Call T → AsyncQueue T → List T
  gets iterates q = got (iterate q).1
  gets _ q = []

  puts : Call T → AsyncQueue T → List T
  puts (offers value) q = if (offer value q).1 then value ∷ [] else []
  puts _ q = []

  -- The values that the consumer gets, and those that `push` accepts.
  unfoldable pub delivered : List (Call T) → AsyncQueue T → List T
  unfolding gets
  delivered [] q = []
  delivered (c ∷ calls) q = gets c q ++ delivered calls (step c q)

  unfoldable pub accepted : List (Call T) → AsyncQueue T → List T
  unfolding puts
  accepted [] q = []
  accepted (c ∷ calls) q = puts c q ++ accepted calls (step c q)

  step-items : (c : Call T) (q : AsyncQueue T) → q.items ++ puts c q ≡ gets c q ++ (step c q).items
  unfolding puts gets step offer close iterate wake
  step-items (offers value) q =
      let P : AsyncQueue T × Bool → Type 0 =
        λ r. q.items ++ (if r.1 then value ∷ [] else []) ≡ r.0.items in
      let full : AsyncQueue T × Bool = (record q { dropped = q.dropped + 1 }, false) in
      let kept : AsyncQueue T × Bool = (wake (record q { items = q.items ++ value ∷ [] }), true) in
      let open_arm : AsyncQueue T × Bool =
        if leb q.max_pending (length q.items) then full else kept in
      if-cases P q.closed (q, false) open_arm (λ e. append-nil q.items)
        (λ e.
          if-cases P (leb q.max_pending (length q.items)) full kept (λ f. append-nil q.items)
            (λ f. refl))
  step-items closes q = append-nil q.items
  step-items iterates q = split q.items refl
    where
      split :
          (items : List T)
          → q.items ≡ items
          → q.items ++ puts iterates q ≡ gets iterates q ++ (step iterates q).items
      split [] e = ground (arith, e)
      split (x ∷ items) e = ground (arith, e, append-nil items)

  -- The consumer gets the accepted values in their order, and those that it has not got yet are in
  -- the queue.
  pub run-items :
      (calls : List (Call T)) (q : AsyncQueue T)
      → q.items ++ accepted calls q ≡ delivered calls q ++ (run calls q).items
  unfolding run accepted delivered
  run-items [] q = append-nil q.items
  run-items (c ∷ calls) q =
      sym (append_assoc q.items (puts c q) (accepted calls (step c q)))
      ∙ ap (λ l. l ++ accepted calls (step c q)) (step-items c q)
      ∙ append_assoc (gets c q) (step c q).items (accepted calls (step c q))
      ∙ ap (λ l. gets c q ++ l) (run-items calls (step c q))
      ∙ sym (append_assoc (gets c q) (delivered calls (step c q)) (run calls (step c q)).items)
