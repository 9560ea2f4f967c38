-- ===== src/Experiments/Taken.antt =====
-- prepared-slot.ts over a run of calls: what `take` returns.
use line_deno_bot.Prelude.{
  ℕ, ◌+◌, ◌-◌, ◌≤◌, ◌≡◌, refl, sym, subst, ap, ◌∙◌, false, not, ◌&&◌, ◌||◌, Option, none, some,
  List, [], ◌∷◌, arith, if◌then◌else◌, if-cases, ltb, ◌==◌, get_or,
}
use line_deno_bot.Prelude.Text.{Text, text, text_beq}
use line_deno_bot.Experiments.Slot.{
  PreparedSlot, ready, invalidated, is_ready, is_key, is_sequence, new_slot, prepare, drop, take,
  invalidate, invalidate_sequence,
}

pub data Call (T : Type 0) : Type 0 where
  prepares : ℕ → Text → ℕ → T → Call T
  takes : ℕ → Text → ℕ → Call T
  invalidates : Text → Call T
  advances : Text → ℕ → Call T

-- The abstract slot: nothing, or a payload with the time, the key and the sequence of its preparation.
pub record Payload (T : Type 0) : Type 0 where
  pub at : ℕ
  pub key : Text
  pub sequence : ℕ
  pub built : T

module _ {T : Type 0} where
  unfoldable pub step : Call T → PreparedSlot T → PreparedSlot T
  step (prepares now key n built) s = prepare now key n built s
  step (takes now key n) s = (take now key n s).0
  step (invalidates reason) s = invalidate reason s
  step (advances key n) s = invalidate_sequence key n s

  unfoldable pub run : List (Call T) → PreparedSlot T → PreparedSlot T
  unfolding step
  run [] s = s
  run (c ∷ calls) s = run calls (step c s)

  abbrev pub kept : Text → ℕ → Option (Payload T) → Option (Payload T)
  kept key n none = none
  kept key n (some p) = if text_beq p.key key && (p.sequence == n) then some p else none

  -- Every `take` and every invalidation empties the slot, and an advance to another sequence does.
  unfoldable pub payload : List (Call T) → Option (Payload T) → Option (Payload T)
  payload [] o = o
  payload (prepares now key n built ∷ calls) o =
      payload calls (some (record { at = now; key = key; sequence = n; built = built }))
  payload (takes now key n ∷ calls) o = payload calls none
  payload (invalidates reason ∷ calls) o = payload calls none
  payload (advances key n ∷ calls) o = payload calls (kept key n o)

  abbrev pub given : ℕ → ℕ → Text → ℕ → Option (Payload T) → Option T
  given max_age_ms now key n none = none
  given max_age_ms now key n (some p) =
      if text_beq p.key key && (p.sequence == n) && not (ltb max_age_ms (now - p.at))
      then some p.built
      else none

  -- A slot that stands for an abstract one.
  abbrev pub Stands : ℕ → PreparedSlot T → Option (Payload T) → Type 0
  Stands age s none = (is_ready s.state ≡ false) × (s.max_age_ms ≡ age) × (s.hits ≤ s.prepared)
  Stands age s (some p) =
      (s.state ≡ ready)
      × (s.value ≡ some p.built)
      × (s.route_key ≡ some p.key)
      × (s.sequence ≡ some p.sequence)
      × (s.prepared_mono ≡ p.at)
      × (s.max_age_ms ≡ age)
      × (s.hits + 1 ≤ s.prepared)

  take-Stands :
      (age now : ℕ) (key : Text) (n : ℕ) (s : PreparedSlot T) (o : Option (Payload T))
      → Stands age s o
      → Stands age (take now key n s).0 none × ((take now key n s).1 ≡ given age now key n o)
  unfolding take drop
  take-Stands age now key n s none (off, a, c) = (rw off (off, a, c), rw off refl)
  take-Stands age now key n s (some p) (r, v, k, q, at, a, c) =
      let P : PreparedSlot T × Option T → Type 0 =
        λ r. Stands age r.0 none × (r.1 ≡ given age now key n (some p)) in
      let k' : is_key s.route_key key ≡ text_beq p.key key = ap (λ o. is_key o key) k in
      let q' : is_sequence s.sequence n ≡ (p.sequence == n) = ap (λ o. is_sequence o n) q in
      let old : ltb s.max_age_ms (now - s.prepared_mono) ≡ ltb age (now - p.at) = rw (a, at) refl in
      if-cases P (not (is_ready s.state)) _ _ (λ e. absurd (ground (arith, r, e)))
        (λ e.
          if-cases P (not (is_key s.route_key key) || not (is_sequence s.sequence n)) _ _
            (λ e1. ((refl, a, omega (arith, c)), ground (arith, e1, k', q')))
            (λ e1.
              if-cases P (ltb s.max_age_ms (now - s.prepared_mono)) _ _
                (λ e2. ((refl, a, omega (arith, c)), ground (arith, e2, old)))
                (λ e2. ((refl, a, omega (arith, c)), v ∙ ground (arith, e1, e2, k', q', old)))))

  advance-Stands :
      (age : ℕ) (key : Text) (n : ℕ) (s : PreparedSlot T) (p : Payload T)
      → Stands age s (some p)
      → Stands age (invalidate_sequence key n s) (kept key n (some p))
  unfolding invalidate_sequence drop
  advance-Stands age key n s p (r, v, k, q, at, a, c) =
      let P : PreparedSlot T → Type 0 = λ s'. Stands age s' (kept key n (some p)) in
      let k' : is_key s.route_key key ≡ text_beq p.key key = ap (λ o. is_key o key) k in
      let q' : is_sequence s.sequence n ≡ (p.sequence == n) = ap (λ o. is_sequence o n) q in
      if-cases P (not (is_ready s.state)) s _ (λ e. absurd (ground (arith, r, e)))
        (λ e.
          if-cases P (is_key s.route_key key && is_sequence s.sequence n) s _
            (λ e1.
              let same : some p ≡ kept key n (some p) = ground (arith, e1, k', q') in
              subst (Stands age s) same (r, v, k, q, at, a, c))
            (λ e1.
              let gone : none ≡ kept key n (some p) = ground (arith, e1, k', q') in
              let bound : s.hits ≤ s.prepared = omega (arith, c) in
              subst (Stands age (drop invalidated (some (text "sequence advanced")) s)) gone
                (refl, a, bound)))

  step-Stands :
      (age : ℕ) (c : Call T) (calls : List (Call T)) (s : PreparedSlot T) (o : Option (Payload T))
      → Stands age s o
      → (o' : Option (Payload T)) × Stands age (step c s) o'
        × (payload (c ∷ calls) o ≡ payload calls o')
  unfolding step payload prepare drop invalidate invalidate_sequence
  step-Stands age (prepares now key n built) calls s none (off, a, c) = (
    some (record { at = now; key = key; sequence = n; built = built }),
    (refl, refl, refl, refl, refl, a, omega (arith, c)),
    refl,
  )
  step-Stands age (prepares now key n built) calls s (some p) (r, v, k, q, at, a, c) = (
    some (record { at = now; key = key; sequence = n; built = built }),
    (refl, refl, refl, refl, refl, a, omega (arith, c)),
    refl,
  )
  step-Stands age (takes now key n) calls s o h = (none, (take-Stands age now key n s o h).0, refl)
  step-Stands age (invalidates reason) calls s none (off, a, c) = (none, rw off (off, a, c), refl)
  step-Stands age (invalidates reason) calls s (some p) (r, v, k, q, at, a, c) =
      (none, rw r (refl, a, omega (arith, c)), refl)
  step-Stands age (advances key n) calls s none (off, a, c) = (none, rw off (off, a, c), refl)
  step-Stands age (advances key n) calls s (some p) (r, v, k, q, at, a, c) =
      (kept key n (some p), advance-Stands age key n s p (r, v, k, q, at, a, c), refl)

  run-Stands :
      (age : ℕ) (calls : List (Call T)) (s : PreparedSlot T) (o : Option (Payload T))
      → Stands age s o
      → Stands age (run calls s) (payload calls o)
  unfolding run payload
  run-Stands age [] s o h = h
  run-Stands age (c ∷ calls) s o h =
      let (o', h', same) = step-Stands age c calls s o h in
      subst (Stands age (run calls (step c s))) (sym same) (run-Stands age calls (step c s) o' h')

  Stands-hits :
      (age : ℕ) (s : PreparedSlot T) (o : Option (Payload T)) → Stands age s o → s.hits ≤ s.prepared
  Stands-hits age s none (off, a, c) = c
  Stands-hits age s (some p) (r, v, k, q, at, a, c) = omega (arith, c)

  -- After any run of calls, `take` gives the payload of the last preparation, and only when no take and no
  -- invalidation has come since, no advance to another key or sequence has, the key and the sequence
  -- are the ones asked for, and the payload is no older than the slot allows. No payload is given twice: there are never
  -- more hits than preparations.
  pub run-take :
      (age : Option ℕ) (calls : List (Call T)) (now n : ℕ) (key : Text)
      → let s = run calls (new_slot age) in
        ((take now key n s).1 ≡ given (get_or age 60000) now key n (payload calls none))
        × (s.hits ≤ s.prepared)
  unfolding new_slot
  run-take age calls now n key =
      let h = run-Stands (get_or age 60000) calls (new_slot age) none (refl, refl, omega arith) in
      (
        (take-Stands (get_or age 60000) now key n (run calls (new_slot age)) (payload calls none)
            h).1,
        Stands-hits (get_or age 60000) (run calls (new_slot age)) (payload calls none) h,
      )
