-- ===== src/Metrics/Recorder.antt =====
-- recorder.ts over a run of calls: which samples the ring of a span holds.
use line_deno_bot.Prelude.{
  ℕ, ◌<◌, ◌≡◌, refl, sym, ap, subst, ◌∙◌, Bool, true, false, not, Option, none, some, inl, inr,
  List, [], ◌∷◌, ◌++◌, arith, if◌then◌else◌, if-cases, Option-cases,
}
use line_deno_bot.Prelude.Int.{ℤ}
use mathlib.Core.List.{append-nil, append_assoc}
use line_deno_bot.Prelude.Text.{Text, text_beq, text_beq_iff, text_eq}
use line_deno_bot.Prelude.Dict.{lookup, insert, IsDict, lookup-insert, insert-IsDict}
use line_deno_bot.Metrics.{
  LatencyRing, fresh_ring, new_ring, add, MetricsRecorder, ring_or_new, filed, file, with_rings,
  with_cross_host, record_span, record_cross_host, record_spans, record_trace, and_then, count_by,
  reset,
}
use line_deno_bot.Metrics.Latest.{IsRing, finite, add_all, add_all-IsRing, fresh_ring-IsRing}

pub data Call : Type 0 where
  records crosses : Text → Option (Option ℤ) → Call
  traces : List (Text × Option ℤ) → Call
  counts : Text → ℕ → Call
  resets : Call

unfoldable pub step : Call → MetricsRecorder → Option MetricsRecorder
unfolding record_span record_cross_host record_trace count_by reset
step (records name ms) m = record_span name ms m
step (crosses name ms) m = record_cross_host name ms m
step (traces spans) m = record_trace spans m
step (counts name by) m = some (count_by name by m)
step resets m = some (reset m)

unfoldable pub run : List Call → MetricsRecorder → Option MetricsRecorder
unfolding step
run [] m = some m
run (c ∷ calls) m = and_then (step c m) (run calls)

-- The finite samples of a name: of one record, of a trace, and of the calls since the last reset.
abbrev pub sample : Text → Text → Option ℤ → List ℤ
sample name n none = []
sample name n (some x) = if text_beq n name then x ∷ [] else []

abbrev pub recorded : Text → Text → Option (Option ℤ) → List ℤ
recorded name n none = []
recorded name n (some ms) = sample name n ms

unfoldable pub traced : Text → List (Text × Option ℤ) → List ℤ
traced name [] = []
traced name ((n, ms) ∷ spans) = sample name n ms ++ traced name spans

unfoldable pub history : Text → List Call → List ℤ → List ℤ
unfolding traced
history name [] xs = xs
history name (records n ms ∷ calls) xs = history name calls (xs ++ recorded name n ms)
history name (crosses n ms ∷ calls) xs = history name calls xs
history name (traces spans ∷ calls) xs = history name calls (xs ++ traced name spans)
history name (counts n by ∷ calls) xs = history name calls xs
history name (resets ∷ calls) xs = history name calls []

-- The ring of a name holds the samples of the name.
abbrev pub IsFiled : ℕ → List ℤ → Option LatencyRing → Type 0
IsFiled window xs none = xs ≡ []
IsFiled window xs (some r) = IsRing window xs r

pub record IsKept (window : ℕ) (xs : Text → List ℤ) (rings : List (Text × LatencyRing))
    : Type 0 where
  pub unique : IsDict rings
  pub filed_all : (name : Text) → IsFiled window (xs name) (lookup name rings)

abbrev pub IsSome : (MetricsRecorder → Type 0) → Option MetricsRecorder → Type 0
IsSome P none = ⊥
IsSome P (some m) = P m

when_enabled : (b : Bool) (x y : Option MetricsRecorder) → b ≡ true → (if not b then x else y) ≡ y
when_enabled true x y e = refl
when_enabled false x y e = absurd (ground (arith, e))

module _ (window : ℕ) (pos : 0 < window) where
  ring_or_new-IsRing :
      (xs : List ℤ) (o : Option LatencyRing)
      → IsFiled window xs o
      → (r : LatencyRing) × (ring_or_new window o ≡ some r) × IsRing window xs r
  unfolding new_ring
  ring_or_new-IsRing xs none e =
      (fresh_ring window, (ground (arith, pos)), rw e (fresh_ring-IsRing window pos))
  ring_or_new-IsRing xs (some r) h = (r, refl, h)

  file-IsKept :
      (xs : Text → List ℤ) (name : Text) (ms : Option ℤ) (rings : List (Text × LatencyRing))
      → IsKept window xs rings
      → (rings' : List (Text × LatencyRing)) × (file window name ms rings ≡ some rings')
        × IsKept window (λ n. xs n ++ sample n name ms) rings'
  unfolding file add_all
  file-IsKept xs name ms rings h =
      let (r, e, held) = ring_or_new-IsRing (xs name) (lookup name rings) (h.filed_all name) in
      (
        insert name (add ms r) rings,
        ap (filed name ms rings) e,
        record {
          unique = insert-IsDict name (add ms r) rings h.unique;
          filed_all = λ n.
              subst (IsFiled window (xs n ++ sample n name ms))
                (sym (lookup-insert name n (add ms r) rings)) (one n r held);
        },
      )
    where
      sample_other : (n : Text) (ms : Option ℤ) → text_beq name n ≡ false → sample n name ms ≡ []
      sample_other n none e = refl
      sample_other n (some x) e = rw e refl

      sample_own :
          (n : Text) (ms : Option ℤ) → text_beq name n ≡ true → finite (ms ∷ []) ≡ sample n name ms
      sample_own n none e = refl
      sample_own n (some x) e = rw e refl

      one :
          (n : Text) (r : LatencyRing)
          → IsRing window (xs name) r
          → IsFiled window
              (xs n ++ sample n name ms)
              (if text_beq name n then some (add ms r) else lookup n rings)
      one n r held =
          if-cases (IsFiled window (xs n ++ sample n name ms)) (text_beq name n) (some (add ms r))
            (lookup n rings)
            (λ e.
              let same : name ≡ n = ground (arith, text_beq_iff name n, e) in
              subst (λ l. IsRing window (xs n ++ l) (add ms r)) (sample_own n ms e)
                (add_all-IsRing window (xs n) (ms ∷ []) r pos
                  (subst (λ k. IsRing window (xs k) r) same held)))
            (λ e. rw (sample_other n ms e, append-nil (xs n)) (h.filed_all n))

  -- A ring can always be made.
  file-some :
      (name : Text) (ms : Option ℤ) (rings : List (Text × LatencyRing))
      → (rings' : List (Text × LatencyRing)) × (file window name ms rings ≡ some rings')
  unfolding file new_ring
  file-some name ms rings = elim (Option-cases (lookup name rings)) [
    | inl e ↦
        (let (r, made, held) = ring_or_new-IsRing [] none refl in
          (insert name (add ms r) rings, rw e (ap (filed name ms rings) made)))
    | inr (r, e) ↦ (insert name (add ms r) rings, rw e refl)
  ]

  abbrev pub Kept : (Text → List ℤ) → MetricsRecorder → Type 0
  Kept xs m = IsKept window xs m.rings × (m.window ≡ window) × (m.enabled ≡ true)

  Kept-cong :
      (xs ys : Text → List ℤ) (m : MetricsRecorder)
      → ((n : Text) → xs n ≡ ys n)
      → Kept xs m
      → Kept ys m
  Kept-cong xs ys m e (k, w, on) = (
    record {
      unique = k.unique;
      filed_all = λ n. subst (λ l. IsFiled window l (lookup n m.rings)) (e n) (k.filed_all n);
    },
    w,
    on,
  )

  abbrev pub Becomes : (Text → List ℤ) → Option MetricsRecorder → Type 0
  Becomes xs o = (m : MetricsRecorder) × (o ≡ some m) × Kept xs m

  record_span-Kept :
      (xs : Text → List ℤ) (name : Text) (ms : Option (Option ℤ)) (m : MetricsRecorder)
      → Kept xs m
      → Becomes (λ n. xs n ++ recorded n name ms) (record_span name ms m)
  unfolding record_span
  record_span-Kept xs name none m h = (m, refl, Kept-cong xs _ m (λ n. sym (append-nil (xs n))) h)
  record_span-Kept xs name (some ms) m (k, w, on) =
      let (rings, e, k') = file-IsKept xs name ms m.rings k in
      (
        record m { rings = rings },
        when_enabled m.enabled (some m) _ on
            ∙ ap (with_rings m) (ap (λ v. file v name ms m.rings) w ∙ e),
        (k', w, on),
      )

  record_spans-Kept :
      (xs : Text → List ℤ) (spans : List (Text × Option ℤ)) (m : MetricsRecorder)
      → Kept xs m
      → Becomes (λ n. xs n ++ traced n spans) (record_spans spans m)
  unfolding record_spans traced
  record_spans-Kept xs [] m h = (m, refl, Kept-cong xs _ m (λ n. sym (append-nil (xs n))) h)
  record_spans-Kept xs ((name, ms) ∷ spans) m h =
      let (m1, e1, h1) = record_span-Kept xs name (some ms) m h in
      let (m2, e2, h2) = record_spans-Kept (λ n. xs n ++ sample n name ms) spans m1 h1 in
      (
        m2,
        ap (λ o. and_then o (record_spans spans)) e1 ∙ e2,
        Kept-cong (λ n. (xs n ++ sample n name ms) ++ traced n spans) _ m2
            (λ n. append_assoc (xs n) (sample n name ms) (traced n spans)) h2,
      )

  step-Kept :
      (c : Call) (calls : List Call) (xs : Text → List ℤ) (m : MetricsRecorder)
      → Kept xs m
      → (ys : Text → List ℤ) × Becomes ys (step c m)
        × ((n : Text) → history n (c ∷ calls) (xs n) ≡ history n calls (ys n))
  unfolding step history record_cross_host record_trace count_by reset lookup
  step-Kept (records name ms) calls xs m h =
      ((λ n. xs n ++ recorded n name ms), record_span-Kept xs name ms m h, λ n. refl)
  step-Kept (crosses name none) calls xs m h = (xs, (m, refl, h), λ n. refl)
  step-Kept (crosses name (some ms)) calls xs m (k, w, on) =
      let (rings, e) = file-some name ms m.cross_host_rings in
      (
        xs,
        (
          record m { cross_host_rings = rings },
          when_enabled m.enabled (some m) _ on
              ∙ ap (with_cross_host m) (ap (λ v. file v name ms m.cross_host_rings) w ∙ e),
          (k, w, on),
        ),
        λ n. refl,
      )
  step-Kept (traces spans) calls xs m h =
      ((λ n. xs n ++ traced n spans), if_enabled (record_spans-Kept xs spans m h), λ n. refl)
    where
      if_enabled :
          Becomes (λ n. xs n ++ traced n spans) (record_spans spans m)
          → Becomes
              (λ n. xs n ++ traced n spans)
              (if not m.enabled then some m else record_spans spans m)
      if_enabled (m', e, h') =
          (m', when_enabled m.enabled (some m) (record_spans spans m) h.2 ∙ e, h')
  step-Kept (counts name by) calls xs m h = (xs, (count_by name by m, refl, counted h), λ n. refl)
    where
      counted : Kept xs m → Kept xs (count_by name by m)
      counted h' = if-cases (Kept xs) (not m.enabled) m _ (λ e. h') (λ e. h')
  step-Kept resets calls xs m (k, w, on) = (
    (λ n. []),
    (reset m, refl, (record { unique = tt; filed_all = λ n. refl }, w, on)),
    λ n. refl,
  )

  pub run-Kept :
      (calls : List Call) (xs : Text → List ℤ) (m : MetricsRecorder)
      → Kept xs m
      → Becomes (λ n. history n calls (xs n)) (run calls m)
  unfolding run history
  run-Kept [] xs m h = (m, refl, h)
  run-Kept (c ∷ calls) xs m h =
      let (ys, (m1, e1, h1), same) = step-Kept c calls xs m h in
      let (m2, e2, h2) = run-Kept calls ys m1 h1 in
      (
        m2,
        ap (λ o. and_then o (run calls)) e1 ∙ e2,
        Kept-cong (λ n. history n calls (ys n)) (λ n. history n (c ∷ calls) (xs n)) m2
            (λ n. sym (same n)) h2,
      )
