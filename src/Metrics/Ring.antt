-- ===== src/Metrics/Ring.antt =====
-- ring.ts: the ring holds the latest samples, and a snapshot is computed from these.
use line_deno_bot.Prelude.{
  ℕ, suc, ◌+◌, ◌%◌, ◌≤◌, ◌<◌, ◌≡◌, refl, sym, ap, ◌∙◌, List, [], ◌∷◌, ◌++◌, arith, if◌then◌else◌,
  length, length-append, set_at, tail, ltb,
}
use line_deno_bot.Prelude.Int.{ℤ}
use mathlib.Core.List.{append-nil, append_assoc}
use native.Mathlib.Nat.{mod-eq_of_lt, mod_self}

-- The specification: a list of at most `capacity` samples, the oldest first.
abbrev pub keep : ℕ → List ℤ → ℤ → List ℤ
keep capacity held x = if ltb (length held) capacity then held ++ x ∷ [] else tail held ++ x ∷ []

-- How the array represents the list: in place until it is full, and then turned by `next`.
pub data IsHeld (capacity : ℕ) (held : List ℤ) (samples : List ℤ) (next filled : ℕ) : Type 0 where
  growing :
      (rest : List ℤ)
      → samples ≡ held ++ rest
      → next ≡ length held
      → filled ≡ length held
      → length held + length rest ≡ capacity
      → 0 < length rest
      → IsHeld capacity held samples next filled
  full :
      (new old : List ℤ)
      → samples ≡ new ++ old
      → held ≡ old ++ new
      → next ≡ length new
      → filled ≡ capacity
      → length new + length old ≡ capacity
      → 0 < length old
      → IsHeld capacity held samples next filled

set_at-append : (xs ys : List ℤ) (y v : ℤ) → set_at (xs ++ y ∷ ys) (length xs) v ≡ xs ++ v ∷ ys
set_at-append [] ys y v = refl
set_at-append (x ∷ xs) ys y v = ap (λ l. x ∷ l) (set_at-append xs ys y v)

snoc_append : (xs ys : List ℤ) (x : ℤ) → xs ++ x ∷ ys ≡ (xs ++ x ∷ []) ++ ys
snoc_append xs ys x = sym (append_assoc xs (x ∷ []) ys)

length-snoc : (xs : List ℤ) (x : ℤ) → length (xs ++ x ∷ []) ≡ suc (length xs)
length-snoc xs x = omega (arith, length-append xs (x ∷ []))

keep_room :
    (capacity : ℕ) (held : List ℤ) (x : ℤ)
    → length held < capacity
    → keep capacity held x ≡ held ++ x ∷ []
keep_room capacity held x h = ground (arith, h)

keep_full :
    (capacity : ℕ) (held : List ℤ) (x : ℤ)
    → capacity ≤ length held
    → keep capacity held x ≡ tail held ++ x ∷ []
keep_full capacity held x h = ground (arith, h)

module _ (capacity : ℕ) (x : ℤ) where
  abbrev pub more : ℕ → ℕ
  more filled = if ltb filled capacity then filled + 1 else filled

  -- A write, by the two shapes of the array.
  write-growing :
      (held rest : List ℤ) (y : ℤ)
      → length held + suc (length rest) ≡ capacity
      → IsHeld capacity
          (held ++ x ∷ [])
          ((held ++ x ∷ []) ++ rest)
          ((length held + 1) % capacity)
          (more (length held))
  write-growing held [] y e =
      let n = length-snoc held x in
      let wrap : (length held + 1) % capacity ≡ 0 =
        ap (λ n. n % capacity) (omega (arith, e)) ∙ mod_self capacity in
      full [] (held ++ x ∷ []) (append-nil (held ++ x ∷ [])) (sym (append-nil (held ++ x ∷ [])))
        wrap (ground (arith, e)) (omega (arith, e, n)) (omega (arith, n))
  write-growing held (z ∷ rest) y e =
      let n = length-snoc held x in
      growing (z ∷ rest) refl (mod-eq_of_lt (omega (arith, e)) ∙ omega (arith, n))
        (ground (arith, e, n)) (omega (arith, e, n)) (omega arith)

  write-full :
      (new old : List ℤ)
      → length new + suc (length old) ≡ capacity
      → IsHeld capacity
          ((old ++ new) ++ x ∷ [])
          ((new ++ x ∷ []) ++ old)
          ((length new + 1) % capacity)
          (more capacity)
  write-full new [] e =
      let n = length-snoc new x in
      let wrap : (length new + 1) % capacity ≡ 0 =
        ap (λ n. n % capacity) (omega (arith, e)) ∙ mod_self capacity in
      full [] (new ++ x ∷ []) (append-nil (new ++ x ∷ [])) (sym (append-nil (new ++ x ∷ []))) wrap
        (ground arith) (omega (arith, e, n)) (omega (arith, n))
  write-full new (z ∷ old) e =
      let n = length-snoc new x in
      full (new ++ x ∷ []) (z ∷ old) refl (append_assoc (z ∷ old) new (x ∷ []))
        (mod-eq_of_lt (omega (arith, e)) ∙ omega (arith, n)) (ground arith) (omega (arith, e, n))
        (omega arith)

  pub write-IsHeld :
      (held samples : List ℤ) (next filled : ℕ)
      → IsHeld capacity held samples next filled
      → IsHeld capacity
          (keep capacity held x)
          (set_at samples next x)
          ((next + 1) % capacity)
          (more filled)
  write-IsHeld held samples next filled (growing [] s n f e some_left) =
      absurd (omega (arith, some_left))
  write-IsHeld held samples next filled (growing (y ∷ rest) s n f e some_left) =
      rw
        (
          s,
          n,
          f,
          set_at-append held rest y x,
          snoc_append held rest x,
          keep_room capacity held x (omega (arith, e)),
        )
        (write-growing held rest y e)
  write-IsHeld held samples next filled (full new [] s h n f e some_left) =
      absurd (omega (arith, some_left))
  write-IsHeld held samples next filled (full new (y ∷ old) s h n f e some_left) =
      let long : capacity ≤ length ((y ∷ old) ++ new) =
        omega (arith, e, length-append (y ∷ old) new) in
      rw
        (
          s,
          h,
          n,
          f,
          set_at-append new old y x,
          snoc_append new old x,
          keep_full capacity ((y ∷ old) ++ new) x long,
        )
        (write-full new old e)
