-- ===== src/Metrics/Latest.antt =====
-- ring.ts over a run of samples: a snapshot is that of the latest samples.
use line_deno_bot.Prelude.{
  ℕ, zero, suc, ◌+◌, ◌-◌, ◌%◌, ◌≤◌, ◌<◌, ◌≡◌, refl, sym, ap, subst, ◌∙◌, Option, none, some, List,
  [], ◌∷◌, ◌++◌, arith, if-cases, length, length-append, take, drop, length-drop, get_or, tail, ltb,
  ◌==◌,
}
use mathlib.Core.List.{append-nil, append_assoc}
use native.Mathlib.Nat.{mod-eq_of_lt, add-mod_right}
use line_deno_bot.Prelude.Int.{ℤ, pos, ◌+ℤ◌, ltb_ℤ_antisymm}
use line_deno_bot.Metrics.{
  LatencySnapshot, LatencyRing, zeros, fresh_ring, new_ring, add, element, snapshot_of,
  ring_snapshot, sorted, insert_sorted,
}
use line_deno_bot.Metrics.Ring.{keep, IsHeld, growing, full, write-IsHeld}

length-insert_sorted : (x : ℤ) (ys : List ℤ) → length (insert_sorted x ys) ≡ suc (length ys)
unfolding insert_sorted
length-insert_sorted x [] = refl
length-insert_sorted x (y ∷ ys) = ground (arith, length-insert_sorted x ys)

length-sorted : (xs : List ℤ) → length (sorted xs) ≡ length xs
unfolding sorted
length-sorted [] = refl
length-sorted (x ∷ xs) = length-insert_sorted x (sorted xs) ∙ ap suc (length-sorted xs)

-- Two samples that neither precedes the other are equal.
insert_sorted_comm :
    (x y : ℤ) (xs : List ℤ)
    → insert_sorted x (insert_sorted y xs) ≡ insert_sorted y (insert_sorted x xs)
unfolding insert_sorted
insert_sorted_comm x y [] = ground (arith, ltb_ℤ_antisymm x y)
insert_sorted_comm x y (z ∷ xs) = ground (arith, insert_sorted_comm x y xs, ltb_ℤ_antisymm x y)

sorted-middle :
    (xs ys : List ℤ) (y : ℤ) → sorted (xs ++ y ∷ ys) ≡ insert_sorted y (sorted (xs ++ ys))
unfolding sorted
sorted-middle [] ys y = refl
sorted-middle (x ∷ xs) ys y =
    ap (insert_sorted x) (sorted-middle xs ys y) ∙ insert_sorted_comm x y (sorted (xs ++ ys))

-- The order in which the samples stand does not matter.
sorted_comm : (xs ys : List ℤ) → sorted (xs ++ ys) ≡ sorted (ys ++ xs)
unfolding sorted
sorted_comm xs [] = ap sorted (append-nil xs)
sorted_comm xs (y ∷ ys) = sorted-middle xs ys y ∙ ap (insert_sorted y) (sorted_comm xs ys)

take-append : (xs ys : List ℤ) → take (length xs) (xs ++ ys) ≡ xs
take-append [] ys = refl
take-append (x ∷ xs) ys = ap (λ l. x ∷ l) (take-append xs ys)

take-all : (n : ℕ) (xs : List ℤ) → n ≡ length xs → take n xs ≡ xs
take-all zero [] e = refl
take-all zero (x ∷ xs) e = absurd (omega (arith, e))
take-all (suc n) [] e = refl
take-all (suc n) (x ∷ xs) e = ap (λ l. x ∷ l) (take-all n xs (omega (arith, e)))

element-append_left : (xs ys : List ℤ) (i : ℕ) → i < length xs → element (xs ++ ys) i ≡ element xs i
element-append_left [] ys i h = absurd (omega (arith, h))
element-append_left (x ∷ xs) ys zero h = refl
element-append_left (x ∷ xs) ys (suc i) h = element-append_left xs ys i (omega (arith, h))

element-append_right : (xs ys : List ℤ) (i : ℕ) → element (xs ++ ys) (length xs + i) ≡ element ys i
element-append_right [] ys i = ap (element ys) (omega arith)
element-append_right (x ∷ xs) ys i = rw (suc_lem (length xs) i) (element-append_right xs ys i)
  where
    suc_lem : (a b : ℕ) → suc a + b ≡ suc (a + b)
    suc_lem a b = omega arith

last_of : List ℤ → ℤ
last_of xs = element xs (length xs - 1)

module _ (capacity : ℕ) (held samples : List ℤ) (next filled : ℕ) where
  IsHeld-sorted :
      IsHeld capacity held samples next filled → sorted (take filled samples) ≡ sorted held
  IsHeld-sorted (growing rest s n f e some_left) = rw (s, f) (ap sorted (take-append held rest))
  IsHeld-sorted (full new old s h n f e some_left) =
      rw (s, h, f)
        (ap sorted (take-all capacity (new ++ old) (omega (arith, e, length-append new old)))
          ∙ sorted_comm new old)

  IsHeld-filled : IsHeld capacity held samples next filled → filled ≡ length held
  IsHeld-filled (growing rest s n f e some_left) = f
  IsHeld-filled (full new old s h n f e some_left) =
      f ∙ rw h (omega (arith, e, length-append old new))

  IsHeld-last :
      IsHeld capacity held samples next filled
      → 0 < length held
      → element samples ((next + capacity - 1) % capacity) ≡ last_of held
  unfolding last_of
  IsHeld-last (growing rest s n f e some_left) some_held =
      let i : (next + capacity - 1) % capacity ≡ length held - 1 =
        ap (λ k. k % capacity) (omega (arith, n, some_held))
        ∙ add-mod_right (length held - 1) capacity
        ∙ mod-eq_of_lt (omega (arith, e, some_held, some_left)) in
      rw (i, s) (element-append_left held rest (length held - 1) (omega (arith, some_held)))
  IsHeld-last (full [] old s h n f e some_left) some_held =
      let i : (next + capacity - 1) % capacity ≡ length old - 1 =
        ap (λ k. k % capacity) (omega (arith, n, e)) ∙ mod-eq_of_lt (omega (arith, e, some_left)) in
      rw (i, s, h, append-nil old) refl
  IsHeld-last (full (x ∷ new) old s h n f e some_left) some_held =
      let i : (next + capacity - 1) % capacity ≡ length new =
        ap (λ k. k % capacity) (omega (arith, n))
        ∙ add-mod_right (length new) capacity
        ∙ mod-eq_of_lt (omega (arith, e)) in
      let j : length (old ++ x ∷ new) - 1 ≡ length old + length new =
        omega (arith, length-append old (x ∷ new)) in
      rw (i, s, h, j)
        (element-append_left (x ∷ new) old (length new) (omega arith)
          ∙ sym (element-append_right old (x ∷ new) (length new)))

-- The latest samples of a history, the oldest first.
abbrev pub latest : ℕ → List ℤ → List ℤ
latest capacity xs = drop (length xs - capacity) xs

drop-snoc :
    (n : ℕ) (x : ℤ) (xs : List ℤ) → n ≤ length xs → drop n (xs ++ x ∷ []) ≡ drop n xs ++ x ∷ []
drop-snoc zero x xs h = refl
drop-snoc (suc n) x [] h = absurd (omega (arith, h))
drop-snoc (suc n) x (y ∷ xs) h = drop-snoc n x xs (omega (arith, h))

tail-drop : (n : ℕ) (xs : List ℤ) → tail (drop n xs) ≡ drop (suc n) xs
tail-drop zero [] = refl
tail-drop zero (x ∷ xs) = refl
tail-drop (suc n) [] = refl
tail-drop (suc n) (x ∷ xs) = tail-drop n xs

keep-latest :
    (capacity : ℕ) (x : ℤ) (xs : List ℤ)
    → 0 < capacity
    → keep capacity (latest capacity xs) x ≡ latest capacity (xs ++ x ∷ [])
keep-latest capacity x xs some_room =
    let n = length-append xs (x ∷ []) in
    let l = length-drop (length xs - capacity) xs in
    if-cases (λ ys. ys ≡ latest capacity (xs ++ x ∷ []))
      (ltb (length (latest capacity xs)) capacity) _ _
      (λ e.
        let room : length xs < capacity = ground (arith, e, l) in
        let a : length xs - capacity ≡ 0 = omega (arith, room) in
        let b : length (xs ++ x ∷ []) - capacity ≡ 0 = omega (arith, room, n) in rw (a, b) refl)
      (λ e.
        let long : capacity ≤ length xs = ground (arith, e, l) in
        let b : length (xs ++ x ∷ []) - capacity ≡ suc (length xs - capacity) =
          omega (arith, long, n) in
        rw (b, tail-drop (length xs - capacity) xs)
          (sym (drop-snoc (suc (length xs - capacity)) x xs (omega (arith, long, some_room)))))

-- The finite samples of a run, and their sum.
abbrev pub finite : List (Option ℤ) → List ℤ
finite [] = []
finite (none ∷ xs) = finite xs
finite (some x ∷ xs) = x ∷ finite xs

-- The sum in the order of the samples.
abbrev pub sum_from : ℤ → List ℤ → ℤ
sum_from total [] = total
sum_from total (x ∷ xs) = sum_from (total +ℤ x) xs

abbrev pub sum : List ℤ → ℤ
sum xs = sum_from (pos 0) xs

unfoldable pub add_all : List (Option ℤ) → LatencyRing → LatencyRing
unfolding add
add_all [] r = r
add_all (x ∷ xs) r = add_all xs (add x r)

pub record IsRing (capacity : ℕ) (history : List ℤ) (r : LatencyRing) : Type 0 where
  pub sized : r.capacity ≡ capacity
  pub held : IsHeld capacity (latest capacity history) r.samples r.next r.filled
  pub counted : r.count ≡ length history
  pub summed : r.total ≡ sum history

sum_from-snoc :
    (total : ℤ) (xs : List ℤ) (x : ℤ) → sum_from total (xs ++ x ∷ []) ≡ sum_from total xs +ℤ x
sum_from-snoc total [] x = refl
sum_from-snoc total (y ∷ xs) x = sum_from-snoc (total +ℤ y) xs x

add-IsRing :
    (capacity : ℕ) (x : ℤ) (history : List ℤ) (r : LatencyRing)
    → 0 < capacity
    → IsRing capacity history r
    → IsRing capacity (history ++ x ∷ []) (add (some x) r)
unfolding add
add-IsRing capacity x history r some_room h = record {
  sized = h.sized;
  held =
      rw (h.sized, sym (keep-latest capacity x history some_room))
        (write-IsHeld capacity x (latest capacity history) r.samples r.next r.filled h.held);
  counted = omega (arith, h.counted, length-append history (x ∷ []));
  summed = ap (λ t. t +ℤ x) h.summed ∙ sym (sum_from-snoc (pos 0) history x);
}

pub add_all-IsRing :
    (capacity : ℕ) (history : List ℤ) (xs : List (Option ℤ)) (r : LatencyRing)
    → 0 < capacity
    → IsRing capacity history r
    → IsRing capacity (history ++ finite xs) (add_all xs r)
unfolding add_all add
add_all-IsRing capacity history [] r some_room h = rw (append-nil history) h
add_all-IsRing capacity history (none ∷ xs) r some_room h =
    add_all-IsRing capacity history xs r some_room h
add_all-IsRing capacity history (some x ∷ xs) r some_room h =
    subst (λ l. IsRing capacity l (add_all xs (add (some x) r)))
      (append_assoc history (x ∷ []) (finite xs))
      (add_all-IsRing capacity (history ++ x ∷ []) xs (add (some x) r) some_room
        (add-IsRing capacity x history r some_room h))

length-zeros : (n : ℕ) → length (zeros n) ≡ n
length-zeros zero = refl
length-zeros (suc n) = ap suc (length-zeros n)

pub fresh_ring-IsRing : (capacity : ℕ) → 0 < capacity → IsRing capacity [] (fresh_ring capacity)
fresh_ring-IsRing capacity some_room = record {
  sized = refl;
  held =
      growing (zeros capacity) (rw (nothing capacity) refl) (rw (nothing capacity) refl)
        (rw (nothing capacity) refl) (rw (nothing capacity) (omega (arith, length-zeros capacity)))
        (omega (arith, length-zeros capacity, some_room));
  counted = refl;
  summed = refl;
}
  where
    nothing : (n : ℕ) → latest n [] ≡ []
    nothing n = let z : 0 - n ≡ 0 = omega arith in ap (λ k. drop k []) z

-- The specification of a snapshot, from the whole history.
abbrev pub reference : ℕ → List ℤ → Option LatencySnapshot
reference capacity [] = none
reference capacity (x ∷ xs) =
    let history = x ∷ xs in
    some (
      snapshot_of (length history) (sum history) (element history (length history - 1))
        (sorted (latest capacity history)))

element-drop : (n : ℕ) (xs : List ℤ) (i : ℕ) → element (drop n xs) i ≡ element xs (n + i)
element-drop zero xs i = ap (element xs) (omega arith)
element-drop (suc n) [] i = refl
element-drop (suc n) (x ∷ xs) i = element-drop n xs i ∙ ap (element (x ∷ xs)) (suc_lem n i)
  where
    suc_lem : (a b : ℕ) → suc (a + b) ≡ suc a + b
    suc_lem a b = omega arith

last_of-latest :
    (capacity : ℕ) (xs : List ℤ)
    → 0 < capacity
    → 0 < length xs
    → last_of (latest capacity xs) ≡ last_of xs
unfolding last_of
last_of-latest capacity xs some_room some_sample =
    let n = length xs - capacity in
    element-drop n xs (length (latest capacity xs) - 1)
    ∙ ap (element xs) (omega (arith, length-drop n xs, some_room, some_sample))

pub IsRing-snapshot :
    (capacity : ℕ) (history : List ℤ) (r : LatencyRing)
    → 0 < capacity
    → IsRing capacity history r
    → ring_snapshot r ≡ reference capacity history
unfolding ring_snapshot last_of
IsRing-snapshot capacity [] r some_room h =
    let f = IsHeld-filled capacity (latest capacity []) r.samples r.next r.filled h.held in
    let l = length-drop {A = ℤ} (0 - capacity) [] in
    let zero_filled : r.filled ≡ 0 = omega (arith, f, l) in rw zero_filled refl
IsRing-snapshot capacity (x ∷ xs) r some_room h =
    let history = x ∷ xs in
    let held = latest capacity history in
    let f = IsHeld-filled capacity held r.samples r.next r.filled h.held in
    let l = length-drop (length history - capacity) history in
    let some_filled : 0 < r.filled = omega (arith, f, l, some_room) in
    let last =
      IsHeld-last capacity held r.samples r.next r.filled h.held (omega (arith, f, some_filled)) in
    let order = IsHeld-sorted capacity held r.samples r.next r.filled h.held in
    let newest = last_of-latest capacity history some_room (omega arith) in
    if-cases (λ o. o ≡ reference capacity history) (r.filled == 0) none _
      (λ e. absurd (ground (arith, e, some_filled)))
      (λ e.
        rw (h.sized, last, order, h.counted, h.summed, newest, f, sym (length-sorted held)) refl)

-- Of any finite number of samples, added in any number, a snapshot shows what is computed from the
-- whole list of them: how many there were, their sum, the latest one, and the least, the greatest and
-- the percentiles of the latest `capacity`. Samples that are not finite leave no trace.
pub add_all-snapshot :
    (capacity : ℕ) (xs : List (Option ℤ)) (r : LatencyRing)
    → new_ring capacity ≡ some r
    → ring_snapshot (add_all xs r) ≡ reference capacity (finite xs)
unfolding new_ring
add_all-snapshot capacity xs r e =
    if-cases (λ o. o ≡ some r → ring_snapshot (add_all xs r) ≡ reference capacity (finite xs))
      (capacity == 0) none (some (fresh_ring capacity)) (λ h k. absurd (ground (arith, k)))
      (λ h k.
        let some_room : 0 < capacity = ground (arith, h) in
        let same : fresh_ring capacity ≡ r = ap (λ o. get_or o r) k in
        rw (sym same) (
          IsRing-snapshot capacity (finite xs) (add_all xs (fresh_ring capacity)) some_room (
            add_all-IsRing capacity [] xs (fresh_ring capacity) some_room
              (fresh_ring-IsRing capacity some_room))))
      e
