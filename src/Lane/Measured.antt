-- ===== src/Lane/Measured.antt =====
-- lane.ts: the median and the tail of the recent samples.
use line_deno_bot.Prelude.{
  ℕ, zero, suc, ◌+◌, ◌-◌, ◌*◌, ◌≤◌, ◌<◌, ◌≡◌, refl, ap, ◌∙◌, ◌⊎◌, inl, inr, none, some, List, [],
  ◌∷◌, ◌++◌, ltb, get_elem?, length, tail, In, All, arith, Bool-cases, length-append,
}
use line_deno_bot.Lane.{
  RttProfile, LaneSample, make_profile, insert_sorted, sorted, median_index, tail_index, pushed,
  measured, predicted,
}

-- Each element is at most those behind it.
abbrev pub IsSorted : List ℕ → Type 0
IsSorted [] = Unit
IsSorted (x ∷ xs) = All (λ y. x ≤ y) xs × IsSorted xs

insert_sorted-All :
    (b x : ℕ) (ys : List ℕ) → b ≤ x → All (λ y. b ≤ y) ys → All (λ y. b ≤ y) (insert_sorted x ys)
unfolding insert_sorted
insert_sorted-All b x [] le h = (le, tt)
insert_sorted-All b x (y ∷ ys) le h = ground (arith, le, h, insert_sorted-All b x ys le h.1)

All-le : (a b : ℕ) (ys : List ℕ) → a ≤ b → All (λ y. b ≤ y) ys → All (λ y. a ≤ y) ys
All-le a b [] le h = tt
All-le a b (y ∷ ys) le h = (omega (arith, h.0), All-le a b ys le h.1)

insert_sorted-IsSorted : (x : ℕ) (ys : List ℕ) → IsSorted ys → IsSorted (insert_sorted x ys)
unfolding insert_sorted
insert_sorted-IsSorted x [] h = (tt, tt)
insert_sorted-IsSorted x (y ∷ ys) h = elim (Bool-cases (ltb y x)) [
  | inl e ↦ rw e (insert_sorted-All y x ys (ground arith) h.0, insert_sorted-IsSorted x ys h.1)
  | inr e ↦ let le : x ≤ y = ground arith in rw e ((le, All-le x y ys le h.0), h)
]

sorted-IsSorted : (xs : List ℕ) → IsSorted (sorted xs)
unfolding sorted
sorted-IsSorted [] = tt
sorted-IsSorted (x ∷ xs) = insert_sorted-IsSorted x (sorted xs) (sorted-IsSorted xs)

length-insert_sorted : (x : ℕ) (ys : List ℕ) → length (insert_sorted x ys) ≡ suc (length ys)
unfolding insert_sorted
length-insert_sorted x [] = refl
length-insert_sorted x (y ∷ ys) = ground (arith, length-insert_sorted x ys)

pub length-sorted : (xs : List ℕ) → length (sorted xs) ≡ length xs
unfolding sorted
length-sorted [] = refl
length-sorted (x ∷ xs) = length-insert_sorted x (sorted xs) ∙ ap suc (length-sorted xs)

In-insert_sorted : (a x : ℕ) (ys : List ℕ) → In a (insert_sorted x ys) → (a ≡ x) ⊎ In a ys
unfolding insert_sorted
In-insert_sorted a x [] h = h
In-insert_sorted a x (y ∷ ys) h = elim (Bool-cases (ltb y x)) [
  | inl e ↦ ground (arith, h, e, In-insert_sorted a x ys)
  | inr e ↦ ground (arith, h, e)
]

In-sorted : (a : ℕ) (xs : List ℕ) → In a (sorted xs) → In a xs
unfolding sorted
In-sorted a [] h = h
In-sorted a (x ∷ xs) h = ground (arith, In-insert_sorted a x (sorted xs) h, In-sorted a xs)

get_elem?-In : (xs : List ℕ) (i a : ℕ) → get_elem? xs i ≡ some a → In a xs
get_elem?-In [] i a h = absurd (ground (arith, h))
get_elem?-In (x ∷ xs) zero a h = inl (ground (arith, h))
get_elem?-In (x ∷ xs) (suc i) a h = inr (get_elem?-In xs i a h)

All-get_elem? :
    (b : ℕ) (xs : List ℕ) (i a : ℕ) → All (λ y. b ≤ y) xs → get_elem? xs i ≡ some a → b ≤ a
All-get_elem? b [] i a h e = absurd (ground (arith, e))
All-get_elem? b (x ∷ xs) zero a h e = ground (arith, h.0, e)
All-get_elem? b (x ∷ xs) (suc i) a h e = All-get_elem? b xs i a h.1 e

get_elem?-le :
    (xs : List ℕ) (i j a b : ℕ)
    → IsSorted xs
    → i ≤ j
    → get_elem? xs i ≡ some a
    → get_elem? xs j ≡ some b
    → a ≤ b
get_elem?-le [] i j a b s le p q = absurd (ground (arith, p))
get_elem?-le (x ∷ xs) zero zero a b s le p q = ground (arith, p, q)
get_elem?-le (x ∷ xs) zero (suc j) a b s le p q = ground (arith, p, All-get_elem? x xs j b s.0 q)
get_elem?-le (x ∷ xs) (suc i) zero a b s le p q = absurd (omega (arith, le))
get_elem?-le (x ∷ xs) (suc i) (suc j) a b s le p q =
    get_elem?-le xs i j a b s.1 (omega (arith, le)) p q

get_elem?-lt : (xs : List ℕ) (i : ℕ) → i < length xs → (a : ℕ) × (get_elem? xs i ≡ some a)
get_elem?-lt [] i h = absurd (omega (arith, h))
get_elem?-lt (x ∷ xs) zero h = (x, refl)
get_elem?-lt (x ∷ xs) (suc i) h = get_elem?-lt xs i (omega (arith, h))

indices : (n : ℕ) → 0 < n → (median_index n ≤ tail_index n) × (tail_index n < n)
indices n h = (omega (arith, h), omega (arith, h))

-- The profile keeps at most `window` samples, and its median and tail are samples in their order.
pub record IsProfile (window : ℕ) (p : RttProfile) : Type 0 where
  pub few : length p.samples ≤ window
  pub statistics :
      ((p.median_rtt_ms ≡ none) × (p.tail_rtt_ms ≡ none))
      ⊎ ((p50 : ℕ) × (p95 : ℕ) × (p.median_rtt_ms ≡ some p50)
          × (p.tail_rtt_ms ≡ some p95)
          × In p50 p.samples
          × In p95 p.samples
          × (p50 ≤ p95))

pub make_profile-IsProfile : (window : ℕ) → IsProfile window make_profile
make_profile-IsProfile window = record { few = omega arith; statistics = inl (refl, refl) }

length-tail : (xs : List ℕ) → length (tail xs) ≡ length xs - 1
length-tail [] = refl
length-tail (x ∷ xs) = omega arith

pushed-bounds :
    (window : ℕ) (samples : List ℕ) (x : ℕ)
    → 0 < window
    → length samples ≤ window
    → (length (pushed window samples x) ≤ window) × (0 < length (pushed window samples x))
pushed-bounds window samples x some_room few =
    let longer = length-append samples (x ∷ []) in
    let shifted = length-tail (samples ++ x ∷ []) in ground (arith, longer, shifted, few, some_room)

pub measured-IsProfile :
    (now window : ℕ) (sample : LaneSample) (p : RttProfile)
    → 0 < window
    → IsProfile window p
    → IsProfile window (measured now window sample p)
unfolding measured
measured-IsProfile now window sample p some_room h =
    let samples = pushed window p.samples sample.rtt_ms in
    let (few, given) = pushed-bounds window p.samples sample.rtt_ms some_room h.few in
    let (order, inside) = indices (length samples) given in
    let n = length-sorted samples in
    let (p50, a) = get_elem?-lt (sorted samples) (median_index (length samples)) (omega arith) in
    let (p95, b) = get_elem?-lt (sorted samples) (tail_index (length samples)) (omega arith) in
    record {
      few = few;
      statistics = inr (
        p50,
        p95,
        a,
        b,
        In-sorted p50 samples (get_elem?-In (sorted samples) (median_index (length samples)) p50 a),
        In-sorted p95 samples (get_elem?-In (sorted samples) (tail_index (length samples)) p95 b),
        get_elem?-le (sorted samples) (median_index (length samples)) (tail_index (length samples))
            p50 p95 (sorted-IsSorted samples) order a b,
      );
    }

-- The prediction lies between the median and the tail.
pub predicted-between :
    (window : ℕ) (p : RttProfile) (r : ℕ)
    → IsProfile window p
    → predicted p.median_rtt_ms p.tail_rtt_ms ≡ some r
    → (p50 : ℕ) × (p95 : ℕ) × In p50 p.samples × In p95 p.samples × (20 * p50 ≤ r) × (r ≤ 20 * p95)
unfolding predicted
predicted-between window p r h e = elim h.statistics [
  | inl (a, b) ↦ absurd (ground (arith, a, b, e))
  | inr (p50, p95, a, b, i, j, le) ↦
      let same : some (20 * p50 + 7 * (p95 - p50)) ≡ some r = ground (arith, a, b, e) in
      (p50, p95, i, j, ground (arith, same), ground (arith, same, le))
]
