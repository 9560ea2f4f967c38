-- ===== src/Store/Bounds.antt =====
-- bounded-ttl-map.ts: the invariant of the map, and that every operation keeps it.
use line_deno_bot.Prelude.{
  ℕ, ◌+◌, ◌-◌, ◌≤◌, ◌<◌, ◌≡◌, refl, Bool, none, some, List, [], ◌∷◌, arith, length, tail, filter,
  length-filter-le, ltb,
}
use line_deno_bot.Prelude.Text.{Text, text_eq}
use line_deno_bot.Prelude.Dict.{
  lookup, insert, delete, IsDict, delete-IsDict, insert-IsDict, lookup-delete, length-delete-le,
  length-insert,
}
use line_deno_bot.Store.{Entry, BoundedTtlMap, create, live, has, get, set, remove, clear, prune}

-- Keys are distinct, the map is within its capacity, and the capacity is positive.
pub record IsValid {V : Type 0} (m : BoundedTtlMap V) : Type 0 where
  pub distinct : IsDict m.entries
  pub bounded : length m.entries ≤ m.max_entries
  pub positive : 0 < m.max_entries

-- The calls that a client can make, with the clock's reading at each.
pub data Call (V : Type 0) : Type 0 where
  reads : ℕ → Text → Call V
  gets : ℕ → Text → Call V
  sets : ℕ → Text → V → Call V
  removes : Text → Call V
  clears : Call V
  prunes : ℕ → Call V

module _ {V : Type 0} where
  unfoldable pub step : BoundedTtlMap V → Call V → BoundedTtlMap V
  step m (reads now key) = (has now key m).0
  step m (gets now key) = (get now key m).0
  step m (sets now key value) = set now key value m
  step m (removes key) = remove key m
  step m clears = clear m
  step m (prunes now) = (prune now m).0

  unfoldable pub run : BoundedTtlMap V → List (Call V) → BoundedTtlMap V
  unfolding step
  run m [] = m
  run m (c ∷ cs) = run (step m c) cs

  filter-lookup-none :
      (p : Text × Entry V → Bool) (k : Text) (m : List (Text × Entry V))
      → lookup k m ≡ none
      → lookup k (filter p m) ≡ none
  unfolding lookup
  filter-lookup-none p k [] h = refl
  filter-lookup-none p k ((i, w) ∷ m) h = ground (arith, filter-lookup-none p k m)

  filter-IsDict :
      (p : Text × Entry V → Bool) (m : List (Text × Entry V)) → IsDict m → IsDict (filter p m)
  filter-IsDict p [] d = tt
  filter-IsDict p ((i, w) ∷ m) d =
      ground (arith, filter-lookup-none p i m d.0, filter-IsDict p m d.1)

  tail-IsDict : (m : List (Text × Entry V)) → IsDict m → IsDict (tail m)
  tail-IsDict [] d = tt
  tail-IsDict ((i, w) ∷ m) d = d.1

  length-tail : (m : List (Text × Entry V)) → length (tail m) ≡ length m - 1
  length-tail [] = omega arith
  length-tail (e ∷ m) = omega arith

  pub live-IsValid :
      (now : ℕ) (key : Text) (m : BoundedTtlMap V) → IsValid m → IsValid (live now key m).0
  unfolding live
  live-IsValid now key m v =
      ground (arith, delete-IsDict key m.entries v.distinct, length-delete-le key m.entries)

  pub set-IsValid :
      (now : ℕ) (key : Text) (value : V) (m : BoundedTtlMap V)
      → IsValid m
      → IsValid (set now key value m)
  unfolding set
  set-IsValid now key value m v =
      let entry : Entry V = record { value = value; expires_at = now + m.ttl_ms } in
      let rest = delete key m.entries in
      let distinct = insert-IsDict key entry rest (delete-IsDict key m.entries v.distinct) in
      ground (
        arith,
        distinct,
        tail-IsDict (insert key entry rest) distinct,
        length-tail (insert key entry rest),
        length-insert key entry rest,
        length-delete-le key m.entries,
        lookup-delete key m.entries v.distinct,
      )

  step-IsValid : (m : BoundedTtlMap V) (c : Call V) → IsValid m → IsValid (step m c)
  unfolding step has get remove clear prune
  step-IsValid m (reads now key) v = live-IsValid now key m v
  step-IsValid m (gets now key) v = live-IsValid now key m v
  step-IsValid m (sets now key value) v = set-IsValid now key value m v
  step-IsValid m (removes key) v = record {
    distinct = delete-IsDict key m.entries v.distinct;
    bounded = omega (arith, length-delete-le key m.entries);
    positive = v.positive;
  }
  step-IsValid m clears v = record { distinct = tt; bounded = omega arith; positive = v.positive }
  step-IsValid m (prunes now) v = record {
    distinct = filter-IsDict _ m.entries v.distinct;
    bounded = omega (arith, length-filter-le (λ e. ltb now e.1.expires_at) m.entries);
    positive = v.positive;
  }

  pub run-IsValid : (m : BoundedTtlMap V) (cs : List (Call V)) → IsValid m → IsValid (run m cs)
  unfolding run
  run-IsValid m [] v = v
  run-IsValid m (c ∷ cs) v = run-IsValid (step m c) cs (step-IsValid m c v)

  pub create-IsValid :
      (ttl_ms max_entries : ℕ) (m : BoundedTtlMap V)
      → create ttl_ms max_entries ≡ some m
      → IsValid m
  unfolding create
  create-IsValid ttl_ms max_entries m e = ground arith

  -- Whatever calls are made after the constructor, the map holds at most `max_entries` entries and
  -- no key twice.
  pub run-create-IsValid :
      (ttl_ms max_entries : ℕ) (m : BoundedTtlMap V) (cs : List (Call V))
      → create ttl_ms max_entries ≡ some m
      → IsValid (run m cs)
  run-create-IsValid ttl_ms max_entries m cs e =
      run-IsValid m cs (create-IsValid ttl_ms max_entries m e)
