-- ===== src/Store/Reads.antt =====
-- bounded-ttl-map.ts: what can be read after a write, and how long it stays.
use line_deno_bot.Prelude.{
  ℕ, ◌+◌, ◌≤◌, ◌<◌, ◌≡◌, false, none, some, List, [], ◌∷◌, ◌++◌, arith, length, tail, if◌then◌else◌,
  leb, ltb, Bool-cases, Option-cases, length-append, ◌⊎◌, inl, inr, ◌≢◌,
}
use line_deno_bot.Prelude.Text.{Text, text_eq, text_beq, text_beq_iff, ne-text_beq}
use line_deno_bot.Prelude.Dict.{
  lookup, delete, lookup-delete, insert_absent, length-delete-le, lookup-delete_ne,
}
use line_deno_bot.Store.{Entry, BoundedTtlMap, live, get, set}
use line_deno_bot.Store.Bounds.{IsValid, set-IsValid}

module _ {V : Type 0} where
  abbrev pub fresh : ℕ → V → BoundedTtlMap V → Entry V
  fresh now value m = record { value = value; expires_at = now + m.ttl_ms }

  -- A write appends the key behind the entries of the others.
  abbrev written : ℕ → Text → V → BoundedTtlMap V → List (Text × Entry V)
  written now key value m = delete key m.entries ++ (key, fresh now value m) ∷ []

  pub set-entries :
      (now : ℕ) (key : Text) (value : V) (m : BoundedTtlMap V)
      → IsValid m
      → (set now key value m).entries ≡ (
          if ltb m.max_entries (length (delete key m.entries) + 1)
          then tail (written now key value m)
          else written now key value m)
  unfolding set
  set-entries now key value m v =
      rw
        (insert_absent key (fresh now value m) (delete key m.entries)
          (lookup-delete key m.entries v.distinct))
        (ground (arith, length-append (delete key m.entries) ((key, fresh now value m) ∷ [])))

  lookup_last :
      (k : Text) (e : Entry V) (m : List (Text × Entry V))
      → lookup k m ≡ none
      → lookup k (m ++ (k, e) ∷ []) ≡ some e
  unfolding lookup
  lookup_last k e [] h = ground (arith, text_beq_iff k k)
  lookup_last k e ((i, w) ∷ m) h = ground (arith, lookup_last k e m)

  lookup-tail_last :
      (k : Text) (e : Entry V) (m : List (Text × Entry V))
      → 0 < length m
      → lookup k m ≡ none
      → lookup k (tail (m ++ (k, e) ∷ [])) ≡ some e
  unfolding lookup
  lookup-tail_last k e [] p h = absurd (omega arith)
  lookup-tail_last k e ((i, w) ∷ m) p h = lookup_last k e m (ground arith)

  pub lookup-set_self :
      (now : ℕ) (key : Text) (value : V) (m : BoundedTtlMap V)
      → IsValid m
      → lookup key (set now key value m).entries ≡ some (fresh now value m)
  lookup-set_self now key value m v =
      let gone = lookup-delete key m.entries v.distinct in
      rw (set-entries now key value m v) (
        ground (
          arith,
          v.positive,
          lookup_last key (fresh now value m) (delete key m.entries) gone,
          lookup-tail_last key (fresh now value m) (delete key m.entries),
        ))

  -- A read right after a write returns the value until `ttl_ms` have passed, and nothing from then
  -- on; it holds on a full map too, since the write evicts another key.
  pub get-set_self :
      (now later : ℕ) (key : Text) (value : V) (m : BoundedTtlMap V)
      → IsValid m
      → (get later key (set now key value m)).1
        ≡ (if leb (now + m.ttl_ms) later then none else some value)
  unfolding get live
  get-set_self now later key value m v = rw (lookup-set_self now key value m v, live) (ground arith)

  -- The entries written after the entry of `k`.
  unfoldable pub behind : Text → List (Text × Entry V) → ℕ
  behind k [] = 0
  behind k ((i, w) ∷ m) = if text_beq i k then length m else behind k m

  module _ (k : Text) (e : Entry V) where
    pub behind-delete-le :
        (j : Text) (m : List (Text × Entry V))
        → text_beq j k ≡ false
        → behind k (delete j m) ≤ behind k m
    unfolding behind delete
    behind-delete-le j [] h = omega arith
    behind-delete-le j ((i, w) ∷ m) h = ground (
      arith,
      behind-delete-le j m h,
      text_beq_iff i k,
      text_beq_iff i j,
      text_beq_iff j k,
      length-delete-le {K = Text} j m,
    )

    lookup-append :
        (j : Text) (x : Entry V) (m : List (Text × Entry V))
        → lookup k m ≡ some e
        → (lookup k (m ++ (j, x) ∷ []) ≡ some e) × (behind k (m ++ (j, x) ∷ []) ≡ behind k m + 1)
    unfolding behind lookup
    lookup-append j x [] h = cc
    lookup-append j x ((i, w) ∷ m) h =
        ground (arith, lookup-append j x m, length-append m ((j, x) ∷ []))

    lookup-tail :
        (m : List (Text × Entry V))
        → lookup k m ≡ some e
        → behind k m + 1 < length m
        → (lookup k (tail m) ≡ some e) × (behind k (tail m) ≡ behind k m)
    unfolding behind lookup
    lookup-tail [] h p = cc
    lookup-tail ((i, w) ∷ m) h p = ground arith

  unfoldable pub sets : BoundedTtlMap V → List (ℕ × Text × V) → BoundedTtlMap V
  sets m [] = m
  sets m ((now, key, value) ∷ ws) = sets (set now key value m) ws

  -- None of the writes is to `k`.
  abbrev pub Others : Text → List (ℕ × Text × V) → Type 0
  Others k [] = Unit
  Others k ((now, key, value) ∷ ws) = (key ≢ k) × Others k ws

  pub lookup-set_other :
      (k : Text) (e : Entry V) (now : ℕ) (key : Text) (value : V) (m : BoundedTtlMap V)
      → IsValid m
      → key ≢ k
      → lookup k m.entries ≡ some e
      → behind k m.entries + 1 < m.max_entries
      → (lookup k (set now key value m).entries ≡ some e)
        × (behind k (set now key value m).entries ≤ behind k m.entries + 1)
  lookup-set_other k e now key value m v other here room =
      let other' = ne-text_beq key k other in
      let rest = delete key m.entries in
      let kept = lookup-append k e key (fresh now value m) rest in
      rw (set-entries now key value m v) (
        ground (
          arith,
          lookup-delete_ne key k m.entries other',
          behind-delete-le k e key m.entries other',
          kept,
          lookup-tail k e (written now key value m),
          length-append rest ((key, fresh now value m) ∷ []),
        ))

  behind_last :
      (k : Text) (e : Entry V) (m : List (Text × Entry V))
      → lookup k m ≡ none
      → behind k (m ++ (k, e) ∷ []) ≡ 0
  unfolding behind lookup
  behind_last k e [] h = ground (arith, text_beq_iff k k)
  behind_last k e ((i, w) ∷ m) h = ground (arith, behind_last k e m)

  behind-tail_last :
      (k : Text) (e : Entry V) (m : List (Text × Entry V))
      → 0 < length m
      → lookup k m ≡ none
      → behind k (tail (m ++ (k, e) ∷ [])) ≡ 0
  unfolding lookup
  behind-tail_last k e [] p h = absurd (omega arith)
  behind-tail_last k e ((i, w) ∷ m) p h = behind_last k e m (ground arith)

  pub set-capacity :
      (now : ℕ) (key : Text) (value : V) (m : BoundedTtlMap V)
      → (set now key value m).max_entries ≡ m.max_entries
  unfolding set
  set-capacity now key value m = ground arith

  pub behind-set_self :
      (now : ℕ) (key : Text) (value : V) (m : BoundedTtlMap V)
      → IsValid m
      → behind key (set now key value m).entries ≡ 0
  behind-set_self now key value m v =
      let gone = lookup-delete key m.entries v.distinct in
      rw (set-entries now key value m v) (
        ground (
          arith,
          v.positive,
          behind_last key (fresh now value m) (delete key m.entries) gone,
          behind-tail_last key (fresh now value m) (delete key m.entries),
        ))

  sets-keep :
      (k : Text) (e : Entry V) (ws : List (ℕ × Text × V)) (m : BoundedTtlMap V)
      → IsValid m
      → Others k ws
      → lookup k m.entries ≡ some e
      → behind k m.entries + length ws < m.max_entries
      → lookup k (sets m ws).entries ≡ some e
  unfolding sets
  sets-keep k e [] m v o here room = here
  sets-keep k e ((now, key, value) ∷ ws) m v o here room =
      let (kept, near) = lookup-set_other k e now key value m v o.0 here (omega arith) in
      sets-keep k e ws (set now key value m) (set-IsValid now key value m v) o.1 kept
        (omega (arith, near, set-capacity now key value m))

  -- A written key is still stored, with its own expiry, after fewer than `max_entries` writes of
  -- other keys: eviction takes the oldest entries only.
  pub lookup-sets :
      (now : ℕ) (key : Text) (value : V) (m : BoundedTtlMap V) (ws : List (ℕ × Text × V))
      → IsValid m
      → Others key ws
      → length ws < m.max_entries
      → lookup key (sets (set now key value m) ws).entries
        ≡ some (record { value = value; expires_at = now + m.ttl_ms })
  lookup-sets now key value m ws v others few =
      sets-keep key (fresh now value m) ws (set now key value m) (set-IsValid now key value m v)
        others (lookup-set_self now key value m v)
        (omega (arith, behind-set_self now key value m v, set-capacity now key value m))

  -- A read that finds a value leaves the map as it was.
  pub get-cases :
      (now : ℕ) (key : Text) (m : BoundedTtlMap V)
      → ((get now key m).1 ≡ none) ⊎ ((v : V) × (get now key m ≡ (m, some v)))
  unfolding get live
  get-cases now key m = elim (Option-cases (lookup key m.entries)) [
    | inl e ↦ inl (rw (e, live))
    | inr (x, e) ↦ elim (Bool-cases (leb x.expires_at now)) [
      | inl old ↦ inl (rw (e, live, old))
      | inr new ↦ inr (x.value, rw (e, live, new))
    ]
  ]
