-- ===== src/Claims/Once.antt =====
-- claim-store.ts: of the callers that ask for one key within its time to live, one acquires it.
use line_deno_bot.Prelude.{
  ℕ, ◌+◌, ◌≤◌, ◌<◌, ◌≡◌, refl, sym, subst, ◌≢◌, Bool, true, false, ◌&&◌, ◌||◌, none, List, [], ◌∷◌,
  arith, length, if◌then◌else◌, All, inl, inr, Bool-cases, Option-cases,
}
use line_deno_bot.Prelude.Text.{Text, text_eq, text_beq, text_beq_iff}
use line_deno_bot.Prelude.Dict.{lookup}
use line_deno_bot.Store.{live}
use line_deno_bot.Store
use line_deno_bot.Store.Bounds.{IsValid, live-IsValid, set-IsValid}
use line_deno_bot.Store.Held.{
  IsHeld, live-options, live-IsHeld_other, live-held, set-IsHeld_other, set-IsHeld_self,
  live-absent, set-absent, IsHeld-near,
}
use line_deno_bot.Claims.{ClaimStore, try_claim}

abbrev Held : Text → ℕ → ℕ → ClaimStore → Type 0
Held = IsHeld (λ _. Unit {0})

module _ (now : ℕ) (key : Text) (s : ClaimStore) where
  pub try_claim-IsValid : IsValid s → IsValid (try_claim now key s).0
  unfolding try_claim Store.has
  try_claim-IsValid v = ground (
    arith,
    live-IsValid now key s v,
    set-IsValid now key tt (live now key s).0 (live-IsValid now key s v),
  )

  pub try_claim-options :
      ((try_claim now key s).0.max_entries ≡ s.max_entries)
      × ((try_claim now key s).0.ttl_ms ≡ s.ttl_ms)
  unfolding try_claim Store.has Store.set
  try_claim-options = ground (arith, live-options now key s)

  -- A winner holds the key for the time to live.
  try_claim-won :
      (until : ℕ)
      → until ≤ now + s.ttl_ms
      → IsValid s
      → (try_claim now key s).1 ≡ true
      → Held key until 0 (try_claim now key s).0
  unfolding try_claim Store.has
  try_claim-won until early v won = elim (Option-cases (live now key s).1) [
    | inl e ↦
        rw (e, try_claim, Store.has)
          (set-IsHeld_self now key (live now key s).0 tt _ until
            (omega (arith, (live-options now key s).1)) (live-IsValid now key s v) tt)
    | inr (x, e) ↦ absurd (ground arith)
  ]

  -- While it is held, the next caller is refused and nothing changes.
  try_claim-Held' :
      (until n : ℕ) → Held key until n s → now < until → try_claim now key s ≡ (s, false)
  unfolding try_claim Store.has
  try_claim-Held' until n h before = rw (live-held now key s _ until n h before)

  try_claim-Held :
      (k : Text) (until n : ℕ)
      → key ≢ k
      → IsValid s
      → Held k until n s
      → n + 1 < s.max_entries
      → Held k until (n + 1) (try_claim now key s).0
  unfolding try_claim Store.has
  try_claim-Held k until n other v h room =
      let s' = (live now key s).0 in
      let seen = live-IsHeld_other now key s _ k until n other h in
      elim (Option-cases (live now key s).1) [
        | inl e ↦
            rw (e, try_claim, Store.has)
              (set-IsHeld_other now key s' tt _ k until n other (live-IsValid now key s v) seen
                (omega (arith, (live-options now key s).0)))
        | inr (x, e) ↦
            rw (e, try_claim, Store.has) (IsHeld-near _ k until n (n + 1) s' (omega arith) seen)
      ]

  -- A key that is not stored stays so while other keys are claimed, and then its first caller wins.
  pub try_claim-absent :
      (k : Text)
      → key ≢ k
      → lookup k s.entries ≡ none
      → lookup k (try_claim now key s).0.entries ≡ none
  unfolding try_claim Store.has
  try_claim-absent k other h =
      let gone = live-absent now key s k other h in
      ground (arith, gone, set-absent now key tt (live now key s).0 k other gone)

  pub try_claim-first : lookup key s.entries ≡ none → (try_claim now key s).1 ≡ true
  unfolding try_claim Store.has live
  try_claim-first h = rw (h, live)

-- How many of the attempts on `k` acquire it, and how many there are.
unfoldable pub wins : Text → List (ℕ × Text) → ClaimStore → ℕ
wins k [] s = 0
wins k ((now, key) ∷ rest) s =
    let (s', won) = try_claim now key s in
    let later = wins k rest s' in if text_beq key k && won then later + 1 else later

unfoldable pub attempted : Text → List (ℕ × Text) → Bool
attempted k [] = false
attempted k ((now, key) ∷ rest) = text_beq key k || attempted k rest

abbrev pub Within : ℕ → ℕ → List (ℕ × Text) → Type 0
Within from until = All (λ a. (from ≤ a.0) × (a.0 < until))

wins-Held :
    (k : Text) (from until n : ℕ) (calls : List (ℕ × Text)) (s : ClaimStore)
    → IsValid s
    → Held k until n s
    → Within from until calls
    → n + length calls < s.max_entries
    → wins k calls s ≡ 0
unfolding wins
wins-Held k from until n [] s v h w room = refl
wins-Held k from until n ((now, key) ∷ calls) s v h w room = elim (Bool-cases (text_beq key k)) [
  | inl same ↦
      let e : key ≡ k = (text_beq_iff key k).0 same in
      let quiet : try_claim now key s ≡ (s, false) =
        try_claim-Held' now key s until n (subst (λ j. Held j until n s) (sym e) h) w.0.1 in
      rw (quiet, same) (wins-Held k from until n calls s v h w.1 (omega arith))
  | inr miss ↦
      let other : key ≢ k = λ e. ground (arith, (text_beq_iff key k).1 e) in
      let later =
        wins-Held k from until (n + 1) calls (try_claim now key s).0 (try_claim-IsValid now key s v)
          (try_claim-Held now key s k until n other v h (omega arith)) w.1
          (omega (arith, (try_claim-options now key s).0)) in
      rw miss later
]

-- From a store without the key, with fewer attempts than the capacity and all of them within the
-- time to live of the first: exactly one attempt on the key acquires it, if there is any.
pub wins-attempted :
    (k : Text) (from : ℕ) (calls : List (ℕ × Text)) (s : ClaimStore)
    → IsValid s
    → lookup k s.entries ≡ none
    → Within from (from + s.ttl_ms) calls
    → length calls ≤ s.max_entries
    → wins k calls s ≡ (if attempted k calls then 1 else 0)
unfolding wins attempted
wins-attempted k from [] s v h w room = refl
wins-attempted k from ((now, key) ∷ calls) s v h w room = elim (Bool-cases (text_beq key k)) [
  | inl same ↦
      let e : key ≡ k = (text_beq_iff key k).0 same in
      let won = try_claim-first now key s (subst (λ j. lookup j s.entries ≡ none) (sym e) h) in
      let held =
        subst (λ j. Held j (from + s.ttl_ms) 0 (try_claim now key s).0) e
          (try_claim-won now key s (from + s.ttl_ms) (omega (arith, w.0.0)) v won) in
      let cap = (try_claim-options now key s).0 in
      let none_later =
        wins-Held k from (from + s.ttl_ms) 0 calls (try_claim now key s).0
          (try_claim-IsValid now key s v) held w.1 (omega (arith, cap)) in
      rw (same, won, none_later) refl
  | inr miss ↦
      let other : key ≢ k = λ e. ground (arith, (text_beq_iff key k).1 e) in
      let (cap, ttl) = try_claim-options now key s in
      rw miss (
        wins-attempted k from calls (try_claim now key s).0 (try_claim-IsValid now key s v)
          (try_claim-absent now key s k other h) (rw ttl w.1) (omega (arith, cap)))
]
