-- ===== src/Store/Held.antt =====
-- bounded-ttl-map.ts: an entry that is held until a time, and what keeps it.
use line_deno_bot.Prelude.{ℕ, ◌+◌, ◌≤◌, ◌<◌, ◌≡◌, refl, ◌≢◌, none, some, List, [], ◌∷◌, arith, tail}
use line_deno_bot.Prelude.Text.{Text, text_eq, text_beq_iff, ne-text_beq}
use line_deno_bot.Prelude.Dict.{
  lookup, insert, delete, lookup-delete_ne, lookup-delete-none, lookup-insert,
}
use line_deno_bot.Store.{Entry, BoundedTtlMap, live, set}
use line_deno_bot.Store.Bounds.{IsValid}
use line_deno_bot.Store.Reads.{
  behind, lookup-set_other, behind-set_self, lookup-set_self, fresh, behind-delete-le,
}

-- The key has a value with `P` that no read takes for expired before `until`, and at most `n`
-- entries were written after it.
pub record IsHeld {V : Type 0} (P : V → Type 0) (k : Text) (until n : ℕ) (m : BoundedTtlMap V)
    : Type 0 where
  pub entry : Entry V
  pub stored : lookup k m.entries ≡ some entry
  pub lasting : until ≤ entry.expires_at
  pub near : behind k m.entries ≤ n
  pub holds : P entry.value

module _ {V : Type 0} (now : ℕ) (key : Text) (m : BoundedTtlMap V) where
  pub live-options :
      ((live now key m).0.max_entries ≡ m.max_entries) × ((live now key m).0.ttl_ms ≡ m.ttl_ms)
  unfolding live
  live-options = ground arith

  pub live-IsHeld_other :
      (P : V → Type 0) (k : Text) (until n : ℕ)
      → key ≢ k
      → IsHeld P k until n m
      → IsHeld P k until n (live now key m).0
  unfolding live
  live-IsHeld_other P k until n other h =
      let kept = lookup-delete_ne key k m.entries (ne-text_beq key k other) in
      let near = behind-delete-le k h.entry key m.entries (ne-text_beq key k other) in
      record {
        entry = h.entry;
        stored = ground (arith, kept, h.stored);
        lasting = h.lasting;
        near = ground (arith, near, h.near);
        holds = h.holds;
      }

  -- A read before the time finds the entry, and changes nothing.
  pub live-held :
      (P : V → Type 0) (until n : ℕ) (h : IsHeld P key until n m)
      → now < until
      → live now key m ≡ (m, some h.entry)
  unfolding live
  live-held P until n h before = rw (h.stored, live) (ground (arith, h.lasting))

  pub set-IsHeld_other :
      (value : V) (P : V → Type 0) (k : Text) (until n : ℕ)
      → key ≢ k
      → IsValid m
      → IsHeld P k until n m
      → n + 1 < m.max_entries
      → IsHeld P k until (n + 1) (set now key value m)
  set-IsHeld_other value P k until n other v h room =
      let (kept, near) =
        lookup-set_other k h.entry now key value m v other h.stored (omega (arith, h.near)) in
      record {
        entry = h.entry;
        stored = kept;
        lasting = h.lasting;
        near = omega (arith, h.near, near);
        holds = h.holds;
      }

  pub set-IsHeld_self :
      (value : V) (P : V → Type 0) (until : ℕ)
      → until ≤ now + m.ttl_ms
      → IsValid m
      → P value
      → IsHeld P key until 0 (set now key value m)
  set-IsHeld_self value P until early v p = record {
    entry = fresh now value m;
    stored = lookup-set_self now key value m v;
    lasting = early;
    near = omega (arith, behind-set_self now key value m v);
    holds = p;
  }

  pub live-absent :
      (k : Text) → key ≢ k → lookup k m.entries ≡ none → lookup k (live now key m).0.entries ≡ none
  unfolding live
  live-absent k other h = ground (arith, lookup-delete-none key k m.entries)

lookup-tail-none :
    {V : Type 0} (k : Text) (m : List (Text × Entry V))
    → lookup k m ≡ none
    → lookup k (tail m) ≡ none
unfolding lookup
lookup-tail-none k [] h = refl
lookup-tail-none k ((i, w) ∷ m) h = ground arith

pub set-absent :
    {V : Type 0} (now : ℕ) (key : Text) (value : V) (m : BoundedTtlMap V) (k : Text)
    → key ≢ k
    → lookup k m.entries ≡ none
    → lookup k (set now key value m).entries ≡ none
unfolding set
set-absent now key value m k other h =
    let entry = fresh now value m in
    let rest = delete key m.entries in
    ground (
      arith,
      lookup-delete-none key k m.entries h,
      lookup-insert key k entry rest,
      text_beq_iff key k,
      lookup-tail-none k (insert key entry rest),
    )

pub IsHeld-near :
    {V : Type 0} (P : V → Type 0) (k : Text) (until n n' : ℕ) (m : BoundedTtlMap V)
    → n ≤ n'
    → IsHeld P k until n m
    → IsHeld P k until n' m
IsHeld-near P k until n n' m le h = record {
  entry = h.entry;
  stored = h.stored;
  lasting = h.lasting;
  near = omega (arith, h.near);
  holds = h.holds;
}
