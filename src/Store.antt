-- ===== src/Store.antt =====
-- apps/worker/src/lib/bounded-ttl-map.ts: a map of fixed capacity whose entries expire. Each
-- operation takes the reading of the wall clock at its call, and returns the new map beside its
-- result; the JavaScript `Map` inside it is a `Dict` in insertion order.
mod Tests
pub mod Bounds
pub mod Reads
pub mod Held
use line_deno_bot.Prelude.{
  ℕ, ◌+◌, ◌≤◌, ◌<◌, ◌≡◌, Bool, true, false, Option, none, some, List, [], ◌∷◌, ◌++◌, map, arith,
  if◌then◌else◌, leb, ltb, length, tail, filter, is_some, ◌==◌, ◌||◌,
}
use line_deno_bot.Prelude.Text.{Text, text_eq}
use line_deno_bot.Prelude.Dict.{lookup, insert, delete}

pub record Entry (V : Type 0) : Type 0 where
  pub value : V
  pub expires_at : ℕ

pub record BoundedTtlMap (V : Type 0) : Type 0 where
  pub entries : List (Text × Entry V)
  pub ttl_ms : ℕ
  pub max_entries : ℕ

module _ {V : Type 0} where
  -- The constructor; `none` is its RangeError.
  unfoldable pub create : ℕ → ℕ → Option (BoundedTtlMap V)
  create ttl_ms max_entries =
      if (ttl_ms == 0) || (max_entries == 0)
      then none
      else some (record { entries = []; ttl_ms = ttl_ms; max_entries = max_entries })

  unfoldable pub size : BoundedTtlMap V → ℕ
  size m = length m.entries

  -- Lazy expiry: reading an expired entry takes it out.
  unfoldable pub live_entry :
      ℕ → Text → BoundedTtlMap V → Option (Entry V) → BoundedTtlMap V × Option (Entry V)
  live_entry now key m none = (m, none)
  live_entry now key m (some entry) =
      if leb entry.expires_at now
      then (record m { entries = delete key m.entries }, none)
      else (m, some entry)

  unfoldable pub live : ℕ → Text → BoundedTtlMap V → BoundedTtlMap V × Option (Entry V)
  unfolding live_entry
  live now key m = live_entry now key m (lookup key m.entries)

  unfoldable pub has : ℕ → Text → BoundedTtlMap V → BoundedTtlMap V × Bool
  unfolding live
  has now key m = let (m', entry) = live now key m in (m', is_some entry)

  abbrev value_of : Option (Entry V) → Option V
  value_of none = none
  value_of (some entry) = some entry.value

  unfoldable pub get : ℕ → Text → BoundedTtlMap V → BoundedTtlMap V × Option V
  unfolding live
  get now key m = let (m', entry) = live now key m in (m', value_of entry)

  -- The oldest entry is the first of the insertion order.
  unfoldable pub evict_oldest : BoundedTtlMap V → BoundedTtlMap V
  evict_oldest m = record m { entries = tail m.entries }

  unfoldable pub set : ℕ → Text → V → BoundedTtlMap V → BoundedTtlMap V
  unfolding evict_oldest
  set now key value m =
      let entry : Entry V = record { value = value; expires_at = now + m.ttl_ms } in
      let written : BoundedTtlMap V = record m {
        entries = insert key entry (delete key m.entries);
      } in
      if ltb m.max_entries (length written.entries) then evict_oldest written else written

  unfoldable pub remove : Text → BoundedTtlMap V → BoundedTtlMap V
  remove key m = record m { entries = delete key m.entries }

  unfoldable pub clear : BoundedTtlMap V → BoundedTtlMap V
  clear m = record m { entries = [] }

  abbrev unexpired : ℕ → Text × Entry V → Bool
  unexpired now (key, entry) = ltb now entry.expires_at

  -- `prune` also returns how many entries it took out.
  unfoldable pub prune : ℕ → BoundedTtlMap V → BoundedTtlMap V × ℕ
  prune now m =
      let kept = filter (unexpired now) m.entries in
      (record m { entries = kept }, length (filter (λ e. leb e.1.expires_at now) m.entries))

  -- What a reader at `now` sees, without the deletion that the read makes.
  abbrev pub peek : ℕ → Text → BoundedTtlMap V → Option V
  peek now key m = value_of (unexpired_entry (lookup key m.entries))
    where
      unexpired_entry : Option (Entry V) → Option (Entry V)
      unexpired_entry none = none
      unexpired_entry (some entry) = if leb entry.expires_at now then none else some entry
