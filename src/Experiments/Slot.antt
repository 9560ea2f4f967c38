-- ===== src/Experiments/Slot.antt =====
-- prepared-slot.ts: a request that was built before it is needed. Times are readings of the monotonic
-- clock; what `build` returns is an argument.
use line_deno_bot.Prelude.{
  ℕ, ◌+◌, ◌-◌, Bool, true, false, not, ◌&&◌, ◌||◌, Option, none, some, if◌then◌else◌, get_or, ltb,
  ◌==◌,
}
use line_deno_bot.Prelude.Text.{Text, text, text_beq}

pub data SlotState : Type 0 where
  empty ready consumed invalidated : SlotState

abbrev pub is_ready : SlotState → Bool
is_ready ready = true
is_ready _ = false

pub record PreparedSlot (T : Type 0) : Type 0 where
  pub max_age_ms : ℕ
  pub value : Option T
  pub route_key : Option Text
  pub sequence : Option ℕ
  pub prepared_mono : ℕ
  pub state : SlotState
  pub reason : Option Text
  pub prepared : ℕ
  pub hits : ℕ
  pub misses : ℕ

pub record SlotStatus : Type 0 where
  pub state : SlotState
  pub route_key : Option Text
  pub sequence : Option ℕ
  pub age_ms : Option ℕ
  pub reason : Option Text
  pub prepared : ℕ
  pub hits : ℕ
  pub misses : ℕ

abbrev pub is_key : Option Text → Text → Bool
is_key none key = false
is_key (some k) key = text_beq k key

abbrev pub is_sequence : Option ℕ → ℕ → Bool
is_sequence none n = false
is_sequence (some m) n = m == n

module _ {T : Type 0} where
  unfoldable pub new_slot : Option ℕ → PreparedSlot T
  new_slot max_age_ms = record {
    max_age_ms = get_or max_age_ms 60000;
    value = none;
    route_key = none;
    sequence = none;
    prepared_mono = 0;
    state = empty;
    reason = none;
    prepared = 0;
    hits = 0;
    misses = 0;
  }

  unfoldable pub slot_status : ℕ → PreparedSlot T → SlotStatus
  slot_status now s = record {
    state = s.state;
    route_key = s.route_key;
    sequence = s.sequence;
    age_ms = if is_ready s.state then some (now - s.prepared_mono) else none;
    reason = s.reason;
    prepared = s.prepared;
    hits = s.hits;
    misses = s.misses;
  }

  unfoldable pub prepare : ℕ → Text → ℕ → T → PreparedSlot T → PreparedSlot T
  prepare now key n built s = record s {
    value = some built;
    route_key = some key;
    sequence = some n;
    prepared_mono = now;
    state = ready;
    reason = none;
    prepared = s.prepared + 1;
  }

  unfoldable pub drop : SlotState → Option Text → PreparedSlot T → PreparedSlot T
  drop state reason s = record s {
    value = none;
    route_key = none;
    sequence = none;
    prepared_mono = 0;
    state = state;
    reason = reason;
  }

  abbrev pub missed : PreparedSlot T → PreparedSlot T
  missed s = record s { misses = s.misses + 1 }

  unfoldable pub take : ℕ → Text → ℕ → PreparedSlot T → PreparedSlot T × Option T
  unfolding drop
  take now key n s =
      if not (is_ready s.state)
      then (missed s, none)
      else if not (is_key s.route_key key) || not (is_sequence s.sequence n)
      then (drop invalidated (some (text "route key or sequence moved on")) (missed s), none)
      else if ltb s.max_age_ms (now - s.prepared_mono)
      then (drop invalidated (some (text "payload older than maxAgeMs")) (missed s), none)
      else (drop consumed none (record s { hits = s.hits + 1 }), s.value)

  unfoldable pub invalidate : Text → PreparedSlot T → PreparedSlot T
  unfolding drop
  invalidate reason s =
      if not (is_ready s.state)
      then record s { reason = some reason }
      else drop invalidated (some reason) s

  unfoldable pub invalidate_sequence : Text → ℕ → PreparedSlot T → PreparedSlot T
  unfolding drop
  invalidate_sequence key n s =
      if not (is_ready s.state)
      then s
      else if is_key s.route_key key && is_sequence s.sequence n
      then s
      else drop invalidated (some (text "sequence advanced")) s
