-- ===== src/RateLimit/Held.antt =====
-- limiter.ts: the bucket of one room, through the calls of any rooms.
use line_deno_bot.Prelude.{
  ℕ, ◌+◌, ◌-◌, ◌*◌, ◌≤◌, ◌<◌, ◌≡◌, refl, ap, sym, ◌∙◌, Bool, Option, none, some, arith,
  if◌then◌else◌, leb, Bool-cases, inl, inr, ◌≢◌, subst,
}
use native.Mathlib.Nat.{mul-le-mul_right}
use line_deno_bot.Prelude.Text.{Text, text_eq}
use line_deno_bot.Store.{live}
use line_deno_bot.Store
use line_deno_bot.Store.Bounds.{IsValid, live-IsValid, set-IsValid}
use line_deno_bot.Store.Held.{
  IsHeld, live-options, live-IsHeld_other, set-IsHeld_other, set-IsHeld_self,
}
use line_deno_bot.RateLimit.{Bucket, RateLimiter, unit, room_key, refill, spend, try_admit}

-- The room's bucket stands in the map, refilled at `t`, with at most `n` buckets written after it.
pub record HasBucket (key : Text) (t n : ℕ) (b : Bucket) (l : RateLimiter) : Type 0 where
  pub valid : IsValid l.buckets
  pub held : IsHeld (λ v. v ≡ b) key (t + l.buckets.ttl_ms) n l.buckets
  pub at : b.last_refill_ms ≡ t

-- A bucket that has been idle for as long as the map keeps it is full by then, so that forgetting
-- it changes nothing.
abbrev pub IdleIsFull : RateLimiter → Type 0
IdleIsFull l = l.capacity * unit l ≤ l.buckets.ttl_ms * l.refill_num

refill_idle :
    (now t : ℕ) (b : Bucket) (l : RateLimiter)
    → IdleIsFull l
    → b.last_refill_ms ≡ t
    → t + l.buckets.ttl_ms ≤ now
    → refill now l (some b) ≡ refill now l none
unfolding refill
refill_idle now t b l full e idle =
    let passed : l.buckets.ttl_ms ≤ now - b.last_refill_ms = omega arith in
    let enough = mul-le-mul_right l.refill_num passed in ground (arith, enough)

-- Whether or not the bucket has expired, the call finds the tokens of the refilled bucket.
pub refill-get :
    (key : Text) (now t n : ℕ) (b : Bucket) (l : RateLimiter)
    → IdleIsFull l
    → HasBucket key t n b l
    → refill now l (Store.get now key l.buckets).1 ≡ refill now l (some b)
unfolding Store.get live
refill-get key now t n b l full h =
    let x = h.held.entry in
    elim (Bool-cases (leb x.expires_at now)) [
      | inl idle ↦
          let early = h.held.lasting in
          rw (h.held.stored, live, idle)
            (sym (refill_idle now t b l full h.at (ground (arith, early, idle))))
      | inr kept ↦ rw (h.held.stored, live, kept) (ap (λ v. refill now l (some v)) h.held.holds)
    ]

-- One call for a room whose bucket would be `refilled`.
pub record Account (l l' : RateLimiter) (admitted : Bool) (b refilled : Bucket) : Type 0 where
  pub spent : b.tokens + (if admitted then unit l else 0) ≡ refilled.tokens
  pub fair : admitted ≡ leb (unit l) refilled.tokens
  pub capacity : l'.capacity ≡ l.capacity
  pub num : l'.refill_num ≡ l.refill_num
  pub den : l'.refill_den ≡ l.refill_den
  pub ttl : l'.buckets.ttl_ms ≡ l.buckets.ttl_ms
  pub rooms : l'.buckets.max_entries ≡ l.buckets.max_entries

module _ (bot_id room : Text) (now : ℕ) (l : RateLimiter) where
  unfoldable pub read_bucket : Option Bucket
  read_bucket = (Store.get now (room_key bot_id room) l.buckets).1

  -- What is left of the bucket after the call.
  pub after_bucket : Bucket
  unfolding read_bucket
  after_bucket = (spend l (refill now l read_bucket)).0

  spend-last : (b : Bucket) → (spend l b).0.last_refill_ms ≡ b.last_refill_ms
  unfolding spend
  spend-last b = ground arith

  refill-last : (o : Option Bucket) → (refill now l o).last_refill_ms ≡ now
  unfolding refill
  refill-last none = refl
  refill-last (some b) = refl

  try_admit-IsValid : IsValid l.buckets → IsValid (try_admit now bot_id room l).0.buckets
  unfolding try_admit Store.get
  try_admit-IsValid v =
      let key = room_key bot_id room in
      set-IsValid now key (spend l (refill now l (Store.get now key l.buckets).1)).0
        (live now key l.buckets).0 (live-IsValid now key l.buckets v)

  pub try_admit-Account :
      Account l
        (try_admit now bot_id room l).0
        (try_admit now bot_id room l).1
        after_bucket
        (refill now l read_bucket)
  unfolding try_admit after_bucket read_bucket Store.get Store.set spend
  try_admit-Account = record {
    spent = ground arith;
    fair = ground arith;
    capacity = refl;
    num = refl;
    den = refl;
    ttl = ground (arith, live-options now (room_key bot_id room) l.buckets);
    rooms = ground (arith, live-options now (room_key bot_id room) l.buckets);
  }

  pub try_admit-bucket :
      IsValid l.buckets
      → HasBucket (room_key bot_id room) now 0 after_bucket (try_admit now bot_id room l).0
  unfolding try_admit after_bucket read_bucket Store.get
  try_admit-bucket v =
      let key = room_key bot_id room in
      let read = live-IsValid now key l.buckets v in
      let ttl = (live-options now key l.buckets).1 in
      let same = try_admit-Account.ttl in
      record {
        valid = try_admit-IsValid v;
        held =
            set-IsHeld_self now key (live now key l.buckets).0 after_bucket (λ v. v ≡ after_bucket)
              (now + (try_admit now bot_id room l).0.buckets.ttl_ms) (omega (arith, ttl, same)) read
              refl;
        at = spend-last _ ∙ refill-last read_bucket;
      }

  -- The call of another room leaves the bucket of this one, while there is room for one more.
  pub try_admit-bucket_other :
      (k : Text) (t n : ℕ) (b : Bucket)
      → room_key bot_id room ≢ k
      → n + 1 < l.buckets.max_entries
      → HasBucket k t n b l
      → HasBucket k t (n + 1) b (try_admit now bot_id room l).0
  unfolding try_admit Store.get
  try_admit-bucket_other k t n b other few h =
      let key = room_key bot_id room in
      let read = live-IsValid now key l.buckets h.valid in
      let cap = (live-options now key l.buckets).0 in
      let same = try_admit-Account.ttl in
      let P : Bucket → Type 0 = λ v. v ≡ b in
      let until = t + l.buckets.ttl_ms in
      record {
        valid = try_admit-IsValid h.valid;
        held =
            subst (λ d. IsHeld P k (t + d) (n + 1) (try_admit now bot_id room l).0.buckets)
              (sym same)
              (set-IsHeld_other now key (live now key l.buckets).0 _ P k until n other read
                (live-IsHeld_other now key l.buckets P k until n other h.held)
                (omega (arith, cap, few)));
        at = h.at;
      }
