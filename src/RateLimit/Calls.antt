-- ===== src/RateLimit/Calls.antt =====
-- limiter.ts: runs of calls for any rooms, and what of a room's bucket they leave alone.
use line_deno_bot.Prelude.{
  ℕ, ◌+◌, ◌-◌, ◌*◌, ◌≤◌, ◌<◌, ◌≡◌, ◌≢◌, refl, ap, ◌∙◌, Bool, true, false, ◌||◌, some, List, [], ◌∷◌,
  arith, if◌then◌else◌, leb, All, length,
}
use line_deno_bot.Prelude.Text.{Text, text_eq, text_beq}
use line_deno_bot.RateLimit.{Bucket, RateLimiter, unit, room_key, refill, try_admit}
use line_deno_bot.RateLimit.Held.{HasBucket, IdleIsFull, try_admit-bucket_other, try_admit-Account}

-- A call of `tryAdmit`: the clock's reading, the bot and the room.
pub record Call : Type 0 where
  pub now : ℕ
  pub bot_id : Text
  pub room : Text

abbrev pub key_of : Call → Text
key_of c = room_key c.bot_id c.room

unfoldable pub step : Call → RateLimiter → RateLimiter
unfolding try_admit
step c l = (try_admit c.now c.bot_id c.room l).0

unfoldable pub run : List Call → RateLimiter → RateLimiter
unfolding step
run [] l = l
run (c ∷ calls) l = run calls (step c l)

-- The clock's readings do not go back.
abbrev pub Rising : ℕ → List Call → Type 0
Rising t [] = Unit
Rising t (c ∷ calls) = (t ≤ c.now) × Rising c.now calls

abbrev pub last_of : ℕ → List Call → ℕ
last_of t [] = t
last_of t (c ∷ calls) = last_of c.now calls

-- Whether as many calls for other rooms as there is room for buckets follow on a call for this one, the first
-- `n` of them being past.
abbrev pub is_crowded : ℕ → ℕ → Text → List Call → Bool
is_crowded max_rooms n k [] = false
is_crowded max_rooms n k (c ∷ calls) =
    if text_beq (key_of c) k
    then is_crowded max_rooms 0 k calls
    else leb max_rooms (n + 1) || is_crowded max_rooms (n + 1) k calls

pub Rising-last : (t : ℕ) (calls : List Call) → Rising t calls → t ≤ last_of t calls
Rising-last t [] r = omega arith
Rising-last t (c ∷ calls) r = omega (arith, r.0, Rising-last c.now calls r.1)

-- The sum of one call and the calls behind it.
pub tally :
    (admitted : Bool) (later one left refilled tokens num last now t : ℕ)
    → left + (if admitted then one else 0) ≡ refilled
    → refilled ≤ tokens + (now - t) * num
    → later * one ≤ left + (last - now) * num
    → t ≤ now
    → now ≤ last
    → (if admitted then later + 1 else later) * one ≤ tokens + (last - t) * num
tally true later one left refilled tokens num last now t spent filled rest p q =
    let gap : (last - now) + (now - t) ≡ last - t = omega arith in
    omega (arith, ap (λ (d : ℕ). d * num) gap)
tally false later one left refilled tokens num last now t spent filled rest p q =
    let gap : (last - now) + (now - t) ≡ last - t = omega arith in
    omega (arith, ap (λ (d : ℕ). d * num) gap)

pub refill-le :
    (now t : ℕ) (b : Bucket) (l : RateLimiter)
    → b.last_refill_ms ≡ t
    → (refill now l (some b)).tokens ≤ b.tokens + (now - t) * l.refill_num
unfolding refill
refill-le now t b l e = rw e (omega arith)

pub step-IdleIsFull : (c : Call) (l : RateLimiter) → IdleIsFull l → IdleIsFull (step c l)
unfolding step
step-IdleIsFull c l full =
    let a = try_admit-Account c.bot_id c.room c.now l in rw (a.den, a.capacity, a.ttl, a.num) full

pub refill-ge :
    (now t : ℕ) (b : Bucket) (l : RateLimiter)
    → b.last_refill_ms ≡ t
    → unit l ≤ l.capacity * unit l
    → unit l ≤ (now - t) * l.refill_num
    → unit l ≤ (refill now l (some b)).tokens
unfolding refill
refill-ge now t b l e one enough = rw e (omega arith)

-- What the calls of other rooms leave alone.
pub record Waits (k : Text) (t : ℕ) (b : Bucket) (l l' : RateLimiter) : Type 0 where
  pub full : IdleIsFull l'
  pub n : ℕ
  pub bucket : HasBucket k t n b l'
  pub unit_same : unit l' ≡ unit l
  pub num_same : l'.refill_num ≡ l.refill_num
  pub capacity_same : l'.capacity ≡ l.capacity

pub run-Waits :
    (k : Text) (t n : ℕ) (b : Bucket) (others : List Call) (l : RateLimiter)
    → IdleIsFull l
    → HasBucket k t n b l
    → All (λ c. key_of c ≢ k) others
    → n + length others < l.buckets.max_entries
    → Waits k t b l (run others l)
unfolding run step
run-Waits k t n b [] l full h o few = record {
  full = full;
  n = n;
  bucket = h;
  unit_same = refl;
  num_same = refl;
  capacity_same = refl;
}
run-Waits k t n b (c ∷ others) l full h o few =
    let a = try_admit-Account c.bot_id c.room c.now l in
    let l' = (try_admit c.now c.bot_id c.room l).0 in
    let cap = a.rooms in
    let next = try_admit-bucket_other c.bot_id c.room c.now l k t n b o.0 (omega (arith, few)) h in
    let w =
      run-Waits k t (n + 1) b others l' (step-IdleIsFull c l full) next o.1
        (omega (arith, few, cap)) in
    record {
      full = w.full;
      n = w.n;
      bucket = w.bucket;
      unit_same = w.unit_same ∙ ap (λ d. 1000 * d) a.den;
      num_same = w.num_same ∙ a.num;
      capacity_same = w.capacity_same ∙ a.capacity;
    }
