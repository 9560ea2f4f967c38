-- ===== src/RateLimit/Bounds.antt =====
-- limiter.ts over the calls of any rooms: how many messages of one room are admitted in a stretch of time.
use line_deno_bot.Prelude.{
  ℕ, ◌+◌, ◌-◌, ◌*◌, ◌≤◌, ◌<◌, ◌≡◌, ◌≢◌, refl, ap, sym, subst, ◌∙◌, true, false, ◌||◌, none, List,
  [], ◌∷◌, arith, if◌then◌else◌, leb, le→leb, All, length, Bool-cases, inl, inr,
}
use line_deno_bot.Prelude.Text.{Text, text_eq, text_beq, text_beq_iff}
use line_deno_bot.Prelude.Dict.{lookup}
use line_deno_bot.Store.{live}
use line_deno_bot.Store
use line_deno_bot.Store.Bounds.{IsValid}
use line_deno_bot.RateLimit.{Bucket, RateLimiter, unit, refill, try_admit}
use line_deno_bot.RateLimit.Held.{
  HasBucket, IdleIsFull, refill-get, read_bucket, after_bucket, try_admit-bucket,
  try_admit-bucket_other, try_admit-Account,
}
use line_deno_bot.RateLimit.Calls.{
  Call, key_of, step, run, Rising, last_of, is_crowded, Rising-last, tally, refill-le,
  step-IdleIsFull, refill-ge, run-Waits,
}

-- How many of the calls are for the room and admitted.
unfoldable pub admissions : Text → List Call → RateLimiter → ℕ
unfolding step
admissions k [] l = 0
admissions k (c ∷ calls) l =
    let later = admissions k calls (step c l) in
    if text_beq (key_of c) k
    then (if (try_admit c.now c.bot_id c.room l).1 then later + 1 else later)
    else later

module _ (k : Text) where
  admissions-le :
      (calls : List Call) (t p n : ℕ) (b : Bucket) (l : RateLimiter)
      → IdleIsFull l
      → HasBucket k t n b l
      → t ≤ p
      → Rising p calls
      → is_crowded l.buckets.max_entries n k calls ≡ false
      → admissions k calls l * unit l ≤ b.tokens + (last_of p calls - t) * l.refill_num
  unfolding admissions step
  admissions-le [] t p n b l full h before r few = omega arith
  admissions-le (c ∷ calls) t p n b l full h before r few =
      let a = try_admit-Account c.bot_id c.room c.now l in
      let l' = (try_admit c.now c.bot_id c.room l).0 in
      let b' = after_bucket c.bot_id c.room c.now l in
      elim (Bool-cases (text_beq (key_of c) k)) [
        | inl hit ↦
            let same : key_of c ≡ k = (text_beq_iff (key_of c) k).0 hit in
            let few' : is_crowded l.buckets.max_entries 0 k calls ≡ false =
              ground (arith, few, hit) in
            let mine = subst (λ j. HasBucket j t n b l) (sym same) h in
            let next =
              subst (λ j. HasBucket j c.now 0 b' l') same
                (try_admit-bucket c.bot_id c.room c.now l h.valid) in
            let rest =
              admissions-le calls c.now c.now 0 b' l' (step-IdleIsFull c l full) next (omega arith)
                r.1 (rw a.rooms few') in
            let refilled =
              ap (λ (x : Bucket). x.tokens) (refill-get (key_of c) c.now t n b l full mine) in
            rw hit (
              tally (try_admit c.now c.bot_id c.room l).1 (admissions k calls l') (unit l) b'.tokens
                (refill c.now l (read_bucket c.bot_id c.room c.now l)).tokens b.tokens l.refill_num
                (last_of c.now calls) c.now t a.spent
                (unfold read_bucket in omega (arith, refilled, refill-le c.now t b l h.at))
                (rw (a.den, a.num) at rest) (omega (arith, r.0)) (Rising-last c.now calls r.1))
        | inr miss ↦
            let other : key_of c ≢ k = λ e. ground (arith, (text_beq_iff (key_of c) k).1 e, miss) in
            let few' : (leb l.buckets.max_entries (n + 1)
                  || is_crowded l.buckets.max_entries (n + 1) k calls)
                ≡ false =
              ground (arith, few, miss) in
            let next =
              try_admit-bucket_other c.bot_id c.room c.now l k t n b other (ground (arith, few'))
                h in
            let rest =
              admissions-le calls t c.now (n + 1) b l' (step-IdleIsFull c l full) next
                (omega (arith, r.0)) r.1 (rw a.rooms (ground (arith, few'))) in
            rw miss (rw (a.den, a.num) at rest)
      ]

  absent-get :
      (c : Call) (l : RateLimiter)
      → lookup (key_of c) l.buckets.entries ≡ none
      → refill c.now l (read_bucket c.bot_id c.room c.now l) ≡ refill c.now l none
  unfolding read_bucket Store.get live
  absent-get c l e = rw (e, live)

refill_new : (now : ℕ) (l : RateLimiter) → (refill now l none).tokens ≡ l.capacity * unit l
unfolding refill
refill_new now l = refl

-- From a room's first message on, through the calls of any rooms: the room is admitted at most `capacity`
-- messages and what the refill rate gives for the time up to the last call. The clock does not go back; a bucket
-- is kept at least as long as it takes to fill; and after each call for this room come fewer calls for other rooms
-- than there is room for buckets, up to its next call or the end. Both sides are in units of
-- `1 / (1000 * refill_den)` of a message.
pub admissions-bound :
    (first : Call) (calls : List Call) (l : RateLimiter)
    → IsValid l.buckets
    → IdleIsFull l
    → lookup (key_of first) l.buckets.entries ≡ none
    → Rising first.now calls
    → is_crowded l.buckets.max_entries 0 (key_of first) calls ≡ false
    → admissions (key_of first) (first ∷ calls) l * unit l
      ≤ l.capacity * unit l + (last_of first.now calls - first.now) * l.refill_num
unfolding admissions step
admissions-bound first calls l v full e r few =
    let k = key_of first in
    let l' = (try_admit first.now first.bot_id first.room l).0 in
    let b' = after_bucket first.bot_id first.room first.now l in
    let a = try_admit-Account first.bot_id first.room first.now l in
    let rest =
      admissions-le k calls first.now first.now 0 b' l' (step-IdleIsFull first l full)
        (try_admit-bucket first.bot_id first.room first.now l v) (omega arith) r (rw a.rooms few) in
    let start = ap (λ (x : Bucket). x.tokens) (absent-get k first l e) in
    let mine : text_beq k k ≡ true = (text_beq_iff k k).1 refl in
    rw mine (
      tally (try_admit first.now first.bot_id first.room l).1 (admissions k calls l') (unit l)
        b'.tokens (refill first.now l (read_bucket first.bot_id first.room first.now l)).tokens
        (l.capacity * unit l) l.refill_num (last_of first.now calls) first.now first.now a.spent
        (omega (arith, start, refill_new first.now l)) (rw (a.den, a.num) at rest) (omega arith)
        (Rising-last first.now calls r))

-- Whatever a call for a room decided: after fewer calls for other rooms than there is room for buckets, a call for
-- it is admitted once the time since that call is worth a whole token. The capacity is not zero, and a bucket is
-- kept at least as long as it takes to fill.
pub admit_after_wait :
    (c : Call) (others : List Call) (now : ℕ) (l : RateLimiter)
    → IsValid l.buckets
    → IdleIsFull l
    → 0 < l.capacity
    → All (λ d. key_of d ≢ key_of c) others
    → length others < l.buckets.max_entries
    → unit l ≤ (now - c.now) * l.refill_num
    → (try_admit now c.bot_id c.room (run others (step c l))).1 ≡ true
unfolding step
admit_after_wait c others now l v full some_room apart few enough =
    let k = key_of c in
    let l' = (try_admit c.now c.bot_id c.room l).0 in
    let a = try_admit-Account c.bot_id c.room c.now l in
    let b = after_bucket c.bot_id c.room c.now l in
    let cap = a.rooms in
    let w =
      run-Waits k c.now 0 b others l' (step-IdleIsFull c l full)
        (try_admit-bucket c.bot_id c.room c.now l v) apart (omega (arith, few, cap)) in
    let l'' = run others l' in
    let one : unit l'' ≡ unit l = w.unit_same ∙ ap (λ d. 1000 * d) a.den in
    let rate : l''.refill_num ≡ l.refill_num = w.num_same ∙ a.num in
    let limit : l''.capacity ≡ l.capacity = w.capacity_same ∙ a.capacity in
    let again = try_admit-Account c.bot_id c.room now l'' in
    let some_unit : unit l ≤ l.capacity * unit l = grind arith in
    let filled =
      refill-ge now c.now b l'' w.bucket.at
        (subst (λ u. u ≤ l''.capacity * u) (sym one)
          (subst (λ d. unit l ≤ d * unit l) (sym limit) some_unit))
        (subst (λ u. u ≤ (now - c.now) * l''.refill_num) (sym one)
          (subst (λ d. unit l ≤ (now - c.now) * d) (sym rate) enough)) in
    let found = ap (λ (x : Bucket). x.tokens) (refill-get k now c.now w.n b l'' w.full w.bucket) in
    again.fair
    ∙ le→leb (unit l'') (refill now l'' (read_bucket c.bot_id c.room now l'')).tokens
        (unfold read_bucket in omega (arith, found, filled))
