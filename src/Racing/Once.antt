-- ===== src/Racing/Once.antt =====
-- racing.ts over a run of calls: of the copies of a message, one is passed on.
use line_deno_bot.Prelude.{
  ℕ, ◌+◌, ◌≤◌, ◌≡◌, refl, sym, ap, ◌∙◌, Bool, true, false, ◌&&◌, ◌||◌, not, Option, none, some,
  List, [], ◌∷◌, arith, if◌then◌else◌, if-cases, length, ◌-◌, ◌==◌, get_or, ltb, subst, inl, inr,
  Bool-cases, ◌≢◌,
}
use line_deno_bot.Prelude.Text.{Text, text_beq, text_beq_iff, text_eq}
use line_deno_bot.Prelude.Dict.{lookup}
use line_deno_bot.Store.{BoundedTtlMap, set, create}
use line_deno_bot.Store
use line_deno_bot.Store.Bounds.{IsValid}
use line_deno_bot.AsyncQueue
use line_deno_bot.Claims.{ClaimStore, try_claim}
use line_deno_bot.Claims.Once.{
  wins, attempted, Within, wins-attempted, try_claim-first, try_claim-absent, try_claim-options,
  try_claim-IsValid,
}
use line_deno_bot.Pipeline.{InboundEvent, InboundSource}
use line_deno_bot.Racing.{
  RacingInboundAdapter, Handed, suppressed, to_sink, to_queue, lost, offer, passed_on, start,
  add_child, remove_child, end_child, set_synchronous_sink, stop, new_racing, racing_of, racing_on,
}
use line_deno_bot.Racing.Forget.{forget, has-forget, set-forget}

pub data Call : Type 0 where
  offers : ℕ → InboundEvent → Call
  starts ends stops : Call
  adds removes : ℕ → Call
  sinks : Bool → Call

unfoldable pub step : Call → RacingInboundAdapter → RacingInboundAdapter
unfolding offer start add_child remove_child end_child set_synchronous_sink stop
step (offers now event) a = (offer now event a).0
step starts a = start a
step ends a = end_child a
step stops a = stop a
step (adds child) a = add_child child a
step (removes child) a = remove_child child a
step (sinks sink) a = set_synchronous_sink sink a

unfoldable pub run : List Call → RacingInboundAdapter → RacingInboundAdapter
unfolding step
run [] a = a
run (c ∷ calls) a = run calls (step c a)

abbrev pub is_first : Handed → Bool
is_first suppressed = false
is_first _ = true

abbrev pub is_passed : Handed → Bool
is_passed to_sink = true
is_passed to_queue = true
is_passed _ = false

-- How many copies of a message the sink or the queue gets, and how many are not suppressed.
unfoldable pub passed : Text → List Call → RacingInboundAdapter → ℕ
unfolding offer step
passed k [] a = 0
passed k (offers now event ∷ calls) a =
    let later = passed k calls (offer now event a).0 in
    if text_beq event.message_id k && is_passed (offer now event a).1 then later + 1 else later
passed k (c ∷ calls) a = passed k calls (step c a)

unfoldable firsts : Text → List Call → RacingInboundAdapter → ℕ
unfolding offer step
firsts k [] a = 0
firsts k (offers now event ∷ calls) a =
    let later = firsts k calls (offer now event a).0 in
    if text_beq event.message_id k && is_first (offer now event a).1 then later + 1 else later
firsts k (c ∷ calls) a = firsts k calls (step c a)

-- Whether there is somewhere for an event to go.
abbrev pub has_outlet : RacingInboundAdapter → Bool
has_outlet a = a.sink || (not a.out.closed && ltb (length a.out.items) a.out.max_pending)

-- Whether the first copy of a message comes while there is.
unfoldable pub is_accepted : Text → List Call → RacingInboundAdapter → Bool
unfolding offer step
is_accepted k [] a = false
is_accepted k (offers now event ∷ calls) a =
    let later = is_accepted k calls (offer now event a).0 in
    if text_beq event.message_id k then has_outlet a else later
is_accepted k (c ∷ calls) a = is_accepted k calls (step c a)

-- The offers of a run as attempts on the ids.
abbrev pub copies : List Call → List (ℕ × Text)
copies [] = []
copies (offers now event ∷ calls) = (now, event.message_id) ∷ copies calls
copies (c ∷ calls) = copies calls

passed_on-first :
    (event : InboundEvent) (a : RacingInboundAdapter)
    → (is_first (passed_on event a).1 ≡ true) × ((passed_on event a).0.seen_ids ≡ a.seen_ids)
passed_on-first event a =
    if-cases
      (λ (r : RacingInboundAdapter × Handed). (is_first r.1 ≡ true) × (r.0.seen_ids ≡ a.seen_ids))
      a.sink _ _ (λ e. (refl, refl)) (λ e. (queued (AsyncQueue.offer event a.out).1, refl))
  where
    queued : (b : Bool) → is_first (if b then to_queue else lost) ≡ true
    queued true = refl
    queued false = refl

-- An offer is a claim on the message's id.
offer-try_claim :
    (now : ℕ) (event : InboundEvent) (a : RacingInboundAdapter)
    → try_claim now event.message_id (forget a.seen_ids)
      ≡ (forget (offer now event a).0.seen_ids, is_first (offer now event a).1)
unfolding try_claim offer
offer-try_claim now event a =
    let k = event.message_id in
    let h = Store.has now k a.seen_ids in
    let tried : ClaimStore × Bool → ClaimStore × Bool =
      λ r. if r.1 then (r.0, false) else (set now k tt r.0, true) in
    let next = record a { seen_ids = set now k event.source h.0 } in
    let (first, kept) = passed_on-first event next in
    let pair : RacingInboundAdapter × Handed → ClaimStore × Bool =
      λ r. (forget r.0.seen_ids, is_first r.1) in
    let given : ClaimStore → Bool → ClaimStore × Bool = λ s b. (s, b) in
    ap tried (has-forget now k a.seen_ids)
    ∙ if-cases (λ (r : RacingInboundAdapter × Handed). tried (forget h.0, h.1) ≡ pair r) h.1 _ _
        (λ e. ap (λ b. tried (forget h.0, b)) e)
        (λ e.
          ap (λ b. tried (forget h.0, b)) e
          ∙ ap (λ s. given s true) (set-forget now k event.source h.0)
          ∙ ap (λ s. given (forget s) true) (sym kept)
          ∙ ap (given (forget (passed_on event next).0.seen_ids)) (sym first))

-- The other calls leave the ids alone.
module _ (a : RacingInboundAdapter) where
  start-seen_ids : (start a).seen_ids ≡ a.seen_ids
  unfolding start
  start-seen_ids =
      if-cases (λ (r : RacingInboundAdapter). r.seen_ids ≡ a.seen_ids) a.started a _ (λ e. refl)
        (λ e. refl)

  end_child-seen_ids : (end_child a).seen_ids ≡ a.seen_ids
  unfolding end_child
  end_child-seen_ids =
      if-cases (λ (r : RacingInboundAdapter). r.seen_ids ≡ a.seen_ids) (a.live_children - 1 == 0) _
        _ (λ e. refl) (λ e. refl)

  add_child-seen_ids : (child : ℕ) → (add_child child a).seen_ids ≡ a.seen_ids
  unfolding add_child
  add_child-seen_ids child =
      if-cases (λ (r : RacingInboundAdapter). r.seen_ids ≡ a.seen_ids) (not a.started) _ _
        (λ e. refl) (λ e. refl)

firsts-wins :
    (k : Text) (calls : List Call) (a : RacingInboundAdapter)
    → firsts k calls a ≡ wins k (copies calls) (forget a.seen_ids)
unfolding firsts wins step stop remove_child set_synchronous_sink
firsts-wins k [] a = refl
firsts-wins k (offers now event ∷ calls) a =
    let o = offer now event a in
    let same = offer-try_claim now event a in
    let one : ClaimStore × Bool → ℕ = λ r.
      let later = wins k (copies calls) r.0 in
      if text_beq event.message_id k && r.1 then later + 1 else later in
    ap (λ n. if text_beq event.message_id k && is_first o.1 then n + 1 else n)
      (firsts-wins k calls o.0)
    ∙ sym (ap one same)
firsts-wins k (starts ∷ calls) a =
    firsts-wins k calls (start a) ∙ ap (λ m. wins k (copies calls) (forget m)) (start-seen_ids a)
firsts-wins k (ends ∷ calls) a =
    firsts-wins k calls (end_child a)
    ∙ ap (λ m. wins k (copies calls) (forget m)) (end_child-seen_ids a)
firsts-wins k (stops ∷ calls) a = firsts-wins k calls (stop a)
firsts-wins k (adds child ∷ calls) a =
    firsts-wins k calls (add_child child a)
    ∙ ap (λ m. wins k (copies calls) (forget m)) (add_child-seen_ids a child)
firsts-wins k (removes child ∷ calls) a = firsts-wins k calls (remove_child child a)
firsts-wins k (sinks sink ∷ calls) a = firsts-wins k calls (set_synchronous_sink sink a)

passed-firsts :
    (k : Text) (calls : List Call) (a : RacingInboundAdapter) → passed k calls a ≤ firsts k calls a
unfolding passed firsts step
passed-firsts k [] a = omega arith
passed-firsts k (offers now event ∷ calls) a =
    let later = passed-firsts k calls (offer now event a).0 in
    let less = is_passed-is_first (offer now event a).1 in ground (arith, later, less)
  where
    is_passed-is_first : (h : Handed) → is_passed h ≡ true → is_first h ≡ true
    is_passed-is_first to_sink e = refl
    is_passed-is_first to_queue e = refl
    is_passed-is_first lost e = refl
    is_passed-is_first suppressed e = absurd (ground (arith, e))
passed-firsts k (starts ∷ calls) a = passed-firsts k calls (start a)
passed-firsts k (ends ∷ calls) a = passed-firsts k calls (end_child a)
passed-firsts k (stops ∷ calls) a = passed-firsts k calls (stop a)
passed-firsts k (adds child ∷ calls) a = passed-firsts k calls (add_child child a)
passed-firsts k (removes child ∷ calls) a = passed-firsts k calls (remove_child child a)
passed-firsts k (sinks sink ∷ calls) a = passed-firsts k calls (set_synchronous_sink sink a)

-- An event that is not suppressed is passed on when there is an outlet.
offer-has_outlet :
    (now : ℕ) (event : InboundEvent) (a : RacingInboundAdapter)
    → is_first (offer now event a).1 ≡ true
    → is_passed (offer now event a).1 ≡ has_outlet a
unfolding offer AsyncQueue.offer
offer-has_outlet now event a f = ground (arith, f)

-- A store in which nothing is known of the key, with room for the attempts.
record IsFresh (k : Text) (from until : ℕ) (tries : List (ℕ × Text)) (s : ClaimStore) : Type 0 where
  valid : IsValid s
  absent : lookup k s.entries ≡ none
  within : Within from until tries
  timely : until ≡ from + s.ttl_ms
  room : length tries ≤ s.max_entries

try_claim-IsFresh :
    (k : Text) (from until now : ℕ) (key : Text) (tries : List (ℕ × Text)) (s : ClaimStore)
    → key ≢ k
    → IsFresh k from until ((now, key) ∷ tries) s
    → IsFresh k from until tries (try_claim now key s).0
try_claim-IsFresh k from until now key tries s other h =
    let (cap, ttl) = try_claim-options now key s in
    let room = h.room in
    let timely = h.timely in
    record {
      valid = try_claim-IsValid now key s h.valid;
      absent = try_claim-absent now key s k other h.absent;
      within = h.within.1;
      timely = rw ttl timely;
      room = omega (arith, cap, room);
    }

IsFresh-wins :
    (k : Text) (from until : ℕ) (tries : List (ℕ × Text)) (s : ClaimStore)
    → IsFresh k from until tries s
    → wins k tries s ≡ (if attempted k tries then 1 else 0)
IsFresh-wins k from until tries s h =
    wins-attempted k from tries s h.valid h.absent
      (subst (λ u. Within from u tries) h.timely h.within) h.room

-- The first copy is not suppressed, and each later one is.
first_copy :
    (k : Text) (from until now : ℕ) (event : InboundEvent) (calls : List Call)
    (a : RacingInboundAdapter)
    → event.message_id ≡ k
    → IsFresh k from until ((now, event.message_id) ∷ copies calls) (forget a.seen_ids)
    → (is_first (offer now event a).1 ≡ true) × (passed k calls (offer now event a).0 ≡ 0)
unfolding wins attempted
first_copy k from until now event calls a e h =
    let key = event.message_id in
    let o = offer now event a in
    let same = offer-try_claim now event a in
    let won : is_first o.1 ≡ true =
      sym (ap (λ r. r.1) same)
      ∙ try_claim-first now key (forget a.seen_ids)
          (subst (λ j. lookup j (forget a.seen_ids).entries ≡ none) (sym e) h.absent) in
    let hit : text_beq key k ≡ true = (text_beq_iff key k).1 e in
    let one = IsFresh-wins k from until ((now, key) ∷ copies calls) (forget a.seen_ids) h in
    let count : ClaimStore × Bool → ℕ = λ r.
      let later = wins k (copies calls) r.0 in if text_beq key k && r.1 then later + 1 else later in
    let first : count (forget o.0.seen_ids, is_first o.1)
        ≡ (if text_beq key k || attempted k (copies calls) then 1 else 0) =
      sym (ap count same) ∙ one in
    let less = passed-firsts k calls o.0 in
    let all = firsts-wins k calls o.0 in (won, ground (arith, first, won, hit, less, all))

passed-is_accepted :
    (k : Text) (from until : ℕ) (calls : List Call) (a : RacingInboundAdapter)
    → IsFresh k from until (copies calls) (forget a.seen_ids)
    → passed k calls a ≡ (if is_accepted k calls a then 1 else 0)
unfolding passed is_accepted step stop remove_child set_synchronous_sink
passed-is_accepted k from until [] a h = refl
passed-is_accepted k from until (offers now event ∷ calls) a h =
    let key = event.message_id in
    let o = offer now event a in
    elim (Bool-cases (text_beq key k)) [
      | inl hit ↦
          let (won, later) =
            first_copy k from until now event calls a ((text_beq_iff key k).0 hit) h in
          rw (hit, offer-has_outlet now event a won, later) refl
      | inr miss ↦
          let other : key ≢ k = λ e. ground (arith, (text_beq_iff key k).1 e, miss) in
          let fresh =
            try_claim-IsFresh k from until now key (copies calls) (forget a.seen_ids) other h in
          rw miss (
            passed-is_accepted k from until calls o.0 (
              subst (IsFresh k from until (copies calls))
                (ap (λ r. r.0) (offer-try_claim now event a)) fresh))
    ]
passed-is_accepted k from until (starts ∷ calls) a h =
    passed-is_accepted k from until calls (start a)
      (subst (λ m. IsFresh k from until (copies calls) (forget m)) (sym (start-seen_ids a)) h)
passed-is_accepted k from until (ends ∷ calls) a h =
    passed-is_accepted k from until calls (end_child a)
      (subst (λ m. IsFresh k from until (copies calls) (forget m)) (sym (end_child-seen_ids a)) h)
passed-is_accepted k from until (stops ∷ calls) a h =
    passed-is_accepted k from until calls (stop a) h
passed-is_accepted k from until (adds child ∷ calls) a h =
    passed-is_accepted k from until calls (add_child child a) (
      subst (λ m. IsFresh k from until (copies calls) (forget m)) (sym (add_child-seen_ids a child))
        h)
passed-is_accepted k from until (removes child ∷ calls) a h =
    passed-is_accepted k from until calls (remove_child child a) h
passed-is_accepted k from until (sinks sink ∷ calls) a h =
    passed-is_accepted k from until calls (set_synchronous_sink sink a) h

-- From a new race, with no more copies than it remembers ids and all of them within the time to live of
-- the first: of the copies of a message, from whatever sources, exactly one is passed on to the sink or the
-- queue if there is a sink, or the queue is open and has room, when the first copy comes; and none otherwise.
pub new_racing-once :
    (ttl_ms max_entries : Option ℕ) (children : List ℕ) (a : RacingInboundAdapter) (k : Text)
    (from : ℕ) (calls : List Call)
    → new_racing ttl_ms max_entries children ≡ some a
    → Within from (from + get_or ttl_ms 120000) (copies calls)
    → length (copies calls) ≤ get_or max_entries 50000
    → passed k calls a ≡ (if is_accepted k calls a then 1 else 0)
unfolding new_racing create lookup
new_racing-once ttl_ms max_entries children a k from calls e w room =
    let ttl = get_or ttl_ms 120000 in
    let ceiling = get_or max_entries 50000 in
    let empty : BoundedTtlMap InboundSource = record {
      entries = [];
      ttl_ms = ttl;
      max_entries = ceiling;
    } in
    let Good : Option (BoundedTtlMap InboundSource) → Type 0 = λ o.
      racing_of children o ≡ some a → passed k calls a ≡ (if is_accepted k calls a then 1 else 0) in
    if-cases Good ((ttl == 0) || (ceiling == 0)) none (some empty)
      (λ h f. absurd (ground (arith, f)))
      (λ h f.
        let same : racing_on children empty ≡ a = ap (λ o. get_or o a) f in
        let valid : IsValid (forget empty) = record {
          distinct = tt;
          bounded = omega arith;
          positive = ground (arith, h);
        } in
        passed-is_accepted k from (from + ttl) calls a (
          subst
            (λ (b : RacingInboundAdapter).
              IsFresh k from (from + ttl) (copies calls) (forget b.seen_ids))
            same (record { valid = valid; absent = refl; within = w; timely = refl; room = room })))
      e
