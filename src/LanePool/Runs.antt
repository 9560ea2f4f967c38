-- ===== src/LanePool/Runs.antt =====
-- lane-pool.ts over a run of calls: requests that overlap in any order, background work and the close.
use line_deno_bot.Prelude.{
  ℕ, length, ◌≡◌, refl, subst, ◌∙◌, ap, Bool, true, false, ◌||◌, Option, none, some, List, [], ◌∷◌,
  map, arith, if-cases, All, any, filter, find, get_elem?, remove_at, ◌==◌,
}
use line_deno_bot.Lane.{Lane, LaneMeasurement, warm, is_routable, recycle, close}
use line_deno_bot.LanePool.{LanePool, LaneRole, is_send_role, with_lane, routable_count}
use line_deno_bot.LanePool.Pick.{
  Picked, picked, no_routable, forced_not_send, forced_not_routable, crashed, pick, pool_for,
  is_empty, forced_lane,
}
use line_deno_bot.LanePool.Events.{
  PoolRequest, begin_on, begin_request, begin_picked, end_request, fail_request, begin_maintain,
  begin_maintain_of, begin_recycled, victim, close_pool,
}
use line_deno_bot.LanePool.Served.{PickedFrom, pick_free-PickedFrom}
use line_deno_bot.LanePool.Open.{
  IsSteady, IsOpen, Unmoved-IsSteady, with_lane-IsSteady, begin_on-IsSteady, end_request-IsSteady,
  fail_request-IsSteady,
}

-- `primes` is one lane of `primeSendLanes`; a request in flight is named by its place.
pub data Call : Type 0 where
  begins : ℕ → LaneRole → LaneMeasurement → Option ℕ → Call
  primes : ℕ → Lane → Call
  ends : ℕ → ℕ → Call
  fails : ℕ → ℕ → Bool → Call
  maintains : ℕ → Call
  closes : Call

abbrev pub flown :
    List PoolRequest → LanePool → Option (LanePool × PoolRequest) → LanePool × List PoolRequest
flown rs p none = (p, rs)
flown rs p (some (p', r)) = (p', r ∷ rs)

abbrev pub landed : ℕ → LanePool → Option PoolRequest → LanePool
landed now p none = p
landed now p (some r) = end_request now r p

abbrev pub crashed_on : ℕ → Bool → LanePool → Option PoolRequest → LanePool
crashed_on now drains p none = p
crashed_on now drains p (some r) = fail_request now drains r p

unfoldable pub step : Call → LanePool × List PoolRequest → LanePool × List PoolRequest
unfolding begin_request begin_on end_request fail_request begin_maintain close_pool
step (begins now role m forced) (p, rs) = flown rs p (begin_request now role m forced p)
step (primes now lane) (p, rs) = flown rs p (some (begin_on now warm false lane p))
step (ends now i) (p, rs) = (landed now p (get_elem? rs i), remove_at i rs)
step (fails now i drains) (p, rs) = (crashed_on now drains p (get_elem? rs i), remove_at i rs)
step (maintains now) (p, rs) = flown rs p (begin_maintain now p)
step closes (p, rs) = (close_pool p, rs)

unfoldable pub run : List Call → LanePool × List PoolRequest → LanePool × List PoolRequest
unfolding step
run [] s = s
run (c ∷ calls) s = run calls (step c s)

abbrev pub is_close : Call → Bool
is_close closes = true
is_close _ = false

or_false : (b : Bool) → (b || false) ≡ b
or_false true = refl
or_false false = refl

or_true : (b : Bool) → (b || true) ≡ true
or_true true = refl
or_true false = refl

or_assoc : (a b c : Bool) → ((a || b) || c) ≡ (a || (b || c))
or_assoc true b c = refl
or_assoc false b c = refl

-- The pool that a pick leaves.
abbrev SameLanes : LanePool → Picked → Type 0
SameLanes p (picked p' lane) = (p'.lanes ≡ p.lanes) × (p'.closed ≡ p.closed)
SameLanes p _ = Unit

forced_lane-SameLanes :
    (p : LanePool) (id : ℕ) (pool : List Lane) (o : Option Lane)
    → SameLanes p (forced_lane p id pool o)
forced_lane-SameLanes p id pool none = tt
forced_lane-SameLanes p id pool (some lane) = (refl, refl)

from-SameLanes :
    (p : LanePool) (pool : List Lane) (r : Picked) → PickedFrom p pool r → SameLanes p r
from-SameLanes p pool (picked p' lane) (m, same) = (ap (λ q. q.lanes) same, ap (λ q. q.closed) same)
from-SameLanes p pool (no_routable n) f = tt
from-SameLanes p pool (forced_not_send r n) f = tt
from-SameLanes p pool (forced_not_routable n l) f = tt
from-SameLanes p pool crashed f = tt

pick-SameLanes :
    (now : ℕ) (p : LanePool) (role : LaneRole) (m : LaneMeasurement) (forced : Option ℕ)
    → SameLanes p (pick now p role m forced)
unfolding pick
pick-SameLanes now p role m none =
    if-cases (SameLanes p) (is_empty (pool_for now p role)) _ _ (λ e. tt)
      (λ e.
        from-SameLanes p (pool_for now p role) _
          (pick_free-PickedFrom now p role m (pool_for now p role) e))
pick-SameLanes now p role m (some id) =
    if-cases (SameLanes p) (is_empty (pool_for now p role)) _ _ (λ e. tt)
      (λ e.
        if-cases (SameLanes p) (is_send_role role) _ _
          (λ e'.
            forced_lane-SameLanes p id (pool_for now p role)
              (find (λ lane. lane.id == id) (pool_for now p role)))
          (λ e'. tt))

begin_request-IsSteady :
    (closed : Bool) (now : ℕ) (role : LaneRole) (m : LaneMeasurement) (forced : Option ℕ)
    (p : LanePool) (rs : List PoolRequest)
    → IsSteady closed p
    → IsSteady closed (flown rs p (begin_request now role m forced p)).0
unfolding begin_request
begin_request-IsSteady closed now role m forced p rs h =
    begun (pick now p role m forced) (pick-SameLanes now p role m forced)
  where
    begun : (r : Picked) → SameLanes p r → IsSteady closed (flown rs p (begin_picked now m r)).0
    begun (picked p' lane) same =
        begin_on-IsSteady closed now m false lane p' (Unmoved-IsSteady closed p p' same h)
    begun (no_routable n) same = h
    begun (forced_not_send r n) same = h
    begun (forced_not_routable n l) same = h
    begun crashed same = h

none_routable : (xs : List Lane) → All (IsOpen true) xs → length (filter is_routable xs) ≡ 0
none_routable [] h = refl
none_routable (x ∷ xs) h =
    if-cases (λ ys. length ys ≡ 0) (is_routable x) (x ∷ filter is_routable xs)
      (filter is_routable xs) (λ e. let k = h.0 in absurd (ground (arith, e, k)))
      (λ e. none_routable xs h.1)

victim-open :
    (closed : Bool) (now : ℕ) (p : LanePool) (lane : Lane)
    → IsSteady closed p
    → victim now p ≡ some lane
    → closed ≡ false
unfolding victim routable_count
victim-open false now p lane h e = refl
victim-open true now p lane h e =
    let k : routable_count p ≡ 0 = none_routable p.lanes h.lanes_open in
    absurd (ground (arith, k, e))

begin_maintain-IsSteady :
    (closed : Bool) (now : ℕ) (p : LanePool) (rs : List PoolRequest)
    → IsSteady closed p
    → IsSteady closed (flown rs p (begin_maintain now p)).0
unfolding begin_maintain begin_recycled recycle is_routable
begin_maintain-IsSteady closed now p rs h = begun (victim now p) refl
  where
    begun :
        (o : Option Lane)
        → victim now p ≡ o
        → IsSteady closed (flown rs p (begin_maintain_of now p o)).0
    begun none e = h
    begun (some lane) e = begin_on-IsSteady closed now warm true (recycle now lane) _ (
        Unmoved-IsSteady closed (record p { lanes = with_lane lane.id (recycle now) p.lanes }) _
          (refl, refl)
          (with_lane-IsSteady closed p lane.id (recycle now)
            (λ l k. rw (victim-open closed now p lane h e) refl) h))

close_pool-IsSteady :
    (closed : Bool) (p : LanePool) → IsSteady closed p → IsSteady true (close_pool p)
unfolding close_pool close is_routable
close_pool-IsSteady closed p h = record {
  is_closed = refl;
  lanes_open = all_dead p.lanes;
  has_lane = same p.lanes ∙ h.has_lane;
}
  where
    all_dead : (xs : List Lane) → All (IsOpen true) (map close xs)
    all_dead [] = tt
    all_dead (x ∷ xs) = (refl, all_dead xs)

    same : (xs : List Lane) → is_empty (map close xs) ≡ is_empty xs
    same [] = refl
    same (x ∷ xs) = refl

step-IsSteady :
    (closed : Bool) (c : Call) (s : LanePool × List PoolRequest)
    → IsSteady closed s.0
    → IsSteady (closed || is_close c) (step c s).0
unfolding step
step-IsSteady closed (begins now role m forced) (p, rs) h =
    rw (or_false closed) (begin_request-IsSteady closed now role m forced p rs h)
step-IsSteady closed (primes now lane) (p, rs) h =
    rw (or_false closed) (begin_on-IsSteady closed now warm false lane p h)
step-IsSteady closed (ends now i) (p, rs) h =
    rw (or_false closed) (landed-IsSteady (get_elem? rs i))
  where
    landed-IsSteady : (o : Option PoolRequest) → IsSteady closed (landed now p o)
    landed-IsSteady none = h
    landed-IsSteady (some r) = end_request-IsSteady closed now r p h
step-IsSteady closed (fails now i drains) (p, rs) h =
    rw (or_false closed) (crashed-IsSteady (get_elem? rs i))
  where
    crashed-IsSteady : (o : Option PoolRequest) → IsSteady closed (crashed_on now drains p o)
    crashed-IsSteady none = h
    crashed-IsSteady (some r) = fail_request-IsSteady closed now drains r p h
step-IsSteady closed (maintains now) (p, rs) h =
    rw (or_false closed) (begin_maintain-IsSteady closed now p rs h)
step-IsSteady closed closes (p, rs) h = rw (or_true closed) (close_pool-IsSteady closed p h)

pub run-IsSteady :
    (closed : Bool) (calls : List Call) (s : LanePool × List PoolRequest)
    → IsSteady closed s.0
    → IsSteady (closed || any is_close calls) (run calls s).0
unfolding run
run-IsSteady closed [] s h = rw (or_false closed) h
run-IsSteady closed (c ∷ calls) s h =
    subst (λ b. IsSteady b (run calls (step c s)).0)
      (or_assoc closed (is_close c) (any is_close calls))
      (run-IsSteady (closed || is_close c) calls (step c s) (step-IsSteady closed c s h))
