-- ===== src/LanePool/Reserve.antt =====
-- lane-pool.ts: which lanes `#pick` considers for a request, and that it finds one among them.
use line_deno_bot.Prelude.{
  ℕ, ◌≡◌, ◌⊎◌, subst, refl, sym, ◌∙◌, ap, Bool, true, false, not, ◌&&◌, inl, inr, List, [], ◌∷◌,
  arith, if◌then◌else◌, if-cases, In, filter, any, ◌==◌,
}
use line_deno_bot.Lane.{Lane, is_routable}
use line_deno_bot.LanePool.{
  LanePool, LaneRole, is_send_role, is_available, candidates, BandRole, send_band, poll_band,
  shared_band, role_for,
}
use line_deno_bot.LanePool.Pick.{is_empty, or_all, Picked, picked, no_routable, pool_for}
use line_deno_bot.LanePool.Choice.{Within, filter-Within, filter-In, or_all-Within, IsRepinned}
use line_deno_bot.LanePool.Reply.{filter-is_empty, any-filter}

abbrev pub suits : LaneRole → BandRole → Bool
suits role shared_band = true
suits role send_band = is_send_role role
suits role poll_band = not (is_send_role role)

abbrev pub in_band : LanePool → LaneRole → Lane → Bool
in_band p role lane = suits role (role_for p lane.id)

-- A lane that is routable, out of its cooldown and in the band of the role.
unfoldable pub serves : ℕ → LanePool → LaneRole → Lane → Bool
serves now p role lane = (is_routable lane && is_available now p lane.id) && in_band p role lane

-- The specification of `#pick` without a forced lane.
abbrev pub IsServed : ℕ → LanePool → LaneRole → Picked → Type 0
IsServed now p role (picked p' lane) =
    In lane p.lanes
    × (is_routable lane ≡ true)
    × (any (serves now p role) p.lanes ≡ true → serves now p role lane ≡ true)
    × IsRepinned p p'
IsServed now p role (no_routable n) = any is_routable p.lanes ≡ false
IsServed now p role _ = ⊥

filter-cong :
    (f g : Lane → Bool) (xs : List Lane) → ((x : Lane) → f x ≡ g x) → filter f xs ≡ filter g xs
filter-cong f g [] h = refl
filter-cong f g (x ∷ xs) h = rw (h x) (ap (λ l. if g x then x ∷ l else l) (filter-cong f g xs h))

filter-true : (f : Lane → Bool) (xs : List Lane) → ((x : Lane) → f x ≡ true) → xs ≡ filter f xs
filter-true f [] h = refl
filter-true f (x ∷ xs) h = rw (h x) (ap (λ l. x ∷ l) (filter-true f xs h))

candidates-in_band :
    (p : LanePool) (role : LaneRole) (lanes : List Lane)
    → candidates p role lanes ≡ filter (in_band p role) lanes
unfolding candidates role_for
candidates-in_band p role lanes =
    if-cases (λ xs. xs ≡ filter (in_band p role) lanes) (p.opts.send_reserved_lanes == 0) lanes _
      (λ e. filter-true (in_band p role) lanes (λ x. rw e refl))
      (λ e. filter-cong _ (in_band p role) lanes (λ x. ground (arith, e)))

-- The pool of a request, in terms of the lanes that serve it.
abbrev usable : ℕ → LanePool → List Lane
usable now p = filter (λ lane. is_routable lane && is_available now p lane.id) p.lanes

abbrev routable : ℕ → LanePool → List Lane
routable now p = or_all (usable now p) (filter is_routable p.lanes)

pool_for_lem :
    (now : ℕ) (p : LanePool) (role : LaneRole)
    → pool_for now p role ≡ or_all (filter (in_band p role) (routable now p)) (routable now p)
unfolding pool_for
pool_for_lem now p role =
    ap (λ xs. or_all xs (routable now p)) (candidates-in_band p role (routable now p))

or_all-In : (xs ys : List Lane) (lane : Lane) → In lane (or_all xs ys) → In lane xs ⊎ In lane ys
or_all-In [] ys lane m = inr m
or_all-In (x ∷ xs) ys lane m = inl m

pub is_empty-In : (xs : List Lane) (lane : Lane) → In lane xs → is_empty xs ≡ false
is_empty-In [] lane m = absurd m
is_empty-In (x ∷ xs) lane m = refl

pub or_all_full : (xs ys : List Lane) → is_empty xs ≡ false → or_all xs ys ≡ xs
or_all_full [] ys e = absurd (ground (arith, e))
or_all_full (x ∷ xs) ys e = refl

pub nonempty_Within : (xs ys : List Lane) → is_empty xs ≡ false → Within xs ys → is_empty ys ≡ false
nonempty_Within [] ys e w = absurd (ground (arith, e))
nonempty_Within (x ∷ xs) ys e w = is_empty-In ys x (w x (inl refl))

pub or_all-absorbs : (xs ys : List Lane) → Within xs ys → is_empty (or_all xs ys) ≡ is_empty ys
or_all-absorbs [] ys w = refl
or_all-absorbs (x ∷ xs) ys w = sym (nonempty_Within (x ∷ xs) ys refl w)

pub filter-all :
    (f : Lane → Bool) (xs : List Lane) (lane : Lane)
    → In lane xs
    → f lane ≡ true
    → In lane (filter f xs)
filter-all f [] lane m h = absurd m
filter-all f (x ∷ xs) lane (inl e) h = rw (sym e, h) (inl refl)
filter-all f (x ∷ xs) lane (inr m) h =
    if-cases (In lane) (f x) (x ∷ filter f xs) (filter f xs) (λ e. inr (filter-all f xs lane m h))
      (λ e. filter-all f xs lane m h)

routable-In :
    (now : ℕ) (p : LanePool) (lane : Lane)
    → In lane (routable now p)
    → In lane p.lanes × (is_routable lane ≡ true)
routable-In now p lane m = elim (or_all-In (usable now p) (filter is_routable p.lanes) lane m) [
  | inl k ↦ (
    filter-Within _ p.lanes lane k,
    let e = filter-In (λ l. is_routable l && is_available now p l.id) p.lanes lane k in
        ground (arith, e),
  )
  | inr k ↦ (filter-Within is_routable p.lanes lane k, filter-In is_routable p.lanes lane k)
]

pub pool_for-In :
    (now : ℕ) (p : LanePool) (role : LaneRole) (lane : Lane)
    → In lane (pool_for now p role)
    → In lane p.lanes × (is_routable lane ≡ true)
pool_for-In now p role lane m =
    let r = routable now p in
    let m' : In lane (or_all (filter (in_band p role) r) r) =
      rw (sym (pool_for_lem now p role)) m in
    routable-In now p lane
      (or_all-Within (filter (in_band p role) r) r r (filter-Within _ r) (λ l k. k) lane m')

-- When some lane serves the request, all the lanes of its pool do.
pub pool_for-serves :
    (now : ℕ) (p : LanePool) (role : LaneRole) (lane : Lane)
    → any (serves now p role) p.lanes ≡ true
    → In lane (pool_for now p role)
    → serves now p role lane ≡ true
unfolding serves
pool_for-serves now p role lane some_serves m =
    let u = usable now p in
    let band = filter (in_band p role) in
    let both : is_empty (band u) ≡ false =
      rw
        (
          filter-is_empty (in_band p role) u,
          any-filter (λ l. is_routable l && is_available now p l.id) (in_band p role) p.lanes,
        )
        (rw some_serves refl) in
    let full : is_empty u ≡ false = nonempty_Within (band u) u both (filter-Within _ u) in
    let m' : In lane (band u) =
      subst (In lane)
        (pool_for_lem now p role
          ∙ ap (λ xs. or_all (band xs) xs) (or_all_full u (filter is_routable p.lanes) full)
          ∙ or_all_full (band u) u both)
        m in
    let e =
      filter-In (λ l. is_routable l && is_available now p l.id) p.lanes lane
        (filter-Within _ u lane m') in
    rw (e, filter-In (in_band p role) u lane m') refl

pub pool_for-is_empty :
    (now : ℕ) (p : LanePool) (role : LaneRole)
    → is_empty (pool_for now p role) ≡ not (any is_routable p.lanes)
pool_for-is_empty now p role =
    let r = filter is_routable p.lanes in
    let u = usable now p in
    let w : Within u r = λ l m.
      let e = filter-In (λ x. is_routable x && is_available now p x.id) p.lanes l m in
      filter-all is_routable p.lanes l (filter-Within _ p.lanes l m) (ground (arith, e)) in
    rw (pool_for_lem now p role) (
      or_all-absorbs (filter (in_band p role) (or_all u r)) (or_all u r)
        (filter-Within _ (or_all u r))
      ∙ or_all-absorbs u r w
      ∙ filter-is_empty is_routable p.lanes)
