-- ===== src/Users/Changes.antt =====
-- users-store.ts: what a change of one user does to the others and to the admins.
use line_deno_bot.Prelude.{
  ◌≡◌, refl, sym, ap, subst, ◌∙◌, Bool, true, false, not, ◌&&◌, ◌||◌, some, inl, inr, List, [], ◌∷◌,
  arith, if◌then◌else◌, filter, find, any, All, All-In, In, Bool-cases, get_or,
}
use line_deno_bot.Prelude.Text.{Text}
use line_deno_bot.Users.{UserRecord, is_admin, has_id, update, has_another_admin}
use line_deno_bot.Users.Sound.{clash, IsApart, HasAdmin, clash_comm, others}

abbrev pub is_admin_user : UserRecord → Bool
is_admin_user u = is_admin u.role

pub any-In :
    (p : UserRecord → Bool) (users : List UserRecord) (u : UserRecord)
    → any p users ≡ false
    → In u users
    → p u ≡ false
any-In p [] u e m = absurd m
any-In p (v ∷ users) u e (inl i) = rw i (ground (arith, e))
any-In p (v ∷ users) u e (inr m) = any-In p users u (ground (arith, e)) m

-- A change of one user, as `any` sees it, by the user that `find` gives.
pub update-any :
    (p : UserRecord → Bool) (id : Text) (f : UserRecord → UserRecord) (users : List UserRecord)
    (c : UserRecord)
    → find (has_id id) users ≡ some c
    → p (f c) ≡ p c
    → any p (update id f users) ≡ any p users
unfolding update
update-any p id f [] c e k = absurd (ground (arith, e))
update-any p id f (u ∷ users) c e k = elim (Bool-cases (has_id id u)) [
  | inl h ↦
      let hit : some u ≡ some c =
        subst (λ b. (if b then some u else find (has_id id) users) ≡ some c) h e in
      let same : c ≡ u = ap (λ o. get_or o c) (sym hit) in
      let k' : p (f u) ≡ p u = subst (λ v. p (f v) ≡ p v) same k in
      rw h (ap (λ b. b || any p users) k')
  | inr h ↦
      let miss : find (has_id id) users ≡ some c =
        subst (λ b. (if b then some u else find (has_id id) users) ≡ some c) h e in
      rw h (ap (λ b. p u || b) (update-any p id f users c miss k))
]

pub update-hit :
    (p : UserRecord → Bool) (id : Text) (f : UserRecord → UserRecord) (users : List UserRecord)
    (c : UserRecord)
    → find (has_id id) users ≡ some c
    → ((u : UserRecord) → p (f u) ≡ true)
    → any p (update id f users) ≡ true
unfolding update
update-hit p id f [] c e k = absurd (ground (arith, e))
update-hit p id f (u ∷ users) c e k = elim (Bool-cases (has_id id u)) [
  | inl h ↦ rw (h, k u) refl
  | inr h ↦
      let miss : find (has_id id) users ≡ some c =
        subst (λ b. (if b then some u else find (has_id id) users) ≡ some c) h e in
      rw (h, update-hit p id f users c miss k) (or_true (p u))
]
  where
    or_true : (b : Bool) → (b || true) ≡ true
    or_true true = refl
    or_true false = refl

-- The admins of another id are not touched.
pub update-has_another_admin :
    (id : Text) (f : UserRecord → UserRecord) (users : List UserRecord)
    → ((u : UserRecord) → (f u).user_id ≡ u.user_id)
    → has_another_admin id users ≡ true
    → HasAdmin (update id f users)
unfolding update has_another_admin
update-has_another_admin id f [] same e = absurd (ground (arith, e))
update-has_another_admin id f (u ∷ users) same e = elim (Bool-cases (has_id id u)) [
  | inl h ↦ rw h (admins (f u) users (ground (arith, h, e)))
  | inr h ↦ elim (Bool-cases (is_admin u.role)) [
    | inl a ↦ rw (h, a) refl
    | inr a ↦ rw (h, a) (update-has_another_admin id f users same (ground (arith, h, a, e)))
  ]
]
  where
    admins :
        (v : UserRecord) (users : List UserRecord)
        → any (λ u. is_admin u.role && not (has_id id u)) users ≡ true
        → any is_admin_user (v ∷ users) ≡ true
    admins v [] e = absurd (ground (arith, e))
    admins v (u ∷ users) e = ground (arith, e, admins v users)

-- With ids that are apart, the only user of an id is the one that is found.
pub another_lem :
    (lower : Text → Text) (id : Text) (users : List UserRecord) (c : UserRecord)
    → IsApart lower users
    → find (has_id id) users ≡ some c
    → is_admin c.role ≡ false
    → any is_admin_user users ≡ has_another_admin id users
unfolding has_another_admin
another_lem lower id [] c h e k = absurd (ground (arith, e))
another_lem lower id (u ∷ users) c h e k = elim (Bool-cases (has_id id u)) [
  | inl i ↦
      let hit : some u ≡ some c =
        subst (λ b. (if b then some u else find (has_id id) users) ≡ some c) i e in
      let k' : is_admin u.role ≡ false = ap (λ o. is_admin (get_or o c).role) hit ∙ k in
      rw (i, k') (apart users (others lower id (λ v. v) u users i h.0))
  | inr i ↦
      let miss : find (has_id id) users ≡ some c =
        subst (λ b. (if b then some u else find (has_id id) users) ≡ some c) i e in
      let rest = another_lem lower id users c h.1 miss k in rw i (ground (arith, rest))
]
  where
    apart :
        (vs : List UserRecord)
        → All (λ v. has_id id v ≡ false) vs
        → any is_admin_user vs ≡ any (λ v. is_admin v.role && not (has_id id v)) vs
    apart [] a = refl
    apart (v ∷ vs) a = let off = a.0 in ground (arith, off, apart vs a.1)

pub any-filter :
    (p q : UserRecord → Bool) (users : List UserRecord)
    → any p (filter q users) ≡ any (λ u. p u && q u) users
any-filter p q [] = refl
any-filter p q (u ∷ users) = ground (arith, any-filter p q users)

pub apart-In :
    (lower : Text → Text) (id : Text) (users : List UserRecord) (u v : UserRecord)
    → IsApart lower users
    → In u users
    → In v users
    → has_id id u ≡ true
    → has_id id v ≡ false
    → clash lower u v ≡ false
apart-In lower id [] u v h m n i j = absurd m
apart-In lower id (w ∷ users) u v h (inl a) (inl b) i j =
    let same : has_id id u ≡ has_id id v = ap (has_id id) (a ∙ sym b) in
    absurd (ground (arith, same, i, j))
apart-In lower id (w ∷ users) u v h (inl a) (inr n) i j =
    subst (λ x. clash lower x v ≡ false) (sym a)
      (All-In (λ x. clash lower w x ≡ false) v users h.0 n)
apart-In lower id (w ∷ users) u v h (inr m) (inl b) i j =
    clash_comm lower u v
    ∙ subst (λ x. clash lower x u ≡ false) (sym b)
        (All-In (λ x. clash lower w x ≡ false) u users h.0 m)
apart-In lower id (w ∷ users) u v h (inr m) (inr n) i j = apart-In lower id users u v h.1 m n i j
