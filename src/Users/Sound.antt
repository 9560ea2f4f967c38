-- ===== src/Users/Sound.antt =====
-- users-store.ts: lists of users without a clash, and what adding, changing and removing one keeps.
use line_deno_bot.Prelude.{
  ◌≡◌, refl, ◌∙◌, Bool, true, false, ◌||◌, Option, none, some, inl, inr, List, [], ◌∷◌, ◌++◌, arith,
  if-cases, filter, any, All, In,
}
use line_deno_bot.Prelude.Text.{Text, text_beq, text_beq_iff}
use line_deno_bot.Users.{UserRecord, is_admin, has_id, update, same_username}

-- Two users that share an id, a name or a bot.
abbrev pub shares_bot : Option Text → Option Text → Bool
shares_bot none b = false
shares_bot (some a) none = false
shares_bot (some a) (some b) = text_beq a b

abbrev pub clash : (Text → Text) → UserRecord → UserRecord → Bool
clash lower u v =
    text_beq u.user_id v.user_id
    || same_username lower u.username v.username
    || shares_bot u.bot_id v.bot_id

abbrev pub IsApart : (Text → Text) → List UserRecord → Type 0
IsApart lower [] = Unit
IsApart lower (u ∷ users) = All (λ v. clash lower u v ≡ false) users × IsApart lower users

abbrev pub HasAdmin : List UserRecord → Type 0
HasAdmin users = any (λ u. is_admin u.role) users ≡ true

pub text_beq_comm : (a b : Text) → text_beq a b ≡ text_beq b a
text_beq_comm a b = ground (arith, text_beq_iff a b, text_beq_iff b a)

shares_bot_comm : (a b : Option Text) → shares_bot a b ≡ shares_bot b a
shares_bot_comm none none = refl
shares_bot_comm none (some b) = refl
shares_bot_comm (some a) none = refl
shares_bot_comm (some a) (some b) = text_beq_comm a b

-- A property of the members of a list.
pub tabulate :
    {P : UserRecord → Type 0} (users : List UserRecord)
    → ((u : UserRecord) → In u users → P u)
    → All P users
tabulate [] k = tt
tabulate (u ∷ users) k = (k u (inl refl), tabulate users (λ v m. k v (inr m)))

module _ (lower : Text → Text) where
  pub clash_comm : (u v : UserRecord) → clash lower u v ≡ clash lower v u
  clash_comm u v =
      rw
        (
          text_beq_comm u.user_id v.user_id,
          text_beq_comm (lower u.username) (lower v.username),
          shares_bot_comm u.bot_id v.bot_id,
        )
        refl

  pub append-IsApart :
      (users : List UserRecord) (new : UserRecord)
      → IsApart lower users
      → All (λ u. clash lower u new ≡ false) users
      → IsApart lower (users ++ new ∷ [])
  append-IsApart [] new h k = (tt, tt)
  append-IsApart (u ∷ users) new h k = (both users h.0, append-IsApart users new h.1 k.1)
    where
      both :
          (vs : List UserRecord)
          → All (λ v. clash lower u v ≡ false) vs
          → All (λ v. clash lower u v ≡ false) (vs ++ new ∷ [])
      both [] a = (k.0, tt)
      both (v ∷ vs) a = (a.0, both vs a.1)

  All-filter :
      (P : UserRecord → Type 0) (f : UserRecord → Bool) (users : List UserRecord)
      → All P users
      → All P (filter f users)
  All-filter P f [] h = tt
  All-filter P f (u ∷ users) h =
      if-cases (All P) (f u) (u ∷ filter f users) (filter f users)
        (λ e. (h.0, All-filter P f users h.1)) (λ e. All-filter P f users h.1)

  pub filter-IsApart :
      (f : UserRecord → Bool) (users : List UserRecord)
      → IsApart lower users
      → IsApart lower (filter f users)
  filter-IsApart f [] h = tt
  filter-IsApart f (u ∷ users) h =
      if-cases (IsApart lower) (f u) (u ∷ filter f users) (filter f users)
        (λ e. (All-filter (λ v. clash lower u v ≡ false) f users h.0, filter-IsApart f users h.1))
        (λ e. filter-IsApart f users h.1)

  -- A change of the first user of an id that stays apart from every user of another id.
  module _ (id : Text) (f : UserRecord → UserRecord) where
    abbrev pub StaysApart : List UserRecord → UserRecord → Type 0
    StaysApart users u =
        has_id id u ≡ true → All (λ v. has_id id v ≡ false → clash lower (f u) v ≡ false) users

    pub others :
        (u : UserRecord) (users : List UserRecord)
        → has_id id u ≡ true
        → All (λ v. clash lower u v ≡ false) users
        → All (λ v. has_id id v ≡ false) users
    others u [] e h = tt
    others u (v ∷ users) e h =
        let apart = h.0 in
        (
          ground (
            arith,
            e,
            apart,
            text_beq_iff u.user_id id,
            text_beq_iff v.user_id id,
            text_beq_iff u.user_id v.user_id,
          ),
          others u users e h.1,
        )

    together :
        (u : UserRecord) (users : List UserRecord)
        → All (λ v. has_id id v ≡ false) users
        → All (λ v. has_id id v ≡ false → clash lower (f u) v ≡ false) users
        → All (λ v. clash lower (f u) v ≡ false) users
    together u [] a b = tt
    together u (v ∷ users) a b = (b.0 a.0, together u users a.1 b.1)

    -- The users before the changed one.
    before :
        (u : UserRecord) (users : List UserRecord)
        → has_id id u ≡ false
        → All (λ v. clash lower u v ≡ false) users
        → All (λ v. has_id id v ≡ true → clash lower (f v) u ≡ false) users
        → All (λ v. clash lower u v ≡ false) (update id f users)
    unfolding update
    before u [] e a b = tt
    before u (v ∷ users) e a b =
        if-cases (All (λ w. clash lower u w ≡ false)) (has_id id v) (f v ∷ users)
          (v ∷ update id f users) (λ h. (clash_comm u (f v) ∙ b.0 h, a.1))
          (λ h. (a.0, before u users e a.1 b.1))

    pub update-IsApart :
        (users : List UserRecord)
        → IsApart lower users
        → ((u v : UserRecord)
            → In u users
            → In v users
            → has_id id u ≡ true
            → has_id id v ≡ false
            → clash lower (f u) v ≡ false)
        → IsApart lower (update id f users)
    unfolding update
    update-IsApart [] h k = tt
    update-IsApart (u ∷ users) h k =
        if-cases (IsApart lower) (has_id id u) (f u ∷ users) (u ∷ update id f users)
          (λ e. (
            together u users (others u users e h.0)
                (tabulate users (λ v m g. k u v (inl refl) (inr m) e g)),
            h.1,
          ))
          (λ e. (
            before u users e h.0 (tabulate users (λ v m g. k v u (inr m) (inl refl) g e)),
            update-IsApart users h.1 (λ a b m n. k a b (inr m) (inr n)),
          ))
