-- ===== src/Users/Kept.antt =====
-- users-store.ts over a run of transactions: the accounts stay apart, and one of them is an admin.
use line_deno_bot.Prelude.{
  ℕ, ◌≡◌, refl, sym, ◌∙◌, false, not, ◌&&◌, Option, none, some, inl, inr, List, [], ◌∷◌, ◌++◌,
  arith, if◌then◌else◌, if-cases, filter, find, any, All, Bool-cases, get_or, length, ltb, ◌==◌,
}
use line_deno_bot.Prelude.Text.{Text, trim}
use line_deno_bot.Users.{
  UserRole, UserRecord, UsersFile, CreateUserInput, Outcome, returned, threw, username_required,
  password_too_short, username_taken, bot_taken, last_admin, user, is_admin, has_id, find_by_id,
  update, found_or_threw, has_another_admin, set_role, is_bot, is_owned, set_bot_id, remove,
  same_username, create, set_password, seed,
}
use line_deno_bot.Users.Sound.{
  shares_bot, clash, IsApart, HasAdmin, append-IsApart, filter-IsApart, update-IsApart,
  text_beq_comm,
}
use line_deno_bot.Users.Changes.{
  is_admin_user, any-In, update-any, update-hit, update-has_another_admin, another_lem, any-filter,
  apart-In,
}

another_any :
    (id : Text) (users : List UserRecord)
    → has_another_admin id users ≡ any (λ u. is_admin u.role && not (has_id id u)) users
unfolding has_another_admin
another_any id users = refl

module _ (lower hash_password : Text → Text) where
  -- No two accounts share an id, a name up to case, or a bot, and there is an admin.
  pub record IsStore (file : UsersFile) : Type 0 where
    pub apart : IsApart lower file.users
    pub has_admin : HasAdmin file.users

  abbrev pub IfReturned : {A : Type 0} → Outcome A → Type 0
  IfReturned (returned file a) = IsStore file
  IfReturned (threw e) = Unit

  -- A change of one user that leaves the id, the name and the bot alone.
  plain-IsApart :
      (id : Text) (f : UserRecord → UserRecord) (users : List UserRecord)
      → ((u v : UserRecord) → clash lower (f u) v ≡ clash lower u v)
      → IsApart lower users
      → IsApart lower (update id f users)
  plain-IsApart id f users same h =
      update-IsApart lower id f users h
        (λ u v m n i j. same u v ∙ apart-In lower id users u v h m n i j)

  pub set_password-IsStore :
      (now : ℕ) (id password : Text) (file : UsersFile)
      → IsStore file
      → IfReturned (set_password hash_password now id password file)
  unfolding set_password find_by_id
  set_password-IsStore now id password file h =
      if-cases IfReturned (ltb (length password) 6) (threw password_too_short) _ (λ e. tt)
        (λ e. changed (find (has_id id) file.users) refl)
    where
      f : UserRecord → UserRecord
      f u = record u { password_hash = hash_password password; updated_at = now }

      changed :
          (o : Option UserRecord)
          → find (has_id id) file.users ≡ o
          → IfReturned
              (found_or_threw o (returned (record file { users = update id f file.users }) tt))
      changed none e = tt
      changed (some c) e = record {
        apart = plain-IsApart id f file.users (λ u v. refl) h.apart;
        has_admin = update-any is_admin_user id f file.users c e refl ∙ h.has_admin;
      }

  pub set_role-IsStore :
      (now : ℕ) (id : Text) (role : UserRole) (file : UsersFile)
      → IsStore file
      → IfReturned (set_role now id role file)
  unfolding set_role find_by_id
  set_role-IsStore now id role file h = changed (find (has_id id) file.users) refl
    where
      f : UserRecord → UserRecord
      f u = record u { role = role; updated_at = now }

      admin_left :
          (c : UserRecord)
          → find (has_id id) file.users ≡ some c
          → (is_admin c.role && not (is_admin role) && not (has_another_admin id file.users))
            ≡ false
          → HasAdmin (update id f file.users)
      admin_left c e g = elim (Bool-cases (is_admin role)) [
        | inl r ↦ update-hit is_admin_user id f file.users c e (λ u. r)
        | inr r ↦ elim (Bool-cases (is_admin c.role)) [
          | inl a ↦ update-has_another_admin id f file.users (λ u. refl) (ground (arith, g, r, a))
          | inr a ↦ update-any is_admin_user id f file.users c e (r ∙ sym a) ∙ h.has_admin
        ]
      ]

      changed :
          (o : Option UserRecord)
          → find (has_id id) file.users ≡ o
          → IfReturned (set_role now id role file)
      changed none e = rw e tt
      changed (some c) e = rw e (
          if-cases IfReturned
            (is_admin c.role && not (is_admin role) && not (has_another_admin id file.users))
            (threw last_admin) (returned (record file { users = update id f file.users }) tt)
            (λ g. tt)
            (λ g. record {
              apart = plain-IsApart id f file.users (λ u v. refl) h.apart;
              has_admin = admin_left c e g;
            }))

  pub set_bot_id-IsStore :
      (now : ℕ) (id bot : Text) (file : UsersFile)
      → IsStore file
      → IfReturned (set_bot_id now id bot file)
  unfolding set_bot_id find_by_id is_owned
  set_bot_id-IsStore now id bot file h = changed (find (has_id id) file.users) refl
    where
      f : UserRecord → UserRecord
      f u = record u { bot_id = some bot; updated_at = now }

      free :
          (v : UserRecord)
          → (is_bot v.bot_id bot && not (has_id id v)) ≡ false
          → has_id id v ≡ false
          → shares_bot (some bot) v.bot_id ≡ false
      free v g j = bots v.bot_id (ground (arith, g, j))
        where
          bots : (b : Option Text) → is_bot b bot ≡ false → shares_bot (some bot) b ≡ false
          bots none k = refl
          bots (some b) k = text_beq_comm bot b ∙ k

      changed :
          (o : Option UserRecord)
          → find (has_id id) file.users ≡ o
          → IfReturned (
              found_or_threw o (
                if is_owned id bot file.users
                then threw bot_taken
                else returned (record file { users = update id f file.users }) tt))
      changed none e = tt
      changed (some c) e =
          if-cases IfReturned (is_owned id bot file.users) (threw bot_taken)
            (returned (record file { users = update id f file.users }) tt) (λ g. tt)
            (λ g. record {
              apart = update-IsApart lower id f file.users h.apart (λ u v m n i j.
                  let a = apart-In lower id file.users u v h.apart m n i j in
                  let b =
                    free v (any-In (λ w. is_bot w.bot_id bot && not (has_id id w)) file.users v g n)
                      j in
                  ground (arith, a, b));
              has_admin = update-any is_admin_user id f file.users c e refl ∙ h.has_admin;
            })

  pub remove-IsStore : (id : Text) (file : UsersFile) → IsStore file → IfReturned (remove id file)
  unfolding remove find_by_id
  remove-IsStore id file h = changed (find (has_id id) file.users) refl
    where
      admin_left :
          (c : UserRecord)
          → find (has_id id) file.users ≡ some c
          → (is_admin c.role && not (has_another_admin id file.users)) ≡ false
          → HasAdmin (filter (λ u. not (has_id id u)) file.users)
      admin_left c e g =
          any-filter is_admin_user (λ u. not (has_id id u)) file.users
          ∙ elim (Bool-cases (is_admin c.role)) [
            | inl a ↦ sym (another_any id file.users) ∙ ground (arith, g, a)
            | inr a ↦
                sym (another_any id file.users)
                ∙ sym (another_lem lower id file.users c h.apart e a)
                ∙ h.has_admin
          ]

      changed :
          (o : Option UserRecord) → find (has_id id) file.users ≡ o → IfReturned (remove id file)
      changed none e = rw e tt
      changed (some c) e = rw e (
          if-cases IfReturned (is_admin c.role && not (has_another_admin id file.users))
            (threw last_admin)
            (returned (record file { users = filter (λ u. not (has_id id u)) file.users }) tt)
            (λ g. tt)
            (λ g. record {
              apart = filter-IsApart lower (λ u. not (has_id id u)) file.users h.apart;
              has_admin = admin_left c e g;
            }))

  -- The new user has an id of its own.
  pub create-IsStore :
      (now : ℕ) (id : Text) (input : CreateUserInput) (file : UsersFile)
      → any (has_id id) file.users ≡ false
      → IsStore file
      → IfReturned (create lower hash_password now id input file)
  unfolding create
  create-IsStore now id input file fresh h =
      let username = trim input.username in
      let new : UserRecord = record {
        user_id = id;
        username = username;
        password_hash = hash_password input.password;
        role = get_or input.role user;
        display_name = input.display_name;
        bot_id = none;
        created_at = now;
        updated_at = now;
      } in
      if-cases IfReturned (length username == 0) (threw username_required) _ (λ e. tt)
        (λ e.
          if-cases IfReturned (ltb (length input.password) 6) (threw password_too_short) _
            (λ e1. tt)
            (λ e1.
              if-cases IfReturned (any (λ u. same_username lower u.username username) file.users)
                (threw username_taken)
                (returned (record file { users = file.users ++ new ∷ [] }) new) (λ e2. tt)
                (λ e2. record {
                  apart =
                      append-IsApart lower file.users new h.apart
                        (free new file.users fresh e2 refl refl refl);
                  has_admin = more file.users new h.has_admin;
                })))
    where
      no_bot : (b : Option Text) → shares_bot b none ≡ false
      no_bot none = refl
      no_bot (some b) = refl

      free :
          (new : UserRecord) (us : List UserRecord)
          → any (has_id id) us ≡ false
          → any (λ u. same_username lower u.username (trim input.username)) us ≡ false
          → new.user_id ≡ id
          → new.username ≡ trim input.username
          → new.bot_id ≡ none
          → All (λ u. clash lower u new ≡ false) us
      free new [] a b i n o = tt
      free new (u ∷ us) a b i n o = (
        rw (i, n, o, no_bot u.bot_id) (ground (arith, a, b)),
        free new us (ground (arith, a)) (ground (arith, b)) i n o,
      )

      more : (us : List UserRecord) (new : UserRecord) → HasAdmin us → HasAdmin (us ++ new ∷ [])
      more [] new k = absurd (ground (arith, k))
      more (u ∷ us) new k = elim (Bool-cases (is_admin u.role)) [
        | inl a ↦ rw a refl
        | inr a ↦ rw a (more us new (ground (arith, k, a)))
      ]

  pub seed-IsStore : (now : ℕ) (id secret : Text) → IsStore (seed hash_password now id secret)
  unfolding seed
  seed-IsStore now id secret = record { apart = (tt, tt); has_admin = refl }
