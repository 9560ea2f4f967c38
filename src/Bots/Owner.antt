-- ===== src/Bots/Owner.antt =====
-- bot-registry.ts: the bot that a person reaches is theirs and nobody else's.
use line_deno_bot.Prelude.{
  ℕ, ◌≡◌, refl, sym, ap, subst, ◌∙◌, Bool, true, false, not, ◌&&◌, ◌||◌, Option, none, some, inl,
  inr, List, [], ◌∷◌, arith, if◌then◌else◌, if-cases, find, any, In, Bool-cases, get_or,
}
use line_deno_bot.Prelude.Text.{Text, text_beq_iff}
use line_deno_bot.Users.{
  UserRecord, UsersFile, returned, threw, bot_taken, has_id, is_bot, is_owned, find_by_id,
  found_or_threw, set_bot_id, update,
}
use line_deno_bot.Users.Sound.{IsApart, shares_bot, text_beq_comm}
use line_deno_bot.Users.Changes.{apart-In}
use line_deno_bot.Users.Kept.{IsStore, IfReturned, set_bot_id-IsStore}
use line_deno_bot.Bots.{
  BotRegistry, Resolved, host, no_config, is_host, open_host, bot_for, assigned, resolve_for,
  resolve,
}

-- The account of the id has this bot, and no other account has it.
pub record Owns (id bot : Text) (file : UsersFile) : Type 0 where
  pub account : UserRecord
  pub stored : find_by_id id file ≡ some account
  pub has_bot : account.bot_id ≡ some bot
  pub alone : is_owned id bot file.users ≡ false

abbrev pub IsTheirs :
    (Text → Text) → (Text → Text) → Text → UsersFile × BotRegistry × Resolved → Type 0
IsTheirs lower hash id (file, r, host bot) = IsStore lower hash file × Owns id bot file
IsTheirs lower hash id (file, r, o) = IsStore lower hash file

any-none :
    (p : UserRecord → Bool) (users : List UserRecord)
    → ((u : UserRecord) → In u users → p u ≡ false)
    → any p users ≡ false
any-none p [] k = refl
any-none p (u ∷ users) k = rw (k u (inl refl)) (any-none p users (λ v m. k v (inr m)))

and_false : (b : Bool) → (b && false) ≡ false
and_false true = refl
and_false false = refl

find-In :
    (p : UserRecord → Bool) (users : List UserRecord) (c : UserRecord)
    → find p users ≡ some c
    → In c users × (p c ≡ true)
find-In p [] c e = absurd (ground (arith, e))
find-In p (u ∷ users) c e = elim (Bool-cases (p u)) [
  | inl h ↦
      let hit : some u ≡ some c = subst (λ b. (if b then some u else find p users) ≡ some c) h e in
      let same : c ≡ u = ap (λ o. get_or o c) (sym hit) in (inl same, ap p same ∙ h)
  | inr h ↦
      let (m, k) =
        find-In p users c (subst (λ b. (if b then some u else find p users) ≡ some c) h e) in
      (inr m, k)
]

find-update :
    (id : Text) (f : UserRecord → UserRecord) (users : List UserRecord) (c : UserRecord)
    → find (has_id id) users ≡ some c
    → ((u : UserRecord) → has_id id (f u) ≡ has_id id u)
    → find (has_id id) (update id f users) ≡ some (f c)
unfolding update
find-update id f [] c e k = absurd (ground (arith, e))
find-update id f (u ∷ users) c e k = elim (Bool-cases (has_id id u)) [
  | inl h ↦
      let hit : some u ≡ some c =
        subst (λ b. (if b then some u else find (has_id id) users) ≡ some c) h e in
      rw (h, k u, h) (ap (λ o. some (f (get_or o u))) hit)
  | inr h ↦
      let miss = subst (λ b. (if b then some u else find (has_id id) users) ≡ some c) h e in
      rw (h, h) (find-update id f users c miss k)
]

-- A change of one user says nothing of the others.
any-update :
    (id : Text) (f : UserRecord → UserRecord) (p : UserRecord → Bool) (users : List UserRecord)
    → ((u : UserRecord) → has_id id (f u) ≡ has_id id u)
    → any (λ u. p u && not (has_id id u)) (update id f users)
      ≡ any (λ u. p u && not (has_id id u)) users
unfolding update
any-update id f p [] k = refl
any-update id f p (u ∷ users) k = elim (Bool-cases (has_id id u)) [
  | inl h ↦ rw (h, k u, h, and_false (p (f u)), and_false (p u)) refl
  | inr h ↦ rw (h, h) (ap (λ b. (p u && true) || b) (any-update id f p users k))
]

module _ (lower hash : Text → Text) (id : Text) where
  open_host-IsTheirs :
      (config_ok : Bool) (bot : Text) (file : UsersFile) (r : BotRegistry)
      → IsStore lower hash file
      → Owns id bot file
      → IsTheirs lower hash id (open_host config_ok bot file r)
  unfolding open_host
  open_host-IsTheirs config_ok bot file r s o =
      if-cases (IsTheirs lower hash id) (is_host bot r.hosts) (file, r, host bot) _ (λ e. (s, o))
        (λ e.
          if-cases (IsTheirs lower hash id) (not config_ok) (file, r, no_config) _ (λ e'. s)
            (λ e'. (s, o)))

  -- A bot that an account has is nobody else's.
  IsApart-alone :
      (bot : Text) (users : List UserRecord) (c : UserRecord)
      → IsApart lower users
      → find (has_id id) users ≡ some c
      → c.bot_id ≡ some bot
      → any (λ u. is_bot u.bot_id bot && not (has_id id u)) users ≡ false
  IsApart-alone bot users c h e b =
      any-none (λ u. is_bot u.bot_id bot && not (has_id id u)) users (λ v m. one v m)
    where
      bots : (o : Option Text) → shares_bot (some bot) o ≡ false → is_bot o bot ≡ false
      bots none k = refl
      bots (some a) k = text_beq_comm a bot ∙ k

      one : (v : UserRecord) → In v users → (is_bot v.bot_id bot && not (has_id id v)) ≡ false
      one v m = elim (Bool-cases (has_id id v)) [
        | inl i ↦ rw i (and_false (is_bot v.bot_id bot))
        | inr i ↦
            let (held, own) = find-In (has_id id) users c e in
            let apart = apart-In lower id users c v h held m own i in
            let shared : shares_bot c.bot_id v.bot_id ≡ false = ground (arith, apart) in
            let free = bots v.bot_id (subst (λ o. shares_bot o v.bot_id ≡ false) b shared) in
            rw free refl
      ]

  set_bot_id-IsTheirs :
      (now : ℕ) (config_ok : Bool) (bot : Text) (file : UsersFile) (r : BotRegistry)
      → IsStore lower hash file
      → IsTheirs lower hash id (assigned config_ok bot r file (set_bot_id now id bot file))
  unfolding set_bot_id find_by_id is_owned
  set_bot_id-IsTheirs now config_ok bot file r s =
      entered (find (has_id id) file.users) refl (set_bot_id-IsStore lower hash now id bot file s)
    where
      f : UserRecord → UserRecord
      f u = record u { bot_id = some bot; updated_at = now }

      after : UsersFile
      after = record file { users = update id f file.users }

      entered :
          (o : Option UserRecord)
          → find (has_id id) file.users ≡ o
          → IfReturned lower hash (set_bot_id now id bot file)
          → IsTheirs lower hash id (
              assigned config_ok bot r file (
                found_or_threw o
                  (if is_owned id bot file.users then threw bot_taken else returned after tt)))
      entered none e k = s
      entered (some c) e k = elim (Bool-cases (is_owned id bot file.users)) [
        | inl g ↦ rw g s
        | inr g ↦
            let kept : IsStore lower hash after =
              subst (IfReturned lower hash)
                (ap
                    (λ o.
                      found_or_threw o
                        (if is_owned id bot file.users then threw bot_taken else returned after tt))
                    e
                  ∙ ap (λ b. if b then threw bot_taken else returned after tt) g)
                k in
            rw g (
              open_host-IsTheirs config_ok bot after r kept (record {
                account = f c;
                stored = find-update id f file.users c e (λ u. refl);
                has_bot = refl;
                alone = owned-update g;
              }))
      ]
        where
          owned-update :
              is_owned id bot file.users ≡ false
              → any (λ u. is_bot u.bot_id bot && not (has_id id u)) (update id f file.users) ≡ false
          owned-update g = any-update id f (λ u. is_bot u.bot_id bot) file.users (λ u. refl) ∙ g

  -- A person whose account is in the file reaches, when they reach a bot, one that their account has and no other
  -- account has; and the accounts stay apart, with an admin, also when the assignment is refused.
  pub resolve-IsTheirs :
      (now : ℕ) (config_ok : Bool) (u c : UserRecord) (file : UsersFile) (r : BotRegistry)
      → IsStore lower hash file
      → u.user_id ≡ id
      → find_by_id id file ≡ some c
      → IsTheirs lower hash id (resolve lower now config_ok u file r)
  unfolding resolve find_by_id is_owned
  resolve-IsTheirs now config_ok u c file r s i e =
      let found : find (has_id u.user_id) file.users ≡ some c =
        subst (λ k. find (has_id k) file.users ≡ some c) (sym i) e in
      let own : has_id id c ≡ true = (find-In (has_id id) file.users c e).1 in
      let named : c.user_id ≡ id = ground (arith, own, text_beq_iff c.user_id id) in
      subst (λ k. IsTheirs lower hash id (resolve_for lower now config_ok k k.bot_id file r))
        (sym (ap (λ o. get_or o u) found)) (known c.bot_id refl named)
    where
      known :
          (o : Option Text)
          → c.bot_id ≡ o
          → c.user_id ≡ id
          → IsTheirs lower hash id (resolve_for lower now config_ok c o file r)
      known (some bot) b n = open_host-IsTheirs config_ok bot file r s (record {
        account = c;
        stored = e;
        has_bot = b;
        alone = IsApart-alone bot file.users c s.apart e b;
      })
      known none b n =
          subst
            (λ k. IsTheirs lower hash id (
              assigned config_ok (bot_for lower c file r) r file
                (set_bot_id now k (bot_for lower c file r) file)))
            (sym n) (set_bot_id-IsTheirs now config_ok (bot_for lower c file r) file r s)
