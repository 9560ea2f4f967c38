-- ===== src/Bots.antt =====
-- apps/worker/src/bots/bot-registry.ts: which bot a signed-in person reaches. The assignments run one after
-- another, so each is one function of the accounts and the hosts; of a host the bot's id is kept.
-- Whether writing the config of a new bot succeeds is an argument.
pub mod Owner
mod Tests
use line_deno_bot.Prelude.{
  ℕ, Bool, true, false, not, ◌&&◌, Option, none, some, List, [], ◌∷◌, ◌++◌, if◌then◌else◌, filter,
  any, take, ◌==◌, get_or, leb,
}
use line_deno_bot.Prelude.Text.{Text, text, text_beq}
use line_deno_bot.Users.{
  UserRecord, UsersFile, UsersError, Outcome, returned, threw, is_admin, is_bot, find_by_id,
  set_bot_id, same_username,
}

pub record BotRegistry : Type 0 where
  pub primary : Text
  pub primary_owner : Option Text
  pub owned_start_concurrency : ℕ
  pub hosts : List Text

-- The constructor; `none` is its ConfigError.
unfoldable pub new_registry : Text → Option Text → Option ℕ → Option BotRegistry
new_registry primary primary_owner owned_start_concurrency =
    let concurrency = get_or owned_start_concurrency 2 in
    if concurrency == 0
    then none
    else some (record {
      primary = primary;
      primary_owner = primary_owner;
      owned_start_concurrency = concurrency;
      hosts = primary ∷ [];
    })

-- `u-` and the first twelve characters of the id without its dashes.
unfoldable pub bot_id_for_user : Text → Text
bot_id_for_user id = text "u-" ++ take 12 (filter (λ c. not (c == 45)) id)

pub data Resolved : Type 0 where
  host : Text → Resolved
  refused : UsersError → Resolved
  no_config : Resolved

abbrev pub is_host : Text → List Text → Bool
is_host bot hosts = any (λ h. text_beq h bot) hosts

-- `#resolve`, once the bot is known. The first argument says whether the new bot's config is there or is written.
unfoldable pub open_host :
    Bool → Text → UsersFile → BotRegistry → UsersFile × BotRegistry × Resolved
open_host config_ok bot file r =
    if is_host bot r.hosts
    then (file, r, host bot)
    else if not config_ok
    then (file, r, no_config)
    else (file, record r { hosts = r.hosts ++ bot ∷ [] }, host bot)

abbrev pub assigned :
    Bool → Text → BotRegistry → UsersFile → Outcome Unit → UsersFile × BotRegistry × Resolved
assigned config_ok bot r file (returned file' a) = open_host config_ok bot file' r
assigned config_ok bot r file (threw e) = (file, r, refused e)

module _ (lower : Text → Text) where
  unfoldable pub may_claim_primary : UserRecord → BotRegistry → Bool
  may_claim_primary u r = by_owner r.primary_owner
    where
      by_owner : Option Text → Bool
      by_owner none = is_admin u.role
      by_owner (some []) = is_admin u.role
      by_owner (some (c ∷ owner)) = same_username lower u.username (c ∷ owner)

  -- The bot that `#assign` picks.
  unfoldable pub bot_for : UserRecord → UsersFile → BotRegistry → Text
  unfolding may_claim_primary bot_id_for_user
  bot_for u file r =
      if not (any (λ v. is_bot v.bot_id r.primary) file.users) && may_claim_primary u r
      then r.primary
      else bot_id_for_user u.user_id

  abbrev pub resolve_for :
      ℕ
      → Bool
      → UserRecord
      → Option Text
      → UsersFile
      → BotRegistry
      → UsersFile × BotRegistry × Resolved
  resolve_for now config_ok u (some bot) file r = open_host config_ok bot file r
  resolve_for now config_ok u none file r =
      let bot = bot_for u file r in
      assigned config_ok bot r file (set_bot_id now u.user_id bot file)

  -- `#resolve`, with the record that is in the file, or the caller's when there is none.
  unfoldable pub resolve :
      ℕ → Bool → UserRecord → UsersFile → BotRegistry → UsersFile × BotRegistry × Resolved
  unfolding open_host bot_for find_by_id set_bot_id
  resolve now config_ok u file r =
      let current = get_or (find_by_id u.user_id file) u in
      resolve_for now config_ok current current.bot_id file r

abbrev pub without : Text → BotRegistry → BotRegistry
without bot r = record r { hosts = filter (λ h. not (text_beq h bot)) r.hosts }

-- The bot of a removed person is closed; the primary stays.
unfoldable pub release : UserRecord → BotRegistry → BotRegistry
release u r = closed u.bot_id
  where
    closed : Option Text → BotRegistry
    closed none = r
    closed (some bot) = if text_beq bot r.primary then r else without bot r

unfoldable pub close_all : BotRegistry → BotRegistry
close_all r = record r { hosts = [] }
