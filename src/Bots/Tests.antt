-- ===== src/Bots/Tests.antt =====
-- A fresh install, where the administrator claims the primary bot and the next person gets one of their own.
use line_deno_bot.Prelude.{◌+◌, ◌≡◌, refl, true, none, some, [], ◌∷◌, map, leb, ◌&&◌, if◌then◌else◌}
use line_deno_bot.Prelude.Text.{Text, text, trim, trim_start, trim_end, is_space}
use line_deno_bot.Users.{
  UserRecord, UsersFile, CreateUserInput, admin, user, seed, create, set_role, set_bot_id,
  set_password, remove, find_by_id, update, has_another_admin, is_owned,
}
use line_deno_bot.Users.Kept.{IsStore}
use line_deno_bot.Users.Runs.{creates, run, step, has_reuse, run-seed-IsStore}
use line_deno_bot.Bots.{
  BotRegistry, host, new_registry, resolve, open_host, bot_for, may_claim_primary, bot_id_for_user,
  release, close_all,
}
use line_deno_bot.Bots.Owner.{IsTheirs, resolve-IsTheirs}

-- Lower case of the ASCII letters.
abbrev lower : Text → Text
lower t = map (λ c. if leb 65 c && leb c 90 then c + 32 else c) t

abbrev hash : Text → Text
hash t = 35 ∷ t

abbrev bob : CreateUserInput
bob = record { username = text "Bob"; password = text "secret"; role = none; display_name = none }

abbrev account : Text → Text → UserRecord
account id name = record {
  user_id = id;
  username = name;
  password_hash = hash (text "secret");
  role = user;
  display_name = none;
  bot_id = none;
  created_at = 1;
  updated_at = 1;
}

abbrev root : UserRecord
root = record (account (text "a-1") (text "admin")) {
  password_hash = hash (text "Root@77#");
  role = admin;
  created_at = 0;
  updated_at = 0;
}

abbrev bobby : UserRecord
bobby = account (text "b-2") (text "Bob")

abbrev file : UsersFile
file = record { secret = text "k"; users = root ∷ bobby ∷ [] }

abbrev registry : BotRegistry
registry = record {
  primary = text "main";
  primary_owner = none;
  owned_start_concurrency = 2;
  hosts = text "main" ∷ [];
}

file-IsStore : IsStore lower hash file
unfolding has_reuse step seed create set_role set_bot_id set_password remove find_by_id update
    has_another_admin is_owned trim trim_start trim_end is_space run
file-IsStore =
    run-seed-IsStore lower hash 0 (text "a-1") (text "k") (creates 1 (text "b-2") bob ∷ []) refl

new_registry_main : new_registry (text "main") none none ≡ some registry
unfolding new_registry
new_registry_main = refl

resolve_admin : (resolve lower 5 true root file registry).2 ≡ host (text "main")
unfolding resolve open_host bot_for may_claim_primary bot_id_for_user find_by_id set_bot_id update
    is_owned
resolve_admin = refl

resolve_user : (resolve lower 5 true bobby file registry).2 ≡ host (text "u-b2")
unfolding resolve open_host bot_for may_claim_primary bot_id_for_user find_by_id set_bot_id update
    is_owned
resolve_user = refl

close_all_main : (close_all registry).hosts ≡ []
unfolding close_all
close_all_main = refl

release_primary : release (record root { bot_id = some (text "main") }) registry ≡ registry
unfolding release
release_primary = refl

resolve-IsTheirs_example :
    IsTheirs lower hash (text "b-2") (resolve lower 5 true bobby file registry)
unfolding find_by_id
resolve-IsTheirs_example =
    resolve-IsTheirs lower hash (text "b-2") 5 true bobby bobby file registry file-IsStore refl refl
