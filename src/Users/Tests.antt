-- ===== src/Users/Tests.antt =====
-- An administrator and a second account, which ask for one bot.
use line_deno_bot.Prelude.{◌+◌, refl, none, List, [], ◌∷◌, map, leb, ◌&&◌, if◌then◌else◌}
use line_deno_bot.Prelude.Text.{Text, text, trim, trim_start, trim_end, is_space}
use line_deno_bot.Users.{
  user, CreateUserInput, seed, create, set_role, set_bot_id, set_password, remove, find_by_id,
  update, has_another_admin, is_owned,
}
use line_deno_bot.Users.Kept.{IsStore}
use line_deno_bot.Users.Runs.{
  Call, creates, sets_role, sets_bot_id, removes, run, step, has_reuse, run-seed-IsStore,
}

-- Lower case of the ASCII letters.
abbrev lower : Text → Text
lower t = map (λ c. if leb 65 c && leb c 90 then c + 32 else c) t

abbrev hash : Text → Text
hash t = 35 ∷ t

abbrev bob : CreateUserInput
bob = record { username = text " Bob "; password = text "secret"; role = none; display_name = none }

abbrev calls : List Call
calls =
    creates 1 (text "u2") bob
    ∷ creates 2 (text "u3") bob
    ∷ sets_bot_id 3 (text "u1") (text "main")
    ∷ sets_bot_id 4 (text "u2") (text "main")
    ∷ sets_role 5 (text "u1") user
    ∷ removes (text "u1")
    ∷ []

run-seed-IsStore_example :
    IsStore lower hash (run lower hash calls (seed hash 0 (text "u1") (text "k")))
unfolding has_reuse step seed create set_role set_bot_id set_password remove find_by_id update
    has_another_admin is_owned trim trim_start trim_end is_space
run-seed-IsStore_example = run-seed-IsStore lower hash 0 (text "u1") (text "k") calls refl
