-- ===== src/Users/Runs.antt =====
-- users-store.ts over a run of transactions, from the file that the store seeds.
use line_deno_bot.Prelude.{ℕ, ◌≡◌, Bool, false, ◌||◌, List, [], ◌∷◌, any, arith}
use line_deno_bot.Prelude.Text.{Text}
use line_deno_bot.Users.{
  UserRole, UsersFile, CreateUserInput, Outcome, returned, threw, has_id, set_role, set_bot_id,
  remove, create, set_password, seed,
}
use line_deno_bot.Users.Kept.{
  IsStore, IfReturned, create-IsStore, set_password-IsStore, set_role-IsStore, set_bot_id-IsStore,
  remove-IsStore, seed-IsStore,
}

pub data Call : Type 0 where
  creates : ℕ → Text → CreateUserInput → Call
  sets_password : ℕ → Text → Text → Call
  sets_role : ℕ → Text → UserRole → Call
  sets_bot_id : ℕ → Text → Text → Call
  removes : Text → Call

-- The file after a transaction; one that throws leaves it as it was.
abbrev pub file_after : {A : Type 0} → UsersFile → Outcome A → UsersFile
file_after file (returned file' a) = file'
file_after file (threw e) = file

module _ (lower hash_password : Text → Text) where
  unfoldable pub step : Call → UsersFile → UsersFile
  step (creates now id input) file = file_after file (create lower hash_password now id input file)
  step (sets_password now id password) file =
      file_after file (set_password hash_password now id password file)
  step (sets_role now id role) file = file_after file (set_role now id role file)
  step (sets_bot_id now id bot) file = file_after file (set_bot_id now id bot file)
  step (removes id) file = file_after file (remove id file)

  unfoldable pub run : List Call → UsersFile → UsersFile
  unfolding step
  run [] file = file
  run (c ∷ calls) file = run calls (step c file)

  -- Whether `randomUUID` gives an id that is in use.
  abbrev pub reuses : Call → UsersFile → Bool
  reuses (creates now id input) file = any (has_id id) file.users
  reuses _ file = false

  unfoldable pub has_reuse : List Call → UsersFile → Bool
  unfolding step
  has_reuse [] file = false
  has_reuse (c ∷ calls) file = reuses c file || has_reuse calls (step c file)

  file_after-IsStore :
      {A : Type 0} (file : UsersFile) (o : Outcome A)
      → IsStore lower hash_password file
      → IfReturned lower hash_password o
      → IsStore lower hash_password (file_after file o)
  file_after-IsStore file (returned file' a) h k = k
  file_after-IsStore file (threw e) h k = h

  step-IsStore :
      (c : Call) (file : UsersFile)
      → reuses c file ≡ false
      → IsStore lower hash_password file
      → IsStore lower hash_password (step c file)
  unfolding step
  step-IsStore (creates now id input) file fresh h =
      file_after-IsStore file _ h (create-IsStore lower hash_password now id input file fresh h)
  step-IsStore (sets_password now id password) file fresh h =
      file_after-IsStore file _ h (set_password-IsStore lower hash_password now id password file h)
  step-IsStore (sets_role now id role) file fresh h =
      file_after-IsStore file _ h (set_role-IsStore lower hash_password now id role file h)
  step-IsStore (sets_bot_id now id bot) file fresh h =
      file_after-IsStore file _ h (set_bot_id-IsStore lower hash_password now id bot file h)
  step-IsStore (removes id) file fresh h =
      file_after-IsStore file _ h (remove-IsStore lower hash_password id file h)

  run-IsStore :
      (calls : List Call) (file : UsersFile)
      → has_reuse calls file ≡ false
      → IsStore lower hash_password file
      → IsStore lower hash_password (run calls file)
  unfolding run has_reuse
  run-IsStore [] file fresh h = h
  run-IsStore (c ∷ calls) file fresh h =
      run-IsStore calls (step c file) (ground (arith, fresh))
        (step-IsStore c file (ground (arith, fresh)) h)

  -- Through any transactions on the seeded file, while no random id is used twice: no two accounts share an id, a
  -- name up to case, or a bot, and at least one account is an admin.
  pub run-seed-IsStore :
      (now : ℕ) (id secret : Text) (calls : List Call)
      → has_reuse calls (seed hash_password now id secret) ≡ false
      → IsStore lower hash_password (run calls (seed hash_password now id secret))
  run-seed-IsStore now id secret calls fresh =
      run-IsStore calls (seed hash_password now id secret) fresh
        (seed-IsStore lower hash_password now id secret)
