-- ===== src/Users.antt =====
-- apps/worker/src/admin/users-store.ts: the accounts of the console. The store runs its transactions one
-- after another, so each is one function of the file; reading and writing the file are not modelled.
-- `toLowerCase`, the hash of a password and the new user's id are parameters.
pub mod Sound
pub mod Changes
pub mod Kept
pub mod Runs
mod Tests
use line_deno_bot.Prelude.{
  ℕ, Bool, true, false, not, ◌&&◌, ◌||◌, Option, none, some, List, [], ◌∷◌, ◌++◌, if◌then◌else◌,
  filter, find, any, length, ltb, get_or, ◌==◌,
}
use line_deno_bot.Prelude.Text.{Text, text, text_beq, trim}

pub data UserRole : Type 0 where
  admin user : UserRole

abbrev pub is_admin : UserRole → Bool
is_admin admin = true
is_admin user = false

pub record UserRecord : Type 0 where
  pub user_id : Text
  pub username : Text
  pub password_hash : Text
  pub role : UserRole
  pub display_name : Option Text
  pub bot_id : Option Text
  pub created_at : ℕ
  pub updated_at : ℕ

pub record UsersFile : Type 0 where
  pub secret : Text
  pub users : List UserRecord

pub record CreateUserInput : Type 0 where
  pub username : Text
  pub password : Text
  pub role : Option UserRole
  pub display_name : Option Text

pub data UsersError : Type 0 where
  username_required password_too_short username_taken user_not_found bot_taken last_admin :
      UsersError

-- What a transaction does: it writes the file and returns, or it throws and the file stays.
pub data Outcome (A : Type 0) : Type 0 where
  returned : UsersFile → A → Outcome A
  threw : UsersError → Outcome A

abbrev pub has_id : Text → UserRecord → Bool
has_id id u = text_beq u.user_id id

unfoldable pub find_by_id : Text → UsersFile → Option UserRecord
find_by_id id file = find (has_id id) file.users

-- `users[index] = ...`, at the first user of the id.
unfoldable pub update : Text → (UserRecord → UserRecord) → List UserRecord → List UserRecord
update id f [] = []
update id f (u ∷ users) =
    let rest = update id f users in if has_id id u then f u ∷ users else u ∷ rest

abbrev pub found_or_threw : Option UserRecord → Outcome Unit → Outcome Unit
found_or_threw none o = threw user_not_found
found_or_threw (some u) o = o

-- Whether an admin other than this user exists.
unfoldable pub has_another_admin : Text → List UserRecord → Bool
has_another_admin id users = any (λ u. is_admin u.role && not (has_id id u)) users

unfoldable pub set_role : ℕ → Text → UserRole → UsersFile → Outcome Unit
unfolding find_by_id update has_another_admin
set_role now id role file = checked (find_by_id id file)
  where
    checked : Option UserRecord → Outcome Unit
    checked none = threw user_not_found
    checked (some current) =
        if is_admin current.role && not (is_admin role) && not (has_another_admin id file.users)
        then threw last_admin
        else returned
            (record file {
              users = update id (λ u. record u { role = role; updated_at = now }) file.users;
            })
            tt

abbrev pub is_bot : Option Text → Text → Bool
is_bot none id = false
is_bot (some b) id = text_beq b id

-- Whether the bot belongs to somebody else.
unfoldable pub is_owned : Text → Text → List UserRecord → Bool
is_owned id bot users = any (λ u. is_bot u.bot_id bot && not (has_id id u)) users

unfoldable pub set_bot_id : ℕ → Text → Text → UsersFile → Outcome Unit
unfolding find_by_id update is_owned
set_bot_id now id bot file = found_or_threw (find_by_id id file) (
    if is_owned id bot file.users
    then threw bot_taken
    else returned
        (record file {
          users = update id (λ u. record u { bot_id = some bot; updated_at = now }) file.users;
        })
        tt)

unfoldable pub remove : Text → UsersFile → Outcome Unit
unfolding find_by_id has_another_admin
remove id file = checked (find_by_id id file)
  where
    checked : Option UserRecord → Outcome Unit
    checked none = threw user_not_found
    checked (some target) =
        if is_admin target.role && not (has_another_admin id file.users)
        then threw last_admin
        else returned (record file { users = filter (λ u. not (has_id id u)) file.users }) tt

module _ (lower : Text → Text) where
  abbrev pub same_username : Text → Text → Bool
  same_username a b = text_beq (lower a) (lower b)

  unfoldable pub find_by_username : Text → UsersFile → Option UserRecord
  find_by_username name file = find (λ u. same_username u.username name) file.users

  module _ (hash_password : Text → Text) where
    -- The new user's id is the argument `id`.
    unfoldable pub create : ℕ → Text → CreateUserInput → UsersFile → Outcome UserRecord
    unfolding trim
    create now id input file =
        let username = trim input.username in
        let new : UserRecord = record {
          user_id = id;
          username = username;
          password_hash = hash_password input.password;
          role = get_or input.role user;
          display_name = input.display_name;
          bot_id = none;
          created_at = now;
          updated_at = now;
        } in
        if length username == 0
        then threw username_required
        else if ltb (length input.password) 6
        then threw password_too_short
        else if any (λ u. same_username u.username username) file.users
        then threw username_taken
        else returned (record file { users = file.users ++ new ∷ [] }) new

module _ (hash_password : Text → Text) where
  unfoldable pub set_password : ℕ → Text → Text → UsersFile → Outcome Unit
  unfolding find_by_id update
  set_password now id password file =
      if ltb (length password) 6
      then threw password_too_short
      else found_or_threw (find_by_id id file) (
          returned
            (record file {
              users =
                  update id
                    (λ u. record u { password_hash = hash_password password; updated_at = now })
                    file.users;
            })
            tt)

  -- The file of a store that has none yet.
  unfoldable pub seed : ℕ → Text → Text → UsersFile
  seed now id secret = record {
    secret = secret;
    users =
        record {
          user_id = id;
          username = text "admin";
          password_hash = hash_password (text "Root@77#");
          role = admin;
          display_name = none;
          bot_id = none;
          created_at = now;
          updated_at = now;
        }
        ∷ [];
  }
