-- ===== src/Allowlist.antt =====
-- apps/worker/src/core/allowlist.ts: who may start a job, by owner and by sender id. A set of sender
-- ids is the list that it is made of.
mod Tests
pub mod Owners
use line_deno_bot.Prelude.{
  ℕ, ◌≡◌, refl, ◌↔◌, ◌⊎◌, inl, inr, Bool, true, false, Option, none, some, List, [], ◌∷◌, arith,
  any, if◌then◌else◌, Option-cases, Bool-cases, ◌∙◌, sym,
}
use line_deno_bot.Prelude.Text.{Text, text_eq, text_beq, text_beq_iff}
use line_deno_bot.Prelude.Dict.{lookup, insert, has, lookup-insert}

abbrev pub SenderAllowlist : Type 0
SenderAllowlist = Text → Text → Bool

abbrev pub allow_any_sender : SenderAllowlist
allow_any_sender owner_id sender_id = true

abbrev pub ByOwner : Type 0
ByOwner = List (Text × List Text)

-- The constructor's loop over `Object.entries`.
unfoldable pub fill : ByOwner → ByOwner → ByOwner
fill by_owner [] = by_owner
fill by_owner ((owner_id, sender_ids) ∷ entries) =
    fill (insert owner_id sender_ids by_owner) entries

unfoldable pub new_allowlist : ByOwner → ByOwner
unfolding fill
new_allowlist entries = fill [] entries

abbrev in_set : Text → Option (List Text) → Bool
in_set sender_id none = true
in_set sender_id (some allowed) = any (text_beq sender_id) allowed

unfoldable pub allows : ByOwner → SenderAllowlist
allows by_owner owner_id sender_id = in_set sender_id (lookup owner_id by_owner)

unfoldable pub is_restricted : ByOwner → Text → Bool
is_restricted by_owner owner_id = has owner_id by_owner
