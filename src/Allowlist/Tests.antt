-- ===== src/Allowlist/Tests.antt =====
-- A small allowlist.
use line_deno_bot.Prelude.{◌≡◌, ◌↔◌, refl, true, some, List, [], ◌∷◌, In, is_some}
use line_deno_bot.Prelude.Text.{Text, text, text_eq}
use line_deno_bot.Prelude.Dict.{lookup}
use line_deno_bot.Allowlist.{ByOwner, allows, is_restricted, new_allowlist}
use line_deno_bot.Allowlist.Owners.{allows-new_allowlist}

abbrev entries : ByOwner
entries = (text "o", text "s" ∷ []) ∷ (text "p", []) ∷ []

allows-new_allowlist_example :
    ((allows (new_allowlist entries) (text "o") (text "s") ≡ true)
      ↔ ((ids : List Text) → lookup (text "o") entries ≡ some ids → In (text "s") ids))
    × (is_restricted (new_allowlist entries) (text "o") ≡ is_some (lookup (text "o") entries))
unfolding lookup
allows-new_allowlist_example = allows-new_allowlist entries (text "o") (text "s") (refl, (refl, tt))
